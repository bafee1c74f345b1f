-- ===== src/Backends/Counters.antt =====
-- The counters of a farm over its backends, and the setters of src/backends.c that keep them.
use nftlb.Prelude.{
  ℕ, ◌+◌, ◌≡◌, sym, ap, ◌∙◌, Bool, List, [], ◌∷◌, ℤ, pos, ◌+ℤ◌, +ℤ_zero, zero_+ℤ, +ℤ_assoc, count,
  arith, if◌then◌else◌,
}
use native.Mathlib.Nat.{zero-add}
use nftlb.Model.{Backend, Farm}
use nftlb.Backends.Predicates.{backend_is_available, backend_is_usable}

-- The weights of the backends that pass the test.
abbrev pub sum_weight : (Backend → Bool) → List Backend → ℤ
sum_weight p [] = pos 0
sum_weight p (b ∷ bs) = (if p b then b.weight else pos 0) +ℤ sum_weight p bs

-- bcks_available, bcks_usable and total_weight.
pub record Tally : Type 0 where
  pub available : ℕ
  pub usable : ℕ
  pub weight : ℤ

-- The body of the loop of backend_s_update_counters.
unfoldable pub tally : Farm → Backend → Tally → Tally
tally f b t =
    let counted =
      (if backend_is_available f b
        then record t { available = t.available + 1; weight = t.weight +ℤ b.weight }
        else t) in
    if backend_is_usable f b then record counted { usable = counted.usable + 1 } else counted

unfoldable pub tally_all : Farm → List Backend → Tally → Tally
unfolding tally
tally_all f [] t = t
tally_all f (b ∷ bs) t = tally_all f bs (tally f b t)

unfoldable pub backend_s_update_counters : Farm → Farm
backend_s_update_counters f =
    let t = tally_all f f.backends (record { available = 0; usable = 0; weight = pos 0 }) in
    record f { bcks_available = t.available; bcks_usable = t.usable; total_weight = t.weight }

-- Each counter is what it counts.
pub record IsCounted (f : Farm) : Type 0 where
  pub available : f.bcks_available ≡ count (backend_is_available f) f.backends
  pub usable : f.bcks_usable ≡ count (backend_is_usable f) f.backends
  pub weight : f.total_weight ≡ sum_weight (backend_is_available f) f.backends

module _ (f : Farm) where
  tally_lem :
      (b : Backend) (t : Tally)
      → ((tally f b t).available ≡ t.available + (if backend_is_available f b then 1 else 0))
        × ((tally f b t).usable ≡ t.usable + (if backend_is_usable f b then 1 else 0))
        × ((tally f b t).weight
            ≡ t.weight +ℤ (if backend_is_available f b then b.weight else pos 0))
  unfolding tally
  tally_lem b t = ground (arith, +ℤ_zero t.weight)

  tally_all-available :
      (bs : List Backend) (t : Tally)
      → (tally_all f bs t).available ≡ t.available + count (backend_is_available f) bs
  unfolding tally_all
  tally_all-available [] t = omega arith
  tally_all-available (b ∷ bs) t =
      omega (arith, tally_all-available bs (tally f b t), tally_lem b t)

  tally_all-usable :
      (bs : List Backend) (t : Tally)
      → (tally_all f bs t).usable ≡ t.usable + count (backend_is_usable f) bs
  unfolding tally_all
  tally_all-usable [] t = omega arith
  tally_all-usable (b ∷ bs) t = omega (arith, tally_all-usable bs (tally f b t), tally_lem b t)

  tally_all-weight :
      (bs : List Backend) (t : Tally)
      → (tally_all f bs t).weight ≡ t.weight +ℤ sum_weight (backend_is_available f) bs
  unfolding tally_all
  tally_all-weight [] t = sym (+ℤ_zero t.weight)
  tally_all-weight (b ∷ bs) t =
      tally_all-weight bs (tally f b t)
      ∙ ap (λ w. w +ℤ sum_weight (backend_is_available f) bs) (tally_lem b t).2
      ∙ +ℤ_assoc t.weight _ _

-- backend_s_update_counters makes each counter of the farm exact, whatever they were.
pub backend_s_update_counters-IsCounted : (f : Farm) → IsCounted (backend_s_update_counters f)
unfolding backend_s_update_counters backend_is_available backend_is_usable
backend_s_update_counters-IsCounted f =
    let none_yet : Tally = record { available = 0; usable = 0; weight = pos 0 } in
    record {
      available = tally_all-available f f.backends none_yet ∙ zero-add _;
      usable = tally_all-usable f f.backends none_yet ∙ zero-add _;
      weight = tally_all-weight f f.backends none_yet ∙ zero_+ℤ _;
    }
