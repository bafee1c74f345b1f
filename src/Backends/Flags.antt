-- ===== src/Backends/Flags.antt =====
-- The setters of src/backends.c keep the farm's counters and flags exact.
use nftlb.Prelude.{
  ℕ, ◌≡◌, refl, sym, ap, ◌∙◌, String, Bool, true, false, List, [], ◌∷◌, some, ℤ, pos, ◌+ℤ◌, ◌-ℤ◌,
  +ℤ_zero, +ℤ_assoc, arith, int_laws, count, any, find?, ◌==◌, Bool-cases, inl, inr, if◌then◌else◌,
}
use nftlb.Model.{Backend, Farm}
use nftlb.Backends.Predicates.{backend_is_available, backend_is_usable, backend_no_port}
use nftlb.Backends.Counters.{sum_weight, IsCounted}
use nftlb.Backends.Setters.{
  put, backend_set_weight, ports_flag, backend_set_port, has_srcaddr, backend_set_srcaddr,
}

-- `b` is the node of the list that has its id.
abbrev pub IsNode : Backend → List Backend → Type 0
IsNode b bs = find? (λ x. x.id == b.id) bs ≡ some b

IsNode-head :
    (b x : Backend) (xs : List Backend) → IsNode b (x ∷ xs) → (x.id == b.id) ≡ true → x ≡ b
IsNode-head b x xs h here = ground arith

weight_step :
    (q : Bool) (w w' s : ℤ)
    → (if q then w' else pos 0) +ℤ s
      ≡ (if q then w else pos 0) +ℤ s +ℤ (if q then w' -ℤ w else pos 0)
weight_step true w w' s = omega int_laws
weight_step false w w' s = omega int_laws

module _ (p : Backend → Bool) (b b' : Backend) (same_id : b'.id ≡ b.id) where
  count-put : (bs : List Backend) → p b' ≡ p b → IsNode b bs → count p (put b' bs) ≡ count p bs
  unfolding put
  count-put [] same h = cc
  count-put (x ∷ xs) same h = ground (arith, count-put xs same)

  sum_weight-put :
      (bs : List Backend)
      → p b' ≡ p b
      → IsNode b bs
      → sum_weight p (put b' bs) ≡ sum_weight p bs +ℤ (if p b then b'.weight -ℤ b.weight else pos 0)
  unfolding put
  sum_weight-put [] same h = cc
  sum_weight-put (x ∷ xs) same h = elim (Bool-cases (x.id == b.id)) [
    | inl here ↦
        let found : (x.id == b'.id) ≡ true = rw same_id here in
        rw (found, same, IsNode-head b x xs h here)
          (weight_step (p b) b.weight b'.weight (sum_weight p xs))
    | inr further ↦
        let not_found : (x.id == b'.id) ≡ false = rw same_id further in
        rw not_found (
          ap (λ s. (if p x then x.weight else pos 0) +ℤ s)
            (sum_weight-put xs same (rw further at h))
          ∙ sym (+ℤ_assoc _ _ _))
  ]

  any-put-false : (bs : List Backend) → p b' ≡ false → any p bs ≡ false → any p (put b' bs) ≡ false
  unfolding put
  any-put-false [] no_p h = cc
  any-put-false (x ∷ xs) no_p h = ground (arith, any-put-false xs no_p)

  any-put : (bs : List Backend) → p b' ≡ true → IsNode b bs → any p (put b' bs) ≡ true
  unfolding put
  any-put [] yes_p h = cc
  any-put (x ∷ xs) yes_p h = ground (arith, any-put xs yes_p)

add_if : (q : Bool) (a d : ℤ) → (if q then a +ℤ d else a) ≡ a +ℤ (if q then d else pos 0)
add_if true a d = refl
add_if false a d = sym (+ℤ_zero a)

-- The counters stay exact where the weight of a backend of the farm is set.
pub backend_set_weight-IsCounted :
    (f : Farm) (b : Backend) (v : ℤ)
    → IsNode b f.backends
    → IsCounted f
    → IsCounted (backend_set_weight f b v)
unfolding backend_set_weight backend_is_available backend_is_usable
backend_set_weight-IsCounted f b v node counted =
    let b' = record b { weight = v } in
    record {
      available =
          counted.available
          ∙ sym (count-put (backend_is_available f) b b' refl f.backends refl node);
      usable =
          counted.usable ∙ sym (count-put (backend_is_usable f) b b' refl f.backends refl node);
      weight =
          add_if (backend_is_available f b) f.total_weight (v -ℤ b.weight)
          ∙ ap (λ w. w +ℤ (if backend_is_available f b then v -ℤ b.weight else pos 0))
              counted.weight
          ∙ sym (sum_weight-put (backend_is_available f) b b' refl f.backends refl node);
    }

-- The flag for ports is 1 exactly where every backend has a port.
abbrev pub IsPortFlag : Farm → Type 0
IsPortFlag f = f.bcks_have_port ≡ (if any backend_no_port f.backends then 0 else 1)

port_flag_step :
    (have_port : ℕ) (lacks old new : Bool)
    → have_port ≡ (if old then 0 else 1)
    → (lacks ≡ true → new ≡ true)
    → (lacks ≡ false → old ≡ false → new ≡ false)
    → (if have_port == 0 then if new then 0 else 1 else if lacks then 0 else have_port)
      ≡ (if new then 0 else 1)
port_flag_step have_port lacks true new flag now never = rw flag refl
port_flag_step have_port true false new flag now never = rw (flag, now refl) refl
port_flag_step have_port false false new flag now never = rw (flag, never refl refl) refl

-- The flag for ports stays exact where the port of a backend of the farm is set.
pub backend_set_port-IsPortFlag :
    (f : Farm) (b : Backend) (port : String)
    → IsNode b f.backends
    → IsPortFlag f
    → IsPortFlag (backend_set_port f b port)
unfolding backend_set_port ports_flag
backend_set_port-IsPortFlag f b port node flag =
    let b' = record b { port = port } in
    port_flag_step f.bcks_have_port (backend_no_port b') (any backend_no_port f.backends)
      (any backend_no_port (put b' f.backends)) flag
      (λ lacks. any-put backend_no_port b b' refl f.backends lacks node)
      (any-put-false backend_no_port b b' refl f.backends)

-- The flag for source addresses is 1 exactly where some backend has one.
abbrev pub IsSrcaddrFlag : Farm → Type 0
IsSrcaddrFlag f = f.bcks_have_srcaddr ≡ (if any has_srcaddr f.backends then 1 else 0)

-- Setting the source address of a backend of the farm makes the flag for source addresses exact.
pub backend_set_srcaddr-IsSrcaddrFlag :
    (f : Farm) (b : Backend) (srcaddr : String)
    → IsNode b f.backends
    → IsSrcaddrFlag (backend_set_srcaddr f b srcaddr)
unfolding backend_set_srcaddr
backend_set_srcaddr-IsSrcaddrFlag f b srcaddr node =
    let b' = record b { srcaddr = some srcaddr } in
    elim (Bool-cases (has_srcaddr b')) [
      | inl has ↦ rw (has, any-put has_srcaddr b b' refl f.backends has node)
      | inr hasnt ↦ rw hasnt
    ]
