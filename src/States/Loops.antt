-- ===== src/States/Loops.antt =====
-- Loops over the backends of a farm.
use nftlb.Prelude.{
  ℕ, ◌≡◌, refl, sym, subst, List, [], ◌∷◌, Option, none, some, ◌==◌, arith, inl, inr, Bool-cases,
  Option-cases,
}
use nftlb.Model.{Backend}
use nftlb.Sessions.Timed.{backend_at}
use nftlb.States.Focus.{Focus}
use nftlb.States.Calls.{for_backends}

pub backend_at-id : (i : ℕ) (b : Backend) (bs : List Backend) → backend_at i bs ≡ some b → b.id ≡ i
backend_at-id i b [] h = cc
backend_at-id i b (x ∷ xs) h = elim (Bool-cases (x.id == i)) [
  | inl here ↦ let it : x ≡ b = ground arith in rw⁻¹ it (ground (arith, here))
  | inr further ↦ backend_at-id i b xs (rw further at h)
]

pub backend_at_self :
    (i : ℕ) (b : Backend) (bs : List Backend)
    → backend_at i bs ≡ some b
    → backend_at b.id bs ≡ some b
backend_at_self i b bs h = subst (λ k. backend_at k bs ≡ some b) (sym (backend_at-id i b bs h)) h

-- A loop over backends ends, and what it is to keep may depend on the backends that are left.
pub for_backends-tracks :
    (P : List Backend → Focus → Type 0) (body : Backend → Focus → Option Focus)
    → ((x : Backend) (xs : List Backend) (s : Focus)
        → P (x ∷ xs) s
        → backend_at x.id s.farm.backends ≡ none
        → P xs s)
    → ((x : Backend) (xs : List Backend) (b : Backend) (s : Focus)
        → P (x ∷ xs) s
        → backend_at x.id s.farm.backends ≡ some b
        → (t : Focus) × (body b s ≡ some t) × P xs t)
    → (xs : List Backend) (s : Focus) → P xs s
    → (t : Focus) × (for_backends body xs s ≡ some t) × P [] t
unfolding for_backends
for_backends-tracks P body passes keeps [] s h = (s, refl, h)
for_backends-tracks P body passes keeps (x ∷ xs) s h =
    elim (Option-cases (backend_at x.id s.farm.backends)) [
      | inl gone ↦
          rw (gone, for_backends)
            (for_backends-tracks P body passes keeps xs s (passes x xs s h gone))
      | inr (b, here) ↦
          let (t, ran, kept) = keeps x xs b s h here in
          rw (here, for_backends, ran) (for_backends-tracks P body passes keeps xs t kept)
    ]

pub for_backends-keeps :
    (P : Focus → Type 0) (body : Backend → Focus → Option Focus)
    → ((b : Backend) (s : Focus)
        → P s
        → backend_at b.id s.farm.backends ≡ some b
        → (t : Focus) × (body b s ≡ some t) × P t)
    → (xs : List Backend) (s : Focus) → P s
    → (t : Focus) × (for_backends body xs s ≡ some t) × P t
for_backends-keeps P body keeps xs s h =
    for_backends-tracks (λ _ s. P s) body (λ x xs s h gone. h)
      (λ x xs b s h here. keeps b s h (backend_at_self x.id b s.farm.backends here)) xs s h
