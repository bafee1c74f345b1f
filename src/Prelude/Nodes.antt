-- ===== src/Prelude/Nodes.antt =====
-- Lists of nodes with an identity: the node with an id, an assignment through a pointer to a node, and
-- taking a node out, with what they do to a sum over the list.
use Prim.Native.Nat.{ℕ, ◌+◌, ◌≤◌}
use mathlib.Core.Path.{◌≡◌, refl, sym, ap, ◌∙◌}
use mathlib.Core.Logic.{inl, inr}
use mathlib.Core.Bool.{true, false}
use mathlib.Core.List.{List, [], ◌∷◌, ◌++◌}
use mathlib.Core.Option.{Option, none, some}
use native.Mathlib.Omega.{arith}
use nftlb.Prelude.Tests.{◌==◌, if◌then◌else◌, Bool-cases}
use nftlb.Prelude.Lists.{find?, All, length}

abbrev pub sum {ℓ} : {A : Type ℓ} → (A → ℕ) → List A → ℕ
sum g [] = 0
sum g (x ∷ xs) = g x + sum g xs

pub sum-append {ℓ} :
    {A : Type ℓ} (g : A → ℕ) (xs ys : List A) → sum g (xs ++ ys) ≡ sum g xs + sum g ys
sum-append g [] ys = omega arith
sum-append g (x ∷ xs) ys = omega (arith, sum-append g xs ys)

-- What an item with the id `j` adds to a count of those with the id `i`.
abbrev pub one_at : ℕ → ℕ → ℕ
one_at j i = if j == i then 1 else 0

module _ {ℓ} {A : Type ℓ} (id : A → ℕ) where
  abbrev pub node_at : ℕ → List A → Option A
  node_at i = find? (λ x. id x == i)

  unfoldable pub put_node : A → List A → List A
  put_node a [] = []
  put_node a (x ∷ xs) = if id x == id a then a ∷ xs else x ∷ put_node a xs

  unfoldable pub remove_node : ℕ → List A → List A
  remove_node i [] = []
  remove_node i (x ∷ xs) = if id x == i then xs else x ∷ remove_node i xs

  pub node_at-id : (i : ℕ) (a : A) (l : List A) → node_at i l ≡ some a → id a ≡ i
  node_at-id i a [] h = cc
  node_at-id i a (x ∷ xs) h = elim (Bool-cases (id x == i)) [
    | inl here ↦
        let it : x ≡ a = ground arith in
        let same : id x ≡ i = ground (arith, here) in ap id (sym it) ∙ same
    | inr further ↦ node_at-id i a xs (rw further at h)
  ]

  -- What an assignment through a pointer changes in a sum.
  pub sum-put_node :
      (g : A → ℕ) (a b : A) (l : List A)
      → id b ≡ id a
      → node_at (id a) l ≡ some a
      → sum g (put_node b l) + g a ≡ sum g l + g b
  unfolding put_node
  sum-put_node g a b [] same h = cc
  sum-put_node g a b (x ∷ xs) same h = elim (Bool-cases (id x == id a)) [
    | inl here ↦
        let found : (id x == id b) ≡ true = rw same here in
        let it : x ≡ a = ground arith in rw found (omega (arith, ap g it))
    | inr further ↦
        let not_found : (id x == id b) ≡ false = rw same further in
        rw not_found (omega (arith, sum-put_node g a b xs same (rw further at h)))
  ]

  pub sum-remove_node :
      (g : A → ℕ) (i : ℕ) (a : A) (l : List A)
      → node_at i l ≡ some a
      → sum g (remove_node i l) + g a ≡ sum g l
  unfolding remove_node
  sum-remove_node g i a [] h = cc
  sum-remove_node g i a (x ∷ xs) h = elim (Bool-cases (id x == i)) [
    | inl here ↦ let it : x ≡ a = ground arith in rw here (omega (arith, ap g it))
    | inr further ↦ rw further (omega (arith, sum-remove_node g i a xs (rw further at h)))
  ]

  pub node_at-put_node :
      (i : ℕ) (b : A) (l : List A) {a : A}
      → node_at (id b) l ≡ some a
      → node_at i (put_node b l) ≡ (if id b == i then some b else node_at i l)
  unfolding put_node
  node_at-put_node i b [] h = cc
  node_at-put_node i b (x ∷ xs) h = elim (Bool-cases (id x == id b)) [
    | inl here ↦
        let same : id x ≡ id b = ground (arith, here) in
        elim (Bool-cases (id b == i)) [
          | inl it ↦ rw (here, it) refl
          | inr other ↦
              let missed : (id x == i) ≡ false = rw same other in rw (here, other, missed) refl
        ]
    | inr further ↦ elim (Bool-cases (id x == i)) [
      | inl it ↦ let other : (id b == i) ≡ false = ground arith in rw (further, it, other) refl
      | inr missed ↦ rw (further, missed) (node_at-put_node i b xs (rw further at h))
    ]
  ]

  pub All-put_node {κ} :
      (P : A → Type κ) (b : A) (l : List A) → P b → All P l → All P (put_node b l)
  unfolding put_node
  All-put_node P b [] p ps = ps
  All-put_node P b (x ∷ xs) p ps = elim (Bool-cases (id x == id b)) [
    | inl here ↦ rw here (p, ps.1)
    | inr further ↦ rw further (ps.0, All-put_node P b xs p ps.1)
  ]

  pub All-node_at {κ} :
      (P : A → Type κ) (i : ℕ) (a : A) (l : List A) → node_at i l ≡ some a → All P l → P a
  All-node_at P i a [] h ps = cc
  All-node_at P i a (x ∷ xs) h ps = elim (Bool-cases (id x == i)) [
    | inl here ↦ let it : x ≡ a = ground arith in rw⁻¹ it ps.0
    | inr further ↦ All-node_at P i a xs (rw further at h) ps.1
  ]

  pub node_at-le-sum :
      (g : A → ℕ) (i : ℕ) (a : A) (l : List A) → node_at i l ≡ some a → g a ≤ sum g l
  node_at-le-sum g i a l h = omega (arith, sum-remove_node g i a l h)

  pub length-remove_node :
      (i : ℕ) (a : A) (l : List A) → node_at i l ≡ some a → length (remove_node i l) + 1 ≡ length l
  unfolding remove_node
  length-remove_node i a [] h = cc
  length-remove_node i a (x ∷ xs) h = elim (Bool-cases (id x == i)) [
    | inl here ↦ rw here (omega arith)
    | inr further ↦ rw further (omega (arith, length-remove_node i a xs (rw further at h)))
  ]

  pub length-put_node : (b : A) (l : List A) → length (put_node b l) ≡ length l
  unfolding put_node
  length-put_node b [] = refl
  length-put_node b (x ∷ xs) = elim (Bool-cases (id x == id b)) [
    | inl here ↦ rw here refl
    | inr further ↦ rw further (omega (arith, length-put_node b xs))
  ]

  -- How many nodes of the list have the id.
  abbrev pub occurrences : ℕ → List A → ℕ
  occurrences i = sum (λ x. one_at (id x) i)

  pub node_at_absent : (i : ℕ) (l : List A) → occurrences i l ≡ 0 → node_at i l ≡ none
  node_at_absent i [] h = refl
  node_at_absent i (x ∷ xs) h = elim (Bool-cases (id x == i)) [
    | inl here ↦ absurd (omega (arith, rw here at h))
    | inr further ↦ rw further (node_at_absent i xs (omega (arith, rw further at h)))
  ]

  pub absent_occurrences : (i : ℕ) (l : List A) → node_at i l ≡ none → occurrences i l ≡ 0
  absent_occurrences i [] h = refl
  absent_occurrences i (x ∷ xs) h = elim (Bool-cases (id x == i)) [
    | inl here ↦ cc (rw here at h)
    | inr further ↦ rw further (omega (arith, absent_occurrences i xs (rw further at h)))
  ]

  pub node_at-remove_node :
      (i j : ℕ) (l : List A) → (j == i) ≡ false → node_at i (remove_node j l) ≡ node_at i l
  unfolding remove_node
  node_at-remove_node i j [] other = refl
  node_at-remove_node i j (x ∷ xs) other = elim (Bool-cases (id x == j)) [
    | inl here ↦
        let missed : (id x == i) ≡ false = ground (arith, here, other) in rw (here, missed) refl
    | inr further ↦
        rw further (ap (λ o. if id x == i then some x else o) (node_at-remove_node i j xs other))
  ]
