-- ===== src/States/Pending.antt =====
-- The backends that the second loop of backend_s_gen_priority of src/backends.c has still to settle.
use nftlb.Prelude.{
  ℕ, ◌+◌, ◌≤◌, ◌≡◌, refl, ap, subst, ◌∙◌, Bool, true, false, ◌&&◌, not, List, [], ◌∷◌, none, some,
  count, any, All, leb, ◌==◌, if◌then◌else◌, arith, Bool-cases, inl, inr,
}
use nftlb.Enums.{State, is_state}
use nftlb.Model.{Backend}
use nftlb.Sessions.Timed.{backend_at}
use nftlb.States.Alive.{is_alive, tick, Later}
use nftlb.States.Turn.{IsSettled}

-- No two backends have the same node.
abbrev pub IsDistinct : List Backend → Type 0
IsDistinct [] = Unit
IsDistinct (b ∷ bs) = (backend_at b.id bs ≡ none) × IsDistinct bs

abbrev pub is_unsettled : ℕ → Backend → Bool
is_unsettled p b =
    is_alive b && (if is_state b.state State.up then not (leb b.priority p) else leb b.priority p)

abbrev pub has_node : ℕ → List Backend → Bool
has_node i = any (λ x. x.id == i)

-- Unsettled, and not among those that the loop has still to come to.
abbrev pub is_pending : ℕ → List Backend → Backend → Bool
is_pending p rest b = is_unsettled p b && not (has_node b.id rest)

none-Later :
    (i : ℕ) (bs cs : List Backend) → Later bs cs → backend_at i bs ≡ none → backend_at i cs ≡ none
none-Later i [] [] later h = refl
none-Later i [] (c ∷ cs) later h = absurd later
none-Later i (b ∷ bs) [] later h = refl
none-Later i (b ∷ bs) (c ∷ cs) later h = elim (Bool-cases (b.id == i)) [
  | inl here ↦ cc (rw here at h)
  | inr further ↦
      let not_here : (c.id == i) ≡ false = ap (λ k. k == i) later.0.id ∙ further in
      rw not_here (none-Later i bs cs later.1 (rw further at h))
]

pub IsDistinct-Later : (bs cs : List Backend) → Later bs cs → IsDistinct bs → IsDistinct cs
IsDistinct-Later [] [] later h = tt
IsDistinct-Later [] (c ∷ cs) later h = absurd later
IsDistinct-Later (b ∷ bs) [] later h = tt
IsDistinct-Later (b ∷ bs) (c ∷ cs) later h = (
  ap (λ k. backend_at k cs) later.0.id ∙ none-Later b.id bs cs later.1 h.0,
  IsDistinct-Later bs cs later.1 h.1,
)

tick-and_not : (q r : Bool) → r ≡ true → tick (q && not r) ≡ 0
tick-and_not q r h = ground arith

tick-and_le : (q r : Bool) → tick (q && r) ≤ tick q
tick-and_le q r = ground arith

tick-and_true : (q : Bool) → tick (q && not false) ≡ tick q
tick-and_true q = ground arith

or_later : (q r : Bool) → r ≡ true → (if q then true else r) ≡ true
or_later q r h = ground arith

settled_of : (a u l : Bool) → tick (a && (if u then not l else l)) ≡ 0 → a ≡ true → u ≡ l
settled_of a u l h living = ground arith

other_way : (m n : ℕ) (q : Bool) → (m == n) ≡ q → (n == m) ≡ q
other_way m n q h = ground arith

has_node_self : (b : Backend) (bs : List Backend) → has_node b.id (b ∷ bs) ≡ true
has_node_self b bs = let it : (b.id == b.id) ≡ true = ground arith in rw it refl

-- Nothing is pending at the start.
pub pending_start :
    (p : ℕ) (bs rest : List Backend)
    → ((i : ℕ) → has_node i bs ≡ true → has_node i rest ≡ true)
    → count (is_pending p rest) bs ≡ 0
pending_start p [] rest h = refl
pending_start p (b ∷ bs) rest h =
    let there = h b.id (has_node_self b bs) in
    let tail = pending_start p bs rest (λ i e. h i (or_later (b.id == i) (has_node i bs) e)) in
    omega (arith, tick-and_not (is_unsettled p b) (has_node b.id rest) there, tail)

-- At the end what is pending is what is unsettled.
pub pending_end :
    (p : ℕ) (bs : List Backend) → count (is_pending p []) bs ≡ count (is_unsettled p) bs
pending_end p [] = refl
pending_end p (b ∷ bs) = omega (arith, tick-and_true (is_unsettled p b), pending_end p bs)

pub pending-le-unsettled :
    (p : ℕ) (rest bs : List Backend) → count (is_pending p rest) bs ≤ count (is_unsettled p) bs
pending-le-unsettled p rest [] = omega arith
pending-le-unsettled p rest (b ∷ bs) = omega (
  arith,
  tick-and_le (is_unsettled p b) (not (has_node b.id rest)),
  pending-le-unsettled p rest bs,
)

pub others :
    (p : ℕ) (x : Backend) (rest bs : List Backend)
    → backend_at x.id bs ≡ none
    → count (is_pending p rest) bs ≡ count (is_pending p (x ∷ rest)) bs
others p x rest [] h = refl
others p x rest (b ∷ bs) h = elim (Bool-cases (b.id == x.id)) [
  | inl here ↦ cc (rw here at h)
  | inr further ↦
      rw (other_way b.id x.id false further) (omega (arith, others p x rest bs (rw further at h)))
]

-- When the loop comes to a backend, it alone may become pending.
pub pending-next :
    (p : ℕ) (x b : Backend) (rest bs : List Backend)
    → IsDistinct bs
    → backend_at x.id bs ≡ some b
    → count (is_pending p rest) bs ≡ count (is_pending p (x ∷ rest)) bs + tick (is_pending p rest b)
pending-next p x b rest [] distinct h = cc
pending-next p x b rest (y ∷ ys) distinct h = elim (Bool-cases (y.id == x.id)) [
  | inl here ↦
      let it : y ≡ b = ground arith in
      let alone : backend_at x.id ys ≡ none =
        subst (λ k. backend_at k ys ≡ none) (ground (arith, here)) distinct.0 in
      let same : tick (is_pending p rest y) ≡ tick (is_pending p rest b) =
        ap (λ z. tick (is_pending p rest z)) it in
      let in_front : has_node y.id (x ∷ rest) ≡ true = rw (other_way y.id x.id true here) refl in
      omega (
        arith,
        others p x rest ys alone,
        same,
        tick-and_not (is_unsettled p y) (has_node y.id (x ∷ rest)) in_front,
      )
  | inr further ↦
      rw (other_way y.id x.id false further)
        (omega (arith, pending-next p x b rest ys distinct.1 (rw further at h)))
]

-- Where none is pending at the end, each is settled.
pub All-IsSettled :
    (p : ℕ) (bs : List Backend) → count (is_unsettled p) bs ≡ 0 → All (IsSettled p) bs
All-IsSettled p [] h = tt
All-IsSettled p (b ∷ bs) h = (
  settled_of (is_alive b) (is_state b.state State.up) (leb b.priority p) (omega (arith, h)),
  All-IsSettled p bs (omega (arith, h)),
)
