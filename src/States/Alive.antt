-- ===== src/States/Alive.antt =====
-- The backends that backend_s_gen_priority of src/backends.c looks at again: those that are up or
-- avail. While the calls run they may leave, and none joins them.
use nftlb.Prelude.{
  ℕ, zero, suc, ◌+◌, ◌≤◌, ◌≡◌, refl, ap, subst, ◌∙◌, Bool, true, false, ◌&&◌, ◌||◌, not, List, [],
  ◌∷◌, some, count, length, leb, ◌==◌, if◌then◌else◌, arith, Bool-cases, inl, inr,
}
use nftlb.Enums.{State, is_state}
use nftlb.Model.{Backend}
use nftlb.Backends.Priority.{is_down, down_at, priority_loop, elected_priority}
use nftlb.Backends.Setters.{put}
use nftlb.Sessions.Timed.{backend_at}

abbrev pub is_alive : Backend → Bool
is_alive b = is_state b.state State.up || is_state b.state State.avail

-- Avail with a priority that the farm's priority `p` reaches.
abbrev pub is_waiting : ℕ → Backend → Bool
is_waiting p b = is_state b.state State.avail && leb b.priority p

-- A backend after some calls.
pub record Follows (b c : Backend) : Type 0 where
  pub id : c.id ≡ b.id
  pub priority : c.priority ≡ b.priority
  pub alive : is_alive c ≡ true → is_alive b ≡ true

abbrev pub Later : List Backend → List Backend → Type 0
Later [] [] = Unit
Later [] (c ∷ cs) = ⊥
Later (b ∷ bs) [] = ⊥
Later (b ∷ bs) (c ∷ cs) = Follows b c × Later bs cs

pub Follows-refl : (b : Backend) → Follows b b
Follows-refl b = record { id = refl; priority = refl; alive = λ h. h }

pub Later-refl : (bs : List Backend) → Later bs bs
Later-refl [] = tt
Later-refl (b ∷ bs) = (Follows-refl b, Later-refl bs)

Follows-trans : {b c d : Backend} → Follows b c → Follows c d → Follows b d
Follows-trans p q = record {
  id = q.id ∙ p.id;
  priority = q.priority ∙ p.priority;
  alive = λ h. p.alive (q.alive h);
}

pub Later-trans : (bs cs ds : List Backend) → Later bs cs → Later cs ds → Later bs ds
Later-trans [] [] ds p q = q
Later-trans [] (c ∷ cs) ds p q = absurd p
Later-trans (b ∷ bs) [] ds p q = absurd p
Later-trans (b ∷ bs) (c ∷ cs) [] p q = q
Later-trans (b ∷ bs) (c ∷ cs) (d ∷ ds) p q = (Follows-trans p.0 q.0, Later-trans bs cs ds p.1 q.1)

pub length-Later : (bs cs : List Backend) → Later bs cs → length cs ≡ length bs
length-Later [] [] p = refl
length-Later [] (c ∷ cs) p = absurd p
length-Later (b ∷ bs) [] p = absurd p
length-Later (b ∷ bs) (c ∷ cs) p = ap suc (length-Later bs cs p.1)

-- What an item that passes the test adds to a count.
abbrev pub tick : Bool → ℕ
tick q = if q then 1 else 0

pub one_alive : (b c : Backend) → Follows b c → tick (is_alive c) ≤ tick (is_alive b)
one_alive b c p = elim (Bool-cases (is_alive c)) [
  | inl living ↦ rw (living, p.alive living) (omega arith)
  | inr gone ↦ rw gone (omega arith)
]

pub count-Later : (bs cs : List Backend) → Later bs cs → count is_alive cs ≤ count is_alive bs
count-Later [] [] p = omega arith
count-Later [] (c ∷ cs) p = absurd p
count-Later (b ∷ bs) [] p = absurd p
count-Later (b ∷ bs) (c ∷ cs) p = omega (arith, one_alive b c p.0, count-Later bs cs p.1)

as_down :
    (k u a v c : Bool)
    → tick (u || a) ≡ tick (v || c)
    → tick (k && (not u && not a)) ≡ tick (k && (not v && not c))
as_down k u a v c h = ground arith

one_as_down :
    (prio : ℕ) (b c : Backend)
    → Follows b c
    → tick (is_alive c) ≡ tick (is_alive b)
    → tick (down_at prio c) ≡ tick (down_at prio b)
one_as_down prio b c p same =
    let k : (c.priority == prio) ≡ (b.priority == prio) = ap (λ n. n == prio) p.priority in
    ap (λ q. tick (q && is_down c)) k
    ∙ as_down (b.priority == prio) (is_state c.state State.up) (is_state c.state State.avail)
        (is_state b.state State.up) (is_state b.state State.avail) same

-- Where none has left, as many are down at each priority.
count-down_at :
    (prio : ℕ) (bs cs : List Backend)
    → Later bs cs
    → count is_alive cs ≡ count is_alive bs
    → count (down_at prio) cs ≡ count (down_at prio) bs
count-down_at prio [] [] p same = refl
count-down_at prio [] (c ∷ cs) p same = absurd p
count-down_at prio (b ∷ bs) [] p same = absurd p
count-down_at prio (b ∷ bs) (c ∷ cs) p same =
    let head = one_alive b c p.0 in
    let tail = count-Later bs cs p.1 in
    let as_down = one_as_down prio b c p.0 (omega arith) in
    omega (arith, as_down, count-down_at prio bs cs p.1 (omega arith))

priority_loop-Later :
    (fuel : ℕ) (bs cs : List Backend) (prio : ℕ)
    → Later bs cs
    → count is_alive cs ≡ count is_alive bs
    → priority_loop fuel cs prio ≡ priority_loop fuel bs prio
unfolding priority_loop
priority_loop-Later zero bs cs prio p same = refl
priority_loop-Later (suc fuel) bs cs prio p same =
    let down = count-down_at prio bs cs p same in
    let rest = priority_loop-Later fuel bs cs (prio + count (down_at prio) bs) p same in
    rw (down, rest) refl

-- Where none has left, the elected priority is the same.
pub elected_priority-Later :
    (bs cs : List Backend)
    → Later bs cs
    → count is_alive cs ≡ count is_alive bs
    → elected_priority cs ≡ elected_priority bs
unfolding elected_priority
elected_priority-Later bs cs p same =
    rw (length-Later bs cs p) (priority_loop-Later (length bs + 1) bs cs 1 p same)

module _ (b b' : Backend) (same : b'.id ≡ b.id) where
  pub count-put :
      (p : Backend → Bool) (bs : List Backend)
      → backend_at b.id bs ≡ some b
      → count p (put b' bs) + tick (p b) ≡ count p bs + tick (p b')
  unfolding put
  count-put p [] h = cc
  count-put p (x ∷ xs) h = elim (Bool-cases (x.id == b.id)) [
    | inl here ↦
        let found : (x.id == b'.id) ≡ true = rw same here in
        let it : x ≡ b = ground arith in rw (found, it) (omega arith)
    | inr further ↦
        let not_found : (x.id == b'.id) ≡ false = rw same further in
        rw not_found (omega (arith, count-put p xs (rw further at h)))
  ]

  pub put-Later :
      (bs : List Backend) → Follows b b' → backend_at b.id bs ≡ some b → Later bs (put b' bs)
  unfolding put
  put-Later [] p h = cc
  put-Later (x ∷ xs) p h = elim (Bool-cases (x.id == b.id)) [
    | inl here ↦
        let found : (x.id == b'.id) ≡ true = rw same here in
        let it : b ≡ x = ground arith in rw found (subst (λ y. Follows y b') it p, Later-refl xs)
    | inr further ↦
        let not_found : (x.id == b'.id) ≡ false = rw same further in
        rw not_found (Follows-refl x, put-Later xs p (rw further at h))
  ]
