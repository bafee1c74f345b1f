-- ===== src/Backends/Priority.antt =====
-- backend_s_gen_priority of src/backends.c: the priority of a farm, and the counters.
use nftlb.Prelude.{
  ℕ, zero, suc, ◌+◌, ◌≤◌, ◌<◌, ◌≡◌, Bool, false, ◌&&◌, not, List, [], ◌∷◌, arith, count, length,
  leb, ◌==◌, ℕ-cases, count-le-length, inl, inr, if◌then◌else◌,
}
use nftlb.Enums.{State, is_state}
use nftlb.Model.{Backend}

abbrev pub is_down : Backend → Bool
is_down b = not (is_state b.state State.up) && not (is_state b.state State.avail)

-- The body of the do loop counts these.
abbrev pub down_at : ℕ → Backend → Bool
down_at prio b = b.priority == prio && is_down b

-- The do loop, on fuel: `new_prio` when it ends.
unfoldable pub priority_loop : ℕ → List Backend → ℕ → ℕ
priority_loop zero bs new_prio = new_prio
priority_loop (suc fuel) bs new_prio =
    let are_down = count (down_at new_prio) bs in
    let rest = priority_loop fuel bs (new_prio + are_down) in
    if are_down == 0 then new_prio else rest

-- The farm priority that backend_s_gen_priority finds for the backends.
unfoldable pub elected_priority : List Backend → ℕ
elected_priority bs = priority_loop (length bs + 1) bs 1

abbrev down_from : ℕ → Backend → Bool
down_from prio b = leb prio b.priority && is_down b

-- Those that are down at a priority are no more down from any higher one on.
count-down_from :
    (bs : List Backend) (prio k : ℕ)
    → count (down_at prio) bs + count (down_from (prio + suc k)) bs ≤ count (down_from prio) bs
count-down_from [] prio k = omega arith
count-down_from (b ∷ bs) prio k = ground (arith, count-down_from bs prio k)

-- The loop ends by its test where the fuel exceeds the number of backends that are down.
priority_loop_lem :
    (fuel : ℕ) (bs : List Backend) (prio : ℕ)
    → count (down_from prio) bs < fuel
    → (count (down_at (priority_loop fuel bs prio)) bs ≡ 0)
      × (prio ≤ priority_loop fuel bs prio)
      × (priority_loop fuel bs prio ≤ prio + count (down_from prio) bs)
unfolding priority_loop
priority_loop_lem zero bs prio h = elim h [ ]
priority_loop_lem (suc fuel) bs prio h = elim (ℕ-cases (count (down_at prio) bs)) [
  | inl none_down ↦ rw none_down (none_down, omega arith, omega arith)
  | inr (k, some_down) ↦
      let fewer = count-down_from bs prio k in
      let (done, above, below) = priority_loop_lem fuel bs (prio + suc k) (omega arith) in
      let runs : (suc k == 0) ≡ false = ground arith in
      rw (some_down, runs) (done, omega arith, omega arith)
]

count-down_from-le : (bs : List Backend) (prio : ℕ) → count (down_from prio) bs ≤ count is_down bs
count-down_from-le [] prio = omega arith
count-down_from-le (b ∷ bs) prio = ground (arith, count-down_from-le bs prio)

-- The loop ends by its own test within the fuel. No backend of the elected priority is down, and the
-- elected priority is at least 1 and exceeds 1 by at most the number of backends that are down.
pub elected_priority_lem :
    (bs : List Backend)
    → (count (down_at (elected_priority bs)) bs ≡ 0)
      × (1 ≤ elected_priority bs)
      × (elected_priority bs ≤ 1 + count is_down bs)
unfolding elected_priority
elected_priority_lem bs =
    let bound = count-down_from-le bs 1 in
    let short = count-le-length is_down bs in
    let (done, above, below) = priority_loop_lem (length bs + 1) bs 1 (omega arith) in
    (done, above, omega arith)
