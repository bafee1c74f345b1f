-- ===== src/States/Depth.antt =====
-- How deep the calls of backend_s_gen_priority and backend_set_state of src/backends.c nest.
use nftlb.Prelude.{
  ℕ, zero, suc, ◌+◌, ◌*◌, ◌≤◌, ◌<◌, ◌≡◌, ap, sym, subst, ◌∙◌, Bool, ◌&&◌, ◌||◌, List, [], ◌∷◌,
  count, length, count-le-length, leb, arith, inl, inr,
}
use nftlb.Enums.{State, is_state}
use nftlb.Model.{Backend}
use nftlb.Backends.Priority.{elected_priority}
use nftlb.States.Focus.{Focus}
use nftlb.States.Alive.{
  is_alive, is_waiting, tick, Later-trans, count-Later, elected_priority-Later,
}
use nftlb.States.Course.{OnCourse, Smaller, lt_or_eq}
use native.Mathlib.Nat.{le_trans}

-- The depth for `a` backends alive, with none waiting.
unfoldable pub levels : ℕ → ℕ
levels zero = 3
levels (suc a) = levels a + 3 * a + 3

abbrev pub alive : Focus → ℕ
alive s = count is_alive s.farm.backends

abbrev pub elected_for : Focus → ℕ
elected_for s = elected_priority s.farm.backends

abbrev pub waiting : Focus → ℕ
waiting s = count (is_waiting (elected_for s)) s.farm.backends

unfoldable pub depth : Focus → ℕ
unfolding levels
depth s = levels (alive s) + 3 * waiting s

pub levels_mono : (a b : ℕ) → a ≤ b → levels a ≤ levels b
unfolding levels
levels_mono a zero h = let e : a ≡ 0 = omega arith in rw e (omega arith)
levels_mono a (suc b) h = elim (lt_or_eq a (suc b) h) [
  | inl below ↦ omega (arith, levels_mono a b (omega arith))
  | inr same ↦ rw same (omega arith)
]

waits_alive : (u a k : Bool) → tick (a && k) ≤ tick (u || a)
waits_alive u a k = ground arith

one_waiting : (p : ℕ) (b : Backend) → tick (is_waiting p b) ≤ tick (is_alive b)
one_waiting p b =
    waits_alive (is_state b.state State.up) (is_state b.state State.avail) (leb b.priority p)

pub waiting-le-alive : (p : ℕ) (bs : List Backend) → count (is_waiting p) bs ≤ count is_alive bs
waiting-le-alive p [] = omega arith
waiting-le-alive p (b ∷ bs) = omega (arith, one_waiting p b, waiting-le-alive p bs)

fewer_levels : (a w d : ℕ) → w ≤ a → levels (suc a) ≤ d → levels a + 3 * w + 3 ≤ d
unfolding levels
fewer_levels a w d h k = omega arith

-- The depth that any state of a farm of so many backends stays within.
pub depth-le : (s : Focus) → depth s + 3 ≤ levels (suc (length s.farm.backends))
unfolding depth levels
depth-le s =
    let w = waiting-le-alive (elected_for s) s.farm.backends in
    let a = count-le-length is_alive s.farm.backends in
    let up = levels_mono (alive s) (length s.farm.backends) a in omega (arith, w, a, up)

pub elected_for-OnCourse :
    (s0 s : Focus) → OnCourse s0 s → alive s ≡ alive s0 → elected_for s ≡ elected_for s0
elected_for-OnCourse s0 s on same =
    elected_priority-Later s0.farm.backends s.farm.backends on.later same

-- From a smaller state on course the calls nest less deep.
pub depth-Smaller : (s0 s : Focus) → OnCourse s0 s → Smaller s0 s → depth s + 3 ≤ depth s0
unfolding depth
depth-Smaller s0 s on smaller =
    let before = count-Later s0.farm.backends s.farm.backends on.later in
    let w = waiting-le-alive (elected_for s) s.farm.backends in
    elim (lt_or_eq (alive s) (alive s0) before) [
      | inl fewer ↦
          let up = levels_mono (suc (alive s)) (alive s0) (omega (arith, fewer)) in
          fewer_levels (alive s) (waiting s) (levels (alive s0) + 3 * waiting s0) w
            (omega (arith, up))
      | inr same ↦
          let elected = elected_for-OnCourse s0 s on same in
          let levelled = ap levels same in
          elim smaller [
            | inl fewer ↦ absurd (omega (arith, fewer, same))
            | inr less ↦
                let less' : waiting s < waiting s0 =
                  subst (λ p. count (is_waiting p) s.farm.backends < waiting s0) (sym elected)
                    less in
                omega (arith, levelled, less')
          ]
    ]

-- On course from a state on course.
pub OnCourse-trans : (s0 s t : Focus) → OnCourse s0 s → OnCourse s t → OnCourse s0 t
OnCourse-trans s0 s t p q = record {
  action = q.action ∙ p.action;
  state = q.state ∙ p.state;
  later = Later-trans s0.farm.backends s.farm.backends t.farm.backends p.later q.later;
  course = λ same.
      let first = count-Later s0.farm.backends s.farm.backends p.later in
      let second = count-Later s.farm.backends t.farm.backends q.later in
      let as_many : alive s ≡ alive s0 = omega (arith, same, first, second) in
      let elected = elected_for-OnCourse s0 s p as_many in
      let (priority, waits) = q.course (omega (arith, same, as_many)) in
      (
        priority ∙ elected,
        le_trans
            (subst
              (λ e. count (is_waiting e) t.farm.backends ≤ count (is_waiting e) s.farm.backends)
              elected waits)
            (p.course as_many).1,
      );
}
