-- ===== src/States/Course.antt =====
-- The course of the second loop of backend_s_gen_priority of src/backends.c, through the calls of
-- backend_set_state that it makes.
use nftlb.Prelude.{
  ℕ, ◌+◌, ◌≤◌, ◌<◌, ◌≡◌, ◌⊎◌, refl, ap, sym, subst, ◌∙◌, some, count, ltb, arith, Bool-cases, inl,
  inr,
}
use nftlb.Enums.{Action}
use nftlb.Model.{Backend, Farm}
use nftlb.Network.{Net}
use nftlb.Backends.Priority.{elected_priority}
use nftlb.Backends.Setters.{put, put_backend}
use nftlb.Backends.Transition.{Outcome}
use nftlb.Sessions.Timed.{backend_at}
use nftlb.Sessions.Kept.{but_sessions, session_backend_action-kept}
use nftlb.States.Focus.{Focus}
use nftlb.States.Calls.{start_sessions_of}
use nftlb.States.Alive.{
  is_alive, is_waiting, tick, Follows, Later, Later-trans, count-Later, count-put, put-Later,
}

-- A state that the loop started from `s0` may be in: the farm's action and state are those of `s0`, and
-- where no backend has left those that are alive, its priority is the elected one, and no more
-- backends wait for it.
pub record OnCourse (s0 s : Focus) : Type 0 where
  pub action : s.farm.action ≡ s0.farm.action
  pub state : s.farm.state ≡ s0.farm.state
  pub later : Later s0.farm.backends s.farm.backends
  pub course :
      count is_alive s.farm.backends ≡ count is_alive s0.farm.backends
      → (s.farm.priority ≡ elected_priority s0.farm.backends)
        × (count (is_waiting (elected_priority s0.farm.backends)) s.farm.backends
            ≤ count (is_waiting (elected_priority s0.farm.backends)) s0.farm.backends)

-- Fewer backends are alive than at `s0`, or fewer wait.
abbrev pub Smaller : Focus → Focus → Type 0
Smaller s0 s =
    (count is_alive s.farm.backends < count is_alive s0.farm.backends)
    ⊎ (count (is_waiting (elected_priority s0.farm.backends)) s.farm.backends
        < count (is_waiting (elected_priority s0.farm.backends)) s0.farm.backends)

module _ (net : Net) (masquerade_mark : ℕ) where
  pub start_sessions_of-kept :
      (o : Outcome) (s : Focus)
      → but_sessions (start_sessions_of net masquerade_mark o s).farm ≡ but_sessions s.farm
  unfolding start_sessions_of
  start_sessions_of-kept o s = elim (Bool-cases o.start_sessions) [
    | inl starts ↦
        rw starts (
          session_backend_action-kept net masquerade_mark s.addresses o.backend Action.start s.farm)
    | inr stays ↦ rw stays refl
  ]

pub lt_or_eq : (m n : ℕ) → m ≤ n → (m < n) ⊎ (m ≡ n)
lt_or_eq m n h = elim (Bool-cases (ltb m n)) [
  | inl below ↦ inl (ground (arith, below))
  | inr not_below ↦ inr (ground (arith, not_below))
]

module _ (s0 s s' : Focus) (b b' : Backend) (course : OnCourse s0 s)
    (node : backend_at b.id s.farm.backends ≡ some b) (follows : Follows b b')
    (kept : but_sessions s'.farm ≡ but_sessions (put_backend s.farm b')) where
  abbrev pub elected : ℕ
  elected = elected_priority s0.farm.backends

  pub put_kept : s'.farm.backends ≡ put b' s.farm.backends
  unfolding but_sessions put_backend
  put_kept = ap (λ (f : Farm). f.backends) kept

  pub alive_put :
      count is_alive s'.farm.backends + tick (is_alive b)
      ≡ count is_alive s.farm.backends + tick (is_alive b')
  alive_put =
      ap (λ l. count is_alive l + tick (is_alive b)) put_kept
      ∙ count-put b b' follows.id is_alive s.farm.backends node

  pub waiting_put :
      count (is_waiting elected) s'.farm.backends + tick (is_waiting elected b)
      ≡ count (is_waiting elected) s.farm.backends + tick (is_waiting elected b')
  waiting_put =
      ap (λ l. count (is_waiting elected) l + tick (is_waiting elected b)) put_kept
      ∙ count-put b b' follows.id (is_waiting elected) s.farm.backends node

  pub put-Later_entered : Later s.farm.backends s'.farm.backends
  put-Later_entered =
      subst (λ l. Later s.farm.backends l) (sym put_kept)
        (put-Later b b' follows.id s.farm.backends follows node)

  pub entered-OnCourse :
      (tick (is_alive b') ≡ tick (is_alive b)
        → s.farm.priority ≡ elected
        → tick (is_waiting elected b') ≤ tick (is_waiting elected b))
      → OnCourse s0 s'
  unfolding but_sessions put_backend
  entered-OnCourse waits = record {
    action = ap (λ (f : Farm). f.action) kept ∙ course.action;
    state = ap (λ (f : Farm). f.state) kept ∙ course.state;
    later =
        Later-trans s0.farm.backends s.farm.backends s'.farm.backends course.later
          put-Later_entered;
    course = λ same.
        let before = count-Later s0.farm.backends s.farm.backends course.later in
        let after = count-Later s.farm.backends s'.farm.backends put-Later_entered in
        let as_many : count is_alive s.farm.backends ≡ count is_alive s0.farm.backends =
          omega (arith, same, before, after) in
        let (priority, waiting) = course.course as_many in
        let as_alive : tick (is_alive b') ≡ tick (is_alive b) =
          omega (arith, alive_put, same, as_many) in
        (
          ap (λ (f : Farm). f.priority) kept ∙ priority,
          omega (arith, waiting_put, waiting, waits as_alive priority),
        );
  }

  pub entered-Smaller :
      ((tick (is_alive b') < tick (is_alive b))
        ⊎ (s.farm.priority ≡ elected → tick (is_waiting elected b') < tick (is_waiting elected b)))
      → Smaller s0 s'
  entered-Smaller (inl leaves) =
      let before = count-Later s0.farm.backends s.farm.backends course.later in
      inl (omega (arith, alive_put, leaves, before))
  entered-Smaller (inr waits) =
      let before = count-Later s0.farm.backends s.farm.backends course.later in
      let after = count-Later s.farm.backends s'.farm.backends put-Later_entered in
      elim (lt_or_eq (count is_alive s'.farm.backends) (count is_alive s0.farm.backends)
        (omega (arith, before, after))) [
          | inl fewer ↦ inl fewer
          | inr same ↦
              let as_many : count is_alive s.farm.backends ≡ count is_alive s0.farm.backends =
                omega (arith, same, before, after) in
              let (priority, waiting) = course.course as_many in
              inr (omega (arith, waiting_put, waiting, waits priority))
        ]
