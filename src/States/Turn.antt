-- ===== src/States/Turn.antt =====
-- backend_set_state of src/backends.c with VALUE_STATE_UP, from a state that is on course.
use nftlb.Prelude.{
  ℕ, ◌≤◌, ◌<◌, ◌≡◌, ◌⊎◌, refl, ap, sym, ◌∙◌, Bool, true, false, ◌||◌, List, [], ◌∷◌, Option, some,
  leb, ◌==◌, if-true, if-false, arith, Bool-cases, inl, inr,
}
use nftlb.Enums.{State, Action, is_state}
use nftlb.Model.{Backend, Farm}
use nftlb.Network.{Net}
use nftlb.Backends.Predicates.{backend_validate, backend_below_prio}
use nftlb.Backends.Priority.{elected_priority}
use nftlb.Backends.Setters.{put, put_backend}
use nftlb.Backends.Transition.{Outcome, resolve_state, enter_state}
use nftlb.Sessions.Timed.{backend_at}
use nftlb.States.Focus.{Focus}
use nftlb.States.Calls.{Call, ◌>>=◌, with_farm, start_sessions_of, enter, backend_set_state}
use nftlb.States.Alive.{is_alive, is_waiting, tick, Follows, Follows-refl}
use nftlb.States.Course.{
  OnCourse, Smaller, entered-OnCourse, entered-Smaller, put_kept, start_sessions_of-kept,
}

or_left : (q r : Bool) → q ≡ true → (q || r) ≡ true
or_left q r h = ground arith

or_right : (q r : Bool) → r ≡ true → (q || r) ≡ true
or_right q r h = ground arith

only_left : (q r : Bool) → (q || r) ≡ true → r ≡ false → q ≡ true
only_left q r h k = ground arith

only_right : (q r : Bool) → (q || r) ≡ true → q ≡ false → r ≡ true
only_right q r h k = ground arith

avail_down : (b : Backend) → is_state b.state State.avail ≡ true → is_state b.state State.up ≡ false
avail_down b h = ground (arith, h)

alive_valid : (b : Backend) → is_alive b ≡ true → is_state b.state State.conferr ≡ false
alive_valid b living = ground (arith, living)

not_reached :
    (b : Backend) (p : ℕ) {e : ℕ} → leb b.priority p ≡ false → p ≡ e → leb b.priority e ≡ false
not_reached b p above same = rw⁻¹ same above

waits :
    (b : Backend) (p : ℕ) {e : ℕ}
    → leb b.priority p ≡ true
    → is_state b.state State.avail ≡ true
    → p ≡ e
    → 0 < tick (is_waiting e b)
waits b p below is_avail same = rw (← same, is_avail, below) (omega arith)

-- The backend is up exactly where the priority `p` reaches its own, if it is alive.
abbrev pub IsSettled : ℕ → Backend → Type 0
IsSettled p b = is_alive b ≡ true → is_state b.state State.up ≡ leb b.priority p

-- Of the farm's backends only `b` has changed, and it is settled.
pub record Touched (b : Backend) (s t : Focus) : Type 0 where
  pub node : Backend
  pub backends : t.farm.backends ≡ put node s.farm.backends
  pub follows : Follows b node
  pub settled : IsSettled s.farm.priority node

avail-IsSettled :
    (f : Farm) (b : Backend)
    → is_state b.state State.avail ≡ true
    → backend_below_prio f b ≡ false
    → IsSettled f.priority b
unfolding backend_below_prio
avail-IsSettled f b avail above = λ _. avail_down b avail ∙ sym above

up-IsSettled :
    (f : Farm) (b : Backend)
    → is_state b.state State.up ≡ true
    → backend_below_prio f b ≡ true
    → IsSettled f.priority b
unfolding backend_below_prio
up-IsSettled f b up below = λ _. up ∙ sym below

pub put_same : (b : Backend) (bs : List Backend) → backend_at b.id bs ≡ some b → put b bs ≡ bs
unfolding put
put_same b [] h = cc
put_same b (x ∷ xs) h = elim (Bool-cases (x.id == b.id)) [
  | inl here ↦ let it : b ≡ x = ground arith in rw here (ap (λ y. y ∷ xs) it)
  | inr further ↦ rw further (ap (λ l. x ∷ l) (put_same b xs (rw further at h)))
]

-- Where the calls that a change of state makes go on from a state that is smaller, the change keeps
-- the course, or what they end in holds.
module _ (net : Net) (masquerade_mark : ℕ) (rec : Call → Focus → Option Focus) (s0 : Focus)
    (Q : Focus → Type 0)
    (resume : (s : Focus)
      → OnCourse s0 s
      → Smaller s0 s
      → (t : Focus) × ((rec (Call.set_action Action.reload) s >>= rec Call.gen_priority) ≡ some t)
        × Q t) where
  enter_lem :
      (o : Outcome) (b : Backend) (s : Focus)
      → OnCourse s0 s
      → backend_at b.id s.farm.backends ≡ some b
      → Follows b o.backend
      → (tick (is_alive o.backend) ≡ tick (is_alive b)
          → s.farm.priority ≡ elected_priority s0.farm.backends
          → tick (is_waiting (elected_priority s0.farm.backends) o.backend)
            ≤ tick (is_waiting (elected_priority s0.farm.backends) b))
      → IsSettled s.farm.priority o.backend
      → (o.propagate ≡ true
          → (tick (is_alive o.backend) < tick (is_alive b))
            ⊎ (s.farm.priority ≡ elected_priority s0.farm.backends
                → tick (is_waiting (elected_priority s0.farm.backends) o.backend)
                  < tick (is_waiting (elected_priority s0.farm.backends) b)))
      → (t : Focus) × (enter net masquerade_mark rec o s ≡ some t)
        × ((OnCourse s0 t × Touched b s t) ⊎ Q t)
  unfolding enter
  enter_lem o b s course node follows waits settled smaller =
      let entered =
        start_sessions_of net masquerade_mark o (with_farm s (put_backend s.farm o.backend)) in
      let kept =
        start_sessions_of-kept net masquerade_mark o (with_farm s (put_backend s.farm o.backend)) in
      let on = entered-OnCourse s0 s entered b o.backend course node follows kept waits in
      let touched : Touched b s entered = record {
        node = o.backend;
        backends = put_kept s0 s entered b o.backend course node follows kept;
        follows = follows;
        settled = settled;
      } in
      elim (Bool-cases o.propagate) [
        | inr ends ↦ (entered, if-false o.propagate _ _ ends refl, inl (on, touched))
        | inl goes_on ↦
            let (t, ran, q) = resume entered on (
              entered-Smaller s0 s entered b o.backend course node follows kept
                (smaller goes_on)) in
            (t, if-true o.propagate _ _ goes_on ran, inr q)
      ]

  -- What backend_set_state with VALUE_STATE_UP does from a state on course.
  to_avail :
      (b : Backend) (s : Focus)
      → is_state b.state State.up ≡ true
      → backend_below_prio s.farm b ≡ false
      → OnCourse s0 s
      → backend_at b.id s.farm.backends ≡ some b
      → (t : Focus) × (enter net masquerade_mark rec (enter_state s.farm b State.avail) s ≡ some t)
        × ((OnCourse s0 t × Touched b s t) ⊎ Q t)
  unfolding enter_state backend_below_prio
  to_avail b s is_up above course node =
      enter_lem (enter_state s.farm b State.avail) b s course node
        (record { id = refl; priority = refl; alive = λ _. or_left _ _ is_up })
        (λ _ priority. rw (not_reached b s.farm.priority above priority) (omega arith))
        (λ _. rw above refl) (λ goes_on. cc)

  to_conferr :
      (b : Backend) (s : Focus)
      → is_alive b ≡ true
      → OnCourse s0 s
      → backend_at b.id s.farm.backends ≡ some b
      → (t : Focus) × (enter net masquerade_mark rec (enter_state s.farm b State.conferr) s
          ≡ some t)
        × ((OnCourse s0 t × Touched b s t) ⊎ Q t)
  unfolding enter_state backend_below_prio
  to_conferr b s living course node =
      enter_lem (enter_state s.farm b State.conferr) b s course node
        (record { id = refl; priority = refl; alive = λ _. living }) (λ _ _. omega arith)
        (λ living'. cc) (λ _. inl (rw living (omega arith)))

  to_up :
      (b : Backend) (s : Focus)
      → is_state b.state State.avail ≡ true
      → backend_below_prio s.farm b ≡ true
      → OnCourse s0 s
      → backend_at b.id s.farm.backends ≡ some b
      → (t : Focus) × (enter net masquerade_mark rec (enter_state s.farm b State.up) s ≡ some t)
        × ((OnCourse s0 t × Touched b s t) ⊎ Q t)
  unfolding enter_state backend_below_prio
  to_up b s is_avail below course node =
      enter_lem (enter_state s.farm b State.up) b s course node
        (record { id = refl; priority = refl; alive = λ _. or_right _ _ is_avail })
        (λ _ _. omega arith) (λ _. rw below refl)
        (λ _. inr (λ priority. waits b s.farm.priority below is_avail priority))

  set_state_as :
      (r : State) (b : Backend) (s : Focus)
      → resolve_state s.farm b State.up ≡ r
      → is_state b.state r ≡ false
      → (t : Focus) × (enter net masquerade_mark rec (enter_state s.farm b r) s ≡ some t)
        × ((OnCourse s0 t × Touched b s t) ⊎ Q t)
      → (t : Focus) × (backend_set_state net masquerade_mark rec State.up b s ≡ some t)
        × ((OnCourse s0 t × Touched b s t) ⊎ Q t)
  unfolding backend_set_state
  set_state_as r b s resolves differs (t, ran, q) = (
    t,
    if-false (is_state b.state (resolve_state s.farm b State.up)) _ _
        (ap (λ x. is_state b.state x) resolves ∙ differs)
        (ap (λ x. enter net masquerade_mark rec (enter_state s.farm b x) s) resolves ∙ ran),
    q,
  )

  stays_as :
      (r : State) (b : Backend) (s : Focus)
      → OnCourse s0 s
      → backend_at b.id s.farm.backends ≡ some b
      → IsSettled s.farm.priority b
      → resolve_state s.farm b State.up ≡ r
      → is_state b.state r ≡ true
      → (t : Focus) × (backend_set_state net masquerade_mark rec State.up b s ≡ some t)
        × ((OnCourse s0 t × Touched b s t) ⊎ Q t)
  unfolding backend_set_state
  stays_as r b s course node settled resolves same = (
    s,
    if-true (is_state b.state (resolve_state s.farm b State.up)) _ _
        (ap (λ x. is_state b.state x) resolves ∙ same) refl,
    inl (
      course,
      record {
        node = b;
        backends = sym (put_same b s.farm.backends node);
        follows = Follows-refl b;
        settled = settled;
      },
    ),
  )

  -- backend_set_state with VALUE_STATE_UP keeps the course of a backend that is alive.
  pub set_state-OnCourse :
      (b : Backend) (s : Focus)
      → is_alive b ≡ true
      → OnCourse s0 s
      → backend_at b.id s.farm.backends ≡ some b
      → (t : Focus) × (backend_set_state net masquerade_mark rec State.up b s ≡ some t)
        × ((OnCourse s0 t × Touched b s t) ⊎ Q t)
  unfolding resolve_state
  set_state-OnCourse b s living course node = elim (Bool-cases (backend_below_prio s.farm b)) [
    | inr above ↦
        let avail : resolve_state s.farm b State.up ≡ State.avail = rw above refl in
        elim (Bool-cases (is_state b.state State.avail)) [
          | inl same ↦
              stays_as State.avail b s course node (avail-IsSettled s.farm b same above) avail same
          | inr differs ↦
              set_state_as State.avail b s avail differs
                (to_avail b s (only_left _ _ living differs) above course node)
        ]
    | inl below ↦ elim (Bool-cases (backend_validate s.farm b)) [
      | inr invalid ↦
          let conferr : resolve_state s.farm b State.up ≡ State.conferr =
            rw (below, invalid) refl in
          set_state_as State.conferr b s conferr (alive_valid b living)
            (to_conferr b s living course node)
      | inl valid ↦
          let up : resolve_state s.farm b State.up ≡ State.up = rw (below, valid) refl in
          elim (Bool-cases (is_state b.state State.up)) [
            | inl same ↦
                stays_as State.up b s course node (up-IsSettled s.farm b same below) up same
            | inr differs ↦
                set_state_as State.up b s up differs
                  (to_up b s (only_right _ _ living differs) below course node)
          ]
    ]
  ]
