-- ===== src/States/Settles.antt =====
-- backend_s_gen_priority of src/backends.c ends where the farm has its action already, so that
-- farm_set_action passes over a reload.
use nftlb.Prelude.{
  ℕ, zero, suc, ◌≤◌, ◌≡◌, ◌⊎◌, refl, ap, ◌∙◌, Bool, true, false, ◌&&◌, not, Option, none, some, ltb,
  if◌then◌else◌, if-true, if-false, arith, inl, inr, Bool-cases,
}
use nftlb.Enums.{State, Action, is_state, action_value}
use nftlb.Model.{Backend, Farm}
use nftlb.Network.{Net}
use nftlb.Backends.Counters.{backend_s_update_counters}
use nftlb.Sessions.Timed.{backend_at}
use nftlb.States.Focus.{Focus}
use nftlb.States.Calls.{
  Call, ◌>>=◌, with_farm, for_backends, refresh, backend_set_state, backend_s_gen_priority,
  with_counters, farm_set_action, act_where_given_way, state_of, effective_action, tell_policies,
  gives_way, run,
}
use nftlb.States.Alive.{is_alive, Later-refl}
use nftlb.States.Course.{OnCourse, Smaller}
use nftlb.States.Turn.{set_state-OnCourse}
use nftlb.States.Depth.{alive, elected_for, depth, depth-Smaller, OnCourse-trans, levels}
use nftlb.States.Loops.{for_backends-keeps}

-- farm_set_action acts on a reload where the farm has this action and this state.
abbrev pub yields : Action → State → Bool
yields action state =
    ltb
      (action_value (
        if not (is_state state State.up) && not (is_state state State.conferr)
        then Action.start
        else Action.reload))
      (action_value action)

abbrev pub IsClosed : Focus → Type 0
IsClosed s = yields s.farm.action s.farm.state ≡ false

pub OnCourse-IsClosed : (s0 s : Focus) → OnCourse s0 s → IsClosed s0 → IsClosed s
OnCourse-IsClosed s0 s on closed =
    ap (λ a. yields a s.farm.state) on.action ∙ ap (yields s0.farm.action) on.state ∙ closed

-- The farm where farm_set_action passes a reload over.
abbrev pub told : Focus → Focus
told s = with_farm s (tell_policies (effective_action Action.reload s.farm) s.farm)

told_by :
    (q : Bool) (a : Action) (s0 s : Focus)
    → OnCourse s0 s
    → Smaller s0 s
    → OnCourse s0 (with_farm s (if q then record s.farm { policies_action = a } else s.farm))
      × Smaller s0 (with_farm s (if q then record s.farm { policies_action = a } else s.farm))
told_by true a s0 s on smaller =
    (record { action = on.action; state = on.state; later = on.later; course = on.course }, smaller)
told_by false a s0 s on smaller =
    (record { action = on.action; state = on.state; later = on.later; course = on.course }, smaller)

pub told-OnCourse :
    (s0 s : Focus) → OnCourse s0 s → Smaller s0 s → OnCourse s0 (told s) × Smaller s0 (told s)
told-OnCourse s0 s on smaller = told_by _ (effective_action Action.reload s.farm) s0 s on smaller

pub gives_way-told :
    (q : Bool) (a x : Action) (f : Farm)
    → gives_way (if q then record f { policies_action = a } else f) x ≡ gives_way f x
gives_way-told true a x f = refl
gives_way-told false a x f = refl

pub elected-OnCourse :
    (s : Focus) → OnCourse s (with_farm s (record s.farm { priority = elected_for s }))
elected-OnCourse s = record {
  action = refl;
  state = refl;
  later = Later-refl s.farm.backends;
  course = λ same. (refl, omega arith);
}

pub counted-OnCourse :
    (s0 s : Focus) → OnCourse s0 s → OnCourse s0 (with_farm s (backend_s_update_counters s.farm))
unfolding backend_s_update_counters
counted-OnCourse s0 s on = record {
  action = on.action;
  state = on.state;
  later = on.later;
  course = on.course;
}

pub three-le-levels : (a : ℕ) → 3 ≤ levels a
unfolding levels
three-le-levels zero = omega arith
three-le-levels (suc a) = omega arith

pub three-le-depth : (s : Focus) → 3 ≤ depth s
unfolding depth
three-le-depth s = omega (arith, three-le-levels (alive s))

pub no_depth : (s : Focus) → depth s ≤ 2 → ⊥
unfolding depth
no_depth s h = omega (arith, h, three-le-levels (alive s))

either_way :
    {x : Option Focus} {P R : Focus → Type 0}
    → ((t : Focus) × (x ≡ some t) × ((P t × R t) ⊎ P t))
    → (t : Focus) × (x ≡ some t) × P t
either_way (t, ran, inl (p, _)) = (t, ran, p)
either_way (t, ran, inr p) = (t, ran, p)

module _ (net : Net) (masquerade_mark : ℕ) where
  pub closed_reload :
      (n : ℕ) (s : Focus)
      → IsClosed s
      → run net masquerade_mark (suc n) (Call.set_action Action.reload) s ≡ some (told s)
  unfolding run farm_set_action act_where_given_way
  closed_reload n s closed =
      if-false (gives_way (told s).farm (effective_action Action.reload s.farm)) _ _
        (gives_way-told _ _ (effective_action Action.reload s.farm) s.farm ∙ closed) refl

  pub run_set_state :
      (n i : ℕ) (new_value : State) (b : Backend) (s : Focus)
      → backend_at i s.farm.backends ≡ some b
      → run net masquerade_mark (suc n) (Call.set_state i new_value) s
        ≡ backend_set_state net masquerade_mark (run net masquerade_mark n) new_value b s
  unfolding run
  run_set_state n i new_value b s node =
      ap (λ o. state_of net masquerade_mark (run net masquerade_mark n) o new_value s) node

  pub run_set_state-gone :
      (n i : ℕ) (new_value : State) (s : Focus)
      → backend_at i s.farm.backends ≡ none
      → run net masquerade_mark (suc n) (Call.set_state i new_value) s ≡ some s
  unfolding run
  run_set_state-gone n i new_value s gone =
      ap (λ o. state_of net masquerade_mark (run net masquerade_mark n) o new_value s) gone

  -- The calls of a refresh, from any invariant that backend_set_state keeps.
  pub refresh-keeps :
      (m : ℕ) (P : Focus → Type 0)
      → ((b : Backend) (s : Focus)
          → P s
          → is_alive b ≡ true
          → backend_at b.id s.farm.backends ≡ some b
          → (t : Focus) × (backend_set_state net masquerade_mark
                (run net masquerade_mark m)
                State.up
                b
                s
              ≡ some t)
            × P t)
      → (b : Backend) (s : Focus) → P s
      → backend_at b.id s.farm.backends ≡ some b
      → (t : Focus) × (refresh net masquerade_mark (run net masquerade_mark (suc m)) b s ≡ some t)
        × P t
  unfolding refresh run
  refresh-keeps m P keeps b s h node = elim (Bool-cases (is_alive b)) [
    | inr gone ↦ (s, if-false (is_alive b) _ _ gone refl, h)
    | inl living ↦
        let (t, ran, kept) = keeps b s h living node in
        (t, if-true (is_alive b) _ _ living (run_set_state m b.id State.up b s node ∙ ran), kept)
  ]

  -- backend_s_gen_priority after its loop.
  pub run_gen_priority :
      (n : ℕ) (s t : Focus)
      → for_backends
          (refresh net masquerade_mark (run net masquerade_mark n))
          s.farm.backends
          (with_farm s (record s.farm { priority = elected_for s }))
        ≡ some t
      → run net masquerade_mark (suc n) Call.gen_priority s
        ≡ some (with_farm t (backend_s_update_counters t.farm))
  unfolding run backend_s_gen_priority
  run_gen_priority n s t looped = ap (λ o. o >>= with_counters) looped

  -- backend_s_gen_priority, from an invariant that backend_set_state keeps: what its loop ends in.
  pub gen_priority-keeps :
      (m : ℕ) (P : Focus → Type 0) (s : Focus)
      → P (with_farm s (record s.farm { priority = elected_for s }))
      → ((b : Backend) (u : Focus)
          → P u
          → is_alive b ≡ true
          → backend_at b.id u.farm.backends ≡ some b
          → (t : Focus) × (backend_set_state net masquerade_mark
                (run net masquerade_mark m)
                State.up
                b
                u
              ≡ some t)
            × P t)
      → (t : Focus) × (run net masquerade_mark (suc (suc m)) Call.gen_priority s
          ≡ some (with_farm t (backend_s_update_counters t.farm)))
        × P t
  gen_priority-keeps m P s start keeps =
      let (t, looped, kept) =
        for_backends-keeps P (refresh net masquerade_mark (run net masquerade_mark (suc m)))
          (refresh-keeps m P keeps) s.farm.backends
          (with_farm s (record s.farm { priority = elected_for s })) start in
      (t, run_gen_priority (suc m) s t looped, kept)

  -- backend_s_gen_priority ends on course where a reload is passed over, within the depth.
  pub closed_gen_priority :
      (n : ℕ) (s : Focus)
      → IsClosed s
      → depth s ≤ n
      → (t : Focus) × (run net masquerade_mark n Call.gen_priority s ≡ some t) × OnCourse s t
  closed_gen_priority zero s closed enough = absurd (no_depth s (omega (arith, enough)))
  closed_gen_priority (suc zero) s closed enough = absurd (no_depth s (omega (arith, enough)))
  closed_gen_priority (suc (suc zero)) s closed enough = absurd (no_depth s (omega (arith, enough)))
  closed_gen_priority (suc (suc (suc m))) s closed enough =
      let resume : (u : Focus)
          → OnCourse s u
          → Smaller s u
          → (t : Focus) × ((run net masquerade_mark (suc m) (Call.set_action Action.reload) u
                >>= run net masquerade_mark (suc m) Call.gen_priority)
              ≡ some t)
            × OnCourse s t =
        λ u on smaller.
          let (on_told, smaller_told) = told-OnCourse s u on smaller in
          let less = depth-Smaller s (told u) on_told smaller_told in
          let (t, ran, kept) =
            closed_gen_priority (suc m) (told u) (OnCourse-IsClosed s (told u) on_told closed)
              (omega (arith, less, enough)) in
          (
            t,
            ap (λ o. o >>= run net masquerade_mark (suc m) Call.gen_priority)
                  (closed_reload m u (OnCourse-IsClosed s u on closed))
                ∙ ran,
            OnCourse-trans s (told u) t on_told kept,
          ) in
      let keeps : (b : Backend) (u : Focus)
          → OnCourse s u
          → is_alive b ≡ true
          → backend_at b.id u.farm.backends ≡ some b
          → (t : Focus) × (backend_set_state net masquerade_mark (run net masquerade_mark (suc m))
                State.up b u
              ≡ some t)
            × OnCourse s t =
        λ b u on living node. either_way (
          set_state-OnCourse net masquerade_mark (run net masquerade_mark (suc m)) s (OnCourse s)
            resume b u living on node) in
      let (t, ran, kept) = gen_priority-keeps (suc m) (OnCourse s) s (elected-OnCourse s) keeps in
      (with_farm t (backend_s_update_counters t.farm), ran, counted-OnCourse s t kept)
