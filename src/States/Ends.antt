-- ===== src/States/Ends.antt =====
-- The calls of backend_set_state, backend_s_gen_priority and farm_set_action of src/backends.c and
-- src/farms.c end, whatever the network answers.
use nftlb.Prelude.{
  ℕ, suc, ◌≤◌, ◌≡◌, refl, ap, ◌∙◌, Bool, true, false, ◌&&◌, not, Option, some, length,
  if◌then◌else◌, if-true, arith, inl, inr, Option-cases,
}
use nftlb.Enums.{State, Action, is_state}
use nftlb.Model.{Backend, Farm}
use nftlb.Network.{Net}
use nftlb.Backends.Setters.{put_backend}
use nftlb.Backends.Transition.{Outcome, resolve_state, enter_state}
use nftlb.Sessions.Timed.{backend_at}
use nftlb.Sessions.Kept.{but_sessions}
use nftlb.States.Focus.{Focus, farm_manage_eventd, farm_s_update_dsr_counter}
use nftlb.States.Calls.{
  Call, ◌>>=◌, with_farm, start_sessions_of, enter, backend_set_state, farm_set_action, act,
  act_where_given_way, farm_set_netinfo, backend_s_validate, act_on_addresses_after, take_action,
  effective_action, gives_way, run,
}
use nftlb.States.Alive.{length-Later}
use nftlb.States.Course.{OnCourse, start_sessions_of-kept}
use nftlb.States.Depth.{depth-le, levels}
use nftlb.States.Alike.{Alike, Alike-trans, put_backend-Alike}
use nftlb.States.Around.{if_ends, follow_up-keeps}
use nftlb.States.Settles.{
  IsClosed, told, gives_way-told, yields, closed_reload, closed_gen_priority, run_set_state,
  run_set_state-gone,
}

-- A farm of `n` backends in the state `st` that a reload passes over.
pub record IsDone (n : ℕ) (st : State) (s : Focus) : Type 0 where
  pub closed : IsClosed s
  pub count : length s.farm.backends ≡ n
  pub state : s.farm.state ≡ st

pub Alike-IsDone :
    (n : ℕ) (st : State) (s t : Focus) → Alike s.farm t.farm → IsDone n st s → IsDone n st t
Alike-IsDone n st s t alike done = record {
  closed =
      ap (λ a. yields a t.farm.state) alike.action
      ∙ ap (yields s.farm.action) alike.state
      ∙ done.closed;
  count = alike.count ∙ done.count;
  state = alike.state ∙ done.state;
}

pub OnCourse-Alike : (s t : Focus) → OnCourse s t → Alike s.farm t.farm
OnCourse-Alike s t on = record {
  count = length-Later s.farm.backends t.farm.backends on.later;
  state = on.state;
  action = on.action;
}

told_by :
    (q : Bool) (a : Action) (f : Farm) → Alike f (if q then record f { policies_action = a } else f)
told_by true a f = record { count = refl; state = refl; action = refl }
told_by false a f = record { count = refl; state = refl; action = refl }

pub told-Alike : (s : Focus) → Alike s.farm (told s).farm
told-Alike s = told_by _ (effective_action Action.reload s.farm) s.farm

-- What a reload is for a farm in the state.
abbrev reload_of : State → Action
reload_of st =
    if not (is_state st State.up) && not (is_state st State.conferr)
    then Action.start
    else Action.reload

yields_taken : (st : State) → yields (reload_of st) st ≡ false
yields_taken State.up = refl
yields_taken State.avail = refl
yields_taken State.down = refl
yields_taken State.off = refl
yields_taken State.conferr = refl

-- Fuel that is enough for any state of so many backends where a reload is passed over.
abbrev pub fuel_closed : ℕ → ℕ
fuel_closed n = levels (suc n)

module _ (net : Net) (masquerade_mark : ℕ) where
  entered-Alike :
      (o : Outcome) (s : Focus)
      → Alike s.farm
          (start_sessions_of net masquerade_mark o
            (with_farm s (put_backend s.farm o.backend))).farm
  unfolding but_sessions
  entered-Alike o s =
      let kept =
        start_sessions_of-kept net masquerade_mark o (with_farm s (put_backend s.farm o.backend)) in
      Alike-trans (put_backend-Alike s.farm o.backend) (record {
        count = ap (λ (f : Farm). length f.backends) kept;
        state = ap (λ (f : Farm). f.state) kept;
        action = ap (λ (f : Farm). f.action) kept;
      })

  -- A change of state ends where the two calls that it makes do.
  pub set_state-ends :
      (P : Focus → Type 0) (rec : Call → Focus → Option Focus)
      → ((s t : Focus) → Alike s.farm t.farm → P s → P t)
      → ((s : Focus)
          → P s
          → (t : Focus) × ((rec (Call.set_action Action.reload) s >>= rec Call.gen_priority)
              ≡ some t)
            × P t)
      → (new_value : State) (b : Backend) (s : Focus) → P s
      → (t : Focus) × (backend_set_state net masquerade_mark rec new_value b s ≡ some t) × P t
  unfolding backend_set_state enter
  set_state-ends P rec alike resume new_value b s h =
      let resolved = resolve_state s.farm b new_value in
      let o = enter_state s.farm b resolved in
      let entered =
        start_sessions_of net masquerade_mark o (with_farm s (put_backend s.farm o.backend)) in
      let kept : P entered = alike s entered (entered-Alike o s) h in
      if_ends (is_state b.state resolved) _ _ (s, refl, h)
        (if_ends o.propagate _ _ (resume entered kept) (entered, refl, kept))

  pub closed_gen :
      (n m : ℕ) (st : State) (s : Focus)
      → IsDone n st s
      → fuel_closed n ≤ m
      → (t : Focus) × (run net masquerade_mark m Call.gen_priority s ≡ some t) × IsDone n st t
  closed_gen n m st s done enough =
      let within = depth-le s in
      let levelled = ap (λ k. levels (suc k)) done.count in
      let (t, ran, on) =
        closed_gen_priority net masquerade_mark m s done.closed
          (omega (arith, within, levelled, enough)) in
      (t, ran, Alike-IsDone n st s t (OnCourse-Alike s t on) done)

  -- A reload that is passed over, and the priority after it.
  pub closed_resume :
      (n m : ℕ) (st : State) (s : Focus)
      → IsDone n st s
      → fuel_closed n ≤ suc m
      → (t : Focus) × ((run net masquerade_mark (suc m) (Call.set_action Action.reload) s
            >>= run net masquerade_mark (suc m) Call.gen_priority)
          ≡ some t)
        × IsDone n st t
  closed_resume n m st s done enough =
      let (t, ran, done') =
        closed_gen n (suc m) st (told s) (Alike-IsDone n st s (told s) (told-Alike s) done)
          enough in
      (
        t,
        ap (λ o. o >>= run net masquerade_mark (suc m) Call.gen_priority)
              (closed_reload net masquerade_mark m s done.closed)
            ∙ ran,
        done',
      )

  pub call_set_state :
      (P : Focus → Type 0) (m : ℕ) (new_value : State)
      → ((b : Backend) (s : Focus)
          → P s
          → (t : Focus) × (backend_set_state net masquerade_mark
                (run net masquerade_mark m)
                new_value
                b
                s
              ≡ some t)
            × P t)
      → (i : ℕ) (s : Focus) → P s
      → (t : Focus) × (run net masquerade_mark (suc m) (Call.set_state i new_value) s ≡ some t)
        × P t
  call_set_state P m new_value ends i s h = elim (Option-cases (backend_at i s.farm.backends)) [
    | inl gone ↦ (s, run_set_state-gone net masquerade_mark m i new_value s gone, h)
    | inr (b, here) ↦
        let (t, ran, kept) = ends b s h in
        (t, run_set_state net masquerade_mark m i new_value b s here ∙ ran, kept)
  ]

  closed_set_state :
      (n m : ℕ) (st : State)
      → fuel_closed n ≤ suc m
      → (i : ℕ) (new_value : State) (s : Focus) → IsDone n st s
      → (t : Focus) × (run net masquerade_mark (suc (suc m)) (Call.set_state i new_value) s
          ≡ some t)
        × IsDone n st t
  closed_set_state n m st enough i new_value s done =
      call_set_state (IsDone n st) (suc m) new_value
        (set_state-ends (IsDone n st) (run net masquerade_mark (suc m)) (Alike-IsDone n st)
          (λ u d. closed_resume n m st u d enough) new_value)
        i s done

  -- A reload that the farm acts on leaves it with an action that passes reloads over.
  take_action-IsDone :
      (n : ℕ) (st : State) (s u : Focus)
      → length s.farm.backends ≡ n
      → s.farm.state ≡ st
      → u.farm.state ≡ st
      → IsDone n st (take_action net (effective_action Action.reload u.farm) s)
  unfolding take_action farm_manage_eventd farm_s_update_dsr_counter
  take_action-IsDone n st s u count state same = record {
    closed =
        ap (λ x. yields (reload_of x) s.farm.state) same
        ∙ ap (yields (reload_of st)) state
        ∙ yields_taken st;
    count = count;
    state = state;
  }

  acting_reload :
      (k : ℕ) (s : Focus)
      → yields s.farm.action s.farm.state ≡ true
      → run net masquerade_mark (suc k) (Call.set_action Action.reload) s
        ≡ act net masquerade_mark
            (run net masquerade_mark k)
            (effective_action Action.reload s.farm)
            (told s)
  unfolding run farm_set_action act_where_given_way
  acting_reload k s acts =
      if-true (gives_way (told s).farm (effective_action Action.reload s.farm)) _ _
        (gives_way-told _ _ (effective_action Action.reload s.farm) s.farm ∙ acts) refl

  pub open_reload :
      (n m : ℕ) (st : State) (s t1 : Focus)
      → fuel_closed n ≤ suc m
      → yields s.farm.action s.farm.state ≡ true
      → s.farm.state ≡ st
      → run net masquerade_mark (suc (suc m)) Call.gen_priority (told s) ≡ some t1
      → length t1.farm.backends ≡ n
      → t1.farm.state ≡ st
      → (t : Focus) × (run net masquerade_mark (suc (suc (suc m))) (Call.set_action Action.reload) s
          ≡ some t)
        × IsDone n st t
  unfolding act
  open_reload n m st s t1 enough acts state ran count state1 =
      let rec = run net masquerade_mark (suc (suc m)) in
      let action = effective_action Action.reload s.farm in
      let (t, followed, done) =
        follow_up-keeps net masquerade_mark rec (IsDone n st) (Alike-IsDone n st)
          (closed_set_state n m st enough) action (take_action net action t1)
          (take_action-IsDone n st t1 s count state1 state) in
      (
        t,
        acting_reload (suc (suc m)) s acts
            ∙ ap
                (λ o.
                  o
                  >>= (λ u. farm_set_netinfo net masquerade_mark rec (take_action net action u))
                  >>= backend_s_validate net masquerade_mark rec
                  >>= act_on_addresses_after action)
                ran
            ∙ followed,
        done,
      )
