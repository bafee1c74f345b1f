-- ===== src/States/LinksKept.antt =====
-- The calls of backend_set_state, backend_s_gen_priority and farm_set_action keep the ids and the links
-- to policies.
use nftlb.Prelude.{
  ℕ, zero, suc, ◌≡◌, refl, ap, Bool, ◌||◌, ◌&&◌, not, Option, none, some, if◌then◌else◌, Bool-cases,
  Option-cases, inl, inr,
}
use nftlb.Enums.{State, Action, is_action, is_state}
use nftlb.Model.{Backend}
use nftlb.Network.{Net}
use nftlb.Backends.Predicates.{backend_validate, farm_is_ingress_mode}
use nftlb.Backends.Priority.{elected_priority}
use nftlb.Backends.Setters.{put_backend}
use nftlb.Backends.Transition.{Outcome, resolve_state, enter_state}
use nftlb.Sessions.Kept.{but_sessions}
use nftlb.Sessions.Timed.{backend_at}
use nftlb.States.Focus.{Focus, farm_manage_eventd}
use nftlb.States.NetInfo.{farm_set_oface_info}
use nftlb.States.Calls.{
  Call, with_farm, with_counters, with_have_if, revalidated, is_forced, effective_action,
  tell_policies, gives_way, act_on_addresses_after, ask_netinfo, take_action, flowtable_netinfo,
  start_sessions_of, enter, backend_set_state, refresh, backend_s_gen_priority, backend_set_netinfo,
  netinfo_body, ingress_netinfo, farm_set_netinfo, validate_body, backend_s_validate, act,
  act_where_given_way, farm_set_action, step, run,
}
use nftlb.States.Course.{start_sessions_of-kept}
use nftlb.States.Links.{
  SameLinks, SameLinks-refl, SameLinks-trans, farm_part, farm_set_oface_info-part,
}
use nftlb.States.LinksAround.{
  Keeps, some-Keeps, then_Keeps, if_Keeps, after_Keeps, for_backends-Keeps, farm_SameLinks,
  with_counters-Keeps, revalidated-SameLinks, tell_policies-SameLinks, act_on_addresses-Keeps,
  take_action-SameLinks, manage_eventd-SameLinks, flowtable_netinfo-Keeps, ask_netinfo-part,
}

module _ (net : Net) (masquerade_mark : ℕ) (rec : Call → Focus → Option Focus)
    (keeps : (c : Call) (s : Focus) → Keeps s (rec c s)) where
  entered-SameLinks :
      (o : Outcome) (s : Focus)
      → SameLinks s
          (start_sessions_of net masquerade_mark o (with_farm s (put_backend s.farm o.backend)))
  unfolding start_sessions_of put_backend but_sessions
  entered-SameLinks o s =
      let entered = with_farm s (put_backend s.farm o.backend) in
      record {
        farm = ap farm_part (start_sessions_of-kept net masquerade_mark o entered);
        addresses = elim (Bool-cases o.start_sessions) [
          | inl starts ↦ rw starts refl
          | inr stays ↦ rw stays refl
        ];
      }

  backend_set_state-Keeps :
      (new_value : State) (b : Backend) (s : Focus)
      → Keeps s (backend_set_state net masquerade_mark rec new_value b s)
  unfolding backend_set_state enter
  backend_set_state-Keeps new_value b s =
      let resolved = resolve_state s.farm b new_value in
      let o = enter_state s.farm b resolved in
      let entered =
        start_sessions_of net masquerade_mark o (with_farm s (put_backend s.farm o.backend)) in
      if_Keeps (is_state b.state resolved) s _ _ (some-Keeps s s (SameLinks-refl s)) (
        if_Keeps o.propagate s _ _
          (after_Keeps s entered _ (entered-SameLinks o s) (
            then_Keeps entered _ (rec Call.gen_priority)
              (keeps (Call.set_action Action.reload) entered) (keeps Call.gen_priority)))
          (some-Keeps s entered (entered-SameLinks o s)))

  refresh-Keeps : (b : Backend) (s : Focus) → Keeps s (refresh net masquerade_mark rec b s)
  unfolding refresh
  refresh-Keeps b s =
      if_Keeps (is_state b.state State.up || is_state b.state State.avail) s _ _
        (keeps (Call.set_state b.id State.up) s) (some-Keeps s s (SameLinks-refl s))

  gen_priority-Keeps : (s : Focus) → Keeps s (backend_s_gen_priority net masquerade_mark rec s)
  unfolding backend_s_gen_priority
  gen_priority-Keeps s =
      let elected = with_farm s (record s.farm { priority = elected_priority s.farm.backends }) in
      after_Keeps s elected _ (farm_SameLinks s _ refl) (
        then_Keeps elected _ with_counters
          (for_backends-Keeps (refresh net masquerade_mark rec) refresh-Keeps s.farm.backends
            elected)
          with_counters-Keeps)

  set_netinfo-Keeps :
      (b : Backend) (s : Focus) → Keeps s (backend_set_netinfo net masquerade_mark rec b s)
  unfolding backend_set_netinfo put_backend
  set_netinfo-Keeps b s =
      let ((f, b'), found) = ask_netinfo net b s in
      let asked = with_farm s (put_backend f b') in
      let same : SameLinks s asked = farm_SameLinks s _ (ask_netinfo-part net b s) in
      if_Keeps found s _ _
        (if_Keeps (is_state b'.state State.conferr) s _ _
          (after_Keeps s asked _ same (keeps (Call.set_state b.id State.up) asked))
          (some-Keeps s asked same))
        (after_Keeps s asked _ same (keeps (Call.set_state b.id State.conferr) asked))

  netinfo_body-Keeps :
      (b : Backend) (s : Focus) → Keeps s (netinfo_body net masquerade_mark rec b s)
  unfolding netinfo_body
  netinfo_body-Keeps b s =
      if_Keeps (backend_validate s.farm b) s _ _ (some-Keeps s s (SameLinks-refl s))
        (set_netinfo-Keeps b s)

  ingress_netinfo-Keeps : (s : Focus) → Keeps s (ingress_netinfo net masquerade_mark rec s)
  unfolding ingress_netinfo
  ingress_netinfo-Keeps s =
      let f = (farm_set_oface_info net s.farm).0 in
      let asked = with_farm s f in
      let same : SameLinks s asked = farm_SameLinks s _ (farm_set_oface_info-part net s.farm) in
      let managed = farm_manage_eventd net (with_have_if asked) in
      if_Keeps (farm_is_ingress_mode s.farm) s _ _
        (if_Keeps (farm_set_oface_info net s.farm).1 s _ _
          (after_Keeps s managed _ (SameLinks-trans same (manage_eventd-SameLinks net asked)) (
            for_backends-Keeps (netinfo_body net masquerade_mark rec) netinfo_body-Keeps f.backends
              managed))
          (some-Keeps s asked same))
        (some-Keeps s s (SameLinks-refl s))

  farm_set_netinfo-Keeps : (s : Focus) → Keeps s (farm_set_netinfo net masquerade_mark rec s)
  unfolding farm_set_netinfo
  farm_set_netinfo-Keeps s =
      if_Keeps (is_state s.farm.state State.up) s _ _
        (then_Keeps s _ (flowtable_netinfo net) (ingress_netinfo-Keeps s)
          (flowtable_netinfo-Keeps net))
        (some-Keeps s s (SameLinks-refl s))

  validate_body-Keeps :
      (b : Backend) (s : Focus) → Keeps s (validate_body net masquerade_mark rec b s)
  unfolding validate_body
  validate_body-Keeps b s =
      if_Keeps (is_state b.state State.conferr && backend_validate s.farm b) s _ _
        (keeps (Call.set_state b.id State.up) s) (some-Keeps s s (SameLinks-refl s))

  validate-Keeps : (s : Focus) → Keeps s (backend_s_validate net masquerade_mark rec s)
  unfolding backend_s_validate
  validate-Keeps s =
      for_backends-Keeps (validate_body net masquerade_mark rec) validate_body-Keeps s.farm.backends
        s

  act-Keeps : (action : Action) (s : Focus) → Keeps s (act net masquerade_mark rec action s)
  unfolding act
  act-Keeps action s =
      then_Keeps s _ (act_on_addresses_after action)
        (then_Keeps s _ (backend_s_validate net masquerade_mark rec)
          (then_Keeps s _ (λ u. farm_set_netinfo net masquerade_mark rec (take_action net action u))
            (keeps Call.gen_priority s)
            (λ u.
              after_Keeps u (take_action net action u) _ (take_action-SameLinks net action u)
                (farm_set_netinfo-Keeps (take_action net action u))))
          validate-Keeps)
        (act_on_addresses-Keeps action)

  act_where_given_way-Keeps :
      (force : Bool) (action : Action) (s : Focus)
      → Keeps s (act_where_given_way net masquerade_mark rec force action s)
  unfolding act_where_given_way
  act_where_given_way-Keeps force action s =
      let told = with_farm s (tell_policies action s.farm) in
      let same = tell_policies-SameLinks action s in
      if_Keeps (force || gives_way told.farm action) s _ _
        (after_Keeps s told _ same (act-Keeps action told)) (some-Keeps s told same)

  set_action-Keeps :
      (action : Action) (s : Focus) → Keeps s (farm_set_action net masquerade_mark rec action s)
  unfolding farm_set_action
  set_action-Keeps action s =
      let forced = is_forced action s in
      let s1 = if forced then revalidated s else s in
      let same : SameLinks s s1 = elim (Bool-cases forced) [
        | inl forces ↦ rw forces (revalidated-SameLinks s)
        | inr plain ↦ rw plain (SameLinks-refl s)
      ] in
      if_Keeps (is_action action Action.delete) s none _ (λ t h. cc)
        (if_Keeps (is_action action Action.stop && not (is_state s1.farm.state State.up)) s _ _
          (some-Keeps s s1 same)
          (after_Keeps s s1 _ same
            (act_where_given_way-Keeps forced (effective_action action s1.farm) s1)))

  step-Keeps : (c : Call) (s : Focus) → Keeps s (step net masquerade_mark rec c s)
  unfolding step
  step-Keeps (Call.set_state i new_value) s = elim (Option-cases (backend_at i s.farm.backends)) [
    | inl gone ↦ rw gone (some-Keeps s s (SameLinks-refl s))
    | inr (b, here) ↦ rw here (backend_set_state-Keeps new_value b s)
  ]
  step-Keeps Call.gen_priority s = gen_priority-Keeps s
  step-Keeps (Call.set_action action) s = set_action-Keeps action s

-- No call of backend_set_state, backend_s_gen_priority or farm_set_action changes a link to a policy.
pub run-SameLinks :
    (net : Net) (masquerade_mark fuel : ℕ) (c : Call) (s t : Focus)
    → run net masquerade_mark fuel c s ≡ some t
    → SameLinks s t
unfolding run
run-SameLinks net masquerade_mark zero c s t h = cc
run-SameLinks net masquerade_mark (suc fuel) c s t h =
    step-Keeps net masquerade_mark (run net masquerade_mark fuel)
      (λ c s t. run-SameLinks net masquerade_mark fuel c s t) c s t h
