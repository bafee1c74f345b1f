-- ===== src/States/Calls.antt =====
-- backend_set_state and backend_s_gen_priority of src/backends.c and farm_set_action of src/farms.c,
-- which call one another, on fuel: a call that would nest deeper than the fuel gives nothing. The
-- first two call farm_set_action with ACTION_RELOAD. With ACTION_DELETE, which nothing here asks for,
-- farm_set_action frees the farm (farm_delete), and then there is no farm at hand and no state either.
use nftlb.Prelude.{
  ℕ, zero, suc, ◌==◌, Bool, false, ◌&&◌, ◌||◌, not, List, [], ◌∷◌, Option, none, some, ltb, eq_ℤ,
  negsuc, if◌then◌else◌,
}
use nftlb.Enums.{State, Action, is_state, is_action, action_value}
use nftlb.Model.{Farm, Backend}
use nftlb.Network.{Net}
use nftlb.Backends.Predicates.{backend_validate, farm_is_ingress_mode}
use nftlb.Backends.Priority.{elected_priority}
use nftlb.Backends.Counters.{backend_s_update_counters}
use nftlb.Backends.Setters.{put_backend}
use nftlb.Backends.Transition.{Outcome, resolve_state, enter_state}
use nftlb.Sessions.Timed.{backend_at, session_backend_action}
use nftlb.States.Focus.{
  Focus, farm_needs_flowtable, farm_validate, farm_manage_eventd, farmaddress_s_set_action,
}
use nftlb.States.NetInfo.{farm_set_oface_info, backend_set_ifinfo, backend_set_ipaddr_from_ether}

pub data Call : Type 0 where
  -- backend_set_state of the backend with the id
  set_state : ℕ → State → Call
  -- backend_s_gen_priority of the farm
  gen_priority : Call
  -- farm_set_action of the farm
  set_action : Action → Call

infixl 5 ◌>>=◌
abbrev pub ◌>>=◌ : {A B : Type 0} → Option A → (A → Option B) → Option B
none >>= k = none
some s >>= k = k s

-- backend_s_check_have_iface
unfoldable pub backend_s_check_have_iface : Farm → List Backend → ℕ
backend_s_check_have_iface f [] = 0
backend_s_check_have_iface f (b ∷ bs) =
    if not (eq_ℤ b.ofidx (negsuc 0)) && not (eq_ℤ f.ofidx b.ofidx)
    then 1
    else backend_s_check_have_iface f bs

abbrev pub with_farm : Focus → Farm → Focus
with_farm s f = record s { farm = f }

-- A loop over the nodes of the backends that stood in the list when it started.
unfoldable pub for_backends : (Backend → Focus → Option Focus) → List Backend → Focus → Option Focus
for_backends body [] s = some s
for_backends body (x ∷ xs) s = elim (backend_at x.id s.farm.backends) [
  | none ↦ for_backends body xs s
  | some b ↦ body b s >>= for_backends body xs
]

unfoldable pub with_counters : Focus → Option Focus
unfolding backend_s_update_counters
with_counters s = some (with_farm s (backend_s_update_counters s.farm))

unfoldable pub with_have_if : Focus → Focus
unfolding backend_s_check_have_iface
with_have_if s =
    with_farm s (record s.farm { bcks_have_if = backend_s_check_have_iface s.farm s.farm.backends })

-- The first test of farm_set_action, which also makes it act whatever action the farm has.
abbrev pub is_forced : Action → Focus → Bool
is_forced action s = is_action action Action.stop && is_state s.farm.state State.conferr

unfoldable pub revalidated : Focus → Focus
unfolding farm_validate
revalidated s =
    let (f, valid) = farm_validate s.addresses (record s.farm { policies_action = Action.none }) in
    with_farm s (record f { state = if valid then State.up else f.state })

-- A reload of a farm that does not run is a start.
abbrev pub effective_action : Action → Farm → Action
effective_action action f =
    if is_action action Action.reload
      && not (is_state f.state State.up)
      && not (is_state f.state State.conferr)
    then Action.start
    else action

abbrev pub tell_policies : Action → Farm → Farm
tell_policies action f =
    if not (is_action action Action.none)
      && not (is_action action Action.reload)
      && not (f.policies_used == 0)
    then record f { policies_action = action }
    else f

-- The farm's action is above the new one.
abbrev pub gives_way : Farm → Action → Bool
gives_way f action = ltb (action_value action) (action_value f.action)

unfoldable pub act_on_addresses : Action → Focus → Focus
unfolding farmaddress_s_set_action
act_on_addresses action s =
    if is_action action Action.stop || is_action action Action.start
    then farmaddress_s_set_action action s
    else s

unfoldable pub act_on_addresses_after : Action → Focus → Option Focus
unfolding act_on_addresses
act_on_addresses_after action s = some (act_on_addresses action s)

module _ (net : Net) where
  -- backend_set_netinfo: the backend after the two questions, and whether both were answered.
  unfoldable pub ask_netinfo : Backend → Focus → (Farm × Backend) × Bool
  unfolding backend_set_ifinfo backend_set_ipaddr_from_ether
  ask_netinfo b s =
      let ((f, b1), reached) = backend_set_ifinfo net s.farm b in
      let (b2, found) = backend_set_ipaddr_from_ether net s.addresses f b1 in
      if reached then ((f, b2), found) else ((f, b1), false)

  unfoldable pub take_action : Action → Focus → Focus
  unfolding farm_manage_eventd
  take_action action s =
      let managed = farm_manage_eventd net s in
      with_farm managed (record managed.farm { action = action })

  unfoldable pub flowtable_netinfo : Focus → Option Focus
  unfolding farm_needs_flowtable farm_set_oface_info with_have_if
  flowtable_netinfo s =
      if farm_needs_flowtable s.farm
      then some (with_have_if (with_farm s (farm_set_oface_info net s.farm).0))
      else some s

module _ (net : Net) (masquerade_mark : ℕ) where
  -- The sessions of a backend that comes up.
  unfoldable pub start_sessions_of : Outcome → Focus → Focus
  unfolding session_backend_action
  start_sessions_of o s =
      if o.start_sessions
      then with_farm s
          (session_backend_action net masquerade_mark s.addresses o.backend Action.start s.farm)
      else s

  module _ (rec : Call → Focus → Option Focus) where
    -- backend_set_state from the test of the old value on.
    unfoldable pub enter : Outcome → Focus → Option Focus
    unfolding start_sessions_of put_backend
    enter o s =
        let entered = start_sessions_of o (with_farm s (put_backend s.farm o.backend)) in
        if o.propagate
        then rec (Call.set_action Action.reload) entered >>= rec Call.gen_priority
        else some entered

    unfoldable pub backend_set_state : State → Backend → Focus → Option Focus
    unfolding resolve_state enter_state enter
    backend_set_state new_value b s =
        let resolved = resolve_state s.farm b new_value in
        if is_state b.state resolved then some s else enter (enter_state s.farm b resolved) s

    -- The body of the second loop of backend_s_gen_priority.
    unfoldable pub refresh : Backend → Focus → Option Focus
    refresh b s =
        if is_state b.state State.up || is_state b.state State.avail
        then rec (Call.set_state b.id State.up) s
        else some s

    unfoldable pub backend_s_gen_priority : Focus → Option Focus
    unfolding elected_priority refresh for_backends with_counters
    backend_s_gen_priority s =
        let elected = with_farm s (record s.farm { priority = elected_priority s.farm.backends }) in
        for_backends refresh s.farm.backends elected >>= with_counters

    unfoldable pub backend_set_netinfo : Backend → Focus → Option Focus
    unfolding ask_netinfo put_backend
    backend_set_netinfo b s =
        let ((f, b'), found) = ask_netinfo net b s in
        let asked = with_farm s (put_backend f b') in
        if found
        then if is_state b'.state State.conferr
          then rec (Call.set_state b.id State.up) asked
          else some asked
        else rec (Call.set_state b.id State.conferr) asked

    -- The body of the loop of backend_s_set_netinfo.
    unfoldable pub netinfo_body : Backend → Focus → Option Focus
    unfolding backend_set_netinfo backend_validate
    netinfo_body b s = if backend_validate s.farm b then some s else backend_set_netinfo b s

    unfoldable pub ingress_netinfo : Focus → Option Focus
    unfolding farm_is_ingress_mode farm_set_oface_info with_have_if farm_manage_eventd netinfo_body
        for_backends
    ingress_netinfo s =
        let (f, found) = farm_set_oface_info net s.farm in
        let asked = with_farm s f in
        if farm_is_ingress_mode s.farm
        then if found
          then for_backends netinfo_body f.backends (farm_manage_eventd net (with_have_if asked))
          else some asked
        else some s

    unfoldable pub farm_set_netinfo : Focus → Option Focus
    unfolding ingress_netinfo flowtable_netinfo
    farm_set_netinfo s =
        if is_state s.farm.state State.up
        then ingress_netinfo s >>= flowtable_netinfo net
        else some s

    -- The body of the loop of backend_s_validate.
    unfoldable pub validate_body : Backend → Focus → Option Focus
    unfolding backend_validate
    validate_body b s =
        if is_state b.state State.conferr && backend_validate s.farm b
        then rec (Call.set_state b.id State.up) s
        else some s

    unfoldable pub backend_s_validate : Focus → Option Focus
    unfolding validate_body for_backends
    backend_s_validate s = for_backends validate_body s.farm.backends s

    -- The branch of farm_set_action that returns 1.
    unfoldable pub act : Action → Focus → Option Focus
    unfolding take_action farm_set_netinfo backend_s_validate act_on_addresses_after
    act action s =
        rec Call.gen_priority s
        >>= (λ s1. farm_set_netinfo (take_action net action s1))
        >>= backend_s_validate
        >>= act_on_addresses_after action

    unfoldable pub act_where_given_way : Bool → Action → Focus → Option Focus
    unfolding act
    act_where_given_way force action s =
        let told = with_farm s (tell_policies action s.farm) in
        if force || gives_way told.farm action then act action told else some told

    unfoldable pub farm_set_action : Action → Focus → Option Focus
    unfolding act_where_given_way revalidated
    farm_set_action action s =
        let forced = is_forced action s in
        let s1 = if forced then revalidated s else s in
        if is_action action Action.delete
        then none
        else if is_action action Action.stop && not (is_state s1.farm.state State.up)
        then some s1
        else act_where_given_way forced (effective_action action s1.farm) s1

    abbrev pub state_of : Option Backend → State → Focus → Option Focus
    unfolding backend_set_state
    state_of none new_value s = some s
    state_of (some b) new_value s = backend_set_state new_value b s

    -- One call, where `rec` makes the calls in it.
    unfoldable pub step : Call → Focus → Option Focus
    unfolding state_of backend_s_gen_priority farm_set_action
    step (Call.set_state i new_value) s = state_of (backend_at i s.farm.backends) new_value s
    step Call.gen_priority s = backend_s_gen_priority s
    step (Call.set_action action) s = farm_set_action action s

  unfoldable pub run : ℕ → Call → Focus → Option Focus
  unfolding step
  run zero c s = none
  run (suc fuel) c s = step (run fuel) c s
