-- ===== src/States/Focus.antt =====
-- The farm at hand with the objects around it, and what farm_set_action of src/farms.c does to them
-- besides its backends: farm_validate, the counter of farms that need the daemon of network events,
-- and the action of the links.
use nftlb.Prelude.{
  ℕ, ◌==◌, Bool, true, false, ◌&&◌, ◌||◌, not, List, [], ◌∷◌, Option, none, some, ltb, count,
  if◌then◌else◌,
}
use nftlb.Enums.{State, Action, is_state, is_action, action_value, switch_value}
use nftlb.Model.{Farm, Address, FarmAddress}
use nftlb.Network.{Net}
use nftlb.Backends.Predicates.{is_set, farm_is_ingress_mode}
use nftlb.FarmAddresses.Links.{address_at}
use nftlb.FarmAddresses.Actions.{put_link, tells_policies, change_farm, change_address}
use nftlb.Farms.Helpers.{linked, farm_validate_helper_protocol}

pub record Focus : Type 0 where
  -- the farm that the source's pointer names, and the others of the list
  pub farm : Farm
  pub others : List Farm
  pub addresses : List Address
  -- dsr_counter of src/objects.c and net_event_enabled of src/network.c
  pub dsr_counter : ℕ
  pub net_event_enabled : Bool

unfoldable pub farm_needs_flowtable : Farm → Bool
farm_needs_flowtable f = not (switch_value f.flow_offload == 0)

unfoldable pub farm_needs_policies : Farm → Bool
farm_needs_policies f = ltb 0 f.policies_used || not (is_action f.policies_action Action.none)

-- These two return 1 where the address has no interface, and no hardware address.
unfoldable pub address_validate_iface : Address → Bool
address_validate_iface a = not (is_set a.iface)

unfoldable pub address_validate_iether : Address → Bool
address_validate_iether a = not (is_set a.iethaddr)

abbrev lacks_iface : Option Address → Bool
lacks_iface none = true
lacks_iface (some a) = address_validate_iface a || address_validate_iether a

-- The links after the loop, and `anyvalid`.
unfoldable pub farmaddress_s_validate_iface :
    List Address → List FarmAddress → List FarmAddress × Bool
unfolding address_validate_iface address_validate_iether
farmaddress_s_validate_iface addresses [] = ([], false)
farmaddress_s_validate_iface addresses (fa ∷ fas) =
    let (rest, anyvalid) = farmaddress_s_validate_iface addresses fas in
    if lacks_iface (address_at fa.address addresses)
    then (record fa { action = Action.none } ∷ rest, anyvalid)
    else (fa ∷ rest, true)

unfoldable pub farm_validate_oface : Farm → Bool
farm_validate_oface f = is_set f.oface && is_set f.oethaddr

-- The third test of farm_validate, which the links pass through where it is made.
unfoldable pub validate_ingress : List Address → Farm → Farm × Bool
unfolding farm_is_ingress_mode farm_needs_flowtable farmaddress_s_validate_iface farm_validate_oface
validate_ingress addresses f =
    let (links, valid) = farmaddress_s_validate_iface addresses f.addresses in
    if farm_is_ingress_mode f || farm_needs_flowtable f
    then (record f { addresses = links }, valid && farm_validate_oface f)
    else (f, true)

unfoldable pub validate_policies : List Address → Farm → Farm × Bool
unfolding validate_ingress farm_needs_policies
validate_policies addresses f =
    let (links, valid) = farmaddress_s_validate_iface addresses f.addresses in
    let checked = record f { addresses = links } in
    if farm_needs_policies f
    then if valid then validate_ingress addresses checked else (checked, false)
    else validate_ingress addresses f

-- The farm after the call, since the tests stop the links with no interface, and the result.
unfoldable pub farm_validate : List Address → Farm → Farm × Bool
unfolding validate_policies farm_validate_helper_protocol linked
farm_validate addresses f =
    if farm_validate_helper_protocol f.helper (linked addresses f.addresses)
    then validate_policies addresses f
    else (f, false)

-- The test in the loop of farm_s_update_dsr_counter.
abbrev pub needs_events : Farm → Bool
needs_events f =
    farm_is_ingress_mode f && (is_state f.state State.up || is_state f.state State.conferr)

unfoldable pub farm_s_update_dsr_counter : Focus → Focus
unfolding farm_is_ingress_mode
farm_s_update_dsr_counter s = record s { dsr_counter = count needs_events (s.farm ∷ s.others) }

unfoldable pub farm_manage_eventd : Net → Focus → Focus
unfolding farm_s_update_dsr_counter
farm_manage_eventd net s =
    let counted = farm_s_update_dsr_counter s in
    let started : Bool = if counted.net_event_enabled then true else net.socket_opens in
    record counted { net_event_enabled = if counted.dsr_counter == 0 then false else started }

-- farmaddress_set_action of src/farmaddress.c for an action other than ACTION_DELETE.
unfoldable pub act_on_link : Action → FarmAddress → Focus → Focus
unfolding change_farm change_address put_link
act_on_link action fa s = if is_action fa.action action then s else record s {
  farm = change_farm s.farm fa action;
  addresses =
      change_address (tells_policies s.farm action) action (address_at fa.address s.addresses)
        s.addresses;
}

unfoldable pub act_on_links : Action → List FarmAddress → Focus → Focus
unfolding act_on_link
act_on_links action [] s = s
act_on_links action (fa ∷ fas) s =
    act_on_links action fas
      (if ltb (action_value action) (action_value fa.action) then act_on_link action fa s else s)

-- farmaddress_s_set_action of src/farmaddress.c, for an action other than ACTION_DELETE.
unfoldable pub farmaddress_s_set_action : Action → Focus → Focus
unfolding act_on_links
farmaddress_s_set_action action s = act_on_links action s.farm.addresses s
