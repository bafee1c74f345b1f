-- ===== src/Policies/Links.antt =====
-- src/farmpolicy.c and src/addresspolicy.c: the links from farms and addresses to policies, made,
-- deleted and given an action. Where the source follows the pointers of a link, the model looks the
-- owner of the link and the policy up by their ids; an id that no node has leaves it as it is.
use nftlb.Prelude.{
  ℕ, ◌+◌, ◌-◌, ◌==◌, ◌&&◌, ◌||◌, List, [], ◌∷◌, ◌++◌, Option, none, some, ltb, if◌then◌else◌,
  put_node, remove_node, node_at,
}
use nftlb.Enums.{Action, is_action, action_value}
use nftlb.Model.{Farm, Address, FarmAddress, Policy, FarmPolicy, AddressPolicy}
use nftlb.FarmAddresses.Actions.{change_farm}
use nftlb.Policies.Store.{Store, farm_id, address_id, policy_id}

abbrev pub farm_link_id : FarmPolicy → ℕ
farm_link_id fp = fp.id

abbrev pub address_link_id : AddressPolicy → ℕ
address_link_id ap = ap.id

unfoldable pub use_policy : Policy → Policy
use_policy p = record p { used = p.used + 1 }

unfoldable pub unuse_policy : Policy → Policy
unuse_policy p = record p { used = if ltb 0 p.used then p.used - 1 else p.used }

unfoldable pub unused_at : Option Policy → List Policy → List Policy
unfolding put_node unuse_policy
unused_at none l = l
unused_at (some p) l = put_node policy_id (unuse_policy p) l

-- policies_action of the owner of a new link, from its old count of links and its action.
abbrev pub action_with_link : ℕ → Action → Action
action_with_link policies_used action =
    if ltb 0 policies_used && is_action action Action.reload then Action.reload else Action.start

unfoldable pub link_farm_policy : FarmPolicy → Farm → Farm
link_farm_policy fp f = record f {
  policies_action = action_with_link f.policies_used f.action;
  policies_used = f.policies_used + 1;
  policies = f.policies ++ fp ∷ [];
}

-- The new node `id` from the farm to the policy.
unfoldable pub farmpolicy_create : ℕ → Farm → Policy → Store → Store
unfolding use_policy link_farm_policy put_node
farmpolicy_create id f p s = record s {
  farms =
      put_node farm_id
        (link_farm_policy (record { id = id; policy = p.id; action = Action.start }) f) s.farms;
  policies = put_node policy_id (use_policy p) s.policies;
}

unfoldable pub unlink_farm_policy : ℕ → Farm → Farm
unfolding remove_node
unlink_farm_policy i f = record f {
  policies = remove_node farm_link_id i f.policies;
  policies_used = if ltb 0 f.policies_used then f.policies_used - 1 else f.policies_used;
}

unfoldable pub farmpolicy_delete : Farm → FarmPolicy → Store → Store
unfolding unlink_farm_policy put_node unused_at
farmpolicy_delete f fp s = record s {
  farms = put_node farm_id (unlink_farm_policy fp.id f) s.farms;
  policies = unused_at (node_at policy_id fp.policy s.policies) s.policies;
}

-- farmaddress_s_set_action with ACTION_RELOAD, which changes nothing but the links to addresses.
unfoldable pub reload_addresses : Farm → List FarmAddress → Farm
unfolding change_farm
reload_addresses f [] = f
reload_addresses f (fa ∷ fas) =
    reload_addresses
      (if ltb (action_value Action.reload) (action_value fa.action)
        then change_farm f fa Action.reload
        else f)
      fas

unfoldable pub reload_at : Option Farm → Store → Store
unfolding reload_addresses put_node
reload_at none s = s
reload_at (some f) s = record s {
  farms = put_node farm_id (reload_addresses f f.addresses) s.farms;
}

-- Both stores to the link and its policy, and the farm's new policies_action.
unfoldable pub act_on_farm_policy : Action → FarmPolicy → Farm → Farm
unfolding put_node
act_on_farm_policy action fp f = record f {
  policies = put_node farm_link_id (record fp { action = action }) f.policies;
  policies_action =
      if f.policies_used == 1 && is_action action Action.stop then action else Action.reload;
}

-- The action of the policy that a pointer leads to.
unfoldable pub store_policy_action : Action → Option Policy → List Policy → List Policy
unfolding put_node
store_policy_action action none l = l
store_policy_action action (some p) l = put_node policy_id (record p { action = action }) l

-- The stores of the branch, before the call in it.
unfoldable pub farmpolicy_act : Farm → FarmPolicy → Action → Store → Store
unfolding act_on_farm_policy store_policy_action put_node
farmpolicy_act f fp action s = record s {
  farms = put_node farm_id (act_on_farm_policy action fp f) s.farms;
  policies = store_policy_action Action.reload (node_at policy_id fp.policy s.policies) s.policies;
}

unfoldable pub farmpolicy_set_action : Farm → FarmPolicy → Action → Store → Store × ℕ
unfolding farmpolicy_delete farmpolicy_act reload_at
farmpolicy_set_action f fp action s =
    let deleted = farmpolicy_delete f fp s in
    let acted = farmpolicy_act f fp action s in
    if is_action action Action.delete
    then (reload_at (node_at farm_id f.id deleted.farms) deleted, 1)
    else if ltb (action_value action) (action_value fp.action)
    then (reload_at (node_at farm_id f.id acted.farms) acted, 1)
    else (s, 0)

-- A call for a node of the farm's list, read again after the calls before it.
unfoldable pub on_farm_link : (Farm → FarmPolicy → Store → Store) → ℕ → Option Farm → Store → Store
on_farm_link body i none s = s
on_farm_link body i (some f) s = elim (node_at farm_link_id i f.policies) [
  | none ↦ s
  | some fp ↦ body f fp s
]

-- A loop over the links that the farm `i` had when it started.
unfoldable pub for_farm_links :
    (Farm → FarmPolicy → Store → Store) → ℕ → List FarmPolicy → Store → Store
unfolding on_farm_link
for_farm_links body i [] s = s
for_farm_links body i (fp ∷ fps) s =
    for_farm_links body i fps (on_farm_link body fp.id (node_at farm_id i s.farms) s)

unfoldable pub with_policies_action : Action → Option Farm → Store → Store
unfolding put_node
with_policies_action action none s = s
with_policies_action action (some f) s = record s {
  farms = put_node farm_id (record f { policies_action = action }) s.farms;
}

unfoldable pub farmpolicy_s_set_action : Farm → Action → Store → Store
unfolding farmpolicy_set_action for_farm_links with_policies_action
farmpolicy_s_set_action f action s =
    let done =
      for_farm_links (λ g fp t. (farmpolicy_set_action g fp action t).0) f.id f.policies s in
    with_policies_action action (node_at farm_id f.id done.farms) done

unfoldable pub farmpolicy_s_delete : Farm → Store → Store
unfolding farmpolicy_delete for_farm_links
farmpolicy_s_delete f s = for_farm_links farmpolicy_delete f.id f.policies s

unfoldable pub link_address_policy : AddressPolicy → Address → Address
link_address_policy ap a = record a {
  policies_action = action_with_link a.policies_used a.action;
  policies_used = a.policies_used + 1;
  policies = a.policies ++ ap ∷ [];
}

unfoldable pub addresspolicy_create : ℕ → Address → Policy → Store → Store
unfolding use_policy link_address_policy put_node
addresspolicy_create id a p s = record s {
  addresses =
      put_node address_id
        (link_address_policy (record { id = id; policy = p.id; action = Action.start }) a)
        s.addresses;
  policies = put_node policy_id (use_policy p) s.policies;
}

unfoldable pub unlink_address_policy : ℕ → Address → Address
unfolding remove_node
unlink_address_policy i a = record a {
  policies = remove_node address_link_id i a.policies;
  policies_used = if ltb 0 a.policies_used then a.policies_used - 1 else a.policies_used;
  policies_action = Action.stop;
}

unfoldable pub addresspolicy_delete : Address → AddressPolicy → Store → Store
unfolding unlink_address_policy put_node unused_at
addresspolicy_delete a ap s = record s {
  addresses = put_node address_id (unlink_address_policy ap.id a) s.addresses;
  policies = unused_at (node_at policy_id ap.policy s.policies) s.policies;
}

unfoldable pub act_on_address_policy : Action → AddressPolicy → Address → Address
unfolding put_node
act_on_address_policy action ap a = record a {
  policies = put_node address_link_id (record ap { action = action }) a.policies;
  policies_action = Action.reload;
}

unfoldable pub addresspolicy_set_action : Address → AddressPolicy → Action → Store → Store × ℕ
unfolding addresspolicy_delete act_on_address_policy put_node
addresspolicy_set_action a ap action s =
    let acted = record s {
      addresses = put_node address_id (act_on_address_policy action ap a) s.addresses;
    } in
    if is_action action Action.delete || is_action action Action.stop
    then (addresspolicy_delete a ap s, 1)
    else if ltb (action_value action) (action_value ap.action)
    then (acted, 1)
    else (s, 0)

unfoldable pub on_address_link :
    (Address → AddressPolicy → Store → Store) → ℕ → Option Address → Store → Store
on_address_link body i none s = s
on_address_link body i (some a) s = elim (node_at address_link_id i a.policies) [
  | none ↦ s
  | some ap ↦ body a ap s
]

unfoldable pub for_address_links :
    (Address → AddressPolicy → Store → Store) → ℕ → List AddressPolicy → Store → Store
unfolding on_address_link
for_address_links body i [] s = s
for_address_links body i (ap ∷ aps) s =
    for_address_links body i aps (on_address_link body ap.id (node_at address_id i s.addresses) s)

unfoldable pub addresspolicy_s_set_action : Address → Action → Store → Store
unfolding addresspolicy_set_action for_address_links
addresspolicy_s_set_action a action s =
    for_address_links (λ b ap t. (addresspolicy_set_action b ap action t).0) a.id a.policies s

unfoldable pub addresspolicy_s_delete : Address → Store → Store
unfolding addresspolicy_delete for_address_links
addresspolicy_s_delete a s = for_address_links addresspolicy_delete a.id a.policies s
