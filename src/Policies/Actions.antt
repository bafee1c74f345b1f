-- ===== src/Policies/Actions.antt =====
-- policy_set_action of src/policies.c, which tells the farms and the addresses that use the policy:
-- farm_s_lookup_policy_action of src/farms.c, address_s_lookup_policy_action of src/addresses.c and
-- what they call. A pointer to an object is its id.
use nftlb.Prelude.{
  ℕ, ◌==◌, Bool, true, false, ◌&&◌, ◌||◌, List, [], ◌∷◌, Option, none, some, String, str_eq, ltb,
  length, find?, if◌then◌else◌, node_at, put_node, remove_node, node_at-id, ◌≡◌, subst, sym,
}
use nftlb.Enums.{Action, is_action, action_value}
use nftlb.Model.{Farm, Address, Policy, FarmPolicy, AddressPolicy}
use nftlb.Network.{Net}
use nftlb.States.Focus.{Focus}
use nftlb.States.Calls.{Call, run}
use nftlb.States.Total.{enough_fuel}
use nftlb.Policies.Store.{Store, farm_id, address_id, policy_id, policy_delete}
use nftlb.Policies.Links.{
  farm_link_id, address_link_id, store_policy_action, reload_at, farmpolicy_set_action,
  addresspolicy_set_action,
}

-- The store with the objects of the network events, as States.Focus has them.
pub record Program : Type 0 where
  pub store : Store
  pub dsr_counter : ℕ
  pub net_event_enabled : Bool

unfoldable pub focus_of : Farm → Program → Focus
unfolding remove_node
focus_of f w = record {
  farm = f;
  others = remove_node farm_id f.id w.store.farms;
  addresses = w.store.addresses;
  dsr_counter = w.dsr_counter;
  net_event_enabled = w.net_event_enabled;
}

-- The program after a call that gave a focus; the fuel of a call is enough.
unfoldable pub with_focus : Option Focus → Program → Program
unfolding put_node
with_focus none w = w
with_focus (some t) w = record {
  store = record w.store { farms = put_node farm_id t.farm w.store.farms; addresses = t.addresses };
  dsr_counter = t.dsr_counter;
  net_event_enabled = t.net_event_enabled;
}

abbrev pub is_named : String → Option Policy → Bool
is_named name none = false
is_named name (some p) = str_eq p.name name

-- The node that a lookup gives the pointer to.
abbrev pub pointed {ℓ} : {A : Type ℓ} → (A → ℕ) → Option A → List A → Option A
pointed id none l = none
pointed id (some a) l = node_at id (id a) l

pub pointed_node :
    {A : Type 0} (id : A → ℕ) (o : Option A) (a : A) (l : List A)
    → pointed id o l ≡ some a
    → node_at id (id a) l ≡ some a
pointed_node id none a l h = cc
pointed_node id (some b) a l h =
    subst (λ k. node_at id k l ≡ some a) (sym (node_at-id id (id b) a l h)) h

unfoldable pub farmpolicy_lookup_by_name : String → List Policy → Farm → Option FarmPolicy
farmpolicy_lookup_by_name name policies f =
    pointed farm_link_id
      (find? (λ fp. is_named name (node_at policy_id fp.policy policies)) f.policies) f.policies

unfoldable pub addresspolicy_lookup_by_name : String → List Policy → Address → Option AddressPolicy
addresspolicy_lookup_by_name name policies a =
    pointed address_link_id
      (find? (λ ap. is_named name (node_at policy_id ap.policy policies)) a.policies) a.policies

abbrev pub with_store : Program → Store → Program
with_store w s = record w { store = s }

-- address_set_action of src/addresses.c with ACTION_RELOAD.
unfoldable pub reload_address : Address → Address
reload_address a =
    if ltb (action_value Action.reload) (action_value a.action)
    then record a { action = Action.reload }
    else a

unfoldable pub reload_address_at : Bool → Option Address → Store → Store
unfolding reload_address put_node
reload_address_at true (some a) s = record s {
  addresses = put_node address_id (reload_address a) s.addresses;
}
reload_address_at ret a s = s

unfoldable pub act_on_named_address : Option AddressPolicy → Address → Action → Store → Store × ℕ
unfolding addresspolicy_set_action
act_on_named_address none a action s = (s, 0)
act_on_named_address (some ap) a action s = addresspolicy_set_action a ap action s

-- The address of the call, read from the list again by the loop over the addresses.
unfoldable pub addresspolicy_s_lookup_policy_action :
    String → Action → ℕ → Option Address → Store → Store
unfolding addresspolicy_lookup_by_name act_on_named_address reload_address_at
addresspolicy_s_lookup_policy_action name action i none s = s
addresspolicy_s_lookup_policy_action name action i (some a) s =
    let (t, ret) =
      act_on_named_address (addresspolicy_lookup_by_name name s.policies a) a action s in
    reload_address_at (ret == 1) (node_at address_id i t.addresses) t

unfoldable pub lookup_in_addresses : String → Action → List Address → Store → Store
unfolding addresspolicy_s_lookup_policy_action
lookup_in_addresses name action [] s = s
lookup_in_addresses name action (a ∷ rest) s =
    lookup_in_addresses name action rest (
      addresspolicy_s_lookup_policy_action name action a.id (node_at address_id a.id s.addresses) s)

unfoldable pub address_s_lookup_policy_action : String → Action → Store → Store
unfolding lookup_in_addresses
address_s_lookup_policy_action name action s = lookup_in_addresses name action s.addresses s

unfoldable pub act_on_named_farm : Option FarmPolicy → Farm → Action → Store → Store × ℕ
unfolding farmpolicy_set_action
act_on_named_farm none f action s = (s, 0)
act_on_named_farm (some fp) f action s = farmpolicy_set_action f fp action s

module _ (net : Net) (masquerade_mark : ℕ) where
  -- farm_set_action of a farm of the list.
  unfoldable pub set_farm_action : Action → Option Farm → Program → Program
  unfolding run enough_fuel focus_of with_focus
  set_farm_action action none w = w
  set_farm_action action (some f) w =
      with_focus
        (run net masquerade_mark (enough_fuel (length f.backends)) (Call.set_action action)
          (focus_of f w))
        w

  unfoldable pub reload_farm : Bool → ℕ → Program → Program
  unfolding set_farm_action reload_at
  reload_farm false i w = w
  reload_farm true i w =
      let acted = set_farm_action Action.reload (node_at farm_id i w.store.farms) w in
      with_store acted (reload_at (node_at farm_id i acted.store.farms) acted.store)

  unfoldable pub farmpolicy_s_lookup_policy_action :
      String → Action → ℕ → Option Farm → Program → Program
  unfolding farmpolicy_lookup_by_name act_on_named_farm reload_farm
  farmpolicy_s_lookup_policy_action name action i none w = w
  farmpolicy_s_lookup_policy_action name action i (some f) w =
      let (t, ret) =
        act_on_named_farm (farmpolicy_lookup_by_name name w.store.policies f) f action w.store in
      reload_farm (ret == 1) i (with_store w t)

  unfoldable pub lookup_in_farms : String → Action → List Farm → Program → Program
  unfolding farmpolicy_s_lookup_policy_action
  lookup_in_farms name action [] w = w
  lookup_in_farms name action (f ∷ fs) w =
      lookup_in_farms name action fs
        (farmpolicy_s_lookup_policy_action name action f.id (node_at farm_id f.id w.store.farms) w)

  unfoldable pub farm_s_lookup_policy_action : String → Action → Program → Program
  unfolding lookup_in_farms
  farm_s_lookup_policy_action name action w = lookup_in_farms name action w.store.farms w

  -- What the farms and the addresses are told of an action other than ACTION_DELETE.
  unfoldable pub tell_users : Policy → Action → Program → Program
  unfolding farm_s_lookup_policy_action address_s_lookup_policy_action
  tell_users p action w =
      let told = farm_s_lookup_policy_action p.name action w in
      if is_action action Action.stop || is_action action Action.reload
      then with_store told (address_s_lookup_policy_action p.name action told.store)
      else w

  unfoldable pub policy_set_action : Policy → Action → Program → Program × ℕ
  unfolding tell_users store_policy_action policy_delete
  policy_set_action p action w =
      let deleted = farm_s_lookup_policy_action p.name action w in
      let told = tell_users p action w in
      if is_action p.action action
        || is_action p.action Action.start && is_action action Action.reload
      then (w, 0)
      else if is_action action Action.delete
      then (with_store deleted (policy_delete p.id deleted.store), 1)
      else (
        with_store told (record told.store {
          policies =
              store_policy_action action (node_at policy_id p.id told.store.policies)
                told.store.policies;
        }),
        1,
      )

  unfoldable pub set_action_at : Action → Option Policy → Program → Program
  unfolding policy_set_action
  set_action_at action none w = w
  set_action_at action (some p) w = (policy_set_action p action w).0

  -- The loop of policy_s_set_action, over the policies that stood in the list when it started.
  unfoldable pub set_actions : Action → List Policy → Program → Program
  unfolding set_action_at
  set_actions action [] w = w
  set_actions action (p ∷ ps) w =
      set_actions action ps (set_action_at action (node_at policy_id p.id w.store.policies) w)

  unfoldable pub policy_s_set_action : Action → Program → Program
  unfolding set_actions
  policy_s_set_action action w = set_actions action w.store.policies w
