-- ===== src/Policies/Store.antt =====
-- The objects that a policy touches, and src/policies.c without policy_set_action: a policy is made
-- and deleted, found by its name, compared with a pair of the configuration and changed by one.
use nftlb.Prelude.{
  ℕ, ◌+◌, ◌-◌, Bool, true, false, not, List, [], ◌∷◌, ◌++◌, Option, some, String, pos, str_eq,
  find?, remove_node,
}
use nftlb.Enums.{Action, Family, Key, PolicyType, PolicyRoute, policy_type_value, family_value}
use nftlb.Model.{Farm, Address, Policy}
use nftlb.Config.Pair.{ConfigPair}
use nftlb.Objects.Attributes.{obj_equ_attribute_string, obj_equ_attribute_int}

pub record Store : Type 0 where
  pub farms : List Farm
  pub addresses : List Address
  pub policies : List Policy
  pub total_policies : ℕ

abbrev pub farm_id : Farm → ℕ
farm_id f = f.id

abbrev pub address_id : Address → ℕ
address_id a = a.id

abbrev pub policy_id : Policy → ℕ
policy_id p = p.id

-- A new policy has the given node and name, and the defaults of include/objects.h.
unfoldable pub new_policy : ℕ → String → Policy
new_policy id name = record {
  id = id;
  name = name;
  type = PolicyType.deny;
  route = PolicyRoute.in_route;
  family = Family.ipv4;
  timeout = pos 0;
  total_elem = pos 0;
  used = 0;
  logprefix = "KNAME-TYPE-PNAME-FNAME ";
  action = Action.start;
  elements = [];
}

unfoldable pub policy_create : ℕ → String → Store → Store
unfolding new_policy
policy_create id name s = record s {
  policies = s.policies ++ new_policy id name ∷ [];
  total_policies = s.total_policies + 1;
}

-- The total of a list that has the node is above 0.
unfoldable pub policy_delete : ℕ → Store → Store
unfolding remove_node
policy_delete i s = record s {
  policies = remove_node policy_id i s.policies;
  total_policies = s.total_policies - 1;
}

-- A family that policies do not support leaves the policy as it is.
unfoldable pub policy_set_family : Policy → Family → Policy
policy_set_family p Family.ipv4 = record p { family = Family.ipv4 }
policy_set_family p Family.ipv6 = record p { family = Family.ipv6 }
policy_set_family p new_value = p

unfoldable pub policy_set_type : Policy → PolicyType → Policy
policy_set_type p new_value = record p { type = new_value }

unfoldable pub policy_lookup_by_name : String → List Policy → Option Policy
policy_lookup_by_name name = find? (λ p. str_eq p.name name)

-- The switch has no case for KEY_ROUTE and none for KEY_ACTION.
unfoldable pub policy_changed : Policy → ConfigPair → Bool
unfolding obj_equ_attribute_string obj_equ_attribute_int
policy_changed p c = elim c.key [
  | some Key.name ↦ true
  | some Key.type ↦ not (obj_equ_attribute_int (pos (policy_type_value p.type)) c.int_value)
  | some Key.family ↦ not (obj_equ_attribute_int (pos (family_value p.family)) c.int_value)
  | some Key.timeout ↦ not (obj_equ_attribute_int p.timeout c.int_value)
  | some Key.logprefix ↦ not (obj_equ_attribute_string (some p.logprefix) c.str_value)
  | _ ↦ false
]
