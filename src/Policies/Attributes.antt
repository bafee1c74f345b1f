-- ===== src/Policies/Attributes.antt =====
-- The attributes of the links, farmpolicy_set_attribute of src/farmpolicy.c and
-- addresspolicy_set_attribute of src/addresspolicy.c, and what is done around the change of an attribute:
-- the pre and post actions of src/policies.c and the post actions of the links. The current farm,
-- address, policy and link of src/objects.c are arguments.
use nftlb.Prelude.{ℕ, Bool, true, Option, none, some, String, ℤ, pos, negsuc, node_at}
use nftlb.Enums.{Action, Key, ParserOutput, parser_value}
use nftlb.Model.{Farm, Address, Policy, FarmPolicy, AddressPolicy}
use nftlb.Network.{Net}
use nftlb.Policies.Store.{Store, address_id, policy_id, policy_lookup_by_name}
use nftlb.Policies.Links.{farmpolicy_create, addresspolicy_create}
use nftlb.Policies.Actions.{
  Program, pointed, farmpolicy_lookup_by_name, addresspolicy_lookup_by_name, reload_address_at,
  reload_farm, policy_set_action,
}

-- The store, the current link and the result of a setter.
pub record Set : Type 0 where
  pub store : Store
  pub current : Option ℕ
  pub ret : ℤ

abbrev pub parser : ParserOutput → ℤ
parser output = pos (parser_value output)

-- The policy of the name, as a pointer to its node.
unfoldable pub named_policy : String → Store → Option Policy
unfolding policy_lookup_by_name
named_policy name s = pointed policy_id (policy_lookup_by_name name s.policies) s.policies

-- A link to the policy is made where the farm has none.
unfoldable pub name_farm_link :
    ℕ → Option ℕ → Farm → Option FarmPolicy → Option Policy → Store → Set
unfolding farmpolicy_create
name_farm_link id current f link none s = record {
  store = s;
  current = current;
  ret = parser ParserOutput.obj_unknown;
}
name_farm_link id current f (some fp) (some p) s = record {
  store = s;
  current = current;
  ret = parser ParserOutput.ok;
}
name_farm_link id current f none (some p) s = record {
  store = farmpolicy_create id f p s;
  current = some id;
  ret = parser ParserOutput.ok;
}

-- `id` is the new node.
unfoldable pub farmpolicy_set_attribute :
    ℕ → Option ℕ → Option Farm → Option Key → String → Store → Set
unfolding named_policy farmpolicy_lookup_by_name name_farm_link
farmpolicy_set_attribute id current none key name s = record {
  store = s;
  current = current;
  ret = parser ParserOutput.obj_unknown;
}
farmpolicy_set_attribute id current (some f) (some Key.name) name s =
    name_farm_link id current f (farmpolicy_lookup_by_name name s.policies f) (named_policy name s)
      s
farmpolicy_set_attribute id current (some f) key name s = record {
  store = s;
  current = current;
  ret = parser ParserOutput.struct_failed;
}

unfoldable pub name_address_link :
    ℕ → Option ℕ → Address → Option AddressPolicy → Option Policy → Store → Set
unfolding addresspolicy_create
name_address_link id current a link none s = record { store = s; current = current; ret = negsuc 0 }
name_address_link id current a (some ap) (some p) s = record {
  store = s;
  current = current;
  ret = parser ParserOutput.ok;
}
name_address_link id current a none (some p) s = record {
  store = addresspolicy_create id a p s;
  current = some id;
  ret = parser ParserOutput.ok;
}

unfoldable pub addresspolicy_set_attribute :
    ℕ → Option ℕ → Option Address → Option Key → String → Store → Set
unfolding named_policy addresspolicy_lookup_by_name name_address_link
addresspolicy_set_attribute id current none key name s = record {
  store = s;
  current = current;
  ret = parser ParserOutput.obj_unknown;
}
addresspolicy_set_attribute id current (some a) (some Key.name) name s =
    name_address_link id current a (addresspolicy_lookup_by_name name s.policies a)
      (named_policy name s) s
addresspolicy_set_attribute id current (some a) key name s = record {
  store = s;
  current = current;
  ret = parser ParserOutput.struct_failed;
}

-- addresspolicy_pos_actionable: the address `i`, and whether there is a current link.
unfoldable pub addresspolicy_pos_actionable : Bool → Option ℕ → Store → Store × ℤ
unfolding reload_address_at
addresspolicy_pos_actionable true (some i) s =
    (reload_address_at true (node_at address_id i s.addresses) s, pos 0)
addresspolicy_pos_actionable has_link a s = (s, negsuc 0)

module _ (net : Net) (masquerade_mark : ℕ) where
  unfoldable pub farmpolicy_pos_actionable : Bool → Option ℕ → Program → Program × ℤ
  unfolding reload_farm
  farmpolicy_pos_actionable true (some i) w = (reload_farm net masquerade_mark true i w, pos 0)
  farmpolicy_pos_actionable has_link f w = (w, negsuc 0)

  unfoldable pub policy_pre_actionable : Option Policy → Option Key → Program → Program × ℤ
  unfolding policy_set_action
  policy_pre_actionable none key w = (w, negsuc 0)
  policy_pre_actionable (some p) (some Key.name) w = (w, pos 0)
  policy_pre_actionable (some p) (some Key.used) w = (w, pos 0)
  policy_pre_actionable (some p) (some Key.family) w =
      ((policy_set_action net masquerade_mark p Action.stop w).0, pos 0)
  policy_pre_actionable (some p) (some Key.route) w =
      ((policy_set_action net masquerade_mark p Action.stop w).0, pos 0)
  policy_pre_actionable (some p) (some Key.timeout) w =
      ((policy_set_action net masquerade_mark p Action.stop w).0, pos 0)
  policy_pre_actionable (some p) key w =
      ((policy_set_action net masquerade_mark p Action.reload w).0, pos 0)

  unfoldable pub policy_pos_actionable : Option Policy → Option Key → Program → Program × ℤ
  unfolding policy_set_action
  policy_pos_actionable none key w = (w, negsuc 0)
  policy_pos_actionable (some p) (some Key.name) w = (w, pos 0)
  policy_pos_actionable (some p) (some Key.used) w = (w, pos 0)
  policy_pos_actionable (some p) (some Key.family) w =
      ((policy_set_action net masquerade_mark p Action.start w).0, pos 0)
  policy_pos_actionable (some p) (some Key.type) w =
      ((policy_set_action net masquerade_mark p Action.start w).0, pos 0)
  policy_pos_actionable (some p) (some Key.route) w =
      ((policy_set_action net masquerade_mark p Action.start w).0, pos 0)
  policy_pos_actionable (some p) (some Key.timeout) w =
      ((policy_set_action net masquerade_mark p Action.start w).0, pos 0)
  policy_pos_actionable (some p) key w =
      ((policy_set_action net masquerade_mark p Action.reload w).0, pos 0)
