-- ===== src/Nftst.antt =====
-- src/nftst.c: the farm, the address, the backend and the policy that rules are written for, with the
-- action. The four pointers are ids of nodes, none for NULL. An id that no node has, which no pointer of
-- the program has, is as NULL where it is read.
pub mod Done
use nftlb.Prelude.{ℕ, List, Option, none, some, String, ℤ, pos, negsuc, map, node_at, put_node}
use nftlb.Enums.{Action, family_value, protocol_value}
use nftlb.Model.{Farm, Address, Backend, FarmAddress, Policy}
use nftlb.Policies.Store.{Store, farm_id, address_id}

pub record Nftst : Type 0 where
  pub farm : Option ℕ
  pub address : Option ℕ
  pub backend : Option ℕ
  pub policy : Option ℕ
  pub action : Action

unfoldable pub nftst_create_from_farm : Farm → Nftst
nftst_create_from_farm f = record {
  farm = some f.id;
  address = none;
  backend = none;
  policy = none;
  action = f.action;
}

unfoldable pub nftst_create_from_farmaddress : Farm → FarmAddress → Nftst
nftst_create_from_farmaddress f fa = record {
  farm = some f.id;
  address = some fa.address;
  backend = none;
  policy = none;
  action = fa.action;
}

unfoldable pub nftst_create_from_address : Address → Nftst
nftst_create_from_address a = record {
  farm = none;
  address = some a.id;
  backend = none;
  policy = none;
  action = a.action;
}

unfoldable pub nftst_create_from_policy : Policy → Nftst
nftst_create_from_policy p = record {
  farm = none;
  address = none;
  backend = none;
  policy = some p.id;
  action = p.action;
}

abbrev pub farm_of : Nftst → Store → Option Farm
farm_of n s = elim n.farm [ none ↦ none | some i ↦ node_at farm_id i s.farms ]

abbrev pub address_of : Nftst → Store → Option Address
address_of n s = elim n.address [ none ↦ none | some i ↦ node_at address_id i s.addresses ]

unfoldable pub nftst_get_family : Nftst → Store → ℤ
nftst_get_family n s = elim (address_of n s) [
  | none ↦ negsuc 0
  | some a ↦ pos (family_value a.family)
]

unfoldable pub nftst_get_proto : Nftst → Store → ℤ
nftst_get_proto n s = elim (address_of n s) [
  | none ↦ negsuc 0
  | some a ↦ pos (protocol_value a.protocol)
]

-- The farm goes before the address.
unfoldable pub nftst_get_name : Nftst → Store → Option String
nftst_get_name n s = elim (farm_of n s) [
  | some f ↦ some f.name
  | none ↦ elim (address_of n s) [ none ↦ none | some a ↦ some a.name ]
]

unfoldable pub nftst_get_chains : Nftst → Store → ℤ
nftst_get_chains n s = elim (farm_of n s) [
  | some f ↦ pos f.nft_chains
  | none ↦ elim (address_of n s) [ none ↦ negsuc 0 | some a ↦ pos a.nft_chains ]
]

unfoldable pub change_farm_at : (Farm → Farm) → Option Farm → Store → Store
unfolding put_node
change_farm_at g none s = s
change_farm_at g (some f) s = record s { farms = put_node farm_id (g f) s.farms }

unfoldable pub change_address_at : (Address → Address) → Option Address → Store → Store
unfolding put_node
change_address_at g none s = s
change_address_at g (some a) s = record s { addresses = put_node address_id (g a) s.addresses }

unfoldable pub nftst_set_chains : Nftst → ℕ → Store → Store
unfolding change_farm_at change_address_at
nftst_set_chains n chains s =
    change_address_at (λ a. record a { nft_chains = chains }) (address_of n s)
      (change_farm_at (λ f. record f { nft_chains = chains }) (farm_of n s) s)

-- VALUE_RLD_NONE is 0.
unfoldable pub farm_done : Farm → Farm
farm_done f = record f {
  backends = map (λ (b : Backend). record b { action = Action.none }) f.backends;
  addresses = map (λ (fa : FarmAddress). record fa { action = Action.none }) f.addresses;
  action = Action.none;
  reload_action = 0;
  policies_action = Action.none;
}

unfoldable pub address_done : Address → Address
address_done a = record a { action = Action.none; policies_action = Action.none }

unfoldable pub nftst_actions_done : Nftst → Store → Store
unfolding change_farm_at change_address_at farm_done address_done
nftst_actions_done n s =
    change_address_at address_done (address_of n s) (change_farm_at farm_done (farm_of n s) s)
