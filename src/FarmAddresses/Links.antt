-- ===== src/FarmAddresses/Links.antt =====
-- The farms and addresses that the program holds, address_create and address_delete of
-- src/addresses.c, and the operations of src/farmaddress.c that make and delete a link. A farm, an
-- address or a link is named by the address of its node; an id that no node has, which no pointer of
-- the program has, leaves everything as it is.
use nftlb.Prelude.{
  ℕ, ◌+◌, ◌-◌, Bool, ◌&&◌, String, List, [], ◌∷◌, ◌++◌, Option, none, some, pos, negsuc, find?, ltb,
  ◌==◌, if◌then◌else◌,
}
use nftlb.Enums.{
  Action, Family, Protocol, RateUnit, unit_value, verdict_log, verdict_drop, verdict_accept,
}
use nftlb.Model.{Farm, Address, FarmAddress}

pub record World : Type 0 where
  pub farms : List Farm
  pub addresses : List Address
  pub total_addresses : ℕ

unfoldable pub put_farm : Farm → List Farm → List Farm
put_farm f [] = []
put_farm f (x ∷ xs) = if x.id == f.id then f ∷ xs else x ∷ put_farm f xs

unfoldable pub put_address : Address → List Address → List Address
put_address a [] = []
put_address a (x ∷ xs) = if x.id == a.id then a ∷ xs else x ∷ put_address a xs

unfoldable pub remove_address : ℕ → List Address → List Address
remove_address i [] = []
remove_address i (x ∷ xs) = if x.id == i then xs else x ∷ remove_address i xs

unfoldable pub remove_link : ℕ → List FarmAddress → List FarmAddress
remove_link i [] = []
remove_link i (x ∷ xs) = if x.id == i then xs else x ∷ remove_link i xs

abbrev pub farm_at : ℕ → List Farm → Option Farm
farm_at i = find? (λ f. f.id == i)

abbrev pub address_at : ℕ → List Address → Option Address
address_at i = find? (λ a. a.id == i)

-- A new address has the given node and name, and the defaults of include/objects.h.
unfoldable pub new_address : ℕ → String → Address
new_address id name = record {
  id = id;
  action = Action.start;
  name = name;
  fqdn = "";
  iface = none;
  iethaddr = none;
  ifidx = negsuc 0;
  ipaddr = "";
  ports = "";
  family = Family.ipv4;
  protocol = Protocol.tcp;
  verdict = verdict_log + verdict_drop + verdict_accept;
  logprefix = "TYPE-ANAME ";
  logrtlimit = pos 0;
  logrtlimit_unit = pos (unit_value RateUnit.second);
  policies = [];
  policies_used = 0;
  policies_action = Action.none;
  used = 0;
  nft_chains = 0;
  port_list = record { ports = []; nports = 0 };
}

unfoldable pub address_create : ℕ → String → World → World
unfolding new_address
address_create id name w = record w {
  addresses = w.addresses ++ new_address id name ∷ [];
  total_addresses = w.total_addresses + 1;
}

-- The total of a list that has the node is above 0.
unfoldable pub address_delete : ℕ → World → World
unfolding remove_address
address_delete i w = record w {
  addresses = remove_address i w.addresses;
  total_addresses = w.total_addresses - 1;
}

unfoldable pub address_not_used : Address → Bool
address_not_used a = a.policies_used == 0 && a.used == 0

unfoldable pub link_farm : FarmAddress → Farm → Farm
link_farm fa f = record f {
  addresses_used = f.addresses_used + 1;
  addresses = f.addresses ++ fa ∷ [];
  policies_action = if f.policies_used == 0 then f.policies_action else Action.start;
}

unfoldable pub link_address : Address → Address
link_address a = record a { used = a.used + 1 }

-- The new node `id` from the farm to the address.
unfoldable pub farmaddress_create : ℕ → Farm → Address → World → World
unfolding link_farm link_address put_farm put_address
farmaddress_create id f a w = record w {
  farms =
      put_farm (link_farm (record { id = id; address = a.id; action = Action.start }) f) w.farms;
  addresses = put_address (link_address a) w.addresses;
}

unfoldable pub unlink_farm : ℕ → Farm → Farm
unfolding remove_link
unlink_farm i f = record f {
  addresses = remove_link i f.addresses;
  addresses_used = if ltb 0 f.addresses_used then f.addresses_used - 1 else f.addresses_used;
}

unfoldable pub unlink_address : Address → Address
unlink_address a = record a { used = if ltb 0 a.used then a.used - 1 else a.used }

-- The address after its count went down: written back, and deleted where nothing uses it.
unfoldable pub release : Address → World → World
unfolding put_address address_delete address_not_used
release a w =
    let w' = record w { addresses = put_address a w.addresses } in
    if address_not_used a then address_delete a.id w' else w'

abbrev pub release_at : Option Address → World → World
unfolding release unlink_address
release_at none w = w
release_at (some a) w = release (unlink_address a) w

-- The link `fa` of the farm.
unfoldable pub farmaddress_delete : Farm → FarmAddress → World → World
unfolding unlink_farm put_farm release_at
farmaddress_delete f fa w =
    release_at (address_at fa.address w.addresses)
      (record w { farms = put_farm (unlink_farm fa.id f) w.farms })

abbrev pub delete_link : Option Farm → FarmAddress → World → World
unfolding farmaddress_delete
delete_link none fa w = w
delete_link (some f) fa w = farmaddress_delete f fa w

-- The loop of farmaddress_s_delete over the links that the farm had when it started.
unfoldable pub delete_links : ℕ → List FarmAddress → World → World
unfolding delete_link
delete_links i [] w = w
delete_links i (fa ∷ fas) w = delete_links i fas (delete_link (farm_at i w.farms) fa w)

unfoldable pub farmaddress_s_delete : Farm → World → World
unfolding delete_links
farmaddress_s_delete f w = delete_links f.id f.addresses w
