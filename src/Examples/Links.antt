-- ===== src/Examples/Links.antt =====
-- The theorems on src/farmaddress.c and src/addresses.c at two farms that share an address.
use nftlb.Prelude.{
  ℕ, pos, leb_ℤ, ◌-◌, ◌-ℤ◌, ℤ, ◌≡◌, refl, ◌&&◌, List, [], ◌∷◌, none, some, any, arith, ◌==◌,
  if◌then◌else◌,
}
use nftlb.Enums.{Action}
use nftlb.Model.{PortList, Farm, Address, FarmAddress}
use nftlb.Addresses.Ports.{
  max_ports, address_get_array_ports, address_search_array_port, address_set_ports,
}
use nftlb.Addresses.PortText.{PortItem, print_ports, is_in, HasCells}
use nftlb.Addresses.PortRead.{address_get_array_ports-print_ports}
use nftlb.Addresses.PortCount.{count_to, address_set_ports-count}
use nftlb.FarmAddresses.Links.{
  World, new_address, farmaddress_create, farmaddress_delete, farmaddress_s_delete, address_at,
}
use nftlb.FarmAddresses.Nodes.{links_in, used_of, links_to}
use nftlb.FarmAddresses.Invariant.{
  IsCounted, farmaddress_create-IsCounted, farmaddress_delete-IsCounted,
}
use nftlb.FarmAddresses.Deletion.{HasNoLinks, farmaddress_delete-survival}
use nftlb.FarmAddresses.DeleteAll.{left_of, farmaddress_s_delete-HasNoLinks}
use nftlb.Examples.Fixtures.{base_farm}

unfoldable pub base_address : Address
unfolding new_address
base_address = new_address 30 "web-addr"

abbrev shared : Address
shared = record base_address { used = 2 }

abbrev alone : Address
alone = record base_address { id = 31; name = "alone"; used = 1 }

abbrev unused : Address
unused = record base_address { id = 32; name = "unused" }

abbrev link : ℕ → ℕ → FarmAddress
link id address = record { id = id; address = address; action = Action.start }

abbrev first_farm : Farm
first_farm = record base_farm { addresses = link 40 30 ∷ link 41 31 ∷ []; addresses_used = 2 }

abbrev second_farm : Farm
second_farm = record base_farm {
  id = 2;
  name = "mail";
  addresses = link 42 30 ∷ [];
  addresses_used = 1;
}

abbrev two_farms : World
two_farms = record {
  farms = first_farm ∷ second_farm ∷ [];
  addresses = shared ∷ alone ∷ unused ∷ [];
  total_addresses = 3;
}

-- Beyond the three addresses there is neither a count nor a link.
two_farms-used : (i : ℕ) → used_of i two_farms.addresses ≡ links_to i two_farms.farms
unfolding base_address base_farm
two_farms-used i = ground arith

two_farms-IsCounted : IsCounted two_farms
unfolding base_address base_farm
two_farms-IsCounted = record {
  used = two_farms-used;
  distinct = (refl, (refl, (refl, tt)));
  total = refl;
}

farmaddress_create-IsCounted_example :
    IsCounted (farmaddress_create 43 second_farm unused two_farms)
unfolding base_address base_farm
farmaddress_create-IsCounted_example =
    farmaddress_create-IsCounted 43 second_farm unused two_farms refl refl two_farms-IsCounted

farmaddress_delete-IsCounted_example :
    IsCounted (farmaddress_delete first_farm (link 41 31) two_farms)
unfolding base_address base_farm
farmaddress_delete-IsCounted_example =
    farmaddress_delete-IsCounted first_farm (link 41 31) two_farms refl refl two_farms-IsCounted

farmaddress_delete-survival_example :
    address_at 31 (farmaddress_delete first_farm (link 41 31) two_farms).addresses ≡ (
      if alone.policies_used == 0 && (alone.used - 1 == 0)
      then none
      else some (record alone { used = alone.used - 1 }))
unfolding base_address base_farm
farmaddress_delete-survival_example =
    farmaddress_delete-survival first_farm (link 41 31) alone two_farms two_farms-IsCounted.distinct
      refl

farmaddress_s_delete-HasNoLinks_example :
    HasNoLinks 1 (farmaddress_s_delete first_farm two_farms)
    × ((i : ℕ)
        → address_at i (farmaddress_s_delete first_farm two_farms).addresses
          ≡ left_of (links_in i first_farm.addresses) (address_at i two_farms.addresses))
unfolding base_address base_farm
farmaddress_s_delete-HasNoLinks_example =
    farmaddress_s_delete-HasNoLinks first_farm two_farms refl refl two_farms-IsCounted

abbrev web_ports : List PortItem
web_ports = PortItem.single 80 ∷ PortItem.range 80 81 ∷ PortItem.range 9000 8000 ∷ []

web_ports-HasCells : HasCells web_ports
web_ports-HasCells = (
  (omega arith, omega arith),
  (
    (omega arith, omega arith),
    (omega arith, omega arith),
    ((omega arith, omega arith), (omega arith, omega arith), tt),
  ),
)

address_get_array_ports-print_ports_example :
    (a : PortList) × (address_get_array_ports (print_ports web_ports) ≡ some a)
    × ((port : ℤ)
        → address_search_array_port a port ≡ (
            if leb_ℤ (pos 1) port && leb_ℤ port (pos 65535)
            then some (any (is_in port) web_ports)
            else none))
address_get_array_ports-print_ports_example =
    address_get_array_ports-print_ports web_ports web_ports-HasCells

address_set_ports-count_example :
    (b : Address) × (address_set_ports unused "80,80-81,9000-8000" ≡ some b)
    × (b.port_list.nports ≡ count_to max_ports (λ port. any (is_in port) web_ports))
unfolding print_ports
address_set_ports-count_example =
    address_set_ports-count unused "80,80-81,9000-8000" web_ports web_ports-HasCells refl

-- A port without a cell.
no_cell_test : address_set_ports unused "80,65536" ≡ none
unfolding address_set_ports ◌-ℤ◌
no_cell_test = refl
