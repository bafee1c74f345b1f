-- ===== src/Examples/Objects.antt =====
-- The theorems on the dispatch of src/objects.c and on the helpers of src/farms.c.
use nftlb.Prelude.{ℕ, ◌+◌, ◌≡◌, true, false, [], ◌∷◌, some, pos}
use nftlb.Enums.{Level, Key, Helper, Protocol, Action}
use nftlb.Model.{Farm, Address}
use nftlb.Config.Pair.{ConfigPair, init_pair}
use nftlb.Objects.Dispatch.{Handlers, obj_set_attribute}
use nftlb.Objects.Order.{expected, traced, untouched, IsTraceOf, obj_set_attribute-IsTraceOf}
use nftlb.FarmAddresses.Links.{World, new_address}
use nftlb.Farms.Helpers.{
  linked, is_ok, HasNoSctp, farm_set_helper, farm_validate_helper_protocol,
  farm_set_helper-validates,
}
use nftlb.Examples.Fixtures.{base_farm}

-- Handlers that count their calls.
abbrev counting : Handlers ℕ
counting = record {
  changed = λ level c n. true;
  farm_actionable = λ c n. true;
  pre_actionable = λ level c n. (pos 1, n + 1);
  set_attribute = λ level c apply_action n. (pos 0, n + 1);
  pos_actionable = λ level c action n. n + 1;
}

abbrev port_pair : ConfigPair
port_pair = record init_pair { level = some Level.bcks; key = some Key.port }

obj_set_attribute-IsTraceOf_example :
    IsTraceOf
      (expected counting (some Level.bcks) true port_pair (pos 0) 0)
      (obj_set_attribute (traced counting) true (pos 0) port_pair (untouched 0))
      (obj_set_attribute counting true (pos 0) port_pair 0)
obj_set_attribute-IsTraceOf_example = obj_set_attribute-IsTraceOf counting true (pos 0) port_pair 0

unfoldable udp_address : Address
unfolding new_address
udp_address = record (new_address 30 "dns") { protocol = Protocol.udp; used = 1 }

abbrev dns_farm : Farm
dns_farm = record base_farm {
  addresses = record { id = 40; address = 30; action = Action.start } ∷ [];
  addresses_used = 1;
}

abbrev dns_world : World
dns_world = record { farms = dns_farm ∷ []; addresses = udp_address ∷ []; total_addresses = 1 }

farm_set_helper-validates_example :
    (is_ok (farm_set_helper dns_world dns_farm Helper.ftp).0 ≡ true
      → ((farm_set_helper dns_world dns_farm Helper.ftp).1
          ≡ record dns_farm { helper = Helper.ftp })
        × (farm_validate_helper_protocol Helper.ftp (linked dns_world.addresses dns_farm.addresses)
            ≡ true))
    × (is_ok (farm_set_helper dns_world dns_farm Helper.ftp).0 ≡ false
        → (farm_set_helper dns_world dns_farm Helper.ftp).1 ≡ dns_farm)
    × (HasNoSctp (linked dns_world.addresses dns_farm.addresses)
        → is_ok (farm_set_helper dns_world dns_farm Helper.ftp).0
          ≡ farm_validate_helper_protocol Helper.ftp
              (linked dns_world.addresses dns_farm.addresses))
farm_set_helper-validates_example = farm_set_helper-validates dns_world dns_farm Helper.ftp
