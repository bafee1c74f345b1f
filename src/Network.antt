-- ===== src/Network.antt =====
-- What the program asks the kernel, by the functions of src/network.c and through libnftables: the
-- answers during one call, as functions of what is asked for.
use nftlb.Prelude.{ℕ, ℤ, Bool, String, Option}
use nftlb.Enums.{Family, Action}
use nftlb.Model.{Farm, Address}

pub record Net : Type 0 where
  -- net_get_local_ifidx_per_remote_host: the index of the interface towards an address
  pub ifidx_of : String → Option ℤ
  -- if_indextoname
  pub ifname_of : ℤ → Option String
  -- net_get_local_ifinfo: the hardware address of an interface, as sprintf prints it
  pub ether_of : String → String
  -- net_get_neigh_ether: the hardware address of a neighbour, as sprintf prints it, from the
  -- hardware address, the family and the address of the source, the neighbour's address and the
  -- interface
  pub neigh_ether : String → Family → String → String → ℤ → Option String
  -- mnl_socket_open and mnl_socket_bind succeed in net_eventd_init
  pub socket_opens : Bool
  -- nft_get_rules_buffer: the set of sessions of a farm at one of its addresses, as nft lists it
  pub sessions_buffer : Farm → Address → Action → String
  -- malloc: the node of a new session of the farm
  pub new_node : Farm → ℕ
