-- ===== src/States/NetInfo.antt =====
-- The interfaces and hardware addresses that farm_set_oface_info of src/farms.c and backend_set_ifinfo
-- and backend_set_ipaddr_from_ether of src/backends.c ask the network for. A result of true is the
-- source's 0, one of false its -1.
use nftlb.Prelude.{
  Bool, true, false, ◌&&◌, ◌||◌, not, List, [], ◌∷◌, Option, none, some, String, ℤ, pos, negsuc,
  eq_ℤ, str_eq, split_at, if◌then◌else◌,
}
use nftlb.Enums.{State, is_state}
use nftlb.Model.{Farm, Backend, Address, FarmAddress}
use nftlb.Network.{Net}
use nftlb.Backends.Predicates.{farm_is_ingress_mode}
use nftlb.Backends.Lookup.{text_is}
use nftlb.FarmAddresses.Links.{address_at}
use nftlb.States.Focus.{farm_needs_flowtable}

abbrev before_colon : String → Option (String × String) → String
before_colon name none = name
before_colon name (some (before, _)) = before

unfoldable pub net_strim_netface : String → String
unfolding split_at
net_strim_netface name = before_colon name (split_at ":" name)

abbrev pub first_ipaddr : List Backend → Option String
first_ipaddr [] = none
first_ipaddr (b ∷ _) = b.ipaddr

-- The farm asks the network for its backends.
unfoldable pub is_networked : Farm → Bool
unfolding farm_is_ingress_mode
is_networked f =
    farm_is_ingress_mode f && (is_state f.state State.up || is_state f.state State.conferr)

module _ (net : Net) where
  unfoldable pub oface_named : Farm → Option String → Farm × Bool
  unfolding net_strim_netface
  oface_named f none = (f, false)
  oface_named f (some name) =
      let oface = net_strim_netface name in
      (record f { oface = some oface; oethaddr = some (net.ether_of oface) }, true)

  unfoldable pub oface_at : Farm → Option ℤ → Farm × Bool
  unfolding oface_named
  oface_at f none = (f, false)
  oface_at f (some i) = oface_named (record f { ofidx = i }) (net.ifname_of i)

  -- With the address of the first backend.
  unfoldable pub oface_towards : Farm → Option String → Farm × Bool
  unfolding oface_at
  oface_towards f none = (f, true)
  oface_towards f (some ipaddr) = oface_at f (net.ifidx_of ipaddr)

  unfoldable pub farm_set_oface_info : Farm → Farm × Bool
  unfolding oface_towards farm_is_ingress_mode farm_needs_flowtable
  farm_set_oface_info f =
      if farm_is_ingress_mode f || farm_needs_flowtable f
      then if text_is f.oface "lo"
        then (record f { ofidx = pos 0 }, true)
        else oface_towards f (first_ipaddr f.backends)
      else (f, true)

  unfoldable pub name_iface : Option String → String → Farm → Backend → Farm × Backend
  unfolding net_strim_netface
  name_iface none name f b = (record f { oface = some (net_strim_netface name) }, b)
  name_iface (some oface) name f b =
      if str_eq oface name then (f, b) else (f, record b { oface = some (net_strim_netface name) })

  unfoldable pub iface_named : Option String → Farm → Backend → (Farm × Backend) × Bool
  unfolding name_iface
  iface_named none f b = ((f, b), false)
  iface_named (some name) f b = (name_iface f.oface name f b, true)

  unfoldable pub iface_at : Option ℤ → Farm → Backend → (Farm × Backend) × Bool
  unfolding iface_named
  iface_at none f b = ((f, b), false)
  iface_at (some i) f b =
      let f1 = if eq_ℤ f.ofidx (negsuc 0) then record f { ofidx = i } else f in
      let elsewhere = not (eq_ℤ f1.ofidx i) in
      let f2 = if elsewhere then record f1 { bcks_have_if = 1 } else f1 in
      let b2 = if elsewhere then record b { ofidx = i } else b in
      iface_named (net.ifname_of i) f2 b2

  unfoldable pub iface_towards : Option String → Farm → Backend → (Farm × Backend) × Bool
  unfolding iface_at
  iface_towards none f b = ((f, b), true)
  iface_towards (some ipaddr) f b = iface_at (net.ifidx_of ipaddr) f b

  unfoldable pub backend_set_ifinfo : Farm → Backend → (Farm × Backend) × Bool
  unfolding iface_towards is_networked
  backend_set_ifinfo f b =
      if is_networked f
      then if text_is f.oface "lo"
        then ((record f { ofidx = pos 0 }, b), true)
        else iface_towards b.ipaddr f b
      else ((f, b), true)

  abbrev or_else : Option String → String → String
  or_else none s = s
  or_else (some t) s = t

  abbrev set_ether : Backend → Option String → Option String → Backend × Bool
  set_ether b (some ether) again = (record b { ethaddr = some ether }, true)
  set_ether b none (some ether) = (record b { ethaddr = some ether }, true)
  set_ether b none none = (b, false)

  -- The neighbour is asked for from the address's interface, then from the farm's or the backend's.
  abbrev ether_from : Farm → Backend → Address → Option String → Option String → Backend × Bool
  ether_from f b a (some iethaddr) (some ipaddr) =
      let source_ip = or_else f.srcaddr a.ipaddr in
      let oface = if eq_ℤ b.ofidx (negsuc 0) then f.ofidx else b.ofidx in
      set_ether b (net.neigh_ether iethaddr a.family source_ip ipaddr a.ifidx)
        (net.neigh_ether iethaddr a.family (or_else b.srcaddr source_ip) ipaddr oface)
  ether_from f b a iethaddr ipaddr = (b, false)

  abbrev ether_at : Farm → Backend → Option Address → Backend × Bool
  ether_at f b none = (b, false)
  ether_at f b (some a) =
      if eq_ℤ f.ofidx (negsuc 0) then (b, false) else ether_from f b a a.iethaddr b.ipaddr

  abbrev ether_by_link : List Address → Farm → Backend → List FarmAddress → Backend × Bool
  ether_by_link addresses f b [] = (b, false)
  ether_by_link addresses f b (fa ∷ _) = ether_at f b (address_at fa.address addresses)

  unfoldable pub backend_set_ipaddr_from_ether : List Address → Farm → Backend → Backend × Bool
  unfolding is_networked
  backend_set_ipaddr_from_ether addresses f b =
      if is_networked f then ether_by_link addresses f b f.addresses else (b, true)
