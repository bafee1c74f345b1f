-- ===== src/States/Links.antt =====
-- What the calls of backend_set_state, backend_s_gen_priority and farm_set_action of src/backends.c and
-- src/farms.c leave alone of the farm and the addresses: their ids, and their links to policies.
use nftlb.Prelude.{
  ℕ, ◌≡◌, refl, ap, sym, subst, ◌∙◌, Bool, true, false, ◌||◌, not, List, [], ◌∷◌, Option, none,
  some, map, String, ℤ, eq_ℤ, negsuc, str_eq, if◌then◌else◌, ◌==◌, Bool-cases, Option-cases, inl,
  inr, ltb, node_at-id,
}
use nftlb.Enums.{Action, action_value, is_action}
use nftlb.Model.{Farm, Address, FarmAddress, FarmPolicy, AddressPolicy, Backend}
use nftlb.Network.{Net}
use nftlb.Backends.Predicates.{farm_is_ingress_mode}
use nftlb.Backends.Lookup.{text_is}
use nftlb.FarmAddresses.Links.{put_address, address_at}
use nftlb.FarmAddresses.Actions.{change_farm, change_address, tells_policies}
use nftlb.Farms.Helpers.{farm_validate_helper_protocol, linked}
use nftlb.States.Focus.{
  Focus, act_on_link, act_on_links, farmaddress_s_set_action, farm_validate, validate_policies,
  validate_ingress, farm_needs_flowtable, farmaddress_s_validate_iface, farm_needs_policies,
}
use nftlb.States.NetInfo.{
  farm_set_oface_info, backend_set_ifinfo, is_networked, oface_named, oface_at, oface_towards,
  first_ipaddr, name_iface, iface_named, iface_at, iface_towards,
}

abbrev pub farm_part : Farm → ℕ × (List FarmPolicy × ℕ)
farm_part f = (f.id, (f.policies, f.policies_used))

abbrev pub address_part : Address → ℕ × (List AddressPolicy × ℕ)
address_part a = (a.id, (a.policies, a.policies_used))

abbrev pub addresses_part : List Address → List (ℕ × (List AddressPolicy × ℕ))
addresses_part l = map address_part l

-- Two states with the same ids and links to policies.
pub record SameLinks (s t : Focus) : Type 0 where
  pub farm : farm_part t.farm ≡ farm_part s.farm
  pub addresses : addresses_part t.addresses ≡ addresses_part s.addresses

pub SameLinks-refl : (s : Focus) → SameLinks s s
SameLinks-refl s = record { farm = refl; addresses = refl }

pub SameLinks-trans : {s t u : Focus} → SameLinks s t → SameLinks t u → SameLinks s u
SameLinks-trans p q = record { farm = q.farm ∙ p.farm; addresses = q.addresses ∙ p.addresses }

if_farm_part :
    (q : Bool) (f g h : Farm)
    → farm_part g ≡ farm_part f
    → farm_part h ≡ farm_part f
    → farm_part (if q then g else h) ≡ farm_part f
if_farm_part true f g h p r = p
if_farm_part false f g h p r = r

addresses_part-put_address :
    (a b : Address) (l : List Address)
    → address_part b ≡ address_part a
    → address_at a.id l ≡ some a
    → addresses_part (put_address b l) ≡ addresses_part l
unfolding put_address
addresses_part-put_address a b [] same h = refl
addresses_part-put_address a b (x ∷ xs) same h =
    let id : b.id ≡ a.id = ap (λ (p : ℕ × (List AddressPolicy × ℕ)). p.0) same in
    elim (Bool-cases (x.id == a.id)) [
      | inl here ↦
          let found : (x.id == b.id) ≡ true = rw id here in
          let it : x ≡ a = cc (rw here at h) in rw found (rw (same, it) refl)
      | inr further ↦
          let missed : (x.id == b.id) ≡ false = rw id further in
          rw missed (
            ap (λ l. address_part x ∷ l) (addresses_part-put_address a b xs same (rw further at h)))
    ]

-- An address that find? gives is at its own id.
address_at_self :
    (i : ℕ) (a : Address) (l : List Address) → address_at i l ≡ some a → address_at a.id l ≡ some a
address_at_self i a l h =
    subst (λ k. address_at k l ≡ some a) (sym (node_at-id (λ (x : Address). x.id) i a l h)) h

change_address-part :
    (tells : Bool) (action : Action) (i : ℕ) (l : List Address)
    → addresses_part (change_address tells action (address_at i l) l) ≡ addresses_part l
unfolding change_address
change_address-part false action i l = refl
change_address-part true action i l = elim (Option-cases (address_at i l)) [
  | inl gone ↦ rw gone refl
  | inr (a, found) ↦ rw found (
      addresses_part-put_address a (record a { policies_action = action }) l refl
        (address_at_self i a l found))
]

act_on_link-SameLinks :
    (q : Bool) (action : Action) (fa : FarmAddress) (s : Focus)
    → SameLinks s (if q then act_on_link action fa s else s)
unfolding act_on_link change_farm
act_on_link-SameLinks false action fa s = SameLinks-refl s
act_on_link-SameLinks true action fa s = elim (Bool-cases (is_action fa.action action)) [
  | inl same ↦ rw same (SameLinks-refl s)
  | inr other ↦ rw other (record {
    farm = refl;
    addresses = change_address-part (tells_policies s.farm action) action fa.address s.addresses;
  })
]

act_on_links-SameLinks :
    (action : Action) (fas : List FarmAddress) (s : Focus) → SameLinks s (act_on_links action fas s)
unfolding act_on_links
act_on_links-SameLinks action [] s = SameLinks-refl s
act_on_links-SameLinks action (fa ∷ fas) s =
    SameLinks-trans
      (act_on_link-SameLinks (ltb (action_value action) (action_value fa.action)) action fa s)
      (act_on_links-SameLinks action fas _)

pub farmaddress_s_set_action-SameLinks :
    (action : Action) (s : Focus) → SameLinks s (farmaddress_s_set_action action s)
unfolding farmaddress_s_set_action
farmaddress_s_set_action-SameLinks action s = act_on_links-SameLinks action s.farm.addresses s

validate_ingress-part :
    (l : List Address) (f : Farm) → farm_part (validate_ingress l f).0 ≡ farm_part f
unfolding validate_ingress
validate_ingress-part l f = elim (Bool-cases (farm_is_ingress_mode f || farm_needs_flowtable f)) [
  | inl asks ↦ rw asks refl
  | inr plain ↦ rw plain refl
]

validate_policies-part :
    (l : List Address) (f : Farm) → farm_part (validate_policies l f).0 ≡ farm_part f
unfolding validate_policies
validate_policies-part l f =
    let (links, valid) = farmaddress_s_validate_iface l f.addresses in
    elim (Bool-cases (farm_needs_policies f)) [
      | inr plain ↦ rw plain (validate_ingress-part l f)
      | inl asks ↦ elim (Bool-cases valid) [
        | inl fine ↦ rw (asks, fine) (validate_ingress-part l (record f { addresses = links }))
        | inr bad ↦ rw (asks, bad) refl
      ]
    ]

pub farm_validate-part :
    (l : List Address) (f : Farm) → farm_part (farm_validate l f).0 ≡ farm_part f
unfolding farm_validate
farm_validate-part l f =
    elim (Bool-cases (farm_validate_helper_protocol f.helper (linked l f.addresses))) [
      | inl fine ↦ rw fine (validate_policies-part l f)
      | inr bad ↦ rw bad refl
    ]

module _ (net : Net) where
  oface_named-part :
      (f : Farm) (name : Option String) → farm_part (oface_named net f name).0 ≡ farm_part f
  unfolding oface_named
  oface_named-part f none = refl
  oface_named-part f (some name) = refl

  oface_at-part : (f : Farm) (i : Option ℤ) → farm_part (oface_at net f i).0 ≡ farm_part f
  unfolding oface_at
  oface_at-part f none = refl
  oface_at-part f (some i) = oface_named-part (record f { ofidx = i }) (net.ifname_of i)

  oface_towards-part :
      (f : Farm) (ipaddr : Option String) → farm_part (oface_towards net f ipaddr).0 ≡ farm_part f
  unfolding oface_towards
  oface_towards-part f none = refl
  oface_towards-part f (some ipaddr) = oface_at-part f (net.ifidx_of ipaddr)

  pub farm_set_oface_info-part : (f : Farm) → farm_part (farm_set_oface_info net f).0 ≡ farm_part f
  unfolding farm_set_oface_info
  farm_set_oface_info-part f =
      elim (Bool-cases (farm_is_ingress_mode f || farm_needs_flowtable f)) [
        | inr plain ↦ rw plain refl
        | inl asks ↦ elim (Bool-cases (text_is f.oface "lo")) [
          | inl loopback ↦ rw (asks, loopback) refl
          | inr outside ↦ rw (asks, outside) (oface_towards-part f (first_ipaddr f.backends))
        ]
      ]

  name_iface-part :
      (oface : Option String) (name : String) (f : Farm) (b : Backend)
      → farm_part (name_iface net oface name f b).0 ≡ farm_part f
  unfolding name_iface
  name_iface-part none name f b = refl
  name_iface-part (some oface) name f b = elim (Bool-cases (str_eq oface name)) [
    | inl same ↦ rw same refl
    | inr other ↦ rw other refl
  ]

  iface_named-part :
      (name : Option String) (f : Farm) (b : Backend)
      → farm_part (iface_named net name f b).0.0 ≡ farm_part f
  unfolding iface_named
  iface_named-part none f b = refl
  iface_named-part (some name) f b = name_iface-part f.oface name f b

  iface_at-part :
      (i : Option ℤ) (f : Farm) (b : Backend) → farm_part (iface_at net i f b).0.0 ≡ farm_part f
  unfolding iface_at
  iface_at-part none f b = refl
  iface_at-part (some i) f b =
      let f1 = if eq_ℤ f.ofidx (negsuc 0) then record f { ofidx = i } else f in
      let first = if_farm_part (eq_ℤ f.ofidx (negsuc 0)) f (record f { ofidx = i }) f refl refl in
      let second =
        if_farm_part (not (eq_ℤ f1.ofidx i)) f1 (record f1 { bcks_have_if = 1 }) f1 refl refl in
      iface_named-part (net.ifname_of i) _ _ ∙ second ∙ first

  iface_towards-part :
      (ipaddr : Option String) (f : Farm) (b : Backend)
      → farm_part (iface_towards net ipaddr f b).0.0 ≡ farm_part f
  unfolding iface_towards
  iface_towards-part none f b = refl
  iface_towards-part (some ipaddr) f b = iface_at-part (net.ifidx_of ipaddr) f b

  pub backend_set_ifinfo-part :
      (f : Farm) (b : Backend) → farm_part (backend_set_ifinfo net f b).0.0 ≡ farm_part f
  unfolding backend_set_ifinfo
  backend_set_ifinfo-part f b = elim (Bool-cases (is_networked f)) [
    | inr offline ↦ rw offline refl
    | inl online ↦ elim (Bool-cases (text_is f.oface "lo")) [
      | inl loopback ↦ rw (online, loopback) refl
      | inr outside ↦ rw (online, outside) (iface_towards-part b.ipaddr f b)
    ]
  ]
