-- ===== src/States/Alike.antt =====
-- What the calls around a change of state leave alone: how many backends the farm has, its state and
-- its action.
use nftlb.Prelude.{
  ◌≡◌, refl, ◌∙◌, Bool, true, false, List, [], ◌∷◌, Option, none, some, String, ℤ, length, ltb,
  ◌||◌, eq_ℤ, str_eq, negsuc, not, if◌then◌else◌, arith, inl, inr, Bool-cases,
}
use nftlb.Enums.{Action, action_value, is_action}
use nftlb.Model.{Backend, Farm, FarmAddress}
use nftlb.Network.{Net}
use nftlb.Backends.Predicates.{farm_is_ingress_mode}
use nftlb.Backends.Lookup.{text_is}
use nftlb.Backends.Setters.{put, put_backend}
use nftlb.FarmAddresses.Actions.{change_farm}
use nftlb.States.Focus.{Focus, act_on_link, act_on_links, farm_needs_flowtable}
use nftlb.States.NetInfo.{
  farm_set_oface_info, backend_set_ifinfo, is_networked, oface_named, oface_at, oface_towards,
  first_ipaddr, name_iface, iface_named, iface_at, iface_towards,
}
use nftlb.States.Calls.{ask_netinfo}

pub record Alike (f g : Farm) : Type 0 where
  pub count : length g.backends ≡ length f.backends
  pub state : g.state ≡ f.state
  pub action : g.action ≡ f.action

pub Alike-refl : (f : Farm) → Alike f f
Alike-refl f = record { count = refl; state = refl; action = refl }

pub Alike-trans : {f g h : Farm} → Alike f g → Alike g h → Alike f h
Alike-trans p q = record {
  count = q.count ∙ p.count;
  state = q.state ∙ p.state;
  action = q.action ∙ p.action;
}

if-Alike : (q : Bool) (f g h : Farm) → Alike f g → Alike f h → Alike f (if q then g else h)
if-Alike true f g h p r = p
if-Alike false f g h p r = r

length-put : (b : Backend) (bs : List Backend) → length (put b bs) ≡ length bs
unfolding put
length-put b [] = refl
length-put b (x ∷ xs) = ground (arith, length-put b xs)

pub put_backend-Alike : (f : Farm) (b : Backend) → Alike f (put_backend f b)
unfolding put_backend
put_backend-Alike f b = record { count = length-put b f.backends; state = refl; action = refl }

change_farm-Alike :
    (f : Farm) (fa : FarmAddress) (action : Action) → Alike f (change_farm f fa action)
unfolding change_farm
change_farm-Alike f fa action = record { count = refl; state = refl; action = refl }

act_on_link-Alike :
    (q : Bool) (action : Action) (fa : FarmAddress) (s : Focus)
    → Alike s.farm (if q then act_on_link action fa s else s).farm
unfolding act_on_link
act_on_link-Alike false action fa s = Alike-refl s.farm
act_on_link-Alike true action fa s = elim (Bool-cases (is_action fa.action action)) [
  | inl same ↦ rw same (Alike-refl s.farm)
  | inr other ↦ rw other (change_farm-Alike s.farm fa action)
]

pub act_on_links-Alike :
    (action : Action) (fas : List FarmAddress) (s : Focus)
    → Alike s.farm (act_on_links action fas s).farm
unfolding act_on_links
act_on_links-Alike action [] s = Alike-refl s.farm
act_on_links-Alike action (fa ∷ fas) s =
    Alike-trans (act_on_link-Alike (ltb (action_value action) (action_value fa.action)) action fa s)
      (act_on_links-Alike action fas _)

module _ (net : Net) where
  oface_named-Alike : (f : Farm) (name : Option String) → Alike f (oface_named net f name).0
  unfolding oface_named
  oface_named-Alike f none = Alike-refl f
  oface_named-Alike f (some name) = record { count = refl; state = refl; action = refl }

  oface_at-Alike : (f : Farm) (i : Option ℤ) → Alike f (oface_at net f i).0
  unfolding oface_at
  oface_at-Alike f none = Alike-refl f
  oface_at-Alike f (some i) =
      Alike-trans (record { count = refl; state = refl; action = refl })
        (oface_named-Alike (record f { ofidx = i }) (net.ifname_of i))

  oface_towards-Alike : (f : Farm) (ipaddr : Option String) → Alike f (oface_towards net f ipaddr).0
  unfolding oface_towards
  oface_towards-Alike f none = Alike-refl f
  oface_towards-Alike f (some ipaddr) = oface_at-Alike f (net.ifidx_of ipaddr)

  pub farm_set_oface_info-Alike : (f : Farm) → Alike f (farm_set_oface_info net f).0
  unfolding farm_set_oface_info
  farm_set_oface_info-Alike f =
      elim (Bool-cases (farm_is_ingress_mode f || farm_needs_flowtable f)) [
        | inr plain ↦ rw plain (Alike-refl f)
        | inl asks ↦ elim (Bool-cases (text_is f.oface "lo")) [
          | inl loopback ↦
              rw (asks, loopback) (record { count = refl; state = refl; action = refl })
          | inr outside ↦ rw (asks, outside) (oface_towards-Alike f (first_ipaddr f.backends))
        ]
      ]

  name_iface-Alike :
      (oface : Option String) (name : String) (f : Farm) (b : Backend)
      → Alike f (name_iface net oface name f b).0
  unfolding name_iface
  name_iface-Alike none name f b = record { count = refl; state = refl; action = refl }
  name_iface-Alike (some oface) name f b = elim (Bool-cases (str_eq oface name)) [
    | inl same ↦ rw same (Alike-refl f)
    | inr other ↦ rw other (Alike-refl f)
  ]

  iface_named-Alike :
      (name : Option String) (f : Farm) (b : Backend) → Alike f (iface_named net name f b).0.0
  unfolding iface_named
  iface_named-Alike none f b = Alike-refl f
  iface_named-Alike (some name) f b = name_iface-Alike f.oface name f b

  iface_at-Alike : (i : Option ℤ) (f : Farm) (b : Backend) → Alike f (iface_at net i f b).0.0
  unfolding iface_at
  iface_at-Alike none f b = Alike-refl f
  iface_at-Alike (some i) f b =
      let f1 = if eq_ℤ f.ofidx (negsuc 0) then record f { ofidx = i } else f in
      let elsewhere = not (eq_ℤ f1.ofidx i) in
      let first =
        if-Alike (eq_ℤ f.ofidx (negsuc 0)) f (record f { ofidx = i }) f
          (record { count = refl; state = refl; action = refl }) (Alike-refl f) in
      let second =
        if-Alike elsewhere f1 (record f1 { bcks_have_if = 1 }) f1
          (record { count = refl; state = refl; action = refl }) (Alike-refl f1) in
      Alike-trans first (Alike-trans second (iface_named-Alike (net.ifname_of i) _ _))

  iface_towards-Alike :
      (ipaddr : Option String) (f : Farm) (b : Backend) → Alike f (iface_towards net ipaddr f b).0.0
  unfolding iface_towards
  iface_towards-Alike none f b = Alike-refl f
  iface_towards-Alike (some ipaddr) f b = iface_at-Alike (net.ifidx_of ipaddr) f b

  backend_set_ifinfo-Alike : (f : Farm) (b : Backend) → Alike f (backend_set_ifinfo net f b).0.0
  unfolding backend_set_ifinfo
  backend_set_ifinfo-Alike f b = elim (Bool-cases (is_networked f)) [
    | inr offline ↦ rw offline (Alike-refl f)
    | inl online ↦ elim (Bool-cases (text_is f.oface "lo")) [
      | inl loopback ↦ rw (online, loopback) (record { count = refl; state = refl; action = refl })
      | inr outside ↦ rw (online, outside) (iface_towards-Alike b.ipaddr f b)
    ]
  ]

  pub ask_netinfo-Alike : (b : Backend) (s : Focus) → Alike s.farm (ask_netinfo net b s).0.0
  unfolding ask_netinfo
  ask_netinfo-Alike b s = elim (Bool-cases (backend_set_ifinfo net s.farm b).1) [
    | inl reached ↦ rw reached (backend_set_ifinfo-Alike s.farm b)
    | inr unreached ↦ rw unreached (backend_set_ifinfo-Alike s.farm b)
  ]
