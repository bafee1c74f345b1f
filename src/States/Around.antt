-- ===== src/States/Around.antt =====
-- The questions to the network and the second look at the configuration, which farm_set_action of
-- src/farms.c makes once the farm has its action, end where each change of state that they ask for does.
use nftlb.Prelude.{
  ℕ, ◌≡◌, refl, ap, ◌∙◌, Bool, true, false, Option, some, ◌&&◌, ◌||◌, if◌then◌else◌,
}
use nftlb.Enums.{State, Action, is_state, is_action}
use nftlb.Model.{Backend}
use nftlb.Network.{Net}
use nftlb.Backends.Predicates.{backend_validate, farm_is_ingress_mode}
use nftlb.Backends.Setters.{put_backend}
use nftlb.Sessions.Timed.{backend_at}
use nftlb.States.Focus.{
  Focus, farm_needs_flowtable, farm_manage_eventd, farmaddress_s_set_action,
  farm_s_update_dsr_counter,
}
use nftlb.States.NetInfo.{farm_set_oface_info}
use nftlb.States.Calls.{
  Call, ◌>>=◌, with_farm, ask_netinfo, backend_set_netinfo, netinfo_body, with_have_if,
  ingress_netinfo, flowtable_netinfo, farm_set_netinfo, validate_body, backend_s_validate,
  act_on_addresses, act_on_addresses_after,
}
use nftlb.States.Alike.{
  Alike, Alike-refl, Alike-trans, put_backend-Alike, farm_set_oface_info-Alike, ask_netinfo-Alike,
  act_on_links-Alike,
}
use nftlb.States.Loops.{for_backends-keeps}

pub farm_manage_eventd-farm : (net : Net) (s : Focus) → (farm_manage_eventd net s).farm ≡ s.farm
unfolding farm_manage_eventd farm_s_update_dsr_counter
farm_manage_eventd-farm net s = refl

with_have_if-Alike : (s : Focus) → Alike s.farm (with_have_if s).farm
unfolding with_have_if
with_have_if-Alike s = record { count = refl; state = refl; action = refl }

addresses-Alike :
    (q : Bool) (action : Action) (s : Focus)
    → Alike s.farm (if q then farmaddress_s_set_action action s else s).farm
unfolding farmaddress_s_set_action
addresses-Alike true action s = act_on_links-Alike action s.farm.addresses s
addresses-Alike false action s = Alike-refl s.farm

module _ {A B : Type 0} where
  -- What follows a call that ends.
  pub and_then :
      {P : A → Type 0} {Q : B → Type 0} (m : Option A) (k : A → Option B)
      → ((t : A) × (m ≡ some t) × P t)
      → ((t : A) → P t → (u : B) × (k t ≡ some u) × Q u)
      → (u : B) × ((m >>= k) ≡ some u) × Q u
  and_then m k (t, ran, p) next =
      let (u, ran', q) = next t p in (u, ap (λ o. o >>= k) ran ∙ ran', q)

-- Of two branches that end, the one that the test takes.
pub if_ends :
    {P : Focus → Type 0} (test : Bool) (x y : Option Focus)
    → ((t : Focus) × (x ≡ some t) × P t)
    → ((t : Focus) × (y ≡ some t) × P t)
    → (t : Focus) × ((if test then x else y) ≡ some t) × P t
if_ends true x y p q = p
if_ends false x y p q = q

module _ (net : Net) (masquerade_mark : ℕ) (rec : Call → Focus → Option Focus) (P : Focus → Type 0)
    (alike : (s t : Focus) → Alike s.farm t.farm → P s → P t)
    (sets : (i : ℕ) (new_value : State) (s : Focus)
      → P s
      → (t : Focus) × (rec (Call.set_state i new_value) s ≡ some t) × P t) where
  backend_set_netinfo-keeps :
      (b : Backend) (s : Focus)
      → P s
      → (t : Focus) × (backend_set_netinfo net masquerade_mark rec b s ≡ some t) × P t
  unfolding backend_set_netinfo
  backend_set_netinfo-keeps b s h =
      let ((f, b'), found) = ask_netinfo net b s in
      let asked = with_farm s (put_backend f b') in
      let kept : P asked =
        alike s asked (Alike-trans (ask_netinfo-Alike net b s) (put_backend-Alike f b')) h in
      if_ends found _ _
        (if_ends (is_state b'.state State.conferr) _ _ (sets b.id State.up asked kept)
          (asked, refl, kept))
        (sets b.id State.conferr asked kept)

  netinfo_body-keeps :
      (b : Backend) (s : Focus)
      → P s
      → backend_at b.id s.farm.backends ≡ some b
      → (t : Focus) × (netinfo_body net masquerade_mark rec b s ≡ some t) × P t
  unfolding netinfo_body
  netinfo_body-keeps b s h node =
      if_ends (backend_validate s.farm b) _ _ (s, refl, h) (backend_set_netinfo-keeps b s h)

  ingress_netinfo-keeps :
      (s : Focus) → P s → (t : Focus) × (ingress_netinfo net masquerade_mark rec s ≡ some t) × P t
  unfolding ingress_netinfo
  ingress_netinfo-keeps s h =
      let f = (farm_set_oface_info net s.farm).0 in
      let asked = with_farm s f in
      let kept = alike s asked (farm_set_oface_info-Alike net s.farm) h in
      let kept' : P (farm_manage_eventd net (with_have_if asked)) =
        alike asked _ (with_have_if-Alike asked) kept in
      if_ends (farm_is_ingress_mode s.farm) _ _
        (if_ends (farm_set_oface_info net s.farm).1 _ _
          (for_backends-keeps P (netinfo_body net masquerade_mark rec) netinfo_body-keeps f.backends
            _ kept')
          (asked, refl, kept))
        (s, refl, h)

  flowtable_netinfo-keeps :
      (s : Focus) → P s → (t : Focus) × (flowtable_netinfo net s ≡ some t) × P t
  unfolding flowtable_netinfo
  flowtable_netinfo-keeps s h =
      let asked = with_farm s (farm_set_oface_info net s.farm).0 in
      let kept =
        alike s (with_have_if asked)
          (Alike-trans (farm_set_oface_info-Alike net s.farm) (with_have_if-Alike asked)) h in
      if_ends (farm_needs_flowtable s.farm) _ _ (with_have_if asked, refl, kept) (s, refl, h)

  farm_set_netinfo-keeps :
      (s : Focus) → P s → (t : Focus) × (farm_set_netinfo net masquerade_mark rec s ≡ some t) × P t
  unfolding farm_set_netinfo
  farm_set_netinfo-keeps s h =
      if_ends (is_state s.farm.state State.up) _ _
        (and_then _ (flowtable_netinfo net) (ingress_netinfo-keeps s h) flowtable_netinfo-keeps)
        (s, refl, h)

  validate_body-keeps :
      (b : Backend) (s : Focus)
      → P s
      → backend_at b.id s.farm.backends ≡ some b
      → (t : Focus) × (validate_body net masquerade_mark rec b s ≡ some t) × P t
  unfolding validate_body
  validate_body-keeps b s h node =
      if_ends (is_state b.state State.conferr && backend_validate s.farm b) _ _
        (sets b.id State.up s h) (s, refl, h)

  backend_s_validate-keeps :
      (s : Focus)
      → P s
      → (t : Focus) × (backend_s_validate net masquerade_mark rec s ≡ some t) × P t
  unfolding backend_s_validate
  backend_s_validate-keeps s h =
      for_backends-keeps P (validate_body net masquerade_mark rec) validate_body-keeps
        s.farm.backends s h

  act_on_addresses-keeps :
      (action : Action) (s : Focus)
      → P s
      → (t : Focus) × (act_on_addresses_after action s ≡ some t) × P t
  unfolding act_on_addresses_after act_on_addresses farmaddress_s_set_action
  act_on_addresses-keeps action s h = (
    act_on_addresses action s,
    refl,
    alike s _
        (addresses-Alike (is_action action Action.stop || is_action action Action.start) action s)
        h,
  )

  -- The steps of farm_set_action behind the assignment of the action.
  pub follow_up-keeps :
      (action : Action) (s : Focus)
      → P s
      → (t : Focus) × ((farm_set_netinfo net masquerade_mark rec s
            >>= backend_s_validate net masquerade_mark rec
            >>= act_on_addresses_after action)
          ≡ some t)
        × P t
  follow_up-keeps action s h =
      and_then _ (act_on_addresses_after action)
        (and_then _ (backend_s_validate net masquerade_mark rec) (farm_set_netinfo-keeps s h)
          backend_s_validate-keeps)
        (act_on_addresses-keeps action)
