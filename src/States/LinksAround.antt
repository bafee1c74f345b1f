-- ===== src/States/LinksAround.antt =====
-- What the parts of backend_set_state, backend_s_gen_priority and farm_set_action that call nothing of
-- these keep: the ids and the links to policies.
use nftlb.Prelude.{
  ◌≡◌, refl, subst, Bool, true, false, ◌||◌, ◌&&◌, not, List, [], ◌∷◌, Option, none, some,
  if◌then◌else◌, Bool-cases, Option-cases, inl, inr, ◌==◌,
}
use nftlb.Enums.{Action, is_action}
use nftlb.Model.{Farm, Backend}
use nftlb.Network.{Net}
use nftlb.Backends.Counters.{backend_s_update_counters}
use nftlb.Sessions.Timed.{backend_at}
use nftlb.States.Focus.{Focus, farm_manage_eventd, farm_s_update_dsr_counter, farm_needs_flowtable}
use nftlb.States.NetInfo.{backend_set_ifinfo}
use nftlb.States.Calls.{
  ◌>>=◌, for_backends, with_farm, with_counters, with_have_if, revalidated, tell_policies,
  act_on_addresses, act_on_addresses_after, ask_netinfo, take_action, flowtable_netinfo,
}
use nftlb.States.Links.{
  SameLinks, SameLinks-refl, SameLinks-trans, farm_part, farmaddress_s_set_action-SameLinks,
  farm_validate-part, farm_set_oface_info-part, backend_set_ifinfo-part,
}

-- Where the call gives a state, it has the same links.
abbrev pub Keeps : Focus → Option Focus → Type 0
Keeps s m = (t : Focus) → m ≡ some t → SameLinks s t

pub some-Keeps : (s u : Focus) → SameLinks s u → Keeps s (some u)
some-Keeps s u same t h = let it : u ≡ t = cc in subst (SameLinks s) it same

pub then_Keeps :
    (s : Focus) (m : Option Focus) (k : Focus → Option Focus)
    → Keeps s m
    → ((u : Focus) → Keeps u (k u))
    → Keeps s (m >>= k)
then_Keeps s none k first next t h = cc
then_Keeps s (some u) k first next t h = SameLinks-trans (first u refl) (next u t h)

pub if_Keeps :
    (q : Bool) (s : Focus) (m n : Option Focus)
    → Keeps s m
    → Keeps s n
    → Keeps s (if q then m else n)
if_Keeps true s m n p r = p
if_Keeps false s m n p r = r

-- A call from a state with the same links.
pub after_Keeps : (s u : Focus) (m : Option Focus) → SameLinks s u → Keeps u m → Keeps s m
after_Keeps s u m same keeps t h = SameLinks-trans same (keeps t h)

pub for_backends-Keeps :
    (body : Backend → Focus → Option Focus)
    → ((b : Backend) (s : Focus) → Keeps s (body b s))
    → (xs : List Backend) (s : Focus) → Keeps s (for_backends body xs s)
unfolding for_backends
for_backends-Keeps body keeps [] s t h = some-Keeps s s (SameLinks-refl s) t h
for_backends-Keeps body keeps (x ∷ xs) s t h =
    elim (Option-cases (backend_at x.id s.farm.backends)) [
      | inl gone ↦ for_backends-Keeps body keeps xs s t (rw (gone, for_backends) at h)
      | inr (b, here) ↦
          then_Keeps s (body b s) (for_backends body xs) (keeps b s)
            (for_backends-Keeps body keeps xs) t (rw (here, for_backends) at h)
    ]

pub farm_SameLinks :
    (s : Focus) (f : Farm) → farm_part f ≡ farm_part s.farm → SameLinks s (with_farm s f)
farm_SameLinks s f same = record { farm = same; addresses = refl }

pub with_counters-Keeps : (s : Focus) → Keeps s (with_counters s)
unfolding with_counters backend_s_update_counters
with_counters-Keeps s = some-Keeps s _ (farm_SameLinks s _ refl)

pub revalidated-SameLinks : (s : Focus) → SameLinks s (revalidated s)
unfolding revalidated
revalidated-SameLinks s =
    farm_SameLinks s _
      (farm_validate-part s.addresses (record s.farm { policies_action = Action.none }))

pub tell_policies-SameLinks :
    (action : Action) (s : Focus) → SameLinks s (with_farm s (tell_policies action s.farm))
tell_policies-SameLinks action s =
    elim (Bool-cases (
      not (is_action action Action.none)
      && not (is_action action Action.reload)
      && not (s.farm.policies_used == 0))) [
        | inl tells ↦ rw tells (farm_SameLinks s _ refl)
        | inr silent ↦ rw silent (SameLinks-refl s)
      ]

pub act_on_addresses-Keeps :
    (action : Action) (s : Focus) → Keeps s (act_on_addresses_after action s)
unfolding act_on_addresses_after act_on_addresses
act_on_addresses-Keeps action s =
    elim (Bool-cases (is_action action Action.stop || is_action action Action.start)) [
      | inl acts ↦ rw acts (some-Keeps s _ (farmaddress_s_set_action-SameLinks action s))
      | inr stays ↦ rw stays (some-Keeps s s (SameLinks-refl s))
    ]

module _ (net : Net) where
  pub take_action-SameLinks : (action : Action) (s : Focus) → SameLinks s (take_action net action s)
  unfolding take_action farm_manage_eventd farm_s_update_dsr_counter
  take_action-SameLinks action s = record { farm = refl; addresses = refl }

  pub manage_eventd-SameLinks : (s : Focus) → SameLinks s (farm_manage_eventd net (with_have_if s))
  unfolding farm_manage_eventd farm_s_update_dsr_counter with_have_if
  manage_eventd-SameLinks s = record { farm = refl; addresses = refl }

  pub flowtable_netinfo-Keeps : (s : Focus) → Keeps s (flowtable_netinfo net s)
  unfolding flowtable_netinfo with_have_if
  flowtable_netinfo-Keeps s =
      if_Keeps (farm_needs_flowtable s.farm) s _ _
        (some-Keeps s _ (farm_SameLinks s _ (farm_set_oface_info-part net s.farm)))
        (some-Keeps s s (SameLinks-refl s))

  pub ask_netinfo-part :
      (b : Backend) (s : Focus) → farm_part (ask_netinfo net b s).0.0 ≡ farm_part s.farm
  unfolding ask_netinfo
  ask_netinfo-part b s = elim (Bool-cases (backend_set_ifinfo net s.farm b).1) [
    | inl reached ↦ rw reached (backend_set_ifinfo-part net s.farm b)
    | inr unreached ↦ rw unreached (backend_set_ifinfo-part net s.farm b)
  ]
