-- ===== src/Nftst/Done.antt =====
-- nftst_actions_done and nftst_set_chains of src/nftst.c: what they leave of the farm.
use nftlb.Prelude.{
  ℕ, ◌≡◌, refl, sym, ap, subst, ◌∙◌, ◌==◌, true, List, [], ◌∷◌, Option, none, some, All, map, arith,
  node_at, node_at-id, node_at-put_node,
}
use nftlb.Enums.{Action}
use nftlb.Model.{Farm, Address, Backend, FarmAddress}
use nftlb.Policies.Store.{Store, farm_id}
use nftlb.Nftst.{
  Nftst, address_of, change_farm_at, change_address_at, farm_done, address_done, nftst_actions_done,
}

-- The actions that nftst_actions_done resets are none.
pub record IsQuiet (f : Farm) : Type 0 where
  pub action : f.action ≡ Action.none
  pub policies : f.policies_action ≡ Action.none
  pub backends : All (λ (b : Backend). b.action ≡ Action.none) f.backends
  pub addresses : All (λ (fa : FarmAddress). fa.action ≡ Action.none) f.addresses

quiet_backends :
    (l : List Backend)
    → All
        (λ (b : Backend). b.action ≡ Action.none)
        (map (λ (b : Backend). record b { action = Action.none }) l)
quiet_backends [] = tt
quiet_backends (b ∷ bs) = (refl, quiet_backends bs)

quiet_addresses :
    (l : List FarmAddress)
    → All
        (λ (fa : FarmAddress). fa.action ≡ Action.none)
        (map (λ (fa : FarmAddress). record fa { action = Action.none }) l)
quiet_addresses [] = tt
quiet_addresses (fa ∷ fas) = (refl, quiet_addresses fas)

farm_done-IsQuiet : (f : Farm) → IsQuiet (farm_done f)
unfolding farm_done
farm_done-IsQuiet f = record {
  action = refl;
  policies = refl;
  backends = quiet_backends f.backends;
  addresses = quiet_addresses f.addresses;
}

-- An address that changes leaves the farms.
change_address_at-farms :
    (g : Address → Address) (o : Option Address) (s : Store)
    → (change_address_at g o s).farms ≡ s.farms
unfolding change_address_at
change_address_at-farms g none s = refl
change_address_at-farms g (some a) s = refl

-- The farm of the list after a change that keeps its node.
changed_farm :
    (g : Farm → Farm) (i : ℕ) (f : Farm) (s : Store)
    → ((h : Farm) → (g h).id ≡ h.id)
    → node_at farm_id i s.farms ≡ some f
    → node_at farm_id i (change_farm_at g (node_at farm_id i s.farms) s).farms ≡ some (g f)
unfolding change_farm_at
changed_farm g i f s same found =
    let id : (g f).id ≡ i = same f ∙ node_at-id farm_id i f s.farms found in
    let there : node_at farm_id (g f).id s.farms ≡ some f =
      subst (λ k. node_at farm_id k s.farms ≡ some f) (sym id) found in
    let here : ((g f).id == i) ≡ true = ground (arith, id) in
    rw found (node_at-put_node farm_id i (g f) s.farms there ∙ rw here refl)

-- After nftst_actions_done the farm is there, and neither it nor its backends, its links to addresses or
-- its policies_action wait for a rule.
pub nftst_actions_done-IsQuiet :
    (n : Nftst) (i : ℕ) (f : Farm) (s : Store)
    → n.farm ≡ some i
    → node_at farm_id i s.farms ≡ some f
    → (g : Farm) × (node_at farm_id i (nftst_actions_done n s).farms ≡ some g) × IsQuiet g
unfolding nftst_actions_done farm_done
nftst_actions_done-IsQuiet n i f s points found = (
  farm_done f,
  ap (node_at farm_id i) (change_address_at-farms address_done (address_of n s) _)
      ∙ rw points (changed_farm farm_done i f s (λ h. refl) found),
  farm_done-IsQuiet f,
)
