-- ===== src/FarmAddresses/Deletion.antt =====
-- farmaddress_delete of src/farmaddress.c, and its calls by farmaddress_s_delete: what is left of the
-- address and the farm.
use nftlb.Prelude.{
  ℕ, ◌-◌, ◌≡◌, refl, sym, ap, ◌∙◌, subst, true, ◌&&◌, List, [], ◌∷◌, none, some, arith, length,
  find?, ltb, ◌==◌, if◌then◌else◌, Bool-cases, inl, inr,
}
use nftlb.Model.{Farm, Address, FarmAddress}
use nftlb.FarmAddresses.Links.{
  World, put_farm, put_address, remove_link, farm_at, address_at, address_delete, address_not_used,
  unlink_farm, unlink_address, release, farmaddress_delete, delete_links,
}
use nftlb.FarmAddresses.Nodes.{
  IsDistinct, links_in, used_in, links_to-farm_at, farm_at-put_farm, address_at-put_address,
  address_at-remove_address, put_address-IsDistinct, address_at-id,
}
use nftlb.FarmAddresses.Release.{release-farms}
use nftlb.FarmAddresses.Invariant.{IsCounted, linked_address, farmaddress_delete-IsCounted}

release-survival :
    (a b : Address) (w : World)
    → b.id ≡ a.id
    → address_at a.id w.addresses ≡ some a
    → IsDistinct w.addresses
    → address_at a.id (release b w).addresses ≡ (if address_not_used b then none else some b)
unfolding release address_delete
release-survival a b w same address distinct =
    let it : (a.id == a.id) ≡ true = ground arith in
    let b_it : (b.id == a.id) ≡ true = ground (arith, same) in
    let put = address_at-put_address a.id a b w.addresses same address in
    elim (Bool-cases (address_not_used b)) [
      | inl gone ↦ rw gone (
          address_at-remove_address a.id b.id (put_address b w.addresses)
            (put_address-IsDistinct a b w.addresses same address distinct)
          ∙ rw b_it refl)
      | inr kept ↦ rw kept (put ∙ rw it refl)
    ]

-- Deleting the link of a farm to an address takes one off the address's count, and deletes the
-- address exactly where that leaves it with no link and no policy.
pub farmaddress_delete-survival :
    (f : Farm) (fa : FarmAddress) (a : Address) (w : World)
    → IsDistinct w.addresses
    → address_at fa.address w.addresses ≡ some a
    → address_at fa.address (farmaddress_delete f fa w).addresses ≡ (
        if a.policies_used == 0 && (a.used - 1 == 0)
        then none
        else some (record a { used = a.used - 1 }))
unfolding farmaddress_delete unlink_address address_not_used
farmaddress_delete-survival f fa a w distinct found =
    let id = address_at-id fa.address a w.addresses found in
    let node : address_at a.id w.addresses ≡ some a =
      subst (λ k. address_at k w.addresses ≡ some a) (sym id) found in
    let less : (if ltb 0 a.used then a.used - 1 else a.used) ≡ a.used - 1 = ground arith in
    let w' = record w { farms = put_farm (unlink_farm fa.id f) w.farms } in
    rw (found, sym id) (release-survival a (unlink_address a) w' refl node distinct ∙ rw less refl)

farmaddress_delete-farms :
    (f : Farm) (fa : FarmAddress) (w : World)
    → farm_at f.id w.farms ≡ some f
    → find? (λ x. x.id == fa.id) f.addresses ≡ some fa
    → IsCounted w
    → (farmaddress_delete f fa w).farms ≡ put_farm (unlink_farm fa.id f) w.farms
unfolding farmaddress_delete
farmaddress_delete-farms f fa w farm link counted =
    let (a, found) = linked_address f fa w farm link counted in
    let node : address_at a.id w.addresses ≡ some a =
      rw (address_at-id fa.address a w.addresses found) found in
    let w' = record w { farms = put_farm (unlink_farm fa.id f) w.farms } in
    rw found (release-farms a (unlink_address a) w' refl node counted.distinct)

-- The first of the links of a farm is deleted.
module _ (fa : FarmAddress) (fas : List FarmAddress) (f : Farm) (w : World)
    (farm : farm_at f.id w.farms ≡ some f) (links : f.addresses ≡ fa ∷ fas)
    (counted : IsCounted w) where
  pub first_link : find? (λ x. x.id == fa.id) f.addresses ≡ some fa
  first_link = let it : (fa.id == fa.id) ≡ true = ground arith in rw (links, it) refl

  pub rest_links : (unlink_farm fa.id f).addresses ≡ fas
  unfolding unlink_farm remove_link
  rest_links = let it : (fa.id == fa.id) ≡ true = ground arith in rw (links, it) refl

  pub next_farm : farm_at f.id (farmaddress_delete f fa w).farms ≡ some (unlink_farm fa.id f)
  unfolding unlink_farm
  next_farm =
      ap (farm_at f.id) (farmaddress_delete-farms f fa w farm first_link counted)
      ∙ farm_at-put_farm f (unlink_farm fa.id f) w.farms refl farm

  pub next-IsCounted : IsCounted (farmaddress_delete f fa w)
  next-IsCounted = farmaddress_delete-IsCounted f fa w farm first_link counted

  -- An address that is gone has none of the links that are left.
  pub no_rest :
      (i : ℕ) → address_at i (farmaddress_delete f fa w).addresses ≡ none → links_in i fas ≡ 0
  no_rest i gone = omega (
    arith,
    ap used_in gone,
    next-IsCounted.used i,
    links_to-farm_at i (unlink_farm fa.id f) f.id (farmaddress_delete f fa w).farms next_farm,
    ap (links_in i) rest_links,
  )

-- What deleting all links of a farm leaves.
pub record HasNoLinks (i : ℕ) (w : World) : Type 0 where
  pub farm : Farm
  pub here : farm_at i w.farms ≡ some farm
  pub links : farm.addresses ≡ []
  pub unused : farm.addresses_used ≡ 0
  pub counted : IsCounted w

pub delete_links-HasNoLinks :
    (l : List FarmAddress) (f : Farm) (w : World)
    → farm_at f.id w.farms ≡ some f
    → f.addresses ≡ l
    → f.addresses_used ≡ length l
    → IsCounted w
    → HasNoLinks f.id (delete_links f.id l w)
unfolding delete_links unlink_farm remove_link
delete_links-HasNoLinks [] f w farm links used counted = record {
  farm = f;
  here = farm;
  links = links;
  unused = used;
  counted = counted;
}
delete_links-HasNoLinks (fa ∷ fas) f w farm links used counted =
    let rest = rest_links fa fas f w farm links counted in
    let g_used : (unlink_farm fa.id f).addresses_used ≡ length fas = ground (arith, used) in
    rw farm (
      delete_links-HasNoLinks fas (unlink_farm fa.id f) (farmaddress_delete f fa w)
        (next_farm fa fas f w farm links counted) rest g_used
        (next-IsCounted fa fas f w farm links counted))
