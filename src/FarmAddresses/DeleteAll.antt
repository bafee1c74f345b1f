-- ===== src/FarmAddresses/DeleteAll.antt =====
-- farmaddress_s_delete of src/farmaddress.c: what is left of every address.
use nftlb.Prelude.{
  ℕ, ◌-◌, ◌≡◌, refl, sym, ap, ◌∙◌, subst, ◌&&◌, List, [], ◌∷◌, Option, none, some, arith,
  Option-cases, ◌+◌, false, length, ◌==◌, if◌then◌else◌, Bool-cases, inl, inr,
}
use nftlb.Model.{Farm, Address, FarmAddress}
use nftlb.FarmAddresses.Links.{
  World, put_farm, put_address, farm_at, address_at, address_delete, address_not_used, unlink_farm,
  unlink_address, release, farmaddress_delete, delete_links, farmaddress_s_delete,
}
use nftlb.FarmAddresses.Nodes.{
  IsDistinct, links_in, address_at-put_address, address_at-remove_address, put_address-IsDistinct,
  address_at-id,
}
use nftlb.FarmAddresses.Invariant.{IsCounted, linked_address}
use nftlb.FarmAddresses.Deletion.{
  HasNoLinks, first_link, rest_links, next_farm, next-IsCounted, no_rest, delete_links-HasNoLinks,
  farmaddress_delete-survival,
}

release-elsewhere :
    (i : ℕ) (a b : Address) (w : World)
    → b.id ≡ a.id
    → address_at a.id w.addresses ≡ some a
    → IsDistinct w.addresses
    → (a.id == i) ≡ false
    → address_at i (release b w).addresses ≡ address_at i w.addresses
unfolding release address_delete
release-elsewhere i a b w same address distinct other =
    let b_other : (b.id == i) ≡ false = rw same other in
    let put = address_at-put_address i a b w.addresses same address ∙ rw other refl in
    elim (Bool-cases (address_not_used b)) [
      | inl gone ↦ rw gone (
          address_at-remove_address i b.id (put_address b w.addresses)
            (put_address-IsDistinct a b w.addresses same address distinct)
          ∙ rw b_other put)
      | inr kept ↦ rw kept put
    ]

farmaddress_delete-elsewhere :
    (i : ℕ) (f : Farm) (fa : FarmAddress) (w : World)
    → IsDistinct w.addresses
    → (fa.address == i) ≡ false
    → address_at i (farmaddress_delete f fa w).addresses ≡ address_at i w.addresses
unfolding farmaddress_delete unlink_address
farmaddress_delete-elsewhere i f fa w distinct other =
    elim (Option-cases (address_at fa.address w.addresses)) [
      | inl gone ↦ rw gone refl
      | inr (a, found) ↦
          let id = address_at-id fa.address a w.addresses found in
          let node = subst (λ k. address_at k w.addresses ≡ some a) (sym id) found in
          let w' = record w { farms = put_farm (unlink_farm fa.id f) w.farms } in
          rw found (release-elsewhere i a (unlink_address a) w' refl node distinct (rw id other))
    ]

-- What is left of an address that loses `k` links.
abbrev pub survives : ℕ → Address → Option Address
survives k a =
    if k == 0
    then some a
    else if a.policies_used == 0 && (a.used - k == 0)
    then none
    else some (record a { used = a.used - k })

one_by_one :
    (k : ℕ) (a : Address)
    → (a.policies_used == 0 && (a.used - 1 == 0)) ≡ false
    → survives k (record a { used = a.used - 1 }) ≡ survives (1 + k) a
one_by_one k a stays =
    let same : a.used - 1 - k ≡ a.used - (1 + k) = omega arith in
    let some_link : (1 + k == 0) ≡ false = ground arith in
    elim (Bool-cases (k == 0)) [
      | inl no_more ↦ let none_more : k ≡ 0 = ground (arith, no_more) in rw (none_more, stays) refl
      | inr more ↦ rw (more, some_link, same) refl
    ]

module _ (i : ℕ) where
  delete_links-gone :
      (l : List FarmAddress) (f : Farm) (w : World)
      → farm_at f.id w.farms ≡ some f
      → f.addresses ≡ l
      → IsCounted w
      → address_at i w.addresses ≡ none
      → address_at i (delete_links f.id l w).addresses ≡ none
  unfolding delete_links unlink_farm
  delete_links-gone [] f w farm links counted gone = gone
  delete_links-gone (fa ∷ fas) f w farm links counted gone =
      let other : (fa.address == i) ≡ false = elim (Bool-cases (fa.address == i)) [
        | inl here ↦
            let (a, there) =
              linked_address f fa w farm (first_link fa fas f w farm links counted) counted in
            let same : fa.address ≡ i = ground (arith, here) in
            cc (gone, subst (λ k. address_at k w.addresses ≡ some a) same there)
        | inr elsewhere ↦ elsewhere
      ] in
      rw (farm, delete_links)
        (delete_links-gone fas (unlink_farm fa.id f) (farmaddress_delete f fa w)
          (next_farm fa fas f w farm links counted) (rest_links fa fas f w farm links counted)
          (next-IsCounted fa fas f w farm links counted)
          (farmaddress_delete-elsewhere i f fa w counted.distinct other ∙ gone))

  delete_links-survival :
      (l : List FarmAddress) (f : Farm) (a : Address) (w : World)
      → farm_at f.id w.farms ≡ some f
      → f.addresses ≡ l
      → IsCounted w
      → address_at i w.addresses ≡ some a
      → address_at i (delete_links f.id l w).addresses ≡ survives (links_in i l) a
  unfolding delete_links unlink_farm
  delete_links-survival [] f a w farm links counted found = found
  delete_links-survival (fa ∷ fas) f a w farm links counted found =
      let w' = farmaddress_delete f fa w in
      let g = unlink_farm fa.id f in
      let farm' = next_farm fa fas f w farm links counted in
      let links' = rest_links fa fas f w farm links counted in
      let counted' = next-IsCounted fa fas f w farm links counted in
      elim (Bool-cases (fa.address == i)) [
        | inr other ↦
            let no_one : links_in i fas ≡ 0 + links_in i fas = omega arith in
            rw (farm, other, delete_links)
              (delete_links-survival fas g a w' farm' links' counted'
                  (farmaddress_delete-elsewhere i f fa w counted.distinct other ∙ found)
                ∙ ap (λ k. survives k a) no_one)
        | inl here ↦
            let same : fa.address ≡ i = ground (arith, here) in
            let there = subst (λ k. address_at k w.addresses ≡ some a) (sym same) found in
            let now : address_at i w'.addresses ≡ (
                if a.policies_used == 0 && (a.used - 1 == 0)
                then none
                else some (record a { used = a.used - 1 })) =
              subst
                (λ k. address_at k w'.addresses ≡ (
                  if a.policies_used == 0 && (a.used - 1 == 0)
                  then none
                  else some (record a { used = a.used - 1 })))
                same (farmaddress_delete-survival f fa a w counted.distinct there) in
            elim (Bool-cases (a.policies_used == 0 && (a.used - 1 == 0))) [
              | inl goes ↦
                  let gone = rw goes at now in
                  let no_more = no_rest fa fas f w farm links counted i gone in
                  rw (farm, here, no_more, goes, delete_links)
                    (delete_links-gone fas g w' farm' links' counted' gone)
              | inr stays ↦
                  rw (farm, here, delete_links)
                    (delete_links-survival fas g (record a { used = a.used - 1 }) w' farm' links'
                        counted' (rw stays at now)
                      ∙ one_by_one (links_in i fas) a stays)
            ]
      ]

-- What is left of an address, or of none, that loses `k` links.
abbrev pub left_of : ℕ → Option Address → Option Address
left_of k none = none
left_of k (some a) = survives k a

-- farmaddress_s_delete leaves the farm with no link and a count of 0, and every address with the count
-- of the links to it. An address that the farm has no link to stays as it is; one that it has links to
-- loses that many from its count, and is gone exactly where that leaves it with no link and no policy.
pub farmaddress_s_delete-HasNoLinks :
    (f : Farm) (w : World)
    → farm_at f.id w.farms ≡ some f
    → f.addresses_used ≡ length f.addresses
    → IsCounted w
    → HasNoLinks f.id (farmaddress_s_delete f w)
      × ((i : ℕ)
          → address_at i (farmaddress_s_delete f w).addresses
            ≡ left_of (links_in i f.addresses) (address_at i w.addresses))
unfolding farmaddress_s_delete
farmaddress_s_delete-HasNoLinks f w farm used counted = (
  delete_links-HasNoLinks f.addresses f w farm refl used counted,
  λ i. elim (Option-cases (address_at i w.addresses)) [
    | inl gone ↦
        delete_links-gone i f.addresses f w farm refl counted gone
        ∙ ap (left_of (links_in i f.addresses)) (sym gone)
    | inr (a, found) ↦
        delete_links-survival i f.addresses f a w farm refl counted found
        ∙ ap (left_of (links_in i f.addresses)) (sym found)
  ],
)
