-- ===== src/FarmAddresses/Invariant.antt =====
-- The count that each address keeps of the links to it, through the operations of src/farmaddress.c.
use nftlb.Prelude.{
  ℕ, ◌+◌, ◌≤◌, ◌≡◌, refl, sym, ap, ◌∙◌, subst, true, some, arith, length, find?, ◌==◌,
  if◌then◌else◌, Option-cases, inl, inr,
}
use nftlb.Model.{Farm, Address, FarmAddress}
use nftlb.Enums.{Action}
use nftlb.FarmAddresses.Links.{
  World, put_farm, remove_link, farm_at, address_at, link_farm, link_address, farmaddress_create,
  unlink_farm, unlink_address, farmaddress_delete,
}
use nftlb.FarmAddresses.Nodes.{
  links_in, links_to, used_in, used_of, IsDistinct, links_to-put_farm, put_address-IsDistinct,
  length-put_address, links_in-remove_link, links_to-farm_at, address_at-id,
}
use nftlb.FarmAddresses.Release.{
  used_of-put_address, used_here, links_in-append, one_more, one_less, used_of-release,
  release-IsDistinct, release-total, release-farms,
}

-- Each address counts the links to it, and there is no link to an address that is gone.
pub record IsCounted (w : World) : Type 0 where
  pub used : (i : ℕ) → used_of i w.addresses ≡ links_to i w.farms
  pub distinct : IsDistinct w.addresses
  pub total : w.total_addresses ≡ length w.addresses

-- A new link from a farm to an address keeps the counts.
pub farmaddress_create-IsCounted :
    (id : ℕ) (f : Farm) (a : Address) (w : World)
    → farm_at f.id w.farms ≡ some f
    → address_at a.id w.addresses ≡ some a
    → IsCounted w
    → IsCounted (farmaddress_create id f a w)
unfolding farmaddress_create link_farm link_address
farmaddress_create-IsCounted id f a w farm address counted =
    let fa : FarmAddress = record { id = id; address = a.id; action = Action.start } in
    record {
      used = λ i.
          used_of-put_address i a (link_address a) w.addresses refl address
          ∙ one_more (a.id == i) a.used (links_in i f.addresses) (counted.used i)
              (used_here i a w.addresses address)
              (links_to-put_farm i f (link_farm fa f) w.farms refl farm
                ∙ ap (λ n. links_to i w.farms + n) (links_in-append i fa f.addresses));
      distinct =
          put_address-IsDistinct a (link_address a) w.addresses refl address counted.distinct;
      total = counted.total ∙ sym (length-put_address (link_address a) w.addresses);
    }

no_link : {k n : ℕ} (m : ℕ) → m + 1 ≡ k → k ≤ n → 0 ≡ n → ⊥
no_link m one le zero_links = omega (arith, one, le, zero_links)

-- The address of a link is there.
pub linked_address :
    (f : Farm) (fa : FarmAddress) (w : World)
    → farm_at f.id w.farms ≡ some f
    → find? (λ x. x.id == fa.id) f.addresses ≡ some fa
    → IsCounted w
    → (a : Address) × (address_at fa.address w.addresses ≡ some a)
linked_address f fa w farm link counted = elim (Option-cases (address_at fa.address w.addresses)) [
  | inl gone ↦
      let one = links_in-remove_link fa.address fa f.addresses link in
      let here : (fa.address == fa.address) ≡ true = ground arith in
      let unused : 0 ≡ links_to fa.address w.farms =
        ap used_in (sym gone) ∙ counted.used fa.address in
      absurd (
        no_link (links_in fa.address (remove_link fa.id f.addresses)) (rw here at one)
          (links_to-farm_at fa.address f f.id w.farms farm) unused)
  | inr there ↦ there
]

-- Deleting a link of a farm keeps the counts.
pub farmaddress_delete-IsCounted :
    (f : Farm) (fa : FarmAddress) (w : World)
    → farm_at f.id w.farms ≡ some f
    → find? (λ x. x.id == fa.id) f.addresses ≡ some fa
    → IsCounted w
    → IsCounted (farmaddress_delete f fa w)
unfolding farmaddress_delete unlink_farm unlink_address
farmaddress_delete-IsCounted f fa w farm link counted =
    let (a, found) = linked_address f fa w farm link counted in
    let g = unlink_farm fa.id f in
    let w' = record w { farms = put_farm g w.farms } in
    let id = address_at-id fa.address a w.addresses found in
    let node : address_at a.id w.addresses ≡ some a = rw id found in
    rw found (record {
      used = λ i.
          used_of-release a (unlink_address a) w' refl node counted.distinct i
          ∙ one_less (a.id == i) a.used (links_in i f.addresses) (links_in i g.addresses)
              (counted.used i) (used_here i a w.addresses node)
              (links_to-put_farm i f g w.farms refl farm)
              (subst
                (λ k. links_in i g.addresses + (if k == i then 1 else 0) ≡ links_in i f.addresses)
                (sym id) (links_in-remove_link i fa f.addresses link))
          ∙ ap (links_to i)
              (sym (release-farms a (unlink_address a) w' refl node counted.distinct));
      distinct = release-IsDistinct a (unlink_address a) w' refl node counted.distinct;
      total = release-total a (unlink_address a) w' refl node counted.distinct counted.total;
    })
