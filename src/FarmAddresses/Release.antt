-- ===== src/FarmAddresses/Release.antt =====
-- The end of farmaddress_delete of src/farmaddress.c: an address is written back, or deleted.
use nftlb.Prelude.{
  ℕ, ◌+◌, ◌-◌, ◌≡◌, refl, sym, ap, ◌∙◌, subst, Bool, true, false, List, [], ◌∷◌, ◌++◌, Option, none,
  some, arith, length, count-append, ltb, ◌==◌, if◌then◌else◌, Bool-cases, inl, inr,
}
use nftlb.Model.{Address, FarmAddress}
use nftlb.FarmAddresses.Links.{
  World, put_address, address_at, address_delete, address_not_used, release,
}
use nftlb.FarmAddresses.Nodes.{
  links_in, used_in, used_of, IsDistinct, address_at-put_address, address_at-remove_address,
  put_address-IsDistinct, remove_address-IsDistinct, length-put_address, length-remove_address,
}

used_in-if :
    (q : Bool) (a : Address) (o : Option Address)
    → used_in (if q then some a else o) ≡ (if q then a.used else used_in o)
used_in-if true a o = refl
used_in-if false a o = refl

pub used_of-put_address :
    (i : ℕ) (a b : Address) (l : List Address)
    → b.id ≡ a.id
    → address_at a.id l ≡ some a
    → used_of i (put_address b l) ≡ (if a.id == i then b.used else used_of i l)
used_of-put_address i a b l same h =
    ap used_in (address_at-put_address i a b l same h) ∙ used_in-if (a.id == i) b (address_at i l)

pub used_here :
    (i : ℕ) (a : Address) (l : List Address)
    → address_at a.id l ≡ some a
    → (a.id == i) ≡ true
    → used_of i l ≡ a.used
used_here i a l h it =
    let same : a.id ≡ i = ground (arith, it) in
    ap used_in (subst (λ k. address_at k l ≡ some a) same h)

pub links_in-append :
    (i : ℕ) (fa : FarmAddress) (l : List FarmAddress)
    → links_in i (l ++ fa ∷ []) ≡ links_in i l + (if fa.address == i then 1 else 0)
links_in-append i fa l = count-append (λ x. x.address == i) l (fa ∷ []) ∙ omega arith

-- The count of one address, `u` before, against the links to it, `n` before and `n'` after.
pub one_more :
    (q : Bool) {u n n' : ℕ} (a k : ℕ)
    → u ≡ n
    → (q ≡ true → u ≡ a)
    → n' + k ≡ n + (k + (if q then 1 else 0))
    → (if q then a + 1 else u) ≡ n'
one_more true a k h at moved = omega (arith, h, at refl, moved)
one_more false a k h at moved = omega (arith, h, moved)

pub one_less :
    (q : Bool) {u n n' : ℕ} (a k k' : ℕ)
    → u ≡ n
    → (q ≡ true → u ≡ a)
    → n' + k ≡ n + k'
    → k' + (if q then 1 else 0) ≡ k
    → (if q then (if ltb 0 a then a - 1 else a) else u) ≡ n'
one_less true a k k' h at moved less = ground (arith, h, at refl, moved, less)
one_less false a k k' h at moved less = omega (arith, h, moved, less)

unused : (a : Address) → address_not_used a ≡ true → (a.used ≡ 0) × (a.policies_used ≡ 0)
unfolding address_not_used
unused a h = ground arith

gone_if :
    (p q : Bool) (b : Address) (o : Option Address)
    → q ≡ p
    → b.used ≡ 0
    → used_in (if q then none else if p then some b else o) ≡ (if p then b.used else used_in o)
gone_if true q b o same zero_used = rw (same, zero_used) refl
gone_if false q b o same zero_used = rw same refl

-- The counts after an address is written back, and deleted where it is not used.
module _ (a b : Address) (w : World) (same : b.id ≡ a.id)
    (address : address_at a.id w.addresses ≡ some a) (distinct : IsDistinct w.addresses) where
  after_put : IsDistinct (put_address b w.addresses)
  after_put = put_address-IsDistinct a b w.addresses same address distinct

  pub used_of-release :
      (i : ℕ)
      → used_of i (release b w).addresses ≡ (if a.id == i then b.used else used_of i w.addresses)
  unfolding release address_delete
  used_of-release i = elim (Bool-cases (address_not_used b)) [
    | inl gone ↦ rw gone (
        ap used_in (
          address_at-remove_address i b.id (put_address b w.addresses) after_put
          ∙ ap (λ o. if b.id == i then none else o)
              (address_at-put_address i a b w.addresses same address))
        ∙ gone_if (a.id == i) (b.id == i) b (address_at i w.addresses) (ap (λ k. k == i) same)
            (unused b gone).0)
    | inr kept ↦ rw kept (used_of-put_address i a b w.addresses same address)
  ]

  pub release-IsDistinct : IsDistinct (release b w).addresses
  unfolding release address_delete
  release-IsDistinct = elim (Bool-cases (address_not_used b)) [
    | inl gone ↦ rw gone (remove_address-IsDistinct b.id (put_address b w.addresses) after_put)
    | inr kept ↦ rw kept after_put
  ]

  pub release-total :
      w.total_addresses ≡ length w.addresses
      → (release b w).total_addresses ≡ length (release b w).addresses
  unfolding release address_delete
  release-total h =
      let there : address_at b.id (put_address b w.addresses) ≡ some b =
        let it : (a.id == b.id) ≡ true = ground (arith, same) in
        address_at-put_address b.id a b w.addresses same address ∙ rw it refl in
      elim (Bool-cases (address_not_used b)) [
        | inl gone ↦ rw gone (
            omega (
              arith,
              h,
              length-put_address b w.addresses,
              length-remove_address b.id b (put_address b w.addresses) there,
            ))
        | inr kept ↦ rw kept (h ∙ sym (length-put_address b w.addresses))
      ]

  pub release-farms : (release b w).farms ≡ w.farms
  unfolding release address_delete
  release-farms = elim (Bool-cases (address_not_used b)) [
    | inl gone ↦ rw gone refl
    | inr kept ↦ rw kept refl
  ]
