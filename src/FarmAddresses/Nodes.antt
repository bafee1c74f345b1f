-- ===== src/FarmAddresses/Nodes.antt =====
-- Counting the links to an address, for src/farmaddress.c.
use nftlb.Prelude.{
  ℕ, ◌+◌, ◌≤◌, ◌≡◌, refl, ◌∙◌, Bool, true, false, List, [], ◌∷◌, Option, none, some, arith, subst,
  length, count, find?, ◌==◌, if◌then◌else◌, Bool-cases, inl, inr,
}
use nftlb.Model.{Farm, Address, FarmAddress}
use nftlb.FarmAddresses.Links.{
  put_farm, put_address, remove_address, remove_link, farm_at, address_at,
}

-- The links to the address in a list of links, and in all farms.
abbrev pub links_in : ℕ → List FarmAddress → ℕ
links_in i = count (λ fa. fa.address == i)

abbrev pub links_to : ℕ → List Farm → ℕ
links_to i [] = 0
links_to i (f ∷ fs) = links_in i f.addresses + links_to i fs

abbrev pub used_in : Option Address → ℕ
used_in none = 0
used_in (some a) = a.used

-- The count that the address keeps; 0 where there is no such address.
abbrev pub used_of : ℕ → List Address → ℕ
used_of i l = used_in (address_at i l)

-- No two addresses have the same node.
abbrev pub IsDistinct : List Address → Type 0
IsDistinct [] = Unit
IsDistinct (a ∷ l) = (address_at a.id l ≡ none) × IsDistinct l

module _ {A : Type 0} where
  if_twice : (q : Bool) (x y z : A) → (if q then x else z) ≡ (if q then x else if q then y else z)
  if_twice true x y z = refl
  if_twice false x y z = refl

  if_swap :
      (p q : Bool) (x y z : A)
      → (p ≡ true → q ≡ false)
      → (if p then x else if q then y else z) ≡ (if q then y else if p then x else z)
  if_swap true q x y z h = rw (h refl) refl
  if_swap false q x y z h = refl

if_gone :
    {A : Type 0} (q : Bool) (x o : Option A)
    → (q ≡ true → o ≡ none)
    → o ≡ (if q then none else if q then x else o)
if_gone true x o h = h refl
if_gone false x o h = refl

pub links_to-put_farm :
    (i : ℕ) (f g : Farm) (fs : List Farm)
    → g.id ≡ f.id
    → farm_at f.id fs ≡ some f
    → links_to i (put_farm g fs) + links_in i f.addresses ≡ links_to i fs + links_in i g.addresses
unfolding put_farm
links_to-put_farm i f g [] same h = cc
links_to-put_farm i f g (x ∷ xs) same h = elim (Bool-cases (x.id == f.id)) [
  | inl here ↦
      let found : (x.id == g.id) ≡ true = rw same here in
      let it : x ≡ f = ground arith in rw (found, it) (omega arith)
  | inr further ↦
      let not_found : (x.id == g.id) ≡ false = rw same further in
      rw not_found (omega (arith, links_to-put_farm i f g xs same (rw further at h)))
]

pub farm_at-put_farm :
    (f g : Farm) (fs : List Farm)
    → g.id ≡ f.id
    → farm_at f.id fs ≡ some f
    → farm_at f.id (put_farm g fs) ≡ some g
unfolding put_farm
farm_at-put_farm f g [] same h = cc
farm_at-put_farm f g (x ∷ xs) same h = elim (Bool-cases (x.id == f.id)) [
  | inl here ↦
      let found : (x.id == g.id) ≡ true = rw same here in
      let still : (g.id == f.id) ≡ true = ground (arith, same) in rw (found, still) refl
  | inr further ↦
      let not_found : (x.id == g.id) ≡ false = rw same further in
      rw (not_found, further) (farm_at-put_farm f g xs same (rw further at h))
]

-- An address after a put, and after a removal.
pub address_at-put_address :
    (i : ℕ) (a b : Address) (l : List Address)
    → b.id ≡ a.id
    → address_at a.id l ≡ some a
    → address_at i (put_address b l) ≡ (if a.id == i then some b else address_at i l)
unfolding put_address
address_at-put_address i a b [] same h = cc
address_at-put_address i a b (x ∷ xs) same h = elim (Bool-cases (x.id == a.id)) [
  | inl here ↦
      let found : (x.id == b.id) ≡ true = rw same here in
      let it : (x.id == i) ≡ (a.id == i) = ground (arith, here) in
      let b_it : (b.id == i) ≡ (a.id == i) = rw same refl in
      rw (found, it, b_it) (if_twice (a.id == i) (some b) (some x) (address_at i xs))
  | inr further ↦
      let not_found : (x.id == b.id) ≡ false = rw same further in
      rw (not_found, address_at-put_address i a b xs same (rw further at h))
        (if_swap (x.id == i) (a.id == i) (some x) (some b) (address_at i xs)
          (λ e. ground (arith, e, further)))
]

pub address_at-remove_address :
    (i j : ℕ) (l : List Address)
    → IsDistinct l
    → address_at i (remove_address j l) ≡ (if j == i then none else address_at i l)
unfolding remove_address
address_at-remove_address i j [] d = ground arith
address_at-remove_address i j (x ∷ xs) d = elim (Bool-cases (x.id == j)) [
  | inl here ↦
      let it : (x.id == i) ≡ (j == i) = ground (arith, here) in
      rw (here, it)
        (if_gone (j == i) (some x) (address_at i xs)
          (λ e. subst (λ k. address_at k xs ≡ none) (ground (arith, here, e)) d.0))
  | inr further ↦
      rw (further, address_at-remove_address i j xs d.1)
        (if_swap (x.id == i) (j == i) (some x) none (address_at i xs)
          (λ e. ground (arith, e, further)))
]

pub put_address-IsDistinct :
    (a b : Address) (l : List Address)
    → b.id ≡ a.id
    → address_at a.id l ≡ some a
    → IsDistinct l
    → IsDistinct (put_address b l)
unfolding put_address
put_address-IsDistinct a b [] same h d = cc
put_address-IsDistinct a b (x ∷ xs) same h d = elim (Bool-cases (x.id == a.id)) [
  | inl here ↦
      let found : (x.id == b.id) ≡ true = rw same here in
      let it : x.id ≡ b.id = ground (arith, found) in
      rw found (subst (λ k. address_at k xs ≡ none) it d.0, d.1)
  | inr further ↦
      let not_found : (x.id == b.id) ≡ false = rw same further in
      let not_it : (a.id == x.id) ≡ false = ground (arith, further) in
      let rest = rw further at h in
      rw not_found (
        address_at-put_address x.id a b xs same rest ∙ rw not_it d.0,
        put_address-IsDistinct a b xs same rest d.1,
      )
]

pub remove_address-IsDistinct :
    (j : ℕ) (l : List Address) → IsDistinct l → IsDistinct (remove_address j l)
unfolding remove_address
remove_address-IsDistinct j [] d = tt
remove_address-IsDistinct j (x ∷ xs) d = elim (Bool-cases (x.id == j)) [
  | inl here ↦ rw here d.1
  | inr further ↦
      let not_it : (j == x.id) ≡ false = ground (arith, further) in
      rw further (
        address_at-remove_address x.id j xs d.1 ∙ rw not_it d.0,
        remove_address-IsDistinct j xs d.1,
      )
]

pub length-put_address : (b : Address) (l : List Address) → length (put_address b l) ≡ length l
unfolding put_address
length-put_address b [] = refl
length-put_address b (x ∷ xs) = ground (arith, length-put_address b xs)

pub length-remove_address :
    (j : ℕ) (a : Address) (l : List Address)
    → address_at j l ≡ some a
    → length (remove_address j l) + 1 ≡ length l
unfolding remove_address
length-remove_address j a [] h = cc
length-remove_address j a (x ∷ xs) h = elim (Bool-cases (x.id == j)) [
  | inl here ↦ rw here (omega arith)
  | inr further ↦ rw further (omega (arith, length-remove_address j a xs (rw further at h)))
]

pub links_in-remove_link :
    (i : ℕ) (fa : FarmAddress) (l : List FarmAddress)
    → find? (λ x. x.id == fa.id) l ≡ some fa
    → links_in i (remove_link fa.id l) + (if fa.address == i then 1 else 0) ≡ links_in i l
unfolding remove_link
links_in-remove_link i fa [] h = cc
links_in-remove_link i fa (x ∷ xs) h = elim (Bool-cases (x.id == fa.id)) [
  | inl here ↦ let it : x ≡ fa = ground arith in rw (here, it) (omega arith)
  | inr further ↦ rw further (omega (arith, links_in-remove_link i fa xs (rw further at h)))
]

-- A link of a farm is counted.
pub links_to-farm_at :
    (i : ℕ) (f : Farm) (j : ℕ) (fs : List Farm)
    → farm_at j fs ≡ some f
    → links_in i f.addresses ≤ links_to i fs
links_to-farm_at i f j [] h = cc
links_to-farm_at i f j (x ∷ xs) h = elim (Bool-cases (x.id == j)) [
  | inl here ↦ let it : x ≡ f = ground arith in rw it (omega arith)
  | inr further ↦ omega (arith, links_to-farm_at i f j xs (rw further at h))
]

pub address_at-id : (i : ℕ) (a : Address) (l : List Address) → address_at i l ≡ some a → a.id ≡ i
address_at-id i a [] h = cc
address_at-id i a (x ∷ xs) h = elim (Bool-cases (x.id == i)) [
  | inl here ↦ let it : x ≡ a = ground arith in rw⁻¹ it (ground (arith, here))
  | inr further ↦ address_at-id i a xs (rw further at h)
]
