-- ===== src/Policies/Naming.antt =====
-- The setters of the links, which make a link to the policy of a name, keep the counts of links.
use nftlb.Prelude.{
  ℕ, ◌≡◌, refl, subst, sym, Option, none, some, String, node_at, node_at-id, Option-cases, inl, inr,
}
use nftlb.Enums.{Key}
use nftlb.Model.{Farm, Address, Policy, FarmPolicy, AddressPolicy}
use nftlb.Policies.Store.{Store, farm_id, address_id, policy_id, policy_lookup_by_name}
use nftlb.Policies.Actions.{pointed_node, farmpolicy_lookup_by_name, addresspolicy_lookup_by_name}
use nftlb.Policies.Counts.{IsCounted}
use nftlb.Policies.FarmLinks.{farmpolicy_create-IsCounted}
use nftlb.Policies.AddressLinks.{addresspolicy_create-IsCounted}
use nftlb.Policies.Attributes.{
  named_policy, name_farm_link, farmpolicy_set_attribute, name_address_link,
  addresspolicy_set_attribute,
}

named_policy-there :
    (name : String) (s : Store) (p : Policy)
    → named_policy name s ≡ some p
    → node_at policy_id p.id s.policies ≡ some p
unfolding named_policy
named_policy-there name s p h =
    pointed_node policy_id (policy_lookup_by_name name s.policies) p s.policies h

name_farm_link-IsCounted :
    (id : ℕ) (current : Option ℕ) (f : Farm) (link : Option FarmPolicy) (policy : Option Policy)
    (s : Store)
    → node_at farm_id f.id s.farms ≡ some f
    → ((p : Policy) → policy ≡ some p → node_at policy_id p.id s.policies ≡ some p)
    → IsCounted s
    → IsCounted (name_farm_link id current f link policy s).store
unfolding name_farm_link
name_farm_link-IsCounted id current f link none s farm there counted = counted
name_farm_link-IsCounted id current f (some fp) (some p) s farm there counted = counted
name_farm_link-IsCounted id current f none (some p) s farm there counted =
    farmpolicy_create-IsCounted id f p s farm (there p refl) counted

name_address_link-IsCounted :
    (id : ℕ) (current : Option ℕ) (a : Address) (link : Option AddressPolicy)
    (policy : Option Policy) (s : Store)
    → node_at address_id a.id s.addresses ≡ some a
    → ((p : Policy) → policy ≡ some p → node_at policy_id p.id s.policies ≡ some p)
    → IsCounted s
    → IsCounted (name_address_link id current a link policy s).store
unfolding name_address_link
name_address_link-IsCounted id current a link none s address there counted = counted
name_address_link-IsCounted id current a (some ap) (some p) s address there counted = counted
name_address_link-IsCounted id current a none (some p) s address there counted =
    addresspolicy_create-IsCounted id a p s address (there p refl) counted

pub name_farm-IsCounted :
    (id : ℕ) (current : Option ℕ) (i : ℕ) (name : String) (s : Store)
    → IsCounted s
    → IsCounted
        (farmpolicy_set_attribute id current
          (node_at farm_id i s.farms)
          (some Key.name)
          name
          s).store
unfolding farmpolicy_set_attribute
name_farm-IsCounted id current i name s counted = elim (Option-cases (node_at farm_id i s.farms)) [
  | inl gone ↦ rw gone counted
  | inr (f, found) ↦ rw found (
      name_farm_link-IsCounted id current f (farmpolicy_lookup_by_name name s.policies f)
        (named_policy name s) s
        (subst (λ k. node_at farm_id k s.farms ≡ some f)
          (sym (node_at-id farm_id i f s.farms found)) found)
        (named_policy-there name s) counted)
]

pub name_address-IsCounted :
    (id : ℕ) (current : Option ℕ) (i : ℕ) (name : String) (s : Store)
    → IsCounted s
    → IsCounted
        (addresspolicy_set_attribute id current
          (node_at address_id i s.addresses)
          (some Key.name)
          name
          s).store
unfolding addresspolicy_set_attribute
name_address-IsCounted id current i name s counted =
    elim (Option-cases (node_at address_id i s.addresses)) [
      | inl gone ↦ rw gone counted
      | inr (a, found) ↦ rw found (
          name_address_link-IsCounted id current a (addresspolicy_lookup_by_name name s.policies a)
            (named_policy name s) s
            (subst (λ k. node_at address_id k s.addresses ≡ some a)
              (sym (node_at-id address_id i a s.addresses found)) found)
            (named_policy-there name s) counted)
    ]
