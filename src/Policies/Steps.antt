-- ===== src/Policies/Steps.antt =====
-- Sequences of the operations of src/policies.c, src/farmpolicy.c and src/addresspolicy.c that make,
-- delete and change policies and the links to them.
use nftlb.Prelude.{
  Option, ℕ, ◌+◌, ◌≡◌, refl, ap, sym, subst, ◌∙◌, String, [], ◌∷◌, none, some, ◌==◌, sum-append,
  node_at, node_at_absent, absent_occurrences, remove_node, node_at-remove_node, sum-remove_node,
  occurrences, one_at, arith, Bool-cases, inl, inr,
}
use nftlb.Policies.Attributes.{farmpolicy_set_attribute, addresspolicy_set_attribute}
use nftlb.Policies.Naming.{name_farm-IsCounted, name_address-IsCounted}
use nftlb.Enums.{Key, Action}
use nftlb.Model.{Farm, Address, Policy, FarmPolicy, AddressPolicy}
use nftlb.Policies.Store.{
  Store, farm_id, address_id, policy_id, policy_create, policy_delete, new_policy,
}
use nftlb.Policies.Links.{
  farm_link_id, address_link_id, farmpolicy_create, farmpolicy_set_action, farmpolicy_s_set_action,
  farmpolicy_s_delete, addresspolicy_create, addresspolicy_set_action, addresspolicy_s_set_action,
  addresspolicy_s_delete,
}
use nftlb.Policies.Sums.{used_in, used_of-new_policy, used_here}
use nftlb.Policies.Counts.{IsCounted}
use nftlb.Policies.FarmLinks.{
  farmpolicy_create-IsCounted, farmpolicy_set_action-IsCounted, farmpolicy_s_set_action-IsCounted,
  farmpolicy_s_delete-IsCounted,
}
use nftlb.Policies.AddressLinks.{
  addresspolicy_create-IsCounted, addresspolicy_set_action-IsCounted,
  addresspolicy_s_set_action-IsCounted, addresspolicy_s_delete-IsCounted,
}

-- The pointer to the farm, the address or the link that an operation is called with is one to a node.
abbrev pub HasFarmLink : Farm → FarmPolicy → Store → Type 0
HasFarmLink f fp s =
    (node_at farm_id f.id s.farms ≡ some f) × (node_at farm_link_id fp.id f.policies ≡ some fp)

abbrev pub HasAddressLink : Address → AddressPolicy → Store → Type 0
HasAddressLink a ap s =
    (node_at address_id a.id s.addresses ≡ some a)
    × (node_at address_link_id ap.id a.policies ≡ some ap)

-- One operation. A new policy has a new node, and a policy is deleted where its count is 0.
pub data Step : Store → Store → Type 0 where
  creates :
      {s : Store} (id : ℕ) (name : String)
      → node_at policy_id id s.policies ≡ none
      → Step s (policy_create id name s)
  deletes :
      {s : Store} (p : Policy)
      → node_at policy_id p.id s.policies ≡ some p
      → p.used ≡ 0
      → Step s (policy_delete p.id s)
  links_farm :
      {s : Store} (id : ℕ) (f : Farm) (p : Policy)
      → node_at farm_id f.id s.farms ≡ some f
      → node_at policy_id p.id s.policies ≡ some p
      → Step s (farmpolicy_create id f p s)
  names_farm :
      {s : Store} (id : ℕ) (current : Option ℕ) (i : ℕ) (name : String)
      → Step s
          (farmpolicy_set_attribute id current
            (node_at farm_id i s.farms)
            (some Key.name)
            name
            s).store
  names_address :
      {s : Store} (id : ℕ) (current : Option ℕ) (i : ℕ) (name : String)
      → Step s
          (addresspolicy_set_attribute id current
            (node_at address_id i s.addresses)
            (some Key.name)
            name
            s).store
  acts_on_farm_link :
      {s : Store} (f : Farm) (fp : FarmPolicy) (action : Action)
      → HasFarmLink f fp s
      → Step s (farmpolicy_set_action f fp action s).0
  acts_on_farm :
      {s : Store} (f : Farm) (action : Action) → Step s (farmpolicy_s_set_action f action s)
  unlinks_farm : {s : Store} (f : Farm) → Step s (farmpolicy_s_delete f s)
  links_address :
      {s : Store} (id : ℕ) (a : Address) (p : Policy)
      → node_at address_id a.id s.addresses ≡ some a
      → node_at policy_id p.id s.policies ≡ some p
      → Step s (addresspolicy_create id a p s)
  acts_on_address_link :
      {s : Store} (a : Address) (ap : AddressPolicy) (action : Action)
      → HasAddressLink a ap s
      → Step s (addresspolicy_set_action a ap action s).0
  acts_on_address :
      {s : Store} (a : Address) (action : Action) → Step s (addresspolicy_s_set_action a action s)
  unlinks_address : {s : Store} (a : Address) → Step s (addresspolicy_s_delete a s)

pub data Steps : Store → Store → Type 0 where
  done : {s : Store} → Steps s s
  next : {s t u : Store} → Step s t → Steps t u → Steps s u

policy_create-IsCounted :
    (id : ℕ) (name : String) (s : Store)
    → node_at policy_id id s.policies ≡ none
    → IsCounted s
    → IsCounted (policy_create id name s)
unfolding policy_create new_policy
policy_create-IsCounted id name s fresh counted = record {
  used = λ i. used_of-new_policy i id name s.policies ∙ counted.used i;
  farms = counted.farms;
  addresses = counted.addresses;
  distinct = λ i.
      let more = sum-append (λ (x : Policy). one_at x.id i) s.policies (new_policy id name ∷ []) in
      elim (Bool-cases (id == i)) [
        | inl here ↦
            let same : id ≡ i = ground (arith, here) in
            let one : one_at id i ≡ 1 = rw here refl in
            let absent =
              absent_occurrences policy_id i s.policies
                (subst (λ k. node_at policy_id k s.policies ≡ none) same fresh) in
            omega (arith, more, one, absent)
        | inr other ↦
            let zero_more : one_at id i ≡ 0 = rw other refl in
            omega (arith, more, zero_more, counted.distinct i)
      ];
}

policy_delete-IsCounted :
    (p : Policy) (s : Store)
    → node_at policy_id p.id s.policies ≡ some p
    → p.used ≡ 0
    → IsCounted s
    → IsCounted (policy_delete p.id s)
unfolding policy_delete
policy_delete-IsCounted p s policy unused counted =
    let fewer : (i : ℕ)
        → occurrences policy_id i (remove_node policy_id p.id s.policies) + one_at p.id i
          ≡ occurrences policy_id i s.policies =
      λ i. sum-remove_node policy_id (λ (x : Policy). one_at x.id i) p.id p s.policies policy in
    record {
      used = λ i. elim (Bool-cases (p.id == i)) [
        | inl here ↦
            let one : one_at p.id i ≡ 1 = rw here refl in
            let gone =
              node_at_absent policy_id i (remove_node policy_id p.id s.policies)
                (omega (arith, fewer i, counted.distinct i, one)) in
            ap used_in gone
            ∙ sym unused
            ∙ sym (used_here i p s.policies policy here)
            ∙ counted.used i
        | inr other ↦
            ap used_in (node_at-remove_node policy_id i p.id s.policies other) ∙ counted.used i
      ];
      farms = counted.farms;
      addresses = counted.addresses;
      distinct = λ i. omega (arith, fewer i, counted.distinct i);
    }

Step-IsCounted : {s t : Store} → Step s t → IsCounted s → IsCounted t
Step-IsCounted (Step.creates id name fresh) counted =
    policy_create-IsCounted id name _ fresh counted
Step-IsCounted (Step.deletes p policy unused) counted =
    policy_delete-IsCounted p _ policy unused counted
Step-IsCounted (Step.links_farm id f p farm policy) counted =
    farmpolicy_create-IsCounted id f p _ farm policy counted
Step-IsCounted (Step.names_farm id current i name) counted =
    name_farm-IsCounted id current i name _ counted
Step-IsCounted (Step.names_address id current i name) counted =
    name_address-IsCounted id current i name _ counted
Step-IsCounted (Step.acts_on_farm_link f fp action (farm, link)) counted =
    farmpolicy_set_action-IsCounted f fp action _ farm link counted
Step-IsCounted (Step.acts_on_farm f action) counted =
    farmpolicy_s_set_action-IsCounted f action _ counted
Step-IsCounted (Step.unlinks_farm f) counted = farmpolicy_s_delete-IsCounted f _ counted
Step-IsCounted (Step.links_address id a p address policy) counted =
    addresspolicy_create-IsCounted id a p _ address policy counted
Step-IsCounted (Step.acts_on_address_link a ap action (address, link)) counted =
    addresspolicy_set_action-IsCounted a ap action _ address link counted
Step-IsCounted (Step.acts_on_address a action) counted =
    addresspolicy_s_set_action-IsCounted a action _ counted
Step-IsCounted (Step.unlinks_address a) counted = addresspolicy_s_delete-IsCounted a _ counted

-- After any sequence of the operations on policies and on the links to them, in which a policy is made
-- at a new node and deleted at a count of 0, every policy has the count of the links to it, and every
-- farm and every address the count of its links, where it was so before.
pub Steps-IsCounted : {s t : Store} → Steps s t → IsCounted s → IsCounted t
Steps-IsCounted Steps.done counted = counted
Steps-IsCounted (Steps.next step rest) counted = Steps-IsCounted rest (Step-IsCounted step counted)
