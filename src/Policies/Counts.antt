-- ===== src/Policies/Counts.antt =====
-- The counts of links of policies, farms and addresses, through the operations of src/farmpolicy.c and
-- src/addresspolicy.c.
use nftlb.Prelude.{
  ℕ, ◌+◌, ◌≤◌, ◌≡◌, refl, ap, sym, subst, ◌∙◌, List, some, length, All, All-put_node, node_at,
  node_at-id, put_node, sum-put_node, occurrences, one_at, arith, Option-cases, inl, inr,
}
use nftlb.Enums.{Action}
use nftlb.Model.{Farm, Address, Policy}
use nftlb.Policies.Store.{Store, farm_id, address_id, policy_id}
use nftlb.Policies.Links.{unuse_policy, unused_at, store_policy_action}
use nftlb.Policies.Sums.{farm_uses, address_uses, links_to, used_of, used_of-store_policy_action}

abbrev pub CountsLinks : Farm → Type 0
CountsLinks f = f.policies_used ≡ length f.policies

abbrev pub CountsAddressLinks : Address → Type 0
CountsAddressLinks a = a.policies_used ≡ length a.policies

-- Each policy counts the links to it, each farm and each address its links, and no two policies have
-- the same node.
pub record IsCounted (s : Store) : Type 0 where
  pub used : (i : ℕ) → used_of i s.policies ≡ links_to i s
  pub farms : All CountsLinks s.farms
  pub addresses : All CountsAddressLinks s.addresses
  pub distinct : (i : ℕ) → occurrences policy_id i s.policies ≤ 1

-- What an assignment to a farm of the list, with one to the policies, must keep.
pub put_farm-IsCounted :
    (f g : Farm) (l : List Policy) (s : Store)
    → node_at farm_id f.id s.farms ≡ some f
    → g.id ≡ f.id
    → CountsLinks g
    → ((i : ℕ) → used_of i l + farm_uses i f ≡ used_of i s.policies + farm_uses i g)
    → ((i : ℕ) → occurrences policy_id i l ≡ occurrences policy_id i s.policies)
    → IsCounted s
    → IsCounted (record s { farms = put_node farm_id g s.farms; policies = l })
put_farm-IsCounted f g l s farm same links used nodes counted = record {
  used = λ i.
      omega
        (arith, used i, counted.used i, sum-put_node farm_id (farm_uses i) f g s.farms same farm);
  farms = All-put_node farm_id CountsLinks g s.farms links counted.farms;
  addresses = counted.addresses;
  distinct = λ i. omega (arith, nodes i, counted.distinct i);
}

pub put_address-IsCounted :
    (a b : Address) (l : List Policy) (s : Store)
    → node_at address_id a.id s.addresses ≡ some a
    → b.id ≡ a.id
    → CountsAddressLinks b
    → ((i : ℕ) → used_of i l + address_uses i a ≡ used_of i s.policies + address_uses i b)
    → ((i : ℕ) → occurrences policy_id i l ≡ occurrences policy_id i s.policies)
    → IsCounted s
    → IsCounted (record s { addresses = put_node address_id b s.addresses; policies = l })
put_address-IsCounted a b l s address same links used nodes counted = record {
  used = λ i. omega (
    arith,
    used i,
    counted.used i,
    sum-put_node address_id (address_uses i) a b s.addresses same address,
  );
  farms = counted.farms;
  addresses = All-put_node address_id CountsAddressLinks b s.addresses links counted.addresses;
  distinct = λ i. omega (arith, nodes i, counted.distinct i);
}

-- An assignment to a policy leaves the nodes of the list.
pub occurrences_put :
    (p q : Policy) (l : List Policy)
    → q.id ≡ p.id
    → node_at policy_id p.id l ≡ some p
    → (i : ℕ) → occurrences policy_id i (put_node policy_id q l) ≡ occurrences policy_id i l
occurrences_put p q l same there i =
    let one = ap (λ k. one_at k i) same in
    omega (arith, one, sum-put_node policy_id (λ (x : Policy). one_at x.id i) p q l same there)

pub occurrences_unused :
    (j : ℕ) (l : List Policy) (i : ℕ)
    → occurrences policy_id i (unused_at (node_at policy_id j l) l) ≡ occurrences policy_id i l
unfolding unused_at unuse_policy
occurrences_unused j l i = elim (Option-cases (node_at policy_id j l)) [
  | inl gone ↦ rw gone refl
  | inr (p, found) ↦
      let id = node_at-id policy_id j p l found in
      let there = subst (λ k. node_at policy_id k l ≡ some p) (sym id) found in
      rw found (occurrences_put p (unuse_policy p) l refl there i)
]

pub occurrences_stored :
    (action : Action) (j : ℕ) (l : List Policy) (i : ℕ)
    → occurrences policy_id i (store_policy_action action (node_at policy_id j l) l)
      ≡ occurrences policy_id i l
unfolding store_policy_action
occurrences_stored action j l i = elim (Option-cases (node_at policy_id j l)) [
  | inl gone ↦ rw gone refl
  | inr (p, found) ↦
      let id = node_at-id policy_id j p l found in
      let there = subst (λ k. node_at policy_id k l ≡ some p) (sym id) found in
      rw found (occurrences_put p (record p { action = action }) l refl there i)
]

-- An assignment of the action to the policy that a pointer leads to.
pub store_policy_action-IsCounted :
    (action : Action) (j : ℕ) (s : Store)
    → IsCounted s
    → IsCounted (record s {
      policies = store_policy_action action (node_at policy_id j s.policies) s.policies;
    })
store_policy_action-IsCounted action j s counted = record {
  used = λ i. used_of-store_policy_action action i j s.policies ∙ counted.used i;
  farms = counted.farms;
  addresses = counted.addresses;
  distinct = λ i. omega (arith, occurrences_stored action j s.policies i, counted.distinct i);
}
