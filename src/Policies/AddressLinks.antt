-- ===== src/Policies/AddressLinks.antt =====
-- The operations of src/addresspolicy.c keep the counts of links.
use nftlb.Prelude.{
  ℕ, ◌≤◌, ◌≡◌, refl, ap, sym, subst, ◌∙◌, ◌||◌, List, [], ◌∷◌, some, ltb, ◌==◌, if◌then◌else◌,
  sum-append, length-append, All-node_at, node_at, node_at-id, put_node, sum-put_node,
  sum-remove_node, length-put_node, length-remove_node, one_at, node_at-le-sum, arith, Bool-cases,
  Option-cases, inl, inr,
}
use nftlb.Enums.{Action, action_value, is_action}
use nftlb.Model.{Address, Policy, AddressPolicy}
use nftlb.Policies.Store.{Store, address_id, policy_id}
use nftlb.Policies.Links.{
  address_link_id, use_policy, unused_at, link_address_policy, addresspolicy_create,
  unlink_address_policy, addresspolicy_delete, act_on_address_policy, addresspolicy_set_action,
  on_address_link, for_address_links, addresspolicy_s_set_action, addresspolicy_s_delete,
}
use nftlb.Policies.Sums.{address_uses, used_of, used_of-use_policy, used_of-unused_at}
use nftlb.Policies.Counts.{
  IsCounted, CountsAddressLinks, put_address-IsCounted, occurrences_put, occurrences_unused,
}

pub addresspolicy_create-IsCounted :
    (id : ℕ) (a : Address) (p : Policy) (s : Store)
    → node_at address_id a.id s.addresses ≡ some a
    → node_at policy_id p.id s.policies ≡ some p
    → IsCounted s
    → IsCounted (addresspolicy_create id a p s)
unfolding addresspolicy_create link_address_policy use_policy
addresspolicy_create-IsCounted id a p s address policy counted =
    let ap : AddressPolicy = record { id = id; policy = p.id; action = Action.start } in
    put_address-IsCounted a (link_address_policy ap a)
      (put_node policy_id (use_policy p) s.policies) s address refl
      (omega (
        arith,
        All-node_at address_id CountsAddressLinks a.id a s.addresses address counted.addresses,
        length-append a.policies (ap ∷ []),
      ))
      (λ i. omega (
        arith,
        used_of-use_policy i p s.policies policy,
        sum-append (λ (x : AddressPolicy). if x.policy == i then 1 else 0) a.policies (ap ∷ []),
      ))
      (occurrences_put p (use_policy p) s.policies refl policy) counted

pub addresspolicy_delete-IsCounted :
    (a : Address) (ap : AddressPolicy) (s : Store)
    → node_at address_id a.id s.addresses ≡ some a
    → node_at address_link_id ap.id a.policies ≡ some ap
    → IsCounted s
    → IsCounted (addresspolicy_delete a ap s)
unfolding addresspolicy_delete unlink_address_policy
addresspolicy_delete-IsCounted a ap s address link counted =
    let links =
      All-node_at address_id CountsAddressLinks a.id a s.addresses address counted.addresses in
    let fewer = length-remove_node address_link_id ap.id ap a.policies link in
    put_address-IsCounted a (unlink_address_policy ap.id a)
      (unused_at (node_at policy_id ap.policy s.policies) s.policies) s address refl
      (ground (arith, links, fewer))
      (λ i.
        let gone =
          sum-remove_node address_link_id (λ (x : AddressPolicy). one_at x.policy i) ap.id ap
            a.policies link in
        let part : address_uses i a ≤ used_of i s.policies = omega (
          arith,
          counted.used i,
          node_at-le-sum address_id (address_uses i) a.id a s.addresses address,
        ) in
        omega (arith, used_of-unused_at i ap.policy s.policies, gone, part))
      (occurrences_unused ap.policy s.policies) counted

pub addresspolicy_set_action-IsCounted :
    (a : Address) (ap : AddressPolicy) (action : Action) (s : Store)
    → node_at address_id a.id s.addresses ≡ some a
    → node_at address_link_id ap.id a.policies ≡ some ap
    → IsCounted s
    → IsCounted (addresspolicy_set_action a ap action s).0
unfolding addresspolicy_set_action act_on_address_policy
addresspolicy_set_action-IsCounted a ap action s address link counted =
    elim (Bool-cases (is_action action Action.delete || is_action action Action.stop)) [
      | inl deletes ↦ rw deletes (addresspolicy_delete-IsCounted a ap s address link counted)
      | inr stays ↦ elim (Bool-cases (ltb (action_value action) (action_value ap.action))) [
        | inr same ↦ rw (stays, same) counted
        | inl acts ↦
            let links =
              All-node_at address_id CountsAddressLinks a.id a s.addresses address
                counted.addresses in
            let aq = record ap { action = action } in
            rw (stays, acts)
              (put_address-IsCounted a (act_on_address_policy action ap a) s.policies s address refl
                (links ∙ sym (length-put_node address_link_id aq a.policies))
                (λ i. omega (
                  arith,
                  sum-put_node address_link_id (λ (x : AddressPolicy). one_at x.policy i) ap aq
                      a.policies refl link,
                ))
                (λ i. refl) counted)
      ]
    ]

module _ (body : Address → AddressPolicy → Store → Store)
    (keeps : (a : Address) (ap : AddressPolicy) (s : Store)
      → node_at address_id a.id s.addresses ≡ some a
      → node_at address_link_id ap.id a.policies ≡ some ap
      → IsCounted s
      → IsCounted (body a ap s)) where
  on_address_link-IsCounted :
      (i j : ℕ) (s : Store)
      → IsCounted s
      → IsCounted (on_address_link body j (node_at address_id i s.addresses) s)
  unfolding on_address_link
  on_address_link-IsCounted i j s counted = elim (Option-cases (node_at address_id i s.addresses)) [
    | inl gone ↦ rw gone counted
    | inr (a, found) ↦
        let address =
          subst (λ k. node_at address_id k s.addresses ≡ some a)
            (sym (node_at-id address_id i a s.addresses found)) found in
        elim (Option-cases (node_at address_link_id j a.policies)) [
          | inl no_link ↦ rw (found, on_address_link, no_link) counted
          | inr (ap, here) ↦
              let link =
                subst (λ k. node_at address_link_id k a.policies ≡ some ap)
                  (sym (node_at-id address_link_id j ap a.policies here)) here in
              rw (found, on_address_link, here) (keeps a ap s address link counted)
        ]
  ]

  for_address_links-IsCounted :
      (i : ℕ) (l : List AddressPolicy) (s : Store)
      → IsCounted s
      → IsCounted (for_address_links body i l s)
  unfolding for_address_links
  for_address_links-IsCounted i [] s counted = counted
  for_address_links-IsCounted i (ap ∷ aps) s counted =
      for_address_links-IsCounted i aps _ (on_address_link-IsCounted i ap.id s counted)

pub addresspolicy_s_set_action-IsCounted :
    (a : Address) (action : Action) (s : Store)
    → IsCounted s
    → IsCounted (addresspolicy_s_set_action a action s)
unfolding addresspolicy_s_set_action
addresspolicy_s_set_action-IsCounted a action s counted =
    for_address_links-IsCounted (λ b ap t. (addresspolicy_set_action b ap action t).0)
      (λ b ap t. addresspolicy_set_action-IsCounted b ap action t) a.id a.policies s counted

pub addresspolicy_s_delete-IsCounted :
    (a : Address) (s : Store) → IsCounted s → IsCounted (addresspolicy_s_delete a s)
unfolding addresspolicy_s_delete
addresspolicy_s_delete-IsCounted a s counted =
    for_address_links-IsCounted addresspolicy_delete addresspolicy_delete-IsCounted a.id a.policies
      s counted
