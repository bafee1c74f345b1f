-- ===== src/Policies/FarmLinks.antt =====
-- The operations of src/farmpolicy.c keep the counts of links.
use nftlb.Prelude.{
  ℕ, ◌+◌, ◌≤◌, ◌≡◌, refl, ap, sym, subst, ◌∙◌, List, [], ◌∷◌, some, ltb, ◌==◌, if◌then◌else◌, sum,
  sum-append, length, length-append, All-node_at, node_at, node_at-id, put_node, sum-put_node,
  sum-remove_node, length-put_node, length-remove_node, one_at, node_at-le-sum, arith, Bool-cases,
  Option-cases, inl, inr,
}
use nftlb.Enums.{Action, action_value, is_action}
use nftlb.Model.{Farm, FarmAddress, Policy, FarmPolicy}
use nftlb.FarmAddresses.Actions.{change_farm}
use nftlb.Policies.Store.{Store, farm_id, policy_id}
use nftlb.Policies.Links.{
  farm_link_id, use_policy, unused_at, link_farm_policy, farmpolicy_create, unlink_farm_policy,
  farmpolicy_delete, reload_addresses, reload_at, act_on_farm_policy, farmpolicy_act,
  store_policy_action, farmpolicy_set_action, on_farm_link, for_farm_links, with_policies_action,
  farmpolicy_s_set_action, farmpolicy_s_delete,
}
use nftlb.Policies.Sums.{
  farm_uses, used_of, used_of-use_policy, used_of-unused_at, used_of-store_policy_action,
}
use nftlb.Policies.Counts.{
  IsCounted, CountsLinks, put_farm-IsCounted, occurrences_put, occurrences_unused,
  occurrences_stored,
}

pub farmpolicy_create-IsCounted :
    (id : ℕ) (f : Farm) (p : Policy) (s : Store)
    → node_at farm_id f.id s.farms ≡ some f
    → node_at policy_id p.id s.policies ≡ some p
    → IsCounted s
    → IsCounted (farmpolicy_create id f p s)
unfolding farmpolicy_create link_farm_policy use_policy
farmpolicy_create-IsCounted id f p s farm policy counted =
    let fp : FarmPolicy = record { id = id; policy = p.id; action = Action.start } in
    put_farm-IsCounted f (link_farm_policy fp f) (put_node policy_id (use_policy p) s.policies) s
      farm refl
      (omega (
        arith,
        All-node_at farm_id CountsLinks f.id f s.farms farm counted.farms,
        length-append f.policies (fp ∷ []),
      ))
      (λ i. omega (
        arith,
        used_of-use_policy i p s.policies policy,
        sum-append (λ (x : FarmPolicy). if x.policy == i then 1 else 0) f.policies (fp ∷ []),
      ))
      (occurrences_put p (use_policy p) s.policies refl policy) counted

pub farmpolicy_delete-IsCounted :
    (f : Farm) (fp : FarmPolicy) (s : Store)
    → node_at farm_id f.id s.farms ≡ some f
    → node_at farm_link_id fp.id f.policies ≡ some fp
    → IsCounted s
    → IsCounted (farmpolicy_delete f fp s)
unfolding farmpolicy_delete unlink_farm_policy
farmpolicy_delete-IsCounted f fp s farm link counted =
    let links = All-node_at farm_id CountsLinks f.id f s.farms farm counted.farms in
    let fewer = length-remove_node farm_link_id fp.id fp f.policies link in
    put_farm-IsCounted f (unlink_farm_policy fp.id f)
      (unused_at (node_at policy_id fp.policy s.policies) s.policies) s farm refl
      (ground (arith, links, fewer))
      (λ i.
        let gone =
          sum-remove_node farm_link_id (λ (x : FarmPolicy). one_at x.policy i) fp.id fp f.policies
            link in
        let part : farm_uses i f ≤ used_of i s.policies =
          omega (arith, counted.used i, node_at-le-sum farm_id (farm_uses i) f.id f s.farms farm) in
        omega (arith, used_of-unused_at i fp.policy s.policies, gone, part))
      (occurrences_unused fp.policy s.policies) counted

-- What a reload of the links to addresses leaves of the farm.
record Reloaded (f g : Farm) : Type 0 where
  id : g.id ≡ f.id
  policies : g.policies ≡ f.policies
  policies_used : g.policies_used ≡ f.policies_used

reload_addresses-Reloaded : (f : Farm) (l : List FarmAddress) → Reloaded f (reload_addresses f l)
unfolding reload_addresses change_farm
reload_addresses-Reloaded f [] = record { id = refl; policies = refl; policies_used = refl }
reload_addresses-Reloaded f (fa ∷ fas) =
    elim (Bool-cases (ltb (action_value Action.reload) (action_value fa.action))) [
      | inl acts ↦
          let next = reload_addresses-Reloaded (change_farm f fa Action.reload) fas in
          rw acts
            (record { id = next.id; policies = next.policies; policies_used = next.policies_used })
      | inr stays ↦ rw stays (reload_addresses-Reloaded f fas)
    ]

pub reload_at-IsCounted :
    (i : ℕ) (s : Store) → IsCounted s → IsCounted (reload_at (node_at farm_id i s.farms) s)
unfolding reload_at
reload_at-IsCounted i s counted = elim (Option-cases (node_at farm_id i s.farms)) [
  | inl gone ↦ rw gone counted
  | inr (f, found) ↦
      let same = node_at-id farm_id i f s.farms found in
      let there = subst (λ k. node_at farm_id k s.farms ≡ some f) (sym same) found in
      let g = reload_addresses f f.addresses in
      let like = reload_addresses-Reloaded f f.addresses in
      let links = All-node_at farm_id CountsLinks i f s.farms found counted.farms in
      rw found (
        put_farm-IsCounted f g s.policies s there like.id
          (like.policies_used ∙ links ∙ ap length (sym like.policies))
          (λ i.
            ap
              (λ l.
                used_of i s.policies + sum (λ (fp : FarmPolicy). if fp.policy == i then 1 else 0) l)
              (sym like.policies))
          (λ i. refl) counted)
]

pub farmpolicy_act-IsCounted :
    (f : Farm) (fp : FarmPolicy) (action : Action) (s : Store)
    → node_at farm_id f.id s.farms ≡ some f
    → node_at farm_link_id fp.id f.policies ≡ some fp
    → IsCounted s
    → IsCounted (farmpolicy_act f fp action s)
unfolding farmpolicy_act act_on_farm_policy
farmpolicy_act-IsCounted f fp action s farm link counted =
    let links = All-node_at farm_id CountsLinks f.id f s.farms farm counted.farms in
    let fq = record fp { action = action } in
    put_farm-IsCounted f (act_on_farm_policy action fp f)
      (store_policy_action Action.reload (node_at policy_id fp.policy s.policies) s.policies) s farm
      refl (links ∙ sym (length-put_node farm_link_id fq f.policies))
      (λ i. omega (
        arith,
        used_of-store_policy_action Action.reload i fp.policy s.policies,
        sum-put_node farm_link_id (λ (x : FarmPolicy). one_at x.policy i) fp fq f.policies refl
            link,
      ))
      (occurrences_stored Action.reload fp.policy s.policies) counted

pub farmpolicy_set_action-IsCounted :
    (f : Farm) (fp : FarmPolicy) (action : Action) (s : Store)
    → node_at farm_id f.id s.farms ≡ some f
    → node_at farm_link_id fp.id f.policies ≡ some fp
    → IsCounted s
    → IsCounted (farmpolicy_set_action f fp action s).0
unfolding farmpolicy_set_action
farmpolicy_set_action-IsCounted f fp action s farm link counted =
    elim (Bool-cases (is_action action Action.delete)) [
      | inl deletes ↦ rw deletes (
          reload_at-IsCounted f.id (farmpolicy_delete f fp s)
            (farmpolicy_delete-IsCounted f fp s farm link counted))
      | inr stays ↦ elim (Bool-cases (ltb (action_value action) (action_value fp.action))) [
        | inl acts ↦
            rw (stays, acts)
              (reload_at-IsCounted f.id (farmpolicy_act f fp action s)
                (farmpolicy_act-IsCounted f fp action s farm link counted))
        | inr same ↦ rw (stays, same) counted
      ]
    ]

module _ (body : Farm → FarmPolicy → Store → Store)
    (keeps : (f : Farm) (fp : FarmPolicy) (s : Store)
      → node_at farm_id f.id s.farms ≡ some f
      → node_at farm_link_id fp.id f.policies ≡ some fp
      → IsCounted s
      → IsCounted (body f fp s)) where
  on_farm_link-IsCounted :
      (i j : ℕ) (s : Store)
      → IsCounted s
      → IsCounted (on_farm_link body j (node_at farm_id i s.farms) s)
  unfolding on_farm_link
  on_farm_link-IsCounted i j s counted = elim (Option-cases (node_at farm_id i s.farms)) [
    | inl gone ↦ rw gone counted
    | inr (f, found) ↦
        let farm =
          subst (λ k. node_at farm_id k s.farms ≡ some f)
            (sym (node_at-id farm_id i f s.farms found)) found in
        elim (Option-cases (node_at farm_link_id j f.policies)) [
          | inl no_link ↦ rw (found, on_farm_link, no_link) counted
          | inr (fp, here) ↦
              let link =
                subst (λ k. node_at farm_link_id k f.policies ≡ some fp)
                  (sym (node_at-id farm_link_id j fp f.policies here)) here in
              rw (found, on_farm_link, here) (keeps f fp s farm link counted)
        ]
  ]

  for_farm_links-IsCounted :
      (i : ℕ) (l : List FarmPolicy) (s : Store)
      → IsCounted s
      → IsCounted (for_farm_links body i l s)
  unfolding for_farm_links
  for_farm_links-IsCounted i [] s counted = counted
  for_farm_links-IsCounted i (fp ∷ fps) s counted =
      for_farm_links-IsCounted i fps _ (on_farm_link-IsCounted i fp.id s counted)

with_policies_action-IsCounted :
    (action : Action) (i : ℕ) (s : Store)
    → IsCounted s
    → IsCounted (with_policies_action action (node_at farm_id i s.farms) s)
unfolding with_policies_action
with_policies_action-IsCounted action i s counted =
    elim (Option-cases (node_at farm_id i s.farms)) [
      | inl gone ↦ rw gone counted
      | inr (f, found) ↦
          let farm =
            subst (λ k. node_at farm_id k s.farms ≡ some f)
              (sym (node_at-id farm_id i f s.farms found)) found in
          rw found (
            put_farm-IsCounted f (record f { policies_action = action }) s.policies s farm refl
              (All-node_at farm_id CountsLinks i f s.farms found counted.farms) (λ j. refl)
              (λ j. refl) counted)
    ]

pub farmpolicy_s_set_action-IsCounted :
    (f : Farm) (action : Action) (s : Store)
    → IsCounted s
    → IsCounted (farmpolicy_s_set_action f action s)
unfolding farmpolicy_s_set_action
farmpolicy_s_set_action-IsCounted f action s counted =
    with_policies_action-IsCounted action f.id _ (
      for_farm_links-IsCounted (λ g fp t. (farmpolicy_set_action g fp action t).0)
        (λ g fp t. farmpolicy_set_action-IsCounted g fp action t) f.id f.policies s counted)

pub farmpolicy_s_delete-IsCounted :
    (f : Farm) (s : Store) → IsCounted s → IsCounted (farmpolicy_s_delete f s)
unfolding farmpolicy_s_delete
farmpolicy_s_delete-IsCounted f s counted =
    for_farm_links-IsCounted farmpolicy_delete farmpolicy_delete-IsCounted f.id f.policies s counted
