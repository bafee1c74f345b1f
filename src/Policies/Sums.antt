-- ===== src/Policies/Sums.antt =====
-- Counting the links to a policy, for src/farmpolicy.c and src/addresspolicy.c.
use nftlb.Prelude.{
  ℕ, ◌+◌, ◌-◌, ◌≡◌, refl, ap, sym, subst, ◌∙◌, true, false, List, [], ◌∷◌, ◌++◌, Option, none, some,
  String, ltb, ◌==◌, if◌then◌else◌, sum, node_at, node_at-id, node_at-put_node, put_node, arith,
  Bool-cases, Option-cases, inl, inr,
}
use nftlb.Enums.{Action}
use nftlb.Model.{Farm, Address, Policy, FarmPolicy, AddressPolicy}
use nftlb.Policies.Store.{Store, policy_id, new_policy}
use nftlb.Policies.Links.{use_policy, unuse_policy, unused_at, store_policy_action}

-- The links to the policy `i` from a farm, from an address, and from all of them.
abbrev pub farm_uses : ℕ → Farm → ℕ
farm_uses i f = sum (λ (fp : FarmPolicy). if fp.policy == i then 1 else 0) f.policies

abbrev pub address_uses : ℕ → Address → ℕ
address_uses i a = sum (λ (ap : AddressPolicy). if ap.policy == i then 1 else 0) a.policies

abbrev pub links_to : ℕ → Store → ℕ
links_to i s = sum (farm_uses i) s.farms + sum (address_uses i) s.addresses

abbrev pub used_in : Option Policy → ℕ
used_in none = 0
used_in (some p) = p.used

-- The count that the policy keeps; 0 where there is no such policy.
abbrev pub used_of : ℕ → List Policy → ℕ
used_of i l = used_in (node_at policy_id i l)

-- The count after an assignment to a policy of the list.
used_of-put_node :
    (i : ℕ) (p q : Policy) (l : List Policy)
    → q.id ≡ p.id
    → node_at policy_id p.id l ≡ some p
    → used_of i (put_node policy_id q l) ≡ (if p.id == i then q.used else used_of i l)
used_of-put_node i p q l same there =
    let found =
      node_at-put_node policy_id i q l
        (subst (λ k. node_at policy_id k l ≡ some p) (sym same) there) in
    elim (Bool-cases (p.id == i)) [
      | inl here ↦
          let it : (q.id == i) ≡ true = rw same here in rw here (ap used_in found ∙ rw it refl)
      | inr further ↦
          let other : (q.id == i) ≡ false = rw same further in
          rw further (ap used_in found ∙ rw other refl)
    ]

pub used_here :
    (i : ℕ) (p : Policy) (l : List Policy)
    → node_at policy_id p.id l ≡ some p
    → (p.id == i) ≡ true
    → used_of i l ≡ p.used
used_here i p l there here =
    let same : p.id ≡ i = ground (arith, here) in ap used_in (rw same at there)

pub used_of-use_policy :
    (i : ℕ) (p : Policy) (l : List Policy)
    → node_at policy_id p.id l ≡ some p
    → used_of i (put_node policy_id (use_policy p) l) ≡ used_of i l + (if p.id == i then 1 else 0)
unfolding use_policy
used_of-use_policy i p l there =
    let put = used_of-put_node i p (use_policy p) l refl there in
    elim (Bool-cases (p.id == i)) [
      | inl here ↦ rw here (omega (arith, rw here at put, used_here i p l there here))
      | inr further ↦ rw further (omega (arith, rw further at put))
    ]

pub used_of-unused_at :
    (i j : ℕ) (l : List Policy)
    → used_of i (unused_at (node_at policy_id j l) l) ≡ used_of i l - (if j == i then 1 else 0)
unfolding unuse_policy unused_at
used_of-unused_at i j l = elim (Option-cases (node_at policy_id j l)) [
  | inl gone ↦ elim (Bool-cases (j == i)) [
    | inl here ↦
        let same : j ≡ i = ground (arith, here) in
        let none_here : used_of i l ≡ 0 = ap used_in (rw same at gone) in
        rw (gone, here) (omega (arith, none_here))
    | inr further ↦ rw (gone, further) (omega arith)
  ]
  | inr (p, found) ↦
      let id = node_at-id policy_id j p l found in
      let there = subst (λ k. node_at policy_id k l ≡ some p) (sym id) found in
      let put = used_of-put_node i p (unuse_policy p) l refl there in
      rw (found, sym id)
        (elim (Bool-cases (p.id == i)) [
          | inl here ↦
              let less : (if ltb 0 p.used then p.used - 1 else p.used) ≡ p.used - 1 =
                ground arith in
              rw here (rw here at put ∙ less ∙ ap (λ n. n - 1) (sym (used_here i p l there here)))
          | inr further ↦ rw further (rw further at put ∙ omega arith)
        ])
]

pub used_of-store_policy_action :
    (action : Action) (i j : ℕ) (l : List Policy)
    → used_of i (store_policy_action action (node_at policy_id j l) l) ≡ used_of i l
unfolding store_policy_action
used_of-store_policy_action action i j l = elim (Option-cases (node_at policy_id j l)) [
  | inl gone ↦ rw gone refl
  | inr (p, found) ↦
      let id = node_at-id policy_id j p l found in
      let there = subst (λ k. node_at policy_id k l ≡ some p) (sym id) found in
      let put = used_of-put_node i p (record p { action = action }) l refl there in
      rw found (elim (Bool-cases (p.id == i)) [
        | inl here ↦ rw here at put ∙ sym (used_here i p l there here)
        | inr further ↦ rw further at put
      ])
]

pub used_of-new_policy :
    (i id : ℕ) (name : String) (l : List Policy)
    → used_of i (l ++ new_policy id name ∷ []) ≡ used_of i l
unfolding new_policy
used_of-new_policy i id name [] = ground arith
used_of-new_policy i id name (x ∷ xs) = elim (Bool-cases (x.id == i)) [
  | inl here ↦ rw here refl
  | inr further ↦ rw further (used_of-new_policy i id name xs)
]
