-- ===== src/Policies/Named.antt =====
-- The links of one farm, and of the addresses, that are found by a policy's name: what
-- farmpolicy_s_lookup_policy_action and address_s_lookup_policy_action do to them keeps the counts.
use nftlb.Prelude.{
  ℕ, ◌+◌, ◌==◌, ◌≡◌, refl, ap, sym, subst, ◌∙◌, Bool, true, false, List, [], ◌∷◌, Option, none,
  some, String, if◌then◌else◌, sum, length, All, All-node_at, node_at, node_at-id, put_node,
  Bool-cases, Option-cases, inl, inr, find?, ltb,
}
use nftlb.Enums.{Action, action_value}
use nftlb.Model.{Farm, Address, FarmPolicy, AddressPolicy}
use nftlb.States.Focus.{Focus}
use nftlb.States.Links.{SameLinks, address_part, addresses_part}
use nftlb.Policies.Store.{Store, farm_id, address_id, policy_id}
use nftlb.Policies.Links.{farm_link_id, address_link_id}
use nftlb.Policies.Sums.{farm_uses, address_uses, used_of}
use nftlb.Policies.Counts.{
  IsCounted, CountsLinks, CountsAddressLinks, put_farm-IsCounted, put_address-IsCounted,
}
use nftlb.Policies.FarmLinks.{farmpolicy_set_action-IsCounted}
use nftlb.Policies.AddressLinks.{addresspolicy_set_action-IsCounted}
use nftlb.Policies.Actions.{
  Program, focus_of, with_focus, farmpolicy_lookup_by_name, addresspolicy_lookup_by_name,
  reload_address, reload_address_at, act_on_named_address, addresspolicy_s_lookup_policy_action,
  lookup_in_addresses, act_on_named_farm, is_named, pointed_node,
}

-- What the counts read of an address is the part that the calls keep.
abbrev part_uses : ℕ → ℕ × (List AddressPolicy × ℕ) → ℕ
part_uses i part = sum (λ (ap : AddressPolicy). if ap.policy == i then 1 else 0) part.1.0

abbrev PartCounts : ℕ × (List AddressPolicy × ℕ) → Type 0
PartCounts part = part.1.1 ≡ length part.1.0

sum-part :
    (i : ℕ) (l : List Address) → sum (address_uses i) l ≡ sum (part_uses i) (addresses_part l)
sum-part i [] = refl
sum-part i (a ∷ l) = ap (λ n. address_uses i a + n) (sum-part i l)

All-part : (l : List Address) → All CountsAddressLinks l → All PartCounts (addresses_part l)
All-part [] h = tt
All-part (a ∷ l) h = (h.0, All-part l h.1)

part_All : (l : List Address) → All PartCounts (addresses_part l) → All CountsAddressLinks l
part_All [] h = tt
part_All (a ∷ l) h = (h.0, part_All l h.1)

reload_address_part : (a : Address) → address_part (reload_address a) ≡ address_part a
unfolding reload_address
reload_address_part a =
    elim (Bool-cases (ltb (action_value Action.reload) (action_value a.action))) [
      | inl acts ↦ rw acts refl
      | inr stays ↦ rw stays refl
    ]

-- A farm of the list and all addresses written back with the links that they had.
with_focus-IsCounted :
    (f : Farm) (t : Focus) (w : Program)
    → node_at farm_id f.id w.store.farms ≡ some f
    → SameLinks (focus_of f w) t
    → IsCounted w.store
    → IsCounted (with_focus (some t) w).store
unfolding with_focus focus_of
with_focus-IsCounted f t w farm same counted =
    let s = w.store in
    let farm_same = same.farm in
    let id : t.farm.id ≡ f.id = ap (λ (p : ℕ × (List FarmPolicy × ℕ)). p.0) farm_same in
    let links : t.farm.policies ≡ f.policies =
      ap (λ (p : ℕ × (List FarmPolicy × ℕ)). p.1.0) farm_same in
    let used : t.farm.policies_used ≡ f.policies_used =
      ap (λ (p : ℕ × (List FarmPolicy × ℕ)). p.1.1) farm_same in
    let put =
      put_farm-IsCounted f t.farm s.policies s farm id
        (used
          ∙ All-node_at farm_id CountsLinks f.id f s.farms farm counted.farms
          ∙ ap length (sym links))
        (λ i.
          ap
            (λ l.
              used_of i s.policies + sum (λ (fp : FarmPolicy). if fp.policy == i then 1 else 0) l)
            (sym links))
        (λ i. refl) counted in
    record {
      used = λ i.
          put.used i
          ∙ ap (λ n. sum (farm_uses i) (put_node farm_id t.farm s.farms) + n)
              (sum-part i s.addresses
                ∙ ap (sum (part_uses i)) (sym same.addresses)
                ∙ sym (sum-part i t.addresses));
      farms = put.farms;
      addresses =
          part_All t.addresses
            (subst (All PartCounts) (sym same.addresses) (All-part s.addresses counted.addresses));
      distinct = counted.distinct;
    }

-- Where a call gives a focus, it has the links of the farm and the addresses.
pub with_result-IsCounted :
    (m : Option Focus) (f : Farm) (w : Program)
    → node_at farm_id f.id w.store.farms ≡ some f
    → ((t : Focus) → m ≡ some t → SameLinks (focus_of f w) t)
    → IsCounted w.store
    → IsCounted (with_focus m w).store
unfolding with_focus
with_result-IsCounted none f w farm same counted = counted
with_result-IsCounted (some t) f w farm same counted =
    with_focus-IsCounted f t w farm (same t refl) counted

pub farm_node :
    (i : ℕ) (f : Farm) (l : List Farm)
    → node_at farm_id i l ≡ some f
    → node_at farm_id f.id l ≡ some f
farm_node i f l h = subst (λ k. node_at farm_id k l ≡ some f) (sym (node_at-id farm_id i f l h)) h

address_node :
    (i : ℕ) (a : Address) (l : List Address)
    → node_at address_id i l ≡ some a
    → node_at address_id a.id l ≡ some a
address_node i a l h =
    subst (λ k. node_at address_id k l ≡ some a) (sym (node_at-id address_id i a l h)) h

reload_address_at-IsCounted :
    (ret : Bool) (i : ℕ) (s : Store)
    → IsCounted s
    → IsCounted (reload_address_at ret (node_at address_id i s.addresses) s)
unfolding reload_address_at
reload_address_at-IsCounted false i s counted = counted
reload_address_at-IsCounted true i s counted =
    elim (Option-cases (node_at address_id i s.addresses)) [
      | inl gone ↦ rw gone counted
      | inr (a, found) ↦
          let address = address_node i a s.addresses found in
          let links =
            All-node_at address_id CountsAddressLinks i a s.addresses found counted.addresses in
          let like = reload_address_part a in
          rw found (
            put_address-IsCounted a (reload_address a) s.policies s address
              (ap (λ (p : ℕ × (List AddressPolicy × ℕ)). p.0) like)
              (ap (λ (p : ℕ × (List AddressPolicy × ℕ)). p.1.1) like
                ∙ links
                ∙ ap (λ (p : ℕ × (List AddressPolicy × ℕ)). length p.1.0) (sym like))
              (λ i. ap (λ p. used_of i s.policies + part_uses i p) (sym like)) (λ i. refl) counted)
    ]

act_on_named_address-IsCounted :
    (name : String) (a : Address) (action : Action) (s : Store)
    → node_at address_id a.id s.addresses ≡ some a
    → IsCounted s
    → IsCounted (act_on_named_address (addresspolicy_lookup_by_name name s.policies a) a action s).0
unfolding addresspolicy_lookup_by_name act_on_named_address
act_on_named_address-IsCounted name a action s address counted =
    let o =
      find? (λ (ap : AddressPolicy). is_named name (node_at policy_id ap.policy s.policies))
        a.policies in
    elim (Option-cases (addresspolicy_lookup_by_name name s.policies a)) [
      | inl no_link ↦ rw no_link counted
      | inr (ap, found) ↦ rw found (
          addresspolicy_set_action-IsCounted a ap action s address
            (pointed_node address_link_id o ap a.policies found) counted)
    ]

address_lookup-IsCounted :
    (name : String) (action : Action) (i : ℕ) (s : Store)
    → IsCounted s
    → IsCounted
        (addresspolicy_s_lookup_policy_action name action i (node_at address_id i s.addresses) s)
unfolding addresspolicy_s_lookup_policy_action
address_lookup-IsCounted name action i s counted =
    elim (Option-cases (node_at address_id i s.addresses)) [
      | inl gone ↦ rw gone counted
      | inr (a, found) ↦ rw found (
          reload_address_at-IsCounted _ i _ (
            act_on_named_address-IsCounted name a action s (address_node i a s.addresses found)
              counted))
    ]

pub lookup_in_addresses-IsCounted :
    (name : String) (action : Action) (l : List Address) (s : Store)
    → IsCounted s
    → IsCounted (lookup_in_addresses name action l s)
unfolding lookup_in_addresses
lookup_in_addresses-IsCounted name action [] s counted = counted
lookup_in_addresses-IsCounted name action (x ∷ rest) s counted =
    lookup_in_addresses-IsCounted name action rest _
      (address_lookup-IsCounted name action x.id s counted)

pub act_on_named_farm-IsCounted :
    (name : String) (f : Farm) (action : Action) (s : Store)
    → node_at farm_id f.id s.farms ≡ some f
    → IsCounted s
    → IsCounted (act_on_named_farm (farmpolicy_lookup_by_name name s.policies f) f action s).0
unfolding farmpolicy_lookup_by_name act_on_named_farm
act_on_named_farm-IsCounted name f action s farm counted =
    let o =
      find? (λ (fp : FarmPolicy). is_named name (node_at policy_id fp.policy s.policies))
        f.policies in
    elim (Option-cases (farmpolicy_lookup_by_name name s.policies f)) [
      | inl no_link ↦ rw no_link counted
      | inr (fp, found) ↦ rw found (
          farmpolicy_set_action-IsCounted f fp action s farm
            (pointed_node farm_link_id o fp f.policies found) counted)
    ]
