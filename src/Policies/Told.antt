-- ===== src/Policies/Told.antt =====
-- policy_set_action and what it calls keep the counts of links.
use nftlb.Prelude.{
  ℕ, ◌≡◌, Bool, true, false, ◌&&◌, ◌||◌, List, [], ◌∷◌, String, length, node_at, Bool-cases,
  Option-cases, inl, inr,
}
use nftlb.Enums.{Action, is_action}
use nftlb.Model.{Farm, Policy}
use nftlb.Network.{Net}
use nftlb.States.Calls.{Call}
use nftlb.States.Total.{enough_fuel}
use nftlb.States.LinksKept.{run-SameLinks}
use nftlb.Policies.Store.{farm_id}
use nftlb.Policies.Counts.{IsCounted, store_policy_action-IsCounted}
use nftlb.Policies.FarmLinks.{reload_at-IsCounted}
use nftlb.Policies.Actions.{
  Program, focus_of, address_s_lookup_policy_action, set_farm_action, reload_farm,
  farmpolicy_s_lookup_policy_action, lookup_in_farms, farm_s_lookup_policy_action, tell_users,
  policy_set_action,
}
use nftlb.Policies.Named.{
  with_result-IsCounted, farm_node, lookup_in_addresses-IsCounted, act_on_named_farm-IsCounted,
}

module _ (net : Net) (masquerade_mark : ℕ) where
  set_farm_action-IsCounted :
      (action : Action) (i : ℕ) (w : Program)
      → IsCounted w.store
      → IsCounted
          (set_farm_action net masquerade_mark action (node_at farm_id i w.store.farms) w).store
  unfolding set_farm_action
  set_farm_action-IsCounted action i w counted =
      elim (Option-cases (node_at farm_id i w.store.farms)) [
        | inl gone ↦ rw gone counted
        | inr (f, found) ↦ rw found (
            with_result-IsCounted _ f w (farm_node i f w.store.farms found)
              (run-SameLinks net masquerade_mark (enough_fuel (length f.backends))
                (Call.set_action action) (focus_of f w))
              counted)
      ]

  reload_farm-IsCounted :
      (ret : Bool) (i : ℕ) (w : Program)
      → IsCounted w.store
      → IsCounted (reload_farm net masquerade_mark ret i w).store
  unfolding reload_farm
  reload_farm-IsCounted false i w counted = counted
  reload_farm-IsCounted true i w counted =
      reload_at-IsCounted i _ (set_farm_action-IsCounted Action.reload i w counted)

  farm_lookup-IsCounted :
      (name : String) (action : Action) (i : ℕ) (w : Program)
      → IsCounted w.store
      → IsCounted
          (farmpolicy_s_lookup_policy_action net masquerade_mark name action i
            (node_at farm_id i w.store.farms)
            w).store
  unfolding farmpolicy_s_lookup_policy_action
  farm_lookup-IsCounted name action i w counted =
      elim (Option-cases (node_at farm_id i w.store.farms)) [
        | inl gone ↦ rw gone counted
        | inr (f, found) ↦ rw found (
            reload_farm-IsCounted _ i _ (
              act_on_named_farm-IsCounted name f action w.store (farm_node i f w.store.farms found)
                counted))
      ]

  lookup_in_farms-IsCounted :
      (name : String) (action : Action) (l : List Farm) (w : Program)
      → IsCounted w.store
      → IsCounted (lookup_in_farms net masquerade_mark name action l w).store
  unfolding lookup_in_farms
  lookup_in_farms-IsCounted name action [] w counted = counted
  lookup_in_farms-IsCounted name action (x ∷ rest) w counted =
      lookup_in_farms-IsCounted name action rest _
        (farm_lookup-IsCounted name action x.id w counted)

  tell_users-IsCounted :
      (p : Policy) (action : Action) (w : Program)
      → IsCounted w.store
      → IsCounted (tell_users net masquerade_mark p action w).store
  unfolding tell_users farm_s_lookup_policy_action address_s_lookup_policy_action
  tell_users-IsCounted p action w counted =
      let told = farm_s_lookup_policy_action net masquerade_mark p.name action w in
      let farms = lookup_in_farms-IsCounted p.name action w.store.farms w counted in
      elim (Bool-cases (is_action action Action.stop || is_action action Action.reload)) [
        | inl tells ↦
            rw tells
              (lookup_in_addresses-IsCounted p.name action told.store.addresses told.store farms)
        | inr silent ↦ rw silent counted
      ]

-- policy_set_action, with all that it tells the farms and the addresses that use the policy, keeps the
-- counts of links, for any action but ACTION_DELETE.
pub policy_set_action-IsCounted :
    (net : Net) (masquerade_mark : ℕ) (p : Policy) (action : Action) (w : Program)
    → is_action action Action.delete ≡ false
    → IsCounted w.store
    → IsCounted (policy_set_action net masquerade_mark p action w).0.store
unfolding policy_set_action
policy_set_action-IsCounted net masquerade_mark p action w stays counted =
    elim (Bool-cases (
      is_action p.action action
      || is_action p.action Action.start && is_action action Action.reload)) [
        | inl same ↦ rw same counted
        | inr other ↦
            rw (other, stays)
              (store_policy_action-IsCounted action p.id _
                (tell_users-IsCounted net masquerade_mark p action w counted))
      ]
