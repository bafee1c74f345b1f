-- ===== src/Elements/Actions.antt =====
-- The actions and the deletion of elements, of src/elements.c, which tell the policy.
use nftlb.Prelude.{
  ℕ, List, [], ◌∷◌, Option, none, some, pos, negsuc, ◌+ℤ◌, node_at, put_node, remove_node,
  if◌then◌else◌,
}
use nftlb.Enums.{Action, is_action}
use nftlb.Model.{Policy, Element}
use nftlb.Network.{Net}
use nftlb.Policies.Store.{policy_id}
use nftlb.Policies.Actions.{Program, with_store, set_action_at}

abbrev pub element_id : Element → ℕ
element_id e = e.id

-- An assignment through a pointer to a policy.
unfoldable pub change_policy : (Policy → Policy) → Option Policy → Program → Program
unfolding put_node
change_policy g none w = w
change_policy g (some p) w =
    with_store w (record w.store { policies = put_node policy_id (g p) w.store.policies })

unfoldable pub count_off : Policy → Policy
count_off p = record p { total_elem = p.total_elem +ℤ negsuc 0 }

-- list_del of the element's node.
unfoldable pub element_delete_node : ℕ → Policy → Policy
unfolding remove_node
element_delete_node i p = record p { elements = remove_node element_id i p.elements }

unfoldable pub store_element : Action → Element → Policy → Policy
unfolding put_node
store_element action e p = record p {
  elements = put_node element_id (record e { action = action }) p.elements;
}

module _ (net : Net) (masquerade_mark : ℕ) where
  -- The element `e` of the policy `i`.
  unfoldable pub element_delete : ℕ → Element → Program → Program
  unfolding change_policy count_off set_action_at element_delete_node
  element_delete i e w =
      let counted = change_policy count_off (node_at policy_id i w.store.policies) w in
      let told =
        set_action_at net masquerade_mark Action.reload (node_at policy_id i counted.store.policies)
          counted in
      change_policy (element_delete_node e.id) (node_at policy_id i told.store.policies) told

  unfoldable pub element_set_action : ℕ → Element → Action → Program → Program × ℕ
  unfolding element_delete change_policy store_element
  element_set_action i e action w =
      let acted = change_policy (store_element action e) (node_at policy_id i w.store.policies) w in
      if is_action action Action.delete
      then (element_delete i e w, 1)
      else if is_action e.action action
      then (w, 0)
      else (acted, 1)

  unfoldable pub on_element : (Element → Program → Program) → ℕ → Option Policy → Program → Program
  on_element body j none w = w
  on_element body j (some p) w = elim (node_at element_id j p.elements) [
    | none ↦ w
    | some e ↦ body e w
  ]

  -- A loop over the elements that the policy `i` had when it started.
  unfoldable pub for_elements : (Element → Program → Program) → ℕ → List Element → Program → Program
  unfolding on_element
  for_elements body i [] w = w
  for_elements body i (e ∷ es) w =
      for_elements body i es (on_element body e.id (node_at policy_id i w.store.policies) w)

  unfoldable pub element_s_set_action : Policy → Action → Program → Program
  unfolding for_elements element_set_action set_action_at
  element_s_set_action p action w =
      let all = for_elements (λ e v. (element_set_action p.id e action v).0) p.id p.elements w in
      if is_action action Action.stop
      then set_action_at net masquerade_mark Action.flush (some p) w
      else all

  unfoldable pub no_elements : Policy → Policy
  no_elements p = record p { total_elem = pos 0 }

  unfoldable pub element_s_delete : Policy → Program → Program
  unfolding for_elements element_delete change_policy no_elements
  element_s_delete p w =
      let deleted = for_elements (element_delete p.id) p.id p.elements w in
      change_policy no_elements (node_at policy_id p.id deleted.store.policies) deleted
