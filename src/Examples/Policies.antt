-- ===== src/Examples/Policies.antt =====
-- The theorems on src/policies.c, src/farmpolicy.c and src/addresspolicy.c at a farm and an address that
-- use the same policy.
use nftlb.Elements.Items.{element_get_list}
use nftlb.Prelude.{
  List, Option, String, map, none, ℕ, ◌≡◌, refl, [], ◌∷◌, some, arith, occurrences, ◌≤◌, false,
}
use nftlb.Enums.{Action}
use nftlb.Model.{Farm, Address, Policy, FarmPolicy, AddressPolicy}
use nftlb.Policies.Store.{Store, policy_id, new_policy, policy_delete}
use nftlb.Policies.Links.{farmpolicy_set_action, addresspolicy_set_action}
use nftlb.Policies.Sums.{links_to, used_of}
use nftlb.Policies.Counts.{IsCounted}
use nftlb.Policies.Steps.{Step, Steps, Steps-IsCounted}
use nftlb.Policies.Actions.{Program, policy_set_action}
use nftlb.Policies.Told.{policy_set_action-IsCounted}
use nftlb.Examples.Fixtures.{base_farm}
use nftlb.Examples.Links.{base_address}
use nftlb.Examples.States.{silent}

unfoldable base_policy : Policy
unfolding new_policy
base_policy = new_policy 50 "blacklist"

abbrev blacklist : Policy
blacklist = record base_policy { used = 2 }

abbrev farm_link : FarmPolicy
farm_link = record { id = 60; policy = 50; action = Action.start }

abbrev address_link : AddressPolicy
address_link = record { id = 61; policy = 50; action = Action.start }

abbrev guarded_farm : Farm
guarded_farm = record base_farm { policies = farm_link ∷ []; policies_used = 1 }

abbrev guarded_address : Address
guarded_address = record base_address { policies = address_link ∷ []; policies_used = 1 }

abbrev guarded : Store
guarded = record {
  farms = guarded_farm ∷ [];
  addresses = guarded_address ∷ [];
  policies = blacklist ∷ [];
  total_policies = 1;
}

guarded-used : (i : ℕ) → used_of i guarded.policies ≡ links_to i guarded
unfolding base_policy base_address base_farm
guarded-used i = ground arith

guarded-distinct : (i : ℕ) → occurrences policy_id i guarded.policies ≤ 1
unfolding base_policy
guarded-distinct i = ground arith

guarded-IsCounted : IsCounted guarded
unfolding base_policy base_address base_farm
guarded-IsCounted = record {
  used = guarded-used;
  farms = (refl, tt);
  addresses = (refl, tt);
  distinct = guarded-distinct;
}

-- The farm and the address give their links up, and the policy goes.
abbrev no_farm : Store
no_farm = (farmpolicy_set_action guarded_farm farm_link Action.delete guarded).0

abbrev no_links : Store
no_links = (addresspolicy_set_action guarded_address address_link Action.stop no_farm).0

abbrev no_policy : Store
no_policy = policy_delete 50 no_links

removal : Steps guarded no_policy
unfolding base_policy base_address base_farm farmpolicy_set_action addresspolicy_set_action
removal = Steps.next (Step.acts_on_farm_link guarded_farm farm_link Action.delete (refl, refl)) (
    Steps.next (Step.acts_on_address_link guarded_address address_link Action.stop (refl, refl))
      (Steps.next (Step.deletes (record base_policy { used = 0 }) refl refl) Steps.done))

Steps-IsCounted_example : IsCounted no_policy
Steps-IsCounted_example = Steps-IsCounted removal guarded-IsCounted

abbrev program : Program
program = record { store = guarded; dsr_counter = 0; net_event_enabled = false }

policy_set_action-IsCounted_example :
    IsCounted (policy_set_action silent 0 blacklist Action.stop program).0.store
policy_set_action-IsCounted_example =
    policy_set_action-IsCounted silent 0 blacklist Action.stop program refl guarded-IsCounted

-- A policy that stops reloads nothing of a farm whose link has nothing to do, and takes the address's
-- link away.
stopped_test :
    used_of 50 (policy_set_action silent 0 blacklist Action.stop program).0.store.policies ≡ 1
unfolding base_policy base_address base_farm policy_set_action
stopped_test = refl

-- What nft lists of a set with two elements.
abbrev listed : String
listed = "elements = { 10.0.0.1 counter packets 7 bytes 420, 10.0.0.2 counter packets 0 bytes 0 }"

abbrev items_of : Option Policy → List (String × String × String)
items_of none = []
items_of (some p) = map (λ e. (e.data_text, e.counter_pkts, e.counter_bytes)) p.elements

listed_test :
    items_of (element_get_list (λ p. 70) listed base_policy)
    ≡ ("10.0.0.1", "7", "420") ∷ ("10.0.0.2", "0", "0") ∷ []
unfolding base_policy element_get_list
listed_test = refl

-- The bytes are read 8 characters behind the start of the packets, wherever these end.
misread_test :
    items_of (
      element_get_list
        (λ p. 70)
        "elements = { 10.0.0.1 counter packets 123 bytes 4567 }"
        base_policy)
    ≡ ("10.0.0.1", "123", "s") ∷ ("4567", "0", "0") ∷ []
unfolding base_policy element_get_list
misread_test = refl
