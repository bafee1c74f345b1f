-- ===== src/States/Total.antt =====
-- Every call around a change of state ends, within a depth that depends on the number of backends of
-- the farm alone.
use nftlb.Prelude.{
  ℕ, zero, suc, ◌+◌, ◌*◌, ◌≤◌, ◌≡◌, refl, ◌∙◌, Bool, true, false, ◌||◌, List, some, length,
  if◌then◌else◌, arith,
}
use nftlb.Enums.{Action, is_action}
use nftlb.Model.{Farm, Address}
use nftlb.Network.{Net}
use nftlb.Backends.Predicates.{farm_is_ingress_mode}
use nftlb.Farms.Helpers.{linked, farm_validate_helper_protocol}
use nftlb.States.Focus.{
  Focus, farm_validate, validate_ingress, validate_policies, farmaddress_s_validate_iface,
  farm_needs_policies, farm_needs_flowtable,
}
use nftlb.States.Calls.{
  Call, with_farm, farm_set_action, act_where_given_way, revalidated, is_forced, effective_action,
  tell_policies, gives_way, run,
}
use nftlb.States.Depth.{levels}
use nftlb.States.Around.{if_ends}
use nftlb.States.AnyState.{any_act, any_gen, any_set_state, fuel_open}

-- The backends of the farm stay as many while it is validated.
HasAsMany : Focus → Focus → Type 0
HasAsMany s t = length t.farm.backends ≡ length s.farm.backends

if_as_many :
    (q : Bool) (r r' : Farm × Bool) (n : ℕ)
    → length r.0.backends ≡ n
    → length r'.0.backends ≡ n
    → length (if q then r else r').0.backends ≡ n
if_as_many true r r' n p p' = p
if_as_many false r r' n p p' = p'

validate_ingress-backends :
    (addresses : List Address) (f : Farm)
    → length (validate_ingress addresses f).0.backends ≡ length f.backends
unfolding validate_ingress
validate_ingress-backends addresses f =
    if_as_many (farm_is_ingress_mode f || farm_needs_flowtable f) _ _ _ refl refl

validate_policies-backends :
    (addresses : List Address) (f : Farm)
    → length (validate_policies addresses f).0.backends ≡ length f.backends
unfolding validate_policies
validate_policies-backends addresses f =
    let (links, valid) = farmaddress_s_validate_iface addresses f.addresses in
    if_as_many (farm_needs_policies f) _ _ _
      (if_as_many valid _ _ _ (validate_ingress-backends addresses (record f { addresses = links }))
        refl)
      (validate_ingress-backends addresses f)

farm_validate-backends :
    (addresses : List Address) (f : Farm)
    → length (farm_validate addresses f).0.backends ≡ length f.backends
unfolding farm_validate
farm_validate-backends addresses f =
    if_as_many (farm_validate_helper_protocol f.helper (linked addresses f.addresses)) _ _ _
      (validate_policies-backends addresses f) refl

revalidated-backends : (s : Focus) → HasAsMany s (revalidated s)
unfolding HasAsMany revalidated
revalidated-backends s =
    farm_validate-backends s.addresses (record s.farm { policies_action = Action.none })

forced-backends : (q : Bool) (s : Focus) → HasAsMany s (if q then revalidated s else s)
unfolding HasAsMany
forced-backends true s = revalidated-backends s
forced-backends false s = refl

told_as :
    (q : Bool) (a : Action) (s : Focus)
    → HasAsMany s (with_farm s (if q then record s.farm { policies_action = a } else s.farm))
unfolding HasAsMany
told_as true a s = refl
told_as false a s = refl

-- farm_set_action with ACTION_DELETE
abbrev pub frees_farm : Call → Bool
frees_farm (Call.set_action action) = is_action action Action.delete
frees_farm c = false

module _ (net : Net) (masquerade_mark : ℕ) where
  farm_set_action-ends :
      (m : ℕ) (action : Action) (s : Focus)
      → is_action action Action.delete ≡ false
      → fuel_open (length s.farm.backends) + 1 ≤ m
      → (t : Focus) × (farm_set_action net masquerade_mark
            (run net masquerade_mark (suc (suc m)))
            action
            s
          ≡ some t)
        × HasAsMany s t
  unfolding farm_set_action act_where_given_way HasAsMany
  farm_set_action-ends m action s stays enough =
      let n = length s.farm.backends in
      let s1 = if is_forced action s then revalidated s else s in
      let many1 = forced-backends (is_forced action s) s in
      let action1 = effective_action action s1.farm in
      let s2 = with_farm s1 (tell_policies action1 s1.farm) in
      let many2 = told_as _ action1 s1 ∙ many1 in
      let (t, acted, like) =
        any_act net masquerade_mark n s2.farm.state m action1 s2 enough
          (record { count = many2; state = refl }) in
      rw stays (
        if_ends _ _ _ (s1, refl, many1)
          (if_ends (is_forced action s || gives_way s2.farm action1) _ _ (t, acted, like.count)
            (s2, refl, many2)))

  call_ends :
      (m : ℕ) (c : Call) (s : Focus)
      → frees_farm c ≡ false
      → fuel_open (length s.farm.backends) + 1 ≤ m
      → (t : Focus) × (run net masquerade_mark (suc (suc (suc m))) c s ≡ some t) × HasAsMany s t
  unfolding run HasAsMany
  call_ends m (Call.set_state i new_value) s stays enough =
      let (t, ran, like) =
        any_set_state net masquerade_mark (length s.farm.backends) s.farm.state (suc m)
          (omega (arith, enough)) i new_value s (record { count = refl; state = refl }) in
      (t, ran, like.count)
  call_ends m Call.gen_priority s stays enough =
      let (t, ran, like) =
        any_gen net masquerade_mark (length s.farm.backends) s.farm.state (suc (suc (suc m))) s
          (record { count = refl; state = refl }) (omega (arith, enough)) in
      (t, ran, like.count)
  call_ends m (Call.set_action action) s stays enough = farm_set_action-ends m action s stays enough

-- Fuel that is enough for every call at a farm of so many backends.
unfoldable pub enough_fuel : ℕ → ℕ
unfolding levels
enough_fuel n = 2 * levels (suc n) + 4

-- Whatever the network answers and whatever the objects are, backend_set_state,
-- backend_s_gen_priority, and farm_set_action for any action but ACTION_DELETE, which frees the farm,
-- end with all the calls that they make of one another, no deeper than a bound that the number of the
-- farm's backends gives, and the farm has as many backends after them.
pub run-ends :
    (net : Net) (masquerade_mark fuel : ℕ) (c : Call) (s : Focus)
    → frees_farm c ≡ false
    → enough_fuel (length s.farm.backends) ≤ fuel
    → (t : Focus) × (run net masquerade_mark fuel c s ≡ some t)
      × (length t.farm.backends ≡ length s.farm.backends)
unfolding enough_fuel HasAsMany
run-ends net masquerade_mark zero c s stays enough = absurd (omega (arith, enough))
run-ends net masquerade_mark (suc zero) c s stays enough = absurd (omega (arith, enough))
run-ends net masquerade_mark (suc (suc zero)) c s stays enough = absurd (omega (arith, enough))
run-ends net masquerade_mark (suc (suc (suc m))) c s stays enough =
    call_ends net masquerade_mark m c s stays (omega (arith, enough))
