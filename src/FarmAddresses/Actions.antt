-- ===== src/FarmAddresses/Actions.antt =====
-- farmaddress_set_action of src/farmaddress.c: the action of a link.
use nftlb.Prelude.{ℕ, Bool, true, ◌&&◌, not, List, [], ◌∷◌, Option, some, ◌==◌, if◌then◌else◌}
use nftlb.Enums.{Action, is_action}
use nftlb.Model.{Farm, Address, FarmAddress}
use nftlb.FarmAddresses.Links.{World, put_farm, put_address, address_at, farmaddress_delete}

-- Assignments through a pointer to a link.
unfoldable pub put_link : FarmAddress → List FarmAddress → List FarmAddress
put_link fa [] = []
put_link fa (x ∷ xs) = if x.id == fa.id then fa ∷ xs else x ∷ put_link fa xs

-- The policies of the farm are to follow the action.
abbrev pub tells_policies : Farm → Action → Bool
tells_policies f action = not (is_action action Action.reload) && not (f.policies_used == 0)

unfoldable pub change_farm : Farm → FarmAddress → Action → Farm
unfolding put_link
change_farm f fa action = record f {
  addresses = put_link (record fa { action = action }) f.addresses;
  policies_action = if tells_policies f action then action else f.policies_action;
}

unfoldable pub change_address : Bool → Action → Option Address → List Address → List Address
unfolding put_address
change_address true action (some a) l = put_address (record a { policies_action = action }) l
change_address tells action a l = l

-- The world after the call, and what it returns.
unfoldable pub farmaddress_set_action : Farm → FarmAddress → Action → World → World × ℕ
unfolding farmaddress_delete change_farm change_address put_farm
farmaddress_set_action f fa action w =
    let changed = record w {
      farms = put_farm (change_farm f fa action) w.farms;
      addresses =
          change_address (tells_policies f action) action (address_at fa.address w.addresses)
            w.addresses;
    } in
    if is_action action Action.delete
    then (farmaddress_delete f fa w, 1)
    else if is_action fa.action action
    then (w, 0)
    else (changed, 1)
