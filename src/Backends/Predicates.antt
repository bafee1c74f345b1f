-- ===== src/Backends/Predicates.antt =====
-- The tests of src/backends.c and src/farms.c on a backend and its farm, and the marks.
use Prim.Native.Nat.{bit_or}
use nftlb.Prelude.{
  ℕ, Bool, false, ◌&&◌, ◌||◌, not, String, Option, none, some, str_eq, leb, if◌then◌else◌,
}
use nftlb.Enums.{Mode, State, is_mode, is_state}
use nftlb.Model.{Backend, Farm}

-- p && strcmp(p, "") != 0
abbrev pub is_set : Option String → Bool
is_set none = false
is_set (some s) = not (str_eq s "")

unfoldable pub farm_is_ingress_mode : Farm → Bool
farm_is_ingress_mode f = is_mode f.mode Mode.dsr || is_mode f.mode Mode.stlsdnat

unfoldable pub backend_below_prio : Farm → Backend → Bool
backend_below_prio f b = leb b.priority f.priority

unfoldable pub backend_validate : Farm → Backend → Bool
unfolding farm_is_ingress_mode
backend_validate f b =
    if farm_is_ingress_mode f && not (is_set b.ethaddr) then false else is_set b.ipaddr

unfoldable pub backend_is_available : Farm → Backend → Bool
unfolding backend_validate backend_below_prio
backend_is_available f b =
    backend_validate f b && is_state b.state State.up && backend_below_prio f b

unfoldable pub backend_is_usable : Farm → Backend → Bool
unfolding backend_below_prio
backend_is_usable f b =
    (is_state b.state State.up || is_state b.state State.off) && backend_below_prio f b

unfoldable pub backend_no_port : Backend → Bool
backend_no_port b = str_eq b.port ""

unfoldable pub farm_get_masquerade : Farm → Bool
farm_get_masquerade f =
    (is_mode f.mode Mode.snat || is_mode f.mode Mode.local) && not (is_set f.srcaddr)

-- `masquerade_mark` is the program's setting of that name.
unfoldable pub farm_get_mark : ℕ → Farm → ℕ
unfolding farm_get_masquerade
farm_get_mark masquerade_mark f =
    if farm_get_masquerade f then bit_or f.mark masquerade_mark else f.mark

unfoldable pub backend_get_mark : ℕ → Farm → Backend → ℕ
unfolding farm_get_mark
backend_get_mark masquerade_mark f b =
    bit_or b.mark (if is_set b.srcaddr then f.mark else farm_get_mark masquerade_mark f)
