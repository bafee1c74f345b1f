-- ===== src/Farms/Setters.antt =====
-- The setters of src/farms.c that change the farm alone. Each returns the code of the source where it
-- has more than one.
use Prim.Native.Nat.{bit_or, bit_and}
use nftlb.Prelude.{ℕ, ◌&&◌, not, Option, none, some, ℤ, pos, negsuc, eq_ℤ, ◌==◌, if◌then◌else◌}
use nftlb.Enums.{
  Mode, Scheduler, Switch, is_mode, scheduler_value, switch_value, meta_none, meta_srcip,
}
use nftlb.Model.{Farm}
use nftlb.Backends.Predicates.{farm_is_ingress_mode}

abbrev pub rld_newrtlimit_start : ℕ
rld_newrtlimit_start = 1

abbrev pub rld_rstrtlimit_start : ℕ
rld_rstrtlimit_start = 2

abbrev pub rld_estconnlimit_start : ℕ
rld_estconnlimit_start = 4

abbrev pub rld_tcpstrict_start : ℕ
rld_tcpstrict_start = 8

abbrev pub rld_queue_start : ℕ
rld_queue_start = 16

abbrev pub rld_newrtlimit_stop : ℕ
rld_newrtlimit_stop = 32

abbrev pub rld_rstrtlimit_stop : ℕ
rld_rstrtlimit_stop = 64

abbrev pub rld_estconnlimit_stop : ℕ
rld_estconnlimit_stop = 128

abbrev pub rld_tcpstrict_stop : ℕ
rld_tcpstrict_stop = 256

abbrev pub rld_queue_stop : ℕ
rld_queue_stop = 512

-- The end of the setters of a limit: the reload flag, but in the ingress modes.
unfoldable pub reload_with : ℕ → Farm → Farm
unfolding farm_is_ingress_mode
reload_with flag f =
    if farm_is_ingress_mode f then f else record f { reload_action = bit_or f.reload_action flag }

-- `masquerade_mark` is the program's setting of that name.
unfoldable pub farm_set_mark : ℕ → Farm → ℕ → Farm
farm_set_mark masquerade_mark f new_value =
    if not (is_mode f.mode Mode.dnat)
      && not (is_mode f.mode Mode.snat)
      && not (is_mode f.mode Mode.local)
    then f
    else if bit_and new_value masquerade_mark == 0
    then record f { mark = new_value }
    else f

unfoldable pub farm_set_sched : Farm → Scheduler → Farm
farm_set_sched f new_value =
    let is_hash = scheduler_value new_value == scheduler_value Scheduler.hash in
    let param = if is_hash && f.schedparam == meta_none then meta_srcip else f.schedparam in
    record f { scheduler = new_value; schedparam = if is_hash then param else meta_none }

unfoldable pub farm_set_limitsttl : Farm → ℤ → Farm
farm_set_limitsttl f new_value =
    if eq_ℤ f.limitsttl new_value then f else record f { limitsttl = new_value }

unfoldable pub farm_set_newrtlimit : Farm → ℤ → ℤ → Farm
unfolding reload_with
farm_set_newrtlimit f new_value new_unit =
    if eq_ℤ f.newrtlimit new_value && eq_ℤ f.newrtlimit_unit new_unit
    then f
    else reload_with (if eq_ℤ new_value (pos 0) then rld_newrtlimit_stop else rld_newrtlimit_start)
        (record f { newrtlimit = new_value; newrtlimit_unit = new_unit })

unfoldable pub farm_set_rstrtlimit : Farm → ℤ → ℤ → Farm
unfolding reload_with
farm_set_rstrtlimit f new_value new_unit =
    if eq_ℤ f.rstrtlimit new_value
    then f
    else reload_with (if eq_ℤ new_value (pos 0) then rld_rstrtlimit_stop else rld_rstrtlimit_start)
        (record f { rstrtlimit = new_value; rstrtlimit_unit = new_unit })

unfoldable pub farm_set_estconnlimit : Farm → ℤ → Farm
unfolding reload_with
farm_set_estconnlimit f new_value =
    if eq_ℤ f.estconnlimit new_value
    then f
    else reload_with
        (if eq_ℤ new_value (pos 0) then rld_estconnlimit_stop else rld_estconnlimit_start)
        (record f { estconnlimit = new_value })

unfoldable pub farm_set_tcpstrict : Farm → Switch → Farm
unfolding reload_with
farm_set_tcpstrict f new_value =
    reload_with
      (if switch_value new_value == switch_value Switch.off
        then rld_tcpstrict_stop
        else rld_tcpstrict_start)
      (record f { tcpstrict = new_value })

unfoldable pub farm_set_queue : Farm → ℤ → Farm
unfolding reload_with
farm_set_queue f new_value =
    reload_with (if eq_ℤ new_value (negsuc 0) then rld_queue_stop else rld_queue_start)
      (record f { queue = new_value })

-- No farm where the value is refused.
unfoldable pub farm_set_priority : Farm → ℤ → Option Farm
farm_set_priority f (pos n) = if n == 0 then none else some (record f { priority = n })
farm_set_priority f (negsuc n) = none
