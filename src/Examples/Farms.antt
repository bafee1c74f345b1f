-- ===== src/Examples/Farms.antt =====
-- The theorems on the setters of src/farms.c at a farm and a pair.
use nftlb.Prelude.{◌≡◌, ◌≢◌, refl, true, false, none, some, pos}
use nftlb.Enums.{Key, Mode, Scheduler, Switch, scheduler_value, switch_value, meta_none}
use nftlb.Model.{Farm}
use nftlb.Config.Pair.{ConfigPair, init_pair}
use nftlb.Backends.Predicates.{farm_is_ingress_mode}
use nftlb.Farms.Setters.{
  farm_set_sched, farm_set_limitsttl, farm_set_newrtlimit, farm_set_rstrtlimit,
  farm_set_estconnlimit, farm_set_tcpstrict, farm_set_queue,
}
use nftlb.Farms.Changed.{farm_changed, farm_actionable}
use nftlb.Farms.Settled.{
  farm_changed-settled, farm_set_rstrtlimit-unit, farm_actionable-reload_action,
  farm_set_sched-schedparam,
}
use nftlb.Examples.Fixtures.{base_farm}

-- 100 per minute
abbrev limit_pair : ConfigPair
limit_pair = record {
  level = none;
  key = some Key.rstrtlimit;
  str_value = none;
  int_value = pos 100;
  int_value2 = pos 1;
  action = init_pair.action;
}

-- 100 per second
abbrev limited_farm : Farm
limited_farm = record base_farm { rstrtlimit = pos 100; rstrtlimit_unit = pos 0 }

farm_changed-settled_example :
    (farm_changed Key.limitsttl (farm_set_limitsttl base_farm limit_pair.int_value) none limit_pair
      ≡ false)
    × (farm_changed Key.newrtlimit
          (farm_set_newrtlimit base_farm limit_pair.int_value limit_pair.int_value2)
          none
          limit_pair
        ≡ false)
    × (farm_changed Key.estconnlimit
          (farm_set_estconnlimit base_farm limit_pair.int_value)
          none
          limit_pair
        ≡ false)
    × (farm_changed Key.queue (farm_set_queue base_farm limit_pair.int_value) none limit_pair
        ≡ false)
    × ((s : Scheduler)
        → limit_pair.int_value ≡ pos (scheduler_value s)
        → farm_changed Key.sched (farm_set_sched base_farm s) none limit_pair ≡ false)
    × ((s : Switch)
        → limit_pair.int_value ≡ pos (switch_value s)
        → farm_changed Key.tcpstrict (farm_set_tcpstrict base_farm s) none limit_pair ≡ false)
farm_changed-settled_example = farm_changed-settled base_farm none limit_pair

farm_set_rstrtlimit-unit_example :
    (farm_changed Key.rstrtlimit limited_farm none limit_pair ≡ true)
    × (farm_set_rstrtlimit limited_farm limit_pair.int_value limit_pair.int_value2 ≡ limited_farm)
farm_set_rstrtlimit-unit_example = farm_set_rstrtlimit-unit limited_farm none limit_pair refl refl

abbrev dsr_farm : Farm
dsr_farm = record base_farm { mode = Mode.dsr }

dsr_farm-ingress : farm_is_ingress_mode dsr_farm ≡ true
unfolding farm_is_ingress_mode
dsr_farm-ingress = refl

farm_actionable-reload_action_example :
    (farm_actionable Key.newrtlimit dsr_farm ≡ false)
    × ((farm_set_newrtlimit dsr_farm (pos 10) (pos 1)).reload_action ≡ dsr_farm.reload_action)
    × (farm_actionable Key.rstrtlimit dsr_farm ≡ false)
    × ((farm_set_rstrtlimit dsr_farm (pos 10) (pos 1)).reload_action ≡ dsr_farm.reload_action)
    × (farm_actionable Key.estconnlimit dsr_farm ≡ false)
    × ((farm_set_estconnlimit dsr_farm (pos 10)).reload_action ≡ dsr_farm.reload_action)
    × (farm_actionable Key.tcpstrict dsr_farm ≡ false)
    × ((farm_set_tcpstrict dsr_farm Switch.on).reload_action ≡ dsr_farm.reload_action)
    × (farm_actionable Key.queue dsr_farm ≡ false)
    × ((farm_set_queue dsr_farm (pos 10)).reload_action ≡ dsr_farm.reload_action)
farm_actionable-reload_action_example =
    farm_actionable-reload_action dsr_farm (pos 10) (pos 1) Switch.on dsr_farm-ingress

farm_set_sched-schedparam_example :
    (Scheduler.hash ≡ Scheduler.hash
      → (farm_set_sched base_farm Scheduler.hash).schedparam ≢ meta_none)
    × (Scheduler.hash ≢ Scheduler.hash
        → (farm_set_sched base_farm Scheduler.hash).schedparam ≡ meta_none)
farm_set_sched-schedparam_example = farm_set_sched-schedparam base_farm Scheduler.hash
