-- ===== src/Examples/Backends.antt =====
-- The theorems on src/backends.c at a farm with a backend that is up, one that is down and one of a
-- lower priority.
use nftlb.Prelude.{◌+◌, ◌≤◌, ◌≡◌, refl, [], ◌∷◌, pos, ◌+ℤ◌, count}
use nftlb.Backends.Predicates.{backend_is_available, backend_is_usable, backend_no_port}
use nftlb.Backends.Marks.{
  backend_gen_next_mark, backend_gen_next_mark_lem, IsNextMark, backend_mark_min, backend_mark_max,
}
use nftlb.Backends.Priority.{
  priority_loop, elected_priority, elected_priority_lem, down_at, is_down,
}
use nftlb.Backends.Counters.{
  backend_s_update_counters, IsCounted, backend_s_update_counters-IsCounted,
}
use nftlb.Backends.Setters.{backend_set_weight, backend_set_port, backend_set_srcaddr}
use nftlb.Backends.Flags.{
  IsPortFlag, IsSrcaddrFlag, backend_set_weight-IsCounted, backend_set_port-IsPortFlag,
  backend_set_srcaddr-IsSrcaddrFlag,
}
use nftlb.Backends.Create.{backend_create, IsConsistent, backend_create-IsConsistent}
use nftlb.Examples.Fixtures.{base_farm, base_backend, web_farm, pool, up_backend, spare_backend}

elected_priority_lem_example :
    (count (down_at (elected_priority pool)) pool ≡ 0)
    × (1 ≤ elected_priority pool)
    × (elected_priority pool ≤ 1 + count is_down pool)
elected_priority_lem_example = elected_priority_lem pool

-- One backend of priority 1 is down, so that the backend of priority 2 is taken in.
elected_two : elected_priority pool ≡ 2
unfolding elected_priority priority_loop base_backend
elected_two = refl

backend_s_update_counters-IsCounted_example :
    IsCounted (backend_s_update_counters (record base_farm { backends = pool }))
backend_s_update_counters-IsCounted_example =
    backend_s_update_counters-IsCounted (record base_farm { backends = pool })

web_farm-IsCounted : IsCounted web_farm
unfolding backend_is_available backend_is_usable base_farm base_backend ◌+ℤ◌
web_farm-IsCounted = record { available = refl; usable = refl; weight = refl }

backend_set_weight-IsCounted_example : IsCounted (backend_set_weight web_farm up_backend (pos 5))
backend_set_weight-IsCounted_example =
    backend_set_weight-IsCounted web_farm up_backend (pos 5) refl web_farm-IsCounted

web_farm-IsPortFlag : IsPortFlag web_farm
unfolding backend_no_port base_farm base_backend
web_farm-IsPortFlag = refl

backend_set_port-IsPortFlag_example : IsPortFlag (backend_set_port web_farm spare_backend "8080")
backend_set_port-IsPortFlag_example =
    backend_set_port-IsPortFlag web_farm spare_backend "8080" refl web_farm-IsPortFlag

backend_set_srcaddr-IsSrcaddrFlag_example :
    IsSrcaddrFlag (backend_set_srcaddr web_farm spare_backend "198.51.100.1")
backend_set_srcaddr-IsSrcaddrFlag_example =
    backend_set_srcaddr-IsSrcaddrFlag web_farm spare_backend "198.51.100.1" refl

backend_gen_next_mark_lem_example :
    IsNextMark
      (web_farm ∷ [])
      backend_mark_min
      backend_mark_max
      (backend_gen_next_mark (web_farm ∷ []))
backend_gen_next_mark_lem_example = backend_gen_next_mark_lem (web_farm ∷ [])

-- The first backend of a new farm.
base_farm-IsCounted : IsCounted base_farm
unfolding base_farm
base_farm-IsCounted = record { available = refl; usable = refl; weight = refl }

backend_create-IsConsistent_example :
    IsConsistent (backend_create 14 "bck4" (base_farm ∷ []) base_farm)
    × (((backend_create 14 "bck4" (base_farm ∷ []) base_farm).bcks_available
          ≡ base_farm.bcks_available)
        × ((backend_create 14 "bck4" (base_farm ∷ []) base_farm).bcks_usable
            ≡ base_farm.bcks_usable)
        × ((backend_create 14 "bck4" (base_farm ∷ []) base_farm).total_weight
            ≡ base_farm.total_weight))
unfolding base_farm
backend_create-IsConsistent_example =
    backend_create-IsConsistent 14 "bck4" (base_farm ∷ []) base_farm base_farm-IsCounted refl refl
