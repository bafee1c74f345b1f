-- ===== src/Examples/States.antt =====
-- The calls of src/backends.c and src/farms.c around a change of state, at a farm with a spare backend.
use nftlb.Prelude.{
  ℕ, ◌≡◌, refl, List, [], ◌∷◌, Option, none, some, true, false, map, length, ◌≤◌, ◌<◌, ◌⊎◌,
}
use nftlb.Enums.{State, Action}
use nftlb.Network.{Net}
use nftlb.Backends.Setters.{put}
use nftlb.Backends.Predicates.{backend_below_prio}
use nftlb.Backends.Priority.{priority_loop}
use nftlb.States.Focus.{Focus}
use nftlb.States.Calls.{Call, run, backend_set_state}
use nftlb.States.Entry.{IsEntry, backend_set_state-IsEntry}
use nftlb.States.Total.{enough_fuel, run-ends}
use nftlb.Backends.Counters.{IsCounted}
use nftlb.States.Depth.{depth, alive}
use nftlb.States.Failover.{IsSettledFarm, gen_priority-settles}
use native.Mathlib.Nat.{le_refl}
use nftlb.Examples.Fixtures.{
  base_farm, base_backend, up_backend, down_backend, spare_backend, web_farm,
}

-- A network that knows nobody.
abbrev pub silent : Net
silent = record {
  ifidx_of = λ ipaddr. none;
  ifname_of = λ i. none;
  ether_of = λ oface. "";
  neigh_ether = λ iethaddr family source_ip ipaddr oface. none;
  socket_opens = true;
  sessions_buffer = λ f a action. "";
  new_node = λ f. 100;
}

abbrev running : Focus
running = record {
  farm = record web_farm { state = State.up; action = Action.none };
  others = [];
  addresses = [];
  dsr_counter = 0;
  net_event_enabled = false;
}

abbrev states_of : Option Focus → List (ℕ × State × Action)
states_of none = []
states_of (some s) = map (λ b. (b.id, b.state, b.action)) s.farm.backends

-- Where the only backend in use goes down, the spare one comes up.
failover_test :
    states_of (run silent 0 8 (Call.set_state 11 State.down) running)
    ≡ (11, State.down, Action.stop)
      ∷ (12, State.down, Action.start)
      ∷ (13, State.up, Action.start)
      ∷ []
unfolding run base_farm base_backend put backend_below_prio priority_loop
failover_test = refl

-- A backend that was spare and has no address drops out, and the priority is not elected again: the
-- backend behind it stays spare.
abbrev spare_without_address : Focus
spare_without_address = record running {
  farm = record base_farm {
    action = Action.reload;
    backends =
        record down_backend { id = 21 }
        ∷ record spare_backend { id = 22; ipaddr = none; action = Action.none }
        ∷ record spare_backend { id = 23; priority = 3; action = Action.none }
        ∷ [];
  };
}

stale_priority_test :
    states_of (run silent 0 8 Call.gen_priority spare_without_address)
    ≡ (21, State.down, Action.start)
      ∷ (22, State.conferr, Action.none)
      ∷ (23, State.avail, Action.none)
      ∷ []
unfolding run base_farm base_backend put backend_below_prio priority_loop
stale_priority_test = refl

-- The farm is to be reloaded already, and its spare backend is to come up.
abbrev settling : Focus
settling = record running { farm = record web_farm { action = Action.reload } }

gen_priority-settles_example :
    (t : Focus) × (run silent 0 (depth settling) Call.gen_priority settling ≡ some t)
    × IsCounted t.farm
    × (alive t ≤ alive settling)
    × ((alive t < alive settling) ⊎ IsSettledFarm t.farm)
unfolding base_farm base_backend
gen_priority-settles_example =
    gen_priority-settles silent 0 (depth settling) settling refl (refl, (refl, (refl, tt)))
      (le_refl (depth settling))

spare_comes_up_test :
    states_of (run silent 0 8 Call.gen_priority settling)
    ≡ (11, State.up, Action.start)
      ∷ (12, State.down, Action.start)
      ∷ (13, State.up, Action.start)
      ∷ []
unfolding run base_farm base_backend put backend_below_prio priority_loop
spare_comes_up_test = refl

run-ends_example :
    (t : Focus) × (run silent 0 (enough_fuel 3) (Call.set_state 11 State.down) running ≡ some t)
    × (length t.farm.backends ≡ length running.farm.backends)
run-ends_example =
    run-ends silent 0 (enough_fuel 3) (Call.set_state 11 State.down) running refl
      (le_refl (enough_fuel 3))

-- The only backend in use is asked to go down.
backend_set_state-IsEntry_example :
    IsEntry
      (run silent 0 8)
      State.down
      up_backend
      running
      (backend_set_state silent 0 (run silent 0 8) State.down up_backend running)
unfolding base_farm base_backend
backend_set_state-IsEntry_example =
    backend_set_state-IsEntry silent 0 (run silent 0 8) State.down up_backend running refl
