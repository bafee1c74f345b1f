-- ===== src/Backends/Transition.antt =====
-- The transition of backend_set_state of src/backends.c: the state that a request leads to, and the
-- action and the calls that entering it asks for. Whether the calls
-- are made (session_backend_action, and the pair farm_set_action and backend_s_gen_priority) are flags
-- of the outcome, by which States/Calls.antt makes them.
use nftlb.Prelude.{Bool, ◌&&◌, ◌||◌, not, ◌==◌, if◌then◌else◌}
use nftlb.Enums.{State, Action, is_state, is_action}
use nftlb.Model.{Backend, Farm}
use nftlb.Backends.Predicates.{backend_validate, backend_below_prio}

-- The adjustment of a requested state.
unfoldable pub resolve_state : Farm → Backend → State → State
resolve_state f b new_value =
    let checked = if backend_validate f b then new_value else State.conferr in
    if is_state new_value State.up
    then if backend_below_prio f b then checked else State.avail
    else new_value

-- The switch: the action that the new state asks for, from the old state and the action so far.
unfoldable pub action_on_entry : State → State → Action → Action
action_on_entry old_value State.conferr action =
    if is_state old_value State.up then Action.stop else action
action_on_entry old_value State.off action =
    let stopped = if is_state old_value State.up then Action.stop else action in
    if is_state old_value State.down then Action.start else stopped
action_on_entry old_value State.avail action =
    if is_state old_value State.up then Action.stop else action
action_on_entry old_value State.up action =
    if is_state old_value State.off then Action.reload else Action.start
action_on_entry old_value State.down action =
    if is_state old_value State.up || is_state old_value State.off then Action.stop else action

pub record Outcome : Type 0 where
  pub backend : Backend
  -- session_backend_action(f, b, ACTION_START) is called
  pub start_sessions : Bool
  -- farm_set_action(f, ACTION_RELOAD) and backend_s_gen_priority(f, ACTION_NONE) are called
  pub propagate : Bool

unfoldable pub enter_state : Farm → Backend → State → Outcome
unfolding action_on_entry
enter_state f b new_value =
    let action = action_on_entry b.state new_value b.action in
    record {
      backend = record b { state = new_value; action = action };
      start_sessions = is_state new_value State.up && not (f.persistence == 0);
      propagate = not (is_state new_value State.avail) && not (is_action action Action.none);
    }
