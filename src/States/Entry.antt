-- ===== src/States/Entry.antt =====
-- backend_set_state of src/backends.c for every state that is asked for: what it enters, and the calls
-- that it makes from there.
use nftlb.Prelude.{
  ℕ, ◌≡◌, refl, ap, ◌∙◌, sym, Bool, true, false, ◌&&◌, ◌||◌, not, arith, Bool-cases, some, if-false,
  Option, inl, inr, if◌then◌else◌,
}
use nftlb.Enums.{State, Action, is_state, is_action}
use nftlb.Model.{Backend, Farm}
use nftlb.Network.{Net}
use nftlb.Backends.Predicates.{backend_validate, backend_below_prio, backend_is_available}
use nftlb.Backends.Setters.{put, put_backend}
use nftlb.Backends.Transition.{resolve_state, action_on_entry, enter_state}
use nftlb.Sessions.Timed.{backend_at}
use nftlb.Sessions.Kept.{but_sessions}
use nftlb.States.Focus.{Focus}
use nftlb.States.Calls.{Call, ◌>>=◌, with_farm, start_sessions_of, enter, backend_set_state}
use nftlb.States.Course.{start_sessions_of-kept}
use nftlb.States.Turn.{put_same}

-- The state that is entered, by whether the farm's priority reaches the backend's and whether the
-- configuration is valid.
abbrev pub asked_state : State → Bool → Bool → State
asked_state State.up false valid = State.avail
asked_state State.up true true = State.up
asked_state State.up true false = State.conferr
asked_state asked below valid = asked

-- The action of a backend whose state was `old` and is `new`, where it was `action`.
abbrev pub asked_action : State → State → Action → Action
asked_action State.up State.up action = action
asked_action State.off State.up action = Action.reload
asked_action old State.up action = Action.start
asked_action State.up new action = Action.stop
asked_action State.off State.down action = Action.stop
asked_action State.down State.off action = Action.start
asked_action old new action = action

-- No call follows: the state is the old one, or it is avail, or no action is pending.
abbrev pub is_quiet : Backend → Backend → Bool
is_quiet b node =
    is_state b.state node.state
    || is_state node.state State.avail
    || is_action node.action Action.none

pub record IsEntry (rec : Call → Focus → Option Focus) (asked : State) (b : Backend) (s : Focus)
    (t : Option Focus) : Type 0 where
  -- where the calls start from, and the backend there
  pub entered : Focus
  pub node : Backend
  -- apart from the sessions only the backend has changed, and of it the state and the action
  pub farm : but_sessions entered.farm ≡ but_sessions (put_backend s.farm node)
  pub only : node ≡ record b { state = node.state; action = node.action }
  pub state :
      node.state ≡ asked_state asked (backend_below_prio s.farm b) (backend_validate s.farm b)
  pub available :
      backend_is_available entered.farm node
      ≡ (is_state asked State.up && (backend_validate s.farm b && backend_below_prio s.farm b))
  pub action : node.action ≡ asked_action b.state node.state b.action
  pub calls : t ≡ (
      if is_quiet b node
      then some entered
      else rec (Call.set_action Action.reload) entered >>= rec Call.gen_priority)

is_state_eq : (s t : State) → is_state s t ≡ true → s ≡ t
is_state_eq s t h = ground arith

action_on_entry-asked :
    (old new : State) (a : Action)
    → is_state old new ≡ false
    → action_on_entry old new a ≡ asked_action old new a
unfolding action_on_entry
action_on_entry-asked State.up new a differs = ground arith
action_on_entry-asked State.avail new a differs = ground arith
action_on_entry-asked State.down new a differs = ground arith
action_on_entry-asked State.off new a differs = ground arith
action_on_entry-asked State.conferr new a differs = ground arith

asked_action-same :
    (old new : State) (a : Action) → is_state old new ≡ true → a ≡ asked_action old new a
asked_action-same State.up new a same = ground arith
asked_action-same State.avail new a same = ground arith
asked_action-same State.down new a same = ground arith
asked_action-same State.off new a same = ground arith
asked_action-same State.conferr new a same = ground arith

resolved_up :
    (v p : Bool) (s : State)
    → (v
        && is_state
            (if is_state s State.up
              then if p then if v then s else State.conferr else State.avail
              else s)
            State.up
        && p)
      ≡ (is_state s State.up && (v && p))
resolved_up v p s = ground arith

resolved_state :
    (v p : Bool) (s : State)
    → (if is_state s State.up then if p then if v then s else State.conferr else State.avail else s)
      ≡ asked_state s p v
resolved_state v p s = ground arith

module _ (f : Farm) (b : Backend) where
  resolve_state-asked :
      (asked : State)
      → resolve_state f b asked ≡ asked_state asked (backend_below_prio f b) (backend_validate f b)
  unfolding resolve_state
  resolve_state-asked asked = resolved_state (backend_validate f b) (backend_below_prio f b) asked

  entered_available :
      (g : Farm) (asked : State) (a : Action)
      → let node : Backend = record b { state = resolve_state f b asked; action = a } in
        but_sessions g ≡ but_sessions (put_backend f node)
        → backend_is_available g node
          ≡ (is_state asked State.up && (backend_validate f b && backend_below_prio f b))
  unfolding backend_is_available but_sessions put_backend backend_validate backend_below_prio
      resolve_state
  entered_available g asked a kept =
      ap
        (λ (h : Farm).
          backend_is_available h (record b { state = resolve_state f b asked; action = a }))
        kept
      ∙ resolved_up (backend_validate f b) (backend_below_prio f b) asked

propagates :
    (changed avail idle : Bool)
    → changed ≡ false
    → (not avail && not idle) ≡ not (changed || avail || idle)
propagates changed avail idle h = ground arith

if_not : {A : Type 0} (q : Bool) (x y : A) → (if not q then x else y) ≡ (if q then y else x)
if_not true x y = refl
if_not false x y = refl

module _ (net : Net) (masquerade_mark : ℕ) (rec : Call → Focus → Option Focus) (asked : State)
    (b : Backend) (s : Focus) (here : backend_at b.id s.farm.backends ≡ some b) where
  stays :
      is_state b.state (resolve_state s.farm b asked) ≡ true
      → IsEntry rec asked b s (backend_set_state net masquerade_mark rec asked b s)
  unfolding backend_set_state but_sessions put_backend
  stays same =
      let r = resolve_state s.farm b asked in
      let node : Backend = record b { state = r; action = b.action } in
      let it : b ≡ node =
        ap (λ x. record b { state = x; action = b.action }) (is_state_eq b.state r same) in
      let kept : but_sessions s.farm ≡ but_sessions (put_backend s.farm node) =
        ap (λ l. but_sessions (record s.farm { backends = l }))
          (sym (put_same b s.farm.backends here) ∙ ap (λ x. put x s.farm.backends) it) in
      record {
        entered = s;
        node = node;
        farm = kept;
        only = refl;
        state = resolve_state-asked s.farm b asked;
        available = entered_available s.farm b s.farm asked b.action kept;
        action = asked_action-same b.state r b.action same;
        calls = rw same refl;
      }

  enters :
      is_state b.state (resolve_state s.farm b asked) ≡ false
      → IsEntry rec asked b s (backend_set_state net masquerade_mark rec asked b s)
  unfolding backend_set_state enter enter_state
  enters differs =
      let r = resolve_state s.farm b asked in
      let o = enter_state s.farm b r in
      let begun = with_farm s (put_backend s.farm o.backend) in
      let entered = start_sessions_of net masquerade_mark o begun in
      let kept = start_sessions_of-kept net masquerade_mark o begun in
      record {
        entered = entered;
        node = o.backend;
        farm = kept;
        only = refl;
        state = resolve_state-asked s.farm b asked;
        available = entered_available s.farm b entered.farm asked o.backend.action kept;
        action = action_on_entry-asked b.state r b.action differs;
        calls = if-false (is_state b.state r) _ _ differs (
            ap
              (λ q.
                if q
                then rec (Call.set_action Action.reload) entered >>= rec Call.gen_priority
                else some entered)
              (propagates (is_state b.state r) (is_state r State.avail)
                (is_action o.backend.action Action.none) differs)
            ∙ if_not (is_quiet b o.backend) _ _);
      }

  -- When backend_set_state is asked for a state of a backend of the farm, the backend enters the
  -- state asked for if that is not up; if up is asked for, it enters avail where its priority is
  -- above the farm's, and else up or conferr, as its configuration is valid or not. It is available
  -- there exactly where up is asked for, the configuration is valid and the priority is not above
  -- the farm's. Its action follows the table of the old and the new state: coming up is a start, or
  -- a reload from off, leaving up is a stop, off to down a stop, down to off a start, and any other
  -- change keeps the action. Apart from the sessions nothing else of the farm has changed there. From
  -- there the farm is reloaded and its priority is computed again, except where the state is the old
  -- one, or avail, or no action is pending.
  pub backend_set_state-IsEntry :
      IsEntry rec asked b s (backend_set_state net masquerade_mark rec asked b s)
  backend_set_state-IsEntry = elim (Bool-cases (is_state b.state (resolve_state s.farm b asked))) [
    | inl same ↦ stays same
    | inr differs ↦ enters differs
  ]
