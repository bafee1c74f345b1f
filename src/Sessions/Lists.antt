-- ===== src/Sessions/Lists.antt =====
-- The two lists of sessions of a farm, each with its total, and the operations of src/sessions.c on
-- one session of a list.
use nftlb.Prelude.{
  ℕ, ◌+◌, ◌-◌, Bool, true, false, ◌&&◌, ◌||◌, not, List, [], ◌∷◌, Option, none, some, ◌==◌,
  if◌then◌else◌, str_eq, find?, String,
}
use nftlb.Enums.{State, Action, SessionType, Key, is_state, is_action}
use nftlb.Model.{Session, Farm}

pub record SessionList : Type 0 where
  pub sessions : List Session
  pub total : ℕ

unfoldable pub sessions_of : Farm → SessionType → SessionList
sessions_of f SessionType.static = record {
  sessions = f.static_sessions;
  total = f.total_static_sessions;
}
sessions_of f SessionType.timed = record {
  sessions = f.timed_sessions;
  total = f.total_timed_sessions;
}

unfoldable pub with_sessions : Farm → SessionType → SessionList → Farm
with_sessions f SessionType.static l = record f {
  static_sessions = l.sessions;
  total_static_sessions = l.total;
}
with_sessions f SessionType.timed l = record f {
  timed_sessions = l.sessions;
  total_timed_sessions = l.total;
}

-- The list without the node of the id: list_del.
unfoldable pub remove : ℕ → List Session → List Session
remove i [] = []
remove i (s ∷ ss) = if s.id == i then ss else s ∷ remove i ss

-- The list with the node of the same id replaced: assignments through a pointer to the node.
unfoldable pub put : Session → List Session → List Session
put s [] = []
put s (x ∷ xs) = if x.id == s.id then s ∷ xs else x ∷ put s xs

-- The total of a list that has the node is above 0.
unfoldable pub session_delete_node : Session → SessionList → SessionList
unfolding remove
session_delete_node s l = record { sessions = remove s.id l.sessions; total = l.total - 1 }

abbrev pub has_backend : Session → Bool
has_backend s = elim s.bck [ none ↦ false | some _ ↦ true ]

abbrev pub put_session : Session → SessionList → SessionList
put_session s l = record l { sessions = put s l.sessions }

-- What a call does: nothing, session_delete_node, or assignments that make the node the given one;
-- with what the call returns.
pub data Change : Type 0 where
  keep : Change
  delete : Change
  update : Session → ℕ → Change

-- The chain of tests of session_set_action.
unfoldable pub decide : Session → Action → Change
decide s action =
    if is_action s.action action
    then Change.keep
    else if is_action action Action.delete
    then Change.delete
    else if (is_action action Action.stop || is_action action Action.delete)
        && is_state s.state State.up
    then Change.update (record s { action = action; state = State.off }) 1
    else if is_action action Action.start && not (is_state s.state State.up) && has_backend s
    then Change.update (record s { action = action; state = State.up }) 1
    else if is_action action Action.reload && is_state s.state State.up && has_backend s
    then Change.update (record s { action = action }) 0
    else Change.keep

-- The list after the call, and what it returns.
unfoldable pub perform : Session → Change → SessionList → SessionList × ℕ
unfolding session_delete_node put
perform s Change.keep l = (l, 0)
perform s Change.delete l = (session_delete_node s l, 1)
perform s (Change.update s' r) l = (put_session s' l, r)

unfoldable pub session_set_action : Session → Action → SessionList → SessionList × ℕ
unfolding decide perform
session_set_action s action l = perform s (decide s action) l

-- A key other than the client finds nothing.
unfoldable pub session_lookup_by_key : Farm → SessionType → Key → String → Option Session
unfolding sessions_of
session_lookup_by_key f type Key.client name =
    find? (λ s. str_eq s.client name) (sessions_of f type).sessions
session_lookup_by_key f type key name = none

-- A loop of list_for_each_entry_safe over the nodes that stood in the list when it started.
unfoldable pub delete_all : List Session → SessionList → SessionList
unfolding session_delete_node
delete_all [] l = l
delete_all (s ∷ ss) l = delete_all ss (session_delete_node s l)

-- b is NULL, or the session's backend
abbrev pub is_for : Option ℕ → Session → Bool
is_for none s = true
is_for (some b) s = elim s.bck [ none ↦ false | some i ↦ i == b ]

unfoldable pub set_action_all : Option ℕ → Action → List Session → SessionList × ℕ → SessionList × ℕ
unfolding session_set_action
set_action_all b action [] (l, ret) = (l, ret)
set_action_all b action (s ∷ ss) (l, ret) =
    let (l', r) = session_set_action s action l in
    set_action_all b action ss (if is_for b s then (l', ret + r) else (l, ret))
