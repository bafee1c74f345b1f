-- ===== src/Sessions/Operations.antt =====
-- The operations of src/sessions.c on the sessions of a farm.
use nftlb.Prelude.{
  ℕ, ◌+◌, [], ◌∷◌, ◌++◌, Option, none, some, ◌==◌, if◌then◌else◌, str_eq, String, codes, pos,
}
use nftlb.Libc.{strtol_16}
use nftlb.Enums.{State, Action, Mode, SessionType, Key}
use nftlb.Model.{Session, Backend, Farm}
use nftlb.Backends.Lookup.{backend_lookup_by_key}
use nftlb.Sessions.Lists.{SessionList, sessions_of, with_sessions, delete_all, set_action_all}

unfoldable pub backend_id : Option Backend → Option ℕ
backend_id none = none
backend_id (some b) = some b.id

-- The backend that the text names, in the form that the mode of the farm keeps in the kernel.
unfoldable pub session_backend : ℕ → Farm → Mode → String → Option ℕ
unfolding backend_lookup_by_key strtol_16 backend_id
session_backend masquerade_mark f Mode.dnat bck =
    backend_id (backend_lookup_by_key masquerade_mark f Key.mark "" (strtol_16 (codes bck)))
session_backend masquerade_mark f Mode.snat bck =
    backend_id (backend_lookup_by_key masquerade_mark f Key.mark "" (strtol_16 (codes bck)))
session_backend masquerade_mark f Mode.dsr bck =
    backend_id (backend_lookup_by_key masquerade_mark f Key.ethaddr bck (pos 0))
session_backend masquerade_mark f Mode.stlsdnat bck =
    backend_id (backend_lookup_by_key masquerade_mark f Key.ipaddr bck (pos 0))
session_backend masquerade_mark f Mode.local bck = none

abbrev pub session_bck : ℕ → Farm → Option String → Option ℕ
session_bck masquerade_mark f none = none
session_bck masquerade_mark f (some bck) =
    if str_eq bck "" then none else session_backend masquerade_mark f f.mode bck

abbrev pub add_tail : Session → SessionList → SessionList
add_tail s l = record { sessions = l.sessions ++ s ∷ []; total = l.total + 1 }

unfoldable pub new_session :
    ℕ → ℕ → Farm → SessionType → String → Option String → Option String → Session
unfolding session_backend
new_session masquerade_mark id f SessionType.static client bck expiration = record {
  id = id;
  client = client;
  bck = session_bck masquerade_mark f bck;
  expiration = none;
  state = State.off;
  action = Action.none;
}
new_session masquerade_mark id f SessionType.timed client bck expiration = record {
  id = id;
  client = client;
  bck = session_bck masquerade_mark f bck;
  expiration = expiration;
  state = State.up;
  action = Action.none;
}

-- `id` is the address of the new node. There is no farm in the result where the client is missing.
unfoldable pub session_create :
    ℕ → ℕ → Farm → SessionType → Option String → Option String → Option String → Option Farm
unfolding sessions_of with_sessions new_session
session_create masquerade_mark id f type none bck expiration = none
session_create masquerade_mark id f type (some client) bck expiration =
    let s = new_session masquerade_mark id f type client bck expiration in
    if str_eq client "" then none else some (with_sessions f type (add_tail s (sessions_of f type)))

unfoldable pub session_s_delete : Farm → SessionType → Farm
unfolding sessions_of with_sessions delete_all
session_s_delete f type =
    let l = sessions_of f type in with_sessions f type (delete_all l.sessions l)

-- The loop over one list, under the test of its total.
unfoldable pub set_action_of : Option ℕ → Action → SessionType → Farm × ℕ → Farm × ℕ
unfolding sessions_of with_sessions set_action_all
set_action_of b action type (f, ret) =
    let l = sessions_of f type in
    let (l', ret') = set_action_all b action l.sessions (l, ret) in
    if l.total == 0 then (f, ret) else (with_sessions f type l', ret')

unfoldable pub session_s_set_action : Farm → Option ℕ → Action → Farm × ℕ
unfolding set_action_of
session_s_set_action f b action =
    set_action_of b action SessionType.timed (set_action_of b action SessionType.static (f, 0))
