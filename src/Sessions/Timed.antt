-- ===== src/Sessions/Timed.antt =====
-- nft_parse_sessions, session_get_timed and session_backend_action of src/sessions.c: the sessions that
-- the kernel keeps of a farm, read from the text that nft lists them in, and the action of a backend on
-- its sessions. A buffer of 100 characters that the source copies a part of the text to is a text of
-- any length.
use nftlb.Prelude.{
  ℕ, zero, suc, ◌+◌, ◌==◌, Bool, true, false, ◌&&◌, ◌||◌, List, [], ◌∷◌, Option, none, some, String,
  if◌then◌else◌, split_at, str_length, find?,
}
use Prim.Native.Char.{code}
use nftlb.Enums.{Action, SessionType, Mode, is_mode}
use nftlb.Model.{Session, Farm, FarmAddress, Address, Backend}
use nftlb.Network.{Net}
use nftlb.Backends.Predicates.{backend_get_mark, farm_is_ingress_mode}
use nftlb.FarmAddresses.Links.{address_at}
use nftlb.Sessions.Lists.{SessionList, sessions_of, with_sessions, session_set_action}
use nftlb.Sessions.Operations.{session_create, session_s_delete}

-- An element of the set as a round of the loop reads it, the text behind it, and whether a comma
-- follows it.
pub record Element : Type 0 where
  pub client : String
  pub expires : String
  pub bck : String
  pub rest : String
  pub next : Bool

-- `while (*fin_ptr == '\n' || *fin_ptr == '\t' || *fin_ptr == ' ') fin_ptr++`
unfoldable pub skip_blanks : String → String
skip_blanks String.[] = ""
skip_blanks (String.◌∷◌ c s) =
    if code c == 10 || code c == 9 || code c == b' ' then skip_blanks s else String.◌∷◌ c s

-- What follows " : ": the backend, up to a comma, or to a blank where there is no comma.
abbrev pub read_backend :
    String → String → Option (String × String) → Option (String × String) → Option Element
read_backend client expires (some (bck, rest)) blank =
    some (record {
      client = client;
      expires = expires;
      bck = bck;
      rest = skip_blanks rest;
      next = true;
    })
read_backend client expires none (some (bck, rest)) = some (record {
  client = client;
  expires = expires;
  bck = bck;
  rest = skip_blanks rest;
  next = false;
})
read_backend client expires none none = none

abbrev pub read_expires : String → Option (String × String) → Option Element
read_expires client none = none
read_expires client (some (expires, s)) =
    read_backend client expires (split_at "," s) (split_at " " s)

-- The client stands before " timeout ", or else before " expires ", wherever these come first.
abbrev pub read_client : Option (String × String) → Option (String × String) → Option Element
read_client timeout none = none
read_client none (some (client, s)) = read_expires client (split_at " : " s)
read_client (some (client, _)) (some (_, s)) = read_expires client (split_at " : " s)

-- A round of the loop up to session_create: nothing where the function returns.
unfoldable pub next_element : String → Option Element
unfolding split_at skip_blanks
next_element s = read_client (split_at " timeout " s) (split_at " expires " s)

-- The two loops, over the sessions that stood in the list when the loop started.
unfoldable pub act_on : (Option ℕ → Bool) → Action → List Session → SessionList → SessionList
unfolding session_set_action
act_on is_of action [] l = l
act_on is_of action (s ∷ ss) l =
    act_on is_of action ss (if is_of s.bck then (session_set_action s action l).0 else l)

unfoldable pub act_on_type : (Option ℕ → Bool) → Action → SessionType → Farm → Farm
unfolding act_on sessions_of with_sessions
act_on_type is_of action type f =
    let l = sessions_of f type in
    if l.total == 0 then f else with_sessions f type (act_on is_of action l.sessions l)

abbrev pub backend_at : ℕ → List Backend → Option Backend
backend_at i = find? (λ b. b.id == i)

module _ (masquerade_mark : ℕ) where
  -- The mark of the backend that a session points to is the one of the backend.
  abbrev same_mark : Farm → Backend → Option Backend → Bool
  same_mark f b none = false
  same_mark f b (some other) =
      backend_get_mark masquerade_mark f b == backend_get_mark masquerade_mark f other

  unfoldable pub static_is_of : Farm → Backend → Option ℕ → Bool
  unfolding backend_get_mark
  static_is_of f b none = false
  static_is_of f b (some i) =
      (is_mode f.mode Mode.dnat || is_mode f.mode Mode.snat || is_mode f.mode Mode.local)
        && same_mark f b (backend_at i f.backends)
      || (is_mode f.mode Mode.dsr || is_mode f.mode Mode.stlsdnat) && b.id == i

  unfoldable pub timed_is_of : Farm → Backend → Option ℕ → Bool
  unfolding backend_get_mark farm_is_ingress_mode
  timed_is_of f b none = false
  timed_is_of f b (some i) =
      farm_is_ingress_mode f && b.id == i || same_mark f b (backend_at i f.backends)

module _ (net : Net) (masquerade_mark : ℕ) where
  abbrev created : Farm → Option Farm → Farm
  created f none = f
  created f (some g) = g

  unfoldable pub add_element : Element → Farm → Farm
  unfolding session_create
  add_element e f = created f (
      session_create masquerade_mark (net.new_node f) f SessionType.timed (some e.client)
        (some e.bck) (some e.expires))

  -- The loop from the label new_session, on fuel. The test of the character behind an element,
  -- `*fin_ptr != '}' || *fin_ptr != '\0'`, always holds.
  unfoldable pub parse_elements : ℕ → String → Farm → Farm
  unfolding next_element add_element
  parse_elements zero s f = f
  parse_elements (suc fuel) s f = elim (next_element s) [
    | none ↦ f
    | some e ↦
        let more = parse_elements fuel e.rest (add_element e f) in
        if e.next then more else add_element e f
  ]

  abbrev parse_set : Option (String × String) → Farm → Farm
  unfolding parse_elements
  parse_set none f = f
  parse_set (some (_, s)) f = parse_elements (str_length s + 1) s f

  unfoldable pub nft_parse_sessions : String → Farm → Farm
  unfolding split_at parse_set
  nft_parse_sessions buf f = parse_set (split_at "elements = { " buf) f

  abbrev read_address : FarmAddress → Option Address → Farm → Farm
  unfolding nft_parse_sessions
  read_address fa none f = f
  read_address fa (some a) f = nft_parse_sessions (net.sessions_buffer f a fa.action) f

  unfoldable pub get_timed_loop : List Address → List FarmAddress → Farm → Farm
  unfolding read_address
  get_timed_loop addresses [] f = f
  get_timed_loop addresses (fa ∷ fas) f =
      get_timed_loop addresses fas (read_address fa (address_at fa.address addresses) f)

  unfoldable pub session_get_timed : List Address → Farm → Farm
  unfolding get_timed_loop
  session_get_timed addresses f =
      get_timed_loop addresses f.addresses (record f { total_timed_sessions = 0 })

  unfoldable pub session_backend_action : List Address → Backend → Action → Farm → Farm
  unfolding static_is_of timed_is_of act_on_type session_get_timed session_s_delete
  session_backend_action addresses b action f =
      let hastimed : Bool = if f.total_timed_sessions == 0 then false else true in
      let f1 = act_on_type (static_is_of masquerade_mark f b) action SessionType.static f in
      let f2 = if hastimed then f1 else session_get_timed addresses f1 in
      let f3 = act_on_type (timed_is_of masquerade_mark f2 b) action SessionType.timed f2 in
      if hastimed then f3 else session_s_delete f3 SessionType.timed
