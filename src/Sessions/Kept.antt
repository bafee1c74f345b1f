-- ===== src/Sessions/Kept.antt =====
-- What src/sessions.c leaves alone where it reads the sessions of the kernel or acts on the sessions
-- of a backend.
use nftlb.Prelude.{
  ℕ, zero, suc, ◌+◌, ◌≡◌, refl, ◌∙◌, Bool, true, false, List, [], ◌∷◌, Option, String,
  if◌then◌else◌, split_at, str_length, Option-cases, Bool-cases, inl, inr, ◌==◌, str_eq,
}
use nftlb.Enums.{Action, SessionType}
use nftlb.Model.{Farm, FarmAddress, Address, Backend}
use nftlb.Network.{Net}
use nftlb.FarmAddresses.Links.{address_at}
use nftlb.Sessions.Lists.{SessionList, sessions_of, with_sessions}
use nftlb.Sessions.Operations.{session_create, session_s_delete}
use nftlb.Sessions.Timed.{
  Element, next_element, add_element, parse_elements, nft_parse_sessions, get_timed_loop,
  session_get_timed, session_backend_action, static_is_of, timed_is_of, act_on_type,
}

-- The farm without its sessions.
unfoldable pub but_sessions : Farm → Farm
but_sessions f = record f {
  static_sessions = [];
  total_static_sessions = 0;
  timed_sessions = [];
  total_timed_sessions = 0;
}

but_sessions-with_sessions :
    (f : Farm) (type : SessionType) (l : SessionList)
    → but_sessions (with_sessions f type l) ≡ but_sessions f
unfolding but_sessions with_sessions
but_sessions-with_sessions f SessionType.static l = refl
but_sessions-with_sessions f SessionType.timed l = refl

if_kept :
    (test : Bool) (f g h : Farm)
    → but_sessions g ≡ but_sessions f
    → but_sessions h ≡ but_sessions f
    → but_sessions (if test then g else h) ≡ but_sessions f
if_kept true f g h p q = p
if_kept false f g h p q = q

session_s_delete-kept :
    (f : Farm) (type : SessionType) → but_sessions (session_s_delete f type) ≡ but_sessions f
unfolding session_s_delete
session_s_delete-kept f type = but_sessions-with_sessions f type _

act_on_type-kept :
    (is_of : Option ℕ → Bool) (action : Action) (type : SessionType) (f : Farm)
    → but_sessions (act_on_type is_of action type f) ≡ but_sessions f
unfolding act_on_type
act_on_type-kept is_of action type f =
    if_kept ((sessions_of f type).total == 0) f f _ refl (but_sessions-with_sessions f type _)

module _ (net : Net) (masquerade_mark : ℕ) where
  add_element-kept :
      (e : Element) (f : Farm) → but_sessions (add_element net masquerade_mark e f) ≡ but_sessions f
  unfolding add_element session_create
  add_element-kept e f = elim (Bool-cases (str_eq e.client "")) [
    | inl nobody ↦ rw nobody refl
    | inr somebody ↦ rw somebody (but_sessions-with_sessions f SessionType.timed _)
  ]

  parse_elements-kept :
      (fuel : ℕ) (s : String) (f : Farm)
      → but_sessions (parse_elements net masquerade_mark fuel s f) ≡ but_sessions f
  unfolding parse_elements
  parse_elements-kept zero s f = refl
  parse_elements-kept (suc fuel) s f = elim (Option-cases (next_element s)) [
    | inl ends ↦ rw (ends, parse_elements) refl
    | inr (e, found) ↦
        let added = add_element-kept e f in
        rw (found, parse_elements)
          (if_kept e.next f _ _
            (parse_elements-kept fuel e.rest (add_element net masquerade_mark e f) ∙ added) added)
  ]

  nft_parse_sessions-kept :
      (buf : String) (f : Farm)
      → but_sessions (nft_parse_sessions net masquerade_mark buf f) ≡ but_sessions f
  unfolding nft_parse_sessions
  nft_parse_sessions-kept buf f = elim (Option-cases (split_at "elements = { " buf)) [
    | inl missing ↦ rw missing refl
    | inr ((b, s), found) ↦ rw found (parse_elements-kept (str_length s + 1) s f)
  ]

  get_timed_loop-kept :
      (addresses : List Address) (fas : List FarmAddress) (f : Farm)
      → but_sessions (get_timed_loop net masquerade_mark addresses fas f) ≡ but_sessions f
  unfolding get_timed_loop
  get_timed_loop-kept addresses [] f = refl
  get_timed_loop-kept addresses (fa ∷ fas) f =
      elim (Option-cases (address_at fa.address addresses)) [
        | inl gone ↦ rw gone (get_timed_loop-kept addresses fas f)
        | inr (a, here) ↦ rw here (
            get_timed_loop-kept addresses fas _
            ∙ nft_parse_sessions-kept (net.sessions_buffer f a fa.action) f)
      ]

  pub session_get_timed-kept :
      (addresses : List Address) (f : Farm)
      → but_sessions (session_get_timed net masquerade_mark addresses f) ≡ but_sessions f
  unfolding session_get_timed but_sessions
  session_get_timed-kept addresses f =
      get_timed_loop-kept addresses f.addresses (record f { total_timed_sessions = 0 })

  -- session_backend_action changes the sessions of the farm and nothing else of it.
  pub session_backend_action-kept :
      (addresses : List Address) (b : Backend) (action : Action) (f : Farm)
      → but_sessions (session_backend_action net masquerade_mark addresses b action f)
        ≡ but_sessions f
  unfolding session_backend_action
  session_backend_action-kept addresses b action f =
      let hastimed : Bool = if f.total_timed_sessions == 0 then false else true in
      let f1 = act_on_type (static_is_of masquerade_mark f b) action SessionType.static f in
      let f2 = if hastimed then f1 else session_get_timed net masquerade_mark addresses f1 in
      let kept1 = act_on_type-kept (static_is_of masquerade_mark f b) action SessionType.static f in
      let kept2 = if_kept hastimed f f1 _ kept1 (session_get_timed-kept addresses f1 ∙ kept1) in
      let kept3 =
        act_on_type-kept (timed_is_of masquerade_mark f2 b) action SessionType.timed f2 ∙ kept2 in
      if_kept hastimed f _ _ kept3 (session_s_delete-kept _ SessionType.timed ∙ kept3)
