-- ===== src/Sessions/Creation.antt =====
-- session_create of src/sessions.c keeps the sessions of a farm well-formed.
use nftlb.Prelude.{
  ℕ, ◌≡◌, ◌⊎◌, refl, ap, subst, Bool, true, false, ◌≢◌, ◌∙◌, List, [], ◌∷◌, ◌++◌, Option, none,
  some, String, arith, length-append, All, ◌==◌, Bool-cases, inl, inr, str_eq, str_eq_iff,
}
use nftlb.Enums.{SessionType}
use nftlb.Model.{Session, Farm}
use nftlb.Sessions.Lists.{SessionList, sessions_of, with_sessions}
use nftlb.Sessions.Operations.{new_session, add_tail, session_create}
use nftlb.Sessions.Pointwise.{IsDistinct}
use nftlb.Sessions.WellFormed.{IsList, IsWellFormed, other}

append-All :
    (ss : List Session) (t : Session) (i : ℕ)
    → (i == t.id) ≡ false
    → All (λ s. (i == s.id) ≡ false) ss
    → All (λ s. (i == s.id) ≡ false) (ss ++ t ∷ [])
append-All [] t i new h = (new, tt)
append-All (s ∷ ss) t i new h = (h.0, append-All ss t i new h.1)

append-IsDistinct :
    (ss : List Session) (t : Session)
    → All (λ s. (s.id == t.id) ≡ false) ss
    → IsDistinct ss
    → IsDistinct (ss ++ t ∷ [])
append-IsDistinct [] t fresh d = (tt, tt)
append-IsDistinct (s ∷ ss) t fresh d =
    (append-All ss t s.id fresh.0 d.0, append-IsDistinct ss t fresh.1 d.1)

add_tail-IsList :
    (l : SessionList) (t : Session)
    → All (λ s. (s.id == t.id) ≡ false) l.sessions
    → IsList l
    → IsList (add_tail t l)
add_tail-IsList l t fresh h = (
  omega (arith, h.0, length-append l.sessions (t ∷ [])),
  append-IsDistinct l.sessions t fresh h.1,
)

-- What session_create leaves: no farm where the client is missing; otherwise a well-formed farm whose
-- sessions of the type are those of before and the new one at the end, of the given client, which is not
-- empty.
abbrev pub Created : Farm → SessionType → Option String → Option Farm → Type 0
Created f type client none = (client ≡ none) ⊎ (client ≡ some "")
Created f type client (some g) =
    IsWellFormed g
    × ((s : Session) × ((sessions_of g type).sessions ≡ (sessions_of f type).sessions ++ s ∷ [])
        × (client ≡ some s.client)
        × (s.client ≢ ""))
    × (sessions_of g (other type) ≡ sessions_of f (other type))

not_both : (q : Bool) → q ≡ true → q ≡ false → ⊥
not_both true h k = cc
not_both false h k = cc

create_to :
    (f : Farm) (type : SessionType) (client : String) (s : Session)
    → client ≡ s.client
    → s.client ≢ ""
    → All (λ t. (t.id == s.id) ≡ false) (sessions_of f type).sessions
    → IsWellFormed f
    → Created f type (some client) (some (with_sessions f type (add_tail s (sessions_of f type))))
unfolding sessions_of with_sessions
create_to f SessionType.static client s named given fresh h = (
  elim [
    | SessionType.static ↦
        add_tail-IsList (sessions_of f SessionType.static) s fresh (h SessionType.static)
    | SessionType.timed ↦ h SessionType.timed
  ],
  (s, refl, ap some named, given),
  refl,
)
create_to f SessionType.timed client s named given fresh h = (
  elim [
    | SessionType.static ↦ h SessionType.static
    | SessionType.timed ↦
        add_tail-IsList (sessions_of f SessionType.timed) s fresh (h SessionType.timed)
  ],
  (s, refl, ap some named, given),
  refl,
)

new_session-fields :
    (masquerade_mark id : ℕ) (f : Farm) (type : SessionType) (client : String)
    (bck expiration : Option String)
    → (client ≡ (new_session masquerade_mark id f type client bck expiration).client)
      × (id ≡ (new_session masquerade_mark id f type client bck expiration).id)
unfolding new_session
new_session-fields masquerade_mark id f SessionType.static client bck expiration = (refl, refl)
new_session-fields masquerade_mark id f SessionType.timed client bck expiration = (refl, refl)

-- session_create on a well-formed farm, with a node that its sessions do not have, fails exactly
-- where the client is NULL or empty, and otherwise adds one session of the client at the end of the
-- list of the type and leaves the farm well-formed.
pub session_create-Created :
    (masquerade_mark id : ℕ) (f : Farm) (type : SessionType) (client bck expiration : Option String)
    → IsWellFormed f
    → All (λ s. (s.id == id) ≡ false) (sessions_of f type).sessions
    → Created f type client (session_create masquerade_mark id f type client bck expiration)
unfolding session_create sessions_of with_sessions new_session
session_create-Created masquerade_mark id f type none bck expiration h fresh = inl refl
session_create-Created masquerade_mark id f type (some client) bck expiration h fresh =
    let n = new_session-fields masquerade_mark id f type client bck expiration in
    elim (Bool-cases (str_eq client "")) [
      | inl empty ↦ rw empty (inr (ap some ((str_eq_iff client "").0 empty)))
      | inr given ↦ rw given (
          create_to f type client (new_session masquerade_mark id f type client bck expiration) n.0
            (λ none_given.
              not_both (str_eq client "") ((str_eq_iff client "").1 (n.0 ∙ none_given)) given)
            (subst (λ i. All (λ t. (t.id == i) ≡ false) (sessions_of f type).sessions) n.1 fresh) h)
    ]
