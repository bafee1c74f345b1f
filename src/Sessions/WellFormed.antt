-- ===== src/Sessions/WellFormed.antt =====
-- The operations of src/sessions.c keep the totals of a farm's sessions, and what session_s_set_action
-- does to both lists.
use nftlb.Prelude.{
  ℕ, ◌+◌, ◌-◌, ◌≡◌, refl, sym, ap, ◌∙◌, Bool, true, false, ◌&&◌, List, [], ◌∷◌, Option, none, some,
  subst, arith, length, count, All, ◌==◌, if◌then◌else◌, Bool-cases, inl, inr,
}
use nftlb.Enums.{Action, SessionType}
use nftlb.Model.{Session, Farm}
use nftlb.Sessions.Lists.{
  SessionList, sessions_of, with_sessions, remove, session_delete_node, is_for, set_action_all,
  delete_all,
}
use nftlb.Sessions.Operations.{session_s_delete, set_action_of, session_s_set_action}
use nftlb.Sessions.Pointwise.{
  IsDistinct, after, after_all, changes, prepend, set_action_all-Pointwise,
}

-- The total is the length, and no node stands twice in the list.
abbrev pub IsList : SessionList → Type 0
IsList l = (l.total ≡ length l.sessions) × IsDistinct l.sessions

abbrev pub IsWellFormed : Farm → Type 0
IsWellFormed f = (type : SessionType) → IsList (sessions_of f type)

abbrev pub other : SessionType → SessionType
other SessionType.static = SessionType.timed
other SessionType.timed = SessionType.static

abbrev SameId : Session → Option Session → Type 0
SameId s none = Unit
SameId s (some t) = t.id ≡ s.id

choose-SameId :
    (s : Session) (q : Bool) (x y : Option Session)
    → SameId s x
    → SameId s y
    → SameId s (if q then x else y)
choose-SameId s true x y hx hy = hx
choose-SameId s false x y hx hy = hy

after-SameId : (a : Action) (s : Session) → SameId s (after a s)
after-SameId Action.delete s = choose-SameId s _ (some s) none refl tt
after-SameId Action.stop s = choose-SameId s _ (some _) (some s) refl refl
after-SameId Action.start s = choose-SameId s _ (some _) (some s) refl refl
after-SameId Action.reload s = choose-SameId s _ (some _) (some s) refl refl
after-SameId Action.flush s = refl
after-SameId Action.none s = refl

prepend-All :
    (P : ℕ → Type 0) (s : Session) (o : Option Session) (ss : List Session)
    → SameId s o
    → P s.id
    → All (λ t. P t.id) ss
    → All (λ t. P t.id) (prepend o ss)
prepend-All P s none ss same p ps = ps
prepend-All P s (some t) ss same p ps = (subst P (sym same) p, ps)

prepend-IsDistinct :
    (s : Session) (o : Option Session) (ss : List Session)
    → SameId s o
    → All (λ t. (s.id == t.id) ≡ false) ss
    → IsDistinct ss
    → IsDistinct (prepend o ss)
prepend-IsDistinct s none ss same others d = d
prepend-IsDistinct s (some t) ss same others d =
    (subst (λ i. All (λ u. (i == u.id) ≡ false) ss) (sym same) others, d)

list_eq :
    (e : SessionList × ℕ) {ss : List Session} {t r : ℕ}
    → e.0.sessions ≡ ss
    → e.0.total ≡ t
    → e.1 ≡ r
    → e ≡ (record { sessions = ss; total = t }, r)
list_eq e p q h = rw (p, q, h) refl

with_sessions_same : (f : Farm) (type : SessionType) → with_sessions f type (sessions_of f type) ≡ f
unfolding with_sessions sessions_of
with_sessions_same f SessionType.static = refl
with_sessions_same f SessionType.timed = refl

module _ (b : Option ℕ) (a : Action) where
  step-SameId : (s : Session) → SameId s (if is_for b s then after a s else some s)
  step-SameId s = choose-SameId s (is_for b s) (after a s) (some s) (after-SameId a s) refl

  after_all-All :
      (P : ℕ → Type 0) (ss : List Session)
      → All (λ t. P t.id) ss
      → All (λ t. P t.id) (after_all b a ss)
  after_all-All P [] ps = tt
  after_all-All P (s ∷ ss) ps =
      prepend-All P s _ (after_all b a ss) (step-SameId s) ps.0 (after_all-All P ss ps.1)

  after_all-IsDistinct : (ss : List Session) → IsDistinct ss → IsDistinct (after_all b a ss)
  after_all-IsDistinct [] d = tt
  after_all-IsDistinct (s ∷ ss) d =
      prepend-IsDistinct s _ (after_all b a ss) (step-SameId s)
        (after_all-All (λ i. (s.id == i) ≡ false) ss d.0) (after_all-IsDistinct ss d.1)

  -- The list that a loop of session_s_set_action leaves.
  abbrev after_list : SessionList → SessionList
  after_list l = let ss = after_all b a l.sessions in record { sessions = ss; total = length ss }

  abbrev changed : SessionList → ℕ
  changed l = count (λ s. is_for b s && changes a s) l.sessions

  set_action_all-after_list :
      (l : SessionList) (r : ℕ)
      → IsList l
      → set_action_all b a l.sessions (l, r) ≡ (after_list l, r + changed l)
  set_action_all-after_list l r h =
      let p = set_action_all-Pointwise b a l.sessions l.total r h.1 (omega (arith, h.0)) in
      list_eq (set_action_all b a l.sessions (l, r)) p.0 (omega (arith, p.1, h.0)) p.2

  after_list-empty :
      (ss : List Session) (n : ℕ)
      → n ≡ length ss
      → (n == 0) ≡ true
      → (after_list (record { sessions = ss; total = n }) ≡ record { sessions = ss; total = n })
        × (changed (record { sessions = ss; total = n }) ≡ 0)
  after_list-empty [] n h zero_total = (rw h refl, refl)
  after_list-empty (s ∷ ss) n h zero_total = absurd (ground (arith, h))

  set_action_of-after_list :
      (type : SessionType) (f : Farm) (r : ℕ)
      → IsList (sessions_of f type)
      → set_action_of b a type (f, r)
        ≡ (with_sessions f type (after_list (sessions_of f type)), r + changed (sessions_of f type))
  unfolding set_action_of
  set_action_of-after_list type f r h =
      let l = sessions_of f type in
      elim (Bool-cases (l.total == 0)) [
        | inl empty ↦
            let e = after_list-empty l.sessions l.total h.0 empty in
            rw (empty, e.0, e.1, with_sessions_same f type) (ap (λ k. (f, k)) (omega arith))
        | inr nonempty ↦ rw (nonempty, set_action_all-after_list l r h) refl
      ]

-- On a well-formed farm, session_s_set_action makes of both lists what the action makes of each of
-- their sessions that is for the backend, in the same order; the farm stays well-formed, and the
-- result is the number of the sessions that the action deletes or turns on or off.
pub session_s_set_action-after_all :
    (f : Farm) (b : Option ℕ) (a : Action)
    → IsWellFormed f
    → ((type : SessionType)
        → (sessions_of (session_s_set_action f b a).0 type).sessions
          ≡ after_all b a (sessions_of f type).sessions)
      × IsWellFormed (session_s_set_action f b a).0
      × ((session_s_set_action f b a).1
          ≡ count (λ s. is_for b s && changes a s) f.static_sessions
            + count (λ s. is_for b s && changes a s) f.timed_sessions)
unfolding session_s_set_action sessions_of with_sessions
session_s_set_action-after_all f b a h =
    let l = sessions_of f SessionType.static in
    let m = sessions_of f SessionType.timed in
    let g = with_sessions f SessionType.static (after_list b a l) in
    let e =
      ap (λ x. set_action_of b a SessionType.timed x)
        (set_action_of-after_list b a SessionType.static f 0 (h SessionType.static))
      ∙ set_action_of-after_list b a SessionType.timed g (0 + changed b a l)
          (h SessionType.timed) in
    rw e (
      elim [ SessionType.static ↦ refl | SessionType.timed ↦ refl ],
      elim [
        | SessionType.static ↦
            (refl, after_all-IsDistinct b a f.static_sessions (h SessionType.static).1)
        | SessionType.timed ↦
            (refl, after_all-IsDistinct b a f.timed_sessions (h SessionType.timed).1)
      ],
      omega arith,
    )

delete_all-empty :
    (ss : List Session) (n : ℕ)
    → n ≡ length ss
    → delete_all ss (record { sessions = ss; total = n }) ≡ record { sessions = []; total = 0 }
unfolding delete_all session_delete_node remove
delete_all-empty [] n h = rw h refl
delete_all-empty (s ∷ ss) n h =
    let here : (s.id == s.id) ≡ true = ground arith in
    rw here (delete_all-empty ss (n - 1) (omega (arith, h)))

-- Deleting the sessions of a type, of a well-formed farm, empties their list, sets their total to 0 and leaves the
-- sessions of the other type.
pub session_s_delete_lem :
    (f : Farm) (type : SessionType)
    → IsWellFormed f
    → (sessions_of (session_s_delete f type) type ≡ record { sessions = []; total = 0 })
      × (sessions_of (session_s_delete f type) (other type) ≡ sessions_of f (other type))
unfolding session_s_delete sessions_of with_sessions
session_s_delete_lem f SessionType.static h =
    (delete_all-empty f.static_sessions f.total_static_sessions (h SessionType.static).0, refl)
session_s_delete_lem f SessionType.timed h =
    (delete_all-empty f.timed_sessions f.total_timed_sessions (h SessionType.timed).0, refl)
