-- ===== src/Sessions/Pointwise.antt =====
-- What session_s_set_action and session_s_delete of src/sessions.c do to the lists, session by session.
use nftlb.Prelude.{
  ℕ, suc, ◌+◌, ◌-◌, ◌≤◌, ◌≡◌, refl, sym, ap, Bool, true, false, ◌&&◌, not, List, [], ◌∷◌, Option,
  none, some, arith, length, count, All, ◌==◌, if◌then◌else◌, Bool-cases, inl, inr,
}
use nftlb.Enums.{State, Action, is_state, is_action}
use nftlb.Model.{Session}
use nftlb.Sessions.Lists.{
  SessionList, Change, decide, perform, remove, put, session_delete_node, session_set_action,
  has_backend, is_for, set_action_all,
}

-- No two nodes have the same address.
abbrev pub IsDistinct : List Session → Type 0
IsDistinct [] = Unit
IsDistinct (s ∷ ss) = All (λ t. (s.id == t.id) ≡ false) ss × IsDistinct ss

-- What a session becomes by an action; `none` where it is deleted.
abbrev pub after : Action → Session → Option Session
after Action.delete s = if is_action s.action Action.delete then some s else none
after Action.stop s =
    if not (is_action s.action Action.stop) && is_state s.state State.up
    then some (record s { action = Action.stop; state = State.off })
    else some s
after Action.start s =
    if not (is_action s.action Action.start) && (not (is_state s.state State.up) && has_backend s)
    then some (record s { action = Action.start; state = State.up })
    else some s
after Action.reload s =
    if is_state s.state State.up && has_backend s
    then some (record s { action = Action.reload })
    else some s
after Action.flush s = some s
after Action.none s = some s

-- The action changes the state of the session, or deletes it.
abbrev pub changes : Action → Session → Bool
changes Action.delete s = not (is_action s.action Action.delete)
changes Action.stop s = not (is_action s.action Action.stop) && is_state s.state State.up
changes Action.start s =
    not (is_action s.action Action.start) && (not (is_state s.state State.up) && has_backend s)
changes action s = false

abbrev pub prepend : Option Session → List Session → List Session
prepend none ss = ss
prepend (some s) ss = s ∷ ss

abbrev pub after_all : Option ℕ → Action → List Session → List Session
after_all b action [] = []
after_all b action (s ∷ ss) =
    prepend (if is_for b s then after action s else some s) (after_all b action ss)

-- The list with a node in front.
abbrev cons : Session → SessionList → SessionList
cons x l = record l { sessions = x ∷ l.sessions }

abbrev result : Session → Change → Option Session
result s Change.keep = some s
result s Change.delete = none
result s (Change.update s' r) = some s'

abbrev returned : Change → ℕ
returned Change.keep = 0
returned Change.delete = 1
returned (Change.update s' r) = r

-- An update keeps the node's address.
abbrev SameNode : Session → Change → Type 0
SameNode s Change.keep = Unit
SameNode s Change.delete = Unit
SameNode s (Change.update s' r) = s'.id ≡ s.id

decide_lem :
    (s : Session) (a : Action)
    → (result s (decide s a) ≡ after a s)
      × (returned (decide s a) ≡ (if changes a s then 1 else 0))
      × SameNode s (decide s a)
unfolding decide
decide_lem s Action.delete = ground arith
decide_lem s Action.stop = ground arith
decide_lem s Action.start = ground arith
decide_lem s Action.reload = ground arith
decide_lem s Action.flush = ground arith
decide_lem s Action.none = ground arith

-- A node in front that is not the session's stays there.
perform-cons :
    (x s : Session) (c : Change) (l : SessionList)
    → (x.id == s.id) ≡ false
    → SameNode s c
    → perform s c (cons x l) ≡ (cons x (perform s c l).0, (perform s c l).1)
unfolding perform session_delete_node remove put
perform-cons x s Change.keep l other same = refl
perform-cons x s Change.delete l other same = rw other refl
perform-cons x s (Change.update s' r) l other same =
    let other' : (x.id == s'.id) ≡ false = rw same other in rw other' refl

module _ (b : Option ℕ) (a : Action) where
  set_action_all-mine :
      (s : Session) (ss : List Session) (l : SessionList) (r : ℕ)
      → is_for b s ≡ true
      → set_action_all b a (s ∷ ss) (l, r)
        ≡ set_action_all b a ss ((perform s (decide s a) l).0, r + (perform s (decide s a) l).1)
  unfolding set_action_all session_set_action
  set_action_all-mine s ss l r mine = rw mine refl

  set_action_all-other :
      (s : Session) (ss : List Session) (l : SessionList) (r : ℕ)
      → is_for b s ≡ false
      → set_action_all b a (s ∷ ss) (l, r) ≡ set_action_all b a ss (l, r)
  unfolding set_action_all
  set_action_all-other s ss l r other = rw other refl

  set_action_all-cons :
      (x : Session) (ss : List Session) (l : SessionList) (r : ℕ)
      → All (λ t. (x.id == t.id) ≡ false) ss
      → set_action_all b a ss (cons x l, r)
        ≡ (cons x (set_action_all b a ss (l, r)).0, (set_action_all b a ss (l, r)).1)
  unfolding set_action_all
  set_action_all-cons x [] l r others = refl
  set_action_all-cons x (s ∷ ss) l r others = elim (Bool-cases (is_for b s)) [
    | inl mine ↦
        rw
          (
            set_action_all-mine s ss (cons x l) r mine,
            set_action_all-mine s ss l r mine,
            perform-cons x s (decide s a) l others.0 (decide_lem s a).2,
          )
          (set_action_all-cons x ss (perform s (decide s a) l).0 (r + (perform s (decide s a) l).1)
            others.1)
    | inr other ↦
        rw (set_action_all-other s ss (cons x l) r other, set_action_all-other s ss l r other)
          (set_action_all-cons x ss l r others.1)
  ]

  -- The loop over a list: the list it leaves, its total, and the changes it returns.
  abbrev pub Pointwise : List Session → ℕ → ℕ → Type 0
  Pointwise ss n r =
      let end = set_action_all b a ss (record { sessions = ss; total = n }, r) in
      (end.0.sessions ≡ after_all b a ss)
      × (end.0.total + length ss ≡ n + length (after_all b a ss))
      × (end.1 ≡ r + count (λ s. is_for b s && changes a s) ss)

  -- The same after a change of a node in front of the list.
  AfterChange : Session → Change → List Session → ℕ → ℕ → SessionList × ℕ → Type 0
  AfterChange s c ss n r end =
      (end.0.sessions ≡ prepend (result s c) (after_all b a ss))
      × (end.0.total + suc (length ss) ≡ n + length (prepend (result s c) (after_all b a ss)))
      × (end.1 ≡ r + returned c + count (λ s. is_for b s && changes a s) ss)

  front_kept :
      (s x : Session) (ss : List Session) (n r k : ℕ)
      → All (λ t. (x.id == t.id) ≡ false) ss
      → Pointwise ss n (r + k)
      → AfterChange s
          (Change.update x k)
          ss
          n
          r
          (set_action_all b a ss (cons x (record { sessions = ss; total = n }), r + k))
  unfolding AfterChange
  front_kept s x ss n r k others h =
      rw (set_action_all-cons x ss (record { sessions = ss; total = n }) (r + k) others)
        (ap (λ l. x ∷ l) h.0, omega (arith, h.1), h.2)

  change_front :
      (s : Session) (c : Change) (ss : List Session) (n r : ℕ)
      → SameNode s c
      → All (λ t. (s.id == t.id) ≡ false) ss
      → suc (length ss) ≤ n
      → ((n' r' : ℕ) → length ss ≤ n' → Pointwise ss n' r')
      → AfterChange s c ss n r (
          set_action_all b a ss (
            (perform s c (record { sessions = s ∷ ss; total = n })).0,
            r + (perform s c (record { sessions = s ∷ ss; total = n })).1,
          ))
  unfolding perform session_delete_node remove put AfterChange
  change_front s Change.keep ss n r same others enough rest =
      front_kept s s ss n r 0 others (rest n (r + 0) (omega (arith, enough)))
  change_front s Change.delete ss n r same others enough rest =
      let here : (s.id == s.id) ≡ true = ground arith in
      let h = rest (n - 1) (r + 1) (omega (arith, enough)) in
      rw here (h.0, omega (arith, h.1, enough), h.2)
  change_front s (Change.update s' k) ss n r same others enough rest =
      let here : (s.id == s'.id) ≡ true = ground arith in
      let others' : All (λ t. (s'.id == t.id) ≡ false) ss = rw same others in
      rw here (front_kept s s' ss n r k others' (rest n (r + k) (omega (arith, enough))))

  pub set_action_all-Pointwise :
      (ss : List Session) (n r : ℕ) → IsDistinct ss → length ss ≤ n → Pointwise ss n r
  unfolding set_action_all AfterChange
  set_action_all-Pointwise [] n r distinct enough = (refl, refl, omega arith)
  set_action_all-Pointwise (s ∷ ss) n r distinct enough =
      let c = decide s a in
      let rest : (n' r' : ℕ) → length ss ≤ n' → Pointwise ss n' r' =
        λ n' r' e. set_action_all-Pointwise ss n' r' distinct.1 e in
      elim (Bool-cases (is_for b s)) [
        | inl mine ↦
            let h = change_front s c ss n r (decide_lem s a).2 distinct.0 enough rest in
            rw
              (
                set_action_all-mine s ss (record { sessions = s ∷ ss; total = n }) r mine,
                mine,
                sym (decide_lem s a).0,
                sym (decide_lem s a).1,
              )
              (h.0, h.1, omega (arith, h.2))
        | inr other ↦
            let h = rest n r (omega (arith, enough)) in
            rw
              (
                set_action_all-other s ss (record { sessions = s ∷ ss; total = n }) r other,
                other,
                set_action_all-cons s ss (record { sessions = ss; total = n }) r distinct.0,
              )
              (ap (λ l. s ∷ l) h.0, omega (arith, h.1), omega (arith, h.2))
      ]
