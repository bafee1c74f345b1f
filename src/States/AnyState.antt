-- ===== src/States/AnyState.antt =====
-- The calls around a change of state end from any state of a farm of so many backends.
use nftlb.Prelude.{
  ℕ, zero, suc, ◌+◌, ◌≤◌, ◌≡◌, ◌⊎◌, ap, ◌∙◌, true, Option, some, length, arith, inl, inr,
  Bool-cases,
}
use nftlb.Enums.{State, Action}
use nftlb.Model.{Backend}
use nftlb.Network.{Net}
use nftlb.Backends.Counters.{backend_s_update_counters}
use nftlb.Sessions.Timed.{backend_at}
use nftlb.States.Focus.{Focus, farm_manage_eventd, farm_s_update_dsr_counter}
use nftlb.States.Calls.{
  Call, ◌>>=◌, with_farm, backend_set_state, act, farm_set_netinfo, backend_s_validate,
  act_on_addresses_after, take_action, run,
}
use nftlb.States.Alive.{is_alive}
use nftlb.States.Course.{OnCourse, Smaller}
use nftlb.States.Turn.{set_state-OnCourse}
use nftlb.States.Depth.{depth, depth-le, depth-Smaller, levels}
use nftlb.States.Alike.{Alike}
use nftlb.States.Around.{follow_up-keeps}
use nftlb.States.Settles.{
  told, told-OnCourse, yields, gen_priority-keeps, elected-OnCourse, three-le-depth,
  three-le-levels,
}
use nftlb.States.Ends.{
  IsDone, Alike-IsDone, told-Alike, OnCourse-Alike, fuel_closed, set_state-ends, closed_gen,
  closed_resume, open_reload, call_set_state,
}

-- A farm of `n` backends in the state `st`.
pub record IsLike (n : ℕ) (st : State) (s : Focus) : Type 0 where
  pub count : length s.farm.backends ≡ n
  pub state : s.farm.state ≡ st

pub Alike-IsLike :
    (n : ℕ) (st : State) (s t : Focus) → Alike s.farm t.farm → IsLike n st s → IsLike n st t
Alike-IsLike n st s t alike like = record {
  count = alike.count ∙ like.count;
  state = alike.state ∙ like.state;
}

pub counted :
    (n : ℕ) (st : State) (s : Focus)
    → IsLike n st s
    → IsLike n st (with_farm s (backend_s_update_counters s.farm))
unfolding backend_s_update_counters
counted n st s like = record { count = like.count; state = like.state }

pub IsLike-of :
    (s t : Focus) {n : ℕ} {st : State}
    → IsLike n st s
    → OnCourse s t ⊎ IsDone n st t
    → IsLike n st t
IsLike-of s t {n} {st} like (inl on) = Alike-IsLike n st s t (OnCourse-Alike s t on) like
IsLike-of s t {n} {st} like (inr done) = record { count = done.count; state = done.state }

pub without : {P Q R : Type 0} → (P × R) ⊎ Q → P ⊎ Q
without (inl (p, r)) = inl p
without (inr q) = inr q

-- A change of state ends in either case, and keeps the one that it is in.
pub either :
    {x : Option Focus} {P Q R : Focus → Type 0} (u : Focus)
    → P u ⊎ Q u
    → (P u → (t : Focus) × (x ≡ some t) × ((P t × R t) ⊎ Q t))
    → (Q u → (t : Focus) × (x ≡ some t) × Q t)
    → (t : Focus) × (x ≡ some t) × (P t ⊎ Q t)
either u (inl p) f g = let (t, ran, kept) = f p in (t, ran, without kept)
either u (inr q) f g = let (t, ran, q') = g q in (t, ran, inr q')

-- Fuel for the priority of any state of so many backends.
abbrev pub fuel_open : ℕ → ℕ
fuel_open n = fuel_closed n + fuel_closed n

module _ (net : Net) (masquerade_mark : ℕ) (n : ℕ) (st : State) where
  pub acting :
      (m : ℕ) (s t1 : Focus)
      → fuel_closed n + 1 ≤ m
      → yields s.farm.action s.farm.state ≡ true
      → s.farm.state ≡ st
      → run net masquerade_mark m Call.gen_priority (told s) ≡ some t1
      → IsLike n st t1
      → (t : Focus) × (run net masquerade_mark (suc m) (Call.set_action Action.reload) s ≡ some t)
        × IsDone n st t
  acting zero s t1 enough acts state ran like = absurd (omega (arith, enough))
  acting (suc zero) s t1 enough acts state ran like =
      absurd (omega (arith, enough, three-le-levels (suc n)))
  acting (suc (suc k)) s t1 enough acts state ran like =
      open_reload net masquerade_mark n k st s t1 (omega (arith, enough)) acts state ran like.count
        like.state

  -- A reload and the priority behind it, where the priority ends for the reload.
  pub resume_from :
      (m : ℕ) (s : Focus)
      → fuel_closed n + 1 ≤ m
      → IsLike n st s
      → ((t1 : Focus) × (run net masquerade_mark m Call.gen_priority (told s) ≡ some t1)
          × IsLike n st t1)
      → (t : Focus) × ((run net masquerade_mark (suc m) (Call.set_action Action.reload) s
            >>= run net masquerade_mark (suc m) Call.gen_priority)
          ≡ some t)
        × IsDone n st t
  resume_from m s enough like (t1, ran1, like1) =
      elim (Bool-cases (yields s.farm.action s.farm.state)) [
        | inr closed ↦
            closed_resume net masquerade_mark n m st s
              (record { closed = closed; count = like.count; state = like.state })
              (omega (arith, enough))
        | inl acts ↦
            let (t, ran, done) = acting m s t1 enough acts like.state ran1 like1 in
            let (u, ran', done') =
              closed_gen net masquerade_mark n (suc m) st t done (omega (arith, enough)) in
            (u, ap (λ o. o >>= run net masquerade_mark (suc m) Call.gen_priority) ran ∙ ran', done')
      ]

  pub open_gen :
      (m : ℕ) (s : Focus)
      → IsLike n st s
      → fuel_closed n + depth s ≤ m
      → (t : Focus) × (run net masquerade_mark m Call.gen_priority s ≡ some t) × IsLike n st t
  open_gen zero s like enough = absurd (omega (arith, enough, three-le-depth s))
  open_gen (suc zero) s like enough = absurd (omega (arith, enough, three-le-depth s))
  open_gen (suc (suc zero)) s like enough = absurd (omega (arith, enough, three-le-depth s))
  open_gen (suc (suc (suc m))) s like enough =
      let Keeps : Focus → Type 0 = λ u. OnCourse s u ⊎ IsDone n st u in
      let resume : (u : Focus)
          → OnCourse s u
          → Smaller s u
          → (t : Focus) × ((run net masquerade_mark (suc m) (Call.set_action Action.reload) u
                >>= run net masquerade_mark (suc m) Call.gen_priority)
              ≡ some t)
            × IsDone n st t =
        λ u on smaller.
          let (on_told, smaller_told) = told-OnCourse s u on smaller in
          let less = depth-Smaller s (told u) on_told smaller_told in
          let three = three-le-depth (told u) in
          let like_u = Alike-IsLike n st s u (OnCourse-Alike s u on) like in
          resume_from m u (omega (arith, less, enough, three)) like_u (
            open_gen m (told u) (Alike-IsLike n st u (told u) (told-Alike u) like_u)
              (omega (arith, less, enough))) in
      let keeps : (b : Backend) (u : Focus)
          → Keeps u
          → is_alive b ≡ true
          → backend_at b.id u.farm.backends ≡ some b
          → (t : Focus) × (backend_set_state net masquerade_mark (run net masquerade_mark (suc m))
                State.up b u
              ≡ some t)
            × Keeps t =
        λ b u kept living node.
          either u kept
            (λ on.
              set_state-OnCourse net masquerade_mark (run net masquerade_mark (suc m)) s
                (IsDone n st) resume b u living on node)
            (λ done.
              set_state-ends net masquerade_mark (IsDone n st) (run net masquerade_mark (suc m))
                (Alike-IsDone n st)
                (λ v d.
                  closed_resume net masquerade_mark n m st v d
                    (omega (arith, enough, three-le-depth s)))
                State.up b u done) in
      let (t, ran, kept) =
        gen_priority-keeps net masquerade_mark (suc m) Keeps s (inl (elected-OnCourse s)) keeps in
      (
        with_farm t (backend_s_update_counters t.farm),
        ran,
        counted n st t (IsLike-of s t like kept),
      )

  pub any_gen :
      (m : ℕ) (s : Focus)
      → IsLike n st s
      → fuel_open n ≤ m
      → (t : Focus) × (run net masquerade_mark m Call.gen_priority s ≡ some t) × IsLike n st t
  any_gen m s like enough =
      let within = depth-le s in
      let levelled = ap (λ k. levels (suc k)) like.count in
      open_gen m s like (omega (arith, enough, within, levelled))

  pub any_set_state :
      (m : ℕ)
      → fuel_open n + 1 ≤ m
      → (i : ℕ) (new_value : State) (s : Focus) → IsLike n st s
      → (t : Focus) × (run net masquerade_mark (suc (suc m)) (Call.set_state i new_value) s
          ≡ some t)
        × IsLike n st t
  any_set_state m enough i new_value s like =
      call_set_state net masquerade_mark (IsLike n st) (suc m) new_value
        (set_state-ends net masquerade_mark (IsLike n st) (run net masquerade_mark (suc m))
          (Alike-IsLike n st)
          (λ u like_u.
            let (t, ran, done) = resume_from m u (omega (arith, enough)) like_u (
              any_gen m (told u) (Alike-IsLike n st u (told u) (told-Alike u) like_u)
                (omega (arith, enough))) in
            (t, ran, record { count = done.count; state = done.state }))
          new_value)
        i s like

  pub take_action-IsLike :
      (action : Action) (s : Focus) → IsLike n st s → IsLike n st (take_action net action s)
  unfolding take_action farm_manage_eventd farm_s_update_dsr_counter
  take_action-IsLike action s like = record { count = like.count; state = like.state }

  -- The branch of farm_set_action that returns 1.
  pub any_act :
      (m : ℕ) (action : Action) (s : Focus)
      → fuel_open n + 1 ≤ m
      → IsLike n st s
      → (t : Focus) × (act net masquerade_mark (run net masquerade_mark (suc (suc m))) action s
          ≡ some t)
        × IsLike n st t
  unfolding act
  any_act m action s enough like =
      let rec = run net masquerade_mark (suc (suc m)) in
      let (t1, ran, like1) = any_gen (suc (suc m)) s like (omega (arith, enough)) in
      let (t, followed, like2) =
        follow_up-keeps net masquerade_mark rec (IsLike n st) (Alike-IsLike n st)
          (any_set_state m enough) action (take_action net action t1)
          (take_action-IsLike action t1 like1) in
      (
        t,
        ap
              (λ o.
                o
                >>= (λ u. farm_set_netinfo net masquerade_mark rec (take_action net action u))
                >>= backend_s_validate net masquerade_mark rec
                >>= act_on_addresses_after action)
              ran
            ∙ followed,
        like2,
      )
