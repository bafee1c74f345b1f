-- ===== src/States/Failover.antt =====
-- What backend_s_gen_priority of src/backends.c leaves: the backends that the elected priority reaches
-- are up, and the others that are alive are spare.
use nftlb.Prelude.{
  ℕ, zero, suc, ◌≤◌, ◌<◌, ◌≡◌, ◌⊎◌, refl, ap, sym, subst, ◌∙◌, List, ◌∷◌, some, All, if-true,
  if-false, arith, inl, inr, Bool-cases,
}
use nftlb.Enums.{State, Action}
use nftlb.Model.{Backend, Farm}
use nftlb.Network.{Net}
use nftlb.Backends.Priority.{elected_priority}
use nftlb.Backends.Counters.{
  IsCounted, backend_s_update_counters, backend_s_update_counters-IsCounted,
}
use nftlb.Sessions.Timed.{backend_at}
use nftlb.States.Focus.{Focus}
use nftlb.States.Calls.{Call, ◌>>=◌, with_farm, refresh, run}
use nftlb.States.Alive.{is_alive, count-Later}
use nftlb.States.Course.{OnCourse, Smaller, lt_or_eq}
use nftlb.States.Turn.{IsSettled, set_state-OnCourse}
use nftlb.States.Depth.{alive, elected_for, depth, depth-Smaller, elected_for-OnCourse}
use nftlb.States.Pending.{IsDistinct, IsDistinct-Later, All-IsSettled}
use nftlb.States.Settles.{
  IsClosed, told, told-OnCourse, OnCourse-IsClosed, closed_reload, run_set_state, run_gen_priority,
  no_depth,
}
use nftlb.States.Loops.{backend_at_self, for_backends-tracks}
use nftlb.States.Underway.{
  IsComplete, IsComplete-trans, IsUnderway, ends, passed_over, passes, reached, starts,
}

module _ (net : Net) (masquerade_mark : ℕ) where
  -- A round of the loop.
  round :
      (m : ℕ) (s : Focus)
      → IsDistinct s.farm.backends
      → ((u : Focus)
          → OnCourse s u
          → Smaller s u
          → (t : Focus) × ((run net masquerade_mark (suc m) (Call.set_action Action.reload) u
                >>= run net masquerade_mark (suc m) Call.gen_priority)
              ≡ some t)
            × IsComplete s t)
      → (x : Backend) (xs : List Backend) (b : Backend) (u : Focus) → IsUnderway s (x ∷ xs) u
      → backend_at x.id u.farm.backends ≡ some b
      → (t : Focus) × (refresh net masquerade_mark (run net masquerade_mark (suc (suc m))) b u
          ≡ some t)
        × IsUnderway s xs t
  unfolding refresh
  round m s distinct resume x xs b u under here = elim (Bool-cases (is_alive b)) [
    | inr gone ↦
        (u, if-false (is_alive b) _ _ gone refl, passes s distinct x xs b u under here gone)
    | inl living ↦
        let at = backend_at_self x.id b u.farm.backends here in
        let (t, ran, result) =
          set_state-OnCourse net masquerade_mark (run net masquerade_mark (suc m)) s (IsComplete s)
            resume b u living under.on at in
        (
          t,
          if-true (is_alive b) _ _ living
              (run_set_state net masquerade_mark (suc m) b.id State.up b u at ∙ ran),
          reached s distinct x xs b u t under here result,
        )
  ]

  -- Where no reload is acted on, the priority ends complete.
  completes :
      (n : ℕ) (s : Focus)
      → IsClosed s
      → IsDistinct s.farm.backends
      → depth s ≤ n
      → (t : Focus) × (run net masquerade_mark n Call.gen_priority s ≡ some t)
        × IsComplete s t
        × IsCounted t.farm
  completes zero s closed distinct enough = absurd (no_depth s (omega (arith, enough)))
  completes (suc zero) s closed distinct enough = absurd (no_depth s (omega (arith, enough)))
  completes (suc (suc zero)) s closed distinct enough = absurd (no_depth s (omega (arith, enough)))
  completes (suc (suc (suc m))) s closed distinct enough =
      let rec = run net masquerade_mark (suc m) in
      let resume : (u : Focus)
          → OnCourse s u
          → Smaller s u
          → (t : Focus) × ((rec (Call.set_action Action.reload) u >>= rec Call.gen_priority)
              ≡ some t)
            × IsComplete s t =
        λ u on smaller.
          let (on_told, smaller_told) = told-OnCourse s u on smaller in
          let less = depth-Smaller s (told u) on_told smaller_told in
          let (t, ran, complete, _) =
            completes (suc m) (told u) (OnCourse-IsClosed s (told u) on_told closed)
              (IsDistinct-Later s.farm.backends (told u).farm.backends on_told.later distinct)
              (omega (arith, less, enough)) in
          (
            t,
            ap (λ o. o >>= rec Call.gen_priority)
                  (closed_reload net masquerade_mark m u (OnCourse-IsClosed s u on closed))
                ∙ ran,
            IsComplete-trans s (told u) t on_told complete,
          ) in
      let (t, looped, under) =
        for_backends-tracks (IsUnderway s)
          (refresh net masquerade_mark (run net masquerade_mark (suc (suc m))))
          (λ x xs u under_u gone. passed_over s x xs u under_u gone) (round m s distinct resume)
          s.farm.backends (with_farm s (record s.farm { priority = elected_for s })) (starts s) in
      (
        with_farm t (backend_s_update_counters t.farm),
        run_gen_priority net masquerade_mark (suc (suc m)) s t looped,
        ends s t under,
        backend_s_update_counters-IsCounted t.farm,
      )

-- What the farm is like where no backend is left to settle.
pub record IsSettledFarm (f : Farm) : Type 0 where
  pub priority : f.priority ≡ elected_priority f.backends
  pub backends : All (IsSettled f.priority) f.backends

settled_farm : (s t : Focus) → IsComplete s t → (alive t < alive s) ⊎ IsSettledFarm t.farm
settled_farm s t complete =
    let fewer = count-Later s.farm.backends t.farm.backends complete.on.later in
    elim (lt_or_eq (alive t) (alive s) fewer) [
      | inl some_left ↦ inl some_left
      | inr same ↦
          let elected = elected_for-OnCourse s t complete.on same in
          let priority = (complete.on.course same).0 in
          inr (record {
            priority = priority ∙ sym elected;
            backends =
                subst (λ p. All (IsSettled p) t.farm.backends) (sym priority)
                  (All-IsSettled (elected_for s) t.farm.backends (complete.settled same));
          })
    ]

-- Where the farm's action is such that it passes a reload over, and its backends are different nodes,
-- backend_s_gen_priority ends, within the depth that the backends alive and waiting give, with exact
-- counters and with no more backends up or avail than before. Unless it took some out of them, for
-- their configuration, the priority of the farm is the one elected for its backends, and each backend
-- that is up or avail is up exactly where the priority reaches its own.
pub gen_priority-settles :
    (net : Net) (masquerade_mark fuel : ℕ) (s : Focus)
    → IsClosed s
    → IsDistinct s.farm.backends
    → depth s ≤ fuel
    → (t : Focus) × (run net masquerade_mark fuel Call.gen_priority s ≡ some t)
      × IsCounted t.farm
      × (alive t ≤ alive s)
      × ((alive t < alive s) ⊎ IsSettledFarm t.farm)
gen_priority-settles net masquerade_mark fuel s closed distinct enough =
    let (t, ran, complete, counted) = completes net masquerade_mark fuel s closed distinct enough in
    (
      t,
      ran,
      counted,
      count-Later s.farm.backends t.farm.backends complete.on.later,
      settled_farm s t complete,
    )
