-- ===== src/States/Underway.antt =====
-- How far the second loop of backend_s_gen_priority of src/backends.c has settled the backends.
use nftlb.Prelude.{
  ◌≡◌, ◌⊎◌, refl, ap, sym, subst, ◌∙◌, Bool, true, false, ◌&&◌, not, List, [], ◌∷◌, none, some,
  count, leb, if◌then◌else◌, arith, inl, inr,
}
use nftlb.Enums.{State, is_state}
use nftlb.Model.{Backend}
use nftlb.Backends.Counters.{backend_s_update_counters}
use nftlb.Sessions.Timed.{backend_at}
use nftlb.States.Focus.{Focus}
use nftlb.States.Calls.{with_farm}
use nftlb.States.Alive.{is_alive, tick, count-Later, count-put, one_alive}
use nftlb.States.Course.{OnCourse}
use nftlb.States.Turn.{Touched, IsSettled}
use nftlb.States.Depth.{alive, elected_for, OnCourse-trans, elected_for-OnCourse}
use nftlb.States.Pending.{
  IsDistinct, is_unsettled, is_pending, has_node, IsDistinct-Later, pending_start, pending_end,
  pending-le-unsettled, pending-next, others,
}
use nftlb.States.Settles.{elected-OnCourse, counted-OnCourse}
use nftlb.States.Loops.{backend_at_self}

-- Ended on course, with every backend settled where none has left those that are alive.
pub record IsComplete (s t : Focus) : Type 0 where
  pub on : OnCourse s t
  pub settled : alive t ≡ alive s → count (is_unsettled (elected_for s)) t.farm.backends ≡ 0

-- The loop with the backends `rest` before it.
pub record IsUnderway (s : Focus) (rest : List Backend) (u : Focus) : Type 0 where
  pub on : OnCourse s u
  pub pending : alive u ≡ alive s → count (is_pending (elected_for s) rest) u.farm.backends ≡ 0

pub IsComplete-trans : (s u t : Focus) → OnCourse s u → IsComplete u t → IsComplete s t
IsComplete-trans s u t on complete = record {
  on = OnCourse-trans s u t on complete.on;
  settled = λ same.
      let first = count-Later s.farm.backends u.farm.backends on.later in
      let second = count-Later u.farm.backends t.farm.backends complete.on.later in
      let as_many : alive u ≡ alive s = omega (arith, same, first, second) in
      subst (λ e. count (is_unsettled e) t.farm.backends ≡ 0) (elected_for-OnCourse s u on as_many)
        (complete.settled (omega (arith, same, as_many)));
}

pub IsComplete-IsUnderway :
    (s t : Focus) (rest : List Backend) → IsComplete s t → IsUnderway s rest t
IsComplete-IsUnderway s t rest complete = record {
  on = complete.on;
  pending = λ same.
      omega
        (arith, complete.settled same, pending-le-unsettled (elected_for s) rest t.farm.backends);
}

pub settled_tick :
    (a u l r : Bool) → (a ≡ true → u ≡ l) → tick ((a && (if u then not l else l)) && r) ≡ 0
settled_tick false u l r h = refl
settled_tick true u l r h = ground (arith, h refl)

pub gone_tick : (a q r : Bool) → a ≡ false → tick ((a && q) && r) ≡ 0
gone_tick a q r h = ground arith

module _ (s : Focus) (distinct : IsDistinct s.farm.backends) where
  -- Past a backend that is gone, or that is not alive.
  pub passes :
      (x : Backend) (xs : List Backend) (b : Backend) (u : Focus)
      → IsUnderway s (x ∷ xs) u
      → backend_at x.id u.farm.backends ≡ some b
      → is_alive b ≡ false
      → IsUnderway s xs u
  passes x xs b u under here gone = record {
    on = under.on;
    pending = λ same.
        let distinct_u = IsDistinct-Later s.farm.backends u.farm.backends under.on.later distinct in
        omega (
          arith,
          under.pending same,
          pending-next (elected_for s) x b xs u.farm.backends distinct_u here,
          gone_tick (is_alive b) _ (not (has_node b.id xs)) gone,
        );
  }

  pub touches :
      (x : Backend) (xs : List Backend) (b : Backend) (u t : Focus)
      → IsUnderway s (x ∷ xs) u
      → backend_at x.id u.farm.backends ≡ some b
      → OnCourse s t
      → Touched b u t
      → IsUnderway s xs t
  touches x xs b u t under here on touched =
      let e = elected_for s in
      let node = touched.node in
      let at = backend_at_self x.id b u.farm.backends here in
      let distinct_u = IsDistinct-Later s.farm.backends u.farm.backends under.on.later distinct in
      record {
        on = on;
        pending = λ same.
            let before = count-Later s.farm.backends u.farm.backends under.on.later in
            let living = ap (count is_alive) touched.backends in
            let as_many : alive u ≡ alive s = omega (
              arith,
              same,
              before,
              living,
              one_alive b node touched.follows,
              count-put b node touched.follows.id is_alive u.farm.backends at,
            ) in
            let settled : IsSettled e node =
              subst (λ p. IsSettled p node) (under.on.course as_many).0 touched.settled in
            let still = ap (count (is_pending e xs)) touched.backends in
            omega (
              arith,
              still,
              under.pending as_many,
              pending-next e x b xs u.farm.backends distinct_u here,
              count-put b node touched.follows.id (is_pending e xs) u.farm.backends at,
              settled_tick (is_alive node) (is_state node.state State.up) (leb node.priority e)
                  (not (has_node node.id xs)) settled,
            );
      }

  pub reached :
      (x : Backend) (xs : List Backend) (b : Backend) (u t : Focus)
      → IsUnderway s (x ∷ xs) u
      → backend_at x.id u.farm.backends ≡ some b
      → (OnCourse s t × Touched b u t) ⊎ IsComplete s t
      → IsUnderway s xs t
  reached x xs b u t under here (inl (on, touched)) = touches x xs b u t under here on touched
  reached x xs b u t under here (inr complete) = IsComplete-IsUnderway s t xs complete

pub passed_over :
    (s : Focus) (x : Backend) (xs : List Backend) (u : Focus)
    → IsUnderway s (x ∷ xs) u
    → backend_at x.id u.farm.backends ≡ none
    → IsUnderway s xs u
passed_over s x xs u under gone = record {
  on = under.on;
  pending = λ same. others (elected_for s) x xs u.farm.backends gone ∙ under.pending same;
}

pub starts :
    (s : Focus)
    → IsUnderway s s.farm.backends (with_farm s (record s.farm { priority = elected_for s }))
starts s = record {
  on = elected-OnCourse s;
  pending = λ _. pending_start (elected_for s) s.farm.backends s.farm.backends (λ i h. h);
}

pub ends :
    (s t : Focus)
    → IsUnderway s [] t
    → IsComplete s (with_farm t (backend_s_update_counters t.farm))
unfolding backend_s_update_counters
ends s t under = record {
  on = counted-OnCourse s t under.on;
  settled = λ same. sym (pending_end (elected_for s) t.farm.backends) ∙ under.pending same;
}
