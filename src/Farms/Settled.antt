-- ===== src/Farms/Settled.antt =====
-- The setters of src/farms.c against farm_changed and farm_actionable.
use nftlb.Prelude.{
  ℕ, ◌≡◌, ◌≢◌, refl, ◌∙◌, Bool, true, false, ◌&&◌, not, Option, ℤ, pos, eq_ℤ, ◌==◌, if◌then◌else◌,
  arith, Bool-cases, inl, inr,
}
use nftlb.Enums.{Key, Scheduler, Switch, scheduler_value, switch_value, meta_none}
use nftlb.Model.{Farm, Address}
use nftlb.Config.Pair.{ConfigPair}
use nftlb.Objects.Attributes.{obj_equ_attribute_int}
use nftlb.Backends.Predicates.{farm_is_ingress_mode}
use nftlb.Farms.Setters.{
  reload_with, farm_set_sched, farm_set_limitsttl, farm_set_newrtlimit, farm_set_rstrtlimit,
  farm_set_estconnlimit, farm_set_tcpstrict, farm_set_queue, rld_newrtlimit_start,
  rld_newrtlimit_stop, rld_rstrtlimit_start, rld_rstrtlimit_stop, rld_estconnlimit_start,
  rld_estconnlimit_stop,
}
use nftlb.Farms.Changed.{farm_changed, farm_differs, farm_actionable}

eq_ℤ-refl : (a : ℤ) → eq_ℤ a a ≡ true
eq_ℤ-refl a = ground arith

eq_ℤ-eq : (a b : ℤ) → eq_ℤ a b ≡ true → a ≡ b
eq_ℤ-eq a b h = ground arith

both : (p q : Bool) → (p && q) ≡ true → (p ≡ true) × (q ≡ true)
both true q h = (refl, h)
both false q h = absurd (ground (arith, h))

-- What reload_with does to the fields that farm_changed reads.
module _ (flag : ℕ) (f : Farm) where
  reload_with-newrtlimit :
      ((reload_with flag f).newrtlimit ≡ f.newrtlimit)
      × ((reload_with flag f).newrtlimit_unit ≡ f.newrtlimit_unit)
  unfolding reload_with
  reload_with-newrtlimit = elim (Bool-cases (farm_is_ingress_mode f)) [
    | inl e ↦ rw e (refl, refl)
    | inr e ↦ rw e (refl, refl)
  ]

  reload_with-others :
      ((reload_with flag f).estconnlimit ≡ f.estconnlimit)
      × ((reload_with flag f).queue ≡ f.queue)
      × ((reload_with flag f).tcpstrict ≡ f.tcpstrict)
  unfolding reload_with
  reload_with-others = elim (Bool-cases (farm_is_ingress_mode f)) [
    | inl e ↦ rw e (refl, refl, refl)
    | inr e ↦ rw e (refl, refl, refl)
  ]

module _ (f : Farm) (fa : Option Address) (c : ConfigPair) where
  limitsttl_settled : farm_changed Key.limitsttl (farm_set_limitsttl f c.int_value) fa c ≡ false
  unfolding farm_changed farm_differs farm_set_limitsttl obj_equ_attribute_int
  limitsttl_settled = elim (Bool-cases (eq_ℤ f.limitsttl c.int_value)) [
    | inl e ↦ rw (e, e) refl
    | inr e ↦ rw (e, eq_ℤ-refl c.int_value) refl
  ]

  newrtlimit_settled :
      farm_changed Key.newrtlimit (farm_set_newrtlimit f c.int_value c.int_value2) fa c ≡ false
  unfolding farm_changed farm_differs farm_set_newrtlimit obj_equ_attribute_int
  newrtlimit_settled =
      let value = eq_ℤ f.newrtlimit c.int_value in
      let unit = eq_ℤ f.newrtlimit_unit c.int_value2 in
      elim (Bool-cases (value && unit)) [
        | inl e ↦ let b = both value unit e in rw (b.0, b.1, b.0, b.1) refl
        | inr e ↦
            rw
              (
                e,
                (reload_with-newrtlimit _ _).0,
                (reload_with-newrtlimit _ _).1,
                eq_ℤ-refl c.int_value,
                eq_ℤ-refl c.int_value2,
              )
              refl
      ]

  estconnlimit_settled :
      farm_changed Key.estconnlimit (farm_set_estconnlimit f c.int_value) fa c ≡ false
  unfolding farm_changed farm_differs farm_set_estconnlimit obj_equ_attribute_int
  estconnlimit_settled = elim (Bool-cases (eq_ℤ f.estconnlimit c.int_value)) [
    | inl e ↦ rw (e, e) refl
    | inr e ↦ rw (e, (reload_with-others _ _).0, eq_ℤ-refl c.int_value) refl
  ]

  queue_settled : farm_changed Key.queue (farm_set_queue f c.int_value) fa c ≡ false
  unfolding farm_changed farm_differs farm_set_queue obj_equ_attribute_int
  queue_settled = rw ((reload_with-others _ _).1, eq_ℤ-refl c.int_value) refl

-- After farm_set_limitsttl, farm_set_newrtlimit, farm_set_estconnlimit, farm_set_queue, farm_set_sched
-- or farm_set_tcpstrict is called with the value of a pair, farm_changed finds no difference between the
-- farm and the pair, for any farm.
pub farm_changed-settled :
    (f : Farm) (fa : Option Address) (c : ConfigPair)
    → (farm_changed Key.limitsttl (farm_set_limitsttl f c.int_value) fa c ≡ false)
      × (farm_changed Key.newrtlimit (farm_set_newrtlimit f c.int_value c.int_value2) fa c ≡ false)
      × (farm_changed Key.estconnlimit (farm_set_estconnlimit f c.int_value) fa c ≡ false)
      × (farm_changed Key.queue (farm_set_queue f c.int_value) fa c ≡ false)
      × ((s : Scheduler)
          → c.int_value ≡ pos (scheduler_value s)
          → farm_changed Key.sched (farm_set_sched f s) fa c ≡ false)
      × ((s : Switch)
          → c.int_value ≡ pos (switch_value s)
          → farm_changed Key.tcpstrict (farm_set_tcpstrict f s) fa c ≡ false)
unfolding farm_changed farm_differs farm_set_sched farm_set_tcpstrict obj_equ_attribute_int
farm_changed-settled f fa c = (
  limitsttl_settled f fa c,
  newrtlimit_settled f fa c,
  estconnlimit_settled f fa c,
  queue_settled f fa c,
  λ s h. rw (h, eq_ℤ-refl (pos (scheduler_value s))) refl,
  λ s h. rw (h, (reload_with-others _ _).2, eq_ℤ-refl (pos (switch_value s))) refl,
)

-- The limit on resets is not settled: where a pair has the farm's limit with another unit, farm_changed
-- finds a difference, and farm_set_rstrtlimit leaves the farm as it is, so that the difference stays.
pub farm_set_rstrtlimit-unit :
    (f : Farm) (fa : Option Address) (c : ConfigPair)
    → f.rstrtlimit ≡ c.int_value
    → eq_ℤ f.rstrtlimit_unit c.int_value2 ≡ false
    → (farm_changed Key.rstrtlimit f fa c ≡ true)
      × (farm_set_rstrtlimit f c.int_value c.int_value2 ≡ f)
unfolding farm_changed farm_differs farm_set_rstrtlimit obj_equ_attribute_int
farm_set_rstrtlimit-unit f fa c same differs =
    let e : eq_ℤ f.rstrtlimit c.int_value ≡ true = ground (arith, same) in
    (rw (e, differs) refl, rw e refl)

reload_with-ingress :
    (flag : ℕ) (f : Farm)
    → farm_is_ingress_mode f ≡ true
    → (reload_with flag f).reload_action ≡ f.reload_action
unfolding reload_with
reload_with-ingress flag f ingress = rw ingress refl

limit_kept :
    (same zero_limit : Bool) (stop start : ℕ) (f g : Farm)
    → farm_is_ingress_mode g ≡ true
    → g.reload_action ≡ f.reload_action
    → (if same then f else reload_with (if zero_limit then stop else start) g).reload_action
      ≡ f.reload_action
limit_kept true zero_limit stop start f g ingress h = refl
limit_kept false zero_limit stop start f g ingress h =
    reload_with-ingress (if zero_limit then stop else start) g ingress ∙ h

-- The setters of the limits, of the strict mode and of the queue ask for a reload of their part of
-- the rules only where farm_actionable says that it needs one, which is not so in the ingress modes.
pub farm_actionable-reload_action :
    (f : Farm) (v unit : ℤ) (s : Switch)
    → farm_is_ingress_mode f ≡ true
    → (farm_actionable Key.newrtlimit f ≡ false)
      × ((farm_set_newrtlimit f v unit).reload_action ≡ f.reload_action)
      × (farm_actionable Key.rstrtlimit f ≡ false)
      × ((farm_set_rstrtlimit f v unit).reload_action ≡ f.reload_action)
      × (farm_actionable Key.estconnlimit f ≡ false)
      × ((farm_set_estconnlimit f v).reload_action ≡ f.reload_action)
      × (farm_actionable Key.tcpstrict f ≡ false)
      × ((farm_set_tcpstrict f s).reload_action ≡ f.reload_action)
      × (farm_actionable Key.queue f ≡ false)
      × ((farm_set_queue f v).reload_action ≡ f.reload_action)
unfolding farm_actionable farm_set_newrtlimit farm_set_rstrtlimit farm_set_estconnlimit
    farm_set_tcpstrict farm_set_queue farm_is_ingress_mode
farm_actionable-reload_action f v unit s ingress =
    let unneeded : not (farm_is_ingress_mode f) ≡ false = rw ingress refl in
    (
      unneeded,
      limit_kept (eq_ℤ f.newrtlimit v && eq_ℤ f.newrtlimit_unit unit) (eq_ℤ v (pos 0))
          rld_newrtlimit_stop rld_newrtlimit_start f
          (record f { newrtlimit = v; newrtlimit_unit = unit }) ingress refl,
      unneeded,
      limit_kept (eq_ℤ f.rstrtlimit v) (eq_ℤ v (pos 0)) rld_rstrtlimit_stop rld_rstrtlimit_start f
          (record f { rstrtlimit = v; rstrtlimit_unit = unit }) ingress refl,
      unneeded,
      limit_kept (eq_ℤ f.estconnlimit v) (eq_ℤ v (pos 0)) rld_estconnlimit_stop
          rld_estconnlimit_start f (record f { estconnlimit = v }) ingress refl,
      unneeded,
      reload_with-ingress _ (record f { tcpstrict = s }) ingress,
      unneeded,
      reload_with-ingress _ (record f { queue = v }) ingress,
    )

hash_needs_fields : (p : ℕ) → (if p == 0 then 1 else p) ≢ 0
hash_needs_fields p = ground arith

-- After farm_set_sched, the farm has fields to hash exactly where its scheduler is the hash.
pub farm_set_sched-schedparam :
    (f : Farm) (s : Scheduler)
    → (s ≡ Scheduler.hash → (farm_set_sched f s).schedparam ≢ meta_none)
      × (s ≢ Scheduler.hash → (farm_set_sched f s).schedparam ≡ meta_none)
unfolding farm_set_sched
farm_set_sched-schedparam f Scheduler.hash =
    (λ e. hash_needs_fields f.schedparam, λ n. absurd (n refl))
farm_set_sched-schedparam f Scheduler.rr = (λ e. cc, λ n. refl)
farm_set_sched-schedparam f Scheduler.weight = (λ e. cc, λ n. refl)
farm_set_sched-schedparam f Scheduler.symhash = (λ e. cc, λ n. refl)
