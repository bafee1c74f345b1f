-- ===== src/Config/ReadBack.antt =====
-- What src/objects.c prints, src/config.c reads back.
use mathlib.Core.Option
use nftlb.Prelude.{
  ℕ, ◌<◌, ◌%◌, ◌≡◌, refl, true, String, Option, none, some, subst, ◌==◌, ==_iff, at_words,
  at_words-word,
}
use nftlb.Enums.{Mode, Protocol, Scheduler, Helper, State, Switch, PolicyType, PolicyRoute, Key}
use nftlb.Objects.Print.{
  obj_print_key, obj_print_mode, obj_print_proto, obj_print_sched, obj_print_meta, obj_print_helper,
  obj_print_log, obj_print_state, obj_print_switch, obj_print_policy_type, obj_print_policy_route,
  obj_print_verdict,
}
use nftlb.Config.Keys.{config_key}
use nftlb.Config.Values.{
  config_value_mode, config_value_proto, config_value_sched, config_value_meta, config_value_helper,
  config_value_log, config_value_switch, config_value_state, config_value_type,
  config_value_verdict, config_value_route,
}

-- A printed key, if there is one, is read as `k`.
abbrev ReadAs : Key → Option String → Type 0
ReadAs k none = Unit
ReadAs k (some s) = config_key s ≡ some k

obj_print_key-ReadAs : (k : Key) → ReadAs k (obj_print_key k)
unfolding obj_print_key config_key
obj_print_key-ReadAs Key.ports = tt
obj_print_key-ReadAs Key.used = tt
obj_print_key-ReadAs Key.addresses = tt
obj_print_key-ReadAs Key.route = tt
obj_print_key-ReadAs Key.verdict = tt
obj_print_key-ReadAs Key.counter_packets = tt
obj_print_key-ReadAs Key.counter_bytes = tt
obj_print_key-ReadAs _ = refl

-- A key for which obj_print_key has a text is the key that config_key reads from that text.
pub config_key-obj_print_key :
    (k : Key) (s : String) → obj_print_key k ≡ some s → config_key s ≡ some k
config_key-obj_print_key k s h = subst (ReadAs k) h (obj_print_key-ReadAs k)

-- `read` is a left inverse of `print`, on every value.
abbrev ReadBack : {A : Type 0} → (String → A) → (A → Option String) → Type 0
ReadBack {A} read print = (a : A) → Option.map read (print a) ≡ some a

-- Every printed mode, protocol, scheduler, helper, switch, policy type and policy route is read back
-- as the value that was printed.
pub config_value-obj_print :
    ReadBack config_value_mode obj_print_mode
    × ReadBack config_value_proto obj_print_proto
    × ReadBack config_value_sched obj_print_sched
    × ReadBack config_value_helper obj_print_helper
    × ReadBack config_value_switch obj_print_switch
    × ReadBack config_value_type obj_print_policy_type
    × ReadBack config_value_route obj_print_policy_route
unfolding obj_print_mode obj_print_proto obj_print_sched obj_print_helper obj_print_switch
    obj_print_policy_type obj_print_policy_route config_value_mode config_value_proto
    config_value_sched config_value_helper config_value_switch config_value_type config_value_route
config_value-obj_print = (
  elim [ Mode.snat ↦ refl | _ ↦ refl ],
  elim [ Protocol.all ↦ refl | _ ↦ refl ],
  elim [ Scheduler.rr ↦ refl | _ ↦ refl ],
  elim [ Helper.none ↦ refl | _ ↦ refl ],
  elim [ Switch.off ↦ refl | _ ↦ refl ],
  elim [ PolicyType.deny ↦ refl | _ ↦ refl ],
  elim [ PolicyRoute.in_route ↦ refl | _ ↦ refl ],
)

-- The state that is read from the printed form of a state.
abbrev pub saved_state : State → State
saved_state State.avail = State.up
saved_state s = s

-- A printed state is read back as itself, except that `avail` is read as `up`: config_value_state
-- does not know the word that obj_print_state prints for it.
pub config_value_state-obj_print_state :
    (s : State) → Option.map config_value_state (obj_print_state s) ≡ some (saved_state s)
unfolding obj_print_state config_value_state
config_value_state-obj_print_state State.up = refl
config_value_state-obj_print_state _ = refl

meta_table : at_words (λ m. config_value_meta (obj_print_meta m) == m % 64) 128 ≡ true
unfolding at_words obj_print_meta config_value_meta
meta_table = refl

log_table : at_words (λ m. config_value_log (obj_print_log m) == m) 8 ≡ true
unfolding at_words obj_print_log config_value_log
log_table = refl

verdict_table : at_words (λ m. config_value_verdict (obj_print_verdict m) == m) 8 ≡ true
unfolding at_words obj_print_verdict config_value_verdict
verdict_table = refl

-- The printed form of a packet field mask of seven flags is read back as the mask without the
-- seventh, the mark, which obj_print_meta does not print.
pub config_value_meta-obj_print_meta :
    (m : ℕ) → m < 128 → config_value_meta (obj_print_meta m) ≡ m % 64
config_value_meta-obj_print_meta m h = (==_iff _ _).0 (at_words-word _ 128 m meta_table h)

-- The printed form of a log mask, and of a verdict mask, of three flags is read back as the mask.
pub config_value_masks-obj_print :
    (m : ℕ)
    → m < 8
    → (config_value_log (obj_print_log m) ≡ m) × (config_value_verdict (obj_print_verdict m) ≡ m)
config_value_masks-obj_print m h = (
  (==_iff _ _).0 (at_words-word _ 8 m log_table h),
  (==_iff _ _).0 (at_words-word _ 8 m verdict_table h),
)
