-- ===== src/Examples/Config.antt =====
-- The theorems on src/config.c at printed values and at a document.
use nftlb.Prelude.{
  ℕ, ◌+◌, ◌%◌, ◌≡◌, refl, [], none, some, ℤ, pos, negsuc, codes, arith, ◌==◌, if◌then◌else◌,
}
use mathlib.Core.Option
use nftlb.Enums.{Key, Level, State, RateUnit, ParserOutput, unit_value, key_value}
use nftlb.Libc.{scan_int}
use nftlb.Objects.Print.{
  obj_print_key, obj_print_state, obj_print_meta, obj_print_log, obj_print_verdict,
  obj_print_rtlimit,
}
use nftlb.Config.Keys.{config_key}
use nftlb.Config.Values.{
  config_value_state, config_value_meta, config_value_log, config_value_verdict,
}
use nftlb.Config.Pair.{ConfigPair, init_pair, config_rate, config_value_ratelimit, rate_scanned}
use nftlb.Config.Json.{Json, object, array, string, member, end, item, nil, config_json}
use nftlb.Config.ReadBack.{
  config_key-obj_print_key, config_value_state-obj_print_state, saved_state,
  config_value_meta-obj_print_meta, config_value_masks-obj_print,
}
use nftlb.Config.RateReadBack.{config_value_ratelimit-obj_print_rtlimit}
use nftlb.Config.Stops.{logged, StopsAtFailure, config_json-StopsAtFailure}
use nftlb.Config.Stale.{config_rate-stale}

weight_printed : obj_print_key Key.weight ≡ some "weight"
unfolding obj_print_key
weight_printed = refl

config_key-obj_print_key_example : config_key "weight" ≡ some Key.weight
config_key-obj_print_key_example = config_key-obj_print_key Key.weight "weight" weight_printed

config_value_state-obj_print_state_example :
    Option.map config_value_state (obj_print_state State.avail) ≡ some (saved_state State.avail)
config_value_state-obj_print_state_example = config_value_state-obj_print_state State.avail

config_value_meta-obj_print_meta_example : config_value_meta (obj_print_meta 69) ≡ 69 % 64
config_value_meta-obj_print_meta_example = config_value_meta-obj_print_meta 69 (omega arith)

config_value_masks-obj_print_example :
    (config_value_log (obj_print_log 5) ≡ 5) × (config_value_verdict (obj_print_verdict 5) ≡ 5)
config_value_masks-obj_print_example = config_value_masks-obj_print 5 (omega arith)

config_value_ratelimit-obj_print_rtlimit_example :
    config_value_ratelimit (negsuc 0) (negsuc 0) (obj_print_rtlimit (pos 20) RateUnit.minute)
    ≡ (ParserOutput.ok, pos 20, pos (unit_value RateUnit.minute))
config_value_ratelimit-obj_print_rtlimit_example =
    config_value_ratelimit-obj_print_rtlimit 20 RateUnit.minute (negsuc 0) (negsuc 0) (omega arith)

-- Counts its calls and refuses modes.
abbrev refuse_modes : ConfigPair → ℕ → ℤ × ℕ
refuse_modes c n = (
  (elim c.key [
    | none ↦ pos 0
    | some k ↦ if key_value k == key_value Key.mode then pos 1 else pos 0
  ]),
  n + 1,
)

abbrev document : Json
document = object (
    member "farms"
      (array (
        item
          (object (
            member "name" (string "web")
              (member "mode" (string "dnat") (member "state" (string "up") end))))
          nil))
      end)

config_json-StopsAtFailure_example :
    let (ret, after) =
      config_json
        (logged refuse_modes)
        document
        Level.init
        none
        (record { c = init_pair; world = record { world = 0; results = [] } }) in
    StopsAtFailure ret after.world.results
config_json-StopsAtFailure_example =
    config_json-StopsAtFailure refuse_modes document Level.init none init_pair 0

refused_limit : (config_rate init_pair "100/fortnight").0 ≡ ParserOutput.valid_failed
unfolding config_rate config_value_ratelimit rate_scanned scan_int
refused_limit = refl

held_limit : (config_rate init_pair "100/fortnight").1.int_value ≡ pos 100
unfolding config_rate config_value_ratelimit rate_scanned scan_int
held_limit = refl

no_number : scan_int (codes "none") ≡ none
unfolding scan_int
no_number = refl

config_rate-stale_example :
    config_rate (config_rate init_pair "100/fortnight").1 "none"
    ≡ (ParserOutput.ok, (config_rate init_pair "100/fortnight").1)
config_rate-stale_example =
    config_rate-stale init_pair "100/fortnight" "none" 100 b'n' (codes "one") refused_limit
      held_limit refl refl no_number
