-- ===== src/Config/Pair.antt =====
-- The parsed attribute `struct config_pair` of include/config.h, and `config_value` of src/config.c,
-- which fills it from a text. A level or a key of -1 is `none`.
use nftlb.Prelude.{
  ℕ, Bool, true, false, String, List, [], ◌∷◌, Option, none, some, ℤ, pos, negsuc, codes, str_eq,
  leb_ℤ, ◌==◌, if◌then◌else◌,
}
use nftlb.Enums.{
  Level, Key, Action, RateUnit, ParserOutput, family_value, mode_value, protocol_value,
  scheduler_value, helper_value, state_value, switch_value, action_value, unit_value,
  policy_type_value, policy_route_value,
}
use nftlb.Libc.{atoi, scan_int, scan_run, strtol_16, is_alpha}
use nftlb.Config.Values.{
  config_value_family, config_value_mode, config_value_proto, config_value_sched, config_value_meta,
  config_value_helper, config_value_log, config_value_switch, config_value_state,
  config_value_action, config_value_type, config_value_verdict, config_value_route,
}

pub record ConfigPair : Type 0 where
  pub level : Option Level
  pub key : Option Key
  pub str_value : Option String
  pub int_value : ℤ
  pub int_value2 : ℤ
  pub action : Action

-- init_pair
unfoldable pub init_pair : ConfigPair
init_pair = record {
  level = none;
  key = none;
  str_value = none;
  int_value = negsuc 0;
  int_value2 = negsuc 0;
  action = Action.start;
}

-- The characters of `text` are those of the word.
abbrev pub same_text : List ℕ → List ℕ → Bool
same_text [] [] = true
same_text [] (d ∷ t) = false
same_text (c ∷ s) [] = false
same_text (c ∷ s) (d ∷ t) = if c == d then same_text s t else false

-- The unit that a word names.
unfoldable pub rtlimit_unit_of : List ℕ → Option RateUnit
rtlimit_unit_of word =
    if same_text word (codes "second")
    then some RateUnit.second
    else if same_text word (codes "minute")
    then some RateUnit.minute
    else if same_text word (codes "hour")
    then some RateUnit.hour
    else if same_text word (codes "day")
    then some RateUnit.day
    else if same_text word (codes "week")
    then some RateUnit.week
    else none

-- %*[/]%99[a-zA-Z] of sscanf: the letters behind one or more slashes.
unfoldable pub scan_unit : List ℕ → List ℕ
unfolding scan_run
scan_unit [] = []
scan_unit (c ∷ s) = if c == b'/' then (scan_run is_alpha 99 (skip_slashes s)).0 else []
  where
    skip_slashes : List ℕ → List ℕ
    skip_slashes [] = []
    skip_slashes (d ∷ t) = if d == b'/' then skip_slashes t else d ∷ t

-- What follows the sscanf of config_value_ratelimit: `value` is the limit and `word` the unit's
-- word, `int_unit` the unit that was there.
unfoldable pub rate_checked : ℤ → ℤ → List ℕ → ParserOutput × ℤ × ℤ
unfolding rtlimit_unit_of
rate_checked value int_unit [] =
    (if leb_ℤ (pos 0) value then ParserOutput.ok else ParserOutput.valid_failed, value, int_unit)
rate_checked value int_unit (c ∷ word) =
    if leb_ℤ (pos 0) value
    then (elim (rtlimit_unit_of (c ∷ word)) [
      | none ↦ (ParserOutput.valid_failed, value, int_unit)
      | some t ↦ (ParserOutput.ok, value, pos (unit_value t))
    ])
    else (ParserOutput.valid_failed, value, int_unit)

-- Where sscanf finds no number it assigns nothing.
unfoldable pub rate_scanned : ℤ → ℤ → Option (ℤ × List ℕ) → ParserOutput × ℤ × ℤ
unfolding rate_checked scan_unit
rate_scanned int_value int_unit none = rate_checked int_value int_unit []
rate_scanned int_value int_unit (some (n, rest)) = rate_checked n int_unit (scan_unit rest)

-- The limit and its unit are assigned through the pointers `int_value` and `int_unit`: what is not
-- assigned keeps the value that it had.
unfoldable pub config_value_ratelimit : ℤ → ℤ → List ℕ → ParserOutput × ℤ × ℤ
config_value_ratelimit int_value int_unit [] = (ParserOutput.ok, pos 0, pos 0)
config_value_ratelimit int_value int_unit (c ∷ s) =
    if c == b'0'
    then (ParserOutput.ok, pos 0, pos 0)
    else rate_scanned int_value int_unit (scan_int (c ∷ s))

abbrev accept : ConfigPair → ℤ → ParserOutput × ConfigPair
accept c v = (ParserOutput.ok, record c { int_value = v })

-- A number of at least `low`.
unfoldable pub config_number : ConfigPair → ℤ → String → ParserOutput × ConfigPair
config_number c low value =
    let n = atoi (codes value) in if leb_ℤ low n then accept c n else (ParserOutput.valid_failed, c)

unfoldable pub config_rate : ConfigPair → String → ParserOutput × ConfigPair
config_rate c value =
    let (ret, v, u) = config_value_ratelimit c.int_value c.int_value2 (codes value) in
    (ret, record c { int_value = v; int_value2 = u })

unfoldable pub config_text : ConfigPair → String → ParserOutput × ConfigPair
config_text c value = (ParserOutput.ok, record c { str_value = some value })

-- A text that must not be empty.
unfoldable pub config_name : ConfigPair → String → ParserOutput × ConfigPair
unfolding config_text
config_name c value =
    if str_eq value "" then (ParserOutput.valid_failed, c) else config_text c value

-- The `switch` of config_value on the key.
unfoldable pub config_value_by : Key → ConfigPair → String → ParserOutput × ConfigPair
unfolding config_number config_rate config_name config_text
config_value_by Key.family c value = accept c (pos (family_value (config_value_family value)))
config_value_by Key.mode c value = accept c (pos (mode_value (config_value_mode value)))
config_value_by Key.proto c value = accept c (pos (protocol_value (config_value_proto value)))
config_value_by Key.sched c value = accept c (pos (scheduler_value (config_value_sched value)))
config_value_by Key.schedparam c value = accept c (pos (config_value_meta value))
config_value_by Key.persistence c value = accept c (pos (config_value_meta value))
config_value_by Key.helper c value = accept c (pos (helper_value (config_value_helper value)))
config_value_by Key.log c value = accept c (pos (config_value_log value))
config_value_by Key.mark c value = accept c (strtol_16 (codes value))
config_value_by Key.state c value = accept c (pos (state_value (config_value_state value)))
config_value_by Key.weight c value = config_number c (pos 1) value
config_value_by Key.priority c value = config_number c (pos 1) value
config_value_by Key.responsettl c value = config_number c (pos 0) value
config_value_by Key.persisttm c value = config_number c (pos 0) value
config_value_by Key.limitsttl c value = config_number c (pos 0) value
config_value_by Key.newrtlimitburst c value = config_number c (pos 0) value
config_value_by Key.rstrtlimitburst c value = config_number c (pos 0) value
config_value_by Key.estconnlimit c value = config_number c (pos 0) value
config_value_by Key.timeout c value = config_number c (pos 0) value
config_value_by Key.newrtlimit c value = config_rate c value
config_value_by Key.rstrtlimit c value = config_rate c value
config_value_by Key.log_rtlimit c value = config_rate c value
config_value_by Key.queue c value = config_number c (negsuc 0) value
config_value_by Key.action c value = accept c (pos (action_value (config_value_action value)))
config_value_by Key.tcpstrict c value = accept c (pos (switch_value (config_value_switch value)))
config_value_by Key.flowoffload c value = accept c (pos (switch_value (config_value_switch value)))
config_value_by Key.intraconnect c value = accept c (pos (switch_value (config_value_switch value)))
config_value_by Key.type c value = accept c (pos (policy_type_value (config_value_type value)))
config_value_by Key.verdict c value = accept c (pos (config_value_verdict value))
config_value_by Key.name c value = config_name c value
config_value_by Key.newname c value = config_name c value
config_value_by Key.ipaddr c value = config_name c value
config_value_by Key.client c value = config_name c value
config_value_by Key.backend c value = config_name c value
config_value_by Key.data_key c value = config_name c value
config_value_by Key.iface c value = config_text c value
config_value_by Key.oface c value = config_text c value
config_value_by Key.ethaddr c value = config_text c value
config_value_by Key.virtaddr c value = config_text c value
config_value_by Key.virtports c value = config_text c value
config_value_by Key.ports c value = config_text c value
config_value_by Key.srcaddr c value = config_text c value
config_value_by Key.port c value = config_text c value
config_value_by Key.logprefix c value = config_text c value
config_value_by Key.newrtlimit_logprefix c value = config_text c value
config_value_by Key.rstrtlimit_logprefix c value = config_text c value
config_value_by Key.estconnlimit_logprefix c value = config_text c value
config_value_by Key.tcpstrict_logprefix c value = config_text c value
config_value_by Key.used c value = (ParserOutput.ignore, c)
config_value_by Key.counter_packets c value = (ParserOutput.ignore, c)
config_value_by Key.counter_bytes c value = (ParserOutput.ignore, c)
config_value_by Key.route c value = accept c (pos (policy_route_value (config_value_route value)))
config_value_by _ c value = (ParserOutput.obj_unknown, c)

unfoldable pub config_value : ConfigPair → String → ParserOutput × ConfigPair
unfolding config_value_by
config_value c value = elim c.key [
  | none ↦ (ParserOutput.obj_unknown, c)
  | some k ↦ config_value_by k c value
]
