-- ===== src/Objects/Dispatch.antt =====
-- obj_set_attribute of src/objects.c: a pair goes to the handlers of its level. The handlers, which are
-- functions of the files of the objects, are an interface over the world that they change.
use nftlb.Prelude.{Bool, true, false, ◌&&◌, not, Option, none, some, ℤ, pos, eq_ℤ, if◌then◌else◌}
use nftlb.Enums.{Level, Action, ParserOutput, action_value, parser_value}
use nftlb.Config.Pair.{ConfigPair}

-- The handlers of the levels: for `farms` they are farm_changed, farm_pre_actionable,
-- farm_set_attribute and farm_pos_actionable, and so on. `farm_actionable` is the test of that name.
pub record Handlers (W : Type 0) : Type 0 where
  pub changed : Level → ConfigPair → W → Bool
  pub farm_actionable : ConfigPair → W → Bool
  pub pre_actionable : Level → ConfigPair → W → ℤ × W
  -- the number is apply_action, which the elements read
  pub set_attribute : Level → ConfigPair → ℤ → W → ℤ × W
  -- the number is the action that pre_actionable returned, or apply_action
  pub pos_actionable : Level → ConfigPair → ℤ → W → W

abbrev pub action_none : ℤ
action_none = pos (action_value Action.none)

-- The tests of the action and the result before pos_actionable.
abbrev pub farm_follows : ℤ → ℤ → Bool
farm_follows action ret =
    eq_ℤ ret (pos (parser_value ParserOutput.ok)) && not (eq_ℤ action action_none)

abbrev pub action_follows : ℤ → ℤ → Bool
action_follows action ret = not (eq_ℤ action action_none)

abbrev pub link_follows : ℤ → ℤ → Bool
link_follows action ret = not (eq_ℤ action (pos 0))

abbrev pub always : ℤ → ℤ → Bool
always action ret = true

module _ {W : Type 0} (h : Handlers W) where
  -- `action` and the world, after the call under the test of `actionable`.
  unfoldable pub prepare : Bool → Level → ConfigPair → W → ℤ × W
  prepare true level c w = h.pre_actionable level c w
  prepare false level c w = (action_none, w)

  unfoldable pub finish : Bool → Level → ConfigPair → ℤ → W → W
  finish true level c action w = h.pos_actionable level c action w
  finish false level c action w = w

  -- One case of the switch: `follows` is the test, beside `actionable`, of the action and the result
  -- before the last call.
  unfoldable pub handle : (ℤ → ℤ → Bool) → Bool → Level → ConfigPair → ℤ → W → ℤ × W
  unfolding prepare finish
  handle follows actionable level c apply_action w =
      let (action, prepared) = prepare actionable level c w in
      let (ret, done) = h.set_attribute level c apply_action prepared in
      (ret, finish (actionable && follows action ret) level c action done)

  unfoldable pub handle_changed : (ℤ → ℤ → Bool) → Bool → Level → ConfigPair → ℤ → W → ℤ × W
  unfolding handle
  handle_changed follows actionable level c apply_action w =
      let handled = handle follows actionable level c apply_action w in
      if h.changed level c w then handled else (pos (parser_value ParserOutput.ok), w)

  unfoldable pub set_at : Level → Bool → ConfigPair → ℤ → W → ℤ × W
  unfolding handle handle_changed finish
  set_at Level.farms actionable c apply_action w =
      handle_changed farm_follows (actionable && h.farm_actionable c w) Level.farms c apply_action w
  set_at Level.bcks actionable c apply_action w =
      handle_changed action_follows actionable Level.bcks c apply_action w
  set_at Level.sessions actionable c apply_action w =
      handle always actionable Level.sessions c apply_action w
  set_at Level.farmpolicy actionable c apply_action w =
      handle always actionable Level.farmpolicy c apply_action w
  set_at Level.policies actionable c apply_action w =
      handle_changed always actionable Level.policies c apply_action w
  set_at Level.elements actionable c apply_action w =
      let (ret, done) = h.set_attribute Level.elements c apply_action w in
      (ret, finish actionable Level.elements c apply_action done)
  set_at Level.addresses actionable c apply_action w =
      handle_changed always actionable Level.addresses c apply_action w
  set_at Level.farmaddress actionable c apply_action w =
      handle link_follows actionable Level.farmaddress c apply_action w
  set_at Level.addresspolicy actionable c apply_action w =
      handle always actionable Level.addresspolicy c apply_action w
  set_at Level.init actionable c apply_action w = (pos (parser_value ParserOutput.struct_failed), w)

  -- The switch, its default for a pair of no level.
  unfoldable pub set_for : Option Level → Bool → ConfigPair → ℤ → W → ℤ × W
  unfolding set_at
  set_for none actionable c apply_action w = (pos (parser_value ParserOutput.struct_failed), w)
  set_for (some level) actionable c apply_action w = set_at level actionable c apply_action w

  unfoldable pub obj_set_attribute : Bool → ℤ → ConfigPair → W → ℤ × W
  unfolding set_for
  obj_set_attribute actionable apply_action c w = set_for c.level actionable c apply_action w
