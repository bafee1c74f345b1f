-- ===== src/Config/Json.antt =====
-- The walk over a JSON document: config_json and its helpers in src/config.c. The document is as
-- jansson parsed it; `obj_set_attribute` of src/objects.c is the parameter `set` over a world.
use nftlb.Prelude.{
  Bool, false, ◌&&◌, ◌||◌, not, String, Option, none, some, ℤ, pos, negsuc, eq_ℤ, ◌==◌,
  if◌then◌else◌,
}
use nftlb.Enums.{Level, Key, ParserOutput, level_value, key_value, parser_value}
use nftlb.Config.Keys.{config_key}
use nftlb.Config.Pair.{ConfigPair, init_pair, config_value}

mutual
  -- `other` is a number, a truth value or null.
  pub data Json : Type 0 where
    object : Members → Json
    array : Items → Json
    string : String → Json
    other : Json

  pub data Members : Type 0 where
    end : Members
    member : String → Json → Members → Members

  pub data Items : Type 0 where
    nil : Items
    item : Json → Items → Items

abbrev at : Level → Level → Bool
at a b = level_value a == level_value b

abbrev is : Key → Key → Bool
is a b = key_value a == key_value b

-- The source returns -1 where this is true: the key has no place at this level.
unfoldable pub jump_config_value : Level → Key → Bool
jump_config_value level key =
    is key Key.farms && not (at level Level.init)
    || is key Key.bcks && not (at level Level.farms)
    || is key Key.policies
      && not (at level Level.init)
      && not (at level Level.farms)
      && not (at level Level.addresses)
    || is key Key.addresses && not (at level Level.farms) && not (at level Level.init)
    || is key Key.sessions && not (at level Level.farms)
    || is key Key.elements && not (at level Level.policies)

abbrev is_key : Option Key → Key → Bool
is_key none k = false
is_key (some j) k = is j k

abbrev go_to : Level → Level → Option Key → Key → Level → Level
go_to level from key k to = if at level from && is_key key k then to else level

-- The level of an array's items: the row of tests before config_json_array, each of which reads the
-- level that the one before it left.
unfoldable pub item_level : Level → Option Key → Level
item_level level key =
    let level = go_to level Level.init key Key.farms Level.farms in
    let level = go_to level Level.init key Key.policies Level.policies in
    let level = go_to level Level.init key Key.addresses Level.addresses in
    let level = go_to level Level.farms key Key.bcks Level.bcks in
    let level = go_to level Level.farms key Key.addresses Level.farmaddress in
    let level = go_to level Level.farms key Key.sessions Level.sessions in
    let level = go_to level Level.farms key Key.policies Level.farmpolicy in
    let level = go_to level Level.policies key Key.elements Level.elements in
    go_to level Level.addresses key Key.policies Level.addresspolicy

-- The parser's variable `c` and the world that `set` changes.
pub record Run (W : Type 0) : Type 0 where
  pub c : ConfigPair
  pub world : W

module _ {W : Type 0} (set : ConfigPair → W → ℤ × W) where
  unfoldable pub config_json_string : String → Run W → ℤ × Run W
  config_json_string text run =
      let (ret, c) = config_value run.c text in
      let (done, world) = set c run.world in
      elim ret [
        | ParserOutput.ignore ↦ (pos 0, record run { c = c })
        | ParserOutput.ok ↦ (done, record { c = init_pair; world = world })
        | failure ↦ (pos (parser_value failure), record run { c = c })
      ]

  -- The body of the loop over an object's members: `found` is the key, `inner` reads the member's
  -- value and `rest` goes on with the result so far. A key with no place here is passed over, and its
  -- number is the result.
  unfoldable pub member_step :
      Level → Option Key → (Key → Run W → ℤ × Run W) → (ℤ → Run W → ℤ × Run W) → Run W → ℤ × Run W
  member_step level none inner rest run = (negsuc 0, run)
  member_step level (some k) inner rest run =
      let here = record run { c = record run.c { key = some k } } in
      let (ret, after) = inner k here in
      if jump_config_value level k
      then rest (pos (key_value k)) here
      else if eq_ℤ ret (pos 0)
      then rest ret after
      else (ret, after)

  unfoldable mutual
    unfolding config_json_string member_step

    pub config_json : Json → Level → Option Key → Run W → ℤ × Run W
    config_json (object ms) level key run = config_json_object ms level (pos 0) run
    config_json (array xs) level key run = config_json_array xs (item_level level key) (pos 0) run
    config_json (string s) level key run = config_json_string s run
    config_json other level key run = (pos 0, run)

    -- `ret` is the variable of that name, as the loop finds it.
    pub config_json_object : Members → Level → ℤ → Run W → ℤ × Run W
    config_json_object end level ret run = (ret, run)
    config_json_object (member text value ms) level ret run =
        member_step level (config_key text) (λ k here. config_json value level (some k) here)
          (λ ret' run'. config_json_object ms level ret' run')
          (record run { c = record run.c { level = some level } })

    pub config_json_array : Items → Level → ℤ → Run W → ℤ × Run W
    config_json_array nil level ret run = (ret, run)
    config_json_array (item x xs) level ret run =
        let (ret', run') = config_json x level none run in
        let rest = config_json_array xs level ret' run' in
        if eq_ℤ ret (pos 0) then rest else (ret, run)
