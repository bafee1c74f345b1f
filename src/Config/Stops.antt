-- ===== src/Config/Stops.antt =====
-- The walk of src/config.c over a document stops at the first attribute that is refused.
use nftlb.Prelude.{
  ◌≡◌, ◌⊎◌, inl, inr, true, String, List, [], ◌∷◌, Option, none, some, ℤ, pos, negsuc, All, arith,
  eq_ℤ, Bool-cases, if◌then◌else◌,
}
use nftlb.Enums.{Level, Key, key_value, parser_value}
use nftlb.Config.Keys.{config_key}
use nftlb.Config.Pair.{ConfigPair, config_value}
use nftlb.Config.Json.{
  Json, object, array, string, other, Members, end, member, Items, nil, item, Run,
  jump_config_value, config_json, config_json_object, config_json_array, config_json_string,
  member_step, item_level,
}

-- A world with the results of the calls of `set`, the latest first.
pub record Logged (W : Type 0) : Type 0 where
  pub world : W
  pub results : List ℤ

abbrev pub AllZero : List ℤ → Type 0
AllZero = All (λ r. r ≡ pos 0)

-- All results but the latest are 0, and a latest one that is not 0 is the result `ret`.
abbrev pub StopsAtFailure : ℤ → List ℤ → Type 0
StopsAtFailure ret [] = Unit
StopsAtFailure ret (r ∷ rs) = AllZero rs × ((r ≡ pos 0) ⊎ (r ≡ ret))

module _ {W : Type 0} (set : ConfigPair → W → ℤ × W) where
  abbrev pub logged : ConfigPair → Logged W → ℤ × Logged W
  logged c w =
      let (ret, world) = set c w.world in (ret, record { world = world; results = ret ∷ w.results })

results_zero : (log : List ℤ) → StopsAtFailure (pos 0) log → AllZero log
results_zero [] h = tt
results_zero (r ∷ rs) (zs, inl z) = (z, zs)
results_zero (r ∷ rs) (zs, inr z) = (z, zs)

nothing_failed : (ret : ℤ) (log : List ℤ) → AllZero log → StopsAtFailure ret log
nothing_failed ret [] h = tt
nothing_failed ret (r ∷ rs) (z, zs) = (zs, inl z)

eq_ℤ→eq : (a b : ℤ) → eq_ℤ a b ≡ true → a ≡ b
eq_ℤ→eq a b h = ground arith

module _ {W : Type 0} (set : ConfigPair → W → ℤ × W) where
  abbrev Out : ℤ × Run (Logged W) → Type 0
  Out (ret, run) = StopsAtFailure ret run.world.results

  string_stops :
      (text : String) (run : Run (Logged W))
      → AllZero run.world.results
      → Out (config_json_string (logged set) text run)
  unfolding config_json_string
  string_stops text run z = ground (
    arith,
    nothing_failed (pos 0) run.world.results z,
    nothing_failed (pos (parser_value (config_value run.c text).0)) run.world.results z,
  )

  step_stops :
      (level : Level) (found : Option Key) (inner : Key → Run (Logged W) → ℤ × Run (Logged W))
      (rest : ℤ → Run (Logged W) → ℤ × Run (Logged W)) (run : Run (Logged W))
      → ((k : Key) (r : Run (Logged W)) → AllZero r.world.results → Out (inner k r))
      → ((ret : ℤ) (r : Run (Logged W)) → AllZero r.world.results → Out (rest ret r))
      → AllZero run.world.results
      → Out (member_step (logged set) level found inner rest run)
  unfolding member_step
  step_stops level none inner rest run hi hr z = nothing_failed (negsuc 0) _ z
  step_stops level (some k) inner rest run hi hr z =
      let here = record run { c = record run.c { key = some k } } in
      elim (Bool-cases (jump_config_value level k)) [
        | inl j ↦ rw j (hr (pos (key_value k)) here z)
        | inr j ↦ rw j (after (inner k here) (hi k here z))
      ]
    where
      after : (o : ℤ × Run (Logged W)) → Out o → Out (if eq_ℤ o.0 (pos 0) then rest o.0 o.1 else o)
      after (ret, r) h = elim (Bool-cases (eq_ℤ ret (pos 0))) [
        | inl e ↦ rw e (hr ret r (results_zero _ (rw (eq_ℤ→eq ret (pos 0) e) at h)))
        | inr e ↦ rw e h
      ]

  mutual
    unfolding config_json

    json_stops :
        (j : Json) (level : Level) (key : Option Key) (run : Run (Logged W))
        → AllZero run.world.results
        → Out (config_json (logged set) j level key run)
    json_stops (object ms) level key run z = object_stops ms level (pos 0) run z
    json_stops (array xs) level key run z =
        array_stops xs (item_level level key) (pos 0) run (nothing_failed (pos 0) _ z)
    json_stops (string s) level key run z = string_stops s run z
    json_stops other level key run z = nothing_failed (pos 0) _ z

    object_stops :
        (ms : Members) (level : Level) (ret : ℤ) (run : Run (Logged W))
        → AllZero run.world.results
        → Out (config_json_object (logged set) ms level ret run)
    object_stops end level ret run z = nothing_failed ret _ z
    object_stops (member text value ms) level ret run z =
        step_stops level (config_key text) _ _ _ (λ k r. json_stops value level (some k) r)
          (λ ret' r. object_stops ms level ret' r) z

    array_stops :
        (xs : Items) (level : Level) (ret : ℤ) (run : Run (Logged W))
        → StopsAtFailure ret run.world.results
        → Out (config_json_array (logged set) xs level ret run)
    array_stops nil level ret run h = h
    array_stops (item x xs) level ret run h = elim (Bool-cases (eq_ℤ ret (pos 0))) [
      | inl e ↦ rw e (
          array_stops xs level _ _
            (json_stops x level none run (results_zero _ (rw (eq_ℤ→eq ret (pos 0) e) at h))))
      | inr e ↦ rw e h
    ]

-- Whatever the setter does, the walk over a document makes no call of it after one that returned a
-- result other than 0, and then that result is the one of the walk.
pub config_json-StopsAtFailure :
    {W : Type 0} (set : ConfigPair → W → ℤ × W) (j : Json) (level : Level) (key : Option Key)
    (c : ConfigPair) (w : W)
    → let (ret, after) =
        config_json
          (logged set)
          j
          level
          key
          (record { c = c; world = record { world = w; results = [] } }) in
      StopsAtFailure ret after.world.results
config_json-StopsAtFailure set j level key c w = json_stops set j level key _ tt
