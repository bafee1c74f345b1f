-- ===== src/Objects/Order.antt =====
-- The calls that obj_set_attribute of src/objects.c makes of the handlers, against a description of them
-- by what is asked, prepared and finished at each level.
use nftlb.Prelude.{
  ◌≡◌, inl, inr, refl, Bool, true, false, ◌&&◌, not, List, [], ◌∷◌, ◌++◌, Option, none, some, ℤ,
  pos, eq_ℤ, if◌then◌else◌, Bool-cases,
}
use nftlb.Enums.{Level}
use nftlb.Config.Pair.{ConfigPair}
use nftlb.Objects.Dispatch.{
  Handlers, prepare, finish, handle, handle_changed, set_at, set_for, obj_set_attribute,
}

-- A call of the level's pre_actionable or set_attribute, with what it returned, or of its
-- pos_actionable, with the number that it is given.
pub data Call : Type 0 where
  pre : Level → ℤ → Call
  set : Level → ℤ → Call
  pos_call : Level → ℤ → Call

-- A world with the calls that changed it, in their order.
pub record Traced (W : Type 0) : Type 0 where
  pub world : W
  pub calls : List Call

-- The levels whose attributes are left alone where nothing changes.
abbrev pub asks_changed : Level → Bool
asks_changed Level.farms = true
asks_changed Level.bcks = true
asks_changed Level.policies = true
asks_changed Level.addresses = true
asks_changed level = false

-- The elements have no pre_actionable.
abbrev pub prepares : Level → Bool
prepares Level.elements = false
prepares level = true

-- Where pos_actionable follows, from the action that pre_actionable gave and the setter's result: at a
-- farm the result is to be 0, and the action not ACTION_NONE, which is 5; at a backend the latter alone;
-- at a link to an address the action is not to be 0.
abbrev pub finishes : Level → ℤ → ℤ → Bool
finishes Level.farms action ret = eq_ℤ ret (pos 0) && not (eq_ℤ action (pos 5))
finishes Level.bcks action ret = not (eq_ℤ action (pos 5))
finishes Level.farmaddress action ret = not (eq_ℤ action (pos 0))
finishes level action ret = true

module _ {W : Type 0} (h : Handlers W) where
  -- The handlers, and a note of each call.
  abbrev pub traced : Handlers (Traced W)
  traced = record {
    changed = λ level c t. h.changed level c t.world;
    farm_actionable = λ c t. h.farm_actionable c t.world;
    pre_actionable = λ level c t.
        let (action, w) = h.pre_actionable level c t.world in
        (action, record { world = w; calls = t.calls ++ pre level action ∷ [] });
    set_attribute = λ level c apply_action t.
        let (ret, w) = h.set_attribute level c apply_action t.world in
        (ret, record { world = w; calls = t.calls ++ set level ret ∷ [] });
    pos_actionable = λ level c action t. record {
      world = h.pos_actionable level c action t.world;
      calls = t.calls ++ pos_call level action ∷ [];
    };
  }

  -- The change is actionable at the level: at a farm, farm_actionable agrees too.
  abbrev pub acts_at : Level → Bool → ConfigPair → W → Bool
  acts_at Level.farms actionable c w = actionable && h.farm_actionable c w
  acts_at level actionable c w = actionable

  -- The result and the calls where the setter is called: `acts` is whether the change is actionable.
  abbrev pub calls_of : Bool → Level → ConfigPair → ℤ → W → ℤ × List Call
  calls_of false level c apply_action w =
      let ret = (h.set_attribute level c apply_action w).0 in (ret, set level ret ∷ [])
  calls_of true level c apply_action w =
      let (action, prepared) =
        (if prepares level then h.pre_actionable level c w else (apply_action, w)) in
      let ret = (h.set_attribute level c apply_action prepared).0 in
      let first = if prepares level then pre level action ∷ [] else [] in
      let last = if finishes level action ret then pos_call level action ∷ [] else [] in
      (ret, first ++ set level ret ∷ last)

  -- A pair of no level, or of the outermost one, is refused with PARSER_STRUCT_FAILED, which is 3.
  abbrev pub expected : Option Level → Bool → ConfigPair → ℤ → W → ℤ × List Call
  expected none actionable c apply_action w = (pos 3, [])
  expected (some Level.init) actionable c apply_action w = (pos 3, [])
  expected (some level) actionable c apply_action w =
      if asks_changed level && not (h.changed level c w)
      then (pos 0, [])
      else calls_of (acts_at level actionable c w) level c apply_action w

-- A traced run, its result and calls as expected, against the run without the trace.
abbrev pub IsTraceOf : {W : Type 0} → ℤ × List Call → ℤ × Traced W → ℤ × W → Type 0
IsTraceOf (ret, calls) (ret', t) (ret'', w) =
    (ret' ≡ ret) × (t.calls ≡ calls) × (ret'' ≡ ret) × (t.world ≡ w)

abbrev pub untouched : {W : Type 0} → W → Traced W
untouched w = record { world = w; calls = [] }

module _ {W : Type 0} (h : Handlers W) (c : ConfigPair) (apply_action : ℤ) (w : W) where
  -- One case of the switch, at a level that prepares.
  handle-IsTraceOf :
      (level : Level) (acts : Bool)
      → prepares level ≡ true
      → IsTraceOf
          (calls_of h acts level c apply_action w)
          (handle (traced h) (finishes level) acts level c apply_action (untouched w))
          (handle h (finishes level) acts level c apply_action w)
  unfolding handle prepare finish
  handle-IsTraceOf level false prepared = (refl, refl, refl, refl)
  handle-IsTraceOf level true prepared =
      let (action, w1) = h.pre_actionable level c w in
      let (ret, w2) = h.set_attribute level c apply_action w1 in
      elim (Bool-cases (finishes level action ret)) [
        | inl follows ↦ rw (prepared, follows) (refl, refl, refl, refl)
        | inr ends ↦ rw (prepared, ends) (refl, refl, refl, refl)
      ]

  handle_changed-IsTraceOf :
      (level : Level) (acts : Bool)
      → prepares level ≡ true
      → IsTraceOf
          (if not (h.changed level c w)
            then (pos 0, [])
            else calls_of h acts level c apply_action w)
          (handle_changed (traced h) (finishes level) acts level c apply_action (untouched w))
          (handle_changed h (finishes level) acts level c apply_action w)
  unfolding handle_changed
  handle_changed-IsTraceOf level acts prepared = elim (Bool-cases (h.changed level c w)) [
    | inl e ↦ rw e (handle-IsTraceOf level acts prepared)
    | inr e ↦ rw e (refl, refl, refl, refl)
  ]

  set_at-IsTraceOf :
      (level : Level) (actionable : Bool)
      → IsTraceOf
          (expected h (some level) actionable c apply_action w)
          (set_at (traced h) level actionable c apply_action (untouched w))
          (set_at h level actionable c apply_action w)
  unfolding set_at finish
  set_at-IsTraceOf Level.farms actionable =
      handle_changed-IsTraceOf Level.farms (actionable && h.farm_actionable c w) refl
  set_at-IsTraceOf Level.bcks actionable = handle_changed-IsTraceOf Level.bcks actionable refl
  set_at-IsTraceOf Level.sessions actionable = handle-IsTraceOf Level.sessions actionable refl
  set_at-IsTraceOf Level.farmpolicy actionable = handle-IsTraceOf Level.farmpolicy actionable refl
  set_at-IsTraceOf Level.policies actionable =
      handle_changed-IsTraceOf Level.policies actionable refl
  set_at-IsTraceOf Level.elements false = (refl, refl, refl, refl)
  set_at-IsTraceOf Level.elements true = (refl, refl, refl, refl)
  set_at-IsTraceOf Level.addresses actionable =
      handle_changed-IsTraceOf Level.addresses actionable refl
  set_at-IsTraceOf Level.farmaddress actionable = handle-IsTraceOf Level.farmaddress actionable refl
  set_at-IsTraceOf Level.addresspolicy actionable =
      handle-IsTraceOf Level.addresspolicy actionable refl
  set_at-IsTraceOf Level.init actionable = (refl, refl, refl, refl)

set_for-IsTraceOf :
    {W : Type 0} (h : Handlers W) (c : ConfigPair) (apply_action : ℤ) (w : W) (level : Option Level)
    (actionable : Bool)
    → IsTraceOf
        (expected h level actionable c apply_action w)
        (set_for (traced h) level actionable c apply_action (untouched w))
        (set_for h level actionable c apply_action w)
unfolding set_for
set_for-IsTraceOf h c apply_action w none actionable = (refl, refl, refl, refl)
set_for-IsTraceOf h c apply_action w (some level) actionable =
    set_at-IsTraceOf h c apply_action w level actionable

-- Whatever the handlers do, the calls that obj_set_attribute makes of them, their order and its result
-- are the expected ones. All are calls of the pair's own level. At the levels that ask for a change,
-- nothing is called where nothing changes, and the result is 0; else the setter is called once, and its
-- result is the result. Where the change is actionable (at a farm, farm_actionable agrees too), the
-- level's pre_actionable is called before it, except for elements, and pos_actionable behind it, where
-- the action and the result let it follow. A pair of no level or of the outermost one gives 3.
pub obj_set_attribute-IsTraceOf :
    {W : Type 0} (h : Handlers W) (actionable : Bool) (apply_action : ℤ) (c : ConfigPair) (w : W)
    → IsTraceOf
        (expected h c.level actionable c apply_action w)
        (obj_set_attribute (traced h) actionable apply_action c (untouched w))
        (obj_set_attribute h actionable apply_action c w)
unfolding obj_set_attribute
obj_set_attribute-IsTraceOf h actionable apply_action c w =
    set_for-IsTraceOf h c apply_action w c.level actionable
