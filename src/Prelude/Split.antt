-- ===== src/Prelude/Split.antt =====
-- strstr: the place of a text in another, as what stands before it and what follows it.
use Prim.Native.Char.{Char, code}
use Prim.Native.String.{String}
use Prim.Native.Nat.{ℕ, suc, ◌+◌, ◌≤◌}
use mathlib.Core.Path.{◌≡◌, ap}
use mathlib.Core.Logic.{inl, inr}
use mathlib.Core.Option.{Option, none, some}
use native.Mathlib.Omega.{arith}
use nftlb.Prelude.Tests.{◌==◌, if◌then◌else◌, Option-cases}

abbrev pub str_length : String → ℕ
str_length String.[] = 0
str_length (String.◌∷◌ c s) = suc (str_length s)

-- What follows the prefix, where the text has it.
unfoldable pub str_after : String → String → Option String
str_after String.[] s = some s
str_after (String.◌∷◌ c p) String.[] = none
str_after (String.◌∷◌ c p) (String.◌∷◌ d s) = if code c == code d then str_after p s else none

abbrev pub move_on : Option String → Option (String × String) → Char → Option (String × String)
move_on (some after) found before = some ("", after)
move_on none none before = none
move_on none (some (passed, after)) before = some (String.◌∷◌ before passed, after)

-- The first place of a text that is not empty.
unfoldable pub split_at : String → String → Option (String × String)
unfolding str_after
split_at t String.[] = none
split_at t (String.◌∷◌ c s) = move_on (str_after t (String.◌∷◌ c s)) (split_at t s) c

str_after-length :
    (t s after : String)
    → str_after t s ≡ some after
    → str_length after + str_length t ≡ str_length s
unfolding str_after
str_after-length String.[] s after h = ground arith
str_after-length (String.◌∷◌ c t) String.[] after h = cc
str_after-length (String.◌∷◌ c t) (String.◌∷◌ d s) after h =
    ground (arith, str_after-length t s after)

-- What follows a text in another is shorter by the text at least.
pub split_at-length :
    (t s before after : String)
    → split_at t s ≡ some (before, after)
    → str_length after + str_length t ≤ str_length s
unfolding split_at
split_at-length t String.[] before after h = cc
split_at-length t (String.◌∷◌ c s) before after h =
    elim (Option-cases (str_after t (String.◌∷◌ c s))) [
      | inr (a, here) ↦
          let same : a ≡ after = cc (rw here at h) in
          omega (arith, str_after-length t (String.◌∷◌ c s) a here, ap str_length same)
      | inl not_here ↦ elim (Option-cases (split_at t s)) [
        | inl nowhere ↦ cc (rw (not_here, nowhere) at h)
        | inr ((b, a), later) ↦
            let same : a ≡ after = cc (rw (not_here, later) at h) in
            omega (arith, split_at-length t s b a later, ap str_length same)
      ]
    ]
