-- ===== src/Prelude/Text.antt =====
-- C strings: a `char *` that may be NULL is an optional text, and the calls of <string.h> that the
-- program makes of them.
use Prim.Native.Char.{code}
use Prim.Native.String.{String}
use text.Mathlib.Text.{◌==◌ as text_eq, find? as text_find?}
use text.Mathlib.TextEquality.{eq_iff}
use Prim.Native.Nat.{ℕ}
use mathlib.Core.Path.{◌≡◌}
use mathlib.Core.Logic.{◌↔◌}
use mathlib.Core.Bool.{Bool, true, false}
use mathlib.Core.Option.{none, some}
use mathlib.Core.List.{List, [], ◌∷◌}

-- strcmp(a, b) == 0
abbrev pub str_eq : String → String → Bool
str_eq a b = text_eq a b

pub str_eq_iff : (a b : String) → (str_eq a b ≡ true) ↔ (a ≡ b)
str_eq_iff a b = eq_iff a b

-- strstr(s, t) != NULL
abbrev pub str_has : String → String → Bool
str_has s t = elim (text_find? s t) [ none ↦ false | some _ ↦ true ]

-- The characters of a text as numbers.
abbrev pub codes : String → List ℕ
codes String.[] = []
codes (String.◌∷◌ c s) = code c ∷ codes s
