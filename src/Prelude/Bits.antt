-- ===== src/Prelude/Bits.antt =====
-- Flag words: the tests of single bits, and properties checked at every word of a small range.
use Prim.Native.Nat.{ℕ, zero, suc, ◌<◌, bit_and}
use mathlib.Core.Path.{◌≡◌}
use mathlib.Core.Bool.{Bool, true, false, not}
use mathlib.Core.Logic.{inl, inr}
use native.Mathlib.Omega.{arith}
use nftlb.Prelude.Tests.{◌==◌, if◌then◌else◌, Bool-cases}

-- word & flag, as a condition
abbrev pub has_flag : ℕ → ℕ → Bool
has_flag word flag = not (bit_and word flag == 0)

-- The test passes at every word under the bound.
unfoldable pub at_words : (ℕ → Bool) → ℕ → Bool
at_words test zero = true
at_words test (suc top) = if test top then at_words test top else false

pub at_words-word :
    (test : ℕ → Bool) (bound word : ℕ)
    → at_words test bound ≡ true
    → word < bound
    → test word ≡ true
unfolding at_words
at_words-word test zero word passes below = absurd (ground (arith, below))
at_words-word test (suc top) word passes below = elim (Bool-cases (test top)) [
  | inl here ↦ elim (Bool-cases (word == top)) [
    | inl last ↦ let same : word ≡ top = ground (arith, last) in rw same here
    | inr earlier ↦ at_words-word test top word (rw here at passes) (ground (arith, earlier, below))
  ]
  | inr fails ↦ absurd (ground (arith, rw fails at passes))
]
