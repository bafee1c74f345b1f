-- ===== src/Checksum.antt =====
-- src/checksum.c: the checksum of RFC 1071, in a 32-bit register. A text of bytes is a list of
-- numbers below 256; a word is read from memory with its low byte first.
use nftlb.Prelude.{
  ℕ, zero, suc, ◌+◌, ◌*◌, ◌-◌, ◌/◌, ◌%◌, ◌≤◌, ◌<◌, ◌≡◌, inl, inr, ◌∙◌, false, List, [], ◌∷◌, ◌++◌,
  arith, length, All, ◌==◌, if◌then◌else◌, Bool-cases,
}

-- The loop over the words, and the byte that is left over.
unfoldable pub sum_up : List ℕ → ℕ → ℕ
sum_up [] sum = sum
sum_up (a ∷ []) sum = (sum + a) % 4294967296
sum_up (a ∷ b ∷ s) sum = sum_up s ((sum + (a + 256 * b)) % 4294967296)

-- The loop that folds the sum into 16 bits, on fuel.
unfoldable pub fold : ℕ → ℕ → ℕ
fold zero sum = sum
fold (suc fuel) sum =
    let rest = fold fuel (sum % 65536 + sum / 65536) in if sum / 65536 == 0 then sum else rest

unfoldable pub checksum : List ℕ → ℕ
unfolding sum_up fold
checksum s = 65535 - fold 3 (sum_up s 0) % 65536

-- The text after the checksum's two bytes are put behind it.
abbrev pub with_checksum : List ℕ → List ℕ
with_checksum s = s ++ checksum s % 256 ∷ checksum s / 256 ∷ []

-- The words of the text, added up without a bound.
abbrev pub total : List ℕ → ℕ
total [] = 0
total (a ∷ []) = a
total (a ∷ b ∷ s) = a + 256 * b + total s

-- Ends below 2 ^ 16, and equal modulo 2 ^ 16 - 1, where 0 is kept apart.
record IsFolded (s t : ℕ) : Type 0 where
  bound : t < 65536
  quotient : ℕ
  same : s ≡ t + 65535 * quotient
  nonzero : 0 < s → 0 < t

abbrev step : ℕ → ℕ
step s = s % 65536 + s / 65536

fold_or_stop :
    (s t : ℕ)
    → ((s / 65536 == 0) ≡ false → IsFolded (step s) t)
    → IsFolded s (if s / 65536 == 0 then s else t)
fold_or_stop s t h = elim (Bool-cases (s / 65536 == 0)) [
  | inl ended ↦
      rw ended (record { bound = ground arith; quotient = 0; same = omega arith; nonzero = λ p. p })
  | inr more ↦
      let r = h more in
      rw more (record {
        bound = r.bound;
        quotient = r.quotient + s / 65536;
        same = omega (arith, r.same);
        nonzero = λ p. r.nonzero (omega (arith, p));
      })
]

no_more : (s : ℕ) → s < 65536 → (s / 65536 == 0) ≡ false → ⊥
no_more s h more = ground arith

step-bound : (s : ℕ) → s < 4294967296 → step s < 131071
step-bound s h = omega (arith, h)

step-bound_again : (s : ℕ) → s < 131071 → step s < 65536
step-bound_again s h = omega (arith, h)

fold-IsFolded : (s : ℕ) → s < 4294967296 → IsFolded s (fold 3 s)
unfolding fold
fold-IsFolded s h =
    let small = step-bound_again (step s) (step-bound s h) in
    fold_or_stop s (fold 2 (step s)) (λ e. fold_or_stop (step s) (fold 1 (step (step s))) (λ e'.
      fold_or_stop (step (step s)) (step (step (step s)))
        (λ e''. absurd (no_more (step (step s)) small e''))))

abbrev pub IsByte : ℕ → Type 0
IsByte a = a < 256

total-bound : (s : List ℕ) → All IsByte s → total s ≤ 65535 * length s
total-bound [] bytes = omega arith
total-bound (a ∷ []) bytes = omega (arith, bytes.0)
total-bound (a ∷ b ∷ s) bytes = omega (arith, bytes.0, bytes.1.0, total-bound s bytes.1.1)

-- The register does not overflow.
sum_up-total : (s : List ℕ) (sum : ℕ) → sum + total s < 4294967296 → sum_up s sum ≡ sum + total s
unfolding sum_up
sum_up-total [] sum h = omega arith
sum_up-total (a ∷ []) sum h = omega (arith, h)
sum_up-total (a ∷ b ∷ s) sum h =
    let now : (sum + (a + 256 * b)) % 4294967296 ≡ sum + (a + 256 * b) = omega (arith, h) in
    rw now (sum_up-total s (sum + (a + 256 * b)) (omega (arith, h)) ∙ omega arith)

-- The complement of the sum of the words, in the arithmetic modulo 2 ^ 16 - 1.
pub record IsComplement (sum answer : ℕ) : Type 0 where
  pub bound : answer ≤ 65535
  pub multiple : ℕ
  pub cancels : sum + answer ≡ 65535 * multiple
  pub nonzero : 0 < sum → answer < 65535
  pub positive : 0 < sum + answer

complement : (sum t : ℕ) → IsFolded sum t → IsComplement sum (65535 - t % 65536)
complement sum t f = record {
  bound = omega arith;
  multiple = f.quotient + 1;
  cancels = omega (arith, f.bound, f.same);
  nonzero = λ p. omega (arith, f.bound, f.nonzero p);
  positive = omega (arith, f.bound, f.same);
}

answer_cancels : (s : List ℕ) → total s < 4294967296 → IsComplement (total s) (checksum s)
unfolding checksum
answer_cancels s h =
    let e : sum_up s 0 ≡ total s = sum_up-total s 0 (omega (arith, h)) ∙ omega arith in
    rw e (complement (total s) (fold 3 (total s)) (fold-IsFolded (total s) h))

-- The checksum of at most 65536 bytes is the complement of the sum of their words: the 32-bit register
-- does not overflow, the loop that folds ends within three rounds, and the sum and the checksum add
-- up to a multiple of 65535, the checksum being below 65535 where the sum is not 0, and above 0 where it is.
pub checksum-IsComplement :
    (s : List ℕ) → All IsByte s → length s ≤ 65536 → IsComplement (total s) (checksum s)
checksum-IsComplement s bytes h = answer_cancels s (omega (arith, total-bound s bytes, h))

-- The text is whole words.
abbrev pub IsEven : List ℕ → Type 0
IsEven [] = Unit
IsEven (a ∷ []) = ⊥
IsEven (a ∷ b ∷ s) = IsEven s

total-append :
    (s : List ℕ) (lo hi : ℕ) → IsEven s → total (s ++ lo ∷ hi ∷ []) ≡ total s + (lo + 256 * hi)
total-append [] lo hi even = omega arith
total-append (a ∷ []) lo hi even = absurd even
total-append (a ∷ b ∷ s) lo hi even = omega (arith, total-append s lo hi even)

-- The checksum of whole words with their checksum behind them is 0, up to 65534 bytes.
pub checksum-with_checksum :
    (s : List ℕ) → IsEven s → All IsByte s → length s ≤ 65534 → checksum (with_checksum s) ≡ 0
checksum-with_checksum s even bytes h =
    let c = checksum s in
    let first = checksum-IsComplement s bytes (omega (arith, h)) in
    let t : total (with_checksum s) ≡ total s + c =
      total-append s (c % 256) (c / 256) even ∙ omega arith in
    let second =
      answer_cancels (with_checksum s) (omega (arith, t, total-bound s bytes, h, first.bound)) in
    let below = second.nonzero (omega (arith, t, first.positive)) in
    omega (arith, t, below, first.cancels, second.cancels)
