-- ===== src/Libc/Digits.antt =====
-- The digits that a %d prints, as the conversions of src/addresses.c and src/config.c read them.
use nftlb.Prelude.{
  ℕ, zero, suc, ◌+◌, ◌*◌, ◌/◌, ◌%◌, ◌<◌, ◌≡◌, refl, ◌∙◌, ap, Bool, true, false, List, [], ◌∷◌, ◌++◌,
  ◌&&◌, not, ◌-◌, some, pos, arith, ltb, ◌==◌, Bool-cases, inl, inr, if◌then◌else◌,
}
use mathlib.Core.List.{append_assoc}
use nftlb.Libc.{is_digit, starts_digit, scan_digits, scan_int, print_digits}

-- `acc` with the digits of `n` behind it.
unfoldable pub shift : ℕ → ℕ → ℕ → ℕ
shift zero acc n = acc
shift (suc fuel) acc n =
    let front = shift fuel acc (n / 10) in if ltb n 10 then acc * 10 + n else front * 10 + n % 10

pub shift-zero : (fuel n : ℕ) → n < fuel → shift fuel 0 n ≡ n
unfolding shift
shift-zero zero n h = elim h [ ]
shift-zero (suc fuel) n h = ground (arith, shift-zero fuel (n / 10))

digit_IsDigit : (d : ℕ) → d < 10 → is_digit (d + b'0') ≡ true
digit_IsDigit d h = ground arith

ltb→lt : (a b : ℕ) → ltb a b ≡ true → a < b
ltb→lt a b h = ground arith

scan_digits-cons :
    (acc d : ℕ) (rest : List ℕ)
    → d < 10
    → scan_digits acc ((d + b'0') ∷ rest) ≡ scan_digits (acc * 10 + d) rest
unfolding scan_digits
scan_digits-cons acc d rest h =
    let e : d + b'0' - b'0' ≡ d = omega arith in rw (digit_IsDigit d h) (rw e)

pub scan_digits-print_digits :
    (fuel acc n : ℕ) (rest : List ℕ)
    → n < fuel
    → scan_digits acc (print_digits fuel n ++ rest) ≡ scan_digits (shift fuel acc n) rest
unfolding print_digits shift
scan_digits-print_digits zero acc n rest h = elim h [ ]
scan_digits-print_digits (suc fuel) acc n rest h = elim (Bool-cases (ltb n 10)) [
  | inl small ↦ rw small (scan_digits-cons acc n rest (ltb→lt n 10 small))
  | inr large ↦ rw large (
      rw append_assoc (
        scan_digits-print_digits fuel acc (n / 10) ((n % 10 + b'0') ∷ rest) (ground arith)
        ∙ scan_digits-cons (shift fuel acc (n / 10)) (n % 10) rest (omega arith)))
]

-- The first digit: `true` where it is no zero.
unfoldable pub starts_nonzero : List ℕ → Bool
starts_nonzero [] = false
starts_nonzero (c ∷ s) = is_digit c && not (c == b'0')

pub print_digits-starts_nonzero :
    (fuel n : ℕ) (rest : List ℕ)
    → n < fuel
    → 0 < n
    → starts_nonzero (print_digits fuel n ++ rest) ≡ true
unfolding print_digits starts_nonzero
print_digits-starts_nonzero zero n rest h p = elim h [ ]
print_digits-starts_nonzero (suc fuel) n rest h p = elim (Bool-cases (ltb n 10)) [
  | inl small ↦ rw small (ground arith)
  | inr large ↦ rw large (
      rw append_assoc (
        print_digits-starts_nonzero fuel (n / 10) ((n % 10 + b'0') ∷ rest) (ground arith)
          (ground arith)))
]

-- %d at a text that starts with a digit other than 0.
pub scan_int-digit :
    (s : List ℕ)
    → starts_nonzero s ≡ true
    → scan_int s ≡ some (pos (scan_digits 0 s).0, (scan_digits 0 s).1)
unfolding scan_int starts_nonzero
scan_int-digit [] h = cc
scan_int-digit (c ∷ s) h = ground arith

scan_digits-stop :
    (acc : ℕ) (rest : List ℕ) → starts_digit rest ≡ false → scan_digits acc rest ≡ (acc, rest)
unfolding scan_digits
scan_digits-stop acc [] h = refl
scan_digits-stop acc (c ∷ s) h = rw h refl

-- %d reads a printed positive number back.
pub scan_int-print_digits :
    (n : ℕ) (rest : List ℕ)
    → 0 < n
    → starts_digit rest ≡ false
    → scan_int (print_digits (suc n) n ++ rest) ≡ some (pos n, rest)
scan_int-print_digits n rest positive stops =
    scan_int-digit (print_digits (suc n) n ++ rest)
      (print_digits-starts_nonzero (suc n) n rest (omega arith) positive)
    ∙ ap (λ p. some (pos p.0, p.1))
        (scan_digits-print_digits (suc n) 0 n rest (omega arith)
          ∙ ap (λ m. scan_digits m rest) (shift-zero (suc n) n (omega arith))
          ∙ scan_digits-stop n rest stops)
