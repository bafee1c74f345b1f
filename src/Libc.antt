-- ===== src/Libc.antt =====
-- The C library calls that src/config.c, src/objects.c and src/addresses.c read and print numbers
-- with, over the characters of a text: atoi, strtol(…, 16), the conversions of sscanf and %d of
-- sprintf. A number outside the range of its C type, which
-- the C library leaves undefined or clamps, is read as the number that it names.
pub mod Digits
use nftlb.Prelude.{
  ℕ, zero, suc, ◌+◌, ◌*◌, ◌-◌, ◌/◌, ◌%◌, Bool, true, false, ◌&&◌, ◌||◌, List, [], ◌∷◌, ◌++◌, Option,
  none, some, ℤ, pos, negsuc, leb, ltb, ◌==◌, if◌then◌else◌,
}

abbrev pub is_space : ℕ → Bool
is_space c = c == b' ' || leb 9 c && leb c 13

abbrev pub is_digit : ℕ → Bool
is_digit c = leb b'0' c && leb c b'9'

abbrev pub is_alpha : ℕ → Bool
is_alpha c = leb b'a' c && leb c b'z' || leb b'A' c && leb c b'Z'

unfoldable pub skip_space : List ℕ → List ℕ
skip_space [] = []
skip_space (c ∷ s) = if is_space c then skip_space s else c ∷ s

-- The value of the digits in front, added to `acc`, and what follows them.
unfoldable pub scan_digits : ℕ → List ℕ → ℕ × List ℕ
scan_digits acc [] = (acc, [])
scan_digits acc (c ∷ s) =
    let more = scan_digits (acc * 10 + (c - b'0')) s in if is_digit c then more else (acc, c ∷ s)

abbrev pub negate : ℕ → ℤ
negate zero = pos 0
negate (suc n) = negsuc n

-- A sign and what follows it; `true` for a minus.
abbrev pub scan_sign : List ℕ → Bool × List ℕ
scan_sign [] = (false, [])
scan_sign (c ∷ s) =
    if c == b'-' then (true, s) else if c == b'+' then (false, s) else (false, c ∷ s)

abbrev pub starts_digit : List ℕ → Bool
starts_digit [] = false
starts_digit (c ∷ s) = is_digit c

abbrev pub signed : Bool → ℕ → ℤ
signed minus n = if minus then negate n else pos n

unfoldable pub atoi : List ℕ → ℤ
unfolding skip_space scan_digits
atoi s = let (minus, digits) = scan_sign (skip_space s) in signed minus (scan_digits 0 digits).0

-- %d of sscanf: `none` where no digit follows, and then nothing is assigned.
unfoldable pub scan_int : List ℕ → Option (ℤ × List ℕ)
unfolding skip_space scan_digits
scan_int s =
    let (minus, digits) = scan_sign (skip_space s) in
    let (n, rest) = scan_digits 0 digits in
    if starts_digit digits then some (signed minus n, rest) else none

-- The longest run in front, of at most `limit` characters that pass the test, and what follows it:
-- %[…] of sscanf, which fails on an empty run.
unfoldable pub scan_run : (ℕ → Bool) → ℕ → List ℕ → List ℕ × List ℕ
scan_run p zero s = ([], s)
scan_run p (suc limit) [] = ([], [])
scan_run p (suc limit) (c ∷ s) =
    let (run, rest) = scan_run p limit s in if p c then (c ∷ run, rest) else ([], c ∷ s)

abbrev pub hex_digit : ℕ → Option ℕ
hex_digit c =
    if is_digit c
    then some (c - b'0')
    else if leb b'a' c && leb c b'f'
    then some (c - b'a' + 10)
    else if leb b'A' c && leb c b'F'
    then some (c - b'A' + 10)
    else none

unfoldable pub scan_hex : ℕ → List ℕ → ℕ
scan_hex acc [] = acc
scan_hex acc (c ∷ s) = elim (hex_digit c) [ none ↦ acc | some d ↦ scan_hex (acc * 16 + d) s ]

abbrev pub starts_hex : List ℕ → Bool
starts_hex [] = false
starts_hex (c ∷ s) = elim (hex_digit c) [ none ↦ false | some _ ↦ true ]

-- 0x in front of a hexadecimal digit is passed over.
abbrev pub skip_0x : List ℕ → List ℕ
skip_0x (c ∷ x ∷ s) = if c == b'0' && (x == b'x' || x == b'X') && starts_hex s then s else c ∷ x ∷ s
skip_0x s = s

-- (int)strtol(s, NULL, 16) of a number that an int holds
unfoldable pub strtol_16 : List ℕ → ℤ
unfolding skip_space scan_hex
strtol_16 s =
    let (minus, digits) = scan_sign (skip_space s) in signed minus (scan_hex 0 (skip_0x digits))

-- The decimal digits of a number below the fuel.
unfoldable pub print_digits : ℕ → ℕ → List ℕ
print_digits zero n = []
print_digits (suc fuel) n =
    let front = print_digits fuel (n / 10) in
    if ltb n 10 then (n + b'0') ∷ [] else front ++ (n % 10 + b'0') ∷ []

-- %d of sprintf
unfoldable pub print_int : ℤ → List ℕ
unfolding print_digits
print_int (pos n) = print_digits (suc n) n
print_int (negsuc n) = b'-' ∷ print_digits (suc (suc n)) (suc n)
