-- ===== src/Config/RateReadBack.antt =====
-- A rate limit that src/objects.c prints is read back by src/config.c.
use nftlb.Prelude.{
  ℕ, suc, ◌<◌, ◌≡◌, refl, ◌∙◌, ap, true, false, List, [], ◌∷◌, ◌++◌, some, ℤ, pos, codes, arith,
  leb_ℤ, ◌==◌,
}
use nftlb.Enums.{RateUnit, ParserOutput, unit_value}
use nftlb.Libc.Digits.{
  shift-zero, scan_digits-print_digits, starts_nonzero, print_digits-starts_nonzero, scan_int-digit,
}
use nftlb.Libc.{scan_digits, scan_int, print_digits}
use nftlb.Objects.Print.{rtlimit_unit, obj_print_rtlimit}
use nftlb.Config.Pair.{
  rtlimit_unit_of, scan_unit, rate_scanned, rate_checked, config_value_ratelimit,
}

scan_unit-print :
    (t : RateUnit) → rtlimit_unit_of (scan_unit (b'/' ∷ codes (rtlimit_unit t))) ≡ some t
unfolding rtlimit_unit_of scan_unit rtlimit_unit
scan_unit-print RateUnit.second = refl
scan_unit-print _ = refl

starts_nonzero-split :
    (s : List ℕ)
    → starts_nonzero s ≡ true
    → (c : ℕ) × (t : List ℕ) × (s ≡ c ∷ t) × ((c == b'0') ≡ false)
unfolding starts_nonzero
starts_nonzero-split [] h = cc
starts_nonzero-split (c ∷ s) h = (c, s, refl, ground arith)

config_value_ratelimit_lem :
    (v u : ℤ) (s : List ℕ)
    → starts_nonzero s ≡ true
    → config_value_ratelimit v u s ≡ rate_scanned v u (scan_int s)
unfolding config_value_ratelimit
config_value_ratelimit_lem v u s h =
    let (c, t, e, nonzero) = starts_nonzero-split s h in rw (e, nonzero)

rate_checked-some :
    (u : ℤ) (n : ℕ) (word : List ℕ) (t : RateUnit)
    → rtlimit_unit_of word ≡ some t
    → rate_checked (pos n) u word ≡ (ParserOutput.ok, pos n, pos (unit_value t))
unfolding rate_checked
rate_checked-some u n [] t h = cc
rate_checked-some u n (c ∷ word) t h =
    let passes : leb_ℤ (pos 0) (pos n) ≡ true = ground arith in rw (passes, h)

scan_digits-print :
    (n : ℕ) (word : List ℕ)
    → scan_digits 0 (print_digits (suc n) n ++ b'/' ∷ word) ≡ (n, b'/' ∷ word)
unfolding scan_digits
scan_digits-print n word =
    scan_digits-print_digits (suc n) 0 n (b'/' ∷ word) (omega arith)
    ∙ ap (λ m. (m, b'/' ∷ word)) (shift-zero (suc n) n (omega arith))

-- The printed form of a positive rate limit is read back as that limit and its unit, whatever the
-- variables held before.
pub config_value_ratelimit-obj_print_rtlimit :
    (n : ℕ) (t : RateUnit) (v u : ℤ)
    → 0 < n
    → config_value_ratelimit v u (obj_print_rtlimit (pos n) t)
      ≡ (ParserOutput.ok, pos n, pos (unit_value t))
unfolding obj_print_rtlimit rate_scanned
config_value_ratelimit-obj_print_rtlimit n t v u h =
    let rest = b'/' ∷ codes (rtlimit_unit t) in
    let nonzero = print_digits-starts_nonzero (suc n) n rest (omega arith) h in
    config_value_ratelimit_lem v u _ nonzero
    ∙ ap (rate_scanned v u) (
        scan_int-digit _ nonzero
        ∙ ap (λ p. some (pos p.0, p.1)) (scan_digits-print n (codes (rtlimit_unit t))))
    ∙ rate_checked-some u n _ t (scan_unit-print t)
