-- ===== src/Config/Stale.antt =====
-- A rate limit that is not a number: what config_value_ratelimit of src/config.c makes of it behind a
-- limit that was refused.
use nftlb.Prelude.{◌≡◌, true, arith, false, String, List, ◌∷◌, none, ℕ, ℤ, pos, codes, leb_ℤ, ◌==◌}
use nftlb.Enums.{ParserOutput}
use nftlb.Libc.{scan_int}
use nftlb.Config.Pair.{ConfigPair, config_rate, config_value_ratelimit, rate_scanned}

rate_scanned-none :
    (v unit : ℤ) (n : ℕ) → v ≡ pos n → rate_scanned v unit none ≡ (ParserOutput.ok, v, unit)
unfolding rate_scanned
rate_scanned-none v unit n h =
    let passes : leb_ℤ (pos 0) v ≡ true = rw h (ground arith) in rw passes

config_rate_lem :
    (c : ConfigPair) (text : String) {v unit : ℤ}
    → config_value_ratelimit c.int_value c.int_value2 (codes text) ≡ (ParserOutput.ok, v, unit)
    → config_rate c text ≡ (ParserOutput.ok, record c { int_value = v; int_value2 = unit })
unfolding config_rate
config_rate_lem c text h = rw h

-- A rate limit that is not a number is accepted where the parser's variable still holds a number
-- that is not negative, as a refused limit before it has left it there: the old number is the limit.
pub config_rate-stale :
    (c : ConfigPair) (refused text : String) (n ch : ℕ) (s : List ℕ)
    → (config_rate c refused).0 ≡ ParserOutput.valid_failed
    → (config_rate c refused).1.int_value ≡ pos n
    → codes text ≡ ch ∷ s
    → (ch == b'0') ≡ false
    → scan_int (ch ∷ s) ≡ none
    → config_rate (config_rate c refused).1 text ≡ (ParserOutput.ok, (config_rate c refused).1)
unfolding config_value_ratelimit
config_rate-stale c refused text n ch s failed held read nonzero unread =
    let d = (config_rate c refused).1 in
    config_rate_lem d text
      (rw (read, nonzero, unread) (rate_scanned-none d.int_value d.int_value2 n held))
