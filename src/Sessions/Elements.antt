-- ===== src/Sessions/Elements.antt =====
-- The loop of nft_parse_sessions of src/sessions.c ends within its fuel.
use nftlb.Prelude.{
  ℕ, zero, suc, ◌<◌, ◌≤◌, ◌≡◌, refl, ap, some, String, split_at, split_at-length, str_length,
  Option-cases, inl, inr, arith,
}
use nftlb.Model.{Farm}
use nftlb.Network.{Net}
use nftlb.Sessions.Timed.{
  Element, next_element, add_element, parse_elements, skip_blanks, read_backend, read_expires,
}

pub skip_blanks-length : (s : String) → str_length (skip_blanks s) ≤ str_length s
unfolding skip_blanks
skip_blanks-length String.[] = omega arith
skip_blanks-length (String.◌∷◌ c s) = ground (arith, skip_blanks-length s)

read_backend_length :
    (client expires s : String) (e : Element)
    → read_backend client expires (split_at "," s) (split_at " " s) ≡ some e
    → str_length e.rest ≤ str_length s
read_backend_length client expires s e h = elim (Option-cases (split_at "," s)) [
  | inr ((bck, rest), comma) ↦
      let it : skip_blanks rest ≡ e.rest = ground (arith, rw comma at h) in
      omega (arith, ap str_length it, skip_blanks-length rest, split_at-length "," s bck rest comma)
  | inl no_comma ↦ elim (Option-cases (split_at " " s)) [
    | inr ((bck, rest), blank) ↦
        let it : skip_blanks rest ≡ e.rest = ground (arith, rw (no_comma, blank) at h) in
        omega
          (arith, ap str_length it, skip_blanks-length rest, split_at-length " " s bck rest blank)
    | inl no_blank ↦ cc (rw (no_comma, no_blank) at h)
  ]
]

read_expires_length :
    (client s : String) (e : Element)
    → read_expires client (split_at " : " s) ≡ some e
    → str_length e.rest ≤ str_length s
read_expires_length client s e h = elim (Option-cases (split_at " : " s)) [
  | inl missing ↦ cc (rw missing at h)
  | inr ((expires, rest), found) ↦ omega (
    arith,
    read_backend_length client expires rest e (rw found at h),
    split_at-length " : " s expires rest found,
  )
]

next_element-length :
    (s : String) (e : Element) → next_element s ≡ some e → str_length e.rest < str_length s
unfolding next_element
next_element-length s e h = elim (Option-cases (split_at " expires " s)) [
  | inl missing ↦ elim (Option-cases (split_at " timeout " s)) [
    | inl none_too ↦ cc (rw (none_too, missing) at h)
    | inr ((client, after), timeout) ↦ cc (rw (timeout, missing) at h)
  ]
  | inr ((before, rest), found) ↦
      let shorter = split_at-length " expires " s before rest found in
      elim (Option-cases (split_at " timeout " s)) [
        | inl none_too ↦
            omega (arith, shorter, read_expires_length before rest e (rw (none_too, found) at h))
        | inr ((client, after), timeout) ↦
            omega (arith, shorter, read_expires_length client rest e (rw (timeout, found) at h))
      ]
]

module _ (net : Net) (masquerade_mark : ℕ) where
  -- The loop of nft_parse_sessions ends by its own tests: fuel above the length of the text is enough,
  -- and any such fuel gives the same.
  pub parse_elements-fuel :
      (n k : ℕ) (s : String) (f : Farm)
      → str_length s < n
      → str_length s < k
      → parse_elements net masquerade_mark n s f ≡ parse_elements net masquerade_mark k s f
  unfolding parse_elements
  parse_elements-fuel zero k s f p q = elim p [ ]
  parse_elements-fuel (suc n) zero s f p q = elim q [ ]
  parse_elements-fuel (suc n) (suc k) s f p q = elim (Option-cases (next_element s)) [
    | inl ends ↦ rw (ends, parse_elements) refl
    | inr (e, found) ↦
        let shorter = next_element-length s e found in
        let same =
          parse_elements-fuel n k e.rest (add_element net masquerade_mark e f) (omega arith)
            (omega arith) in
        rw (found, parse_elements) (rw same refl)
  ]
