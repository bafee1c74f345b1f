-- ===== src/Farms/Helpers.antt =====
-- The connection tracking helper of a farm against the protocols of its addresses: farm_set_helper and
-- farm_validate_helper_protocol of src/farms.c, farmaddress_s_validate_helper of src/farmaddress.c.
use nftlb.Prelude.{
  ◌≡◌, refl, sym, ◌∙◌, Bool, true, false, ◌&&◌, ◌||◌, not, List, [], ◌∷◌, Option, none, some, All,
  if◌then◌else◌, Bool-cases, inl, inr, arith,
}
use nftlb.Enums.{Protocol, Helper, ParserOutput, is_protocol, is_helper}
use nftlb.Model.{Farm, Address, FarmAddress}
use nftlb.FarmAddresses.Links.{World, address_at}

-- The addresses that the links point to, in the links' order.
abbrev pub add_linked : Option Address → List Address → List Address
add_linked none l = l
add_linked (some a) l = a ∷ l

unfoldable pub linked : List Address → List FarmAddress → List Address
linked addresses [] = []
linked addresses (fa ∷ fas) = add_linked (address_at fa.address addresses) (linked addresses fas)

-- The body of the loop of farm_validate_helper_protocol: it returns 0 where this is false.
unfoldable pub helper_fits : Helper → Protocol → Bool
helper_fits helper Protocol.all = is_helper helper Helper.none || is_helper helper Helper.sip
helper_fits helper Protocol.tcp =
    is_helper helper Helper.none
    || is_helper helper Helper.ftp
    || is_helper helper Helper.pptp
    || is_helper helper Helper.sip
helper_fits helper Protocol.udp =
    is_helper helper Helper.none
    || is_helper helper Helper.tftp
    || is_helper helper Helper.snmp
    || is_helper helper Helper.sip
helper_fits helper Protocol.sctp = true

unfoldable pub farm_validate_helper_protocol : Helper → List Address → Bool
unfolding helper_fits
farm_validate_helper_protocol helper [] = true
farm_validate_helper_protocol helper (a ∷ l) =
    if helper_fits helper a.protocol then farm_validate_helper_protocol helper l else false

-- The body of the loop of farmaddress_s_validate_helper: it returns PARSER_VALID_FAILED where this is
-- true.
unfoldable pub helper_refused : Helper → Protocol → Bool
helper_refused new_value protocol =
    (is_helper new_value Helper.ftp || is_helper new_value Helper.pptp)
      && not (is_protocol protocol Protocol.tcp)
    || (is_helper new_value Helper.tftp || is_helper new_value Helper.snmp)
      && not (is_protocol protocol Protocol.udp)
    || is_helper new_value Helper.sip && is_protocol protocol Protocol.sctp

unfoldable pub validate_helper_loop : Helper → List Address → ParserOutput
unfolding helper_refused
validate_helper_loop new_value [] = ParserOutput.ok
validate_helper_loop new_value (a ∷ l) =
    if helper_refused new_value a.protocol
    then ParserOutput.valid_failed
    else validate_helper_loop new_value l

unfoldable pub farmaddress_s_validate_helper : Helper → List Address → ParserOutput
unfolding validate_helper_loop
farmaddress_s_validate_helper new_value l =
    if is_helper new_value Helper.none then ParserOutput.ok else validate_helper_loop new_value l

abbrev pub accept_helper : ParserOutput → Farm → Helper → ParserOutput × Farm
accept_helper ParserOutput.ok f new_value = (ParserOutput.ok, record f { helper = new_value })
accept_helper failure f new_value = (ParserOutput.valid_failed, f)

unfoldable pub farm_set_helper : World → Farm → Helper → ParserOutput × Farm
unfolding linked farmaddress_s_validate_helper
farm_set_helper w f new_value =
    accept_helper (farmaddress_s_validate_helper new_value (linked w.addresses f.addresses)) f
      new_value

-- PARSER_OK
abbrev pub is_ok : ParserOutput → Bool
is_ok ParserOutput.ok = true
is_ok failure = false

fits_refused :
    (h : Helper) (p : Protocol)
    → is_protocol p Protocol.sctp ≡ false
    → helper_fits h p ≡ not (helper_refused h p)
unfolding helper_fits helper_refused
fits_refused h Protocol.all other = ground arith
fits_refused h Protocol.tcp other = ground arith
fits_refused h Protocol.udp other = ground arith
fits_refused h Protocol.sctp other = absurd (ground (arith, other))

not_refused-fits : (h : Helper) (p : Protocol) → helper_refused h p ≡ false → helper_fits h p ≡ true
unfolding helper_fits helper_refused
not_refused-fits h Protocol.all accepted = ground arith
not_refused-fits h Protocol.tcp accepted = ground arith
not_refused-fits h Protocol.udp accepted = ground arith
not_refused-fits h Protocol.sctp accepted = refl

contradiction : true ≡ false → ⊥
contradiction e = cc

refusal : is_ok ParserOutput.valid_failed ≡ true → ⊥
refusal e = contradiction (sym e)

none_unrefused : (p : Protocol) → helper_refused Helper.none p ≡ false
unfolding helper_refused
none_unrefused p = refl

none_fits : (l : List Address) → farm_validate_helper_protocol Helper.none l ≡ true
unfolding farm_validate_helper_protocol
none_fits [] = refl
none_fits (a ∷ l) =
    rw (not_refused-fits Helper.none a.protocol (none_unrefused a.protocol)) (none_fits l)

loop-validates :
    (h : Helper) (l : List Address)
    → is_ok (validate_helper_loop h l) ≡ true
    → farm_validate_helper_protocol h l ≡ true
unfolding validate_helper_loop farm_validate_helper_protocol
loop-validates h [] accepted = refl
loop-validates h (a ∷ l) accepted = elim (Bool-cases (helper_refused h a.protocol)) [
  | inl refused ↦ absurd (refusal (rw refused at accepted))
  | inr free ↦ rw (not_refused-fits h a.protocol free) (loop-validates h l (rw free at accepted))
]

-- No address of SCTP.
abbrev pub HasNoSctp : List Address → Type 0
HasNoSctp = All (λ a. is_protocol a.protocol Protocol.sctp ≡ false)

loop-exact :
    (h : Helper) (l : List Address)
    → HasNoSctp l
    → is_ok (validate_helper_loop h l) ≡ farm_validate_helper_protocol h l
unfolding validate_helper_loop farm_validate_helper_protocol
loop-exact h [] others = refl
loop-exact h (a ∷ l) others = elim (Bool-cases (helper_refused h a.protocol)) [
  | inl refused ↦ rw (refused, fits_refused h a.protocol others.0, refused) refl
  | inr free ↦ rw (free, fits_refused h a.protocol others.0, free) (loop-exact h l others.1)
]

validate-validates :
    (h : Helper) (l : List Address)
    → is_ok (farmaddress_s_validate_helper h l) ≡ true
    → farm_validate_helper_protocol h l ≡ true
unfolding farmaddress_s_validate_helper
validate-validates Helper.none l accepted = none_fits l
validate-validates h l accepted = loop-validates h l accepted

validate-exact :
    (h : Helper) (l : List Address)
    → HasNoSctp l
    → is_ok (farmaddress_s_validate_helper h l) ≡ farm_validate_helper_protocol h l
unfolding farmaddress_s_validate_helper
validate-exact Helper.none l others = sym (none_fits l)
validate-exact h l others = loop-exact h l others

-- What accept_helper makes of a result of farmaddress_s_validate_helper.
Accepted : ParserOutput → World → Farm → Helper → Type 0
Accepted r w f h =
    (is_ok (accept_helper r f h).0 ≡ is_ok r)
    × (is_ok r ≡ true → (accept_helper r f h).1 ≡ record f { helper = h })
    × (is_ok r ≡ false → (accept_helper r f h).1 ≡ f)

accepted : (r : ParserOutput) (w : World) (f : Farm) (h : Helper) → Accepted r w f h
unfolding Accepted
accepted ParserOutput.ok w f h = (refl, λ e. refl, λ e. absurd (contradiction e))
accepted r w f h = (refl, λ e. absurd (contradiction (sym e)), λ e. refl)

-- A helper that farm_set_helper accepts for a farm is one that farm_validate_helper_protocol accepts
-- for it, and the farm has it then; a refused one leaves the farm as it is. Where no address of the
-- farm is for SCTP, the two tests agree on every helper.
pub farm_set_helper-validates :
    (w : World) (f : Farm) (h : Helper)
    → (is_ok (farm_set_helper w f h).0 ≡ true
        → ((farm_set_helper w f h).1 ≡ record f { helper = h })
          × (farm_validate_helper_protocol h (linked w.addresses f.addresses) ≡ true))
      × (is_ok (farm_set_helper w f h).0 ≡ false → (farm_set_helper w f h).1 ≡ f)
      × (HasNoSctp (linked w.addresses f.addresses)
          → is_ok (farm_set_helper w f h).0
            ≡ farm_validate_helper_protocol h (linked w.addresses f.addresses))
unfolding farm_set_helper Accepted
farm_set_helper-validates w f h =
    let l = linked w.addresses f.addresses in
    let r = farmaddress_s_validate_helper h l in
    let known = accepted r w f h in
    (
      λ e. let fine = sym known.0 ∙ e in (known.1 fine, validate-validates h l fine),
      λ e. known.2 (sym known.0 ∙ e),
      λ others. known.0 ∙ validate-exact h l others,
    )
