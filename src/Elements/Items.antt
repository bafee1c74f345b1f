-- ===== src/Elements/Items.antt =====
-- element_create, element_lookup_by_name, nft_parse_elements and element_get_list of src/elements.c: the
-- elements of a policy, read from the text that nft lists its set in. A buffer of 100 characters that
-- the source copies a part of the text to is a text of any length.
use nftlb.Prelude.{
  ℕ, zero, suc, ◌+◌, ◌==◌, Bool, true, [], ◌∷◌, ◌++◌, Option, none, some, String, pos, ◌+ℤ◌, str_eq,
  ltb, eq_ℤ, find?, split_at, str_length, if◌then◌else◌,
}
use Prim.Native.Char.{code}
use nftlb.Enums.{Action}
use nftlb.Model.{Policy, Element}
use nftlb.Sessions.Timed.{skip_blanks}

-- A time that is NULL or empty leaves the default, which is NULL.
abbrev pub given_time : Option String → Option String
given_time none = none
given_time (some time) = if str_eq time "" then none else some time

unfoldable pub element_create : ℕ → String → Option String → String → String → Policy → Policy
element_create id text time counter_pkts counter_bytes p = record p {
  elements =
      p.elements
      ++ record {
        id = id;
        data_text = text;
        time = given_time time;
        action = Action.start;
        counter_pkts = counter_pkts;
        counter_bytes = counter_bytes;
      }
        ∷ [];
  total_elem = p.total_elem +ℤ pos 1;
}

unfoldable pub element_lookup_by_name : String → Policy → Option Element
element_lookup_by_name text p = find? (λ e. str_eq e.data_text text) p.elements

-- An element of the set as a round of the loop reads it, and the text behind it and the blanks.
pub record Item : Type 0 where
  pub addr : String
  pub pkts : String
  pub bytes : String
  pub rest : String

unfoldable pub str_drop : ℕ → String → String
str_drop zero s = s
str_drop (suc n) String.[] = ""
str_drop (suc n) (String.◌∷◌ c s) = str_drop n s

-- The first of the two places, each with what stands before it.
unfoldable pub first_of :
    Option (String × String) → Option (String × String) → Option (String × String)
first_of comma none = comma
first_of none (some blank) = some blank
first_of (some (before, after)) (some (before', after')) =
    if ltb (str_length before') (str_length before)
    then some (before', after')
    else some (before, after)

-- The bytes end at a comma, or at a blank where no comma follows; else the pointer is NULL.
abbrev pub read_bytes :
    String → String → Option (String × String) → Option (String × String) → Option Item
read_bytes addr pkts (some (bytes, rest)) blank =
    some (record { addr = addr; pkts = pkts; bytes = bytes; rest = skip_blanks rest })
read_bytes addr pkts none (some (bytes, rest)) =
    some (record { addr = addr; pkts = pkts; bytes = bytes; rest = skip_blanks rest })
read_bytes addr pkts none none = none

-- The packets stand 16 characters on, and the bytes 8 characters behind the start of the packets. With
-- less than 16 characters before " bytes " the source writes before its buffer.
abbrev pub read_counters : String → String → Option (String × String) → Option Item
read_counters addr s none =
    some (record { addr = addr; pkts = "0"; bytes = "0"; rest = skip_blanks s })
read_counters addr s (some (before, _)) =
    let t = str_drop 24 s in
    if ltb (str_length before) 16
    then none
    else read_bytes addr (str_drop 16 before) (split_at "," t) (split_at " " t)

abbrev pub read_addr : Option (String × String) → Option Item
read_addr none = none
read_addr (some (addr, s)) = read_counters addr s (split_at " bytes " s)

-- A round of the loop: nothing where the source follows a pointer that is NULL or writes outside of a
-- buffer.
unfoldable pub next_item : String → Option Item
unfolding first_of str_drop skip_blanks split_at
next_item s = read_addr (first_of (split_at "," s) (split_at " " s))

unfoldable pub at_end : String → Bool
at_end String.[] = true
at_end (String.◌∷◌ c s) = code c == b'}'

module _ (new_node : Policy → ℕ) where
  -- elem_time is empty.
  unfoldable pub add_item : Item → Policy → Policy
  unfolding element_create
  add_item e p =
      element_create (new_node p) e.addr (if eq_ℤ p.timeout (pos 0) then none else some "") e.pkts
        e.bytes p

  -- The loop from the label new_element, on fuel.
  unfoldable pub parse_items : ℕ → String → Policy → Option Policy
  unfolding next_item add_item at_end
  parse_items zero s p = none
  parse_items (suc fuel) s p = elim (next_item s) [
    | none ↦ none
    | some e ↦
        let more = parse_items fuel e.rest (add_item e p) in
        if at_end e.rest then some (add_item e p) else more
  ]

  abbrev pub parse_set : Option (String × String) → Policy → Option Policy
  unfolding parse_items
  parse_set none p = some p
  parse_set (some (_, s)) p = parse_items (str_length s + 1) s p

  unfoldable pub nft_parse_elements : String → Policy → Option Policy
  unfolding split_at parse_set
  nft_parse_elements buf p = parse_set (split_at "elements = { " buf) p

  -- `buf` is what nft_get_rules_buffer gives.
  unfoldable pub element_get_list : String → Policy → Option Policy
  unfolding nft_parse_elements
  element_get_list buf p = nft_parse_elements buf (record p { total_elem = pos 0 })
