-- ===== src/Elements/Fuel.antt =====
-- The loop of nft_parse_elements of src/elements.c ends within its fuel, and counts the elements.
use nftlb.Prelude.{
  ℕ, zero, suc, ◌+◌, ◌<◌, ◌≤◌, ◌≡◌, refl, ap, ◌∙◌, Option, none, some, String, List, [], ◌∷◌,
  split_at, split_at-length, str_length, length, length-append, ltb, pos, ◌+ℤ◌, if-true, leb, ◌++◌,
  Bool-cases, Option-cases, inl, inr, arith,
}
use nftlb.Model.{Policy, Element}
use nftlb.Sessions.Timed.{skip_blanks}
use nftlb.Sessions.Elements.{skip_blanks-length}
use nftlb.Elements.Items.{
  Item, element_create, first_of, str_drop, read_bytes, read_counters, next_item, at_end, add_item,
  parse_items,
}

str_drop-length : (n : ℕ) (s : String) → str_length (str_drop n s) ≤ str_length s
unfolding str_drop
str_drop-length zero s = omega arith
str_drop-length (suc n) String.[] = omega arith
str_drop-length (suc n) (String.◌∷◌ c s) = omega (arith, str_drop-length n s)

-- What stands behind the place is shorter by a character at least.
IsShorter : String → Option (String × String) → Type 0
IsShorter s o = (before after : String) → o ≡ some (before, after) → str_length after < str_length s

first_of-IsShorter :
    (s : String) (o p : Option (String × String))
    → IsShorter s o
    → IsShorter s p
    → IsShorter s (first_of o p)
unfolding first_of IsShorter
first_of-IsShorter s none none f g = f
first_of-IsShorter s none (some b) f g = g
first_of-IsShorter s (some a) none f g = f
first_of-IsShorter s (some (x, after)) (some (y, after')) f g =
    elim (Bool-cases (ltb (str_length y) (str_length x))) [
      | inl blank ↦ rw blank g
      | inr comma ↦ rw comma f
    ]

split_at-IsShorter : (t s : String) → 1 ≤ str_length t → IsShorter s (split_at t s)
unfolding IsShorter
split_at-IsShorter t s one before after h = omega (arith, split_at-length t s before after h)

read_bytes_length :
    (addr pkts s : String) (e : Item)
    → read_bytes addr pkts (split_at "," s) (split_at " " s) ≡ some e
    → str_length e.rest ≤ str_length s
read_bytes_length addr pkts s e h = elim (Option-cases (split_at "," s)) [
  | inr ((bytes, rest), comma) ↦
      let it : skip_blanks rest ≡ e.rest = ground (arith, rw comma at h) in
      omega
        (arith, ap str_length it, skip_blanks-length rest, split_at-length "," s bytes rest comma)
  | inl no_comma ↦ elim (Option-cases (split_at " " s)) [
    | inr ((bytes, rest), blank) ↦
        let it : skip_blanks rest ≡ e.rest = ground (arith, rw (no_comma, blank) at h) in
        omega
          (arith, ap str_length it, skip_blanks-length rest, split_at-length " " s bytes rest blank)
    | inl no_blank ↦ cc (rw (no_comma, no_blank) at h)
  ]
]

read_counters_length :
    (addr s : String) (e : Item)
    → read_counters addr s (split_at " bytes " s) ≡ some e
    → str_length e.rest ≤ str_length s
read_counters_length addr s e h = elim (Option-cases (split_at " bytes " s)) [
  | inl no_counters ↦
      let it : skip_blanks s ≡ e.rest = ground (arith, rw no_counters at h) in
      omega (arith, ap str_length it, skip_blanks-length s)
  | inr ((before, after), found) ↦ elim (Bool-cases (ltb (str_length before) 16)) [
    | inl outside ↦ cc (rw (found, outside) at h)
    | inr inside ↦ omega (
      arith,
      read_bytes_length addr (str_drop 16 before) (str_drop 24 s) e (rw (found, inside) at h),
      str_drop-length 24 s,
    )
  ]
]

next_item-length : (s : String) (e : Item) → next_item s ≡ some e → str_length e.rest < str_length s
unfolding next_item IsShorter
next_item-length s e h = elim (Option-cases (first_of (split_at "," s) (split_at " " s))) [
  | inl missing ↦ cc (rw missing at h)
  | inr ((addr, after), found) ↦
      let shorter =
        first_of-IsShorter s (split_at "," s) (split_at " " s)
          (split_at-IsShorter "," s (omega arith)) (split_at-IsShorter " " s (omega arith)) addr
          after found in
      omega (arith, shorter, read_counters_length addr after e (rw found at h))
]

-- The count of elements is the length of their list.
abbrev pub CountsElements : Policy → Type 0
CountsElements p = p.total_elem ≡ pos (length p.elements)

one_more_element :
    (l : List Element) (e : Element) → pos (length l) +ℤ pos 1 ≡ pos (length (l ++ e ∷ []))
unfolding ◌+ℤ◌
one_more_element l e =
    if-true (leb (0 + 0) (length l + 1)) _ _ (ground arith)
      (ap pos (omega (arith, length-append l (e ∷ []))))

add_item-CountsElements :
    (new_node : Policy → ℕ) (e : Item) (p : Policy)
    → CountsElements p
    → CountsElements (add_item new_node e p)
unfolding add_item element_create ◌+ℤ◌
add_item-CountsElements new_node e p counted =
    ap (λ z. z +ℤ pos 1) counted ∙ one_more_element p.elements _

module _ (new_node : Policy → ℕ) where
  -- The loop of nft_parse_elements ends by its own tests: fuel above the length of the text is enough,
  -- and any such fuel gives the same.
  pub parse_items-fuel :
      (n k : ℕ) (s : String) (p : Policy)
      → str_length s < n
      → str_length s < k
      → parse_items new_node n s p ≡ parse_items new_node k s p
  unfolding parse_items
  parse_items-fuel zero k s p h h' = elim h [ ]
  parse_items-fuel (suc n) zero s p h h' = elim h' [ ]
  parse_items-fuel (suc n) (suc k) s p h h' = elim (Option-cases (next_item s)) [
    | inl ends ↦ rw (ends, parse_items) refl
    | inr (e, found) ↦
        let shorter = next_item-length s e found in
        let same =
          parse_items-fuel n k e.rest (add_item new_node e p) (omega arith) (omega arith) in
        rw (found, parse_items) (rw same refl)
  ]

  -- Where the loop gives a policy, its count of elements is right if it was so before.
  pub parse_items-CountsElements :
      (n : ℕ) (s : String) (p q : Policy)
      → parse_items new_node n s p ≡ some q
      → CountsElements p
      → CountsElements q
  unfolding parse_items
  parse_items-CountsElements zero s p q h counted = cc
  parse_items-CountsElements (suc n) s p q h counted = elim (Option-cases (next_item s)) [
    | inl fails ↦ cc (rw (fails, parse_items) at h)
    | inr (e, found) ↦
        let more = add_item-CountsElements new_node e p counted in
        elim (Bool-cases (at_end e.rest)) [
          | inl ends ↦
              let it : add_item new_node e p ≡ q = cc (rw (found, ends, parse_items) at h) in
              rw⁻¹ it more
          | inr goes_on ↦
              parse_items-CountsElements n e.rest (add_item new_node e p) q
                (rw (found, goes_on, parse_items) at h) more
        ]
  ]
