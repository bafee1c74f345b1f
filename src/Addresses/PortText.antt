-- ===== src/Addresses/PortText.antt =====
-- A text that lists ports and ranges of ports, and what address_get_array_ports of src/addresses.c
-- reads of the item in front of it.
use nftlb.Prelude.{
  ℕ, zero, suc, ◌+◌, ◌≤◌, ◌<◌, ◌≡◌, refl, ap, ◌∙◌, Bool, true, false, List, [], ◌∷◌, ◌++◌, some, ℤ,
  pos, arith, ltb, ◌==◌, Bool-cases, inl, inr, ◌/◌, ◌%◌,
}
use mathlib.Core.List.{append_assoc}
use nftlb.Libc.{starts_digit, scan_int, print_digits}
use nftlb.Libc.Digits.{starts_nonzero, print_digits-starts_nonzero, scan_int-print_digits}
use nftlb.Addresses.Ports.{max_ports, address_get_range_ports, range_last, next_ports}
use nftlb.Addresses.PortSearch.{within}

-- An item of a list of ports.
pub data PortItem : Type 0 where
  single : ℕ → PortItem
  range : ℕ → ℕ → PortItem

unfoldable pub print_item : PortItem → List ℕ
unfolding print_digits
print_item (PortItem.single n) = print_digits (suc n) n
print_item (PortItem.range first last) =
    print_digits (suc first) first ++ b'-' ∷ print_digits (suc last) last

-- The items with commas between them.
unfoldable pub print_ports : List PortItem → List ℕ
unfolding print_item
print_ports [] = []
print_ports (x ∷ []) = print_item x
print_ports (x ∷ y ∷ xs) = print_item x ++ b',' ∷ print_ports (y ∷ xs)

abbrev pub is_in : ℤ → PortItem → Bool
is_in port (PortItem.single n) = within n n port
is_in port (PortItem.range first last) = within first last port

abbrev pub IsCell : ℕ → Type 0
IsCell n = (1 ≤ n) × (n ≤ max_ports)

-- Every number in the items has a cell of the array.
abbrev pub HasCells : List PortItem → Type 0
HasCells [] = Unit
HasCells (PortItem.single n ∷ xs) = IsCell n × HasCells xs
HasCells (PortItem.range first last ∷ xs) = IsCell first × IsCell last × HasCells xs

next_ports-print_digits :
    (fuel n : ℕ) (rest : List ℕ)
    → n < fuel
    → next_ports (print_digits fuel n ++ rest) ≡ next_ports rest
unfolding print_digits next_ports
next_ports-print_digits zero n rest h = elim h [ ]
next_ports-print_digits (suc fuel) n rest h = elim (Bool-cases (ltb n 10)) [
  | inl small ↦ let digit : (n + b'0' == b',') ≡ false = ground arith in rw small (rw digit refl)
  | inr large ↦
      let digit : (n % 10 + b'0' == b',') ≡ false = ground arith in
      rw large (
        rw append_assoc (
          next_ports-print_digits fuel (n / 10) ((n % 10 + b'0') ∷ rest) (ground arith)
          ∙ rw digit refl))
]

-- The text is at its end or at a comma.
abbrev pub ends_item : List ℕ → Bool
ends_item [] = true
ends_item (c ∷ s) = c == b','

ends_item-digit : (s : List ℕ) → ends_item s ≡ true → starts_digit s ≡ false
ends_item-digit [] h = refl
ends_item-digit (c ∷ s) h = ground arith

ends_item-last : (s : List ℕ) → ends_item s ≡ true → range_last s ≡ pos 0
ends_item-last [] h = refl
ends_item-last (c ∷ s) h = let dash : (c == b'-') ≡ false = ground arith in rw dash refl

get_range_ports-of :
    (s rest : List ℕ) (n : ℤ)
    → scan_int s ≡ some (n, rest)
    → address_get_range_ports s ≡ (n, range_last rest)
unfolding address_get_range_ports
get_range_ports-of s rest n scanned = rw (scanned, address_get_range_ports) refl

range_last-dash :
    (s rest : List ℕ) (n : ℤ) → scan_int s ≡ some (n, rest) → range_last (b'-' ∷ s) ≡ n
range_last-dash s rest n scanned = rw scanned refl

-- What is read of the item in front of a text.
unfoldable pub read_item : PortItem → ℤ × ℤ
read_item (PortItem.single n) = (pos n, pos 0)
read_item (PortItem.range first last) = (pos first, pos last)

pub HasCells-cons :
    (x : PortItem) (xs : List PortItem) → HasCells (x ∷ xs) → HasCells (x ∷ []) × HasCells xs
HasCells-cons (PortItem.single n) xs (h, hs) = ((h, tt), hs)
HasCells-cons (PortItem.range first last) xs (h, k, hs) = ((h, k, tt), hs)

module _ (rest : List ℕ) where
  pub get_range_ports-item :
      (x : PortItem)
      → HasCells (x ∷ [])
      → ends_item rest ≡ true
      → address_get_range_ports (print_item x ++ rest) ≡ read_item x
  unfolding print_item read_item
  get_range_ports-item (PortItem.single n) (h, _) ends =
      get_range_ports-of _ rest (pos n)
        (scan_int-print_digits n rest h.0 (ends_item-digit rest ends))
      ∙ ap (λ l. (pos n, l)) (ends_item-last rest ends)
  get_range_ports-item (PortItem.range first last) (h, k, _) ends =
      let second = print_digits (suc last) last ++ rest in
      ap address_get_range_ports (append_assoc (print_digits (suc first) first) _ rest)
      ∙ get_range_ports-of _ (b'-' ∷ second) (pos first)
          (scan_int-print_digits first (b'-' ∷ second) h.0 refl)
      ∙ ap (λ l. (pos first, l))
          (range_last-dash second rest (pos last)
            (scan_int-print_digits last rest k.0 (ends_item-digit rest ends)))

  pub next_ports-item : (x : PortItem) → next_ports (print_item x ++ rest) ≡ next_ports rest
  unfolding print_item next_ports
  next_ports-item (PortItem.single n) = next_ports-print_digits (suc n) n rest (omega arith)
  next_ports-item (PortItem.range first last) =
      ap next_ports (append_assoc (print_digits (suc first) first) _ rest)
      ∙ next_ports-print_digits (suc first) first _ (omega arith)
      ∙ next_ports-print_digits (suc last) last rest (omega arith)

  pub starts_nonzero-item :
      (x : PortItem) → HasCells (x ∷ []) → starts_nonzero (print_item x ++ rest) ≡ true
  unfolding print_item
  starts_nonzero-item (PortItem.single n) (h, _) =
      print_digits-starts_nonzero (suc n) n rest (omega arith) h.0
  starts_nonzero-item (PortItem.range first last) (h, k, _) =
      ap starts_nonzero (append_assoc (print_digits (suc first) first) _ rest)
      ∙ print_digits-starts_nonzero (suc first) first _ (omega arith) h.0
