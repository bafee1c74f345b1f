-- ===== src/Addresses/PortCount.antt =====
-- nports of struct address, as address_set_ports of src/addresses.c leaves it.
use nftlb.Prelude.{
  ℕ, zero, suc, ◌+◌, ◌≤◌, ◌≡◌, refl, ap, sym, subst, ◌∙◌, Bool, true, false, ◌&&◌, ◌||◌, String,
  List, [], ◌∷◌, Option, none, some, ℤ, pos, pos_part, ◌+ℤ◌, ◌-ℤ◌, leb_ℤ, eq_ℤ, arith, length,
  codes, str_eq, any, if◌then◌else◌, Bool-cases, inl, inr,
}
use nftlb.Enums.{Protocol}
use nftlb.Model.{Address, PortList}
use nftlb.Addresses.Ports.{
  max_ports, in_array, address_get_range_ports, address_search_array_port, address_add_array_port,
  add_ports, add_range, next_ports, ports_loop, address_get_array_ports, address_set_ports,
  has_port, no_ports,
}
use nftlb.Addresses.PortText.{PortItem, print_ports, is_in, HasCells}
use nftlb.Addresses.PortRead.{address_get_array_ports-print_ports}

abbrev tick : Bool → ℕ
tick q = if q then 1 else 0

-- How many of the ports from 1 to `n` pass the test.
unfoldable pub count_to : ℕ → (ℤ → Bool) → ℕ
count_to zero q = 0
count_to (suc n) q = tick (q (pos (suc n))) + count_to n q

abbrev found : PortList → ℤ → Bool
found a port = elim (address_search_array_port a port) [ none ↦ false | some there ↦ there ]

-- nports is how many ports of the array address_search_array_port finds.
abbrev IsExact : PortList → Type 0
IsExact a = a.nports ≡ count_to max_ports (found a)

count_to-same :
    (n : ℕ) (q r : ℤ → Bool)
    → ((k : ℕ) → 1 ≤ k → k ≤ n → q (pos k) ≡ r (pos k))
    → count_to n q ≡ count_to n r
unfolding count_to
count_to-same zero q r same = refl
count_to-same (suc n) q r same =
    let rest = count_to-same n q r (λ k h below. same k h (omega arith)) in
    rw (same (suc n) (omega arith) (omega arith), rest) refl

count_to-false : (n : ℕ) → count_to n (λ port. false) ≡ 0
unfolding count_to
count_to-false zero = refl
count_to-false (suc n) = omega (arith, count_to-false n)

same_number : (a b : ℤ) → eq_ℤ a b ≡ true → a ≡ b
same_number a b h = ground arith

count_to-add :
    (n : ℕ) (q r : ℤ → Bool) (p : ℤ)
    → ((port : ℤ) → r port ≡ (eq_ℤ port p || q port))
    → q p ≡ false
    → count_to n r ≡ count_to n q + tick (leb_ℤ (pos 1) p && leb_ℤ p (pos n))
unfolding count_to
count_to-add zero q r p adds new = ground arith
count_to-add (suc n) q r p adds new =
    let rest = count_to-add n q r p adds new in
    elim (Bool-cases (eq_ℤ (pos (suc n)) p)) [
      | inl here ↦
          let it = same_number (pos (suc n)) p here in
          let not_before : q (pos (suc n)) ≡ false = ap q it ∙ new in
          rw (adds (pos (suc n)), here, not_before) (ground (arith, rest, here))
      | inr other ↦ rw (adds (pos (suc n)), other) (ground (arith, rest, other))
    ]

found_lem : (a : PortList) (port : ℤ) → found a port ≡ (in_array port && has_port port a.ports)
unfolding address_search_array_port
found_lem a port = ground arith

no_ports-IsExact : IsExact no_ports
no_ports-IsExact = sym (
    count_to-same max_ports (found no_ports) (λ port. false)
      (λ k h below. found_lem no_ports (pos k) ∙ ground arith)
    ∙ count_to-false max_ports)

found-some :
    (a : PortList) (port : ℤ) (q : Bool)
    → address_search_array_port a port ≡ some q
    → found a port ≡ q
found-some a port q h = rw (h, found) refl

-- What holds of a result, if there is one.
abbrev Holds : Option PortList → Type 0
Holds none = Unit
Holds (some a) = IsExact a

Holds-then :
    (o : Option PortList) (k : PortList → Option PortList)
    → Holds o
    → ((b : PortList) → IsExact b → Holds (k b))
    → Holds (elim o [ none ↦ none | some b ↦ k b ])
Holds-then none k h next = tt
Holds-then (some b) k h next = next b h

adds_found :
    (c e h : Bool) → (e ≡ true → c ≡ true) → (c && (if e then true else h)) ≡ (e || (c && h))
adds_found c true h cell = rw (cell refl) refl
adds_found c false h cell = refl

set_port-IsExact :
    (a : PortList) (port : ℤ)
    → in_array port ≡ true
    → has_port port a.ports ≡ false
    → IsExact a
    → IsExact (record { ports = port ∷ a.ports; nports = a.nports + 1 })
set_port-IsExact a port cell new h =
    let b : PortList = record { ports = port ∷ a.ports; nports = a.nports + 1 } in
    let adds : (x : ℤ) → found b x ≡ (eq_ℤ x port || found a x) = λ x.
      found_lem b x
      ∙ adds_found (in_array x) (eq_ℤ x port) (has_port x a.ports)
          (λ e. rw (same_number x port e) cell)
      ∙ ap (λ q. eq_ℤ x port || q) (sym (found_lem a x)) in
    let not_before : found a port ≡ false = found_lem a port ∙ (rw (cell, new) refl) in
    let one : tick (in_array port) ≡ 1 = rw cell refl in
    omega (arith, h, count_to-add max_ports (found a) (found b) port adds not_before, one)

address_add_array_port-IsExact :
    (a : PortList) (port : ℤ) → IsExact a → Holds (address_add_array_port a port)
unfolding address_add_array_port
address_add_array_port-IsExact a port h = elim (Bool-cases (in_array port)) [
  | inr outside ↦ rw outside tt
  | inl cell ↦ elim (Bool-cases (has_port port a.ports)) [
    | inl there ↦ rw (cell, there) h
    | inr further ↦ rw (cell, further) (set_port-IsExact a port cell further h)
  ]
]

add_ports-IsExact : (n : ℕ) (i : ℤ) (a : PortList) → IsExact a → Holds (add_ports n i a)
unfolding add_ports
add_ports-IsExact zero i a h = h
add_ports-IsExact (suc n) i a h =
    Holds-then (address_add_array_port a i) (add_ports n (i +ℤ pos 1))
      (address_add_array_port-IsExact a i h) (add_ports-IsExact n (i +ℤ pos 1))

add_range-IsExact : (r : ℤ × ℤ) (a : PortList) → IsExact a → Holds (add_range r a)
unfolding add_range
add_range-IsExact (new, last) a h =
    let end = if eq_ℤ last (pos 0) then new else last in
    elim (Bool-cases (leb_ℤ new end)) [
      | inl some_port ↦ rw some_port (add_ports-IsExact (pos_part (end -ℤ new) + 1) new a h)
      | inr none_there ↦ rw none_there h
    ]

ports_loop-IsExact :
    (fuel : ℕ) (s : List ℕ) (a : PortList) → IsExact a → Holds (ports_loop fuel s a)
unfolding ports_loop
ports_loop-IsExact zero s a h = h
ports_loop-IsExact (suc fuel) [] a h = h
ports_loop-IsExact (suc fuel) (c ∷ s) a h =
    Holds-then (add_range (address_get_range_ports (c ∷ s)) a)
      (ports_loop fuel (next_ports (c ∷ s)))
      (add_range-IsExact (address_get_range_ports (c ∷ s)) a h)
      (ports_loop-IsExact fuel (next_ports (c ∷ s)))

address_get_array_ports-IsExact :
    (s : List ℕ) (a : PortList) → address_get_array_ports s ≡ some a → IsExact a
unfolding address_get_array_ports
address_get_array_ports-IsExact s a ran =
    subst (λ o. Holds o) ran (ports_loop-IsExact (length s) s no_ports no_ports-IsExact)

set_ports-of :
    (a : Address) (v : String) (l : PortList)
    → address_get_array_ports (codes (if str_eq v "0" then a.ports else v)) ≡ some l
    → (b : Address) × (address_set_ports a v ≡ some b) × (b.port_list ≡ l)
unfolding address_set_ports
set_ports-of a v l ran = (
  record a {
    ports = if str_eq v "0" then a.ports else v;
    protocol = if str_eq v "" then Protocol.all else a.protocol;
    port_list = l;
  },
  rw (ran, address_set_ports) refl,
  refl,
)

-- Where the text of an address's ports lists ports and ranges of ports whose numbers all have a cell
-- of the array, the new value, or the old text where the new value is 0, address_set_ports leaves in
-- nports how many different ports, from 1 to 65535, are one of the ports or in one of the ranges.
pub address_set_ports-count :
    (a : Address) (v : String) (xs : List PortItem)
    → HasCells xs
    → codes (if str_eq v "0" then a.ports else v) ≡ print_ports xs
    → (b : Address) × (address_set_ports a v ≡ some b)
      × (b.port_list.nports ≡ count_to max_ports (λ port. any (is_in port) xs))
address_set_ports-count a v xs cells is_text =
    let (l, ran, finds) = address_get_array_ports-print_ports xs cells in
    let (b, set, is_l) = set_ports-of a v l (ap address_get_array_ports is_text ∙ ran) in
    (
      b,
      set,
      ap (λ (p : PortList). p.nports) is_l
          ∙ address_get_array_ports-IsExact (print_ports xs) l ran
          ∙ count_to-same max_ports (found l) (λ port. any (is_in port) xs)
              (λ k h below. found-some l (pos k) (any (is_in (pos k)) xs) (
                let cell : in_array (pos k) ≡ true = ground arith in
                finds (pos k) ∙ (rw cell refl))),
    )
