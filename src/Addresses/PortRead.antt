-- ===== src/Addresses/PortRead.antt =====
-- address_get_array_ports of src/addresses.c at a text that lists ports and ranges of ports.
use nftlb.Prelude.{
  ℕ, zero, suc, ◌+◌, ◌≤◌, ◌≡◌, refl, ap, sym, ◌∙◌, Bool, true, false, ◌||◌, List, [], ◌∷◌, ◌++◌,
  some, none, leb_ℤ, pos, if◌then◌else◌, ◌&&◌, ℤ, length, any, arith, ◌==◌, if◌then◌else◌,
}
use mathlib.Core.List.{append-nil}
use nftlb.Libc.Digits.{starts_nonzero}
use nftlb.Model.{PortList}
use nftlb.Addresses.Ports.{
  in_array, address_search_array_port, address_get_range_ports, add_range, next_ports, ports_loop,
  address_get_array_ports, has_port, no_ports,
}
use nftlb.Addresses.PortSearch.{Adds, range-Adds, single-Adds}
use nftlb.Addresses.PortText.{
  PortItem, print_item, print_ports, is_in, HasCells, ends_item, read_item, HasCells-cons,
  get_range_ports-item, next_ports-item, starts_nonzero-item,
}

item-Adds :
    (x : PortItem) (a : PortList)
    → HasCells (x ∷ [])
    → (b : PortList) × (add_range (read_item x) a ≡ some b) × Adds (λ port. is_in port x) a b
unfolding read_item
item-Adds (PortItem.single n) a (h, _) = single-Adds n a h.0 h.1
item-Adds (PortItem.range first last) a (h, k, _) = range-Adds first last a h.0 k.0 k.1

length-next_ports : (s : List ℕ) → length (next_ports s) ≤ length s
unfolding next_ports
length-next_ports [] = omega arith
length-next_ports (c ∷ s) = ground (arith, length-next_ports s)

length-next_item : (s : List ℕ) → starts_nonzero s ≡ true → length (next_ports s) + 1 ≤ length s
unfolding next_ports starts_nonzero
length-next_item [] h = cc
length-next_item (c ∷ s) h =
    let digit : (c == b',') ≡ false = ground arith in rw digit (omega (arith, length-next_ports s))

ports_loop-step :
    (fuel : ℕ) (s : List ℕ) (a b : PortList)
    → starts_nonzero s ≡ true
    → add_range (address_get_range_ports s) a ≡ some b
    → ports_loop (suc fuel) s a ≡ ports_loop fuel (next_ports s) b
unfolding starts_nonzero ports_loop
ports_loop-step fuel [] a b h added = cc
ports_loop-step fuel (c ∷ s) a b h added = rw (added, ports_loop) refl

ports_loop-end : (fuel : ℕ) (a : PortList) → ports_loop fuel [] a ≡ some a
unfolding ports_loop
ports_loop-end zero a = refl
ports_loop-end (suc fuel) a = refl

after_item : List PortItem → List ℕ
after_item [] = []
after_item (y ∷ ys) = b',' ∷ print_ports (y ∷ ys)

ends_item-after : (xs : List PortItem) → ends_item (after_item xs) ≡ true
unfolding after_item
ends_item-after [] = refl
ends_item-after (y ∷ ys) = refl

next_ports-after : (xs : List PortItem) → next_ports (after_item xs) ≡ print_ports xs
unfolding after_item next_ports print_ports
next_ports-after [] = refl
next_ports-after (y ∷ ys) = refl

print_ports-cons :
    (x : PortItem) (xs : List PortItem) → print_ports (x ∷ xs) ≡ print_item x ++ after_item xs
unfolding after_item print_ports
print_ports-cons x [] = sym (append-nil (print_item x))
print_ports-cons x (y ∷ ys) = refl

next_ports-text :
    (x : PortItem) (xs : List PortItem)
    → next_ports (print_item x ++ after_item xs) ≡ print_ports xs
next_ports-text x xs = next_ports-item (after_item xs) x ∙ next_ports-after xs

length-print_ports :
    (x : PortItem) (xs : List PortItem)
    → HasCells (x ∷ xs)
    → length (print_ports xs) + 1 ≤ length (print_ports (x ∷ xs))
length-print_ports x xs cells =
    let (mine, others) = HasCells-cons x xs cells in
    let starts = starts_nonzero-item (after_item xs) x mine in
    omega (
      arith,
      length-next_item (print_item x ++ after_item xs) starts,
      ap length (next_ports-text x xs),
      ap length (print_ports-cons x xs),
    )

or_false : (q : Bool) → (q || false) ≡ q
or_false true = refl
or_false false = refl

or_any : (q r h : Bool) → (r || (q || h)) ≡ ((if q then true else r) || h)
or_any true true h = refl
or_any true false h = refl
or_any false true h = refl
or_any false false h = refl

ports_loop-print_ports :
    (xs : List PortItem) (fuel : ℕ) (a : PortList)
    → HasCells xs
    → length (print_ports xs) ≤ fuel
    → (b : PortList) × (ports_loop fuel (print_ports xs) a ≡ some b)
      × Adds (λ port. any (is_in port) xs) a b
unfolding print_ports
ports_loop-print_ports [] fuel a cells enough = (a, ports_loop-end fuel a, λ port. refl)
ports_loop-print_ports (x ∷ xs) zero a cells enough =
    absurd (omega (arith, length-print_ports x xs cells, enough))
ports_loop-print_ports (x ∷ xs) (suc fuel) a cells enough =
    let text = print_item x ++ after_item xs in
    let (mine, others) = HasCells-cons x xs cells in
    let read = get_range_ports-item (after_item xs) x mine (ends_item-after xs) in
    let (b, added, one) = item-Adds x a mine in
    let (c, ran, rest) =
      ports_loop-print_ports xs fuel b others
        (omega (arith, length-print_ports x xs cells, enough)) in
    (
      c,
      ap (λ s. ports_loop (suc fuel) s a) (print_ports-cons x xs)
          ∙ ports_loop-step fuel text a b (starts_nonzero-item (after_item xs) x mine)
              (ap (λ r. add_range r a) read ∙ added)
          ∙ ap (λ s. ports_loop fuel s b) (next_ports-text x xs)
          ∙ ran,
      λ port.
          rest port
          ∙ ap (λ h. any (is_in port) xs || h) (one port)
          ∙ or_any (is_in port x) (any (is_in port) xs) (has_port port a.ports),
    )

-- A text of ports and ranges of ports, separated by commas, whose numbers all have a cell of the
-- array, is read to its end; a range whose end is below its start names no port; and afterwards a
-- port from 1 to 65535 is found exactly where it is one of the ports or in one of the ranges, while
-- another has no cell.
pub address_get_array_ports-print_ports :
    (xs : List PortItem)
    → HasCells xs
    → (a : PortList) × (address_get_array_ports (print_ports xs) ≡ some a)
      × ((port : ℤ)
          → address_search_array_port a port ≡ (
              if leb_ℤ (pos 1) port && leb_ℤ port (pos 65535)
              then some (any (is_in port) xs)
              else none))
unfolding address_get_array_ports address_search_array_port
address_get_array_ports-print_ports xs cells =
    let (a, ran, found) =
      ports_loop-print_ports xs (length (print_ports xs)) no_ports cells (omega arith) in
    (
      a,
      ran,
      λ port.
          ap (λ q. if in_array port then some q else none)
            (found port ∙ or_false (any (is_in port) xs)),
    )
