-- ===== src/Addresses/PortSearch.antt =====
-- The loop over the ports of a range, in address_get_array_ports of src/addresses.c: where every port
-- has a cell it ends, and sets them all.
use nftlb.Prelude.{
  ◌∷◌, ℕ, zero, suc, ◌+◌, ◌≤◌, ◌≡◌, refl, ap, sym, ◌∙◌, Bool, true, false, ◌&&◌, ◌||◌, ℤ, pos,
  pos_part, ◌+ℤ◌, ◌-ℤ◌, leb_ℤ, eq_ℤ, ltb, arith, +ℤ_parts, -ℤ_parts, eq_of_parts, some,
  if◌then◌else◌, Bool-cases, inl, inr,
}
use nftlb.Model.{PortList}
use nftlb.Addresses.Ports.{
  max_ports, in_array, address_add_array_port, add_ports, add_range, has_port,
}

abbrev pub within : ℕ → ℕ → ℤ → Bool
within first last port = leb_ℤ (pos first) port && leb_ℤ port (pos last)

-- i ≤ port < i + n
abbrev in_span : ℤ → ℕ → ℕ → Bool
in_span port i n = leb_ℤ (pos i) port && ltb (pos_part port) (i + n)

same_number : (a b : ℤ) → eq_ℤ a b ≡ true → a ≡ b
same_number a b h = ground arith

or_absorb : (q r : Bool) → (q ≡ true → r ≡ true) → r ≡ (q || r)
or_absorb true r h = h refl
or_absorb false r h = refl

or_if : (q r : Bool) → (if q then true else r) ≡ (q || r)
or_if true r = refl
or_if false r = refl

or_step : (w e h : Bool) → (w || (e || h)) ≡ ((e || w) || h)
or_step true true h = refl
or_step true false h = refl
or_step false true h = refl
or_step false false h = refl

span_step :
    (port : ℤ) (i n : ℕ) → (eq_ℤ port (pos i) || in_span port (i + 1) n) ≡ in_span port i (suc n)
span_step port i n = ground arith

pos_next : (i : ℕ) → (pos i +ℤ pos 1) ≡ pos (i + 1)
pos_next i = eq_of_parts _ _ (omega (arith, +ℤ_parts (pos i) (pos 1)))

pos_cell : (i : ℕ) → 1 ≤ i → i ≤ max_ports → in_array (pos i) ≡ true
pos_cell i h k = ground arith

-- What holds after some ports are added: no port is lost, and those that pass `q` are found.
abbrev pub Adds : (ℤ → Bool) → PortList → PortList → Type 0
Adds q a b = (port : ℤ) → has_port port b.ports ≡ (q port || has_port port a.ports)

add_array_port-Adds :
    (i : ℕ) (a : PortList)
    → 1 ≤ i
    → i ≤ max_ports
    → (b : PortList) × (address_add_array_port a (pos i) ≡ some b)
      × Adds (λ port. eq_ℤ port (pos i)) a b
unfolding address_add_array_port
add_array_port-Adds i a h k = elim (Bool-cases (has_port (pos i) a.ports)) [
  | inl there ↦ (
    a,
    rw (pos_cell i h k, there) refl,
    λ port.
        or_absorb (eq_ℤ port (pos i)) (has_port port a.ports)
          (λ e. rw (same_number port (pos i) e) there),
  )
  | inr further ↦ (
    record { ports = pos i ∷ a.ports; nports = a.nports + 1 },
    rw (pos_cell i h k, further) refl,
    λ port. or_if (eq_ℤ port (pos i)) (has_port port a.ports),
  )
]

add_ports-suc :
    (n : ℕ) (i : ℤ) (a b : PortList)
    → address_add_array_port a i ≡ some b
    → add_ports (suc n) i a ≡ add_ports n (i +ℤ pos 1) b
unfolding add_ports
add_ports-suc n i a b added = rw (added, add_ports) refl

add_ports-Adds :
    (n i : ℕ) (a : PortList)
    → 1 ≤ i
    → i + n ≤ max_ports + 1
    → (b : PortList) × (add_ports n (pos i) a ≡ some b) × Adds (λ port. in_span port i n) a b
unfolding add_ports
add_ports-Adds zero i a h k = (a, refl, λ port. ground arith)
add_ports-Adds (suc n) i a h k =
    let (b, added, one) = add_array_port-Adds i a h (omega arith) in
    let (c, ended, others) = add_ports-Adds n (i + 1) b (omega arith) (omega arith) in
    (
      c,
      add_ports-suc n (pos i) a b added ∙ ap (λ j. add_ports n j b) (pos_next i) ∙ ended,
      λ port.
          others port
          ∙ ap (λ r. in_span port (i + 1) n || r) (one port)
          ∙ or_step (in_span port (i + 1) n) (eq_ℤ port (pos i)) (has_port port a.ports)
          ∙ ap (λ r. r || has_port port a.ports) (span_step port i n),
    )

range_span :
    (port : ℤ) (first last : ℕ)
    → leb_ℤ (pos first) (pos last) ≡ true
    → in_span port first (pos_part (pos last -ℤ pos first) + 1) ≡ within first last port
range_span port first last h = ground (arith, -ℤ_parts (pos last) (pos first))

range_size :
    (first last : ℕ)
    → leb_ℤ (pos first) (pos last) ≡ true
    → last ≤ max_ports
    → first + (pos_part (pos last -ℤ pos first) + 1) ≤ max_ports + 1
range_size first last h k = ground (arith, -ℤ_parts (pos last) (pos first))

range_empty :
    (port : ℤ) (first last : ℕ)
    → leb_ℤ (pos first) (pos last) ≡ false
    → within first last port ≡ false
range_empty port first last h = ground arith

-- A range of two numbers that have cells.
pub range-Adds :
    (first last : ℕ) (a : PortList)
    → 1 ≤ first
    → 1 ≤ last
    → last ≤ max_ports
    → (b : PortList) × (add_range (pos first, pos last) a ≡ some b) × Adds (within first last) a b
unfolding add_range
range-Adds first last a h l k =
    let nonzero : eq_ℤ (pos last) (pos 0) ≡ false = ground arith in
    elim (Bool-cases (leb_ℤ (pos first) (pos last))) [
      | inl some_port ↦
          let (b, added, found) =
            add_ports-Adds (pos_part (pos last -ℤ pos first) + 1) first a h
              (range_size first last some_port k) in
          (
            b,
            rw (nonzero, some_port) added,
            λ port.
                found port
                ∙ ap (λ r. r || has_port port a.ports) (range_span port first last some_port),
          )
      | inr none_there ↦ (
        a,
        rw (nonzero, none_there) refl,
        λ port. ap (λ r. r || has_port port a.ports) (sym (range_empty port first last none_there)),
      )
    ]

-- A single port, after which no second number is read.
pub single-Adds :
    (n : ℕ) (a : PortList)
    → 1 ≤ n
    → n ≤ max_ports
    → (b : PortList) × (add_range (pos n, pos 0) a ≡ some b) × Adds (within n n) a b
unfolding add_range
single-Adds n a h k =
    let (b, added, found) = range-Adds n n a h h k in
    let nonzero : eq_ℤ (pos n) (pos 0) ≡ false = ground arith in (b, rw nonzero at added, found)
