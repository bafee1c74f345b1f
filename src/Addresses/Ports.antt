-- ===== src/Addresses/Ports.antt =====
-- address_get_array_ports of src/addresses.c: the ports that a text such as 80,443,8080-8090 names.
use nftlb.Prelude.{
  ℕ, zero, suc, ◌+◌, String, Bool, ◌&&◌, Option, List, [], ◌∷◌, none, some, ℤ, pos, pos_part, ◌-ℤ◌,
  ◌+ℤ◌, leb_ℤ, eq_ℤ, length, any, str_eq, codes, ◌==◌, if◌then◌else◌,
}
use nftlb.Libc.{scan_int}
use nftlb.Enums.{Protocol}
use nftlb.Model.{Address, PortList}

-- What follows the conversion of the first number.
abbrev pub range_last : List ℕ → ℤ
range_last [] = pos 0
range_last (c ∷ s) =
    if c == b'-' then elim (scan_int s) [ none ↦ pos 0 | some (last, _) ↦ last ] else pos 0

-- sscanf(ptr, "%d-%d[^,]", first, last), where both are 0 before.
unfoldable pub address_get_range_ports : List ℕ → ℤ × ℤ
unfolding scan_int
address_get_range_ports s = elim (scan_int s) [
  | none ↦ (pos 0, pos 0)
  | some (first, rest) ↦ (first, range_last rest)
]

abbrev pub has_port : ℤ → List ℤ → Bool
has_port port = any (eq_ℤ port)

-- NFTLB_MAX_PORTS
abbrev pub max_ports : ℕ
max_ports = 65535

-- The cell of the port is in the array. The source does not test that, and reaches the fields around
-- the array where it does not hold; there the functions below give `none`.
abbrev pub in_array : ℤ → Bool
in_array port = leb_ℤ (pos 1) port && leb_ℤ port (pos max_ports)

unfoldable pub address_search_array_port : PortList → ℤ → Option Bool
address_search_array_port a port = if in_array port then some (has_port port a.ports) else none

abbrev pub add_port : PortList → ℤ → PortList
add_port a port =
    if has_port port a.ports then a else record { ports = port ∷ a.ports; nports = a.nports + 1 }

unfoldable pub address_add_array_port : PortList → ℤ → Option PortList
address_add_array_port a port = if in_array port then some (add_port a port) else none

-- The loop over a range, of `n` ports from `iport` on.
unfoldable pub add_ports : ℕ → ℤ → PortList → Option PortList
unfolding address_add_array_port
add_ports zero iport a = some a
add_ports (suc n) iport a = elim (address_add_array_port a iport) [
  | none ↦ none
  | some b ↦ add_ports n (iport +ℤ pos 1) b
]

-- The ports of the range that starts at `new`, where the text after it gives `last`.
unfoldable pub add_range : ℤ × ℤ → PortList → Option PortList
unfolding add_ports
add_range (new, last) a =
    let end = if eq_ℤ last (pos 0) then new else last in
    if leb_ℤ new end then add_ports (pos_part (end -ℤ new) + 1) new a else some a

-- strchr(ptr, ',') and the step over the comma; the empty text where there is no comma.
unfoldable pub next_ports : List ℕ → List ℕ
next_ports [] = []
next_ports (c ∷ s) = if c == b',' then s else next_ports s

-- The while loop, on fuel: a step of it where the text is not at its end.
unfoldable pub ports_loop : ℕ → List ℕ → PortList → Option PortList
unfolding next_ports add_range address_get_range_ports
ports_loop zero s a = some a
ports_loop (suc fuel) [] a = some a
ports_loop (suc fuel) (c ∷ s) a = elim (add_range (address_get_range_ports (c ∷ s)) a) [
  | none ↦ none
  | some b ↦ ports_loop fuel (next_ports (c ∷ s)) b
]

abbrev pub no_ports : PortList
no_ports = record { ports = []; nports = 0 }

unfoldable pub address_get_array_ports : List ℕ → Option PortList
unfolding ports_loop
address_get_array_ports s = ports_loop (length s) s no_ports

unfoldable pub address_set_ports : Address → String → Option Address
unfolding address_get_array_ports
address_set_ports a new_value =
    let ports = if str_eq new_value "0" then a.ports else new_value in
    elim (address_get_array_ports (codes ports)) [
      | none ↦ none
      | some port_list ↦ some (record a {
        ports = ports;
        protocol = if str_eq new_value "" then Protocol.all else a.protocol;
        port_list = port_list;
      })
    ]
