-- ===== src/Backends/Setters.antt =====
-- The setters of src/backends.c that change a backend and the farm's flags and sums over its backends.
-- A setter takes the farm and the backend that the source's pointer names, as it stands in the list.
use nftlb.Prelude.{
  ℕ, String, Bool, ◌&&◌, List, [], ◌∷◌, some, ℤ, ◌+ℤ◌, ◌-ℤ◌, any, leb, eq_ℤ, ◌==◌, if◌then◌else◌,
}
use nftlb.Model.{Backend, Farm}
use nftlb.Backends.Predicates.{is_set, backend_is_available, backend_no_port}
use nftlb.Backends.Marks.{backend_mark_min, backend_mark_max}

-- The list with the node of the same id replaced: an assignment through a pointer to the node.
unfoldable pub put : Backend → List Backend → List Backend
put b [] = []
put b (x ∷ xs) = if x.id == b.id then b ∷ xs else x ∷ put b xs

unfoldable pub put_backend : Farm → Backend → Farm
put_backend f b = record f { backends = put b f.backends }

unfoldable pub backend_set_weight : Farm → Backend → ℤ → Farm
unfolding put_backend
backend_set_weight f b new_value =
    let b' = record b { weight = new_value } in
    let g = put_backend f b' in
    record g {
      total_weight =
          if backend_is_available g b'
          then g.total_weight +ℤ (b'.weight -ℤ b.weight)
          else g.total_weight;
    }

unfoldable pub backend_set_estconnlimit : Farm → Backend → ℤ → Farm
unfolding put_backend
backend_set_estconnlimit f b new_value =
    if eq_ℤ new_value b.estconnlimit
    then f
    else put_backend f (record b { estconnlimit = new_value })

-- A mark outside the range is passed over.
unfoldable pub backend_set_mark : Farm → Backend → ℕ → Farm
unfolding put_backend
backend_set_mark f b new_value =
    if leb backend_mark_min new_value && leb new_value backend_mark_max
    then put_backend f (record b { mark = new_value })
    else f

-- The loop of backend_s_set_ports: its result, and the flag that it sets.
unfoldable pub ports_flag : List Backend → ℕ
ports_flag bs = if any backend_no_port bs then 0 else 1

unfoldable pub backend_s_set_ports : Farm → Farm
unfolding ports_flag
backend_s_set_ports f = record f { bcks_have_port = ports_flag f.backends }

unfoldable pub backend_set_port : Farm → Backend → String → Farm
unfolding put_backend ports_flag
backend_set_port f b new_value =
    let b' = record b { port = new_value } in
    let g = put_backend f b' in
    record g {
      bcks_have_port =
          if g.bcks_have_port == 0
          then ports_flag g.backends
          else if backend_no_port b'
          then 0
          else g.bcks_have_port;
    }

abbrev pub has_srcaddr : Backend → Bool
has_srcaddr b = is_set b.srcaddr

-- The loop of backend_s_set_srcaddr: its result, and the flag that it sets.
unfoldable pub srcaddr_flag : List Backend → ℕ
srcaddr_flag bs = if any has_srcaddr bs then 1 else 0

unfoldable pub backend_s_set_srcaddr : Farm → Farm
unfolding srcaddr_flag
backend_s_set_srcaddr f = record f { bcks_have_srcaddr = srcaddr_flag f.backends }

unfoldable pub backend_set_srcaddr : Farm → Backend → String → Farm
unfolding put_backend srcaddr_flag
backend_set_srcaddr f b new_value =
    let b' = record b { srcaddr = some new_value } in
    let g = put_backend f b' in
    record g { bcks_have_srcaddr = if has_srcaddr b' then 1 else srcaddr_flag g.backends }
