-- ===== src/Backends/Lookup.antt =====
-- backend_lookup_by_key of src/backends.c.
use nftlb.Prelude.{ℕ, Bool, false, Option, none, some, String, ℤ, pos, str_eq, eq_ℤ, find?}
use nftlb.Enums.{Key}
use nftlb.Model.{Backend, Farm}
use nftlb.Backends.Predicates.{backend_get_mark}

abbrev pub text_is : Option String → String → Bool
text_is none name = false
text_is (some s) name = str_eq s name

-- The switch in the loop; a key that it has no case for finds nothing.
unfoldable pub backend_has_key : ℕ → Farm → Key → String → ℤ → Backend → Bool
unfolding backend_get_mark
backend_has_key masquerade_mark f Key.name name value b = str_eq b.name name
backend_has_key masquerade_mark f Key.mark name value b =
    eq_ℤ value (pos (backend_get_mark masquerade_mark f b))
backend_has_key masquerade_mark f Key.ethaddr name value b = text_is b.ethaddr name
backend_has_key masquerade_mark f Key.ipaddr name value b = text_is b.ipaddr name
backend_has_key masquerade_mark f key name value b = false

unfoldable pub backend_lookup_by_key : ℕ → Farm → Key → String → ℤ → Option Backend
unfolding backend_has_key
backend_lookup_by_key masquerade_mark f key name value =
    find? (backend_has_key masquerade_mark f key name value) f.backends
