-- ===== src/Objects/Attributes.antt =====
-- The comparison of attributes and the object counters of src/objects.c. A `char *` that may be NULL
-- is an optional text, and assigning a text replaces it (obj_set_attribute_string copies it).
use nftlb.Prelude.{
  ℤ, pos, String, Bool, true, false, Option, none, some, str_eq, eq_ℤ, leb_ℤ, if◌then◌else◌,
}

-- Two pointers that are equal point to equal texts.
unfoldable pub obj_equ_attribute_string : Option String → Option String → Bool
obj_equ_attribute_string none none = true
obj_equ_attribute_string none (some b) = str_eq b ""
obj_equ_attribute_string (some a) none = false
obj_equ_attribute_string (some a) (some b) = str_eq a b

unfoldable pub obj_equ_attribute_int : ℤ → ℤ → Bool
obj_equ_attribute_int a b = eq_ℤ a b

-- obj_set_total_farms, obj_set_total_policies, obj_set_total_addresses and obj_set_dsr_counter:
-- a negative new value leaves the counter alone.
unfoldable pub obj_set_total : ℤ → ℤ → ℤ
obj_set_total old new = if leb_ℤ (pos 0) new then new else old
