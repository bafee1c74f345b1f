-- ===== src/Backends/Marks.antt =====
-- backend_gen_next_mark of src/backends.c: the mark of a new backend.
use nftlb.Prelude.{
  ℕ, zero, suc, ◌+◌, ◌-◌, ◌≤◌, ◌<◌, ◌≡◌, refl, ◌⊎◌, inl, inr, Bool, true, false, List, any, arith,
  ◌==◌, Bool-cases, if◌then◌else◌,
}
use native.Mathlib.Decide.{ℕ_discrete}
use native.Mathlib.Numerals.{add-one}
use nftlb.Model.{Farm}

abbrev pub backend_mark_min : ℕ
backend_mark_min = 1

abbrev pub backend_mark_max : ℕ
backend_mark_max = 0xfff

abbrev pub default_mark : ℕ
default_mark = 0

-- Some backend of some farm has the mark: the two inner loops, which set `found` and never clear it.
unfoldable pub mark_found : List Farm → ℕ → Bool
mark_found farms mark = any (λ f. any (λ b. mark == b.mark) f.backends) farms

-- The outer loop: `left` marks are left, from `mark` on.
unfoldable pub next_mark_from : List Farm → ℕ → ℕ → ℕ
next_mark_from farms zero mark = default_mark
next_mark_from farms (suc left) mark =
    let rest = next_mark_from farms left (mark + 1) in if mark_found farms mark then rest else mark

unfoldable pub backend_gen_next_mark : List Farm → ℕ
backend_gen_next_mark farms =
    next_mark_from farms (backend_mark_max + 1 - backend_mark_min) backend_mark_min

abbrev pub IsTaken : List Farm → ℕ → Type 0
IsTaken farms mark = mark_found farms mark ≡ true

-- A mark in the range that is free, and the lowest such, or the default mark and none is free.
abbrev pub IsNextMark : List Farm → ℕ → ℕ → ℕ → Type 0
IsNextMark farms low high m =
    (low ≤ m)
      × (m ≤ high)
      × (mark_found farms m ≡ false)
      × ((k : ℕ) → low ≤ k → k < m → IsTaken farms k)
    ⊎ (m ≡ default_mark) × ((k : ℕ) → low ≤ k → k ≤ high → IsTaken farms k)

-- The lowest mark of the range is taken: the search goes on above it.
IsNextMark-lower :
    (farms : List Farm) (low high m : ℕ)
    → IsTaken farms low
    → IsNextMark farms (suc low) high m
    → IsNextMark farms low high m
IsNextMark-lower farms low high m taken (inl (above, below, free, least)) = inl (
  omega arith,
  below,
  free,
  λ k p q. elim (ℕ_discrete k low) [ yes e ↦ rw e taken | no ne ↦ least k (omega arith) q ],
)
IsNextMark-lower farms low high m taken (inr (e, all_taken)) = inr (
  e,
  λ k p q. elim (ℕ_discrete k low) [
    | yes same ↦ rw same taken
    | no ne ↦ all_taken k (omega arith) q
  ],
)

next_mark_from_lem :
    (farms : List Farm) (left mark high : ℕ)
    → mark + left ≡ high + 1
    → IsNextMark farms mark high (next_mark_from farms left mark)
unfolding next_mark_from
next_mark_from_lem farms zero mark high h = inr (refl, λ k p q. absurd (omega arith))
next_mark_from_lem farms (suc left) mark high h = elim (Bool-cases (mark_found farms mark)) [
  | inl taken ↦ rw taken (
      IsNextMark-lower farms mark high _ taken
        (rw add-one (next_mark_from_lem farms left (suc mark) high (omega arith))))
  | inr free ↦ rw free (inl (omega arith, omega arith, free, λ k p q. absurd (omega arith)))
]

-- A new backend gets the lowest mark from 1 to 0xfff that no backend of any farm has, or, where all
-- of them are taken, the mark 0.
pub backend_gen_next_mark_lem :
    (farms : List Farm)
    → IsNextMark farms backend_mark_min backend_mark_max (backend_gen_next_mark farms)
unfolding backend_gen_next_mark
backend_gen_next_mark_lem farms = next_mark_from_lem farms _ _ _ (omega arith)
