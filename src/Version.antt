-- ===== src/Version.antt =====
-- libmachine/versioncmp/compare.go: comparing version strings of Docker.
pub mod Loop
pub mod Segments
pub mod Order
pub mod Suffix
use machine.Base.{
  ℕ, zero, suc, ◌+◌, Bool, ◌&&◌, not, none, some, List, [], ltb, if◌then◌else◌, length, get_elem?,
  take,
}
use machine.Base.Int.{ℤ, pos, negsuc, ltb_ℤ, leb_ℤ, eqb_ℤ}
use machine.Text.{Text, bytes, contains, replace, index_byte, split}
use machine.Text.Atoi.{atoi}

abbrev pub rc_string : Text
rc_string = bytes "-rc"

abbrev pub ce_edition : Text
ce_edition = bytes "-ce"

-- if n := strings.IndexByte(v, '-'); n != -1 { v = v[:n] }
unfoldable pub cut_suffix : Text → Text
cut_suffix v = elim (index_byte v b'-') [ none ↦ v | some n ↦ take n v ]

-- The number in segment `i`: 0 past the end.
unfoldable pub segment : List Text → ℕ → ℤ
segment tab i = elim (get_elem? tab i) [ none ↦ pos 0 | some s ↦ atoi s ]

-- The loop, with `rounds` iterations left.
unfoldable pub compare_from : ℕ → ℕ → (ℕ → ℤ) → (ℕ → ℤ) → ℤ
compare_from zero i curr other = pos 0
compare_from (suc rounds) i curr other =
    let rest = compare_from rounds (i + 1) curr other in
    if ltb_ℤ (other i) (curr i) then pos 1 else if ltb_ℤ (curr i) (other i) then negsuc 0 else rest

unfoldable pub compare_numeric : Text → Text → ℤ
compare_numeric v1 v2 =
    let curr_tab = split b'.' (cut_suffix v1) in
    let other_tab = split b'.' (cut_suffix v2) in
    let max =
      if ltb (length curr_tab) (length other_tab) then length other_tab else length curr_tab in
    compare_from max 0 (segment curr_tab) (segment other_tab)

unfoldable pub compare_ce : Text → Text → ℤ
compare_ce v1 v2 = compare_numeric (replace ce_edition [] v1) (replace ce_edition [] v2)

unfoldable pub compare_replaced : Text → Text → ℤ
compare_replaced v1 v2 =
    if contains ce_edition v1 && not (contains ce_edition v2)
    then pos 1
    else if not (contains ce_edition v1) && contains ce_edition v2
    then negsuc 0
    else if not (contains ce_edition v1) && not (contains ce_edition v2)
    then compare_numeric v1 v2
    else compare_ce v1 v2

unfoldable pub compare : Text → Text → ℤ
compare v1 v2 =
    compare_replaced (replace rc_string (bytes ".") v1) (replace rc_string (bytes ".") v2)

unfoldable pub less_than : Text → Text → Bool
less_than v other = eqb_ℤ (compare v other) (negsuc 0)

unfoldable pub less_than_or_equal_to : Text → Text → Bool
less_than_or_equal_to v other = leb_ℤ (compare v other) (pos 0)

unfoldable pub greater_than : Text → Text → Bool
greater_than v other = eqb_ℤ (compare v other) (pos 1)

unfoldable pub greater_than_or_equal_to : Text → Text → Bool
greater_than_or_equal_to v other = leb_ℤ (pos 0) (compare v other)

unfoldable pub equal : Text → Text → Bool
equal v other = eqb_ℤ (compare v other) (pos 0)
