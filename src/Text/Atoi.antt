-- ===== src/Text/Atoi.antt =====
-- `strconv.Atoi`, and with its error dropped, as some callers use it: 0 for what is no number, the
-- nearest 64-bit value for a number out of range.
use machine.Base.{
  ℕ, ◌+◌, ◌-◌, ◌*◌, ◌^◌, Bool, true, false, ◌&&◌, Option, none, some, List, [], ◌∷◌, ltb, leb, ◌==◌,
  if◌then◌else◌,
}
use machine.Base.Int.{ℤ, pos, negate}

pub data Parsed : Type 0 where
  value : ℕ → Parsed
  syntax range : Parsed

abbrev max_uint64 : ℕ
max_uint64 = 2 ^ 64 - 1

-- `strconv.ParseUint(s, 10, 64)`. A range error is found before the bytes behind it are read.
parse_digits : ℕ → List ℕ → Parsed
parse_digits n [] = value n
parse_digits n (c ∷ s) =
    let rest = parse_digits (n * 10 + (c - 48)) s in
    if leb 48 c && leb c 57
    then (if ltb max_uint64 (n * 10 + (c - 48)) then range else rest)
    else syntax

abbrev parse_uint : List ℕ → Parsed
parse_uint [] = syntax
parse_uint (c ∷ s) = parse_digits 0 (c ∷ s)

abbrev clamp : Bool → Parsed → ℤ
clamp negative syntax = pos 0
clamp true (value n) = if ltb (2 ^ 63) n then negate (pos (2 ^ 63)) else negate (pos n)
clamp false (value n) = if leb (2 ^ 63) n then pos (2 ^ 63 - 1) else pos n
clamp true range = negate (pos (2 ^ 63))
clamp false range = pos (2 ^ 63 - 1)

unfoldable pub atoi : List ℕ → ℤ
unfolding parse_digits
atoi [] = pos 0
atoi (c ∷ s) =
    if c == b'-'
    then clamp true (parse_uint s)
    else if c == b'+'
    then clamp false (parse_uint s)
    else clamp false (parse_uint (c ∷ s))

in_range : Bool → Parsed → Option ℤ
in_range negative syntax = none
in_range negative range = none
in_range true (value n) = if ltb (2 ^ 63) n then none else some (negate (pos n))
in_range false (value n) = if leb (2 ^ 63) n then none else some (pos n)

-- `strconv.Atoi`, `none` where it has an error.
unfoldable pub parse_int : List ℕ → Option ℤ
unfolding parse_digits in_range
parse_int [] = none
parse_int (c ∷ s) =
    if c == b'-'
    then in_range true (parse_uint s)
    else if c == b'+'
    then in_range false (parse_uint s)
    else in_range false (parse_uint (c ∷ s))
