-- ===== src/Text/Scan.antt =====
-- The functions of `strings`, `bufio` and `regexp` that read what programs print: the blanks around a
-- text, its lines and fields, and the line patterns of drivers/virtualbox/vbm.go. A blank is one of
-- the ASCII ones.
pub mod Keeps
use machine.Base.{
  ℕ, Bool, true, false, ◌&&◌, ◌||◌, Option, none, some, List, [], ◌∷◌, ◌++◌, ◌-◌, ◌+◌, ◌==◌, ltb,
  leb, if◌then◌else◌, length, drop,
}
use machine.Base.Exec.{Result, ok, err}
use machine.Text.{Text, bytes, text_eq, split, has_prefix}
use machine.Errors.{Error, message}

abbrev pub blank : ℕ
blank = 32

-- What `\s` matches.
abbrev pub is_space : ℕ → Bool
is_space c = c == blank || (c == 9 || (c == 10 || (c == 12 || c == 13)))

-- `%q` of a text with no byte to escape.
abbrev pub quoted : Text → Text
quoted s = b'"' ∷ (s ++ (b'"' ∷ []))

abbrev pub is_empty : {A : Type 0} → List A → Bool
is_empty [] = true
is_empty (x ∷ xs) = false

unfoldable pub trim_left : Text → Text
trim_left [] = []
trim_left (c ∷ s) = let rest = trim_left s in if is_space c || c == 11 then rest else c ∷ s

trim_right : Text → Text
trim_right [] = []
trim_right (c ∷ s) =
    let rest = trim_right s in if is_empty rest && (is_space c || c == 11) then [] else c ∷ rest

-- strings.TrimSpace
unfoldable pub trim_space : Text → Text
unfolding trim_left trim_right
trim_space s = trim_right (trim_left s)

-- `strings.ToLower` of ASCII letters.
unfoldable pub to_lower : Text → Text
to_lower [] = []
to_lower (c ∷ s) = (if leb 65 c && leb c 90 then c + 32 else c) ∷ to_lower s

-- `strings.EqualFold` of texts of ASCII.
unfoldable pub equal_fold : Text → Text → Bool
unfolding to_lower text_eq
equal_fold s t = text_eq (to_lower s) (to_lower t)

-- `strings.SplitN(s, sep, 2)`: the second part, if there is one.
unfoldable pub split_two : ℕ → Text → Text × Option Text
split_two sep [] = ([], none)
split_two sep (c ∷ s) =
    let (first, second) = split_two sep s in if c == sep then ([], some s) else (c ∷ first, second)

-- `strings.Join(args, sep)`.
unfoldable pub join_with : Text → List Text → Text
join_with sep [] = []
join_with sep (a ∷ []) = a
join_with sep (a ∷ b ∷ args) = a ++ (sep ++ join_with sep (b ∷ args))

-- The byte of a line's end, and the one that may stand before it.
abbrev pub newline : ℕ
newline = 10

abbrev pub drop_return : Text → Text
drop_return [] = []
drop_return (c ∷ []) = if c == 13 then [] else c ∷ []
drop_return (c ∷ d ∷ s) = c ∷ drop_return (d ∷ s)

-- The lines that a `bufio.Scanner` gives, before their carriage returns are dropped: one less than
-- the parts when the text ends with the line.
abbrev pub drop_last_empty : List Text → List Text
drop_last_empty [] = []
drop_last_empty ([] ∷ []) = []
drop_last_empty (l ∷ ls) = l ∷ drop_last_empty ls

unfoldable pub raw_lines : Text → List Text
raw_lines s = drop_last_empty (split newline s)

abbrev pub token_too_long : Error
token_too_long = message (bytes "bufio.Scanner: token too long")

abbrev pub max_token_size : ℕ
max_token_size = 65536

-- `(.+)` before a `:` that a blank follows, the last one, and the rest behind the blanks.
split_colon : Text → Option (Text × Text)
unfolding trim_left
split_colon [] = none
split_colon (c ∷ s) =
    let rest = split_colon s in
    elim rest [
      | some found ↦ some (c ∷ found.0, found.1)
      | none ↦ if c == b':' then after_colon s else none
    ]
  where
    skip : Text → Text
    skip [] = []
    skip (c ∷ s) = let rest = skip s in if is_space c then rest else c ∷ s

    after_colon : Text → Option (Text × Text)
    after_colon [] = none
    after_colon (c ∷ s) = if is_space c then some ([], skip s) else none

abbrev behind_first : (Text → Option (Text × Text)) → Text → Option (Text × Text)
behind_first f [] = none
behind_first f (c ∷ s) =
    let rest = f s in elim rest [ none ↦ none | some found ↦ some (c ∷ found.0, found.1) ]

-- `(.+):\s+(.*)`
unfoldable pub colon_line : Text → Option (Text × Text)
unfolding split_colon
colon_line = behind_first split_colon

split_equal : Text → Option (Text × Text)
split_equal [] = none
split_equal (c ∷ s) =
    let rest = split_equal s in
    elim rest [
      | some found ↦ some (c ∷ found.0, found.1)
      | none ↦ if c == b'=' then some ([], s) else none
    ]

-- `(.+)=(.*)`
unfoldable pub equal_line : Text → Option (Text × Text)
unfolding split_equal
equal_line = behind_first split_equal

module _ {S : Type 0} (pattern : Text → Option (Text × Text))
    (callback : Text → Text → S → Result Error S) where
  -- One line, its carriage return dropped; what does not match is passed over.
  abbrev pub on_line : Text → S → Result Error S
  on_line [] s = ok s
  on_line (c ∷ line) s = elim (pattern (c ∷ line)) [
    | none ↦ ok s
    | some found ↦ callback found.0 found.1 s
  ]

  unfoldable pub parse_lines : List Text → S → Result Error S
  parse_lines [] s = ok s
  parse_lines (line ∷ lines) s =
      if leb max_token_size (length line)
      then err token_too_long
      else elim (on_line (drop_return line) s) [ err e ↦ err e | ok s' ↦ parse_lines lines s' ]

  -- parseKeyValues, the state of the callback passed from line to line.
  unfoldable pub parse_key_values : Text → S → Result Error S
  unfolding parse_lines raw_lines
  parse_key_values out = parse_lines (raw_lines out)

-- `(.*)"`: what stands before the last quotation mark.
unfoldable pub up_to_quote : Text → Option Text
up_to_quote [] = none
up_to_quote (c ∷ s) =
    let rest = up_to_quote s in
    elim rest [ some t ↦ some (c ∷ t) | none ↦ if c == b'"' then some [] else none ]

split_quoted : Text → Option (Text × Text)
unfolding up_to_quote has_prefix
split_quoted [] = none
split_quoted (c ∷ s) =
    let rest = split_quoted s in
    let here = up_to_quote (drop 2 s) in
    elim rest [
      | some found ↦ some (c ∷ found.0, found.1)
      | none ↦
          if has_prefix (bytes "\"=\"") (c ∷ s)
          then elim here [ none ↦ none | some val ↦ some ([], val) ]
          else none
    ]

-- `"(.+)"="(.*)"`
unfoldable pub equal_quote_line : Text → Option (Text × Text)
unfolding split_quoted
equal_quote_line [] = none
equal_quote_line (c ∷ s) =
    let rest = equal_quote_line s in if c == b'"' then behind_first split_quoted s else rest
