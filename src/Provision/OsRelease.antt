-- ===== src/Provision/OsRelease.antt =====
-- libmachine/provision/os_release.go: the file /etc/os-release.
pub mod RoundTrip
pub mod Quotes
use mathlib.Core.List.{foldl}
use machine.Base.{
  ℕ, zero, suc, Bool, true, false, Option, none, some, List, [], ◌∷◌, length, ltb, ◌==◌,
  if◌then◌else◌,
}
use machine.Base.Exec.{Result, ok, err}
use machine.Text.{Text, bytes, text_eq, split}
use machine.Errors.{Error, message, panic}

pub record OsRelease : Type 0 where
  pub ansi_color : Text
  pub name : Text
  pub version : Text
  pub variant : Text
  pub variant_id : Text
  pub id : Text
  pub id_like : Text
  pub pretty_name : Text
  pub version_id : Text
  pub home_url : Text
  pub support_url : Text
  pub bug_report_url : Text

-- `&OsRelease{}`
abbrev pub no_os_release : OsRelease
no_os_release = record {
  ansi_color = [];
  name = [];
  version = [];
  variant = [];
  variant_id = [];
  id = [];
  id_like = [];
  pretty_name = [];
  version_id = [];
  home_url = [];
  support_url = [];
  bug_report_url = [];
}

-- All bytes but the last.
abbrev pub but_last : Text → Text
but_last [] = []
but_last (c ∷ []) = []
but_last (c ∷ d ∷ s) = c ∷ but_last (d ∷ s)

-- `val[1 : len(val)-1]`, which stops where a quote stands alone: its bounds are 1 and 0.
unfoldable pub strip_quotes : Text → Result Error Text
strip_quotes [] = ok []
strip_quotes (c ∷ []) = if c == b'"' then err panic else ok (c ∷ [])
strip_quotes (c ∷ d ∷ s) = if c == b'"' then ok (but_last (d ∷ s)) else ok (c ∷ d ∷ s)

-- The fields by the tags of the struct; a key that is no tag changes nothing, which is only logged.
unfoldable pub set_if_possible : Text → Text → OsRelease → OsRelease
set_if_possible key val osr =
    if text_eq key (bytes "ANSI_COLOR")
    then record osr { ansi_color = val }
    else if text_eq key (bytes "NAME")
    then record osr { name = val }
    else if text_eq key (bytes "VERSION")
    then record osr { version = val }
    else if text_eq key (bytes "VARIANT")
    then record osr { variant = val }
    else if text_eq key (bytes "VARIANT_ID")
    then record osr { variant_id = val }
    else if text_eq key (bytes "ID")
    then record osr { id = val }
    else if text_eq key (bytes "ID_LIKE")
    then record osr { id_like = val }
    else if text_eq key (bytes "PRETTY_NAME")
    then record osr { pretty_name = val }
    else if text_eq key (bytes "VERSION_ID")
    then record osr { version_id = val }
    else if text_eq key (bytes "HOME_URL")
    then record osr { home_url = val }
    else if text_eq key (bytes "SUPPORT_URL")
    then record osr { support_url = val }
    else if text_eq key (bytes "BUG_REPORT_URL")
    then record osr { bug_report_url = val }
    else osr

-- A key with its value; nothing for a line that is skipped with a warning.
key_and_value : List Text → Result Error (Option (Text × Text))
unfolding strip_quotes
key_and_value (key ∷ val ∷ []) = elim (strip_quotes val) [
  | ok stripped ↦ ok (some (key, stripped))
  | err e ↦ err e
]
key_and_value _ = ok none

unfoldable pub parse_line : Text → Result Error (Option (Text × Text))
unfolding key_and_value
parse_line [] = ok (some ([], []))
parse_line (c ∷ line) = key_and_value (split b'=' (c ∷ line))

-- What a line does to the struct.
take_line : Result Error (Option (Text × Text)) → OsRelease → Result Error OsRelease
unfolding set_if_possible
take_line (err e) osr = err e
take_line (ok none) osr = ok osr
take_line (ok (some (key, val))) osr = ok (set_if_possible key val osr)

-- `bufio.ScanLines`: no line after the last line feed, and no carriage return at a line's end.
abbrev pub drop_cr : Text → Text
drop_cr [] = []
drop_cr (c ∷ []) = if c == 13 then [] else c ∷ []
drop_cr (c ∷ d ∷ s) = c ∷ drop_cr (d ∷ s)

-- `bufio.MaxScanTokenSize`: at a line that does not fit, with its line feed, the scanner stops.
abbrev pub max_scan_token_size : ℕ
max_scan_token_size = 65536

-- The loop over the scanner's lines.
unfoldable pub parse_lines : List Text → OsRelease → Result Error OsRelease
unfolding parse_line take_line
parse_lines [] osr = ok osr
parse_lines ([] ∷ []) osr = ok osr
parse_lines (line ∷ lines) osr =
    if ltb (length line) max_scan_token_size
    then (elim (take_line (parse_line (drop_cr line)) osr) [
      | ok osr' ↦ parse_lines lines osr'
      | err e ↦ err e
    ])
    else ok osr

-- `(*OsRelease).ParseOsRelease`
unfoldable pub parse_os_release : Text → OsRelease → Result Error OsRelease
unfolding parse_lines split
parse_os_release contents osr = parse_lines (split 10 contents) osr

unfoldable pub new_os_release : Text → Result Error OsRelease
unfolding parse_os_release
new_os_release contents = parse_os_release contents no_os_release
