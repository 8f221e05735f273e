-- ===== src/Provision/OsRelease/RoundTrip.antt =====
-- Writing an OsRelease as a file, and reading it back.
use machine.Base.{
  ℕ, ◌+◌, ◌<◌, ◌≡◌, refl, ap, ◌∙◌, Bool, true, not, ◌&&◌, some, List, [], ◌∷◌, ◌++◌, length,
  length-append, ltb, ◌==◌, arith,
}
use machine.Base.Exec.{ok}
use machine.Text.{Text, bytes, text_eq, split}
use machine.Text.Bytes.{Lacks, Lacks-append, split-Lacks}
use machine.Provision.OsRelease.{
  OsRelease, no_os_release, but_last, strip_quotes, set_if_possible, key_and_value, parse_line,
  take_line, drop_cr, parse_lines, parse_os_release, new_os_release,
}

-- KEY="value"
abbrev pub written : Text → Text → Text
written key val = key ++ (b'=' ∷ (b'"' ∷ (val ++ (b'"' ∷ []))))

abbrev pub print_lines : List (Text × Text) → Text
print_lines [] = []
print_lines ((key, val) ∷ entries) = written key val ++ (10 ∷ print_lines entries)

-- The lines of a file that tells the whole struct.
abbrev pub entries_of : OsRelease → List (Text × Text)
entries_of r =
    (bytes "ANSI_COLOR", r.ansi_color)
    ∷ (bytes "NAME", r.name)
    ∷ (bytes "VERSION", r.version)
    ∷ (bytes "VARIANT", r.variant)
    ∷ (bytes "VARIANT_ID", r.variant_id)
    ∷ (bytes "ID", r.id)
    ∷ (bytes "ID_LIKE", r.id_like)
    ∷ (bytes "PRETTY_NAME", r.pretty_name)
    ∷ (bytes "VERSION_ID", r.version_id)
    ∷ (bytes "HOME_URL", r.home_url)
    ∷ (bytes "SUPPORT_URL", r.support_url)
    ∷ (bytes "BUG_REPORT_URL", r.bug_report_url)
    ∷ []

-- A text without an equals sign or a line feed, of some sixty thousand bytes at most.
abbrev pub Plain : Text → Type 0
Plain s = Lacks b'=' s × (Lacks 10 s × (length s < 60000))

abbrev pub AllPlain : List (Text × Text) → Type 0
AllPlain [] = Unit
AllPlain ((key, val) ∷ entries) = (Plain val) × AllPlain entries

-- The same of the keys, which are shorter.
abbrev KeysPlain : List (Text × Text) → Type 0
KeysPlain [] = Unit
KeysPlain ((key, val) ∷ entries) =
    (Lacks b'=' key × (Lacks 10 key × (length key < 100))) × KeysPlain entries

lacking : ℕ → Text → Bool
lacking b [] = true
lacking b (c ∷ s) = not (c == b) && lacking b s

Lacks-lacking : (b : ℕ) (s : Text) → lacking b s ≡ true → Lacks b s
unfolding lacking
Lacks-lacking b [] h = tt
Lacks-lacking b (c ∷ s) h = (ground arith, Lacks-lacking b s (ground arith))

plain_keys : List (Text × Text) → Bool
unfolding lacking
plain_keys [] = true
plain_keys ((key, val) ∷ entries) =
    (lacking b'=' key && (lacking 10 key && ltb (length key) 100)) && plain_keys entries

KeysPlain-plain_keys :
    (entries : List (Text × Text)) → plain_keys entries ≡ true → KeysPlain entries
unfolding plain_keys
KeysPlain-plain_keys [] h = tt
KeysPlain-plain_keys ((key, val) ∷ entries) h = (
  (Lacks-lacking b'=' key (ground arith), (Lacks-lacking 10 key (ground arith), ground arith)),
  KeysPlain-plain_keys entries (ground arith),
)

-- A test for plain values.
unfoldable pub plain_values : List (Text × Text) → Bool
unfolding lacking
plain_values [] = true
plain_values ((key, val) ∷ entries) =
    (lacking b'=' val && (lacking 10 val && ltb (length val) 60000)) && plain_values entries

pub AllPlain-plain_values :
    (entries : List (Text × Text)) → plain_values entries ≡ true → AllPlain entries
unfolding plain_values
AllPlain-plain_values [] h = tt
AllPlain-plain_values ((key, val) ∷ entries) h = (
  (Lacks-lacking b'=' val (ground arith), (Lacks-lacking 10 val (ground arith), ground arith)),
  AllPlain-plain_values entries (ground arith),
)

split_at : (sep : ℕ) (s t : Text) → Lacks sep s → split sep (s ++ (sep ∷ t)) ≡ s ∷ split sep t
unfolding split
split_at sep [] t h = ground arith
split_at sep (c ∷ s) t (x, h) = rw (x, split_at sep s t h) refl

but_last-append : (s : Text) (c : ℕ) → but_last (s ++ (c ∷ [])) ≡ s
but_last-append [] c = refl
but_last-append (d ∷ []) c = refl
but_last-append (d ∷ e ∷ s) c = ap (λ t. d ∷ t) (but_last-append (e ∷ s) c)

drop_cr-append : (s : Text) (c : ℕ) (t : Text) → drop_cr (s ++ (c ∷ t)) ≡ s ++ drop_cr (c ∷ t)
drop_cr-append [] c t = refl
drop_cr-append (d ∷ []) c t = refl
drop_cr-append (d ∷ e ∷ s) c t = ap (λ u. d ∷ u) (drop_cr-append (e ∷ s) c t)

strip_quotes-quoted : (val : Text) → strip_quotes (b'"' ∷ (val ++ (b'"' ∷ []))) ≡ ok val
unfolding strip_quotes
strip_quotes-quoted [] = refl
strip_quotes-quoted (c ∷ val) = ap ok (but_last-append (c ∷ val) b'"')

split-written :
    (key val : Text)
    → Lacks b'=' key
    → Lacks b'=' val
    → split b'=' (written key val) ≡ key ∷ (b'"' ∷ (val ++ (b'"' ∷ []))) ∷ []
split-written key val k v =
    rw
      (
        split_at b'=' key (b'"' ∷ (val ++ (b'"' ∷ []))) k,
        split-Lacks b'=' (b'"' ∷ (val ++ (b'"' ∷ [])))
            (refl, Lacks-append b'=' val (b'"' ∷ []) v (refl, tt)),
      )
      refl

parse_line-written :
    (key val : Text)
    → Lacks b'=' key
    → Lacks b'=' val
    → parse_line (written key val) ≡ ok (some (key, val))
unfolding parse_line key_and_value
parse_line-written [] val k v =
    rw (split-written [] val k v) (rw (key_and_value, strip_quotes-quoted val) refl)
parse_line-written (c ∷ key) val k v =
    rw (split-written (c ∷ key) val k v) (rw (key_and_value, strip_quotes-quoted val) refl)

-- A line that is not empty and that fits is taken, and the rest goes on.
parse_lines-step :
    (line : Text) (lines : List Text) (osr osr' : OsRelease)
    → 0 < length line
    → length line < 65536
    → take_line (parse_line (drop_cr line)) osr ≡ ok osr'
    → parse_lines (line ∷ lines) osr ≡ parse_lines lines osr'
unfolding parse_lines
parse_lines-step [] lines osr osr' more less e = absurd (omega arith)
parse_lines-step (c ∷ line) [] osr osr' more less e =
    let fits : ltb (length (c ∷ line)) 65536 ≡ true = ground arith in rw (fits, e) refl
parse_lines-step (c ∷ line) (l ∷ lines) osr osr' more less e =
    let fits : ltb (length (c ∷ line)) 65536 ≡ true = ground arith in rw (fits, e) refl

length-written : (key val : Text) → length (written key val) ≡ length key + length val + 3
length-written key val = rw (length-append key _, length-append val _) (omega arith)

take_written :
    (key val : Text) (lines : List Text) (osr : OsRelease)
    → Lacks b'=' key × (Lacks 10 key × (length key < 100))
    → Plain val
    → parse_lines (written key val ∷ lines) osr ≡ parse_lines lines (set_if_possible key val osr)
unfolding take_line
take_written key val lines osr (k, (k', short)) (v, (v', fits)) =
    parse_lines-step (written key val) lines osr (set_if_possible key val osr)
      (rw (length-written key val) (omega arith)) (rw (length-written key val) (omega arith))
      (rw (drop_written, parse_line-written key val k v) refl)
  where
    drop_written : drop_cr (written key val) ≡ written key val
    drop_written =
        drop_cr-append key b'=' _
        ∙ ap (λ t. key ++ (b'=' ∷ t)) (drop_cr-append (b'"' ∷ val) b'"' [])

set_all : List (Text × Text) → OsRelease → OsRelease
set_all [] osr = osr
set_all ((key, val) ∷ entries) osr = set_all entries (set_if_possible key val osr)

parse_lines-print_lines :
    (entries : List (Text × Text)) (osr : OsRelease)
    → KeysPlain entries
    → AllPlain entries
    → parse_lines (split 10 (print_lines entries)) osr ≡ ok (set_all entries osr)
unfolding parse_lines split set_all
parse_lines-print_lines [] osr k v = refl
parse_lines-print_lines ((key, val) ∷ entries) osr (k, ks) (v, vs) =
    rw (split_at 10 (written key val) (print_lines entries) (lacks key val k v)) (
      take_written key val (split 10 (print_lines entries)) osr k v
      ∙ parse_lines-print_lines entries (set_if_possible key val osr) ks vs)
  where
    lacks :
        (key val : Text)
        → Lacks b'=' key × (Lacks 10 key × (length key < 100))
        → Plain val
        → Lacks 10 (written key val)
    lacks key val (_, (k, _)) (_, (v, _)) =
        Lacks-append 10 key _ k (refl, (refl, Lacks-append 10 val (b'"' ∷ []) v (refl, tt)))

-- A struct of plain values, written as a file of lines KEY="value" with one line for each field, is
-- read back as it was.
pub new_os_release-print_lines :
    (r : OsRelease) → AllPlain (entries_of r) → new_os_release (print_lines (entries_of r)) ≡ ok r
unfolding new_os_release parse_os_release set_all set_if_possible text_eq plain_keys
new_os_release-print_lines r plain =
    parse_lines-print_lines (entries_of r) no_os_release (KeysPlain-plain_keys (entries_of r) refl)
      plain
