-- ===== src/Provision/OsRelease/Quotes.antt =====
-- The lines at which reading /etc/os-release stops the program.
use machine.Base.{
  ◌≡◌, refl, sym, ap, ◌∙◌, ◌↔◌, inl, inr, true, false, Option, some, List, [], ◌∷◌, ◌==◌, arith,
  Bool-cases,
}
use machine.Base.Exec.{Result, ok, err}
use machine.Text.{Text, bytes, split}
use machine.Errors.{Error, panic}
use machine.Provision.OsRelease.{strip_quotes, key_and_value, parse_line, but_last}

abbrev Parsed : Type 0
Parsed = Result Error (Option (Text × Text))

lone : Text
lone = b'"' ∷ []

strip_quotes-panic :
    (val : Text) (key : Text) → key_and_value (key ∷ val ∷ []) ≡ err panic → val ≡ lone
unfolding strip_quotes key_and_value lone
strip_quotes-panic [] key e = cc
strip_quotes-panic (c ∷ []) key e = elim (Bool-cases (c == b'"')) [
  | inl same ↦ let q : c ≡ b'"' = ground arith in ap (λ d. d ∷ []) q
  | inr other ↦ absurd_ok (sym (kept other) ∙ e)
]
  where
    kept : (c == b'"') ≡ false → key_and_value (key ∷ (c ∷ []) ∷ []) ≡ ok (some (key, c ∷ []))
    kept a = rw (key_and_value, strip_quotes, a) refl

    absurd_ok : ◌≡◌ {A = Parsed} (ok (some (key, c ∷ []))) (err panic) → (c ∷ []) ≡ lone
    absurd_ok a = cc
strip_quotes-panic (c ∷ d ∷ s) key e = elim (Bool-cases (c == b'"')) [
  | inl same ↦ absurd_ok (sym (cut same) ∙ e)
  | inr other ↦ absurd_ok (sym (kept other) ∙ e)
]
  where
    cut :
        (c == b'"') ≡ true
        → key_and_value (key ∷ (c ∷ d ∷ s) ∷ []) ≡ ok (some (key, but_last (d ∷ s)))
    cut a = rw (key_and_value, strip_quotes, a) refl

    kept : (c == b'"') ≡ false → key_and_value (key ∷ (c ∷ d ∷ s) ∷ []) ≡ ok (some (key, c ∷ d ∷ s))
    kept a = rw (key_and_value, strip_quotes, a) refl

    absurd_ok : {t : Text} → ◌≡◌ {A = Parsed} (ok (some (key, t))) (err panic) → (c ∷ d ∷ s) ≡ lone
    absurd_ok a = cc

key_and_value-panic :
    (fields : List Text)
    → key_and_value fields ≡ err panic
    → (key : Text) × (fields ≡ key ∷ lone ∷ [])
unfolding key_and_value
key_and_value-panic [] e = cc
key_and_value-panic (key ∷ []) e = cc
key_and_value-panic (key ∷ val ∷ []) e =
    (key, ap (λ v. key ∷ v ∷ []) (strip_quotes-panic val key e))
key_and_value-panic (key ∷ val ∷ more ∷ fields) e = cc

-- A line stops the program exactly when an equals sign splits it into two fields, of which the
-- second is a single quote.
pub parse_line-panic_iff :
    (line : Text)
    → (parse_line line ≡ err panic) ↔ ((key : Text) × (split b'=' line ≡ key ∷ bytes "\"" ∷ []))
unfolding parse_line key_and_value strip_quotes split lone
parse_line-panic_iff [] = (λ e. cc, λ (key, e). cc)
parse_line-panic_iff (c ∷ line) =
    (λ e. key_and_value-panic (split b'=' (c ∷ line)) e, λ (key, e). ap key_and_value e)
