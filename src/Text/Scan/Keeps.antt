-- ===== src/Text/Scan/Keeps.antt =====
-- What the callback of parseKeyValues keeps, the reading of all the lines keeps.
use machine.Base.{
  ◌≡◌, refl, sym, ◌∙◌, subst, true, false, inl, inr, Bool-cases, Option, none, some, List, [], ◌∷◌,
  arith, leb, length,
}
use machine.Base.Exec.{Result, ok, err, ok-injective}
use machine.Text.{Text}
use machine.Errors.{Error}
use machine.Text.Scan.{
  drop_return, max_token_size, on_line, parse_lines, raw_lines, parse_key_values,
}

module _ {S : Type 0} (pattern : Text → Option (Text × Text))
    (callback : Text → Text → S → Result Error S) (P : S → Type 0)
    (keeps : (key val : Text) (s t : S) → P s → callback key val s ≡ ok t → P t) where
  on_line-keeps : (line : Text) (s t : S) → P s → on_line pattern callback line s ≡ ok t → P t
  on_line-keeps [] s t p e = ground (arith, p)
  on_line-keeps (c ∷ line) s t p e = go (pattern (c ∷ line)) e
    where
      go :
          (m : Option (Text × Text))
          → elim m [ none ↦ ok s | some found ↦ callback found.0 found.1 s ] ≡ ok t
          → P t
      go none h = subst P (ok-injective h) p
      go (some found) h = keeps found.0 found.1 s t p h

  pub parse_lines-keeps :
      (lines : List Text) (s t : S) → P s → parse_lines pattern callback lines s ≡ ok t → P t
  unfolding parse_lines
  parse_lines-keeps [] s t p e = subst P (ok-injective e) p
  parse_lines-keeps (line ∷ lines) s t p e = elim (Bool-cases (leb max_token_size (length line))) [
    | inl long ↦ absurd (not_too_long long e)
    | inr short ↦
        let (v, same, rest) =
          first_line (on_line pattern callback (drop_return line) s) (sym (step short) ∙ e) in
        parse_lines-keeps lines v t (on_line-keeps (drop_return line) s v p same) rest
  ]
    where
      not_too_long :
          leb max_token_size (length line) ≡ true
          → parse_lines pattern callback (line ∷ lines) s ≡ ok t
          → ⊥
      not_too_long long h = ground arith

      step :
          leb max_token_size (length line) ≡ false
          → parse_lines pattern callback (line ∷ lines) s
            ≡ elim (on_line pattern callback (drop_return line) s) [
              | err e ↦ err e
              | ok v ↦ parse_lines pattern callback lines v
            ]
      step short = rw short refl

      first_line :
          (r : Result Error S)
          → elim r [ err e ↦ err e | ok v ↦ parse_lines pattern callback lines v ] ≡ ok t
          → (v : S) × (r ≡ ok v) × (parse_lines pattern callback lines v ≡ ok t)
      first_line (err e) h = cc
      first_line (ok v) h = (v, refl, h)

  pub parse_key_values-keeps :
      (out : Text) (s t : S) → P s → parse_key_values pattern callback out s ≡ ok t → P t
  unfolding parse_key_values
  parse_key_values-keeps out = parse_lines-keeps (raw_lines out)
