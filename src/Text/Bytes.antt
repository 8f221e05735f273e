-- ===== src/Text/Bytes.antt =====
-- How the functions on text act on a text that lacks a byte.
use mathlib.Core.List.{append-nil}
use machine.Base.{
  ℕ, ◌≡◌, refl, sym, ap, ◌∙◌, false, none, List, [], ◌∷◌, ◌++◌, arith, ◌==◌, Bool-cases, inl, inr,
}
use machine.Text.{Text, has_prefix, contains, replace_from, replace, index_byte, split}

abbrev pub Lacks : ℕ → Text → Type 0
Lacks b [] = Unit
Lacks b (c ∷ s) = ((c == b) ≡ false) × Lacks b s

pub Lacks-append : (b : ℕ) (s t : Text) → Lacks b s → Lacks b t → Lacks b (s ++ t)
Lacks-append b [] t h k = k
Lacks-append b (c ∷ s) t (x, h) k = (x, Lacks-append b s t h k)

module _ (b : ℕ) (old : Text) where
  pub contains-Lacks : (s : Text) → Lacks b s → contains (b ∷ old) s ≡ false
  unfolding contains
  contains-Lacks [] h = refl
  contains-Lacks (c ∷ s) (x, h) = ground (arith, contains-Lacks s h)

  -- Up to the first match nothing is replaced.
  pub replace_from-Lacks :
      (new s t : Text)
      → Lacks b s
      → replace_from (b ∷ old) new 0 (s ++ t) ≡ s ++ replace_from (b ∷ old) new 0 t
  unfolding replace_from has_prefix
  replace_from-Lacks new [] t h = refl
  replace_from-Lacks new (c ∷ s) t (x, h) = ground (arith, replace_from-Lacks new s t h)

  pub replace-Lacks : (new s : Text) → Lacks b s → replace (b ∷ old) new s ≡ s
  unfolding replace
  replace-Lacks new s h =
      ap (replace_from (b ∷ old) new 0) (sym (append-nil s))
      ∙ replace_from-Lacks new s [] h
      ∙ append-nil s

pub index_byte-Lacks : (b : ℕ) (s : Text) → Lacks b s → index_byte s b ≡ none
unfolding index_byte
index_byte-Lacks b [] h = refl
index_byte-Lacks b (c ∷ s) (x, h) = rw (x, index_byte-Lacks b s h)

split_cons : (sep : ℕ) (s : Text) → (h : Text) × (t : List Text) × (split sep s ≡ h ∷ t)
unfolding split
split_cons sep [] = ([], [], refl)
split_cons sep (c ∷ s) = elim (Bool-cases (c == sep)) [
  | inl same ↦ ([], split sep s, rw same)
  | inr other ↦ let (h, t, e) = split_cons sep s in (c ∷ h, t, rw (other, e))
]

pub split-Lacks : (sep : ℕ) (s : Text) → Lacks sep s → split sep s ≡ s ∷ []
unfolding split
split-Lacks sep [] h = refl
split-Lacks sep (c ∷ s) (x, h) = rw (x, split-Lacks sep s h)

-- A separator and a last field that lacks it add that field.
pub split-append_last :
    (sep : ℕ) (s t : Text) → Lacks sep t → split sep (s ++ sep ∷ t) ≡ split sep s ++ t ∷ []
unfolding split
split-append_last sep [] t h = ground (arith, split-Lacks sep t h)
split-append_last sep (c ∷ s) t h = elim (Bool-cases (c == sep)) [
  | inl same ↦ rw (same, split-append_last sep s t h)
  | inr other ↦ let (x, y, e) = split_cons sep s in rw (other, split-append_last sep s t h, e)
]

pub split-append_first :
    (sep : ℕ) (s t : Text) → Lacks sep s → split sep (s ++ sep ∷ t) ≡ s ∷ split sep t
unfolding split
split-append_first sep [] t h = ground arith
split-append_first sep (c ∷ s) t (x, h) = rw x (rw (split-append_first sep s t h) refl)
