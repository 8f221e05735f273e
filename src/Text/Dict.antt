-- ===== src/Text/Dict.antt =====
-- Maps with texts for keys. The order of the entries shows only where they are listed.
use machine.Base.{
  ◌≡◌, refl, Bool, Option, none, some, List, [], ◌∷◌, arith, if◌then◌else◌, Bool-cases, inl, inr,
}
use machine.Text.{Text, text_eq, text_eq_iff}

abbrev pub Dict : Type 0 → Type 0
Dict V = List (Text × V)

module _ {V : Type 0} where
  unfoldable pub lookup : Text → Dict V → Option V
  lookup k [] = none
  lookup k ((j, v) ∷ d) = if text_eq j k then some v else lookup k d

  unfoldable pub insert : Text → V → Dict V → Dict V
  insert k v [] = (k, v) ∷ []
  insert k v ((j, w) ∷ d) = if text_eq j k then (j, v) ∷ d else (j, w) ∷ insert k v d

  -- The entries whose key passes the test.
  unfoldable pub filter_keys : (Text → Bool) → Dict V → Dict V
  filter_keys keep [] = []
  filter_keys keep ((j, w) ∷ d) =
      let rest = filter_keys keep d in if keep j then (j, w) ∷ rest else rest

  pub lookup-insert :
      (k j : Text) (v : V) (d : Dict V)
      → lookup j (insert k v d) ≡ (if text_eq k j then some v else lookup j d)
  unfolding lookup insert
  lookup-insert k j v [] = refl
  lookup-insert k j v ((i, w) ∷ d) =
      ground (arith, text_eq_iff k j, text_eq_iff i k, text_eq_iff i j, lookup-insert k j v d)

  pub lookup-filter_keys :
      (keep : Text → Bool) (j : Text) (d : Dict V)
      → lookup j (filter_keys keep d) ≡ (if keep j then lookup j d else none)
  unfolding lookup filter_keys
  lookup-filter_keys keep j [] = ground arith
  lookup-filter_keys keep j ((i, w) ∷ d) = elim (Bool-cases (text_eq i j)) [
    | inl same ↦
        let e = (text_eq_iff i j).0 same in
        rw e (ground (arith, lookup-filter_keys keep j d, text_eq_iff j j))
    | inr other ↦ rw other (ground (arith, lookup-filter_keys keep j d))
  ]
