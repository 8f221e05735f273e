-- ===== src/VirtualBox/Create/Share.antt =====
-- Reading the flag virtualbox-share-folder back: parseShareFolder of drivers/virtualbox/virtualbox.go.
use machine.Base.{
  ℕ, ◌≡◌, refl, sym, ap, ◌∙◌, Bool-cases, inl, inr, List, [], ◌∷◌, ◌++◌, ◌==◌, ==_iff,
}
use machine.Text.{Text, split, cons_head}
use machine.Text.Bytes.{Lacks, split-append_last}
use machine.Text.Scan.{join_with}
use machine.VirtualBox.Create.{split_last, parse_share_folder}

split_last-append : (xs : List Text) (y : Text) → split_last (xs ++ y ∷ []) ≡ (xs, y)
split_last-append [] y = refl
split_last-append (x ∷ []) y = refl
split_last-append (x ∷ x' ∷ xs) y = ap (λ p. (x ∷ p.0, p.1)) (split_last-append (x' ∷ xs) y)

join_with-cons_head :
    (sep : Text) (c : ℕ) (fields : List Text)
    → join_with sep (cons_head c fields) ≡ c ∷ join_with sep fields
unfolding join_with
join_with-cons_head sep c [] = refl
join_with-cons_head sep c (f ∷ []) = refl
join_with-cons_head sep c (f ∷ g ∷ fields) = refl

-- There is always a first field.
split-some :
    (sep : ℕ) (s : Text) → (field : Text) × (fields : List Text) × (split sep s ≡ field ∷ fields)
unfolding split
split-some sep [] = ([], [], refl)
split-some sep (c ∷ s) = elim (Bool-cases (c == sep)) [
  | inl e ↦ ([], split sep s, rw e refl)
  | inr e ↦
      let (field, fields, same) = split-some sep s in
      (c ∷ field, fields, rw e (ap (cons_head c) same))
]

join_with-split : (sep : ℕ) (s : Text) → join_with (sep ∷ []) (split sep s) ≡ s
unfolding join_with split
join_with-split sep [] = refl
join_with-split sep (c ∷ s) = elim (Bool-cases (c == sep)) [
  | inl e ↦
      let (field, fields, same) = split-some sep s in
      rw e (
        ap (λ fs. join_with (sep ∷ []) ([] ∷ fs)) same
        ∙ (ap (λ fs. sep ∷ join_with (sep ∷ []) fs) (sym same)
            ∙ (ap (λ t. sep ∷ t) (join_with-split sep s)
                ∙ ap (λ x. x ∷ s) (sym ((==_iff c sep).0 e)))))
  | inr e ↦
      rw e
        (join_with-cons_head (sep ∷ []) c (split sep s) ∙ ap (λ t. c ∷ t) (join_with-split sep s))
]

-- A directory and a name that has no colon are read back from the two with a colon between them,
-- colons in the directory included.
pub parse_share_folder-append :
    (dir name : Text) → Lacks b':' name → parse_share_folder (dir ++ b':' ∷ name) ≡ (dir, name)
unfolding parse_share_folder
parse_share_folder-append dir name h =
    ap (λ fs. (join_with (b':' ∷ []) (split_last fs).0, (split_last fs).1))
      (split-append_last b':' dir name h)
    ∙ (ap (λ p. (join_with (b':' ∷ []) p.0, p.1)) (split_last-append (split b':' dir) name)
        ∙ ap (λ t. (t, name)) (join_with-split b':' dir))
