-- ===== src/Tests/Files.antt =====
-- A picker of names for temporary files: a name that is longer than all the paths there are.
use machine.Base.{
  ℕ, zero, suc, ◌+◌, ◌<◌, ◌≡◌, refl, ap, none, [], ◌∷◌, ◌++◌, arith, length, length-append,
  Bool-cases, inl, inr,
}
use machine.Text.{Text, text_eq, text_eq_iff}
use machine.Text.Dict.{Dict, lookup}
use machine.Text.FilePath.{slash}
use machine.FileSystem.{Node}

abbrev pub total : Dict Node → ℕ
total [] = 0
total ((path, _) ∷ nodes) = length path + total nodes

abbrev pub dashes : ℕ → Text
dashes zero = []
dashes (suc n) = b'-' ∷ dashes n

abbrev pub longer : Text → Text → Dict Node → Text
longer parent prefix nodes = parent ++ (slash ∷ (prefix ++ dashes (total nodes)))

length-dashes : (n : ℕ) → length (dashes n) ≡ n
length-dashes zero = refl
length-dashes (suc n) = ap suc (length-dashes n)

lookup-total :
    (path : Text) (nodes : Dict Node) → total nodes < length path → lookup path nodes ≡ none
unfolding lookup
lookup-total path [] less = refl
lookup-total path ((other, entry) ∷ nodes) less = elim (Bool-cases (text_eq other path)) [
  | inl same ↦
      let e : length other ≡ length path = ap length ((text_eq_iff other path).0 same) in
      absurd (omega arith)
  | inr differs ↦ rw differs (lookup-total path nodes (omega arith))
]

pub lookup-longer :
    (parent prefix : Text) (nodes : Dict Node) → lookup (longer parent prefix nodes) nodes ≡ none
lookup-longer parent prefix nodes = lookup-total (longer parent prefix nodes) nodes (
    rw
      (
        length-append parent (slash ∷ (prefix ++ dashes (total nodes))),
        length-append prefix (dashes (total nodes)),
        length-dashes (total nodes),
      )
      (omega arith))
