-- ===== src/Version/Segments.antt =====
-- `compare` by the edition and the numeric segments of a version, of which it has infinitely many:
-- 0 from its end on.
use mathlib.Core.Path.{subst, fun_ext}
use machine.Base.{
  ℕ, ◌≤◌, ◌≡◌, sym, ◌⊎◌, inl, inr, Bool, ◌&&◌, ◌∙◌, not, arith, Bool-cases, ltb, if◌then◌else◌,
  List, [], length,
}
use machine.Base.Int.{ℤ, pos, negsuc, negate}
use machine.Text.{Text, bytes, contains, replace, split}
use machine.Version.{
  rc_string, ce_edition, cut_suffix, segment, compare_from, compare_numeric, compare_ce,
  compare_replaced, compare,
}
use machine.Version.Loop.{
  Decides, compare_from-swap, compare_from_cases, compare_from-same, compare_from-Decides,
  compare_from-smaller, compare_from-zero, segment-past,
}

-- Whether the version names the community edition.
unfoldable pub edition : Text → Bool
edition v = contains ce_edition (replace rc_string (bytes ".") v)

-- The dotted number of a version, split at its dots.
unfoldable pub fields : Text → List Text
fields v =
    let w = replace rc_string (bytes ".") v in
    split b'.' (cut_suffix (if contains ce_edition w then replace ce_edition [] w else w))

unfoldable pub segments : Text → ℕ → ℤ
segments v = segment (fields v)

pub rounds : Text → Text → ℕ
rounds v w =
    if ltb (length (fields v)) (length (fields w)) then length (fields w) else length (fields v)

pub by_segments : Text → Text → ℤ
by_segments v w = compare_from (rounds v w) 0 (segments v) (segments w)

pub compare-eq :
    (v w : Text)
    → compare v w ≡ (
        if edition v && not (edition w)
        then pos 1
        else if not (edition v) && edition w
        then negsuc 0
        else by_segments v w)
unfolding compare compare_replaced compare_ce compare_numeric by_segments segments rounds fields
    edition
compare-eq v w = elim (Bool-cases (contains ce_edition (replace rc_string (bytes ".") v))) [
  | inl p ↦ elim (Bool-cases (contains ce_edition (replace rc_string (bytes ".") w))) [
    | inl q ↦ rw (p, q)
    | inr q ↦ rw (p, q)
  ]
  | inr p ↦ elim (Bool-cases (contains ce_edition (replace rc_string (bytes ".") w))) [
    | inl q ↦ rw (p, q)
    | inr q ↦ rw (p, q)
  ]
]

-- Some segment is smaller in `v`, and all before it are equal.
abbrev pub Precedes : Text → Text → Type 0
Precedes v w = (k : ℕ) × Decides 0 k (segments v) (segments w)

segments-past_left : (v w : Text) (i : ℕ) → rounds v w ≤ i → segments v i ≡ pos 0
unfolding segments rounds
segments-past_left v w i h = segment-past (fields v) i (ground arith)

segments-past_right : (v w : Text) (i : ℕ) → rounds v w ≤ i → segments w i ≡ pos 0
unfolding segments rounds
segments-past_right v w i h = segment-past (fields w) i (ground arith)

pub Precedes-by_segments : (v w : Text) → Precedes v w → by_segments v w ≡ negsuc 0
unfolding by_segments
Precedes-by_segments v w (k, d) =
    compare_from-Decides (rounds v w) 0 k (segments v) (segments w)
      (elim (Bool-cases (ltb k (rounds v w))) [
        | inl inside ↦ ground arith
        | inr past ↦ absurd (not_past (ground arith))
      ])
      d
  where
    not_past : rounds v w ≤ k → ⊥
    not_past h = ground (arith, d.smaller, segments-past_left v w k h, segments-past_right v w k h)

pub by_segments-Precedes : (v w : Text) → by_segments v w ≡ negsuc 0 → Precedes v w
unfolding by_segments
by_segments-Precedes v w h =
    let (k, _, d) = compare_from-smaller (rounds v w) 0 (segments v) (segments w) h in (k, d)

pub by_segments-zero :
    (v w : Text) → by_segments v w ≡ pos 0 → (i : ℕ) → segments v i ≡ segments w i
unfolding by_segments
by_segments-zero v w h i = elim (Bool-cases (ltb i (rounds v w))) [
  | inl inside ↦
      compare_from-zero (rounds v w) 0 (segments v) (segments w) h i (omega arith) (ground arith)
  | inr past ↦
      cc (segments-past_left v w i (ground arith), segments-past_right v w i (ground arith))
]

pub by_segments-same :
    (v w : Text) → ((i : ℕ) → segments v i ≡ segments w i) → by_segments v w ≡ pos 0
unfolding by_segments
by_segments-same v w h = compare_from-same (rounds v w) 0 (segments v) (segments w) (λ j _ _. h j)

pub by_segments-swap : (v w : Text) → by_segments v w ≡ negate (by_segments w v)
unfolding by_segments
by_segments-swap v w =
    let e : rounds v w ≡ rounds w v = (unfold rounds in ground arith) in
    rw e (compare_from-swap (rounds w v) 0 (segments v) (segments w))

by_segments_cases :
    (v w : Text)
    → (by_segments v w ≡ negsuc 0) ⊎ ((by_segments v w ≡ pos 0) ⊎ (by_segments v w ≡ pos 1))
unfolding by_segments
by_segments_cases v w = compare_from_cases (rounds v w) 0 (segments v) (segments w)

-- The rounds that the loop makes do not show: only the segments count.
pub by_segments-congr :
    (v w u : Text) → ((i : ℕ) → segments v i ≡ segments w i) → by_segments v u ≡ by_segments w u
by_segments-congr v w u same = go (by_segments_cases v u)
  where
    all : segments v ≡ segments w
    all = fun_ext same

    go :
        (by_segments v u ≡ negsuc 0) ⊎ ((by_segments v u ≡ pos 0) ⊎ (by_segments v u ≡ pos 1))
        → by_segments v u ≡ by_segments w u
    go (inl h) =
        let less : Precedes w u =
          subst (λ a. (k : ℕ) × Decides 0 k a (segments u)) all (by_segments-Precedes v u h) in
        h ∙ sym (Precedes-by_segments w u less)
    go (inr (inl h)) = h ∙ sym (by_segments-same w u (λ i. sym (same i) ∙ by_segments-zero v u h i))
    go (inr (inr h)) =
        let more : Precedes u w =
          subst (λ a. (k : ℕ) × Decides 0 k (segments u) a) all
            (by_segments-Precedes u v (ground (arith, by_segments-swap u v))) in
        ground (arith, by_segments-swap w u, Precedes-by_segments u w more)

pub compare_cases :
    (v w : Text) → (compare v w ≡ negsuc 0) ⊎ ((compare v w ≡ pos 0) ⊎ (compare v w ≡ pos 1))
compare_cases v w = rw (compare-eq v w) (ground (arith, by_segments_cases v w))
