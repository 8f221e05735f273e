-- ===== src/Version/Order.antt =====
-- The order that the comparison functions of versioncmp define: first the edition, then the
-- numeric segments.
use machine.Base.{
  ◌&&◌, ℕ, ◌≡◌, sym, ◌↔◌, ◌⊎◌, inl, inr, true, false, ◌||◌, ◌∙◌, not, arith, Bool-cases, ltb,
}
use machine.Base.Int.{ℤ, pos, negsuc, negate, ltb_ℤ-trans}
use machine.Text.{Text}
use machine.Version.{
  compare, less_than, less_than_or_equal_to, greater_than, greater_than_or_equal_to, equal,
}
use machine.Version.Segments.{
  edition, segments, Precedes, by_segments, compare-eq, Precedes-by_segments, by_segments-Precedes,
  by_segments-zero, by_segments-same, by_segments-swap, by_segments-congr, compare_cases,
}
use machine.Version.Loop.{Decides}

-- Swapping the arguments negates the answer.
pub compare-swap : (v w : Text) → compare v w ≡ negate (compare w v)
compare-swap v w = rw (compare-eq v w, compare-eq w v) (ground (arith, by_segments-swap v w))

-- What an answer says of the editions and of the comparison by segments.
compare-less :
    (v w : Text)
    → compare v w ≡ negsuc 0
    → (edition v ≡ false) × (edition w ≡ true)
      ⊎ (edition v ≡ edition w) × (by_segments v w ≡ negsuc 0)
compare-less v w h = ground (arith, compare-eq v w)

compare-zero :
    (v w : Text) → compare v w ≡ pos 0 → (edition v ≡ edition w) × (by_segments v w ≡ pos 0)
compare-zero v w h = ground (arith, compare-eq v w)

-- `v` is less than `w` exactly when only `w` is a community edition, or both or neither is and
-- the first segment in which they differ is smaller in `v`.
pub less_than_iff :
    (v w : Text)
    → (less_than v w ≡ true)
      ↔ ((edition v ≡ false) × (edition w ≡ true) ⊎ (edition v ≡ edition w) × Precedes v w)
unfolding less_than
less_than_iff v w = (λ h. forth (compare-less v w (ground arith)), back)
  where
    forth :
        (edition v ≡ false) × (edition w ≡ true)
          ⊎ (edition v ≡ edition w) × (by_segments v w ≡ negsuc 0)
        → (edition v ≡ false) × (edition w ≡ true) ⊎ (edition v ≡ edition w) × Precedes v w
    forth (inl h) = inl h
    forth (inr (e, h)) = inr (e, by_segments-Precedes v w h)

    back :
        (edition v ≡ false) × (edition w ≡ true) ⊎ (edition v ≡ edition w) × Precedes v w
        → less_than v w ≡ true
    back (inl (p, q)) = rw (compare-eq v w) (ground arith)
    back (inr (e, p)) = rw (compare-eq v w) (ground (arith, Precedes-by_segments v w p))

-- Two versions are equal exactly when both or neither is a community edition and all their
-- segments are equal.
pub equal_iff :
    (v w : Text)
    → (equal v w ≡ true) ↔ ((edition v ≡ edition w) × ((i : ℕ) → segments v i ≡ segments w i))
unfolding equal
equal_iff v w = (
  λ h. let (e, z) = compare-zero v w (ground arith) in (e, by_segments-zero v w z),
  λ (e, same). rw (compare-eq v w) (ground (arith, by_segments-same v w same)),
)

-- The five comparisons are the views of one order: exactly one of less, equal and greater holds,
-- the other two are their disjunctions, and greater is less with the arguments swapped.
pub comparisons_agree :
    (v w : Text)
    → (less_than_or_equal_to v w ≡ (less_than v w || equal v w))
      × (greater_than_or_equal_to v w ≡ not (less_than v w))
      × (greater_than v w ≡ not (less_than_or_equal_to v w))
      × (greater_than v w ≡ less_than w v)
      × (equal v w ≡ equal w v)
      × ((less_than v w && equal v w) ≡ false)
unfolding less_than less_than_or_equal_to greater_than greater_than_or_equal_to equal
comparisons_agree v w = ground (arith, compare_cases v w, compare-swap v w)

Decides-trans :
    (a b c : ℕ → ℤ)
    → (k : ℕ) × Decides 0 k a b
    → (k : ℕ) × Decides 0 k b c
    → (k : ℕ) × Decides 0 k a c
Decides-trans a b c (k, p) (m, q) = elim (Bool-cases (ltb k m)) [
  | inl left ↦ (
    k,
    record {
      from = omega arith;
      same = λ j x y. p.same j x y ∙ q.same j x (ground arith);
      smaller = rw (← q.same k (omega arith) (ground arith)) p.smaller;
    },
  )
  | inr right ↦ elim (Bool-cases (ltb m k)) [
    | inl less ↦ (
      m,
      record {
        from = omega arith;
        same = λ j x y. p.same j x (ground arith) ∙ q.same j x y;
        smaller = rw (p.same m (omega arith) (ground arith)) q.smaller;
      },
    )
    | inr other ↦
        let e : m ≡ k = ground arith in
        (
          k,
          record {
            from = omega arith;
            same = λ j x y. p.same j x y ∙ q.same j x (ground arith);
            smaller = ltb_ℤ-trans (a k) (b k) (c k) p.smaller (rw e at q.smaller);
          },
        )
  ]
]

-- Less is transitive.
pub less_than_trans :
    (u v w : Text) → less_than u v ≡ true → less_than v w ≡ true → less_than u w ≡ true
less_than_trans u v w p q =
    (less_than_iff u w).1 (go ((less_than_iff u v).0 p) ((less_than_iff v w).0 q))
  where
    go :
        (edition u ≡ false) × (edition v ≡ true) ⊎ (edition u ≡ edition v) × Precedes u v
        → (edition v ≡ false) × (edition w ≡ true) ⊎ (edition v ≡ edition w) × Precedes v w
        → (edition u ≡ false) × (edition w ≡ true) ⊎ (edition u ≡ edition w) × Precedes u w
    go (inl (a, b)) (inl (c, d)) = inl (a, d)
    go (inl (a, b)) (inr (e, _)) = inl (a, sym e ∙ b)
    go (inr (e, _)) (inl (c, d)) = inl (e ∙ c, d)
    go (inr (e, x)) (inr (f, y)) =
        inr (e ∙ f, Decides-trans (segments u) (segments v) (segments w) x y)

-- Equal versions compare alike with every other version.
pub compare-equal : (v w u : Text) → equal v w ≡ true → compare v u ≡ compare w u
compare-equal v w u h =
    let (e, same) = (equal_iff v w).0 h in
    rw (compare-eq v u, compare-eq w u, e, by_segments-congr v w u same)

-- A community edition is above every version that is none.
pub less_than_or_equal_to-edition :
    (v w : Text) → edition v ≡ true → edition w ≡ false → less_than_or_equal_to v w ≡ false
unfolding less_than_or_equal_to
less_than_or_equal_to-edition v w h k = rw (compare-eq v w) (ground arith)
