-- ===== src/Version/Loop.antt =====
-- The loop of `compareNumeric`: it returns what the first segment that differs decides.
use machine.Base.{
  ℕ, zero, suc, ◌+◌, ◌≤◌, ◌<◌, ◌≡◌, ◌⊎◌, refl, inl, inr, true, false, arith, Bool-cases, ltb, List,
  length, get_elem?-past,
}
use machine.Base.Int.{ℤ, pos, negsuc, negate, ltb_ℤ, ltb_ℤ-asymm, ltb_ℤ-tight}
use machine.Text.{Text}
use machine.Version.{segment, compare_from}

-- Segment `k` decides, and those from `i` up to it are equal.
pub record Decides (i k : ℕ) (a b : ℕ → ℤ) : Type 0 where
  pub from : i ≤ k
  pub same : (j : ℕ) → i ≤ j → j < k → a j ≡ b j
  pub smaller : ltb_ℤ (a k) (b k) ≡ true

pub compare_from-swap :
    (n i : ℕ) (a b : ℕ → ℤ) → compare_from n i a b ≡ negate (compare_from n i b a)
unfolding compare_from
compare_from-swap zero i a b = ground arith
compare_from-swap (suc n) i a b =
    ground (arith, compare_from-swap n (i + 1) a b, ltb_ℤ-asymm (a i) (b i))

pub compare_from_cases :
    (n i : ℕ) (a b : ℕ → ℤ)
    → (compare_from n i a b ≡ negsuc 0)
      ⊎ ((compare_from n i a b ≡ pos 0) ⊎ (compare_from n i a b ≡ pos 1))
unfolding compare_from
compare_from_cases zero i a b = inr (inl refl)
compare_from_cases (suc n) i a b = ground (arith, compare_from_cases n (i + 1) a b)

pub compare_from-same :
    (n i : ℕ) (a b : ℕ → ℤ)
    → ((j : ℕ) → i ≤ j → j < i + n → a j ≡ b j)
    → compare_from n i a b ≡ pos 0
unfolding compare_from
compare_from-same zero i a b h = ground arith
compare_from-same (suc n) i a b h = ground (
  arith,
  h i (omega arith) (omega arith),
  compare_from-same n (i + 1) a b (λ j p q. h j (omega arith) (omega arith)),
)

pub compare_from-Decides :
    (n i k : ℕ) (a b : ℕ → ℤ) → k < i + n → Decides i k a b → compare_from n i a b ≡ negsuc 0
unfolding compare_from
compare_from-Decides zero i k a b h d = absurd (omega (arith, d.from))
compare_from-Decides (suc n) i k a b h d = elim (Bool-cases (ltb i k)) [
  | inl later ↦ ground (
    arith,
    d.same i (omega arith) (ground arith),
    compare_from-Decides n (i + 1) k a b (omega arith) (record {
      from = ground arith;
      same = λ j p q. d.same j (omega arith) q;
      smaller = d.smaller;
    }),
  )
  | inr now ↦
      let e : k ≡ i = ground (arith, d.from) in
      let s : ltb_ℤ (a i) (b i) ≡ true = rw e at d.smaller in
      ground (arith, ltb_ℤ-asymm (a i) (b i))
]

Decides-earlier : (i k : ℕ) (a b : ℕ → ℤ) → a i ≡ b i → Decides (i + 1) k a b → Decides i k a b
Decides-earlier i k a b e d = record {
  from = omega (arith, d.from);
  same = λ j p q. elim (Bool-cases (ltb i j)) [
    | inl later ↦ d.same j (ground arith) q
    | inr now ↦ let e' : j ≡ i = ground arith in rw e' e
  ];
  smaller = d.smaller;
}

-- What the loop answers is so.
pub compare_from-smaller :
    (n i : ℕ) (a b : ℕ → ℤ)
    → compare_from n i a b ≡ negsuc 0
    → (k : ℕ) × (k < i + n) × Decides i k a b
unfolding compare_from
compare_from-smaller zero i a b h = cc
compare_from-smaller (suc n) i a b h = elim (Bool-cases (ltb_ℤ (a i) (b i))) [
  | inl less ↦ (
    i,
    omega arith,
    record { from = omega arith; same = λ j p q. absurd (omega arith); smaller = less },
  )
  | inr not_less ↦
      let not_more : ltb_ℤ (b i) (a i) ≡ false = elim (Bool-cases (ltb_ℤ (b i) (a i))) [
        | inl more ↦ absurd (ground arith)
        | inr e ↦ e
      ] in
      let (k, bound, d) = compare_from-smaller n (i + 1) a b (ground arith) in
      (k, omega arith, Decides-earlier i k a b (ltb_ℤ-tight (a i) (b i) not_less not_more) d)
]

pub compare_from-zero :
    (n i : ℕ) (a b : ℕ → ℤ) → compare_from n i a b ≡ pos 0 → (j : ℕ) → i ≤ j → j < i + n → a j ≡ b j
unfolding compare_from
compare_from-zero zero i a b h j p q = absurd (omega arith)
compare_from-zero (suc n) i a b h j p q = elim (Bool-cases (ltb i j)) [
  | inl later ↦ compare_from-zero n (i + 1) a b (ground arith) j (ground arith) (omega arith)
  | inr now ↦
      let e : j ≡ i = ground arith in rw e (ltb_ℤ-tight (a i) (b i) (ground arith) (ground arith))
]

-- Past its end a version has the segments 0.
pub segment-past : (tab : List Text) (i : ℕ) → length tab ≤ i → segment tab i ≡ pos 0
unfolding segment
segment-past tab i h = rw (get_elem?-past tab i h, segment)
