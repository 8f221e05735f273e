-- ===== src/Base/Shuffle.antt =====
-- The orders that a list of numbers picks for the elements of another list.
use Prim.Native.Nat.{ℕ, zero, suc}
use mathlib.Core.Path.{refl}
use mathlib.Core.List.{List, [], ◌∷◌, Permᴰ}
use mathlib.Core.List.Permᴰ

module _ {A : Type 0} where
  abbrev pub insert_at : ℕ → A → List A → List A
  insert_at zero x xs = x ∷ xs
  insert_at (suc n) x [] = x ∷ []
  insert_at (suc n) x (y ∷ xs) = y ∷ insert_at n x xs

  -- Each element is put at the place that its number names, among those behind it. Elements without a
  -- number stay where they are.
  unfoldable pub shuffle : List ℕ → List A → List A
  shuffle [] xs = xs
  shuffle (n ∷ places) [] = []
  shuffle (n ∷ places) (x ∷ xs) = insert_at n x (shuffle places xs)

  insert_at-Permᴰ : (n : ℕ) (x : A) (xs : List A) → Permᴰ (insert_at n x xs) (x ∷ xs)
  insert_at-Permᴰ zero x xs = Permᴰ.refl (x ∷ xs)
  insert_at-Permᴰ (suc n) x [] = Permᴰ.refl (x ∷ [])
  insert_at-Permᴰ (suc n) x (y ∷ xs) =
      Permᴰ.trans (Permᴰ.cons refl (insert_at-Permᴰ n x xs)) (Permᴰ.swap refl refl)

  -- No element is lost and none comes twice.
  pub shuffle-Permᴰ : (places : List ℕ) (xs : List A) → Permᴰ (shuffle places xs) xs
  unfolding shuffle
  shuffle-Permᴰ [] xs = Permᴰ.refl xs
  shuffle-Permᴰ (n ∷ places) [] = Permᴰ.refl []
  shuffle-Permᴰ (n ∷ places) (x ∷ xs) =
      Permᴰ.trans (insert_at-Permᴰ n x (shuffle places xs))
        (Permᴰ.cons refl (shuffle-Permᴰ places xs))
