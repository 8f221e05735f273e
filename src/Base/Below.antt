-- ===== src/Base/Below.antt =====
-- Over a small range, every value is checked by evaluation.
use Prim.Native.Nat.{ℕ, zero, suc, ◌<◌}
use mathlib.Core.Path.{◌≡◌}
use mathlib.Core.Bool.{Bool, true, ◌&&◌}
use native.Mathlib.Omega.{arith}

abbrev pub all_below : ℕ → (ℕ → Bool) → Bool
all_below zero p = true
all_below (suc n) p = p n && all_below n p

pub all_below_sound : (n : ℕ) (p : ℕ → Bool) (x : ℕ) → all_below n p ≡ true → x < n → p x ≡ true
all_below_sound zero p x h lt = absurd (omega arith)
all_below_sound (suc n) p x h lt = ground (arith, all_below_sound n p x)

pub all_below_both :
    (n m : ℕ) (p : ℕ → ℕ → Bool) (k x : ℕ)
    → all_below n (λ k. all_below m (p k)) ≡ true
    → k < n
    → x < m
    → p k x ≡ true
all_below_both n m p k x h hk hx =
    all_below_sound m (p k) x (all_below_sound n (λ k. all_below m (p k)) k h hk) hx
