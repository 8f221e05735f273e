-- ===== src/Text/Decimal.antt =====
-- `%d` of a Go `int`. Twenty digits hold every number of 64 bits.
use machine.Base.{ℕ, zero, suc, ◌+◌, List, [], ◌∷◌, ◌++◌, ltb, if◌then◌else◌}
use Prim.Native.Nat.{◌/◌, ◌%◌}
use machine.Base.Int.{ℤ, pos, negsuc}

digits : ℕ → ℕ → List ℕ
digits zero n = []
digits (suc fuel) n =
    let rest = digits fuel (n / 10) in
    if ltb n 10 then (48 + n) ∷ [] else rest ++ ((48 + n % 10) ∷ [])

unfoldable pub decimal : ℤ → List ℕ
unfolding digits
decimal (pos n) = digits 20 n
decimal (negsuc n) = b'-' ∷ digits 20 (suc n)
