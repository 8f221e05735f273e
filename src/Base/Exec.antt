-- ===== src/Base/Exec.antt =====
-- Go functions that return `(T, error)` and act on the world: the world comes back beside the
-- error too, since what was done before a failure stays done.

use mathlib.Core.Path.{◌≡◌, refl, ap}
use mathlib.Core.Logic.{◌↔◌}
use mathlib.Core.Option.{some}

pub data Result {ℓ} (E : Type ℓ) (A : Type ℓ) : Type ℓ where
  ok : A → Result E A
  err : E → Result E A

abbrev pub Exec {ℓ} : Type ℓ → Type ℓ → Type ℓ → Type ℓ
Exec W E A = W → Result E A × W

module _ {ℓ} {W E A : Type ℓ} where
  abbrev pub pure : A → Exec W E A
  pure a w = (ok a, w)

  abbrev pub raise : E → Exec W E A
  raise e w = (err e, w)

module _ {ℓ} {W E A B : Type ℓ} where
  abbrev pub continue : Result E A → (A → Exec W E B) → Exec W E B
  continue (ok a) f w = f a w
  continue (err e) f w = (err e, w)

  infixl 5 ◌>>=◌
  abbrev pub ◌>>=◌ : Exec W E A → (A → Exec W E B) → Exec W E B
  ◌>>=◌ m f w = let (r, w') = m w in continue r f w'

  infixl 5 ◌>>◌
  abbrev pub ◌>>◌ : Exec W E A → Exec W E B → Exec W E B
  m >> n = m >>= λ _. n

abbrev pub map_err {ℓ} : {E A : Type ℓ} → (E → E) → Result E A → Result E A
map_err f (ok a) = ok a
map_err f (err e) = err (f e)

module _ {ℓ} {W E A : Type ℓ} where
  -- `if err != nil { return wrap(err) }`
  abbrev pub map_error : (E → E) → Exec W E A → Exec W E A
  map_error f m w = let (r, w') = m w in (map_err f r, w')

module _ {W E : Type 0} where
  continue-ok_iff :
      (r : Result E (Unit {0})) (n : Exec W E (Unit {0})) (w : W)
      → ((continue r (λ _. n) w).0 ≡ ok tt) ↔ ((r ≡ ok tt) × ((n w).0 ≡ ok tt))
  continue-ok_iff (ok u) n w = (λ h. (refl, h), λ (_, h). h)
  continue-ok_iff (err e) n w = (λ h. cc, λ (h, _). cc)

  -- A chain succeeds exactly when both of its parts do.
  pub then-ok_iff :
      (m n : Exec W E (Unit {0})) (w : W)
      → (((m >> n) w).0 ≡ ok tt) ↔ (((m w).0 ≡ ok tt) × ((n (m w).1).0 ≡ ok tt))
  then-ok_iff m n w = continue-ok_iff (m w).0 n (m w).1

  pub then-ok : (m n : Exec W E (Unit {0})) (w : W) → (m w).0 ≡ ok tt → (m >> n) w ≡ n (m w).1
  then-ok m n w h = ap (λ r. continue r (λ _. n) (m w).1) h

  -- A failing part ends the chain, in the world that it leaves.
  pub then-err :
      (m n : Exec W E (Unit {0})) (w : W) {e : E} → (m w).0 ≡ err e → (m >> n) w ≡ (err e, (m w).1)
  then-err m n w h = ap (λ r. continue r (λ _. n) (m w).1) h

module _ {W E A B : Type 0} where
  continue-inverse :
      (r : Result E A) (f : A → Exec W E B) (w : W) (b : B)
      → (continue r f w).0 ≡ ok b
      → (a : A) × (r ≡ ok a) × (continue r f w ≡ f a w)
  continue-inverse (ok a) f w b h = (a, refl, refl)
  continue-inverse (err e) f w b h = cc

  -- A chain that succeeds has come through its first part.
  pub bind-inverse :
      (m : Exec W E A) (f : A → Exec W E B) (w : W) (b : B)
      → ((m >>= f) w).0 ≡ ok b
      → (a : A) × ((m w).0 ≡ ok a) × ((m >>= f) w ≡ f a (m w).1)
  bind-inverse m f w b h = continue-inverse (m w).0 f (m w).1 b h

  -- The same, with the success of what follows.
  pub bind-parts :
      (m : Exec W E A) (f : A → Exec W E B) (w : W) (b : B)
      → ((m >>= f) w).0 ≡ ok b
      → (a : A) × ((m w).0 ≡ ok a) × ((f a (m w).1).0 ≡ ok b)
  bind-parts m f w b h = go (m w).0 refl h
    where
      go :
          (r : Result E A)
          → (m w).0 ≡ r
          → (continue r f (m w).1).0 ≡ ok b
          → (a : A) × ((m w).0 ≡ ok a) × ((f a (m w).1).0 ≡ ok b)
      go (ok a) e k = (a, e, k)
      go (err e) same k = cc

module _ {E A : Type 0} where
  -- An error that is wrapped stays an error.
  pub map_err-ok : (f : E → E) (r : Result E A) (a : A) → map_err f r ≡ ok a → r ≡ ok a
  map_err-ok f (ok b) a h = h
  map_err-ok f (err e) a h = cc

pub ok-injective : {E A : Type 0} {a b : A} → ◌≡◌ {A = Result E A} (ok a) (ok b) → a ≡ b
ok-injective h = cc

pub some-injective : {A : Type 0} {a b : A} → some a ≡ some b → a ≡ b
some-injective h = cc

pub err-injective : {E A : Type 0} {a b : E} → ◌≡◌ {A = Result E A} (err a) (err b) → a ≡ b
err-injective h = cc
