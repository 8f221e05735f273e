-- ===== src/Wait/Outcome.antt =====
-- What the polling loop returns, by the answers of its attempts.
use machine.Base.{ℕ, zero, suc, ◌<◌, ◌≡◌, refl, ap, ◌⊎◌, inl, inr, ◌↔◌, Bool, true, false, arith}
use machine.Base.Exec.{Result, ok, err}
use machine.Errors.{Error, max_retries, Act}
use machine.Wait.{wait_from, wait_for_specific_or_error}

trichotomy : (j k : ℕ) → (j < k) ⊎ ((j ≡ k) ⊎ (k < j))
trichotomy j k = ground arith

module _ {W : Type 0} (sleep : ℕ → W → W) (interval : ℕ) (f : Act W Bool) where
  -- The world in which attempt `k` is made, if none before it ended the loop.
  pub attempt : ℕ → W → W
  attempt zero w = w
  attempt (suc k) w = attempt k (sleep interval (f w).1)

  abbrev pub answer : ℕ → W → Result Error Bool
  answer k w = (f (attempt k w)).0

  -- The attempts before `n` all said no.
  abbrev pub AllNo : ℕ → W → Type 0
  AllNo n w = (k : ℕ) → k < n → answer k w ≡ ok false

  AllNo-tail : (n : ℕ) (w : W) → AllNo (suc n) w → AllNo n (sleep interval (f w).1)
  unfolding attempt
  AllNo-tail n w h k less = h (suc k) (omega arith)

  AllNo-cons :
      (n : ℕ) (w : W) → (f w).0 ≡ ok false → AllNo n (sleep interval (f w).1) → AllNo (suc n) w
  unfolding attempt
  AllNo-cons n w e h zero less = e
  AllNo-cons n w e h (suc k) less = h k (omega arith)

  -- How a loop of `n` rounds can end: an attempt said yes, one failed, or all said no.
  pub data Ends (n max : ℕ) (w : W) : Result Error (Unit {0}) × W → Type 0 where
    stops :
        (k : ℕ)
        → k < n
        → AllNo k w
        → answer k w ≡ ok true
        → Ends n max w (ok tt, (f (attempt k w)).1)
    fails :
        (k : ℕ) (e : Error)
        → k < n
        → AllNo k w
        → answer k w ≡ err e
        → Ends n max w (err e, (f (attempt k w)).1)
    gives_up : AllNo n w → Ends n max w (err (max_retries max), attempt n w)

  Ends-later :
      (n max : ℕ) (w : W) {r : Result Error (Unit {0}) × W}
      → (f w).0 ≡ ok false
      → Ends n max (sleep interval (f w).1) r
      → Ends (suc n) max w r
  unfolding attempt
  Ends-later n max w no_yet (stops k less before yes_now) =
      stops (suc k) (omega arith) (AllNo-cons k w no_yet before) yes_now
  Ends-later n max w no_yet (fails k e less before now) =
      fails (suc k) e (omega arith) (AllNo-cons k w no_yet before) now
  Ends-later n max w no_yet (gives_up before) = gives_up (AllNo-cons n w no_yet before)

  wait_from-Ends : (n max : ℕ) (w : W) → Ends n max w (wait_from sleep n max interval f w)
  unfolding wait_from attempt
  wait_from-Ends zero max w = gives_up (λ k less. absurd (omega arith))
  wait_from-Ends (suc n) max w = go (f w).0 refl (wait_from-Ends n max (sleep interval (f w).1))
    where
      go :
          (r : Result Error Bool)
          → (f w).0 ≡ r
          → Ends n max
              (sleep interval (f w).1)
              (wait_from sleep n max interval f (sleep interval (f w).1))
          → Ends (suc n) max w (wait_from sleep (suc n) max interval f w)
      go (ok true) e rest =
          rw (e, wait_from) (stops 0 (omega arith) (λ k less. absurd (omega arith)) e)
      go (ok false) e rest = rw (e, wait_from) (Ends-later n max w e rest)
      go (err x) e rest =
          rw (e, wait_from) (fails 0 x (omega arith) (λ k less. absurd (omega arith)) e)

  pub Ends-ok :
      (n max : ℕ) (w : W) {r : Result Error (Unit {0}) × W}
      → Ends n max w r
      → r.0 ≡ ok tt
      → (k : ℕ) × (k < n) × AllNo k w × (answer k w ≡ ok true) × (r.1 ≡ (f (attempt k w)).1)
  Ends-ok n max w (stops k less before now) h = (k, less, before, now, refl)
  Ends-ok n max w (fails k e less before now) h = cc
  Ends-ok n max w (gives_up before) h = cc

  -- The first attempt that says yes ends the loop, and nothing else ended it before.
  Ends-yes :
      (n max : ℕ) (w : W) {r : Result Error (Unit {0}) × W}
      → Ends n max w r
      → (k : ℕ) → k < n
      → AllNo k w
      → answer k w ≡ ok true
      → r.0 ≡ ok tt
  Ends-yes n max w (stops j _ _ _) k less before now = refl
  Ends-yes n max w (fails j e less_j before_j now_j) k less before now =
      absurd (clash (trichotomy j k))
    where
      clash : (j < k) ⊎ ((j ≡ k) ⊎ (k < j)) → ⊥
      clash (inl a) = cc (before j a, now_j)
      clash (inr (inl a)) = cc (ap (λ i. answer i w) a, now, now_j)
      clash (inr (inr a)) = cc (before_j k a, now)
  Ends-yes n max w (gives_up before_n) k less before now = cc (before_n k less, now)

  -- `WaitForSpecificOrError` ends in one of three ways: at the first attempt that says yes, at
  -- the first that fails, with its error, or after `max` attempts that all said no, with the
  -- error that tells `max`. The world is then the one which the last attempt left, or the sleep
  -- after it.
  pub wait_for_specific_or_error-Ends :
      (max : ℕ) (w : W) → Ends max max w (wait_for_specific_or_error sleep f max interval w)
  unfolding wait_for_specific_or_error
  wait_for_specific_or_error-Ends max w = wait_from-Ends max max w

  -- `WaitForSpecificOrError` succeeds exactly when one of its `max` attempts says yes and all
  -- before it said no.
  pub wait_for_specific_or_error-ok_iff :
      (max : ℕ) (w : W)
      → ((wait_for_specific_or_error sleep f max interval w).0 ≡ ok tt)
        ↔ ((k : ℕ) × (k < max) × AllNo k w × (answer k w ≡ ok true))
  wait_for_specific_or_error-ok_iff max w = (
    λ h.
        let (k, less, before, now, _) =
          Ends-ok max max w (wait_for_specific_or_error-Ends max w) h in
        (k, less, before, now),
    λ (k, less, before, now).
        Ends-yes max max w (wait_for_specific_or_error-Ends max w) k less before now,
  )
