-- ===== src/Wait/Poll.antt =====
-- The polling loops over a test that cannot fail.
use machine.Base.{ℕ, ◌<◌, ◌≡◌, refl, ap, ◌↔◌, ◌⊎◌, inl, inr, Bool, true, false}
use machine.Base.Exec.{Result, ok, err}
use machine.Errors.{Error, max_retries, Act}
use machine.Wait.{wait_for}
use machine.Wait.Outcome.{
  attempt, Ends, stops, fails, gives_up, Ends-ok, wait_for_specific_or_error-Ends,
  wait_for_specific_or_error-ok_iff,
}

-- A test as a function that returns no error.
abbrev pub no_error : {W : Type 0} → (W → Bool × W) → Act W Bool
no_error f w = let (b, w') = f w in (ok b, w')

ok_inj : {a b : Bool} → ◌≡◌ {A = Result Error Bool} (ok a) (ok b) → a ≡ b
ok_inj e = cc

module _ {W : Type 0} (sleep : ℕ → W → W) (f : W → Bool × W) where
  -- The world of poll `k`, when `wait_for` polls every three seconds.
  pub poll : ℕ → W → W
  poll = attempt sleep 3000 (no_error f)

  -- Poll `k` is the first that says yes, and it is among the first `max`.
  pub record FirstYes (max : ℕ) (w : W) : Type 0 where
    pub at : ℕ
    pub in_time : at < max
    pub before : (j : ℕ) → j < at → (f (poll j w)).0 ≡ false
    pub yes_at : (f (poll at w)).0 ≡ true

  -- `WaitFor` succeeds exactly when one of the first sixty polls says yes.
  pub wait_for-ok_iff : (w : W) → ((wait_for sleep f w).0 ≡ ok tt) ↔ FirstYes 60 w
  unfolding wait_for poll
  wait_for-ok_iff w = (
    λ h.
        let (k, less, before, now) =
          (wait_for_specific_or_error-ok_iff sleep 3000 (no_error f) 60 w).0 h in
        record { at = k; in_time = less; before = λ j l. ok_inj (before j l); yes_at = ok_inj now },
    λ y.
        (wait_for_specific_or_error-ok_iff sleep 3000 (no_error f) 60 w).1
          (y.at, y.in_time, λ j l. ap ok (y.before j l), ap ok y.yes_at),
  )

  -- Then nothing happens after that poll.
  pub wait_for-world :
      (w : W)
      → (wait_for sleep f w).0 ≡ ok tt
      → (v : W) × ((f v).0 ≡ true) × ((wait_for sleep f w).1 ≡ (f v).1)
  unfolding wait_for
  wait_for-world w h =
      let (k, _, _, now, e) =
        Ends-ok sleep 3000 (no_error f) 60 60 w
          (wait_for_specific_or_error-Ends sleep 3000 (no_error f) 60 w) h in
      (attempt sleep 3000 (no_error f) k w, ok_inj now, e)

  -- `WaitFor` succeeds, or fails with the error that tells its sixty attempts; it has no other error.
  pub wait_for_cases :
      (w : W) → ((wait_for sleep f w).0 ≡ ok tt) ⊎ ((wait_for sleep f w).0 ≡ err (max_retries 60))
  unfolding wait_for
  wait_for_cases w = go (wait_for_specific_or_error-Ends sleep 3000 (no_error f) 60 w)
    where
      go :
          {r : Result Error (Unit {0}) × W}
          → Ends sleep 3000 (no_error f) 60 60 w r
          → (r.0 ≡ ok tt) ⊎ (r.0 ≡ err (max_retries 60))
      go (stops k less before now) = inl refl
      go (fails k e less before now) = cc
      go (gives_up before) = inr refl
