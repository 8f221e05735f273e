-- ===== src/Wait.antt =====
-- The polling loops of libmachine/mcnutils/utils.go. What `time.Sleep` lets happen is the parameter
-- `sleep`, over milliseconds.
pub mod Outcome
pub mod Poll
use machine.Base.{ℕ, zero, suc, Bool, true, false}
use machine.Base.Exec.{ok, err}
use machine.Errors.{max_retries, Act}

module _ {W : Type 0} (sleep : ℕ → W → W) where
  -- The loop, with `rounds` of its `max_attempts` iterations left.
  unfoldable pub wait_from : (rounds max_attempts wait_interval : ℕ) → Act W Bool → Act W (Unit {0})
  wait_from zero max_attempts wait_interval f w = (err (max_retries max_attempts), w)
  wait_from (suc rounds) max_attempts wait_interval f w =
      let (r, w') = f w in
      elim r [
        | ok stop ↦ elim stop [
          | true ↦ (ok tt, w')
          | false ↦ wait_from rounds max_attempts wait_interval f (sleep wait_interval w')
        ]
        | err e ↦ (err e, w')
      ]

  unfoldable pub wait_for_specific_or_error :
      Act W Bool → (max_attempts wait_interval : ℕ) → Act W (Unit {0})
  wait_for_specific_or_error f max_attempts wait_interval =
      wait_from max_attempts max_attempts wait_interval f

  unfoldable pub wait_for_specific :
      (W → Bool × W) → (max_attempts wait_interval : ℕ) → Act W (Unit {0})
  unfolding wait_for_specific_or_error
  wait_for_specific f = wait_for_specific_or_error (λ w. let (b, w') = f w in (ok b, w'))

  unfoldable pub wait_for : (W → Bool × W) → Act W (Unit {0})
  unfolding wait_for_specific
  wait_for f = wait_for_specific f 60 3000
