-- ===== src/Tests/Wait.antt =====
-- The polling loops at concrete inputs: libmachine/mcnutils/utils_test.go.
use machine.Base.{ℕ, ◌+◌, ◌<◌, leb, ◌≡◌, refl, ◌↔◌, Bool, true}
use machine.Base.Exec.{ok, err}
use machine.Text.{bytes}
use machine.Errors.{message, max_retries, Act}
use machine.Wait.{wait_from, wait_for_specific_or_error}
use machine.Wait.Outcome.{
  AllNo, answer, Ends, wait_for_specific_or_error-Ends, wait_for_specific_or_error-ok_iff,
}

-- A clock in milliseconds.
abbrev tick : ℕ → ℕ → ℕ
tick ms now = now + ms

abbrev late_enough : ℕ → ℕ → Bool × ℕ
late_enough at now = (leb at now, now)

abbrev tested : ℕ → Act ℕ Bool
tested at now = (ok (leb at now), now)

abbrev broken : Act ℕ Bool
broken now = (err (message (bytes "no")), now)

third_attempt : wait_for_specific_or_error tick (tested 20) 5 10 0 ≡ (ok tt, 20)
unfolding wait_for_specific_or_error wait_from
third_attempt = refl

out_of_attempts : wait_for_specific_or_error tick (tested 20) 2 10 0 ≡ (err (max_retries 2), 20)
unfolding wait_for_specific_or_error wait_from
out_of_attempts = refl

stops_at_error : wait_for_specific_or_error tick broken 5 10 0 ≡ (err (message (bytes "no")), 0)
unfolding wait_for_specific_or_error wait_from
stops_at_error = refl

wait_for_specific_or_error-Ends_example :
    Ends tick 10 (tested 20) 5 5 0 (wait_for_specific_or_error tick (tested 20) 5 10 0)
wait_for_specific_or_error-Ends_example = wait_for_specific_or_error-Ends tick 10 (tested 20) 5 0

wait_for_specific_or_error-ok_iff_example :
    ((wait_for_specific_or_error tick (tested 20) 5 10 0).0 ≡ ok tt) ↔ (
      (k : ℕ) × (k < 5)
      × AllNo tick 10 (tested 20) k 0
      × (answer tick 10 (tested 20) k 0 ≡ ok true))
wait_for_specific_or_error-ok_iff_example =
    wait_for_specific_or_error-ok_iff tick 10 (tested 20) 5 0
