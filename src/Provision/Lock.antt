-- ===== src/Provision/Lock.antt =====
-- libmachine/provision/utils.go, waitForLock: a command that is tried again while the lock of the
-- package manager is held.
use machine.Base.{
  ℕ, ◌≡◌, refl, sym, ap, ◌∙◌, ◌⊎◌, inl, inr, Bool, true, false, Option, none, some, if◌then◌else◌,
}
use machine.Base.Exec.{Result, ok, err, map_err, map_err-ok}
use machine.Text.{Text, bytes, contains}
use machine.Errors.{Error, wrapped, command_failed, Act}
use machine.Wait.{wait_for}
use machine.Wait.Poll.{wait_for-world}
use machine.Provision.{Provisioner}

-- `error_text` is the method `Error` of the errors.
module _ {W : Type 0} (sleep : ℕ → W → W) (error_text : Error → Text) (p : Provisioner W)
    (cmd : Text) where
  -- The sleep leaves the variable `sshErr` alone.
  abbrev pub sleep_beside : ℕ → W × Option Error → W × Option Error
  sleep_beside ms (w, ssh_err) = (sleep ms w, ssh_err)

  -- What the closure makes of the result of the command: whether to stop, and `sshErr`.
  unfoldable pub judge : Result Error Text → Bool × Option Error
  judge (ok out) = (true, none)
  judge (err e) =
      if contains (bytes "Could not get lock") (error_text e) then (false, none) else (true, some e)

  unfoldable pub try_command : W × Option Error → Bool × (W × Option Error)
  unfolding judge
  try_command (w, _) =
      let (r, w') = p.ssh_command cmd w in let (stop, ssh_err) = judge r in (stop, (w', ssh_err))

  -- `sshErr` goes before the error of the loop.
  unfoldable pub lock_result : Option Error → Result Error (Unit {0}) → Result Error (Unit {0})
  lock_result (some e) r = err (command_failed cmd e)
  lock_result none r = map_err (wrapped "Failed to obtain lock: ") r

  unfoldable pub wait_for_lock : Act W (Unit {0})
  unfolding try_command lock_result
  wait_for_lock w =
      let (r, (w', ssh_err)) = wait_for sleep_beside try_command (w, none) in
      (lock_result ssh_err r, w')

  judged :
      (r : Result Error Text)
      → (judge r).0 ≡ true
      → ((out : Text) × (r ≡ ok out)) ⊎ ((e : Error) × ((judge r).1 ≡ some e))
  unfolding judge
  judged (ok out) h = inl (out, refl)
  judged (err e) h = inr (e, go (contains (bytes "Could not get lock") (error_text e)) h)
    where
      go :
          (busy : Bool)
          → let judgement : Bool × Option Error = if busy then (false, none) else (true, some e) in
            judgement.0 ≡ true → judgement.1 ≡ some e
      go true h = cc
      go false h = refl

  lock_result-ok :
      (ssh_err : Option Error) (r : Result Error (Unit {0}))
      → lock_result ssh_err r ≡ ok tt
      → (ssh_err ≡ none) × (r ≡ ok tt)
  unfolding lock_result
  lock_result-ok (some x) r e = cc
  lock_result-ok none r e = (refl, map_err-ok (wrapped "Failed to obtain lock: ") r tt e)

  -- When `waitForLock` returns no error, the last thing that happened is that the command succeeded.
  pub wait_for_lock-done :
      (w : W)
      → (wait_for_lock w).0 ≡ ok tt
      → (v : W) × (out : Text) × (p.ssh_command cmd v ≡ (ok out, (wait_for_lock w).1))
  unfolding wait_for_lock try_command
  wait_for_lock-done w e =
      let (no_error, done) = lock_result-ok loop.1.1 loop.0 e in
      let (v, stopped, there) = wait_for-world sleep_beside try_command (w, none) done in
      let (out, answered) = answer v there no_error (judged (p.ssh_command cmd v.0).0 stopped) in
      (v.0, out, answered)
    where
      loop : Result Error (Unit {0}) × (W × Option Error)
      loop = wait_for sleep_beside try_command (w, none)

      answer :
          (v : W × Option Error)
          → loop.1 ≡ (try_command v).1
          → loop.1.1 ≡ none
          → ((out : Text) × ((p.ssh_command cmd v.0).0 ≡ ok out))
            ⊎ ((x : Error) × ((judge (p.ssh_command cmd v.0).0).1 ≡ some x))
          → (out : Text) × (p.ssh_command cmd v.0 ≡ (ok out, loop.1.0))
      answer v there no_error (inl (out, said)) = (
        out,
        ap (λ r. (r, (p.ssh_command cmd v.0).1)) said
            ∙ ap {A = W} (λ u. (ok out, u)) (sym (ap (λ u. u.0) there)),
      )
      answer v there no_error (inr (x, failed)) =
          let clash : none ≡ some x = sym no_error ∙ ap (λ u. u.1) there ∙ failed in cc
