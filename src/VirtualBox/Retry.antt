-- ===== src/VirtualBox/Retry.antt =====
-- How often vbmOutErr of drivers/virtualbox/vbm.go runs a command, and which run it reports.
use machine.Base.{
  ℕ, zero, suc, ◌<◌, ◌≡◌, refl, sym, ap, subst, ◌⊎◌, inl, inr, Bool, true, false, none, List, arith,
  Bool-cases,
}
use machine.Text.{Text, contains}
use machine.Errors.{Error}
use machine.VirtualBox.{
  RunError, Ran, object_not_ready, error_mark, judge, vbm_out_err_retry, vbm_out_err,
}

module _ {W : Type 0} (vbox_manage_cmd : Text) (run_cmd : List Text → W → Ran RunError × W)
    (sleep : ℕ → W → W) (args : List Text) where
  -- The world once the command has run `k` times, with a pause behind each run.
  abbrev pub retried : ℕ → W → W
  retried zero w = w
  retried (suc k) w = retried k (sleep 100 (run_cmd args w).1)

  abbrev pub is_not_ready : W → Bool
  is_not_ready w = contains object_not_ready (run_cmd args w).0.stderr

  -- The run that is reported: the `k`-th, counted from 0, every one before it having found the
  -- object not ready, unless that is the last one allowed.
  pub record Reports (allowed : ℕ) (w : W) (r : Ran Error × W) : Type 0 where
    pub k : ℕ
    pub in_time : k < allowed
    pub reported : r ≡ (
      judge vbox_manage_cmd run_cmd sleep args (run_cmd args (retried k w)).0,
      (run_cmd args (retried k w)).1,
    )
    pub not_before : (j : ℕ) → j < k → is_not_ready (retried j w) ≡ true
    pub settled : (is_not_ready (retried k w) ≡ false) ⊎ (suc k ≡ allowed)

  ready_now :
      (n : ℕ) (w : W)
      → is_not_ready w ≡ false
      → Reports
          (suc n)
          w
          (judge vbox_manage_cmd run_cmd sleep args (run_cmd args w).0, (run_cmd args w).1)
  ready_now n w h = record {
    k = 0;
    in_time = omega arith;
    reported = refl;
    not_before = λ j lt. absurd (omega arith);
    settled = inl h;
  }

  later :
      (n : ℕ) (w : W) (r : Ran Error × W)
      → is_not_ready w ≡ true
      → Reports n (sleep 100 (run_cmd args w).1) r
      → Reports (suc n) w r
  later n w r h s = record {
    k = suc s.k;
    in_time = omega (arith, s.in_time);
    reported = s.reported;
    not_before = before;
    settled = elim s.settled [ inl ready ↦ inl ready | inr last ↦ inr (ap suc last) ];
  }
    where
      before : (j : ℕ) → j < suc s.k → is_not_ready (retried j w) ≡ true
      before zero lt = h
      before (suc j) lt = s.not_before j (omega arith)

  vbm_out_err_retry-Reports :
      (n : ℕ) (w : W)
      → Reports (suc n) w (vbm_out_err_retry vbox_manage_cmd run_cmd sleep (suc n) args w)
  unfolding vbm_out_err_retry
  vbm_out_err_retry-Reports zero w = record {
    k = 0;
    in_time = omega arith;
    reported = refl;
    not_before = λ j lt. absurd (omega arith);
    settled = inr refl;
  }
  vbm_out_err_retry-Reports (suc n) w = elim (Bool-cases (is_not_ready w)) [
    | inl waits ↦
        rw (waits, vbm_out_err_retry)
          (later (suc n) w _ waits (vbm_out_err_retry-Reports n (sleep 100 (run_cmd args w).1)))
    | inr ready ↦ rw (ready, vbm_out_err_retry) (ready_now (suc n) w ready)
  ]

  -- A command is run at most five times: what is reported is the judged outcome of one of five runs,
  -- each run before it found the object not ready, and it is itself the fifth unless it found the
  -- object ready.
  pub vbm_out_err-Reports : (w : W) → Reports 5 w (vbm_out_err vbox_manage_cmd run_cmd sleep args w)
  unfolding vbm_out_err
  vbm_out_err-Reports w = vbm_out_err_retry-Reports 4 w

  judge-clean :
      (ran : Ran RunError)
      → (judge vbox_manage_cmd run_cmd sleep args ran).failure ≡ none
      → contains error_mark ran.stderr ≡ false
  unfolding judge
  judge-clean ran h = ground arith

  -- A command that reports no error has written no text "error:" to its standard error, whatever its
  -- exit status was.
  pub vbm_out_err-clean :
      (w : W)
      → (vbm_out_err vbox_manage_cmd run_cmd sleep args w).0.failure ≡ none
      → contains error_mark (vbm_out_err vbox_manage_cmd run_cmd sleep args w).0.stderr ≡ false
  unfolding judge
  vbm_out_err-clean w h =
      let s = vbm_out_err-Reports w in
      subst {A = Ran Error × W} (λ r. r.0.failure ≡ none → contains error_mark r.0.stderr ≡ false)
        (sym s.reported) (judge-clean (run_cmd args (retried s.k w)).0) h
