-- ===== src/VirtualBox/Machine/Stopping.antt =====
-- That Stop of drivers/virtualbox/virtualbox.go ends, whose loop has no bound.
use machine.Base.{
  ℕ, zero, suc, ◌≤◌, ◌<◌, ◌≡◌, ◌≢◌, refl, sym, ap, ◌∙◌, subst, inl, inr, true, false, Bool-cases,
  arith, if◌then◌else◌,
}
use machine.Base.Int.{eqb_ℤ, eqb_ℤ_eq, eqb_ℤ_refl}
use machine.Base.Exec.{Result, ok, err}
use machine.Errors.{Error}
use machine.State.{State, running}
use machine.VirtualBox.Machine.{VirtualBox, Tools, known_state}
use machine.VirtualBox.Machine.Control.{await_stopped}

module _ {W : Type 0} (tools : Tools W) (d : VirtualBox) where
  -- The world at the `j`-th poll, counted from 0, a second after the one before it.
  abbrev pub polled : ℕ → W → W
  polled zero w = w
  polled (suc j) w = polled j (tools.sleep 1000 (known_state tools d w).1)

  -- What the loop does at its last poll.
  pub data Ends (w : W) (end : Result Error (Unit {0}) × W) : Type 0 where
    gone :
        {s : State}
        → (known_state tools d w).0 ≡ ok s
        → s ≢ running
        → end ≡ (ok tt, (known_state tools d w).1)
        → Ends w end
    failed :
        {e : Error}
        → (known_state tools d w).0 ≡ err e
        → end ≡ (err e, (known_state tools d w).1)
        → Ends w end

  -- The polls go on while the machine runs: if it does not run at the `k`-th, the loop ends by then,
  -- with success at a poll that finds it not running, or with the error of a poll.
  pub await_stopped-Ends :
      (k rounds : ℕ) (w : W)
      → k < rounds
      → (known_state tools d (polled k w)).0 ≢ ok running
      → (j : ℕ) × (j ≤ k) × Ends (polled j w) (await_stopped tools rounds d w)
  unfolding await_stopped
  await_stopped-Ends k zero w lt other = absurd (omega arith)
  await_stopped-Ends k (suc rounds) w lt other =
      go (known_state tools d w).0 refl k lt other
        (λ i small. await_stopped-Ends i rounds next small)
    where
      next : W
      next = tools.sleep 1000 (known_state tools d w).1

      round : Result Error State → Result Error (Unit {0}) × W
      round (err e) = (err e, (known_state tools d w).1)
      round (ok s) =
          if eqb_ℤ s running
          then await_stopped tools rounds d next
          else (ok tt, (known_state tools d w).1)

      Found : ℕ → Result Error (Unit {0}) × W → Type 0
      Found i end = (j : ℕ) × (j ≤ i) × Ends (polled j w) end

      Later : Type 0
      Later =
          (i : ℕ)
          → i < rounds
          → (known_state tools d (polled i next)).0 ≢ ok running
          → (j : ℕ) × (j ≤ i) × Ends (polled j next) (await_stopped tools rounds d next)

      not_running : (s : State) → eqb_ℤ s running ≡ false → s ≢ running
      not_running s h e =
          let bad : false ≡ true = sym h ∙ (ap (λ x. eqb_ℤ x running) e ∙ eqb_ℤ_refl running) in cc

      running_on :
          (s : State) (i : ℕ)
          → s ≡ running
          → (known_state tools d w).0 ≡ ok s
          → i < suc rounds
          → (known_state tools d (polled i w)).0 ≢ ok running
          → Later
          → Found i (await_stopped tools rounds d next)
      running_on s zero is e small never more = absurd (never (e ∙ ap ok is))
      running_on s (suc i) is e small never more =
          let (j, early, end) = more i (omega arith) never in (suc j, omega arith, end)

      go :
          (r : Result Error State)
          → (known_state tools d w).0 ≡ r
          → (i : ℕ) → i < suc rounds
          → (known_state tools d (polled i w)).0 ≢ ok running
          → Later
          → Found i (round r)
      go (err e) same i small never more = (0, omega arith, failed same refl)
      go (ok s) same i small never more = elim (Bool-cases (eqb_ℤ s running)) [
        | inl still ↦
            subst (Found i) (sym (rw still refl))
              (running_on s i (eqb_ℤ_eq s running still) same small never more)
        | inr other ↦
            subst (Found i) (sym (rw other refl))
              (0, omega arith, gone same (λ e. not_running s other e) refl)
      ]
