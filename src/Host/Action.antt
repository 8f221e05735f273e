-- ===== src/Host/Action.antt =====
-- What starting, stopping, killing and restarting a host guarantees.
use machine.Base.{◌≡◌, refl, ◌↔◌, ◌⊎◌, inl, inr, Bool, true, false, if◌then◌else◌}
use machine.Base.Int.{eqb_ℤ_eq}
use machine.Base.Exec.{Result, ok, err, ◌>>◌, then-ok_iff, then-ok, then-err}
use machine.Errors.{Error, host_already_in_state, max_retries, Act}
use machine.State.{State}
use machine.Wait.{wait_for}
use machine.Wait.Poll.{FirstYes, wait_for-ok_iff, wait_for-world, wait_for_cases}
use machine.Driver.{Driver, machine_in_state}
use machine.Host.{Host, Env, run_action_for_state}

-- The last thing that happened is that the driver was asked for its state and said `s`.
abbrev pub LastSaid : {W : Type 0} → Driver W → State → W → Type 0
LastSaid {W} d s w = (v : W) × ((d.get_state v).0.0 ≡ s) × ((d.get_state v).1 ≡ w)

pub machine_in_state-LastSaid :
    {W : Type 0} (d : Driver W) (s : State) (v : W)
    → (machine_in_state d s v).0 ≡ true
    → LastSaid d s (machine_in_state d s v).1
unfolding machine_in_state
machine_in_state-LastSaid d s v h = (v, eqb_ℤ_eq (d.get_state v).0.0 s h, refl)

module _ {W : Type 0} (env : Env W) (h : Host (Driver W)) (action : Act W (Unit {0}))
    (s : State) where
  abbrev in_state : W → Bool × W
  in_state = machine_in_state h.driver s

  abbrev act_and_wait : Act W (Unit {0})
  act_and_wait = action >> wait_for env.sleep in_state

  act_and_wait-ok_iff :
      (w : W)
      → ((act_and_wait w).0 ≡ ok tt)
        ↔ (((action w).0 ≡ ok tt) × FirstYes env.sleep in_state 60 (action w).1)
  act_and_wait-ok_iff w = (
    λ p.
        let (a, b) = (then-ok_iff action (wait_for env.sleep in_state) w).0 p in
        (a, (wait_for-ok_iff env.sleep in_state (action w).1).0 b),
    λ (a, b).
        (then-ok_iff action (wait_for env.sleep in_state) w).1
          (a, (wait_for-ok_iff env.sleep in_state (action w).1).1 b),
  )

  -- `runActionForState` succeeds exactly when the host is not yet in the state, the action
  -- succeeds, and one of the sixty polls that follow finds the host in the state.
  pub run_action_for_state-ok_iff :
      (w : W)
      → let (already, w1) = machine_in_state h.driver s w in
        let (done, w2) = action w1 in
        ((run_action_for_state env h action s w).0 ≡ ok tt) ↔ (
          (already ≡ false)
          × (done ≡ ok tt)
          × FirstYes env.sleep (machine_in_state h.driver s) 60 w2)
  unfolding run_action_for_state
  run_action_for_state-ok_iff w = go (in_state w).0
    where
      w1 : W
      w1 = (in_state w).1

      go :
          (already : Bool)
          → ((if already then (err (host_already_in_state h.name s), w1) else act_and_wait w1).0
              ≡ ok tt)
            ↔ ((already ≡ false)
                × ((action w1).0 ≡ ok tt)
                × FirstYes env.sleep in_state 60 (action w1).1)
      go true = (λ p. cc, λ (p, _, _). cc)
      go false = (
        λ p. let (a, b) = (act_and_wait-ok_iff w1).0 p in (refl, a, b),
        λ (_, a, b). (act_and_wait-ok_iff w1).1 (a, b),
      )

  act_and_wait_outcomes :
      (w : W) (done : Result Error (Unit {0}))
      → (action w).0 ≡ done
      → ((e : Error) × (done ≡ err e) × (act_and_wait w ≡ (err e, (action w).1)))
        ⊎ (done ≡ ok tt)
          × (((act_and_wait w).0 ≡ ok tt) ⊎ ((act_and_wait w).0 ≡ err (max_retries 60)))
  act_and_wait_outcomes w (ok u) h = inr (
    refl,
    rw (then-ok action (wait_for env.sleep in_state) w h)
        (wait_for_cases env.sleep in_state (action w).1),
  )
  act_and_wait_outcomes w (err e) h =
      inl (e, refl, then-err action (wait_for env.sleep in_state) w h)

  -- How `runActionForState` can end. A host that is in the state already is left alone, with the
  -- error that says so. Else an error of the action is passed on, in the world that the action
  -- leaves, without a poll. Else it succeeds, or the sixty polls have given up.
  pub run_action_for_state_outcomes :
      (w : W)
      → let (already, w1) = machine_in_state h.driver s w in
        let (done, w2) = action w1 in
        let run = run_action_for_state env h action s w in
        (already ≡ true) × (run ≡ (err (host_already_in_state h.name s), w1))
        ⊎ (already ≡ false)
          × (((e : Error) × (done ≡ err e) × (run ≡ (err e, w2)))
              ⊎ (done ≡ ok tt) × ((run.0 ≡ ok tt) ⊎ (run.0 ≡ err (max_retries 60))))
  unfolding run_action_for_state
  run_action_for_state_outcomes w = go (in_state w).0
    where
      w1 : W
      w1 = (in_state w).1

      go :
          (already : Bool)
          → let run : Result Error (Unit {0}) × W =
              if already then (err (host_already_in_state h.name s), w1) else act_and_wait w1 in
            (already ≡ true) × (run ≡ (err (host_already_in_state h.name s), w1))
            ⊎ (already ≡ false)
              × (((e : Error) × ((action w1).0 ≡ err e) × (run ≡ (err e, (action w1).1)))
                  ⊎ ((action w1).0 ≡ ok tt) × ((run.0 ≡ ok tt) ⊎ (run.0 ≡ err (max_retries 60))))
      go true = inl (refl, refl)
      go false = inr (refl, act_and_wait_outcomes w1 (action w1).0 refl)

  -- After a success of `runActionForState` the driver's last word is that the host is in the state.
  pub LastSaid-run_action_for_state :
      (w : W)
      → (run_action_for_state env h action s w).0 ≡ ok tt
      → LastSaid h.driver s (run_action_for_state env h action s w).1
  unfolding run_action_for_state
  LastSaid-run_action_for_state w = go (in_state w).0
    where
      w1 : W
      w1 = (in_state w).1

      go :
          (already : Bool)
          → let run : Result Error (Unit {0}) × W =
              if already then (err (host_already_in_state h.name s), w1) else act_and_wait w1 in
            run.0 ≡ ok tt → LastSaid h.driver s run.1
      go true p = cc
      go false p =
          let (a, b) = (then-ok_iff action (wait_for env.sleep in_state) w1).0 p in
          let (v, yes_there, e) = wait_for-world env.sleep in_state (action w1).1 b in
          rw (then-ok action (wait_for env.sleep in_state) w1 a)
            (rw e (machine_in_state-LastSaid h.driver s v yes_there))
