-- ===== src/Host/Lifecycle.antt =====
-- What a successful Start or Restart says of the machine.
use mathlib.Core.Path.{subst}
use machine.Base.{◌≡◌, refl, ap, ◌⊎◌, inl, inr, Bool, true, false, if◌then◌else◌}
use machine.Base.Exec.{Result, ok, ◌>>◌, then-ok_iff, then-ok}
use machine.Errors.{Error, Act}
use machine.State.{running, stopped}
use machine.Wait.{wait_for}
use machine.Wait.Poll.{wait_for-world}
use machine.Driver.{Driver, machine_in_state}
use machine.Host.{
  Host, Env, run_action_for_state, start, restart_running, restart, wait_for_host_docker,
}
use machine.Host.Action.{LastSaid, machine_in_state-LastSaid, LastSaid-run_action_for_state}

module _ {W : Type 0} (env : Env W) (h : Host (Driver W)) where
  abbrev docker : Act W (Unit {0})
  docker = wait_for_host_docker env h

  -- The driver said that the machine runs, and then the wait for Docker succeeded, last of all.
  pub record RunsDocker (r : Result Error (Unit {0}) × W) : Type 0 where
    pub seen : W
    pub said_running : LastSaid h.driver running seen
    pub docker_up : (wait_for_host_docker env h seen).0 ≡ ok tt
    pub then_done : r ≡ wait_for_host_docker env h seen

  -- When `Start` succeeds, the driver has said Running, and then the wait for Docker has
  -- succeeded, last of all.
  pub start-RunsDocker : (w : W) → (start env h w).0 ≡ ok tt → RunsDocker (start env h w)
  unfolding start
  start-RunsDocker w p =
      let act : Act W (Unit {0}) = run_action_for_state env h h.driver.start running in
      let (a, b) = (then-ok_iff act docker w).0 p in
      record {
        seen = (act w).1;
        said_running = LastSaid-run_action_for_state env h h.driver.start running w a;
        docker_up = b;
        then_done = then-ok act docker w a;
      }

  restart_running-LastSaid :
      (w : W)
      → (restart_running env h w).0 ≡ ok tt
      → LastSaid h.driver running (restart_running env h w).1
        ⊎ (restart_running env h w ≡ (ok tt, (machine_in_state h.driver running w).1))
          × ((machine_in_state h.driver running w).0 ≡ false)
  unfolding restart_running
  restart_running-LastSaid w = go (machine_in_state h.driver running w).0
    where
      w1 : W
      w1 = (machine_in_state h.driver running w).1

      wait : Act W (Unit {0})
      wait = wait_for env.sleep (machine_in_state h.driver running)

      go :
          (b : Bool)
          → let r : Result Error (Unit {0}) × W =
              if b then (h.driver.restart >> wait) w1 else (ok tt, w1) in
            r.0 ≡ ok tt → LastSaid h.driver running r.1 ⊎ (r ≡ (ok tt, w1)) × (b ≡ false)
      go false p = inr (refl, refl)
      go true p =
          let (a, b) = (then-ok_iff h.driver.restart wait w1).0 p in
          let (v, said, e) =
            wait_for-world env.sleep (machine_in_state h.driver running) (h.driver.restart w1).1
              b in
          inl (
            rw (then-ok h.driver.restart wait w1 a)
              (rw e (machine_in_state-LastSaid h.driver running v said)))

  -- After a successful Restart Docker has been waited for, last of all. Before that the driver had
  -- said Running, or else it had said neither Stopped nor Running when it was asked at the start,
  -- and was told to do nothing.
  pub restart-ok :
      (w : W)
      → (restart env h w).0 ≡ ok tt
      → let (is_stopped, w1) = machine_in_state h.driver stopped w in
        let (is_running, w2) = machine_in_state h.driver running w1 in
        (v : W) × ((wait_for_host_docker env h v).0 ≡ ok tt)
        × (restart env h w ≡ wait_for_host_docker env h v)
        × (RunsDocker (ok tt, v)
            ⊎ (LastSaid h.driver running v
                ⊎ (is_stopped ≡ false) × (is_running ≡ false) × (v ≡ w2)))
  unfolding restart
  restart-ok w = go (machine_in_state h.driver stopped w).0 refl
    where
      w1 : W
      w1 = (machine_in_state h.driver stopped w).1

      go :
          (b : Bool)
          → (machine_in_state h.driver stopped w).0 ≡ b
          → let first : Act W (Unit {0}) = if b then start env h else restart_running env h in
            ((first >> docker) w1).0 ≡ ok tt
            → (v : W) × ((docker v).0 ≡ ok tt)
              × ((first >> docker) w1 ≡ docker v)
              × (RunsDocker (ok tt, v)
                  ⊎ (LastSaid h.driver running v
                      ⊎ (b ≡ false)
                        × ((machine_in_state h.driver running w1).0 ≡ false)
                        × (v ≡ (machine_in_state h.driver running w1).1)))
      go true _ p =
          let (a, b) = (then-ok_iff (start env h) docker w1).0 p in
          (
            (start env h w1).1,
            b,
            then-ok (start env h) docker w1 a,
            inl (subst (λ x. RunsDocker (x, (start env h w1).1)) a (start-RunsDocker w1 a)),
          )
      go false _ p =
          let (a, b) = (then-ok_iff (restart_running env h) docker w1).0 p in
          (
            (restart_running env h w1).1,
            b,
            then-ok (restart_running env h) docker w1 a,
            inr (settle (restart_running-LastSaid w1 a)),
          )
        where
          settle :
              LastSaid h.driver running (restart_running env h w1).1
                ⊎ (restart_running env h w1 ≡ (ok tt, (machine_in_state h.driver running w1).1))
                  × ((machine_in_state h.driver running w1).0 ≡ false)
              → LastSaid h.driver running (restart_running env h w1).1
                ⊎ (false ≡ false)
                  × ((machine_in_state h.driver running w1).0 ≡ false)
                  × ((restart_running env h w1).1 ≡ (machine_in_state h.driver running w1).1)
          settle (inl x) = inl x
          settle (inr (e, no_run)) = inr (refl, no_run, ap (λ r. r.1) e)
