-- ===== src/Tests/Host.antt =====
-- The operations of a host, on a small world: libmachine/host/host_test.go and more.
use machine.Base.{◌≡◌, refl, ◌↔◌, inr, true, false}
use machine.Base.Exec.{ok, err}
use machine.Text.{bytes}
use machine.Text.Decimal.{decimal}
use machine.Errors.{host_already_in_state}
use machine.State.{running, stopped}
use machine.Wait.{wait_for, wait_for_specific, wait_for_specific_or_error, wait_from}
use machine.Wait.Poll.{FirstYes}
use machine.Driver.{machine_in_state}
use machine.Provision.{wait_for_docker, check_daemon_up, match_netstat_out}
use machine.Host.{
  validate_host_name, run_action_for_state, wait_for_host_docker, start, restart, restart_running,
  upgrade_docker,
}
use machine.Host.Action.{run_action_for_state-ok_iff}
use machine.Host.Lifecycle.{RunsDocker, start-RunsDocker}
use machine.Host.Upgrade.{upgrade_docker-in_place, upgrade_in_place}
use machine.Tests.World.{machine_driver, machine_env, box, provisioner_named}

name_accepted : validate_host_name (bytes "db-1.example") ≡ true
unfolding validate_host_name
name_accepted = refl

name_rejected : validate_host_name (bytes "../db") ≡ false
unfolding validate_host_name
name_rejected = refl

starts :
    run_action_for_state machine_env box machine_driver.start running stopped ≡ (ok tt, running)
unfolding run_action_for_state wait_for wait_for_specific wait_for_specific_or_error wait_from
    machine_in_state
starts = refl

starts_twice :
    run_action_for_state machine_env box machine_driver.start running running
    ≡ (err (host_already_in_state (bytes "box") running), running)
unfolding run_action_for_state machine_in_state
starts_twice = refl

start_done : start machine_env box stopped ≡ (ok tt, running)
unfolding start starts run_action_for_state wait_for wait_for_specific wait_for_specific_or_error
    wait_from machine_in_state wait_for_host_docker wait_for_docker check_daemon_up
    match_netstat_out decimal
start_done = refl

restart_done : restart machine_env box running ≡ (ok tt, running)
unfolding restart restart_running start_done machine_in_state
restart_done = refl

run_action_for_state-ok_iff_example :
    let (already, w1) = machine_in_state machine_driver running stopped in
    let (done, w2) = machine_driver.start w1 in
    ((run_action_for_state machine_env box machine_driver.start running stopped).0 ≡ ok tt) ↔ (
      (already ≡ false)
      × (done ≡ ok tt)
      × FirstYes machine_env.sleep (machine_in_state machine_driver running) 60 w2)
run_action_for_state-ok_iff_example =
    run_action_for_state-ok_iff machine_env box machine_driver.start running stopped

start-RunsDocker_example : RunsDocker machine_env box (start machine_env box stopped)
unfolding start_done
start-RunsDocker_example = start-RunsDocker machine_env box stopped refl

upgrade_docker-in_place_example :
    upgrade_docker machine_env box (provisioner_named (bytes "boot2docker")) (bytes "1.12.0")
    ≡ upgrade_in_place machine_env box (provisioner_named (bytes "boot2docker")) (bytes "1.12.0")
upgrade_docker-in_place_example =
    upgrade_docker-in_place machine_env box (provisioner_named (bytes "boot2docker"))
      (bytes "1.12.0") (inr (inr refl))
