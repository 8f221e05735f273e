-- ===== src/Driver.antt =====
-- libmachine/drivers/drivers.go: the interface of a driver, as a record of methods that act on the
-- world `w`, and the two functions on its state.
pub mod Defaults
pub mod Serial
pub mod NotFound
use machine.Base.{Bool, true, false, Option, none, some, List, if◌then◌else◌}
use machine.Base.Int.{ℤ, eqb_ℤ}
use machine.Base.Exec.{ok, err}
use machine.Text.{Text}
use machine.Errors.{Error, host_is_not_running, Act}
use machine.State.{State, running}
use machine.Options.{Flag}

pub record DriverOptions : Type 0 where
  pub string : Text → Text
  pub string_slice : Text → List Text
  pub int : Text → ℤ
  pub bool : Text → Bool

pub record Driver (W : Type 0) : Type 0 where
  pub create : Act W (Unit {0})
  pub driver_name : W → Text × W
  pub get_create_flags : W → List Flag × W
  pub get_ip : Act W Text
  pub get_machine_name : W → Text × W
  pub get_ssh_hostname : Act W Text
  pub get_ssh_key_path : W → Text × W
  pub get_ssh_port : Act W ℤ
  pub get_ssh_username : W → Text × W
  pub get_url : Act W Text
  -- The state comes beside the error.
  pub get_state : W → (State × Option Error) × W
  pub kill : Act W (Unit {0})
  pub pre_create_check : Act W (Unit {0})
  pub remove : Act W (Unit {0})
  pub restart : Act W (Unit {0})
  pub set_config_from_flags : DriverOptions → Act W (Unit {0})
  pub start : Act W (Unit {0})
  pub stop : Act W (Unit {0})

module _ {W : Type 0} (d : Driver W) where
  -- The error of `GetState` is logged, and the state beside it is compared all the same.
  unfoldable pub machine_in_state : State → W → Bool × W
  machine_in_state desired_state w =
      let ((current_state, _), w') = d.get_state w in (eqb_ℤ current_state desired_state, w')

  -- An error unless the machine is running.
  unfoldable pub must_be_running : Act W (Unit {0})
  must_be_running w =
      let ((s, e), w') = d.get_state w in
      elim e [
        | some failure ↦ (err failure, w')
        | none ↦ (if eqb_ℤ s running then ok tt else err host_is_not_running, w')
      ]
