-- ===== src/Errors.antt =====
-- The error values of the program: libmachine/mcnerror/errors.go, and those that its other packages
-- make with `errors.New` and `fmt.Errorf`. A text is kept where the source formats one in.
use machine.Base.{ℕ, String}
use machine.Base.Int.{ℤ}
use machine.Base.Exec.{Exec}
use machine.Text.{Text}

pub data Error : Type 0 where
  -- What a driver, the operating system or a library reports.
  message : Text → Error
  -- `fmt.Errorf(prefix + "%s", err)`.
  wrapped : String → Error → Error
  -- `fmt.Errorf("Error running %q: %s", command, err)`.
  command_failed : Text → Error → Error
  -- What `os.IsNotExist` recognises.
  not_exist : Error
  invalid_hostname : Error
  host_does_not_exist : Text → Error
  host_already_exists : Text → Error
  during_pre_create : Error → Error
  host_already_in_state : Text → ℤ → Error
  host_is_not_running : Error
  config_from_future : Error
  plugin_binary_not_found : Error
  -- What every method of the driver that stands in for one not found reports.
  not_loadable : Text → Error
  -- "OS type not recognized".
  detection_failed : Error
  daemon_available : Error → Error
  -- "Maximum number of retries (%d) exceeded".
  max_retries : ℕ → Error
  -- ErrMachineNotExist of drivers/virtualbox/vbm.go.
  machine_not_exist : Error
  -- "Unable to start the VM: %s\nDetails: %s".
  unable_to_start : Error → Text → Error
  -- `os.Exit(status)`: the program ends.
  exits : ℕ → Error
  -- No error of the program: a loop without a bound has not ended in the rounds that it is given.
  endless : Error
  -- The run-time stops, as at a nil pointer.
  panic : Error

-- A method that acts on the world `w` and may fail.
abbrev pub Act : Type 0 → Type 0 → Type 0
Act W A = Exec W Error A
