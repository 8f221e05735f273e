-- ===== src/Driver/NotFound.antt =====
-- drivers/errdriver/error.go: the driver that stands in for one whose plugin is not found.
use machine.Base.{some, []}
use machine.Base.Exec.{raise}
use machine.Text.{Text, bytes}
use machine.Errors.{not_loadable}
use machine.State.{error_state}
use machine.Driver.{Driver}

-- `NewDriver`. The address that `GetIP` returns beside its error is left out.
unfoldable pub new_driver : {W : Type 0} → Text → Driver W
new_driver name = record {
  create = raise (not_loadable name);
  driver_name = λ w. (bytes "not-found", w);
  get_create_flags = λ w. ([], w);
  get_ip = raise (not_loadable name);
  get_machine_name = λ w. (name, w);
  get_ssh_hostname = raise (not_loadable name);
  get_ssh_key_path = λ w. ([], w);
  get_ssh_port = raise (not_loadable name);
  get_ssh_username = λ w. ([], w);
  get_url = raise (not_loadable name);
  get_state = λ w. ((error_state, some (not_loadable name)), w);
  kill = raise (not_loadable name);
  pre_create_check = raise (not_loadable name);
  remove = raise (not_loadable name);
  restart = raise (not_loadable name);
  set_config_from_flags = λ opts. raise (not_loadable name);
  start = raise (not_loadable name);
  stop = raise (not_loadable name);
}
