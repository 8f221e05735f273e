-- ===== src/Tests/Client.antt =====
-- The client on a small world: libmachine/libmachine_test.go.
use machine.Base.{◌≡◌, refl, none, some, []}
use machine.Base.Int.{pos}
use machine.Base.Exec.{ok, pure, raise}
use machine.Text.{bytes, text_eq}
use machine.Errors.{plugin_binary_not_found}
use machine.State.{State, running}
use machine.Wait.{wait_for, wait_for_specific, wait_for_specific_or_error, wait_from}
use machine.Driver.{Driver, machine_in_state}
use machine.Host.{Host, auth_options}
use machine.Store.{named_host}
use machine.Client.{
  Client, default_options, load, is_unprovisioned, provision_new, wait_and_provision, finish_create,
  perform_create, create,
}
use machine.Client.Create.{Created, create-Created}
use machine.Client.Load.{Refuses, load-Refuses}
use machine.Tests.World.{machine_env, box}

-- A client whose store has one host, and whose factory finds no plugin.
abbrev client : Client State
client = record {
  certs_dir = bytes "/s/certs";
  machines_dir = bytes "/s/machines";
  env = machine_env;
  save = λ h. pure tt;
  load_from_store = λ name. pure (named_host name);
  new_rpc_client_driver = λ name raw_driver. raise plugin_binary_not_found;
  check_connection = λ h. pure tt;
  lock = λ w. w;
  unlock = λ w. w;
}

new_box : Host (Driver State)
new_box = record box { host_options = some (default_options client) }

creates : create client new_box (pos 0) ≡ (ok tt, running)
unfolding new_box default_options create perform_create finish_create is_unprovisioned
    wait_and_provision provision_new wait_for wait_for_specific wait_for_specific_or_error wait_from
    machine_in_state auth_options text_eq
creates = refl

create-Created_example : Created client new_box (create client new_box (pos 0)).1
unfolding creates
create-Created_example = create-Created client new_box (pos 0) refl

load-Refuses_example :
    (h' : Host (Driver State)) × ((load client (bytes "box") (pos 0)).0 ≡ ok h')
    × (h'.name ≡ bytes "box")
    × (h'.host_options ≡ none)
    × Refuses machine_env [] h' running
load-Refuses_example =
    load-Refuses client (bytes "box") (pos 0) running (named_host (bytes "box")) refl refl
