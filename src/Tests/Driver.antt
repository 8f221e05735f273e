-- ===== src/Tests/Driver.antt =====
-- Drivers at concrete inputs: libmachine/drivers/base_test.go and serial_test.go.
use machine.Base.{◌≡◌, refl, false, [], ◌∷◌}
use machine.Base.Int.{pos}
use machine.Text.{bytes, text_eq}
use machine.Text.FilePath.{join, clean}
use machine.State.{stopped}
use machine.Driver.Defaults.{BaseDriver, resolve_store_path, get_ssh_key_path}
use machine.Driver.Serial.Locked.{Call, calls, unlocked, serial, calls-serial}
use machine.Tests.World.{machine_driver}

abbrev fresh_driver : BaseDriver
fresh_driver = record {
  ip_address = [];
  machine_name = bytes "box";
  ssh_user = [];
  ssh_port = pos 0;
  ssh_key_path = [];
  store_path = bytes "/store";
  swarm_master = false;
  swarm_host = [];
  swarm_discovery = [];
}

key_path : (get_ssh_key_path fresh_driver).0 ≡ bytes "/store/machines/box/id_rsa"
unfolding get_ssh_key_path resolve_store_path join clean text_eq
key_path = refl

calls-serial_example :
    calls
      (serial machine_driver)
      (Call.start ∷ Call.get_state ∷ Call.get_url ∷ [])
      (unlocked stopped)
    ≡ (let (answers, w') =
          calls machine_driver (Call.start ∷ Call.get_state ∷ Call.get_url ∷ []) stopped in
        (answers, unlocked w'))
calls-serial_example =
    calls-serial machine_driver (Call.start ∷ Call.get_state ∷ Call.get_url ∷ []) stopped
