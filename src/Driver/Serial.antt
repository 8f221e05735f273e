-- ===== src/Driver/Serial.antt =====
-- libmachine/drivers/serial.go: a driver whose methods hold a lock while the inner method runs.
pub mod Locked
use machine.Driver.{Driver, DriverOptions}

module _ {W : Type 0} (lock unlock : W → W) where
  -- d.Lock(); defer d.Unlock(); return d.Driver.Method()
  unfoldable pub locked : {A : Type 0} → (W → A × W) → W → A × W
  locked method w = let (r, w') = method (lock w) in (r, unlock w')

  unfoldable pub new_serial_driver_with_lock : Driver W → Driver W
  unfolding locked
  new_serial_driver_with_lock d = record {
    create = locked d.create;
    driver_name = locked d.driver_name;
    get_create_flags = locked d.get_create_flags;
    get_ip = locked d.get_ip;
    get_machine_name = locked d.get_machine_name;
    get_ssh_hostname = locked d.get_ssh_hostname;
    get_ssh_key_path = locked d.get_ssh_key_path;
    get_ssh_port = locked d.get_ssh_port;
    get_ssh_username = locked d.get_ssh_username;
    get_url = locked d.get_url;
    get_state = locked d.get_state;
    kill = locked d.kill;
    pre_create_check = locked d.pre_create_check;
    remove = locked d.remove;
    restart = locked d.restart;
    set_config_from_flags = λ opts. locked (d.set_config_from_flags opts);
    start = locked d.start;
    stop = locked d.stop;
  }
