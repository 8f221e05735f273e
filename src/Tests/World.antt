-- ===== src/Tests/World.antt =====
-- A small world: a machine that is known by its state alone, and that gets where it goes while
-- somebody sleeps.
use machine.Base.{ℕ, none, [], if◌then◌else◌}
use machine.Base.Int.{pos, eqb_ℤ}
use machine.Base.Exec.{ok, pure}
use machine.Text.{Text, bytes}
use machine.Errors.{Act}
use machine.State.{State, running, stopped, starting, stopping}
use machine.Driver.{Driver}
use machine.Provision.{Provisioner}
use machine.Host.{Host, Env}

abbrev to : State → Act State (Unit {0})
to s w = (ok tt, s)

abbrev pub machine_driver : Driver State
machine_driver = record {
  create = to running;
  driver_name = λ w. (bytes "simple", w);
  get_create_flags = λ w. ([], w);
  get_ip = pure (bytes "10.0.0.5");
  get_machine_name = λ w. (bytes "box", w);
  get_ssh_hostname = pure (bytes "10.0.0.5");
  get_ssh_key_path = λ w. ([], w);
  get_ssh_port = pure (pos 22);
  get_ssh_username = λ w. (bytes "root", w);
  get_url = pure (bytes "tcp://10.0.0.5:2376");
  get_state = λ w. ((w, none), w);
  kill = to stopped;
  pre_create_check = pure tt;
  remove = to (pos 0);
  restart = to starting;
  set_config_from_flags = λ opts. pure tt;
  start = to starting;
  stop = to stopping;
}

abbrev pub provisioner_named : Text → Provisioner State
provisioner_named name = record {
  string = name;
  ssh_command = λ command. pure (bytes "tcp 0 0 0.0.0.0:2376 0.0.0.0:* LISTEN");
  package_action = λ name action. pure tt;
  service_action = λ name action. pure tt;
  provision = λ swarm auth engine. pure tt;
}

-- A sleep is long enough for the machine to arrive.
abbrev pub arrive : ℕ → State → State
arrive ms w = if eqb_ℤ w starting then running else if eqb_ℤ w stopping then stopped else w

abbrev pub machine_env : Env State
machine_env = record {
  sleep = arrive;
  detect_provisioner = λ d. pure (provisioner_named (bytes "ubuntu(systemd)"));
  docker_version = λ url auth. pure (bytes "17.06.0-ce");
  bootstrap_certificates = λ auth. pure tt;
}

abbrev pub box : Host (Driver State)
box = record {
  config_version = pos 3;
  driver = machine_driver;
  driver_name = bytes "simple";
  host_options = none;
  name = bytes "box";
  raw_driver = [];
}
