-- ===== src/Tests/ConfigureAuth.antt =====
-- A run of ConfigureAuth, and its theorem at a concrete input.
use machine.Base.{◌≡◌, refl, false, []}
use machine.Base.Int.{pos}
use machine.Base.Exec.{ok, pure}
use machine.Text.{bytes, text_eq}
use machine.Text.Atoi.{parse_int}
use machine.State.{State, running}
use machine.Options.{AuthOptions, SwarmOptions}
use machine.Provision.{check_daemon_up, match_netstat_out}
use machine.Provision.ConfigureAuth.{Setup, port_of_host, configure_auth, decide_storage_driver}
use machine.Provision.ConfigureAuth.Serves.{Serves, configure_auth-Serves}
use machine.Wait.{wait_for_specific, wait_from}
use machine.Tests.World.{machine_driver, provisioner_named}

abbrev auth : AuthOptions
auth = record {
  cert_dir = bytes "/c";
  ca_cert_path = bytes "/c/ca.pem";
  ca_private_key_path = bytes "/c/ca-key.pem";
  ca_cert_remote_path = bytes "/etc/docker/ca.pem";
  server_cert_path = bytes "/m/server.pem";
  server_key_path = bytes "/m/server-key.pem";
  client_key_path = bytes "/c/key.pem";
  server_cert_remote_path = bytes "/etc/docker/server.pem";
  server_key_remote_path = bytes "/etc/docker/server-key.pem";
  client_cert_path = bytes "/c/cert.pem";
  server_cert_sans = [];
  store_path = bytes "/m";
}

abbrev no_swarm : SwarmOptions
no_swarm = record {
  is_swarm = false;
  address = [];
  discovery = [];
  agent = false;
  master = false;
  host = [];
  image = [];
  strategy = [];
  heartbeat = pos 0;
  overcommit = [];
  arbitrary_flags = [];
  arbitrary_join_flags = [];
  env = [];
  is_experimental = false;
}

abbrev setup : Setup State
setup = record {
  provisioner = provisioner_named (bytes "ubuntu");
  driver = machine_driver;
  auth_options = auth;
  swarm_options = no_swarm;
  generate_docker_options = λ port.
      pure (record { engine_options = []; engine_options_path = bytes "/etc/docker/daemon.json" });
  username = λ w. (bytes "me", w);
  copy_file = λ from target. pure tt;
  read_file = λ path. pure [];
  generate_cert = λ options. pure tt;
  url_host = λ url. ok (bytes "10.0.0.5:2376");
  sleep = λ n w. w;
}

default_where_no_port : port_of_host (bytes "example") ≡ ok (pos 2376)
unfolding port_of_host
default_where_no_port = refl

takes_btrfs :
    (decide_storage_driver (λ cmd. pure (bytes "btrfs\n")) (bytes "overlay2") [] running).0
    ≡ ok (bytes "btrfs")
unfolding decide_storage_driver text_eq
takes_btrfs = refl

configures : (configure_auth setup running).0 ≡ ok tt
unfolding configure_auth check_daemon_up match_netstat_out wait_for_specific wait_from parse_int
configures = refl

configure_auth-Serves_example : Serves setup running
configure_auth-Serves_example = configure_auth-Serves setup running configures
