-- ===== src/Client.antt =====
-- libmachine/libmachine.go: the client, which makes, loads and creates machines by means of a store,
-- a factory of drivers, a detector of provisioners and a check of the connection.
pub mod Create
pub mod Load
use machine.Base.{Bool, true, false, Option, none, some, [], ◌∷◌, if◌then◌else◌}
use machine.Base.Int.{pos}
use machine.Base.Exec.{Result, ok, err, pure, map_error, ◌>>=◌, ◌>>◌}
use machine.Text.{Text, bytes, text_eq}
use machine.Text.FilePath.{join}
use machine.Errors.{Error, wrapped, during_pre_create, plugin_binary_not_found, Act}
use machine.State.{running}
use machine.Options.{AuthOptions}
use machine.Wait.{wait_for}
use machine.Driver.{Driver, machine_in_state}
use machine.Driver.Defaults.{default_engine_install_url}
use machine.Driver.NotFound.{new_driver}
use machine.Driver.Serial.{new_serial_driver_with_lock}
use machine.Provision.{Provisioner, default_storage_driver}
use machine.Host.{Host, HostOptions, Env, auth_options, no_swarm, deref}
use machine.Host.Legacy.{RawDataDriver, no_engine}
use machine.Host.Migrate.{present_version}

-- What the client works with: its directory of certificates and that of the machines, what a host
-- uses, the store's `Save` and `Load`, the factory of the drivers, the check of the connection to
-- Docker, and the lock that all serial drivers share.
pub record Client (W : Type 0) : Type 0 where
  pub certs_dir : Text
  pub machines_dir : Text
  pub env : Env W
  pub save : Host (Driver W) → Act W (Unit {0})
  pub load_from_store : Text → Act W (Host (Option RawDataDriver))
  pub new_rpc_client_driver : Text → Text → Act W (Driver W)
  pub check_connection : Host (Driver W) → Act W (Unit {0})
  pub lock : W → W
  pub unlock : W → W

module _ {W : Type 0} (api : Client W) where
  -- The options of a new host.
  unfoldable pub default_options : HostOptions
  default_options = record {
    driver = [];
    memory = pos 0;
    disk = pos 0;
    engine_options = some (record no_engine {
      install_url = default_engine_install_url;
      storage_driver = default_storage_driver;
      tls_verify = true;
    });
    swarm_options = some (record no_swarm {
      host = bytes "tcp://0.0.0.0:3376";
      image = bytes "swarm:latest";
      strategy = bytes "spread";
      overcommit = bytes "0";
    });
    auth_options = some (record {
      cert_dir = api.certs_dir;
      ca_cert_path = join (api.certs_dir ∷ bytes "ca.pem" ∷ []);
      ca_private_key_path = join (api.certs_dir ∷ bytes "ca-key.pem" ∷ []);
      ca_cert_remote_path = [];
      server_cert_path = join (api.machines_dir ∷ bytes "server.pem" ∷ []);
      server_key_path = join (api.machines_dir ∷ bytes "server-key.pem" ∷ []);
      client_key_path = join (api.certs_dir ∷ bytes "key.pem" ∷ []);
      server_cert_remote_path = [];
      server_key_remote_path = [];
      client_cert_path = join (api.certs_dir ∷ bytes "cert.pem" ∷ []);
      server_cert_sans = [];
      store_path = [];
    });
  }

  -- `NewHost`
  unfoldable pub new_host : Text → Text → Act W (Host (Driver W))
  unfolding default_options
  new_host driver_name raw_driver = api.new_rpc_client_driver driver_name raw_driver >>= λ driver w.
      let (machine_name, w1) = driver.get_machine_name w in
      let (name_of_driver, w2) = driver.driver_name w1 in
      (
        ok (record {
          config_version = present_version;
          driver = driver;
          driver_name = name_of_driver;
          host_options = some default_options;
          name = machine_name;
          raw_driver = [];
        }),
        w2,
      )

  -- The host with another driver.
  abbrev pub with_driver : Host (Option RawDataDriver) → Driver W → Host (Driver W)
  with_driver h d = record {
    config_version = h.config_version;
    driver = d;
    driver_name = h.driver_name;
    host_options = h.host_options;
    name = h.name;
    raw_driver = h.raw_driver;
  }

  -- A driver of VirtualBox is used by one call at a time.
  unfoldable pub host_with : Host (Option RawDataDriver) → Driver W → Host (Driver W)
  host_with h d =
      if text_eq h.driver_name (bytes "virtualbox")
      then with_driver h (new_serial_driver_with_lock api.lock api.unlock d)
      else with_driver h d

  unfoldable pub found_driver :
      Host (Option RawDataDriver) → Result Error (Driver W) → Result Error (Host (Driver W))
  unfolding host_with
  found_driver h (ok d) = ok (host_with h d)
  found_driver h (err plugin_binary_not_found) = ok (with_driver h (new_driver h.driver_name))
  found_driver h (err e) = err e

  -- `(*Client).Load`
  unfoldable pub load : Text → Act W (Host (Driver W))
  unfolding found_driver
  load name = api.load_from_store name >>= λ h w.
      let (r, w') = api.new_rpc_client_driver h.driver_name h.raw_driver w in (found_driver h r, w')

module _ {W : Type 0} (api : Client W) (h : Host (Driver W)) where
  -- The drivers without a machine to provision. `DriverName` is called once for each test.
  unfoldable pub is_unprovisioned : W → Bool × W
  is_unprovisioned w =
      let (name, w1) = h.driver.driver_name w in
      let (name', w2) = h.driver.driver_name w1 in
      if text_eq name (bytes "none") then (true, w1) else (text_eq name' (bytes "ci-test"), w2)

  unfoldable pub provision_new : Provisioner W → Act W (Unit {0})
  provision_new provisioner = do
    options ← deref h.host_options
    swarm ← deref options.swarm_options
    auth ← deref options.auth_options
    engine ← deref options.engine_options
    map_error (wrapped "Error running provisioning: ") (provisioner.provision swarm auth engine)

  -- `performCreate` from the wait for the machine on.
  unfoldable pub wait_and_provision : Act W (Unit {0})
  unfolding provision_new
  wait_and_provision = do
    map_error (wrapped "Error waiting for machine to be running: ")
        (wait_for api.env.sleep (machine_in_state h.driver running))
    provisioner ← map_error (wrapped "Error detecting OS: ") (api.env.detect_provisioner h.driver)
    provision_new provisioner
    map_error (wrapped "Error checking the host: ") (api.check_connection h)

  unfoldable pub finish_create : Act W (Unit {0})
  unfolding is_unprovisioned wait_and_provision
  finish_create w =
      let (unprovisioned, w') = is_unprovisioned w in
      if unprovisioned then (ok tt, w') else wait_and_provision w'

  unfoldable pub perform_create : Act W (Unit {0})
  unfolding finish_create
  perform_create = do
    map_error (wrapped "Error in driver during machine creation: ") h.driver.create
    map_error (wrapped "Error saving host to store after attempting creation: ") (api.save h)
    finish_create

  -- `(*Client).Create`
  unfoldable pub create : Act W (Unit {0})
  unfolding perform_create
  create = do
    map_error (wrapped "Error generating certificates: ")
        (api.env.bootstrap_certificates (auth_options h))
    map_error during_pre_create h.driver.pre_create_check
    map_error (wrapped "Error saving host to store before attempting creation: ") (api.save h)
    map_error (wrapped "Error creating machine: ") perform_create
