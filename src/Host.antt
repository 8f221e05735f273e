-- ===== src/Host.antt =====
-- libmachine/host/host.go: a host and the operations on it.
pub mod Action
pub mod Lifecycle
pub mod Legacy
pub mod Migrate
pub mod Upgrade
pub mod Name
use machine.Base.{
  ℕ, Bool, true, false, ◌&&◌, ◌||◌, not, Option, none, some, List, [], ◌∷◌, leb, ◌==◌,
  if◌then◌else◌,
}
use machine.Base.Int.{ℤ, pos, eqb_ℤ}
use machine.Base.Exec.{ok, err, pure, raise, ◌>>=◌, ◌>>◌}
use machine.Text.{Text, bytes, text_eq}
use machine.Errors.{Error, host_already_in_state, panic, Act}
use machine.State.{State, running, stopped}
use machine.Options.{AuthOptions, EngineOptions, SwarmOptions}
use machine.Wait.{wait_for}
use machine.Driver.{Driver, machine_in_state}
use machine.Provision.{
  Provisioner, PackageAction, ServiceAction, last_release_before_ce_versioning, wait_for_docker,
}
use machine.Version.{less_than_or_equal_to}

-- The `Options` of a host; the pointers may be nil.
pub record HostOptions : Type 0 where
  pub driver : Text
  pub memory : ℤ
  pub disk : ℤ
  pub engine_options : Option EngineOptions
  pub swarm_options : Option SwarmOptions
  pub auth_options : Option AuthOptions

-- A host, over the type of what its `Driver` field holds.
pub record Host (D : Type 0) : Type 0 where
  pub config_version : ℤ
  pub driver : D
  pub driver_name : Text
  pub host_options : Option HostOptions
  pub name : Text
  pub raw_driver : Text

-- What a host uses of the other packages through interfaces and package variables: time, the
-- detector of provisioners, the docker versioner and the generator of certificates.
pub record Env (W : Type 0) : Type 0 where
  pub sleep : ℕ → W → W
  pub detect_provisioner : Driver W → Act W (Provisioner W)
  pub docker_version : Text → Option AuthOptions → Act W Text
  pub bootstrap_certificates : Option AuthOptions → Act W (Unit {0})

abbrev pub default_port : ℤ
default_port = pos 2376

is_alphanumeric : ℕ → Bool
is_alphanumeric c =
    (leb b'a' c && leb c b'z') || (leb b'A' c && leb c b'Z') || (leb b'0' c && leb c b'9')

all_name_bytes : Text → Bool
unfolding is_alphanumeric
all_name_bytes [] = true
all_name_bytes (c ∷ s) = (is_alphanumeric c || c == b'-' || c == b'.') && all_name_bytes s

-- `^[a-zA-Z0-9][a-zA-Z0-9\-\.]*$`
unfoldable pub validate_host_name : Text → Bool
unfolding all_name_bytes
validate_host_name [] = false
validate_host_name (c ∷ s) = is_alphanumeric c && all_name_bytes s

-- `swarm.Options{}`
abbrev pub no_swarm : SwarmOptions
no_swarm = record {
  is_swarm = false;
  address = [];
  discovery = [];
  agent = false;
  master = false;
  host = [];
  image = [];
  strategy = [];
  heartbeat = pos 0;
  overcommit = bytes "0";
  arbitrary_flags = [];
  arbitrary_join_flags = [];
  env = [];
  is_experimental = false;
}

-- `*p`
abbrev pub deref : {W A : Type 0} → Option A → Act W A
deref none = raise panic
deref (some a) = pure a

module _ {D : Type 0} (h : Host D) where
  unfoldable pub auth_options : Option AuthOptions
  auth_options = elim h.host_options [ none ↦ none | some options ↦ options.auth_options ]

module _ {W : Type 0} (env : Env W) (h : Host (Driver W)) where
  unfoldable pub run_action_for_state : Act W (Unit {0}) → State → Act W (Unit {0})
  run_action_for_state action desired_state w =
      let (already, w') = machine_in_state h.driver desired_state w in
      if already
      then (err (host_already_in_state h.name desired_state), w')
      else (action >> wait_for env.sleep (machine_in_state h.driver desired_state)) w'

  -- `(*Host).WaitForDocker`
  unfoldable pub wait_for_host_docker : Act W (Unit {0})
  wait_for_host_docker = do
    provisioner ← env.detect_provisioner h.driver
    wait_for_docker env.sleep provisioner default_port

  unfoldable pub start : Act W (Unit {0})
  start = do run_action_for_state h.driver.start running; wait_for_host_docker

  unfoldable pub stop : Act W (Unit {0})
  stop = run_action_for_state h.driver.stop stopped

  unfoldable pub kill : Act W (Unit {0})
  kill = run_action_for_state h.driver.kill stopped

  -- The part of `Restart` before the wait for Docker, once the first test has failed.
  unfoldable pub restart_running : Act W (Unit {0})
  restart_running w =
      let (is_running, w') = machine_in_state h.driver running w in
      if is_running
      then (h.driver.restart >> wait_for env.sleep (machine_in_state h.driver running)) w'
      else (ok tt, w')

  unfoldable pub restart : Act W (Unit {0})
  restart w =
      let (is_stopped, w') = machine_in_state h.driver stopped w in
      ((if is_stopped then start else restart_running) >> wait_for_host_docker) w'

  unfoldable pub docker_version : Act W Text
  docker_version = do url ← h.driver.get_url; env.docker_version url (auth_options h)

  unfoldable pub provision : Act W (Unit {0})
  provision = do
    provisioner ← env.detect_provisioner h.driver
    options ← deref h.host_options
    swarm ← deref options.swarm_options
    auth ← deref options.auth_options
    engine ← deref options.engine_options
    provisioner.provision swarm auth engine

  -- `GetState` with its error returned.
  unfoldable pub get_state_or_fail : Act W State
  get_state_or_fail w =
      let ((s, e), w') = h.driver.get_state w in
      elim e [ some failure ↦ (err failure, w') | none ↦ (ok s, w') ]

  -- The end of `Upgrade`, with the provisioner and the version of Docker at hand.
  unfoldable pub upgrade_docker : Provisioner W → Text → Act W (Unit {0})
  upgrade_docker provisioner version =
      if less_than_or_equal_to version last_release_before_ce_versioning
        && (not (text_eq provisioner.string (bytes "rancheros"))
            && not (text_eq provisioner.string (bytes "boot2docker")))
      then (do provisioner.package_action (bytes "docker-engine") PackageAction.purge; provision)
      else (do
        provisioner.package_action (bytes "docker") PackageAction.upgrade
        provisioner.service_action (bytes "docker") ServiceAction.restart)

  unfoldable pub upgrade : Act W (Unit {0})
  upgrade = do
    machine_state ← get_state_or_fail
    (if eqb_ℤ machine_state running then pure tt else start)
    provisioner ← env.detect_provisioner h.driver
    version ← docker_version
    upgrade_docker provisioner version

  unfoldable pub configure_auth : Act W (Unit {0})
  configure_auth = do
    provisioner ← env.detect_provisioner h.driver
    options ← deref h.host_options
    auth ← deref options.auth_options
    engine ← deref options.engine_options
    provisioner.provision no_swarm auth engine

  unfoldable pub configure_all_auth : Act W (Unit {0})
  configure_all_auth = do env.bootstrap_certificates (auth_options h); configure_auth
