-- ===== src/Provision/ConfigureAuth.antt =====
-- libmachine/provision/utils.go: the certificates and the configuration that ConfigureAuth puts on a
-- machine, and the storage driver that a provisioner takes.
pub mod Serves
use machine.Base.{
  ◌≡◌, refl, sym, ap, ◌∙◌, ℕ, Bool, true, false, not, Option, none, some, List, [], ◌∷◌, ◌++◌,
  if◌then◌else◌,
}
use machine.Base.Int.{ℤ, pos}
use machine.Base.Exec.{Result, ok, err, pure, raise, map_error, ◌>>=◌, ◌>>◌, bind-inverse}
use machine.Text.{Text, bytes, text_eq, split}
use machine.Text.Atoi.{parse_int}
use machine.Text.FilePath.{join, dir}
use machine.Text.Scan.{trim_space}
use machine.Errors.{Error, message, wrapped, Act}
use machine.Options.{AuthOptions, SwarmOptions}
use machine.Driver.{Driver}
use machine.Provision.{
  Provisioner, ServiceAction, start, stop, default_storage_driver, wait_for_docker,
}

abbrev pub engine_default_port : ℤ
engine_default_port = pos 2376

-- `DockerOptions`
pub record DockerOptions : Type 0 where
  pub engine_options : Text
  pub engine_options_path : Text

-- `cert.Options`
pub record CertOptions : Type 0 where
  pub hosts : List Text
  pub cert_file : Text
  pub key_file : Text
  pub ca_file : Text
  pub ca_key_file : Text
  pub org : Text
  pub bits : ℕ
  pub swarm_master : Bool

-- What ConfigureAuth uses beside the SSH command and the services of a provisioner: its other methods,
-- the files, the generator of certificates, and the host of a URL as `url.Parse`
-- finds it.
pub record Setup (W : Type 0) : Type 0 where
  pub provisioner : Provisioner W
  pub driver : Driver W
  pub auth_options : AuthOptions
  pub swarm_options : SwarmOptions
  pub generate_docker_options : ℤ → Act W DockerOptions
  pub username : W → Text × W
  pub copy_file : Text → Text → Act W (Unit {0})
  pub read_file : Text → Act W Text
  pub generate_cert : CertOptions → Act W (Unit {0})
  pub url_host : Text → Result Error Text
  pub sleep : ℕ → W → W

abbrev pub delete_bridge_command : Text
delete_bridge_command =
    bytes "if [ ! -z \"$(ip link show docker0)\" ]; then sudo ip link delete docker0; fi"

-- `certTransferCmdFmt`
unfoldable pub transfer_command : (content path : Text) → Text
transfer_command content path =
    bytes "printf '%s' '" ++ (content ++ (bytes "' | sudo tee " ++ path))

-- The command that writes the configuration of the daemon.
unfoldable pub options_command : Text → DockerOptions → Text
options_command dir o =
    bytes "sudo mkdir -p "
    ++ (dir
        ++ (bytes " && printf %s \""
            ++ (o.engine_options ++ (bytes "\" | sudo tee " ++ o.engine_options_path))))

abbrev second_part : List Text → Result Error ℤ
second_part (host ∷ port ∷ []) = elim (parse_int port) [
  | none ↦ err (message (bytes "strconv.Atoi: invalid syntax"))
  | some n ↦ ok n
]
second_part other = ok engine_default_port

-- The port of the daemon in the host of its URL.
unfoldable pub port_of_host : Text → Result Error ℤ
unfolding split
port_of_host host = second_part (split b':' host)

module _ {W : Type 0} (s : Setup W) where
  abbrev auth : AuthOptions
  auth = s.auth_options

  abbrev from_result : {A : Type 0} → Result Error A → Act W A
  from_result r w = (r, w)

  -- An SSH command whose output is not used.
  abbrev pub command : Text → Act W (Unit {0})
  command cmd = s.provisioner.ssh_command cmd >>= λ _. pure tt

  unfoldable pub copy_certs : Act W (Unit {0})
  copy_certs =
      map_error (wrapped "Copying ca.pem to machine dir failed: ")
        (s.copy_file auth.ca_cert_path (join (auth.store_path ∷ bytes "ca.pem" ∷ [])))
      >> (map_error (wrapped "Copying cert.pem to machine dir failed: ")
            (s.copy_file auth.client_cert_path (join (auth.store_path ∷ bytes "cert.pem" ∷ [])))
          >> map_error (wrapped "Copying key.pem to machine dir failed: ")
              (s.copy_file auth.client_key_path (join (auth.store_path ∷ bytes "key.pem" ∷ []))))

  -- The certificate of the server is for the names that are asked for, the machine's address and
  -- localhost.
  abbrev pub server_cert_options : (org ip : Text) → CertOptions
  server_cert_options org ip = record {
    hosts = auth.server_cert_sans ++ (ip ∷ bytes "localhost" ∷ []);
    cert_file = auth.server_cert_path;
    key_file = auth.server_key_path;
    ca_file = auth.ca_cert_path;
    ca_key_file = auth.ca_private_key_path;
    org = org;
    bits = 2048;
    swarm_master = s.swarm_options.master;
  }

  unfoldable pub generate_server_cert : (org ip : Text) → Act W (Unit {0})
  generate_server_cert org ip =
      map_error (wrapped "error generating server cert: ")
        (s.generate_cert (server_cert_options org ip))

  -- The three files are read before any is sent.
  unfoldable pub upload_certs : Act W (Unit {0})
  unfolding transfer_command
  upload_certs = s.read_file auth.ca_cert_path >>= λ ca_cert.
      s.read_file auth.server_cert_path >>= λ server_cert.
      s.read_file auth.server_key_path >>= λ server_key.
      command (transfer_command ca_cert auth.ca_cert_remote_path)
      >> (command (transfer_command server_cert auth.server_cert_remote_path)
          >> command (transfer_command server_key auth.server_key_remote_path))

  unfoldable pub docker_port : Act W ℤ
  unfolding port_of_host
  docker_port = s.driver.get_url >>= λ url.
      from_result (s.url_host url) >>= λ host. from_result (port_of_host host)

  unfoldable pub start_daemon : ℤ → Act W (Unit {0})
  unfolding options_command wait_for_docker dir
  start_daemon port = s.generate_docker_options port >>= λ dkrcfg.
      command (options_command (dir dkrcfg.engine_options_path) dkrcfg)
      >> (s.provisioner.service_action (bytes "docker") start
          >> wait_for_docker s.sleep s.provisioner port)

  unfoldable pub install_certs : Text → Act W (Unit {0})
  unfolding copy_certs generate_server_cert upload_certs
  install_certs org = s.driver.get_ip >>= λ ip.
      copy_certs
      >> (generate_server_cert org ip
          >> (s.provisioner.service_action (bytes "docker") stop
              >> (command delete_bridge_command >> upload_certs)))

  -- ConfigureAuth
  unfoldable pub configure_auth : Act W (Unit {0})
  unfolding install_certs docker_port start_daemon
  configure_auth w =
      let (machine_name, w1) = s.driver.get_machine_name w in
      let (user, w2) = s.username w1 in
      (install_certs (user ++ (b'.' ∷ machine_name)) >> (docker_port >>= start_daemon)) w2

module _ {W : Type 0} (ssh_command : Text → Act W Text) where
  -- getFilesystemType
  unfoldable pub get_filesystem_type : Text → Act W Text
  unfolding trim_space
  get_filesystem_type directory =
      map_error (wrapped "Error looking up filesystem type: ")
        (ssh_command (bytes "stat -f -c %T " ++ directory))
      >>= λ out. pure (trim_space out)

  -- decideStorageDriver
  unfoldable pub decide_storage_driver : (default_driver supplied_driver : Text) → Act W Text
  unfolding get_filesystem_type
  decide_storage_driver default_driver supplied_driver =
      if not (text_eq supplied_driver [])
      then pure supplied_driver
      else if not (text_eq default_driver default_storage_driver)
      then pure default_driver
      else (get_filesystem_type (bytes "/var/lib") >>= λ fstype.
          pure (if text_eq fstype (bytes "btrfs") then bytes "btrfs" else default_storage_driver))
