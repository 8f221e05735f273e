-- ===== src/Host/Legacy.antt =====
-- The older formats of a host's configuration and the steps between them: libmachine/host/host_v0.go,
-- host_v2.go, migrate_v0_v1.go, migrate_v1_v2.go and migrate_v2_v3.go.
pub mod StorePath
pub mod Auth
use machine.Base.{Bool, true, false, Option, none, some, List, [], ◌∷◌}
use machine.Base.Int.{ℤ, pos}
use machine.Base.Exec.{Result, ok, err}
use machine.Text.{Text, bytes}
use machine.Text.Dict.{Dict, insert}
use machine.Text.FilePath.{dir, join}
use machine.Errors.{Error, message, panic}
use machine.Options.{AuthOptions, EngineOptions, SwarmOptions}
use machine.Driver.Defaults.{default_engine_install_url}
use machine.Host.{HostOptions, Host, no_swarm}

-- A driver that keeps the JSON text of its configuration: the embedded driver `none` with the two
-- fields that its constructor sets, and the text.
pub record RawDataDriver : Type 0 where
  pub machine_name : Text
  pub store_path : Text
  pub data_text : Text

pub record V0 : Type 0 where
  pub name : Text
  pub driver : Option RawDataDriver
  pub driver_name : Text
  pub config_version : ℤ
  pub host_options : Option HostOptions
  pub store_path : Text
  pub ca_cert_path : Text
  pub private_key_path : Text
  pub server_cert_path : Text
  pub server_key_path : Text
  pub client_cert_path : Text
  pub swarm_host : Text
  pub swarm_master : Bool
  pub swarm_discovery : Text
  pub client_key_path : Text

pub record MetadataV0 : Type 0 where
  pub host_options : HostOptions
  pub driver_name : Text
  pub config_version : ℤ
  pub store_path : Text
  pub ca_cert_path : Text
  pub private_key_path : Text
  pub server_cert_path : Text
  pub server_key_path : Text
  pub client_cert_path : Text

pub record Metadata : Type 0 where
  pub config_version : ℤ
  pub driver_name : Text
  pub host_options : HostOptions

pub record AuthOptionsV1 : Type 0 where
  pub store_path : Text
  pub ca_cert_path : Text
  pub ca_cert_remote_path : Text
  pub server_cert_path : Text
  pub server_key_path : Text
  pub client_key_path : Text
  pub server_cert_remote_path : Text
  pub server_key_remote_path : Text
  pub private_key_path : Text
  pub client_cert_path : Text

pub record OptionsV1 : Type 0 where
  pub driver : Text
  pub memory : ℤ
  pub disk : ℤ
  pub engine_options : Option EngineOptions
  pub swarm_options : Option SwarmOptions
  pub auth_options : Option AuthOptionsV1

pub record V1 : Type 0 where
  pub config_version : ℤ
  pub driver : Option RawDataDriver
  pub driver_name : Text
  pub host_options : Option OptionsV1
  pub name : Text
  pub store_path : Text

pub record V2 : Type 0 where
  pub config_version : ℤ
  pub driver : Option RawDataDriver
  pub driver_name : Text
  pub host_options : Option HostOptions
  pub name : Text

-- `engine.Options{}`
abbrev pub no_engine : EngineOptions
no_engine = record {
  arbitrary_flags = [];
  dns = [];
  graph_dir = [];
  env = [];
  ipv6 = false;
  insecure_registry = [];
  labels = [];
  log_level = [];
  storage_driver = [];
  selinux_enabled = false;
  tls_verify = false;
  registry_mirror = [];
  install_url = [];
}

unfoldable pub migrate_host_v0_to_host_v1 : V0 → V1
migrate_host_v0_to_host_v1 host_v0 = record {
  config_version = pos 0;
  driver = host_v0.driver;
  driver_name = host_v0.driver_name;
  host_options = some (record {
    driver = [];
    memory = pos 0;
    disk = pos 0;
    engine_options =
        some (record no_engine { tls_verify = true; install_url = default_engine_install_url });
    swarm_options = some (record no_swarm {
      discovery = host_v0.swarm_discovery;
      host = host_v0.swarm_host;
      master = host_v0.swarm_master;
    });
    auth_options = some (record {
      store_path = host_v0.store_path;
      ca_cert_path = host_v0.ca_cert_path;
      ca_cert_remote_path = [];
      server_cert_path = host_v0.server_cert_path;
      server_key_path = host_v0.server_key_path;
      client_key_path = host_v0.client_key_path;
      server_cert_remote_path = [];
      server_key_remote_path = [];
      private_key_path = host_v0.private_key_path;
      client_cert_path = host_v0.client_cert_path;
    });
  });
  name = [];
  store_path = [];
}

unfoldable pub migrate_host_metadata_v0_to_host_metadata_v1 : MetadataV0 → Metadata
migrate_host_metadata_v0_to_host_metadata_v1 m = record {
  config_version = m.config_version;
  driver_name = m.driver_name;
  host_options = record {
    driver = [];
    memory = pos 0;
    disk = pos 0;
    engine_options = some no_engine;
    swarm_options = none;
    auth_options = some (record {
      cert_dir = [];
      ca_cert_path = m.ca_cert_path;
      ca_private_key_path = m.private_key_path;
      ca_cert_remote_path = [];
      server_cert_path = m.server_cert_path;
      server_key_path = m.server_key_path;
      client_key_path = [];
      server_cert_remote_path = [];
      server_key_remote_path = [];
      client_cert_path = m.client_cert_path;
      server_cert_sans = [];
      store_path = m.store_path;
    });
  };
}

-- The options of version 2, with the global store path at hand.
unfoldable pub migrate_auth_options : Text → AuthOptionsV1 → AuthOptions
migrate_auth_options global_store_path auth = record {
  cert_dir = join (global_store_path ∷ bytes "certs" ∷ []);
  ca_cert_path = auth.ca_cert_path;
  ca_private_key_path = auth.private_key_path;
  ca_cert_remote_path = auth.ca_cert_remote_path;
  server_cert_path = auth.server_cert_path;
  server_key_path = auth.server_key_path;
  client_key_path = auth.client_key_path;
  server_cert_remote_path = auth.server_cert_remote_path;
  server_key_remote_path = auth.server_key_remote_path;
  client_cert_path = auth.client_cert_path;
  server_cert_sans = [];
  store_path = global_store_path;
}

-- The three pointers that the step follows.
v2_of : V1 → Option RawDataDriver → Option OptionsV1 → Result Error V2
unfolding migrate_auth_options
v2_of host_v1 none options = err panic
v2_of host_v1 (some driver) none = err panic
v2_of host_v1 (some driver) (some options) = elim options.auth_options [
  | none ↦ err panic
  | some auth ↦ ok (record {
    config_version = host_v1.config_version;
    driver = some driver;
    driver_name = host_v1.driver_name;
    host_options = some (record {
      driver = options.driver;
      memory = options.memory;
      disk = options.disk;
      engine_options = options.engine_options;
      swarm_options = options.swarm_options;
      auth_options = some (migrate_auth_options (dir (dir host_v1.store_path)) auth);
    });
    name = driver.machine_name;
  })
]

unfoldable pub migrate_host_v1_to_host_v2 : V1 → Result Error V2
unfolding v2_of
migrate_host_v1_to_host_v2 host_v1 = v2_of host_v1 host_v1.driver host_v1.host_options

-- The field `Driver` of a configuration file: what `encoding/json` hands to a decoder.
pub data DriverField : Type 0 where
  missing null : DriverField
  raw : Text → DriverField

-- What decoding a text into `map[string]interface{}` gives.
pub data Decoded (J : Type 0) : Type 0 where
  undecodable null_map : Decoded J
  object : Dict J → Decoded J

-- `encoding/json` for the types of a configuration, over the values `J` of its dynamic decoder.
pub record Codec (J : Type 0) : Type 0 where
  pub decode_metadata : Text → Result Text (Option MetadataV0)
  pub decode_host : Text → Host (Option RawDataDriver) → Result Text (Host (Option RawDataDriver))
  pub decode_v0 : Text → Option RawDataDriver → Result Text V0
  pub decode_v1 : Text → Option RawDataDriver → Result Text V1
  pub decode_v2 : Text → Option RawDataDriver → Result Text V2
  pub driver_field : Text → DriverField
  pub decode_object : Text → Decoded J
  pub encode_object : Dict J → Text
  pub string_value : Text → J

module _ {J : Type 0} (json : Codec J) where
  -- The map that gets the store path; a nil map cannot be written to.
  with_store_path : Text → Decoded J → Result Error (Dict J)
  with_store_path store_path undecodable =
      ok (insert (bytes "StorePath") (json.string_value store_path) [])
  with_store_path store_path null_map = err panic
  with_store_path store_path (object m) =
      ok (insert (bytes "StorePath") (json.string_value store_path) m)

  v3_of : V2 → Result Error (Dict J) → Result Error (Host (Option RawDataDriver))
  v3_of host_v2 (err e) = err e
  v3_of host_v2 (ok m) = ok (record {
    config_version = pos 2;
    driver = none;
    driver_name = host_v2.driver_name;
    host_options = host_v2.host_options;
    name = host_v2.name;
    raw_driver = json.encode_object m;
  })

  -- `*rawHost.Driver` stops at a nil pointer.
  v3_from : V2 → DriverField → Text → Result Error (Host (Option RawDataDriver))
  v3_from host_v2 missing store_path = err panic
  v3_from host_v2 null store_path = err panic
  v3_from host_v2 (raw driver) store_path =
      v3_of host_v2 (with_store_path store_path (json.decode_object driver))

  unfoldable pub migrate_host_v2_to_host_v3 :
      V2 → Text → Text → Result Error (Host (Option RawDataDriver))
  unfolding v3_from v3_of with_store_path
  migrate_host_v2_to_host_v3 host_v2 data_text store_path =
      v3_from host_v2 (json.driver_field data_text) store_path
