-- ===== src/Options.antt =====
-- The option records: libmachine/auth/auth.go, libmachine/engine/engine.go and
-- libmachine/swarm/swarm.go, and libmachine/mcnflag/flag.go for the flags of a driver.
use machine.Base.{Bool, List}
use machine.Base.Int.{ℤ}
use machine.Text.{Text}

pub record AuthOptions : Type 0 where
  pub cert_dir : Text
  pub ca_cert_path : Text
  pub ca_private_key_path : Text
  pub ca_cert_remote_path : Text
  pub server_cert_path : Text
  pub server_key_path : Text
  pub client_key_path : Text
  pub server_cert_remote_path : Text
  pub server_key_remote_path : Text
  pub client_cert_path : Text
  pub server_cert_sans : List Text
  pub store_path : Text

pub record EngineOptions : Type 0 where
  pub arbitrary_flags : List Text
  pub dns : List Text
  pub graph_dir : Text
  pub env : List Text
  pub ipv6 : Bool
  pub insecure_registry : List Text
  pub labels : List Text
  pub log_level : Text
  pub storage_driver : Text
  pub selinux_enabled : Bool
  pub tls_verify : Bool
  pub registry_mirror : List Text
  pub install_url : Text

-- `Overcommit` is a float that is only copied: it stands here by its decimal notation.
pub record SwarmOptions : Type 0 where
  pub is_swarm : Bool
  pub address : Text
  pub discovery : Text
  pub agent : Bool
  pub master : Bool
  pub host : Text
  pub image : Text
  pub strategy : Text
  pub heartbeat : ℤ
  pub overcommit : Text
  pub arbitrary_flags : List Text
  pub arbitrary_join_flags : List Text
  pub env : List Text
  pub is_experimental : Bool

pub data Flag : Type 0 where
  string_flag : (name usage env_var value : Text) → Flag
  string_slice_flag : (name usage env_var : Text) → (value : List Text) → Flag
  int_flag : (name usage env_var : Text) → (value : ℤ) → Flag
  bool_flag : (name usage env_var : Text) → Flag
