-- ===== src/Host/Legacy/Auth.antt =====
-- What becomes of the options for authentication of a host of version 0 or 1.
use machine.Base.{◌≡◌, refl, some}
use machine.Base.Exec.{ok}
use machine.Text.{bytes}
use machine.Text.FilePath.{dir, join, clean}
use machine.Options.{AuthOptions}
use machine.Host.{HostOptions}
use machine.Host.Legacy.{
  RawDataDriver, V0, V2, migrate_auth_options, v2_of, migrate_host_v0_to_host_v1,
  migrate_host_v1_to_host_v2,
}

-- The options of a host of version 2.
abbrev pub HasAuth : V2 → AuthOptions → Type 0
HasAuth host_v2 auth =
    (options : HostOptions) × (host_v2.host_options ≡ some options)
    × (options.auth_options ≡ some auth)

-- The paths of certificates and keys are those of the host of version 0.
pub record KeepsPaths (host_v0 : V0) (auth : AuthOptions) : Type 0 where
  pub ca_cert_kept : auth.ca_cert_path ≡ host_v0.ca_cert_path
  pub ca_private_key_kept : auth.ca_private_key_path ≡ host_v0.private_key_path
  pub server_cert_kept : auth.server_cert_path ≡ host_v0.server_cert_path
  pub server_key_kept : auth.server_key_path ≡ host_v0.server_key_path
  pub client_cert_kept : auth.client_cert_path ≡ host_v0.client_cert_path
  pub client_key_kept : auth.client_key_path ≡ host_v0.client_key_path

-- A host of version 0 with a driver is always brought to version 2, under the driver's name. The
-- paths of its certificates and keys are kept, but its store path is not: whatever it was, the
-- options name the working directory as store path and `certs` below it as the directory of
-- certificates.
pub migrate_v0_to_v2-auth_options :
    (host_v0 : V0) (driver : RawDataDriver)
    → host_v0.driver ≡ some driver
    → (host_v2 : V2) × (migrate_host_v1_to_host_v2 (migrate_host_v0_to_host_v1 host_v0)
        ≡ ok host_v2)
      × (host_v2.name ≡ driver.machine_name)
      × (auth : AuthOptions) × HasAuth host_v2 auth
      × KeepsPaths host_v0 auth
      × (auth.store_path ≡ bytes ".")
      × (auth.cert_dir ≡ bytes "certs")
unfolding migrate_host_v0_to_host_v1 migrate_host_v1_to_host_v2 v2_of migrate_auth_options dir join
    clean
migrate_v0_to_v2-auth_options host_v0 driver e = rw e (
  _,
  refl,
  refl,
  _,
  (_, refl, refl),
  record {
    ca_cert_kept = refl;
    ca_private_key_kept = refl;
    server_cert_kept = refl;
    server_key_kept = refl;
    client_cert_kept = refl;
    client_key_kept = refl;
  },
  refl,
  refl,
)
