-- ===== src/Host/Migrate.antt =====
-- libmachine/host/migrate.go: a configuration file of any version made into a host of the present
-- one.
pub mod Loop
pub mod Present
use machine.Base.{
  ℕ, zero, suc, ◌+◌, ◌-◌, String, Bool, true, false, Option, none, some, List, [], ◌∷◌,
  if◌then◌else◌,
}
use machine.Base.Int.{ℤ, pos, negsuc, pos_part, neg_part, ltb_ℤ, eqb_ℤ, increment}
use machine.Base.Exec.{Result, ok, err}
use machine.Text.{Text}
use machine.Text.Dict.{Dict}
use machine.Text.FilePath.{dir}
use machine.Errors.{Error, message, wrapped, config_from_future, panic}
use machine.Host.{Host}
use machine.Host.Legacy.{
  RawDataDriver, MetadataV0, Metadata, V0, V1, V2, Codec, DriverField, missing, null, raw,
  migrate_host_metadata_v0_to_host_metadata_v1, migrate_host_v0_to_host_v1,
  migrate_host_v1_to_host_v2, migrate_host_v2_to_host_v3,
}

-- `version.ConfigVersion`
abbrev pub present_version : ℤ
present_version = pos 3

-- `if err != nil { return err }`
abbrev pub on_ok : {A B : Type 0} → Result Error A → (A → Result Error B) → Result Error B
on_ok (ok a) f = f a
on_ok (err e) f = err e

-- fmt.Errorf(prefix + "%s", err)
abbrev pub unmarshalled : {A : Type 0} → String → Result Text A → Result Error A
unmarshalled prefix (ok a) = ok a
unmarshalled prefix (err e) = err (wrapped prefix (message e))

-- `(*RawDataDriver).UnmarshalJSON` keeps the text. The decoder calls it on the driver that the
-- field holds already, unless the file has no such field or a null there.
unfoldable pub unmarshal_driver : DriverField → RawDataDriver → RawDataDriver
unmarshal_driver missing driver = driver
unmarshal_driver null driver = driver
unmarshal_driver (raw text) driver = record driver { data_text = text }

-- The variables that the loop of `MigrateHost` changes.
pub record Progress : Type 0 where
  pub h : Host (Option RawDataDriver)
  pub driver : RawDataDriver
  pub host_v1 : Option V1
  pub host_v2 : Option V2

module _ {J : Type 0} (json : Codec J) (data_text global_store_path : Text) where
  -- The driver once the file is decoded into a host that points to it.
  unfoldable pub decoded_driver : RawDataDriver → RawDataDriver
  unfolding unmarshal_driver
  decoded_driver driver = unmarshal_driver (json.driver_field data_text) driver

  unfoldable pub migrate_0 : Progress → Result Error Progress
  unfolding decoded_driver
  migrate_0 p =
      on_ok
        (unmarshalled "Error unmarshalling host config version 0: "
          (json.decode_v0 data_text (some p.driver)))
        (λ host_v0. ok (record p {
          driver = decoded_driver p.driver;
          host_v1 = some (migrate_host_v0_to_host_v1 host_v0);
        }))

  -- The host of version 1: of the step before, or of the file.
  unfoldable pub get_v1 : Progress → Result Error (V1 × RawDataDriver)
  unfolding decoded_driver
  get_v1 p = elim p.host_v1 [
    | some host_v1 ↦ ok (host_v1, p.driver)
    | none ↦
        on_ok
          (unmarshalled "Error unmarshalling host config version 1: "
            (json.decode_v1 data_text (some p.driver)))
          (λ host_v1. ok (host_v1, decoded_driver p.driver))
  ]

  unfoldable pub migrate_1 : Progress → Result Error Progress
  unfolding get_v1
  migrate_1 p = on_ok (get_v1 p) (λ (host_v1, driver).
      on_ok (migrate_host_v1_to_host_v2 host_v1) (λ host_v2.
        ok (record p { driver = driver; host_v1 = some host_v1; host_v2 = some host_v2 })))

  unfoldable pub get_v2 : Progress → Result Error (V2 × RawDataDriver)
  unfolding decoded_driver
  get_v2 p = elim p.host_v2 [
    | some host_v2 ↦ ok (host_v2, p.driver)
    | none ↦
        on_ok
          (unmarshalled "Error unmarshalling host config version 2: "
            (json.decode_v2 data_text (some p.driver)))
          (λ host_v2. ok (host_v2, decoded_driver p.driver))
  ]

  unfoldable pub migrate_2 : Progress → Result Error Progress
  unfolding get_v2
  migrate_2 p = on_ok (get_v2 p) (λ (host_v2, driver).
      on_ok (migrate_host_v2_to_host_v3 json host_v2 data_text global_store_path) (λ h.
        let driver' = record driver { data_text = h.raw_driver } in
        ok (record {
          h = record h { driver = some driver' };
          driver = driver';
          host_v1 = p.host_v1;
          host_v2 = some host_v2;
        })))

  -- `switch h.ConfigVersion`
  unfoldable pub migrate_case : Progress → Result Error Progress
  unfolding migrate_0 migrate_1 migrate_2
  migrate_case p =
      let version = p.h.config_version in
      if eqb_ℤ version (pos 0)
      then migrate_0 p
      else if eqb_ℤ version (pos 1)
      then migrate_1 p
      else if eqb_ℤ version (pos 2)
      then migrate_2 p
      else ok p

  -- `h.ConfigVersion++`
  abbrev pub next : Progress → Progress
  next p = record p { h = record p.h { config_version = increment p.h.config_version } }

  -- The loop, for at most `rounds` rounds.
  unfoldable pub migrate_from : (rounds : ℕ) → Progress → Result Error Progress
  unfolding migrate_case
  migrate_from zero p = ok p
  migrate_from (suc rounds) p =
      if ltb_ℤ p.h.config_version present_version
      then on_ok (migrate_case p) (λ q. migrate_from rounds (next q))
      else ok p

  -- The rounds from a version to the present one.
  abbrev pub rounds_from : ℤ → ℕ
  rounds_from version = 3 + neg_part version - pos_part version

  -- The end of `MigrateHost`, with the driver that is at hand.
  unfoldable pub finish :
      RawDataDriver → Host (Option RawDataDriver) → Bool → Host (Option RawDataDriver) × Bool
  finish driver h performed = (record h { raw_driver = driver.data_text }, performed)

  -- The branch of a file of the present version.
  unfoldable pub read_present :
      Host (Option RawDataDriver)
      → RawDataDriver
      → Result Error (Host (Option RawDataDriver) × Bool)
  unfolding decoded_driver finish
  read_present h driver =
      on_ok
        (unmarshalled "Error unmarshalling most recent host version: "
          (json.decode_host data_text (record h { driver = some driver })))
        (λ h'. ok (finish (decoded_driver driver) h' false))

  -- The branch of a file of an older version.
  unfoldable pub migrate_older :
      Host (Option RawDataDriver)
      → RawDataDriver
      → ℤ
      → Result Error (Host (Option RawDataDriver) × Bool)
  unfolding migrate_from finish
  migrate_older h driver version =
      on_ok
        (migrate_from (rounds_from version) (record {
          h = record h { config_version = version };
          driver = driver;
          host_v1 = none;
          host_v2 = none;
        }))
        (λ p. ok (finish p.driver p.h true))

-- none.NewDriver
abbrev pub none_driver : Text → Text → RawDataDriver
none_driver name store_path = record {
  machine_name = name;
  store_path = store_path;
  data_text = [];
}

module _ {J : Type 0} (json : Codec J) (h : Host (Option RawDataDriver)) (data_text : Text) where
  -- `MigrateHost` once the version and the store path above the file's are known.
  unfoldable pub migrate_with : ℤ → Text → Result Error (Host (Option RawDataDriver) × Bool)
  unfolding migrate_older read_present
  migrate_with version global_store_path =
      let driver = none_driver h.name global_store_path in
      if ltb_ℤ present_version version
      then err config_from_future
      else if eqb_ℤ version present_version
      then read_present json data_text global_store_path h driver
      else migrate_older json data_text global_store_path h driver version

  -- Once the metadata is migrated.
  unfoldable pub migrate_metadata : Metadata → Result Error (Host (Option RawDataDriver) × Bool)
  unfolding migrate_with
  migrate_metadata m = elim m.host_options.auth_options [
    | none ↦ err panic
    | some auth ↦ migrate_with m.config_version (dir (dir auth.store_path))
  ]

  unfoldable pub migrate_host : Result Error (Host (Option RawDataDriver) × Bool)
  unfolding migrate_metadata
  migrate_host = elim (json.decode_metadata data_text) [
    | err e ↦ err (message e)
    | ok metadata ↦ elim metadata [
      | none ↦ err panic
      | some m ↦ migrate_metadata (migrate_host_metadata_v0_to_host_metadata_v1 m)
    ]
  ]
