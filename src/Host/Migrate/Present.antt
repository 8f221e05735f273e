-- ===== src/Host/Migrate/Present.antt =====
-- What `MigrateHost` returns.
use machine.Base.{
  ◌≡◌, refl, sym, ◌∙◌, ap, subst, String, ◌⊎◌, inl, inr, Bool, true, false, Option, none, some,
  arith, Bool-cases,
}
use machine.Base.Int.{ℤ, ltb_ℤ, eqb_ℤ, eqb_ℤ_eq}
use machine.Base.Exec.{Result, ok, err}
use machine.Text.{Text}
use machine.Text.FilePath.{dir}
use machine.Errors.{Error, config_from_future}
use machine.Host.{Host}
use machine.Host.Legacy.{
  RawDataDriver, MetadataV0, Codec, migrate_host_metadata_v0_to_host_metadata_v1,
}
use machine.Host.Legacy.StorePath.{Stored}
use machine.Host.Migrate.{
  Progress, present_version, unmarshalled, decoded_driver, migrate_from, rounds_from, migrate_older,
  read_present, finish, migrate_with, migrate_metadata, migrate_host, none_driver,
}
use machine.Host.Migrate.Loop.{on_ok-ok, ok_inj, Arrived, migrate_from-Arrived}

module _ {J : Type 0} (json : Codec J) (h : Host (Option RawDataDriver)) (data_text : Text) where
  abbrev driver_of : Text → Text → RawDataDriver
  driver_of store_path text = record (none_driver h.name store_path) { data_text = text }

  -- A host read as it stands in the file, with its driver's text beside it.
  abbrev pub ReadAsIs : Text → Host (Option RawDataDriver) → Type 0
  ReadAsIs store_path h' =
      (h0 : Host (Option RawDataDriver)) × (json.decode_host data_text
          (record h { driver = some (none_driver h.name store_path) })
        ≡ ok h0)
      × (h' ≡ record h0 {
        raw_driver =
            (decoded_driver json data_text store_path (none_driver h.name store_path)).data_text;
      })

  -- A host of the present version, with a driver whose text holds the store path.
  abbrev pub MadePresent : Text → Host (Option RawDataDriver) → Type 0
  MadePresent store_path h' =
      (h'.config_version ≡ present_version)
      × (h'.driver ≡ some (driver_of store_path h'.raw_driver))
      × Stored json store_path h'.raw_driver

  abbrev Told : ℤ → Text → Host (Option RawDataDriver) → Bool → Type 0
  Told version store_path h' performed =
      (version ≡ present_version) × ((performed ≡ false) × ReadAsIs store_path h')
      ⊎ (ltb_ℤ version present_version ≡ true) × ((performed ≡ true) × MadePresent store_path h')

  unmarshalled-ok :
      {A : Type 0} (prefix : String) (r : Result Text A) (a : A)
      → unmarshalled prefix r ≡ ok a
      → r ≡ ok a
  unmarshalled-ok prefix (ok b) a e = ap ok (ok_inj e)
  unmarshalled-ok prefix (err b) a e = cc

  migrate_older-MadePresent :
      (version : ℤ) (store_path : Text) (u : Host (Option RawDataDriver) × Bool)
      → ltb_ℤ version present_version ≡ true
      → migrate_older json data_text store_path h (none_driver h.name store_path) version ≡ ok u
      → (u.1 ≡ true) × MadePresent store_path u.0
  unfolding migrate_older finish
  migrate_older-MadePresent version store_path u below e =
      let (p, ended, e') =
        on_ok-ok
          (migrate_from json data_text store_path (rounds_from json data_text store_path version)
            start)
          _ u e in
      subst (λ v. (v.1 ≡ true) × MadePresent store_path v.0) (ok_inj e')
        (
          refl,
          at_end p (
              migrate_from-Arrived json data_text store_path h.name
                (rounds_from json data_text store_path version) start p refl below refl ended),
        )
    where
      start : Progress
      start = record {
        h = record h { config_version = version };
        driver = none_driver h.name store_path;
        host_v1 = none;
        host_v2 = none;
      }

      at_end :
          (p : Progress)
          → (p.h.config_version ≡ present_version) × Arrived json data_text store_path h.name p
          → MadePresent store_path (record p.h { raw_driver = p.driver.data_text })
      at_end p (version', (driver, ours, stored)) = (version', driver ∙ ap some ours, stored)

  migrate_with-Told :
      (version : ℤ) (store_path : Text) (u : Host (Option RawDataDriver) × Bool)
      → migrate_with json h data_text version store_path ≡ ok u
      → Told version store_path u.0 u.1
  unfolding migrate_with read_present finish
  migrate_with-Told version store_path u e = elim (Bool-cases (ltb_ℤ present_version version)) [
    | inl future ↦ from_future (sym (case_future future) ∙ e)
    | inr not_future ↦ elim (Bool-cases (eqb_ℤ version present_version)) [
      | inl now ↦
          inl (eqb_ℤ_eq version present_version now, as_is (sym (case_now not_future now) ∙ e))
      | inr not_now ↦
          let below : ltb_ℤ version present_version ≡ true = ground arith in
          inr (
            below,
            migrate_older-MadePresent version store_path u below
                (sym (case_older not_future not_now) ∙ e),
          )
    ]
  ]
    where
      driver : RawDataDriver
      driver = none_driver h.name store_path

      run : Result Error (Host (Option RawDataDriver) × Bool)
      run = migrate_with json h data_text version store_path

      case_future : ltb_ℤ present_version version ≡ true → run ≡ err config_from_future
      case_future a = rw a refl

      case_now :
          ltb_ℤ present_version version ≡ false
          → eqb_ℤ version present_version ≡ true
          → run ≡ read_present json data_text store_path h driver
      case_now a b = rw (a, b) refl

      case_older :
          ltb_ℤ present_version version ≡ false
          → eqb_ℤ version present_version ≡ false
          → run ≡ migrate_older json data_text store_path h driver version
      case_older a b = rw (a, b) refl

      from_future :
          ◌≡◌ {A = Result Error (Host (Option RawDataDriver) × Bool)}
            (err config_from_future)
            (ok u)
          → Told version store_path u.0 u.1
      from_future a = cc

      as_is :
          read_present json data_text store_path h driver ≡ ok u
          → (u.1 ≡ false) × ReadAsIs store_path u.0
      as_is e' =
          let prefix : String = "Error unmarshalling most recent host version: " in
          let decoded = json.decode_host data_text (record h { driver = some driver }) in
          let (h0, read, e'') = on_ok-ok (unmarshalled prefix decoded) _ u e' in
          subst (λ v. (v.1 ≡ false) × ReadAsIs store_path v.0) (ok_inj e'')
            (refl, (h0, unmarshalled-ok prefix decoded h0 read, refl))

  -- If `MigrateHost` succeeds on a file whose metadata can be read, the file's version is the
  -- present one, and the host is the file's, with the text of its driver as raw driver and no
  -- migration reported; or the file's version is older, a migration is reported, and the host has
  -- the present version, a raw driver that holds the directory two levels above the store path found
  -- in the file, and a driver with that text, the name that was asked for and that directory.
  pub migrate_host-present :
      (m : MetadataV0) (h' : Host (Option RawDataDriver)) (performed : Bool)
      → json.decode_metadata data_text ≡ ok (some m)
      → migrate_host json h data_text ≡ ok (h', performed)
      → (m.config_version ≡ present_version)
          × ((performed ≡ false) × ReadAsIs (dir (dir m.store_path)) h')
        ⊎ (ltb_ℤ m.config_version present_version ≡ true)
          × ((performed ≡ true) × MadePresent (dir (dir m.store_path)) h')
  unfolding migrate_host migrate_metadata migrate_host_metadata_v0_to_host_metadata_v1
  migrate_host-present m h' performed known e =
      migrate_with-Told m.config_version (dir (dir m.store_path)) (h', performed) (sym decoded ∙ e)
    where
      decoded :
          migrate_host json h data_text
          ≡ migrate_with json h data_text m.config_version (dir (dir m.store_path))
      decoded = rw (migrate_host, known) refl
