-- ===== src/Store/Migrated.antt =====
-- What loading a file of an older version leaves in its place.
use machine.Base.{◌≡◌, refl, sym, ap, ◌∙◌, subst, ◌⊎◌, inl, inr, Bool, true, false, Option, some}
use machine.Base.Int.{ltb_ℤ}
use machine.Base.Exec.{Result, ok, err, pure, map_error, bind-inverse, map_err-ok}
use machine.Text.{Text, bytes}
use machine.Text.Dict.{Dict}
use machine.Text.FilePath.{dir}
use machine.Errors.{Error, wrapped}
use machine.Host.{Host}
use machine.Host.Legacy.{RawDataDriver, MetadataV0, Codec}
use machine.Host.Migrate.{present_version, migrate_host}
use machine.Host.Migrate.Present.{ReadAsIs, MadePresent, migrate_host-present}
use machine.FileSystem.{Node, file, Fs, read_file, node_at}
use machine.FileSystem.Read.{read_file-Outcome}
use machine.FileSystem.View.{view, Outcome, done, failed}
use machine.Store.{Filestore, machine_file, load_config, load_migrated, save_migrated, save_to_file}
use machine.Store.Save.{Fresh, config_path, save-stored}

module _ {J : Type 0} (json : Codec J) (marshal : Host (Option RawDataDriver) → Result Error Text)
    (pick : Text → Text → Dict Node → Text) (s : Filestore) where
  -- `config.json` holds the text that encodes the host.
  abbrev pub Stored : Host (Option RawDataDriver) → Fs → Type 0
  Stored h fs =
      (text : Text) × (marshal h ≡ ok text) × (view fs (config_path s h.name) ≡ some (file text))

  save_migrated-Stored :
      (data_text : Text) (h : Host (Option RawDataDriver)) (fs : Fs)
      → Fresh pick (config_path s h.name)
      → (save_migrated json marshal pick s data_text h fs).0 ≡ ok tt
      → Stored h (save_migrated json marshal pick s data_text h fs).1
  unfolding save_migrated
  save_migrated-Stored data_text h fs fresh e =
      let back_up =
        map_error (wrapped "Error attempting to save backup after migration: ")
          (save_to_file pick data_text (machine_file s h.name (bytes "config.json.bak"))) in
      let (_, _, same) = bind-inverse back_up _ fs tt e in
      rw same (
        save-stored marshal pick s h _ fresh (
          map_err-ok (wrapped "Error saving config after migration was performed: ") _ tt
            (ap (λ r. r.0) (sym same) ∙ e)))

  load_migrated-Stored :
      (name data_text : Text) (h0 h' : Host (Option RawDataDriver)) (fs : Fs)
      → Fresh pick (config_path s name)
      → (load_migrated json marshal pick s name data_text (ok (h0, true)) fs).0 ≡ ok h'
      → (h' ≡ record h0 { name = name })
        × Stored h' (load_migrated json marshal pick s name data_text (ok (h0, true)) fs).1
  unfolding load_migrated
  load_migrated-Stored name data_text h0 h' fs fresh e =
      let hn : Host (Option RawDataDriver) = record h0 { name = name } in
      let (u, saved, same) =
        bind-inverse (save_migrated json marshal pick s data_text hn) (λ _. pure hn) fs h' e in
      let renamed : h' ≡ hn = cc in
      (
        renamed,
        rw same (
            subst (λ g. Stored g (save_migrated json marshal pick s data_text hn fs).1)
              (sym renamed) (save_migrated-Stored data_text hn fs fresh saved)),
      )

  -- When a file of an older version, whose metadata can be read, is loaded with success, the host
  -- has the present version and bears the name that was asked for, and `config.json` then holds
  -- the text that encodes it. The name of a temporary file is assumed to be new and not that of
  -- `config.json`.
  pub load_config-Stored :
      (h h' : Host (Option RawDataDriver)) (data_text : Text) (m : MetadataV0) (fs : Fs)
      → Fresh pick (config_path s h.name)
      → node_at (machine_file s h.name (bytes "config.json")) fs.nodes ≡ some (file data_text)
      → json.decode_metadata data_text ≡ ok (some m)
      → ltb_ℤ m.config_version present_version ≡ true
      → (load_config json marshal pick s h fs).0 ≡ ok h'
      → (h'.config_version ≡ present_version)
        × (h'.name ≡ h.name)
        × Stored h' (load_config json marshal pick s h fs).1
  unfolding load_config
  load_config-Stored h h' data_text m fs fresh there known older e =
      let (t, was_read, same) =
        bind-inverse (read_file path)
          (λ t. load_migrated json marshal pick s h.name t (migrate_host json h t)) fs h' e in
      let same_text : t ≡ data_text =
        the_text t was_read (read_file-Outcome path data_text fs there) in
      let whole : load_config json marshal pick s h fs ≡ after data_text =
        same ∙ ap after same_text in
      subst Goal (sym whole) (
        by_result (migrate_host json h data_text) refl
          (sym (ap {A = Result Error (Host (Option RawDataDriver)) × Fs} (λ r. r.0) whole) ∙ e))
    where
      path : Text
      path = machine_file s h.name (bytes "config.json")

      fs1 : Fs
      fs1 = (read_file path fs).1

      after : Text → Result Error (Host (Option RawDataDriver)) × Fs
      after t = load_migrated json marshal pick s h.name t (migrate_host json h t) fs1

      the_text :
          (t : Text)
          → (read_file path fs).0 ≡ ok t
          → Outcome
              (λ u v. (u ≡ data_text) × (v ≡ view fs))
              (λ _ v. v ≡ view fs)
              (read_file path fs)
          → t ≡ data_text
      the_text t q (done u p (a, _)) = let b : t ≡ u = cc in b ∙ a
      the_text t q (failed x p _) = cc

      Goal : Result Error (Host (Option RawDataDriver)) × Fs → Type 0
      Goal run = (h'.config_version ≡ present_version) × (h'.name ≡ h.name) × Stored h' run.1

      by_performed :
          (h0 : Host (Option RawDataDriver)) (performed : Bool)
          → performed ≡ true
          → h0.config_version ≡ present_version
          → (load_migrated json marshal pick s h.name data_text (ok (h0, performed)) fs1).0 ≡ ok h'
          → Goal (load_migrated json marshal pick s h.name data_text (ok (h0, performed)) fs1)
      by_performed h0 true p present q =
          let (renamed, stored) = load_migrated-Stored h.name data_text h0 h' fs1 fresh q in
          (ap (λ g. g.config_version) renamed ∙ present, ap (λ g. g.name) renamed, stored)
      by_performed h0 false p present q = cc

      by_result :
          (r : Result Error (Host (Option RawDataDriver) × Bool))
          → migrate_host json h data_text ≡ r
          → (load_migrated json marshal pick s h.name data_text r fs1).0 ≡ ok h'
          → Goal (load_migrated json marshal pick s h.name data_text r fs1)
      by_result (err x) p q = cc
      by_result (ok (h0, performed)) p q =
          by_case (migrate_host-present json h data_text m h0 performed known p)
        where
          by_case :
              (m.config_version ≡ present_version)
                  × ((performed ≡ false) × ReadAsIs json h data_text (dir (dir m.store_path)) h0)
                ⊎ (ltb_ℤ m.config_version present_version ≡ true)
                  × ((performed ≡ true) × MadePresent json h data_text (dir (dir m.store_path)) h0)
              → Goal (load_migrated json marshal pick s h.name data_text (ok (h0, performed)) fs1)
          by_case (inl (now, _)) =
              let absurd : true ≡ false = sym older ∙ ap (λ v. ltb_ℤ v present_version) now in cc
          by_case (inr (_, (was_performed, (present, _, _)))) =
              by_performed h0 performed was_performed present q
