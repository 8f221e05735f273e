-- ===== src/Store/LoadConfig.antt =====
-- What loading the file of a machine does to the files.
use machine.Base.{◌≡◌, refl, sym, ap, ◌∙◌, ◌⊎◌, inl, inr, Bool, true, false, Option, some}
use machine.Base.Int.{ltb_ℤ}
use machine.Base.Exec.{Result, ok, err}
use machine.Text.{Text, bytes}
use machine.Text.Dict.{Dict}
use machine.Text.FilePath.{dir}
use machine.Errors.{Error}
use machine.Host.{Host}
use machine.Host.Legacy.{RawDataDriver, MetadataV0, Codec}
use machine.Host.Migrate.{present_version, migrate_host}
use machine.Host.Migrate.Present.{ReadAsIs, MadePresent, migrate_host-present}
use machine.FileSystem.{Node, file, Fs, read_file, node_at}
use machine.FileSystem.Read.{read_file-Outcome}
use machine.FileSystem.View.{view, Outcome, done, failed, Outcome-bind}
use machine.Store.{Filestore, machine_file, load_config, load_migrated}

module _ {J : Type 0} (json : Codec J) (marshal : Host (Option RawDataDriver) → Result Error Text)
    (pick : Text → Text → Dict Node → Text) (s : Filestore) (h : Host (Option RawDataDriver))
    (data_text : Text) (m : MetadataV0) (fs : Fs) where
  -- The host of the file under the name that was asked for.
  abbrev pub Renamed : Host (Option RawDataDriver) → Type 0
  Renamed h' =
      (h0 : Host (Option RawDataDriver)) × ReadAsIs json h data_text (dir (dir m.store_path)) h0
      × (h' ≡ record h0 { name = h.name })

  -- Loading a file of the present version, whose metadata can be read, changes no file, whether
  -- it succeeds or fails; when it succeeds, the host is that of the file, under the name that was
  -- asked for.
  pub load_config-Outcome :
      node_at (machine_file s h.name (bytes "config.json")) fs.nodes ≡ some (file data_text)
      → json.decode_metadata data_text ≡ ok (some m)
      → m.config_version ≡ present_version
      → Outcome
          (λ h' v. Renamed h' × (v ≡ view fs))
          (λ _ v. v ≡ view fs)
          (load_config json marshal pick s h fs)
  unfolding load_config load_migrated
  load_config-Outcome there known now =
      Outcome-bind (read_file (machine_file s h.name (bytes "config.json"))) _ fs
        (read_file-Outcome _ data_text fs there) (λ _ v b. b)
        (λ t fs' (same_text, same_view).
          rw same_text (go (migrate_host json h data_text) refl fs' same_view))
    where
      go :
          (r : Result Error (Host (Option RawDataDriver) × Bool))
          → migrate_host json h data_text ≡ r
          → (fs' : Fs) → view fs' ≡ view fs
          → Outcome
              (λ h' v. Renamed h' × (v ≡ view fs))
              (λ _ v. v ≡ view fs)
              (load_migrated json marshal pick s h.name data_text r fs')
      go (err e) p fs' same = failed _ refl same
      go (ok (h0, performed)) p fs' same =
          by_case (migrate_host-present json h data_text m h0 performed known p)
        where
          by_case :
              (m.config_version ≡ present_version)
                  × ((performed ≡ false) × ReadAsIs json h data_text (dir (dir m.store_path)) h0)
                ⊎ (ltb_ℤ m.config_version present_version ≡ true)
                  × ((performed ≡ true) × MadePresent json h data_text (dir (dir m.store_path)) h0)
              → Outcome
                  (λ h' v. Renamed h' × (v ≡ view fs))
                  (λ _ v. v ≡ view fs)
                  (load_migrated json marshal pick s h.name data_text (ok (h0, performed)) fs')
          by_case (inl (_, (not_performed, as_is))) =
              rw not_performed (done _ refl ((h0, as_is, refl), same))
          by_case (inr (older, _)) =
              let absurd : true ≡ false = sym older ∙ ap (λ v. ltb_ℤ v present_version) now in cc
