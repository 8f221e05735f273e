-- ===== src/Store/Save.antt =====
-- What `Save` stores.
use machine.Base.{◌≡◌, refl, ap, ◌∙◌, false, none, some, [], ◌∷◌}
use machine.Base.Exec.{Result, ok, err, raise, ◌>>◌, then-ok_iff, then-ok}
use machine.Text.{Text, bytes, text_eq}
use machine.Text.Dict.{Dict, lookup}
use machine.Text.FilePath.{dir, join}
use machine.Errors.{Error}
use machine.Host.{Host}
use machine.FileSystem.{Node, file, Fs, Io, mkdir_all}
use machine.FileSystem.View.{View, view, update, Outcome, done, failed, weaken}
use machine.Store.{Filestore, temp_prefix, save_to_file, host_path, save}
use machine.Store.SaveToFile.{save_to_file-Outcome}
use machine.Store.SaveToFile.Steps.{update_self}

abbrev pub config_path : Filestore → Text → Text
config_path s name = join (host_path s name ∷ bytes "config.json" ∷ [])

-- The name that `ioutil.TempFile` picks in the directory of `target` is new, and it is not `target`.
pub record Fresh (pick : Text → Text → Dict Node → Text) (target : Text) : Type 0 where
  pub unused : (nodes : Dict Node) → lookup (pick (dir target) temp_prefix nodes) nodes ≡ none
  pub other : (nodes : Dict Node) → text_eq (pick (dir target) temp_prefix nodes) target ≡ false

module _ {D : Type 0} (marshal : Host D → Result Error Text) (pick : Text → Text → Dict Node → Text)
    (s : Filestore) (h : Host D) (fs : Fs) where
  -- When `Save` returns no error, the host was encoded and `config.json` in its directory has the
  -- text that encodes it, whether the file was there before or not. The name of a temporary file
  -- is assumed to be new and not that of `config.json`.
  pub save-stored :
      Fresh pick (config_path s h.name)
      → (save marshal pick s h fs).0 ≡ ok tt
      → (data_text : Text) × (marshal h ≡ ok data_text)
        × (view (save marshal pick s h fs).1 (config_path s h.name) ≡ some (file data_text))
  unfolding save
  save-stored fresh e = go (marshal h) e
    where
      store_at : Text → Io (Unit {0})
      store_at data_text = save_to_file pick data_text (config_path s h.name)

      made : Fs
      made = (mkdir_all (host_path s h.name) fs).1

      written :
          (data_text : Text)
          → Outcome
              (λ _ v. v ≡ update (config_path s h.name) (some (file data_text)) (view made))
              (λ _ _. Unit {0})
              (store_at data_text made)
      written data_text =
          weaken
            (save_to_file-Outcome pick data_text (config_path s h.name) made
              (fresh.unused made.nodes) (fresh.other made.nodes))
            (λ _ v d. d) (λ _ v b. tt)

      at_target :
          (data_text : Text)
          → Outcome
              (λ _ v. v ≡ update (config_path s h.name) (some (file data_text)) (view made))
              (λ _ _. Unit {0})
              (store_at data_text made)
          → (store_at data_text made).0 ≡ ok tt
          → view (store_at data_text made).1 (config_path s h.name) ≡ some (file data_text)
      at_target data_text (done a p d) q =
          ap (λ (v : View). v (config_path s h.name)) d
          ∙ update_self (config_path s h.name) _ (view made)
      at_target data_text (failed x p b) q = cc

      saved : Result Error Text → Io (Unit {0})
      saved (err x) = raise x
      saved (ok data_text) = mkdir_all (host_path s h.name) >> store_at data_text

      go :
          (encoded : Result Error Text)
          → (saved encoded fs).0 ≡ ok tt
          → (data_text : Text) × (encoded ≡ ok data_text)
            × (view (saved encoded fs).1 (config_path s h.name) ≡ some (file data_text))
      go (err x) e = cc
      go (ok data_text) e =
          let (made_there, stored) =
            (then-ok_iff (mkdir_all (host_path s h.name)) (store_at data_text) fs).0 e in
          (
            data_text,
            refl,
            rw (then-ok (mkdir_all (host_path s h.name)) (store_at data_text) fs made_there)
                (at_target data_text (written data_text) stored),
          )
