-- ===== src/Store/SaveToFile.antt =====
-- What `saveToFile` leaves of the files, whichever of its calls fail.
pub mod Steps
use mathlib.Core.Path.{fun_ext}
use machine.Base.{
  ℕ, take, ◌≡◌, refl, sym, ap, ◌∙◌, ◌⊎◌, inl, inr, Bool, true, false, Option, none, some, List, [],
  arith, Bool-cases, if◌then◌else◌,
}
use machine.Base.Exec.{Result, ok, err, ◌>>=◌, ◌>>◌}
use machine.Text.{Text, text_eq, text_eq_iff, text_eq_refl}
use machine.Text.Dict.{Dict, lookup}
use machine.Text.FilePath.{dir}
use machine.Errors.{Error, message}
use machine.FileSystem.{
  Node, file, Fault, Fs, Io, write_file, close, remove, rename, temp_file, stat, found, node_at,
}
use machine.FileSystem.View.{
  View, view, update, Unchanged, Outcome, done, failed, weaken, Outcome-bind,
}
use machine.FileSystem.Calls.{
  close-Outcome, stat_cases, remove-Outcome, write_file-Outcome, temp_file-Outcome, rename-Outcome,
}
use machine.Store.{temp_prefix, deferred, is_not_exist, write_and_move, replace_file, save_to_file}
use machine.Store.SaveToFile.Steps.{
  update_self, update_other, Saved, Spared, replace_file-Outcome, Saved-update,
}

-- What a failing save leaves: all other files as they were, the temporary one aside, and at the path
-- what stood there, or nothing, or, where nothing stood there, the first bytes of the new text.
pub record NothingMixed (before : Fs) (tmp data_text target : Text) (v : View) : Type 0 where
  pub elsewhere :
      (j : Text) → text_eq tmp j ≡ false → text_eq target j ≡ false → v j ≡ view before j
  pub at_target :
      (v target ≡ view before target)
      ⊎ ((v target ≡ none)
          ⊎ (node_at target before.nodes ≡ none)
            × ((n : ℕ) × (v target ≡ some (file (take n data_text)))))

-- The files before a call, the temporary file that the call would make, and what is assumed of the
-- name that `ioutil.TempFile` picks: no file bears it, and it is not that of the file to save.
module _ (pick : Text → Text → Dict Node → Text) (data_text target : Text) (fs : Fs)
    (fresh : lookup (pick (dir target) temp_prefix fs.nodes) fs.nodes ≡ none)
    (other : text_eq (pick (dir target) temp_prefix fs.nodes) target ≡ false) where
  -- The name of the temporary file being new and not that of the file to save, however the calls
  -- of `saveToFile` fail or succeed: if it returns no error, the file has the new text and every
  -- other file is as it was, the temporary one gone. If it returns an error, every file but these
  -- two is as it was, and at the path stands what stood there, or nothing, or, if nothing stood
  -- there, the first so many bytes of the new text.
  pub save_to_file-Outcome :
      Outcome
        (λ _ v. v ≡ update target (some (file data_text)) (view fs))
        (λ _. NothingMixed fs (pick (dir target) temp_prefix fs.nodes) data_text target)
        (save_to_file pick data_text target fs)
  unfolding save_to_file view found
  save_to_file-Outcome = go (stat_cases target fs)
    where
      Goal : Result Error (Unit {0}) × Fs → Type 0
      Goal =
          Outcome (λ _ v. v ≡ update target (some (file data_text)) (view fs))
            (λ _. NothingMixed fs (pick (dir target) temp_prefix fs.nodes) data_text target)

      tmp : Text
      tmp = pick (dir target) temp_prefix fs.nodes

      lift :
          {n m : Option Node}
          → (n ≡ m) ⊎ (n ≡ none)
          → (n ≡ m)
            ⊎ ((n ≡ none)
                ⊎ (node_at target fs.nodes ≡ none)
                  × ((k : ℕ) × (n ≡ some (file (take k data_text)))))
      lift (inl e) = inl e
      lift (inr e) = inr (inl e)

      replaced :
          (faults : List Fault)
          → Goal (replace_file pick data_text target (record fs { faults = faults }))
      replaced faults =
          weaken
            (replace_file-Outcome pick data_text target (record fs { faults = faults }) fresh other)
            (λ _ v s. Saved-update pick data_text target fs fresh other v s)
            (λ _ v s. record { elsewhere = s.elsewhere; at_target = lift s.old_or_gone })

      written :
          (faults : List Fault)
          → node_at target fs.nodes ≡ none
          → Goal (write_file target data_text (record fs { faults = faults }))
      written faults e =
          weaken (write_file-Outcome target data_text (record fs { faults = faults })) (λ _ v d. d)
            (λ _ v b. cut_short v b)
        where
          cut_short :
              (v : View)
              → (v ≡ view fs)
                ⊎ ((n : ℕ) × (v ≡ update target (some (file (take n data_text))) (view fs)))
              → NothingMixed fs tmp data_text target v
          cut_short v (inl same) = record {
            elsewhere = λ j a b. ap (λ (w : View). w j) same;
            at_target = inl (ap (λ (w : View). w target) same);
          }
          cut_short v (inr (n, d)) = record {
            elsewhere = λ j a b. rw d (update_other target _ (view fs) j b);
            at_target = inr (inr (e, (n, rw d (update_self target _ (view fs)))));
          }

      go :
          (faults : List Fault) × ((stat target fs
                ≡ (found (node_at target fs.nodes), record fs { faults = faults }))
              ⊎ ((text : Text) × (stat target fs
                    ≡ (err (message text), record fs { faults = faults }))))
          → Goal (save_to_file pick data_text target fs)
      go (faults, inr (text, e)) = rw e (replaced faults)
      go (faults, inl e) = rw e (by_node (node_at target fs.nodes) refl)
        where
          by_node :
              (entry : Option Node)
              → node_at target fs.nodes ≡ entry
              → Goal (
                  if is_not_exist (found entry)
                  then write_file target data_text (record fs { faults = faults })
                  else replace_file pick data_text target (record fs { faults = faults }))
          by_node none e = written faults e
          by_node (some n) e = replaced faults
