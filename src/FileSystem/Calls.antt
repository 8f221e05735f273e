-- ===== src/FileSystem/Calls.antt =====
-- What each call does to the view of the files: one that succeeds has its effect, and one that fails
-- none, but for a write.
use machine.Base.{
  ℕ, take, ◌≡◌, refl, sym, ap, ◌∙◌, ◌⊎◌, inl, inr, Bool, true, false, Option, none, some, List, [],
  ◌∷◌,
}
use machine.Base.Exec.{Result, ok, err, continue}
use machine.Text.{Text, text_eq}
use machine.Text.Dict.{Dict, lookup, insert}
use machine.Text.FilePath.{dir}
use machine.Errors.{Error, message, not_exist}
use machine.FileSystem.View.{
  View, view, update, Unchanged, Outcome, done, failed, may_fail-Outcome, untouched-Outcome,
  view_of_nodes, view-insert, view-erase, weaken,
}
use machine.FileSystem.{
  Node, file, directory, Fs, stat, node_at, write_file, temp_file, close, remove, rename, Fault,
  fine, fails, fails_after, under_fault, untouched, put_file, put_found, parent_error,
  is_a_directory, erase, stat_now, found, succeed, remove_now, temp_now, rename_now, move_file,
  remove_found, has_entries, not_empty,
}

-- Closing a file does nothing to the view.
pub close-Outcome :
    (name : Text) (fs : Fs)
    → Outcome (λ _. Unchanged (view fs)) (λ _. Unchanged (view fs)) (close name fs)
unfolding close
close-Outcome name fs =
    untouched-Outcome _ _ succeed fs (λ e. refl) (λ fs' e. done tt refl (view_of_nodes fs' fs e))

-- Stat tells whether there is a node, or fails for another reason, and leaves the files alone.
pub stat_cases :
    (path : Text) (fs : Fs)
    → (faults : List Fault) × ((stat path fs
          ≡ (found (node_at path fs.nodes), record fs { faults = faults }))
        ⊎ ((text : Text) × (stat path fs ≡ (err (message text), record fs { faults = faults }))))
unfolding stat
stat_cases path fs = go fs.faults
  where
    go :
        (faults : List Fault)
        → let r : Result Error Node × Fs = elim faults [
          | [] ↦ stat_now path fs
          | fault ∷ rest ↦ under_fault untouched (stat_now path) fault (record fs { faults = rest })
        ] in
          (left : List Fault) × ((r ≡ (found (node_at path fs.nodes), record fs { faults = left }))
            ⊎ ((text : Text) × (r ≡ (err (message text), record fs { faults = left }))))
    go [] = (fs.faults, inl refl)
    go (fine ∷ rest) = (rest, inl refl)
    go (fails text ∷ rest) = (rest, inr (text, refl))
    go (fails_after text n ∷ rest) = (rest, inr (text, refl))

-- Remove of what is there takes it away.
pub remove-Outcome :
    (path : Text) (fs : Fs)
    → Outcome (λ _ v. v ≡ update path none (view fs)) (λ _. Unchanged (view fs)) (remove path fs)
unfolding remove
remove-Outcome path fs =
    untouched-Outcome _ _ (remove_now path) fs (λ e. refl)
      (λ fs' e.
        answer fs' (lookup path fs'.nodes) (has_entries path fs'.nodes) (view_of_nodes fs' fs e))
  where
    answer :
        (fs' : Fs) (node : Option Node) (full : Bool)
        → view fs' ≡ view fs
        → Outcome
            (λ _ v. v ≡ update path none (view fs))
            (λ _. Unchanged (view fs))
            (remove_found path node full fs')
    answer fs' none full same = failed not_exist refl same
    answer fs' (some node) true same = failed not_empty refl same
    answer fs' (some node) false same =
        done tt refl (view-erase path fs' ∙ ap (update path none) same)

put_file-Outcome :
    (path text : Text) (fs : Fs)
    → Outcome
        (λ _ v. v ≡ update path (some (file text)) (view fs))
        (λ _. Unchanged (view fs))
        (put_file path text fs)
unfolding put_file
put_file-Outcome path text fs =
    go (node_at path fs.nodes) (parent_error (node_at (dir path) fs.nodes))
  where
    go :
        (node : Option Node) (parent : Option Error)
        → Outcome
            (λ _ v. v ≡ update path (some (file text)) (view fs))
            (λ _. Unchanged (view fs))
            (put_found path text node parent fs)
    go (some (file _)) parent = done tt refl (view-insert path (file text) fs)
    go (some directory) parent = failed is_a_directory refl refl
    go none none = done tt refl (view-insert path (file text) fs)
    go none (some e) = failed e refl refl

-- A write that succeeds leaves the file with the text; one that fails leaves all as it was, or the
-- file with the first bytes of the text.
pub write_file-Outcome :
    (path text : Text) (fs : Fs)
    → Outcome
        (λ _ v. v ≡ update path (some (file text)) (view fs))
        (λ _ v.
          Unchanged (view fs) v
          ⊎ ((n : ℕ) × (v ≡ update path (some (file (take n text))) (view fs))))
        (write_file path text fs)
unfolding write_file
write_file-Outcome path text fs =
    may_fail-Outcome _ _ (λ n. insert path (file (take n text))) (put_file path text) fs
      (λ e. inl refl) (λ e n. inr (n, view-insert path (file (take n text)) fs))
      (λ fs' e.
        let same = view_of_nodes fs' fs e in
        weaken (put_file-Outcome path text fs')
          (λ a v d. d ∙ ap (update path (some (file text))) same) (λ x v b. inl (b ∙ same)))

-- A temporary file is made under the name that was picked, and is empty.
pub temp_file-Outcome :
    (pick : Text → Text → Dict Node → Text) (parent prefix : Text) (fs : Fs)
    → let name = pick parent prefix fs.nodes in
      Outcome
        (λ a v. (a ≡ name) × (v ≡ update name (some (file [])) (view fs)))
        (λ _. Unchanged (view fs))
        (temp_file pick parent prefix fs)
unfolding temp_file
temp_file-Outcome pick parent prefix fs =
    untouched-Outcome _ _ (temp_now pick parent prefix) fs (λ e. refl)
      (λ fs' e. made fs' (ap (pick parent prefix) e) (view_of_nodes fs' fs e))
  where
    name : Text
    name = pick parent prefix fs.nodes

    named :
        (fs' : Fs) (name' : Text) (r : Result Error (Unit {0}) × Fs)
        → name' ≡ name
        → view fs' ≡ view fs
        → Outcome
            (λ _ v. v ≡ update name' (some (file [])) (view fs'))
            (λ _. Unchanged (view fs'))
            r
        → Outcome
            (λ a v. (a ≡ name) × (v ≡ update name (some (file [])) (view fs)))
            (λ _. Unchanged (view fs))
            (continue r.0 (λ _ fs''. (ok name', fs'')) r.1)
    named fs' name' r e same (done a q d) = rw q (done name' refl (e, d ∙ cc))
    named fs' name' r e same (failed x q b) = rw q (failed x refl (b ∙ same))

    made :
        (fs' : Fs)
        → pick parent prefix fs'.nodes ≡ name
        → view fs' ≡ view fs
        → Outcome
            (λ a v. (a ≡ name) × (v ≡ update name (some (file [])) (view fs)))
            (λ _. Unchanged (view fs))
            (temp_now pick parent prefix fs')
    made fs' e same =
        let name' = pick parent prefix fs'.nodes in
        named fs' name' (put_file name' [] fs') e same (put_file-Outcome name' [] fs')

-- A rename moves the file over what stood at the other path.
pub rename-Outcome :
    (old new : Text) (fs : Fs)
    → text_eq old new ≡ false
    → Outcome
        (λ _ v.
          (text : Text) × (view fs old ≡ some (file text))
          × (v ≡ update old none (update new (some (file text)) (view fs))))
        (λ _. Unchanged (view fs))
        (rename old new fs)
unfolding rename view
rename-Outcome old new fs other =
    untouched-Outcome _ _ (rename_now old new) fs (λ e. refl)
      (λ fs' e. rw other (moved fs' (lookup old fs'.nodes) refl (view_of_nodes fs' fs e)))
  where
    placed :
        (fs' : Fs) (text : Text) (r : Result Error (Unit {0}) × Fs)
        → view fs old ≡ some (file text)
        → view fs' ≡ view fs
        → Outcome
            (λ _ v. v ≡ update new (some (file text)) (view fs'))
            (λ _. Unchanged (view fs'))
            r
        → Outcome
            (λ _ v.
              (text : Text) × (view fs old ≡ some (file text))
              × (v ≡ update old none (update new (some (file text)) (view fs))))
            (λ _. Unchanged (view fs))
            (continue r.0 (λ _ fs''. (ok tt, record fs'' { nodes = erase old fs''.nodes })) r.1)
    placed fs' text r at_old same (done a q d) = rw q (
        done tt refl (
          text,
          at_old,
          view-erase old r.1 ∙ ap (update old none) (d ∙ ap (update new (some (file text))) same),
        ))
    placed fs' text r at_old same (failed x q b) = rw q (failed x refl (b ∙ same))

    moved :
        (fs' : Fs) (node : Option Node)
        → lookup old fs'.nodes ≡ node
        → view fs' ≡ view fs
        → Outcome
            (λ _ v.
              (text : Text) × (view fs old ≡ some (file text))
              × (v ≡ update old none (update new (some (file text)) (view fs))))
            (λ _. Unchanged (view fs))
            (move_file old new node fs')
    moved fs' none e same = failed not_exist refl same
    moved fs' (some directory) e same = failed is_a_directory refl same
    moved fs' (some (file text)) e same =
        placed fs' text (put_file new text fs') (ap (λ (v : View). v old) (sym same) ∙ e) same
          (put_file-Outcome new text fs')
