-- ===== src/Tests/Store.antt =====
-- The store at concrete inputs: libmachine/persist/filestore_test.go and more.
use machine.Base.{◌≡◌, refl, some, List, [], ◌∷◌}
use machine.Base.Exec.{err}
use machine.Text.{Text, bytes, text_eq, split, has_prefix}
use machine.Text.Dict.{lookup, insert, filter_keys}
use machine.Text.FilePath.{dir, clean}
use machine.Errors.{message}
use machine.FileSystem.{
  file, directory, Fault, fine, fails, Fs, write_file, close, remove, rename, temp_file, stat,
  found, node_at, is_below,
}
use machine.FileSystem.View.{view, update, Outcome}
use machine.Store.{temp_prefix, write_and_move, replace_file, save_to_file}
use machine.Store.SaveToFile.{NothingMixed, save_to_file-Outcome}
use machine.Tests.Files.{longer, lookup-longer}

abbrev pub config : Text
config = bytes "/s/machines/box/config.json"

-- A directory of one machine.
abbrev pub one_machine : List Fault → Text → Fs
one_machine faults text = record {
  nodes =
      (bytes "/s", directory)
      ∷ (bytes "/s/machines", directory)
      ∷ (bytes "/s/machines/box", directory)
      ∷ (config, file text)
      ∷ [];
  faults = faults;
}

pub pick_dir : dir config ≡ bytes "/s/machines/box"
unfolding dir clean text_eq split
pick_dir = refl

-- When the last call of `saveToFile` fails, the machine has no configuration any more, neither the
-- old nor the new one.
lost :
    let (r, fs) = save_to_file longer (bytes "new") config (
      one_machine
        (fine ∷ fine ∷ fine ∷ fine ∷ fine ∷ fails (bytes "no space") ∷ [])
        (bytes "old")) in
    (r ≡ err (message (bytes "no space")))
    × (fs.nodes
        ≡ (bytes "/s", directory)
          ∷ (bytes "/s/machines", directory)
          ∷ (bytes "/s/machines/box", directory)
          ∷ [])
unfolding save_to_file replace_file write_and_move write_file close remove rename temp_file stat
    found node_at dir clean text_eq split lookup insert is_below has_prefix filter_keys
lost = (refl, refl)

save_to_file-Outcome_example :
    Outcome
      (λ _ v. v ≡ update config (some (file (bytes "new"))) (view (one_machine [] (bytes "old"))))
      (λ _.
        NothingMixed
          (one_machine [] (bytes "old"))
          (longer (dir config) temp_prefix (one_machine [] (bytes "old")).nodes)
          (bytes "new")
          config)
      (save_to_file longer (bytes "new") config (one_machine [] (bytes "old")))
unfolding pick_dir
save_to_file-Outcome_example =
    save_to_file-Outcome longer (bytes "new") config (one_machine [] (bytes "old"))
      (lookup-longer (dir config) temp_prefix (one_machine [] (bytes "old")).nodes) refl
