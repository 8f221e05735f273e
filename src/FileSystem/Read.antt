-- ===== src/FileSystem/Read.antt =====
-- Reading a file.
use machine.Base.{◌≡◌, refl, ap, ◌∙◌, some}
use machine.Text.{Text}
use machine.FileSystem.{file, Fs, read_file, read_now, text_of, node_at}
use machine.FileSystem.View.{view, Outcome, done, untouched-Outcome, view_of_nodes}

-- Reading a file gives its text and changes nothing.
pub read_file-Outcome :
    (path text : Text) (fs : Fs)
    → node_at path fs.nodes ≡ some (file text)
    → Outcome (λ t v. (t ≡ text) × (v ≡ view fs)) (λ _ v. v ≡ view fs) (read_file path fs)
unfolding read_file read_now text_of
read_file-Outcome path text fs there =
    untouched-Outcome _ _ (read_now path) fs (λ _. refl)
      λ fs' same. done text (ap text_of (at_path fs' same)) (refl, view_of_nodes fs' fs same)
  where
    at_path : (fs' : Fs) → fs'.nodes ≡ fs.nodes → node_at path fs'.nodes ≡ some (file text)
    at_path fs' same = ap (node_at path) same ∙ there
