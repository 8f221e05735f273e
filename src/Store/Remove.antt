-- ===== src/Store/Remove.antt =====
-- What is left of a machine that is removed.
use machine.Base.{◌≡◌, refl, false, Option, [], ◌∷◌}
use machine.Base.Exec.{Result, ok, err}
use machine.Text.{Text, text_eq}
use machine.Text.Dict.{Dict}
use machine.Text.FilePath.{slash, dot}
use machine.Errors.{Error, host_does_not_exist}
use machine.Host.{Host}
use machine.Host.Legacy.{RawDataDriver, Codec}
use machine.FileSystem.{Node}
use machine.FileSystem.RemoveAll.{faultless, remove_all-faultless, stat-without}
use machine.Store.{Filestore, host_path, remove_machine, existing, exists, load}

module _ {J : Type 0} (json : Codec J) (marshal : Host (Option RawDataDriver) → Result Error Text)
    (pick : Text → Text → Dict Node → Text) (s : Filestore) where
  -- Where no call fails, `Remove` succeeds, after it `Exists` says no, and `Load` fails with the error
  -- that tells that the host does not exist. The directory of the machine is assumed to be another
  -- than the root and the working directory.
  pub remove_machine-gone :
      (name : Text) (nodes : Dict Node)
      → text_eq (host_path s name) (slash ∷ []) ≡ false
      → text_eq (host_path s name) dot ≡ false
      → let (r, fs) = remove_machine s name (faultless nodes) in
        (r ≡ ok tt)
        × ((exists s name fs).0 ≡ ok false)
        × ((load json marshal pick s name fs).0 ≡ err (host_does_not_exist name))
  unfolding remove_machine exists existing load
  remove_machine-gone name nodes a b = rw (remove_all-faultless (host_path s name) nodes) (
    refl,
    rw (stat-without (host_path s name) nodes a b) refl,
    rw (stat-without (host_path s name) nodes a b) refl,
  )
