-- ===== src/Store.antt =====
-- libmachine/persist/filestore.go: hosts kept as files under the directory `machines`. The JSON
-- encoder is a parameter, and so is the name that `ioutil.TempFile` picks.
pub mod SaveToFile
pub mod Save
pub mod Remove
pub mod Migrated
pub mod LoadConfig
use machine.Base.{ℕ, Bool, true, false, ◌&&◌, not, Option, none, some, List, [], ◌∷◌, if◌then◌else◌}
use machine.Base.Int.{pos}
use machine.Base.Exec.{Result, ok, err, pure, raise, map_error, ◌>>=◌, ◌>>◌}
use machine.Text.{Text, bytes, has_prefix}
use machine.Text.Dict.{Dict}
use machine.Text.FilePath.{dot, dir, join}
use machine.Errors.{Error, not_exist, host_does_not_exist, wrapped}
use machine.Host.{Host}
use machine.Host.Legacy.{RawDataDriver, Codec}
use machine.Host.Migrate.{migrate_host}
use machine.FileSystem.{
  Node, Fs, Io, Entry, stat, read_file, write_file, temp_file, close, remove, rename, remove_all,
  mkdir_all, read_dir,
}

pub record Filestore : Type 0 where
  pub path : Text
  pub ca_cert_path : Text
  pub ca_private_key_path : Text

unfoldable pub get_machines_dir : Filestore → Text
get_machines_dir s = join (s.path ∷ bytes "machines" ∷ [])

unfoldable pub host_path : Filestore → Text → Text
unfolding get_machines_dir
host_path s name = join (get_machines_dir s ∷ name ∷ [])

-- os.IsNotExist
abbrev pub is_not_exist : {A : Type 0} → Result Error A → Bool
is_not_exist (ok a) = false
is_not_exist (err not_exist) = true
is_not_exist (err _) = false

-- `defer cleanup`: it runs at every return, and its error is dropped.
abbrev pub deferred : {A : Type 0} → Io (Unit {0}) → Io A → Io A
deferred cleanup m fs = let (r, fs') = m fs in (r, (cleanup fs').1)

abbrev pub temp_prefix : Text
temp_prefix = bytes "config.json.tmp"

-- The steps of `saveToFile` once the temporary file is made.
unfoldable pub write_and_move : Text → Text → Text → Io (Unit {0})
write_and_move data_text file name = do
  write_file name data_text
  close name
  remove file
  rename name file

module _ (pick : Text → Text → Dict Node → Text) where
  unfoldable pub replace_file : Text → Text → Io (Unit {0})
  unfolding write_and_move
  replace_file data_text file = do
    name ← temp_file pick (dir file) temp_prefix
    deferred (remove name) (write_and_move data_text file name)

  unfoldable pub save_to_file : Text → Text → Io (Unit {0})
  unfolding replace_file
  save_to_file data_text file fs =
      let (r, fs') = stat file fs in
      if is_not_exist r then write_file file data_text fs' else replace_file data_text file fs'

-- The names of the machines among the entries of a directory.
unfoldable pub machine_names : List Entry → List Text
machine_names [] = []
machine_names (e ∷ es) =
    let rest = machine_names es in
    if e.is_dir && not (has_prefix dot e.base_name) then e.base_name ∷ rest else rest

-- What `List` and `Exists` make of the result of their one call.
unfoldable pub listed : Result Error (List Entry) → Result Error (List Text)
unfolding machine_names
listed (ok entries) = ok (machine_names entries)
listed (err not_exist) = ok []
listed (err e) = err e

unfoldable pub existing : Result Error Node → Result Error Bool
existing (ok entry) = ok true
existing (err not_exist) = ok false
existing (err e) = err e

module _ (s : Filestore) where
  -- `(Filestore).Remove`
  unfoldable pub remove_machine : Text → Io (Unit {0})
  unfolding host_path
  remove_machine name = remove_all (host_path s name)

  -- `(Filestore).List`
  unfoldable pub list : Io (List Text)
  unfolding get_machines_dir listed
  list fs = let (r, fs') = read_dir (get_machines_dir s) fs in (listed r, fs')

  unfoldable pub exists : Text → Io Bool
  unfolding host_path existing
  exists name fs = let (r, fs') = stat (host_path s name) fs in (existing r, fs')

-- The file of a machine, under a name such as config.json.
unfoldable pub machine_file : Filestore → Text → Text → Text
unfolding get_machines_dir
machine_file s name file_name = join (get_machines_dir s ∷ name ∷ file_name ∷ [])

module _ {D : Type 0} (marshal : Host D → Result Error Text) (pick : Text → Text → Dict Node → Text)
    (s : Filestore) where
  -- `(Filestore).Save`
  unfoldable pub save : Host D → Io (Unit {0})
  unfolding host_path
  save h = elim (marshal h) [
    | err e ↦ raise e
    | ok data_text ↦
        mkdir_all (host_path s h.name)
        >> save_to_file pick data_text (join (host_path s h.name ∷ bytes "config.json" ∷ []))
  ]

-- &host.Host{Name: name}
abbrev pub named_host : Text → Host (Option RawDataDriver)
named_host name = record {
  config_version = pos 0;
  driver = none;
  driver_name = [];
  host_options = none;
  name = name;
  raw_driver = [];
}

module _ {J : Type 0} (json : Codec J) (marshal : Host (Option RawDataDriver) → Result Error Text)
    (pick : Text → Text → Dict Node → Text) (s : Filestore) where
  -- After a migration the file's old text is kept aside and the host is saved.
  unfoldable pub save_migrated : Text → Host (Option RawDataDriver) → Io (Unit {0})
  unfolding machine_file save
  save_migrated data_text h = do
    map_error (wrapped "Error attempting to save backup after migration: ")
        (save_to_file pick data_text (machine_file s h.name (bytes "config.json.bak")))
    map_error (wrapped "Error saving config after migration was performed: ")
        (save marshal pick s h)

  unfoldable pub load_migrated :
      Text
      → Text
      → Result Error (Host (Option RawDataDriver) × Bool)
      → Io (Host (Option RawDataDriver))
  unfolding save_migrated
  load_migrated name data_text (err e) = raise (wrapped "Error getting migrated host: " e)
  load_migrated name data_text (ok (migrated, performed)) = do
    let h = record migrated { name = name }
    (if performed then save_migrated data_text h else pure tt)
    pure h

  unfoldable pub load_config : Host (Option RawDataDriver) → Io (Host (Option RawDataDriver))
  unfolding load_migrated machine_file
  load_config h = do
    data_text ← read_file (machine_file s h.name (bytes "config.json"))
    load_migrated h.name data_text (migrate_host json h data_text)

  unfoldable pub load : Text → Io (Host (Option RawDataDriver))
  unfolding host_path load_config
  load name fs =
      let (r, fs') = stat (host_path s name) fs in
      if is_not_exist r
      then (err (host_does_not_exist name), fs')
      else load_config (named_host name) fs'
