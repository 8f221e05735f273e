-- ===== src/Tests/Migrate.antt =====
-- Configuration files of several versions: libmachine/host/migrate_test.go and more, over a toy
-- encoder whose files are "v" and a digit.
use machine.Base.{◌≡◌, refl, ◌⊎◌, true, false, Option, none, some, [], ◌∷◌, ◌++◌, if◌then◌else◌}
use machine.Base.Int.{ℤ, pos, ltb_ℤ}
use machine.Base.Exec.{Result, ok, err}
use machine.Text.{Text, bytes, text_eq, split, has_prefix}
use machine.Text.Dict.{Dict, lookup, insert, filter_keys}
use machine.Text.FilePath.{dir, join, clean}
use machine.Errors.{host_does_not_exist, Error}
use machine.Options.{AuthOptions}
use machine.FileSystem.{
  file, node_at, is_below, stat, found, read_file, write_file, close, remove, rename, temp_file,
  mkdir_all,
}
use machine.FileSystem.View.{view, Outcome}
use machine.Host.{Host}
use machine.Host.Legacy.{
  RawDataDriver, MetadataV0, V0, V2, Codec, raw, object,
  migrate_host_metadata_v0_to_host_metadata_v1, migrate_host_v0_to_host_v1,
  migrate_host_v2_to_host_v3, migrate_host_v1_to_host_v2,
}
use machine.Host.Legacy.Auth.{HasAuth, KeepsPaths, migrate_v0_to_v2-auth_options}
use machine.Host.Migrate.{present_version, migrate_host}
use machine.Host.Migrate.Present.{ReadAsIs, MadePresent, migrate_host-present}
use machine.Store.{
  remove_machine, exists, load, save, save_to_file, replace_file, write_and_move, temp_prefix,
  Filestore, machine_file, get_machines_dir, host_path, load_config, named_host,
}
use machine.Store.Save.{Fresh, config_path, save-stored}
use machine.Store.Remove.{remove_machine-gone}
use machine.Store.LoadConfig.{Renamed, load_config-Outcome}
use machine.Store.Migrated.{Stored, load_config-Stored}
use machine.Tests.Files.{longer, lookup-longer}
use machine.Tests.Store.{config, one_machine}

abbrev version_of : Text → ℤ
version_of text =
    if text_eq text (bytes "v2") then pos 2 else if text_eq text (bytes "v3") then pos 3 else pos 9

abbrev metadata : ℤ → MetadataV0
metadata version = record {
  host_options = record {
    driver = [];
    memory = pos 0;
    disk = pos 0;
    engine_options = none;
    swarm_options = none;
    auth_options = none;
  };
  driver_name = bytes "simple";
  config_version = version;
  store_path = bytes "/s/machines/box";
  ca_cert_path = [];
  private_key_path = [];
  server_cert_path = [];
  server_key_path = [];
  client_cert_path = [];
}

abbrev host_v0 : Option RawDataDriver → V0
host_v0 driver = record {
  name = bytes "box";
  driver = driver;
  driver_name = bytes "simple";
  config_version = pos 0;
  host_options = none;
  store_path = bytes "/s/machines/box";
  ca_cert_path = bytes "/s/certs/ca.pem";
  private_key_path = bytes "/s/certs/ca-key.pem";
  server_cert_path = [];
  server_key_path = [];
  client_cert_path = [];
  swarm_host = [];
  swarm_master = false;
  swarm_discovery = [];
  client_key_path = [];
}

abbrev fields : Dict Text → Text
fields [] = []
fields ((k, v) ∷ d) = k ++ (b'=' ∷ (v ++ (b';' ∷ fields d)))

abbrev toy : Codec Text
toy = record {
  decode_metadata = λ text. ok (some (metadata (version_of text)));
  decode_host = λ text h. ok (record h { config_version = pos 3; driver_name = bytes "simple" });
  decode_v0 = λ text driver. ok (host_v0 driver);
  decode_v1 = λ text driver. ok (migrate_host_v0_to_host_v1 (host_v0 driver));
  decode_v2 = λ text driver. ok (record {
    config_version = pos 2;
    driver = driver;
    driver_name = bytes "simple";
    host_options = none;
    name = bytes "box";
  });
  driver_field = λ text. raw (bytes "{}");
  decode_object = λ text. object ((bytes "Memory", bytes "1024") ∷ []);
  encode_object = fields;
  string_value = λ t. t;
}

abbrev marshal : Host (Option RawDataDriver) → Result Error Text
marshal h = ok (bytes "v3")

abbrev store : Filestore
store = record { path = bytes "/s"; ca_cert_path = []; ca_private_key_path = [] }

abbrev box : Host (Option RawDataDriver)
box = named_host (bytes "box")

abbrev migrated : Host (Option RawDataDriver)
migrated = record {
  config_version = pos 3;
  driver = some (record {
    machine_name = bytes "box";
    store_path = bytes "/s";
    data_text = bytes "Memory=1024;StorePath=/s;";
  });
  driver_name = bytes "simple";
  host_options = none;
  name = bytes "box";
  raw_driver = bytes "Memory=1024;StorePath=/s;";
}

migrates_v2 : migrate_host toy box (bytes "v2") ≡ ok (migrated, true)
unfolding migrate_host dir clean text_eq split insert migrate_host_metadata_v0_to_host_metadata_v1
    migrate_host_v2_to_host_v3
migrates_v2 = refl

migrate_host-present_example :
    (pos 2 ≡ present_version)
      × ((true ≡ false)
          × ReadAsIs toy box (bytes "v2") (dir (dir (bytes "/s/machines/box"))) migrated)
    ⊎ (ltb_ℤ (pos 2) present_version ≡ true)
      × ((true ≡ true)
          × MadePresent toy box (bytes "v2") (dir (dir (bytes "/s/machines/box"))) migrated)
unfolding text_eq
migrate_host-present_example =
    migrate_host-present toy box (bytes "v2") (metadata (pos 2)) migrated true refl migrates_v2

migrate_v0_to_v2-auth_options_example :
    (host_v2 : V2) × (migrate_host_v1_to_host_v2
        (migrate_host_v0_to_host_v1 (host_v0 migrated.driver))
      ≡ ok host_v2)
    × (host_v2.name ≡ bytes "box")
    × (auth : AuthOptions) × HasAuth host_v2 auth
    × KeepsPaths (host_v0 migrated.driver) auth
    × (auth.store_path ≡ bytes ".")
    × (auth.cert_dir ≡ bytes "certs")
migrate_v0_to_v2-auth_options_example =
    migrate_v0_to_v2-auth_options (host_v0 migrated.driver) _ refl

box_file : machine_file store (bytes "box") (bytes "config.json") ≡ config
unfolding machine_file join clean text_eq split
box_file = refl

fresh : Fresh longer (config_path store (bytes "box"))
unfolding host_path get_machines_dir join dir clean text_eq split
fresh = record {
  unused = λ nodes. lookup-longer (dir (config_path store (bytes "box"))) temp_prefix nodes;
  other = λ nodes. refl;
}

box_there :
    (text : Text)
    → node_at (machine_file store (bytes "box") (bytes "config.json")) (one_machine [] text).nodes
      ≡ some (file text)
unfolding machine_file get_machines_dir node_at lookup join clean text_eq split
box_there text = refl

load_config-Outcome_example :
    Outcome
      (λ h' v.
        Renamed toy marshal longer store box
          (bytes "v3")
          (metadata (pos 3))
          (one_machine [] (bytes "v3"))
          h'
        × (v ≡ view (one_machine [] (bytes "v3"))))
      (λ _ v. v ≡ view (one_machine [] (bytes "v3")))
      (load_config toy marshal longer store box (one_machine [] (bytes "v3")))
unfolding text_eq
load_config-Outcome_example =
    load_config-Outcome toy marshal longer store box (bytes "v3") (metadata (pos 3))
      (one_machine [] (bytes "v3")) (box_there (bytes "v3")) refl refl

saves : (save marshal longer store migrated (one_machine [] (bytes "v2"))).0 ≡ ok tt
unfolding save save_to_file replace_file write_and_move mkdir_all write_file close remove rename
    temp_file stat found node_at host_path get_machines_dir join dir clean text_eq split lookup
    insert is_below has_prefix filter_keys
saves = refl

save-stored_example :
    (text : Text) × (marshal migrated ≡ ok text)
    × (view
          (save marshal longer store migrated (one_machine [] (bytes "v2"))).1
          (config_path store (bytes "box"))
        ≡ some (file text))
save-stored_example =
    save-stored marshal longer store migrated (one_machine [] (bytes "v2")) fresh saves

loads : (load_config toy marshal longer store box (one_machine [] (bytes "v2"))).0 ≡ ok migrated
unfolding load_config migrate_host machine_file save save_to_file replace_file write_and_move
    mkdir_all write_file read_file close remove rename temp_file stat found node_at host_path
    get_machines_dir join dir clean text_eq split lookup insert is_below has_prefix filter_keys
    migrate_host_metadata_v0_to_host_metadata_v1 migrate_host_v2_to_host_v3
loads = refl

load_config-Stored_example :
    (migrated.config_version ≡ present_version)
    × (migrated.name ≡ bytes "box")
    × Stored toy marshal longer store migrated
        (load_config toy marshal longer store box (one_machine [] (bytes "v2"))).1
unfolding text_eq
load_config-Stored_example =
    load_config-Stored toy marshal longer store box migrated (bytes "v2") (metadata (pos 2))
      (one_machine [] (bytes "v2")) fresh (box_there (bytes "v2")) refl refl loads

remove_machine-gone_example :
    let (r, fs) = remove_machine store (bytes "box") (one_machine [] (bytes "v3")) in
    (r ≡ ok tt)
    × ((exists store (bytes "box") fs).0 ≡ ok false)
    × ((load toy marshal longer store (bytes "box") fs).0 ≡ err (host_does_not_exist (bytes "box")))
unfolding host_path get_machines_dir join clean text_eq split
remove_machine-gone_example =
    remove_machine-gone toy marshal longer store (bytes "box") (one_machine [] (bytes "v3")).nodes
      refl refl
