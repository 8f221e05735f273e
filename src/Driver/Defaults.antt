-- ===== src/Driver/Defaults.antt =====
-- libmachine/drivers/base.go: the fields and methods that drivers embed. A getter that fills in a
-- default writes it to the struct.
use machine.Base.{◌≡◌, refl, arith, inl, inr, Bool-cases, Bool, ◌&&◌, not, [], ◌∷◌, if◌then◌else◌}
use machine.Base.Int.{ℤ, pos, eqb_ℤ}
use machine.Base.Exec.{Result, ok, err}
use machine.Text.{Text, bytes, text_eq}
use machine.Text.FilePath.{join}
use machine.Errors.{Error, message}
use machine.Driver.{DriverOptions}

abbrev pub default_ssh_user : Text
default_ssh_user = bytes "root"

abbrev pub default_ssh_port : ℤ
default_ssh_port = pos 22

abbrev pub default_engine_install_url : Text
default_engine_install_url = bytes "https://get.docker.com"

pub record BaseDriver : Type 0 where
  pub ip_address : Text
  pub machine_name : Text
  pub ssh_user : Text
  pub ssh_port : ℤ
  pub ssh_key_path : Text
  pub store_path : Text
  pub swarm_master : Bool
  pub swarm_host : Text
  pub swarm_discovery : Text

module _ (d : BaseDriver) where
  unfoldable pub resolve_store_path : Text → Text
  resolve_store_path file = join (d.store_path ∷ bytes "machines" ∷ d.machine_name ∷ file ∷ [])

  unfoldable pub get_ip : Result Error Text
  get_ip =
      if text_eq d.ip_address []
      then err (message (bytes "IP address is not set"))
      else ok d.ip_address

  unfoldable pub get_ssh_key_path : Text × BaseDriver
  unfolding resolve_store_path
  get_ssh_key_path =
      let d' =
        if text_eq d.ssh_key_path []
        then record d { ssh_key_path = resolve_store_path (bytes "id_rsa") }
        else d in
      (d'.ssh_key_path, d')

  unfoldable pub get_ssh_port : Result Error ℤ × BaseDriver
  get_ssh_port =
      let d' = if eqb_ℤ d.ssh_port (pos 0) then record d { ssh_port = default_ssh_port } else d in
      (ok d'.ssh_port, d')

  unfoldable pub get_ssh_username : Text × BaseDriver
  get_ssh_username =
      let d' = if text_eq d.ssh_user [] then record d { ssh_user = default_ssh_user } else d in
      (d'.ssh_user, d')

  unfoldable pub set_swarm_config_from_flags : DriverOptions → BaseDriver
  set_swarm_config_from_flags flags = record d {
    swarm_master = flags.bool (bytes "swarm-master");
    swarm_host = flags.string (bytes "swarm-host");
    swarm_discovery = flags.string (bytes "swarm-discovery");
  }

unfoldable pub engine_install_url_set : Text → Bool
engine_install_url_set url = not (text_eq url default_engine_install_url) && not (text_eq url [])

unfoldable pub engine_install_url_flag_set : DriverOptions → Bool
unfolding engine_install_url_set
engine_install_url_flag_set flags =
    engine_install_url_set (flags.string (bytes "engine-install-url"))

-- `GetSSHKeyPath` answers the same when it is asked again, changes nothing but the path of the key,
-- and its answer is that path, or `id_rsa` in the directory of the machine if it was empty.
pub ssh_key_path_settles :
    (d : BaseDriver)
    → let (path, d') = get_ssh_key_path d in
      (get_ssh_key_path d' ≡ (path, d'))
      × (d' ≡ record d { ssh_key_path = path })
      × (path ≡ (
          if text_eq d.ssh_key_path []
          then resolve_store_path d (bytes "id_rsa")
          else d.ssh_key_path))
unfolding get_ssh_key_path
ssh_key_path_settles d = elim (Bool-cases (text_eq d.ssh_key_path [])) [
  | inl unset ↦ elim (Bool-cases (text_eq (resolve_store_path d (bytes "id_rsa")) [])) [
    | inl e ↦ rw unset (rw e, refl, refl)
    | inr e ↦ rw unset (rw e, refl, refl)
  ]
  | inr is_set ↦ rw is_set (rw is_set, refl, refl)
]

-- `GetSSHPort` has no error, answers the same when it is asked again, changes nothing but the port,
-- and its answer is that port, or 22 if it was 0.
pub ssh_port_settles :
    (d : BaseDriver)
    → let (port, d') = get_ssh_port d in
      (get_ssh_port d' ≡ (port, d'))
      × (port ≡ ok (if eqb_ℤ d.ssh_port (pos 0) then default_ssh_port else d.ssh_port))
      × (d' ≡ record d { ssh_port = d'.ssh_port })
unfolding get_ssh_port
ssh_port_settles d = ground arith

-- `GetSSHUsername` answers the same when it is asked again, changes nothing but the user, and its
-- answer is that user, or root if it was empty.
pub ssh_username_settles :
    (d : BaseDriver)
    → let (user, d') = get_ssh_username d in
      (get_ssh_username d' ≡ (user, d'))
      × (user ≡ (if text_eq d.ssh_user [] then default_ssh_user else d.ssh_user))
      × (d' ≡ record d { ssh_user = user })
unfolding get_ssh_username text_eq
ssh_username_settles d = elim (Bool-cases (text_eq d.ssh_user [])) [
  | inl unset ↦ rw unset (refl, refl, refl)
  | inr is_set ↦ rw is_set (rw is_set, refl, refl)
]
