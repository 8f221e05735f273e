-- ===== src/Commands/Scp.antt =====
-- commands/scp.go: the command line of `scp` or `rsync` that copies between machines. What the code
-- asks of a loaded host are the methods of its driver.
pub mod Located
use machine.Base.{
  Bool, true, false, ◌&&◌, not, Option, none, some, List, [], ◌∷◌, ◌++◌, if◌then◌else◌,
}
use machine.Base.Int.{ℤ, pos, ltb_ℤ}
use machine.Base.Exec.{Result, ok, err, pure, raise, map_error, ◌>>=◌}
use machine.Text.{Text, bytes, text_eq}
use machine.Text.Decimal.{decimal}
use machine.Text.Scan.{blank, quoted, split_two, join_with}
use machine.Errors.{Error, message, wrapped, Act}
use machine.Driver.{Driver}
use machine.Host.{Host}

abbrev pub base_ssh_args : List Text
base_ssh_args =
    bytes "-o"
    ∷ bytes "StrictHostKeyChecking=no"
    ∷ bytes "-o"
    ∷ bytes "UserKnownHostsFile=/dev/null"
    ∷ bytes "-o"
    ∷ bytes "LogLevel=quiet"
    ∷ []

-- What an argument stands for: a host unless the path is local, the user that is written, the path,
-- and the options for SSH.
pub record ScpInfo (W : Type 0) : Type 0 where
  pub host_info : Option (Driver W)
  pub user : Text
  pub path : Text
  pub opts : List Text

abbrev pub local_info : {W : Type 0} → Text → ScpInfo W
local_info path = record { host_info = none; user = []; path = path; opts = [] }

abbrev pub named : Text × Option Text → Text × Text
named (name, none) = ([], name)
named (user, some host_name) = (user, host_name)

-- The user and the host in front of the path.
unfoldable pub user_and_host : Text → Text × Text
unfolding split_two
user_and_host name = named (split_two b'@' name)

abbrev pub port_opts : ℤ → List Text
unfolding decimal
port_opts port =
    if ltb_ℤ (pos 0) port then bytes "-o" ∷ (bytes "Port=" ++ decimal port) ∷ [] else []

abbrev pub nothing_in : Text → Bool
nothing_in [] = true
nothing_in (c ∷ s) = false

module _ {W : Type 0} where
  -- The option for the key, if there is one: its path is asked for twice.
  unfoldable pub key_opts : Driver W → W → List Text × W
  key_opts h w =
      let (key, w') = h.get_ssh_key_path w in
      if nothing_in key
      then ([], w')
      else (let (key', w'') = h.get_ssh_key_path w' in
          (bytes "-o" ∷ (bytes "IdentityFile=" ++ quoted key') ∷ [], w''))

  -- The error of `GetSSHPort` is only tested, but the bare `return` at the end returns it.
  unfoldable pub remote_info : Driver W → (user path : Text) → Act W (ScpInfo W)
  unfolding port_opts key_opts
  remote_info h user path w =
      let (port, w1) = h.get_ssh_port w in
      let (key, w2) = key_opts h w1 in
      (
        elim port as (λ _. Result Error (ScpInfo W)) [
          | err e ↦ err e
          | ok n ↦
              ok
                (record { host_info = some h; user = user; path = path; opts = port_opts n ++ key })
        ],
        w2,
      )

  -- missesExplicitSSHKey
  unfoldable pub misses_explicit_ssh_key : Option (Driver W) → W → Bool × W
  misses_explicit_ssh_key none w = (false, w)
  misses_explicit_ssh_key (some h) w = let (key, w') = h.get_ssh_key_path w in (nothing_in key, w')

  -- generateLocationArg
  unfoldable pub generate_location_arg : Option (Driver W) → (user path : Text) → Act W Text
  generate_location_arg none user path = pure path
  generate_location_arg (some h) user path = h.get_ssh_hostname >>= λ hostname w.
      let (user', w') = (if nothing_in user then h.get_ssh_username w else (user, w)) in
      (ok (user' ++ (b'@' ∷ (hostname ++ (b':' ∷ path)))), w')

  -- `IdentitiesOnly=yes`, unless a host has no key of its own.
  unfoldable pub identity_opts : Option (Driver W) → Option (Driver W) → W → List Text × W
  unfolding misses_explicit_ssh_key
  identity_opts src dest w =
      let (src_misses, w1) = misses_explicit_ssh_key src w in
      if src_misses
      then ([], w1)
      else (let (dest_misses, w2) = misses_explicit_ssh_key dest w1 in
          (if dest_misses then [] else bytes "-o" ∷ bytes "IdentitiesOnly=yes" ∷ [], w2))

abbrev pub flag_if : Bool → Text → List Text
flag_if b flag = if b then flag ∷ [] else []

-- The arguments in front of the two locations: those of scp, or those of rsync, which runs ssh.
unfoldable pub front_args : (recursive delta quiet : Bool) (options : List Text) → List Text
unfolding join_with
front_args recursive delta quiet options =
    if delta
    then flag_if (not quiet) (bytes "--progress")
      ++ (bytes "-e"
          ∷ (bytes "ssh " ++ join_with (blank ∷ []) (base_ssh_args ++ options))
          ∷ flag_if recursive (bytes "-r"))
    else base_ssh_args
      ++ (bytes "-3" ∷ (flag_if recursive (bytes "-r") ++ (flag_if quiet (bytes "-q") ++ options)))

module _ {W : Type 0} (load_host : Text → Act W (Host (Driver W))) where
  -- (*storeHostInfoLoader).load
  unfoldable pub load : Text → Act W (Driver W)
  load name = map_error (wrapped "Error loading host: ") (load_host name) >>= λ h. pure h.driver

  unfoldable pub host_path_info : Text → Text × Text → Act W (ScpInfo W)
  unfolding load remote_info
  host_path_info path (user, host_name) =
      if text_eq host_name (bytes "localhost")
      then pure (local_info path)
      else (map_error (wrapped "Error loading host: ") (load host_name) >>= λ h.
          remote_info h user path)

  unfoldable pub arg_info : Text → Text × Option Text → Act W (ScpInfo W)
  unfolding host_path_info user_and_host
  arg_info host_and_path (before, none) = pure (local_info host_and_path)
  arg_info host_and_path (before, some path) = host_path_info path (user_and_host before)

  -- getInfoForScpArg
  unfoldable pub get_info_for_scp_arg : Text → Act W (ScpInfo W)
  unfolding split_two arg_info
  get_info_for_scp_arg host_and_path = arg_info host_and_path (split_two b':' host_and_path)

module _ {W : Type 0} (look_path : Text → Act W Text)
    (load_host : Text → Act W (Host (Driver W))) where
  -- The program that is run.
  unfoldable pub scp_program : Bool → Act W Text
  scp_program delta w =
      let (found, w') = look_path (if delta then bytes "rsync" else bytes "scp") w in
      (
        elim found as (λ _. Result Error Text) [
          | ok cmd_path ↦ ok cmd_path
          | err _ ↦
              (if delta
                then err (
                    message (
                      bytes
                        "You must have a copy of the rsync binary locally to use the --delta option"))
                else err (
                    message (
                      bytes
                        "You must have a copy of the scp binary locally to use the scp feature")))
        ],
        w',
      )

  -- getScpCmd: the program and its arguments.
  unfoldable pub get_scp_cmd :
      (src dest : Text) (recursive delta quiet : Bool) → Act W (Text × List Text)
  unfolding scp_program get_info_for_scp_arg identity_opts generate_location_arg front_args
  get_scp_cmd src dest recursive delta quiet = scp_program delta >>= λ cmd_path.
      get_info_for_scp_arg load_host src >>= λ s. get_info_for_scp_arg load_host dest >>= λ d w.
      let (identity, w') = identity_opts s.host_info d.host_info w in
      let front = front_args recursive delta quiet (identity ++ (s.opts ++ d.opts)) in
      (generate_location_arg s.host_info s.user s.path >>= λ src_location.
      generate_location_arg d.host_info d.user d.path >>= λ dest_location.
      pure (cmd_path, front ++ (src_location ∷ dest_location ∷ [])))
        w'
