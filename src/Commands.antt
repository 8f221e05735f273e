-- ===== src/Commands.antt =====
-- commands/commands.go, rm.go, status.go, url.go and libmachine/persist/store.go: the commands that
-- act on the machines named on the command line. The actions on several machines, which the program
-- runs at the same time, are taken here one after another, in whatever order of theirs
-- `schedule` picks.
pub mod Actions
pub mod Removal
pub mod Ls
pub mod Scp
use machine.Base.{
  ℕ, Bool, true, false, ◌&&◌, ◌||◌, not, Option, none, some, List, [], ◌∷◌, ◌++◌, if◌then◌else◌,
}
use machine.Base.Int.{eqb_ℤ}
use machine.Base.Shuffle.{shuffle}
use machine.Base.Exec.{Result, ok, err, pure, raise, map_error, ◌>>=◌, ◌>>◌}
use machine.Text.{Text, bytes, text_eq}
use machine.Text.Dict.{Dict, lookup, insert}
use machine.Text.Scan.{trim_space, join_with, newline, quoted}
use machine.Errors.{Error, message, wrapped, panic, Act}
use machine.State.{state_string}
use machine.Driver.{Driver}
use machine.Host.{
  Host, Env, start, stop, kill, restart, upgrade, provision, configure_auth, configure_all_auth,
}

abbrev pub default_machine_name : Text
default_machine_name = bytes "default"

abbrev pub no_default : Error
no_default = message (bytes "Error: No machine name(s) specified and no \"default\" machine exists")

abbrev pub host_load : Error
host_load = message (bytes "All specified hosts had errors loading their configuration")

abbrev pub no_machine_specified : Error
no_machine_specified =
    message (bytes "Error: Expected to get one or more machine names as arguments")

abbrev pub expected_one_machine : Error
expected_one_machine = message (bytes "Error: Expected one machine name as an argument")

-- What the commands use of `libmachine.API` and the terminal, and the text of an error.
pub record Api (W : Type 0) : Type 0 where
  pub env : Env W
  pub exists : Text → Act W Bool
  pub list : Act W (List Text)
  pub load : Text → Act W (Host (Driver W))
  pub remove : Text → Act W (Unit {0})
  pub save : Host (Driver W) → Act W (Unit {0})
  pub print_line : Text → W → W
  -- `confirmInput`
  pub confirm_input : Text → Act W Bool
  pub error_text : Error → Text
  -- The places that the hosts take when they act at the same time.
  pub schedule : List ℕ

-- The error behind each line.
unfoldable pub error_lines : (Error → Text) → List Error → Text
error_lines text [] = []
error_lines text (e ∷ es) = (newline ∷ text e) ++ error_lines text es

-- consolidateErrs
unfoldable pub consolidate_errs : (Error → Text) → List Error → Error
unfolding error_lines trim_space
consolidate_errs text errs = message (trim_space (error_lines text errs))

abbrev pub values : {V : Type 0} → Dict V → List V
values [] = []
values ((_, v) ∷ d) = v ∷ values d

-- `errors[name] = err` before the later ones are put in: a later error of the same name stays.
unfoldable pub put_first : Text → Error → Dict Error → Dict Error
unfolding lookup
put_first name e errors = elim (lookup name errors) [ none ↦ (name, e) ∷ errors | some _ ↦ errors ]

module _ {W : Type 0} (api : Api W) where
  -- targetHost
  unfoldable pub target_host : List Text → Act W Text
  target_host [] w =
      let (found, w') = api.exists default_machine_name w in
      elim found [
        | err e ↦ (err (wrapped "Error checking if host \"default\" exists: " e), w')
        | ok exists ↦ (if exists then ok default_machine_name else err no_default, w')
      ]
  target_host (name ∷ _) w = (ok name, w)

  -- persist.LoadHosts: the hosts that are loaded, and the error of each name that is not.
  unfoldable pub load_hosts : List Text → W → (List (Host (Driver W)) × Dict Error) × W
  unfolding put_first
  load_hosts [] w = (([], []), w)
  load_hosts (name ∷ names) w =
      let (r, w') = api.load name w in
      let ((hosts, errors), w'') = load_hosts names w' in
      elim r [ err e ↦ ((hosts, put_first name e errors), w'') | ok h ↦ ((h ∷ hosts, errors), w'') ]

  -- printIP
  unfoldable pub print_ip : Host (Driver W) → Act W (Unit {0})
  print_ip h = do
    ip ← map_error (wrapped "Error getting IP address: ") h.driver.get_ip
    λ w. (ok tt, api.print_line ip w)

  -- machineCommand: a name that is not in the map gives a nil function.
  unfoldable pub machine_command : Text → Host (Driver W) → Act W (Unit {0})
  unfolding print_ip start stop kill restart upgrade provision configure_auth configure_all_auth
  machine_command action_name h =
      if text_eq action_name (bytes "configureAuth")
      then configure_auth api.env h
      else if text_eq action_name (bytes "configureAllAuth")
      then configure_all_auth api.env h
      else if text_eq action_name (bytes "start")
      then start api.env h
      else if text_eq action_name (bytes "stop")
      then stop api.env h
      else if text_eq action_name (bytes "restart")
      then restart api.env h
      else if text_eq action_name (bytes "kill")
      then kill api.env h
      else if text_eq action_name (bytes "upgrade")
      then upgrade api.env h
      else if text_eq action_name (bytes "ip")
      then print_ip h
      else if text_eq action_name (bytes "provision")
      then provision api.env h
      else raise panic

  -- The errors of the actions, each run in turn.
  unfoldable pub run_each :
      (Host (Driver W) → Act W (Unit {0})) → List (Host (Driver W)) → W → List Error × W
  run_each action [] w = ([], w)
  run_each action (h ∷ hosts) w =
      let (r, w') = action h w in
      let (errs, w'') = run_each action hosts w' in
      (elim r as (λ _. List Error) [ err e ↦ e ∷ errs | ok _ ↦ errs ], w'')

  -- runActionForeachMachine
  unfoldable pub run_action_foreach_machine : Text → List (Host (Driver W)) → W → List Error × W
  unfolding run_each machine_command shuffle
  run_action_foreach_machine action_name machines =
      run_each (machine_command action_name) (shuffle api.schedule machines)

  unfoldable pub save_all : List (Host (Driver W)) → Act W (Unit {0})
  save_all [] = pure tt
  save_all (h ∷ hosts) =
      map_error (wrapped "Error saving host to store: ") (api.save h) >> save_all hosts

  -- What `runAction` does once it has the names.
  unfoldable pub act_on : Text → List Text → Act W (Unit {0})
  unfolding load_hosts run_action_foreach_machine save_all consolidate_errs
  act_on action_name names w =
      let ((hosts, in_error), w1) = load_hosts names w in
      elim (values in_error) [
        | e ∷ es ↦ (err (consolidate_errs api.error_text (e ∷ es)), w1)
        | [] ↦ elim hosts [
          | [] ↦ (err host_load, w1)
          | h ∷ hs ↦
              let (errs, w2) = run_action_foreach_machine action_name (h ∷ hs) w1 in
              elim errs [
                | e ∷ es ↦ (err (consolidate_errs api.error_text (e ∷ es)), w2)
                | [] ↦ save_all (h ∷ hs) w2
              ]
        ]
      ]

  -- runAction
  unfoldable pub run_action : Text → List Text → Act W (Unit {0})
  unfolding target_host act_on
  run_action action_name [] = target_host [] >>= λ target. act_on action_name (target ∷ [])
  run_action action_name (arg ∷ args) = act_on action_name (arg ∷ args)

  abbrev one_target : List Text → Act W Text
  unfolding target_host
  one_target (a ∷ b ∷ args) = raise expected_one_machine
  one_target args = target_host args

  -- cmdStatus, which logs the state.
  unfoldable pub cmd_status : List Text → Act W (Unit {0})
  unfolding one_target state_string
  cmd_status args = one_target args >>= λ target. api.load target >>= λ h w.
      let ((s, e), w') = h.driver.get_state w in
      elim e [
        | some failure ↦ (
          err (
              message (
                bytes "error getting state for host "
                ++ (h.name ++ (bytes ": " ++ api.error_text failure)))),
          w',
        )
        | none ↦ (ok tt, api.print_line (state_string s) w')
      ]

  -- cmdURL
  unfoldable pub cmd_url : List Text → Act W (Unit {0})
  unfolding one_target
  cmd_url args = one_target args >>= λ target.
      api.load target >>= λ h. h.driver.get_url >>= λ url w. (ok tt, api.print_line url w)

  -- cmdIP, cmdStop, cmdKill, cmdUpgrade and cmdProvision have nothing but their action.
  unfoldable pub cmd_regenerate_certs : (force client_certs : Bool) → List Text → Act W (Unit {0})
  unfolding run_action
  cmd_regenerate_certs force client_certs args =
      (if force
        then pure true
        else api.confirm_input
            (bytes "Regenerate TLS machine certs?  Warning: this is irreversible."))
      >>= λ go_on.
          if go_on
          then run_action (if client_certs then bytes "configureAllAuth" else bytes "configureAuth")
              args
          else pure tt

  -- removeRemoteMachine
  unfoldable pub remove_remote_machine : Text → Act W (Unit {0})
  remove_remote_machine host_name = api.load host_name >>= λ h. h.driver.remove

  -- removeLocalMachine: the error of `Exists` is dropped, and its answer beside one is no.
  unfoldable pub remove_local_machine : Text → Act W (Unit {0})
  remove_local_machine host_name w =
      let (found, w') = api.exists host_name w in
      if elim found as (λ _. Bool) [ err _ ↦ false | ok exists ↦ exists ]
      then api.remove host_name w'
      else (err (message (host_name ++ bytes " does not exist.")), w')

  abbrev pub is_ok : Result Error (Unit {0}) → Bool
  is_ok (ok _) = true
  is_ok (err _) = false

  abbrev pub remote_message : Text → Result Error (Unit {0}) → List Text
  remote_message name (ok _) = []
  remote_message name (err e) =
      (bytes "Error removing host " ++ (quoted name ++ (bytes ": " ++ api.error_text e))) ∷ []

  abbrev pub local_message : Text → Result Error (Unit {0}) → List Text
  local_message name (ok _) = []
  local_message name (err e) = (bytes "Can't remove " ++ quoted name) ∷ []

  -- One round of the loop of `cmdRm`: the messages that it collects.
  unfoldable pub remove_machine : Bool → Text → W → List Text × W
  unfolding remove_remote_machine remove_local_machine
  remove_machine force name w =
      let (remote, w1) = remove_remote_machine name w in
      if is_ok remote || force
      then (let (gone, w2) = remove_local_machine name w1 in
          (remote_message name remote ++ local_message name gone, w2))
      else (remote_message name remote, w1)

  unfoldable pub remove_machines : Bool → List Text → W → List Text × W
  unfolding remove_machine
  remove_machines force [] w = ([], w)
  remove_machines force (name ∷ names) w =
      let (found, w1) = remove_machine force name w in
      let (more, w2) = remove_machines force names w1 in (found ++ more, w2)

  -- userConfirm: an error of the terminal is a no.
  unfoldable pub user_confirm : (confirm force : Bool) → W → Bool × W
  user_confirm confirm force w =
      if confirm || force
      then (true, w)
      else let (sure, w') = api.confirm_input (bytes "Are you sure?") w in
        (elim sure as (λ _. Bool) [ err _ ↦ false | ok b ↦ b ], w')

  -- What `cmdRm` makes of the messages.
  unfoldable pub rm_result : Bool → List Text → Result Error (Unit {0})
  unfolding join_with
  rm_result force [] = ok tt
  rm_result force (m ∷ ms) =
      if force then ok tt else err (message (join_with (newline ∷ []) (m ∷ ms)))

  -- cmdRm
  unfoldable pub cmd_rm : (force confirm : Bool) → List Text → Act W (Unit {0})
  unfolding user_confirm remove_machines rm_result
  cmd_rm force confirm [] w = (err no_machine_specified, w)
  cmd_rm force confirm (arg ∷ args) w =
      let (sure, w1) = user_confirm confirm force w in
      if sure
      then (let (messages, w2) = remove_machines force (arg ∷ args) w1 in
          (rm_result force messages, w2))
      else (ok tt, w1)
