-- ===== src/Tests/Commands.antt =====
-- Runs of the commands, and their theorems at concrete inputs.
use mathlib.Core.List.{Memᴰ, Permᴰ}
use machine.Base.{ℕ, ◌≡◌, ◌≢◌, ◌↔◌, refl, sym, ap, ◌∙◌, true, false, some, List, [], ◌∷◌, ◌++◌}
use machine.Base.Shuffle.{shuffle}
use machine.Base.Exec.{ok, err, pure, map_error, ◌>>=◌}
use machine.Text.{Text, bytes, text_eq, text_eq_iff}
use machine.Text.Scan.{to_lower}
use machine.Errors.{panic, wrapped, Act}
use machine.State.{State, running, stopped}
use machine.Wait.{wait_for, wait_from}
use machine.Driver.{Driver, machine_in_state}
use machine.Provision.{wait_for_docker, check_daemon_up, match_netstat_out}
use machine.Host.{Host, run_action_for_state, wait_for_host_docker}
use machine.Commands.{
  Api, load_hosts, run_action_foreach_machine, machine_command, act_on, run_action, user_confirm,
  cmd_rm,
}
use machine.Commands.Actions.{AllOk, AllLoad, act_on-ok_iff}
use machine.Commands.Removal.{remove_both, cmd_rm-ok_iff}
use machine.Commands.Ls.{
  HostListItem, empty_item, parse_filters, no_filters, matches_label, to_swarm_url,
  sort_host_list_items_by_name,
}
use machine.Commands.Ls.Sorted.{Apart, sort_host_list_items_by_name-Memᴰ}
use machine.Commands.Scp.{
  base_ssh_args, get_scp_cmd, generate_location_arg, get_info_for_scp_arg, load, remote_info,
}
use machine.Commands.Scp.Located.{generate_location_arg-read}
use machine.Tests.World.{machine_env, machine_driver, box}

abbrev api : Api State
api = record {
  env = machine_env;
  exists = λ name. pure true;
  list = pure (bytes "box" ∷ []);
  load = λ name. pure box;
  remove = λ name. pure tt;
  save = λ h. pure tt;
  print_line = λ line w. w;
  confirm_input = λ question. pure true;
  error_text = λ e. bytes "failed";
  schedule = [];
}

takes_turns : shuffle {A = ℕ} (2 ∷ 0 ∷ []) (1 ∷ 2 ∷ 3 ∷ []) ≡ 2 ∷ 3 ∷ 1 ∷ []
unfolding shuffle
takes_turns = refl

starts_box : (run_action api (bytes "start") (bytes "box" ∷ []) stopped) ≡ (ok tt, running)
unfolding run_action shuffle text_eq run_action_for_state machine_in_state wait_for wait_from
    wait_for_host_docker wait_for_docker check_daemon_up match_netstat_out
starts_box = refl

act_on-ok_iff_example :
    let ((hosts, _), w1) = load_hosts api (bytes "box" ∷ []) stopped in
    let (_, w2) = run_action_foreach_machine api (bytes "start") hosts w1 in
    Permᴰ (shuffle [] hosts) hosts
    × (((act_on api (bytes "start") (bytes "box" ∷ []) stopped).0 ≡ ok tt) ↔ (
        AllLoad api (bytes "box" ∷ []) stopped
        × (AllOk (machine_command api (bytes "start")) (shuffle [] hosts) w1
            × AllOk api.save hosts w2)))
act_on-ok_iff_example = act_on-ok_iff api (bytes "start") (bytes "box") [] stopped

cmd_rm-ok_iff_example :
    ((cmd_rm api false false (bytes "box" ∷ []) running).0 ≡ ok tt)
    ↔ AllOk (remove_both api) (bytes "box" ∷ []) (user_confirm api false false running).1
unfolding user_confirm
cmd_rm-ok_iff_example = cmd_rm-ok_iff api false (bytes "box") [] running refl

reads_filters :
    parse_filters (bytes "State=Running" ∷ bytes "name=^a=b$" ∷ [])
    ≡ ok (record no_filters { state = bytes "Running" ∷ []; name = bytes "^a=b$" ∷ [] })
unfolding parse_filters text_eq
reads_filters = refl

swarm_url :
    to_swarm_url (bytes "tcp://10.0.0.5:2376") (bytes "tcp://0.0.0.0:3376")
    ≡ bytes "tcp://10.0.0.5:3376"
unfolding to_swarm_url
swarm_url = refl

-- A filter on labels stops the program at a host without options.
label_panic : matches_label box (bytes "os=linux" ∷ []) ≡ err panic
unfolding matches_label
label_panic = refl

abbrev item : Text → HostListItem
item name = record empty_item { name = name }

-- An order of names that leaves them as they are.
abbrev as_given : List Text → List Text
as_given names = names

apart : Apart (item (bytes "b") ∷ item (bytes "A") ∷ [])
unfolding to_lower text_eq
apart = (only_a, ((λ u h. elim h [ ]), tt))
  where
    a_is_not_b : to_lower (bytes "A") ≢ to_lower (bytes "b")
    a_is_not_b same =
        let bad : false ≡ true =
          (text_eq_iff (to_lower (bytes "A")) (to_lower (bytes "b"))).1 same in
        cc

    only_a :
        (u : HostListItem) → Memᴰ u (item (bytes "A") ∷ []) → to_lower u.name ≢ to_lower (bytes "b")
    only_a u (Memᴰ.head e) q = a_is_not_b (sym (ap (λ v. to_lower v.name) e) ∙ q)
    only_a u (Memᴰ.tail h) q = elim h [ ]

sort_host_list_items_by_name-Memᴰ_example :
    Memᴰ
      (item (bytes "b"))
      (sort_host_list_items_by_name as_given (item (bytes "b") ∷ item (bytes "A") ∷ []))
    ↔ Memᴰ (item (bytes "b")) (item (bytes "b") ∷ item (bytes "A") ∷ [])
sort_host_list_items_by_name-Memᴰ_example =
    sort_host_list_items_by_name-Memᴰ as_given (λ t names. (λ h. h, λ h. h))
      (item (bytes "b") ∷ item (bytes "A") ∷ []) (item (bytes "b")) apart

-- Of two machines whose names differ in their capitals alone, one is listed twice and one is lost.
loses_item :
    sort_host_list_items_by_name as_given (item (bytes "Dev") ∷ item (bytes "dev") ∷ [])
    ≡ (item (bytes "dev") ∷ item (bytes "dev") ∷ [])
unfolding sort_host_list_items_by_name text_eq
loses_item = refl

abbrev load_box : Text → Act State (Host (Driver State))
load_box name = pure box

scp_command :
    (get_scp_cmd
      (λ program. pure program)
      load_box
      (bytes "/tmp/foo")
      (bytes "me@box:/tmp")
      false
      false
      true
      stopped).0
    ≡ ok (
      bytes "scp",
      base_ssh_args
          ++ (bytes "-3"
              ∷ bytes "-q"
              ∷ bytes "-o"
              ∷ bytes "Port=22"
              ∷ bytes "/tmp/foo"
              ∷ bytes "me@10.0.0.5:/tmp"
              ∷ []),
    )
unfolding get_scp_cmd text_eq
scp_command = refl

not_localhost : text_eq (bytes "10.0.0.5") (bytes "localhost") ≡ false
unfolding text_eq
not_localhost = refl

generate_location_arg-read_example :
    (location : Text) × (((generate_location_arg
          (some machine_driver)
          (bytes "me")
          (bytes "/tmp")
          stopped).0
        ≡ ok location)
      × (get_info_for_scp_arg load_box location ≡ (
          map_error (wrapped "Error loading host: ") (load load_box (bytes "10.0.0.5"))
          >>= λ loaded. remote_info loaded (bytes "me") (bytes "/tmp"))))
generate_location_arg-read_example =
    generate_location_arg-read load_box machine_driver (bytes "me") (bytes "10.0.0.5")
      (bytes "/tmp") stopped refl refl (refl, (refl, tt)) (refl, (refl, tt))
      (refl, (refl, (refl, (refl, (refl, (refl, (refl, (refl, tt)))))))) not_localhost
