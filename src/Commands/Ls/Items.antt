-- ===== src/Commands/Ls/Items.antt =====
-- commands/ls.go and active.go: what is asked of each host for its line of the list, and the command
-- active. The hosts, which the program asks at the same time, are asked in an order of the schedule's.
use machine.Base.{Bool, true, false, Option, none, some, List, [], ◌∷◌, ◌++◌, if◌then◌else◌}
use machine.Base.Shuffle.{shuffle}
use machine.Base.Exec.{ok, err, raise, map_error, ◌>>=◌}
use machine.Text.{Text, bytes, text_eq, replace}
use machine.Text.Dict.{Dict}
use machine.Text.Scan.{newline}
use machine.Errors.{Error, message, wrapped, host_is_not_running, Act}
use machine.State.{State, running, error_state, timeout}
use machine.Options.{SwarmOptions, EngineOptions}
use machine.Driver.{Driver}
use machine.Host.{Host, auth_options}
use machine.Commands.{Api, load_hosts}
use machine.Commands.Ls.{
  HostListItem, empty_item, swarm_of, is_active, is_swarm_active, sort_host_list_items_by_name,
  active_host,
}

abbrev engine_of : {D : Type 0} → Host D → Option EngineOptions
engine_of h = elim h.host_options [ none ↦ none | some options ↦ options.engine_options ]

abbrev is_master : Option SwarmOptions → Bool
is_master none = false
is_master (some swarm) = swarm.master

abbrev swarm_host : Option SwarmOptions → Text
swarm_host none = []
swarm_host (some swarm) = swarm.host

-- What a host has said: its URL and state, its version of Docker and the error.
pub record Said : Type 0 where
  pub url : Text
  pub state : State
  pub docker_version : Text
  pub error : Option Error

abbrev unknown : Text
unknown = bytes "Unknown"

module _ {W : Type 0} (api : Api W) (docker_host : Text) (natural_sort : List Text → List Text)
    (is_late : Host (Driver W) → W → Bool × W) where
  -- The calls that `attemptGetHostState` makes: a host that has a URL runs, and the state is asked for
  -- only where there is none.
  unfoldable pub ask : Host (Driver W) → W → Said × W
  ask h w =
      let (r, w1) = h.driver.get_url w in
      elim r [
        | err e ↦
            let ((s, _), w2) = h.driver.get_state w1 in
            (record { url = []; state = s; docker_version = unknown; error = some e }, w2)
        | ok [] ↦
            let ((s, e), w2) = h.driver.get_state w1 in
            (record { url = []; state = s; docker_version = unknown; error = e }, w2)
        | ok (c ∷ url) ↦
            let (v, w2) = api.env.docker_version (c ∷ url) (auth_options h) w1 in
            let said : Said = record {
              url = c ∷ url;
              state = running;
              docker_version = unknown;
              error = none;
            } in
            (
              elim v as (λ _. Said) [
                | err e ↦ record said { error = some e }
                | ok version ↦ record said { docker_version = b'v' ∷ version }
              ],
              w2,
            )
      ]

  -- An error that says no more than that the host does not run is left out.
  unfoldable pub error_column : Option Error → Text
  error_column none = []
  error_column (some e) =
      if text_eq (api.error_text e) (api.error_text host_is_not_running)
      then []
      else api.error_text e

  abbrev active_column : (active_host active_swarm : Bool) → Text
  active_column _ true = bytes "* (swarm)"
  active_column true false = bytes "*"
  active_column false false = bytes "-"

  -- attemptGetHostState
  unfoldable pub attempt_get_host_state : Host (Driver W) → W → HostListItem × W
  unfolding ask error_column is_swarm_active
  attempt_get_host_state h w =
      let (said, w1) = ask h w in
      let (driver_name, w2) = h.driver.driver_name w1 in
      let here = is_active docker_host said.state said.url in
      let swarm_here =
        is_swarm_active docker_host said.state said.url (is_master (swarm_of h))
          (swarm_host (swarm_of h)) in
      (
        record {
          name = h.name;
          active = active_column here swarm_here;
          active_host = here;
          active_swarm = swarm_here;
          driver_name = driver_name;
          state = said.state;
          url = said.url;
          swarm_options = swarm_of h;
          swarm = [];
          engine_options = engine_of h;
          error = error_column said.error;
          docker_version = said.docker_version;
        },
        w2,
      )

  -- getHostState
  unfoldable pub get_host_state : Host (Driver W) → W → HostListItem × W
  unfolding attempt_get_host_state
  get_host_state h w =
      let (late, w1) = is_late h w in
      elim late [
        | false ↦ attempt_get_host_state h w1
        | true ↦
            let (driver_name, w2) = h.driver.driver_name w1 in
            (record empty_item { name = h.name; driver_name = driver_name; state = timeout }, w2)
      ]

  unfoldable pub get_each : List (Host (Driver W)) → W → List HostListItem × W
  unfolding get_host_state
  get_each [] w = ([], w)
  get_each (h ∷ hosts) w =
      let (item, w1) = get_host_state h w in
      let (items, w2) = get_each hosts w1 in (item ∷ items, w2)

  -- newHostListItemInError
  unfoldable pub new_host_list_item_in_error : Text → Error → HostListItem
  unfolding replace
  new_host_list_item_in_error name e = record empty_item {
    name = name;
    driver_name = bytes "not found";
    state = error_state;
    error = replace (newline ∷ []) [] (api.error_text e);
  }

  unfoldable pub items_in_error : Dict Error → List HostListItem
  unfolding new_host_list_item_in_error
  items_in_error [] = []
  items_in_error ((name, e) ∷ errors) = new_host_list_item_in_error name e ∷ items_in_error errors

  -- getHostListItems
  unfoldable pub get_host_list_items :
      List (Host (Driver W)) → Dict Error → W → List HostListItem × W
  unfolding get_each items_in_error shuffle sort_host_list_items_by_name
  get_host_list_items hosts in_error w =
      let (items, w1) = get_each (shuffle api.schedule hosts) w in
      (sort_host_list_items_by_name natural_sort (items ++ items_in_error in_error), w1)

  -- persist.LoadAllHosts
  unfoldable pub load_all_hosts : Act W (List (Host (Driver W)) × Dict Error)
  unfolding load_hosts
  load_all_hosts =
      api.list >>= λ names w. let (found, w1) = load_hosts api names w in (ok found, w1)

  -- cmdActive
  unfoldable pub cmd_active : List Text → Act W (Unit {0})
  unfolding load_all_hosts get_host_list_items active_host
  cmd_active (a ∷ args) = raise (message (bytes "Error: Too many arguments given"))
  cmd_active [] = map_error (wrapped "Error getting active host: ") load_all_hosts >>= λ found w.
      let (items, w1) = get_host_list_items found.0 found.1 w in
      elim (active_host items) [
        | err e ↦ (err e, w1)
        | ok item ↦ (ok tt, api.print_line item.name w1)
      ]
