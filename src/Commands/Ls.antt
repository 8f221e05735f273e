-- ===== src/Commands/Ls.antt =====
-- commands/ls.go and active.go: the filters of the command ls, the states of the hosts that it lists,
-- and the active host. Regular expressions, the order of names that `naturalsort` makes, the variable
-- DOCKER_HOST and which hosts answer too late are parameters; the time that a host takes is left out.
pub mod Items
pub mod Sorted
use machine.Base.{
  ℕ, Bool, true, false, ◌&&◌, ◌||◌, not, Option, none, some, List, [], ◌∷◌, ◌++◌, map,
  if◌then◌else◌,
}
use machine.Base.Int.{ℤ, pos, eqb_ℤ}
use machine.Base.Exec.{Result, ok, err, pure, raise, ◌>>=◌, ◌>>◌}
use machine.Text.{Text, bytes, text_eq, has_prefix, replace, split}
use machine.Text.Dict.{Dict, lookup, insert}
use machine.Text.Scan.{is_empty, to_lower, equal_fold, split_two, quoted, newline}
use machine.Errors.{Error, message, panic, exits, host_is_not_running, Act}
use machine.State.{State, no_state, running, error_state, timeout, state_string}
use machine.Options.{EngineOptions, SwarmOptions}
use machine.Driver.{Driver}
use machine.Host.{Host, HostOptions, auth_options}
use machine.Commands.{Api, load_hosts}

pub record FilterOptions : Type 0 where
  pub swarm_name : List Text
  pub driver_name : List Text
  pub state : List Text
  pub name : List Text
  pub labels : List Text

abbrev pub no_filters : FilterOptions
no_filters = record { swarm_name = []; driver_name = []; state = []; name = []; labels = [] }

abbrev pub unsupported_syntax : Error
unsupported_syntax = message (bytes "Unsupported filter syntax")

abbrev pub unsupported_key : Text → Error
unsupported_key key = message (bytes "Unsupported filter key '" ++ (key ++ bytes "'"))

-- One filter is added to the options.
unfoldable pub add_filter : Text → Text → FilterOptions → Result Error FilterOptions
add_filter key value o =
    if text_eq key (bytes "swarm")
    then ok (record o { swarm_name = o.swarm_name ++ value ∷ [] })
    else if text_eq key (bytes "driver")
    then ok (record o { driver_name = o.driver_name ++ value ∷ [] })
    else if text_eq key (bytes "state")
    then ok (record o { state = o.state ++ value ∷ [] })
    else if text_eq key (bytes "name")
    then ok (record o { name = o.name ++ value ∷ [] })
    else if text_eq key (bytes "label")
    then ok (record o { labels = o.labels ++ value ∷ [] })
    else err (unsupported_key key)

unfoldable pub parse_from : List Text → FilterOptions → Result Error FilterOptions
unfolding add_filter split_two to_lower
parse_from [] o = ok o
parse_from (f ∷ filters) o =
    let (key, value) = split_two b'=' f in
    elim value [
      | none ↦ err unsupported_syntax
      | some v ↦ elim (add_filter (to_lower key) v o) [
        | err e ↦ err e
        | ok o' ↦ parse_from filters o'
      ]
    ]

-- parseFilters
unfoldable pub parse_filters : List Text → Result Error FilterOptions
unfolding parse_from
parse_filters filters = parse_from filters no_filters

abbrev pub swarm_of : {D : Type 0} → Host D → Option SwarmOptions
swarm_of h = elim h.host_options [ none ↦ none | some options ↦ options.swarm_options ]

-- getSwarmMasters
unfoldable pub swarm_masters_from : {D : Type 0} → List (Host D) → Dict Text → Dict Text
unfolding insert
swarm_masters_from [] m = m
swarm_masters_from (h ∷ hosts) m = elim (swarm_of h) [
  | none ↦ swarm_masters_from hosts m
  | some swarm ↦
      swarm_masters_from hosts (if swarm.master then insert swarm.discovery h.name m else m)
]

-- `m[key]`, which is empty for a key that is missing.
abbrev pub at_key : Text → Dict Text → Text
at_key key m = elim (lookup key m) [ none ↦ [] | some v ↦ v ]

unfoldable pub any_fold : List Text → Text → Bool
unfolding equal_fold
any_fold [] t = false
any_fold (n ∷ names) t = equal_fold n t || any_fold names t

-- matchesSwarmName
unfoldable pub matches_swarm_name : {D : Type 0} → Host D → List Text → Dict Text → Bool
unfolding any_fold lookup
matches_swarm_name h [] masters = true
matches_swarm_name h (n ∷ names) masters = elim (swarm_of h) [
  | none ↦ false
  | some swarm ↦ any_fold (n ∷ names) (at_key swarm.discovery masters)
]

-- matchesDriverName
unfoldable pub matches_driver_name : {D : Type 0} → Host D → List Text → Bool
unfolding any_fold
matches_driver_name h [] = true
matches_driver_name h (n ∷ names) = any_fold (n ∷ names) h.driver_name

-- The map of the engine's labels: `kv[1]` stops the program for a label without `=`.
unfoldable pub label_map : List Text → Dict Text → Result Error (Dict Text)
unfolding split_two insert
label_map [] m = ok m
label_map (s ∷ labels) m =
    let (key, value) = split_two b'=' s in
    elim value [ none ↦ err panic | some v ↦ label_map labels (insert key v m) ]

-- The loop over the filters on labels.
unfoldable pub any_label : Dict Text → List Text → Result Error Bool
unfolding split_two lookup equal_fold
any_label m [] = ok false
any_label m (l ∷ labels) =
    let (key, value) = split_two b'=' l in
    elim (lookup key m) [
      | none ↦ any_label m labels
      | some val ↦ elim value [
        | none ↦ err panic
        | some v ↦ if equal_fold val v then ok true else any_label m labels
      ]
    ]

-- matchesLabel: the length of the labels is taken before the pointers are looked at.
unfoldable pub matches_label : {D : Type 0} → Host D → List Text → Result Error Bool
unfolding label_map any_label
matches_label h [] = ok true
matches_label h (l ∷ labels) = elim h.host_options [
  | none ↦ err panic
  | some options ↦ elim options.engine_options [
    | none ↦ err panic
    | some engine ↦ elim (label_map engine.labels []) [
      | err e ↦ err e
      | ok m ↦ any_label m (l ∷ labels)
    ]
  ]
]

module _ {W : Type 0} (compile : Text → Option (Text → Bool)) where
  -- matchesState: every filter asks the driver again, and an error is only logged.
  unfoldable pub any_state : Host (Driver W) → List Text → W → Bool × W
  unfolding equal_fold state_string
  any_state h [] w = (false, w)
  any_state h (n ∷ names) w =
      let ((s, _), w') = h.driver.get_state w in
      elim (equal_fold n (state_string s)) [ true ↦ (true, w') | false ↦ any_state h names w' ]

  unfoldable pub matches_state : Host (Driver W) → List Text → W → Bool × W
  unfolding any_state
  matches_state h [] w = (true, w)
  matches_state h (n ∷ names) w = any_state h (n ∷ names) w

  -- matchesName: the program ends at a pattern that does not compile.
  unfoldable pub any_name : Host (Driver W) → List Text → Act W Bool
  any_name h [] w = (ok false, w)
  any_name h (n ∷ names) w = elim (compile n) [
    | none ↦ (err (exits 1), w)
    | some matches ↦
        let (name, w') = h.driver.get_machine_name w in
        elim (matches name) [ true ↦ (ok true, w') | false ↦ any_name h names w' ]
  ]

  unfoldable pub matches_name : Host (Driver W) → List Text → Act W Bool
  unfolding any_name
  matches_name h [] = pure true
  matches_name h (n ∷ names) = any_name h (n ∷ names)

  -- filterHost: all five tests are made.
  unfoldable pub filter_host : Host (Driver W) → FilterOptions → Dict Text → Act W Bool
  unfolding matches_swarm_name matches_driver_name matches_state matches_name matches_label
  filter_host h filters masters w =
      let (state_matches, w1) = matches_state h filters.state w in
      (matches_name h filters.name >>= λ name_matches w2. (
        elim (matches_label h filters.labels) as (λ _. Result Error Bool) [
          | err e ↦ err e
          | ok label_matches ↦ ok (
              matches_swarm_name h filters.swarm_name masters
              && (matches_driver_name h filters.driver_name
                  && (state_matches && (name_matches && label_matches))))
        ],
        w2,
      ))
        w1

  unfoldable pub filter_each :
      List (Host (Driver W)) → FilterOptions → Dict Text → Act W (List (Host (Driver W)))
  unfolding filter_host
  filter_each [] filters masters = pure []
  filter_each (h ∷ hosts) filters masters = filter_host h filters masters >>= λ matched.
      filter_each hosts filters masters >>= λ rest. pure (if matched then h ∷ rest else rest)

  -- filterHosts
  unfoldable pub filter_hosts :
      List (Host (Driver W)) → FilterOptions → Act W (List (Host (Driver W)))
  unfolding filter_each swarm_masters_from
  filter_hosts hosts filters =
      if is_empty filters.swarm_name
        && (is_empty filters.driver_name
            && (is_empty filters.state && (is_empty filters.name && is_empty filters.labels)))
      then pure hosts
      else filter_each hosts filters (swarm_masters_from hosts [])

pub record HostListItem : Type 0 where
  pub name : Text
  pub active : Text
  pub active_host : Bool
  pub active_swarm : Bool
  pub driver_name : Text
  pub state : State
  pub url : Text
  pub swarm_options : Option SwarmOptions
  pub swarm : Text
  pub engine_options : Option EngineOptions
  pub error : Text
  pub docker_version : Text

abbrev pub empty_item : HostListItem
empty_item = record {
  name = [];
  active = [];
  active_host = false;
  active_swarm = false;
  driver_name = [];
  state = no_state;
  url = [];
  swarm_options = none;
  swarm = [];
  engine_options = none;
  error = [];
  docker_version = [];
}

abbrev last_part : List Text → Text
last_part [] = []
last_part (p ∷ []) = p
last_part (p ∷ q ∷ parts) = last_part (q ∷ parts)

-- urlPort
unfoldable pub url_port : Text → Text
unfolding split
url_port url_with_port = last_part (split b':' url_with_port)

-- strings.Replace(s, old, new, 1)
unfoldable pub replace_first : Text → Text → Text → Text
unfolding has_prefix
replace_first old new [] = []
replace_first old new (c ∷ s) =
    let rest = replace_first old new s in
    if has_prefix old (c ∷ s) then new ++ behind old (c ∷ s) else c ∷ rest
  where
    behind : Text → Text → Text
    behind [] t = t
    behind (_ ∷ old) [] = []
    behind (_ ∷ old) (_ ∷ t) = behind old t

-- toSwarmURL
unfoldable pub to_swarm_url : (host_url swarm_host : Text) → Text
unfolding url_port replace_first
to_swarm_url host_url swarm_host =
    replace_first (b':' ∷ url_port host_url) (b':' ∷ url_port swarm_host) host_url

module _ (docker_host : Text) where
  -- isActive
  abbrev pub is_active : State → Text → Bool
  is_active current_state host_url = eqb_ℤ current_state running && text_eq host_url docker_host

  -- isSwarmActive
  unfoldable pub is_swarm_active : State → Text → Bool → Text → Bool
  unfolding to_swarm_url
  is_swarm_active current_state host_url is_master swarm_host =
      is_master
      && (eqb_ℤ current_state running && text_eq (to_swarm_url host_url swarm_host) docker_host)

-- The map of `sortHostListItemsByName`, from the names in small letters.
unfoldable pub by_lower_name : List HostListItem → Dict HostListItem → Dict HostListItem
unfolding insert to_lower
by_lower_name [] m = m
by_lower_name (v ∷ items) m = by_lower_name items (insert (to_lower v.name) v m)

abbrev pub item_at : Dict HostListItem → Text → HostListItem
item_at m name = elim (lookup name m) [ none ↦ empty_item | some v ↦ v ]

-- sortHostListItemsByName: the map is read in the order that `natural_sort` gives the names.
unfoldable pub sort_host_list_items_by_name :
    (List Text → List Text) → List HostListItem → List HostListItem
unfolding by_lower_name lookup
sort_host_list_items_by_name natural_sort items =
    map (item_at (by_lower_name items [])) (natural_sort (map (λ v. to_lower v.name) items))

abbrev pub no_active_host : Error
no_active_host = message (bytes "No active host found")

abbrev pub active_timeout : Error
active_timeout = message (bytes "Error getting active host: timeout")

-- The loop of `activeHost`, with `timeout`.
unfoldable pub active_from : Bool → List HostListItem → Result Error HostListItem
active_from timed_out [] = if timed_out then err active_timeout else err no_active_host
active_from timed_out (item ∷ items) =
    let rest = active_from (timed_out || eqb_ℤ item.state timeout) items in
    if item.active_host || item.active_swarm then ok item else rest

-- activeHost
unfoldable pub active_host : List HostListItem → Result Error HostListItem
unfolding active_from
active_host = active_from false
