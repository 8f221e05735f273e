-- ===== src/Commands/Actions.antt =====
-- What runAction of commands/commands.go does when it succeeds, and what it leaves undone when not.
use mathlib.Core.List.{Permᴰ}
use machine.Base.{◌≡◌, ◌≢◌, ◌↔◌, refl, sym, ap, ◌∙◌, Option, none, some, List, [], ◌∷◌}
use machine.Base.Shuffle.{shuffle, shuffle-Permᴰ}
use machine.Base.Exec.{Result, ok, err, map_err, map_error, then-ok_iff, map_err-ok}
use machine.Text.{Text}
use machine.Text.Dict.{Dict, lookup}
use machine.Errors.{Error, wrapped, Act}
use machine.Driver.{Driver}
use machine.Host.{Host}
use machine.Commands.{
  Api, values, load_hosts, machine_command, run_each, run_action_foreach_machine, save_all,
  put_first, act_on, consolidate_errs, host_load,
}

module _ {W : Type 0} {A : Type 0} (run : A → Act W (Unit {0})) where
  -- Each of the calls succeeds, one after another.
  abbrev pub AllOk : List A → W → Type 0
  AllOk [] w = Unit
  AllOk (a ∷ more) w = ((run a w).0 ≡ ok tt) × AllOk more (run a w).1

put_first-some :
    (name : Text) (e : Error) (errors : Dict Error) → values (put_first name e errors) ≢ []
unfolding put_first lookup
put_first-some name e errors q = go (lookup name errors) refl q
  where
    held : (d : Dict Error) (f : Error) → lookup name d ≡ some f → values d ≢ []
    held [] f h k = cc
    held (_ ∷ d) f h k = cc

    go :
        (o : Option Error)
        → lookup name errors ≡ o
        → values (elim o as (λ _. Dict Error) [ none ↦ (name, e) ∷ errors | some _ ↦ errors ]) ≡ []
        → ⊥
    go none same k = cc
    go (some f) same k = held errors f same k

cons_not_nil : {A : Type 0} {a : A} {more : List A} → a ∷ more ≢ []
cons_not_nil q = cc

module _ {W : Type 0} (api : Api W) where
  -- Each name is loaded, one after another.
  abbrev pub AllLoad : List Text → W → Type 0
  AllLoad [] w = Unit
  AllLoad (name ∷ names) w =
      ((h : Host (Driver W)) × ((api.load name w).0 ≡ ok h)) × AllLoad names (api.load name w).1

  load_hosts-AllLoad :
      (names : List Text) (w : W) → (values (load_hosts api names w).0.1 ≡ []) ↔ AllLoad names w
  unfolding load_hosts lookup
  load_hosts-AllLoad [] w = (λ _. tt, λ _. refl)
  load_hosts-AllLoad (name ∷ names) w =
      go (api.load name w).0 (load_hosts-AllLoad names (api.load name w).1)
    where
      rest : List (Host (Driver W)) × Dict Error
      rest = (load_hosts api names (api.load name w).1).0

      go :
          (r : Result Error (Host (Driver W)))
          → (values rest.1 ≡ []) ↔ AllLoad names (api.load name w).1
          → (values
                (elim r as (λ _. (List (Host (Driver W)) × Dict Error) × W) [
                  | err e ↦ (
                    (rest.0, put_first name e rest.1),
                    (load_hosts api names (api.load name w).1).1,
                  )
                  | ok h ↦ ((h ∷ rest.0, rest.1), (load_hosts api names (api.load name w).1).1)
                ]).0.1
              ≡ [])
            ↔ (((h : Host (Driver W)) × (r ≡ ok h)) × AllLoad names (api.load name w).1)
      go (ok h) (there, back) = (λ e. ((h, refl), there e), λ (_, all). back all)
      go (err e) iff = (λ q. absurd (put_first-some name e rest.1 q), λ ((h, q), _). cc)

  load_hosts-some :
      (name : Text) (names : List Text) (w : W) (h : Host (Driver W))
      → (api.load name w).0 ≡ ok h
      → (hosts : List (Host (Driver W))) × ((load_hosts api (name ∷ names) w).0.0 ≡ h ∷ hosts)
  unfolding load_hosts
  load_hosts-some name names w h e =
      ((load_hosts api names (api.load name w).1).0.0, rw (e, load_hosts) refl)

  run_each-AllOk :
      (action : Host (Driver W) → Act W (Unit {0})) (hosts : List (Host (Driver W))) (w : W)
      → ((run_each api action hosts w).0 ≡ []) ↔ AllOk action hosts w
  unfolding run_each
  run_each-AllOk action [] w = (λ _. tt, λ _. refl)
  run_each-AllOk action (h ∷ hosts) w =
      go (action h w).0 (run_each-AllOk action hosts (action h w).1)
    where
      more : List Error
      more = (run_each api action hosts (action h w).1).0

      go :
          (r : Result Error (Unit {0}))
          → (more ≡ []) ↔ AllOk action hosts (action h w).1
          → (elim r as (λ _. List Error) [ err e ↦ e ∷ more | ok _ ↦ more ] ≡ [])
            ↔ ((r ≡ ok tt) × AllOk action hosts (action h w).1)
      go (ok u) (there, back) = (λ e. (refl, there e), λ (_, all). back all)
      go (err e) iff = (λ q. cc, λ (q, _). cc)

  save_all-AllOk :
      (hosts : List (Host (Driver W))) (w : W)
      → ((save_all api hosts w).0 ≡ ok tt) ↔ AllOk api.save hosts w
  unfolding save_all
  save_all-AllOk [] w = (λ _. tt, λ _. refl)
  save_all-AllOk (h ∷ hosts) w =
      let wrap = wrapped "Error saving host to store: " in
      let (there, back) = then-ok_iff (map_error wrap (api.save h)) (save_all api hosts) w in
      let (all, none_left) = save_all-AllOk hosts (api.save h w).1 in
      (
        λ e. let (saved, rest) = there e in (map_err-ok wrap (api.save h w).0 tt saved, all rest),
        λ (saved, rest). back (ap (map_err wrap) saved, none_left rest),
      )

  -- `runAction` on names that are given succeeds exactly when every one of them is loaded, the action
  -- then succeeds on every host, the hosts taken one after another in an order that is some permutation
  -- of theirs, and every host is then saved, in the order of the names.
  pub act_on-ok_iff :
      (action_name name : Text) (names : List Text) (w : W)
      → let ((hosts, _), w1) = load_hosts api (name ∷ names) w in
        let (_, w2) = run_action_foreach_machine api action_name hosts w1 in
        let in_turn = shuffle api.schedule hosts in
        Permᴰ in_turn hosts
        × (((act_on api action_name (name ∷ names) w).0 ≡ ok tt) ↔ (
            AllLoad (name ∷ names) w
            × (AllOk (machine_command api action_name) in_turn w1 × AllOk api.save hosts w2)))
  unfolding act_on run_action_foreach_machine
  act_on-ok_iff action_name name names w = (
    shuffle-Permᴰ api.schedule hosts,
    (
      λ e.
          let (none_failed, (done, saved)) = (steps v hosts has_hosts).0 e in
          (
            (load_hosts-AllLoad (name ∷ names) w).0 none_failed,
            (
              (run_each-AllOk (machine_command api action_name) (shuffle api.schedule hosts) w1).0
                  done,
              (save_all-AllOk hosts (act hosts).1).0 saved,
            ),
          ),
      λ (all_loaded, (all_done, all_saved)). (steps v hosts has_hosts).1 (
        (load_hosts-AllLoad (name ∷ names) w).1 all_loaded,
        (
          (run_each-AllOk (machine_command api action_name) (shuffle api.schedule hosts) w1).1
              all_done,
          (save_all-AllOk hosts (act hosts).1).1 all_saved,
        ),
      ),
    ),
  )
    where
      hosts : List (Host (Driver W))
      hosts = (load_hosts api (name ∷ names) w).0.0

      v : List Error
      v = values (load_hosts api (name ∷ names) w).0.1

      w1 : W
      w1 = (load_hosts api (name ∷ names) w).1

      act : List (Host (Driver W)) → List Error × W
      act hs = run_action_foreach_machine api action_name hs w1

      has_hosts : v ≡ [] → hosts ≢ []
      has_hosts none_failed q =
          let ((h, e), _) = (load_hosts-AllLoad (name ∷ names) w).0 none_failed in
          let (_, same) = load_hosts-some name names w h e in cons_not_nil (sym same ∙ q)

      last : (hs : List (Host (Driver W))) → List Error → Result Error (Unit {0}) × W
      last hs (e ∷ es) = (err (consolidate_errs api.error_text (e ∷ es)), (act hs).1)
      last hs [] = save_all api hs (act hs).1

      last-iff :
          (hs : List (Host (Driver W))) (errs : List Error)
          → ((last hs errs).0 ≡ ok tt) ↔ ((errs ≡ []) × ((save_all api hs (act hs).1).0 ≡ ok tt))
      last-iff hs [] = (λ e. (refl, e), λ (_, e). e)
      last-iff hs (e ∷ es) = (λ q. cc, λ (q, _). cc)

      on_hosts : List (Host (Driver W)) → Result Error (Unit {0}) × W
      on_hosts [] = (err host_load, w1)
      on_hosts (h ∷ hs) = last (h ∷ hs) (act (h ∷ hs)).0

      steps :
          (errs : List Error) (hs : List (Host (Driver W)))
          → (errs ≡ [] → hs ≢ [])
          → ((elim errs as (λ _. Result Error (Unit {0}) × W) [
            | e ∷ es ↦ (err (consolidate_errs api.error_text (e ∷ es)), w1)
            | [] ↦ on_hosts hs
          ]).0
              ≡ ok tt)
            ↔ ((errs ≡ []) × (((act hs).0 ≡ []) × ((save_all api hs (act hs).1).0 ≡ ok tt)))
      steps (e ∷ es) hs some_host = (λ q. cc, λ (q, _). cc)
      steps [] [] some_host = absurd (some_host refl refl)
      steps [] (h ∷ hs) some_host =
          let (there, back) = last-iff (h ∷ hs) (act (h ∷ hs)).0 in
          (λ q. (refl, there q), λ (_, q). back q)
