-- ===== src/Commands/Removal.antt =====
-- When the command rm of commands/rm.go succeeds.
use machine.Base.{
  ◌≡◌, ◌↔◌, refl, sym, ap, ◌∙◌, subst, Bool, true, false, List, [], ◌∷◌, ◌++◌, if◌then◌else◌, ◌||◌,
}
use machine.Base.Exec.{Result, ok, err, ◌>>◌, continue}
use machine.Text.{Text}
use machine.Errors.{Error, Act}
use machine.Commands.{
  Api, remove_remote_machine, remove_local_machine, remove_machine, remove_machines, user_confirm,
  cmd_rm, rm_result, is_ok, remote_message, local_message,
}
use machine.Commands.Actions.{AllOk}

module _ {W : Type 0} (api : Api W) where
  -- The remote machine is removed, and then what the store keeps of it.
  abbrev pub remove_both : Text → Act W (Unit {0})
  remove_both name = remove_remote_machine api name >> remove_local_machine api name

  -- A round without force does the same as the two removals in turn, and has a message exactly when
  -- they fail.
  record Same (two : Result Error (Unit {0}) × W) (round : List Text × W) : Type 0 where
    world : round.1 ≡ two.1
    silent : (round.0 ≡ []) ↔ (two.0 ≡ ok tt)

  remove_machine-Same :
      (name : Text) (w : W) → Same (remove_both name w) (remove_machine api false name w)
  unfolding remove_machine
  remove_machine-Same name w =
      on_remote (remove_remote_machine api name w).0 (remove_remote_machine api name w).1
    where
      on_local : (r : Result Error (Unit {0})) (v : W) → Same (r, v) (local_message api name r, v)
      on_local (ok u) v = record { world = refl; silent = (λ _. refl, λ _. refl) }
      on_local (err e) v = record { world = refl; silent = (λ q. cc, λ q. cc) }

      on_remote :
          (r : Result Error (Unit {0})) (v : W)
          → Same (continue r (λ _. remove_local_machine api name) v) (
              if is_ok api r || false
              then (
                remote_message api name r
                    ++ local_message api name (remove_local_machine api name v).0,
                (remove_local_machine api name v).1,
              )
              else (remote_message api name r, v))
      on_remote (ok u) v =
          on_local (remove_local_machine api name v).0 (remove_local_machine api name v).1
      on_remote (err e) v = record { world = refl; silent = (λ q. cc, λ q. cc) }

  remove_machines-AllOk :
      (names : List Text) (w : W)
      → ((remove_machines api false names w).0 ≡ []) ↔ AllOk remove_both names w
  unfolding remove_machines
  remove_machines-AllOk [] w = (λ _. tt, λ _. refl)
  remove_machines-AllOk (name ∷ names) w =
      let s = remove_machine-Same name w in
      let (there, back) =
        subst {A = W}
          (λ v.
            ((remove_machines api false names v).0 ≡ [])
            ↔ AllOk remove_both names (remove_both name w).1)
          (sym s.world) (remove_machines-AllOk names (remove_both name w).1) in
      (
        λ e.
            let (none_here, none_later) = parts (remove_machine api false name w).0 _ e in
            (s.silent.0 none_here, there none_later),
        λ (here, later). joined (s.silent.1 here) (back later),
      )
    where
      parts : {A : Type 0} (xs ys : List A) → xs ++ ys ≡ [] → (xs ≡ []) × (ys ≡ [])
      parts [] ys e = (refl, e)
      parts (x ∷ xs) ys e = cc

      joined : {A : Type 0} {xs ys : List A} → xs ≡ [] → ys ≡ [] → xs ++ ys ≡ []
      joined {xs = xs} {ys = ys} e f = ap (λ t. t ++ ys) e ∙ f

  -- Without force, and once the user has agreed, `rm` succeeds exactly when for every machine, one
  -- after another, its driver removes it and the store then removes what it keeps of it.
  pub cmd_rm-ok_iff :
      (confirm : Bool) (name : Text) (names : List Text) (w : W)
      → (user_confirm api confirm false w).0 ≡ true
      → ((cmd_rm api false confirm (name ∷ names) w).0 ≡ ok tt)
        ↔ AllOk remove_both (name ∷ names) (user_confirm api confirm false w).1
  unfolding cmd_rm rm_result
  cmd_rm-ok_iff confirm name names w agreed =
      let (done, all) = remove_machines-AllOk (name ∷ names) w1 in
      let (there, back) =
        agreed_on (user_confirm api confirm false w).0 agreed
          (remove_machines api false (name ∷ names) w1).0 in
      (λ e. done (there e), λ h. back (all h))
    where
      w1 : W
      w1 = (user_confirm api confirm false w).1

      outcome : Bool → List Text → Result Error (Unit {0}) × W
      outcome sure messages =
          if sure
          then (rm_result api false messages, (remove_machines api false (name ∷ names) w1).1)
          else (ok tt, w1)

      agreed_on :
          (sure : Bool)
          → sure ≡ true
          → (messages : List Text) → ((outcome sure messages).0 ≡ ok tt) ↔ (messages ≡ [])
      agreed_on false q messages = cc
      agreed_on true q [] = (λ _. refl, λ _. refl)
      agreed_on true q (m ∷ ms) = (λ h. cc, λ h. cc)

  -- With force, `rm` succeeds whatever fails.
  pub cmd_rm-force :
      (confirm : Bool) (name : Text) (names : List Text) (w : W)
      → (cmd_rm api true confirm (name ∷ names) w).0 ≡ ok tt
  unfolding cmd_rm rm_result
  cmd_rm-force confirm name names w =
      go (user_confirm api confirm true w).0 (remove_machines api true (name ∷ names) w1).0
    where
      w1 : W
      w1 = (user_confirm api confirm true w).1

      outcome : Bool → List Text → Result Error (Unit {0}) × W
      outcome sure messages =
          if sure
          then (rm_result api true messages, (remove_machines api true (name ∷ names) w1).1)
          else (ok tt, w1)

      go : (sure : Bool) (messages : List Text) → (outcome sure messages).0 ≡ ok tt
      go false messages = refl
      go true [] = refl
      go true (m ∷ ms) = refl
