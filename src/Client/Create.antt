-- ===== src/Client/Create.antt =====
-- What creating a machine guarantees, and how it can fail.
use machine.Base.{◌≡◌, refl, sym, ap, ◌∙◌, subst, ◌⊎◌, inl, inr, Bool, true, false, if◌then◌else◌}
use machine.Base.Exec.{Result, ok, err, ◌>>=◌, ◌>>◌, map_err, map_error, bind-inverse, map_err-ok}
use machine.Errors.{Error, wrapped, during_pre_create, Act}
use machine.State.{running}
use machine.Wait.{wait_for}
use machine.Wait.Poll.{wait_for-world}
use machine.Driver.{Driver, machine_in_state}
use machine.Provision.{Provisioner}
use machine.Host.{Host, auth_options}
use machine.Host.Action.{LastSaid, machine_in_state-LastSaid}
use machine.Client.{
  Client, is_unprovisioned, provision_new, wait_and_provision, finish_create, perform_create,
  create,
}

module _ {W : Type 0} (f : Error → Error) (m n : Act W (Unit {0})) (w : W) where
  -- A part whose error is wrapped, and what follows it.
  pub wrapped-cases :
      ((e : Error) × ((m w).0 ≡ err e) × ((map_error f m >> n) w ≡ (err (f e), (m w).1)))
      ⊎ ((m w).0 ≡ ok tt) × ((map_error f m >> n) w ≡ n (m w).1)
  wrapped-cases = go (m w).0 (m w).1
    where
      go :
          (r : Result Error (Unit {0})) (v : W)
          → let run = ((λ (_ : W). (map_err f r, v)) >> n) w in
            ((e : Error) × (r ≡ err e) × (run ≡ (err (f e), v))) ⊎ (r ≡ ok tt) × (run ≡ n v)
      go (ok u) v = inr (refl, refl)
      go (err e) v = inl (e, refl, refl)

module _ {W : Type 0} (api : Client W) (h : Host (Driver W)) where
  -- The machine runs by its driver's last word, then its system is detected and provisioned, and
  -- last of all the connection to its Docker is checked.
  pub record Ready (end_world : W) : Type 0 where
    pub seen : W
    pub said_running : LastSaid h.driver running seen
    pub provisioner : Provisioner W
    pub detected : (api.env.detect_provisioner h.driver seen).0 ≡ ok provisioner
    pub provisioned :
        (provision_new api h provisioner (api.env.detect_provisioner h.driver seen).1).0 ≡ ok tt
    pub connected :
        (api.check_connection h
          (provision_new api h provisioner (api.env.detect_provisioner h.driver seen).1).1).0
        ≡ ok tt
    pub then_done :
        end_world
        ≡ (api.check_connection h
            (provision_new api h provisioner (api.env.detect_provisioner h.driver seen).1).1).1

  abbrev check_last : Provisioner W → Act W (Unit {0})
  check_last p =
      provision_new api h p
      >> map_error (wrapped "Error checking the host: ") (api.check_connection h)

  abbrev after_wait : Act W (Unit {0})
  after_wait =
      map_error (wrapped "Error detecting OS: ") (api.env.detect_provisioner h.driver) >>= λ p.
      check_last p

  after_wait-Ready :
      (v : W) → LastSaid h.driver running v → (after_wait v).0 ≡ ok tt → Ready (after_wait v).1
  after_wait-Ready v said e =
      let (p, found_one, same) =
        bind-inverse
          (map_error (wrapped "Error detecting OS: ") (api.env.detect_provisioner h.driver))
          (λ p. check_last p) v tt e in
      let v1 : W = (api.env.detect_provisioner h.driver v).1 in
      let e1 : (check_last p v1).0 ≡ ok tt = result same ∙ e in
      let (_, was_provisioned, same1) =
        bind-inverse (provision_new api h p)
          (λ _. map_error (wrapped "Error checking the host: ") (api.check_connection h)) v1 tt
          e1 in
      record {
        seen = v;
        said_running = said;
        provisioner = p;
        detected = map_err-ok (wrapped "Error detecting OS: ") _ p found_one;
        provisioned = was_provisioned;
        connected = map_err-ok (wrapped "Error checking the host: ") _ tt (result same1 ∙ e1);
        then_done = ap {A = Result Error (Unit {0}) × W} (λ r. r.1) (same ∙ same1);
      }
    where
      result : {x y : Result Error (Unit {0}) × W} → x ≡ y → y.0 ≡ x.0
      result q = ap {A = Result Error (Unit {0}) × W} (λ r. r.0) (sym q)

  wait_and_provision-Ready :
      (w : W) → (wait_and_provision api h w).0 ≡ ok tt → Ready (wait_and_provision api h w).1
  unfolding wait_and_provision
  wait_and_provision-Ready w e =
      let wait : Act W (Unit {0}) = wait_for api.env.sleep (machine_in_state h.driver running) in
      let (_, waited, same) =
        bind-inverse (map_error (wrapped "Error waiting for machine to be running: ") wait)
          (λ _. after_wait) w tt e in
      let (v, yes_there, there) =
        wait_for-world api.env.sleep (machine_in_state h.driver running) w
          (map_err-ok (wrapped "Error waiting for machine to be running: ") _ tt waited) in
      subst {A = Result Error (Unit {0}) × W} (λ r. Ready r.1) (sym same)
        (after_wait-Ready (wait w).1
          (rw there (machine_in_state-LastSaid h.driver running v yes_there))
          (ap {A = Result Error (Unit {0}) × W} (λ r. r.0) (sym same) ∙ e))

  -- A machine that is made: saved before and after the driver made it, and then ready, unless its
  -- driver says that there is nothing to provision.
  pub record Created (end_world : W) : Type 0 where
    pub before : W
    pub saved_before : (api.save h before).0 ≡ ok tt
    pub made : (h.driver.create (api.save h before).1).0 ≡ ok tt
    pub saved_after : (api.save h (h.driver.create (api.save h before).1).1).0 ≡ ok tt
    pub finished :
        ((is_unprovisioned api h (api.save h (h.driver.create (api.save h before).1).1).1).0 ≡ true)
        ⊎ Ready end_world

  finish_create-Ready :
      (w : W)
      → (finish_create api h w).0 ≡ ok tt
      → ((is_unprovisioned api h w).0 ≡ true) ⊎ Ready (finish_create api h w).1
  unfolding finish_create
  finish_create-Ready w = go (is_unprovisioned api h w).0
    where
      go :
          (b : Bool)
          → let run : Result Error (Unit {0}) × W =
              if b
              then (ok tt, (is_unprovisioned api h w).1)
              else wait_and_provision api h (is_unprovisioned api h w).1 in
            run.0 ≡ ok tt → (b ≡ true) ⊎ Ready run.1
      go true e = inl refl
      go false e = inr (wait_and_provision-Ready (is_unprovisioned api h w).1 e)

  -- A part whose error is wrapped has come to its end, and what follows succeeds too.
  passed :
      (f : Error → Error) (m n : Act W (Unit {0})) (w : W)
      → ((map_error f m >> n) w).0 ≡ ok tt
      → ((m w).0 ≡ ok tt) × (((map_error f m >> n) w ≡ n (m w).1) × ((n (m w).1).0 ≡ ok tt))
  passed f m n w e =
      let (_, first, same) = bind-inverse (map_error f m) (λ _. n) w tt e in
      (
        map_err-ok f _ tt first,
        (same, ap {A = Result Error (Unit {0}) × W} (λ r. r.0) (sym same) ∙ e),
      )

  perform_create-Created :
      (w : W)
      → (api.save h w).0 ≡ ok tt
      → (perform_create api h (api.save h w).1).0 ≡ ok tt
      → Created (perform_create api h (api.save h w).1).1
  unfolding perform_create
  perform_create-Created w saved e =
      let (made, (same, e1)) =
        passed (wrapped "Error in driver during machine creation: ") h.driver.create _
          (api.save h w).1 e in
      let (again, (same1, e2)) =
        passed (wrapped "Error saving host to store after attempting creation: ") (api.save h)
          (finish_create api h) _ e1 in
      subst {A = Result Error (Unit {0}) × W} (λ r. Created r.1) (sym (same ∙ same1))
        (record {
          before = w;
          saved_before = saved;
          made = made;
          saved_after = again;
          finished = finish_create-Ready _ e2;
        })

  -- When `Create` returns no error, the host has been saved before and after the driver made the
  -- machine, both times with success. Unless the driver's name is one of the two without
  -- provisioning, the driver has then said Running, the provisioner that was detected after that has
  -- run with success, and the check of the connection to Docker has passed, last of all.
  pub create-Created : (w : W) → (create api h w).0 ≡ ok tt → Created (create api h w).1
  unfolding create
  create-Created w e =
      let (_, (same, e1)) =
        passed (wrapped "Error generating certificates: ")
          (api.env.bootstrap_certificates (auth_options h)) _ w e in
      let (_, (same1, e2)) = passed during_pre_create h.driver.pre_create_check _ _ e1 in
      let (saved, (same2, e3)) =
        passed (wrapped "Error saving host to store before attempting creation: ") (api.save h) _ _
          e2 in
      subst {A = Result Error (Unit {0}) × W} (λ r. Created r.1) (sym (same ∙ same1 ∙ same2))
        (perform_create-Created _ saved (map_err-ok (wrapped "Error creating machine: ") _ tt e3))

module _ {W : Type 0} (api : Client W) (h : Host (Driver W)) where
  abbrev store_and_make : Act W (Unit {0})
  store_and_make =
      map_error (wrapped "Error saving host to store before attempting creation: ") (api.save h)
      >> map_error (wrapped "Error creating machine: ") (perform_create api h)

  abbrev check_and_make : Act W (Unit {0})
  check_and_make = map_error during_pre_create h.driver.pre_create_check >> store_and_make

  -- How `Create` can fail before the driver is asked to make the machine: the error of the
  -- certificates, of the check or of the store is passed on, in the world that the failing part
  -- leaves, so that nothing has been saved in the first two cases. Else it ends as `performCreate`
  -- does, on a host that is saved.
  pub create_outcomes :
      (w : W)
      → let (certs, w1) = api.env.bootstrap_certificates (auth_options h) w in
        let (checked, w2) = h.driver.pre_create_check w1 in
        let (saved, w3) = api.save h w2 in
        let run = create api h w in
        ((e : Error) × (certs ≡ err e)
          × (run ≡ (err (wrapped "Error generating certificates: " e), w1)))
        ⊎ (certs ≡ ok tt)
          × (((e : Error) × (checked ≡ err e) × (run ≡ (err (during_pre_create e), w2)))
              ⊎ (checked ≡ ok tt)
                × (((e : Error) × (saved ≡ err e)
                      × (run ≡ (
                        err (wrapped "Error saving host to store before attempting creation: " e),
                        w3,
                      )))
                    ⊎ (saved ≡ ok tt)
                      × (run
                          ≡ map_error
                              (wrapped "Error creating machine: ")
                              (perform_create api h)
                              w3)))
  unfolding create
  create_outcomes w =
      elim (wrapped-cases (wrapped "Error generating certificates: ") generate check_and_make w) [
        | inl failure ↦ inl failure
        | inr (certs, same) ↦ inr (
          certs,
          elim (wrapped-cases during_pre_create h.driver.pre_create_check store_and_make
              (generate w).1) [
                | inl (e, checked, same1) ↦ inl (e, checked, same ∙ same1)
                | inr (checked, same1) ↦ inr (
                  checked,
                  elim (wrapped-cases
                      (wrapped "Error saving host to store before attempting creation: ")
                      (api.save h) make (h.driver.pre_create_check (generate w).1).1) [
                        | inl (e, saved, same2) ↦ inl (e, saved, same ∙ same1 ∙ same2)
                        | inr (saved, same2) ↦ inr (saved, same ∙ same1 ∙ same2)
                      ],
                )
              ],
        )
      ]
    where
      generate : Act W (Unit {0})
      generate = api.env.bootstrap_certificates (auth_options h)

      make : Act W (Unit {0})
      make = map_error (wrapped "Error creating machine: ") (perform_create api h)
