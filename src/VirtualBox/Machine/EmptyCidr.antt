-- ===== src/VirtualBox/Machine/EmptyCidr.antt =====
-- Start of drivers/virtualbox/virtualbox.go on a driver whose host-only CIDR is empty, as in a
-- configuration of version 0.2: setupHostOnlyNetwork puts the default in its place, Start does not.
use machine.Base.{
  ℕ, ◌≡◌, ◌≢◌, refl, sym, ap, ◌∙◌, subst, Bool, true, false, Bool-cases, inl, inr, Option, none,
  some, [], if◌then◌else◌, ◌||◌,
}
use machine.Base.Int.{eqb_ℤ}
use machine.Base.Exec.{
  Result, ok, err, pure, raise, continue, map_error, ◌>>=◌, ◌>>◌, bind-parts, ok-injective,
}
use machine.Text.{Text, text_eq}
use machine.Text.Dict.{Dict}
use machine.Errors.{Error, wrapped, Act}
use machine.State.{State, stopped, saved, paused}
use machine.VirtualBox.Network.{
  HostOnlyNetwork, list_host_only_adapters, get_host_only_adapter, get_or_create_host_only_network,
}
use machine.VirtualBox.Ip.{Cidr, parse_cidr}
use machine.VirtualBox.Dhcp.{parse_and_validate_cidr}
use machine.VirtualBox.Collision.{validate_no_ip_collisions}
use machine.VirtualBox.Machine.{VirtualBox, Tools, known_state}
use machine.VirtualBox.Machine.Control.{
  Method, on_world, from_result, setup_host_only_network, forward_ssh, is_vtx_disabled_in_the_vm,
  must_enable_vtx, attach_network, default_host_only_cidr,
}
use machine.VirtualBox.Machine.Start.{
  start_vm, set_up_network, boot, check_vtx, verify_vtx, is_adapter_there, mend_adapter,
  check_adapter, start,
}

-- No CIDR is read out of an empty text.
pub parse_and_validate_cidr-empty : (c : Cidr) → parse_and_validate_cidr [] ≢ ok c
unfolding parse_and_validate_cidr parse_cidr
parse_and_validate_cidr-empty c h = cc

module _ {W : Type 0} (tools : Tools W) (wait : Act (VirtualBox × W) (Unit {0})) (rounds : ℕ) where
  is_adapter_there-empty :
      (d : VirtualBox) (w : W) (b : Bool)
      → d.host_only_cidr ≡ []
      → (is_adapter_there tools wait rounds d w).0 ≢ ok b
  unfolding is_adapter_there
  is_adapter_there-empty d w b empty h =
      let (nets, _, read) =
        bind-parts (list_host_only_adapters tools.vbox)
          (λ nets. from_result tools (parse_and_validate_cidr d.host_only_cidr) >>= after nets) w b
          h in
      let (c, has_cidr, _) =
        bind-parts (from_result tools (parse_and_validate_cidr d.host_only_cidr)) (after nets)
          (list_host_only_adapters tools.vbox w).1 b read in
      parse_and_validate_cidr-empty c (ap parse_and_validate_cidr (sym empty) ∙ has_cidr)
    where
      after : Dict HostOnlyNetwork → Cidr → Act W Bool
      after nets c =
          validate_no_ip_collisions tools.hif c nets
          >> pure
              (elim (get_host_only_adapter nets (some c.address) (some c.network_mask))
                as (λ _. Bool) [ none ↦ false | some _ ↦ true ])

  check_adapter-empty :
      (adapter : HostOnlyNetwork) (dw : VirtualBox × W)
      → dw.0.host_only_cidr ≡ []
      → (check_adapter tools wait rounds (some adapter) dw).0 ≢ ok tt
  unfolding check_adapter
  check_adapter-empty adapter dw empty h =
      let (there, said, _) =
        bind-parts (on_world tools (is_adapter_there tools wait rounds))
          (λ there. if there then pure tt else mend_adapter tools wait rounds adapter) dw tt h in
      is_adapter_there-empty dw.0 dw.1 there empty said

  -- A stopped machine gets an adapter.
  set_up_network-stopped :
      (dw : VirtualBox × W) (a : Option HostOnlyNetwork)
      → (set_up_network tools wait rounds stopped dw).0 ≡ ok a
      → (adapter : HostOnlyNetwork) × (a ≡ some adapter)
  unfolding set_up_network
  set_up_network-stopped dw a h =
      let m : Method tools HostOnlyNetwork =
        map_error (wrapped "Error setting up host only network on machine start: ")
          (on_world tools (setup_host_only_network tools)) in
      let (adapter, _, e) = bind-parts m (λ adapter. pure (some adapter)) dw a h in
      (adapter, sym (ok-injective e))

  -- The CIDR of the driver is as it was.
  abbrev pub Keeps : {A : Type 0} → Method tools A → Type 0
  Keeps m = (dw : VirtualBox × W) → (m dw).1.0.host_only_cidr ≡ dw.0.host_only_cidr

  bind-Keeps :
      {A B : Type 0} (m : Method tools A) (f : A → Method tools B)
      → Keeps m
      → ((a : A) → Keeps (f a))
      → Keeps (m >>= f)
  bind-Keeps {A = A} {B = B} m f k l dw = go (m dw).0 ∙ k dw
    where
      go :
          (r : Result Error A)
          → (continue r f (m dw).1).1.0.host_only_cidr ≡ (m dw).1.0.host_only_cidr
      go (ok a) = l a (m dw).1
      go (err e) = refl

  set_up_network-Keeps : (s : State) → Keeps (set_up_network tools wait rounds s)
  unfolding set_up_network
  set_up_network-Keeps s dw = elim (Bool-cases (eqb_ℤ s stopped)) [
    | inl e ↦ rw e (bind-Keeps set_up (λ adapter. pure (some adapter)) (λ _. refl) (λ _ _. refl) dw)
    | inr e ↦ rw e refl
  ]
    where
      set_up : Method tools HostOnlyNetwork
      set_up =
          map_error (wrapped "Error setting up host only network on machine start: ")
            (on_world tools (setup_host_only_network tools))

  boot-Keeps : (s : State) → Keeps (boot tools wait rounds s)
  unfolding boot forward_ssh
  boot-Keeps s dw = elim (Bool-cases (eqb_ℤ s stopped || eqb_ℤ s saved)) [
    | inl e ↦ rw e (
        bind-Keeps (forward_ssh tools) (λ _. on_world tools (start_vm tools wait rounds))
          (λ _. refl) (λ _ _. refl) dw)
    | inr e ↦ elim (Bool-cases (eqb_ℤ s paused)) [
      | inl f ↦ rw e (rw f refl)
      | inr f ↦ rw e (rw f refl)
    ]
  ]

  verify_vtx-Keeps : Keeps (verify_vtx tools wait rounds)
  unfolding verify_vtx check_vtx
  verify_vtx-Keeps dw = go dw.0.no_vtx_check dw
    where
      verdict : (disabled : Bool) → Keeps (if disabled then raise must_enable_vtx else pure tt)
      verdict true v = refl
      verdict false v = refl

      go : (skip : Bool) → Keeps (check_vtx tools wait rounds skip)
      go true v = refl
      go false v =
          bind-Keeps
            (map_error (wrapped "Checking if hardware virtualization is enabled failed: ")
              (on_world tools (is_vtx_disabled_in_the_vm tools)))
            (λ disabled. if disabled then raise must_enable_vtx else pure tt) (λ _. refl) verdict v

  -- The network of a driver without a host-only CIDR is that of the default one.
  setup_host_only_network-empty :
      (d : VirtualBox)
      → d.host_only_cidr ≡ []
      → setup_host_only_network tools d
        ≡ setup_host_only_network tools (record d { host_only_cidr = default_host_only_cidr })
  unfolding setup_host_only_network attach_network text_eq
  setup_host_only_network-empty d empty = ap with_cidr empty
    where
      with_cidr : Text → Act W HostOnlyNetwork
      with_cidr t =
          from_result tools
            (parse_and_validate_cidr (if text_eq t [] then default_host_only_cidr else t))
          >>= λ c. list_host_only_adapters tools.vbox >>= λ nets.
              validate_no_ip_collisions tools.hif c nets
              >> (get_or_create_host_only_network tools.vbox tools.sleep (some c.address)
                    (some c.network_mask) nets
                  >>= λ adapter. attach_network tools d c adapter >> pure adapter)

  start-fails :
      (wait_keeps : Keeps wait) (d : VirtualBox) (w : W)
      → d.host_only_cidr ≡ []
      → (known_state tools d w).0 ≡ ok stopped
      → (start tools wait rounds (d, w)).0 ≢ ok tt
  unfolding start
  start-fails wait_keeps d w empty is_stopped h =
      let (s, known, e1) =
        bind-parts (on_world tools (known_state tools))
          (λ s. set_up_network tools wait rounds s >>= λ adapter. rest s adapter) (d, w) tt h in
      let same : s ≡ stopped = ok-injective (sym known ∙ is_stopped) in
      let w1 : VirtualBox × W = (d, (known_state tools d w).1) in
      let (a, set_up, e2) =
        bind-parts (set_up_network tools wait rounds s) (λ adapter. rest s adapter) w1 tt e1 in
      let (adapter, some_adapter) =
        set_up_network-stopped w1 a
          (subst (λ t. (set_up_network tools wait rounds t w1).0 ≡ ok a) same set_up) in
      let w2 : VirtualBox × W = (set_up_network tools wait rounds s w1).1 in
      let (_, _, e3) =
        bind-parts (boot tools wait rounds s)
          (λ _. verify_vtx tools wait rounds >> (wait >> check_adapter tools wait rounds a)) w2 tt
          e2 in
      let w3 : VirtualBox × W = (boot tools wait rounds s w2).1 in
      let (_, _, e4) =
        bind-parts (verify_vtx tools wait rounds) (λ _. wait >> check_adapter tools wait rounds a)
          w3 tt e3 in
      let w4 : VirtualBox × W = (verify_vtx tools wait rounds w3).1 in
      let (_, _, e5) = bind-parts wait (λ _. check_adapter tools wait rounds a) w4 tt e4 in
      let kept : (wait w4).1.0.host_only_cidr ≡ [] =
        wait_keeps w4
        ∙ (verify_vtx-Keeps w3 ∙ (boot-Keeps s w2 ∙ (set_up_network-Keeps s w1 ∙ empty))) in
      check_adapter-empty adapter (wait w4).1 kept
        (subst (λ x. (check_adapter tools wait rounds x (wait w4).1).0 ≡ ok tt) some_adapter e5)
    where
      rest : State → Option HostOnlyNetwork → Method tools (Unit {0})
      rest s adapter =
          boot tools wait rounds s
          >> (verify_vtx tools wait rounds >> (wait >> check_adapter tools wait rounds adapter))

  -- On a stopped machine whose driver has no host-only CIDR, the host-only network is set up as with
  -- the default CIDR, and yet `Start` never succeeds; the waiting for an address may do what it likes
  -- but to set a CIDR.
  pub start-empty_cidr :
      (wait_keeps : Keeps wait) (d : VirtualBox) (w : W)
      → d.host_only_cidr ≡ []
      → (known_state tools d w).0 ≡ ok stopped
      → (setup_host_only_network tools d
          ≡ setup_host_only_network tools (record d { host_only_cidr = default_host_only_cidr }))
        × ((start tools wait rounds (d, w)).0 ≢ ok tt)
  start-empty_cidr wait_keeps d w empty is_stopped =
      (setup_host_only_network-empty d empty, start-fails wait_keeps d w empty is_stopped)
