-- ===== src/VirtualBox/Machine/Start.antt =====
-- drivers/virtualbox/virtualbox.go: Start and Restart.
use machine.Base.{ℕ, Bool, true, false, ◌||◌, Option, none, some, List, [], ◌∷◌, if◌then◌else◌}
use machine.Base.Int.{eqb_ℤ}
use machine.Base.Exec.{Result, ok, err, pure, raise, map_error, ◌>>=◌, ◌>>◌}
use machine.Text.{Text, bytes}
use machine.Errors.{Error, wrapped, unable_to_start, Act}
use machine.State.{State, paused, saved, stopped}
use machine.VirtualBox.Network.{
  HostOnlyNetwork, save_ipv4, list_host_only_adapters, get_host_only_adapter,
}
use machine.VirtualBox.Dhcp.{parse_and_validate_cidr}
use machine.VirtualBox.Collision.{validate_no_ip_collisions}
use machine.VirtualBox.Machine.{VirtualBox, Tools, known_state}
use machine.VirtualBox.Machine.Control.{
  Method, on_world, change, vbm, stop, forward_ssh, setup_host_only_network, vbox_log,
  is_vtx_disabled_in_the_vm, must_enable_vtx, from_result, last_line,
}

-- What a failure to start is reported as, by the log of VirtualBox.
unfoldable pub start_error : Error → Result Error (List Text) → Error
start_error e (err _) = wrapped "Unable to start the VM: " e
start_error e (ok lines) = elim (last_line lines) [
  | none ↦ wrapped "Unable to start the VM: " e
  | some line ↦ unable_to_start e line
]

module _ {W : Type 0} (tools : Tools W) (wait : Act (VirtualBox × W) (Unit {0})) (rounds : ℕ) where
  abbrev start_args : VirtualBox → List Text
  start_args d = bytes "startvm" ∷ d.base.machine_name ∷ bytes "--type" ∷ d.ui_type ∷ []

  unfoldable pub start_vm : VirtualBox → Act W (Unit {0})
  unfolding start_error
  start_vm d w =
      let (r, w') = tools.vbox.vbm (start_args d) w in
      elim r [
        | ok _ ↦ (ok tt, w')
        | err e ↦
            let (lines, w'') = tools.read_log (vbox_log d) w' in (err (start_error e lines), w'')
      ]

  -- The `switch` on the state that the machine was in.
  unfoldable pub boot : State → Method tools (Unit {0})
  unfolding start_vm forward_ssh
  boot s =
      if eqb_ℤ s stopped || eqb_ℤ s saved
      then forward_ssh tools >> on_world tools start_vm
      else if eqb_ℤ s paused
      then vbm tools (λ d.
        bytes "controlvm" ∷ d.base.machine_name ∷ bytes "resume" ∷ bytes "--type" ∷ d.ui_type ∷ [])
      else pure tt

  -- The check of the log, unless `NoVTXCheck` says not to.
  unfoldable pub check_vtx : Bool → Method tools (Unit {0})
  unfolding is_vtx_disabled_in_the_vm
  check_vtx true = pure tt
  check_vtx false =
      map_error (wrapped "Checking if hardware virtualization is enabled failed: ")
        (on_world tools (is_vtx_disabled_in_the_vm tools))
      >>= λ disabled. if disabled then raise must_enable_vtx else pure tt

  unfoldable pub verify_vtx : Method tools (Unit {0})
  unfolding check_vtx
  verify_vtx dw = check_vtx dw.0.no_vtx_check dw

  -- Whether VirtualBox still lists the adapter with its address.
  unfoldable pub is_adapter_there : VirtualBox → Act W Bool
  unfolding list_host_only_adapters parse_and_validate_cidr validate_no_ip_collisions
      get_host_only_adapter
  is_adapter_there d = list_host_only_adapters tools.vbox >>= λ nets.
      from_result tools (parse_and_validate_cidr d.host_only_cidr) >>= λ c.
      validate_no_ip_collisions tools.hif c nets
      >> pure
          (elim (get_host_only_adapter nets (some c.address) (some c.network_mask)) as (λ _. Bool) [
            | none ↦ false
            | some _ ↦ true
          ])

  abbrev sleep_5s : Method tools (Unit {0})
  sleep_5s dw = (ok tt, (dw.0, tools.sleep 5000 dw.1))

  -- The adapter is corrupted: it is mended while the machine is stopped.
  unfoldable pub mend_adapter : HostOnlyNetwork → Method tools (Unit {0})
  unfolding stop save_ipv4
  mend_adapter adapter =
      stop tools rounds
      >> (sleep_5s
          >> (on_world tools (λ _. save_ipv4 tools.vbox adapter)
              >> (sleep_5s
                  >> (map_error (wrapped "Unable to start the VM: ") (vbm tools start_args)
                      >> wait))))

  unfoldable pub check_adapter : Option HostOnlyNetwork → Method tools (Unit {0})
  unfolding is_adapter_there mend_adapter
  check_adapter none = pure tt
  check_adapter (some adapter) =
      on_world tools is_adapter_there >>= λ there. if there then pure tt else mend_adapter adapter

  -- The adapter is set up only for a machine that was stopped.
  unfoldable pub set_up_network : State → Method tools (Option HostOnlyNetwork)
  unfolding setup_host_only_network
  set_up_network s =
      if eqb_ℤ s stopped
      then (map_error (wrapped "Error setting up host only network on machine start: ")
            (on_world tools (setup_host_only_network tools))
          >>= λ adapter. pure (some adapter))
      else pure none

  -- Start
  unfoldable pub start : Method tools (Unit {0})
  unfolding set_up_network boot verify_vtx check_adapter
  start = on_world tools (known_state tools) >>= λ s.
      set_up_network s >>= λ adapter. boot s >> (verify_vtx >> (wait >> check_adapter adapter))

  -- Restart
  unfoldable pub restart : Method tools (Unit {0})
  unfolding stop start
  restart =
      map_error (wrapped "Problem stopping the VM: ") (stop tools rounds)
      >> (map_error (wrapped "Problem starting the VM: ") start
          >> (change tools (λ d. record d { base = record d.base { ip_address = [] } }) >> wait))
