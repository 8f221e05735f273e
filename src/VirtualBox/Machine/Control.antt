-- ===== src/VirtualBox/Machine/Control.antt =====
-- drivers/virtualbox/virtualbox.go, ip.go and vtx.go: starting, stopping and removing the machine. The
-- methods act on the driver's fields beside the world.
use machine.Base.{
  ℕ, zero, suc, Bool, true, false, ◌&&◌, ◌||◌, not, Option, none, some, List, [], ◌∷◌, ◌++◌,
  if◌then◌else◌,
}
use machine.Base.Int.{ℤ, pos, negsuc, eqb_ℤ}
use machine.Base.Exec.{Result, ok, err, pure, raise, ◌>>=◌, ◌>>◌}
use machine.Text.{Text, bytes, text_eq, contains, split}
use machine.Text.Atoi.{parse_int}
use machine.Text.Decimal.{decimal}
use machine.Text.FilePath.{join}
use machine.Errors.{Error, message, panic, endless, host_is_not_running, machine_not_exist, Act}
use machine.State.{running, paused, saved, stopped}
use machine.Wait.{wait_for_specific}
use machine.Driver.Defaults.{resolve_store_path}
use machine.VirtualBox.Ip.{Cidr}
use machine.VirtualBox.Network.{
  HostOnlyNetwork, ignore, list_host_only_adapters, get_or_create_host_only_network,
}
use machine.VirtualBox.Dhcp.{
  new_server, parse_and_validate_cidr, get_random_ip_in_subnet, get_dhcp_address_range,
  remove_orphan_dhcp_servers, add_host_only_dhcp_server,
}
use machine.VirtualBox.Collision.{validate_no_ip_collisions}
use machine.VirtualBox.Machine.{
  VirtualBox, Tools, get_state, get_host_only_mac_address, parse_ip_for_mac_from_ip_addr,
  known_state,
}

abbrev pub default_host_only_cidr : Text
default_host_only_cidr = bytes "192.168.99.1/24"

abbrev pub must_enable_vtx : Error
must_enable_vtx =
    message
      (bytes "This computer doesn't have VT-X/AMD-v enabled. Enabling it in the BIOS is mandatory")

-- A line of the log that says that VT-X is disabled.
unfoldable pub says_disabled : Text → Bool
unfolding contains
says_disabled line =
    contains (bytes "VT-x is disabled") line
      && not (
          contains
            (bytes "Falling back to raw-mode: VT-x is disabled in the BIOS for all CPU modes") line)
    || (contains (bytes "the host CPU does NOT support HW virtualization") line
        || (contains (bytes "VERR_VMX_UNABLE_TO_START_VM") line
            || contains (bytes "Power up failed") line && contains (bytes "VERR_VMX_NO_VMX") line))

unfoldable pub any_disabled : List Text → Bool
unfolding says_disabled
any_disabled [] = false
any_disabled (line ∷ lines) = says_disabled line || any_disabled lines

-- The log that `readVBoxLog` reads.
abbrev pub vbox_log : VirtualBox → Text
vbox_log d =
    join (resolve_store_path d.base d.base.machine_name ∷ bytes "Logs" ∷ bytes "VBox.log" ∷ [])

abbrev pub last_line : List Text → Option Text
last_line [] = none
last_line (l ∷ []) = some l
last_line (l ∷ m ∷ ls) = last_line (m ∷ ls)

-- The port behind the `:` of an address that is listened on.
abbrev port_of : Text → Result Error ℤ
unfolding split
port_of address = elim (split b':' address) [
  | [] ↦ err panic
  | host ∷ rest ↦ elim rest [
    | [] ↦ err panic
    | port ∷ _ ↦ elim (parse_int port) [
      | none ↦ err (message (bytes "strconv.Atoi: invalid syntax"))
      | some p ↦ ok p
    ]
  ]
]

abbrev is_ok : {A : Type 0} → Result Error A → Bool
is_ok (ok a) = true
is_ok (err e) = false

module _ {W : Type 0} (tools : Tools W) where
  abbrev pub Method : Type 0 → Type 0
  Method A = Act (VirtualBox × W) A

  -- What does not change the driver.
  abbrev pub on_world : {A : Type 0} → (VirtualBox → Act W A) → Method A
  on_world m dw = let (r, w') = m dw.0 dw.1 in (r, (dw.0, w'))

  abbrev pub change : (VirtualBox → VirtualBox) → Method (Unit {0})
  change f dw = (ok tt, (f dw.0, dw.1))

  abbrev pub vbm : (VirtualBox → List Text) → Method (Unit {0})
  vbm args = on_world (λ d. tools.vbox.vbm (args d))

  -- GetIP
  unfoldable pub get_ip : VirtualBox → Act W Text
  unfolding get_state get_host_only_mac_address parse_ip_for_mac_from_ip_addr
  get_ip d = known_state tools d >>= λ s.
      if eqb_ℤ s running
      then (get_host_only_mac_address tools d >>= λ mac_address.
          tools.run_ssh_command d (bytes "ip addr show") >>= λ output w.
          (parse_ip_for_mac_from_ip_addr output mac_address, w))
      else raise host_is_not_running

  -- GetURL
  unfoldable pub get_url : VirtualBox → Act W Text
  unfolding get_ip
  get_url d = get_ip d >>= λ ip.
      pure (if text_eq ip [] then [] else bytes "tcp://" ++ (ip ++ bytes ":2376"))

  -- hostOnlyIPAvailable
  unfoldable pub host_only_ip_available : VirtualBox → W → Bool × W
  unfolding get_ip
  host_only_ip_available d w =
      let (r, w') = get_ip d w in
      (elim r as (λ _. Bool) [ err _ ↦ false | ok ip ↦ not (text_eq ip []) ], w')

  -- sshIPWaiter.Wait: the address is written even when getting it fails, and is empty then.
  unfoldable pub wait_ip : Method (Unit {0})
  unfolding host_only_ip_available get_ip
  wait_ip =
      on_world tools.wait_for_ssh
      >> (on_world (λ d. wait_for_specific tools.sleep (host_only_ip_available d) 5 4000) >> λ dw.
          let (r, w') = get_ip dw.0 dw.1 in
          let ip = elim r as (λ _. Text) [ err _ ↦ [] | ok ip ↦ ip ] in
          let d' = record dw.0 { base = record dw.0.base { ip_address = ip } } in
          (elim r as (λ _. Result Error (Unit {0})) [ err e ↦ err e | ok _ ↦ ok tt ], (d', w')))

  -- IsVTXDisabledInTheVM
  unfoldable pub is_vtx_disabled_in_the_vm : VirtualBox → Act W Bool
  unfolding any_disabled
  is_vtx_disabled_in_the_vm d = tools.read_log (vbox_log d) >>= λ lines. pure (any_disabled lines)

  -- Kill
  unfoldable pub kill : Method (Unit {0})
  kill = vbm (λ d. bytes "controlvm" ∷ d.base.machine_name ∷ bytes "poweroff" ∷ [])

  -- The loop of `Stop`, which has no bound.
  unfoldable pub await_stopped : ℕ → VirtualBox → Act W (Unit {0})
  await_stopped zero d w = (err endless, w)
  await_stopped (suc rounds) d w =
      let (known, w') = known_state tools d w in
      elim known [
        | err e ↦ (err e, w')
        | ok s ↦
            if eqb_ℤ s running then await_stopped rounds d (tools.sleep 1000 w') else (ok tt, w')
      ]

  -- Stop, with `rounds` of its loop.
  unfoldable pub stop : ℕ → Method (Unit {0})
  unfolding await_stopped
  stop rounds = on_world (known_state tools) >>= λ s.
      (if eqb_ℤ s paused
        then vbm (λ d. bytes "controlvm" ∷ d.base.machine_name ∷ bytes "resume" ∷ [])
        else pure tt)
      >> (vbm (λ d. bytes "controlvm" ∷ d.base.machine_name ∷ bytes "acpipowerbutton" ∷ [])
          >> (on_world (await_stopped rounds)
              >> change (λ d. record d { base = record d.base { ip_address = [] } })))

  -- Remove: a machine that VirtualBox does not know is no error.
  unfoldable pub remove : Method (Unit {0})
  unfolding kill get_state
  remove dw =
      let ((s, e), w') = get_state tools dw.0 dw.1 in
      elim e [
        | none ↦
            ((if eqb_ℤ s stopped || eqb_ℤ s saved then pure tt else kill)
                >> vbm (λ d. bytes "unregistervm" ∷ bytes "--delete" ∷ d.base.machine_name ∷ []))
              (dw.0, w')
        | some failure ↦ elim failure [
          | machine_not_exist ↦ (ok tt, (dw.0, w'))
          | other ↦ (err other, (dw.0, w'))
        ]
      ]

  -- The loop of `getAvailableTCPPort`, with `tries` of its eleven rounds left.
  unfoldable pub find_port : ℕ → ℤ → Act W ℤ
  unfolding split parse_int
  find_port zero port w = (err (message (bytes "unable to allocate tcp port")), w)
  find_port (suc tries) port w =
      let (listening, w') = tools.listen port w in
      elim listening [
        | err e ↦ (err e, w')
        | ok address ↦ elim (port_of address) [
          | err e ↦ (err e, w')
          | ok p ↦ if eqb_ℤ p (pos 0) then find_port tries (pos 0) w' else (ok p, w')
        ]
      ]

  -- getAvailableTCPPort
  unfoldable pub get_available_tcp_port : ℤ → Act W ℤ
  unfolding find_port
  get_available_tcp_port = find_port 11

  -- setPortForwarding, for the first interface, the name ssh and the port 22 of the guest.
  unfoldable pub set_port_forwarding : VirtualBox → Act W ℤ
  unfolding get_available_tcp_port decimal
  set_port_forwarding d = get_available_tcp_port d.base.ssh_port >>= λ port.
      ignore (
        tools.vbox.vbm (
          bytes "modifyvm"
          ∷ d.base.machine_name
          ∷ bytes "--natpf1"
          ∷ bytes "delete"
          ∷ bytes "ssh"
          ∷ []))
      >> (tools.vbox.vbm (
            bytes "modifyvm"
            ∷ d.base.machine_name
            ∷ bytes "--natpf1"
            ∷ (bytes "ssh,tcp,127.0.0.1," ++ (decimal port ++ bytes ",,22"))
            ∷ [])
          >> pure port)

  -- `d.SSHPort, err = setPortForwarding(...)`: the port becomes -1 where there is an error.
  unfoldable pub forward_ssh : Method (Unit {0})
  unfolding set_port_forwarding
  forward_ssh dw =
      let (r, w') = set_port_forwarding dw.0 dw.1 in
      let port = elim r as (λ _. ℤ) [ err _ ↦ negsuc 0 | ok p ↦ p ] in
      let d' = record dw.0 { base = record dw.0.base { ssh_port = port } } in
      (elim r as (λ _. Result Error (Unit {0})) [ err e ↦ err e | ok _ ↦ ok tt ], (d', w'))

  -- The DHCP server and the network card of the machine, on an adapter.
  unfoldable pub attach_network : VirtualBox → Cidr → HostOnlyNetwork → Act W (Unit {0})
  unfolding remove_orphan_dhcp_servers get_random_ip_in_subnet get_dhcp_address_range
      add_host_only_dhcp_server
  attach_network d c adapter =
      remove_orphan_dhcp_servers tools.vbox
      >> (get_random_ip_in_subnet tools.random_int c.address >>= λ dhcp_addr.
          let range = get_dhcp_address_range dhcp_addr c.network c.network_mask in
          let dhcp = record new_server {
            ip = some dhcp_addr;
            mask = some c.network_mask;
            lower_ip = some range.0;
            upper_ip = some range.1;
            enabled = not d.host_only_no_dhcp;
          } in
          add_host_only_dhcp_server tools.vbox adapter.name dhcp
          >> tools.vbox.vbm (
              bytes "modifyvm"
              ∷ d.base.machine_name
              ∷ bytes "--nic2"
              ∷ bytes "hostonly"
              ∷ bytes "--nictype2"
              ∷ d.host_only_nic_type
              ∷ bytes "--nicpromisc2"
              ∷ d.host_only_promisc_mode
              ∷ bytes "--hostonlyadapter2"
              ∷ adapter.name
              ∷ bytes "--cableconnected2"
              ∷ bytes "on"
              ∷ []))

  abbrev pub from_result : {A : Type 0} → Result Error A → Act W A
  from_result r w = (r, w)

  -- setupHostOnlyNetwork
  unfoldable pub setup_host_only_network : VirtualBox → Act W HostOnlyNetwork
  unfolding attach_network parse_and_validate_cidr list_host_only_adapters validate_no_ip_collisions
      get_or_create_host_only_network
  setup_host_only_network d =
      let cidr = if text_eq d.host_only_cidr [] then default_host_only_cidr else d.host_only_cidr in
      from_result (parse_and_validate_cidr cidr) >>= λ c.
      list_host_only_adapters tools.vbox >>= λ nets.
      validate_no_ip_collisions tools.hif c nets
      >> (get_or_create_host_only_network tools.vbox tools.sleep (some c.address)
            (some c.network_mask) nets
          >>= λ adapter. attach_network d c adapter >> pure adapter)
