-- ===== src/VirtualBox/Machine.antt =====
-- drivers/virtualbox/virtualbox.go: the driver, and what it finds out about its machine.
pub mod Control
pub mod Start
pub mod Stopping
pub mod EmptyCidr
use machine.Base.{
  ℕ, zero, suc, ◌+◌, Bool, true, false, ◌&&◌, ◌||◌, not, Option, none, some, List, [], ◌∷◌, ◌++◌,
  ◌==◌, leb, if◌then◌else◌, length, take, drop,
}
use machine.Base.Int.{ℤ, pos, eqb_ℤ}
use machine.Base.Exec.{Result, ok, err}
use machine.Text.{Text, bytes, text_eq, has_prefix, contains, replace, index_byte, split}
use machine.Text.FilePath.{join}
use machine.Text.Scan.{blank, newline, trim_space, to_lower, up_to_quote}
use machine.Errors.{Error, message, panic, host_is_not_running, machine_not_exist, Act}
use machine.State.{State, no_state, running, paused, saved, stopped, error_state}
use machine.Driver.Defaults.{BaseDriver, resolve_store_path}
use machine.VirtualBox.{Ran, Manager}
use machine.VirtualBox.Ip.{is_digit}
use machine.VirtualBox.Collision.{HostInterfaces}

-- The fields of `Driver` that hold data.
pub record VirtualBox : Type 0 where
  pub base : BaseDriver
  pub cpu : ℤ
  pub memory : ℤ
  pub disk_size : ℤ
  pub nat_nic_type : Text
  pub boot2docker_url : Text
  pub boot2docker_import_vm : Text
  pub host_dns_resolver : Bool
  pub host_only_cidr : Text
  pub host_only_nic_type : Text
  pub host_only_promisc_mode : Text
  pub ui_type : Text
  pub host_only_no_dhcp : Bool
  pub no_share : Bool
  pub dns_proxy : Bool
  pub no_vtx_check : Bool
  pub share_folder : Text

-- The fields of `Driver` that are interfaces, and what it takes from other packages and the system.
pub record Tools (W : Type 0) : Type 0 where
  pub vbox : Manager W
  pub hif : HostInterfaces W
  pub update_iso_cache : (store_path iso_url : Text) → Act W (Unit {0})
  pub copy_iso_to_machine_dir : (store_path machine_name iso_url : Text) → Act W (Unit {0})
  pub generate_ssh_key : Text → Act W (Unit {0})
  pub create_disk : ℤ → (public_ssh_key_path disk_path : Text) → Act W (Unit {0})
  pub read_log : Text → Act W (List Text)
  pub random_int : ℕ → W → ℕ × W
  pub sleep : ℕ → W → W
  -- drivers.RunSSHCommandFromDriver and drivers.WaitForSSH
  pub run_ssh_command : VirtualBox → Text → Act W Text
  pub wait_for_ssh : VirtualBox → Act W (Unit {0})
  -- `net.Listen("tcp4", "127.0.0.1:port")`: the address that is listened on.
  pub listen : ℤ → Act W Text
  -- os.Stat, mcnutils.CopyFile and mcnutils.GetHomeDir
  pub stat : Text → Act W (Unit {0})
  pub copy_file : Text → Text → Act W (Unit {0})
  pub home_dir : Text
  pub num_cpu : ℤ
  pub is_windows_386 : Bool
  pub is_hyper_v_installed : Bool
  pub is_vtx_disabled : W → Bool × W
  -- getShareDriveAndName: `(shareName, shareDir)`.
  pub share_drive_and_name : Text × Text

abbrev not_found_mark : Text
not_found_mark = bytes "Could not find a registered machine named '"

-- A quotation mark on the same line.
quote_ahead : Text → Bool
quote_ahead [] = false
quote_ahead (c ∷ s) = not (c == newline) && (c == b'\'' || quote_ahead s)

abbrev name_quoted : Text → Bool
unfolding quote_ahead
name_quoted [] = false
name_quoted (c ∷ s) = not (c == newline) && quote_ahead s

-- reMachineNotFound
unfoldable pub machine_not_found : Text → Bool
unfolding quote_ahead has_prefix
machine_not_found [] = false
machine_not_found (c ∷ s) =
    has_prefix not_found_mark (c ∷ s) && name_quoted (drop (length not_found_mark) (c ∷ s))
    || machine_not_found s

-- The first line that a pattern at its start matches.
unfoldable pub first_line : (Text → Option Text) → List Text → Option Text
first_line f [] = none
first_line f (line ∷ lines) =
    let rest = first_line f lines in elim (f line) [ some found ↦ some found | none ↦ rest ]

abbrev behind : Text → Text → Option Text
behind prefix line = if has_prefix prefix line then some (drop (length prefix) line) else none

is_word : ℕ → Bool
is_word c = is_digit c || ((leb 97 c && leb c 122) || ((leb 65 c && leb c 90) || c == b'_'))

-- `(\w*)"`
word_quoted : Text → Option Text
unfolding is_word
word_quoted [] = none
word_quoted (c ∷ s) =
    let rest = word_quoted s in
    if c == b'"'
    then some []
    else if is_word c
    then elim rest [ none ↦ none | some w ↦ some (c ∷ w) ]
    else none

abbrev not_empty : Option Text → Option Text
not_empty none = none
not_empty (some []) = none
not_empty (some (c ∷ s)) = some (c ∷ s)

abbrev and_then : Option Text → (Text → Option Text) → Option Text
and_then none f = none
and_then (some t) f = f t

-- `^VMState="(\w+)"`
vm_state_line : Text → Option Text
unfolding word_quoted
vm_state_line line =
    and_then (behind (bytes "VMState=\"") line) (λ rest. not_empty (word_quoted rest))

unfoldable pub state_of : Option Text → State
state_of none = no_state
state_of (some s) =
    if text_eq s (bytes "running")
    then running
    else if text_eq s (bytes "paused")
    then paused
    else if text_eq s (bytes "saved")
    then saved
    else if text_eq s (bytes "poweroff") || text_eq s (bytes "aborted")
    then stopped
    else no_state

digits_of : Text → Text
digits_of [] = []
digits_of (c ∷ s) = let rest = digits_of s in if is_digit c then c ∷ rest else []

-- `^hostonlyadapter([\d]+)`
adapter_line : Text → Option Text
unfolding digits_of
adapter_line line =
    and_then (behind (bytes "hostonlyadapter") line) (λ rest. not_empty (some (digits_of rest)))

-- `^macaddressN="(.*)"`
mac_line : Text → Text → Option Text
unfolding up_to_quote
mac_line number line =
    and_then (behind (bytes "macaddress" ++ (number ++ bytes "=\"")) line) up_to_quote

abbrev pub no_host_only_adapter : Error
no_host_only_adapter = message (bytes "Machine does not have a host-only adapter")

-- The address of the host-only adapter in what `showvminfo` prints.
unfoldable pub read_mac : Text → Result Error Text
unfolding first_line adapter_line mac_line to_lower
read_mac stdout = elim (first_line adapter_line (split newline stdout)) [
  | none ↦ err no_host_only_adapter
  | some number ↦ elim (first_line (mac_line number) (split newline stdout)) [
    | none ↦ err (message (bytes "Could not find MAC address for adapter " ++ number))
    | some mac ↦ ok (to_lower mac)
  ]
]

-- The second word of a line, if it has one.
abbrev second_word : Text → Option Text
second_word line = elim (split blank line) [
  | [] ↦ none
  | _ ∷ words ↦ elim words [ [] ↦ none | word ∷ _ ↦ some word ]
]

-- `vals[1][:strings.Index(vals[1], "/")]` stops the program where there is no slash.
up_to_prefix_length : Text → Result Error Text
unfolding index_byte
up_to_prefix_length word = elim (index_byte word b'/') [
  | none ↦ err panic
  | some i ↦ ok (take i word)
]

abbrev is_inet : Text → Bool
is_inet line = has_prefix (bytes "inet") line && not (has_prefix (bytes "inet6") line)

-- The loop of `parseIPForMACFromIPAddr`, with `returnNextIP`.
unfoldable pub ip_for_mac : Text → Bool → List Text → Result Error Text
unfolding trim_space split replace has_prefix up_to_prefix_length
ip_for_mac mac_address return_next_ip [] =
    err (message (bytes "Could not find matching IP for MAC address " ++ mac_address))
ip_for_mac mac_address return_next_ip (l ∷ lines) =
    let line = trim_space l in
    let word = second_word line in
    if has_prefix (bytes "link") line
    then elim word [
      | none ↦ ip_for_mac mac_address return_next_ip lines
      | some mac_block ↦
          ip_for_mac mac_address
            (return_next_ip || text_eq (replace (bytes ":") [] mac_block) mac_address) lines
    ]
    else if is_inet line && return_next_ip
    then elim word [
      | none ↦ ip_for_mac mac_address return_next_ip lines
      | some address ↦ up_to_prefix_length address
    ]
    else ip_for_mac mac_address return_next_ip lines

-- parseIPForMACFromIPAddr
unfoldable pub parse_ip_for_mac_from_ip_addr :
    (ip_addr_output mac_address : Text) → Result Error Text
unfolding ip_for_mac
parse_ip_for_mac_from_ip_addr ip_addr_output mac_address =
    ip_for_mac mac_address false (split newline ip_addr_output)

abbrev pub disk_path : VirtualBox → Text
disk_path d = resolve_store_path d.base (bytes "disk.vmdk")

module _ {W : Type 0} (tools : Tools W) where
  abbrev pub show_vm_info : VirtualBox → W → Ran Error × W
  show_vm_info d =
      tools.vbox.vbm_out_err
        (bytes "showvminfo" ∷ d.base.machine_name ∷ bytes "--machinereadable" ∷ [])

  -- GetState
  unfoldable pub get_state : VirtualBox → W → (State × Option Error) × W
  unfolding machine_not_found first_line vm_state_line state_of
  get_state d w =
      let (ran, w') = show_vm_info d w in
      elim ran.failure [
        | some e ↦ (
          (error_state, some (if machine_not_found ran.stderr then machine_not_exist else e)),
          w',
        )
        | none ↦ ((state_of (first_line vm_state_line (split newline ran.stdout)), none), w')
      ]

  -- getHostOnlyMACAddress
  unfoldable pub get_host_only_mac_address : VirtualBox → Act W Text
  unfolding machine_not_found read_mac
  get_host_only_mac_address d w =
      let (ran, w') = show_vm_info d w in
      elim ran.failure [
        | some e ↦ (err (if machine_not_found ran.stderr then machine_not_exist else e), w')
        | none ↦ (read_mac ran.stdout, w')
      ]

  -- The state, with the error of `GetState` as an error.
  abbrev pub known_state : VirtualBox → Act W State
  known_state d w =
      let ((s, e), w') = get_state d w in
      elim e [ some failure ↦ (err failure, w') | none ↦ (ok s, w') ]
