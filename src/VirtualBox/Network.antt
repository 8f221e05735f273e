-- ===== src/VirtualBox/Network.antt =====
-- drivers/virtualbox/network.go: host-only networks and their DHCP servers, as VBoxManage lists and
-- changes them. Texts that are only logged are left out.
pub mod Listed
pub mod Chosen
pub mod Mask
use machine.Base.{
  ℕ, zero, suc, Bool, true, false, ◌&&◌, ◌||◌, not, Option, none, some, List, [], ◌∷◌, ◌++◌, ◌==◌,
  if◌then◌else◌, drop, length,
}
use machine.Base.Exec.{Result, ok, err, pure, map_error, ◌>>=◌, ◌>>◌}
use machine.Text.{Text, bytes, text_eq, has_prefix}
use machine.Text.Dict.{Dict, lookup, insert}
use machine.Text.Scan.{newline, quoted, colon_line, parse_key_values}
use machine.Errors.{Error, message, Act}
use machine.VirtualBox.{Manager}
use machine.VirtualBox.Ip.{Quad, quad, Ip, ip_string, ip_equal, mask_string, parse_ip, parse_mac}

pub record HostOnlyNetwork : Type 0 where
  pub name : Text
  pub guid : Text
  pub dhcp : Bool
  pub ip : Ip
  pub mask : Ip
  pub hw_addr : Option (List ℕ)
  pub medium : Text
  pub status : Text
  pub network_name : Text

-- `&hostOnlyNetwork{}`
abbrev pub new_network : HostOnlyNetwork
new_network = record {
  name = [];
  guid = [];
  dhcp = false;
  ip = none;
  mask = none;
  hw_addr = none;
  medium = [];
  status = [];
  network_name = [];
}

abbrev pub buggy_netmask : Text
buggy_netmask = bytes "0f000000"

abbrev pub dhcp_prefix : Text
dhcp_prefix = bytes "HostInterfaceNetworking-"

-- The sixteen bytes in which `net.ParseIP` gives an address of IPv4.
abbrev pub sixteen : Quad → List ℕ
sixteen q = 0 ∷ 0 ∷ 0 ∷ 0 ∷ 0 ∷ 0 ∷ 0 ∷ 0 ∷ 0 ∷ 0 ∷ 255 ∷ 255 ∷ q.a ∷ q.b ∷ q.c ∷ q.d ∷ []

-- `mask[i]`, of a slice that is long enough.
abbrev byte_at : List ℕ → ℕ → ℕ
byte_at [] i = 0
byte_at (b ∷ bytes) zero = b
byte_at (b ∷ bytes) (suc i) = byte_at bytes i

-- parseIPv4Mask
unfoldable pub parse_ipv4_mask : Text → Ip
unfolding parse_ip
parse_ipv4_mask s = elim (parse_ip s) [
  | none ↦ none
  | some q ↦
      let mask = sixteen q in
      some (quad (byte_at mask 12) (byte_at mask 13) (byte_at mask 14) (byte_at mask 15))
]

abbrev created_mark : Text
created_mark = bytes "' was successfully created"

-- What stands on the line before the last mark.
before_created : Text → Option Text
unfolding has_prefix
before_created [] = none
before_created (c ∷ s) =
    let rest = before_created s in
    if c == newline then none else elim rest [
      | some name ↦ some (c ∷ name)
      | none ↦ if has_prefix created_mark (c ∷ s) then some [] else none
    ]

abbrev created_name : Text → Option Text
unfolding before_created
created_name [] = none
created_name (c ∷ s) =
    if c == newline
    then none
    else elim (before_created s) [ none ↦ none | some name ↦ some (c ∷ name) ]

-- `Interface '(.+)' was successfully created`, at its first place in the text.
find_created : Text → Option Text
unfolding before_created has_prefix
find_created [] = none
find_created (c ∷ s) =
    let rest = find_created s in
    if has_prefix (bytes "Interface '") (c ∷ s)
    then elim (created_name (drop 10 s)) [ some name ↦ some name | none ↦ rest ]
    else rest

-- The adapter that is being read, and the maps of those that are complete.
pub record Listing : Type 0 where
  pub current : HostOnlyNetwork
  pub by_name : Dict HostOnlyNetwork
  pub by_ip : Dict HostOnlyNetwork

abbrev pub empty_listing : Listing
empty_listing = record { current = new_network; by_name = []; by_ip = [] }

abbrev pub same_name : Text → Error
same_name name = message (
    bytes "VirtualBox is configured with multiple host-only adapters with the same name "
    ++ (quoted name ++ bytes ". Please remove one"))

abbrev pub same_ip : Text → Error
same_ip ip = message (
    bytes "VirtualBox is configured with multiple host-only adapters with the same IP "
    ++ (quoted ip ++ bytes ". Please remove one"))

-- The address of an adapter that is complete goes to `by_ip`, if it has one.
unfoldable pub file_ip : HostOnlyNetwork → Dict HostOnlyNetwork → Listing → Result Error Listing
file_ip n by_name s = elim n.ip [
  | none ↦ ok (record { current = new_network; by_name = by_name; by_ip = s.by_ip })
  | some q ↦ elim (lookup (ip_string (some q)) s.by_ip) [
    | some _ ↦ err (same_ip (ip_string (some q)))
    | none ↦ ok (record {
      current = new_network;
      by_name = by_name;
      by_ip = insert (ip_string (some q)) n s.by_ip;
    })
  ]
]

-- The case "VBoxNetworkName", which completes an adapter.
unfoldable pub complete : HostOnlyNetwork → Listing → Result Error Listing
unfolding file_ip
complete n s = elim (lookup n.network_name s.by_name) [
  | some _ ↦ err (same_name n.network_name)
  | none ↦ file_ip n (insert n.network_name n s.by_name) s
]

abbrev pub with_current : HostOnlyNetwork → Listing → Result Error Listing
with_current n s = ok (record s { current = n })

-- The callback of `listHostOnlyAdapters`.
unfoldable pub on_adapter : Text → Text → Listing → Result Error Listing
unfolding complete
on_adapter key val s =
    let n = s.current in
    if text_eq key (bytes "Name")
    then with_current (record n { name = val }) s
    else if text_eq key (bytes "GUID")
    then with_current (record n { guid = val }) s
    else if text_eq key (bytes "DHCP")
    then with_current (record n { dhcp = not (text_eq val (bytes "Disabled")) }) s
    else if text_eq key (bytes "IPAddress")
    then with_current (record n { ip = parse_ip val }) s
    else if text_eq key (bytes "NetworkMask")
    then with_current (record n { mask = parse_ipv4_mask val }) s
    else if text_eq key (bytes "HardwareAddress")
    then elim (parse_mac val) [
      | none ↦ err (message (bytes "invalid MAC address"))
      | some hw ↦ with_current (record n { hw_addr = some hw }) s
    ]
    else if text_eq key (bytes "MediumType")
    then with_current (record n { medium = val }) s
    else if text_eq key (bytes "Status")
    then with_current (record n { status = val }) s
    else if text_eq key (bytes "VBoxNetworkName")
    then complete (record n { network_name = val }) s
    else ok s

-- What `listHostOnlyAdapters` reads out of a listing.
unfoldable pub read_adapters : Text → Result Error Listing
unfolding parse_key_values on_adapter colon_line
read_adapters out = parse_key_values colon_line on_adapter out empty_listing

abbrev pub names_of : Result Error Listing → Result Error (Dict HostOnlyNetwork)
names_of (err e) = err e
names_of (ok s) = ok s.by_name

abbrev pub matches : Ip → Ip → HostOnlyNetwork → Bool
matches host_ip netmask n =
    ip_equal host_ip n.ip
    && (text_eq (mask_string netmask) (mask_string n.mask)
        || text_eq (mask_string n.mask) buggy_netmask)

-- getHostOnlyAdapter
unfoldable pub get_host_only_adapter : Dict HostOnlyNetwork → Ip → Ip → Option HostOnlyNetwork
get_host_only_adapter [] host_ip netmask = none
get_host_only_adapter ((_, n) ∷ nets) host_ip netmask =
    let rest = get_host_only_adapter nets host_ip netmask in
    if matches host_ip netmask n then some n else rest

-- The first network whose name the old ones do not have.
unfoldable pub first_new : Dict HostOnlyNetwork → Dict HostOnlyNetwork → Option HostOnlyNetwork
first_new old_nets [] = none
first_new old_nets ((name, n) ∷ nets) =
    let rest = first_new old_nets nets in
    elim (lookup name old_nets) [ some _ ↦ rest | none ↦ some n ]

abbrev pub new_adapter_not_visible : Error
new_adapter_not_visible = message (
    bytes
      "The host-only adapter we just created is not visible. This is a well known VirtualBox bug. You might want to uninstall it and reinstall at least version 5.0.12 that is is supposed to fix this issue")

-- An error that is dropped.
abbrev pub ignore : {W A : Type 0} → Act W A → Act W (Unit {0})
ignore m w = (ok tt, (m w).1)

module _ {W : Type 0} (vbox : Manager W) where
  -- (*hostOnlyNetwork).SaveIPv4
  unfoldable pub save_ipv4 : HostOnlyNetwork → Act W (Unit {0})
  save_ipv4 n w = elim n.ip [
    | none ↦ (ok tt, w)
    | some ip ↦ elim n.mask [
      | none ↦ (ok tt, w)
      | some mask ↦
          vbox.vbm
            (bytes "hostonlyif"
              ∷ bytes "ipconfig"
              ∷ n.name
              ∷ bytes "--ip"
              ∷ ip_string (some ip)
              ∷ bytes "--netmask"
              ∷ ip_string (some mask)
              ∷ [])
            w
    ]
  ]

  -- (*hostOnlyNetwork).Save
  unfoldable pub save : HostOnlyNetwork → Act W (Unit {0})
  unfolding save_ipv4
  save n =
      save_ipv4 n
      >> (if n.dhcp
          then ignore
              (vbox.vbm (bytes "hostonlyif" ∷ bytes "ipconfig" ∷ n.name ∷ bytes "--dhcp" ∷ []))
          else λ w. (ok tt, w))

  -- createHostonlyAdapter
  unfoldable pub create_hostonly_adapter : Act W HostOnlyNetwork
  unfolding find_created
  create_hostonly_adapter = vbox.vbm_out (bytes "hostonlyif" ∷ bytes "create" ∷ []) >>= λ out w.
      elim (find_created out) [
        | none ↦ (err (message (bytes "Failed to create host-only adapter")), w)
        | some name ↦ (ok (record new_network { name = name }), w)
      ]

  -- listHostOnlyAdapters
  unfoldable pub list_host_only_adapters : Act W (Dict HostOnlyNetwork)
  unfolding read_adapters
  list_host_only_adapters = vbox.vbm_out (bytes "list" ∷ bytes "hostonlyifs" ∷ []) >>= λ out w.
      (names_of (read_adapters out), w)

  -- The loop of `waitForNewHostOnlyNetwork`.
  unfoldable pub wait_new_from : (ℕ → W → W) → ℕ → Dict HostOnlyNetwork → Act W HostOnlyNetwork
  unfolding first_new list_host_only_adapters
  wait_new_from sleep zero old_nets w =
      (err (message (bytes "Failed to find a new host-only adapter")), w)
  wait_new_from sleep (suc rounds) old_nets w =
      let (listed, w') = list_host_only_adapters (sleep 1000 w) in
      elim listed [
        | err e ↦ (err e, w')
        | ok new_nets ↦ elim (first_new old_nets new_nets) [
          | some latest_net ↦ (ok latest_net, w')
          | none ↦ wait_new_from sleep rounds old_nets w'
        ]
      ]

  -- waitForNewHostOnlyNetwork
  unfoldable pub wait_for_new_host_only_network :
      (ℕ → W → W) → Dict HostOnlyNetwork → Act W HostOnlyNetwork
  unfolding wait_new_from
  wait_for_new_host_only_network sleep = wait_new_from sleep 10

  -- getOrCreateHostOnlyNetwork: the error of creating one is only logged.
  unfoldable pub get_or_create_host_only_network :
      (ℕ → W → W) → Ip → Ip → Dict HostOnlyNetwork → Act W HostOnlyNetwork
  unfolding get_host_only_adapter create_hostonly_adapter wait_for_new_host_only_network save
  get_or_create_host_only_network sleep host_ip netmask nets w =
      elim (get_host_only_adapter nets host_ip netmask) [
        | some n ↦ (ok n, w)
        | none ↦
            (ignore (create_hostonly_adapter)
                >> (map_error (λ _. new_adapter_not_visible)
                      (wait_for_new_host_only_network sleep nets)
                    >>= λ n.
                        let adapter = record n { ip = host_ip; mask = netmask } in
                        save adapter >> pure adapter))
              w
      ]
