-- ===== src/Tests/VirtualBox.antt =====
-- Runs of the model of drivers/virtualbox, and its theorems at concrete inputs.
use machine.Base.{
  ℕ, suc, ◌+◌, ◌-◌, ◌*◌, ◌^◌, ◌≤◌, ◌<◌, ◌≡◌, ◌≢◌, refl, ap, inl, false, none, some, List, [], ◌∷◌,
  min, max, ltb, if◌then◌else◌, arith,
}
use machine.Base.Int.{pos}
use machine.Base.Exec.{Result, ok, ok-injective}
use machine.Text.{Text, bytes, contains, has_prefix, text_eq, split}
use machine.Text.Dict.{lookup, insert}
use machine.Text.Scan.{colon_line, equal_quote_line, join_with}
use machine.Errors.{Error, Act}
use machine.VirtualBox.{RunError, Ran, Manager, vbm_out_err}
use machine.VirtualBox.Retry.{Reports, vbm_out_err-Reports}
use machine.VirtualBox.Ip.{
  quad, parse_ip, quad_string, parse_cidr, mask_ip, cidr_mask, ip_net_string, parse_mac,
}
use machine.VirtualBox.Ip.RoundTrip.{IsQuad}
use machine.VirtualBox.Network.Mask.{parse_ipv4_mask-quad_string}
use machine.VirtualBox.Network.{
  parse_ipv4_mask, HostOnlyNetwork, new_network, list_host_only_adapters,
  get_or_create_host_only_network,
}
use machine.VirtualBox.Network.Listed.{IsListed, list_host_only_adapters-IsListed}
use machine.VirtualBox.Network.Chosen.{Chosen, get_or_create_host_only_network-Chosen}
use machine.VirtualBox.Dhcp.{get_random_ip_in_subnet, get_dhcp_address_range}
use machine.VirtualBox.Dhcp.Range.{
  InNetwork, get_random_ip_in_subnet-InNetwork, get_random_ip_in_subnet-outside,
}
use machine.VirtualBox.Machine.{VirtualBox, Tools, get_state, parse_ip_for_mac_from_ip_addr}
use machine.VirtualBox.Machine.Control.{
  await_stopped, setup_host_only_network, default_host_only_cidr,
}
use machine.VirtualBox.Machine.Start.{start}
use machine.VirtualBox.Machine.Stopping.{polled, Ends, await_stopped-Ends}
use machine.VirtualBox.Machine.EmptyCidr.{start-empty_cidr}
use machine.VirtualBox.Disk.{Process, create_disk_image}
use machine.VirtualBox.Disk.Filled.{IsPipe, create_disk_image-size}
use machine.VirtualBox.Create.{parse_share_folder}
use machine.VirtualBox.Create.Flags.{new_driver}

host_ok : IsQuad (quad 192 168 99 1)
host_ok = record { a_in = omega arith; b_in = omega arith; c_in = omega arith; d_in = omega arith }

reads_ip : parse_ip (bytes "192.168.99.1") ≡ some (quad 192 168 99 1)
unfolding parse_ip
reads_ip = refl

reads_no_ip : parse_ip (bytes "192.168.99.256") ≡ none
unfolding parse_ip
reads_no_ip = refl

prints_net :
    ip_net_string (record { ip = some (quad 10 0 0 1); mask = some (quad 255 255 128 0) })
    ≡ bytes "10.0.0.1/17"
unfolding ip_net_string
prints_net = refl

prints_odd_mask :
    ip_net_string (record { ip = some (quad 10 0 0 1); mask = some (quad 15 0 0 0) })
    ≡ bytes "10.0.0.1/0f000000"
unfolding ip_net_string
prints_odd_mask = refl

reads_cidr :
    parse_cidr (bytes "192.168.99.1/24")
    ≡ ok (record {
      address = quad 192 168 99 1;
      network = quad 192 168 99 0;
      network_mask = quad 255 255 255 0;
    })
unfolding parse_cidr
reads_cidr = refl

reads_mac : parse_mac (bytes "0a:00:27:00:00:0F") ≡ some (10 ∷ 0 ∷ 39 ∷ 0 ∷ 0 ∷ 15 ∷ [])
unfolding parse_mac
reads_mac = refl

reads_line :
    colon_line (bytes "HardwareAddress: 0a:00: 27")
    ≡ some (bytes "HardwareAddress: 0a:00", bytes "27")
unfolding colon_line
reads_line = refl

reads_quoted :
    equal_quote_line (bytes "x\"SATA-1-0\"=\"/a=\"b\"") ≡ some (bytes "SATA-1-0", bytes "/a=\"b")
unfolding equal_quote_line
reads_quoted = refl

-- A command that finds the object ready at its third run, over the number of runs.
abbrev third_time : List Text → ℕ → Ran RunError × ℕ
third_time args w = (
  record {
    stdout = bytes "done";
    stderr = if ltb w 2 then bytes "VBoxManage: error: The object is not ready" else [];
    failure = none;
  },
  suc w,
)

abbrev no_sleep : ℕ → ℕ → ℕ
no_sleep ms w = w

settles_third :
    vbm_out_err (bytes "VBoxManage") third_time no_sleep (bytes "list" ∷ []) 0
    ≡ (record { stdout = bytes "done"; stderr = []; failure = none }, 3)
unfolding vbm_out_err contains has_prefix
settles_third = refl

vbm_out_err-Reports_example :
    Reports
      (bytes "VBoxManage")
      third_time
      no_sleep
      (bytes "list" ∷ [])
      5
      0
      (vbm_out_err (bytes "VBoxManage") third_time no_sleep (bytes "list" ∷ []) 0)
vbm_out_err-Reports_example =
    vbm_out_err-Reports (bytes "VBoxManage") third_time no_sleep (bytes "list" ∷ []) 0

reads_mask : parse_ipv4_mask (bytes "255.255.255.0") ≡ some (quad 255 255 255 0)
unfolding parse_ipv4_mask
reads_mask = refl

mask_ok : IsQuad (quad 255 255 240 0)
mask_ok = record { a_in = omega arith; b_in = omega arith; c_in = omega arith; d_in = omega arith }

parse_ipv4_mask-quad_string_example :
    parse_ipv4_mask (quad_string (quad 255 255 240 0)) ≡ some (quad 255 255 240 0)
parse_ipv4_mask-quad_string_example = parse_ipv4_mask-quad_string (quad 255 255 240 0) mask_ok

-- The listing of one adapter.
abbrev listing : Text
listing =
    bytes
      "Name: vboxnet0\nIPAddress: 192.168.99.1\nNetworkMask: 255.255.255.0\nVBoxNetworkName: HostInterfaceNetworking-vboxnet0\n\n"

abbrev vboxnet0 : HostOnlyNetwork
vboxnet0 = record new_network {
  name = bytes "vboxnet0";
  ip = some (quad 192 168 99 1);
  mask = some (quad 255 255 255 0);
  network_name = bytes "HostInterfaceNetworking-vboxnet0";
}

-- VirtualBox with a machine that runs for two more questions about it.
abbrev winding_down : Manager ℕ
winding_down = record {
  vbm = λ args w. (ok tt, w);
  vbm_out = λ args w. (ok listing, w);
  vbm_out_err = λ args w. (
    record {
      stdout = if ltb w 2 then bytes "VMState=\"running\"\n" else bytes "VMState=\"poweroff\"\n";
      stderr = [];
      failure = none;
    },
    suc w,
  );
}

lists_one :
    list_host_only_adapters winding_down 0
    ≡ (ok ((bytes "HostInterfaceNetworking-vboxnet0", vboxnet0) ∷ []), 0)
unfolding list_host_only_adapters text_eq split lookup parse_ip insert parse_ipv4_mask
lists_one = refl

list_host_only_adapters-IsListed_example :
    IsListed ((bytes "HostInterfaceNetworking-vboxnet0", vboxnet0) ∷ [])
list_host_only_adapters-IsListed_example =
    list_host_only_adapters-IsListed winding_down 0
      ((bytes "HostInterfaceNetworking-vboxnet0", vboxnet0) ∷ []) (ap (λ r. r.0) lists_one)

finds_new :
    (get_or_create_host_only_network winding_down no_sleep
      (some (quad 192 168 99 1))
      (some (quad 255 255 255 0))
      []
      0).0
    ≡ ok vboxnet0
unfolding get_or_create_host_only_network list_host_only_adapters text_eq split lookup parse_ip
    insert
finds_new = refl

get_or_create_host_only_network-Chosen_example :
    Chosen winding_down no_sleep (some (quad 192 168 99 1)) (some (quad 255 255 255 0)) [] vboxnet0
get_or_create_host_only_network-Chosen_example =
    get_or_create_host_only_network-Chosen winding_down no_sleep (quad 192 168 99 1)
      (some (quad 255 255 255 0)) [] 0 vboxnet0 finds_new

-- Numbers that are not random.
abbrev six : ℕ → ℕ → ℕ × ℕ
six n w = (min 6 (n - 1), w)

six-lt : (n : ℕ) (w : ℕ) → 0 < n → (six n w).0 < n
six-lt n w h = omega arith

get_random_ip_in_subnet-InNetwork_example :
    let (lower, upper) =
      get_dhcp_address_range
        (quad 192 168 99 7)
        (mask_ip (quad 192 168 99 1) (cidr_mask 24))
        (cidr_mask 24) in
    InNetwork (quad 192 168 99 1) (cidr_mask 24) (quad 192 168 99 7) lower upper
unfolding get_random_ip_in_subnet
get_random_ip_in_subnet-InNetwork_example =
    get_random_ip_in_subnet-InNetwork six six-lt 24 (quad 192 168 99 1) 0 (quad 192 168 99 7)
      host_ok (omega arith) (inl (omega arith)) refl

get_random_ip_in_subnet-outside_example :
    mask_ip (quad 192 168 99 7) (cidr_mask 25) ≢ mask_ip (quad 192 168 99 130) (cidr_mask 25)
unfolding get_random_ip_in_subnet mask_ip cidr_mask
get_random_ip_in_subnet-outside_example =
    get_random_ip_in_subnet-outside six six-lt 25 (quad 192 168 99 130) 0 (quad 192 168 99 7)
      (omega arith) refl

abbrev quiet : {A : Type 0} → A → Act ℕ A
quiet a w = (ok a, w)

abbrev tools : Manager ℕ → Tools ℕ
tools manager = record {
  vbox = manager;
  hif = record { interfaces = quiet []; addrs = λ iface. quiet [] };
  update_iso_cache = λ store_path iso_url. quiet tt;
  copy_iso_to_machine_dir = λ store_path machine_name iso_url. quiet tt;
  generate_ssh_key = λ path. quiet tt;
  create_disk = λ size key disk. quiet tt;
  read_log = λ path. quiet [];
  random_int = six;
  sleep = no_sleep;
  run_ssh_command = λ d command. quiet [];
  wait_for_ssh = λ d. quiet tt;
  listen = λ port. quiet (bytes "127.0.0.1:2222");
  stat = λ path. quiet tt;
  copy_file = λ old new. quiet tt;
  home_dir = bytes "/root";
  num_cpu = pos 4;
  is_windows_386 = false;
  is_hyper_v_installed = false;
  is_vtx_disabled = λ w. (false, w);
  share_drive_and_name = (bytes "hosthome", bytes "/home");
}

abbrev fresh : VirtualBox
unfolding new_driver
fresh = new_driver (bytes "box") (bytes "/store")

await_stopped-Ends_example :
    (j : ℕ) × (j ≤ 2)
    × Ends
        (tools winding_down)
        fresh
        (polled (tools winding_down) fresh j 0)
        (await_stopped (tools winding_down) 3 fresh 0)
unfolding get_state new_driver text_eq split
await_stopped-Ends_example =
    await_stopped-Ends (tools winding_down) fresh 2 3 0 (omega arith) (λ e. cc)

abbrev quiet_wait : Act (VirtualBox × ℕ) (Unit {0})
quiet_wait dw = (ok tt, dw)

abbrev old_config : VirtualBox
unfolding new_driver
old_config = record fresh { host_only_cidr = [] }

start-empty_cidr_example :
    (setup_host_only_network (tools winding_down) old_config
      ≡ setup_host_only_network
          (tools winding_down)
          (record old_config { host_only_cidr = default_host_only_cidr }))
    × ((start (tools winding_down) quiet_wait 3 (old_config, 2)).0 ≢ ok tt)
unfolding get_state new_driver text_eq split
start-empty_cidr_example =
    start-empty_cidr (tools winding_down) quiet_wait 3 (λ dw. refl) old_config 2 refl refl

-- A process that takes all that is written, over the number of bytes.
abbrev greedy : Process ℕ
greedy = record {
  start = quiet tt;
  copy = λ w. (ok 1000, w + 1000);
  write_zeros = λ n w. ((n, none), w + n);
  close = quiet tt;
  wait = quiet tt;
}

greedy-IsPipe : IsPipe greedy (λ w. w)
greedy-IsPipe = record {
  started = λ w. refl;
  copied = λ w n e. ap (λ k. w + k) (ok-injective e);
  wrote = λ n w e. (refl, refl);
  closed = λ w. refl;
  waited = λ w. refl;
  write_ends = λ n w e. cc;
}

create_disk_image-size_example :
    (n : ℕ) × (◌≡◌ {A = Result Error ℕ} (ok 1000) (ok n))
    × ((create_disk_image greedy 1 0).1 ≡ 0 + max n (1 * 2 ^ 20))
unfolding create_disk_image
create_disk_image-size_example =
    create_disk_image-size greedy (λ w. w) greedy-IsPipe 1 0 (omega arith) refl

shares_folder : parse_share_folder (bytes "C:/Users:c/Users") ≡ (bytes "C:/Users", bytes "c/Users")
unfolding parse_share_folder split join_with
shares_folder = refl

-- The interface with the address has none of version 4: the next one's is returned.
takes_next_interface :
    parse_ip_for_mac_from_ip_addr
      (bytes
        "2: eth1\n    link/ether 08:00:27:00:00:01 brd ff\n3: docker0\n    link/ether 02:42:00:00:00:02 brd ff\n    inet 172.17.0.1/16 scope global docker0\n")
      (bytes "080027000001")
    ≡ ok (bytes "172.17.0.1")
unfolding parse_ip_for_mac_from_ip_addr text_eq
takes_next_interface = refl
