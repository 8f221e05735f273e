-- ===== src/VirtualBox/Create/Flags.antt =====
-- drivers/virtualbox/virtualbox.go: the flags that make a driver, and its default fields.
use machine.Base.{true, false, not, List, [], ◌∷◌}
use machine.Base.Int.{ℤ, pos}
use machine.Text.{Text, bytes}
use machine.Options.{Flag, string_flag, int_flag, bool_flag}
use machine.Driver.{DriverOptions}
use machine.Driver.Defaults.{set_swarm_config_from_flags}
use machine.VirtualBox.Machine.{VirtualBox}
use machine.VirtualBox.Machine.Control.{default_host_only_cidr}

abbrev pub default_cpu : ℤ
default_cpu = pos 1

abbrev pub default_memory : ℤ
default_memory = pos 1024

abbrev pub default_disk_size : ℤ
default_disk_size = pos 20000

abbrev pub default_host_only_nictype : Text
default_host_only_nictype = bytes "82540EM"

abbrev pub default_host_only_promisc_mode : Text
default_host_only_promisc_mode = bytes "deny"

abbrev pub default_ui_type : Text
default_ui_type = bytes "headless"

-- GetCreateFlags
unfoldable pub get_create_flags : List Flag
get_create_flags =
    int_flag (bytes "virtualbox-memory") (bytes "Size of memory for host in MB")
      (bytes "VIRTUALBOX_MEMORY_SIZE") default_memory
    ∷ int_flag (bytes "virtualbox-cpu-count")
        (bytes "number of CPUs for the machine (-1 to use the number of CPUs available)")
        (bytes "VIRTUALBOX_CPU_COUNT") default_cpu
    ∷ int_flag (bytes "virtualbox-disk-size") (bytes "Size of disk for host in MB")
        (bytes "VIRTUALBOX_DISK_SIZE") default_disk_size
    ∷ string_flag (bytes "virtualbox-boot2docker-url")
        (bytes "The URL of the boot2docker image. Defaults to the latest available version")
        (bytes "VIRTUALBOX_BOOT2DOCKER_URL") []
    ∷ string_flag (bytes "virtualbox-import-boot2docker-vm")
        (bytes "The name of a Boot2Docker VM to import") (bytes "VIRTUALBOX_BOOT2DOCKER_IMPORT_VM")
        []
    ∷ bool_flag (bytes "virtualbox-host-dns-resolver") (bytes "Use the host DNS resolver")
        (bytes "VIRTUALBOX_HOST_DNS_RESOLVER")
    ∷ string_flag (bytes "virtualbox-nat-nictype") (bytes "Specify the Network Adapter Type")
        (bytes "VIRTUALBOX_NAT_NICTYPE") default_host_only_nictype
    ∷ string_flag (bytes "virtualbox-hostonly-cidr") (bytes "Specify the Host Only CIDR")
        (bytes "VIRTUALBOX_HOSTONLY_CIDR") default_host_only_cidr
    ∷ string_flag (bytes "virtualbox-hostonly-nictype")
        (bytes "Specify the Host Only Network Adapter Type") (bytes "VIRTUALBOX_HOSTONLY_NIC_TYPE")
        default_host_only_nictype
    ∷ string_flag (bytes "virtualbox-hostonly-nicpromisc")
        (bytes "Specify the Host Only Network Adapter Promiscuous Mode")
        (bytes "VIRTUALBOX_HOSTONLY_NIC_PROMISC") default_host_only_promisc_mode
    ∷ string_flag (bytes "virtualbox-ui-type")
        (bytes "Specify the UI Type: (gui|sdl|headless|separate)") (bytes "VIRTUALBOX_UI_TYPE")
        default_ui_type
    ∷ bool_flag (bytes "virtualbox-hostonly-no-dhcp") (bytes "Disable the Host Only DHCP Server")
        (bytes "VIRTUALBOX_HOSTONLY_NO_DHCP")
    ∷ bool_flag (bytes "virtualbox-no-share") (bytes "Disable the mount of your home directory")
        (bytes "VIRTUALBOX_NO_SHARE")
    ∷ bool_flag (bytes "virtualbox-no-dns-proxy")
        (bytes "Disable proxying all DNS requests to the host") (bytes "VIRTUALBOX_NO_DNS_PROXY")
    ∷ bool_flag (bytes "virtualbox-no-vtx-check")
        (bytes
          "Disable checking for the availability of hardware virtualization before the vm is started")
        (bytes "VIRTUALBOX_NO_VTX_CHECK")
    ∷ string_flag (bytes "virtualbox-share-folder")
        (bytes
          "Mount the specified directory instead of the default home location. Format: dir:name")
        (bytes "VIRTUALBOX_SHARE_FOLDER") []
    ∷ []

-- NewDriver
unfoldable pub new_driver : (host_name store_path : Text) → VirtualBox
new_driver host_name store_path = record {
  base = record {
    ip_address = [];
    machine_name = host_name;
    ssh_user = [];
    ssh_port = pos 0;
    ssh_key_path = [];
    store_path = store_path;
    swarm_master = false;
    swarm_host = [];
    swarm_discovery = [];
  };
  cpu = default_cpu;
  memory = default_memory;
  disk_size = default_disk_size;
  nat_nic_type = default_host_only_nictype;
  boot2docker_url = [];
  boot2docker_import_vm = [];
  host_dns_resolver = false;
  host_only_cidr = default_host_only_cidr;
  host_only_nic_type = default_host_only_nictype;
  host_only_promisc_mode = default_host_only_promisc_mode;
  ui_type = default_ui_type;
  host_only_no_dhcp = false;
  no_share = false;
  dns_proxy = true;
  no_vtx_check = false;
  share_folder = [];
}

-- SetConfigFromFlags
unfoldable pub set_config_from_flags : VirtualBox → DriverOptions → VirtualBox
unfolding set_swarm_config_from_flags
set_config_from_flags d flags = record d {
  base = record (set_swarm_config_from_flags d.base flags) { ssh_user = bytes "docker" };
  cpu = flags.int (bytes "virtualbox-cpu-count");
  memory = flags.int (bytes "virtualbox-memory");
  disk_size = flags.int (bytes "virtualbox-disk-size");
  boot2docker_url = flags.string (bytes "virtualbox-boot2docker-url");
  boot2docker_import_vm = flags.string (bytes "virtualbox-import-boot2docker-vm");
  host_dns_resolver = flags.bool (bytes "virtualbox-host-dns-resolver");
  nat_nic_type = flags.string (bytes "virtualbox-nat-nictype");
  host_only_cidr = flags.string (bytes "virtualbox-hostonly-cidr");
  host_only_nic_type = flags.string (bytes "virtualbox-hostonly-nictype");
  host_only_promisc_mode = flags.string (bytes "virtualbox-hostonly-nicpromisc");
  ui_type = flags.string (bytes "virtualbox-ui-type");
  host_only_no_dhcp = flags.bool (bytes "virtualbox-hostonly-no-dhcp");
  no_share = flags.bool (bytes "virtualbox-no-share");
  dns_proxy = not (flags.bool (bytes "virtualbox-no-dns-proxy"));
  no_vtx_check = flags.bool (bytes "virtualbox-no-vtx-check");
  share_folder = flags.string (bytes "virtualbox-share-folder");
}
