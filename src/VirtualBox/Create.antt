-- ===== src/VirtualBox/Create.antt =====
-- drivers/virtualbox/virtualbox.go and vm.go: the flags of the driver, and making a machine.
pub mod Flags
pub mod Share
use machine.Base.{
  ℕ, Bool, true, false, ◌&&◌, ◌||◌, not, Option, none, some, List, [], ◌∷◌, ◌++◌, ◌==◌,
  if◌then◌else◌,
}
use machine.Base.Int.{ℤ, pos, ltb_ℤ}
use machine.Base.Exec.{Result, ok, err, pure, raise, ◌>>=◌, ◌>>◌}
use machine.Text.{Text, bytes, text_eq, split}
use machine.Text.Atoi.{parse_int}
use machine.Text.Decimal.{decimal}
use machine.Text.FilePath.{slash, join}
use machine.Text.Scan.{trim_space, join_with, equal_line, parse_key_values}
use machine.Errors.{Error, message, not_exist, Act}
use machine.Driver.Defaults.{resolve_store_path, get_ssh_key_path}
use machine.VirtualBox.{Manager, check_vbox_manage_version}
use machine.VirtualBox.Network.{ignore, list_host_only_adapters}
use machine.VirtualBox.Machine.{VirtualBox, Tools, disk_path}
use machine.VirtualBox.Machine.Control.{Method, on_world, change, vbm, must_enable_vtx}
use machine.VirtualBox.Disk.{get_vm_disk_info}

pub record Vm : Type 0 where
  pub cpus : ℤ
  pub memory : ℤ

abbrev with_number : Text → (ℤ → Vm) → Result Error Vm
with_number val f = elim (parse_int val) [
  | none ↦ err (message (bytes "strconv.Atoi: invalid syntax"))
  | some v ↦ ok (f v)
]

-- The callback of `getVMInfo`.
abbrev on_vm : Text → Text → Vm → Result Error Vm
on_vm key val vm =
    if text_eq key (bytes "cpus")
    then with_number val (λ v. record vm { cpus = v })
    else if text_eq key (bytes "memory")
    then with_number val (λ v. record vm { memory = v })
    else ok vm

-- getVMInfo
unfoldable pub get_vm_info : {W : Type 0} → Text → Manager W → Act W Vm
unfolding parse_key_values equal_line text_eq parse_int
get_vm_info name vbox =
    vbox.vbm_out (bytes "showvminfo" ∷ name ∷ bytes "--machinereadable" ∷ []) >>= λ out w.
    (parse_key_values equal_line on_vm out (record { cpus = pos 0; memory = pos 0 }), w)

-- All the fields but the last, and the last.
abbrev pub split_last : List Text → List Text × Text
split_last [] = ([], [])
split_last (field ∷ []) = ([], field)
split_last (field ∷ next ∷ fields) =
    let (before, last) = split_last (next ∷ fields) in (field ∷ before, last)

-- parseShareFolder: `(shareDir, shareName)`.
unfoldable pub parse_share_folder : Text → Text × Text
parse_share_folder share_folder =
    let (before, last) = split_last (split b':' share_folder) in
    (join_with (b':' ∷ []) before, last)

-- strings.TrimLeft(s, "/")
unfoldable pub trim_slashes : Text → Text
trim_slashes [] = []
trim_slashes (c ∷ s) = let rest = trim_slashes s in if c == slash then rest else c ∷ s

-- The processors that a machine gets: those of the host for fewer than one, and at most 32.
unfoldable pub cpu_count : ℤ → ℤ → ℤ
cpu_count num_cpu cpu =
    let cpus = if ltb_ℤ cpu (pos 1) then num_cpu else cpu in
    if ltb_ℤ (pos 32) cpus then pos 32 else cpus

abbrev on_off : Bool → Text
on_off true = bytes "on"
on_off false = bytes "off"

abbrev pub not_compatible_with_hyper_v : Error
not_compatible_with_hyper_v = message (
    bytes
      "This computer is running Hyper-V. VirtualBox won't boot a 64bits VM when Hyper-V is activated. Either use Hyper-V as a driver, or disable the Hyper-V hypervisor. (To skip this check, use --virtualbox-no-vtx-check)")

module _ {W : Type 0} (tools : Tools W) where
  abbrev check_hardware : VirtualBox → Act W (Unit {0})
  check_hardware d w =
      if d.no_vtx_check
      then (ok tt, w)
      else if tools.is_hyper_v_installed
      then (err not_compatible_with_hyper_v, w)
      else let (disabled, w') = tools.is_vtx_disabled w in
        (if disabled then err must_enable_vtx else ok tt, w')

  -- PreCreateCheck
  unfoldable pub pre_create_check : VirtualBox → Act W (Unit {0})
  unfolding check_vbox_manage_version trim_space list_host_only_adapters
  pre_create_check d = tools.vbox.vbm_out (bytes "--version" ∷ []) >>= λ version.
      (λ w. (check_vbox_manage_version (trim_space version), w))
      >> (check_hardware d
          >> (tools.update_iso_cache d.base.store_path d.boot2docker_url
              >> (list_host_only_adapters tools.vbox >>= λ _. pure tt)))

  -- `GetSSHKeyPath` fills in the path where there is none.
  abbrev pub ssh_key_path : Method tools Text
  unfolding get_ssh_key_path
  ssh_key_path dw =
      let (path, base) = get_ssh_key_path dw.0.base in
      (ok path, (record dw.0 { base = base }, dw.1))

  -- The disk, the settings and the key of a Boot2Docker machine that is imported.
  unfoldable pub import_vm : Method tools (Unit {0})
  unfolding get_vm_disk_info get_vm_info ssh_key_path
  import_vm =
      on_world tools (λ d.
        ignore
          (tools.vbox.vbm (bytes "controlvm" ∷ d.boot2docker_import_vm ∷ bytes "poweroff" ∷ []))
        >> (get_vm_disk_info d.boot2docker_import_vm tools.vbox >>= λ disk.
            tools.stat disk.path
            >> tools.vbox.vbm (bytes "clonehd" ∷ disk.path ∷ disk_path d ∷ [])))
      >> (on_world tools (λ d. get_vm_info d.boot2docker_import_vm tools.vbox) >>= λ vm.
          change tools (λ d. record d { cpu = vm.cpus; memory = vm.memory })
          >> (ssh_key_path >>= λ path. on_world tools (λ _.
              tools.copy_file (join (tools.home_dir ∷ bytes ".ssh" ∷ bytes "id_boot2docker" ∷ []))
                path)))

  -- A new key and a new disk.
  unfoldable pub make_disk : Method tools (Unit {0})
  unfolding ssh_key_path
  make_disk = ssh_key_path >>= λ path. on_world tools (λ d.
      tools.generate_ssh_key path
      >> tools.create_disk d.disk_size (path ++ bytes ".pub") (disk_path d))

  abbrev create_args : VirtualBox → List Text
  create_args d =
      bytes "createvm"
      ∷ bytes "--basefolder"
      ∷ resolve_store_path d.base (bytes ".")
      ∷ bytes "--name"
      ∷ d.base.machine_name
      ∷ bytes "--register"
      ∷ []

  -- `modifyFlags`
  unfoldable pub modify_flags : VirtualBox → List Text
  unfolding cpu_count decimal
  modify_flags d =
      bytes "modifyvm"
      ∷ d.base.machine_name
      ∷ bytes "--firmware"
      ∷ bytes "bios"
      ∷ bytes "--bioslogofadein"
      ∷ bytes "off"
      ∷ bytes "--bioslogofadeout"
      ∷ bytes "off"
      ∷ bytes "--bioslogodisplaytime"
      ∷ bytes "0"
      ∷ bytes "--biosbootmenu"
      ∷ bytes "disabled"
      ∷ bytes "--ostype"
      ∷ bytes "Linux26_64"
      ∷ bytes "--cpus"
      ∷ decimal (cpu_count tools.num_cpu d.cpu)
      ∷ bytes "--memory"
      ∷ decimal d.memory
      ∷ bytes "--acpi"
      ∷ bytes "on"
      ∷ bytes "--ioapic"
      ∷ bytes "on"
      ∷ bytes "--rtcuseutc"
      ∷ bytes "on"
      ∷ bytes "--natdnshostresolver1"
      ∷ on_off d.host_dns_resolver
      ∷ bytes "--natdnsproxy1"
      ∷ on_off d.dns_proxy
      ∷ bytes "--cpuhotplug"
      ∷ bytes "off"
      ∷ bytes "--pae"
      ∷ bytes "on"
      ∷ bytes "--hpet"
      ∷ bytes "on"
      ∷ bytes "--hwvirtex"
      ∷ bytes "on"
      ∷ bytes "--nestedpaging"
      ∷ bytes "on"
      ∷ bytes "--largepages"
      ∷ bytes "on"
      ∷ bytes "--vtxvpid"
      ∷ bytes "on"
      ∷ bytes "--accelerate3d"
      ∷ bytes "off"
      ∷ bytes "--boot1"
      ∷ bytes "dvd"
      ∷ (if tools.is_windows_386 then bytes "--longmode" ∷ bytes "on" ∷ [] else [])

  abbrev attach_args : (port kind : Text) → (VirtualBox → Text) → VirtualBox → List Text
  attach_args port kind medium d =
      bytes "storageattach"
      ∷ d.base.machine_name
      ∷ bytes "--storagectl"
      ∷ bytes "SATA"
      ∷ bytes "--port"
      ∷ port
      ∷ bytes "--device"
      ∷ bytes "0"
      ∷ bytes "--type"
      ∷ kind
      ∷ bytes "--medium"
      ∷ medium d
      ∷ []

  abbrev guest_property : Text → VirtualBox → List Text
  guest_property key d =
      bytes "guestproperty"
      ∷ bytes "set"
      ∷ d.base.machine_name
      ∷ (bytes "/VirtualBox/GuestAdd/SharedFolders/" ++ key)
      ∷ bytes "/"
      ∷ []

  -- The commands that register the machine and give it its network card and its drives.
  unfoldable pub register_vm : Method tools (Unit {0})
  unfolding modify_flags
  register_vm =
      vbm tools create_args
      >> (vbm tools modify_flags
          >> (vbm tools (λ d.
                bytes "modifyvm"
                ∷ d.base.machine_name
                ∷ bytes "--nic1"
                ∷ bytes "nat"
                ∷ bytes "--nictype1"
                ∷ d.nat_nic_type
                ∷ bytes "--cableconnected1"
                ∷ bytes "on"
                ∷ [])
              >> (vbm tools (λ d.
                    bytes "storagectl"
                    ∷ d.base.machine_name
                    ∷ bytes "--name"
                    ∷ bytes "SATA"
                    ∷ bytes "--add"
                    ∷ bytes "sata"
                    ∷ bytes "--hostiocache"
                    ∷ bytes "on"
                    ∷ [])
                  >> (vbm tools (
                        attach_args (bytes "0") (bytes "dvddrive")
                          (λ d. resolve_store_path d.base (bytes "boot2docker.iso")))
                      >> (vbm tools (attach_args (bytes "1") (bytes "hdd") disk_path)
                          >> (vbm tools (guest_property (bytes "MountPrefix"))
                              >> vbm tools (guest_property (bytes "MountDir"))))))))

  -- The folder that is shared, and under which name.
  unfoldable pub share_of : VirtualBox → Text × Text
  unfolding parse_share_folder
  share_of d =
      if text_eq d.share_folder []
      then (tools.share_drive_and_name.1, tools.share_drive_and_name.0)
      else parse_share_folder d.share_folder

  -- A folder that exists is shared; one that does not is passed over.
  unfoldable pub share_folder : (share_dir share_name : Text) → VirtualBox → Act W (Unit {0})
  unfolding trim_slashes
  share_folder share_dir share_name d w =
      let (found, w') = tools.stat share_dir w in
      let name = if text_eq share_name [] then trim_slashes share_dir else share_name in
      elim found [
        | ok _ ↦
            (tools.vbox.vbm (
                  bytes "sharedfolder"
                  ∷ bytes "add"
                  ∷ d.base.machine_name
                  ∷ bytes "--name"
                  ∷ name
                  ∷ bytes "--hostpath"
                  ∷ share_dir
                  ∷ bytes "--automount"
                  ∷ [])
                >> tools.vbox.vbm (
                    bytes "setextradata"
                    ∷ d.base.machine_name
                    ∷ (bytes "VBoxInternal2/SharedFoldersEnableSymlinksCreate/" ++ name)
                    ∷ bytes "1"
                    ∷ []))
              w'
        | err e ↦ elim e [ not_exist ↦ (ok tt, w') | other ↦ (err other, w') ]
      ]

  -- CreateVM
  unfoldable pub create_vm : Method tools (Unit {0})
  unfolding import_vm make_disk register_vm share_of share_folder
  create_vm =
      on_world tools
        (λ d. tools.copy_iso_to_machine_dir d.base.store_path d.base.machine_name d.boot2docker_url)
      >> ((λ dw. (if text_eq dw.0.boot2docker_import_vm [] then make_disk else import_vm) dw)
          >> (register_vm
              >> on_world tools (λ d.
                let (share_dir, share_name) = share_of d in
                if text_eq share_dir [] || d.no_share
                then pure tt
                else share_folder share_dir share_name d)))

  -- Create, with what `Start` does.
  unfoldable pub create : Method tools (Unit {0}) → Method tools (Unit {0})
  unfolding create_vm
  create start = create_vm >> start
