-- ===== src/VirtualBox/Collision.antt =====
-- drivers/virtualbox/network.go and virtualbox.go: whether a host-only network conflicts with an
-- interface of the host. The interfaces of the host are the parameter `hif`.
use machine.Base.{Bool, true, false, ◌||◌, not, Option, none, some, List, [], ◌∷◌, if◌then◌else◌}
use machine.Base.Exec.{ok, err, pure, raise, ◌>>=◌}
use machine.Text.{Text, bytes}
use machine.Text.Dict.{Dict, lookup, insert}
use machine.Errors.{Error, message, Act}
use machine.VirtualBox.Ip.{Ip, ip_equal, IpNet, ip_net_string, mask_ip, Cidr}
use machine.VirtualBox.Network.{HostOnlyNetwork}

-- `net.Addr`: the code looks at those that are `*net.IPNet`.
pub data Addr : Type 0 where
  ip_net_addr : IpNet → Addr
  other_addr : Addr

-- `net.Interface`, with the two flags that are tested.
pub record Interface : Type 0 where
  pub name : Text
  pub is_up : Bool
  pub is_loopback : Bool

-- HostInterfaces
pub record HostInterfaces (W : Type 0) : Type 0 where
  pub interfaces : Act W (List Interface)
  pub addrs : Interface → Act W (List Addr)

abbrev is_some : {A : Type 0} → Option A → Bool
is_some none = false
is_some (some _) = true

-- Whether one of the addresses is excluded.
unfoldable pub is_excluded : Dict HostOnlyNetwork → List Addr → Bool
is_excluded exclude_nets [] = false
is_excluded exclude_nets (other_addr ∷ addrs) = is_excluded exclude_nets addrs
is_excluded exclude_nets (ip_net_addr n ∷ addrs) =
    is_some (lookup (ip_net_string n) exclude_nets) || is_excluded exclude_nets addrs

unfoldable pub add_addrs : List Addr → Dict IpNet → Dict IpNet
add_addrs [] m = m
add_addrs (other_addr ∷ addrs) m = add_addrs addrs m
add_addrs (ip_net_addr n ∷ addrs) m = add_addrs addrs (insert (ip_net_string n) n m)

-- The interfaces that are passed over.
abbrev pub is_skipped : Dict HostOnlyNetwork → Interface → List Addr → Bool
is_skipped exclude_nets iface addrs =
    is_excluded exclude_nets addrs || (not iface.is_up || iface.is_loopback)

module _ {W : Type 0} (hif : HostInterfaces W) where
  -- The loop of `listHostInterfaces`.
  unfoldable pub gather : Dict HostOnlyNetwork → List Interface → Dict IpNet → Act W (Dict IpNet)
  unfolding is_excluded add_addrs
  gather exclude_nets [] m w = (ok m, w)
  gather exclude_nets (iface ∷ ifaces) m w =
      let (found, w') = hif.addrs iface w in
      elim found [
        | err e ↦ (err e, w')
        | ok addrs ↦
            gather exclude_nets ifaces
              (if is_skipped exclude_nets iface addrs then m else add_addrs addrs m) w'
      ]

  -- listHostInterfaces
  unfoldable pub list_host_interfaces : Dict HostOnlyNetwork → Act W (Dict IpNet)
  unfolding gather
  list_host_interfaces exclude_nets = hif.interfaces >>= λ ifaces. gather exclude_nets ifaces []

-- `ip.Mask(mask)` of what may be nil.
unfoldable pub masked : IpNet → Ip
unfolding mask_ip
masked n = elim n.ip [
  | none ↦ none
  | some q ↦ elim n.mask [ none ↦ none | some m ↦ some (mask_ip q m) ]
]

-- checkIPNetCollision: it has no error.
unfoldable pub check_ip_net_collision : Ip → Dict IpNet → Bool
unfolding masked
check_ip_net_collision host_only [] = false
check_ip_net_collision host_only ((_, n) ∷ ifaces) =
    ip_equal host_only (masked n) || check_ip_net_collision host_only ifaces

-- The networks under their CIDRs.
unfoldable pub by_cidr : Dict HostOnlyNetwork → Dict HostOnlyNetwork → Dict HostOnlyNetwork
unfolding ip_net_string
by_cidr [] m = m
by_cidr ((_, n) ∷ nets) m =
    by_cidr nets (insert (ip_net_string (record { ip = n.ip; mask = n.mask })) n m)

abbrev pub network_addr_collision : Error
network_addr_collision =
    message (bytes "host-only cidr conflicts with the network address of a host interface")

-- validateNoIPCollisions
unfoldable pub validate_no_ip_collisions :
    {W : Type 0} → HostInterfaces W → Cidr → Dict HostOnlyNetwork → Act W (Unit {0})
unfolding list_host_interfaces check_ip_net_collision by_cidr
validate_no_ip_collisions hif c nets = list_host_interfaces hif (by_cidr nets []) >>= λ m.
    if check_ip_net_collision (some c.network) m then raise network_addr_collision else pure tt
