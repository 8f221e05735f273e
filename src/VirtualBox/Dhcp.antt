-- ===== src/VirtualBox/Dhcp.antt =====
-- drivers/virtualbox/network.go and virtualbox.go: the DHCP servers of the host-only networks, and the
-- addresses that are chosen for one.
pub mod Range
use Prim.Native.Nat.{◌%◌}
use machine.Base.{
  ℕ, zero, suc, ◌+◌, ◌-◌, ◌^◌, Bool, true, false, ◌&&◌, not, Option, none, some, List, [], ◌∷◌,
  ◌++◌, ◌==◌, leb, if◌then◌else◌,
}
use machine.Base.Exec.{Result, ok, err, pure, raise, ◌>>=◌, ◌>>◌}
use machine.Text.{Text, bytes, text_eq, has_prefix}
use machine.Text.Dict.{Dict, lookup, insert}
use machine.Text.Scan.{colon_line, parse_key_values}
use machine.Errors.{Error, message, Act}
use machine.VirtualBox.{Manager}
use machine.VirtualBox.Ip.{
  Quad, quad, Ip, Cidr, ip_string, ip_equal, quad_eq, mask_string, mask_size, parse_ip, parse_cidr,
}
use machine.VirtualBox.Network.{
  HostOnlyNetwork, dhcp_prefix, parse_ipv4_mask, ignore, list_host_only_adapters,
}

pub record DhcpServer : Type 0 where
  pub network_name : Text
  pub ip : Ip
  pub mask : Ip
  pub lower_ip : Ip
  pub upper_ip : Ip
  pub enabled : Bool

abbrev pub new_server : DhcpServer
new_server = record {
  network_name = [];
  ip = none;
  mask = none;
  lower_ip = none;
  upper_ip = none;
  enabled = false;
}

-- The server that is being read, which the map holds too once it has a name.
pub record Servers : Type 0 where
  pub current : DhcpServer
  pub filed_as : Option Text
  pub servers : Dict DhcpServer

abbrev pub refile : Option Text → DhcpServer → Dict DhcpServer → Dict DhcpServer
refile none dhcp servers = servers
refile (some name) dhcp servers = insert name dhcp servers

-- A field of the current server is set: the map sees it, since it holds a pointer.
abbrev pub set_field : DhcpServer → Servers → Result Error Servers
set_field dhcp s = ok (record s { current = dhcp; servers = refile s.filed_as dhcp s.servers })

-- The callback of `listDHCPServers`.
unfoldable pub on_server : Text → Text → Servers → Result Error Servers
on_server key val s =
    let dhcp = s.current in
    if text_eq key (bytes "NetworkName")
    then ok (record {
      current = record new_server { network_name = val };
      filed_as = some val;
      servers = insert val (record new_server { network_name = val }) s.servers;
    })
    else if text_eq key (bytes "IP")
    then set_field (record dhcp { ip = parse_ip val }) s
    else if text_eq key (bytes "upperIPAddress")
    then set_field (record dhcp { upper_ip = parse_ip val }) s
    else if text_eq key (bytes "lowerIPAddress")
    then set_field (record dhcp { lower_ip = parse_ip val }) s
    else if text_eq key (bytes "NetworkMask")
    then set_field (record dhcp { mask = parse_ipv4_mask val }) s
    else if text_eq key (bytes "Enabled")
    then set_field (record dhcp { enabled = text_eq val (bytes "Yes") }) s
    else ok s

unfoldable pub read_servers : Text → Result Error Servers
unfolding parse_key_values on_server colon_line
read_servers out =
    parse_key_values colon_line on_server out
      (record { current = new_server; filed_as = none; servers = [] })

abbrev servers_of : Result Error Servers → Result Error (Dict DhcpServer)
servers_of (err e) = err e
servers_of (ok s) = ok s.servers

abbrev same_bool : Bool → Bool → Bool
same_bool true b = b
same_bool false b = not b

-- The test that a server has the settings asked for.
unfoldable pub up_to_date : DhcpServer → DhcpServer → Bool
up_to_date dhcp d =
    ip_equal dhcp.ip d.ip
    && (text_eq (mask_string dhcp.mask) (mask_string d.mask)
        && (ip_equal dhcp.lower_ip d.lower_ip
            && (ip_equal dhcp.upper_ip d.upper_ip && same_bool dhcp.enabled d.enabled)))

-- The arguments that add or modify a server.
unfoldable pub server_args : Text → Text → DhcpServer → List Text
server_args command name d =
    bytes "dhcpserver"
    ∷ command
    ∷ bytes "--netname"
    ∷ name
    ∷ bytes "--ip"
    ∷ ip_string d.ip
    ∷ bytes "--netmask"
    ∷ ip_string d.mask
    ∷ bytes "--lowerip"
    ∷ ip_string d.lower_ip
    ∷ bytes "--upperip"
    ∷ ip_string d.upper_ip
    ∷ (if d.enabled then bytes "--enable" else bytes "--disable")
    ∷ []

module _ {W : Type 0} (vbox : Manager W) where
  -- listDHCPServers
  unfoldable pub list_dhcp_servers : Act W (Dict DhcpServer)
  unfolding read_servers
  list_dhcp_servers = vbox.vbm_out (bytes "list" ∷ bytes "dhcpservers" ∷ []) >>= λ out w.
      (servers_of (read_servers out), w)

  abbrev pub remove_server : Text → Act W (Unit {0})
  remove_server name =
      ignore (vbox.vbm (bytes "dhcpserver" ∷ bytes "remove" ∷ bytes "--netname" ∷ name ∷ []))

  abbrev pub is_orphan : Dict HostOnlyNetwork → Text → Bool
  is_orphan nets name =
      has_prefix dhcp_prefix name
      && elim (lookup name nets) as (λ _. Bool) [ none ↦ true | some _ ↦ false ]

  -- The loop of `removeOrphanDHCPServers`.
  unfoldable pub remove_orphans : Dict HostOnlyNetwork → Dict DhcpServer → Act W (Unit {0})
  remove_orphans nets [] = pure tt
  remove_orphans nets ((name, _) ∷ dhcps) =
      (if is_orphan nets name then remove_server name else pure tt) >> remove_orphans nets dhcps

  -- removeOrphanDHCPServers
  unfoldable pub remove_orphan_dhcp_servers : Act W (Unit {0})
  unfolding list_dhcp_servers remove_orphans list_host_only_adapters
  remove_orphan_dhcp_servers = list_dhcp_servers >>= λ dhcps. elim dhcps [
    | [] ↦ pure tt
    | dhcp ∷ rest ↦ list_host_only_adapters vbox >>= λ nets. remove_orphans nets (dhcp ∷ rest)
  ]

  -- addHostOnlyDHCPServer
  unfoldable pub add_host_only_dhcp_server : Text → DhcpServer → Act W (Unit {0})
  unfolding list_dhcp_servers up_to_date server_args
  add_host_only_dhcp_server ifname d =
      let name = dhcp_prefix ++ ifname in
      list_dhcp_servers >>= λ dhcps. elim (lookup name dhcps) [
        | none ↦ vbox.vbm (server_args (bytes "add") name d)
        | some dhcp ↦
            if up_to_date dhcp d then pure tt else vbox.vbm (server_args (bytes "modify") name d)
      ]

abbrev pub network_addr_cidr : Error
network_addr_cidr =
    message (bytes "host-only cidr must be specified with a host address, not a network address")

-- parseAndValidateCIDR
unfoldable pub parse_and_validate_cidr : Text → Result Error Cidr
unfolding parse_cidr
parse_and_validate_cidr host_only_cidr = elim (parse_cidr host_only_cidr) [
  | err e ↦ err e
  | ok c ↦ if quad_eq c.address c.network then err network_addr_cidr else ok c
]

abbrev pub unable_to_generate_random_ip : Error
unable_to_generate_random_ip = message (bytes "unable to generate random IP")

-- `byte(n)`
abbrev pub byte : ℕ → ℕ
byte n = n % 256

module _ {W : Type 0} (random_int : ℕ → W → ℕ × W) where
  -- The loop of `getRandomIPinSubnet`.
  unfoldable pub pick_ip : ℕ → Quad → Act W Quad
  pick_ip zero addr w = (err unable_to_generate_random_ip, w)
  pick_ip (suc tries) addr w =
      let (r, w') = random_int 24 w in
      let n = r + 1 in
      let rest = pick_ip tries addr w' in
      if byte n == addr.d then rest else (ok (quad addr.a addr.b addr.c (byte n)), w')

  -- getRandomIPinSubnet
  unfoldable pub get_random_ip_in_subnet : Quad → Act W Quad
  unfolding pick_ip
  get_random_ip_in_subnet = pick_ip 5

-- getDHCPAddressRange: `(lowerIP, upperIP)`. `(1 << (bits - ones)) - 2` may be -1 before it is made a
-- byte.
unfoldable pub get_dhcp_address_range : Quad → Quad → Quad → Quad × Quad
unfolding mask_size
get_dhcp_address_range dhcp_addr network network_mask =
    let (ones, bits) = mask_size network_mask in
    let at = quad network.a network.b network.c in
    if leb ones 24
    then (at 100, at 254)
    else (at (byte (dhcp_addr.d + 1)), at (byte (2 ^ (bits - ones) + 256 - 2)))
