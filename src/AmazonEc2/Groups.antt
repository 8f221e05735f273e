-- ===== src/AmazonEc2/Groups.antt =====
-- drivers/amazonec2/amazonec2.go and drivers/driverutil/util.go: the security groups of a machine and
-- the ports that they let in.
pub mod Missing
pub mod Configured
pub mod Cluster
use machine.Base.{
  Bool, true, false, ◌&&◌, not, Option, none, some, List, [], ◌∷◌, ◌++◌, if◌then◌else◌,
}
use machine.Base.Int.{ℤ, pos}
use machine.Base.Exec.{Result, ok, err, pure, raise, map_error, ◌>>=◌, ◌>>◌}
use machine.Text.{Text, bytes, text_eq, contains}
use machine.Text.Atoi.{parse_int}
use machine.Text.Decimal.{decimal}
use machine.Text.Dict.{Dict, lookup, insert}
use machine.Text.Scan.{split_two}
use machine.Errors.{Error, message, wrapped, Act}
use machine.Wait.{wait_for}
use machine.AmazonEc2.{
  AmazonEc2, Ec2Client, GroupFilter, Permission, SecurityGroup, Source, Tag, cidr_ip, group_pair,
  with_ids, with_names, ip_range, machine_tag, machine_security_group_name, default_security_group,
  docker_port, kube_api_port, http_port, https_port, node_exporter, etcd_ports, vxlan_ports,
  flannel_ports, other_kube_ports, kube_proxy_ports, node_ports, calico_port, has_tag_key,
}

abbrev tcp : Text
tcp = bytes "tcp"

abbrev udp : Text
udp = bytes "udp"

-- SplitPortProto
unfoldable pub split_port_proto : Text → Text × Text
unfolding split_two
split_port_proto raw =
    let (port, second) = split_two b'/' raw in
    elim second [ none ↦ (port, tcp) | some protocol ↦ (port, protocol) ]

-- `fmt.Sprintf("%s/%s", port, protocol)`
abbrev pub port_key : Text → Text → Text
port_key port protocol = port ++ (b'/' ∷ protocol)

-- `hasPortsInbound`: the first port of each permission that has one.
unfoldable pub has_ports_inbound : List Permission → Dict Bool
unfolding insert decimal
has_ports_inbound [] = []
has_ports_inbound (p ∷ ps) =
    let rest = has_ports_inbound ps in
    elim p.from_port [
      | none ↦ rest
      | some port ↦ insert (port_key (decimal port) p.ip_protocol) true rest
    ]

-- A port that the group should let in: the name it has in `hasPortsInbound`, and the permission.
abbrev pub Rule : Type 0
Rule = Text × Permission

unfoldable pub rule : Text → ℤ × ℤ → Source → Rule
unfolding decimal
rule protocol (first, last) source = (
  port_key (decimal first) protocol,
  record {
    ip_protocol = protocol;
    from_port = some first;
    to_port = some last;
    sources = source ∷ [];
  },
)

abbrev pub anyone : Source
anyone = cidr_ip ip_range

-- What every machine needs: SSH and Docker.
unfoldable pub machine_rules : List Rule
unfolding rule
machine_rules = rule tcp (pos 22, pos 22) anyone ∷ rule tcp (docker_port, docker_port) anyone ∷ []

-- What the nodes of a cluster need, in the order of the source.
unfoldable pub cluster_rules : Text → List Rule
unfolding rule
cluster_rules group_id =
    let members = group_pair group_id in
    rule tcp (kube_api_port, kube_api_port) anyone
    ∷ rule tcp etcd_ports members
    ∷ rule udp vxlan_ports members
    ∷ rule udp flannel_ports members
    ∷ rule tcp other_kube_ports members
    ∷ rule tcp kube_proxy_ports members
    ∷ rule tcp (node_exporter, node_exporter) members
    ∷ rule tcp node_ports anyone
    ∷ rule udp node_ports anyone
    ∷ rule tcp (http_port, http_port) anyone
    ∷ rule tcp (https_port, https_port) anyone
    ∷ rule tcp (calico_port, calico_port) members
    ∷ []

-- `*group.GroupName == defaultSecurityGroup && hasTagKey(group.Tags, machineSecurityGroupName)`
unfoldable pub is_cluster_group : SecurityGroup → Bool
unfolding text_eq has_tag_key
is_cluster_group group =
    text_eq group.group_name default_security_group
    && has_tag_key group.tags machine_security_group_name

unfoldable pub group_rules : SecurityGroup → List Rule
unfolding is_cluster_group machine_rules cluster_rules
group_rules group =
    if is_cluster_group group then machine_rules ++ cluster_rules group.group_id else machine_rules

-- The permissions of the rules whose port is not let in yet.
unfoldable pub missing : Dict Bool → List Rule → List Permission
unfolding lookup
missing has [] = []
missing has ((key, perm) ∷ rules) =
    let rest = missing has rules in
    elim (lookup key has) as (λ _. List Permission) [ none ↦ perm ∷ rest | some _ ↦ rest ]

-- The rule of an element of `OpenPorts`, whose key has the port as it is written.
unfoldable pub open_rule : Text → Result Error Rule
unfolding split_port_proto parse_int rule
open_rule p =
    let (port, protocol) = split_port_proto p in
    elim (parse_int port) [
      | none ↦ err (message (bytes "invalid port number " ++ port))
      | some port_num ↦ ok (port_key port protocol, (rule protocol (port_num, port_num) anyone).1)
    ]

abbrev pub cons_ok : {A : Type 0} → Result Error A → Result Error (List A) → Result Error (List A)
cons_ok (err e) rest = err e
cons_ok (ok a) (err e) = err e
cons_ok (ok a) (ok rest) = ok (a ∷ rest)

unfoldable pub open_rules : List Text → Result Error (List Rule)
unfolding open_rule
open_rules [] = ok []
open_rules (p ∷ ports) = cons_ok (open_rule p) (open_rules ports)

-- configureSecurityGroupPermissions
unfoldable pub configure_security_group_permissions :
    AmazonEc2 → SecurityGroup → Result Error (List Permission)
unfolding has_ports_inbound missing open_rules group_rules
configure_security_group_permissions d group =
    if d.security_group_read_only then ok [] else elim (open_rules d.open_ports) [
      | err e ↦ err e
      | ok opened ↦
          ok (missing (has_ports_inbound group.ip_permissions) (group_rules group ++ opened))
    ]

abbrev pub machine_tag_of : Text → Tag
machine_tag_of version = record { key = machine_tag; value = version }

abbrev pub tagged : Text → SecurityGroup → SecurityGroup
tagged version group = record group { tags = machine_tag_of version ∷ [] }

-- `groupsByName`: of two groups of one name the later.
unfoldable pub groups_by_name : List SecurityGroup → Dict SecurityGroup → Dict SecurityGroup
unfolding insert
groups_by_name [] found = found
groups_by_name (g ∷ groups) found = groups_by_name groups (insert g.group_name g found)

abbrev pub add_group_id : Text → AmazonEc2 → AmazonEc2
add_group_id id d = record d { security_group_ids = d.security_group_ids ++ (id ∷ []) }

module _ {W : Type 0} where
  abbrev pub first_of : List SecurityGroup → Act W SecurityGroup
  first_of [] = raise (message (bytes "can't find security group"))
  first_of (g ∷ _) = pure g

module _ {W : Type 0} (client : Ec2Client W) where
  unfoldable pub exists_already : Error → Bool
  unfolding contains
  exists_already e = contains (bytes "already exists") (client.error_text e)

  -- An error that says that something exists already is none.
  unfoldable pub unless_exists : Act W (Unit {0}) → Act W (Unit {0})
  unfolding exists_already
  unless_exists m w =
      let (r, w') = m w in
      (
        elim r as (λ _. Result Error (Unit {0})) [
          | ok _ ↦ ok tt
          | err e ↦ (if exists_already e then ok tt else err e)
        ],
        w',
      )

  -- securityGroupAvailableFunc
  unfoldable pub security_group_available_func : Text → W → Bool × W
  security_group_available_func id w =
      let (r, w') = client.describe_security_groups (with_ids (id ∷ [])) w in
      (
        elim r as (λ _. Bool) [
          | err _ ↦ false
          | ok groups ↦ elim groups as (λ _. Bool) [ [] ↦ false | _ ∷ _ ↦ true ]
        ],
        w',
      )

  -- A group that somebody else has made in the meantime.
  unfoldable pub find_group : Text → Text → Act W SecurityGroup
  find_group vpc name = client.describe_security_groups (with_names (name ∷ []) vpc) >>= first_of

  -- The group that is created, or found where it exists already.
  unfoldable pub create_group : Text → Text → Act W SecurityGroup
  unfolding exists_already find_group
  create_group vpc name w =
      let (r, w') = client.create_security_group name (bytes "Rancher Nodes") vpc w in
      elim r [
        | ok id ↦ (
          ok (record {
            group_id = id;
            group_name = name;
            group_vpc = vpc;
            tags = [];
            ip_permissions = [];
          }),
          w',
        )
        | err e ↦ (if exists_already e then find_group vpc name w' else (err e, w'))
      ]

  unfoldable pub tag_group : SecurityGroup → Act W (Unit {0})
  unfolding unless_exists
  tag_group group = map_error (wrapped "can't create tag for security group. err: ") (
      unless_exists (client.create_tags (group.group_id ∷ []) (machine_tag_of client.version ∷ [])))

  -- A group for a name that the first question has not found: created, tagged and waited for.
  unfoldable pub new_group : Text → Text → Act W SecurityGroup
  unfolding create_group tag_group security_group_available_func wait_for
  new_group vpc name = create_group vpc name >>= λ group.
      tag_group group
      >> (wait_for client.sleep (security_group_available_func group.group_id)
          >> pure (tagged client.version group))

  -- The group of a name.
  unfoldable pub ensure_group : Dict SecurityGroup → Text → Text → Act W SecurityGroup
  unfolding new_group
  ensure_group found vpc name = elim (lookup name found) [
    | some group ↦ pure group
    | none ↦ new_group vpc name
  ]

  unfoldable pub authorize : Text → List Permission → Act W (Unit {0})
  unfolding unless_exists
  authorize group_id [] = pure tt
  authorize group_id (p ∷ perms) =
      unless_exists (client.authorize_security_group_ingress group_id (p ∷ perms))

  -- The permissions that a group lacks are given to it.
  unfoldable pub open_group : AmazonEc2 → SecurityGroup → Act W (Unit {0})
  unfolding configure_security_group_permissions authorize
  open_group d group w = elim (configure_security_group_permissions d group) [
    | err e ↦ (err e, w)
    | ok inbound_perms ↦ authorize group.group_id inbound_perms w
  ]

  -- The id of a group is kept even when the group cannot be opened.
  unfoldable pub add_and_open : SecurityGroup → Act (AmazonEc2 × W) (Unit {0})
  unfolding open_group
  add_and_open group (d, w) =
      let d1 = add_group_id group.group_id d in
      let (opened, w') = open_group d1 group w in (opened, (d1, w'))

  abbrev pub find_or_create : Dict SecurityGroup → Text → Act (AmazonEc2 × W) SecurityGroup
  unfolding ensure_group
  find_or_create found name (d, w) =
      let (group, w') = ensure_group found d.vpc_id name w in (group, (d, w'))

  -- The loop over the names.
  unfoldable pub configure_each : Dict SecurityGroup → List Text → Act (AmazonEc2 × W) (Unit {0})
  unfolding find_or_create add_and_open
  configure_each found [] = pure tt
  configure_each found (name ∷ names) =
      find_or_create found name >>= λ group. (add_and_open group >> configure_each found names)

  -- configureSecurityGroups
  unfoldable pub configure_security_groups : List Text → Act (AmazonEc2 × W) (Unit {0})
  unfolding groups_by_name configure_each
  configure_security_groups [] dw = (ok tt, dw)
  configure_security_groups (name ∷ names) (d, w) =
      let (r, w') = client.describe_security_groups (with_names (name ∷ names) d.vpc_id) w in
      elim r [
        | err e ↦ (err e, (d, w'))
        | ok groups ↦ configure_each (groups_by_name groups []) (name ∷ names) (d, w')
      ]
