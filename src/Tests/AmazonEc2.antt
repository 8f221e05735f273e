-- ===== src/Tests/AmazonEc2.antt =====
-- Runs of the driver of Amazon EC2, and its theorems at concrete inputs.
use mathlib.Core.List.{Memᴰ}
use mathlib.Core.List.Memᴰ
use machine.Base.{ℕ, ◌+◌, ◌≡◌, ◌≢◌, ◌↔◌, refl, true, false, not, some, List, [], ◌∷◌}
use machine.Base.Int.{pos}
use machine.Base.Exec.{ok, err, pure}
use machine.Text.{has_prefix, Text, bytes, text_eq}
use machine.Errors.{Error, message}
use machine.Wait.{wait_from}
use machine.AmazonEc2.{
  GroupFilter, with_ids, with_names, AmazonEc2, Ec2Client, Permission, SecurityGroup,
  machine_security_group_name, default_security_group,
}
use machine.AmazonEc2.Groups.{
  rule, anyone, configure_security_group_permissions, configure_security_groups,
}
use machine.AmazonEc2.Groups.Configured.{GotIds, groups_found, configure_security_groups-GotIds}
use machine.AmazonEc2.Instance.{
  terminate, cancel_spot_instance_request, delete_key_pair, has_spot_request, remove,
}
use machine.AmazonEc2.Instance.Removal.{WhenDue, after, remove-ok_iff, remove-gone}

abbrev box : AmazonEc2
box = record {
  base = record {
    ip_address = [];
    machine_name = bytes "box";
    ssh_user = [];
    ssh_port = pos 22;
    ssh_key_path = [];
    store_path = bytes "/s";
    swarm_master = false;
    swarm_host = [];
    swarm_discovery = [];
  };
  instance_id = bytes "i-1";
  vpc_id = bytes "vpc-1";
  key_name = bytes "box";
  existing_key = false;
  security_group_id = [];
  security_group_ids = [];
  security_group_name = [];
  security_group_names = [];
  security_group_read_only = false;
  open_ports = bytes "8080" ∷ bytes "53/udp" ∷ [];
  request_spot_instance = false;
  spot_instance_request_id = [];
  private_ip_only = false;
  use_private_ip = false;
}

abbrev made : SecurityGroup
made = record {
  group_id = bytes "sg-1";
  group_name = default_security_group;
  group_vpc = bytes "vpc-1";
  tags = [];
  ip_permissions = [];
}

-- Groups are found by their ids alone.
abbrev found_groups : GroupFilter → List SecurityGroup
found_groups (with_ids ids) = made ∷ []
found_groups (with_names names vpc) = []

-- An account without instances, whose world counts the groups that are made.
abbrev client : Ec2Client ℕ
client = record {
  describe_security_groups = λ filters w. (ok (found_groups filters), w);
  create_security_group = λ name description vpc w. (ok (bytes "sg-1"), w + 1);
  create_tags = λ ids tags. pure tt;
  authorize_security_group_ingress = λ id perms. pure tt;
  describe_instances = λ ids w. (err (message (bytes "InvalidInstanceID.NotFound")), w);
  start_instances = λ ids. pure tt;
  stop_instances = λ ids force. pure tt;
  reboot_instances = λ ids. pure tt;
  terminate_instances = λ ids w. (err (message (bytes "InvalidInstanceID.NotFound")), w);
  cancel_spot_instance_requests = λ ids. pure tt;
  delete_key_pair = λ name. pure tt;
  sleep = λ n w. w;
  version = bytes "0.15";
  error_text = λ e. bytes "InvalidInstanceID.NotFound";
}

abbrev ssh_permission : Permission
ssh_permission = record {
  ip_protocol = bytes "tcp";
  from_port = some (pos 22);
  to_port = some (pos 22);
  sources = anyone ∷ [];
}

abbrev group : SecurityGroup
group = record {
  group_id = bytes "sg-0";
  group_name = bytes "mine";
  group_vpc = bytes "vpc-1";
  tags = [];
  ip_permissions = ssh_permission ∷ [];
}

-- SSH is let in already; Docker and the ports of the driver are asked for.
asks_for_three :
    configure_security_group_permissions box group
    ≡ ok (
        (rule (bytes "tcp") (pos 2376, pos 2376) anyone).1
        ∷ (rule (bytes "tcp") (pos 8080, pos 8080) anyone).1
        ∷ (rule (bytes "udp") (pos 53, pos 53) anyone).1
        ∷ [])
unfolding configure_security_group_permissions rule
asks_for_three = refl

abbrev two_names : List Text
two_names = bytes "a" ∷ bytes "b" ∷ []

keeps_ids :
    configure_security_groups client two_names (box, 0)
    ≡ (ok tt, (record box { security_group_ids = bytes "sg-1" ∷ bytes "sg-1" ∷ [] }, 2))
unfolding configure_security_groups wait_from
keeps_ids = refl

configure_security_groups-GotIds_example :
    let (r, (d', _)) = configure_security_groups client two_names (box, 0) in
    GotIds client (groups_found client two_names box.vpc_id 0) box two_names r d'
configure_security_groups-GotIds_example = configure_security_groups-GotIds client two_names box 0

abbrev cluster_group : SecurityGroup
cluster_group = record made {
  tags = record { key = machine_security_group_name; value = bytes "0.15" } ∷ [];
}

remove-ok_iff_example :
    let spot = has_spot_request box in
    let own_key = not box.existing_key in
    let w1 = (terminate client box 0).1 in
    let w2 = after spot (cancel_spot_instance_request client box) w1 in
    ((remove client box 0).1 ≡ after own_key (delete_key_pair client box) w2)
    × (((remove client box 0).0 ≡ ok tt) ↔ (
        ((terminate client box 0).0 ≡ ok tt)
        × (WhenDue spot (cancel_spot_instance_request client box) w1
            × WhenDue own_key (delete_key_pair client box) w2)))
remove-ok_iff_example = remove-ok_iff client box 0

no_instance :
    (v : ℕ) → (e : Error) × ((client.describe_instances (box.instance_id ∷ []) v).0 ≡ err e)
no_instance v = (message (bytes "InvalidInstanceID.NotFound"), refl)

has_key : text_eq box.key_name [] ≡ false
unfolding text_eq
has_key = refl

says_not_found :
    has_prefix (bytes "InvalidInstanceID.NotFound") (bytes "InvalidInstanceID.NotFound") ≡ true
unfolding has_prefix
says_not_found = refl

remove-gone_example : ((terminate client box 0).0 ≡ ok tt) × ((remove client box 0).0 ≢ ok tt)
remove-gone_example =
    remove-gone client box 0 (message (bytes "InvalidInstanceID.NotFound")) no_instance refl
      says_not_found has_key refl
