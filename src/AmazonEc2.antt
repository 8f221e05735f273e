-- ===== src/AmazonEc2.antt =====
-- drivers/amazonec2/amazonec2.go: the driver of Amazon EC2. Its client is a record of the calls that
-- the driver makes. The SDK's pointers that the code follows without a test are taken to be there,
-- but for the list of instances.
pub mod Groups
pub mod Instance
use machine.Base.{ℕ, Bool, true, false, Option, none, some, List, [], ◌∷◌, ◌++◌}
use machine.Base.Int.{ℤ, pos}
use machine.Text.{Text, bytes, text_eq}
use machine.Errors.{Error, Act}
use machine.Driver.Defaults.{BaseDriver}

abbrev pub driver_name : Text
driver_name = bytes "amazonec2"

abbrev pub ip_range : Text
ip_range = bytes "0.0.0.0/0"

abbrev pub machine_security_group_name : Text
machine_security_group_name = bytes "rancher-nodes"

abbrev pub machine_tag : Text
machine_tag = bytes "rancher-nodes"

abbrev pub default_security_group : Text
default_security_group = machine_security_group_name

abbrev pub default_ssh_user : Text
default_ssh_user = bytes "ubuntu"

abbrev pub docker_port : ℤ
docker_port = pos 2376

abbrev pub kube_api_port : ℤ
kube_api_port = pos 6443

abbrev pub http_port : ℤ
http_port = pos 80

abbrev pub https_port : ℤ
https_port = pos 443

abbrev pub node_exporter : ℤ
node_exporter = pos 9796

abbrev pub etcd_ports : ℤ × ℤ
etcd_ports = (pos 2379, pos 2380)

abbrev pub vxlan_ports : ℤ × ℤ
vxlan_ports = (pos 4789, pos 4789)

abbrev pub flannel_ports : ℤ × ℤ
flannel_ports = (pos 8472, pos 8472)

abbrev pub other_kube_ports : ℤ × ℤ
other_kube_ports = (pos 10250, pos 10252)

abbrev pub kube_proxy_ports : ℤ × ℤ
kube_proxy_ports = (pos 10256, pos 10256)

abbrev pub node_ports : ℤ × ℤ
node_ports = (pos 30000, pos 32767)

abbrev pub calico_port : ℤ
calico_port = pos 179

-- Who may connect: the addresses of a range, or the members of a group.
pub data Source : Type 0 where
  cidr_ip : Text → Source
  group_pair : Text → Source

pub record Permission : Type 0 where
  pub ip_protocol : Text
  pub from_port : Option ℤ
  pub to_port : Option ℤ
  pub sources : List Source

pub record Tag : Type 0 where
  pub key : Text
  pub value : Text

pub record SecurityGroup : Type 0 where
  pub group_id : Text
  pub group_name : Text
  pub group_vpc : Text
  pub tags : List Tag
  pub ip_permissions : List Permission

pub record Ec2Instance : Type 0 where
  pub instance_id : Text
  pub private_ip_address : Option Text
  pub public_ip_address : Option Text
  pub state_name : Text
  pub instance_key : Option Text

-- The fields that the modelled methods use.
pub record AmazonEc2 : Type 0 where
  pub base : BaseDriver
  pub instance_id : Text
  pub vpc_id : Text
  pub key_name : Text
  pub existing_key : Bool
  pub security_group_id : Text
  pub security_group_ids : List Text
  pub security_group_name : Text
  pub security_group_names : List Text
  pub security_group_read_only : Bool
  pub open_ports : List Text
  pub request_spot_instance : Bool
  pub spot_instance_request_id : Text
  pub private_ip_only : Bool
  pub use_private_ip : Bool

-- The filters of a question for groups.
pub data GroupFilter : Type 0 where
  with_ids : List Text → GroupFilter
  with_names : List Text → Text → GroupFilter

-- The calls of `Ec2Client` that are modelled, the version of the program, and the text of an error.
pub record Ec2Client (W : Type 0) : Type 0 where
  pub describe_security_groups : GroupFilter → Act W (List SecurityGroup)
  -- The name, the description and the VPC; it answers with the new group's id.
  pub create_security_group : Text → Text → Text → Act W Text
  pub create_tags : List Text → List Tag → Act W (Unit {0})
  pub authorize_security_group_ingress : Text → List Permission → Act W (Unit {0})
  -- The instances of each reservation.
  pub describe_instances : List Text → Act W (List (List Ec2Instance))
  pub start_instances : List Text → Act W (Unit {0})
  pub stop_instances : List Text → Bool → Act W (Unit {0})
  pub reboot_instances : List Text → Act W (Unit {0})
  pub terminate_instances : List Text → Act W (Unit {0})
  pub cancel_spot_instance_requests : List Text → Act W (Unit {0})
  pub delete_key_pair : Option Text → Act W (Unit {0})
  pub sleep : ℕ → W → W
  pub version : Text
  pub error_text : Error → Text

-- migrateStringToSlice
unfoldable pub migrate_string_to_slice : Text → List Text → List Text
migrate_string_to_slice [] values = values
migrate_string_to_slice (c ∷ value) values = (c ∷ value) ∷ values

-- securityGroupNames
unfoldable pub security_group_names : AmazonEc2 → List Text
unfolding migrate_string_to_slice
security_group_names d = migrate_string_to_slice d.security_group_name d.security_group_names

-- securityGroupIds
unfoldable pub security_group_ids : AmazonEc2 → List Text
unfolding migrate_string_to_slice
security_group_ids d = migrate_string_to_slice d.security_group_id d.security_group_ids

-- hasTagKey
unfoldable pub has_tag_key : List Tag → Text → Bool
unfolding text_eq
has_tag_key [] key = false
has_tag_key (tag ∷ tags) key =
    let rest = has_tag_key tags key in elim (text_eq tag.key key) [ true ↦ true | false ↦ rest ]
