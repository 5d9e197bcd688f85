-- ===== src/Profile.antt =====
-- pkg/apis/vsphere/types_cloudprofile.go: the provider's part of a cloud profile, and what the code
-- reads of the profile itself, which is Gardener's. A pointer field is an `Option`.
pub mod Find
pub mod Tests
use gardener_extension_provi.Base.{
  ℕ, String, Bool, true, false, not, Option, none, some, List, same,
}
use gardener_extension_provi.Base.Int.{ℤ}

pub record FailureDomainLabels : Type 0 where
  pub region : String
  pub zone : String

-- A code is not negative here, like in the spec of the ensurer.
pub record DhcpOption : Type 0 where
  pub code : ℕ
  pub values : List String

pub record MachineImageVersion : Type 0 where
  pub version : String
  pub path : String
  pub guest_id : Option String

pub record MachineImages : Type 0 where
  pub name : String
  pub versions : List MachineImageVersion

pub record ZoneSpec : Type 0 where
  pub name : String
  pub datacenter : Option String
  pub compute_cluster : Option String
  pub resource_pool : Option String
  pub host_system : Option String
  pub datastore : Option String
  pub datastore_cluster : Option String
  pub switch_uuid : Option String

pub record RegionSpec : Type 0 where
  pub name : String
  pub vsphere_host : String
  pub vsphere_insecure_ssl : Bool
  pub nsxt_host : String
  pub nsxt_insecure_ssl : Bool
  pub nsxt_remote_auth : Bool
  pub transport_zone : String
  pub logical_tier0_router : String
  pub edge_cluster : String
  pub snat_ip_pool : String
  pub datacenter : Option String
  pub datastore : Option String
  pub datastore_cluster : Option String
  pub zones : List ZoneSpec
  pub ca_file : Option String
  pub thumbprint : Option String
  pub dns_servers : List String
  -- nil and empty are told apart
  pub dhcp_options : Option (List DhcpOption)
  pub machine_images : List MachineImages

pub record LoadBalancerClass : Type 0 where
  pub name : String
  pub ip_pool_name : Option String
  pub tcp_app_profile_name : Option String
  pub udp_app_profile_name : Option String

abbrev pub load_balancer_default_class_name : String
load_balancer_default_class_name = "default"

pub record LoadBalancerConfig : Type 0 where
  pub size : String
  pub classes : List LoadBalancerClass

pub record MachineTypeOptions : Type 0 where
  pub name : String
  pub memory_reservation_locked_to_max : Option Bool
  pub extra_config : List (String × String)

pub record DockerDaemonOptions : Type 0 where
  pub http_proxy_conf : Option String
  pub insecure_registries : List String

pub record CloudProfileConfig : Type 0 where
  pub name_prefix : String
  pub folder : String
  pub regions : List RegionSpec
  pub default_class_storage_policy_name : String
  pub failure_domain_labels : Option FailureDomainLabels
  pub dns_servers : List String
  pub dhcp_options : List DhcpOption
  pub machine_images : List MachineImages
  -- `Constraints`
  pub load_balancer_config : LoadBalancerConfig
  pub csi_resizer_disabled : Option Bool
  pub machine_type_options : List MachineTypeOptions
  pub docker_daemon_options : Option DockerDaemonOptions

-- Of Gardener's `CloudProfileSpec`: the machine images with their versions, and the machine types.
-- A quantity is what `AsInt64` answers.
pub record ProfileImage : Type 0 where
  pub name : String
  pub versions : List String

pub record MachineType : Type 0 where
  pub name : String
  pub cpu : Option ℤ
  pub memory : Option ℤ
  -- the volume that a machine type brings along, if any
  pub storage_size : Option (Option ℤ)

pub record CloudProfileSpec : Type 0 where
  pub machine_images : List ProfileImage
  pub machine_types : List MachineType

-- types_worker.go
pub record MachineImage : Type 0 where
  pub name : String
  pub version : String
  pub path : String
  pub guest_id : String

-- `utils.IsEmptyString`, and its negation in the validation.
abbrev pub is_empty_string : Option String → Bool
is_empty_string none = true
is_empty_string (some s) = same s ""

abbrev pub is_set : Option String → Bool
is_set none = false
is_set (some s) = not (same s "")
