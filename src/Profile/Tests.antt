-- ===== src/Profile/Tests.antt =====
-- A cloud profile on which the theorems are applied.
use gardener_extension_provi.Base.{String, false, List, [], ◌∷◌, none, some, same, ◌≡◌, refl}
use gardener_extension_provi.Base.Int.{pos}
use gardener_extension_provi.Profile.{
  CloudProfileConfig, CloudProfileSpec, MachineImages, MachineImageVersion, RegionSpec, ZoneSpec,
  LoadBalancerClass,
}
use gardener_extension_provi.Profile.Find.{find_image}

abbrev pub sample_zone : ZoneSpec
sample_zone = record {
  name = "rz1";
  datacenter = none;
  compute_cluster = some "cl1";
  resource_pool = none;
  host_system = none;
  datastore = some "ds1";
  datastore_cluster = none;
  switch_uuid = none;
}

abbrev pub sample_region : RegionSpec
sample_region = record {
  name = "eu";
  vsphere_host = "vsphere";
  vsphere_insecure_ssl = false;
  nsxt_host = "nsxt";
  nsxt_insecure_ssl = false;
  nsxt_remote_auth = false;
  transport_zone = "tz";
  logical_tier0_router = "t0";
  edge_cluster = "edge";
  snat_ip_pool = "snat";
  datacenter = some "dc";
  datastore = none;
  datastore_cluster = some "dsc";
  zones = sample_zone ∷ [];
  ca_file = none;
  thumbprint = none;
  dns_servers = [];
  dhcp_options = none;
  machine_images = [];
}

abbrev version : String → String → MachineImageVersion
version v path = record { version = v; path = path; guest_id = none }

abbrev pub sample_images : List MachineImages
sample_images =
    record { name = "gardenlinux"; versions = version "1.0" "gl/1.0" ∷ version "1.1" "gl/1.1" ∷ [] }
    ∷ []

abbrev pub sample_classes : List LoadBalancerClass
sample_classes =
    record {
      name = "default";
      ip_pool_name = some "lb";
      tcp_app_profile_name = none;
      udp_app_profile_name = none;
    }
    ∷ []

abbrev pub sample_config : CloudProfileConfig
sample_config = record {
  name_prefix = "my-prefix";
  folder = "gardener";
  regions = sample_region ∷ [];
  default_class_storage_policy_name = "policy";
  failure_domain_labels = none;
  dns_servers = "1.2.3.4" ∷ [];
  dhcp_options = record { code = 15; values = "a" ∷ [] } ∷ [];
  machine_images = sample_images;
  load_balancer_config = record { size = "SMALL"; classes = sample_classes };
  csi_resizer_disabled = none;
  machine_type_options =
      record { name = "std"; memory_reservation_locked_to_max = none; extra_config = [] } ∷ [];
  docker_daemon_options = none;
}

abbrev pub sample_spec : CloudProfileSpec
sample_spec = record {
  machine_images = record { name = "gardenlinux"; versions = "1.1" ∷ "1.0" ∷ [] } ∷ [];
  machine_types =
      record {
        name = "std";
        cpu = some (pos 2);
        memory = some (pos 4294967296);
        storage_size = none;
      }
      ∷ [];
}

found_image : find_image sample_images "gardenlinux" "1.1" ≡ some ("gl/1.1", "")
unfolding find_image same
found_image = refl
