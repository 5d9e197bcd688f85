-- ===== src/Actuator/Status.antt =====
-- `makeProviderInfrastructureStatus` (pkg/controller/infrastructure/actuator_reconcile.go) and
-- `getDefaultLoadBalancerIPPoolName`.
use gardener_extension_provi.Base.{String, Bool, List, [], ◌∷◌, Option, none, some, Map, put}
use gardener_extension_provi.Profile.{RegionSpec, ZoneSpec, LoadBalancerClass}
use gardener_extension_provi.LoadBalancer.{later_default}
use gardener_extension_provi.Validation.ControlPlane.{safe_str}
use gardener_extension_provi.Infra.State.{NsxtInfraState}
use gardener_extension_provi.Infra.Action.{text, Result, ok, err}
use gardener_extension_provi.Actuator.{PreparedReconcile, ◌>>=◌}

pub record ZoneConfig : Type 0 where
  pub datacenter : String
  pub compute_cluster : String
  pub resource_pool : String
  pub host_system : String
  pub datastore : String
  pub datastore_cluster : String
  pub switch_uuid : String

pub record VsphereConfig : Type 0 where
  pub folder : String
  pub region : String
  pub zone_configs : Map ZoneConfig

pub record InfrastructureStatus : Type 0 where
  pub vsphere_config : VsphereConfig
  pub creation_started : Option Bool
  pub nsxt_infra_state : Option NsxtInfraState

-- A pointer of the zone that is not nil goes before the region's.
abbrev pub zone_or_region : Option String → Option String → Option String
zone_or_region none region = region
zone_or_region (some s) region = some s

-- The datastore and the cluster of datastores: a zone that sets one leaves the other out.
abbrev pub datastores : RegionSpec → Option String → Option String → Option String × Option String
datastores region (some s) cluster = (some s, none)
datastores region none (some c) = (none, some c)
datastores region none none = (region.datastore, region.datastore_cluster)

abbrev pub configured : RegionSpec → ZoneSpec → String → ZoneConfig
configured region z datacenter =
    let (datastore, datastore_cluster) = datastores region z.datastore z.datastore_cluster in
    record {
      datacenter = datacenter;
      compute_cluster = safe_str z.compute_cluster;
      resource_pool = safe_str z.resource_pool;
      host_system = safe_str z.host_system;
      datastore = safe_str datastore;
      datastore_cluster = safe_str datastore_cluster;
      switch_uuid = safe_str z.switch_uuid;
    }

unfoldable pub zone_config : RegionSpec → ZoneSpec → Result ZoneConfig
zone_config region z = elim (zone_or_region z.datacenter region.datacenter) [
  | none ↦ err (text "datacenter not set in zone")
  | some datacenter ↦ ok (configured region z datacenter)
]

unfoldable pub zone_configs : RegionSpec → Map ZoneConfig → List ZoneSpec → Result (Map ZoneConfig)
unfolding zone_config
zone_configs region configs [] = ok configs
zone_configs region configs (z ∷ zones) = do
  config ← zone_config region z
  zone_configs region (put z.name config configs) zones

abbrev pub empty_vsphere_config : VsphereConfig
empty_vsphere_config = record { folder = ""; region = ""; zone_configs = [] }

unfoldable pub vsphere_config_of :
    {C : Type 0} → Option (PreparedReconcile C) → Result VsphereConfig
unfolding zone_configs
vsphere_config_of none = ok empty_vsphere_config
vsphere_config_of (some prepared) = do
  configs ← zone_configs prepared.region [] prepared.region.zones
  ok record {
    folder = prepared.cloud_profile_config.folder;
    region = prepared.region.name;
    zone_configs = configs;
  }

unfoldable pub make_provider_infrastructure_status :
    {C : Type 0}
    → Option NsxtInfraState
    → Option (PreparedReconcile C)
    → Option Bool
    → Result InfrastructureStatus
unfolding vsphere_config_of
make_provider_infrastructure_status state prepared creation_started = do
  vsphere_config ← vsphere_config_of prepared
  ok record {
    vsphere_config = vsphere_config;
    creation_started = creation_started;
    nsxt_infra_state = state;
  }

-- The pool of the first class, or of the last one that is called the default.
unfoldable pub get_default_load_balancer_ip_pool_name : List LoadBalancerClass → Result String
unfolding later_default
get_default_load_balancer_ip_pool_name [] =
    err (text "ipPoolName not set for default load balancer class")
get_default_load_balancer_ip_pool_name (c ∷ cs) = elim (later_default c cs).ip_pool_name [
  | none ↦ err (text "ipPoolName not set for default load balancer class")
  | some name ↦ ok name
]
