-- ===== src/Worker/Machines.antt =====
-- `generateMachineConfig` (pkg/controller/worker/machines.go): the machine deployments, machine classes
-- and machine images of the worker pools. Gardener's functions on pools are parameters.
use Prim.Native.String.{◌++◌ as concat}
use gardener_extension_provi.Base.{
  ℕ, suc, String, Bool, true, false, List, [], ◌∷◌, ◌++◌, Option, none, some, Map, get, same,
  length, if◌then◌else◌,
}
use gardener_extension_provi.Fallible.{Fallible, ok, err, ◌>>=◌, ◌>>◌}
use gardener_extension_provi.Text.{show}
use gardener_extension_provi.Profile.{CloudProfileConfig, MachineImage, MachineType, RegionSpec}
use gardener_extension_provi.Profile.Find.{find_region}
use gardener_extension_provi.Credentials.{
  Credentials, CredentialsError, extract_credentials, mcm_account, SecretData,
}
use gardener_extension_provi.Actuator.Status.{InfrastructureStatus, ZoneConfig}
use gardener_extension_provi.Worker.{
  WorkerError, nil_pointer, passed, no_region, no_segment_name, no_ssh_public_key, no_zone_config,
  DecodedImages, MachineValues, reading, find_worker_image, append_machine_image,
  extract_machine_values,
}

-- `P` stands for a number or a percentage, `N` for the capacity of a node template, and `T` for the
-- annotations, taints and the configuration of a pool, which are only passed on.
pub record WorkerPool (P N T : Type 0) : Type 0 where
  pub name : String
  pub minimum : ℕ
  pub maximum : ℕ
  pub max_surge : P
  pub max_unavailable : P
  pub machine_type : String
  pub image_name : String
  pub image_version : String
  pub zones : List String
  pub volume_size : Option String
  pub labels : Map String
  pub passed_on : T
  pub user_data : String
  pub node_template : Option N

pub record MachineClassSpec (N : Type 0) : Type 0 where
  pub name : String
  pub region : String
  pub ssh_key : String
  pub datacenter : String
  pub network : String
  pub template_vm : String
  pub num_cpus : ℕ
  pub memory : ℕ
  pub system_disk_size : ℕ
  pub cluster_tag : String
  pub cloud_config : String
  pub secret : Map String
  pub credentials_secret : String × String
  -- keys that are left out where they are empty
  pub folder : Option String
  pub guest_id : Option String
  pub host_system : Option String
  pub resource_pool : Option String
  pub compute_cluster : Option String
  pub datastore : Option String
  pub datastore_cluster : Option String
  pub switch_uuid : Option String
  pub memory_reservation_locked_to_max : Option Bool
  pub extra_config : List (String × String)
  -- the capacity, the machine type, the region and the zone
  pub node_template : Option (N × String × String × String)

pub record MachineDeployment (P T : Type 0) : Type 0 where
  pub name : String
  pub class_name : String
  pub secret_name : String
  pub minimum : ℕ
  pub maximum : ℕ
  pub max_surge : P
  pub max_unavailable : P
  pub labels : Map String
  pub passed_on : T

-- Gardener's functions.
pub record Pools (P N T : Type 0) : Type 0 where
  pub worker_pool_hash : WorkerPool P N T → Fallible String String
  pub disk_size : String → Fallible String ℕ
  -- the index of the zone, the number, and the number of zones
  pub distribute_over_zones : ℕ → ℕ → ℕ → ℕ
  pub distribute_positive_int_or_percent : ℕ → P → ℕ → ℕ → P
  pub merge_string_maps : Map String → Map String → Map String

-- What the controller reads of the worker and its cluster.
pub record Request (P N T : Type 0) : Type 0 where
  pub namespace : String
  pub region : String
  pub shoot_region : String
  pub ssh_public_key : String
  pub secret_ref : String × String
  pub secret : Fallible String SecretData
  pub pools : List (WorkerPool P N T)
  pub infrastructure_status : Fallible String (Option InfrastructureStatus)
  pub config : Option CloudProfileConfig
  pub decoded_config : Fallible String (Option CloudProfileConfig)
  pub machine_types : List MachineType
  pub status : DecodedImages

-- What a run keeps in the delegate.
pub record MachineConfig (P N T : Type 0) : Type 0 where
  pub deployments : List (MachineDeployment P T)
  pub classes : List (MachineClassSpec N)
  pub images : List MachineImage

abbrev pub csi_topology_region_key : String
csi_topology_region_key = "topology.csi.vmware.com/k8s-region"

abbrev pub csi_topology_zone_key : String
csi_topology_zone_key = "topology.csi.vmware.com/k8s-zone"

-- `addOptional`
abbrev pub optional : String → Option String
optional value = if same value "" then none else some value

abbrev pub format_bool : Bool → String
format_bool true = "true"
format_bool false = "false"

abbrev pub extracted : Fallible CredentialsError Credentials → Fallible WorkerError Credentials
extracted (ok c) = ok c
extracted (err e) = err (passed "credentials")

abbrev pub pointed : {A : Type 0} → WorkerError → Option A → Fallible WorkerError A
pointed e none = err e
pointed e (some a) = ok a

-- `FindRegion` follows the pointer to the configuration.
abbrev pub shoot_region_of : String → Option CloudProfileConfig → Fallible WorkerError RegionSpec
shoot_region_of name none = err nil_pointer
shoot_region_of name (some config) = pointed no_region (find_region name config.regions)

-- The name of the network, of a status that must not be nil.
abbrev pub segment_name_of :
    Option InfrastructureStatus → Fallible WorkerError (InfrastructureStatus × String)
segment_name_of none = err nil_pointer
segment_name_of (some status) = do
  state ← pointed no_segment_name status.nsxt_infra_state
  name ← pointed no_segment_name state.segment_name
  ok (status, name)

module _ {P N T : Type 0} (lib : Pools P N T) (request : Request P N T) where
  unfoldable pub machine_class_secret_data : Fallible WorkerError (Map String)
  machine_class_secret_data = do
    content ← reading request.secret
    credentials ← extracted (extract_credentials content)
    region ← shoot_region_of request.shoot_region request.config
    account ← pointed nil_pointer (mcm_account credentials)
    ok (
        ("vsphereHost", region.vsphere_host)
        ∷ ("vsphereUsername", account.username)
        ∷ ("vspherePassword", account.password)
        ∷ ("vsphereInsecureSSL", format_bool region.vsphere_insecure_ssl)
        ∷ [])

  -- `%s-%s-z%d`
  unfoldable pub deployment_name : WorkerPool P N T → ℕ → String
  deployment_name pool index =
      concat request.namespace (concat "-" (concat pool.name (concat "-z" (show (suc index)))))

  unfoldable pub class_name : WorkerPool P N T → String → ℕ → String
  unfolding deployment_name
  class_name pool hash index = concat (deployment_name pool index) (concat "-" hash)

  unfoldable pub machine_class_spec :
      InfrastructureStatus
      → String
      → Map String
      → WorkerPool P N T
      → String × String
      → MachineValues
      → String
      → ZoneConfig
      → String
      → MachineClassSpec N
  machine_class_spec status network secret_data pool (path, guest_id) values zone zone_config
        class =
      record {
        name = class;
        region = status.vsphere_config.region;
        ssh_key = request.ssh_public_key;
        datacenter = zone_config.datacenter;
        network = network;
        template_vm = path;
        num_cpus = values.num_cpus;
        memory = values.memory_in_mb;
        system_disk_size = values.system_disk_size_in_gb;
        cluster_tag = request.namespace;
        cloud_config = pool.user_data;
        secret = secret_data;
        credentials_secret = request.secret_ref;
        folder = optional status.vsphere_config.folder;
        guest_id = optional guest_id;
        host_system = optional zone_config.host_system;
        resource_pool = optional zone_config.resource_pool;
        compute_cluster = optional zone_config.compute_cluster;
        datastore = optional zone_config.datastore;
        datastore_cluster = optional zone_config.datastore_cluster;
        switch_uuid = optional zone_config.switch_uuid;
        memory_reservation_locked_to_max = elim values.machine_type_options [
          | none ↦ none
          | some o ↦ o.memory_reservation_locked_to_max
        ];
        extra_config = elim values.machine_type_options [ none ↦ [] | some o ↦ o.extra_config ];
        node_template = elim pool.node_template [
          | none ↦ none
          | some capacity ↦ some (capacity, pool.machine_type, request.region, zone)
        ];
      }

  abbrev pub machine_deployment :
      String → WorkerPool P N T → String → ℕ → String → MachineDeployment P T
  machine_deployment region pool hash index zone =
      let zones = length pool.zones in
      record {
        name = deployment_name pool index;
        class_name = class_name pool hash index;
        secret_name = class_name pool hash index;
        minimum = lib.distribute_over_zones index pool.minimum zones;
        maximum = lib.distribute_over_zones index pool.maximum zones;
        max_surge = lib.distribute_positive_int_or_percent index pool.max_surge zones pool.maximum;
        max_unavailable =
            lib.distribute_positive_int_or_percent index pool.max_unavailable zones pool.minimum;
        labels =
            lib.merge_string_maps pool.labels
              ((csi_topology_region_key, region) ∷ (csi_topology_zone_key, zone) ∷ []);
        passed_on = pool.passed_on;
      }

  abbrev pub zone_config_of : String → InfrastructureStatus → Fallible WorkerError ZoneConfig
  zone_config_of zone status =
      pointed (no_zone_config zone) (get zone status.vsphere_config.zone_configs)

  -- The disk of the machine type is replaced by the pool's volume.
  abbrev pub with_volume : WorkerPool P N T → MachineValues → Fallible WorkerError MachineValues
  with_volume pool values = elim pool.volume_size [
    | none ↦ ok values
    | some size ↦
        reading (lib.disk_size size) >>= λ n. ok (record values { system_disk_size_in_gb = n })
  ]

  abbrev pub no_config : MachineConfig P N T
  no_config = record { deployments = []; classes = []; images = [] }

  unfoldable pub add_zone :
      MachineDeployment P T → MachineClassSpec N → MachineConfig P N T → MachineConfig P N T
  add_zone deployment class config = record config {
    deployments = config.deployments ++ (deployment ∷ []);
    classes = config.classes ++ (class ∷ []);
  }

  -- The zones of a pool, from an index.
  unfoldable pub add_zones :
      InfrastructureStatus
      → String
      → Map String
      → WorkerPool P N T
      → String
      → String × String
      → MachineValues
      → ℕ
      → List String
      → MachineConfig P N T
      → Fallible WorkerError (MachineConfig P N T)
  unfolding add_zone
  add_zones status network secret_data pool hash image values index [] config = ok config
  add_zones status network secret_data pool hash image values index (zone ∷ zones) config = do
    zone_config ← zone_config_of zone status
    add_zones status network secret_data pool hash image values (suc index) zones (
        add_zone (machine_deployment status.vsphere_config.region pool hash index zone)
          (machine_class_spec status network secret_data pool image values zone zone_config
            (class_name pool hash index))
          config)

  abbrev pub used_image : WorkerPool P N T → String × String → MachineImage
  used_image pool (path, guest_id) = record {
    name = pool.image_name;
    version = pool.image_version;
    path = path;
    guest_id = guest_id;
  }

  unfoldable pub add_pool :
      InfrastructureStatus
      → String
      → Map String
      → WorkerPool P N T
      → MachineConfig P N T
      → Fallible WorkerError (MachineConfig P N T)
  unfolding add_zones
  add_pool status network secret_data pool config = do
    hash ← reading (lib.worker_pool_hash pool)
    image ←
        find_worker_image request.shoot_region request.config request.status pool.image_name
          pool.image_version
    values ← extract_machine_values request.machine_types request.decoded_config pool.machine_type
    values' ← with_volume pool values
    add_zones status network secret_data pool hash image values' 0 pool.zones
        (record config { images = append_machine_image config.images (used_image pool image) })

  unfoldable pub add_pools :
      InfrastructureStatus
      → String
      → Map String
      → List (WorkerPool P N T)
      → MachineConfig P N T
      → Fallible WorkerError (MachineConfig P N T)
  unfolding add_pool
  add_pools status network secret_data [] config = ok config
  add_pools status network secret_data (pool ∷ pools) config = do
    config' ← add_pool status network secret_data pool config
    add_pools status network secret_data pools config'

  abbrev pub has_ssh_key : Fallible WorkerError (Unit {0})
  has_ssh_key = if same request.ssh_public_key "" then err no_ssh_public_key else ok tt

  unfoldable pub generate_machine_config : Fallible WorkerError (MachineConfig P N T)
  unfolding machine_class_secret_data add_pools
  generate_machine_config = do
    secret_data ← machine_class_secret_data
    infrastructure ← reading request.infrastructure_status
    (status, network) ← segment_name_of infrastructure
    has_ssh_key
    add_pools status network secret_data request.pools no_config
