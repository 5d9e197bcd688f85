-- ===== src/ControlPlane.antt =====
-- pkg/controller/controlplane/valuesprovider.go: the values of the cloud controller manager's
-- configuration and of the storage classes. A map of chart values is a record, where a key that is left
-- out is `none`. Texts of errors are left out.
pub mod Laws
pub mod Tests
use gardener_extension_provi.Base.{
  String, Bool, true, false, not, List, [], ◌∷◌, Option, none, some, is_some, map, same,
  if◌then◌else◌,
}
use gardener_extension_provi.Base.Int.{ℤ, pos}
use gardener_extension_provi.Fallible.{Fallible, ok, err, ◌>>=◌, ◌>>◌}
use gardener_extension_provi.Text.{split, atoi}
use gardener_extension_provi.Profile.{
  CloudProfileConfig, RegionSpec, LoadBalancerClass, FailureDomainLabels, is_empty_string,
}
use gardener_extension_provi.Profile.Find.{find_region, collect_datacenters}
use gardener_extension_provi.Credentials.{Credentials, UserPass, ccm_account}
use gardener_extension_provi.LoadBalancer.{
  ControlPlaneConfig, OverwriteError, unless_empty, overwrite_load_balancer_classes,
}
use gardener_extension_provi.Validation.Infrastructure.{InfrastructureConfig, Networks}
use gardener_extension_provi.Infra.State.{NsxtInfraState}
use gardener_extension_provi.Infra.Gateway.{id_from_path}
use gardener_extension_provi.Actuator.{NsxtConfig}
use gardener_extension_provi.Actuator.Status.{InfrastructureStatus}

pub data ValuesError : Type 0 where
  nil_pointer : ValuesError
  passed : String → ValuesError
  no_region : ValuesError
  invalid_port too_many_parts : String → ValuesError
  refused : OverwriteError → ValuesError

abbrev pub with_port : String → String → Option ℤ → Fallible ValuesError (String × ℤ)
with_port host name none = err (invalid_port host)
with_port host name (some port) = ok (name, port)

-- A text is split in one part at least.
abbrev pub server_of_parts : String → List String → Fallible ValuesError (String × ℤ)
server_of_parts host [] = err (too_many_parts host)
server_of_parts host (part ∷ []) = ok (host, pos 443)
server_of_parts host (name ∷ (port ∷ [])) = with_port host name (atoi port)
server_of_parts host (name ∷ (port ∷ (more ∷ parts))) = err (too_many_parts host)

unfoldable pub split_server_name_and_port : String → Fallible ValuesError (String × ℤ)
split_server_name_and_port host = server_of_parts host (split host ":")

pub record StorageClassValues : Type 0 where
  pub storage_policy_name : String
  pub volume_binding_mode : String
  pub allow_volume_expansion : Bool

-- `CSIResizerDisabled == nil || !*CSIResizerDisabled`
abbrev pub resizer_enabled : Option Bool → Bool
resizer_enabled none = true
resizer_enabled (some disabled) = not disabled

unfoldable pub storage_class_values :
    Option CloudProfileConfig → Fallible ValuesError StorageClassValues
storage_class_values none = err nil_pointer
storage_class_values (some config) = ok record {
  storage_policy_name = config.default_class_storage_policy_name;
  volume_binding_mode =
      if is_some config.failure_domain_labels then "WaitForFirstConsumer" else "Immediate";
  allow_volume_expansion = resizer_enabled config.csi_resizer_disabled;
}

pub record LoadBalancerValues : Type 0 where
  pub ip_pool_name : String
  pub size : String
  -- names that are empty are left out
  pub classes : List LoadBalancerClass
  pub owner : String
  pub tcp_app_profile_name : Option String
  pub udp_app_profile_name : Option String
  pub tier1_gateway_path : Option String
  pub lb_service_id : Option String

pub record ConfigValues : Type 0 where
  pub server_name : String
  pub server_port : ℤ
  pub insecure_flag : Bool
  pub datacenters : List String
  pub username : String
  pub password : String
  pub load_balancer : LoadBalancerValues
  pub nsxt : NsxtConfig
  pub ca_file : Option String
  pub thumbprint : Option String
  pub label_region : Option String
  pub label_zone : Option String

abbrev pub class_values : LoadBalancerClass → LoadBalancerClass
class_values c = record {
  name = c.name;
  ip_pool_name = unless_empty c.ip_pool_name;
  tcp_app_profile_name = unless_empty c.tcp_app_profile_name;
  udp_app_profile_name = unless_empty c.udp_app_profile_name;
}

-- The size of the profile, unless the shoot sets one.
abbrev pub chosen_size : String → Option String → String
chosen_size size none = size
chosen_size size (some own) = if same own "" then size else own

abbrev pub tier1_path_of : Option NsxtInfraState → Option String
tier1_path_of none = none
tier1_path_of (some state) = elim state.tier1_gateway_ref [ none ↦ none | some ref ↦ some ref.path ]

abbrev pub service_id_of : Option Networks → Option String
service_id_of none = none
service_id_of (some networks) = some (id_from_path networks.load_balancer_service_path)

abbrev pub region_label : Option FailureDomainLabels → Option String
region_label none = none
region_label (some labels) = some labels.region

abbrev pub zone_label : Option FailureDomainLabels → Option String
zone_label none = none
zone_label (some labels) = some labels.zone

abbrev pub follow : {A : Type 0} → Option A → Fallible ValuesError A
follow none = err nil_pointer
follow (some a) = ok a

abbrev pub reading : {A : Type 0} → Fallible String A → Fallible ValuesError A
reading (ok a) = ok a
reading (err e) = err (passed e)

abbrev pub overwriting : {A : Type 0} → Fallible OverwriteError A → Fallible ValuesError A
overwriting (ok a) = ok a
overwriting (err e) = err (refused e)

abbrev pub known_region : Option RegionSpec → Fallible ValuesError RegionSpec
known_region none = err no_region
known_region (some region) = ok region

-- What the provider reads of the cluster and the control plane; `check` is
-- `checkAuthorizationOfOverwrittenIPPoolName`, and `sorted` the order in which a set is listed.
pub record Sources : Type 0 where
  pub config : Fallible String (Option CloudProfileConfig)
  pub infra_config : Fallible String InfrastructureConfig
  pub region : String
  pub infra_status : Fallible String (Option InfrastructureStatus)
  pub cp_config : ControlPlaneConfig
  pub credentials : Credentials
  pub garden_id : String
  pub check : String → Option String
  pub sorted : List String → List String

module _ (sources : Sources) where
  unfoldable pub load_balancer_values :
      CloudProfileConfig
      → InfrastructureConfig
      → Option InfrastructureStatus
      → Fallible ValuesError LoadBalancerValues
  load_balancer_values config infra_config stored = do
    (default_class, classes) ←
        overwriting
          (overwrite_load_balancer_classes config.load_balancer_config.classes sources.cp_config
            (some sources.check)).1
    pool ← follow default_class.ip_pool_name
    status ← follow stored
    ok record {
      ip_pool_name = pool;
      size = chosen_size config.load_balancer_config.size sources.cp_config.load_balancer_size;
      classes = map class_values classes;
      owner = sources.garden_id;
      tcp_app_profile_name = unless_empty default_class.tcp_app_profile_name;
      udp_app_profile_name = unless_empty default_class.udp_app_profile_name;
      tier1_gateway_path = tier1_path_of status.nsxt_infra_state;
      lb_service_id = service_id_of infra_config.networks;
    }

  unfoldable pub get_config_chart_values : Fallible ValuesError ConfigValues
  unfolding load_balancer_values split_server_name_and_port
  get_config_chart_values = do
    profile ← reading sources.config
    infra_config ← reading sources.infra_config
    config ← follow profile
    region ← known_region (find_region sources.region config.regions)
    server ← split_server_name_and_port region.vsphere_host
    stored ← reading sources.infra_status
    load_balancer ← load_balancer_values config infra_config stored
    ccm ← follow (ccm_account sources.credentials)
    nsxt ← follow sources.credentials.nsxt
    ok record {
      server_name = server.0;
      server_port = server.1;
      insecure_flag = region.vsphere_insecure_ssl;
      datacenters = collect_datacenters sources.sorted region;
      username = ccm.username;
      password = ccm.password;
      load_balancer = load_balancer;
      nsxt = record {
        user = nsxt.username;
        password = nsxt.password;
        host = region.nsxt_host;
        insecure_flag = region.nsxt_insecure_ssl;
        remote_auth = region.nsxt_remote_auth;
      };
      ca_file = unless_empty region.ca_file;
      thumbprint = unless_empty region.thumbprint;
      label_region = region_label config.failure_domain_labels;
      label_zone = zone_label config.failure_domain_labels;
    }
