-- ===== src/Validation/Infrastructure.antt =====
-- pkg/apis/vsphere/validation/infrastructure.go, and `InfrastructureConfig` of types_infrastructure.go.
use gardener_extension_provi.Base.{
  String, Bool, true, false, not, ◌&&◌, [], ◌∷◌, ◌++◌, Option, none, some, same, contains,
}
use gardener_extension_provi.Profile.{CloudProfileConfig}
use gardener_extension_provi.Infra.State.{supported_ensurer_versions}
use gardener_extension_provi.Validation.{
  FieldPath, child, required, not_supported, forbidden, ErrorList, failed,
}

pub record Networks : Type 0 where
  pub tier1_gateway_path : String
  pub load_balancer_service_path : String

pub record InfrastructureConfig : Type 0 where
  pub networks : Option Networks
  pub overwrite_nsxt_infra_version : Option String

abbrev pub is_valid_ensurer_version : Option String → Bool
is_valid_ensurer_version none = true
is_valid_ensurer_version (some version) = contains supported_ensurer_versions version

abbrev pub networks_errors : FieldPath → Option Networks → ErrorList
networks_errors path none = []
networks_errors path (some networks) = failed (
    (
      not (same networks.tier1_gateway_path ""),
      required (child (child path "networks") "tier1GatewayPath"),
    )
    ∷ (
      not (same networks.load_balancer_service_path ""),
      required (child (child path "networks") "loadBalancerServicePath"),
    )
    ∷ [])

unfoldable pub validate_infrastructure_config : Option InfrastructureConfig → FieldPath → ErrorList
validate_infrastructure_config none path = []
validate_infrastructure_config (some infra) path =
    failed (
      (
        is_valid_ensurer_version infra.overwrite_nsxt_infra_version,
        not_supported (child path "overwriteNSXTInfraVersion"),
      )
      ∷ [])
    ++ networks_errors path infra.networks

-- `reflect.DeepEqual`
abbrev pub same_networks : Option Networks → Option Networks → Bool
same_networks none none = true
same_networks (some a) (some b) =
    same a.tier1_gateway_path b.tier1_gateway_path
    && same a.load_balancer_service_path b.load_balancer_service_path
same_networks _ _ = false

unfoldable pub validate_infrastructure_config_update :
    Option InfrastructureConfig → Option InfrastructureConfig → FieldPath → ErrorList
validate_infrastructure_config_update (some old) (some new) path =
    failed ((same_networks old.networks new.networks, forbidden (child path "networks")) ∷ [])
validate_infrastructure_config_update _ _ path = []

-- Nothing is compared with the cloud profile, and no change is relevant.
abbrev pub validate_infrastructure_config_against_cloud_profile :
    Option InfrastructureConfig → CloudProfileConfig → FieldPath → ErrorList
validate_infrastructure_config_against_cloud_profile infra profile path = []

abbrev pub has_relevant_infrastructure_config_updates :
    Option InfrastructureConfig → Option InfrastructureConfig → Bool
has_relevant_infrastructure_config_updates old new = false
