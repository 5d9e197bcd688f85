-- ===== src/Actuator.antt =====
-- pkg/controller/infrastructure/actuator_reconcile.go: what a reconciliation of the infrastructure
-- prepares, and the status that it writes. The types of the status are those of
-- pkg/apis/vsphere/types_infrastructure.go.
pub mod Status
pub mod Run
pub mod Laws
pub mod Prepared
pub mod Persist
pub mod Life
pub mod Outcome
pub mod Tests
use gardener_extension_provi.Base.{
  ℕ, String, Bool, true, false, List, [], ◌∷◌, ◌++◌, Option, none, some, Map, put, same, map, ◌==◌,
  if◌then◌else◌,
}
use gardener_extension_provi.Base.Int.{ℤ, pos, negsuc}
use gardener_extension_provi.Profile.{
  CloudProfileConfig, CloudProfileSpec, RegionSpec, ZoneSpec, LoadBalancerClass, DhcpOption,
}
use gardener_extension_provi.Profile.Find.{find_region}
use gardener_extension_provi.Credentials.{Credentials, UserPass}
use gardener_extension_provi.Validation.{ErrorList}
use gardener_extension_provi.Validation.Profile.{is_nil, validate_cloud_profile_config}
use gardener_extension_provi.Validation.Infrastructure.{InfrastructureConfig, Networks}
use gardener_extension_provi.Infra.State.{NsxtInfraState, NsxtInfraSpec, DhcpOptions}
use gardener_extension_provi.Infra.Action.{Error, text, Result, ok, err, panic, exhausted}

infixl 5 ◌>>=◌
abbrev pub ◌>>=◌ : {A B : Type 0} → Result A → (A → Result B) → Result B
ok a >>= f = f a
err e >>= f = err e
panic >>= f = panic
exhausted >>= f = exhausted

-- helper/scheme.go: a configuration counts only if it is valid.
abbrev pub valid_config : ErrorList → CloudProfileConfig → Result (Option CloudProfileConfig)
valid_config [] config = ok (some config)
valid_config (e ∷ es) config = err (text "validation of providerConfig failed")

-- `decoded` is what the decoder makes of the provider's configuration, if there is one.
unfoldable pub get_cloud_profile_config :
    CloudProfileSpec → Option (Result CloudProfileConfig) → Result (Option CloudProfileConfig)
get_cloud_profile_config spec none = ok none
get_cloud_profile_config spec (some decoded) =
    decoded >>= λ config. valid_config (validate_cloud_profile_config spec config) config

-- `FindRegion` follows the pointer to the configuration.
abbrev pub region_of :
    String → Option CloudProfileConfig → Result (CloudProfileConfig × Option RegionSpec)
region_of name none = panic
region_of name (some config) = ok (config, find_region name config.regions)

-- `NSXTConfig`
pub record NsxtConfig : Type 0 where
  pub user : String
  pub password : String
  pub host : String
  pub insecure_flag : Bool
  pub remote_auth : Bool

abbrev pub new_nsxt_config : Option UserPass → RegionSpec → Result NsxtConfig
new_nsxt_config none region = panic
new_nsxt_config (some account) region = ok record {
  user = account.username;
  password = account.password;
  host = region.nsxt_host;
  insecure_flag = region.nsxt_insecure_ssl;
  remote_auth = region.nsxt_remote_auth;
}

-- What a run reads of the cluster and the infrastructure; `C` is the ensurer that the constructor of
-- the connections makes.
pub record Inputs (C : Type 0) : Type 0 where
  pub profile_spec : CloudProfileSpec
  pub provider_config : Option (Result CloudProfileConfig)
  pub infra_config : Result InfrastructureConfig
  pub credentials : Result Credentials
  pub region : String
  pub garden_id : String
  pub infra_namespace : String
  pub cluster_name : String
  -- `Nodes` of the shoot's networking, where neither pointer is nil
  pub nodes : Option String
  pub new_ensurer : NsxtConfig → Result C

pub record PreparedReconcile (C : Type 0) : Type 0 where
  pub cloud_profile_config : CloudProfileConfig
  pub infra_config : InfrastructureConfig
  pub nsxt_config : NsxtConfig
  pub region : RegionSpec
  pub spec : NsxtInfraSpec
  pub ensurer : C

abbrev pub dereferenced : {A : Type 0} → Option A → Result A
dereferenced none = panic
dereferenced (some a) = ok a

abbrev pub chosen_dns_servers : CloudProfileConfig → RegionSpec → List String
chosen_dns_servers config region =
    if is_nil region.dns_servers then config.dns_servers else region.dns_servers

abbrev pub chosen_dhcp_options : CloudProfileConfig → RegionSpec → List DhcpOption
chosen_dhcp_options config region = elim region.dhcp_options [
  | none ↦ config.dhcp_options
  | some options ↦ options
]

-- A later option of a code replaces an earlier one.
abbrev pub put_option : DhcpOption → DhcpOptions → DhcpOptions
put_option o [] = (o.code, o.values) ∷ []
put_option o ((code, values) ∷ options) =
    if o.code == code then (o.code, o.values) ∷ options else (code, values) ∷ put_option o options

unfoldable pub dhcp_options_of : DhcpOptions → List DhcpOption → DhcpOptions
dhcp_options_of found [] = found
dhcp_options_of found (o ∷ options) = dhcp_options_of (put_option o found) options

abbrev pub gateway_path : Option Networks → Option String
gateway_path none = none
gateway_path (some networks) = some networks.tier1_gateway_path

module _ {C : Type 0} (inputs : Inputs C) where
  unfoldable pub spec_of :
      CloudProfileConfig → InfrastructureConfig → RegionSpec → String → NsxtInfraSpec
  unfolding dhcp_options_of
  spec_of config infra_config region nodes = record {
    edge_cluster_name = region.edge_cluster;
    transport_zone_name = region.transport_zone;
    tier0_gateway_name = region.logical_tier0_router;
    snat_ip_pool_name = region.snat_ip_pool;
    garden_id = inputs.garden_id;
    garden_name = config.name_prefix;
    cluster_name = inputs.infra_namespace;
    workers_network = nodes;
    dns_servers = chosen_dns_servers config region;
    dhcp_options = dhcp_options_of [] (chosen_dhcp_options config region);
    external_tier1_gateway_path = gateway_path infra_config.networks;
  }

  abbrev pub has_zones : RegionSpec → Result RegionSpec
  has_zones region =
      if is_nil region.zones then err (text "region has no zones in cloud profile") else ok region

  abbrev pub found_region : Option RegionSpec → Result RegionSpec
  found_region none = err (text "region not found in cloud profile")
  found_region (some region) = has_zones region

  unfoldable pub prepare_reconcile : Result (PreparedReconcile C)
  unfolding get_cloud_profile_config spec_of
  prepare_reconcile = do
    profile ← get_cloud_profile_config inputs.profile_spec inputs.provider_config
    infra_config ← inputs.infra_config
    creds ← inputs.credentials
    (config, found) ← region_of inputs.region profile
    region ← found_region found
    nsxt_config ← new_nsxt_config creds.nsxt region
    nodes ← dereferenced inputs.nodes
    ensurer ← inputs.new_ensurer nsxt_config
    ok record {
      cloud_profile_config = config;
      infra_config = infra_config;
      nsxt_config = nsxt_config;
      region = region;
      spec = spec_of config infra_config region nodes;
      ensurer = ensurer;
    }
