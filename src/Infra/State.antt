-- ===== src/Infra/State.antt =====
-- pkg/apis/vsphere/types_infrastructure.go: the state that the ensurer keeps, and the part of
-- pkg/vsphere/infrastructure/interface.go and infraspec.go that says what is wanted.
-- A pointer field is an `Option`, `nil` being `none`.
use Prim.Native.String.{◌++◌}
use gardener_extension_provi.Base.{ℕ, String, Bool, false, List, [], ◌∷◌, Option, none, some}
use gardener_extension_provi.Tags.{Tag, scope_garden, scope_shoot}

pub record Reference : Type 0 where
  pub id : String
  pub path : String

pub record AdvancedDhcpState : Type 0 where
  pub logical_switch_id : Option String
  pub profile_id : Option String
  pub server_id : Option String
  pub port_id : Option String
  pub ip_pool_id : Option String

pub record NsxtInfraState : Type 0 where
  pub version : Option String
  pub edge_cluster_ref : Option Reference
  pub transport_zone_ref : Option Reference
  pub tier0_gateway_ref : Option Reference
  pub snat_ip_pool_ref : Option Reference
  pub tier1_gateway_ref : Option Reference
  pub external_tier1_gateway : Option Bool
  pub locale_service_ref : Option Reference
  pub segment_ref : Option Reference
  pub snat_ip_address_alloc_ref : Option Reference
  pub snat_rule_ref : Option Reference
  pub snat_ip_address : Option String
  pub segment_name : Option String
  pub dhcp_server_config_ref : Option Reference
  pub advanced_dhcp : AdvancedDhcpState

abbrev pub ensurer_version1_nsxt25 : String
ensurer_version1_nsxt25 = "1"

abbrev pub ensurer_version2_nsxt30 : String
ensurer_version2_nsxt30 = "2"

abbrev pub supported_ensurer_versions : List String
supported_ensurer_versions = ensurer_version1_nsxt25 ∷ ensurer_version2_nsxt30 ∷ []

-- `&api.NSXTInfraState{Version: …}`
abbrev pub new_state : Option String → NsxtInfraState
new_state version = record {
  version = version;
  edge_cluster_ref = none;
  transport_zone_ref = none;
  tier0_gateway_ref = none;
  snat_ip_pool_ref = none;
  tier1_gateway_ref = none;
  external_tier1_gateway = none;
  locale_service_ref = none;
  segment_ref = none;
  snat_ip_address_alloc_ref = none;
  snat_rule_ref = none;
  snat_ip_address = none;
  segment_name = none;
  dhcp_server_config_ref = none;
  advanced_dhcp = record {
    logical_switch_id = none;
    profile_id = none;
    server_id = none;
    port_id = none;
    ip_pool_id = none;
  };
}

-- `DHCPOptions map[int][]string`: an association list, one entry for a code.
abbrev pub DhcpOptions : Type 0
DhcpOptions = List (ℕ × List String)

pub record NsxtInfraSpec : Type 0 where
  pub edge_cluster_name : String
  pub transport_zone_name : String
  pub tier0_gateway_name : String
  pub snat_ip_pool_name : String
  pub garden_id : String
  pub garden_name : String
  pub cluster_name : String
  pub workers_network : String
  pub dns_servers : List String
  pub dhcp_options : DhcpOptions
  pub external_tier1_gateway_path : Option String

unfoldable pub full_cluster_name : NsxtInfraSpec → String
full_cluster_name spec = spec.garden_name ++ "--" ++ spec.cluster_name

unfoldable pub create_common_tags : NsxtInfraSpec → List Tag
create_common_tags spec =
    record { scope = scope_garden; tag = spec.garden_name }
    ∷ record { scope = scope_shoot; tag = spec.cluster_name }
    ∷ []

unfoldable pub create_tags : NsxtInfraSpec → List Tag
create_tags spec =
    record { scope = scope_garden; tag = spec.garden_id }
    ∷ record { scope = scope_shoot; tag = spec.cluster_name }
    ∷ []

-- `IsExternal` of the tier-1 gateway and of its locale service.
abbrev pub is_external : NsxtInfraState → Bool
is_external s = elim s.external_tier1_gateway [ none ↦ false | some b ↦ b ]
