-- ===== src/Infra/Object.antt =====
-- The NSX-T objects that the tasks build, as far as the code sets or reads their fields
-- (pkg/vsphere/infrastructure/task/tasks.go and tasks_advanced_dhcp.go), and the service record.
-- Fields that are the same literal in every request, such as the description, are left out.
use gardener_extension_provi.Base.{ℕ, String, Bool, Option, List}
use gardener_extension_provi.Tags.{Tag}
use gardener_extension_provi.Infra.State.{DhcpOptions}
use gardener_extension_provi.Infra.Service.{Answer, Reply, Page, Named, Client, ManagerClient}

pub record Tier1 : Type 0 where
  pub display_name : Option String
  pub failover_mode : Option String
  pub tier0_path : Option String
  pub route_advertisement_types : List String
  pub tags : List Tag

pub record LocaleServices : Type 0 where
  pub display_name : Option String
  pub edge_cluster_path : Option String
  pub tags : List Tag

pub record ClasslessStaticRoute : Type 0 where
  pub network : String
  pub next_hop : String

pub record GenericDhcpOption : Type 0 where
  pub code : ℕ
  pub values : List String

pub record DhcpV4Options : Type 0 where
  pub option121 : Option (List ClasslessStaticRoute)
  pub others : List GenericDhcpOption

pub record SegmentDhcpV4Config : Type 0 where
  pub dns_servers : List String
  pub server_address : String
  pub lease_time : ℕ
  pub options : Option DhcpV4Options

-- `data.StructValue`, the encoded form of a configuration, is an opaque text.
pub record SegmentSubnet : Type 0 where
  pub gateway_address : Option String
  pub network : Option String
  pub dhcp_ranges : List String
  pub dhcp_config : Option String

pub record Segment : Type 0 where
  pub display_name : Option String
  pub connectivity_path : Option String
  pub transport_zone_path : Option String
  pub dhcp_config_path : Option String
  pub tags : List Tag
  pub subnets : List SegmentSubnet

pub record IpAddressAllocation : Type 0 where
  pub display_name : Option String
  pub tags : List Tag

pub record PolicyNatRule : Type 0 where
  pub display_name : Option String
  pub action : Option String
  pub enabled : Option Bool
  pub logging : Option Bool
  pub sequence_number : Option ℕ
  pub source_network : Option String
  pub translated_network : Option String
  pub destination_network : Option String
  pub tags : List Tag

pub record DhcpServerConfig : Type 0 where
  pub display_name : Option String
  pub edge_cluster_path : Option String
  pub tags : List Tag

-- The objects of the manager API.
pub record LogicalSwitch : Type 0 where
  pub id : String
  pub tags : List Tag

pub record DhcpProfile : Type 0 where
  pub display_name : String
  pub edge_cluster_id : String
  pub tags : List Tag

pub record Ipv4DhcpServer : Type 0 where
  pub dhcp_server_ip : String
  pub dns_nameservers : List String
  pub gateway_ip : String
  pub domain_name : String
  pub option121 : Option (List ClasslessStaticRoute)
  pub others : List GenericDhcpOption

pub record LogicalDhcpServer : Type 0 where
  pub display_name : String
  pub dhcp_profile_id : String
  pub ipv4_dhcp_server : Option Ipv4DhcpServer
  pub tags : List Tag

pub record LogicalPortAttachment : Type 0 where
  pub attachment_type : String
  pub id : String

pub record LogicalPort : Type 0 where
  pub display_name : String
  pub logical_switch_id : String
  pub admin_state : String
  pub attachment : Option LogicalPortAttachment
  pub tags : List Tag

pub record IpPoolRange : Type 0 where
  pub start : String
  pub end : String

pub record DhcpIpPool : Type 0 where
  pub display_name : String
  pub gateway_ip : String
  pub lease_time : ℕ
  pub error_threshold : ℕ
  pub warning_threshold : ℕ
  pub allocation_ranges : List IpPoolRange
  pub tags : List Tag

-- A realized entity, with its extended attributes: a key and its values.
pub record RealizedEntity : Type 0 where
  pub extended_attributes : List (String × List String)

-- What the tasks call outside the repository.
pub record Service (W : Type 0) : Type 0 where
  pub tier0s : Option String → W → Answer (Page Named) × W
  pub edge_clusters : W → Answer (List Named) × W
  pub transport_zones : W → Answer (List Named) × W
  pub ip_pools : Option String → W → Answer (Page Named) × W
  pub ip_pool_tags : String → W → Answer (List Tag) × W
  pub tier1s : Client W (Unit {0}) Tier1
  -- below the id of a tier-1 gateway
  pub locale_services : Client W String LocaleServices
  pub segments : Client W (Unit {0}) Segment
  -- below the id of an IP pool
  pub ip_allocations : Client W String IpAddressAllocation
  -- below the id of a tier-1 gateway, in its `USER` NAT
  pub nat_rules : Client W String PolicyNatRule
  pub dhcp_server_configs : Client W (Unit {0}) DhcpServerConfig
  pub realized_entities : String → W → Answer (List RealizedEntity) × W
  pub logical_switches : W → Reply (List LogicalSwitch) × W
  pub dhcp_profiles : ManagerClient W (Unit {0}) DhcpProfile
  pub dhcp_servers : ManagerClient W (Unit {0}) LogicalDhcpServer
  pub logical_ports : ManagerClient W (Unit {0}) LogicalPort
  -- below the id of a DHCP server
  pub dhcp_ip_pools : ManagerClient W String DhcpIpPool
  pub product_version : W → Answer String × W
  -- `bindings.TypeConverter` for the DHCP configuration of a segment
  pub convert_to_vapi : SegmentDhcpV4Config → Option String
  pub convert_to_golang : String → Option SegmentDhcpV4Config
  -- the order in which Go walks a map
  pub iterate : DhcpOptions → W → DhcpOptions × W
  pub uuid : W → String × W
  pub random_string : ℕ → W → String × W
  -- the clock in milliseconds, and `time.Sleep`
  pub now : W → ℕ
  pub sleep : ℕ → W → W
  -- `regexp.Compile` of an anchored pattern, as the test `MatchString`
  pub compile : String → Option (String → Bool)
