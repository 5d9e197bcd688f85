-- ===== src/Infra/Dhcp.antt =====
-- DHCP settings of a shoot's network: `newDHCPConfig` (task/taskhelper.go), `makeDhcpConfig`,
-- `createSegmentSubnet`, `equivalentSingleSubnet` (task/tasks.go) and `buildIPv4DHCPServer`
-- (task/tasks_advanced_dhcp.go).
pub mod Laws
use Prim.Native.String.{◌++◌}
use gardener_extension_provi.Base.{
  ℕ, String, Bool, true, false, not, ◌&&◌, ◌||◌, List, [], ◌∷◌, Option, none, some, ◌==◌, same,
  same_option, if◌then◌else◌, length,
}
use gardener_extension_provi.Base.Int.{ℤ, pos, negsuc}
use gardener_extension_provi.Text.{split}
use gardener_extension_provi.Cidr.{cidr_host, cidr_host_and_prefix, cidr_subnet_mask}
use gardener_extension_provi.Infra.State.{NsxtInfraSpec, DhcpOptions}
use gardener_extension_provi.Infra.Action.{Error, text, wrapped, Result, ok, err, panic, exhausted}
use gardener_extension_provi.Infra.Object.{
  ClasslessStaticRoute, GenericDhcpOption, DhcpV4Options, SegmentDhcpV4Config, SegmentSubnet,
  Ipv4DhcpServer, IpPoolRange,
}

-- Results in sequence, without a state.
infixl 5 ◌>>=◌
abbrev pub ◌>>=◌ : {A B : Type 0} → Result A → (A → Result B) → Result B
ok a >>= f = f a
err e >>= f = err e
panic >>= f = panic
exhausted >>= f = exhausted

abbrev pub or_error : {A : Type 0} → String → Option A → Result A
or_error what none = err (wrapped what (text "invalid CIDR"))
or_error what (some a) = ok a

pub record DhcpConfig : Type 0 where
  pub gateway_ip : String
  pub gateway_address : String
  pub network : String
  pub dhcp_server_address : String
  pub dns_servers : List String
  pub dhcp_options : DhcpOptions
  pub start_ip : String
  pub end_ip : String
  pub subnet_mask : String
  pub lease_time : ℕ

-- Two hours, in seconds.
abbrev pub default_lease_time : ℕ
default_lease_time = 7200

unfoldable pub new_dhcp_config : NsxtInfraSpec → Result DhcpConfig
new_dhcp_config spec = do
  gateway_ip ← or_error "gateway ip" (cidr_host spec.workers_network (pos 1))
  gateway_address ← or_error "gateway address" (cidr_host_and_prefix spec.workers_network (pos 1))
  server ← or_error "DHCP server IP" (cidr_host_and_prefix spec.workers_network (pos 2))
  start_ip ← or_error "start IP of pool" (cidr_host spec.workers_network (pos 10))
  end_ip ← or_error "end IP of pool" (cidr_host spec.workers_network (negsuc 0))
  mask ← or_error "subnet mask of pool" (cidr_subnet_mask spec.workers_network)
  ok (record {
    gateway_ip = gateway_ip;
    gateway_address = gateway_address;
    network = spec.workers_network;
    dhcp_server_address = server;
    dns_servers = spec.dns_servers;
    dhcp_options = spec.dhcp_options;
    start_ip = start_ip;
    end_ip = end_ip;
    subnet_mask = mask;
    lease_time = default_lease_time;
  })

unfoldable pub lookup_option : ℕ → DhcpOptions → Option (List String)
lookup_option code [] = none
lookup_option code ((c, values) ∷ options) =
    if c == code then some values else lookup_option code options

-- One value of DHCP option 121, `network=>nextHop`.
unfoldable pub route_of : List String → String → Result ClasslessStaticRoute
route_of (network ∷ (next_hop ∷ [])) v = ok (record { network = network; next_hop = next_hop })
route_of _ v = err (text ("Invalid DhcpOption121 value: " ++ v))

unfoldable pub routes_of : List String → Result (List ClasslessStaticRoute)
unfolding route_of split
routes_of [] = ok []
routes_of (v ∷ values) = do
  route ← route_of (split v "=>") v
  routes ← routes_of values
  ok (route ∷ routes)

unfoldable pub option121_of : Option (List String) → Result (Option (List ClasslessStaticRoute))
option121_of none = ok none
option121_of (some values) = do routes ← routes_of values; ok (some routes)

-- The options of other codes, in the order that the map was walked.
unfoldable pub others_of : (ℕ → Bool) → DhcpOptions → List GenericDhcpOption
others_of skipped [] = []
others_of skipped ((code, values) ∷ walked) =
    let rest = others_of skipped walked in
    if skipped code then rest else record { code = code; values = values } ∷ rest

pub is_empty : DhcpOptions → Bool
is_empty [] = true
is_empty (o ∷ options) = false

abbrev is_121 : ℕ → Bool
is_121 code = code == 121

-- `config.Options` of `makeDhcpConfig`.
unfoldable pub options_of : DhcpOptions → DhcpOptions → Result (Option DhcpV4Options)
options_of options walked = if is_empty options then ok none else do
  option121 ← option121_of (lookup_option 121 options)
  ok (some (record { option121 = option121; others = others_of is_121 walked }))

abbrev pub encoded : Option String → Result String
encoded none = err (text "conversion failed")
encoded (some v) = ok v

-- `walked` is the order in which the map of options is walked.
unfoldable pub make_dhcp_config :
    (SegmentDhcpV4Config → Option String) → DhcpConfig → DhcpOptions → Result String
make_dhcp_config convert cfg walked = do
  options ← options_of cfg.dhcp_options walked
  encoded (
      convert (record {
        dns_servers = cfg.dns_servers;
        server_address = cfg.dhcp_server_address;
        lease_time = cfg.lease_time;
        options = options;
      }))

unfoldable pub create_segment_subnet :
    (SegmentDhcpV4Config → Option String) → DhcpConfig → DhcpOptions → Bool → Result SegmentSubnet
create_segment_subnet convert cfg walked false = ok (record {
  gateway_address = some cfg.gateway_address;
  network = some cfg.network;
  dhcp_ranges = [];
  dhcp_config = none;
})
create_segment_subnet convert cfg walked true = elim (make_dhcp_config convert cfg walked) [
  | ok config ↦ ok (record {
    gateway_address = some cfg.gateway_address;
    network = some cfg.network;
    dhcp_ranges = (cfg.start_ip ++ "-" ++ cfg.end_ip) ∷ [];
    dhcp_config = some config;
  })
  | err e ↦ err (wrapped "makeDhcpConfig" e)
  | panic ↦ panic
  | exhausted ↦ exhausted
]

-- `domainName` of `buildIPv4DHCPServer`: DHCP option 15, if it is given.
unfoldable pub domain_name_of : Option (List String) → Result String
domain_name_of none = ok ""
domain_name_of (some (name ∷ [])) = ok name
domain_name_of (some _) = err (text "Single domain name needed (DHCP option code 15)")

abbrev is_121_or_15 : ℕ → Bool
is_121_or_15 code = code == 121 || code == 15

unfoldable pub build_ipv4_dhcp_server : DhcpConfig → DhcpOptions → Result Ipv4DhcpServer
build_ipv4_dhcp_server cfg walked = do
  domain_name ← domain_name_of (lookup_option 15 cfg.dhcp_options)
  option121 ← option121_of (lookup_option 121 cfg.dhcp_options)
  ok (record {
    dhcp_server_ip = cfg.dhcp_server_address;
    dns_nameservers = cfg.dns_servers;
    gateway_ip = cfg.gateway_ip;
    domain_name = domain_name;
    option121 = option121;
    others = record { code = 1; values = cfg.subnet_mask ∷ [] } ∷ others_of is_121_or_15 walked;
  })
