-- ===== src/Infra/Advanced.antt =====
-- The DHCP tasks of NSX-T 2.5, on the manager ("Advanced") API (task/tasks_advanced_dhcp.go).
use gardener_extension_provi.Base.{
  String, Bool, false, not, ◌&&◌, ◌||◌, List, [], ◌∷◌, Option, none, some, ◌==◌, same, find,
  if◌then◌else◌,
}
use gardener_extension_provi.Tags.{Tag}
use gardener_extension_provi.Infra.State.{
  Reference, NsxtInfraState, NsxtInfraSpec, full_cluster_name, create_common_tags,
}
use gardener_extension_provi.Infra.Action.{
  text, api, listing_status, Action, ActionName, found, pure, fail, gets, call, deref, modify,
  or_fail, ◌>>=◌, ◌>>◌,
}
use gardener_extension_provi.Infra.Service.{Reply, answered, refused}
use gardener_extension_provi.Infra.Object.{
  LogicalSwitch, DhcpProfile, Ipv4DhcpServer, LogicalDhcpServer, LogicalPortAttachment, LogicalPort,
  IpPoolRange, DhcpIpPool,
}
use gardener_extension_provi.Infra.Equality.{same_strings, same_routes, same_others}
use gardener_extension_provi.Infra.Dhcp.{DhcpConfig, new_dhcp_config, build_ipv4_dhcp_server}
use gardener_extension_provi.Infra.Managed.{
  Managed, ensure_managed, delete_managed, recover_managed,
}
use gardener_extension_provi.Infra.Context.{Context}

abbrev pub has_policy_path : String → List Tag → Bool
has_policy_path path [] = false
has_policy_path path (t ∷ tags) =
    same t.scope "policyPath" && same t.tag path || has_policy_path path tags

-- Ids in the nested state.
abbrev pub set_logical_switch : Option String → NsxtInfraState → NsxtInfraState
set_logical_switch id s =
    let d = s.advanced_dhcp in record s { advanced_dhcp = record d { logical_switch_id = id } }

abbrev pub set_profile : Option String → NsxtInfraState → NsxtInfraState
set_profile id s =
    let d = s.advanced_dhcp in record s { advanced_dhcp = record d { profile_id = id } }

abbrev pub set_server : Option String → NsxtInfraState → NsxtInfraState
set_server id s =
    let d = s.advanced_dhcp in record s { advanced_dhcp = record d { server_id = id } }

abbrev pub set_port : Option String → NsxtInfraState → NsxtInfraState
set_port id s = let d = s.advanced_dhcp in record s { advanced_dhcp = record d { port_id = id } }

abbrev pub set_ip_pool : Option String → NsxtInfraState → NsxtInfraState
set_ip_pool id s =
    let d = s.advanced_dhcp in record s { advanced_dhcp = record d { ip_pool_id = id } }

abbrev same_ipv4 : Option Ipv4DhcpServer → Option Ipv4DhcpServer → Bool
same_ipv4 (some a) (some b) =
    same a.dhcp_server_ip b.dhcp_server_ip
    && same a.gateway_ip b.gateway_ip
    && same a.domain_name b.domain_name
    && same_strings a.dns_nameservers b.dns_nameservers
    && (same_routes a.option121 b.option121 && same_others a.others b.others)
same_ipv4 _ _ = false

abbrev same_attachment : Option LogicalPortAttachment → Option LogicalPortAttachment → Bool
same_attachment (some a) (some b) = same a.attachment_type b.attachment_type && same a.id b.id
same_attachment _ _ = false

-- `len(old) != 1 || old[0] != new[0]`, field by field.
abbrev same_ranges : List IpPoolRange → List IpPoolRange → Bool
same_ranges (a ∷ []) (b ∷ r) = same a.start b.start && same a.end b.end
same_ranges _ _ = false

module _ {W : Type 0} (ctx : Context W) where
  unfoldable pub find_switch : List LogicalSwitch → Reference → Action W ActionName
  find_switch switches segment =
      elim (find (λ switch. has_policy_path segment.path switch.tags) switches) [
        | none ↦ fail (text "not found by segment path")
        | some switch ↦ modify (set_logical_switch (some switch.id)) >> pure found
      ]

  unfoldable pub on_switches : Reply (List LogicalSwitch) → Action W ActionName
  unfolding find_switch
  on_switches (refused status e) = fail (api e)
  on_switches (answered status switches) =
      if status == 200
      then (gets (λ s. s.segment_ref) >>= deref) >>= find_switch switches
      else fail (listing_status status)

  unfoldable pub ensure_logical_switch : Action W ActionName
  unfolding on_switches
  ensure_logical_switch = do reply ← call ctx.logical_switches; on_switches reply

  abbrev pub profile_kind : Managed W DhcpProfile
  profile_kind = record {
    ref = λ s. s.advanced_dhcp.profile_id;
    set = set_profile;
    read = ctx.dhcp_profiles.read tt;
    update = ctx.dhcp_profiles.update tt;
    create = ctx.dhcp_profiles.create tt;
    delete = ctx.dhcp_profiles.delete tt;
    differs = λ old new.
        not (same old.display_name new.display_name)
        || not (same old.edge_cluster_id new.edge_cluster_id);
    tags = λ t. t.tags;
    with_tags = λ t tags. record t { tags = tags };
  }

  abbrev pub server_kind : Managed W LogicalDhcpServer
  server_kind = record {
    ref = λ s. s.advanced_dhcp.server_id;
    set = set_server;
    read = ctx.dhcp_servers.read tt;
    update = ctx.dhcp_servers.update tt;
    create = ctx.dhcp_servers.create tt;
    delete = ctx.dhcp_servers.delete tt;
    differs = λ old new.
        not (same old.display_name new.display_name)
        || not (same old.dhcp_profile_id new.dhcp_profile_id)
        || not (same_ipv4 old.ipv4_dhcp_server new.ipv4_dhcp_server);
    tags = λ t. t.tags;
    with_tags = λ t tags. record t { tags = tags };
  }

  abbrev pub port_kind : Managed W LogicalPort
  port_kind = record {
    ref = λ s. s.advanced_dhcp.port_id;
    set = set_port;
    read = ctx.logical_ports.read tt;
    update = ctx.logical_ports.update tt;
    create = ctx.logical_ports.create tt;
    delete = ctx.logical_ports.delete tt;
    differs = λ old new.
        not (same old.display_name new.display_name)
        || not (same old.logical_switch_id new.logical_switch_id)
        || not (same old.admin_state new.admin_state)
        || not (same_attachment old.attachment new.attachment);
    tags = λ t. t.tags;
    with_tags = λ t tags. record t { tags = tags };
  }

  -- Below the DHCP server with the id.
  abbrev pub ip_pool_kind : String → Managed W DhcpIpPool
  ip_pool_kind server_id = record {
    ref = λ s. s.advanced_dhcp.ip_pool_id;
    set = set_ip_pool;
    read = ctx.dhcp_ip_pools.read server_id;
    update = ctx.dhcp_ip_pools.update server_id;
    create = ctx.dhcp_ip_pools.create server_id;
    delete = ctx.dhcp_ip_pools.delete server_id;
    differs = λ old new.
        not (same old.display_name new.display_name)
        || not (same old.gateway_ip new.gateway_ip)
        || not (old.lease_time == new.lease_time)
        || not (old.error_threshold == new.error_threshold)
        || not (old.warning_threshold == new.warning_threshold)
        || not (same_ranges old.allocation_ranges new.allocation_ranges);
    tags = λ t. t.tags;
    with_tags = λ t tags. record t { tags = tags };
  }

  unfoldable pub delete_ip_pool_of : Option String → Action W Bool
  delete_ip_pool_of none = pure false
  delete_ip_pool_of (some id) = do
    server ← deref (← gets (λ s. s.advanced_dhcp.server_id))
    delete_managed (ip_pool_kind server)

  unfoldable pub delete_ip_pool : Action W Bool
  unfolding delete_ip_pool_of
  delete_ip_pool = do id ← gets (λ s. s.advanced_dhcp.ip_pool_id); delete_ip_pool_of id

  -- The DHCP server is needed to list its pools.
  unfoldable pub recover_ip_pool_of : List Tag → Option String → Action W Bool
  recover_ip_pool_of tags none = pure false
  recover_ip_pool_of tags (some server) =
      recover_managed (ip_pool_kind server) (ctx.dhcp_ip_pools.list server) tags

  unfoldable pub recover_ip_pool : List Tag → Action W Bool
  unfolding recover_ip_pool_of
  recover_ip_pool tags = do
    server ← gets (λ s. s.advanced_dhcp.server_id)
    recover_ip_pool_of tags server

module _ {W : Type 0} (ctx : Context W) (spec : NsxtInfraSpec) where
  unfoldable pub ensure_profile : Action W ActionName
  ensure_profile = do
    edge_cluster ← deref (← gets (λ s. s.edge_cluster_ref))
    ensure_managed (profile_kind ctx) (record {
      display_name = full_cluster_name spec;
      edge_cluster_id = edge_cluster.id;
      tags = create_common_tags spec;
    })

  unfoldable pub ensure_server : Action W ActionName
  ensure_server = do
    cfg ← or_fail (new_dhcp_config spec)
    walked ← call (ctx.iterate cfg.dhcp_options)
    ipv4 ← or_fail (build_ipv4_dhcp_server cfg walked)
    profile ← deref (← gets (λ s. s.advanced_dhcp.profile_id))
    ensure_managed (server_kind ctx) (record {
      display_name = full_cluster_name spec;
      dhcp_profile_id = profile;
      ipv4_dhcp_server = some ipv4;
      tags = create_common_tags spec;
    })

  unfoldable pub ensure_port : Action W ActionName
  ensure_port = do
    server ← deref (← gets (λ s. s.advanced_dhcp.server_id))
    switch ← deref (← gets (λ s. s.advanced_dhcp.logical_switch_id))
    ensure_managed (port_kind ctx) (record {
      display_name = full_cluster_name spec;
      logical_switch_id = switch;
      admin_state = "UP";
      attachment = some (record { attachment_type = "DHCP_SERVICE"; id = server });
      tags = create_common_tags spec;
    })

  abbrev pub desired_ip_pool : DhcpConfig → DhcpIpPool
  desired_ip_pool cfg = record {
    display_name = full_cluster_name spec;
    gateway_ip = cfg.gateway_ip;
    lease_time = cfg.lease_time;
    error_threshold = 98;
    warning_threshold = 70;
    allocation_ranges = record { start = cfg.start_ip; end = cfg.end_ip } ∷ [];
    tags = create_common_tags spec;
  }

  unfoldable pub ensure_ip_pool : Action W ActionName
  ensure_ip_pool = do
    cfg ← or_fail (new_dhcp_config spec)
    server ← deref (← gets (λ s. s.advanced_dhcp.server_id))
    ensure_managed (ip_pool_kind ctx server) (desired_ip_pool cfg)
