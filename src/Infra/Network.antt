-- ===== src/Infra/Network.antt =====
-- The segment, the SNAT IP address and rule, and the DHCP server configuration (task/tasks.go).
pub mod Laws
use Prim.Native.String.{◌++◌}
use gardener_extension_provi.Base.{
  ℕ, String, Bool, true, false, not, ◌||◌, List, [], ◌∷◌, Option, none, some, ◌==◌, same_option,
  is_some, if◌then◌else◌,
}
use gardener_extension_provi.Tags.{Tag}
use gardener_extension_provi.Infra.State.{
  Reference, NsxtInfraState, NsxtInfraSpec, full_cluster_name, create_tags,
}
use gardener_extension_provi.Infra.Action.{
  ApiError, Error, text, api, nicer, reading, creating, Result, ok, err, Action, ActionName,
  created, unchanged, found, pure, fail, gets, call, deref, modify, or_fail, ◌>>=◌, ◌>>◌,
}
use gardener_extension_provi.Infra.Service.{Answer, got, failed, Stored}
use gardener_extension_provi.Infra.Object.{
  Segment, SegmentSubnet, IpAddressAllocation, PolicyNatRule, DhcpServerConfig, RealizedEntity,
}
use gardener_extension_provi.Infra.Equality.{equivalent_single_subnet}
use gardener_extension_provi.Infra.Dhcp.{new_dhcp_config, create_segment_subnet}
use gardener_extension_provi.Infra.Lookup
use gardener_extension_provi.Infra.Resource.{
  Resource, is_not_found, create_resource, reference_of, ensure_resource, delete_resource,
}
use gardener_extension_provi.Infra.Context.{Context}

-- `a == b` on two pointers that were allocated apart: equal only if both are nil.
abbrev pub same_pointer : Option String → Option String → Bool
same_pointer none none = true
same_pointer _ _ = false

abbrev pub same_bool_option : Option Bool → Option Bool → Bool
same_bool_option none none = true
same_bool_option (some true) (some b) = b
same_bool_option (some false) (some b) = not b
same_bool_option _ _ = false

abbrev pub same_number_option : Option ℕ → Option ℕ → Bool
same_number_option none none = true
same_number_option (some a) (some b) = a == b
same_number_option _ _ = false

module _ {W : Type 0} (ctx : Context W) (spec : NsxtInfraSpec) where
  -- The wanted segment, up to its name.
  abbrev pub desired_segment :
      SegmentSubnet → Reference → Reference → Option Reference → Option String → Segment
  desired_segment subnet tier1 zone dhcp name = record {
    display_name = name;
    connectivity_path = some tier1.path;
    transport_zone_path = some zone.path;
    dhcp_config_path = elim dhcp [ none ↦ none | some ref ↦ some ref.path ];
    tags = create_tags spec;
    subnets = subnet ∷ [];
  }

  abbrev pub segment_resource : Resource W Segment
  segment_resource = record {
    ref = λ s. s.segment_ref;
    forget = λ s. record s { segment_ref = none; segment_name = none };
    read = ctx.segments.get tt;
    patch = ctx.segments.patch tt;
    differs = λ old new.
        not (same_option old.display_name new.display_name)
        || not (same_option old.connectivity_path new.connectivity_path)
        || not (same_option old.transport_zone_path new.transport_zone_path)
        || not (same_option old.dhcp_config_path new.dhcp_config_path)
        || not (equivalent_single_subnet ctx.convert_to_golang old.subnets new.subnets);
    tags = λ t. t.tags;
    with_tags = λ t tags. record t { tags = tags };
  }

  unfoldable pub create_segment : Segment → Action W ActionName
  create_segment segment = do
    suffix ← call (ctx.random_string 8)
    create_resource ctx.uuid "segment"
        (λ id.
          ctx.segments.update tt id
            (record segment { display_name = some (full_cluster_name spec ++ "-" ++ suffix) }))
        (λ stored s. record s {
          segment_ref = some (reference_of stored);
          segment_name = stored.object.display_name;
        })

  unfoldable pub ensure_segment : Action W ActionName
  unfolding create_segment
  ensure_segment = do
    cfg ← or_fail (new_dhcp_config spec)
    dhcp ← gets (λ s. s.dhcp_server_config_ref)
    walked ← call (ctx.iterate cfg.dhcp_options)
    subnet ← or_fail (create_segment_subnet ctx.convert_to_vapi cfg walked (is_some dhcp))
    tier1 ← deref (← gets (λ s. s.tier1_gateway_ref))
    zone ← deref (← gets (λ s. s.transport_zone_ref))
    name ← gets (λ s. s.segment_name)
    ensure_resource segment_resource (create_segment (desired_segment subnet tier1 zone dhcp none))
        (desired_segment subnet tier1 zone dhcp name)

  abbrev pub desired_allocation : IpAddressAllocation
  desired_allocation = record {
    display_name = some (full_cluster_name spec ++ "_SNAT");
    tags = create_tags spec;
  }

  unfoldable pub create_allocation : Action W ActionName
  create_allocation = do
    pool ← deref (← gets (λ s. s.snat_ip_pool_ref))
    create_resource ctx.uuid "snatippool"
        (λ id. ctx.ip_allocations.update pool.id id desired_allocation)
        (λ stored s. record s { snat_ip_address_alloc_ref = some (reference_of stored) })

  -- An allocation is never updated; one that is gone is made again.
  unfoldable pub on_allocation_read : Answer (Stored IpAddressAllocation) → Action W ActionName
  on_allocation_read (got _) = pure unchanged
  on_allocation_read (failed e) = if is_not_found e then create_allocation else fail (reading e)

  unfoldable pub on_allocation : Option Reference → Action W ActionName
  unfolding create_allocation on_allocation_read
  on_allocation none = create_allocation
  on_allocation (some ref) = do
    pool ← deref (← gets (λ s. s.snat_ip_pool_ref))
    answer ← call (ctx.ip_allocations.get pool.id ref.id)
    on_allocation_read answer

  unfoldable pub ensure_allocation : Action W ActionName
  unfolding on_allocation
  ensure_allocation = do ref ← gets (λ s. s.snat_ip_address_alloc_ref); on_allocation ref

  abbrev pub desired_nat_rule : String → PolicyNatRule
  desired_nat_rule address = record {
    display_name = some (full_cluster_name spec);
    action = some "SNAT";
    enabled = some true;
    logging = some true;
    sequence_number = some 100;
    source_network = some spec.workers_network;
    translated_network = some (address ++ "/32");
    destination_network = none;
    tags = create_tags spec;
  }

  -- Every field is compared by `reflect.DeepEqual` but the action, which is compared by pointer.
  abbrev pub nat_rule_differs : PolicyNatRule → PolicyNatRule → Bool
  nat_rule_differs old new =
      not (same_option old.display_name new.display_name)
      || not (same_pointer old.action new.action)
      || not (same_bool_option old.enabled new.enabled)
      || not (same_bool_option old.logging new.logging)
      || not (same_number_option old.sequence_number new.sequence_number)
      || not (same_option old.source_network new.source_network)
      || not (same_option old.translated_network new.translated_network)
      || not (same_option old.destination_network new.destination_network)

  -- Below the tier-1 gateway with the id.
  abbrev pub nat_rule_resource : String → Resource W PolicyNatRule
  nat_rule_resource tier1_id = record {
    ref = λ s. s.snat_rule_ref;
    forget = λ s. record s { snat_rule_ref = none };
    read = ctx.nat_rules.get tier1_id;
    patch = ctx.nat_rules.patch tier1_id;
    differs = nat_rule_differs;
    tags = λ t. t.tags;
    with_tags = λ t tags. record t { tags = tags };
  }

  unfoldable pub create_nat_rule : String → PolicyNatRule → Action W ActionName
  create_nat_rule tier1_id rule =
      create_resource ctx.uuid "snatrule" (λ id. ctx.nat_rules.update tier1_id id rule)
        (λ stored s. record s { snat_rule_ref = some (reference_of stored) })

  unfoldable pub ensure_snat_rule : Action W ActionName
  unfolding create_nat_rule
  ensure_snat_rule = do
    address ← deref (← gets (λ s. s.snat_ip_address))
    tier1 ← deref (← gets (λ s. s.tier1_gateway_ref))
    ensure_resource (nat_rule_resource tier1.id)
        (create_nat_rule tier1.id (desired_nat_rule address)) (desired_nat_rule address)

  abbrev pub desired_dhcp_server_config : Reference → DhcpServerConfig
  desired_dhcp_server_config edge_cluster = record {
    display_name = some (full_cluster_name spec);
    edge_cluster_path = some edge_cluster.path;
    tags = create_tags spec;
  }

  abbrev pub dhcp_server_config_resource : Resource W DhcpServerConfig
  dhcp_server_config_resource = record {
    ref = λ s. s.dhcp_server_config_ref;
    forget = λ s. record s { dhcp_server_config_ref = none };
    read = ctx.dhcp_server_configs.get tt;
    patch = ctx.dhcp_server_configs.patch tt;
    differs = λ old new.
        not (same_option old.display_name new.display_name)
        || not (same_option old.edge_cluster_path new.edge_cluster_path);
    tags = λ t. t.tags;
    with_tags = λ t tags. record t { tags = tags };
  }

  unfoldable pub create_dhcp_server_config : DhcpServerConfig → Action W ActionName
  create_dhcp_server_config config =
      create_resource ctx.uuid "dhcpservercfg" (λ id. ctx.dhcp_server_configs.update tt id config)
        (λ stored s. record s { dhcp_server_config_ref = some (reference_of stored) })

  unfoldable pub ensure_dhcp_server_config : Action W ActionName
  unfolding create_dhcp_server_config
  ensure_dhcp_server_config = do
    edge_cluster ← deref (← gets (λ s. s.edge_cluster_ref))
    ensure_resource dhcp_server_config_resource
        (create_dhcp_server_config (desired_dhcp_server_config edge_cluster))
        (desired_dhcp_server_config edge_cluster)
