-- ===== src/Infra/Task.antt =====
-- The tasks of the ensurer and what each does: the method tables of task/tasks.go and
-- task/tasks_advanced_dhcp.go, and `TryRecover` (task/taskhelper.go).
use gardener_extension_provi.Base.{String, Bool, true, false, List, Option, none, some}
use gardener_extension_provi.Tags.{Tag}
use gardener_extension_provi.Infra.State.{Reference, NsxtInfraState, NsxtInfraSpec, is_external}
use gardener_extension_provi.Infra.Action.{
  Action, ActionName, pure, gets, deref, modify, ◌>>=◌, ◌>>◌,
}
use gardener_extension_provi.Infra.Service.{Answer, Page, Stored}
use gardener_extension_provi.Infra.Lookup.{recover_item}
use gardener_extension_provi.Infra.Resource.{reference_of}
use gardener_extension_provi.Infra.Context.{Context}
use gardener_extension_provi.Infra.Gateway.{
  ensure_tier0_gateway, ensure_edge_cluster, ensure_transport_zone, ensure_snat_ip_pool,
  ensure_tier1_gateway, delete_tier1_gateway,
}
use gardener_extension_provi.Infra.Locale.{ensure_locale_service, delete_locale_service}
use gardener_extension_provi.Infra.Network.{
  ensure_segment, ensure_allocation, ensure_snat_rule, ensure_dhcp_server_config,
}
use gardener_extension_provi.Infra.Realize.{
  ensure_realization, delete_segment, delete_allocation, delete_snat_rule,
  delete_dhcp_server_config,
}
use gardener_extension_provi.Infra.Managed.{delete_managed, recover_managed}
use gardener_extension_provi.Infra.Advanced.{
  ensure_logical_switch, ensure_profile, ensure_server, ensure_port, ensure_ip_pool, delete_ip_pool,
  recover_ip_pool, profile_kind, server_kind, port_kind,
}

pub data Task : Type 0 where
  lookup_tier0_gateway lookup_transport_zone lookup_edge_cluster lookup_snat_ip_pool : Task
  tier1_gateway tier1_gateway_locale_service dhcp_server_config segment : Task
  snat_ip_address_allocation snat_ip_address_realization snat_rule : Task
  advanced_lookup_logical_switch advanced_dhcp_profile advanced_dhcp_server : Task
  advanced_dhcp_port advanced_dhcp_ip_pool : Task

abbrev pub label : Task → String
label lookup_tier0_gateway = "tier-0 gateway lookup"
label lookup_transport_zone = "transport zone lookup"
label lookup_edge_cluster = "edge cluster lookup"
label lookup_snat_ip_pool = "SNAT IP pool lookup"
label tier1_gateway = "tier-1 gateway"
label tier1_gateway_locale_service = "tier-1 gateway locale service"
label dhcp_server_config = "DHCP profile"
label segment = "segment"
label snat_ip_address_allocation = "SNAT IP address allocation"
label snat_ip_address_realization = "SNAT IP address realization"
label snat_rule = "SNAT rule"
label advanced_lookup_logical_switch = "logical switch lookup (Advanced API)"
label advanced_dhcp_profile = "DHCP profile (Advanced API)"
label advanced_dhcp_server = "DHCP server (Advanced API)"
label advanced_dhcp_port = "DHCP port (Advanced API)"
label advanced_dhcp_ip_pool = "DHCP IP pool (Advanced API)"

abbrev pub to_reference : Option String → Option Reference
to_reference none = none
to_reference (some id) = some (record { id = id; path = "" })

-- `Reference`
abbrev pub reference : Task → NsxtInfraState → Option Reference
reference lookup_tier0_gateway s = s.tier0_gateway_ref
reference lookup_transport_zone s = s.transport_zone_ref
reference lookup_edge_cluster s = s.edge_cluster_ref
reference lookup_snat_ip_pool s = s.snat_ip_pool_ref
reference tier1_gateway s = s.tier1_gateway_ref
reference tier1_gateway_locale_service s = s.locale_service_ref
reference dhcp_server_config s = s.dhcp_server_config_ref
reference segment s = s.segment_ref
reference snat_ip_address_allocation s = s.snat_ip_address_alloc_ref
reference snat_ip_address_realization s = to_reference s.snat_ip_address
reference snat_rule s = s.snat_rule_ref
reference advanced_lookup_logical_switch s = to_reference s.advanced_dhcp.logical_switch_id
reference advanced_dhcp_profile s = to_reference s.advanced_dhcp.profile_id
reference advanced_dhcp_server s = to_reference s.advanced_dhcp.server_id
reference advanced_dhcp_port s = to_reference s.advanced_dhcp.port_id
reference advanced_dhcp_ip_pool s = to_reference s.advanced_dhcp.ip_pool_id

-- How a task's object is found again: by its tags on the policy API, by those on the manager API,
-- or not at all.
pub data Recovery : Type 0 where
  by_tags by_common_tags by_lookup : Recovery

abbrev pub recovery : Task → Recovery
recovery tier1_gateway = by_tags
recovery tier1_gateway_locale_service = by_tags
recovery dhcp_server_config = by_tags
recovery segment = by_tags
recovery snat_ip_address_allocation = by_tags
recovery snat_rule = by_tags
recovery advanced_dhcp_profile = by_common_tags
recovery advanced_dhcp_server = by_common_tags
recovery advanced_dhcp_port = by_common_tags
recovery advanced_dhcp_ip_pool = by_common_tags
recovery _ = by_lookup

-- `IsExternal`
abbrev pub is_external_task : Task → NsxtInfraState → Bool
is_external_task tier1_gateway s = is_external s
is_external_task tier1_gateway_locale_service s = is_external s
is_external_task _ s = false

-- `reflectTryRecover`: the item found, if any, is recorded.
unfoldable pub recover_with :
    {W O : Type 0}
    → Context W
    → (O → List Tag)
    → List Tag
    → (Option String → W → Answer (Page (Stored O)) × W)
    → (Stored O → Action W (Unit {0}))
    → Action W Bool
recover_with ctx tags_of tags list record_item = do
  found ← recover_item list tags_of tags ctx.fuel
  elim found [ none ↦ pure false | some item ↦ record_item item >> pure true ]

module _ {W : Type 0} (ctx : Context W) (spec : NsxtInfraSpec) where
  unfoldable pub ensure : Task → Action W ActionName
  ensure lookup_tier0_gateway = ensure_tier0_gateway ctx spec
  ensure lookup_transport_zone = ensure_transport_zone ctx spec
  ensure lookup_edge_cluster = ensure_edge_cluster ctx spec
  ensure lookup_snat_ip_pool = ensure_snat_ip_pool ctx spec
  ensure tier1_gateway = ensure_tier1_gateway ctx spec
  ensure tier1_gateway_locale_service = ensure_locale_service ctx spec
  ensure dhcp_server_config = ensure_dhcp_server_config ctx spec
  ensure segment = ensure_segment ctx spec
  ensure snat_ip_address_allocation = ensure_allocation ctx spec
  ensure snat_ip_address_realization = ensure_realization ctx
  ensure snat_rule = ensure_snat_rule ctx spec
  ensure advanced_lookup_logical_switch = ensure_logical_switch ctx
  ensure advanced_dhcp_profile = ensure_profile ctx spec
  ensure advanced_dhcp_server = ensure_server ctx spec
  ensure advanced_dhcp_port = ensure_port ctx spec
  ensure advanced_dhcp_ip_pool = ensure_ip_pool ctx spec

module _ {W : Type 0} (ctx : Context W) where
  -- A lookup's `EnsureDeleted` is that of `baseTask`.
  unfoldable pub ensure_deleted : Task → Action W Bool
  ensure_deleted tier1_gateway = delete_tier1_gateway ctx
  ensure_deleted tier1_gateway_locale_service = delete_locale_service ctx
  ensure_deleted dhcp_server_config = delete_dhcp_server_config ctx
  ensure_deleted segment = delete_segment ctx
  ensure_deleted snat_ip_address_allocation = delete_allocation ctx
  ensure_deleted snat_rule = delete_snat_rule ctx
  ensure_deleted advanced_dhcp_profile = delete_managed (profile_kind ctx)
  ensure_deleted advanced_dhcp_server = delete_managed (server_kind ctx)
  ensure_deleted advanced_dhcp_port = delete_managed (port_kind ctx)
  ensure_deleted advanced_dhcp_ip_pool = delete_ip_pool ctx
  ensure_deleted _ = pure false

  -- `ListAll` of an object below a parent fails where the parent is not known.
  unfoldable pub below_parent : Option Reference → (Reference → Action W Bool) → Action W Bool
  below_parent none f = pure false
  below_parent (some parent) f = f parent

  unfoldable pub recover_below_tier1 : List Tag → Reference → Action W Bool
  recover_below_tier1 tags tier1 =
      recover_with ctx (λ o. o.tags) tags (ctx.locale_services.list tier1.id)
        (λ item. do
          t ← deref (← gets (λ s. s.tier1_gateway_ref))
          modify (λ s. record s { locale_service_ref = some (record { id = t.id; path = "" }) }))

  unfoldable pub try_recover_object : Task → List Tag → Action W Bool
  unfolding below_parent recover_below_tier1
  try_recover_object tier1_gateway tags =
      recover_with ctx (λ o. o.tags) tags (ctx.tier1s.list tt)
        (λ item. modify (λ s. record s { tier1_gateway_ref = some (reference_of item) }))
  try_recover_object tier1_gateway_locale_service tags = do
    parent ← gets (λ s. s.tier1_gateway_ref)
    below_parent parent (recover_below_tier1 tags)
  try_recover_object dhcp_server_config tags =
      recover_with ctx (λ o. o.tags) tags (ctx.dhcp_server_configs.list tt)
        (λ item. modify (λ s. record s { dhcp_server_config_ref = some (reference_of item) }))
  try_recover_object segment tags =
      recover_with ctx (λ o. o.tags) tags (ctx.segments.list tt)
        (λ item. modify (λ s. record s {
          segment_ref = some (reference_of item);
          segment_name = item.object.display_name;
        }))
  try_recover_object snat_ip_address_allocation tags = do
    parent ← gets (λ s. s.snat_ip_pool_ref)
    below_parent parent (λ pool.
        recover_with ctx (λ o. o.tags) tags (ctx.ip_allocations.list pool.id)
          (λ item. modify (λ s. record s { snat_ip_address_alloc_ref = some (reference_of item) })))
  try_recover_object snat_rule tags = do
    parent ← gets (λ s. s.tier1_gateway_ref)
    below_parent parent (λ tier1.
        recover_with ctx (λ o. o.tags) tags (ctx.nat_rules.list tier1.id)
          (λ item. modify (λ s. record s { snat_rule_ref = some (reference_of item) })))
  try_recover_object _ tags = pure false

  unfoldable pub try_recover_managed : Task → List Tag → Action W Bool
  try_recover_managed advanced_dhcp_profile tags =
      recover_managed (profile_kind ctx) (ctx.dhcp_profiles.list tt) tags
  try_recover_managed advanced_dhcp_server tags =
      recover_managed (server_kind ctx) (ctx.dhcp_servers.list tt) tags
  try_recover_managed advanced_dhcp_port tags =
      recover_managed (port_kind ctx) (ctx.logical_ports.list tt) tags
  try_recover_managed advanced_dhcp_ip_pool tags = recover_ip_pool ctx tags
  try_recover_managed _ tags = pure false
