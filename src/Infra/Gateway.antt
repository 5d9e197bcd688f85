-- ===== src/Infra/Gateway.antt =====
-- The lookups and the tier-1 gateway (task/tasks.go).
use gardener_extension_provi.Base.{
  String, Bool, false, not, ◌||◌, List, [], ◌∷◌, Option, none, some, same_option, if◌then◌else◌,
}
use gardener_extension_provi.Text.{split}
use gardener_extension_provi.Tags.{tags_to_map}
use gardener_extension_provi.Authorization.{authorized, check_shoot_authorization}
use gardener_extension_provi.Infra.State.{
  Reference, NsxtInfraSpec, full_cluster_name, create_tags, is_external,
}
use gardener_extension_provi.Infra.Action.{
  nicer, reading, not_authorized, ok, Action, ActionName, found, external, pure, fail, gets, call,
  deref, modify, ◌>>=◌, ◌>>◌,
}
use gardener_extension_provi.Infra.Service.{Stored, Named}
use gardener_extension_provi.Infra.Object.{Tier1}
use gardener_extension_provi.Infra.Equality.{equal_strings}
use gardener_extension_provi.Infra.Lookup.{api, lookup_by_name, lookup_in}
use gardener_extension_provi.Infra.Resource.{
  Resource, create_resource, reference_of, ensure_resource, delete_resource,
}
use gardener_extension_provi.Infra.Context.{Context}

abbrev named_reference : Named → Reference
named_reference item = record { id = item.id; path = item.path }

-- `IdFromPath`: the text after the last slash.
last_of : List String → String
last_of [] = ""
last_of (x ∷ []) = x
last_of (x ∷ (y ∷ xs)) = last_of (y ∷ xs)

unfoldable pub id_from_path : String → String
unfolding last_of split
id_from_path path = last_of (split path "/")

module _ {W : Type 0} (ctx : Context W) (spec : NsxtInfraSpec) where
  unfoldable pub ensure_tier0_gateway : Action W ActionName
  ensure_tier0_gateway = do
    item ← lookup_by_name ctx.tier0s spec.tier0_gateway_name ctx.fuel
    modify (λ s. record s { tier0_gateway_ref = some (named_reference item) })
    pure found

  unfoldable pub ensure_edge_cluster : Action W ActionName
  ensure_edge_cluster = do
    item ← lookup_in ctx.edge_clusters spec.edge_cluster_name
    modify (λ s. record s { edge_cluster_ref = some (named_reference item) })
    pure found

  unfoldable pub ensure_transport_zone : Action W ActionName
  ensure_transport_zone = do
    item ← lookup_in ctx.transport_zones spec.transport_zone_name
    modify (λ s. record s { transport_zone_ref = some (named_reference item) })
    pure found

  unfoldable pub ensure_snat_ip_pool : Action W ActionName
  ensure_snat_ip_pool = do
    item ← lookup_by_name ctx.ip_pools spec.snat_ip_pool_name ctx.fuel
    modify (λ s. record s { snat_ip_pool_ref = some (named_reference item) })
    pure found

  abbrev pub desired_tier1 : Reference → Tier1
  desired_tier1 tier0 = record {
    display_name = some (full_cluster_name spec);
    failover_mode = some "PREEMPTIVE";
    tier0_path = some tier0.path;
    route_advertisement_types =
        "TIER1_STATIC_ROUTES" ∷ "TIER1_NAT" ∷ "TIER1_LB_VIP" ∷ "TIER1_LB_SNAT" ∷ [];
    tags = create_tags spec;
  }

  abbrev pub tier1_resource : Resource W Tier1
  tier1_resource = record {
    ref = λ s. s.tier1_gateway_ref;
    forget = λ s. record s { tier1_gateway_ref = none };
    read = ctx.tier1s.get tt;
    patch = ctx.tier1s.patch tt;
    differs = λ old new.
        not (same_option old.display_name new.display_name)
        || not (same_option old.failover_mode new.failover_mode)
        || not (same_option old.tier0_path new.tier0_path)
        || not (equal_strings old.route_advertisement_types new.route_advertisement_types);
    tags = λ t. t.tags;
    with_tags = λ t tags. record t { tags = tags };
  }

  unfoldable pub create_tier1 : Tier1 → Action W ActionName
  create_tier1 tier1 =
      create_resource ctx.uuid "tier1gw" (λ id. ctx.tier1s.update tt id tier1)
        (λ stored s. record s { tier1_gateway_ref = some (reference_of stored) })

  unfoldable pub check_authorized : Stored Tier1 → Action W (Unit {0})
  check_authorized stored =
      elim (check_shoot_authorization ctx.compile ctx.shoot_namespace ctx.garden_id
        (tags_to_map stored.object.tags)) [
          | authorized ↦ pure tt
          | denied ↦ fail (not_authorized denied)
        ]

  -- `ensureExternal`, with and without a reference in the state. The display name that is followed
  -- goes into texts only.
  unfoldable pub ensure_external : Option Reference → Action W ActionName
  unfolding check_authorized
  ensure_external (some ref) = pure external
  ensure_external none = do
    path ← deref spec.external_tier1_gateway_path
    stored ← api reading (ctx.tier1s.get tt (id_from_path path))
    name ← deref stored.object.display_name
    check_authorized stored
    modify (λ s. record s { tier1_gateway_ref = some (reference_of stored) })
    pure external

  unfoldable pub ensure_own_tier1 : Action W ActionName
  unfolding create_tier1
  ensure_own_tier1 = do
    tier0 ← deref (← gets (λ s. s.tier0_gateway_ref))
    ensure_resource tier1_resource (create_tier1 (desired_tier1 tier0)) (desired_tier1 tier0)

  unfoldable pub ensure_tier1_gateway : Action W ActionName
  unfolding ensure_external ensure_own_tier1
  ensure_tier1_gateway w s =
      if is_external s then ensure_external s.tier1_gateway_ref w s else ensure_own_tier1 w s

module _ {W : Type 0} (ctx : Context W) where
  unfoldable pub delete_tier1_gateway : Action W Bool
  delete_tier1_gateway w s =
      if is_external s
      then (ok false, w, s)
      else delete_resource (λ s. s.tier1_gateway_ref) (λ s. record s { tier1_gateway_ref = none })
          nicer (λ ref. call (ctx.tier1s.delete tt ref.id)) w s
