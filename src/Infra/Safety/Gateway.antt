-- ===== src/Infra/Safety/Gateway.antt =====
-- The lookups and the tier-1 gateway (task/tasks.go).
use gardener_extension_provi.Base.{
  String, true, false, Option, none, some, ◌≡◌, refl, arith, is_some, List, All, Bool-cases, inl,
  inr, ◌⊎◌,
}
use gardener_extension_provi.Tags.{tags_to_map}
use gardener_extension_provi.Authorization.{check_shoot_authorization, authorized, Verdict}
use gardener_extension_provi.Infra.State.{Reference, NsxtInfraState, NsxtInfraSpec, is_external}
use gardener_extension_provi.Infra.Action.{
  reading, not_authorized, fail, Action, ActionName, Safe, pure, ◌>>◌,
}
use gardener_extension_provi.Infra.Service.{got, Stored, Page, Named}
use gardener_extension_provi.Infra.Object.{Tier1}
use gardener_extension_provi.Infra.Resource.{reference_of}
use gardener_extension_provi.Infra.Context.{Context}
use gardener_extension_provi.Infra.Gateway.{
  ensure_tier0_gateway, ensure_edge_cluster, ensure_transport_zone, ensure_snat_ip_pool,
  desired_tier1, tier1_resource, create_tier1, check_authorized, ensure_external, ensure_own_tier1,
  ensure_tier1_gateway, id_from_path,
}
use gardener_extension_provi.Infra.Task.{
  lookup_tier0_gateway, lookup_transport_zone, lookup_edge_cluster, lookup_snat_ip_pool,
  tier1_gateway,
}
use gardener_extension_provi.Infra.Safety.Rules.{
  deref-Safe, answered-Safe, ensure_resource-Safe, create_resource-Safe, Reads-then,
  lookup_by_name-Reads, lookup_in-Reads, IsNamed,
}
use gardener_extension_provi.Infra.Safety.Present.{
  present, Sets, present-Sets, set_tier0-Sets, set_transport_zone-Sets, set_edge_cluster-Sets,
  set_snat_ip_pool-Sets, set_tier1-Sets,
}

-- The objects that are looked up, and tier-1 gateways that are read, have a display name, which
-- NSX-T sets to the id by default.
pub record HasNames {W : Type 0} (ctx : Context W) : Type 0 where
  pub tier1s :
      (id : String) (w : W) (stored : Stored Tier1)
      → (ctx.tier1s.get tt id w).0 ≡ got stored
      → is_some stored.object.display_name ≡ true
  pub tier0s :
      (cursor : Option String) (w : W) (page : Page Named)
      → (ctx.tier0s cursor w).0 ≡ got page
      → All IsNamed page.results
  pub ip_pools :
      (cursor : Option String) (w : W) (page : Page Named)
      → (ctx.ip_pools cursor w).0 ≡ got page
      → All IsNamed page.results
  pub edge_clusters :
      (w : W) (items : List Named) → (ctx.edge_clusters w).0 ≡ got items → All IsNamed items
  pub transport_zones :
      (w : W) (items : List Named) → (ctx.transport_zones w).0 ≡ got items → All IsNamed items

module _ {W : Type 0} (ctx : Context W) (spec : NsxtInfraSpec) (w : W) (s : NsxtInfraState)
    (named : HasNames ctx) where
  pub ensure_tier0_gateway-Safe :
      Safe (Sets lookup_tier0_gateway s) (ensure_tier0_gateway ctx spec w s)
  unfolding ensure_tier0_gateway
  ensure_tier0_gateway-Safe =
      Reads-then _ _ s _
        (lookup_by_name-Reads ctx.tier0s spec.tier0_gateway_name s named.tier0s ctx.fuel w)
        (λ item v. set_tier0-Sets s (record { id = item.id; path = item.path }))

  pub ensure_snat_ip_pool-Safe :
      Safe (Sets lookup_snat_ip_pool s) (ensure_snat_ip_pool ctx spec w s)
  unfolding ensure_snat_ip_pool
  ensure_snat_ip_pool-Safe =
      Reads-then _ _ s _
        (lookup_by_name-Reads ctx.ip_pools spec.snat_ip_pool_name s named.ip_pools ctx.fuel w)
        (λ item v. set_snat_ip_pool-Sets s (record { id = item.id; path = item.path }))

  pub ensure_edge_cluster-Safe :
      Safe (Sets lookup_edge_cluster s) (ensure_edge_cluster ctx spec w s)
  unfolding ensure_edge_cluster
  ensure_edge_cluster-Safe =
      Reads-then _ _ s _
        (lookup_in-Reads ctx.edge_clusters spec.edge_cluster_name w s named.edge_clusters)
        (λ item v. set_edge_cluster-Sets s (record { id = item.id; path = item.path }))

  pub ensure_transport_zone-Safe :
      Safe (Sets lookup_transport_zone s) (ensure_transport_zone ctx spec w s)
  unfolding ensure_transport_zone
  ensure_transport_zone-Safe =
      Reads-then _ _ s _
        (lookup_in-Reads ctx.transport_zones spec.transport_zone_name w s named.transport_zones)
        (λ item v. set_transport_zone-Sets s (record { id = item.id; path = item.path }))

  ensure_own_tier1-Safe :
      present lookup_tier0_gateway s ≡ true
      → Safe (Sets tier1_gateway s) (ensure_own_tier1 ctx spec w s)
  unfolding ensure_own_tier1
  ensure_own_tier1-Safe h = deref-Safe (Sets tier1_gateway s) _ w s s.tier0_gateway_ref h (λ tier0.
      ensure_resource-Safe (Sets tier1_gateway s) (tier1_resource ctx spec)
        (create_tier1 ctx spec (desired_tier1 ctx spec tier0)) (desired_tier1 ctx spec tier0) s
        (λ ref e. present-Sets tier1_gateway s (ground arith))
        (λ v. create_resource-Safe _ s _ _ _ _ v (λ stored. set_tier1-Sets s (reference_of stored)))
        (λ v. create_resource-Safe _ _ _ _ _ _ v (λ stored. set_tier1-Sets s (reference_of stored)))
        w)

  check_authorized-Safe :
      (P : NsxtInfraState → Type 0) (stored : Stored Tier1) (f : Action W ActionName) (v : W)
      → Safe P (f v s)
      → Safe P ((check_authorized ctx spec stored >> f) v s)
  unfolding check_authorized
  check_authorized-Safe P stored f v h = by_verdict (
      check_shoot_authorization ctx.compile ctx.shoot_namespace ctx.garden_id
        (tags_to_map stored.object.tags))
    where
      by_verdict :
          (d : Verdict)
          → Safe P (
              (elim d as (λ x. Action W (Unit {0})) [
                | authorized ↦ pure tt
                | denied ↦ fail (not_authorized denied)
              ]
                  >> f)
                v s)
      by_verdict authorized = h
      by_verdict _ = tt

  ensure_external-Safe :
      (o : Option Reference)
      → s.tier1_gateway_ref ≡ o
      → (is_some o ≡ true) ⊎ (is_some spec.external_tier1_gateway_path ≡ true)
      → Safe (Sets tier1_gateway s) (ensure_external ctx spec o w s)
  unfolding ensure_external
  ensure_external-Safe (some ref) e h = present-Sets tier1_gateway s (ground arith)
  ensure_external-Safe none e (inl h) = cc
  ensure_external-Safe none e (inr h) =
      deref-Safe (Sets tier1_gateway s) _ w s spec.external_tier1_gateway_path h (λ path.
        answered-Safe (Sets tier1_gateway s) _ s reading (ctx.tier1s.get tt (id_from_path path)) w
          (λ stored e.
            deref-Safe (Sets tier1_gateway s) _ _ s stored.object.display_name
              (named.tier1s (id_from_path path) w stored e)
              (λ name.
                check_authorized-Safe (Sets tier1_gateway s) stored _ _
                  (set_tier1-Sets s (reference_of stored)))))

  -- An external gateway needs its path or a reference, an own one the tier-0 gateway.
  pub ensure_tier1_gateway-Safe :
      (is_external s ≡ false → present lookup_tier0_gateway s ≡ true)
      → (is_external s ≡ true
          → (is_some s.tier1_gateway_ref ≡ true)
            ⊎ (is_some spec.external_tier1_gateway_path ≡ true))
      → Safe (Sets tier1_gateway s) (ensure_tier1_gateway ctx spec w s)
  unfolding ensure_tier1_gateway
  ensure_tier1_gateway-Safe own anchored = elim (Bool-cases (is_external s)) [
    | inl e ↦ rw e (ensure_external-Safe s.tier1_gateway_ref refl (anchored e))
    | inr e ↦ rw e (ensure_own_tier1-Safe (own e))
  ]
