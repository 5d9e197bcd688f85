-- ===== src/Infra/Converge.antt =====
-- What a task finds that has updated its object before: the tier-1 gateway (task/tasks.go).
use gardener_extension_provi.Base.{
  String, true, false, some, ◌≡◌, ◌∙◌, ap, refl, arith, same, same_refl, if◌then◌else◌,
}
use gardener_extension_provi.Tags.Laws.{value_of}
use gardener_extension_provi.Tags.Wanted.{HasDistinctScopes, merge_tags-contains_tags}
use gardener_extension_provi.Infra.State.{
  Reference, NsxtInfraState, NsxtInfraSpec, create_tags, full_cluster_name, is_external,
}
use gardener_extension_provi.Infra.Action.{ok, Action, ActionName, unchanged, then_run, deref}
use gardener_extension_provi.Infra.Service.{got}
use gardener_extension_provi.Infra.Object.{Tier1}
use gardener_extension_provi.Infra.Equality.{equal_strings}
use gardener_extension_provi.Infra.Resource.{
  Resource, is_outdated, merged, refresh, on_read, on_reference, ensure_resource,
}
use gardener_extension_provi.Infra.Context.{Context}
use gardener_extension_provi.Infra.Gateway.{
  desired_tier1, tier1_resource, create_tier1, ensure_own_tier1, ensure_external,
  ensure_tier1_gateway,
}

create_tags-HasDistinctScopes : (spec : NsxtInfraSpec) → HasDistinctScopes (create_tags spec)
unfolding create_tags value_of same
create_tags-HasDistinctScopes spec = (refl, (refl, tt))

module _ {W O : Type 0} (r : Resource W O) (create : Action W ActionName) (desired stored : O) where
  fresh_refresh :
      (ref : Reference) (w : W) (s : NsxtInfraState)
      → is_outdated r create desired stored ≡ false
      → refresh r create desired ref stored w s ≡ (ok unchanged, w, s)
  unfolding refresh
  fresh_refresh ref w s fresh = rw fresh refl

  -- An object that is not outdated is only read.
  ensure_resource-unchanged :
      (ref : Reference) (id path : String) (w : W) (s : NsxtInfraState)
      → is_outdated r create desired stored ≡ false
      → r.ref s ≡ some ref
      → (r.read ref.id w).0 ≡ got (record { id = id; path = path; object = stored })
      → ensure_resource r create desired w s ≡ (ok unchanged, (r.read ref.id w).1, s)
  unfolding ensure_resource on_reference on_read refresh
  ensure_resource-unchanged ref id path w s fresh known answer =
      ap (λ o. on_reference r create desired o w s) known
      ∙ ap (λ a. on_read r create desired ref a (r.read ref.id w).1 s) answer
      ∙ fresh_refresh ref (r.read ref.id w).1 s fresh

module _ {W : Type 0} (ctx : Context W) (spec : NsxtInfraSpec) (tier0 : Reference)
    (old : Tier1) where
  abbrev pub sent : Tier1
  sent =
      merged (tier1_resource ctx spec) (create_tier1 ctx spec (desired_tier1 ctx spec tier0))
        (desired_tier1 ctx spec tier0) old

  same_types :
      equal_strings sent.route_advertisement_types
        (desired_tier1 ctx spec tier0).route_advertisement_types
      ≡ true
  unfolding equal_strings same
  same_types = refl

  sent-fresh :
      is_outdated
        (tier1_resource ctx spec)
        (create_tier1 ctx spec (desired_tier1 ctx spec tier0))
        (desired_tier1 ctx spec tier0)
        sent
      ≡ false
  sent-fresh = ground (
    arith,
    same_types,
    same_refl (full_cluster_name spec),
    same_refl "PREEMPTIVE",
    same_refl tier0.path,
    merge_tags-contains_tags (create_tags spec) old.tags (create_tags-HasDistinctScopes spec),
  )

  -- The update of the cluster's own tier-1 gateway converges: where the gateway that NSX-T returns for
  -- the recorded reference is the one that the task sends for some earlier gateway, the task only
  -- reads it, reports `unchanged` and keeps the state.
  pub ensure_tier1_gateway-unchanged :
      (ref : Reference) (id path : String) (w : W) (s : NsxtInfraState)
      → is_external s ≡ false
      → s.tier0_gateway_ref ≡ some tier0
      → s.tier1_gateway_ref ≡ some ref
      → (ctx.tier1s.get tt ref.id w).0 ≡ got (record { id = id; path = path; object = sent })
      → ensure_tier1_gateway ctx spec w s ≡ (ok unchanged, (ctx.tier1s.get tt ref.id w).1, s)
  unfolding ensure_tier1_gateway ensure_own_tier1
  ensure_tier1_gateway-unchanged ref id path w s own upper known answer =
      let desired = desired_tier1 ctx spec tier0 in
      ap
        (λ b.
          (if b
            then ensure_external ctx spec s.tier1_gateway_ref w s
            else ensure_own_tier1 ctx spec w s))
        own
      ∙ ap
          (λ o.
            then_run
              (λ x.
                ensure_resource (tier1_resource ctx spec)
                  (create_tier1 ctx spec (desired_tier1 ctx spec x)) (desired_tier1 ctx spec x))
              (deref o w s))
          upper
      ∙ ensure_resource-unchanged (tier1_resource ctx spec) (create_tier1 ctx spec desired) desired
          sent ref id path w s sent-fresh known answer
