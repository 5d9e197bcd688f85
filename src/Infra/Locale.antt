-- ===== src/Infra/Locale.antt =====
-- The locale service of the tier-1 gateway (task/tasks.go).
use gardener_extension_provi.Base.{
  ℕ, zero, suc, String, Bool, true, false, not, ◌||◌, Option, none, some, same_option,
  if◌then◌else◌,
}
use gardener_extension_provi.Tags.{contains_tags, merge_tags}
use gardener_extension_provi.Infra.State.{
  Reference, NsxtInfraSpec, full_cluster_name, create_tags, is_external,
}
use gardener_extension_provi.Infra.Action.{
  nicer, reading, updating, creating, ok, exhausted, Action, ActionName, created, updated,
  unchanged, external, pure, fail, gets, call, deref, modify, ◌>>=◌, ◌>>◌,
}
use gardener_extension_provi.Infra.Service.{Answer, got, failed, Stored}
use gardener_extension_provi.Infra.Object.{LocaleServices}
use gardener_extension_provi.Infra.Lookup.{api}
use gardener_extension_provi.Infra.Resource.{is_not_found}
use gardener_extension_provi.Infra.Context.{Context}

abbrev pub locale_service_id : String
locale_service_id = "default"

module _ {W : Type 0} (ctx : Context W) (spec : NsxtInfraSpec) where
  abbrev pub desired_locale_service : Reference → LocaleServices
  desired_locale_service edge_cluster = record {
    display_name = some (full_cluster_name spec);
    edge_cluster_path = some edge_cluster.path;
    tags = create_tags spec;
  }

  abbrev pub locale_service_differs : LocaleServices → LocaleServices → Bool
  locale_service_differs old new =
      not (same_option old.display_name new.display_name)
      || not (same_option old.edge_cluster_path new.edge_cluster_path)
      || not (contains_tags old.tags new.tags)

  unfoldable pub create_locale_service : LocaleServices → Action W ActionName
  create_locale_service obj = do
    tier1 ← deref (← gets (λ s. s.tier1_gateway_ref))
    api creating (ctx.locale_services.patch tier1.id locale_service_id obj)
    modify (λ s. record s { locale_service_ref = some (record { id = tier1.id; path = "" }) })
    pure created

  unfoldable pub refresh_locale_service :
      LocaleServices → Reference → LocaleServices → Action W ActionName
  refresh_locale_service obj ref old =
      if locale_service_differs old obj
      then api updating (
          ctx.locale_services.patch ref.id locale_service_id
            (record obj { tags = merge_tags obj.tags old.tags }))
        >> pure updated
      else pure unchanged

  -- Where the service is gone the source clears the reference of the tier-1 gateway, not that of
  -- the locale service, and calls itself again: `again` is that call.
  unfoldable pub on_locale_service :
      LocaleServices
      → Reference
      → Action W ActionName
      → Answer (Stored LocaleServices)
      → Action W ActionName
  unfolding refresh_locale_service
  on_locale_service obj ref again (got old) = refresh_locale_service obj ref old.object
  on_locale_service obj ref again (failed e) =
      if is_not_found e
      then modify (λ s. record s { tier1_gateway_ref = none }) >> again
      else fail (reading e)

  unfoldable pub with_locale_service :
      LocaleServices → Action W ActionName → Option Reference → Action W ActionName
  unfolding on_locale_service create_locale_service
  with_locale_service obj again none = create_locale_service obj
  with_locale_service obj again (some ref) = do
    answer ← call (ctx.locale_services.get ref.id locale_service_id)
    on_locale_service obj ref again answer

  unfoldable pub ensure_own_locale_service : Action W ActionName → Action W ActionName
  unfolding with_locale_service
  ensure_own_locale_service again = do
    edge_cluster ← deref (← gets (λ s. s.edge_cluster_ref))
    ref ← gets (λ s. s.locale_service_ref)
    with_locale_service (desired_locale_service edge_cluster) again ref

  unfoldable pub ensure_locale_service_from : ℕ → Action W ActionName
  unfolding ensure_own_locale_service
  ensure_locale_service_from zero w s = (exhausted, w, s)
  ensure_locale_service_from (suc fuel) w s =
      let own = ensure_own_locale_service (ensure_locale_service_from fuel) w s in
      if is_external s then (ok external, w, s) else own

  unfoldable pub ensure_locale_service : Action W ActionName
  unfolding ensure_locale_service_from
  ensure_locale_service = ensure_locale_service_from (suc ctx.fuel)

module _ {W : Type 0} (ctx : Context W) where
  -- After a failed deletion the service is read once more: gone is as good as deleted.
  unfoldable pub confirm_locale_service_gone : Reference → Answer (Unit {0}) → Action W Bool
  confirm_locale_service_gone ref (got _) =
      modify (λ s. record s { locale_service_ref = none }) >> pure true
  confirm_locale_service_gone ref (failed e) = do
    answer ← call (ctx.locale_services.get ref.id locale_service_id)
    elim answer [
      | got _ ↦ fail (nicer e)
      | failed e2 ↦
          if is_not_found e2
          then modify (λ s. record s { locale_service_ref = none }) >> pure true
          else fail (nicer e)
    ]

  unfoldable pub delete_own_locale_service : Option Reference → Action W Bool
  unfolding confirm_locale_service_gone
  delete_own_locale_service none = pure false
  delete_own_locale_service (some ref) = do
    answer ← call (ctx.locale_services.delete ref.id locale_service_id)
    confirm_locale_service_gone ref answer

  unfoldable pub delete_locale_service : Action W Bool
  unfolding delete_own_locale_service
  delete_locale_service w s =
      if is_external s then (ok false, w, s) else delete_own_locale_service s.locale_service_ref w s
