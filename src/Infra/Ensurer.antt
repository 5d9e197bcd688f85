-- ===== src/Infra/Ensurer.antt =====
-- pkg/vsphere/infrastructure/ensurer/ensurer.go: the runs over all tasks.
use Prim.Native.String.{◌++◌}
use package.text.Mathlib.Text.{starts_with as begins_with}
use gardener_extension_provi.Base.{
  String, Bool, true, false, not, List, [], ◌∷◌, Option, none, some, same, contains, is_some,
  if◌then◌else◌,
}
use gardener_extension_provi.Tags.{TagMap, tags_to_map}
use gardener_extension_provi.Infra.Lookup.{lookup_by_name}
use gardener_extension_provi.Infra.State.{
  Reference, NsxtInfraState, NsxtInfraSpec, new_state, create_tags, create_common_tags,
  ensurer_version1_nsxt25, ensurer_version2_nsxt30, supported_ensurer_versions,
}
use gardener_extension_provi.Infra.Action.{
  text, api, wrapped, Result, ok, err, panic, exhausted, Outcome, Action, pure, fail, gets, call,
  modify, ◌>>=◌, ◌>>◌,
}
use gardener_extension_provi.Infra.Service.{Answer, got, failed}
use gardener_extension_provi.Infra.Context.{Context}
use gardener_extension_provi.Infra.Task.{
  Task, label, reference, recovery, by_tags, by_common_tags, by_lookup, Recovery, is_external_task,
  ensure, ensure_deleted, try_recover_object, try_recover_managed, lookup_tier0_gateway,
  lookup_transport_zone, lookup_edge_cluster, lookup_snat_ip_pool, tier1_gateway,
  tier1_gateway_locale_service, dhcp_server_config, segment, snat_ip_address_allocation,
  snat_ip_address_realization, snat_rule, advanced_lookup_logical_switch, advanced_dhcp_profile,
  advanced_dhcp_server, advanced_dhcp_port, advanced_dhcp_ip_pool,
}

-- `state.Version != nil && *state.Version != api.Ensurer_Version1_NSXT25`
abbrev pub is_nsxt3 : Option String → Bool
is_nsxt3 none = false
is_nsxt3 (some version) = not (same version ensurer_version1_nsxt25)

unfoldable pub tasks_of : Bool → List Task
tasks_of true =
    lookup_tier0_gateway ∷ lookup_transport_zone ∷ lookup_edge_cluster ∷ lookup_snat_ip_pool
    ∷ tier1_gateway ∷ tier1_gateway_locale_service ∷ dhcp_server_config ∷ segment
    ∷ snat_ip_address_allocation ∷ snat_ip_address_realization ∷ snat_rule ∷ []
tasks_of false =
    lookup_tier0_gateway ∷ lookup_transport_zone ∷ lookup_edge_cluster ∷ lookup_snat_ip_pool
    ∷ tier1_gateway ∷ tier1_gateway_locale_service ∷ segment ∷ snat_ip_address_allocation
    ∷ snat_ip_address_realization ∷ snat_rule ∷ advanced_lookup_logical_switch
    ∷ advanced_dhcp_profile ∷ advanced_dhcp_server ∷ advanced_dhcp_port ∷ advanced_dhcp_ip_pool ∷ []

unfoldable pub get_tasks : NsxtInfraState → List Task
unfolding tasks_of
get_tasks s = tasks_of (is_nsxt3 s.version)

unfoldable pub update_external_state : NsxtInfraSpec → NsxtInfraState → NsxtInfraState
update_external_state spec s =
    if is_some spec.external_tier1_gateway_path
    then record s { external_tier1_gateway = some true }
    else s

-- An error that the caller only logs.
abbrev pub ignored : {W A : Type 0} → Outcome W A → Outcome W (Unit {0})
ignored (ok a, w, s) = (ok tt, w, s)
ignored (err e, w, s) = (ok tt, w, s)
ignored (panic, w, s) = (panic, w, s)
ignored (exhausted, w, s) = (exhausted, w, s)

-- `errors.Wrapf`
abbrev pub labelled : {W A : Type 0} → String → Outcome W A → Outcome W A
labelled what (ok a, w, s) = (ok a, w, s)
labelled what (err e, w, s) = (err (wrapped what e), w, s)
labelled what (panic, w, s) = (panic, w, s)
labelled what (exhausted, w, s) = (exhausted, w, s)

module _ {W : Type 0} (ctx : Context W) (spec : NsxtInfraSpec) where
  -- Lookups, and objects that are external, are ensured if the caller asks for it.
  unfoldable pub look_up : Bool → Task → Action W (Unit {0})
  look_up true t = ensure ctx spec t >> pure tt
  look_up false t = pure tt

  unfoldable pub recover_missing : Bool → Task → Recovery → Action W (Unit {0})
  unfolding look_up
  recover_missing lookup t by_tags w s =
      if is_external_task t s
      then look_up lookup t w s
      else (try_recover_object ctx t (create_tags spec) >> pure tt) w s
  recover_missing lookup t by_common_tags w s =
      (try_recover_managed ctx t (create_common_tags spec) >> pure tt) w s
  recover_missing lookup t by_lookup w s = look_up lookup t w s

  -- Nothing is recovered where the reference is known.
  unfoldable pub recover_reference : Bool → Task → Option Reference → Action W (Unit {0})
  unfolding recover_missing
  recover_reference lookup t (some ref) = pure tt
  recover_reference lookup t none = recover_missing lookup t (recovery t)

  unfoldable pub try_recover : Bool → Task → Action W (Unit {0})
  unfolding recover_reference
  try_recover lookup t w s = recover_reference lookup t (reference t s) w s

  unfoldable pub ensure_task : Task → Action W (Unit {0})
  ensure_task t w s = labelled (label t ++ " failed") ((ensure ctx spec t >> pure tt) w s)

  unfoldable pub ensure_tasks : List Task → Action W (Unit {0})
  unfolding ensure_task
  ensure_tasks [] = pure tt
  ensure_tasks (t ∷ ts) = do
    λ w s. ignored (try_recover false t w s)
    ensure_task t
    ensure_tasks ts

  unfoldable pub ensure_infrastructure : Action W (Unit {0})
  unfolding ensure_tasks
  ensure_infrastructure = do modify (update_external_state spec); ensure_tasks (← gets get_tasks)

  unfoldable pub recover_tasks : List Task → Action W (Unit {0})
  recover_tasks [] = pure tt
  recover_tasks (t ∷ ts) = do λ w s. ignored (try_recover true t w s); recover_tasks ts

module _ {W : Type 0} (ctx : Context W) where
  unfoldable pub delete_task : Task → Action W (Unit {0})
  delete_task t w s =
      labelled ("deleting " ++ label t ++ " failed") ((ensure_deleted ctx t >> pure tt) w s)

  -- The loop from the last task to the first.
  unfoldable pub delete_tasks : List Task → Action W (Unit {0})
  unfolding delete_task
  delete_tasks [] = pure tt
  delete_tasks (t ∷ ts) = delete_tasks ts >> delete_task t

  unfoldable pub recover_all : Option NsxtInfraSpec → List Task → Action W (Unit {0})
  unfolding recover_tasks
  recover_all none tasks = pure tt
  recover_all (some spec) tasks = do
    modify (update_external_state spec)
    recover_tasks ctx spec tasks

  unfoldable pub ensure_infrastructure_deleted : Option NsxtInfraSpec → Action W (Unit {0})
  unfolding recover_all delete_tasks
  ensure_infrastructure_deleted spec = do
    tasks ← gets get_tasks
    recover_all spec tasks
    delete_tasks tasks

  -- `NewStateWithVersion`, as the state that it returns.
  unfoldable pub version_of : Answer String → Result NsxtInfraState
  version_of (failed e) = err (api e)
  version_of (got version) = ok (
      new_state (
        some
          (if begins_with version "2." then ensurer_version1_nsxt25 else ensurer_version2_nsxt30)))

  unfoldable pub new_state_with_version : Option String → W → Result NsxtInfraState × W
  unfolding version_of
  new_state_with_version (some version) w =
      if contains supported_ensurer_versions version
      then (ok (new_state (some version)), w)
      else (err (text ("invalid overwrite version " ++ version)), w)
  new_state_with_version none w =
      let (answer, w') = ctx.product_version w in (version_of answer, w')

  -- `GetIPPoolTags`
  unfoldable pub get_ip_pool_tags : String → Action W TagMap
  get_ip_pool_tags name = do
    pool ← lookup_by_name ctx.ip_pools name ctx.fuel
    answer ← call (ctx.ip_pool_tags pool.id)
    elim answer [ failed e ↦ fail (api e) | got tags ↦ pure (tags_to_map tags) ]
