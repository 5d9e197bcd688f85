-- ===== src/Actuator/Run.antt =====
-- `reconcile` (actuator_reconcile.go) and `delete` (actuator_delete.go) of pkg/controller/infrastructure,
-- over the runs of the ensurer. `W` is the world outside; the status that the API server holds is kept
-- beside it.
use Prim.Native.String.{◌++◌}
use gardener_extension_provi.Base.{String, Bool, true, false, Option, none, some, if◌then◌else◌}
use gardener_extension_provi.Infra.State.{NsxtInfraState}
use gardener_extension_provi.Infra.Action.{Error, wrapped, Result, ok, err, panic, exhausted}
use gardener_extension_provi.Infra.Context.{Context}
use gardener_extension_provi.Infra.Ensurer.{
  ensure_infrastructure, ensure_infrastructure_deleted, new_state_with_version,
}
use gardener_extension_provi.Actuator.{Inputs, PreparedReconcile, NsxtConfig, prepare_reconcile}
use gardener_extension_provi.Actuator.Status.{
  InfrastructureStatus, make_provider_infrastructure_status, get_default_load_balancer_ip_pool_name,
}

pub record Cluster (W : Type 0) : Type 0 where
  pub world : W
  -- the provider status of the infrastructure
  pub status : Option InfrastructureStatus

pub record DestroyState : Type 0 where
  pub cluster_name : String
  pub owner : String
  pub default_ip_pool_name : String

-- What the actuator calls besides the ensurer: the check of the connection, the patch of the status,
-- which answers an error or none, and the deletion of left load balancers.
pub record Calls (W : Type 0) : Type 0 where
  pub check_connection : Context W → W → Result (Unit {0}) × W
  pub patch_status : InfrastructureStatus → W → Option Error × W
  pub destroy_all : NsxtConfig → DestroyState → W → Option Error × W

abbrev pub prepared_of : {C : Type 0} → Result (PreparedReconcile C) → Option (PreparedReconcile C)
prepared_of (ok p) = some p
prepared_of _ = none

-- `err == nil`
abbrev pub succeeded : {A : Type 0} → Result A → Bool
succeeded (ok a) = true
succeeded _ = false

-- `creationStarted != nil && *creationStarted`
abbrev pub has_started : Option Bool → Bool
has_started none = false
has_started (some b) = b

-- `getInfrastructureState`: the state and the mark, of a status that the decoder reads.
abbrev pub stored_state : Option InfrastructureStatus → Option NsxtInfraState
stored_state none = none
stored_state (some status) = status.nsxt_infra_state

abbrev pub stored_mark : Option InfrastructureStatus → Option Bool
stored_mark none = none
stored_mark (some status) = status.creation_started

module _ {W : Type 0} (calls : Calls W) where
  abbrev pub patched :
      InfrastructureStatus → Cluster W → Option Error × W → Result (Unit {0}) × Cluster W
  patched status cluster (none, w) = (ok tt, record { world = w; status = some status })
  patched status cluster (some e, w) = (err e, record { world = w; status = cluster.status })

  unfoldable pub do_update_provider_status :
      Result InfrastructureStatus → Cluster W → Result (Unit {0}) × Cluster W
  do_update_provider_status (ok status) cluster =
      patched status cluster (calls.patch_status status cluster.world)
  do_update_provider_status (err e) cluster = (err e, cluster)
  do_update_provider_status panic cluster = (panic, cluster)
  do_update_provider_status exhausted cluster = (exhausted, cluster)

  unfoldable pub update_provider_status :
      Option NsxtInfraState
      → Option (PreparedReconcile (Context W))
      → Option Bool
      → Cluster W
      → Result (Unit {0}) × Cluster W
  unfolding do_update_provider_status
  update_provider_status state prepared started cluster =
      do_update_provider_status (make_provider_infrastructure_status state prepared started) cluster

  abbrev pub checked_connection :
      Result (PreparedReconcile (Context W)) → W → Result (PreparedReconcile (Context W)) × W
  checked_connection (ok p) w =
      let (answer, w') = calls.check_connection p.ensurer w in
      (elim answer [ ok u ↦ ok p | err e ↦ err e | panic ↦ panic | exhausted ↦ exhausted ], w')
  checked_connection (err e) w = (err e, w)
  checked_connection panic w = (panic, w)
  checked_connection exhausted w = (exhausted, w)

  abbrev pub save_early :
      Option NsxtInfraState
      → Option (PreparedReconcile (Context W))
      → Result (PreparedReconcile (Context W)) × W
      → Option InfrastructureStatus
      → (Option Bool × Result (Unit {0})) × Cluster W
  save_early state prepared (panic, w) old = ((none, panic), record { world = w; status = old })
  save_early state prepared (exhausted, w) old =
      ((none, exhausted), record { world = w; status = old })
  save_early state prepared (ok p, w) old =
      let (updated, cluster) =
        update_provider_status state prepared (some true) (record { world = w; status = old }) in
      ((some true, updated), cluster)
  save_early state prepared (err e, w) old =
      let (updated, cluster) =
        update_provider_status state prepared (some false) (record { world = w; status = old }) in
      ((some false, err e), cluster)

  -- The mark that creation started, with the early update of the status where it is not set.
  unfoldable pub begin_creation :
      Option NsxtInfraState
      → Option Bool
      → Result (PreparedReconcile (Context W))
      → Cluster W
      → (Option Bool × Result (Unit {0})) × Cluster W
  unfolding update_provider_status
  begin_creation state started prepared cluster =
      if has_started started
      then ((started, ok tt), cluster)
      else save_early state (prepared_of prepared) (checked_connection prepared cluster.world)
          cluster.status

  -- The state, made on the first run.
  abbrev pub known_state :
      PreparedReconcile (Context W) → Option NsxtInfraState → W → Result NsxtInfraState × W
  known_state p (some state) w = (ok state, w)
  known_state p none w =
      let (made, w') =
        new_state_with_version p.ensurer p.infra_config.overwrite_nsxt_infra_version w in
      (
        elim made [
          | ok state ↦ ok state
          | err e ↦ err (wrapped "NewStateWithVersion failed" e)
          | panic ↦ panic
          | exhausted ↦ exhausted
        ],
        w',
      )

  -- After the ensurer has run the status is updated with the state as it left it, also on an error.
  unfoldable pub save_after :
      PreparedReconcile (Context W)
      → Option Bool
      → Option InfrastructureStatus
      → Result (Unit {0}) × W × NsxtInfraState
      → Result (Unit {0}) × Cluster W
  unfolding update_provider_status
  save_after p started old (panic, w, state) = (panic, record { world = w; status = old })
  save_after p started old (exhausted, w, state) = (exhausted, record { world = w; status = old })
  save_after p started old (ok u, w, state) =
      update_provider_status (some state) (some p) started (record { world = w; status = old })
  save_after p started old (err e, w, state) =
      let (updated, cluster) =
        update_provider_status (some state) (some p) started (record { world = w; status = old }) in
      (err e, cluster)

  unfoldable pub ensure_known :
      PreparedReconcile (Context W)
      → Option Bool
      → Option InfrastructureStatus
      → Result NsxtInfraState × W
      → Result (Unit {0}) × Cluster W
  unfolding save_after
  ensure_known p started old (ok state, w) =
      save_after p started old (ensure_infrastructure p.ensurer p.spec w state)
  ensure_known p started old (err e, w) = (err e, record { world = w; status = old })
  ensure_known p started old (panic, w) = (panic, record { world = w; status = old })
  ensure_known p started old (exhausted, w) = (exhausted, record { world = w; status = old })

  unfoldable pub run_prepared :
      Option NsxtInfraState
      → Result (PreparedReconcile (Context W))
      → (Option Bool × Result (Unit {0})) × Cluster W
      → Result (Unit {0}) × Cluster W
  unfolding ensure_known
  run_prepared state (ok p) ((started, ok u), cluster) =
      ensure_known p started cluster.status (known_state p state cluster.world)
  run_prepared state (err e) ((started, ok u), cluster) = (err e, cluster)
  run_prepared state panic (started, cluster) = (panic, cluster)
  run_prepared state exhausted (started, cluster) = (exhausted, cluster)
  run_prepared state prepared ((started, failure), cluster) = (failure, cluster)

  unfoldable pub reconcile : Inputs (Context W) → Cluster W → Result (Unit {0}) × Cluster W
  unfolding run_prepared begin_creation
  reconcile inputs cluster =
      let state = stored_state cluster.status in
      let prepared = prepare_reconcile inputs in
      run_prepared state prepared
        (begin_creation state (stored_mark cluster.status) prepared cluster)

  -- The clean-up of load balancers, whose failure is only logged.
  abbrev pub clean_up : Inputs (Context W) → PreparedReconcile (Context W) → W → W
  clean_up inputs p w =
      elim (get_default_load_balancer_ip_pool_name
        p.cloud_profile_config.load_balancer_config.classes) [
          | ok pool ↦
              (calls.destroy_all p.nsxt_config
                (record {
                  cluster_name = inputs.cluster_name ++ ("-" ++ inputs.garden_id);
                  owner = inputs.garden_id;
                  default_ip_pool_name = pool;
                })
                w).1
          | _ ↦ w
        ]

  unfoldable pub delete_prepared :
      Inputs (Context W)
      → NsxtInfraState
      → Option Bool
      → Result (PreparedReconcile (Context W))
      → Cluster W
      → Result (Unit {0}) × Cluster W
  unfolding save_after
  delete_prepared inputs state started (ok p) cluster = save_after p started cluster.status (
      ensure_infrastructure_deleted p.ensurer (some p.spec) (clean_up inputs p cluster.world) state)
  delete_prepared inputs state started (err e) cluster = (err e, cluster)
  delete_prepared inputs state started panic cluster = (panic, cluster)
  delete_prepared inputs state started exhausted cluster = (exhausted, cluster)

  -- Without a state, or where creation has not started, there is nothing to do.
  unfoldable pub delete_stored :
      Inputs (Context W)
      → Option NsxtInfraState
      → Option Bool
      → Cluster W
      → Result (Unit {0}) × Cluster W
  unfolding delete_prepared
  delete_stored inputs none started cluster = (ok tt, cluster)
  delete_stored inputs (some state) started cluster =
      if has_started started
      then delete_prepared inputs state started (prepare_reconcile inputs) cluster
      else (ok tt, cluster)

  unfoldable pub delete_infrastructure :
      Inputs (Context W) → Cluster W → Result (Unit {0}) × Cluster W
  unfolding delete_stored
  delete_infrastructure inputs cluster =
      delete_stored inputs (stored_state cluster.status) (stored_mark cluster.status) cluster
