-- ===== src/Actuator/Outcome.antt =====
-- What a run leaves in the status, and what a later deletion makes of it.
use gardener_extension_provi.Base.{
  Bool, true, false, Option, none, some, ◌≡◌, ◌⊎◌, refl, ◌∙◌, ap, inl, inr,
}
use gardener_extension_provi.Infra.State.{NsxtInfraState}
use gardener_extension_provi.Infra.Action.{Error, Result, ok, err, panic, exhausted}
use gardener_extension_provi.Infra.Context.{Context}
use gardener_extension_provi.Infra.Ensurer.{ensure_infrastructure}
use gardener_extension_provi.Actuator.{Inputs, PreparedReconcile, prepare_reconcile}
use gardener_extension_provi.Actuator.Status.{
  InfrastructureStatus, make_provider_infrastructure_status,
}
use gardener_extension_provi.Actuator.Prepared.{prepared-make_provider_infrastructure_status}
use gardener_extension_provi.Actuator.Run.{
  Cluster, Calls, patched, do_update_provider_status, update_provider_status, prepared_of,
  checked_connection, has_started, save_early, save_after, ensure_known, run_prepared, stored_state,
  stored_mark, known_state, reconcile, delete_stored, delete_infrastructure,
}
use gardener_extension_provi.Actuator.Persist.{
  do_update_provider_status-keeps, begin_creation-started, begin_creation-early, made-fields,
}

-- The API server takes every patch of the status.
abbrev pub TakesPatches : {W : Type 0} → Calls W → Type 0
TakesPatches {W} calls =
    (status : InfrastructureStatus) (w : W) → (calls.patch_status status w).0 ≡ none

-- The ensurer came back, with or without an error.
abbrev pub CameBack : Result (Unit {0}) → Type 0
CameBack r = (r ≡ ok tt) ⊎ ((e : Error) × (r ≡ err e))

abbrev NotStarted : Option InfrastructureStatus → Type 0
NotStarted status = has_started (stored_mark status) ≡ false

module _ {W : Type 0} (calls : Calls W) where
  update-taken :
      (state : Option NsxtInfraState) (p : PreparedReconcile (Context W)) (started : Option Bool)
      (cluster : Cluster W) {status : InfrastructureStatus}
      → TakesPatches calls
      → make_provider_infrastructure_status state (some p) started ≡ ok status
      → ((update_provider_status calls state (some p) started cluster).0 ≡ ok tt)
        × ((update_provider_status calls state (some p) started cluster).1.status ≡ some status)
  unfolding update_provider_status do_update_provider_status
  update-taken state p started cluster {status} takes e =
      let t = takes status cluster.world in
      rw e (taken status cluster (calls.patch_status status cluster.world) t)
    where
      taken :
          (status : InfrastructureStatus) (cluster : Cluster W) (answer : Option Error × W)
          → answer.0 ≡ none
          → ((patched calls status cluster answer).0 ≡ ok tt)
            × ((patched calls status cluster answer).1.status ≡ some status)
      taken status cluster (none, w) h = (refl, refl)
      taken status cluster (some x, w) h = cc

  save_after-taken :
      (inputs : Inputs (Context W)) (p : PreparedReconcile (Context W)) (started : Option Bool)
      (old : Option InfrastructureStatus) (r : Result (Unit {0})) (w : W) (state : NsxtInfraState)
      → TakesPatches calls
      → prepare_reconcile inputs ≡ ok p
      → CameBack r
      → ((save_after calls p started old (r, w, state)).0 ≡ r)
        × (stored_state (save_after calls p started old (r, w, state)).1.status ≡ some state)
  unfolding save_after
  save_after-taken inputs p started old r w state takes h back =
      let (status, e1, e2, e3, keys) =
        prepared-make_provider_infrastructure_status inputs p (some state) started h in
      let (r1, r2) =
        update-taken (some state) p started (record { world = w; status = old }) takes e1 in
      elim back [
        | inl e ↦ rw e (r1, ap stored_state r2 ∙ e2)
        | inr (x, e) ↦ rw e (refl, ap stored_state r2 ∙ e2)
      ]

  -- Let the API server take patches, the run be prepared, the mark be stored that creation has started, and the state be known, which is the stored one or, where none is stored, one that is made anew without an error. Where EnsureInfrastructure then comes back, with or without an error, the reconciliation answers what it answers, and the stored state is what it leaves, also where it fails.
  pub reconcile-saves_state :
      (inputs : Inputs (Context W)) (p : PreparedReconcile (Context W)) (cluster : Cluster W)
      (r : Result (Unit {0})) (w0 w : W) (state after : NsxtInfraState)
      → TakesPatches calls
      → prepare_reconcile inputs ≡ ok p
      → has_started (stored_mark cluster.status) ≡ true
      → known_state calls p (stored_state cluster.status) cluster.world ≡ (ok state, w0)
      → ensure_infrastructure p.ensurer p.spec w0 state ≡ (r, w, after)
      → CameBack r
      → ((reconcile calls inputs cluster).0 ≡ r)
        × (stored_state (reconcile calls inputs cluster).1.status ≡ some after)
  unfolding reconcile run_prepared ensure_known
  reconcile-saves_state inputs p cluster r w0 w state after takes h mark known ran back =
      let saved =
        save_after-taken inputs p (stored_mark cluster.status) cluster.status r w after takes h
          back in
      rw
        (begin_creation-started calls (stored_state cluster.status) (stored_mark cluster.status)
          (prepare_reconcile inputs) cluster mark)
        (rw h (rw known (rw ran saved)))

  update-NotStarted :
      (state : Option NsxtInfraState) (prepared : Option (PreparedReconcile (Context W)))
      (cluster : Cluster W)
      → NotStarted cluster.status
      → NotStarted (update_provider_status calls state prepared (some false) cluster).1.status
  unfolding update_provider_status
  update-NotStarted state prepared cluster h =
      do_update_provider_status-keeps calls NotStarted
        (make_provider_infrastructure_status state prepared (some false)) cluster
        (λ status e. let (e1, e2) = made-fields state prepared (some false) e in rw e2 refl) h

  save_early-refused :
      (state : Option NsxtInfraState) (prepared : Option (PreparedReconcile (Context W)))
      (checked : Result (PreparedReconcile (Context W)) × W) (old : Option InfrastructureStatus)
      (e : Error)
      → checked.0 ≡ err e
      → NotStarted old
      → ((save_early calls state prepared checked old).0 ≡ (some false, err e))
        × NotStarted (save_early calls state prepared checked old).1.status
  save_early-refused state prepared (ok p, w) old e h m = cc
  save_early-refused state prepared (err x, w) old e h m =
      (cc, update-NotStarted state prepared (record { world = w; status = old }) m)
  save_early-refused state prepared (panic, w) old e h m = cc
  save_early-refused state prepared (exhausted, w) old e h m = cc

  run_prepared-refused :
      (state : Option NsxtInfraState) (prepared : Result (PreparedReconcile (Context W)))
      (begun : (Option Bool × Result (Unit {0})) × Cluster W) (w : W) (e : Error)
      → (checked_connection calls prepared w).0 ≡ err e
      → begun.0 ≡ (some false, err e)
      → run_prepared calls state prepared begun ≡ (err e, begun.1)
  unfolding run_prepared
  run_prepared-refused state (ok p) ((started, failure), cluster) w e h b =
      let q = ap (λ r. r.1) b in rw q refl
  run_prepared-refused state (err x) ((started, failure), cluster) w e h b =
      let q = ap (λ r. r.1) b in rw q refl
  run_prepared-refused state panic begun w e h b = cc
  run_prepared-refused state exhausted begun w e h b = cc

  delete_infrastructure-NotStarted :
      (inputs : Inputs (Context W)) (cluster : Cluster W)
      → NotStarted cluster.status
      → delete_infrastructure calls inputs cluster ≡ (ok tt, cluster)
  unfolding delete_infrastructure delete_stored
  delete_infrastructure-NotStarted inputs cluster h =
      delete_stored-NotStarted (stored_state cluster.status) (stored_mark cluster.status) h
    where
      delete_stored-NotStarted :
          (state : Option NsxtInfraState) (started : Option Bool)
          → has_started started ≡ false
          → delete_stored calls inputs state started cluster ≡ (ok tt, cluster)
      delete_stored-NotStarted none started h = refl
      delete_stored-NotStarted (some state) started h = rw h refl

  -- Where creation has not started and the run is not prepared or the connection is refused, the reconciliation answers that error, and a deletion after it succeeds and does nothing.
  pub refused-delete_infrastructure :
      (inputs inputs' : Inputs (Context W)) (cluster : Cluster W) (e : Error)
      → has_started (stored_mark cluster.status) ≡ false
      → (checked_connection calls (prepare_reconcile inputs) cluster.world).0 ≡ err e
      → ((reconcile calls inputs cluster).0 ≡ err e)
        × (delete_infrastructure calls inputs' (reconcile calls inputs cluster).1
            ≡ (ok tt, (reconcile calls inputs cluster).1))
  unfolding reconcile
  refused-delete_infrastructure inputs inputs' cluster e mark refused =
      let state = stored_state cluster.status in
      let prepared = prepare_reconcile inputs in
      let checked = checked_connection calls prepared cluster.world in
      let begun = save_early calls state (prepared_of prepared) checked cluster.status in
      let (answered, not_started) =
        save_early-refused state (prepared_of prepared) checked cluster.status e refused mark in
      rw (begin_creation-early calls state (stored_mark cluster.status) prepared cluster mark) (
        rw (run_prepared-refused state prepared begun cluster.world e refused answered)
          (refl, delete_infrastructure-NotStarted inputs' begun.1 not_started))
