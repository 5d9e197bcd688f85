-- ===== src/Actuator/Persist.antt =====
-- What the status keeps over the runs of the actuator.
use gardener_extension_provi.Base.{
  Bool, true, false, Option, none, some, ◌≡◌, ◌⊎◌, refl, sym, ap, arith, inl, inr, Bool-cases,
}
use gardener_extension_provi.Infra.State.{NsxtInfraState}
use gardener_extension_provi.Infra.Action.{Error, Result, ok, err, panic, exhausted}
use gardener_extension_provi.Infra.Context.{Context}
use gardener_extension_provi.Infra.Ensurer.{ensure_infrastructure, ensure_infrastructure_deleted}
use gardener_extension_provi.Actuator.{Inputs, PreparedReconcile, prepare_reconcile}
use gardener_extension_provi.Actuator.Status.{
  InfrastructureStatus, make_provider_infrastructure_status,
}
use gardener_extension_provi.Actuator.Run.{
  Cluster, Calls, patched, do_update_provider_status, update_provider_status, prepared_of,
  checked_connection, has_started, save_early, begin_creation, known_state, save_after,
  ensure_known, run_prepared, stored_state, stored_mark, reconcile, delete_prepared, delete_stored,
  delete_infrastructure, clean_up,
}

-- A state goes with the mark that creation started.
abbrev pub Marks : Option NsxtInfraState → Option Bool → Type 0
Marks state started = (state ≡ none) ⊎ (has_started started ≡ true)

abbrev pub IsMarked : Option InfrastructureStatus → Type 0
IsMarked status = Marks (stored_state status) (stored_mark status)

pub made-fields :
    {C : Type 0} (state : Option NsxtInfraState) (prepared : Option (PreparedReconcile C))
    (started : Option Bool) {status : InfrastructureStatus}
    → make_provider_infrastructure_status state prepared started ≡ ok status
    → (status.nsxt_infra_state ≡ state) × (status.creation_started ≡ started)
unfolding make_provider_infrastructure_status
made-fields state prepared started h = ground arith

module _ {W : Type 0} (calls : Calls W) where
  -- What holds of the status before a patch and of the status patched holds after it.
  patched-keeps :
      (P : Option InfrastructureStatus → Type 0) (status : InfrastructureStatus)
      (cluster : Cluster W) (answer : Option Error × W)
      → P (some status)
      → P cluster.status
      → P (patched calls status cluster answer).1.status
  patched-keeps P status cluster (none, w) m h = m
  patched-keeps P status cluster (some e, w) m h = h

  pub do_update_provider_status-keeps :
      (P : Option InfrastructureStatus → Type 0) (made : Result InfrastructureStatus)
      (cluster : Cluster W)
      → ((status : InfrastructureStatus) → made ≡ ok status → P (some status))
      → P cluster.status
      → P (do_update_provider_status calls made cluster).1.status
  unfolding do_update_provider_status
  do_update_provider_status-keeps P (ok status) cluster m h =
      patched-keeps P status cluster (calls.patch_status status cluster.world) (m status refl) h
  do_update_provider_status-keeps P (err e) cluster m h = h
  do_update_provider_status-keeps P panic cluster m h = h
  do_update_provider_status-keeps P exhausted cluster m h = h

  update-IsMarked :
      (state : Option NsxtInfraState) (prepared : Option (PreparedReconcile (Context W)))
      (started : Option Bool) (cluster : Cluster W)
      → Marks state started
      → IsMarked cluster.status
      → IsMarked (update_provider_status calls state prepared started cluster).1.status
  unfolding update_provider_status
  update-IsMarked state prepared started cluster m h =
      do_update_provider_status-keeps IsMarked
        (make_provider_infrastructure_status state prepared started) cluster
        (λ status e. let (e1, e2) = made-fields state prepared started e in rw e1 (rw e2 m)) h

  save_early-IsMarked :
      (state : Option NsxtInfraState) (prepared : Option (PreparedReconcile (Context W)))
      (checked : Result (PreparedReconcile (Context W)) × W) (old : Option InfrastructureStatus)
      → state ≡ none
      → IsMarked old
      → IsMarked (save_early calls state prepared checked old).1.status
  save_early-IsMarked state prepared (ok p, w) old e h =
      update-IsMarked state prepared (some true) (record { world = w; status = old }) (inl e) h
  save_early-IsMarked state prepared (err x, w) old e h =
      update-IsMarked state prepared (some false) (record { world = w; status = old }) (inl e) h
  save_early-IsMarked state prepared (panic, w) old e h = h
  save_early-IsMarked state prepared (exhausted, w) old e h = h

  -- The mark that the run goes on with is set.
  save_early-has_started :
      (state : Option NsxtInfraState) (prepared : Option (PreparedReconcile (Context W)))
      (checked : Result (PreparedReconcile (Context W)) × W) (old : Option InfrastructureStatus)
      (started : Option Bool)
      → (save_early calls state prepared checked old).0 ≡ (started, ok tt)
      → has_started started ≡ true
  save_early-has_started state prepared (ok p, w) old started h =
      let e = ap (λ r. r.0) h in rw (sym e) refl
  save_early-has_started state prepared (err x, w) old started h =
      let e = ap (λ r. r.1) h in absurd (ground arith)
  save_early-has_started state prepared (panic, w) old started h =
      let e = ap (λ r. r.1) h in absurd (ground arith)
  save_early-has_started state prepared (exhausted, w) old started h =
      let e = ap (λ r. r.1) h in absurd (ground arith)

  save_after-IsMarked :
      (p : PreparedReconcile (Context W)) (started : Option Bool)
      (old : Option InfrastructureStatus) (outcome : Result (Unit {0}) × W × NsxtInfraState)
      → has_started started ≡ true
      → IsMarked old
      → IsMarked (save_after calls p started old outcome).1.status
  unfolding save_after
  save_after-IsMarked p started old (ok u, w, state) e h =
      update-IsMarked (some state) (some p) started (record { world = w; status = old }) (inr e) h
  save_after-IsMarked p started old (err x, w, state) e h =
      update-IsMarked (some state) (some p) started (record { world = w; status = old }) (inr e) h
  save_after-IsMarked p started old (panic, w, state) e h = h
  save_after-IsMarked p started old (exhausted, w, state) e h = h

  ensure_known-IsMarked :
      (p : PreparedReconcile (Context W)) (started : Option Bool)
      (old : Option InfrastructureStatus) (known : Result NsxtInfraState × W)
      → has_started started ≡ true
      → IsMarked old
      → IsMarked (ensure_known calls p started old known).1.status
  unfolding ensure_known
  ensure_known-IsMarked p started old (ok state, w) e h =
      save_after-IsMarked p started old (ensure_infrastructure p.ensurer p.spec w state) e h
  ensure_known-IsMarked p started old (err x, w) e h = h
  ensure_known-IsMarked p started old (panic, w) e h = h
  ensure_known-IsMarked p started old (exhausted, w) e h = h

  run_prepared-IsMarked :
      (state : Option NsxtInfraState) (prepared : Result (PreparedReconcile (Context W)))
      (begun : (Option Bool × Result (Unit {0})) × Cluster W)
      → ((started : Option Bool) → begun.0 ≡ (started, ok tt) → has_started started ≡ true)
      → IsMarked begun.1.status
      → IsMarked (run_prepared calls state prepared begun).1.status
  unfolding run_prepared
  run_prepared-IsMarked state (ok p) ((started, ok u), cluster) k h =
      ensure_known-IsMarked p started cluster.status (known_state calls p state cluster.world)
        (k started refl) h
  run_prepared-IsMarked state (ok p) ((started, err e), cluster) k h = h
  run_prepared-IsMarked state (ok p) ((started, panic), cluster) k h = h
  run_prepared-IsMarked state (ok p) ((started, exhausted), cluster) k h = h
  run_prepared-IsMarked state (err e) ((started, ok u), cluster) k h = h
  run_prepared-IsMarked state (err e) ((started, err x), cluster) k h = h
  run_prepared-IsMarked state (err e) ((started, panic), cluster) k h = h
  run_prepared-IsMarked state (err e) ((started, exhausted), cluster) k h = h
  run_prepared-IsMarked state panic (started, cluster) k h = h
  run_prepared-IsMarked state exhausted (started, cluster) k h = h

  pub begin_creation-started :
      (state : Option NsxtInfraState) (mark : Option Bool)
      (prepared : Result (PreparedReconcile (Context W))) (cluster : Cluster W)
      → has_started mark ≡ true
      → begin_creation calls state mark prepared cluster ≡ ((mark, ok tt), cluster)
  unfolding begin_creation
  begin_creation-started state mark prepared cluster e = rw e refl

  pub begin_creation-early :
      (state : Option NsxtInfraState) (mark : Option Bool)
      (prepared : Result (PreparedReconcile (Context W))) (cluster : Cluster W)
      → has_started mark ≡ false
      → begin_creation calls state mark prepared cluster
        ≡ save_early calls state
            (prepared_of prepared)
            (checked_connection calls prepared cluster.world)
            cluster.status
  unfolding begin_creation
  begin_creation-early state mark prepared cluster e = rw e refl

  no_state :
      (state : Option NsxtInfraState) (mark : Option Bool)
      → Marks state mark
      → has_started mark ≡ false
      → state ≡ none
  no_state state mark (inl e) f = e
  no_state state mark (inr e) f = absurd (ground arith)

  pub reconcile-IsMarked :
      (inputs : Inputs (Context W)) (cluster : Cluster W)
      → IsMarked cluster.status
      → IsMarked (reconcile calls inputs cluster).1.status
  unfolding reconcile
  reconcile-IsMarked inputs cluster h =
      let state = stored_state cluster.status in
      let mark = stored_mark cluster.status in
      let prepared = prepare_reconcile inputs in
      let checked = checked_connection calls prepared cluster.world in
      elim (Bool-cases (has_started mark)) [
        | inl e ↦ rw (begin_creation-started state mark prepared cluster e) (
            run_prepared-IsMarked state prepared ((mark, ok tt), cluster)
              (λ started q. let e1 = ap (λ r. r.0) q in rw (sym e1) e) h)
        | inr e ↦ rw (begin_creation-early state mark prepared cluster e) (
            run_prepared-IsMarked state prepared
              (save_early calls state (prepared_of prepared) checked cluster.status)
              (save_early-has_started state (prepared_of prepared) checked cluster.status)
              (save_early-IsMarked state (prepared_of prepared) checked cluster.status
                (no_state state mark h e) h))
      ]

  delete_prepared-IsMarked :
      (inputs : Inputs (Context W)) (state : NsxtInfraState) (started : Option Bool)
      (prepared : Result (PreparedReconcile (Context W))) (cluster : Cluster W)
      → has_started started ≡ true
      → IsMarked cluster.status
      → IsMarked (delete_prepared calls inputs state started prepared cluster).1.status
  unfolding delete_prepared
  delete_prepared-IsMarked inputs state started (ok p) cluster e h =
      save_after-IsMarked p started cluster.status
        (ensure_infrastructure_deleted p.ensurer (some p.spec)
          (clean_up calls inputs p cluster.world) state)
        e h
  delete_prepared-IsMarked inputs state started (err x) cluster e h = h
  delete_prepared-IsMarked inputs state started panic cluster e h = h
  delete_prepared-IsMarked inputs state started exhausted cluster e h = h

  delete_stored-IsMarked :
      (inputs : Inputs (Context W)) (state : Option NsxtInfraState) (started : Option Bool)
      (cluster : Cluster W)
      → IsMarked cluster.status
      → IsMarked (delete_stored calls inputs state started cluster).1.status
  unfolding delete_stored
  delete_stored-IsMarked inputs none started cluster h = h
  delete_stored-IsMarked inputs (some state) started cluster h =
      elim (Bool-cases (has_started started)) [
        | inl e ↦
            rw e
              (delete_prepared-IsMarked inputs state started (prepare_reconcile inputs) cluster e h)
        | inr e ↦ rw e h
      ]

  pub delete_infrastructure-IsMarked :
      (inputs : Inputs (Context W)) (cluster : Cluster W)
      → IsMarked cluster.status
      → IsMarked (delete_infrastructure calls inputs cluster).1.status
  unfolding delete_infrastructure
  delete_infrastructure-IsMarked inputs cluster h =
      delete_stored-IsMarked inputs (stored_state cluster.status) (stored_mark cluster.status)
        cluster h
