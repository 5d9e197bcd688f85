-- ===== src/Actuator/Life.antt =====
-- The life of an infrastructure, as the actuator runs on it.
use gardener_extension_provi.Base.{none, refl, inl}
use gardener_extension_provi.Infra.Context.{Context}
use gardener_extension_provi.Actuator.{Inputs}
use gardener_extension_provi.Actuator.Run.{Cluster, Calls, reconcile, delete_infrastructure}
use gardener_extension_provi.Actuator.Persist.{
  IsMarked, reconcile-IsMarked, delete_infrastructure-IsMarked,
}

-- A life of an infrastructure: reconciliations and deletions in any order, between which the world
-- changes at will; the status is written by the runs only.
pub data Life {W : Type 0} (calls : Calls W) : Cluster W → Type 0 where
  fresh : (w : W) → Life calls (record { world = w; status = none })
  drifted :
      {cluster : Cluster W} (w : W) → Life calls cluster → Life calls (record cluster { world = w })
  reconciled :
      {cluster : Cluster W} (inputs : Inputs (Context W))
      → Life calls cluster
      → Life calls (reconcile calls inputs cluster).1
  deleted :
      {cluster : Cluster W} (inputs : Inputs (Context W))
      → Life calls cluster
      → Life calls (delete_infrastructure calls inputs cluster).1

-- At any time of an infrastructure's life, a status that holds a state of NSX-T also holds the mark that creation has started, so that a deletion does not pass over the state.
pub Life-IsMarked :
    {W : Type 0} (calls : Calls W) (cluster : Cluster W)
    → Life calls cluster
    → IsMarked cluster.status
Life-IsMarked calls cluster (fresh w) = inl refl
Life-IsMarked calls _ (drifted {cluster} w life) = Life-IsMarked calls cluster life
Life-IsMarked calls _ (reconciled {cluster} inputs life) =
    reconcile-IsMarked calls inputs cluster (Life-IsMarked calls cluster life)
Life-IsMarked calls _ (deleted {cluster} inputs life) =
    delete_infrastructure-IsMarked calls inputs cluster (Life-IsMarked calls cluster life)
