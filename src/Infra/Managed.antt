-- ===== src/Infra/Managed.antt =====
-- The shape that the tasks on the manager ("Advanced") API share, with the HTTP status codes that
-- they check (task/tasks_advanced_dhcp.go). Second calls of `t.Ensure` on a cleared id are written
-- as what they come to: the creation.
use gardener_extension_provi.Base.{
  String, Bool, true, false, not, ◌||◌, List, Option, none, some, ◌==◌, find, if◌then◌else◌,
}
use gardener_extension_provi.Tags.{Tag, contains_common_tags, merge_common_tags}
use gardener_extension_provi.Infra.State.{NsxtInfraState}
use gardener_extension_provi.Infra.Service.{Reply, answered, refused, Identified}
use gardener_extension_provi.Infra.Action.{
  api, reading, updating, creating, updating_status, creating_status, Action, ActionName, created,
  updated, unchanged, pure, fail, gets, call, modify, ◌>>=◌, ◌>>◌,
}

pub record Managed (W O : Type 0) : Type 0 where
  pub ref : NsxtInfraState → Option String
  pub set : Option String → NsxtInfraState → NsxtInfraState
  pub read : String → W → Reply O × W
  pub update : String → O → W → Reply (Unit {0}) × W
  pub create : O → W → Reply (Identified O) × W
  pub delete : String → W → Reply (Unit {0}) × W
  pub differs : O → O → Bool
  pub tags : O → List Tag
  pub with_tags : O → List Tag → O

-- `resp != nil && resp.StatusCode == http.StatusNotFound`
abbrev pub is_gone : {A : Type 0} → Reply A → Bool
is_gone (answered status a) = status == 404
is_gone (refused none e) = false
is_gone (refused (some status) e) = status == 404

module _ {W O : Type 0} (m : Managed W O) where
  unfoldable pub on_created : Reply (Identified O) → Action W ActionName
  on_created (refused status e) = fail (creating e)
  on_created (answered status item) =
      if status == 201
      then modify (m.set (some item.id)) >> pure created
      else fail (creating_status status)

  unfoldable pub create_managed : O → Action W ActionName
  unfolding on_created
  create_managed desired = do reply ← call (m.create desired); on_created reply

  unfoldable pub on_updated : Reply (Unit {0}) → Action W ActionName
  on_updated (refused status e) = fail (updating e)
  on_updated (answered status u) =
      if status == 200 then pure updated else fail (updating_status status)

  unfoldable pub refresh_managed : O → String → O → Action W ActionName
  unfolding on_updated
  refresh_managed desired id old =
      if m.differs old desired || not (contains_common_tags (m.tags old) (m.tags desired))
      then call
          (m.update id (m.with_tags desired (merge_common_tags (m.tags desired) (m.tags old))))
        >>= on_updated
      else pure unchanged

  unfoldable pub on_reply : O → String → Reply O → Action W ActionName
  unfolding refresh_managed
  on_reply desired id (refused status e) = fail (reading e)
  on_reply desired id (answered status old) = refresh_managed desired id old

  unfoldable pub on_id : O → Option String → Action W ActionName
  unfolding on_reply create_managed
  on_id desired none = create_managed desired
  on_id desired (some id) = do
    reply ← call (m.read id)
    if is_gone reply
        then modify (m.set none) >> create_managed desired
        else on_reply desired id reply

  unfoldable pub ensure_managed : O → Action W ActionName
  unfolding on_id
  ensure_managed desired = do id ← gets m.ref; on_id desired id

  -- What is gone already counts as not deleted.
  unfoldable pub on_deleted : Reply (Unit {0}) → Action W Bool
  on_deleted (answered status u) =
      if status == 404 then modify (m.set none) >> pure false else modify (m.set none) >> pure true
  on_deleted (refused status e) =
      if is_gone {A = Unit {0}} (refused status e)
      then modify (m.set none) >> pure false
      else fail (api e)

  unfoldable pub delete_id : Option String → Action W Bool
  unfolding on_deleted
  delete_id none = pure false
  delete_id (some id) = do reply ← call (m.delete id); on_deleted reply

  unfoldable pub delete_managed : Action W Bool
  unfolding delete_id
  delete_managed = do id ← gets m.ref; delete_id id

  unfoldable pub recover_from : List Tag → Reply (List (Identified O)) → Action W Bool
  recover_from tags (refused status e) = pure false
  recover_from tags (answered status items) =
      if status == 200
      then elim (find (λ item. contains_common_tags (m.tags item.object) tags) items) [
        | none ↦ pure false
        | some item ↦ modify (m.set (some item.id)) >> pure true
      ]
      else pure false

  unfoldable pub recover_managed : (W → Reply (List (Identified O)) × W) → List Tag → Action W Bool
  unfolding recover_from
  recover_managed list tags = do reply ← call list; recover_from tags reply
