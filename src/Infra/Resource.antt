-- ===== src/Infra/Resource.antt =====
-- The shape that most tasks share: an object that is created, found by the reference in the state,
-- updated where it differs, and recreated where it is gone.
-- Second calls of `t.Ensure` on a cleared reference are written as what they come to: the creation.
use Prim.Native.String.{◌++◌}
use gardener_extension_provi.Base.{
  String, Bool, true, false, not, ◌||◌, List, Option, none, some, if◌then◌else◌,
}
use gardener_extension_provi.Tags.{Tag, contains_tags, merge_tags}
use gardener_extension_provi.Infra.State.{Reference, NsxtInfraState}
use gardener_extension_provi.Infra.Service.{Answer, got, failed, Stored}
use gardener_extension_provi.Infra.Lookup.{api}
use gardener_extension_provi.Infra.Action.{
  ApiError, not_found, other, Error, reading, updating, creating, ok, Action, ActionName, created,
  updated, unchanged, pure, fail, gets, call, modify, ◌>>=◌, ◌>>◌,
}

abbrev pub is_not_found : ApiError → Bool
is_not_found (not_found _) = true
is_not_found (other _) = false

-- `generateID`
unfoldable pub generate_id : {W : Type 0} → (W → String × W) → String → Action W String
generate_id uuid kind w s = let (u, w') = uuid w in (ok (kind ++ "-" ++ u), w', s)

-- The creation of an object under a new id, recorded in the state.
unfoldable pub create_resource :
    {W O : Type 0}
    → (W → String × W)
    → String
    → (String → W → Answer (Stored O) × W)
    → (Stored O → NsxtInfraState → NsxtInfraState)
    → Action W ActionName
unfolding generate_id
create_resource uuid kind update set = do
  id ← generate_id uuid kind
  stored ← api creating (update id)
  modify (set stored)
  pure created

abbrev pub reference_of : {O : Type 0} → Stored O → Reference
reference_of stored = record { id = stored.id; path = stored.path }

-- How one kind of object is read, updated, recorded in the state and compared.
pub record Resource (W O : Type 0) : Type 0 where
  pub ref : NsxtInfraState → Option Reference
  pub forget : NsxtInfraState → NsxtInfraState
  pub read : String → W → Answer (Stored O) × W
  pub patch : String → O → W → Answer (Unit {0}) × W
  pub differs : O → O → Bool
  pub tags : O → List Tag
  pub with_tags : O → List Tag → O

module _ {W O : Type 0} (r : Resource W O) (create : Action W ActionName) (desired : O) where
  -- Whether an update is due: a compared field differs, or a wanted tag is missing.
  abbrev pub is_outdated : O → Bool
  is_outdated old = r.differs old desired || not (contains_tags (r.tags old) (r.tags desired))

  -- What is sent then: the wanted object, with the old object's other tags.
  abbrev pub merged : O → O
  merged old = r.with_tags desired (merge_tags (r.tags desired) (r.tags old))

  unfoldable pub refresh : Reference → O → Action W ActionName
  refresh ref old =
      if is_outdated old
      then api updating (r.patch ref.id (merged old)) >> pure updated
      else pure unchanged

  unfoldable pub on_read : Reference → Answer (Stored O) → Action W ActionName
  unfolding refresh
  on_read ref (got old) = refresh ref old.object
  on_read ref (failed e) = if is_not_found e then modify r.forget >> create else fail (reading e)

  unfoldable pub on_reference : Option Reference → Action W ActionName
  unfolding on_read
  on_reference none = create
  on_reference (some ref) = do answer ← call (r.read ref.id); on_read ref answer

  unfoldable pub ensure_resource : Action W ActionName
  unfolding on_reference
  ensure_resource = do ref ← gets r.ref; on_reference ref

-- The deletion by reference that the tasks share: nothing to do without one.
module _ {W : Type 0} where
  unfoldable pub delete_on :
      (NsxtInfraState → NsxtInfraState)
      → (ApiError → Error)
      → (Reference → Action W (Answer (Unit {0})))
      → Option Reference
      → Action W Bool
  delete_on forget wrap delete none = pure false
  delete_on forget wrap delete (some ref) = do
    answer ← delete ref
    elim answer [ failed e ↦ fail (wrap e) | got _ ↦ modify forget >> pure true ]

  unfoldable pub delete_resource :
      (NsxtInfraState → Option Reference)
      → (NsxtInfraState → NsxtInfraState)
      → (ApiError → Error)
      → (Reference → Action W (Answer (Unit {0})))
      → Action W Bool
  unfolding delete_on
  delete_resource get forget wrap delete = do ref ← gets get; delete_on forget wrap delete ref
