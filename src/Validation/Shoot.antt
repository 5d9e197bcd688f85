-- ===== src/Validation/Shoot.antt =====
-- pkg/apis/vsphere/validation/shoot.go. What the code reads of a shoot, which is Gardener's, and the
-- library's `ParseCIDR`, `ShouldEnforceImmutability` and `ValidateImmutableField` are arguments.
pub mod Laws
use gardener_extension_provi.Base.{
  ℕ, suc, String, Bool, true, false, not, List, [], ◌∷◌, ◌++◌, Option, none, some, same, contains,
  find, is_some, if◌then◌else◌,
}
use gardener_extension_provi.Fallible.{Fallible, ok, err}
use gardener_extension_provi.Profile.Find.{set_insert}
use gardener_extension_provi.Validation.{
  FieldPath, child, index, required, invalid, ErrorList, failed, each,
}

-- `Nodes` of a shoot's networking.
pub record Networking : Type 0 where
  pub nodes : Option String

pub record Worker : Type 0 where
  pub name : String
  pub zones : List String

unfoldable pub validate_networking : Option Networking → FieldPath → ErrorList
validate_networking none path = required path ∷ []
validate_networking (some networking) path =
    failed ((is_some networking.nodes, required (child path "nodes")) ∷ [])

-- The panic on a nil pointer.
pub data Panic : Type 0 where
  nil_pointer : Panic

module _ (is_cidr : String → Bool)
    (immutable_nodes : Option String → Option String → FieldPath → ErrorList) where
  abbrev pub nodes_errors : Option Networking → Option String → FieldPath → Fallible Panic ErrorList
  nodes_errors none old_nodes path = err nil_pointer
  nodes_errors (some networking) old_nodes path =
      ok (immutable_nodes networking.nodes old_nodes path)

  abbrev pub old_nodes_errors :
      Option Networking → Option String → FieldPath → Fallible Panic ErrorList
  old_nodes_errors networking none path = ok []
  old_nodes_errors networking (some nodes) path =
      if is_cidr nodes then nodes_errors networking (some nodes) (child path "nodes") else ok []

  unfoldable pub validate_networking_update :
      Option Networking → Option Networking → FieldPath → Fallible Panic ErrorList
  validate_networking_update none networking path = ok []
  validate_networking_update (some old) networking path = old_nodes_errors networking old.nodes path

-- A zone that was seen before is not inserted again.
unfoldable pub zones_errors : FieldPath → List String → ℕ → List String → ErrorList
zones_errors path seen j [] = []
zones_errors path seen j (zone ∷ zones) =
    failed ((not (contains seen zone), invalid (index path j)) ∷ [])
    ++ zones_errors path (set_insert zone seen) (suc j) zones

abbrev pub worker_errors : FieldPath → List String → ErrorList
worker_errors path [] = required (child path "zones") ∷ []
worker_errors path (z ∷ zs) = zones_errors (child path "zones") [] 0 (z ∷ zs)

unfoldable pub validate_workers : List Worker → FieldPath → ErrorList
unfolding zones_errors
validate_workers workers path =
    each (λ i worker. worker_errors (index path i) worker.zones) 0 workers

module _ (should_enforce_immutability : List String → List String → Bool)
    (immutable_zones : List String → List String → FieldPath → ErrorList) where
  -- Of the old workers the first of the name counts.
  abbrev pub updated_zones_errors : Option Worker → Worker → FieldPath → ErrorList
  updated_zones_errors none new path = []
  updated_zones_errors (some old) new path =
      if should_enforce_immutability new.zones old.zones
      then immutable_zones new.zones old.zones (child path "zones")
      else []

  abbrev pub worker_of_name : String → List Worker → Option Worker
  worker_of_name name workers = find (λ w. same name w.name) workers

  unfoldable pub validate_workers_update : List Worker → List Worker → FieldPath → ErrorList
  validate_workers_update old_workers new_workers path =
      each (λ i new. updated_zones_errors (worker_of_name new.name old_workers) new (index path i))
        0 new_workers
