-- ===== src/Validation/Shoot/Laws.antt =====
-- The workers of an accepted shoot.
use gardener_extension_provi.Base.{
  ℕ, suc, String, false, not, ◌||◌, List, [], ◌∷◌, ◌≡◌, ◌↔◌, ◌≢◌, refl, arith, same, same_iff, ap,
  contains, All, inl, inr, Bool-cases,
}
use gardener_extension_provi.Profile.Find.{set_insert}
use gardener_extension_provi.Validation.{FieldPath, child, index, invalid, failed}
use gardener_extension_provi.Validation.Laws.{append-eq-nil, failed-eq-nil, each_iff}
use gardener_extension_provi.Validation.Shoot.{
  Worker, zones_errors, worker_errors, validate_workers,
}

-- No text twice.
abbrev pub Distinct : List String → Type 0
Distinct [] = Unit
Distinct (z ∷ zs) = (contains zs z ≡ false) × Distinct zs

abbrev pub IsZoned : Worker → Type 0
IsZoned worker = (worker.zones ≢ []) × Distinct worker.zones

-- None of the zones was seen before.
abbrev Unseen : List String → List String → Type 0
Unseen seen zones = All (λ z. contains seen z ≡ false) zones

contains-set_insert :
    (z y : String) (seen : List String)
    → contains (set_insert z seen) y ≡ (same z y || contains seen y)
contains-set_insert z y seen = elim (Bool-cases (contains seen z)) [
  | inr e ↦ ground arith
  | inl e ↦ elim (Bool-cases (same z y)) [
    | inr e1 ↦ ground arith
    | inl e1 ↦ ground (arith, ap (contains seen) ((same_iff z y).0 e1))
  ]
]

Unseen-set_insert :
    (z : String) (seen zones : List String)
    → Unseen (set_insert z seen) zones ↔ (Unseen seen zones × (contains zones z ≡ false))
Unseen-set_insert z seen [] = ground arith
Unseen-set_insert z seen (y ∷ zones) = ground (
  arith,
  contains-set_insert z y seen,
  Unseen-set_insert z seen zones,
  same_iff z y,
  same_iff y z,
)

zones_errors_iff :
    (path : FieldPath) (seen : List String) (j : ℕ) (zones : List String)
    → (zones_errors path seen j zones ≡ []) ↔ (Unseen seen zones × Distinct zones)
unfolding zones_errors
zones_errors_iff path seen j [] = ground arith
zones_errors_iff path seen j (z ∷ zones) =
    let here = failed-eq-nil ((not (contains seen z), invalid (index path j)) ∷ []) in
    let parts =
      append-eq-nil (failed ((not (contains seen z), invalid (index path j)) ∷ []))
        (zones_errors path (set_insert z seen) (suc j) zones) in
    let rest = zones_errors_iff path (set_insert z seen) (suc j) zones in
    let unseen = Unseen-set_insert z seen zones in ground (arith, here, parts, rest, unseen)

All-Unseen : (zones : List String) → Unseen [] zones
All-Unseen [] = tt
All-Unseen (z ∷ zones) = (refl, All-Unseen zones)

worker_errors_iff :
    (path : FieldPath) (zones : List String)
    → (worker_errors path zones ≡ []) ↔ ((zones ≢ []) × Distinct zones)
worker_errors_iff path [] = ground arith
worker_errors_iff path (z ∷ zs) =
    ground (arith, zones_errors_iff (child path "zones") [] 0 (z ∷ zs), All-Unseen (z ∷ zs))

-- ValidateWorkers accepts the workers exactly if each of them has a zone and none of its zones twice.
pub validate_workers_iff :
    (workers : List Worker) (path : FieldPath)
    → (validate_workers workers path ≡ []) ↔ All IsZoned workers
unfolding validate_workers
validate_workers_iff workers path =
    each_iff (λ i worker. worker_errors (index path i) worker.zones) IsZoned
      (λ i worker. worker_errors_iff (index path i) worker.zones) workers
