-- ===== src/Validation/Admission/Panics.antt =====
-- When the admission of an update panics.
use gardener_extension_provi.Base.{
  String, Bool, true, [], ◌∷◌, ◌++◌, Option, none, some, ◌≡◌, ◌≢◌, ◌↔◌, refl, arith, inl, inr,
  Bool-cases,
}
use gardener_extension_provi.Fallible.{Fallible, ok, err, ◌>>=◌}
use gardener_extension_provi.Validation.{FieldPath, ErrorList}
use gardener_extension_provi.Validation.Shoot.{
  Networking, Panic, nil_pointer, old_nodes_errors, validate_networking_update,
}
use gardener_extension_provi.Validation.Admission.{
  Shoot, Api, ValidationContext, panicked, to_aggregate, running, new_validation_context,
  update_errors, validate_shoot_update, networking_path,
}
use gardener_extension_provi.Validation.Admission.Parts.{nodes_of}

to_aggregate-not-panicked : (es : ErrorList) → to_aggregate es ≢ err (panicked nil_pointer)
to_aggregate-not-panicked [] h = cc
to_aggregate-not-panicked (e ∷ es) h = cc

panics_iff :
    {P : Type 0} (m : Fallible Panic ErrorList) (f : ErrorList → ErrorList)
    → ((m ≡ err nil_pointer) ↔ P)
    → ((running m >>= λ errors. to_aggregate (f errors)) ≡ err (panicked nil_pointer)) ↔ P
panics_iff (err nil_pointer) f k = ((λ h. k.0 refl), (λ q. refl))
panics_iff (ok errors) f k =
    ((λ h. absurd (to_aggregate-not-panicked (f errors) h)), (λ q. let h = k.1 q in cc))

-- An old CIDR of the nodes, and no networking left.
abbrev pub LosesNetworking : (String → Bool) → Option Networking → Option Networking → Type 0
LosesNetworking is_cidr old new =
    (new ≡ none) × ((nodes : String) × (nodes_of old ≡ some nodes) × (is_cidr nodes ≡ true))

networking-panics_iff :
    (is_cidr : String → Bool) (immutable : Option String → Option String → FieldPath → ErrorList)
    (old new : Option Networking) (path : FieldPath)
    → (validate_networking_update is_cidr immutable old new path ≡ err nil_pointer)
      ↔ LosesNetworking is_cidr old new
unfolding validate_networking_update
networking-panics_iff is_cidr immutable none new path = ((λ h. cc), (λ q. let e = q.1.1 in cc))
networking-panics_iff is_cidr immutable (some old) new path = nodes_panics_iff old.nodes new
  where
    nodes_panics_iff :
        (nodes : Option String) (new : Option Networking)
        → (old_nodes_errors is_cidr immutable new nodes path ≡ err nil_pointer)
          ↔ ((new ≡ none) × ((n : String) × (nodes ≡ some n) × (is_cidr n ≡ true)))
    nodes_panics_iff none new = ((λ h. cc), (λ q. let e = q.1.1 in cc))
    nodes_panics_iff (some n) none = elim (Bool-cases (is_cidr n)) [
      | inl e ↦ ((λ h. (refl, (n, refl, e))), (λ q. ground arith))
      | inr e ↦ ((λ h. absurd (ground arith)), (λ q. absurd (ground arith)))
    ]
    nodes_panics_iff (some n) (some networking) = elim (Bool-cases (is_cidr n)) [
      | inl e ↦ ((λ h. absurd (ground arith)), (λ q. absurd (ground arith)))
      | inr e ↦ ((λ h. absurd (ground arith)), (λ q. absurd (ground arith)))
    ]

module _ {R Ref : Type 0} (api : Api R Ref) where
  -- Where both shoots have a context, the update panics exactly if the old nodes are a CIDR and the new shoot has no networking.
  pub validate_shoot_update-panics_iff :
      (old new : Shoot R) (old_ctx new_ctx : ValidationContext R)
      → new_validation_context api old ≡ ok old_ctx
      → new_validation_context api new ≡ ok new_ctx
      → (validate_shoot_update api old new ≡ err (panicked nil_pointer))
        ↔ LosesNetworking api.is_cidr old.networking new.networking
  unfolding validate_shoot_update
  validate_shoot_update-panics_iff old new old_ctx new_ctx e1 e2 = rw e1 (
      rw e2 (
        panics_iff
          (validate_networking_update api.is_cidr api.immutable_nodes old.networking new.networking
            networking_path)
          (λ errors. errors ++ update_errors api old_ctx new_ctx)
          (networking-panics_iff api.is_cidr api.immutable_nodes old.networking new.networking
            networking_path)))
