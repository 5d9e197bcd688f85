-- ===== src/Validation.antt =====
-- `field.Path` and `field.ErrorList` of pkg/apis/vsphere/validation: where a check failed and how. The
-- texts of the errors and the rejected values are left out.
pub mod Laws
pub mod Tests
pub mod Profile
pub mod Secret
pub mod Infrastructure
pub mod Shoot
pub mod Admission
pub mod ControlPlane
use gardener_extension_provi.Base.{
  ℕ, suc, String, Bool, true, false, List, [], ◌∷◌, ◌++◌, if◌then◌else◌,
}

pub data FieldPath : Type 0 where
  root : FieldPath
  child : FieldPath → String → FieldPath
  index : FieldPath → ℕ → FieldPath

pub data FieldError : Type 0 where
  required invalid not_supported forbidden duplicate internal : FieldPath → FieldError

abbrev pub ErrorList : Type 0
ErrorList = List FieldError

abbrev pub Check : Type 0
Check = Bool × FieldError

-- The errors of the tests that do not hold, in their order.
unfoldable pub failed : List Check → ErrorList
failed [] = []
failed ((passes, e) ∷ checks) = if passes then failed checks else e ∷ failed checks

-- `for i, x := range xs`
unfoldable pub each : {A : Type 0} → (ℕ → A → ErrorList) → ℕ → List A → ErrorList
each f i [] = []
each f i (x ∷ xs) = f i x ++ each f (suc i) xs
