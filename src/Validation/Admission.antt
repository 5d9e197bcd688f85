-- ===== src/Validation/Admission.antt =====
-- pkg/validator/shoot_validator.go: what the admission of a shoot composes.
pub mod Parts
pub mod Accounts
pub mod Laws
pub mod Panics
pub mod Tests
use gardener_extension_provi.Base.{
  String, Bool, true, false, List, [], ◌∷◌, ◌++◌, Option, none, some, Map, if◌then◌else◌,
}
use gardener_extension_provi.Fallible.{Fallible, ok, err, ◌>>=◌, ◌>>◌}
use gardener_extension_provi.Profile.{CloudProfileConfig}
use gardener_extension_provi.Credentials.{SecretData}
use gardener_extension_provi.LoadBalancer.{ControlPlaneConfig}
use gardener_extension_provi.Validation.{FieldPath, root, child, invalid, ErrorList}
use gardener_extension_provi.Validation.Secret.{SecretError, validate_cloud_provider_secret}
use gardener_extension_provi.Validation.Infrastructure.{
  InfrastructureConfig, validate_infrastructure_config, validate_infrastructure_config_update,
  validate_infrastructure_config_against_cloud_profile, has_relevant_infrastructure_config_updates,
}
use gardener_extension_provi.Validation.ControlPlane.{
  validate_control_plane_config, validate_control_plane_config_update,
  validate_control_plane_config_against_cloud_profile, has_relevant_control_plane_config_updates,
}
use gardener_extension_provi.Validation.Shoot.{
  Networking, Worker, Panic, validate_networking, validate_networking_update, validate_workers,
  validate_workers_update,
}

abbrev pub spec_path : FieldPath
spec_path = child root "spec"

abbrev pub networking_path : FieldPath
networking_path = child spec_path "networking"

abbrev pub provider_path : FieldPath
provider_path = child spec_path "provider"

abbrev pub secret_binding_path : FieldPath
secret_binding_path = child spec_path "secretBindingName"

abbrev pub infra_config_path : FieldPath
infra_config_path = child provider_path "infrastructureConfig"

abbrev pub cp_config_path : FieldPath
cp_config_path = child provider_path "controlPlaneConfig"

abbrev pub workers_path : FieldPath
workers_path = child provider_path "workers"

-- What the code reads of a shoot; `R` is the type of raw extensions.
pub record Shoot (R : Type 0) : Type 0 where
  pub namespace : String
  pub kubernetes_version : String
  pub cloud_profile_name : String
  pub secret_binding_name : Option String
  pub networking : Option Networking
  pub infrastructure_config : Option R
  pub control_plane_config : Option R
  pub workers : List Worker

-- The API server's answers during one request, the decoders, and the validation of the libraries.
pub record Api (R Ref : Type 0) : Type 0 where
  pub decode_infrastructure_config : R → Fallible String InfrastructureConfig
  pub decode_control_plane_config : R → Fallible String ControlPlaneConfig
  pub decode_cloud_profile_config : R → Fallible String CloudProfileConfig
  -- the provider's configuration of a cloud profile
  pub cloud_profile : String → Fallible String (Option R)
  -- the secret that a binding names
  pub secret_binding : String → String → Fallible String Ref
  pub secret : Ref → Fallible String SecretData
  pub validate_feature_gates : String → Map Bool → FieldPath → ErrorList
  pub is_cidr : String → Bool
  pub immutable_nodes : Option String → Option String → FieldPath → ErrorList
  pub should_enforce_immutability : List String → List String → Bool
  pub immutable_zones : List String → List String → FieldPath → ErrorList

pub record ValidationContext (R : Type 0) : Type 0 where
  pub shoot : Shoot R
  pub infra_config : InfrastructureConfig
  pub cp_config : ControlPlaneConfig
  pub cloud_profile_config : CloudProfileConfig

pub data AdmissionError : Type 0 where
  no_control_plane_config : AdmissionError
  no_provider_config : String → AdmissionError
  no_context : String → AdmissionError
  rejected : ErrorList → AdmissionError
  panicked : Panic → AdmissionError

abbrev pub reading : {A : Type 0} → Fallible String A → Fallible AdmissionError A
reading (ok a) = ok a
reading (err e) = err (no_context e)

abbrev pub running : {A : Type 0} → Fallible Panic A → Fallible AdmissionError A
running (ok a) = ok a
running (err e) = err (panicked e)

abbrev pub present : {A : Type 0} → AdmissionError → Option A → Fallible AdmissionError A
present e none = err e
present e (some a) = ok a

-- `ToAggregate`
abbrev pub to_aggregate : ErrorList → Fallible AdmissionError (Unit {0})
to_aggregate [] = ok tt
to_aggregate (e ∷ es) = err (rejected (e ∷ es))

pub data SecretRefusal : Type 0 where
  no_binding_name : SecretRefusal
  unread : String → SecretRefusal
  invalid_secret : SecretError → SecretRefusal

unfoldable pub reading_secret : {A : Type 0} → Fallible String A → Fallible SecretRefusal A
reading_secret (ok a) = ok a
reading_secret (err e) = err (unread e)

unfoldable pub secret_refusal : Option SecretError → Fallible SecretRefusal (Unit {0})
secret_refusal none = ok tt
secret_refusal (some e) = err (invalid_secret e)

unfoldable pub secret_errors : Fallible SecretRefusal (Unit {0}) → ErrorList
secret_errors (ok u) = []
secret_errors (err e) = invalid secret_binding_path ∷ []

module _ {R Ref : Type 0} (api : Api R Ref) where
  abbrev pub infra_config_of : Option R → Fallible AdmissionError InfrastructureConfig
  infra_config_of none = ok record { networks = none; overwrite_nsxt_infra_version = none }
  infra_config_of (some raw) = reading (api.decode_infrastructure_config raw)

  unfoldable pub new_validation_context : Shoot R → Fallible AdmissionError (ValidationContext R)
  new_validation_context shoot = do
    infra_config ← infra_config_of shoot.infrastructure_config
    raw ← present no_control_plane_config shoot.control_plane_config
    cp_config ← reading (api.decode_control_plane_config raw)
    provider_config ← reading (api.cloud_profile shoot.cloud_profile_name)
    raw_profile ← present (no_provider_config shoot.cloud_profile_name) provider_config
    cloud_profile_config ← reading (api.decode_cloud_profile_config raw_profile)
    ok record {
      shoot = shoot;
      infra_config = infra_config;
      cp_config = cp_config;
      cloud_profile_config = cloud_profile_config;
    }

  unfoldable pub validate_shoot : ValidationContext R → ErrorList
  validate_shoot ctx =
      validate_networking ctx.shoot.networking networking_path
      ++ (validate_infrastructure_config (some ctx.infra_config) infra_config_path
          ++ (validate_control_plane_config
                (api.validate_feature_gates ctx.shoot.kubernetes_version) ctx.cp_config
                cp_config_path
              ++ validate_workers ctx.shoot.workers workers_path))

  unfoldable pub secret_of : Shoot R → Fallible SecretRefusal (Unit {0})
  unfolding secret_refusal reading_secret
  secret_of shoot = elim shoot.secret_binding_name [
    | none ↦ err no_binding_name
    | some name ↦ elim (reading_secret (api.secret_binding shoot.namespace name)) [
      | err e ↦ err e
      | ok ref ↦ elim (reading_secret (api.secret ref)) [
        | err e ↦ err e
        | ok content ↦ secret_refusal (validate_cloud_provider_secret content)
      ]
    ]
  ]

  unfoldable pub validate_shoot_secret : Shoot R → ErrorList
  unfolding secret_of secret_errors
  validate_shoot_secret shoot = secret_errors (secret_of shoot)

  unfoldable pub creation_errors : ValidationContext R → ErrorList
  unfolding validate_shoot
  creation_errors ctx =
      let (cp_config, errors) =
        validate_control_plane_config_against_cloud_profile ctx.cp_config ctx.cloud_profile_config
          cp_config_path in
      validate_infrastructure_config_against_cloud_profile (some ctx.infra_config)
        ctx.cloud_profile_config infra_config_path
      ++ (errors
          ++ (validate_shoot (record ctx { cp_config = cp_config })
              ++ validate_shoot_secret ctx.shoot))

  unfoldable pub validate_shoot_creation : Shoot R → Fallible AdmissionError (Unit {0})
  unfolding new_validation_context creation_errors
  validate_shoot_creation shoot =
      new_validation_context shoot >>= λ ctx. to_aggregate (creation_errors ctx)

  -- The cloud profile is asked only where the change is relevant.
  abbrev pub relevant_infra_errors : ValidationContext R → ValidationContext R → ErrorList
  relevant_infra_errors old new =
      if has_relevant_infrastructure_config_updates (some old.infra_config) (some new.infra_config)
      then validate_infrastructure_config_against_cloud_profile (some new.infra_config)
          new.cloud_profile_config infra_config_path
      else []

  abbrev pub relevant_cp_errors :
      ControlPlaneConfig × ControlPlaneConfig × Bool
      → CloudProfileConfig
      → ControlPlaneConfig × ErrorList
  relevant_cp_errors (old, new, relevant) profile =
      if relevant
      then validate_control_plane_config_against_cloud_profile new profile cp_config_path
      else (new, [])

  unfoldable pub update_errors : ValidationContext R → ValidationContext R → ErrorList
  unfolding validate_shoot
  update_errors old new =
      let (old_cp, new_cp, changed) =
        validate_control_plane_config_update old.cp_config new.cp_config cp_config_path in
      let (cp_config, relevant) =
        relevant_cp_errors (has_relevant_control_plane_config_updates old_cp new_cp)
          new.cloud_profile_config in
      validate_infrastructure_config_update (some old.infra_config) (some new.infra_config)
        infra_config_path
      ++ (relevant_infra_errors old new
          ++ (changed
              ++ (relevant
                  ++ (validate_workers_update api.should_enforce_immutability api.immutable_zones
                        old.shoot.workers new.shoot.workers workers_path
                      ++ validate_shoot (record new { cp_config = cp_config })))))

  unfoldable pub validate_shoot_update : Shoot R → Shoot R → Fallible AdmissionError (Unit {0})
  unfolding new_validation_context update_errors
  validate_shoot_update old new = do
    old_ctx ← new_validation_context old
    new_ctx ← new_validation_context new
    networking ← running (
        validate_networking_update api.is_cidr api.immutable_nodes old.networking new.networking
          networking_path)
    to_aggregate (networking ++ update_errors old_ctx new_ctx)
