-- ===== src/Validation/Admission/Tests.antt =====
-- Requests on which the theorems are applied.
use gardener_extension_provi.Base.{
  String, true, List, [], ◌∷◌, Option, none, some, same, ◌≡◌, ◌↔◌, refl, All, if◌then◌else◌,
}
use gardener_extension_provi.Fallible.{ok, err}
use gardener_extension_provi.Profile.Tests.{sample_config}
use gardener_extension_provi.Credentials.Tests.{secret}
use gardener_extension_provi.LoadBalancer.{
  ControlPlaneConfig, later_default, overwritten, lb_class, check_ip_pool, overwrite_from,
  overwrite_default, overwrite_load_balancer_classes,
}
use gardener_extension_provi.LoadBalancer.Update.{Kept}
use gardener_extension_provi.Validation.{failed, each}
use gardener_extension_provi.Validation.Infrastructure.{
  InfrastructureConfig, validate_infrastructure_config, validate_infrastructure_config_update,
}
use gardener_extension_provi.Validation.Secret.{validate_fields, validate_cloud_provider_secret}
use gardener_extension_provi.Validation.ControlPlane.{
  class_name_errors, validate_control_plane_config, size_kept, default_checks,
  validate_control_plane_config_update, validate_control_plane_config_against_cloud_profile,
  same_class, has_relevant_control_plane_config_updates,
}
use gardener_extension_provi.Validation.Shoot.{
  Networking, Worker, nil_pointer, validate_networking, validate_networking_update, zones_errors,
  validate_workers, validate_workers_update,
}
use gardener_extension_provi.Validation.Shoot.Laws.{IsZoned, validate_workers_iff}
use gardener_extension_provi.Validation.Admission.{
  Shoot, Api, ValidationContext, panicked, new_validation_context, validate_shoot,
  validate_shoot_secret, creation_errors, validate_shoot_creation, update_errors,
  validate_shoot_update, workers_path, secret_of, secret_errors, secret_refusal, reading_secret,
}
use gardener_extension_provi.Validation.Admission.Parts.{ShootIsValid, CpIsValid, HasClasses}
use gardener_extension_provi.Validation.Admission.Accounts.{HasAccounts}
use gardener_extension_provi.Validation.Admission.Laws.{
  validate_shoot_creation_sound, validate_shoot_update_sound,
}
use gardener_extension_provi.Validation.Admission.Panics.{
  LosesNetworking, validate_shoot_update-panics_iff,
}

abbrev infra_config : InfrastructureConfig
infra_config = record { networks = none; overwrite_nsxt_infra_version = some "2" }

abbrev cp_config : ControlPlaneConfig
cp_config = record {
  cloud_controller_manager = none;
  load_balancer_classes = [];
  load_balancer_size = none;
}

-- An API server that knows one cloud profile and one secret; raw extensions are texts.
abbrev api : Api String String
api = record {
  decode_infrastructure_config = λ raw. ok infra_config;
  decode_control_plane_config = λ raw. ok cp_config;
  decode_cloud_profile_config = λ raw. ok sample_config;
  cloud_profile = λ name. if same name "vsphere" then ok (some "config") else err "not found";
  secret_binding = λ namespace name. ok "secret";
  secret = λ ref. ok (some secret);
  validate_feature_gates = λ version gates path. [];
  is_cidr = λ s. same s "10.250.0.0/16";
  immutable_nodes = λ new old path. [];
  should_enforce_immutability = λ new old. true;
  immutable_zones = λ new old path. [];
}

abbrev workers : List Worker
workers = record { name = "pool"; zones = "rz1" ∷ "rz2" ∷ [] } ∷ []

abbrev shoot : Option Networking → Shoot String
shoot networking = record {
  namespace = "garden-dev";
  kubernetes_version = "1.26.0";
  cloud_profile_name = "vsphere";
  secret_binding_name = some "binding";
  networking = networking;
  infrastructure_config = some "infra";
  control_plane_config = some "cp";
  workers = workers;
}

abbrev with_nodes : Shoot String
with_nodes = shoot (some record { nodes = some "10.250.0.0/16" })

abbrev context : Shoot String → ValidationContext String
context s = record {
  shoot = s;
  infra_config = infra_config;
  cp_config = cp_config;
  cloud_profile_config = sample_config;
}

with_nodes-context : new_validation_context api with_nodes ≡ ok (context with_nodes)
unfolding new_validation_context same
with_nodes-context = refl

bare_context : new_validation_context api (shoot none) ≡ ok (context (shoot none))
unfolding new_validation_context same
bare_context = refl

created : validate_shoot_creation api with_nodes ≡ ok tt
unfolding validate_shoot_creation creation_errors validate_shoot_secret validate_shoot secret_of
    secret_errors secret_refusal reading_secret new_validation_context
    validate_cloud_provider_secret validate_fields validate_networking
    validate_infrastructure_config validate_control_plane_config class_name_errors validate_workers
    zones_errors each failed validate_control_plane_config_against_cloud_profile
    overwrite_load_balancer_classes overwrite_default overwrite_from later_default lb_class
    overwritten check_ip_pool same
created = refl

updated : validate_shoot_update api with_nodes with_nodes ≡ ok tt
unfolding validate_shoot_update update_errors validate_infrastructure_config_update
    validate_networking_update validate_workers_update validate_control_plane_config_update
    has_relevant_control_plane_config_updates same_class size_kept default_checks validate_shoot
    new_validation_context validate_networking validate_infrastructure_config
    validate_control_plane_config class_name_errors validate_workers zones_errors each failed
    overwrite_load_balancer_classes overwrite_default overwrite_from later_default lb_class
    overwritten check_ip_pool same
updated = refl

validate_shoot_creation_sound_example :
    (ctx : ValidationContext String) × (new_validation_context api with_nodes ≡ ok ctx)
    × ShootIsValid ctx.infra_config with_nodes
    × CpIsValid ctx.cp_config
    × HasClasses ctx.cloud_profile_config ctx.cp_config
    × HasAccounts api with_nodes
validate_shoot_creation_sound_example = validate_shoot_creation_sound api with_nodes created

validate_shoot_update_sound_example :
    (old_ctx new_ctx : ValidationContext String) × (new_validation_context api with_nodes
      ≡ ok old_ctx)
    × (new_validation_context api with_nodes ≡ ok new_ctx)
    × Kept old_ctx.cp_config new_ctx.cp_config
    × (old_ctx.infra_config.networks ≡ new_ctx.infra_config.networks)
    × ShootIsValid new_ctx.infra_config with_nodes
validate_shoot_update_sound_example = validate_shoot_update_sound api with_nodes with_nodes updated

validate_shoot_update-panics_iff_example :
    (validate_shoot_update api with_nodes (shoot none) ≡ err (panicked nil_pointer))
    ↔ LosesNetworking api.is_cidr with_nodes.networking (shoot none).networking
validate_shoot_update-panics_iff_example =
    validate_shoot_update-panics_iff api with_nodes (shoot none) (context with_nodes)
      (context (shoot none)) with_nodes-context bare_context

validate_workers_iff_example : (validate_workers workers workers_path ≡ []) ↔ All IsZoned workers
validate_workers_iff_example = validate_workers_iff workers workers_path
