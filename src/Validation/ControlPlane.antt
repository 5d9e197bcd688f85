-- ===== src/Validation/ControlPlane.antt =====
-- pkg/apis/vsphere/validation/controlplane.go: the control plane's configuration and its updates.
use gardener_extension_provi.Base.{
  String, Bool, true, not, ◌&&◌, List, [], ◌∷◌, ◌++◌, Option, none, some, Map, same, same_option,
  contains, if◌then◌else◌,
}
use gardener_extension_provi.Fallible.{Fallible, ok, err}
use gardener_extension_provi.Profile.{
  LoadBalancerClass, CloudProfileConfig, load_balancer_default_class_name, is_set,
}
use gardener_extension_provi.LoadBalancer.{
  CpLoadBalancerClass, ControlPlaneConfig, OverwriteError, overwrite_load_balancer_classes,
}
use gardener_extension_provi.Validation.{
  FieldPath, root, child, required, not_supported, forbidden, internal, ErrorList, failed,
}
use gardener_extension_provi.Validation.Profile.{valid_load_balancer_size_values}

abbrev pub load_balancer_classes_path : FieldPath → String → FieldPath
load_balancer_classes_path path field = child (child path "loadBalancerClasses") field

unfoldable pub class_name_errors : FieldPath → List CpLoadBalancerClass → ErrorList
class_name_errors path [] = []
class_name_errors path (c ∷ cs) =
    failed ((not (same c.name ""), required (load_balancer_classes_path path "name")) ∷ [])
    ++ class_name_errors path cs

abbrev pub overwrite_size_errors : Option String → ErrorList
overwrite_size_errors none = []
overwrite_size_errors (some size) = failed (
    (contains valid_load_balancer_size_values size, not_supported (child root "loadBalancerSize"))
    ∷ [])

-- `validate_feature_gates` is Gardener's `ValidateFeatureGates` for the Kubernetes version.
abbrev pub feature_gate_errors :
    (Map Bool → FieldPath → ErrorList) → FieldPath → Option (Map Bool) → ErrorList
feature_gate_errors validate_feature_gates path none = []
feature_gate_errors validate_feature_gates path (some gates) =
    validate_feature_gates gates (child (child path "cloudControllerManager") "featureGates")

unfoldable pub validate_control_plane_config :
    (Map Bool → FieldPath → ErrorList) → ControlPlaneConfig → FieldPath → ErrorList
unfolding class_name_errors
validate_control_plane_config validate_feature_gates config path =
    class_name_errors path config.load_balancer_classes
    ++ (overwrite_size_errors config.load_balancer_size
        ++ feature_gate_errors validate_feature_gates path config.cloud_controller_manager)

abbrev pub safe_str : Option String → String
safe_str none = ""
safe_str (some s) = s

-- The constraint that stands in for the cloud profile's when two configurations are compared.
abbrev pub dummy_constraints : List LoadBalancerClass
dummy_constraints =
    record {
      name = load_balancer_default_class_name;
      ip_pool_name = some "dummy";
      tcp_app_profile_name = none;
      udp_app_profile_name = none;
    }
    ∷ []

abbrev pub Overwritten : Type 0
Overwritten = Fallible OverwriteError (LoadBalancerClass × List LoadBalancerClass)

unfoldable pub size_kept : Option String → Option String → Bool
size_kept old new =
    if is_set old then is_set new && same (safe_str old) (safe_str new) else not (is_set new)

-- The checks on the two default classes.
unfoldable pub default_checks : FieldPath → LoadBalancerClass → LoadBalancerClass → ErrorList
default_checks path old new = failed (
    (
      same (safe_str old.ip_pool_name) (safe_str new.ip_pool_name),
      forbidden (load_balancer_classes_path path "ipPoolName"),
    )
    ∷ (
      same (safe_str old.tcp_app_profile_name) (safe_str new.tcp_app_profile_name),
      forbidden (load_balancer_classes_path path "tcpAppProfileName"),
    )
    ∷ (
      same (safe_str old.udp_app_profile_name) (safe_str new.udp_app_profile_name),
      forbidden (load_balancer_classes_path path "udpAppProfileName"),
    )
    ∷ [])

abbrev pub internal_error : FieldPath → ErrorList
internal_error path = internal (child path "loadBalancerClasses") ∷ []

abbrev pub new_default_errors : FieldPath → LoadBalancerClass → Overwritten → ErrorList
new_default_errors path old (err e) = internal_error path
new_default_errors path old (ok (new, classes)) = default_checks path old new

-- The two configurations are returned as the calls leave them.
abbrev pub compare_defaults :
    FieldPath
    → ControlPlaneConfig × Overwritten
    → ControlPlaneConfig
    → ControlPlaneConfig × ControlPlaneConfig × ErrorList
compare_defaults path (old, err e) new = (old, new, internal_error path)
compare_defaults path (old, ok (old_default, classes)) new =
    let (new', result) = overwrite_load_balancer_classes dummy_constraints new none in
    (old, new', new_default_errors path old_default result)

unfoldable pub validate_control_plane_config_update :
    ControlPlaneConfig
    → ControlPlaneConfig
    → FieldPath
    → ControlPlaneConfig × ControlPlaneConfig × ErrorList
unfolding default_checks size_kept
validate_control_plane_config_update old new path =
    let (old', new', errors) =
      compare_defaults path (overwrite_load_balancer_classes dummy_constraints old none) new in
    (
      old',
      new',
      failed (
            (
              size_kept old.load_balancer_size new.load_balancer_size,
              forbidden (child path "loadBalancerSize"),
            )
            ∷ [])
          ++ errors,
    )

abbrev pub overwritten_errors : FieldPath → Overwritten → ErrorList
overwritten_errors path (ok r) = []
overwritten_errors path (err e) = internal_error path

unfoldable pub validate_control_plane_config_against_cloud_profile :
    ControlPlaneConfig → CloudProfileConfig → FieldPath → ControlPlaneConfig × ErrorList
validate_control_plane_config_against_cloud_profile config profile path =
    let (config', result) =
      overwrite_load_balancer_classes profile.load_balancer_config.classes config none in
    (config', overwritten_errors path result)

-- `equality.Semantic.DeepEqual` on two classes.
unfoldable pub same_class : LoadBalancerClass → LoadBalancerClass → Bool
same_class a b =
    same a.name b.name
    && (same_option a.ip_pool_name b.ip_pool_name
        && (same_option a.tcp_app_profile_name b.tcp_app_profile_name
            && same_option a.udp_app_profile_name b.udp_app_profile_name))

abbrev pub default_of : Overwritten → Option LoadBalancerClass
default_of (ok (d, classes)) = some d
default_of (err e) = none

abbrev pub defaults_differ : Option LoadBalancerClass → Option LoadBalancerClass → Bool
defaults_differ (some a) (some b) = not (same_class a b)
defaults_differ _ _ = true

unfoldable pub has_relevant_control_plane_config_updates :
    ControlPlaneConfig → ControlPlaneConfig → ControlPlaneConfig × ControlPlaneConfig × Bool
unfolding same_class
has_relevant_control_plane_config_updates old new =
    let (old', old_result) = overwrite_load_balancer_classes dummy_constraints old none in
    let (new', new_result) = overwrite_load_balancer_classes dummy_constraints new none in
    (old', new', defaults_differ (default_of old_result) (default_of new_result))
