-- ===== src/LoadBalancer/Tests.antt =====
-- Control planes on which the theorems are applied.
use gardener_extension_provi.Base.{
  contains, All, if◌then◌else◌, String, false, List, [], ◌∷◌, Option, none, some, same, ◌≡◌, ◌↔◌,
  refl,
}
use gardener_extension_provi.Fallible.{ok}
use gardener_extension_provi.Profile.{LoadBalancerClass}
use gardener_extension_provi.LoadBalancer.{
  CpLoadBalancerClass, ControlPlaneConfig, later_default, overwritten, lb_class, check_ip_pool,
  overwrite_from, overwrite_default, overwrite_load_balancer_classes,
}
use gardener_extension_provi.LoadBalancer.Completed.{Completed}
use gardener_extension_provi.LoadBalancer.Update.{
  Kept, update_errors, relevant_after, validate_control_plane_config_update_iff,
  accepted_update-not-relevant,
}
use gardener_extension_provi.LoadBalancer.Authorized.{
  IsAuthorized, overwrite_load_balancer_classes-IsAuthorized,
}
use gardener_extension_provi.Validation.{root, failed}
use gardener_extension_provi.Validation.ControlPlane.{
  validate_control_plane_config_update, size_kept, default_checks,
}

abbrev cp_class : String → Option String → CpLoadBalancerClass
cp_class name pool = record {
  name = name;
  ip_pool_name = pool;
  tcp_app_profile_name = none;
  udp_app_profile_name = none;
}

abbrev class : String → Option String → LoadBalancerClass
class name pool = record {
  name = name;
  ip_pool_name = pool;
  tcp_app_profile_name = none;
  udp_app_profile_name = some "udp";
}

abbrev config : Option String → List CpLoadBalancerClass → ControlPlaneConfig
config size classes = record {
  cloud_controller_manager = none;
  load_balancer_classes = classes;
  load_balancer_size = size;
}

abbrev constraints : List LoadBalancerClass
constraints = class "public" (some "p") ∷ class "default" (some "d") ∷ class "private" none ∷ []

abbrev two_classes : ControlPlaneConfig
two_classes =
    config (some "SMALL") (cp_class "private" (some "x") ∷ cp_class "default" (some "y") ∷ [])

abbrev completed_two : List LoadBalancerClass
completed_two = class "private" (some "x") ∷ class "default" (some "y") ∷ []

-- An update that changes another class than the default one.
abbrev other_private : ControlPlaneConfig
other_private =
    config (some "SMALL") (cp_class "private" (some "z") ∷ cp_class "default" (some "y") ∷ [])

private_update : update_errors two_classes other_private root ≡ []
unfolding validate_control_plane_config_update overwrite_load_balancer_classes overwrite_default
    overwrite_from later_default lb_class overwritten check_ip_pool same size_kept default_checks
    failed
private_update = refl

validate_control_plane_config_update_iff_example :
    (update_errors two_classes other_private root ≡ []) ↔ Kept two_classes other_private
validate_control_plane_config_update_iff_example =
    validate_control_plane_config_update_iff two_classes other_private root

accepted_update-not-relevant_example : relevant_after two_classes other_private root ≡ false
accepted_update-not-relevant_example =
    accepted_update-not-relevant two_classes other_private root private_update

-- The pools `x` and `y` are allowed.
abbrev allowed : String → Option String
allowed pool = if contains ("x" ∷ "y" ∷ []) pool then none else some "not authorized"

two_checked :
    (overwrite_load_balancer_classes constraints two_classes (some allowed)).1
    ≡ ok (class "default" (some "y"), completed_two)
unfolding overwrite_load_balancer_classes overwrite_default overwrite_from later_default lb_class
    overwritten check_ip_pool same
two_checked = refl

overwrite_load_balancer_classes-IsAuthorized_example :
    All (IsAuthorized allowed constraints) completed_two
overwrite_load_balancer_classes-IsAuthorized_example =
    overwrite_load_balancer_classes-IsAuthorized allowed constraints two_classes
      (class "default" (some "y")) completed_two two_checked
