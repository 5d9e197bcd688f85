-- ===== src/LoadBalancer.antt =====
-- pkg/apis/vsphere/types_controlplane.go and `OverwriteLoadBalancerClasses` of
-- pkg/apis/vsphere/validation/controlplane.go.
pub mod Laws
pub mod Last
pub mod Completed
pub mod Update
pub mod Authorized
pub mod Tests
use gardener_extension_provi.Base.{
  String, Bool, true, false, not, ◌||◌, List, [], ◌∷◌, Option, none, some, Map, same, find,
  if◌then◌else◌,
}
use gardener_extension_provi.Fallible.{Fallible, ok, err, ◌>>=◌, ◌>>◌}
use gardener_extension_provi.Profile.{
  LoadBalancerClass, load_balancer_default_class_name, is_empty_string,
}

pub record CpLoadBalancerClass : Type 0 where
  pub name : String
  pub ip_pool_name : Option String
  pub tcp_app_profile_name : Option String
  pub udp_app_profile_name : Option String

pub record ControlPlaneConfig : Type 0 where
  -- the feature gates of `CloudControllerManager`, nil where that is nil
  pub cloud_controller_manager : Option (Map Bool)
  pub load_balancer_classes : List CpLoadBalancerClass
  pub load_balancer_size : Option String

pub data OverwriteError : Type 0 where
  no_classes : OverwriteError
  check_failed : String → OverwriteError
  no_ip_pool : String → OverwriteError

-- An empty list of classes becomes the default class, in the configuration that the caller holds.
abbrev pub default_cp_class : CpLoadBalancerClass
default_cp_class = record {
  name = load_balancer_default_class_name;
  ip_pool_name = none;
  tcp_app_profile_name = none;
  udp_app_profile_name = none;
}

abbrev pub filled_classes : List CpLoadBalancerClass → List CpLoadBalancerClass
filled_classes [] = default_cp_class ∷ []
filled_classes (c ∷ cs) = c ∷ cs

abbrev pub fill_classes : ControlPlaneConfig → ControlPlaneConfig
fill_classes config = record config {
  load_balancer_classes = filled_classes config.load_balancer_classes;
}

-- The first class, or the last one that is called the default.
unfoldable pub later_default : LoadBalancerClass → List LoadBalancerClass → LoadBalancerClass
later_default found [] = found
later_default found (c ∷ cs) =
    later_default (if same c.name load_balancer_default_class_name then c else found) cs

abbrev pub default_class_of : List LoadBalancerClass → Option LoadBalancerClass
default_class_of [] = none
default_class_of (c ∷ cs) = some (later_default c cs)

abbrev pub constraint_class : String → List LoadBalancerClass → Option LoadBalancerClass
constraint_class name classes = find (λ c. same c.name name) classes

-- The name in the shoot, or else the one of the constraint, where they are set.
abbrev pub unless_empty : Option String → Option String
unless_empty s = if is_empty_string s then none else s

unfoldable pub overwritten : Option String → Option String → Option String
overwritten own constraint = if is_empty_string own then unless_empty constraint else own

unfoldable pub lb_class : Option LoadBalancerClass → CpLoadBalancerClass → LoadBalancerClass
unfolding overwritten
lb_class none cp = record {
  name = cp.name;
  ip_pool_name = overwritten cp.ip_pool_name none;
  tcp_app_profile_name = overwritten cp.tcp_app_profile_name none;
  udp_app_profile_name = overwritten cp.udp_app_profile_name none;
}
lb_class (some c) cp = record {
  name = cp.name;
  ip_pool_name = overwritten cp.ip_pool_name c.ip_pool_name;
  tcp_app_profile_name = overwritten cp.tcp_app_profile_name c.tcp_app_profile_name;
  udp_app_profile_name = overwritten cp.udp_app_profile_name c.udp_app_profile_name;
}

-- `checkIPPoolName`, which may be nil, on a pool of the shoot that is set.
abbrev pub CheckPool : Type 0
CheckPool = Option (String → Option String)

abbrev pub check_result : Option String → Fallible OverwriteError (Unit {0})
check_result none = ok tt
check_result (some e) = err (check_failed e)

unfoldable pub check_ip_pool : CheckPool → Option String → Fallible OverwriteError (Unit {0})
check_ip_pool none pool = ok tt
check_ip_pool (some check) none = ok tt
check_ip_pool (some check) (some pool) = if same pool "" then ok tt else check_result (check pool)

abbrev pub replaced_default : LoadBalancerClass → LoadBalancerClass → LoadBalancerClass
replaced_default default_class lb = if same lb.name default_class.name then lb else default_class

unfoldable pub overwrite_from :
    List LoadBalancerClass
    → CheckPool
    → LoadBalancerClass
    → List CpLoadBalancerClass
    → Fallible OverwriteError (LoadBalancerClass × List LoadBalancerClass)
unfolding lb_class check_ip_pool
overwrite_from constraints check default_class [] = ok (default_class, [])
overwrite_from constraints check default_class (cp ∷ cps) =
    let lb = lb_class (constraint_class cp.name constraints) cp in
    let rest = overwrite_from constraints check (replaced_default default_class lb) cps in
    check_ip_pool check cp.ip_pool_name >> (rest >>= λ r. ok (r.0, lb ∷ r.1))

abbrev pub with_ip_pool :
    LoadBalancerClass × List LoadBalancerClass
    → Fallible OverwriteError (LoadBalancerClass × List LoadBalancerClass)
with_ip_pool (default_class, classes) =
    if is_empty_string default_class.ip_pool_name
    then err (no_ip_pool default_class.name)
    else ok (default_class, classes)

unfoldable pub overwrite_default :
    List LoadBalancerClass
    → CheckPool
    → List CpLoadBalancerClass
    → Option LoadBalancerClass
    → Fallible OverwriteError (LoadBalancerClass × List LoadBalancerClass)
unfolding overwrite_from
overwrite_default constraints check cps none = err no_classes
overwrite_default constraints check cps (some d) =
    overwrite_from constraints check d cps >>= with_ip_pool

-- The result beside the configuration as the call leaves it.
unfoldable pub overwrite_load_balancer_classes :
    List LoadBalancerClass
    → ControlPlaneConfig
    → CheckPool
    → ControlPlaneConfig × Fallible OverwriteError (LoadBalancerClass × List LoadBalancerClass)
unfolding overwrite_default later_default
overwrite_load_balancer_classes constraints config check = (
  fill_classes config,
  overwrite_default constraints check (fill_classes config).load_balancer_classes
      (default_class_of constraints),
)
