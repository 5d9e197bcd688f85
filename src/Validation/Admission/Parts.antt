-- ===== src/Validation/Admission/Parts.antt =====
-- What each check of the admission finds out about a configuration that it accepts.
use gardener_extension_provi.Base.{
  String, Bool, true, List, [], ◌∷◌, Option, none, some, ◌≡◌, ◌≢◌, ◌⊎◌, inl, inr, Bool-cases, Map,
  same, refl, sym, ap, arith, All, same_iff,
}
use gardener_extension_provi.Fallible.{ok, err}
use gardener_extension_provi.Profile.{LoadBalancerClass, CloudProfileConfig}
use gardener_extension_provi.LoadBalancer.{
  CpLoadBalancerClass, ControlPlaneConfig, filled_classes, fill_classes,
  overwrite_load_balancer_classes,
}
use gardener_extension_provi.LoadBalancer.Completed.{
  Completed, overwrite_load_balancer_classes-Completed,
}
use gardener_extension_provi.Validation.{FieldPath, ErrorList, failed}
use gardener_extension_provi.Validation.Laws.{append-eq-nil, failed-eq-nil}
use gardener_extension_provi.Validation.Infrastructure.{
  InfrastructureConfig, Networks, is_valid_ensurer_version, validate_infrastructure_config_update,
  same_networks, networks_errors,
}
use gardener_extension_provi.Validation.ControlPlane.{
  class_name_errors, overwrite_size_errors, validate_control_plane_config,
  validate_control_plane_config_against_cloud_profile, Overwritten, overwritten_errors,
}
use gardener_extension_provi.Validation.Shoot.{Networking, validate_networking}
use gardener_extension_provi.Validation.Shoot.Laws.{IsZoned}
use gardener_extension_provi.Validation.Admission.{
  Shoot, to_aggregate, infra_config_path, cp_config_path,
}

-- `*shoot.Spec.Networking.Nodes`, where no pointer is nil.
abbrev pub nodes_of : Option Networking → Option String
nodes_of none = none
nodes_of (some networking) = networking.nodes

pub validate_networking_iff :
    (networking : Option Networking) (path : FieldPath)
    → (validate_networking networking path ≡ [])
    → (nodes_of networking ≢ none)
unfolding validate_networking failed
validate_networking_iff none path h = cc
validate_networking_iff (some networking) path h = ground arith

pub to_aggregate-ok : (es : ErrorList) → to_aggregate es ≡ ok tt → es ≡ []
to_aggregate-ok [] h = refl
to_aggregate-ok (e ∷ es) h = cc

-- No version, or one that the ensurer knows.
abbrev pub IsSupported : Option String → Type 0
IsSupported version = (version ≡ none) ⊎ (version ≡ some "1") ⊎ (version ≡ some "2")

-- Existing objects of NSX-T, where they are given, are given by their paths.
abbrev pub HasPaths : Option Networks → Type 0
HasPaths none = Unit
HasPaths (some networks) =
    (networks.tier1_gateway_path ≢ "") × (networks.load_balancer_service_path ≢ "")

pub is_valid_ensurer_version-IsSupported :
    (version : Option String) → is_valid_ensurer_version version ≡ true → IsSupported version
is_valid_ensurer_version-IsSupported none h = inl refl
is_valid_ensurer_version-IsSupported (some version) h = elim (Bool-cases (same "1" version)) [
  | inl e ↦ inr (inl (ap some (sym ((same_iff "1" version).0 e))))
  | inr e ↦ elim (Bool-cases (same "2" version)) [
    | inl e1 ↦ inr (inr (ap some (sym ((same_iff "2" version).0 e1))))
    | inr e1 ↦ absurd (ground arith)
  ]
]

pub networks_errors-HasPaths :
    (path : FieldPath) (networks : Option Networks)
    → networks_errors path networks ≡ []
    → HasPaths networks
networks_errors-HasPaths path none h = tt
networks_errors-HasPaths path (some networks) h =
    let passed = (failed-eq-nil _).0 h in
    (
      λ e. ground (arith, passed.0, same_iff networks.tier1_gateway_path ""),
      λ e. ground (arith, passed.1.0, same_iff networks.load_balancer_service_path ""),
    )

-- A control plane with names of its classes and a size of the load balancer that is known, if any.
abbrev pub CpIsValid : ControlPlaneConfig → Type 0
CpIsValid config =
    All (λ (c : CpLoadBalancerClass). c.name ≢ "") config.load_balancer_classes
    × ((config.load_balancer_size ≡ none)
        ⊎ ((size : String) × (config.load_balancer_size ≡ some size)
            × ((size ≡ "SMALL") ⊎ (size ≡ "MEDIUM") ⊎ (size ≡ "LARGE"))))

class_name_errors-named :
    (path : FieldPath) (cs : List CpLoadBalancerClass)
    → class_name_errors path (filled_classes cs) ≡ []
    → All (λ (c : CpLoadBalancerClass). c.name ≢ "") cs
unfolding class_name_errors
class_name_errors-named path [] h = tt
class_name_errors-named path (c ∷ cs) h = named (c ∷ cs) h
  where
    named :
        (cs : List CpLoadBalancerClass)
        → class_name_errors path cs ≡ []
        → All (λ (c : CpLoadBalancerClass). c.name ≢ "") cs
    named [] h = tt
    named (c ∷ cs) h =
        let (h1, h2) = (append-eq-nil (failed _) (class_name_errors path cs)).0 h in
        let passed = (failed-eq-nil _).0 h1 in
        ((λ e. ground (arith, passed.0, same_iff c.name "")), named cs h2)

overwrite_size_errors-known :
    (size : Option String)
    → overwrite_size_errors size ≡ []
    → (size ≡ none)
      ⊎ ((s : String) × (size ≡ some s) × ((s ≡ "SMALL") ⊎ (s ≡ "MEDIUM") ⊎ (s ≡ "LARGE")))
overwrite_size_errors-known none h = inl refl
overwrite_size_errors-known (some s) h =
    let passed = (failed-eq-nil _).0 h in
    inr (
      s,
      refl,
      (elim (Bool-cases (same "SMALL" s)) [
        | inl e ↦ inl (sym ((same_iff "SMALL" s).0 e))
        | inr e ↦ elim (Bool-cases (same "MEDIUM" s)) [
          | inl e1 ↦ inr (inl (sym ((same_iff "MEDIUM" s).0 e1)))
          | inr e1 ↦ elim (Bool-cases (same "LARGE" s)) [
            | inl e2 ↦ inr (inr (sym ((same_iff "LARGE" s).0 e2)))
            | inr e2 ↦ absurd (ground (arith, passed.0))
          ]
        ]
      ]),
    )

pub validate_control_plane_config-CpIsValid :
    (gates : Map Bool → FieldPath → ErrorList) (config : ControlPlaneConfig)
    → validate_control_plane_config gates (fill_classes config) cp_config_path ≡ []
    → CpIsValid config
unfolding validate_control_plane_config
validate_control_plane_config-CpIsValid gates config h =
    let (h1, r) = (append-eq-nil (class_name_errors cp_config_path _) _).0 h in
    let (h2, r2) = (append-eq-nil (overwrite_size_errors config.load_balancer_size) _).0 r in
    (
      class_name_errors-named cp_config_path config.load_balancer_classes h1,
      overwrite_size_errors-known config.load_balancer_size h2,
    )

overwritten_errors-ok :
    (r : Overwritten)
    → overwritten_errors cp_config_path r ≡ []
    → (d : LoadBalancerClass) × (classes : List LoadBalancerClass) × (r ≡ ok (d, classes))
overwritten_errors-ok (ok (d, classes)) h = (d, classes, refl)
overwritten_errors-ok (err e) h = cc

-- What `validateShoot` finds out, of a shoot and its infrastructure's configuration.
abbrev pub ShootIsValid : {R : Type 0} → InfrastructureConfig → Shoot R → Type 0
ShootIsValid infra_config shoot =
    (nodes_of shoot.networking ≢ none)
    × IsSupported infra_config.overwrite_nsxt_infra_version
    × HasPaths infra_config.networks
    × All IsZoned shoot.workers

-- The cloud profile completes the classes of the control plane, with a default that has an IP pool.
abbrev pub HasClasses : CloudProfileConfig → ControlPlaneConfig → Type 0
HasClasses profile config =
    (d : LoadBalancerClass) × (classes : List LoadBalancerClass) × Completed
      profile.load_balancer_config.classes config d classes

pub against_cloud_profile-HasClasses :
    (config : ControlPlaneConfig) (profile : CloudProfileConfig)
    → (validate_control_plane_config_against_cloud_profile config profile cp_config_path).1 ≡ []
    → HasClasses profile config
unfolding validate_control_plane_config_against_cloud_profile
against_cloud_profile-HasClasses config profile h =
    let constraints = profile.load_balancer_config.classes in
    let (d, classes, e) =
      overwritten_errors-ok (overwrite_load_balancer_classes constraints config none).1 h in
    (d, classes, overwrite_load_balancer_classes-Completed constraints config none d classes e)

pub profile_comparison-fills :
    (config : ControlPlaneConfig) (profile : CloudProfileConfig)
    → (validate_control_plane_config_against_cloud_profile config profile cp_config_path).0
      ≡ fill_classes config
unfolding validate_control_plane_config_against_cloud_profile overwrite_load_balancer_classes
profile_comparison-fills config profile = refl

pub infrastructure_update-keeps :
    (old new : InfrastructureConfig)
    → validate_infrastructure_config_update (some old) (some new) infra_config_path ≡ []
    → old.networks ≡ new.networks
unfolding validate_infrastructure_config_update
infrastructure_update-keeps old new h =
    same_networks-eq old.networks new.networks ((failed-eq-nil _).0 h).0
  where
    same_networks-eq : (a b : Option Networks) → same_networks a b ≡ true → a ≡ b
    same_networks-eq none none e = refl
    same_networks-eq none (some b) e = cc
    same_networks-eq (some a) none e = cc
    same_networks-eq (some a) (some b) e = ground (
      arith,
      same_iff a.tier1_gateway_path b.tier1_gateway_path,
      same_iff a.load_balancer_service_path b.load_balancer_service_path,
    )

pub shoot-ShootIsValid :
    {R : Type 0} (infra_config : InfrastructureConfig) {s t : Shoot R}
    → s ≡ t
    → ShootIsValid infra_config s
    → ShootIsValid infra_config t
shoot-ShootIsValid infra_config e h = rw (sym e) h
