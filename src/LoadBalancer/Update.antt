-- ===== src/LoadBalancer/Update.antt =====
-- Updates of a control plane's configuration: what they keep.
use gardener_extension_provi.Base.{
  String, Bool, true, false, not, List, [], ◌∷◌, Option, none, some, same, same_iff, same_refl,
  same_option_iff, ◌≡◌, ◌↔◌, ◌⊎◌, refl, arith, inl, inr, Bool-cases, ap, sym, ◌∙◌, if◌then◌else◌,
}
use gardener_extension_provi.Fallible.{ok}
use gardener_extension_provi.Profile.{
  LoadBalancerClass, load_balancer_default_class_name, is_empty_string,
}
use gardener_extension_provi.LoadBalancer.{
  CpLoadBalancerClass, ControlPlaneConfig, filled_classes, fill_classes, constraint_class, lb_class,
  check_ip_pool, overwritten, unless_empty, later_default, overwrite_default,
  overwrite_load_balancer_classes,
}
use gardener_extension_provi.LoadBalancer.Laws.{
  last_named, completed, checked, overwrite_from-completed,
}
use gardener_extension_provi.Validation.{FieldPath, child, forbidden, ErrorList, failed}
use gardener_extension_provi.Validation.Laws.{append-eq-nil, failed-eq-nil}
use gardener_extension_provi.Validation.ControlPlane.{
  dummy_constraints, safe_str, size_kept, default_checks, same_class,
  validate_control_plane_config_update, has_relevant_control_plane_config_updates,
}

-- A pointer that is nil or set to a text.
abbrev IsNormal : Option String → Type 0
IsNormal s = (s ≡ none) ⊎ (is_empty_string s ≡ false)

-- The default class that two configurations are compared by.
abbrev pub dummy_class : LoadBalancerClass
dummy_class = record {
  name = load_balancer_default_class_name;
  ip_pool_name = some "dummy";
  tcp_app_profile_name = none;
  udp_app_profile_name = none;
}

unfoldable pub effective_default : ControlPlaneConfig → LoadBalancerClass
effective_default config =
    last_named dummy_class
      (completed dummy_constraints (filled_classes config.load_balancer_classes))

overwritten-IsNormal : (a b : Option String) → IsNormal (overwritten a b)
unfolding overwritten
overwritten-IsNormal a b = elim (Bool-cases (is_empty_string a)) [
  | inr e ↦ inr (ground arith)
  | inl e ↦ elim (Bool-cases (is_empty_string b)) [
    | inl e1 ↦ inl (ground arith)
    | inr e1 ↦ inr (ground arith)
  ]
]

-- A default class with a pool, and with no name of a profile that is set to the empty text.
abbrev IsDefault : LoadBalancerClass → Type 0
IsDefault c =
    (c.name ≡ load_balancer_default_class_name)
    × (is_empty_string c.ip_pool_name ≡ false)
    × IsNormal c.tcp_app_profile_name
    × IsNormal c.udp_app_profile_name

constraint_class-default :
    (name : String)
    → same name load_balancer_default_class_name ≡ true
    → constraint_class name dummy_constraints ≡ some dummy_class
constraint_class-default name e = ground (
  arith,
  same_iff name load_balancer_default_class_name,
  same_iff load_balancer_default_class_name name,
)

lb_class-name :
    (c : Option LoadBalancerClass) (cp : CpLoadBalancerClass) → (lb_class c cp).name ≡ cp.name
unfolding lb_class
lb_class-name none cp = refl
lb_class-name (some c) cp = refl

lb_class-dummy :
    (cp : CpLoadBalancerClass)
    → cp.name ≡ load_balancer_default_class_name
    → IsDefault (lb_class (some dummy_class) cp)
unfolding lb_class overwritten same
lb_class-dummy cp named = (
  named,
  ground arith,
  overwritten-IsNormal cp.tcp_app_profile_name none,
  overwritten-IsNormal cp.udp_app_profile_name none,
)

lb_class-IsDefault :
    (cp : CpLoadBalancerClass) (d : LoadBalancerClass)
    → IsDefault d
    → same (lb_class (constraint_class cp.name dummy_constraints) cp).name d.name ≡ true
    → IsDefault (lb_class (constraint_class cp.name dummy_constraints) cp)
lb_class-IsDefault cp d h e =
    let lb = lb_class (constraint_class cp.name dummy_constraints) cp in
    let named : cp.name ≡ load_balancer_default_class_name =
      sym (lb_class-name (constraint_class cp.name dummy_constraints) cp)
      ∙ (same_iff _ _).0 e
      ∙ h.0 in
    let found = constraint_class-default cp.name ((same_iff _ _).1 named) in
    rw found (lb_class-dummy cp named)

if-IsDefault :
    (b : Bool) (c d : LoadBalancerClass)
    → (b ≡ true → IsDefault c)
    → IsDefault d
    → IsDefault (if b then c else d)
if-IsDefault true c d f h = f refl
if-IsDefault false c d f h = h

last_named-IsDefault :
    (d : LoadBalancerClass) (cps : List CpLoadBalancerClass)
    → IsDefault d
    → IsDefault (last_named d (completed dummy_constraints cps))
unfolding last_named
last_named-IsDefault d [] h = h
last_named-IsDefault d (cp ∷ cps) h =
    let lb = lb_class (constraint_class cp.name dummy_constraints) cp in
    last_named-IsDefault (if same lb.name d.name then lb else d) cps
      (if-IsDefault (same lb.name d.name) lb d (lb_class-IsDefault cp d h) h)

effective_default-IsDefault : (config : ControlPlaneConfig) → IsDefault (effective_default config)
unfolding effective_default same
effective_default-IsDefault config =
    last_named-IsDefault dummy_class (filled_classes config.load_balancer_classes)
      (refl, refl, inl refl, inl refl)

-- Without a check of pools none is refused.
checked-none : (cps : List CpLoadBalancerClass) → checked none cps ≡ ok tt
unfolding checked check_ip_pool
checked-none [] = refl
checked-none (cp ∷ cps) = checked-none cps

-- The internal errors of an update cannot arise.
overwrite-dummy :
    (config : ControlPlaneConfig)
    → (classes : List LoadBalancerClass) × (overwrite_load_balancer_classes dummy_constraints config
          none
        ≡ (fill_classes config, ok (effective_default config, classes)))
unfolding overwrite_load_balancer_classes overwrite_default effective_default later_default
overwrite-dummy config =
    let cps = filled_classes config.load_balancer_classes in
    let pool = (effective_default-IsDefault config).1 in
    (
      completed dummy_constraints cps,
      rw (overwrite_from-completed dummy_constraints none dummy_class cps)
          (rw (checked-none cps) (rw pool refl)),
    )

safe_str-injective :
    (a b : Option String) → IsNormal a → IsNormal b → same (safe_str a) (safe_str b) ≡ true → a ≡ b
safe_str-injective none none p q e = refl
safe_str-injective none (some t) p q e = ground (arith, same_iff "" t, same_iff t "")
safe_str-injective (some s) none p q e = ground (arith, same_iff s "")
safe_str-injective (some s) (some t) p q e = ground (arith, same_iff s t)

class-eq :
    (a b : LoadBalancerClass)
    → a.name ≡ b.name
    → a.ip_pool_name ≡ b.ip_pool_name
    → a.tcp_app_profile_name ≡ b.tcp_app_profile_name
    → a.udp_app_profile_name ≡ b.udp_app_profile_name
    → a ≡ b
class-eq a b e1 e2 e3 e4 = cc

default_checks_iff :
    (path : FieldPath) (a b : LoadBalancerClass)
    → IsDefault a
    → IsDefault b
    → (default_checks path a b ≡ []) ↔ (a ≡ b)
unfolding default_checks
default_checks_iff path a b p q = (
  (λ h.
      let passed = (failed-eq-nil _).0 h in
      class-eq a b (p.0 ∙ sym q.0) (safe_str-injective _ _ (inr p.1) (inr q.1) passed.0)
        (safe_str-injective _ _ p.2 q.2 passed.1.0) (safe_str-injective _ _ p.3 q.3 passed.1.1.0)),
  λ e. rw e ((failed-eq-nil _).1 (same_refl _, (same_refl _, (same_refl _, tt)))),
)

size_kept_iff :
    (old new : Option String) → (size_kept old new ≡ true) ↔ (unless_empty old ≡ unless_empty new)
unfolding size_kept
size_kept_iff none none = ground arith
size_kept_iff none (some t) = ground arith
size_kept_iff (some s) none = ground arith
size_kept_iff (some s) (some t) = ground (arith, same_iff s t)

-- What an update has to keep.
abbrev pub Kept : ControlPlaneConfig → ControlPlaneConfig → Type 0
Kept old new =
    (unless_empty old.load_balancer_size ≡ unless_empty new.load_balancer_size)
    × (effective_default old ≡ effective_default new)

-- The errors of an update.
abbrev pub update_errors : ControlPlaneConfig → ControlPlaneConfig → FieldPath → ErrorList
update_errors old new path = (validate_control_plane_config_update old new path).2

-- ValidateControlPlaneConfigUpdate accepts an update exactly if the size of the load balancer is unset or set to the same value in both configurations, and both give the same default class when they complete one dummy constraint.
pub validate_control_plane_config_update_iff :
    (old new : ControlPlaneConfig) (path : FieldPath)
    → (update_errors old new path ≡ []) ↔ Kept old new
unfolding validate_control_plane_config_update
validate_control_plane_config_update_iff old new path =
    let (old_classes, e1) = overwrite-dummy old in
    let (new_classes, e2) = overwrite-dummy new in
    let size = failed (
      (
        size_kept old.load_balancer_size new.load_balancer_size,
        forbidden (child path "loadBalancerSize"),
      )
      ∷ []) in
    let defaults = default_checks path (effective_default old) (effective_default new) in
    let parts = append-eq-nil size defaults in
    let size_iff = size_kept_iff old.load_balancer_size new.load_balancer_size in
    let defaults_iff =
      default_checks_iff path (effective_default old) (effective_default new)
        (effective_default-IsDefault old) (effective_default-IsDefault new) in
    rw e1 (
      rw e2 (
        (λ h.
            let (h1, h2) = parts.0 h in
            (size_iff.0 (((failed-eq-nil _).0 h1).0), defaults_iff.0 h2)),
        λ k. parts.1 ((failed-eq-nil _).1 (size_iff.1 k.0, tt), defaults_iff.1 k.1),
      ))

filled_classes-idempotent :
    (config : ControlPlaneConfig)
    → effective_default (fill_classes config) ≡ effective_default config
unfolding effective_default
filled_classes-idempotent config =
    ap (λ cps. last_named dummy_class (completed dummy_constraints cps))
      (filled config.load_balancer_classes)
  where
    filled :
        (cps : List CpLoadBalancerClass) → filled_classes (filled_classes cps) ≡ filled_classes cps
    filled [] = refl
    filled (cp ∷ cps) = refl

updated_configs :
    (old new : ControlPlaneConfig) (path : FieldPath)
    → ((validate_control_plane_config_update old new path).0 ≡ fill_classes old)
      × ((validate_control_plane_config_update old new path).1 ≡ fill_classes new)
unfolding validate_control_plane_config_update
updated_configs old new path = rw (overwrite-dummy old).1 (rw (overwrite-dummy new).1 (refl, refl))

-- The webhook's question after the update of a configuration was compared with the old one.
abbrev pub relevant_after : ControlPlaneConfig → ControlPlaneConfig → FieldPath → Bool
relevant_after old new path =
    let (old', new', errors) = validate_control_plane_config_update old new path in
    (has_relevant_control_plane_config_updates old' new').2

same_class_refl : (c : LoadBalancerClass) → same_class c c ≡ true
unfolding same_class
same_class_refl c = ground (
  arith,
  same_refl c.name,
  (same_option_iff c.ip_pool_name c.ip_pool_name).1 refl,
  (same_option_iff c.tcp_app_profile_name c.tcp_app_profile_name).1 refl,
  (same_option_iff c.udp_app_profile_name c.udp_app_profile_name).1 refl,
)

-- After ValidateControlPlaneConfigUpdate has accepted an update, HasRelevantControlPlaneConfigUpdates finds no relevant change in the two configurations that it leaves behind: no accepted update is compared with the cloud profile.
pub accepted_update-not-relevant :
    (old new : ControlPlaneConfig) (path : FieldPath)
    → update_errors old new path ≡ []
    → relevant_after old new path ≡ false
unfolding has_relevant_control_plane_config_updates
accepted_update-not-relevant old new path h =
    let kept = ((validate_control_plane_config_update_iff old new path).0 h).1 in
    let (f1, f2) = updated_configs old new path in
    rw f1 (
      rw f2 (
        rw (overwrite-dummy (fill_classes old)).1 (
          rw (overwrite-dummy (fill_classes new)).1 (
            rw (filled_classes-idempotent old) (
              rw (filled_classes-idempotent new)
                (rw kept (ap not (same_class_refl (effective_default new)))))))))
