-- ===== src/LoadBalancer/Completed.antt =====
-- What `OverwriteLoadBalancerClasses` gives, against a description class by class.
use mathlib.Core.Path.{subst}
use gardener_extension_provi.Base.{
  String, false, List, [], ◌∷◌, Option, none, some, ◌≡◌, ◌≢◌, ◌⊎◌, refl, sym, ◌∙◌, ap, arith, inl,
  inr, Bool-cases, same, same_iff,
}
use gardener_extension_provi.Fallible.{ok}
use gardener_extension_provi.Profile.{
  LoadBalancerClass, load_balancer_default_class_name, is_empty_string,
}
use gardener_extension_provi.LoadBalancer.{
  CpLoadBalancerClass, ControlPlaneConfig, CheckPool, filled_classes, default_class_of,
  later_default, constraint_class, lb_class, overwritten, unless_empty,
  overwrite_load_balancer_classes,
}
use gardener_extension_provi.LoadBalancer.Laws.{
  last_named, completed, overwrite_load_balancer_classes-IsOverwritten,
}
use gardener_extension_provi.LoadBalancer.Last.{IsLast, IsLast-step}

-- A name that is nil or the empty text.
abbrev pub IsUnset : Option String → Type 0
IsUnset s = (s ≡ none) ⊎ (s ≡ some "")

-- The name that a class ends with, from its own and that of the constraint.
pub data Chosen : Option String → Option String → Option String → Type 0 where
  own : {s : String} {constraint : Option String} → s ≢ "" → Chosen (some s) constraint (some s)
  theirs : {o : Option String} {s : String} → IsUnset o → s ≢ "" → Chosen o (some s) (some s)
  neither :
      {o constraint : Option String} → IsUnset o → IsUnset constraint → Chosen o constraint none

-- The first constraint of a name, if there is one.
pub data FirstNamed (name : String)
    : List LoadBalancerClass → Option LoadBalancerClass → Type 0 where
  absent : FirstNamed name [] none
  here :
      {c : LoadBalancerClass} {cs : List LoadBalancerClass}
      → c.name ≡ name
      → FirstNamed name (c ∷ cs) (some c)
  later :
      {c : LoadBalancerClass} {cs : List LoadBalancerClass} {found : Option LoadBalancerClass}
      → c.name ≢ name
      → FirstNamed name cs found
      → FirstNamed name (c ∷ cs) found

-- A field of a constraint that may be missing.
abbrev pub field : (LoadBalancerClass → Option String) → Option LoadBalancerClass → Option String
field f none = none
field f (some c) = f c

-- A class of the control plane, completed from the constraint of its name.
pub record Completes (cp : CpLoadBalancerClass) (k : Option LoadBalancerClass)
    (c : LoadBalancerClass) : Type 0 where
  pub named : c.name ≡ cp.name
  pub pool : Chosen cp.ip_pool_name (field (λ k. k.ip_pool_name) k) c.ip_pool_name
  pub tcp :
      Chosen cp.tcp_app_profile_name (field (λ k. k.tcp_app_profile_name) k) c.tcp_app_profile_name
  pub udp :
      Chosen cp.udp_app_profile_name (field (λ k. k.udp_app_profile_name) k) c.udp_app_profile_name

-- Class by class, in order.
abbrev pub AreCompleted :
    List LoadBalancerClass → List CpLoadBalancerClass → List LoadBalancerClass → Type 0
AreCompleted constraints [] [] = Unit
AreCompleted constraints [] (c ∷ cs) = ⊥
AreCompleted constraints (cp ∷ cps) [] = ⊥
AreCompleted constraints (cp ∷ cps) (c ∷ cs) =
    ((k : Option LoadBalancerClass) × FirstNamed cp.name constraints k × Completes cp k c)
    × AreCompleted constraints cps cs

-- The classes of the control plane; where it has none, one class called the default.
abbrev pub classes_or_default : List CpLoadBalancerClass → List CpLoadBalancerClass
classes_or_default [] =
    record {
      name = "default";
      ip_pool_name = none;
      tcp_app_profile_name = none;
      udp_app_profile_name = none;
    }
    ∷ []
classes_or_default (c ∷ cs) = c ∷ cs

-- The default class of the constraints: the last that is called so, or else the first of them all.
abbrev pub IsDefaultOf : List LoadBalancerClass → LoadBalancerClass → Type 0
IsDefaultOf [] d = ⊥
IsDefaultOf (c ∷ cs) d = IsLast "default" c cs d

-- What a caller learns from a result.
abbrev pub Completed :
    List LoadBalancerClass
    → ControlPlaneConfig
    → LoadBalancerClass
    → List LoadBalancerClass
    → Type 0
Completed constraints config d classes =
    AreCompleted constraints (classes_or_default config.load_balancer_classes) classes
    × ((d0 : LoadBalancerClass) × IsDefaultOf constraints d0 × IsLast d0.name d0 classes d)
    × ((pool : String) × (d.ip_pool_name ≡ some pool) × (pool ≢ ""))

-- The name of the constraint stands where the class has none of its own.
unless_empty-Chosen : (o c : Option String) → IsUnset o → Chosen o c (unless_empty c)
unless_empty-Chosen o none u = neither u (inl refl)
unless_empty-Chosen o (some c) u = elim (Bool-cases (same c "")) [
  | inl e ↦ rw e (neither u (inr (ap some ((same_iff c "").0 e))))
  | inr e ↦ rw e (theirs u (λ q. ground (arith, same_iff c "")))
]

overwritten-Chosen : (o c : Option String) → Chosen o c (overwritten o c)
unfolding overwritten
overwritten-Chosen none c = unless_empty-Chosen none c (inl refl)
overwritten-Chosen (some o) c = elim (Bool-cases (same o "")) [
  | inr e ↦ rw e (own (λ q. ground (arith, same_iff o "")))
  | inl e ↦ rw e (unless_empty-Chosen (some o) c (inr (ap some ((same_iff o "").0 e))))
]

constraint_class-FirstNamed :
    (name : String) (constraints : List LoadBalancerClass)
    → FirstNamed name constraints (constraint_class name constraints)
constraint_class-FirstNamed name [] = absent
constraint_class-FirstNamed name (c ∷ cs) = elim (Bool-cases (same c.name name)) [
  | inl e ↦ rw e (here ((same_iff c.name name).0 e))
  | inr e ↦
      rw e (later (λ q. ground (arith, same_iff c.name name)) (constraint_class-FirstNamed name cs))
]

lb_class-Completes :
    (k : Option LoadBalancerClass) (cp : CpLoadBalancerClass) → Completes cp k (lb_class k cp)
unfolding lb_class
lb_class-Completes none cp = record {
  named = refl;
  pool = overwritten-Chosen cp.ip_pool_name none;
  tcp = overwritten-Chosen cp.tcp_app_profile_name none;
  udp = overwritten-Chosen cp.udp_app_profile_name none;
}
lb_class-Completes (some c) cp = record {
  named = refl;
  pool = overwritten-Chosen cp.ip_pool_name c.ip_pool_name;
  tcp = overwritten-Chosen cp.tcp_app_profile_name c.tcp_app_profile_name;
  udp = overwritten-Chosen cp.udp_app_profile_name c.udp_app_profile_name;
}

completed-AreCompleted :
    (constraints : List LoadBalancerClass) (cps : List CpLoadBalancerClass)
    → AreCompleted constraints cps (completed constraints cps)
completed-AreCompleted constraints [] = tt
completed-AreCompleted constraints (cp ∷ cps) = (
  (
    constraint_class cp.name constraints,
    constraint_class-FirstNamed cp.name constraints,
    lb_class-Completes (constraint_class cp.name constraints) cp,
  ),
  completed-AreCompleted constraints cps,
)

last_named-IsLast :
    (name : String) (first : LoadBalancerClass) (cs : List LoadBalancerClass)
    → first.name ≡ name
    → IsLast name first cs (last_named first cs)
unfolding last_named
last_named-IsLast name first [] e = inl (refl, tt)
last_named-IsLast name first (c ∷ cs) e =
    let eq = same_iff c.name first.name in
    IsLast-step name first c cs (λ d. last_named d cs) (same c.name first.name)
      (λ q. (eq.0 q ∙ e, last_named-IsLast name c cs (eq.0 q ∙ e)))
      (λ q. ((λ p. ground (arith, eq)), last_named-IsLast name first cs e))

later_default-IsLast :
    (first : LoadBalancerClass) (cs : List LoadBalancerClass)
    → IsLast "default" first cs (later_default first cs)
unfolding later_default
later_default-IsLast first [] = inl (refl, tt)
later_default-IsLast first (c ∷ cs) =
    let eq = same_iff c.name load_balancer_default_class_name in
    IsLast-step "default" first c cs (λ d. later_default d cs)
      (same c.name load_balancer_default_class_name) (λ q. (eq.0 q, later_default-IsLast c cs))
      (λ q. ((λ p. ground (arith, eq)), later_default-IsLast first cs))

default_class_of-IsDefaultOf :
    (constraints : List LoadBalancerClass) {d : LoadBalancerClass}
    → default_class_of constraints ≡ some d
    → IsDefaultOf constraints d
default_class_of-IsDefaultOf [] h = cc
default_class_of-IsDefaultOf (c ∷ cs) {d} h =
    let e : later_default c cs ≡ d = cc in
    subst (IsLast "default" c cs) e (later_default-IsLast c cs)

filled_classes-eq : (cps : List CpLoadBalancerClass) → filled_classes cps ≡ classes_or_default cps
filled_classes-eq [] = refl
filled_classes-eq (cp ∷ cps) = refl

is_empty_string-set :
    (s : Option String) → is_empty_string s ≡ false → (t : String) × (s ≡ some t) × (t ≢ "")
is_empty_string-set none h = cc
is_empty_string-set (some t) h = (t, refl, λ e. ground (arith, same_iff t ""))

pub overwrite_load_balancer_classes-Completed :
    (constraints : List LoadBalancerClass) (config : ControlPlaneConfig) (check : CheckPool)
    (d : LoadBalancerClass) (classes : List LoadBalancerClass)
    → (overwrite_load_balancer_classes constraints config check).1 ≡ ok (d, classes)
    → Completed constraints config d classes
overwrite_load_balancer_classes-Completed constraints config check d classes h =
    let (made, (d0, of_constraints, last), pool) =
      overwrite_load_balancer_classes-IsOverwritten constraints config check d classes h in
    (
      subst (λ cps. AreCompleted constraints cps classes)
          (filled_classes-eq config.load_balancer_classes)
          (subst (AreCompleted constraints (filled_classes config.load_balancer_classes)) (sym made)
            (completed-AreCompleted constraints (filled_classes config.load_balancer_classes))),
      (
        d0,
        default_class_of-IsDefaultOf constraints of_constraints,
        subst (IsLast d0.name d0 classes) (sym last) (last_named-IsLast d0.name d0 classes refl),
      ),
      is_empty_string-set d.ip_pool_name pool,
    )
