-- ===== src/LoadBalancer/Laws.antt =====
-- What `OverwriteLoadBalancerClasses` computes, as one equation over all classes.
use gardener_extension_provi.Base.{
  false, List, [], ◌∷◌, some, same, ◌≡◌, sym, refl, arith, map, inl, inr, Bool-cases, if◌then◌else◌,
}
use gardener_extension_provi.Fallible.{Fallible, ok, err, ◌>>=◌, ◌>>◌}
use gardener_extension_provi.Profile.{LoadBalancerClass, is_empty_string}
use gardener_extension_provi.LoadBalancer.{
  CpLoadBalancerClass, ControlPlaneConfig, OverwriteError, CheckPool, filled_classes,
  default_class_of, later_default, constraint_class, lb_class, check_ip_pool, replaced_default,
  overwrite_from, with_ip_pool, overwrite_default, overwrite_load_balancer_classes,
}

-- The last class of a name, or else the one given.
unfoldable pub last_named : LoadBalancerClass → List LoadBalancerClass → LoadBalancerClass
last_named d [] = d
last_named d (c ∷ cs) = last_named (if same c.name d.name then c else d) cs

-- Each class of the shoot, completed by the constraint of its name.
abbrev pub completed : List LoadBalancerClass → List CpLoadBalancerClass → List LoadBalancerClass
completed constraints cps =
    map (λ (cp : CpLoadBalancerClass). lb_class (constraint_class cp.name constraints) cp) cps

-- The first pool of the shoot that is refused, if any.
unfoldable pub checked : CheckPool → List CpLoadBalancerClass → Fallible OverwriteError (Unit {0})
checked check [] = ok tt
checked check (cp ∷ cps) = check_ip_pool check cp.ip_pool_name >> checked check cps

>>-ok :
    {A B : Type 0} (m n : Fallible OverwriteError (Unit {0})) (a : A) (f : A → B)
    → (m >> ((n >> ok a) >>= λ r. ok (f r))) ≡ ((m >> n) >> ok (f a))
>>-ok (ok u) (ok v) a f = refl
>>-ok (ok u) (err e) a f = refl
>>-ok (err e) n a f = refl

pub overwrite_from-completed :
    (constraints : List LoadBalancerClass) (check : CheckPool) (d : LoadBalancerClass)
    (cps : List CpLoadBalancerClass)
    → overwrite_from constraints check d cps ≡ (
        checked check cps
        >> ok (last_named d (completed constraints cps), completed constraints cps))
unfolding overwrite_from last_named checked
overwrite_from-completed constraints check d [] = refl
overwrite_from-completed constraints check d (cp ∷ cps) =
    let lb = lb_class (constraint_class cp.name constraints) cp in
    rw (overwrite_from-completed constraints check (replaced_default d lb) cps) (
      >>-ok (check_ip_pool check cp.ip_pool_name) (checked check cps)
        (last_named (replaced_default d lb) (completed constraints cps), completed constraints cps)
        (λ r. (r.0, lb ∷ r.1)))

-- A result, in the terms of the code's own steps.
abbrev pub IsOverwritten :
    List LoadBalancerClass
    → ControlPlaneConfig
    → LoadBalancerClass
    → List LoadBalancerClass
    → Type 0
IsOverwritten constraints config d classes =
    (classes ≡ completed constraints (filled_classes config.load_balancer_classes))
    × ((d0 : LoadBalancerClass) × (default_class_of constraints ≡ some d0)
        × (d ≡ last_named d0 classes))
    × (is_empty_string d.ip_pool_name ≡ false)

with_ip_pool-ok :
    (m : Fallible OverwriteError (Unit {0})) (d0 d : LoadBalancerClass)
    (classes0 classes : List LoadBalancerClass)
    → ((m >> ok (d0, classes0)) >>= with_ip_pool) ≡ ok (d, classes)
    → (d ≡ d0) × (classes ≡ classes0) × (is_empty_string d.ip_pool_name ≡ false)
with_ip_pool-ok (ok u) d0 d classes0 classes h =
    elim (Bool-cases (is_empty_string d0.ip_pool_name)) [
      | inl e ↦ absurd (ground arith)
      | inr e ↦ ground arith
    ]
with_ip_pool-ok (err e) d0 d classes0 classes h = cc

pub overwrite_load_balancer_classes-IsOverwritten :
    (constraints : List LoadBalancerClass) (config : ControlPlaneConfig) (check : CheckPool)
    (d : LoadBalancerClass) (classes : List LoadBalancerClass)
    → (overwrite_load_balancer_classes constraints config check).1 ≡ ok (d, classes)
    → IsOverwritten constraints config d classes
unfolding overwrite_load_balancer_classes overwrite_default
overwrite_load_balancer_classes-IsOverwritten [] config check d classes h = cc
overwrite_load_balancer_classes-IsOverwritten (c ∷ cs) config check d classes h =
    let cps = filled_classes config.load_balancer_classes in
    let d0 = later_default c cs in
    let all = completed (c ∷ cs) cps in
    let (e1, e2, pool) =
      with_ip_pool-ok (checked check cps) (last_named d0 all) d all classes
        (rw (sym (overwrite_from-completed (c ∷ cs) check d0 cps)) h) in
    (e2, (d0, refl, rw e2 e1), pool)
