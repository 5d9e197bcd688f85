-- ===== src/LoadBalancer/Authorized.antt =====
-- Which IP pools the load balancer classes of a shoot can have.
use gardener_extension_provi.Base.{
  String, false, List, [], ◌∷◌, Option, none, some, ◌≡◌, ◌⊎◌, refl, sym, ◌∙◌, ap, arith, inl, inr,
  All, Bool-cases, Option-cases, same,
}
use gardener_extension_provi.Fallible.{ok, ◌>>◌, >>=-eq-ok}
use gardener_extension_provi.Profile.{LoadBalancerClass}
use gardener_extension_provi.LoadBalancer.{
  CpLoadBalancerClass, ControlPlaneConfig, filled_classes, constraint_class, lb_class, overwritten,
  check_ip_pool, with_ip_pool, default_class_of, overwrite_default, overwrite_load_balancer_classes,
}
use gardener_extension_provi.LoadBalancer.Laws.{
  completed, checked, last_named, overwrite_from-completed,
  overwrite_load_balancer_classes-IsOverwritten,
}

-- A class without a pool, with one that the check allows, or with that of the constraint of its name.
abbrev pub IsAuthorized :
    (String → Option String) → List LoadBalancerClass → LoadBalancerClass → Type 0
IsAuthorized check constraints c =
    (c.ip_pool_name ≡ none)
    ⊎ ((pool : String) × (c.ip_pool_name ≡ some pool)
        × ((check pool ≡ none)
            ⊎ ((k : LoadBalancerClass) × (constraint_class c.name constraints ≡ some k)
                × (k.ip_pool_name ≡ some pool))))

check_ip_pool-allowed :
    (check : String → Option String) (pool : String)
    → same pool "" ≡ false
    → check_ip_pool (some check) (some pool) ≡ ok tt
    → check pool ≡ none
unfolding check_ip_pool
check_ip_pool-allowed check pool e h = elim (Option-cases (check pool)) [
  | inl none_found ↦ none_found
  | inr (x, found) ↦ absurd (ground arith)
]

-- Where a name of a class comes from.
overwritten-source :
    (own constraint : Option String)
    → (overwritten own constraint ≡ none)
      ⊎ ((name : String) × (overwritten own constraint ≡ some name)
          × (((own ≡ some name) × (same name "" ≡ false)) ⊎ (constraint ≡ some name)))
unfolding overwritten
overwritten-source none none = inl (ground arith)
overwritten-source none (some c) = elim (Bool-cases (same c "")) [
  | inl e ↦ inl (ground arith)
  | inr e ↦ inr (c, ground arith, inr refl)
]
overwritten-source (some own) constraint = elim (Bool-cases (same own "")) [
  | inr e ↦ inr (own, ground arith, inl (refl, e))
  | inl e ↦ elim (Option-cases constraint) [
    | inl none_set ↦ inl (ground arith)
    | inr (c, set) ↦ elim (Bool-cases (same c "")) [
      | inl e1 ↦ inl (ground arith)
      | inr e1 ↦ inr (c, ground arith, inr set)
    ]
  ]
]

module _ (check : String → Option String) (constraints : List LoadBalancerClass) where
  lb_class-IsAuthorized :
      (cp : CpLoadBalancerClass) (c : Option LoadBalancerClass)
      → constraint_class cp.name constraints ≡ c
      → check_ip_pool (some check) cp.ip_pool_name ≡ ok tt
      → IsAuthorized check constraints (lb_class c cp)
  unfolding lb_class
  lb_class-IsAuthorized cp none e h = elim (overwritten-source cp.ip_pool_name none) [
    | inl unset ↦ inl unset
    | inr (pool, set, inl (own, filled)) ↦ inr (
      pool,
      set,
      inl (check_ip_pool-allowed check pool filled (ap (check_ip_pool (some check)) (sym own) ∙ h)),
    )
    | inr (pool, set, inr absent) ↦ absurd (ground arith)
  ]
  lb_class-IsAuthorized cp (some k) e h = elim (overwritten-source cp.ip_pool_name k.ip_pool_name) [
    | inl unset ↦ inl unset
    | inr (pool, set, inl (own, filled)) ↦ inr (
      pool,
      set,
      inl (check_ip_pool-allowed check pool filled (ap (check_ip_pool (some check)) (sym own) ∙ h)),
    )
    | inr (pool, set, inr of_constraint) ↦ inr (pool, set, inr (k, e, of_constraint))
  ]

  completed-IsAuthorized :
      (cps : List CpLoadBalancerClass)
      → checked (some check) cps ≡ ok tt
      → All (IsAuthorized check constraints) (completed constraints cps)
  unfolding checked
  completed-IsAuthorized [] h = tt
  completed-IsAuthorized (cp ∷ cps) h =
      let (u, e, h1) = >>=-eq-ok (check_ip_pool (some check) cp.ip_pool_name) _ h in
      (
        lb_class-IsAuthorized cp (constraint_class cp.name constraints) refl e,
        completed-IsAuthorized cps h1,
      )

  -- A result comes after all checks.
  overwritten-checked :
      (config : ControlPlaneConfig) (d : LoadBalancerClass) (classes : List LoadBalancerClass)
      → (overwrite_load_balancer_classes constraints config (some check)).1 ≡ ok (d, classes)
      → checked (some check) (filled_classes config.load_balancer_classes) ≡ ok tt
  unfolding overwrite_load_balancer_classes overwrite_default
  overwritten-checked config d classes h = overwritten_from (default_class_of constraints) h
    where
      overwritten_from :
          (d0 : Option LoadBalancerClass)
          → overwrite_default constraints
              (some check)
              (filled_classes config.load_balancer_classes)
              d0
            ≡ ok (d, classes)
          → checked (some check) (filled_classes config.load_balancer_classes) ≡ ok tt
      overwritten_from none r = cc
      overwritten_from (some d0) r =
          let cps = filled_classes config.load_balancer_classes in
          let (found, e, r1) =
            >>=-eq-ok
              (checked (some check) cps
                >> ok (last_named d0 (completed constraints cps), completed constraints cps))
              with_ip_pool {final = (d, classes)}
              (rw (sym (overwrite_from-completed constraints (some check) d0 cps)) r) in
          let (u, e1, r2) = >>=-eq-ok (checked (some check) cps) _ e in e1

  -- Where OverwriteLoadBalancerClasses succeeds with a check of IP pools, each class has no pool, one that the check allows, or that of the first constraint of its name.
  pub overwrite_load_balancer_classes-IsAuthorized :
      (config : ControlPlaneConfig) (d : LoadBalancerClass) (classes : List LoadBalancerClass)
      → (overwrite_load_balancer_classes constraints config (some check)).1 ≡ ok (d, classes)
      → All (IsAuthorized check constraints) classes
  overwrite_load_balancer_classes-IsAuthorized config d classes h =
      let (e, default_found, pool) =
        overwrite_load_balancer_classes-IsOverwritten constraints config (some check) d classes h in
      rw e (
        completed-IsAuthorized (filled_classes config.load_balancer_classes)
          (overwritten-checked config d classes h))
