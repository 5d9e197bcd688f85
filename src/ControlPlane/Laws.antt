-- ===== src/ControlPlane/Laws.antt =====
-- The load balancer of the configuration values.
use mathlib.Core.Path.{subst}
use gardener_extension_provi.Base.{
  ◌∙◌, String, false, List, Option, none, some, ◌≡◌, sym, ap, arith, map, same, All,
}
use gardener_extension_provi.Fallible.{ok-eq, Fallible, ok, err, >>=-eq-ok}
use gardener_extension_provi.Profile.{CloudProfileConfig, LoadBalancerClass, is_empty_string}
use gardener_extension_provi.Profile.Find.{find_region}
use gardener_extension_provi.Validation.Infrastructure.{InfrastructureConfig}
use gardener_extension_provi.Credentials.{ccm_account}
use gardener_extension_provi.LoadBalancer.{OverwriteError, overwrite_load_balancer_classes}
use gardener_extension_provi.LoadBalancer.Laws.{overwrite_load_balancer_classes-IsOverwritten}
use gardener_extension_provi.LoadBalancer.Authorized.{
  IsAuthorized, overwrite_load_balancer_classes-IsAuthorized,
}
use gardener_extension_provi.Actuator.Status.{InfrastructureStatus}
use gardener_extension_provi.ControlPlane.{
  LoadBalancerValues, ConfigValues, Sources, class_values, follow, reading, overwriting,
  known_region, split_server_name_and_port, load_balancer_values, get_config_chart_values,
}

-- A pool, and classes whose pools the check allows or the profile gives.
abbrev pub HasAuthorizedPools : Sources → CloudProfileConfig → LoadBalancerValues → Type 0
HasAuthorizedPools sources config values =
    (same values.ip_pool_name "" ≡ false)
    × ((classes : List LoadBalancerClass) × (values.classes ≡ map class_values classes)
        × All (IsAuthorized sources.check config.load_balancer_config.classes) classes)

overwriting-ok :
    {A : Type 0} (r : Fallible OverwriteError A) {a : A} → overwriting r ≡ ok a → r ≡ ok a
overwriting-ok (ok b) h = cc
overwriting-ok (err e) h = cc

follow-filled :
    (o : Option String) (name : String)
    → follow o ≡ ok name
    → is_empty_string o ≡ false
    → same name "" ≡ false
follow-filled none name h e = cc
follow-filled (some s) name h e = ground arith

module _ (sources : Sources) where
  load_balancer_values-HasAuthorizedPools :
      (config : CloudProfileConfig) (infra_config : InfrastructureConfig)
      (stored : Option InfrastructureStatus) (values : LoadBalancerValues)
      → load_balancer_values sources config infra_config stored ≡ ok values
      → HasAuthorizedPools sources config values
  unfolding load_balancer_values
  load_balancer_values-HasAuthorizedPools config infra_config stored values h =
      let constraints = config.load_balancer_config.classes in
      let overwritten =
        (overwrite_load_balancer_classes constraints sources.cp_config (some sources.check)).1 in
      let (found, e1, h1) = >>=-eq-ok (overwriting overwritten) _ h in
      let (pool, e2, h2) = >>=-eq-ok (follow found.0.ip_pool_name) _ h1 in
      let (status, e3, h3) = >>=-eq-ok (follow stored) _ h2 in
      let e = overwriting-ok overwritten e1 in
      let (all, default_found, filled) =
        overwrite_load_balancer_classes-IsOverwritten constraints sources.cp_config
          (some sources.check) found.0 found.1 e in
      let made = ok-eq h3 in
      (
        rw (sym (ap (λ (v : LoadBalancerValues). v.ip_pool_name) made))
            (follow-filled found.0.ip_pool_name pool e2 filled),
        (
          found.1,
          ap (λ (v : LoadBalancerValues). v.classes) (sym made),
          overwrite_load_balancer_classes-IsAuthorized sources.check constraints sources.cp_config
              found.0 found.1 e,
        ),
      )

  -- Where the values of the configuration are made, the load balancer has an IP pool, and each of its classes comes from one that has no pool, a pool that the check of the shoot's authorization allows, or the pool of the first class of its name in the cloud profile.
  pub get_config_chart_values-HasAuthorizedPools :
      (config : CloudProfileConfig) (values : ConfigValues)
      → sources.config ≡ ok (some config)
      → get_config_chart_values sources ≡ ok values
      → HasAuthorizedPools sources config values.load_balancer
  unfolding get_config_chart_values
  get_config_chart_values-HasAuthorizedPools config values read h =
      let (profile, e1, h1) = >>=-eq-ok (reading sources.config) _ h in
      let (infra_config, e2, h2) = >>=-eq-ok (reading sources.infra_config) _ h1 in
      let (config', e3, h3) = >>=-eq-ok (follow profile) _ h2 in
      let (region, e4, h4) =
        >>=-eq-ok (known_region (find_region sources.region config'.regions)) _ h3 in
      let (server, e5, h5) = >>=-eq-ok (split_server_name_and_port region.vsphere_host) _ h4 in
      let (stored, e6, h6) = >>=-eq-ok (reading sources.infra_status) _ h5 in
      let (load_balancer, e7, h7) =
        >>=-eq-ok (load_balancer_values sources config' infra_config stored) _ h6 in
      let (ccm, e8, h8) = >>=-eq-ok (follow (ccm_account sources.credentials)) _ h7 in
      let (nsxt, e9, h9) = >>=-eq-ok (follow sources.credentials.nsxt) _ h8 in
      let made = ok-eq h9 in
      let same_profile : some config ≡ profile = ok-eq (ap reading (sym read) ∙ e1) in
      let same_config : config ≡ config' = ok-eq (ap follow same_profile ∙ e3) in
      let pools =
        load_balancer_values-HasAuthorizedPools config' infra_config stored load_balancer e7 in
      subst (λ v. HasAuthorizedPools sources config v)
        (ap (λ (v : ConfigValues). v.load_balancer) made)
        (subst (λ c. HasAuthorizedPools sources c load_balancer) (sym same_config) pools)
