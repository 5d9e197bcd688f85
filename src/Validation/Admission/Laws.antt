-- ===== src/Validation/Admission/Laws.antt =====
-- What is known of a shoot that the admission accepts.
use gardener_extension_provi.Base.{[], some, ◌≡◌, sym, ◌∙◌, ap, arith}
use gardener_extension_provi.Fallible.{ok, >>=-eq-ok}
use gardener_extension_provi.LoadBalancer.{ControlPlaneConfig, fill_classes}
use gardener_extension_provi.LoadBalancer.Update.{
  Kept, update_errors as cp_update_errors, validate_control_plane_config_update_iff,
}
use gardener_extension_provi.Validation.{failed}
use gardener_extension_provi.Validation.Laws.{append-eq-nil, failed-eq-nil}
use gardener_extension_provi.Validation.Infrastructure.{
  validate_infrastructure_config, validate_infrastructure_config_update, networks_errors,
}
use gardener_extension_provi.Validation.ControlPlane.{
  validate_control_plane_config, validate_control_plane_config_update,
  validate_control_plane_config_against_cloud_profile, has_relevant_control_plane_config_updates,
}
use gardener_extension_provi.Validation.Shoot.{
  validate_networking, validate_networking_update, validate_workers, validate_workers_update,
}
use gardener_extension_provi.Validation.Shoot.Laws.{validate_workers_iff}
use gardener_extension_provi.Validation.Admission.{
  Shoot, Api, ValidationContext, running, new_validation_context, validate_shoot,
  validate_shoot_secret, creation_errors, validate_shoot_creation, update_errors,
  validate_shoot_update, networking_path, infra_config_path, cp_config_path, workers_path,
  relevant_cp_errors,
}
use gardener_extension_provi.Validation.Admission.Parts.{
  validate_networking_iff, to_aggregate-ok, is_valid_ensurer_version-IsSupported,
  networks_errors-HasPaths, CpIsValid, validate_control_plane_config-CpIsValid, ShootIsValid,
  HasClasses, against_cloud_profile-HasClasses, profile_comparison-fills,
  infrastructure_update-keeps, shoot-ShootIsValid,
}
use gardener_extension_provi.Validation.Admission.Accounts.{
  HasAccounts, validate_shoot_secret-HasAccounts,
}

module _ {R Ref : Type 0} (api : Api R Ref) where
  context-shoot :
      (shoot : Shoot R) {ctx : ValidationContext R}
      → new_validation_context api shoot ≡ ok ctx
      → ctx.shoot ≡ shoot
  unfolding new_validation_context
  context-shoot shoot h = ground arith

  validate_shoot-ShootIsValid :
      (ctx : ValidationContext R)
      → validate_shoot api ctx ≡ []
      → ShootIsValid ctx.infra_config ctx.shoot
  unfolding validate_shoot validate_infrastructure_config
  validate_shoot-ShootIsValid ctx h =
      let (h1, r1) =
        (append-eq-nil (validate_networking ctx.shoot.networking networking_path) _).0 h in
      let (h2, r2) =
        (append-eq-nil (validate_infrastructure_config (some ctx.infra_config) infra_config_path)
            _).0
          r1 in
      let (h4, h5) = (append-eq-nil (failed _) (networks_errors infra_config_path _)).0 h2 in
      let (h3, r3) =
        (append-eq-nil
            (validate_control_plane_config (api.validate_feature_gates ctx.shoot.kubernetes_version)
              ctx.cp_config cp_config_path)
            (validate_workers ctx.shoot.workers workers_path)).0
          r2 in
      (
        validate_networking_iff ctx.shoot.networking networking_path h1,
        is_valid_ensurer_version-IsSupported ctx.infra_config.overwrite_nsxt_infra_version
            ((failed-eq-nil _).0 h4).0,
        networks_errors-HasPaths infra_config_path ctx.infra_config.networks h5,
        (validate_workers_iff ctx.shoot.workers workers_path).0 r3,
      )

  -- The part of `validateShoot` that looks at the control plane.
  validate_shoot-CpIsValid :
      (ctx : ValidationContext R) (config : ControlPlaneConfig)
      → ctx.cp_config ≡ fill_classes config
      → validate_shoot api ctx ≡ []
      → CpIsValid config
  unfolding validate_shoot
  validate_shoot-CpIsValid ctx config e h =
      let gates = api.validate_feature_gates ctx.shoot.kubernetes_version in
      let (h1, r1) = (append-eq-nil (validate_networking _ networking_path) _).0 h in
      let (h2, r2) = (append-eq-nil (validate_infrastructure_config _ infra_config_path) _).0 r1 in
      let (h3, r3) =
        (append-eq-nil (validate_control_plane_config gates _ cp_config_path) _).0 r2 in
      validate_control_plane_config-CpIsValid gates config
        (ap (λ c. validate_control_plane_config gates c cp_config_path) (sym e) ∙ h3)

  -- A shoot whose creation is admitted has a context; its networking has nodes; its version of the ensurer is 1 or 2, if it gives one, and its existing objects of NSX-T have paths, if it gives them; each worker has zones, none twice; the load balancer classes of its control plane have names and its load balancer a known size, if any; the cloud profile completes these classes with a default class that has an IP pool; and its secret holds a vSphere account and an NSX-T account with names and passwords.
  pub validate_shoot_creation_sound :
      (shoot : Shoot R)
      → validate_shoot_creation api shoot ≡ ok tt
      → (ctx : ValidationContext R) × (new_validation_context api shoot ≡ ok ctx)
        × ShootIsValid ctx.infra_config shoot
        × CpIsValid ctx.cp_config
        × HasClasses ctx.cloud_profile_config ctx.cp_config
        × HasAccounts api shoot
  unfolding validate_shoot_creation creation_errors
  validate_shoot_creation_sound shoot h =
      let (ctx, e, h1) = >>=-eq-ok (new_validation_context api shoot) _ h in
      let same_shoot = context-shoot shoot e in
      let (config', errors) =
        validate_control_plane_config_against_cloud_profile ctx.cp_config ctx.cloud_profile_config
          cp_config_path in
      let none_left = to_aggregate-ok (creation_errors api ctx) h1 in
      let (h2, r2) = (append-eq-nil errors _).0 none_left in
      let (h3, r3) =
        (append-eq-nil (validate_shoot api (record ctx { cp_config = config' }))
            (validate_shoot_secret api ctx.shoot)).0
          r2 in
      (
        ctx,
        e,
        shoot-ShootIsValid ctx.infra_config same_shoot
            (validate_shoot-ShootIsValid (record ctx { cp_config = config' }) h3),
        validate_shoot-CpIsValid (record ctx { cp_config = config' }) ctx.cp_config
            (profile_comparison-fills ctx.cp_config ctx.cloud_profile_config) h3,
        against_cloud_profile-HasClasses ctx.cp_config ctx.cloud_profile_config h2,
        validate_shoot_secret-HasAccounts api shoot
            (ap (validate_shoot_secret api) (sym same_shoot) ∙ r3),
      )

  update_errors-parts :
      (old new : ValidationContext R)
      → update_errors api old new ≡ []
      → (validate_infrastructure_config_update
            (some old.infra_config)
            (some new.infra_config)
            infra_config_path
          ≡ [])
        × (cp_update_errors old.cp_config new.cp_config cp_config_path ≡ [])
        × (validate_workers_update api.should_enforce_immutability api.immutable_zones
              old.shoot.workers new.shoot.workers workers_path
            ≡ [])
        × ShootIsValid new.infra_config new.shoot
  unfolding update_errors
  update_errors-parts old new h =
      let (old_cp, new_cp, changed) =
        validate_control_plane_config_update old.cp_config new.cp_config cp_config_path in
      let (cp_config, relevant) =
        relevant_cp_errors api (has_relevant_control_plane_config_updates old_cp new_cp)
          new.cloud_profile_config in
      let (h1, r1) =
        (append-eq-nil
            (validate_infrastructure_config_update (some old.infra_config) (some new.infra_config)
              infra_config_path)
            _).0
          h in
      let (h2, r2) = (append-eq-nil changed _).0 r1 in
      let (h3, r3) = (append-eq-nil relevant _).0 r2 in
      let (h4, r4) =
        (append-eq-nil
            (validate_workers_update api.should_enforce_immutability api.immutable_zones
              old.shoot.workers new.shoot.workers workers_path)
            (validate_shoot api (record new { cp_config = cp_config }))).0
          r3 in
      (h1, h2, h4, validate_shoot-ShootIsValid (record new { cp_config = cp_config }) r4)

  -- For an accepted update both shoots have a context; the update keeps the size of the load balancer, unset or set to the same text, the default class that the control plane's classes give when they complete one dummy constraint, and the networks of the infrastructure; and of the new shoot the networking has nodes, the version of the ensurer is 1 or 2, if there is one, existing objects of NSX-T have paths, if they are given, and each worker has zones, none twice.
  pub validate_shoot_update_sound :
      (old new : Shoot R)
      → validate_shoot_update api old new ≡ ok tt
      → (old_ctx new_ctx : ValidationContext R) × (new_validation_context api old ≡ ok old_ctx)
        × (new_validation_context api new ≡ ok new_ctx)
        × Kept old_ctx.cp_config new_ctx.cp_config
        × (old_ctx.infra_config.networks ≡ new_ctx.infra_config.networks)
        × ShootIsValid new_ctx.infra_config new
  unfolding validate_shoot_update
  validate_shoot_update_sound old new h =
      let (old_ctx, e1, h1) = >>=-eq-ok (new_validation_context api old) _ h in
      let (new_ctx, e2, h2) = >>=-eq-ok (new_validation_context api new) _ h1 in
      let (networking, e3, h3) =
        >>=-eq-ok
          (running (
            validate_networking_update api.is_cidr api.immutable_nodes old.networking new.networking
              networking_path))
          _ h2 in
      let (h4, h5) =
        (append-eq-nil networking (update_errors api old_ctx new_ctx)).0 (to_aggregate-ok _ h3) in
      let (same_nets, kept, workers, valid) = update_errors-parts old_ctx new_ctx h5 in
      (
        old_ctx,
        new_ctx,
        e1,
        e2,
        (validate_control_plane_config_update_iff old_ctx.cp_config new_ctx.cp_config
              cp_config_path).0
            kept,
        infrastructure_update-keeps old_ctx.infra_config new_ctx.infra_config same_nets,
        shoot-ShootIsValid new_ctx.infra_config (context-shoot new e2) valid,
      )
