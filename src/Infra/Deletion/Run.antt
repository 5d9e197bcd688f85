-- ===== src/Infra/Deletion/Run.antt =====
-- Each task's deletion, and the run over all tasks.
use gardener_extension_provi.Base.{
  String, List, [], ◌∷◌, Option, none, some, ◌≡◌, refl, arith, Bool-cases, inl, inr,
}
use gardener_extension_provi.Infra.State.{Reference, NsxtInfraState, is_external}
use gardener_extension_provi.Infra.Action.{then_run, pure, call, gets, deref, ◌>>=◌, nicer, api}
use gardener_extension_provi.Infra.Service.{Answer, got, failed}
use gardener_extension_provi.Infra.Resource.{delete_resource}
use gardener_extension_provi.Infra.Managed.{delete_managed}
use gardener_extension_provi.Infra.Context.{Context}
use gardener_extension_provi.Infra.Gateway.{delete_tier1_gateway}
use gardener_extension_provi.Infra.Locale.{
  locale_service_id, confirm_locale_service_gone, delete_own_locale_service, delete_locale_service,
}
use gardener_extension_provi.Infra.Realize.{
  delete_segment, delete_allocation, delete_snat_rule, delete_dhcp_server_config,
}
use gardener_extension_provi.Infra.Advanced.{
  profile_kind, server_kind, port_kind, ip_pool_kind, delete_ip_pool_of, delete_ip_pool,
}
use gardener_extension_provi.Infra.Task.{
  Task, ensure_deleted, tier1_gateway, tier1_gateway_locale_service, dhcp_server_config, segment,
  snat_ip_address_allocation, snat_rule, advanced_dhcp_profile, advanced_dhcp_server,
  advanced_dhcp_port, advanced_dhcp_ip_pool,
}
use gardener_extension_provi.Infra.Ensurer.{
  delete_task, delete_tasks, recover_all, get_tasks, ensure_infrastructure_deleted,
}
use gardener_extension_provi.Infra.Deletion.{
  Ended, AllCleared, Clears, Clears-refl, Ended-then, Ended-weaken, Ended-labelled, delete_on-Ended,
  on_parent-Ended, delete_id-Ended,
}
use gardener_extension_provi.Infra.Deletion.Forget.{
  forget_tier1, forget_locale_service, forget_dhcp_server_config, forget_segment,
  forget_snat_ip_address_allocation, forget_snat_rule, forget_advanced_dhcp_profile,
  forget_advanced_dhcp_server, forget_advanced_dhcp_port, forget_advanced_dhcp_ip_pool,
}

module _ {W : Type 0} (ctx : Context W) (w : W) (s : NsxtInfraState) where
  delete_tier1_gateway-Ended : Ended (Clears tier1_gateway s) (delete_tier1_gateway ctx w s)
  unfolding delete_tier1_gateway delete_resource
  delete_tier1_gateway-Ended = elim (Bool-cases (is_external s)) [
    | inl e ↦ rw (e, Ended) (Clears-refl tier1_gateway s (ground arith))
    | inr e ↦
        rw (e, Ended)
          (delete_on-Ended (Clears tier1_gateway s) s (λ s. record s { tier1_gateway_ref = none })
            nicer (λ ref. call (ctx.tier1s.delete tt ref.id)) w s.tier1_gateway_ref
            (λ n. Clears-refl tier1_gateway s (ground arith)) (forget_tier1 s) (λ ref. refl))
  ]

  confirm-Ended :
      (P : NsxtInfraState → Type 0) (ref : Reference) (a : Answer (Unit {0})) (v : W)
      → P (record s { locale_service_ref = none })
      → Ended P (confirm_locale_service_gone ctx ref a v s)
  unfolding confirm_locale_service_gone
  confirm-Ended P ref (got x) v h = h
  confirm-Ended P ref (failed e) v h = ground arith

  delete_own-Ended :
      (o : Option Reference)
      → s.locale_service_ref ≡ o
      → Ended (Clears tier1_gateway_locale_service s) (delete_own_locale_service ctx o w s)
  unfolding delete_own_locale_service
  delete_own-Ended none e = Clears-refl tier1_gateway_locale_service s (ground arith)
  delete_own-Ended (some ref) e =
      confirm-Ended (Clears tier1_gateway_locale_service s) ref
        (ctx.locale_services.delete ref.id locale_service_id w).0
        (ctx.locale_services.delete ref.id locale_service_id w).1 (forget_locale_service s)

  delete_locale_service-Ended :
      Ended (Clears tier1_gateway_locale_service s) (delete_locale_service ctx w s)
  unfolding delete_locale_service
  delete_locale_service-Ended = elim (Bool-cases (is_external s)) [
    | inl e ↦ rw (e, Ended) (Clears-refl tier1_gateway_locale_service s (ground arith))
    | inr e ↦ rw (e, Ended) (delete_own-Ended s.locale_service_ref refl)
  ]

  below_server-Ended :
      (server : Option String)
      → Ended
          (Clears advanced_dhcp_ip_pool s)
          (then_run (λ x. delete_managed (ip_pool_kind ctx x)) (deref server w s))
  unfolding delete_managed
  below_server-Ended none = tt
  below_server-Ended (some x) =
      delete_id-Ended (Clears advanced_dhcp_ip_pool s) s (ip_pool_kind ctx x)
        (forget_advanced_dhcp_ip_pool s) s.advanced_dhcp.ip_pool_id w
        (λ n. Clears-refl advanced_dhcp_ip_pool s (ground arith))

  delete_ip_pool-Ended :
      (o : Option String)
      → s.advanced_dhcp.ip_pool_id ≡ o
      → Ended (Clears advanced_dhcp_ip_pool s) (delete_ip_pool_of ctx o w s)
  unfolding delete_ip_pool_of
  delete_ip_pool-Ended none e = Clears-refl advanced_dhcp_ip_pool s (ground arith)
  delete_ip_pool-Ended (some id) e = below_server-Ended s.advanced_dhcp.server_id

  ensure_deleted-Ended : (t : Task) → Ended (Clears t s) (ensure_deleted ctx t w s)
  unfolding ensure_deleted delete_segment delete_allocation delete_snat_rule
      delete_dhcp_server_config delete_resource delete_managed delete_ip_pool
  ensure_deleted-Ended tier1_gateway = delete_tier1_gateway-Ended
  ensure_deleted-Ended tier1_gateway_locale_service = delete_locale_service-Ended
  ensure_deleted-Ended dhcp_server_config =
      delete_on-Ended (Clears dhcp_server_config s) s
        (λ s. record s { dhcp_server_config_ref = none }) api
        (λ ref. call (ctx.dhcp_server_configs.delete tt ref.id)) w s.dhcp_server_config_ref
        (λ n. Clears-refl dhcp_server_config s (ground arith)) (forget_dhcp_server_config s)
        (λ ref. refl)
  ensure_deleted-Ended segment =
      delete_on-Ended (Clears segment s) s
        (λ s. record s { segment_ref = none; segment_name = none }) nicer
        (λ ref. call (ctx.segments.delete tt ref.id)) w s.segment_ref
        (λ n. Clears-refl segment s (ground arith)) (forget_segment s) (λ ref. refl)
  ensure_deleted-Ended snat_ip_address_allocation =
      delete_on-Ended (Clears snat_ip_address_allocation s) s
        (λ s. record s { snat_ip_address_alloc_ref = none; snat_ip_address = none }) api
        (λ ref. do
          pool ← deref (← gets (λ s. s.snat_ip_pool_ref))
          call (ctx.ip_allocations.delete pool.id ref.id))
        w s.snat_ip_address_alloc_ref (λ n. Clears-refl snat_ip_address_allocation s (ground arith))
        (forget_snat_ip_address_allocation s)
        (λ ref.
          on_parent-Ended (Clears snat_ip_address_allocation s) s s.snat_ip_pool_ref
            (λ pool. ctx.ip_allocations.delete pool.id ref.id) w)
  ensure_deleted-Ended snat_rule =
      delete_on-Ended (Clears snat_rule s) s (λ s. record s { snat_rule_ref = none }) api
        (λ ref. do
          tier1 ← deref (← gets (λ s. s.tier1_gateway_ref))
          call (ctx.nat_rules.delete tier1.id ref.id))
        w s.snat_rule_ref (λ n. Clears-refl snat_rule s (ground arith)) (forget_snat_rule s)
        (λ ref.
          on_parent-Ended (Clears snat_rule s) s s.tier1_gateway_ref
            (λ tier1. ctx.nat_rules.delete tier1.id ref.id) w)
  ensure_deleted-Ended advanced_dhcp_ip_pool = delete_ip_pool-Ended s.advanced_dhcp.ip_pool_id refl
  ensure_deleted-Ended advanced_dhcp_profile =
      delete_id-Ended (Clears advanced_dhcp_profile s) s (profile_kind ctx)
        (forget_advanced_dhcp_profile s) s.advanced_dhcp.profile_id w
        (λ n. Clears-refl advanced_dhcp_profile s (ground arith))
  ensure_deleted-Ended advanced_dhcp_server =
      delete_id-Ended (Clears advanced_dhcp_server s) s (server_kind ctx)
        (forget_advanced_dhcp_server s) s.advanced_dhcp.server_id w
        (λ n. Clears-refl advanced_dhcp_server s (ground arith))
  ensure_deleted-Ended advanced_dhcp_port =
      delete_id-Ended (Clears advanced_dhcp_port s) s (port_kind ctx) (forget_advanced_dhcp_port s)
        s.advanced_dhcp.port_id w (λ n. Clears-refl advanced_dhcp_port s (ground arith))
  ensure_deleted-Ended t = Clears-refl t s refl

module _ {W : Type 0} (ctx : Context W) where
  delete_task-Ended :
      (t : Task) (w : W) (s : NsxtInfraState) → Ended (Clears t s) (delete_task ctx t w s)
  unfolding delete_task
  delete_task-Ended t w s = Ended-labelled (Clears t s) _ _ (
      Ended-then (Clears t s) (Clears t s) (λ _. pure tt) _ (ensure_deleted-Ended ctx w s t)
        (λ b v u h. h))

  AllCleared-keeps :
      (t : Task) (s u : NsxtInfraState) (ts : List Task)
      → Clears t s u
      → AllCleared ts s
      → AllCleared ts u
  AllCleared-keeps t s u [] c h = tt
  AllCleared-keeps t s u (x ∷ ts) c h = (c.keeps x h.0, AllCleared-keeps t s u ts c h.1)

  delete_tasks-Ended :
      (ts : List Task) (w : W) (s : NsxtInfraState)
      → Ended (AllCleared ts) (delete_tasks ctx ts w s)
  unfolding delete_tasks
  delete_tasks-Ended [] w s = tt
  delete_tasks-Ended (t ∷ ts) w s =
      Ended-then (AllCleared ts) (AllCleared (t ∷ ts)) _ _ (delete_tasks-Ended ts w s) (λ _ v u h.
        Ended-weaken (Clears t u) (AllCleared (t ∷ ts)) _
          (λ x c. (c.clear, AllCleared-keeps t u x ts c h)) (delete_task-Ended t v u))

  -- The deletion without a spec comes to an end, and if it ends without an error and without a nil
  -- dereference, no task of the version has a reference left to an object of its own.
  pub ensure_infrastructure_deleted-AllCleared :
      (w : W) (s : NsxtInfraState)
      → Ended (AllCleared (get_tasks s)) (ensure_infrastructure_deleted ctx none w s)
  unfolding ensure_infrastructure_deleted recover_all
  ensure_infrastructure_deleted-AllCleared w s = delete_tasks-Ended (get_tasks s) w s
