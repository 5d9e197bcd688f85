-- ===== src/Infra/Deletion.antt =====
-- What the deletion of the infrastructure (ensurer.go) leaves in the state.
pub mod Forget
pub mod Run
use gardener_extension_provi.Base.{
  String, Bool, true, not, ◌||◌, List, [], ◌∷◌, Option, none, some, ◌≡◌, refl, arith, is_some,
  Bool-cases, inl, inr,
}
use mathlib.Core.Path.{subst, sym}
use gardener_extension_provi.Infra.State.{Reference, NsxtInfraState, is_external}
use gardener_extension_provi.Infra.Action.{
  ApiError, Error, ok, err, panic, exhausted, Outcome, Action, then_run, pure, fail, modify, call,
  gets, deref, ◌>>=◌, ◌>>◌, nicer, api,
}
use gardener_extension_provi.Infra.Service.{Answer, got, failed, Reply, answered, refused}
use gardener_extension_provi.Infra.Resource.{delete_on, delete_resource}
use gardener_extension_provi.Infra.Managed.{Managed, on_deleted, delete_id, delete_managed}
use gardener_extension_provi.Infra.Context.{Context}
use gardener_extension_provi.Infra.Gateway.{delete_tier1_gateway}
use gardener_extension_provi.Infra.Locale.{
  locale_service_id, confirm_locale_service_gone, delete_own_locale_service, delete_locale_service,
}
use gardener_extension_provi.Infra.Realize.{
  delete_segment, delete_allocation, delete_snat_rule, delete_dhcp_server_config,
}
use gardener_extension_provi.Infra.Advanced.{
  set_profile, set_server, set_port, set_ip_pool, profile_kind, server_kind, port_kind,
  ip_pool_kind, delete_ip_pool_of, delete_ip_pool,
}
use gardener_extension_provi.Infra.Task.{
  Task, ensure_deleted, tier1_gateway, tier1_gateway_locale_service, dhcp_server_config, segment,
  snat_ip_address_allocation, snat_rule, advanced_dhcp_profile, advanced_dhcp_server,
  advanced_dhcp_port, advanced_dhcp_ip_pool,
}
use gardener_extension_provi.Infra.Ensurer.{
  labelled, delete_task, delete_tasks, recover_all, get_tasks, ensure_infrastructure_deleted,
}

-- The call ends, and with `P` if without an error. A nil dereference ends it too.
abbrev pub Ended : {W A : Type 0} → (NsxtInfraState → Type 0) → Outcome W A → Type 0
Ended P (ok a, w, s) = P s
Ended P (err e, w, s) = Unit
Ended P (panic, w, s) = Unit
Ended P (exhausted, w, s) = ⊥

-- The state has no reference to an object that the task created. The lookups create none.
abbrev pub cleared : Task → NsxtInfraState → Bool
cleared tier1_gateway s = is_external s || not (is_some s.tier1_gateway_ref)
cleared tier1_gateway_locale_service s = is_external s || not (is_some s.locale_service_ref)
cleared dhcp_server_config s = not (is_some s.dhcp_server_config_ref)
cleared segment s = not (is_some s.segment_ref)
cleared snat_ip_address_allocation s = not (is_some s.snat_ip_address_alloc_ref)
cleared snat_rule s = not (is_some s.snat_rule_ref)
cleared advanced_dhcp_profile s = not (is_some s.advanced_dhcp.profile_id)
cleared advanced_dhcp_server s = not (is_some s.advanced_dhcp.server_id)
cleared advanced_dhcp_port s = not (is_some s.advanced_dhcp.port_id)
cleared advanced_dhcp_ip_pool s = not (is_some s.advanced_dhcp.ip_pool_id)
cleared _ s = true

abbrev pub AllCleared : List Task → NsxtInfraState → Type 0
AllCleared [] s = Unit
AllCleared (t ∷ ts) s = (cleared t s ≡ true) × AllCleared ts s

-- The task's reference goes, and none comes back.
pub record Clears (t : Task) (s u : NsxtInfraState) : Type 0 where
  pub keeps : (x : Task) → cleared x s ≡ true → cleared x u ≡ true
  pub clear : cleared t u ≡ true

pub Clears-refl : (t : Task) (s : NsxtInfraState) → cleared t s ≡ true → Clears t s s
Clears-refl t s h = record { keeps = λ x k. k; clear = h }

pub Ended-then :
    {W A B : Type 0} (P Q : NsxtInfraState → Type 0) (f : A → Action W B) (o : Outcome W A)
    → Ended P o
    → ((a : A) (w : W) (s : NsxtInfraState) → P s → Ended Q (f a w s))
    → Ended Q (then_run f o)
Ended-then P Q f (ok a, w, s) h k = k a w s h
Ended-then P Q f (err e, w, s) h k = tt
Ended-then P Q f (panic, w, s) h k = tt
Ended-then P Q f (exhausted, w, s) h k = absurd h

pub Ended-weaken :
    {W A : Type 0} (P Q : NsxtInfraState → Type 0) (o : Outcome W A)
    → ((s : NsxtInfraState) → P s → Q s)
    → Ended P o
    → Ended Q o
Ended-weaken P Q (ok a, w, s) k h = k s h
Ended-weaken P Q (err e, w, s) k h = tt
Ended-weaken P Q (panic, w, s) k h = tt
Ended-weaken P Q (exhausted, w, s) k h = h

pub Ended-labelled :
    {W A : Type 0} (P : NsxtInfraState → Type 0) (what : String) (o : Outcome W A)
    → Ended P o
    → Ended P (labelled what o)
Ended-labelled P what (ok a, w, s) h = h
Ended-labelled P what (err e, w, s) h = tt
Ended-labelled P what (panic, w, s) h = tt
Ended-labelled P what (exhausted, w, s) h = h

module _ {W : Type 0} (P : NsxtInfraState → Type 0) (s : NsxtInfraState) where
  on_answer-Ended :
      (forget : NsxtInfraState → NsxtInfraState) (wrap : ApiError → Error)
      (o : Outcome W (Answer (Unit {0})))
      → Ended (λ u. u ≡ s) o
      → P (forget s)
      → Ended P (
          then_run
            (λ answer. elim answer as (λ x. Action W Bool) [
              | failed e ↦ fail (wrap e)
              | got _ ↦ modify forget >> pure true
            ])
            o)
  on_answer-Ended forget wrap (ok (failed e), w, u) h p = tt
  on_answer-Ended forget wrap (ok (got x), w, u) h p = subst (λ v. P (forget v)) (sym h) p
  on_answer-Ended forget wrap (err e, w, u) h p = tt
  on_answer-Ended forget wrap (panic, w, u) h p = tt
  on_answer-Ended forget wrap (exhausted, w, u) h p = h

  pub delete_on-Ended :
      (forget : NsxtInfraState → NsxtInfraState) (wrap : ApiError → Error)
      (delete : Reference → Action W (Answer (Unit {0}))) (w : W) (o : Option Reference)
      → (o ≡ none → P s)
      → P (forget s)
      → ((ref : Reference) → Ended (λ u. u ≡ s) (delete ref w s))
      → Ended P (delete_on forget wrap delete o w s)
  unfolding delete_on
  delete_on-Ended forget wrap delete w none n p d = n refl
  delete_on-Ended forget wrap delete w (some ref) n p d =
      on_answer-Ended forget wrap (delete ref w s) (d ref) p

  pub on_parent-Ended :
      {A : Type 0} (o : Option Reference) (f : Reference → W → A × W) (w : W)
      → Ended (λ u. u ≡ s) (then_run (λ p. call (f p)) (deref o w s))
  on_parent-Ended none f w = tt
  on_parent-Ended (some p) f w = refl

  module _ {O : Type 0} (m : Managed W O) (clear : P (m.set none s)) where
    on_deleted-Ended : (r : Reply (Unit {0})) (w : W) → Ended P (on_deleted m r w s)
    unfolding on_deleted
    on_deleted-Ended (answered status x) w = ground arith
    on_deleted-Ended (refused none e) w = tt
    on_deleted-Ended (refused (some status) e) w = ground arith

    pub delete_id-Ended :
        (o : Option String) (w : W) → (o ≡ none → P s) → Ended P (delete_id m o w s)
    unfolding delete_id
    delete_id-Ended none w n = n refl
    delete_id-Ended (some id) w n = on_deleted-Ended (m.delete id w).0 (m.delete id w).1
