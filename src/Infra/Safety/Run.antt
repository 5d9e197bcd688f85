-- ===== src/Infra/Safety/Run.antt =====
-- The runs over all tasks (ensurer.go), in the order of their needs.
use gardener_extension_provi.Base.{
  String, Bool, true, false, List, [], ◌∷◌, ◌≡◌, ◌∙◌, refl, arith, is_some, inl, inr, ◌⊎◌,
}
use mathlib.Core.Path.{subst, sym}
use gardener_extension_provi.Infra.State.{NsxtInfraState, NsxtInfraSpec, is_external}
use gardener_extension_provi.Infra.Action.{
  ok, err, panic, exhausted, Outcome, Safe, Safe-then, Safe-weaken, pure,
}
use gardener_extension_provi.Infra.Context.{Context}
use gardener_extension_provi.Infra.Task.{
  Task, ensure, lookup_tier0_gateway, lookup_transport_zone, lookup_edge_cluster,
  lookup_snat_ip_pool, tier1_gateway, tier1_gateway_locale_service, dhcp_server_config, segment,
  snat_ip_address_allocation, snat_ip_address_realization, snat_rule,
  advanced_lookup_logical_switch, advanced_dhcp_profile, advanced_dhcp_server, advanced_dhcp_port,
  advanced_dhcp_ip_pool,
}
use gardener_extension_provi.Infra.Ensurer.{
  tasks_of, get_tasks, is_nsxt3, update_external_state, labelled, ensure_task, ensure_tasks,
  ensure_infrastructure,
}
use gardener_extension_provi.Infra.Safety.Present.{present, Grows, Grows-refl, Grows-trans, Sets}
use gardener_extension_provi.Infra.Safety.Gateway.{
  ensure_tier0_gateway-Safe, ensure_snat_ip_pool-Safe, ensure_edge_cluster-Safe,
  ensure_transport_zone-Safe, ensure_tier1_gateway-Safe, HasNames,
}
use gardener_extension_provi.Infra.Safety.Locale.{StaysGone, ensure_locale_service-Safe}
use gardener_extension_provi.Infra.Safety.Network.{
  HasAddresses, ensure_segment-Safe, ensure_snat_rule-Safe, ensure_dhcp_server_config-Safe,
  ensure_allocation-Safe, ensure_realization-Safe,
}
use gardener_extension_provi.Infra.Safety.Advanced.{
  ensure_logical_switch-Safe, ensure_profile-Safe, ensure_server-Safe, ensure_port-Safe,
  ensure_ip_pool-Safe,
}
use gardener_extension_provi.Infra.Safety.Recover.{try_recover-Safe}

-- The references that a task dereferences, where its object is this cluster's own.
abbrev pub needs : Task → List Task
needs tier1_gateway = lookup_tier0_gateway ∷ []
needs tier1_gateway_locale_service = lookup_edge_cluster ∷ tier1_gateway ∷ []
needs dhcp_server_config = lookup_edge_cluster ∷ []
needs segment = tier1_gateway ∷ lookup_transport_zone ∷ []
needs snat_ip_address_allocation = lookup_snat_ip_pool ∷ []
needs snat_rule = snat_ip_address_realization ∷ tier1_gateway ∷ []
needs advanced_lookup_logical_switch = segment ∷ []
needs advanced_dhcp_profile = lookup_edge_cluster ∷ []
needs advanced_dhcp_server = advanced_dhcp_profile ∷ []
needs advanced_dhcp_port = advanced_dhcp_server ∷ advanced_lookup_logical_switch ∷ []
needs advanced_dhcp_ip_pool = advanced_dhcp_server ∷ []
needs _ = []

abbrev pub AllPresent : List Task → NsxtInfraState → Type 0
AllPresent [] s = Unit
AllPresent (t ∷ ts) s = (present t s ≡ true) × AllPresent ts s

-- An external tier-1 gateway is known, or the spec says where it is.
abbrev pub Anchored : NsxtInfraSpec → NsxtInfraState → Type 0
Anchored spec s =
    is_external s ≡ true
    → (is_some s.tier1_gateway_ref ≡ true) ⊎ (is_some spec.external_tier1_gateway_path ≡ true)

-- Each task's needs are met by the tasks before it.
abbrev pub WellOrdered : List Task → List Task → Type 0
WellOrdered done [] = Unit
WellOrdered done (t ∷ ts) =
    ((s : NsxtInfraState) → AllPresent done s → AllPresent (needs t) s) × WellOrdered (t ∷ done) ts

pub tasks_of-WellOrdered : (nsxt3 : Bool) → WellOrdered [] (tasks_of nsxt3)
unfolding tasks_of
tasks_of-WellOrdered true = (
  λ s h. tt,
  (
    λ s h. tt,
    (
      λ s h. tt,
      (
        λ s h. tt,
        (
          λ s h. (h.1.1.1.0, tt),
          (
            λ s h. (h.1.1.0, (h.0, tt)),
            (
              λ s h. (h.1.1.1.0, tt),
              (
                λ s h. (h.1.1.0, (h.1.1.1.1.1.0, tt)),
                (λ s h. (h.1.1.1.1.0, tt), (λ s h. tt, (λ s h. (h.0, (h.1.1.1.1.1.0, tt)), tt))),
              ),
            ),
          ),
        ),
      ),
    ),
  ),
)
tasks_of-WellOrdered false = (
  λ s h. tt,
  (
    λ s h. tt,
    (
      λ s h. tt,
      (
        λ s h. tt,
        (
          λ s h. (h.1.1.1.0, tt),
          (
            λ s h. (h.1.1.0, (h.0, tt)),
            (
              λ s h. (h.1.0, (h.1.1.1.1.0, tt)),
              (
                λ s h. (h.1.1.1.0, tt),
                (
                  λ s h. tt,
                  (
                    λ s h. (h.0, (h.1.1.1.1.0, tt)),
                    (
                      λ s h. (h.1.1.1.0, tt),
                      (
                        λ s h. (h.1.1.1.1.1.1.1.1.0, tt),
                        (λ s h. (h.0, tt), (λ s h. (h.0, (h.1.1.0, tt)), (λ s h. (h.1.0, tt), tt))),
                      ),
                    ),
                  ),
                ),
              ),
            ),
          ),
        ),
      ),
    ),
  ),
)

AllPresent-Grows :
    (s u : NsxtInfraState) (ts : List Task) → Grows s u → AllPresent ts s → AllPresent ts u
AllPresent-Grows s u [] g h = tt
AllPresent-Grows s u (t ∷ ts) g (h, k) = (g.keeps t h, AllPresent-Grows s u ts g k)

is_external-Grows : (s u : NsxtInfraState) → Grows s u → is_external u ≡ is_external s
is_external-Grows s u g = rw g.external refl

module _ (spec : NsxtInfraSpec) where
  Anchored-Grows : (s u : NsxtInfraState) → Grows s u → Anchored spec s → Anchored spec u
  Anchored-Grows s u g h e = elim (h (sym (is_external-Grows s u g) ∙ e)) [
    | inl known ↦ inl (g.keeps tier1_gateway known)
    | inr at ↦ inr at
  ]

module _ {W : Type 0} (ctx : Context W) (spec : NsxtInfraSpec) (stays : StaysGone ctx)
    (full : HasAddresses ctx) (names : HasNames ctx) where
  ensure-Safe :
      (t : Task) (w : W) (s : NsxtInfraState)
      → Anchored spec s
      → AllPresent (needs t) s
      → Safe (Sets t s) (ensure ctx spec t w s)
  unfolding ensure
  ensure-Safe lookup_tier0_gateway w s a h = ensure_tier0_gateway-Safe ctx spec w s names
  ensure-Safe lookup_transport_zone w s a h = ensure_transport_zone-Safe ctx spec w s names
  ensure-Safe lookup_edge_cluster w s a h = ensure_edge_cluster-Safe ctx spec w s names
  ensure-Safe lookup_snat_ip_pool w s a h = ensure_snat_ip_pool-Safe ctx spec w s names
  ensure-Safe tier1_gateway w s a h = ensure_tier1_gateway-Safe ctx spec w s names (λ e. h.0) a
  ensure-Safe tier1_gateway_locale_service w s a h =
      ensure_locale_service-Safe ctx spec stays w s (λ e. (h.0, h.1.0))
  ensure-Safe dhcp_server_config w s a h = ensure_dhcp_server_config-Safe ctx spec w s h.0
  ensure-Safe segment w s a h = ensure_segment-Safe ctx spec w s h.0 h.1.0
  ensure-Safe snat_ip_address_allocation w s a h = ensure_allocation-Safe ctx spec s w h.0
  ensure-Safe snat_ip_address_realization w s a h = ensure_realization-Safe ctx s full w
  ensure-Safe snat_rule w s a h = ensure_snat_rule-Safe ctx spec w s h.0 h.1.0
  ensure-Safe advanced_lookup_logical_switch w s a h = ensure_logical_switch-Safe ctx s w h.0
  ensure-Safe advanced_dhcp_profile w s a h = ensure_profile-Safe ctx spec w s h.0
  ensure-Safe advanced_dhcp_server w s a h = ensure_server-Safe ctx spec w s h.0
  ensure-Safe advanced_dhcp_port w s a h = ensure_port-Safe ctx spec w s h.0 h.1.0
  ensure-Safe advanced_dhcp_ip_pool w s a h = ensure_ip_pool-Safe ctx spec w s h.0

labelled-Safe :
    {W A : Type 0} (P : NsxtInfraState → Type 0) (what : String) (o : Outcome W A)
    → Safe P o
    → Safe P (labelled what o)
labelled-Safe P what (ok a, w, s) h = h
labelled-Safe P what (err e, w, s) h = tt
labelled-Safe P what (panic, w, s) h = h
labelled-Safe P what (exhausted, w, s) h = tt

module _ {W : Type 0} (ctx : Context W) (spec : NsxtInfraSpec) (stays : StaysGone ctx)
    (full : HasAddresses ctx) (names : HasNames ctx) where
  ensure_task-Safe :
      (t : Task) (w : W) (s : NsxtInfraState)
      → Anchored spec s
      → AllPresent (needs t) s
      → Safe (Sets t s) (ensure_task ctx spec t w s)
  unfolding ensure_task
  ensure_task-Safe t w s a h = labelled-Safe (Sets t s) _ _ (
      Safe-then (Sets t s) (Sets t s) (λ _. pure tt) _
        (ensure-Safe ctx spec stays full names t w s a h) (λ n v u k. k))

  ensure_tasks-Safe :
      (ts done : List Task) (w : W) (s : NsxtInfraState)
      → WellOrdered done ts
      → Anchored spec s
      → AllPresent done s
      → Safe (λ u. Grows s u × AllPresent ts u) (ensure_tasks ctx spec ts w s)
  unfolding ensure_tasks
  ensure_tasks-Safe [] done w s o a h = (Grows-refl s, tt)
  ensure_tasks-Safe (t ∷ ts) done w s (o, os) a h =
      Safe-then (Grows s) (λ u. Grows s u × AllPresent (t ∷ ts) u) _ _
        (try_recover-Safe ctx spec t w s)
        (λ _ v u g.
          Safe-then (Sets t u) (λ x. Grows s x × AllPresent (t ∷ ts) x) _ _
            (ensure_task-Safe t v u (Anchored-Grows spec s u g a)
              (o u (AllPresent-Grows s u done g h)))
            (λ _ v' x sets.
              Safe-weaken (λ y. Grows x y × AllPresent ts y)
                (λ y. Grows s y × AllPresent (t ∷ ts) y) _
                (λ y k. (
                  Grows-trans s x y (Grows-trans s u x g sets.grows) k.0,
                  (k.0.keeps t sets.set, k.1),
                ))
                (ensure_tasks-Safe ts (t ∷ done) v' x os
                  (Anchored-Grows spec s x (Grows-trans s u x g sets.grows) a)
                  (sets.set, AllPresent-Grows s x done (Grows-trans s u x g sets.grows) h))))

  update_external_state-Anchored :
      (s : NsxtInfraState) → Anchored spec s → Anchored spec (update_external_state spec s)
  unfolding update_external_state
  update_external_state-Anchored s h = ground arith

  update_external_state-tasks :
      (s : NsxtInfraState) → get_tasks (update_external_state spec s) ≡ get_tasks s
  unfolding get_tasks update_external_state
  update_external_state-tasks s = ground arith

  -- Where an external gateway, if there is one, is known or named in the spec, the objects that NSX-T
  -- lists for a lookup and the tier-1 gateways that are read have display names, a locale service
  -- that is gone stays gone while it is only read, and realized allocations have addresses, the run
  -- over all tasks dereferences no nil among the references of the state, the path of the spec, these
  -- display names and these addresses; and if it succeeds every task's reference is set, up to that
  -- of an external gateway's locale service.
  pub ensure_infrastructure-Safe :
      (w : W) (s : NsxtInfraState)
      → Anchored spec s
      → Safe (AllPresent (get_tasks s)) (ensure_infrastructure ctx spec w s)
  unfolding ensure_infrastructure get_tasks
  ensure_infrastructure-Safe w s h =
      let s' = update_external_state spec s in
      Safe-weaken (λ u. Grows s' u × AllPresent (get_tasks s') u) (AllPresent (get_tasks s)) _
        (λ u k. subst (λ ts. AllPresent ts u) (update_external_state-tasks s) k.1)
        (ensure_tasks-Safe (get_tasks s') [] w s' (tasks_of-WellOrdered (is_nsxt3 s'.version))
          (update_external_state-Anchored s h) tt)
