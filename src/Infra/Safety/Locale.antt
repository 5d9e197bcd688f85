-- ===== src/Infra/Safety/Locale.antt =====
-- The locale service of the tier-1 gateway (task/tasks.go).
use gardener_extension_provi.Base.{
  ℕ, zero, suc, String, true, false, Option, none, some, ◌≡◌, refl, arith, is_some, Bool-cases, inl,
  inr,
}
use gardener_extension_provi.Infra.State.{Reference, NsxtInfraState, NsxtInfraSpec, is_external}
use gardener_extension_provi.Infra.Action.{
  ok, err, panic, exhausted, not_found, other, creating, Outcome, Action, ActionName, Safe,
}
use gardener_extension_provi.Infra.Service.{Answer, got, failed, Stored}
use gardener_extension_provi.Infra.Object.{LocaleServices}
use gardener_extension_provi.Infra.Context.{Context}
use gardener_extension_provi.Infra.Locale.{
  locale_service_id, desired_locale_service, create_locale_service, refresh_locale_service,
  on_locale_service, with_locale_service, ensure_own_locale_service, ensure_locale_service_from,
  ensure_locale_service,
}
use gardener_extension_provi.Infra.Task.{
  lookup_edge_cluster, tier1_gateway, tier1_gateway_locale_service,
}
use gardener_extension_provi.Infra.Safety.Rules.{deref-Safe, api-Safe}
use gardener_extension_provi.Infra.Safety.Present.{
  present, Sets, present-Sets, set_locale_service-Sets,
}

-- The service answers that the locale service does not exist.
abbrev pub IsGone : {W : Type 0} → Context W → String → W → Type 0
IsGone ctx id w =
    (m : String) × ((ctx.locale_services.get id locale_service_id w).0 ≡ failed (not_found m))

-- What is gone stays gone while it is only read.
abbrev pub StaysGone : {W : Type 0} → Context W → Type 0
StaysGone {W} ctx =
    (id : String) (w : W)
    → IsGone ctx id w
    → IsGone ctx id (ctx.locale_services.get id locale_service_id w).1

module _ {W : Type 0} (ctx : Context W) (spec : NsxtInfraSpec) (stays : StaysGone ctx)
    (ref : Reference) where
  -- Where the gateway is not external, the edge cluster is known, and the recorded locale service is
  -- gone and stays so while it is only read, the task calls itself without end: no number of rounds
  -- is enough.
  pub gone_locale_service :
      (fuel : ℕ) (w : W) (s : NsxtInfraState)
      → is_external s ≡ false
      → is_some s.edge_cluster_ref ≡ true
      → s.locale_service_ref ≡ some ref
      → IsGone ctx ref.id w
      → (ensure_locale_service_from ctx spec fuel w s).0 ≡ exhausted
  unfolding ensure_locale_service_from
  gone_locale_service zero w s own edge e gone = refl
  gone_locale_service (suc fuel) w s own edge e (m, gone) =
      let again =
        gone_locale_service fuel (ctx.locale_services.get ref.id locale_service_id w).1
          (record s { tier1_gateway_ref = none }) own edge e (stays ref.id w (m, gone)) in
      ground (arith, again)

exhausted-Safe :
    {W A : Type 0} (P : NsxtInfraState → Type 0) (o : Outcome W A) → o.0 ≡ exhausted → Safe P o
exhausted-Safe P (ok a, w, s) e = cc
exhausted-Safe P (err x, w, s) e = tt
exhausted-Safe P (panic, w, s) e = cc
exhausted-Safe P (exhausted, w, s) e = tt

module _ {W : Type 0} (ctx : Context W) (spec : NsxtInfraSpec) (stays : StaysGone ctx) where
  create_locale_service-Safe :
      (obj : LocaleServices) (w : W) (s : NsxtInfraState)
      → is_some s.tier1_gateway_ref ≡ true
      → Safe (Sets tier1_gateway_locale_service s) (create_locale_service ctx spec obj w s)
  unfolding create_locale_service
  create_locale_service-Safe obj w s h =
      deref-Safe (Sets tier1_gateway_locale_service s) _ w s s.tier1_gateway_ref h (λ tier1.
        api-Safe (Sets tier1_gateway_locale_service s) _ s creating
          (ctx.locale_services.patch tier1.id locale_service_id obj) w
          (λ u v. set_locale_service-Sets s (record { id = tier1.id; path = "" })))

  refresh_locale_service-Safe :
      (P : NsxtInfraState → Type 0) (obj : LocaleServices) (ref : Reference) (old : LocaleServices)
      (w : W) (s : NsxtInfraState)
      → P s
      → Safe P (refresh_locale_service ctx spec obj ref old w s)
  unfolding refresh_locale_service
  refresh_locale_service-Safe P obj ref old w s h = ground arith

  -- The case of a recorded service, by the answer of its reading.
  on_locale_service-Safe :
      (obj : LocaleServices) (ref : Reference) (again : Action W ActionName) (w : W)
      (s : NsxtInfraState) (a : Answer (Stored LocaleServices))
      → present tier1_gateway_locale_service s ≡ true
      → ((m : String)
          → a ≡ failed (not_found m)
          → (again w (record s { tier1_gateway_ref = none })).0 ≡ exhausted)
      → Safe (Sets tier1_gateway_locale_service s) (on_locale_service ctx spec obj ref again a w s)
  unfolding on_locale_service
  on_locale_service-Safe obj ref again w s (got old) h k =
      refresh_locale_service-Safe _ obj ref old.object w s
        (present-Sets tier1_gateway_locale_service s h)
  on_locale_service-Safe obj ref again w s (failed (not_found m)) h k =
      exhausted-Safe _ _ (k m refl)
  on_locale_service-Safe obj ref again w s (failed (other m)) h k = tt

  with_locale_service-Safe :
      (obj : LocaleServices) (again : Action W ActionName) (o : Option Reference) (w : W)
      (s : NsxtInfraState)
      → s.locale_service_ref ≡ o
      → is_some s.tier1_gateway_ref ≡ true
      → ((ref : Reference)
          → o ≡ some ref
          → IsGone ctx ref.id w
          → (again
              (ctx.locale_services.get ref.id locale_service_id w).1
              (record s { tier1_gateway_ref = none })).0
            ≡ exhausted)
      → Safe (Sets tier1_gateway_locale_service s) (with_locale_service ctx spec obj again o w s)
  unfolding with_locale_service
  with_locale_service-Safe obj again none w s e h k = create_locale_service-Safe obj w s h
  with_locale_service-Safe obj again (some ref) w s e h k =
      on_locale_service-Safe obj ref again (ctx.locale_services.get ref.id locale_service_id w).1 s
        (ctx.locale_services.get ref.id locale_service_id w).0 (ground arith)
        (λ m gone. k ref refl (m, gone))

  own-Safe :
      (fuel : ℕ) (w : W) (s : NsxtInfraState)
      → is_external s ≡ false
      → is_some s.edge_cluster_ref ≡ true
      → is_some s.tier1_gateway_ref ≡ true
      → Safe
          (Sets tier1_gateway_locale_service s)
          (ensure_own_locale_service ctx spec (ensure_locale_service_from ctx spec fuel) w s)
  unfolding ensure_own_locale_service
  own-Safe fuel w s own edge tier1 = deref-Safe _ _ w s s.edge_cluster_ref edge (λ edge_cluster.
      with_locale_service-Safe (desired_locale_service ctx spec edge_cluster)
        (ensure_locale_service_from ctx spec fuel) s.locale_service_ref w s refl tier1
        (λ ref e gone.
          gone_locale_service ctx spec stays ref fuel
            (ctx.locale_services.get ref.id locale_service_id w).1
            (record s { tier1_gateway_ref = none }) own edge e (stays ref.id w gone)))

  pub ensure_locale_service-Safe :
      (w : W) (s : NsxtInfraState)
      → (is_external s ≡ false
          → (present lookup_edge_cluster s ≡ true) × (present tier1_gateway s ≡ true))
      → Safe (Sets tier1_gateway_locale_service s) (ensure_locale_service ctx spec w s)
  unfolding ensure_locale_service ensure_locale_service_from
  ensure_locale_service-Safe w s h = elim (Bool-cases (is_external s)) [
    | inl e ↦ rw (e, Safe) (present-Sets tier1_gateway_locale_service s (ground arith))
    | inr e ↦ rw (e, Safe) (own-Safe ctx.fuel w s e (h e).0 (h e).1)
  ]
