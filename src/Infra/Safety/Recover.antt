-- ===== src/Infra/Safety/Recover.antt =====
-- Recovering references (task/taskhelper.go and ensurer.go).
use gardener_extension_provi.Base.{
  ℕ, zero, suc, ◌+◌, String, Bool, true, false, List, Option, none, some, ◌≡◌, refl, arith,
  Bool-cases, inl, inr, length, ◌==◌,
}
use mathlib.Core.Path.{subst, sym}
use gardener_extension_provi.Tags.{Tag}
use gardener_extension_provi.Infra.State.{
  Reference, NsxtInfraState, NsxtInfraSpec, create_tags, create_common_tags,
}
use gardener_extension_provi.Infra.Action.{
  ok, err, panic, exhausted, Outcome, Action, deref, then_run, Safe, pure, modify, ◌>>◌,
}
use gardener_extension_provi.Infra.Service.{
  Answer, Page, Stored, Reply, answered, refused, Identified,
}
use gardener_extension_provi.Infra.Lookup.{total_of, cursor_text, recover_pages, recover_item}
use gardener_extension_provi.Infra.Resource.{reference_of}
use gardener_extension_provi.Infra.Managed.{Managed, recover_from, recover_managed}
use gardener_extension_provi.Infra.Advanced.{
  recover_ip_pool_of, recover_ip_pool, profile_kind, server_kind, port_kind, ip_pool_kind,
}
use gardener_extension_provi.Infra.Context.{Context}
use gardener_extension_provi.Infra.Task.{
  Task, reference, recovery, is_external_task, Recovery, by_tags, by_common_tags, by_lookup,
  recover_with, below_parent, recover_below_tier1, try_recover_object, try_recover_managed,
  tier1_gateway, tier1_gateway_locale_service, dhcp_server_config, segment,
  snat_ip_address_allocation, snat_rule, advanced_dhcp_profile, advanced_dhcp_server,
  advanced_dhcp_port, advanced_dhcp_ip_pool,
}
use gardener_extension_provi.Infra.Ensurer.{
  recover_missing, recover_reference, try_recover, ignored, look_up,
}
use gardener_extension_provi.Infra.Safety.Rules.{Answer-cases}
use gardener_extension_provi.Infra.Safety.Present.{
  Grows, Grows-refl, set_tier1-Sets, set_locale_service-Sets, set_segment-Sets, set_allocation-Sets,
  set_nat_rule-Sets, set_dhcp_server_config-Sets, set_profile_id-Sets, set_server_id-Sets,
  set_port_id-Sets, set_ip_pool_id-Sets,
}

-- No nil dereference, and `P` of the state that is left, also after an error.
abbrev pub Calm : {W A : Type 0} → (NsxtInfraState → Type 0) → Outcome W A → Type 0
Calm P (ok a, w, s) = P s
Calm P (err e, w, s) = P s
Calm P (panic, w, s) = ⊥
Calm P (exhausted, w, s) = Unit

pub Calm-ignored :
    {W A : Type 0} (P : NsxtInfraState → Type 0) (o : Outcome W A) → Calm P o → Safe P (ignored o)
Calm-ignored P (ok a, w, s) h = h
Calm-ignored P (err e, w, s) h = h
Calm-ignored P (panic, w, s) h = h
Calm-ignored P (exhausted, w, s) h = tt

Calm-then :
    {W A B : Type 0} (P : NsxtInfraState → Type 0) (b : B) (o : Outcome W A)
    → Calm P o
    → Calm P (then_run (λ _. pure b) o)
Calm-then P b (ok a, w, s) h = h
Calm-then P b (err e, w, s) h = h
Calm-then P b (panic, w, s) h = h
Calm-then P b (exhausted, w, s) h = h

deref-Calm :
    {W A B : Type 0} (P : NsxtInfraState → Type 0) (f : A → Action W B) (w : W) (s : NsxtInfraState)
    (o : Option A) (a : A)
    → o ≡ some a
    → Calm P (f a w s)
    → Calm P (then_run f (deref o w s))
deref-Calm P f w s o a e h = subst (λ x. Calm P (then_run f (deref x w s))) (sym e) h

module _ {W O : Type 0} (list : Option String → W → Answer (Page (Stored O)) × W)
    (tags_of : O → List Tag) (tags : List Tag) (s : NsxtInfraState) where
  recover_pages-Calm :
      (fuel : ℕ) (cursor : Option String) (total count : ℕ) (w : W)
      → Calm (λ u. u ≡ s) (recover_pages list tags_of tags fuel cursor total count w s)
  unfolding recover_pages
  recover_pages-Calm zero cursor total count w = tt
  recover_pages-Calm (suc fuel) cursor total count w = elim (Answer-cases (list cursor w).0) [
    | inl (e, broken) ↦ ground arith
    | inr (page, listed) ↦ ground (
      arith,
      recover_pages-Calm fuel (some (cursor_text page.cursor))
          (total_of cursor page.result_count total) (count + length page.results) (list cursor w).1,
    )
  ]

  -- What recording the item may do, the recovery may do.
  after_recovery :
      (P : NsxtInfraState → Type 0) (record_item : Stored O → Action W (Unit {0}))
      (o : Outcome W (Option (Stored O)))
      → Calm (λ u. u ≡ s) o
      → P s
      → ((item : Stored O) (w : W) → Calm P (record_item item w s))
      → Calm P (
          then_run
            (λ found. elim found as (λ x. Action W Bool) [
              | none ↦ pure false
              | some item ↦ record_item item >> pure true
            ])
            o)
  after_recovery P record_item (ok none, w, u) h p k = subst P (sym h) p
  after_recovery P record_item (ok (some item), w, u) h p k =
      Calm-then P true (record_item item w u)
        (subst (λ v. Calm P (record_item item w v)) (sym h) (k item w))
  after_recovery P record_item (err e, w, u) h p k = subst P (sym h) p
  after_recovery P record_item (panic, w, u) h p k = h
  after_recovery P record_item (exhausted, w, u) h p k = tt

  pub recover_with-Calm :
      (ctx : Context W) (P : NsxtInfraState → Type 0) (record_item : Stored O → Action W (Unit {0}))
      (w : W)
      → P s
      → ((item : Stored O) (v : W) → Calm P (record_item item v s))
      → Calm P (recover_with ctx tags_of tags list record_item w s)
  unfolding recover_with recover_item
  recover_with-Calm ctx P record_item w p k =
      after_recovery P record_item _ (recover_pages-Calm ctx.fuel none 0 0 w) p k

module _ {W : Type 0} (ctx : Context W) (tags : List Tag) (w : W) (s : NsxtInfraState) where
  recover_locale_service-Calm :
      (parent : Option Reference)
      → s.tier1_gateway_ref ≡ parent
      → Calm (Grows s) (below_parent ctx parent (recover_below_tier1 ctx tags) w s)
  unfolding below_parent recover_below_tier1
  recover_locale_service-Calm none e = Grows-refl s
  recover_locale_service-Calm (some tier1) e =
      recover_with-Calm _ _ tags s ctx (Grows s) _ w (Grows-refl s) (λ item v.
        deref-Calm (Grows s) _ v s s.tier1_gateway_ref tier1 e
          (set_locale_service-Sets s (record { id = tier1.id; path = "" })).grows)

  recover_below-Calm :
      {O : Type 0} (parent : Option Reference)
      (list : Reference → Option String → W → Answer (Page (Stored O)) × W) (tags_of : O → List Tag)
      (record_item : Stored O → NsxtInfraState → NsxtInfraState)
      → ((item : Stored O) → Grows s (record_item item s))
      → Calm (Grows s) (
          below_parent ctx parent
            (λ p. recover_with ctx tags_of tags (list p) (λ item. modify (record_item item)))
            w
            s)
  unfolding below_parent
  recover_below-Calm none list tags_of record_item h = Grows-refl s
  recover_below-Calm (some p) list tags_of record_item h =
      recover_with-Calm _ _ tags s ctx (Grows s) _ w (Grows-refl s) (λ item v. h item)

  try_recover_object-Calm : (t : Task) → Calm (Grows s) (try_recover_object ctx t tags w s)
  unfolding try_recover_object
  try_recover_object-Calm tier1_gateway =
      recover_with-Calm _ _ tags s ctx (Grows s) _ w (Grows-refl s)
        (λ item v. (set_tier1-Sets s (reference_of item)).grows)
  try_recover_object-Calm tier1_gateway_locale_service =
      recover_locale_service-Calm s.tier1_gateway_ref refl
  try_recover_object-Calm dhcp_server_config =
      recover_with-Calm _ _ tags s ctx (Grows s) _ w (Grows-refl s)
        (λ item v. (set_dhcp_server_config-Sets s (reference_of item)).grows)
  try_recover_object-Calm segment =
      recover_with-Calm _ _ tags s ctx (Grows s) _ w (Grows-refl s)
        (λ item v. (set_segment-Sets s (reference_of item) item.object.display_name).grows)
  try_recover_object-Calm snat_ip_address_allocation =
      recover_below-Calm s.snat_ip_pool_ref _ _ _
        (λ item. (set_allocation-Sets s (reference_of item)).grows)
  try_recover_object-Calm snat_rule =
      recover_below-Calm s.tier1_gateway_ref _ _ _
        (λ item. (set_nat_rule-Sets s (reference_of item)).grows)
  try_recover_object-Calm t = Grows-refl s

module _ {W O : Type 0} (m : Managed W O) (tags : List Tag) (s : NsxtInfraState) where
  found-Calm :
      (P : NsxtInfraState → Type 0) (found : Option (Identified O)) (w : W)
      → P s
      → ((id : String) → P (m.set (some id) s))
      → Calm P (
          elim found as (λ x. Action W Bool) [
            | none ↦ pure false
            | some item ↦ modify (m.set (some item.id)) >> pure true
          ]
            w s)
  found-Calm P none w p k = p
  found-Calm P (some item) w p k = k item.id

  recover_from-Calm :
      (P : NsxtInfraState → Type 0) (reply : Reply (List (Identified O))) (w : W)
      → P s
      → ((id : String) → P (m.set (some id) s))
      → Calm P (recover_from m tags reply w s)
  unfolding recover_from
  recover_from-Calm P (refused status e) w p k = p
  recover_from-Calm P (answered status items) w p k = elim (Bool-cases (status == 200)) [
    | inl listed ↦ rw listed (found-Calm P _ w p k)
    | inr broken ↦ rw broken p
  ]

  recover_managed-Calm :
      (P : NsxtInfraState → Type 0) (list : W → Reply (List (Identified O)) × W) (w : W)
      → P s
      → ((id : String) → P (m.set (some id) s))
      → Calm P (recover_managed m list tags w s)
  unfolding recover_managed
  recover_managed-Calm P list w p k = recover_from-Calm P (list w).0 (list w).1 p k

module _ {W : Type 0} (ctx : Context W) (tags : List Tag) (w : W) (s : NsxtInfraState) where
  recover_ip_pool-Calm :
      (server : Option String) → Calm (Grows s) (recover_ip_pool_of ctx tags server w s)
  unfolding recover_ip_pool_of
  recover_ip_pool-Calm none = Grows-refl s
  recover_ip_pool-Calm (some server) =
      recover_managed-Calm (ip_pool_kind ctx server) tags s (Grows s)
        (ctx.dhcp_ip_pools.list server) w (Grows-refl s) (λ id. (set_ip_pool_id-Sets s id).grows)

  try_recover_managed-Calm : (t : Task) → Calm (Grows s) (try_recover_managed ctx t tags w s)
  unfolding try_recover_managed recover_ip_pool
  try_recover_managed-Calm advanced_dhcp_profile =
      recover_managed-Calm (profile_kind ctx) tags s (Grows s) (ctx.dhcp_profiles.list tt) w
        (Grows-refl s) (λ id. (set_profile_id-Sets s id).grows)
  try_recover_managed-Calm advanced_dhcp_server =
      recover_managed-Calm (server_kind ctx) tags s (Grows s) (ctx.dhcp_servers.list tt) w
        (Grows-refl s) (λ id. (set_server_id-Sets s id).grows)
  try_recover_managed-Calm advanced_dhcp_port =
      recover_managed-Calm (port_kind ctx) tags s (Grows s) (ctx.logical_ports.list tt) w
        (Grows-refl s) (λ id. (set_port_id-Sets s id).grows)
  try_recover_managed-Calm advanced_dhcp_ip_pool = recover_ip_pool-Calm s.advanced_dhcp.server_id
  try_recover_managed-Calm t = Grows-refl s

module _ {W : Type 0} (ctx : Context W) (spec : NsxtInfraSpec) (t : Task) (w : W)
    (s : NsxtInfraState) where
  recover_missing-Calm : (r : Recovery) → Calm (Grows s) (recover_missing ctx spec false t r w s)
  unfolding recover_missing look_up
  recover_missing-Calm by_tags = elim (Bool-cases (is_external_task t s)) [
    | inl e ↦ rw e (Grows-refl s)
    | inr e ↦ rw e (Calm-then (Grows s) tt _ (try_recover_object-Calm ctx (create_tags spec) w s t))
  ]
  recover_missing-Calm by_common_tags =
      Calm-then (Grows s) tt _ (try_recover_managed-Calm ctx (create_common_tags spec) w s t)
  recover_missing-Calm by_lookup = Grows-refl s

  recover_reference-Calm :
      (o : Option Reference) → Calm (Grows s) (recover_reference ctx spec false t o w s)
  unfolding recover_reference
  recover_reference-Calm none = recover_missing-Calm (recovery t)
  recover_reference-Calm (some ref) = Grows-refl s

  pub try_recover-Safe : Safe (Grows s) (ignored (try_recover ctx spec false t w s))
  unfolding try_recover
  try_recover-Safe = Calm-ignored (Grows s) _ (recover_reference-Calm (reference t s))
