-- ===== src/Infra/Network/Laws.antt =====
-- The answers of the SNAT rule's task (task/tasks.go).
use gardener_extension_provi.Base.{String, Option, none, some, ◌≢◌, arith, Bool-cases, inl, inr}
use gardener_extension_provi.Infra.State.{Reference, NsxtInfraState, NsxtInfraSpec}
use gardener_extension_provi.Infra.Action.{
  ok, Outcome, Action, ActionName, unchanged, then_run, deref,
}
use gardener_extension_provi.Infra.Service.{Answer, got, failed, Stored}
use gardener_extension_provi.Infra.Object.{PolicyNatRule}
use gardener_extension_provi.Infra.Resource.{
  is_not_found, create_resource, ensure_resource, refresh, on_read, on_reference,
}
use gardener_extension_provi.Infra.Context.{Context}
use gardener_extension_provi.Infra.Network.{
  nat_rule_resource, desired_nat_rule, create_nat_rule, ensure_snat_rule,
}

abbrev Changes : {W : Type 0} → Outcome W ActionName → Type 0
Changes o = o.0 ≢ ok unchanged

module _ {W : Type 0} (ctx : Context W) (spec : NsxtInfraSpec) where
  create_nat_rule-Changes :
      (tier1 : String) (rule : PolicyNatRule) (w : W) (s : NsxtInfraState)
      → Changes (create_nat_rule ctx spec tier1 rule w s)
  unfolding create_nat_rule create_resource
  create_nat_rule-Changes tier1 rule w s = ground arith

  module _ (tier1 address : String) where
    refresh_nat_rule-Changes :
        (ref : Reference) (old : PolicyNatRule) (w : W) (s : NsxtInfraState)
        → Changes (
            refresh
              (nat_rule_resource ctx spec tier1)
              (create_nat_rule ctx spec tier1 (desired_nat_rule ctx spec address))
              (desired_nat_rule ctx spec address)
              ref
              old
              w
              s)
    unfolding refresh
    refresh_nat_rule-Changes ref old w s = ground arith

    on_read-Changes :
        (ref : Reference) (a : Answer (Stored PolicyNatRule)) (w : W) (s : NsxtInfraState)
        → Changes (
            on_read
              (nat_rule_resource ctx spec tier1)
              (create_nat_rule ctx spec tier1 (desired_nat_rule ctx spec address))
              (desired_nat_rule ctx spec address)
              ref
              a
              w
              s)
    unfolding on_read
    on_read-Changes ref (got old) w s = refresh_nat_rule-Changes ref old.object w s
    on_read-Changes ref (failed e) w s = elim (Bool-cases (is_not_found e)) [
      | inl gone ↦ rw gone (
          create_nat_rule-Changes tier1 (desired_nat_rule ctx spec address) w
            (record s { snat_rule_ref = none }))
      | inr broken ↦ rw broken (ground arith)
    ]

    on_reference-Changes :
        (o : Option Reference) (w : W) (s : NsxtInfraState)
        → Changes (
            on_reference
              (nat_rule_resource ctx spec tier1)
              (create_nat_rule ctx spec tier1 (desired_nat_rule ctx spec address))
              (desired_nat_rule ctx spec address)
              o
              w
              s)
    unfolding on_reference
    on_reference-Changes none w s =
        create_nat_rule-Changes tier1 (desired_nat_rule ctx spec address) w s
    on_reference-Changes (some ref) w s =
        on_read-Changes ref (ctx.nat_rules.get tier1 ref.id w).0
          (ctx.nat_rules.get tier1 ref.id w).1 s

  then_deref-Changes :
      {A : Type 0} (f : A → Action W ActionName) (o : Option A) (w : W) (s : NsxtInfraState)
      → ((a : A) → Changes (f a w s))
      → Changes (then_run f (deref o w s))
  then_deref-Changes f none w s h = ground arith
  then_deref-Changes f (some a) w s h = h a

  -- The task of the SNAT rule never reports `unchanged`, whatever the state and the stored rule are.
  pub ensure_snat_rule-ne-unchanged :
      (w : W) (s : NsxtInfraState) → (ensure_snat_rule ctx spec w s).0 ≢ ok unchanged
  unfolding ensure_snat_rule ensure_resource
  ensure_snat_rule-ne-unchanged w s = then_deref-Changes _ s.snat_ip_address w s (λ address.
      then_deref-Changes _ s.tier1_gateway_ref w s
        (λ tier1. on_reference-Changes tier1.id address s.snat_rule_ref w s))
