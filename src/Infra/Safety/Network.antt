-- ===== src/Infra/Safety/Network.antt =====
-- The segment, the SNAT address and rule, and the DHCP configuration (task/tasks.go).
use gardener_extension_provi.Base.{
  ℕ, zero, suc, ◌+◌, String, true, List, [], Option, none, some, ◌≡◌, ◌≢◌, refl, arith, Bool-cases,
  inl, inr,
}
use gardener_extension_provi.Infra.State.{Reference, NsxtInfraState, NsxtInfraSpec}
use gardener_extension_provi.Infra.Action.{Safe}
use gardener_extension_provi.Infra.Service.{Answer, got, failed, Stored}
use gardener_extension_provi.Infra.Object.{RealizedEntity, IpAddressAllocation}
use gardener_extension_provi.Infra.Resource.{reference_of, is_not_found}
use gardener_extension_provi.Infra.Context.{Context}
use gardener_extension_provi.Infra.Dhcp.{new_dhcp_config}
use gardener_extension_provi.Infra.Dhcp.Laws.{
  new_dhcp_config-ne-panic, create_segment_subnet-ne-panic,
}
use gardener_extension_provi.Infra.Network.{
  segment_resource, create_segment, ensure_segment, create_allocation, on_allocation_read,
  on_allocation, ensure_allocation, nat_rule_resource, ensure_snat_rule,
  dhcp_server_config_resource, ensure_dhcp_server_config,
}
use gardener_extension_provi.Infra.Realize.{
  allocation_ip_of, next_sleep, poll, get_realized_ip_address, on_realization, ensure_realization,
}
use gardener_extension_provi.Infra.Task.{
  lookup_transport_zone, lookup_edge_cluster, lookup_snat_ip_pool, tier1_gateway,
  dhcp_server_config, segment, snat_ip_address_allocation, snat_ip_address_realization, snat_rule,
}
use gardener_extension_provi.Infra.Safety.Rules.{
  deref-Safe, or_fail-Safe, Answer-cases, ensure_resource-Safe, create_resource-Safe, Reads,
  Reads-then,
}
use gardener_extension_provi.Infra.Safety.Present.{
  present, Sets, present-Sets, set_segment-Sets, set_allocation-Sets, set_address-Sets,
  set_nat_rule-Sets, set_dhcp_server_config-Sets,
}

-- A realized allocation's address attribute has a value.
abbrev pub HasAddresses : {W : Type 0} → Context W → Type 0
HasAddresses {W} ctx =
    (path : String) (w : W) (entities : List RealizedEntity)
    → (ctx.realized_entities path w).0 ≡ got entities
    → allocation_ip_of entities ≢ some []

module _ {W : Type 0} (ctx : Context W) (spec : NsxtInfraSpec) (w : W) (s : NsxtInfraState) where
  pub ensure_segment-Safe :
      present tier1_gateway s ≡ true
      → present lookup_transport_zone s ≡ true
      → Safe (Sets segment s) (ensure_segment ctx spec w s)
  unfolding ensure_segment create_segment
  ensure_segment-Safe h1 h2 =
      or_fail-Safe (Sets segment s) _ w s (new_dhcp_config spec) (new_dhcp_config-ne-panic spec)
        (λ cfg.
          or_fail-Safe (Sets segment s) _ _ s _ (create_segment_subnet-ne-panic _ cfg _ _)
            (λ subnet. deref-Safe (Sets segment s) _ _ s s.tier1_gateway_ref h1 (λ tier1.
              deref-Safe (Sets segment s) _ _ s s.transport_zone_ref h2 (λ zone.
                ensure_resource-Safe (Sets segment s) (segment_resource ctx spec) _ _ s
                  (λ ref e. present-Sets segment s (ground arith))
                  (λ v.
                    create_resource-Safe _ s _ _ _ _ _
                      (λ stored. set_segment-Sets s (reference_of stored) _))
                  (λ v.
                    create_resource-Safe _ _ _ _ _ _ _
                      (λ stored. set_segment-Sets s (reference_of stored) _))
                  _))))

  create_allocation-Safe :
      (v : W)
      → present lookup_snat_ip_pool s ≡ true
      → Safe (Sets snat_ip_address_allocation s) (create_allocation ctx spec v s)
  unfolding create_allocation
  create_allocation-Safe v h =
      deref-Safe (Sets snat_ip_address_allocation s) _ v s s.snat_ip_pool_ref h (λ pool.
        create_resource-Safe _ s _ _ _ _ v (λ stored. set_allocation-Sets s (reference_of stored)))

  pub ensure_snat_rule-Safe :
      present snat_ip_address_realization s ≡ true
      → present tier1_gateway s ≡ true
      → Safe (Sets snat_rule s) (ensure_snat_rule ctx spec w s)
  unfolding ensure_snat_rule
  ensure_snat_rule-Safe h1 h2 =
      deref-Safe (Sets snat_rule s) _ w s s.snat_ip_address (ground arith) (λ address.
        deref-Safe (Sets snat_rule s) _ w s s.tier1_gateway_ref h2 (λ tier1.
          ensure_resource-Safe (Sets snat_rule s) (nat_rule_resource ctx spec tier1.id) _ _ s
            (λ ref e. present-Sets snat_rule s (ground arith))
            (λ v.
              create_resource-Safe _ s _ _ _ _ v
                (λ stored. set_nat_rule-Sets s (reference_of stored)))
            (λ v.
              create_resource-Safe _ _ _ _ _ _ v
                (λ stored. set_nat_rule-Sets s (reference_of stored)))
            w))

  pub ensure_dhcp_server_config-Safe :
      present lookup_edge_cluster s ≡ true
      → Safe (Sets dhcp_server_config s) (ensure_dhcp_server_config ctx spec w s)
  unfolding ensure_dhcp_server_config
  ensure_dhcp_server_config-Safe h =
      deref-Safe (Sets dhcp_server_config s) _ w s s.edge_cluster_ref h (λ edge_cluster.
        ensure_resource-Safe (Sets dhcp_server_config s) (dhcp_server_config_resource ctx spec) _ _
          s (λ ref e. present-Sets dhcp_server_config s (ground arith))
          (λ v.
            create_resource-Safe _ s _ _ _ _ v
              (λ stored. set_dhcp_server_config-Sets s (reference_of stored)))
          (λ v.
            create_resource-Safe _ _ _ _ _ _ v
              (λ stored. set_dhcp_server_config-Sets s (reference_of stored)))
          w)

module _ {W : Type 0} (ctx : Context W) (spec : NsxtInfraSpec) (s : NsxtInfraState) where
  on_allocation_read-Safe :
      (a : Answer (Stored IpAddressAllocation)) (w : W)
      → present snat_ip_address_allocation s ≡ true
      → present lookup_snat_ip_pool s ≡ true
      → Safe (Sets snat_ip_address_allocation s) (on_allocation_read ctx spec a w s)
  unfolding on_allocation_read
  on_allocation_read-Safe (got old) w h pool = present-Sets snat_ip_address_allocation s h
  on_allocation_read-Safe (failed e) w h pool = elim (Bool-cases (is_not_found e)) [
    | inl gone ↦ rw (gone, Safe) (create_allocation-Safe ctx spec w s w pool)
    | inr broken ↦ rw broken tt
  ]

  on_allocation-Safe :
      (o : Option Reference) (w : W)
      → s.snat_ip_address_alloc_ref ≡ o
      → present lookup_snat_ip_pool s ≡ true
      → Safe (Sets snat_ip_address_allocation s) (on_allocation ctx spec o w s)
  unfolding on_allocation
  on_allocation-Safe none w e h = create_allocation-Safe ctx spec w s w h
  on_allocation-Safe (some ref) w e h =
      deref-Safe (Sets snat_ip_address_allocation s) _ w s s.snat_ip_pool_ref h
        (λ pool. on_allocation_read-Safe _ _ (ground arith) h)

  pub ensure_allocation-Safe :
      (w : W)
      → present lookup_snat_ip_pool s ≡ true
      → Safe (Sets snat_ip_address_allocation s) (ensure_allocation ctx spec w s)
  unfolding ensure_allocation
  ensure_allocation-Safe w h = on_allocation-Safe s.snat_ip_address_alloc_ref w refl h

module _ {W : Type 0} (ctx : Context W) (s : NsxtInfraState) (full : HasAddresses ctx) where
  poll-Reads :
      (fuel sleep limit : ℕ) (path : String) (w : W) → Reads s (poll ctx fuel sleep limit path w s)
  unfolding poll
  poll-Reads zero sleep limit path w = tt
  poll-Reads (suc fuel) sleep limit path w =
      let w1 = ctx.sleep sleep w in
      elim (Answer-cases (ctx.realized_entities path w1).0) [
        | inl (e, refused) ↦ ground arith
        | inr (entities, listed) ↦ ground (
          arith,
          full path w1 entities listed,
          poll-Reads fuel (next_sleep sleep) limit path (ctx.realized_entities path w1).1,
        )
      ]

  on_realization-Safe :
      (o : Option Reference) (w : W)
      → Safe (Sets snat_ip_address_realization s) (on_realization ctx o w s)
  unfolding on_realization get_realized_ip_address
  on_realization-Safe none w = tt
  on_realization-Safe (some ref) w =
      Reads-then _ _ s _ (poll-Reads ctx.fuel 100 (ctx.now w + 15000) ref.path w)
        (λ address v. set_address-Sets s address)

  pub ensure_realization-Safe :
      (w : W) → Safe (Sets snat_ip_address_realization s) (ensure_realization ctx w s)
  unfolding ensure_realization
  ensure_realization-Safe w = on_realization-Safe s.snat_ip_address_alloc_ref w
