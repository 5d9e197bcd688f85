-- ===== src/Infra/Safety/Advanced.antt =====
-- The DHCP tasks on the manager API (task/tasks_advanced_dhcp.go).
use gardener_extension_provi.Base.{
  String, true, List, Option, none, some, ◌≡◌, refl, arith, Bool-cases, inl, inr, find, ◌==◌,
}
use gardener_extension_provi.Infra.State.{Reference, NsxtInfraState, NsxtInfraSpec}
use gardener_extension_provi.Infra.Action.{
  Action, ActionName, Safe, fail, text, modify, pure, found, ◌>>◌,
}
use gardener_extension_provi.Infra.Service.{Reply, answered, refused, Identified}
use gardener_extension_provi.Infra.Object.{LogicalSwitch}
use gardener_extension_provi.Infra.Context.{Context}
use gardener_extension_provi.Infra.Dhcp.Laws.{
  new_dhcp_config-ne-panic, build_ipv4_dhcp_server-ne-panic,
}
use gardener_extension_provi.Infra.Managed.{
  Managed, is_gone, on_created, create_managed, on_updated, refresh_managed, on_reply, on_id,
  ensure_managed,
}
use gardener_extension_provi.Infra.Advanced.{
  set_logical_switch, has_policy_path, find_switch, on_switches, ensure_logical_switch,
  profile_kind, server_kind, port_kind, ip_pool_kind, ensure_profile, ensure_server, ensure_port,
  ensure_ip_pool,
}
use gardener_extension_provi.Infra.Task.{
  lookup_edge_cluster, segment, advanced_lookup_logical_switch, advanced_dhcp_profile,
  advanced_dhcp_server, advanced_dhcp_port, advanced_dhcp_ip_pool,
}
use gardener_extension_provi.Infra.Safety.Rules.{deref-Safe, or_fail-Safe}
use gardener_extension_provi.Infra.Safety.Present.{
  present, Sets, present-Sets, set_logical_switch_id-Sets, set_profile_id-Sets, set_server_id-Sets,
  set_port_id-Sets, set_ip_pool_id-Sets,
}

module _ {W O : Type 0} (P : NsxtInfraState → Type 0) (m : Managed W O) (desired : O)
    (s : NsxtInfraState) (keeps : (id : String) → m.ref s ≡ some id → P s)
    (creates : (id : String) → P (m.set (some id) s))
    (recreates : (id : String) → P (m.set (some id) (m.set none s))) where
  on_created-Safe :
      (r : Reply (Identified O)) (w : W) (u : NsxtInfraState)
      → ((id : String) → P (m.set (some id) u))
      → Safe P (on_created m r w u)
  unfolding on_created
  on_created-Safe (refused status e) w u h = tt
  on_created-Safe (answered status item) w u h = ground (arith, h item.id)

  create_managed-Safe :
      (w : W) (u : NsxtInfraState)
      → ((id : String) → P (m.set (some id) u))
      → Safe P (create_managed m desired w u)
  unfolding create_managed
  create_managed-Safe w u h = on_created-Safe (m.create desired w).0 (m.create desired w).1 u h

  refresh_managed-Safe :
      (id : String) (old : O) (w : W) → P s → Safe P (refresh_managed m desired id old w s)
  unfolding refresh_managed on_updated
  refresh_managed-Safe id old w h = ground arith

  on_reply-Safe : (id : String) (r : Reply O) (w : W) → P s → Safe P (on_reply m desired id r w s)
  unfolding on_reply
  on_reply-Safe id (refused status e) w h = tt
  on_reply-Safe id (answered status old) w h = refresh_managed-Safe id old w h

  on_id-Safe : (o : Option String) (w : W) → m.ref s ≡ o → Safe P (on_id m desired o w s)
  unfolding on_id
  on_id-Safe none w e = create_managed-Safe w s creates
  on_id-Safe (some id) w e = elim (Bool-cases (is_gone (m.read id w).0)) [
    | inl gone ↦ rw (gone, Safe) (create_managed-Safe (m.read id w).1 (m.set none s) recreates)
    | inr there ↦ rw (there, Safe) (on_reply-Safe id (m.read id w).0 (m.read id w).1 (keeps id e))
  ]

  pub ensure_managed-Safe : (w : W) → Safe P (ensure_managed m desired w s)
  unfolding ensure_managed
  ensure_managed-Safe w = on_id-Safe (m.ref s) w refl

module _ {W : Type 0} (ctx : Context W) (s : NsxtInfraState) where
  find_switch-Safe :
      (switches : List LogicalSwitch) (ref : Reference) (w : W)
      → Safe (Sets advanced_lookup_logical_switch s) (find_switch ctx switches ref w s)
  unfolding find_switch
  find_switch-Safe switches ref w =
      found_in (find (λ switch. has_policy_path ref.path switch.tags) switches)
    where
      found_in :
          (o : Option LogicalSwitch)
          → Safe (Sets advanced_lookup_logical_switch s) (
              (elim o as (λ x. Action W ActionName) [
                | none ↦ fail (text "not found by segment path")
                | some switch ↦ modify (set_logical_switch (some switch.id)) >> pure found
              ])
                w s)
      found_in none = tt
      found_in (some switch) = set_logical_switch_id-Sets s switch.id

  on_switches-Safe :
      (r : Reply (List LogicalSwitch)) (w : W)
      → present segment s ≡ true
      → Safe (Sets advanced_lookup_logical_switch s) (on_switches ctx r w s)
  unfolding on_switches
  on_switches-Safe (refused status e) w h = tt
  on_switches-Safe (answered status switches) w h = elim (Bool-cases (status == 200)) [
    | inl fine ↦
        rw (fine, Safe)
          (deref-Safe (Sets advanced_lookup_logical_switch s) _ w s s.segment_ref h
            (λ ref. find_switch-Safe switches ref w))
    | inr broken ↦ rw (broken, Safe) tt
  ]

  pub ensure_logical_switch-Safe :
      (w : W)
      → present segment s ≡ true
      → Safe (Sets advanced_lookup_logical_switch s) (ensure_logical_switch ctx w s)
  unfolding ensure_logical_switch
  ensure_logical_switch-Safe w h =
      on_switches-Safe (ctx.logical_switches w).0 (ctx.logical_switches w).1 h

module _ {W : Type 0} (ctx : Context W) (spec : NsxtInfraSpec) (w : W) (s : NsxtInfraState) where
  pub ensure_profile-Safe :
      present lookup_edge_cluster s ≡ true
      → Safe (Sets advanced_dhcp_profile s) (ensure_profile ctx spec w s)
  unfolding ensure_profile
  ensure_profile-Safe h =
      deref-Safe (Sets advanced_dhcp_profile s) _ w s s.edge_cluster_ref h (λ edge_cluster.
        ensure_managed-Safe (Sets advanced_dhcp_profile s) (profile_kind ctx) _ s
          (λ id e. present-Sets advanced_dhcp_profile s (ground arith))
          (λ id. set_profile_id-Sets s id) (λ id. set_profile_id-Sets s id) w)

  pub ensure_server-Safe :
      present advanced_dhcp_profile s ≡ true
      → Safe (Sets advanced_dhcp_server s) (ensure_server ctx spec w s)
  unfolding ensure_server
  ensure_server-Safe h =
      or_fail-Safe (Sets advanced_dhcp_server s) _ w s _ (new_dhcp_config-ne-panic spec) (λ cfg.
        or_fail-Safe (Sets advanced_dhcp_server s) _ _ s _ (build_ipv4_dhcp_server-ne-panic cfg _)
          (λ ipv4.
            deref-Safe (Sets advanced_dhcp_server s) _ _ s s.advanced_dhcp.profile_id (ground arith)
              (λ profile.
                ensure_managed-Safe (Sets advanced_dhcp_server s) (server_kind ctx) _ s
                  (λ id e. present-Sets advanced_dhcp_server s (ground arith))
                  (λ id. set_server_id-Sets s id) (λ id. set_server_id-Sets s id) _)))

  pub ensure_port-Safe :
      present advanced_dhcp_server s ≡ true
      → present advanced_lookup_logical_switch s ≡ true
      → Safe (Sets advanced_dhcp_port s) (ensure_port ctx spec w s)
  unfolding ensure_port
  ensure_port-Safe h1 h2 =
      deref-Safe (Sets advanced_dhcp_port s) _ w s s.advanced_dhcp.server_id (ground arith)
        (λ server.
          deref-Safe (Sets advanced_dhcp_port s) _ w s s.advanced_dhcp.logical_switch_id
            (ground arith)
            (λ switch.
              ensure_managed-Safe (Sets advanced_dhcp_port s) (port_kind ctx) _ s
                (λ id e. present-Sets advanced_dhcp_port s (ground arith))
                (λ id. set_port_id-Sets s id) (λ id. set_port_id-Sets s id) w))

  pub ensure_ip_pool-Safe :
      present advanced_dhcp_server s ≡ true
      → Safe (Sets advanced_dhcp_ip_pool s) (ensure_ip_pool ctx spec w s)
  unfolding ensure_ip_pool
  ensure_ip_pool-Safe h =
      or_fail-Safe (Sets advanced_dhcp_ip_pool s) _ w s _ (new_dhcp_config-ne-panic spec) (λ cfg.
        deref-Safe (Sets advanced_dhcp_ip_pool s) _ w s s.advanced_dhcp.server_id (ground arith)
          (λ server.
            ensure_managed-Safe (Sets advanced_dhcp_ip_pool s) (ip_pool_kind ctx server) _ s
              (λ id e. present-Sets advanced_dhcp_ip_pool s (ground arith))
              (λ id. set_ip_pool_id-Sets s id) (λ id. set_ip_pool_id-Sets s id) w))
