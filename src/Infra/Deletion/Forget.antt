-- ===== src/Infra/Deletion/Forget.antt =====
-- The writes of the deletions: each clears one task's reference and keeps those cleared before.
use gardener_extension_provi.Base.{true, none, ◌≡◌, refl, arith}
use gardener_extension_provi.Infra.State.{NsxtInfraState}
use gardener_extension_provi.Infra.Advanced.{set_profile, set_server, set_port, set_ip_pool}
use gardener_extension_provi.Infra.Task.{
  Task, tier1_gateway, tier1_gateway_locale_service, dhcp_server_config, segment,
  snat_ip_address_allocation, snat_rule, advanced_dhcp_profile, advanced_dhcp_server,
  advanced_dhcp_port, advanced_dhcp_ip_pool,
}
use gardener_extension_provi.Infra.Deletion.{cleared, Clears}

module _ (s : NsxtInfraState) where
  pub forget_tier1 : Clears tier1_gateway s (record s { tier1_gateway_ref = none })
  forget_tier1 = record { keeps = keeps'; clear = ground arith }
    where
      keeps' :
          (x : Task) → cleared x s ≡ true → cleared x (record s { tier1_gateway_ref = none }) ≡ true
      keeps' tier1_gateway h = ground arith
      keeps' x h = h

  pub forget_locale_service :
      Clears tier1_gateway_locale_service s (record s { locale_service_ref = none })
  forget_locale_service = record { keeps = keeps'; clear = ground arith }
    where
      keeps' :
          (x : Task)
          → cleared x s ≡ true
          → cleared x (record s { locale_service_ref = none }) ≡ true
      keeps' tier1_gateway_locale_service h = ground arith
      keeps' x h = h

  pub forget_dhcp_server_config :
      Clears dhcp_server_config s (record s { dhcp_server_config_ref = none })
  forget_dhcp_server_config = record { keeps = keeps'; clear = refl }
    where
      keeps' :
          (x : Task)
          → cleared x s ≡ true
          → cleared x (record s { dhcp_server_config_ref = none }) ≡ true
      keeps' dhcp_server_config h = refl
      keeps' x h = h

  pub forget_segment : Clears segment s (record s { segment_ref = none; segment_name = none })
  forget_segment = record { keeps = keeps'; clear = refl }
    where
      keeps' :
          (x : Task)
          → cleared x s ≡ true
          → cleared x (record s { segment_ref = none; segment_name = none }) ≡ true
      keeps' segment h = refl
      keeps' x h = h

  pub forget_snat_ip_address_allocation :
      Clears snat_ip_address_allocation s
        (record s { snat_ip_address_alloc_ref = none; snat_ip_address = none })
  forget_snat_ip_address_allocation = record { keeps = keeps'; clear = refl }
    where
      keeps' :
          (x : Task)
          → cleared x s ≡ true
          → cleared x (record s { snat_ip_address_alloc_ref = none; snat_ip_address = none }) ≡ true
      keeps' snat_ip_address_allocation h = refl
      keeps' x h = h

  pub forget_snat_rule : Clears snat_rule s (record s { snat_rule_ref = none })
  forget_snat_rule = record { keeps = keeps'; clear = refl }
    where
      keeps' :
          (x : Task) → cleared x s ≡ true → cleared x (record s { snat_rule_ref = none }) ≡ true
      keeps' snat_rule h = refl
      keeps' x h = h

  pub forget_advanced_dhcp_profile : Clears advanced_dhcp_profile s (set_profile none s)
  forget_advanced_dhcp_profile = record { keeps = keeps'; clear = refl }
    where
      keeps' : (x : Task) → cleared x s ≡ true → cleared x (set_profile none s) ≡ true
      keeps' advanced_dhcp_profile h = refl
      keeps' x h = h

  pub forget_advanced_dhcp_server : Clears advanced_dhcp_server s (set_server none s)
  forget_advanced_dhcp_server = record { keeps = keeps'; clear = refl }
    where
      keeps' : (x : Task) → cleared x s ≡ true → cleared x (set_server none s) ≡ true
      keeps' advanced_dhcp_server h = refl
      keeps' x h = h

  pub forget_advanced_dhcp_port : Clears advanced_dhcp_port s (set_port none s)
  forget_advanced_dhcp_port = record { keeps = keeps'; clear = refl }
    where
      keeps' : (x : Task) → cleared x s ≡ true → cleared x (set_port none s) ≡ true
      keeps' advanced_dhcp_port h = refl
      keeps' x h = h

  pub forget_advanced_dhcp_ip_pool : Clears advanced_dhcp_ip_pool s (set_ip_pool none s)
  forget_advanced_dhcp_ip_pool = record { keeps = keeps'; clear = refl }
    where
      keeps' : (x : Task) → cleared x s ≡ true → cleared x (set_ip_pool none s) ≡ true
      keeps' advanced_dhcp_ip_pool h = refl
      keeps' x h = h
