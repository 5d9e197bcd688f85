-- ===== src/Infra/Safety/Present.antt =====
-- Which references a state holds, and what the writes of the tasks do to them.
use gardener_extension_provi.Base.{
  String, Bool, true, ◌||◌, Option, some, ◌≡◌, ◌∙◌, refl, arith, is_some,
}
use gardener_extension_provi.Infra.State.{Reference, NsxtInfraState, is_external}
use gardener_extension_provi.Infra.Advanced.{
  set_logical_switch, set_profile, set_server, set_port, set_ip_pool,
}
use gardener_extension_provi.Infra.Task.{
  Task, reference, lookup_tier0_gateway, lookup_transport_zone, lookup_edge_cluster,
  lookup_snat_ip_pool, tier1_gateway, tier1_gateway_locale_service, dhcp_server_config, segment,
  snat_ip_address_allocation, snat_ip_address_realization, snat_rule,
  advanced_lookup_logical_switch, advanced_dhcp_profile, advanced_dhcp_server, advanced_dhcp_port,
  advanced_dhcp_ip_pool,
}

-- A task's object is there: its reference is set, or it is the locale service of an external
-- gateway, which is not managed.
abbrev pub present : Task → NsxtInfraState → Bool
present tier1_gateway_locale_service s = is_external s || is_some s.locale_service_ref
present t s = is_some (reference t s)

-- No reference is lost, and an external gateway stays one.
pub record Grows (s s' : NsxtInfraState) : Type 0 where
  pub external : s'.external_tier1_gateway ≡ s.external_tier1_gateway
  pub version : s'.version ≡ s.version
  pub keeps : (t : Task) → present t s ≡ true → present t s' ≡ true

pub record Sets (t : Task) (s s' : NsxtInfraState) : Type 0 where
  pub grows : Grows s s'
  pub set : present t s' ≡ true

pub Grows-refl : (s : NsxtInfraState) → Grows s s
Grows-refl s = record { external = refl; version = refl; keeps = λ t h. h }

pub Grows-trans : (s u v : NsxtInfraState) → Grows s u → Grows u v → Grows s v
Grows-trans s u v g h = record {
  external = h.external ∙ g.external;
  version = h.version ∙ g.version;
  keeps = λ t p. h.keeps t (g.keeps t p);
}

pub present-Sets : (t : Task) (s : NsxtInfraState) → present t s ≡ true → Sets t s s
present-Sets t s h = record { grows = Grows-refl s; set = h }

module _ (s : NsxtInfraState) (ref : Reference) where
  keeps_tier0 :
      (t : Task) → present t s ≡ true → present t (record s { tier0_gateway_ref = some ref }) ≡ true
  keeps_tier0 lookup_tier0_gateway h = refl
  keeps_tier0 t h = h

  pub set_tier0-Sets : Sets lookup_tier0_gateway s (record s { tier0_gateway_ref = some ref })
  set_tier0-Sets = record {
    grows = record { external = refl; version = refl; keeps = keeps_tier0 };
    set = refl;
  }

  keeps_transport_zone :
      (t : Task)
      → present t s ≡ true
      → present t (record s { transport_zone_ref = some ref }) ≡ true
  keeps_transport_zone lookup_transport_zone h = refl
  keeps_transport_zone t h = h

  pub set_transport_zone-Sets :
      Sets lookup_transport_zone s (record s { transport_zone_ref = some ref })
  set_transport_zone-Sets = record {
    grows = record { external = refl; version = refl; keeps = keeps_transport_zone };
    set = refl;
  }

  keeps_edge_cluster :
      (t : Task) → present t s ≡ true → present t (record s { edge_cluster_ref = some ref }) ≡ true
  keeps_edge_cluster lookup_edge_cluster h = refl
  keeps_edge_cluster t h = h

  pub set_edge_cluster-Sets : Sets lookup_edge_cluster s (record s { edge_cluster_ref = some ref })
  set_edge_cluster-Sets = record {
    grows = record { external = refl; version = refl; keeps = keeps_edge_cluster };
    set = refl;
  }

  keeps_snat_ip_pool :
      (t : Task) → present t s ≡ true → present t (record s { snat_ip_pool_ref = some ref }) ≡ true
  keeps_snat_ip_pool lookup_snat_ip_pool h = refl
  keeps_snat_ip_pool t h = h

  pub set_snat_ip_pool-Sets : Sets lookup_snat_ip_pool s (record s { snat_ip_pool_ref = some ref })
  set_snat_ip_pool-Sets = record {
    grows = record { external = refl; version = refl; keeps = keeps_snat_ip_pool };
    set = refl;
  }

  keeps_tier1 :
      (t : Task) → present t s ≡ true → present t (record s { tier1_gateway_ref = some ref }) ≡ true
  keeps_tier1 tier1_gateway h = refl
  keeps_tier1 t h = h

  pub set_tier1-Sets : Sets tier1_gateway s (record s { tier1_gateway_ref = some ref })
  set_tier1-Sets = record {
    grows = record { external = refl; version = refl; keeps = keeps_tier1 };
    set = refl;
  }

  keeps_locale_service :
      (t : Task)
      → present t s ≡ true
      → present t (record s { locale_service_ref = some ref }) ≡ true
  keeps_locale_service tier1_gateway_locale_service h = ground arith
  keeps_locale_service t h = h

  pub set_locale_service-Sets :
      Sets tier1_gateway_locale_service s (record s { locale_service_ref = some ref })
  set_locale_service-Sets = record {
    grows = record { external = refl; version = refl; keeps = keeps_locale_service };
    set = ground arith;
  }

  keeps_dhcp_server_config :
      (t : Task)
      → present t s ≡ true
      → present t (record s { dhcp_server_config_ref = some ref }) ≡ true
  keeps_dhcp_server_config dhcp_server_config h = refl
  keeps_dhcp_server_config t h = h

  pub set_dhcp_server_config-Sets :
      Sets dhcp_server_config s (record s { dhcp_server_config_ref = some ref })
  set_dhcp_server_config-Sets = record {
    grows = record { external = refl; version = refl; keeps = keeps_dhcp_server_config };
    set = refl;
  }

  keeps_allocation :
      (t : Task)
      → present t s ≡ true
      → present t (record s { snat_ip_address_alloc_ref = some ref }) ≡ true
  keeps_allocation snat_ip_address_allocation h = refl
  keeps_allocation t h = h

  pub set_allocation-Sets :
      Sets snat_ip_address_allocation s (record s { snat_ip_address_alloc_ref = some ref })
  set_allocation-Sets = record {
    grows = record { external = refl; version = refl; keeps = keeps_allocation };
    set = refl;
  }

  keeps_nat_rule :
      (t : Task) → present t s ≡ true → present t (record s { snat_rule_ref = some ref }) ≡ true
  keeps_nat_rule snat_rule h = refl
  keeps_nat_rule t h = h

  pub set_nat_rule-Sets : Sets snat_rule s (record s { snat_rule_ref = some ref })
  set_nat_rule-Sets = record {
    grows = record { external = refl; version = refl; keeps = keeps_nat_rule };
    set = refl;
  }

module _ (s : NsxtInfraState) (ref : Reference) (name : Option String) where
  keeps_segment :
      (t : Task)
      → present t s ≡ true
      → present t (record s { segment_ref = some ref; segment_name = name }) ≡ true
  keeps_segment segment h = refl
  keeps_segment t h = h

  pub set_segment-Sets : Sets segment s (record s { segment_ref = some ref; segment_name = name })
  set_segment-Sets = record {
    grows = record { external = refl; version = refl; keeps = keeps_segment };
    set = refl;
  }

module _ (s : NsxtInfraState) (id : String) where
  keeps_address :
      (t : Task) → present t s ≡ true → present t (record s { snat_ip_address = some id }) ≡ true
  keeps_address snat_ip_address_realization h = refl
  keeps_address t h = h

  pub set_address-Sets : Sets snat_ip_address_realization s (record s { snat_ip_address = some id })
  set_address-Sets = record {
    grows = record { external = refl; version = refl; keeps = keeps_address };
    set = refl;
  }

  keeps_logical_switch_id :
      (t : Task) → present t s ≡ true → present t (set_logical_switch (some id) s) ≡ true
  keeps_logical_switch_id advanced_lookup_logical_switch h = refl
  keeps_logical_switch_id t h = h

  pub set_logical_switch_id-Sets :
      Sets advanced_lookup_logical_switch s (set_logical_switch (some id) s)
  set_logical_switch_id-Sets = record {
    grows = record { external = refl; version = refl; keeps = keeps_logical_switch_id };
    set = refl;
  }

  keeps_profile_id : (t : Task) → present t s ≡ true → present t (set_profile (some id) s) ≡ true
  keeps_profile_id advanced_dhcp_profile h = refl
  keeps_profile_id t h = h

  pub set_profile_id-Sets : Sets advanced_dhcp_profile s (set_profile (some id) s)
  set_profile_id-Sets = record {
    grows = record { external = refl; version = refl; keeps = keeps_profile_id };
    set = refl;
  }

  keeps_server_id : (t : Task) → present t s ≡ true → present t (set_server (some id) s) ≡ true
  keeps_server_id advanced_dhcp_server h = refl
  keeps_server_id t h = h

  pub set_server_id-Sets : Sets advanced_dhcp_server s (set_server (some id) s)
  set_server_id-Sets = record {
    grows = record { external = refl; version = refl; keeps = keeps_server_id };
    set = refl;
  }

  keeps_port_id : (t : Task) → present t s ≡ true → present t (set_port (some id) s) ≡ true
  keeps_port_id advanced_dhcp_port h = refl
  keeps_port_id t h = h

  pub set_port_id-Sets : Sets advanced_dhcp_port s (set_port (some id) s)
  set_port_id-Sets = record {
    grows = record { external = refl; version = refl; keeps = keeps_port_id };
    set = refl;
  }

  keeps_ip_pool_id : (t : Task) → present t s ≡ true → present t (set_ip_pool (some id) s) ≡ true
  keeps_ip_pool_id advanced_dhcp_ip_pool h = refl
  keeps_ip_pool_id t h = h

  pub set_ip_pool_id-Sets : Sets advanced_dhcp_ip_pool s (set_ip_pool (some id) s)
  set_ip_pool_id-Sets = record {
    grows = record { external = refl; version = refl; keeps = keeps_ip_pool_id };
    set = refl;
  }
