-- ===== src/Infra/Tests.antt =====
-- A small NSX-T that a test can run on, and the theorems at inputs.
use gardener_extension_provi.Base.{
  ℕ, ◌+◌, String, List, [], ◌∷◌, none, some, ◌≡◌, ◌≢◌, refl, arith, ◌<◌,
}
use gardener_extension_provi.Infra.State.{Reference, NsxtInfraState, NsxtInfraSpec, new_state}
use gardener_extension_provi.Infra.Action.{ok, exhausted, not_found, unchanged, Safe}
use gardener_extension_provi.Infra.Service.{
  got, failed, Stored, Page, Client, Named, answered, refused, ManagerClient,
}
use gardener_extension_provi.Infra.Object.{Service, Tier1, IpAddressAllocation, RealizedEntity}
use gardener_extension_provi.Infra.Context.{Context}
use gardener_extension_provi.Infra.Lookup.{recover_item}
use gardener_extension_provi.Infra.Lookup.Laws.{Returns, recover_item-Returns}
use gardener_extension_provi.Infra.Locale.{ensure_locale_service_from}
use gardener_extension_provi.Infra.Network.{ensure_snat_rule}
use gardener_extension_provi.Infra.Network.Laws.{ensure_snat_rule-ne-unchanged}
use gardener_extension_provi.Infra.Ensurer.{
  get_tasks, ensure_infrastructure, ensure_infrastructure_deleted,
}
use gardener_extension_provi.Infra.Deletion.{Ended, AllCleared}
use gardener_extension_provi.Infra.Deletion.Run.{ensure_infrastructure_deleted-AllCleared}
use gardener_extension_provi.Infra.Gateway.{ensure_tier1_gateway}
use gardener_extension_provi.Infra.Converge.{sent, ensure_tier1_gateway-unchanged}
use gardener_extension_provi.Infra.Realize.{allocation_ip_of}
use gardener_extension_provi.Infra.Safety.Locale.{gone_locale_service}
use gardener_extension_provi.Infra.Safety.Network.{HasAddresses}
use gardener_extension_provi.Infra.Safety.Gateway.{HasNames}
use gardener_extension_provi.Infra.Safety.Run.{AllPresent, ensure_infrastructure-Safe}

-- Nothing can be read; what is created gets its id, and everything else succeeds.
abbrev client : (W P O : Type 0) → Client W P O
client W P O = record {
  get = λ p id w. (failed (not_found id), w);
  update = λ p id o w. (got (record { id = id; path = "/infra"; object = o }), w);
  patch = λ p id o w. (got tt, w);
  delete = λ p id w. (got tt, w);
  list = λ p cursor w. (got (record { results = []; result_count = 0; cursor = none }), w);
}

abbrev manager : (W P O : Type 0) → ManagerClient W P O
manager W P O = record {
  read = λ p id w. (refused (some 404) (not_found id), w);
  update = λ p id o w. (answered 200 tt, w);
  create = λ p o w. (answered 201 (record { id = "m1"; object = o }), w);
  delete = λ p id w. (answered 200 tt, w);
  list = λ p w. (answered 200 [], w);
}

abbrev named : String → Named
named name = record { display_name = some name; id = name; path = "/infra" }

abbrev realized : List RealizedEntity
realized = record { extended_attributes = ("allocation_ip", "10.1.2.3" ∷ []) ∷ [] } ∷ []

abbrev service : (W : Type 0) → (W → ℕ) → (ℕ → W → W) → List RealizedEntity → Service W
service W now sleep entities = record {
  tier0s =
      λ cursor w. (got (record { results = named "t0" ∷ []; result_count = 1; cursor = none }), w);
  edge_clusters = λ w. (got (named "ec" ∷ []), w);
  transport_zones = λ w. (got (named "tz" ∷ []), w);
  ip_pools = λ cursor w.
      (got (record { results = named "pool" ∷ []; result_count = 1; cursor = none }), w);
  ip_pool_tags = λ id w. (got [], w);
  tier1s = client _ _ _;
  locale_services = client _ _ _;
  segments = client _ _ _;
  ip_allocations = client _ _ _;
  nat_rules = client _ _ _;
  dhcp_server_configs = client _ _ _;
  realized_entities = λ path w. (got entities, w);
  logical_switches = λ w. (answered 200 [], w);
  dhcp_profiles = manager _ _ _;
  dhcp_servers = manager _ _ _;
  logical_ports = manager _ _ _;
  dhcp_ip_pools = manager _ _ _;
  product_version = λ w. (got "3.1.0", w);
  convert_to_vapi = λ c. some "dhcp";
  convert_to_golang = λ c. none;
  iterate = λ options w. (options, w);
  uuid = λ w. ("u1", w);
  random_string = λ n w. ("abcde", w);
  now = now;
  sleep = sleep;
  compile = λ pattern. none;
}

abbrev pub world : Context Unit
world = record {
  service = service Unit (λ w. 0) (λ n w. w) realized;
  shoot_namespace = "shoot--garden--one";
  garden_id = "g1";
  fuel = 4;
}

abbrev spec : NsxtInfraSpec
spec = record {
  edge_cluster_name = "ec";
  transport_zone_name = "tz";
  tier0_gateway_name = "t0";
  snat_ip_pool_name = "pool";
  garden_id = "g1";
  garden_name = "garden";
  cluster_name = "one";
  workers_network = "10.250.0.0/19";
  dns_servers = "8.8.8.8" ∷ [];
  dhcp_options = [];
  external_tier1_gateway_path = none;
}

abbrev pub fresh : NsxtInfraState
fresh = new_state (some "2")

abbrev gateway : Reference
gateway = record { id = "t1"; path = "/infra" }

-- The state of a cluster whose locale service is recorded.
abbrev recorded : NsxtInfraState
recorded = record fresh {
  edge_cluster_ref = some gateway;
  tier1_gateway_ref = some gateway;
  locale_service_ref = some gateway;
}

realized_full : HasAddresses world
unfolding allocation_ip_of
realized_full path w entities e = ground arith

names_full : HasNames world
names_full = record {
  tier1s = λ id w stored e. cc;
  tier0s = λ cursor w page e. ground arith;
  ip_pools = λ cursor w page e. ground arith;
  edge_clusters = λ w items e. ground arith;
  transport_zones = λ w items e. ground arith;
}

listed_few :
    (page : Page (Stored IpAddressAllocation))
    → (world.ip_allocations.list "pool" none tt).0 ≡ got page
    → page.result_count < 1
listed_few page e = ground arith

ensure_infrastructure-Safe_example :
    Safe (AllPresent (get_tasks fresh)) (ensure_infrastructure world spec tt fresh)
ensure_infrastructure-Safe_example =
    ensure_infrastructure-Safe world spec (λ id w gone. gone) realized_full names_full tt fresh
      (λ e. absurd (ground arith))

gone_locale_service_example : (ensure_locale_service_from world spec 9 tt recorded).0 ≡ exhausted
gone_locale_service_example =
    gone_locale_service world spec (λ id w gone. gone) gateway 9 tt recorded refl refl refl
      ("default", refl)

ensure_snat_rule-ne-unchanged_example : (ensure_snat_rule world spec tt recorded).0 ≢ ok unchanged
ensure_snat_rule-ne-unchanged_example = ensure_snat_rule-ne-unchanged world spec tt recorded

recover_item-Returns_example : Returns (
    recover_item
      (world.ip_allocations.list "pool")
      (λ o. o.tags)
      (record { scope = "s"; tag = "t" } ∷ [])
      2
      tt
      fresh)
recover_item-Returns_example =
    recover_item-Returns (world.ip_allocations.list "pool") (λ o. o.tags)
      (record { scope = "s"; tag = "t" } ∷ []) fresh 1 tt listed_few

ensure_infrastructure_deleted-AllCleared_example :
    Ended (AllCleared (get_tasks recorded)) (ensure_infrastructure_deleted world none tt recorded)
ensure_infrastructure_deleted-AllCleared_example =
    ensure_infrastructure_deleted-AllCleared world tt recorded

abbrev old_tier1 : Tier1
old_tier1 = record {
  display_name = none;
  failover_mode = none;
  tier0_path = none;
  route_advertisement_types = [];
  tags = record { scope = "owner"; tag = "o1" } ∷ [];
}

-- The same service, with the tier-1 gateway as the task updates it.
abbrev settled : Context Unit
settled = record world {
  service = record world.service {
    tier1s = record (client Unit Unit Tier1) {
      get = λ p id w. (
        got (record { id = id; path = "/infra"; object = sent world spec gateway old_tier1 }),
        w,
      );
    };
  };
}

abbrev settled_state : NsxtInfraState
settled_state = record recorded { tier0_gateway_ref = some gateway }

ensure_tier1_gateway-unchanged_example :
    ensure_tier1_gateway settled spec tt settled_state ≡ (ok unchanged, tt, settled_state)
ensure_tier1_gateway-unchanged_example =
    ensure_tier1_gateway-unchanged settled spec gateway old_tier1 gateway "t1" "/infra" tt
      settled_state refl refl refl refl

-- A world that is the clock, with nothing realized yet.
abbrev waiting : Context ℕ
waiting = record {
  service = service ℕ (λ w. w) (λ n w. w + n) [];
  shoot_namespace = "shoot--garden--one";
  garden_id = "g1";
  fuel = 151;
}
