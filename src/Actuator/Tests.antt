-- ===== src/Actuator/Tests.antt =====
-- Runs on which the theorems are applied.
use gardener_extension_provi.Base.{
  String, true, false, [], ◌∷◌, Option, none, some, get, same, ◌≡◌, ◌≢◌, ap, refl, inr, All,
}
use gardener_extension_provi.Profile.{is_empty_string}
use gardener_extension_provi.Profile.Find.{find_region}
use gardener_extension_provi.Profile.Tests.{sample_config, sample_spec, sample_region}
use gardener_extension_provi.Credentials.Tests.{secret_credentials}
use gardener_extension_provi.Validation.Tests.{sample_accepted}
use gardener_extension_provi.Infra.State.{NsxtInfraState}
use gardener_extension_provi.Infra.Action.{text, other, Result, ok, err}
use gardener_extension_provi.Infra.Context.{Context}
use gardener_extension_provi.Infra.Service.{failed}
use gardener_extension_provi.Infra.Gateway.{ensure_tier0_gateway}
use gardener_extension_provi.Infra.Lookup.{lookup_by_name}
use gardener_extension_provi.Infra.Task.{ensure}
use gardener_extension_provi.Infra.Ensurer.{
  get_tasks, tasks_of, ensure_tasks, ensure_task, try_recover, recover_reference, recover_missing,
  look_up, update_external_state, ensure_infrastructure,
}
use gardener_extension_provi.Infra.Tests.{world, fresh}
use gardener_extension_provi.Actuator.{
  Inputs, PreparedReconcile, NsxtConfig, get_cloud_profile_config, spec_of, prepare_reconcile,
}
use gardener_extension_provi.Actuator.Status.{
  ZoneConfig, InfrastructureStatus, zone_config, zone_configs, vsphere_config_of,
  make_provider_infrastructure_status,
}
use gardener_extension_provi.Actuator.Laws.{IsKey, IsPlaced}
use gardener_extension_provi.Actuator.Prepared.{
  prepared-make_provider_infrastructure_status, prepared-IsPlaced,
}
use gardener_extension_provi.Actuator.Run.{
  Cluster, Calls, checked_connection, stored_state, reconcile, delete_infrastructure,
}
use gardener_extension_provi.Actuator.Persist.{IsMarked}
use gardener_extension_provi.Actuator.Life.{Life, Life-IsMarked}
use gardener_extension_provi.Actuator.Outcome.{
  CameBack, reconcile-saves_state, refused-delete_infrastructure,
}

-- NSX-T answers no question about tier-0 gateways.
abbrev broken : Context Unit
broken = record world {
  service = record world.service { tier0s = λ cursor w. (failed (other "down"), w) };
}

abbrev inputs : Inputs (Context Unit)
inputs = record {
  profile_spec = sample_spec;
  provider_config = some (ok sample_config);
  infra_config = ok record { networks = none; overwrite_nsxt_infra_version = some "2" };
  credentials = ok secret_credentials;
  region = "eu";
  garden_id = "g1";
  infra_namespace = "shoot--garden--one";
  cluster_name = "shoot--garden--one";
  nodes = some "10.250.0.0/19";
  new_ensurer = λ config. ok broken;
}

abbrev config : NsxtConfig
config = record {
  user = "nsxt";
  password = "c";
  host = "nsxt";
  insecure_flag = false;
  remote_auth = false;
}

abbrev prepared : PreparedReconcile (Context Unit)
prepared = record {
  cloud_profile_config = sample_config;
  infra_config = record { networks = none; overwrite_nsxt_infra_version = some "2" };
  nsxt_config = config;
  region = sample_region;
  spec =
      spec_of inputs sample_config
        (record { networks = none; overwrite_nsxt_infra_version = some "2" }) sample_region
        "10.250.0.0/19";
  ensurer = broken;
}

inputs-prepared : prepare_reconcile inputs ≡ ok prepared
unfolding prepare_reconcile get_cloud_profile_config find_region same
inputs-prepared = rw sample_accepted refl

-- A connection that is refused, and an API server that takes every patch.
abbrev calls : Calls Unit
calls = record {
  check_connection = λ ctx w. (err (text "refused"), w);
  patch_status = λ status w. (none, w);
  destroy_all = λ config state w. (none, w);
}

abbrev pub started_status : InfrastructureStatus
started_status = record {
  vsphere_config = record { folder = ""; region = ""; zone_configs = [] };
  creation_started = some true;
  nsxt_infra_state = some fresh;
}

abbrev started_cluster : Cluster Unit
started_cluster = record { world = tt; status = some started_status }

abbrev fresh_cluster : Cluster Unit
fresh_cluster = record { world = tt; status = none }

abbrev run : Result (Unit {0}) × Unit {0} × NsxtInfraState
run = ensure_infrastructure broken prepared.spec tt fresh

prepared-make_provider_infrastructure_status_example :
    (status : InfrastructureStatus) × (make_provider_infrastructure_status none
        (some prepared)
        (some true)
      ≡ ok status)
    × (status.nsxt_infra_state ≡ none)
    × (status.creation_started ≡ some true)
    × All (λ z. IsKey status.vsphere_config.zone_configs z.name) prepared.region.zones
prepared-make_provider_infrastructure_status_example =
    prepared-make_provider_infrastructure_status inputs prepared none (some true) inputs-prepared

abbrev pub zone_1 : ZoneConfig
zone_1 = record {
  datacenter = "dc";
  compute_cluster = "cl1";
  resource_pool = "";
  host_system = "";
  datastore = "ds1";
  datastore_cluster = "";
  switch_uuid = "";
}

abbrev made_status : InfrastructureStatus
made_status = record {
  vsphere_config = record {
    folder = "gardener";
    region = "eu";
    zone_configs = ("rz1", zone_1) ∷ [];
  };
  creation_started = some true;
  nsxt_infra_state = none;
}

status_made : make_provider_infrastructure_status none (some prepared) (some true) ≡ ok made_status
unfolding make_provider_infrastructure_status vsphere_config_of zone_configs zone_config
status_made = refl

entry_found : get "rz1" made_status.vsphere_config.zone_configs ≡ some zone_1
unfolding same
entry_found = refl

datastore_set : ◌≢◌ {A = Option String} (some "ds1") (some "")
unfolding same
datastore_set e = let q = ap is_empty_string e in cc

prepared-IsPlaced_example : IsPlaced zone_1
prepared-IsPlaced_example =
    prepared-IsPlaced inputs prepared none (some true) made_status "rz1" zone_1 inputs-prepared
      ((((λ e. cc), datastore_set, (λ e. cc)), tt)) status_made entry_found

Life-IsMarked_example : IsMarked (reconcile calls inputs fresh_cluster).1.status
Life-IsMarked_example =
    Life-IsMarked calls (reconcile calls inputs fresh_cluster).1
      (Life.reconciled inputs (Life.fresh tt))

run_fails : CameBack run.0
unfolding ensure_infrastructure get_tasks tasks_of ensure_tasks ensure_task try_recover
    recover_reference recover_missing look_up ensure ensure_tier0_gateway lookup_by_name same
    update_external_state spec_of
run_fails = inr (_, refl)

reconcile-saves_state_example :
    ((reconcile calls inputs started_cluster).0 ≡ run.0)
    × (stored_state (reconcile calls inputs started_cluster).1.status ≡ some run.2)
reconcile-saves_state_example =
    reconcile-saves_state calls inputs prepared started_cluster run.0 tt run.1 fresh run.2
      (λ status w. refl) inputs-prepared refl refl refl run_fails

connection_refused :
    (checked_connection calls (prepare_reconcile inputs) tt).0 ≡ err (text "refused")
connection_refused = rw inputs-prepared refl

refused-delete_infrastructure_example :
    ((reconcile calls inputs fresh_cluster).0 ≡ err (text "refused"))
    × (delete_infrastructure calls inputs (reconcile calls inputs fresh_cluster).1
        ≡ (ok tt, (reconcile calls inputs fresh_cluster).1))
refused-delete_infrastructure_example =
    refused-delete_infrastructure calls inputs inputs fresh_cluster (text "refused") refl
      connection_refused
