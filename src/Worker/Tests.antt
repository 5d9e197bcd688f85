-- ===== src/Worker/Tests.antt =====
-- Workers on which the theorems are applied.
use gardener_extension_provi.Base.{ℕ, String, [], ◌∷◌, none, some, ◌≡◌, refl, length, same}
use gardener_extension_provi.Fallible.{Fallible, ok, err}
use gardener_extension_provi.Profile.Find.{find_image, find_region}
use gardener_extension_provi.Profile.Tests.{sample_config, sample_spec}
use gardener_extension_provi.Credentials.{extract_user_pass, extract_credentials, mcm_account}
use gardener_extension_provi.Credentials.Tests.{secret}
use gardener_extension_provi.Infra.Tests.{fresh}
use gardener_extension_provi.Actuator.Status.{InfrastructureStatus}
use gardener_extension_provi.Actuator.Tests.{zone_1}
use gardener_extension_provi.Validation.Tests.{sample_accepted, known, listed}
use gardener_extension_provi.Worker.{
  WorkerError, MachineValues, find_worker_image, storage_in_gb, extract_machine_values,
}
use gardener_extension_provi.Worker.Laws.{accepted-find_worker_image}
use gardener_extension_provi.Worker.Machines.{
  WorkerPool, Pools, Request, MachineConfig, machine_class_secret_data, add_zones, add_pool,
  add_pools, generate_machine_config,
}
use gardener_extension_provi.Worker.Classes.{
  IsConsistent, count_zones, generate_machine_config-IsConsistent,
}

abbrev values : MachineValues
values = record {
  num_cpus = 2;
  memory_in_mb = 4096;
  system_disk_size_in_gb = 20;
  machine_type_options =
      some record { name = "std"; memory_reservation_locked_to_max = none; extra_config = [] };
}

accepted-find_worker_image_example :
    (image : String × String) × (find_worker_image "eu"
        (some sample_config)
        (some (err "broken"))
        "gardenlinux"
        "1.1"
      ≡ ok image)
    × (find_worker_image "eu" (some sample_config) none "gardenlinux" "1.1" ≡ ok image)
accepted-find_worker_image_example =
    accepted-find_worker_image sample_spec sample_config "eu" "gardenlinux" "1.1"
      (some (err "broken")) sample_accepted known listed

abbrev pool : String → WorkerPool ℕ ℕ (Unit {0})
pool name = record {
  name = name;
  minimum = 1;
  maximum = 3;
  max_surge = 1;
  max_unavailable = 0;
  machine_type = "std";
  image_name = "gardenlinux";
  image_version = "1.1";
  zones = "rz1" ∷ "rz1" ∷ [];
  volume_size = none;
  labels = [];
  passed_on = tt;
  user_data = "#!/bin/bash";
  node_template = none;
}

abbrev lib : Pools ℕ ℕ (Unit {0})
lib = record {
  worker_pool_hash = λ p. ok "abcde";
  disk_size = λ size. ok 50;
  distribute_over_zones = λ index n zones. n;
  distribute_positive_int_or_percent = λ index p zones n. p;
  merge_string_maps = λ a b. b;
}

abbrev stored : InfrastructureStatus
stored = record {
  vsphere_config = record { folder = ""; region = "eu"; zone_configs = ("rz1", zone_1) ∷ [] };
  creation_started = none;
  nsxt_infra_state = some (record fresh { segment_name = some "segment" });
}

abbrev request : Request ℕ ℕ (Unit {0})
request = record {
  namespace = "shoot--garden--one";
  region = "eu";
  shoot_region = "eu";
  ssh_public_key = "ssh-rsa";
  secret_ref = ("cloudprovider", "garden-dev");
  secret = ok (some secret);
  pools = pool "p" ∷ pool "q" ∷ [];
  infrastructure_status = ok (some stored);
  config = some sample_config;
  decoded_config = ok (some sample_config);
  machine_types = sample_spec.machine_types;
  status = none;
}

abbrev generated :
    Fallible WorkerError (MachineConfig ℕ ℕ (Unit {0})) → MachineConfig ℕ ℕ (Unit {0})
generated (ok config) = config
generated (err e) = record { deployments = []; classes = []; images = [] }

run_generates :
    generate_machine_config lib request ≡ ok (generated (generate_machine_config lib request))
unfolding generate_machine_config machine_class_secret_data extract_credentials extract_user_pass
    mcm_account find_region add_pools add_pool add_zones find_worker_image find_image
    extract_machine_values storage_in_gb same
run_generates = refl

generate_machine_config-IsConsistent_example :
    (length (generated (generate_machine_config lib request)).deployments
      ≡ count_zones request.pools)
    × IsConsistent (generated (generate_machine_config lib request))
generate_machine_config-IsConsistent_example =
    generate_machine_config-IsConsistent lib request
      (generated (generate_machine_config lib request)) run_generates
