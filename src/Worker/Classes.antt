-- ===== src/Worker/Classes.antt =====
-- What a run of `generateMachineConfig` keeps.
use mathlib.Core.Path.{subst}
use gardener_extension_provi.Base.{
  ℕ, suc, ◌+◌, String, List, [], ◌∷◌, ◌++◌, Map, ◌≡◌, refl, sym, ◌∙◌, ap, arith, map, length,
  length-append,
}
use gardener_extension_provi.Fallible.{ok-eq, ok, >>=-eq-ok}
use gardener_extension_provi.Actuator.Status.{InfrastructureStatus}
use gardener_extension_provi.Worker.{
  MachineValues, reading, find_worker_image, append_machine_image, extract_machine_values,
}
use gardener_extension_provi.Worker.Laws.{AreUnique, append_machine_image-AreUnique}
use gardener_extension_provi.Worker.Machines.{
  WorkerPool, MachineClassSpec, MachineDeployment, Pools, Request, MachineConfig,
  machine_class_secret_data, segment_name_of, machine_class_spec, machine_deployment, class_name,
  zone_config_of, with_volume, no_config, add_zone, add_zones, used_image, add_pool, add_pools,
  has_ssh_key, generate_machine_config,
}

module _ {P N T : Type 0} where
  abbrev pub class_names : MachineConfig P N T → List String
  class_names config = map (λ (d : MachineDeployment P T). d.class_name) config.deployments

  -- Each deployment goes with the class of its name, in one order, and no image is there twice.
  abbrev pub IsConsistent : MachineConfig P N T → Type 0
  IsConsistent config =
      (class_names config ≡ map (λ (c : MachineClassSpec N). c.name) config.classes)
      × AreUnique config.images

  -- The zones of all pools.
  abbrev pub count_zones : List (WorkerPool P N T) → ℕ
  count_zones [] = 0
  count_zones (pool ∷ pools) = length pool.zones + count_zones pools

  -- The run adds that many deployments, and keeps the consistency.
  abbrev Adds : ℕ → MachineConfig P N T → MachineConfig P N T → Type 0
  Adds n before after =
      (length after.deployments ≡ length before.deployments + n) × IsConsistent after

map-append : {A B : Type 0} (f : A → B) (xs ys : List A) → map f (xs ++ ys) ≡ map f xs ++ map f ys
map-append f [] ys = refl
map-append f (x ∷ xs) ys = ap (λ zs. f x ∷ zs) (map-append f xs ys)

module _ {P N T : Type 0} (lib : Pools P N T) (request : Request P N T) where
  add_zone-Adds :
      (deployment : MachineDeployment P T) (class : MachineClassSpec N)
      (config : MachineConfig P N T)
      → deployment.class_name ≡ class.name
      → IsConsistent config
      → Adds 1 config (add_zone lib request deployment class config)
  unfolding add_zone
  add_zone-Adds deployment class config e h = (
    length-append config.deployments (deployment ∷ []),
    (
      map-append (λ (d : MachineDeployment P T). d.class_name) config.deployments (deployment ∷ [])
          ∙ (rw h.0 (rw e refl))
          ∙ sym (map-append (λ (c : MachineClassSpec N). c.name) config.classes (class ∷ [])),
      h.1,
    ),
  )

  add_zones-Adds :
      (status : InfrastructureStatus) (network : String) (secret_data : Map String)
      (pool : WorkerPool P N T) (hash : String) (image : String × String) (values : MachineValues)
      (index : ℕ) (zones : List String) (config : MachineConfig P N T) {after : MachineConfig P N T}
      → add_zones lib request status network secret_data pool hash image values index zones config
        ≡ ok after
      → IsConsistent config
      → Adds (length zones) config after
  unfolding add_zones machine_class_spec
  add_zones-Adds status network secret_data pool hash image values index [] config r h =
      subst (Adds 0 config) (ok-eq r) (omega arith, h)
  add_zones-Adds status network secret_data pool hash image values index (zone ∷ zones) config r h =
      let (zone_config, e, r1) = >>=-eq-ok (zone_config_of lib request zone status) _ r in
      let class =
        machine_class_spec lib request status network secret_data pool image values zone zone_config
          (class_name lib request pool hash index) in
      let deployment =
        machine_deployment lib request status.vsphere_config.region pool hash index zone in
      let (count, consistent) = add_zone-Adds deployment class config refl h in
      let (count', consistent') =
        add_zones-Adds status network secret_data pool hash image values (suc index) zones
          (add_zone lib request deployment class config) r1 consistent in
      (omega (arith, count, count'), consistent')

  add_pool-Adds :
      (status : InfrastructureStatus) (network : String) (secret_data : Map String)
      (pool : WorkerPool P N T) (config : MachineConfig P N T) {after : MachineConfig P N T}
      → add_pool lib request status network secret_data pool config ≡ ok after
      → IsConsistent config
      → Adds (length pool.zones) config after
  unfolding add_pool
  add_pool-Adds status network secret_data pool config r h =
      let (hash, e1, r1) = >>=-eq-ok (reading (lib.worker_pool_hash pool)) _ r in
      let (image, e2, r2) =
        >>=-eq-ok
          (find_worker_image request.shoot_region request.config request.status pool.image_name
            pool.image_version)
          _ r1 in
      let (values, e3, r3) =
        >>=-eq-ok
          (extract_machine_values request.machine_types request.decoded_config pool.machine_type) _
          r2 in
      let (values', e4, r4) = >>=-eq-ok (with_volume lib request pool values) _ r3 in
      let image' = used_image lib request pool image in
      add_zones-Adds status network secret_data pool hash image values' 0 pool.zones
        (record config { images = append_machine_image config.images image' }) r4
        (h.0, append_machine_image-AreUnique config.images image' h.1)

  add_pools-Adds :
      (status : InfrastructureStatus) (network : String) (secret_data : Map String)
      (pools : List (WorkerPool P N T)) (config : MachineConfig P N T) {after : MachineConfig P N T}
      → add_pools lib request status network secret_data pools config ≡ ok after
      → IsConsistent config
      → Adds (count_zones pools) config after
  unfolding add_pools
  add_pools-Adds status network secret_data [] config r h =
      subst (Adds 0 config) (ok-eq r) (omega arith, h)
  add_pools-Adds status network secret_data (pool ∷ pools) config r h =
      let (config', e, r1) =
        >>=-eq-ok (add_pool lib request status network secret_data pool config) _ r in
      let (count, consistent) = add_pool-Adds status network secret_data pool config e h in
      let (count', consistent') =
        add_pools-Adds status network secret_data pools config' r1 consistent in
      (omega (arith, count, count'), consistent')

  -- Where generateMachineConfig succeeds, there is one machine deployment for each zone of each pool; the class of each deployment has the name that the deployment refers to, in the same order; and no machine image is listed twice.
  pub generate_machine_config-IsConsistent :
      (config : MachineConfig P N T)
      → generate_machine_config lib request ≡ ok config
      → (length config.deployments ≡ count_zones request.pools) × IsConsistent config
  unfolding generate_machine_config
  generate_machine_config-IsConsistent config r =
      let (secret_data, e1, r1) = >>=-eq-ok (machine_class_secret_data lib request) _ r in
      let (infrastructure, e2, r2) = >>=-eq-ok (reading request.infrastructure_status) _ r1 in
      let (found, e3, r3) = >>=-eq-ok (segment_name_of infrastructure) _ r2 in
      let (u, e4, r4) = >>=-eq-ok (has_ssh_key lib request) _ r3 in
      let (count, consistent) =
        add_pools-Adds found.0 found.1 secret_data request.pools (no_config lib request) r4
          (refl, tt) in
      (omega (arith, count), consistent)
