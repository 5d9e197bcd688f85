-- ===== src/Worker.antt =====
-- pkg/controller/worker: the machine images and the sizes of a pool's machines (machine_images.go, and
-- `extractMachineValues` of machines.go). Texts of errors are left out.
pub mod Machines
pub mod Laws
pub mod Sizes
pub mod Classes
pub mod Tests
use gardener_extension_provi.Base.{
  ℕ, String, Bool, true, false, List, [], ◌∷◌, ◌++◌, Option, none, some, ltb, leb, ◌/◌, ◌*◌, same,
  find, if◌then◌else◌,
}
use gardener_extension_provi.Base.Int.{ℤ, pos, negsuc}
use gardener_extension_provi.Fallible.{Fallible, ok, err, ◌>>=◌, ◌>>◌}
use gardener_extension_provi.Profile.{
  CloudProfileConfig, MachineImage, MachineImages, MachineType, MachineTypeOptions, RegionSpec,
}
use gardener_extension_provi.Profile.Find.{find_image, find_region, find_machine_image}

pub data WorkerError : Type 0 where
  nil_pointer : WorkerError
  -- an error of a library or a decoder
  passed : String → WorkerError
  no_region no_segment_name no_ssh_public_key : WorkerError
  no_machine_image no_machine_type no_zone_config : String → WorkerError
  invalid_cpu invalid_memory invalid_storage : String → WorkerError

-- What the worker's status, if it has one, decodes to.
abbrev pub DecodedImages : Type 0
DecodedImages = Option (Fallible String (List MachineImage))

abbrev pub recorded_image : Option MachineImage → String → Fallible WorkerError (String × String)
recorded_image none name = err (no_machine_image name)
recorded_image (some image) name = ok (image.path, image.guest_id)

unfoldable pub image_of_status :
    DecodedImages → String → String → Fallible WorkerError (String × String)
image_of_status none name version = err (no_machine_image name)
image_of_status (some (err e)) name version = err (passed e)
image_of_status (some (ok images)) name version =
    recorded_image (find_machine_image images name version) name

abbrev pub images_of_region : Option RegionSpec → List MachineImages
images_of_region none = []
images_of_region (some region) = region.machine_images

-- The images of the region go before those of the profile, and these before the status.
unfoldable pub find_worker_image :
    String
    → Option CloudProfileConfig
    → DecodedImages
    → String
    → String
    → Fallible WorkerError (String × String)
unfolding image_of_status
find_worker_image region none status name version = err nil_pointer
find_worker_image region (some config) status name version =
    elim (find_image (images_of_region (find_region region config.regions)) name version) [
      | some found ↦ ok found
      | none ↦ elim (find_image config.machine_images name version) [
        | some found ↦ ok found
        | none ↦ image_of_status status name version
      ]
    ]

unfoldable pub append_machine_image : List MachineImage → MachineImage → List MachineImage
append_machine_image images image = elim (find_machine_image images image.name image.version) [
  | none ↦ images ++ (image ∷ [])
  | some found ↦ images
]

pub record MachineValues : Type 0 where
  pub num_cpus : ℕ
  pub memory_in_mb : ℕ
  pub system_disk_size_in_gb : ℕ
  pub machine_type_options : Option MachineTypeOptions

-- A quantity in whole units. One that is no integer counts as 0, and a negative one fails each test
-- as 0 does.
abbrev pub units : ℕ → Option ℤ → ℕ
units unit none = 0
units unit (some (negsuc n)) = 0
units unit (some (pos n)) = n / unit

abbrev pub mebi : ℕ
mebi = 1048576

abbrev pub gibi : ℕ
gibi = 1073741824

abbrev pub positive : WorkerError → ℕ → Fallible WorkerError ℕ
positive e n = if ltb 0 n then ok n else err e

-- The disk that the machine type brings along; 20 GB if it has none.
unfoldable pub storage_in_gb : MachineType → Fallible WorkerError ℕ
storage_in_gb machine_type = elim machine_type.storage_size [
  | none ↦ ok 20
  | some none ↦ err (invalid_storage machine_type.name)
  | some (some size) ↦
      if ltb (units gibi (some size)) 10
      then err (invalid_storage machine_type.name)
      else ok (units gibi (some size))
]

abbrev pub machine_type_of : String → List MachineType → Fallible WorkerError MachineType
machine_type_of name machine_types = elim (find (λ t. same t.name name) machine_types) [
  | none ↦ err (no_machine_type name)
  | some machine_type ↦ ok machine_type
]

abbrev pub reading : {A : Type 0} → Fallible String A → Fallible WorkerError A
reading (ok a) = ok a
reading (err e) = err (passed e)

abbrev pub profile_options :
    Option CloudProfileConfig → Fallible WorkerError (List MachineTypeOptions)
profile_options none = err nil_pointer
profile_options (some config) = ok config.machine_type_options

-- `config` is what `GetCloudProfileConfigFromProfile` gives, which may be nil.
unfoldable pub extract_machine_values :
    List MachineType
    → Fallible String (Option CloudProfileConfig)
    → String
    → Fallible WorkerError MachineValues
unfolding storage_in_gb
extract_machine_values machine_types config name = do
  machine_type ← machine_type_of name machine_types
  cpus ← positive (invalid_cpu name) (units 1 machine_type.cpu)
  memory ← positive (invalid_memory name) (units mebi machine_type.memory)
  storage ← storage_in_gb machine_type
  profile ← reading config
  options ← profile_options profile
  ok record {
    num_cpus = cpus;
    memory_in_mb = memory;
    system_disk_size_in_gb = storage;
    machine_type_options = find (λ (o : MachineTypeOptions). same o.name name) options;
  }
