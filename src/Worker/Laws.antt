-- ===== src/Worker/Laws.antt =====
-- The images that the worker controller uses.
use gardener_extension_provi.Base.{
  String, true, List, [], ◌∷◌, ◌++◌, none, some, ◌≡◌, refl, arith, same, same_iff, contains, find,
  inl, inr, Option-cases, is_some, if◌then◌else◌,
}
use gardener_extension_provi.Fallible.{ok}
use gardener_extension_provi.Profile.{
  CloudProfileSpec, MachineImages, CloudProfileConfig, MachineImage,
}
use gardener_extension_provi.Profile.Find.{find_machine_image, has_version, find_image, find_region}
use gardener_extension_provi.Validation.Profile.{
  members, versions_of, validate_cloud_profile_config,
}
use gardener_extension_provi.Validation.Profile.Images.{accepted-find_image}
use gardener_extension_provi.Worker.{
  append_machine_image, DecodedImages, images_of_region, find_worker_image,
}

-- One image for each name and version.
abbrev pub AreUnique : List MachineImage → Type 0
AreUnique [] = Unit
AreUnique (image ∷ images) =
    (find_machine_image images image.name image.version ≡ none) × AreUnique images

find_machine_image-append :
    (images : List MachineImage) (image : MachineImage) (name version : String)
    → find_machine_image (images ++ (image ∷ [])) name version
      ≡ (elim (find_machine_image images name version) [
        | some found ↦ some found
        | none ↦ if has_version name version image then some image else none
      ])
unfolding find_machine_image
find_machine_image-append [] image name version = ground arith
find_machine_image-append (i ∷ images) image name version =
    ground (arith, find_machine_image-append images image name version)

AreUnique-append :
    (images : List MachineImage) (image : MachineImage)
    → AreUnique images
    → find_machine_image images image.name image.version ≡ none
    → AreUnique (images ++ (image ∷ []))
unfolding find_machine_image
AreUnique-append [] image u e = (refl, tt)
AreUnique-append (i ∷ images) image u e = (
  ground (
    arith,
    u.0,
    find_machine_image-append images image i.name i.version,
    same_iff i.name image.name,
    same_iff image.name i.name,
    same_iff i.version image.version,
    same_iff image.version i.version,
  ),
  AreUnique-append images image u.1 (ground arith),
)

append_machine_image-new :
    (images : List MachineImage) (image : MachineImage)
    → find_machine_image images image.name image.version ≡ none
    → append_machine_image images image ≡ images ++ (image ∷ [])
unfolding append_machine_image
append_machine_image-new images image e = ground arith

append_machine_image-known :
    (images : List MachineImage) (image : MachineImage) {found : MachineImage}
    → find_machine_image images image.name image.version ≡ some found
    → append_machine_image images image ≡ images
unfolding append_machine_image
append_machine_image-known images image e = ground arith

pub append_machine_image-AreUnique :
    (images : List MachineImage) (image : MachineImage)
    → AreUnique images
    → AreUnique (append_machine_image images image)
append_machine_image-AreUnique images image u =
    elim (Option-cases (find_machine_image images image.name image.version)) [
      | inl e ↦ rw (append_machine_image-new images image e) (AreUnique-append images image u e)
      | inr (found, e) ↦ rw (append_machine_image-known images image e) u
    ]

-- For a cloud profile whose configuration is valid, the image of a version that the profile lists for a name of the configuration is found without the worker's status.
pub accepted-find_worker_image :
    (spec : CloudProfileSpec) (config : CloudProfileConfig) (region name version : String)
    (status : DecodedImages)
    → validate_cloud_profile_config spec config ≡ []
    → is_some (find (λ (image : MachineImages). same image.name name) config.machine_images) ≡ true
    → contains (members (versions_of none spec.machine_images name)) version ≡ true
    → (image : String × String) × (find_worker_image region (some config) status name version
        ≡ ok image)
      × (find_worker_image region (some config) none name version ≡ ok image)
unfolding find_worker_image
accepted-find_worker_image spec config region name version status accepted known listed =
    let (path, guest_id, found, p) =
      accepted-find_image spec config name version accepted known listed in
    elim (Option-cases
      (find_image (images_of_region (find_region region config.regions)) name version)) [
        | inr (image, e) ↦ (image, ground arith, ground arith)
        | inl e ↦ ((path, guest_id), ground arith, ground arith)
      ]
