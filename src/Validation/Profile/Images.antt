-- ===== src/Validation/Profile/Images.antt =====
-- The machine images of an accepted cloud profile: `checkMachineImage` against `FindImage`.
use gardener_extension_provi.Base.{
  ℕ, suc, String, Bool, true, false, not, List, [], ◌∷◌, Option, none, some, ◌≡◌, ap, ◌≢◌, ◌⊎◌, inl,
  inr, map, arith, same, same_iff, find, contains, all, is_some, All, Bool-cases,
}
use gardener_extension_provi.Profile.{
  CloudProfileConfig, CloudProfileSpec, MachineImages, MachineImageVersion, MachineType,
}
use gardener_extension_provi.Profile.Find.{find_image, guest_id_of}
use gardener_extension_provi.Validation.{FieldPath, root, child, index, failed, each, required}
use gardener_extension_provi.Validation.Laws.{append-eq-nil, each-eq-nil, All-AllFrom}
use gardener_extension_provi.Validation.Profile.{
  members, define_version, defined_versions, version_errors, versions_of, machine_image_errors,
  image_name_errors, missing_version_errors, validate_cloud_profile_config, general_errors,
  machine_images_errors, regions_errors, region_errors, machine_type_option_errors, is_nil,
  version_name_errors, version_path_errors,
}

-- A version entry of the name.
abbrev is_version : String → MachineImageVersion → Bool
is_version version v = same version v.version

contains-define_version :
    (version : String) (defined : List String) (s : String)
    → contains (define_version version defined) s ≡ true
    → (contains defined s ≡ true) ⊎ (same s version ≡ true)
contains-define_version version defined s h = elim (Bool-cases (same version "")) [
  | inl e ↦ inl (ground arith)
  | inr e ↦ elim (Bool-cases (contains defined version)) [
    | inl e1 ↦ inl (ground arith)
    | inr e1 ↦ elim (Bool-cases (contains defined s)) [
      | inl e2 ↦ inl e2
      | inr e2 ↦ inr (ground (arith, same_iff version s, same_iff s version))
    ]
  ]
]

contains-defined_versions :
    (defined : List String) (vs : List MachineImageVersion) (s : String)
    → contains (defined_versions defined vs) s ≡ true
    → (contains defined s ≡ true) ⊎ (is_some (find (is_version s) vs) ≡ true)
unfolding defined_versions
contains-defined_versions defined [] s h = inl h
contains-defined_versions defined (v ∷ vs) s h =
    elim (contains-defined_versions (define_version v.version defined) vs s h) [
      | inr e ↦ inr (ground arith)
      | inl e ↦ elim (contains-define_version v.version defined s e) [
        | inl e1 ↦ inl e1
        | inr e1 ↦ inr (ground arith)
      ]
    ]

abbrev HasPath : MachineImageVersion → Type 0
HasPath v = same v.path "" ≡ false

version_errors-HasPath :
    (versions : List String) (path : FieldPath) (j : ℕ) (defined : List String)
    (vs : List MachineImageVersion)
    → version_errors versions path j defined vs ≡ []
    → All HasPath vs
unfolding version_errors failed
version_errors-HasPath versions path j defined [] h = tt
version_errors-HasPath versions path j defined (v ∷ vs) h =
    let at = index (child path "versions") j in
    let h1 = (append-eq-nil (version_name_errors versions at defined v) _).0 h in
    let h2 = (append-eq-nil (version_path_errors at v) _).0 h1.1 in
    (
      ground arith,
      version_errors-HasPath versions path (suc j) (define_version v.version defined) vs h2.1,
    )

-- A version that is found has a path.
find-HasPath :
    (s : String) (vs : List MachineImageVersion)
    → All HasPath vs
    → is_some (find (is_version s) vs) ≡ true
    → (v : MachineImageVersion) × (find (is_version s) vs ≡ some v) × HasPath v
find-HasPath s [] paths h = cc
find-HasPath s (v ∷ vs) paths h = elim (Bool-cases (same s v.version)) [
  | inl e ↦ (v, ground arith, paths.0)
  | inr e ↦ let (w, e1, p) = find-HasPath s vs paths.1 (ground arith) in (w, ground arith, p)
]

contains-all :
    (xs ys : List String) (s : String)
    → all (contains xs) ys ≡ true
    → contains ys s ≡ true
    → contains xs s ≡ true
contains-all xs [] s h c = cc
contains-all xs (y ∷ ys) s h c = elim (Bool-cases (same y s)) [
  | inl e ↦ ground (arith, same_iff y s, ap (contains xs) ((same_iff y s).0 e))
  | inr e ↦ contains-all xs ys s (ground arith) (ground arith)
]

-- The entry of a machine image that is accepted has every version of the spec, with a path.
machine_image_errors-found :
    (spec : CloudProfileSpec) (path : FieldPath) (image : MachineImages) (s : String)
    → machine_image_errors spec path image ≡ []
    → contains (members (versions_of none spec.machine_images image.name)) s ≡ true
    → (v : MachineImageVersion) × (find (is_version s) image.versions ≡ some v) × HasPath v
unfolding machine_image_errors failed
machine_image_errors-found spec path image s h c =
    let known = versions_of none spec.machine_images image.name in
    let versions = members known in
    let h1 = (append-eq-nil (image_name_errors known path image) _).0 h in
    let h2 =
      (append-eq-nil (version_errors versions path 0 [] image.versions)
          (missing_version_errors known path image)).0
        h1.1 in
    let complete : all (contains (defined_versions [] image.versions)) versions ≡ true =
      ground (arith, h2.1) in
    find-HasPath s image.versions (version_errors-HasPath versions path 0 [] image.versions h2.0)
      (elim (contains-defined_versions [] image.versions s (contains-all _ versions s complete c)) [
        | inl e ↦ absurd (ground arith)
        | inr e ↦ e
      ])

abbrev pub Found : Option (String × String) → Type 0
Found result =
    (path : String) × (guest_id : String) × (result ≡ some (path, guest_id)) × (path ≢ "")

images-Found :
    (spec : CloudProfileSpec) (name s : String) (images : List MachineImages)
    → All (λ image. (path : FieldPath) × (machine_image_errors spec path image ≡ [])) images
    → is_some (find (λ image. same image.name name) images) ≡ true
    → contains (members (versions_of none spec.machine_images name)) s ≡ true
    → Found (find_image images name s)
unfolding find_image
images-Found spec name s [] accepted known c = cc
images-Found spec name s (image ∷ images) accepted known c =
    elim (Bool-cases (same image.name name)) [
      | inr e ↦
          let (path, guest_id, found, p) =
            images-Found spec name s images accepted.1 (ground arith) c in
          (path, guest_id, ground (arith, found), p)
      | inl e ↦
          let (v, found, p) =
            machine_image_errors-found spec accepted.0.0 image s accepted.0.1
              (rw ((same_iff _ _).0 e) c) in
          (
            v.path,
            guest_id_of v,
            ground (arith, found),
            λ empty. absurd (ground (arith, p, same_iff v.path "")),
          )
    ]

each_image-accepted :
    (spec : CloudProfileSpec) (at : FieldPath) (i : ℕ) (images : List MachineImages)
    → each (λ j image. machine_image_errors spec (index at j) image) i images ≡ []
    → All (λ image. (path : FieldPath) × (machine_image_errors spec path image ≡ [])) images
each_image-accepted spec at i images h =
    All-AllFrom _ _ (λ j image e. (index at j, e)) i images
      ((each-eq-nil (λ j image. machine_image_errors spec (index at j) image) i images).0 h)

-- The parts of an accepted configuration.
pub accepted_parts :
    (spec : CloudProfileSpec) (config : CloudProfileConfig)
    → validate_cloud_profile_config spec config ≡ []
    → (each
          (λ i image. machine_image_errors spec (index (child root "machineImages") i) image)
          0
          config.machine_images
        ≡ [])
      × (each (region_errors spec config) 0 config.regions ≡ [])
unfolding validate_cloud_profile_config
accepted_parts spec config h =
    let h1 = (append-eq-nil (general_errors config) _).0 h in
    let h2 = (append-eq-nil (machine_images_errors spec config) _).0 h1.1 in
    let h3 =
      (append-eq-nil
          (machine_type_option_errors (map (λ (t : MachineType). t.name) spec.machine_types) [] 0
            config.machine_type_options)
          (regions_errors spec config)).0
        h2.1 in
    (
      ((append-eq-nil
            (failed
              ((not (is_nil config.machine_images), required (child root "machineImages")) ∷ []))
            _).0
          h2.0).1,
      ((append-eq-nil (failed ((not (is_nil config.regions), required (child root "regions")) ∷ []))
            _).0
          h3.1).1,
    )

-- Where the validation accepts a cloud profile's configuration, FindImage finds every version of every image of the profile that the configuration names, and with a path.
pub accepted-find_image :
    (spec : CloudProfileSpec) (config : CloudProfileConfig) (name version : String)
    → validate_cloud_profile_config spec config ≡ []
    → is_some (find (λ image. same image.name name) config.machine_images) ≡ true
    → contains (members (versions_of none spec.machine_images name)) version ≡ true
    → Found (find_image config.machine_images name version)
accepted-find_image spec config name version accepted known c =
    images-Found spec name version config.machine_images
      (each_image-accepted spec (child root "machineImages") 0 config.machine_images
        (accepted_parts spec config accepted).0)
      known c
