-- ===== src/Validation/Profile.antt =====
-- `ValidateCloudProfileConfig` (pkg/apis/vsphere/validation/cloudprofile.go).
pub mod Images
use Prim.Native.Char.{code}
use Prim.Native.String.{[], ◌∷◌}
use gardener_extension_provi.Base.{
  ℕ, zero, suc, String, Bool, true, false, not, ◌&&◌, ◌||◌, List, [], ◌∷◌, ◌++◌, Option, none, some,
  leb, ltb, ◌==◌, same, all, contains, is_some, map, if◌then◌else◌,
}
use gardener_extension_provi.Profile.{
  CloudProfileConfig, CloudProfileSpec, ProfileImage, MachineImages, MachineImageVersion,
  MachineTypeOptions, MachineType, RegionSpec, ZoneSpec, DhcpOption, is_set,
}
use gardener_extension_provi.Profile.Find.{set_insert}
use gardener_extension_provi.Validation.{
  FieldPath, root, child, index, FieldError, required, invalid, not_supported, forbidden, duplicate,
  ErrorList, failed, each,
}

abbrev pub is_nil : {A : Type 0} → List A → Bool
is_nil [] = true
is_nil (x ∷ xs) = false

abbrev pub valid_load_balancer_size_values : List String
valid_load_balancer_size_values = "SMALL" ∷ "MEDIUM" ∷ "LARGE" ∷ []

unfoldable pub is_lower_or_digit : ℕ → Bool
is_lower_or_digit c = (leb b'a' c && leb c b'z') || (leb b'0' c && leb c b'9')

-- The rest of a name, after a character that may or may not end it.
unfoldable pub name_rest : Bool → String → Bool
unfolding is_lower_or_digit
name_rest may_end [] = may_end
name_rest may_end (c ∷ s) =
    (is_lower_or_digit (code c) || code c == b'-') && name_rest (is_lower_or_digit (code c)) s

-- `namePrefixPattern`
unfoldable pub is_name_prefix : String → Bool
unfolding name_rest is_lower_or_digit
is_name_prefix [] = false
is_name_prefix (c ∷ s) = is_lower_or_digit (code c) && name_rest true s

unfoldable pub size_errors : String → ErrorList
size_errors size =
    let path = child (child (child root "constraints") "loadBalancerConfig") "size" in
    if same size ""
    then required path ∷ []
    else failed ((contains valid_load_balancer_size_values size, not_supported path) ∷ [])

unfoldable pub name_prefix_errors : String → ErrorList
name_prefix_errors name =
    if same name ""
    then required (child root "namePrefix") ∷ []
    else failed ((is_name_prefix name, invalid (child root "namePrefix")) ∷ [])

-- The versions of an image in the profile's spec; a later image of the name replaces an earlier one.
unfoldable pub versions_of :
    Option (List String) → List ProfileImage → String → Option (List String)
versions_of found [] name = found
versions_of found (image ∷ images) name =
    versions_of (if same image.name name then some image.versions else found) images name

-- A set that is nil has no members.
abbrev pub members : Option (List String) → List String
members none = []
members (some versions) = versions

abbrev pub define_version : String → List String → List String
define_version version defined = if same version "" then defined else set_insert version defined

unfoldable pub defined_versions : List String → List MachineImageVersion → List String
defined_versions defined [] = defined
defined_versions defined (v ∷ vs) = defined_versions (define_version v.version defined) vs

abbrev pub version_name_errors :
    List String → FieldPath → List String → MachineImageVersion → ErrorList
version_name_errors versions at defined v =
    if same v.version ""
    then required (child at "version") ∷ []
    else failed (
        (not (contains defined v.version), duplicate (child at "version"))
        ∷ (contains versions v.version, invalid (child at "version"))
        ∷ [])

abbrev pub version_path_errors : FieldPath → MachineImageVersion → ErrorList
version_path_errors at v = failed ((not (same v.path ""), required (child at "path")) ∷ [])

unfoldable pub version_errors :
    List String → FieldPath → ℕ → List String → List MachineImageVersion → ErrorList
version_errors versions path j defined [] = []
version_errors versions path j defined (v ∷ vs) =
    version_name_errors versions (index (child path "versions") j) defined v
    ++ (version_path_errors (index (child path "versions") j) v
        ++ version_errors versions path (suc j) (define_version v.version defined) vs)

abbrev pub image_name_errors : Option (List String) → FieldPath → MachineImages → ErrorList
image_name_errors versions path image = failed (
    (not (same image.name ""), required (child path "name"))
    ∷ (is_some versions, forbidden (child path "name"))
    ∷ (not (is_nil image.versions), required (child path "versions"))
    ∷ [])

abbrev pub missing_version_errors : Option (List String) → FieldPath → MachineImages → ErrorList
missing_version_errors versions path image =
    failed
      ((all (contains (defined_versions [] image.versions)) (members versions), invalid path) ∷ [])

unfoldable pub machine_image_errors : CloudProfileSpec → FieldPath → MachineImages → ErrorList
machine_image_errors spec path image =
    let versions = versions_of none spec.machine_images image.name in
    image_name_errors versions path image
    ++ (version_errors (members versions) path 0 [] image.versions
        ++ missing_version_errors versions path image)

unfoldable pub machine_type_option_errors :
    List String → List String → ℕ → List MachineTypeOptions → ErrorList
machine_type_option_errors names seen i [] = []
machine_type_option_errors names seen i (o ∷ options) =
    let path = child (index (child root "machineTypeOptions") i) "name" in
    (if same o.name ""
      then required path ∷ []
      else failed (
          (not (contains seen o.name), duplicate path)
          ∷ (contains names o.name, invalid path)
          ∷ []))
    ++ machine_type_option_errors names (if same o.name "" then seen else set_insert o.name seen)
        (suc i) options

abbrev pub dhcp_option_errors : ℕ → DhcpOption → ErrorList
dhcp_option_errors i option =
    failed ((ltb 0 option.code, required (child (index (child root "dhcpOptions") i) "code")) ∷ [])

unfoldable pub zone_errors : RegionSpec → FieldPath → ℕ → ZoneSpec → ErrorList
zone_errors region region_path j zone =
    let path = index (child region_path "zones") j in
    failed (
      (not (same zone.name ""), required (child path "name"))
      ∷ (is_set zone.datacenter || is_set region.datacenter, required (child path "datacenter"))
      ∷ (
        is_set zone.datastore
            || (is_set zone.datastore_cluster
                || (is_set region.datastore || is_set region.datastore_cluster)),
        required (child path "datastore"),
      )
      ∷ (
        is_set zone.compute_cluster || (is_set zone.resource_pool || is_set zone.host_system),
        required (child path "resourcePool"),
      )
      ∷ [])

-- The fields that a region has to fill.
abbrev pub region_checks : FieldPath → RegionSpec → List (Bool × FieldError)
region_checks path region =
    (not (same region.name ""), required (child path "name"))
    ∷ (not (same region.vsphere_host ""), required (child path "vsphereHost"))
    ∷ (not (same region.nsxt_host ""), required (child path "nsxtHost"))
    ∷ (not (same region.snat_ip_pool ""), required (child path "snatIPPool"))
    ∷ (not (same region.transport_zone ""), required (child path "transportZone"))
    ∷ (not (same region.logical_tier0_router ""), required (child path "logicalTier0Router"))
    ∷ (not (same region.edge_cluster ""), required (child path "edgeCluster"))
    ∷ (not (is_nil region.zones), required (child path "zones"))
    ∷ []

unfoldable pub dns_errors : CloudProfileConfig → FieldPath → RegionSpec → ErrorList
dns_errors config path region =
    if is_nil config.dns_servers && is_nil region.dns_servers
    then required (child root "dnsServers") ∷ required (child path "dnsServers") ∷ []
    else []

unfoldable pub region_errors : CloudProfileSpec → CloudProfileConfig → ℕ → RegionSpec → ErrorList
region_errors spec config i region =
    let path = index (child root "regions") i in
    failed (region_checks path region)
    ++ (dns_errors config path region
        ++ (each dhcp_option_errors 0 config.dhcp_options
            ++ (each (zone_errors region path) 0 region.zones
                ++ each
                    (λ k image.
                      machine_image_errors spec (index (child path "machineImages") k) image)
                    0 region.machine_images)))

-- The checks of `regions`, and those before `machineImages` and between the two.
abbrev pub regions_errors : CloudProfileSpec → CloudProfileConfig → ErrorList
regions_errors spec config =
    failed ((not (is_nil config.regions), required (child root "regions")) ∷ [])
    ++ each (region_errors spec config) 0 config.regions

abbrev pub machine_images_errors : CloudProfileSpec → CloudProfileConfig → ErrorList
machine_images_errors spec config =
    failed ((not (is_nil config.machine_images), required (child root "machineImages")) ∷ [])
    ++ each (λ i image. machine_image_errors spec (index (child root "machineImages") i) image) 0
        config.machine_images

abbrev pub general_errors : CloudProfileConfig → ErrorList
general_errors config =
    size_errors config.load_balancer_config.size
    ++ (name_prefix_errors config.name_prefix
        ++ failed (
            (
              not (same config.default_class_storage_policy_name ""),
              required (child root "defaultClassStoragePolicyName"),
            )
            ∷ []))

unfoldable pub validate_cloud_profile_config : CloudProfileSpec → CloudProfileConfig → ErrorList
validate_cloud_profile_config spec config =
    general_errors config
    ++ (machine_images_errors spec config
        ++ (machine_type_option_errors (map (λ (t : MachineType). t.name) spec.machine_types) [] 0
              config.machine_type_options
            ++ regions_errors spec config))
