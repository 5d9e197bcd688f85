-- ===== src/Profile/Find.antt =====
-- pkg/apis/vsphere/helper/helper.go.
use gardener_extension_provi.Base.{
  String, Bool, ◌&&◌, List, [], ◌∷◌, Option, none, some, same, find, contains, if◌then◌else◌,
}
use gardener_extension_provi.Profile.{
  MachineImage, MachineImages, MachineImageVersion, RegionSpec, ZoneSpec, is_empty_string,
}

abbrev pub has_version : String → String → MachineImage → Bool
has_version name version image = same image.name name && same image.version version

unfoldable pub find_machine_image : List MachineImage → String → String → Option MachineImage
find_machine_image images name version = find (has_version name version) images

abbrev pub guest_id_of : MachineImageVersion → String
guest_id_of version = elim version.guest_id [ none ↦ "" | some id ↦ id ]

-- The path and the guest id; a later entry of the name is searched where an earlier one fails.
unfoldable pub find_image : List MachineImages → String → String → Option (String × String)
find_image [] name version = none
find_image (image ∷ images) name version =
    let rest = find_image images name version in
    if same image.name name
    then elim (find (λ v. same version v.version) image.versions) [
      | some v ↦ some (v.path, guest_id_of v)
      | none ↦ rest
    ]
    else rest

unfoldable pub find_region : String → List RegionSpec → Option RegionSpec
find_region name regions = find (λ r. same r.name name) regions

-- `sets.String`: a member once, in no order.
abbrev pub set_insert : String → List String → List String
set_insert s set = if contains set s then set else s ∷ set

abbrev pub add_datacenter : Option String → List String → List String
add_datacenter none set = set
add_datacenter (some d) set = if is_empty_string (some d) then set else set_insert d set

unfoldable pub zone_datacenters : List ZoneSpec → List String → List String
zone_datacenters [] set = set
zone_datacenters (z ∷ zones) set = zone_datacenters zones (add_datacenter z.datacenter set)

-- `sorted` is the order in which `List` of a `sets.String` gives the members.
unfoldable pub collect_datacenters : (List String → List String) → RegionSpec → List String
unfolding zone_datacenters
collect_datacenters sorted region =
    sorted (zone_datacenters region.zones (add_datacenter region.datacenter []))
