-- ===== src/Validation/Tests.antt =====
-- Where the validation accepts the sample of a cloud profile.
use gardener_extension_provi.Base.{[], same, ◌≡◌, refl, is_some, find, contains, true, none}
use gardener_extension_provi.Profile.{MachineImages}
use gardener_extension_provi.Profile.Find.{find_image}
use gardener_extension_provi.Profile.Tests.{sample_config, sample_spec}
use gardener_extension_provi.Validation.{failed, each}
use gardener_extension_provi.Validation.Profile.{
  size_errors, members, is_name_prefix, name_prefix_errors, versions_of, defined_versions,
  version_errors, machine_image_errors, machine_type_option_errors, zone_errors, dns_errors,
  region_errors, validate_cloud_profile_config, name_rest, is_lower_or_digit,
}
use gardener_extension_provi.Validation.Profile.Images.{Found, accepted-find_image}

pub sample_accepted : validate_cloud_profile_config sample_spec sample_config ≡ []
unfolding validate_cloud_profile_config failed each size_errors is_name_prefix name_prefix_errors
    versions_of defined_versions version_errors machine_image_errors machine_type_option_errors
    zone_errors dns_errors region_errors same name_rest is_lower_or_digit
sample_accepted = refl

pub known :
    is_some
      (find (λ (image : MachineImages). same image.name "gardenlinux") sample_config.machine_images)
    ≡ true
unfolding same
known = refl

pub listed :
    contains (members (versions_of none sample_spec.machine_images "gardenlinux")) "1.1" ≡ true
unfolding same versions_of
listed = refl

accepted-find_image_example : Found (find_image sample_config.machine_images "gardenlinux" "1.1")
accepted-find_image_example =
    accepted-find_image sample_spec sample_config "gardenlinux" "1.1" sample_accepted known listed
