-- ===== src/Validation/Secret.antt =====
-- `ValidateCloudProviderSecret` (pkg/apis/vsphere/validation/secrets.go).
use gardener_extension_provi.Base.{
  String, List, [], ◌∷◌, Option, none, some, Map, get, same, if◌then◌else◌,
}
use gardener_extension_provi.Credentials.{
  SecretData, username_key, password_key, nsxt_username_key, nsxt_password_key,
}

pub data SecretError : Type 0 where
  missing empty_field : String → SecretError

-- A nil map has no fields.
abbrev pub fields : SecretData → Map String
fields none = []
fields (some content) = content

unfoldable pub validate_fields : Map String → List String → Option SecretError
validate_fields content [] = none
validate_fields content (key ∷ keys) =
    let rest = validate_fields content keys in
    elim (get key content) [
      | none ↦ some (missing key)
      | some val ↦ if same val "" then some (empty_field key) else rest
    ]

unfoldable pub validate_cloud_provider_secret : SecretData → Option SecretError
unfolding validate_fields
validate_cloud_provider_secret content =
    validate_fields (fields content)
      (username_key ∷ password_key ∷ nsxt_username_key ∷ nsxt_password_key ∷ [])
