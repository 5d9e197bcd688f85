-- ===== src/Credentials/Tests.antt =====
-- Secrets on which the theorems are applied.
use gardener_extension_provi.Base.{String, [], ◌∷◌, none, some, Map, ◌≡◌, refl, same}
use gardener_extension_provi.Fallible.{ok}
use gardener_extension_provi.Credentials.{
  UserPass, Credentials, extract_user_pass, extract_credentials,
}
use gardener_extension_provi.Credentials.Laws.{
  AccountsOf, IsUsable, extract_credentials-accounts, validated-extract_credentials,
}
use gardener_extension_provi.Validation.Secret.{
  missing, validate_fields, validate_cloud_provider_secret,
}

-- An own account of the cloud controller manager beside the common one.
abbrev pub secret : Map String
secret =
    ("vsphereUsername", "admin")
    ∷ ("vspherePassword", "a")
    ∷ ("vsphereUsernameCCM", "ccm")
    ∷ ("vspherePasswordCCM", "b")
    ∷ ("nsxtUsername", "nsxt")
    ∷ ("nsxtPassword", "c")
    ∷ []

abbrev user_pass : String → String → UserPass
user_pass username password = record { username = username; password = password }

abbrev pub secret_credentials : Credentials
secret_credentials = record {
  vsphere = some (user_pass "admin" "a");
  vsphere_mcm = none;
  vsphere_ccm = some (user_pass "ccm" "b");
  vsphere_csi = none;
  nsxt = some (user_pass "nsxt" "c");
}

secret_extracted : extract_credentials (some secret) ≡ ok secret_credentials
unfolding extract_credentials extract_user_pass same
secret_extracted = refl

secret_valid : validate_cloud_provider_secret (some secret) ≡ none
unfolding validate_cloud_provider_secret validate_fields same
secret_valid = refl

-- Own accounts of every component pass the extraction, but not the admission.
abbrev own_accounts : Map String
own_accounts =
    ("vsphereUsernameMCM", "mcm")
    ∷ ("vspherePasswordMCM", "a")
    ∷ ("vsphereUsernameCCM", "ccm")
    ∷ ("vspherePasswordCCM", "b")
    ∷ ("vsphereUsernameCSI", "csi")
    ∷ ("vspherePasswordCSI", "c")
    ∷ ("nsxtUsername", "nsxt")
    ∷ ("nsxtPassword", "d")
    ∷ []

extract_credentials-accounts_example : AccountsOf secret secret_credentials
extract_credentials-accounts_example =
    extract_credentials-accounts secret secret_credentials secret_extracted

validated-extract_credentials_example :
    (c : Credentials) × (extract_credentials (some secret) ≡ ok c)
    × IsUsable c.vsphere
    × IsUsable c.nsxt
validated-extract_credentials_example = validated-extract_credentials (some secret) secret_valid

own_accounts_invalid :
    validate_cloud_provider_secret (some own_accounts) ≡ some (missing "vsphereUsername")
unfolding validate_cloud_provider_secret validate_fields same
own_accounts_invalid = refl
