-- ===== src/Credentials.antt =====
-- pkg/vsphere/credentials.go: the accounts of a provider secret. The texts of the errors are left out.
pub mod Laws
pub mod Tests
use gardener_extension_provi.Base.{String, Option, none, some, Map, get}
use gardener_extension_provi.Fallible.{Fallible, ok, err, ◌>>=◌}

pub record UserPass : Type 0 where
  pub username : String
  pub password : String

pub record Credentials : Type 0 where
  pub vsphere : Option UserPass
  pub vsphere_mcm : Option UserPass
  pub vsphere_ccm : Option UserPass
  pub vsphere_csi : Option UserPass
  pub nsxt : Option UserPass

-- `Data` of a secret, which may be nil.
abbrev pub SecretData : Type 0
SecretData = Option (Map String)

-- A missing field.
pub data MissingField : Type 0 where
  missing_field : String → MissingField

pub data CredentialsError : Type 0 where
  no_data : CredentialsError
  no_mcm_account no_ccm_account no_csi_account : MissingField → MissingField → CredentialsError
  no_nsxt_account : MissingField → CredentialsError

-- The keys of the secret (pkg/vsphere/types.go).
abbrev pub username_key : String
username_key = "vsphereUsername"

abbrev pub password_key : String
password_key = "vspherePassword"

abbrev pub username_mcm_key : String
username_mcm_key = "vsphereUsernameMCM"

abbrev pub password_mcm_key : String
password_mcm_key = "vspherePasswordMCM"

abbrev pub username_ccm_key : String
username_ccm_key = "vsphereUsernameCCM"

abbrev pub password_ccm_key : String
password_ccm_key = "vspherePasswordCCM"

abbrev pub username_csi_key : String
username_csi_key = "vsphereUsernameCSI"

abbrev pub password_csi_key : String
password_csi_key = "vspherePasswordCSI"

abbrev pub nsxt_username_key : String
nsxt_username_key = "nsxtUsername"

abbrev pub nsxt_password_key : String
nsxt_password_key = "nsxtPassword"

unfoldable pub extract_user_pass : Map String → String → String → Fallible MissingField UserPass
extract_user_pass content username_key password_key = elim (get username_key content) [
  | none ↦ err (missing_field username_key)
  | some username ↦ elim (get password_key content) [
    | none ↦ err (missing_field password_key)
    | some password ↦ ok record { username = username; password = password }
  ]
]

-- The account of one component, which may be missing where there is a common one.
abbrev pub specific_account :
    (MissingField → MissingField → CredentialsError)
    → Fallible MissingField UserPass
    → Fallible MissingField UserPass
    → Fallible CredentialsError (Option UserPass)
specific_account e common (ok account) = ok (some account)
specific_account e (ok account) (err missing) = ok none
specific_account e (err common_missing) (err missing) = err (e common_missing missing)

abbrev pub nsxt_account : Fallible MissingField UserPass → Fallible CredentialsError UserPass
nsxt_account (ok account) = ok account
nsxt_account (err missing) = err (no_nsxt_account missing)

abbrev pub account : Fallible MissingField UserPass → Option UserPass
account (ok a) = some a
account (err e) = none

unfoldable pub extract_credentials : SecretData → Fallible CredentialsError Credentials
extract_credentials none = err no_data
extract_credentials (some content) =
    let common = extract_user_pass content username_key password_key in
    do
      mcm ←
          specific_account no_mcm_account common
            (extract_user_pass content username_mcm_key password_mcm_key)
      ccm ←
          specific_account no_ccm_account common
            (extract_user_pass content username_ccm_key password_ccm_key)
      csi ←
          specific_account no_csi_account common
            (extract_user_pass content username_csi_key password_csi_key)
      nsxt ← nsxt_account (extract_user_pass content nsxt_username_key nsxt_password_key)
      ok record {
        vsphere = account common;
        vsphere_mcm = mcm;
        vsphere_ccm = ccm;
        vsphere_csi = csi;
        nsxt = some nsxt;
      }

-- An accessor follows a pointer: `none` is the panic on nil.
abbrev pub specific_or_common : Option UserPass → Option UserPass → Option UserPass
specific_or_common (some a) common = some a
specific_or_common none common = common

unfoldable pub mcm_account : Credentials → Option UserPass
mcm_account c = specific_or_common c.vsphere_mcm c.vsphere

unfoldable pub ccm_account : Credentials → Option UserPass
ccm_account c = specific_or_common c.vsphere_ccm c.vsphere

unfoldable pub csi_account : Credentials → Option UserPass
csi_account c = specific_or_common c.vsphere_csi c.vsphere
