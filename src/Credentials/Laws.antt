-- ===== src/Credentials/Laws.antt =====
-- Which account each component gets.
use mathlib.Core.Path.{subst}
use gardener_extension_provi.Base.{
  String, List, [], ◌∷◌, Option, none, some, Map, get, same, ◌≡◌, ◌⊎◌, refl, arith, Bool-cases,
  Option-cases, inl, inr, All, false,
}
use gardener_extension_provi.Fallible.{ok, err, ok-eq, >>=-eq-ok}
use gardener_extension_provi.Credentials.{
  UserPass, Credentials, MissingField, missing_field, CredentialsError, no_mcm_account,
  no_ccm_account, no_csi_account, specific_account, nsxt_account, SecretData, extract_user_pass,
  extract_credentials, account, mcm_account, ccm_account, csi_account, specific_or_common,
  username_key, password_key, username_mcm_key, password_mcm_key, username_ccm_key,
  password_ccm_key, username_csi_key, password_csi_key, nsxt_username_key, nsxt_password_key,
}
use gardener_extension_provi.Validation.Secret.{validate_fields, validate_cloud_provider_secret}

-- The data holds an account under a pair of keys.
abbrev pub Holds : Map String → String → String → UserPass → Type 0
Holds content user pass a =
    (get user content ≡ some a.username) × (get pass content ≡ some a.password)

-- A key of the pair is not in the data.
abbrev pub Lacks : Map String → String → String → Type 0
Lacks content user pass = (get user content ≡ none) ⊎ (get pass content ≡ none)

-- The account of a component whose own pair of keys is given: a pointer that may be followed.
abbrev pub IsAccountOf : Map String → String → String → Option UserPass → Type 0
IsAccountOf content user pass found =
    (a : UserPass) × (found ≡ some a)
    × (Holds content user pass a
        ⊎ (Lacks content user pass × Holds content "vsphereUsername" "vspherePassword" a))

abbrev pub AccountsOf : Map String → Credentials → Type 0
AccountsOf content c =
    IsAccountOf content "vsphereUsernameMCM" "vspherePasswordMCM" (mcm_account c)
    × IsAccountOf content "vsphereUsernameCCM" "vspherePasswordCCM" (ccm_account c)
    × IsAccountOf content "vsphereUsernameCSI" "vspherePasswordCSI" (csi_account c)
    × ((a : UserPass) × (c.nsxt ≡ some a) × Holds content "nsxtUsername" "nsxtPassword" a)

-- What reading a pair of keys gives.
extract_user_pass-cases :
    (content : Map String) (user pass : String)
    → ((a : UserPass) × (extract_user_pass content user pass ≡ ok a) × Holds content user pass a)
      ⊎ ((e : MissingField) × (extract_user_pass content user pass ≡ err e)
          × Lacks content user pass)
unfolding extract_user_pass
extract_user_pass-cases content user pass = elim (Option-cases (get user content)) [
  | inl e ↦ inr (missing_field user, ground arith, inl e)
  | inr (username, e) ↦ elim (Option-cases (get pass content)) [
    | inl e1 ↦ inr (missing_field pass, ground arith, inr e1)
    | inr (password, e1) ↦
        inl (record { username = username; password = password }, ground arith, (e, e1))
  ]
]

-- The account that one component is given, from its own pair of keys and the common one.
specific_account-IsAccountOf :
    (content : Map String) (user pass : String)
    (refusal : MissingField → MissingField → CredentialsError) {own : Option UserPass}
    → specific_account refusal
        (extract_user_pass content username_key password_key)
        (extract_user_pass content user pass)
      ≡ ok own
    → IsAccountOf content user pass
        (specific_or_common own (account (extract_user_pass content username_key password_key)))
specific_account-IsAccountOf content user pass refusal {own} h =
    elim (extract_user_pass-cases content user pass) [
      | inl (a, e, holds) ↦ (a, ground arith, inl holds)
      | inr (x, e, lacks) ↦ elim (extract_user_pass-cases content username_key password_key) [
        | inl (a, e1, holds) ↦ (a, ground arith, inr (lacks, holds))
        | inr (y, e1, gone) ↦ absurd (ground arith)
      ]
    ]

nsxt_account-Holds :
    (content : Map String) {a : UserPass}
    → nsxt_account (extract_user_pass content nsxt_username_key nsxt_password_key) ≡ ok a
    → Holds content nsxt_username_key nsxt_password_key a
nsxt_account-Holds content {a} h =
    elim (extract_user_pass-cases content nsxt_username_key nsxt_password_key) [
      | inl (b, e, holds) ↦ ground arith
      | inr (x, e, lacks) ↦ absurd (ground arith)
    ]

-- Where credentials are extracted from a secret's data, no accessor follows a nil pointer: each component has the account of its own two keys if both are in the data, and else the account of the common two keys, which the data then holds; and the NSX-T account is that of its own two keys.
pub extract_credentials-accounts :
    (content : Map String) (c : Credentials)
    → extract_credentials (some content) ≡ ok c
    → AccountsOf content c
unfolding extract_credentials mcm_account ccm_account csi_account
extract_credentials-accounts content c h =
    let (mcm, e1, h1) = >>=-eq-ok (specific_account no_mcm_account _ _) _ h in
    let (ccm, e2, h2) = >>=-eq-ok (specific_account no_ccm_account _ _) _ h1 in
    let (csi, e3, h3) = >>=-eq-ok (specific_account no_csi_account _ _) _ h2 in
    let (nsxt, e4, h4) = >>=-eq-ok (nsxt_account _) _ h3 in
    let all : AccountsOf content (record {
      vsphere = account (extract_user_pass content username_key password_key);
      vsphere_mcm = mcm;
      vsphere_ccm = ccm;
      vsphere_csi = csi;
      nsxt = some nsxt;
    }) =
      (
        specific_account-IsAccountOf content username_mcm_key password_mcm_key no_mcm_account e1,
        specific_account-IsAccountOf content username_ccm_key password_ccm_key no_ccm_account e2,
        specific_account-IsAccountOf content username_csi_key password_csi_key no_csi_account e3,
        (nsxt, refl, nsxt_account-Holds content e4),
      ) in
    subst (AccountsOf content) (ok-eq h4) all

abbrev IsFilled : Map String → String → Type 0
IsFilled content key = (val : String) × (get key content ≡ some val) × (same val "" ≡ false)

validate_fields-IsFilled :
    (content : Map String) (keys : List String)
    → validate_fields content keys ≡ none
    → All (IsFilled content) keys
unfolding validate_fields
validate_fields-IsFilled content [] h = tt
validate_fields-IsFilled content (key ∷ keys) h = elim (Option-cases (get key content)) [
  | inl e ↦ absurd (ground arith)
  | inr (val, e) ↦ elim (Bool-cases (same val "")) [
    | inl e1 ↦ absurd (ground arith)
    | inr e1 ↦ ((val, e, e1), validate_fields-IsFilled content keys (ground arith))
  ]
]

extract_user_pass-ok :
    (content : Map String) (username_key password_key : String) {username password : String}
    → get username_key content ≡ some username
    → get password_key content ≡ some password
    → extract_user_pass content username_key password_key
      ≡ ok record { username = username; password = password }
unfolding extract_user_pass
extract_user_pass-ok content username_key password_key e1 e2 = ground arith

-- An account with a name and a password.
abbrev pub IsUsable : Option UserPass → Type 0
IsUsable found =
    (a : UserPass) × (found ≡ some a) × (same a.username "" ≡ false) × (same a.password "" ≡ false)

extracted :
    (content : Map String) {common nsxt : UserPass}
    → extract_user_pass content username_key password_key ≡ ok common
    → extract_user_pass content nsxt_username_key nsxt_password_key ≡ ok nsxt
    → (c : Credentials) × (extract_credentials (some content) ≡ ok c)
      × (c.vsphere ≡ some common)
      × (c.nsxt ≡ some nsxt)
unfolding extract_credentials
extracted content {common} {nsxt} e1 e2 = (
  record {
    vsphere = some common;
    vsphere_mcm = account (extract_user_pass content username_mcm_key password_mcm_key);
    vsphere_ccm = account (extract_user_pass content username_ccm_key password_ccm_key);
    vsphere_csi = account (extract_user_pass content username_csi_key password_csi_key);
    nsxt = some nsxt;
  },
  ground arith,
  refl,
  refl,
)

-- A secret that the admission accepts has credentials, whose common vSphere account and whose NSX-T account have a name and a password.
pub validated-extract_credentials :
    (content : SecretData)
    → validate_cloud_provider_secret content ≡ none
    → (c : Credentials) × (extract_credentials content ≡ ok c)
      × IsUsable c.vsphere
      × IsUsable c.nsxt
unfolding validate_cloud_provider_secret validate_fields
validated-extract_credentials none h = cc
validated-extract_credentials (some content) h =
    let filled =
      validate_fields-IsFilled content
        (username_key ∷ password_key ∷ nsxt_username_key ∷ nsxt_password_key ∷ []) h in
    let (username, e1, p1) = filled.0 in
    let (password, e2, p2) = filled.1.0 in
    let (nsxt_username, e3, p3) = filled.1.1.0 in
    let (nsxt_password, e4, p4) = filled.1.1.1.0 in
    let (c, e, v, n) =
      extracted content (extract_user_pass-ok content username_key password_key e1 e2)
        (extract_user_pass-ok content nsxt_username_key nsxt_password_key e3 e4) in
    (c, e, (_, v, p1, p2), (_, n, p3, p4))
