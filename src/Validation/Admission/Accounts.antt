-- ===== src/Validation/Admission/Accounts.antt =====
-- What the admission finds out about the secret of a shoot.
use gardener_extension_provi.Base.{String, [], Option, none, some, ◌≡◌, refl, arith}
use gardener_extension_provi.Fallible.{Fallible, ok, err}
use gardener_extension_provi.Credentials.{SecretData, Credentials, extract_credentials}
use gardener_extension_provi.Credentials.Laws.{IsUsable, validated-extract_credentials}
use gardener_extension_provi.Validation.Secret.{SecretError, validate_cloud_provider_secret}
use gardener_extension_provi.Validation.Admission.{
  Shoot, Api, validate_shoot_secret, secret_of, secret_errors, reading_secret, secret_refusal,
}

module _ {R Ref : Type 0} (api : Api R Ref) where
  -- The secret of a shoot, and the accounts in it.
  abbrev pub HasAccounts : Shoot R → Type 0
  HasAccounts shoot =
      (name : String) × (ref : Ref) × (content : SecretData) × (c : Credentials)
      × (shoot.secret_binding_name ≡ some name)
      × (api.secret_binding shoot.namespace name ≡ ok ref)
      × (api.secret ref ≡ ok content)
      × (extract_credentials content ≡ ok c)
      × IsUsable c.vsphere
      × IsUsable c.nsxt

  accounts_of_secret :
      (name : String) (shoot : Shoot R)
      → shoot.secret_binding_name ≡ some name
      → validate_shoot_secret api shoot ≡ []
      → HasAccounts shoot
  unfolding validate_shoot_secret secret_of secret_errors reading_secret secret_refusal
  accounts_of_secret name shoot named h = bound (api.secret_binding shoot.namespace name) refl
    where
      checked :
          (ref : Ref) (content : SecretData) (refused : Option SecretError)
          → api.secret_binding shoot.namespace name ≡ ok ref
          → api.secret ref ≡ ok content
          → validate_cloud_provider_secret content ≡ refused
          → HasAccounts shoot
      checked ref content none e1 e2 e3 =
          let (c, e, v, n) = validated-extract_credentials content e3 in
          (name, ref, content, c, named, e1, e2, e, v, n)
      checked ref content (some x) e1 e2 e3 = absurd (ground arith)

      read :
          (ref : Ref) (answer : Fallible String SecretData)
          → api.secret_binding shoot.namespace name ≡ ok ref
          → api.secret ref ≡ answer
          → HasAccounts shoot
      read ref (ok content) e1 e2 =
          checked ref content (validate_cloud_provider_secret content) e1 e2 refl
      read ref (err x) e1 e2 = absurd (ground arith)

      bound :
          (answer : Fallible String Ref)
          → api.secret_binding shoot.namespace name ≡ answer
          → HasAccounts shoot
      bound (ok ref) e = read ref (api.secret ref) e refl
      bound (err x) e = absurd (ground arith)

  pub validate_shoot_secret-HasAccounts :
      (shoot : Shoot R) → validate_shoot_secret api shoot ≡ [] → HasAccounts shoot
  validate_shoot_secret-HasAccounts shoot h = by_name shoot.secret_binding_name refl
    where
      by_name : (o : Option String) → shoot.secret_binding_name ≡ o → HasAccounts shoot
      by_name (some name) e = accounts_of_secret name shoot e h
      by_name none e = absurd (unfold validate_shoot_secret secret_of secret_errors in ground arith)
