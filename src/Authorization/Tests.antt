-- ===== src/Authorization/Tests.antt =====
-- The theorems at inputs.
use gardener_extension_provi.Base.{String, [], ◌∷◌, none, some, ◌≡◌, refl, ◌↔◌, ◌≢◌, same}
use gardener_extension_provi.Tags.{TagMap, lookup}
use gardener_extension_provi.Text.{split}
use gardener_extension_provi.Authorization.{
  Compile, check_shoot_authorization, authorized, tag_value,
}
use gardener_extension_provi.Authorization.Laws.{Allows, Some, check_shoot_authorization_iff}

abbrev no_compile : Compile
no_compile pattern = none

abbrev shared : TagMap
shared = ("garden", "g1") ∷ ("authorized-shoots", "shoot--a--*,shoot--b--c") ∷ []

by_pattern : check_shoot_authorization no_compile "shoot--a--b" "g1" shared ≡ authorized
unfolding check_shoot_authorization same lookup split
by_pattern = refl

abbrev garden : String
garden = "g1"

check_shoot_authorization_iff_example :
    (check_shoot_authorization no_compile "shoot--a--b" garden shared ≡ authorized) ↔ (
      (garden ≢ "")
      × (lookup "garden" shared ≡ some garden)
      × (tag_value shared "authorized-shoots" ≢ "")
      × Some (Allows no_compile "shoot--a--b") (split (tag_value shared "authorized-shoots") ","))
check_shoot_authorization_iff_example =
    check_shoot_authorization_iff no_compile "shoot--a--b" garden shared
