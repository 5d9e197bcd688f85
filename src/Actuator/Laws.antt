-- ===== src/Actuator/Laws.antt =====
-- What the status says of the zones of a cloud profile that is valid.
use gardener_extension_provi.Base.{
  String, true, false, not, ◌||◌, ℕ, suc, List, [], ◌∷◌, Option, none, some, Map, get, put, get-put,
  same, same_iff, same_refl, ◌≡◌, ◌≢◌, refl, sym, ap, arith, inl, inr, Bool-cases, All, is_some,
}
use gardener_extension_provi.Profile.{
  CloudProfileConfig, CloudProfileSpec, RegionSpec, ZoneSpec, is_set,
}
use gardener_extension_provi.Profile.Find.{find_region}
use gardener_extension_provi.Validation.{FieldPath, root, child, index, failed, each}
use gardener_extension_provi.Validation.Laws.{
  append-eq-nil, failed-eq-nil, each-eq-nil, All-AllFrom,
}
use gardener_extension_provi.Validation.Profile.{
  zone_errors, region_errors, region_checks, dns_errors, dhcp_option_errors, machine_image_errors,
}
use gardener_extension_provi.Validation.ControlPlane.{safe_str}
use gardener_extension_provi.Infra.Action.{ok}
use gardener_extension_provi.Actuator.Status.{
  ZoneConfig, configured, zone_or_region, datastores, zone_config, zone_configs,
}

-- A text that a pointer of the profile may not be set to.
abbrev IsNotEmpty : Option String → Type 0
IsNotEmpty s = s ≢ some ""

-- No place of the zone is set to the empty text.
abbrev pub HasNoEmptyPlace : ZoneSpec → Type 0
HasNoEmptyPlace z =
    IsNotEmpty z.datacenter × IsNotEmpty z.datastore × IsNotEmpty z.datastore_cluster

-- A place for machines: a datacenter, a datastore or a cluster of them, and where to compute.
abbrev pub IsPlaced : ZoneConfig → Type 0
IsPlaced c =
    (same c.datacenter "" ≡ false)
    × ((not (same c.datastore "") || not (same c.datastore_cluster "")) ≡ true)
    × ((not (same c.compute_cluster "")
          || (not (same c.resource_pool "") || not (same c.host_system "")))
        ≡ true)

zone_or_region-found :
    (z r : Option String)
    → (is_set z || is_set r) ≡ true
    → (d : String) × (zone_or_region z r ≡ some d) × (IsNotEmpty z → same d "" ≡ false)
zone_or_region-found none none h = absurd (ground arith)
zone_or_region-found none (some r) h = (r, refl, λ p. ground arith)
zone_or_region-found (some d) r h = (
  d,
  refl,
  λ p. elim (Bool-cases (same d "")) [
    | inl e ↦ absurd (p (ap some ((same_iff d "").0 e)))
    | inr e ↦ e
  ],
)

is_set-safe_str : (s : Option String) → is_set s ≡ not (same (safe_str s) "")
is_set-safe_str none = ground (arith, same_refl "")
is_set-safe_str (some s) = refl

datastores-found :
    (region : RegionSpec) (d c : Option String)
    → (is_set d || (is_set c || (is_set region.datastore || is_set region.datastore_cluster)))
      ≡ true
    → IsNotEmpty d
    → IsNotEmpty c
    → (is_set (datastores region d c).0 || is_set (datastores region d c).1) ≡ true
datastores-found region none none h p q = h
datastores-found region none (some c) h p q = elim (Bool-cases (same c "")) [
  | inl e ↦ absurd (q (ap some ((same_iff c "").0 e)))
  | inr e ↦ ground arith
]
datastores-found region (some d) c h p q = elim (Bool-cases (same d "")) [
  | inl e ↦ absurd (p (ap some ((same_iff d "").0 e)))
  | inr e ↦ ground arith
]

zone_config-eq :
    (region : RegionSpec) (z : ZoneSpec) {d : String}
    → zone_or_region z.datacenter region.datacenter ≡ some d
    → zone_config region z ≡ ok (configured region z d)
unfolding zone_config
zone_config-eq region z e = ground arith

abbrev pub IsAccepted : RegionSpec → ZoneSpec → Type 0
IsAccepted region z = (path : FieldPath) × (j : ℕ) × (zone_errors region path j z ≡ [])

zone_config-ok :
    (region : RegionSpec) (z : ZoneSpec)
    → IsAccepted region z
    → (c : ZoneConfig) × (zone_config region z ≡ ok c) × (HasNoEmptyPlace z → IsPlaced c)
unfolding zone_config zone_errors
zone_config-ok region z (path, j, e) =
    let checks = (failed-eq-nil _).0 e in
    let (d, e1, p1) = zone_or_region-found z.datacenter region.datacenter checks.1.0 in
    (
      configured region z d,
      zone_config-eq region z e1,
      λ p.
          let stored =
            datastores-found region z.datastore z.datastore_cluster checks.1.1.0 p.1 p.2 in
          (p1 p.0, simp (← is_set-safe_str) stored, simp (← is_set-safe_str) checks.1.1.1.0),
    )

-- The zones that are in the map, and what is known of their entries.
abbrev pub Entries : (ZoneConfig → Type 0) → Map ZoneConfig → Type 0
Entries P configs = (name : String) (c : ZoneConfig) → get name configs ≡ some c → P c

Entries-put :
    (P : ZoneConfig → Type 0) (name : String) (c : ZoneConfig) (configs : Map ZoneConfig)
    → P c
    → Entries P configs
    → Entries P (put name c configs)
Entries-put P name c configs p h k d e = elim (Bool-cases (same k name)) [
  | inl e1 ↦ let q : c ≡ d = ground (arith, get-put k name c configs) in rw (sym q) p
  | inr e1 ↦ h k d (ground (arith, get-put k name c configs))
]

abbrev pub IsKey : Map ZoneConfig → String → Type 0
IsKey configs name = is_some (get name configs) ≡ true

IsKey-put :
    (name k : String) (c : ZoneConfig) (configs : Map ZoneConfig)
    → IsKey configs k
    → IsKey (put name c configs) k
IsKey-put name k c configs h = ground (arith, get-put k name c configs)

-- `Q` stands for what is asked of all zones.
module _ (region : RegionSpec) (Q : Type 0) where
  abbrev pub Configs : Map ZoneConfig → List ZoneSpec → Map ZoneConfig → Type 0
  Configs before zones after =
      Entries (λ c. Q → IsPlaced c) after
      × All (λ z. IsKey after z.name) zones
      × ((k : String) → IsKey before k → IsKey after k)

  pub zone_configs-ok :
      (before : Map ZoneConfig) (zones : List ZoneSpec)
      → All (λ z. IsAccepted region z × (Q → HasNoEmptyPlace z)) zones
      → Entries (λ c. Q → IsPlaced c) before
      → (after : Map ZoneConfig) × (zone_configs region before zones ≡ ok after)
        × Configs before zones after
  unfolding zone_configs
  zone_configs-ok before [] accepted h = (before, refl, (h, tt, λ k p. p))
  zone_configs-ok before (z ∷ zones) accepted h =
      let (c, e, p) = zone_config-ok region z accepted.0.0 in
      let before' = put z.name c before in
      let (after, e1, (entries, keys, kept)) =
        zone_configs-ok before' zones accepted.1
          (Entries-put (λ c. Q → IsPlaced c) z.name c before (λ q. p (accepted.0.1 q)) h) in
      (
        after,
        rw e e1,
        (
          entries,
          (kept z.name (ground (arith, get-put z.name z.name c before, same_refl z.name)), keys),
          λ k h1. kept k (IsKey-put z.name k c before h1),
        ),
      )

zones-IsAccepted :
    (spec : CloudProfileSpec) (config : CloudProfileConfig) (i : ℕ) (r : RegionSpec)
    → region_errors spec config i r ≡ []
    → All (IsAccepted r) r.zones
unfolding region_errors
zones-IsAccepted spec config i r h =
    let path = index (child root "regions") i in
    let (h1, r1) = (append-eq-nil (failed (region_checks path r)) _).0 h in
    let (h2, r2) = (append-eq-nil (dns_errors config path r) _).0 r1 in
    let (h3, r3) = (append-eq-nil (each dhcp_option_errors 0 config.dhcp_options) _).0 r2 in
    let (h4, r4) =
      (append-eq-nil (each (zone_errors r path) 0 r.zones) (
          each (λ k image. machine_image_errors spec (index (child path "machineImages") k) image) 0
            r.machine_images)).0
        r3 in
    All-AllFrom _ _ (λ j z e. (path, j, e)) 0 r.zones
      ((each-eq-nil (zone_errors r path) 0 r.zones).0 h4)

-- A region of the list passes the checks of its place.
pub region-IsAccepted :
    (spec : CloudProfileSpec) (config : CloudProfileConfig) (name : String) (i : ℕ)
    (regions : List RegionSpec) {region : RegionSpec}
    → each (region_errors spec config) i regions ≡ []
    → find_region name regions ≡ some region
    → All (IsAccepted region) region.zones
unfolding find_region each
region-IsAccepted spec config name i [] h e = cc
region-IsAccepted spec config name i (r ∷ regions) {region} h e =
    let (h1, h2) =
      (append-eq-nil (region_errors spec config i r)
          (each (region_errors spec config) (suc i) regions)).0
        h in
    elim (Bool-cases (same r.name name)) [
      | inl e1 ↦
          let q : r ≡ region = ground arith in rw (sym q) (zones-IsAccepted spec config i r h1)
      | inr e1 ↦ region-IsAccepted spec config name (suc i) regions h2 (ground arith)
    ]
