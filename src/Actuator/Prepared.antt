-- ===== src/Actuator/Prepared.antt =====
-- The status that a prepared run writes.
use gardener_extension_provi.Base.{
  String, Bool, List, [], ◌∷◌, Option, some, Map, get, ◌≡◌, refl, sym, arith, All,
}
use gardener_extension_provi.Profile.{ZoneSpec}
use gardener_extension_provi.Profile.Find.{find_region}
use gardener_extension_provi.Validation.Profile.{validate_cloud_profile_config}
use gardener_extension_provi.Validation.Profile.Images.{accepted_parts}
use gardener_extension_provi.Infra.State.{NsxtInfraState}
use gardener_extension_provi.Infra.Action.{ok}
use gardener_extension_provi.Actuator.{
  Inputs, PreparedReconcile, get_cloud_profile_config, prepare_reconcile,
}
use gardener_extension_provi.Actuator.Status.{
  ZoneConfig, InfrastructureStatus, zone_configs, vsphere_config_of,
  make_provider_infrastructure_status,
}
use gardener_extension_provi.Actuator.Laws.{
  IsPlaced, HasNoEmptyPlace, IsAccepted, IsKey, Configs, zone_configs-ok, region-IsAccepted,
}

-- The region that a run prepares is one of a configuration that is valid.
abbrev Prepared : {C : Type 0} → Inputs C → PreparedReconcile C → Type 0
Prepared inputs p =
    (validate_cloud_profile_config inputs.profile_spec p.cloud_profile_config ≡ [])
    × (find_region inputs.region p.cloud_profile_config.regions ≡ some p.region)

prepare_reconcile-Prepared :
    {C : Type 0} (inputs : Inputs C) (p : PreparedReconcile C)
    → prepare_reconcile inputs ≡ ok p
    → Prepared inputs p
unfolding prepare_reconcile get_cloud_profile_config
prepare_reconcile-Prepared inputs p h = ground arith

prepared-IsAccepted :
    {C : Type 0} (inputs : Inputs C) (p : PreparedReconcile C)
    → prepare_reconcile inputs ≡ ok p
    → All (IsAccepted p.region) p.region.zones
prepared-IsAccepted inputs p h =
    let (valid, found) = prepare_reconcile-Prepared inputs p h in
    region-IsAccepted inputs.profile_spec p.cloud_profile_config inputs.region 0
      p.cloud_profile_config.regions
      (accepted_parts inputs.profile_spec p.cloud_profile_config valid).1 found

-- The configurations of a prepared run's zones; `Q` stands for what is asked of all zones.
prepared-Configs :
    {C : Type 0} (inputs : Inputs C) (p : PreparedReconcile C) (Q : Type 0)
    → prepare_reconcile inputs ≡ ok p
    → All (λ z. Q → HasNoEmptyPlace z) p.region.zones
    → (after : Map ZoneConfig) × (zone_configs p.region [] p.region.zones ≡ ok after)
      × Configs p.region Q [] p.region.zones after
prepared-Configs inputs p Q h placed =
    zone_configs-ok p.region Q [] p.region.zones
      (both p.region.zones (prepared-IsAccepted inputs p h) placed) (λ k c e. cc)
  where
    both :
        (zones : List ZoneSpec)
        → All (IsAccepted p.region) zones
        → All (λ z. Q → HasNoEmptyPlace z) zones
        → All (λ z. IsAccepted p.region z × (Q → HasNoEmptyPlace z)) zones
    both [] a b = tt
    both (z ∷ zones) a b = ((a.0, b.0), both zones a.1 b.1)

status-eq :
    {C : Type 0} (p : PreparedReconcile C) (state : Option NsxtInfraState) (started : Option Bool)
    {configs : Map ZoneConfig}
    → zone_configs p.region [] p.region.zones ≡ ok configs
    → (status : InfrastructureStatus) × (make_provider_infrastructure_status state (some p) started
        ≡ ok status)
      × (status.vsphere_config.zone_configs ≡ configs)
      × (status.nsxt_infra_state ≡ state)
      × (status.creation_started ≡ started)
unfolding make_provider_infrastructure_status vsphere_config_of
status-eq p state started {configs} e = (
  record {
    vsphere_config = record {
      folder = p.cloud_profile_config.folder;
      region = p.region.name;
      zone_configs = configs;
    };
    creation_started = started;
    nsxt_infra_state = state;
  },
  rw e refl,
  refl,
  refl,
  refl,
)

-- Where a run is prepared, its status is made without an error: it holds the state and the mark that it is given, and an entry for each zone of the region.
pub prepared-make_provider_infrastructure_status :
    {C : Type 0} (inputs : Inputs C) (p : PreparedReconcile C) (state : Option NsxtInfraState)
    (started : Option Bool)
    → prepare_reconcile inputs ≡ ok p
    → (status : InfrastructureStatus) × (make_provider_infrastructure_status state (some p) started
        ≡ ok status)
      × (status.nsxt_infra_state ≡ state)
      × (status.creation_started ≡ started)
      × All (λ z. IsKey status.vsphere_config.zone_configs z.name) p.region.zones
prepared-make_provider_infrastructure_status inputs p state started h =
    let (configs, e, (entries, keys, kept)) =
      prepared-Configs inputs p ⊥ h (none_asked p.region.zones) in
    let (status, e1, e2, e3, e4) = status-eq p state started e in (status, e1, e3, e4, rw e2 keys)
  where
    none_asked : (zones : List ZoneSpec) → All (λ z. ⊥ → HasNoEmptyPlace z) zones
    none_asked [] = tt
    none_asked (z ∷ zones) = ((λ q. absurd q), none_asked zones)

-- Where a run is prepared, and no zone of the region sets its datacenter, datastore or cluster of datastores to the empty text, every entry of the status has a datacenter, a datastore or a cluster of them, and a compute cluster, resource pool or host.
pub prepared-IsPlaced :
    {C : Type 0} (inputs : Inputs C) (p : PreparedReconcile C) (state : Option NsxtInfraState)
    (started : Option Bool) (status : InfrastructureStatus) (name : String) (c : ZoneConfig)
    → prepare_reconcile inputs ≡ ok p
    → All HasNoEmptyPlace p.region.zones
    → make_provider_infrastructure_status state (some p) started ≡ ok status
    → get name status.vsphere_config.zone_configs ≡ some c
    → IsPlaced c
prepared-IsPlaced inputs p state started status name c h placed made found =
    let (configs, e, (entries, keys, kept)) =
      prepared-Configs inputs p (Unit {0}) h (each_placed p.region.zones placed) in
    let (status', e1, e2, e3, e4) = status-eq p state started e in
    let q : status' ≡ status = ground (arith, e1, made) in
    entries name c (rw (sym e2) (rw q found)) tt
  where
    each_placed :
        (zones : List ZoneSpec)
        → All HasNoEmptyPlace zones
        → All (λ z. Unit {0} → HasNoEmptyPlace z) zones
    each_placed [] h = tt
    each_placed (z ∷ zones) h = ((λ q. h.0), each_placed zones h.1)
