-- ===== src/Infra/Realize.antt =====
-- Waiting for the SNAT IP address: `getRealizedIPAddress` (task/taskhelper.go) and its task, and the
-- deletions of the segment, the address, the rule and the DHCP configuration (task/tasks.go).
pub mod Laws
use gardener_extension_provi.Base.{
  ℕ, zero, suc, ◌+◌, String, Bool, true, false, List, [], ◌∷◌, Option, none, some, ltb, same,
  if◌then◌else◌,
}
use gardener_extension_provi.Infra.State.{Reference}
use gardener_extension_provi.Infra.Action.{
  text, api, nicer, ok, err, panic, exhausted, Action, ActionName, found, pure, fail, gets, call,
  deref, modify, ◌>>=◌, ◌>>◌,
}
use gardener_extension_provi.Infra.Service.{got, failed}
use gardener_extension_provi.Infra.Object.{RealizedEntity}
use gardener_extension_provi.Infra.Resource.{delete_resource}
use gardener_extension_provi.Infra.Context.{Context}

-- The values of the first attribute with the key.
unfoldable pub allocation_ip : List (String × List String) → Option (List String)
allocation_ip [] = none
allocation_ip ((key, values) ∷ attributes) =
    if same key "allocation_ip" then some values else allocation_ip attributes

unfoldable pub allocation_ip_of : List RealizedEntity → Option (List String)
unfolding allocation_ip
allocation_ip_of [] = none
allocation_ip_of (entity ∷ entities) = elim (allocation_ip entity.extended_attributes) [
  | some values ↦ some values
  | none ↦ allocation_ip_of entities
]

-- `&attr.Values[0]`, which panics on no values.
abbrev pub first_value : {W : Type 0} → List String → Action W String
first_value [] w s = (panic, w, s)
first_value (v ∷ values) w s = (ok v, w, s)

abbrev pub sleep_incr : ℕ
sleep_incr = 100

abbrev pub sleep_max : ℕ
sleep_max = 1000

abbrev pub next_sleep : ℕ → ℕ
next_sleep sleep = if ltb sleep_max (sleep + sleep_incr) then sleep_max else sleep + sleep_incr

module _ {W : Type 0} (ctx : Context W) where
  -- The loop: sleep, list, look, until the clock passes the limit.
  unfoldable pub poll : ℕ → ℕ → ℕ → String → Action W String
  unfolding allocation_ip_of
  poll zero sleep limit path w s = (exhausted, w, s)
  poll (suc fuel) sleep limit path w s =
      let w1 = ctx.sleep sleep w in
      let (answer, w2) = ctx.realized_entities path w1 in
      elim (ltb (ctx.now w) limit) [
        | false ↦ (err (text "timeout of wait for realized state of IP allocation"), w, s)
        | true ↦ elim answer [
          | failed e ↦ (err (nicer e), w2, s)
          | got entities ↦ elim (allocation_ip_of entities) [
            | some values ↦ first_value values w2 s
            | none ↦ poll fuel (next_sleep sleep) limit path w2 s
          ]
        ]
      ]

  unfoldable pub get_realized_ip_address : String → ℕ → Action W String
  unfolding poll
  get_realized_ip_address path timeout w s = poll ctx.fuel sleep_incr (ctx.now w + timeout) path w s

  unfoldable pub on_realization : Option Reference → Action W ActionName
  on_realization none = fail (text "No SNAT IP address allocation existing")
  on_realization (some ref) = do
    address ← get_realized_ip_address ref.path 15000
    modify (λ s. record s { snat_ip_address = some address })
    pure found

  unfoldable pub ensure_realization : Action W ActionName
  unfolding on_realization
  ensure_realization = do ref ← gets (λ s. s.snat_ip_address_alloc_ref); on_realization ref

  unfoldable pub delete_segment : Action W Bool
  delete_segment =
      delete_resource (λ s. s.segment_ref)
        (λ s. record s { segment_ref = none; segment_name = none }) nicer
        (λ ref. call (ctx.segments.delete tt ref.id))

  unfoldable pub delete_allocation : Action W Bool
  delete_allocation =
      delete_resource (λ s. s.snat_ip_address_alloc_ref)
        (λ s. record s { snat_ip_address_alloc_ref = none; snat_ip_address = none }) api
        (λ ref. do
          pool ← deref (← gets (λ s. s.snat_ip_pool_ref))
          call (ctx.ip_allocations.delete pool.id ref.id))

  unfoldable pub delete_snat_rule : Action W Bool
  delete_snat_rule =
      delete_resource (λ s. s.snat_rule_ref) (λ s. record s { snat_rule_ref = none }) api
        (λ ref. do
          tier1 ← deref (← gets (λ s. s.tier1_gateway_ref))
          call (ctx.nat_rules.delete tier1.id ref.id))

  unfoldable pub delete_dhcp_server_config : Action W Bool
  delete_dhcp_server_config =
      delete_resource (λ s. s.dhcp_server_config_ref)
        (λ s. record s { dhcp_server_config_ref = none }) api
        (λ ref. call (ctx.dhcp_server_configs.delete tt ref.id))
