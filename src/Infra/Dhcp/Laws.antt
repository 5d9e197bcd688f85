-- ===== src/Infra/Dhcp/Laws.antt =====
-- The errors of the DHCP settings (task/taskhelper.go).
use gardener_extension_provi.Base.{
  String, Bool, true, false, List, [], ◌∷◌, Option, none, some, ◌≢◌, arith,
}
use gardener_extension_provi.Infra.State.{NsxtInfraSpec, DhcpOptions}
use gardener_extension_provi.Infra.Action.{Result, ok, err, panic, exhausted}
use gardener_extension_provi.Infra.Object.{SegmentDhcpV4Config}
use gardener_extension_provi.Infra.Dhcp.{
  DhcpConfig, new_dhcp_config, route_of, routes_of, option121_of, options_of, make_dhcp_config,
  create_segment_subnet, lookup_option, domain_name_of, build_ipv4_dhcp_server, ◌>>=◌, encoded,
  or_error,
}

-- Neither a panic nor a loop.
abbrev Returns : {A : Type 0} → Result A → Type 0
Returns (ok a) = Unit
Returns (err e) = Unit
Returns panic = ⊥
Returns exhausted = ⊥

Returns->>= :
    {A B : Type 0} (m : Result A) (f : A → Result B)
    → Returns m
    → ((a : A) → Returns (f a))
    → Returns (m >>= f)
Returns->>= (ok a) f h k = k a
Returns->>= (err e) f h k = tt
Returns->>= panic f h k = h
Returns->>= exhausted f h k = h

or_error-Returns : {A : Type 0} (what : String) (o : Option A) → Returns (or_error what o)
or_error-Returns what none = tt
or_error-Returns what (some a) = tt

Returns-ne-panic : {A : Type 0} (r : Result A) → Returns r → r ≢ panic
Returns-ne-panic (ok a) h = λ e. cc
Returns-ne-panic (err x) h = λ e. cc
Returns-ne-panic panic h = absurd h
Returns-ne-panic exhausted h = absurd h

new_dhcp_config-Returns : (spec : NsxtInfraSpec) → Returns (new_dhcp_config spec)
unfolding new_dhcp_config
new_dhcp_config-Returns spec = ground arith

route_of-Returns : (parts : List String) (v : String) → Returns (route_of parts v)
unfolding route_of
route_of-Returns [] v = tt
route_of-Returns (a ∷ []) v = tt
route_of-Returns (a ∷ (b ∷ [])) v = tt
route_of-Returns (a ∷ (b ∷ (c ∷ r))) v = tt

routes_of-Returns : (values : List String) → Returns (routes_of values)
unfolding routes_of
routes_of-Returns [] = tt
routes_of-Returns (v ∷ values) =
    Returns->>= _ _ (route_of-Returns _ v)
      (λ route. Returns->>= _ _ (routes_of-Returns values) (λ routes. tt))

option121_of-Returns : (o : Option (List String)) → Returns (option121_of o)
unfolding option121_of
option121_of-Returns none = tt
option121_of-Returns (some values) = Returns->>= _ _ (routes_of-Returns values) (λ routes. tt)

domain_name_of-Returns : (o : Option (List String)) → Returns (domain_name_of o)
unfolding domain_name_of
domain_name_of-Returns none = tt
domain_name_of-Returns (some []) = tt
domain_name_of-Returns (some (name ∷ [])) = tt
domain_name_of-Returns (some (name ∷ (b ∷ r))) = tt

encoded-Returns : (o : Option String) → Returns (encoded o)
encoded-Returns none = tt
encoded-Returns (some v) = tt

options_of-Returns : (options walked : DhcpOptions) → Returns (options_of options walked)
unfolding options_of
options_of-Returns options walked = ground (arith, option121_of-Returns (lookup_option 121 options))

make_dhcp_config-Returns :
    (convert : SegmentDhcpV4Config → Option String) (cfg : DhcpConfig) (walked : DhcpOptions)
    → Returns (make_dhcp_config convert cfg walked)
unfolding make_dhcp_config
make_dhcp_config-Returns convert cfg walked =
    ground (arith, options_of-Returns cfg.dhcp_options walked)

pub new_dhcp_config-ne-panic : (spec : NsxtInfraSpec) → new_dhcp_config spec ≢ panic
new_dhcp_config-ne-panic spec = Returns-ne-panic _ (new_dhcp_config-Returns spec)

pub create_segment_subnet-ne-panic :
    (convert : SegmentDhcpV4Config → Option String) (cfg : DhcpConfig) (walked : DhcpOptions)
    (nsxt3 : Bool)
    → create_segment_subnet convert cfg walked nsxt3 ≢ panic
unfolding create_segment_subnet
create_segment_subnet-ne-panic convert cfg walked false = λ e. cc
create_segment_subnet-ne-panic convert cfg walked true =
    ground (arith, Returns-ne-panic _ (make_dhcp_config-Returns convert cfg walked))

pub build_ipv4_dhcp_server-ne-panic :
    (cfg : DhcpConfig) (walked : DhcpOptions) → build_ipv4_dhcp_server cfg walked ≢ panic
unfolding build_ipv4_dhcp_server
build_ipv4_dhcp_server-ne-panic cfg walked = ground (
  arith,
  domain_name_of-Returns (lookup_option 15 cfg.dhcp_options),
  option121_of-Returns (lookup_option 121 cfg.dhcp_options),
)
