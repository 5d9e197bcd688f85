-- ===== src/Infra/Equality.antt =====
-- The comparisons of the tasks: `equalStrings` (task/taskhelper.go), `equivalentSingleSubnet`
-- (task/tasks.go), and `reflect.DeepEqual` on the types that it is used at. That a nil slice differs
-- from an empty one under `reflect.DeepEqual` is left out.
use gardener_extension_provi.Base.{
  String, Bool, true, false, ◌&&◌, List, [], ◌∷◌, Option, none, some, ◌==◌, same, same_refl,
  same_option, all, contains, length, if◌then◌else◌, ◌≡◌, refl, arith,
}
use gardener_extension_provi.Infra.Object.{
  ClasslessStaticRoute, GenericDhcpOption, DhcpV4Options, SegmentDhcpV4Config, SegmentSubnet,
}

module _ {A : Type 0} (eq : A → A → Bool) where
  pub same_list : List A → List A → Bool
  same_list [] [] = true
  same_list (x ∷ xs) (y ∷ ys) = eq x y && same_list xs ys
  same_list _ _ = false

  pub same_pointer_value : Option A → Option A → Bool
  same_pointer_value none none = true
  same_pointer_value (some x) (some y) = eq x y
  same_pointer_value _ _ = false

  module _ (eq_refl : (x : A) → eq x x ≡ true) where
    pub same_list_refl : (xs : List A) → same_list xs xs ≡ true
    unfolding same_list
    same_list_refl [] = refl
    same_list_refl (x ∷ xs) = ground (arith, eq_refl x, same_list_refl xs)

    pub same_pointer_value_refl : (o : Option A) → same_pointer_value o o ≡ true
    unfolding same_pointer_value
    same_pointer_value_refl none = refl
    same_pointer_value_refl (some x) = eq_refl x

pub same_strings : List String → List String → Bool
unfolding same_list
same_strings xs ys = same_list same xs ys

-- `equalStrings`: as long as each other, and every element of the first occurs in the second.
unfoldable pub equal_strings : List String → List String → Bool
equal_strings a b = if length a == length b then all (contains b) a else false

abbrev same_route : ClasslessStaticRoute → ClasslessStaticRoute → Bool
same_route a b = same a.network b.network && same a.next_hop b.next_hop

abbrev same_generic : GenericDhcpOption → GenericDhcpOption → Bool
same_generic a b = a.code == b.code && same_strings a.values b.values

abbrev pub same_routes :
    Option (List ClasslessStaticRoute) → Option (List ClasslessStaticRoute) → Bool
same_routes a b = same_pointer_value (same_list same_route) a b

abbrev pub same_others : List GenericDhcpOption → List GenericDhcpOption → Bool
same_others a b = same_list same_generic a b

abbrev same_options : DhcpV4Options → DhcpV4Options → Bool
same_options a b = same_routes a.option121 b.option121 && same_others a.others b.others

unfoldable pub same_dhcp_v4_config : SegmentDhcpV4Config → SegmentDhcpV4Config → Bool
same_dhcp_v4_config a b =
    same_strings a.dns_servers b.dns_servers
    && same a.server_address b.server_address
    && a.lease_time == b.lease_time
    && same_pointer_value same_options a.options b.options

same_strings_refl : (xs : List String) → same_strings xs xs ≡ true
unfolding same_strings
same_strings_refl xs = same_list_refl same same_refl xs

pub same_routes_refl : (r : Option (List ClasslessStaticRoute)) → same_routes r r ≡ true
same_routes_refl r =
    same_pointer_value_refl (same_list same_route)
      (same_list_refl same_route (λ x. ground (arith, same_refl x.network, same_refl x.next_hop))) r

pub same_others_refl : (o : List GenericDhcpOption) → same_others o o ≡ true
same_others_refl o = same_list_refl same_generic (λ x. ground (arith, same_strings_refl x.values)) o

pub same_dhcp_v4_config_refl : (c : SegmentDhcpV4Config) → same_dhcp_v4_config c c ≡ true
unfolding same_dhcp_v4_config
same_dhcp_v4_config_refl c = ground (
  arith,
  same_strings_refl c.dns_servers,
  same_refl c.server_address,
  same_pointer_value_refl same_options
      (λ o. ground (arith, same_routes_refl o.option121, same_others_refl o.others)) c.options,
)

-- The tail of `equivalentSingleSubnet`, on the encoded configurations.
same_encoded : (String → Option SegmentDhcpV4Config) → Option String → Option String → Bool
same_encoded decode none none = true
same_encoded decode none (some b) = false
same_encoded decode (some a) none = false
same_encoded decode (some a) (some b) = elim (decode a) [
  | none ↦ false
  | some x ↦ elim (decode b) [ none ↦ false | some y ↦ same_dhcp_v4_config x y ]
]

unfoldable pub equivalent_single_subnet :
    (String → Option SegmentDhcpV4Config) → List SegmentSubnet → List SegmentSubnet → Bool
unfolding same_strings same_encoded same_dhcp_v4_config
equivalent_single_subnet decode (a ∷ []) (b ∷ []) =
    same_strings a.dhcp_ranges b.dhcp_ranges
    && same_option a.gateway_address b.gateway_address
    && same_option a.network b.network
    && same_encoded decode a.dhcp_config b.dhcp_config
equivalent_single_subnet decode _ _ = false
