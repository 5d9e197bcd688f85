-- ===== src/Cidr.antt =====
-- The address arithmetic of pkg/vsphere/infrastructure/task/helpers.go. An address is its four
-- octets; `net.ParseCIDR` is modelled for dotted IPv4 texts. A text with a colon is an IPv6 address,
-- which the code refuses (an IPv4 address written as an IPv6 one is left out).
pub mod Bytes
pub mod Host
pub mod Tests
use Prim.Native.Nat.{bit_and, bit_or, bit_xor}
use Prim.Native.String.{◌++◌}
use mathlib.Core.Option
use gardener_extension_provi.Base.{
  ℕ, zero, suc, ◌+◌, ◌-◌, ◌*◌, ◌/◌, ◌%◌, ◌^◌, String, Bool, true, false, ◌||◌, List, [], ◌∷◌,
  Option, none, some, ltb, leb, ◌==◌, not, if◌then◌else◌,
}
use gardener_extension_provi.Base.Int.{ℤ, pos, negsuc}
use gardener_extension_provi.Text.{split, decimal, octet, atoi, show, join}

pub record Octets : Type 0 where
  pub b0 : ℕ
  pub b1 : ℕ
  pub b2 : ℕ
  pub b3 : ℕ

abbrev pub map_octets : (ℕ → ℕ) → Octets → Octets
map_octets f o = record { b0 = f o.b0; b1 = f o.b1; b2 = f o.b2; b3 = f o.b3 }

abbrev pub zip_octets : (ℕ → ℕ → ℕ) → Octets → Octets → Octets
zip_octets f o p = record { b0 = f o.b0 p.b0; b1 = f o.b1 p.b1; b2 = f o.b2 p.b2; b3 = f o.b3 p.b3 }

-- `net.CIDRMask`: the octet that `ones` leading ones, counted from it, begin with.
pub mask_octet : ℕ → ℕ
mask_octet ones = if leb 8 ones then 255 else 255 - 255 / 2 ^ ones

unfoldable pub cidr_mask : ℕ → Octets
cidr_mask ones = record {
  b0 = mask_octet ones;
  b1 = mask_octet (ones - 8);
  b2 = mask_octet (ones - 16);
  b3 = mask_octet (ones - 24);
}

pub data Parsed : Type 0 where
  bad : Parsed
  ipv6 : Parsed
  -- the network's address and its prefix length
  ipv4 : Octets → ℕ → Parsed

pub parse_octets : List String → Option Octets
parse_octets (a ∷ (b ∷ (c ∷ (d ∷ [])))) = elim (octet a) [
  | none ↦ none
  | some x ↦ elim (octet b) [
    | none ↦ none
    | some y ↦ elim (octet c) [
      | none ↦ none
      | some z ↦ elim (octet d) [
        | none ↦ none
        | some w ↦ some (record { b0 = x; b1 = y; b2 = z; b3 = w })
      ]
    ]
  ]
]
parse_octets _ = none

parse_parts : List String → Parsed
unfolding parse_octets
parse_parts (addr ∷ (mask ∷ [])) = elim (parse_octets (split addr ".")) [
  | none ↦ elim (split addr ":") [ a ∷ (b ∷ r) ↦ ipv6 | _ ↦ bad ]
  | some o ↦ elim (decimal mask) [
    | none ↦ bad
    | some n ↦ if leb n 32 then ipv4 (zip_octets bit_and o (cidr_mask n)) n else bad
  ]
]
parse_parts _ = bad

-- `net.ParseCIDR`, of which the code uses the network.
unfoldable pub parse_cidr : String → Parsed
unfolding parse_parts split cidr_mask mask_octet octet decimal
parse_cidr cidr = parse_parts (split cidr "/")

-- One octet of a sum in Go's `byte`.
abbrev pub add8 : ℕ → ℕ → ℕ
add8 a b = (a + b) % 256

-- `delta` before it is inverted: the last octet first.
abbrev pub delta_of : ℕ → Octets
delta_of n = record {
  b0 = n / 256 / 256 / 256 % 256;
  b1 = n / 256 / 256 % 256;
  b2 = n / 256 % 256;
  b3 = n % 256;
}

-- Whether an octet of `delta` meets the mask.
pub meets : ℕ → ℕ → Bool
meets d m = not (bit_and d m == 0)

pub invert8 : ℕ → ℕ → ℕ
invert8 d m = bit_and (bit_xor d 255) (bit_xor m 255)

-- `n` and `invert` at the start of `cidrHost`.
abbrev pub count_of : ℤ → ℕ
count_of (pos n) = n
count_of (negsuc n) = n

abbrev pub invert_of : ℤ → Bool
invert_of (pos n) = false
invert_of (negsuc n) = true

-- Whether some round of the first loop refuses the index.
pub out_of_range : Octets → Octets → Bool
unfolding meets
out_of_range d m = meets d.b3 m.b3 || (meets d.b2 m.b2 || (meets d.b1 m.b1 || meets d.b0 m.b0))

-- The second loop, if it runs.
pub counted : Bool → Octets → Octets → Octets
unfolding invert8
counted invert d m = if invert then zip_octets invert8 d m else d

-- `cidrHost` from the parsed network on; `none` is "out of CIDR range".
unfoldable pub host_octets : Octets → Octets → ℤ → Option Octets
host_octets ip m index =
    let d = delta_of (count_of index) in
    if out_of_range d m
    then none
    else some (zip_octets add8 (zip_octets bit_and ip m) (counted (invert_of index) d m))

-- `net.IP.String` of an IPv4 address.
unfoldable pub show_octets : Octets → String
unfolding show join
show_octets o = join (show o.b0 ∷ show o.b1 ∷ show o.b2 ∷ show o.b3 ∷ []) "."

-- The functions answer `none` where the source answers an error.
unfoldable pub cidr_host : String → ℤ → Option String
unfolding parse_cidr cidr_mask mask_octet host_octets out_of_range counted show_octets
cidr_host cidr index = elim (parse_cidr cidr) [
  | bad ↦ none
  | ipv6 ↦ none
  | ipv4 ip p ↦ Option.map show_octets (host_octets ip (cidr_mask p) index)
]

prefixed : Option String → List String → Option String
prefixed none parts = none
prefixed (some host) (a ∷ (p ∷ [])) = some (host ++ "/" ++ p)
prefixed (some host) _ = none

unfoldable pub cidr_host_and_prefix : String → ℤ → Option String
unfolding cidr_host prefixed split
cidr_host_and_prefix cidr index = prefixed (cidr_host cidr index) (split cidr "/")

-- One round of the loop of `cidrSubnetMask`: `subnetMask[i/8] |= 1 << (7 - (i % 8))`.
set_bit : ℕ → Octets → Octets
set_bit i o =
    let bit = 2 ^ (7 - i % 8) in
    if i / 8 == 0
    then record o { b0 = bit_or o.b0 bit }
    else if i / 8 == 1
    then record o { b1 = bit_or o.b1 bit }
    else if i / 8 == 2
    then record o { b2 = bit_or o.b2 bit }
    else record o { b3 = bit_or o.b3 bit }

set_bits : ℕ → ℕ → Octets → Octets
unfolding set_bit
set_bits zero i o = o
set_bits (suc rounds) i o = set_bits rounds (i + 1) (set_bit i o)

unfoldable pub subnet_mask : ℕ → Octets
unfolding set_bits
subnet_mask subnet = set_bits subnet 0 (record { b0 = 0; b1 = 0; b2 = 0; b3 = 0 })

mask_of_parts : List String → Option String
mask_of_parts (a ∷ (p ∷ [])) = elim (atoi p) [
  | none ↦ none
  | some (negsuc n) ↦ none
  | some (pos n) ↦ if ltb 32 n then none else some (show_octets (subnet_mask n))
]
mask_of_parts _ = none

unfoldable pub cidr_subnet_mask : String → Option String
unfolding mask_of_parts subnet_mask show_octets atoi split
cidr_subnet_mask cidr = mask_of_parts (split cidr "/")
