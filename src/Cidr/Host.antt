-- ===== src/Cidr/Host.antt =====
-- The address that `cidrHost` computes, as a number.
use Prim.Native.Nat.{bit_and}
use gardener_extension_provi.Base.{
  ℕ, ◌+◌, ◌-◌, ◌*◌, ◌/◌, ◌%◌, ◌≤◌, ◌<◌, Bool, true, false, leb, ◌||◌, Option, none, some, ◌≡◌, inl,
  inr, arith, if◌then◌else◌, Bool-cases, ◌∙◌,
}
use gardener_extension_provi.Base.Int.{pos, negsuc, ℤ}
use gardener_extension_provi.Cidr.{
  Octets, out_of_range, counted, zip_octets, cidr_mask, add8, delta_of, count_of, invert_of,
  host_octets,
}
use gardener_extension_provi.Cidr.Bytes.{
  size, meets_lem, invert8_lem, mask_fits, host_count, Shape, mask-Shape,
}

-- The number that four octets stand for.
abbrev pub value : Octets → ℕ
value o = o.b0 * 16777216 + o.b1 * 65536 + o.b2 * 256 + o.b3

pub record IsOctets (o : Octets) : Type 0 where
  pub small0 : o.b0 < 256
  pub small1 : o.b1 < 256
  pub small2 : o.b2 < 256
  pub small3 : o.b3 < 256

-- The network's first address.
abbrev pub network : Octets → ℕ → Octets
network ip p = zip_octets bit_and ip (cidr_mask p)

-- `cidrHost` reads 32 bits of the index.
abbrev pub low32 : ℕ → ℕ
low32 n = n % 4294967296

value-delta : (n : ℕ) → value (delta_of n) ≡ low32 n
value-delta n = omega arith

-- The counts of a number's octets that lie within the sizes of a mask.
abbrev outside : (h0 h1 h2 h3 n : ℕ) → Bool
outside h0 h1 h2 h3 n =
    leb h3 (delta_of n).b3
    || (leb h2 (delta_of n).b2 || (leb h1 (delta_of n).b1 || leb h0 (delta_of n).b0))

module _ (total h0 h1 h2 h3 n : ℕ) (shape : Shape total h0 h1 h2 h3) (le0 : h0 ≤ 256)
    (le1 : h1 ≤ 256) (le2 : h2 ≤ 256) (le3 : h3 ≤ 256) where
  outside_iff : outside h0 h1 h2 h3 n ≡ leb total (low32 n)
  outside_iff = ground arith

  -- The last address less the count.
  value-inverted :
      outside h0 h1 h2 h3 n ≡ false
      → (h0 - 1 - (delta_of n).b0) * 16777216
          + (h1 - 1 - (delta_of n).b1) * 65536
          + (h2 - 1 - (delta_of n).b2) * 256
          + (h3 - 1 - (delta_of n).b3)
        ≡ total - 1 - low32 n
  value-inverted within = ground arith

size-le : (ones : ℕ) → size ones ≤ 256
unfolding size
size-le ones = omega arith

add8-fits : (a d h : ℕ) → a + h ≤ 256 → d < h → add8 a d ≡ a + d
add8-fits a d h p q = omega arith

module _ (p n : ℕ) (h : p < 33) where
  out_of_range_lem : out_of_range (delta_of n) (cidr_mask p) ≡ leb (host_count p) (low32 n)
  unfolding out_of_range cidr_mask
  out_of_range_lem =
      rw
        (
          meets_lem (p - 24) (n % 256) (omega arith),
          meets_lem (p - 16) (n / 256 % 256) (omega arith),
          meets_lem (p - 8) (n / 256 / 256 % 256) (omega arith),
          meets_lem p (n / 256 / 256 / 256 % 256) (omega arith),
        )
        (outside_iff (host_count p) (size p) (size (p - 8)) (size (p - 16)) (size (p - 24)) n
          (mask-Shape p h) (size-le p) (size-le (p - 8)) (size-le (p - 16)) (size-le (p - 24)))

  within :
      low32 n < host_count p
      → outside (size p) (size (p - 8)) (size (p - 16)) (size (p - 24)) n ≡ false
  within small =
      outside_iff (host_count p) (size p) (size (p - 8)) (size (p - 16)) (size (p - 24)) n
        (mask-Shape p h) (size-le p) (size-le (p - 8)) (size-le (p - 16)) (size-le (p - 24))
      ∙ ground arith

  abbrev IsWithin : Octets → Type 0
  IsWithin e =
      (e.b0 < size p) × (e.b1 < size (p - 8)) × (e.b2 < size (p - 16)) × (e.b3 < size (p - 24))

  delta-IsWithin : low32 n < host_count p → IsWithin (delta_of n)
  delta-IsWithin small = ground (arith, within small)

  -- The octets that are added to the network's.
  added_lem :
      (invert : Bool)
      → low32 n < host_count p
      → IsWithin (counted invert (delta_of n) (cidr_mask p))
        × (value (counted invert (delta_of n) (cidr_mask p))
            ≡ (if invert then host_count p - 1 - low32 n else low32 n))
  unfolding counted cidr_mask
  added_lem false small = (delta-IsWithin small, value-delta n)
  added_lem true small =
      let (w0, w1, w2, w3) = delta-IsWithin small in
      rw
        (
          invert8_lem p (delta_of n).b0 (omega arith) w0,
          invert8_lem (p - 8) (delta_of n).b1 (omega arith) w1,
          invert8_lem (p - 16) (delta_of n).b2 (omega arith) w2,
          invert8_lem (p - 24) (delta_of n).b3 (omega arith) w3,
        )
        (
          (omega arith, omega arith, omega arith, omega arith),
          value-inverted (host_count p) (size p) (size (p - 8)) (size (p - 16)) (size (p - 24)) n
              (mask-Shape p h) (size-le p) (size-le (p - 8)) (size-le (p - 16)) (size-le (p - 24))
              (within small),
        )

  -- The sum with the network's octets has no carry.
  sum-value :
      (ip e : Octets)
      → IsOctets ip
      → IsWithin e
      → value (zip_octets add8 (network ip p) e) ≡ value (network ip p) + value e
  unfolding cidr_mask
  sum-value ip e small w = omega (
    arith,
    mask_fits p ip.b0 small.small0,
    mask_fits (p - 8) ip.b1 small.small1,
    mask_fits (p - 16) ip.b2 small.small2,
    mask_fits (p - 24) ip.b3 small.small3,
  )

-- An answer at the address `offset` of the network, of which `count` are skipped: none if they are
-- too many.
abbrev At : Octets → ℕ → ℕ → ℕ → Option Octets → Type 0
At ip p count offset none = host_count p ≤ count
At ip p count offset (some o) = (count < host_count p) × (value o ≡ value (network ip p) + offset)

-- What `cidrHost` answers: an index counts the addresses of the network from the first one on, a
-- negative index from the last one back.
abbrev pub IsHost : Octets → ℕ → ℤ → Option Octets → Type 0
IsHost ip p (pos n) = At ip p (low32 n) (low32 n)
IsHost ip p (negsuc n) = At ip p (low32 n) (host_count p - 1 - low32 n)

host_octets-At :
    (ip : Octets) (p : ℕ) (index : ℤ)
    → IsOctets ip
    → p < 33
    → At ip p
        (low32 (count_of index))
        (if invert_of index
          then host_count p - 1 - low32 (count_of index)
          else low32 (count_of index))
        (host_octets ip (cidr_mask p) index)
unfolding host_octets
host_octets-At ip p index small h =
    elim (Bool-cases (leb (host_count p) (low32 (count_of index)))) [
      | inl far ↦ rw (out_of_range_lem p (count_of index) h ∙ far) (ground arith)
      | inr near ↦
          let inside : low32 (count_of index) < host_count p = ground arith in
          let (w, e) = added_lem p (count_of index) h (invert_of index) inside in
          rw (out_of_range_lem p (count_of index) h ∙ near)
            (inside, rw (sum-value p (count_of index) h ip _ small w) (rw e))
    ]

-- An index of a network with a prefix of at most 32 bits counts its addresses from the first one
-- on, a negative index from the last one back; an index is refused exactly if its low 32 bits
-- count past the last address.
pub host_octets-IsHost :
    (ip : Octets) (p : ℕ) (index : ℤ)
    → IsOctets ip
    → p < 33
    → IsHost ip p index (host_octets ip (cidr_mask p) index)
host_octets-IsHost ip p (pos n) small h = host_octets-At ip p (pos n) small h
host_octets-IsHost ip p (negsuc n) small h = host_octets-At ip p (negsuc n) small h
