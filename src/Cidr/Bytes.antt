-- ===== src/Cidr/Bytes.antt =====
-- One octet of a mask, and the shape of a whole mask: facts checked at all values.
use Prim.Native.Nat.{bit_and}
use gardener_extension_provi.Base.{
  ℕ, zero, suc, ◌+◌, ◌-◌, ◌*◌, ◌%◌, ◌^◌, ◌≤◌, ◌<◌, Bool, true, false, ◌&&◌, ◌||◌, not, ltb, leb,
  ◌==◌, ◌≡◌, refl, arith, if◌then◌else◌, ◌⊎◌, Bool-cases, inl, inr,
}
use mathlib.Core.Path.{subst}
use gardener_extension_provi.Cidr.{mask_octet, cidr_mask, subnet_mask, meets, invert8}

-- Whether the rows of a table pass a test, from row zero up to the last one.
up_to : (row : ℕ → Bool) → ℕ → Bool
up_to row zero = row zero
up_to row (suc last) = if row (suc last) then up_to row last else false

row_of_table :
    (row : ℕ → Bool) (last : ℕ) → up_to row last ≡ true → (k : ℕ) → k < suc last → row k ≡ true
unfolding up_to
row_of_table row zero passes k below =
    subst (λ x. row x ≡ true) (let e : zero ≡ k = omega arith in e) passes
row_of_table row (suc last) passes k below = elim (Bool-cases (ltb k (suc last))) [
  | inl under ↦ row_of_table row last (ground arith) k (ground arith)
  | inr over ↦ let e : suc last ≡ k = ground arith in subst (λ x. row x ≡ true) e (ground arith)
]

-- How many values of an octet lie within `ones` leading ones of mask.
unfoldable pub size : ℕ → ℕ
size ones = 256 - mask_octet ones

abbrev same_bool : Bool → Bool → Bool
same_bool true b = b
same_bool false b = not b

-- An octet `d` against the octet `m` of a mask: three equations.
meets_ok : ℕ → ℕ → Bool
meets_ok m d = same_bool (meets d m) (leb (256 - m) d)

and_ok : ℕ → ℕ → Bool
and_ok m d = bit_and d m == d - d % (256 - m)

invert_ok : ℕ → ℕ → Bool
invert_ok m d = if ltb d (256 - m) then invert8 d m == 256 - m - 1 - d else true

fits_ok : ℕ → ℕ → Bool
fits_ok m d = ltb (bit_and d m + (255 - m)) 256 && leb m 255

row_ok : ℕ → ℕ → Bool
row_ok m d = meets_ok m d && (and_ok m d && (invert_ok m d && fits_ok m d))

octet_table : up_to (λ k. up_to (row_ok (mask_octet k)) 255) 8 ≡ true
unfolding up_to row_ok meets_ok and_ok invert_ok fits_ok mask_octet meets invert8
octet_table = refl

-- Eight ones or more fill the octet.
capped : ℕ → ℕ
capped ones = if leb 8 ones then 8 else ones

mask_octet-capped : (ones : ℕ) → mask_octet (capped ones) ≡ mask_octet ones
unfolding mask_octet capped
mask_octet-capped ones = ground arith

capped-lt : (ones : ℕ) → capped ones < 9
unfolding capped
capped-lt ones = ground arith

octet_row : (ones d : ℕ) → d < 256 → row_ok (mask_octet ones) d ≡ true
octet_row ones d h = rw (mask_octet-capped ones) at (
    row_of_table (row_ok (mask_octet (capped ones))) 255
      (row_of_table (λ k. up_to (row_ok (mask_octet k)) 255) 8 octet_table (capped ones)
        (capped-lt ones))
      d h)

module _ (ones d : ℕ) (small : d < 256) where
  pub meets_lem : meets d (mask_octet ones) ≡ leb (size ones) d
  unfolding size row_ok meets_ok
  meets_lem = ground (arith, octet_row ones d small)

  pub bit_and-mask : bit_and d (mask_octet ones) ≡ d - d % size ones
  unfolding size row_ok and_ok
  bit_and-mask = ground (arith, octet_row ones d small)

  pub invert8_lem : d < size ones → invert8 d (mask_octet ones) ≡ size ones - 1 - d
  unfolding size row_ok invert_ok
  invert8_lem h = ground (arith, octet_row ones d small)

-- What a masked octet leaves free takes every count below the size without a carry.
pub mask_fits :
    (ones d : ℕ) → d < 256 → (bit_and d (mask_octet ones) + size ones ≤ 256) × (1 ≤ size ones)
unfolding size row_ok fits_ok
mask_fits ones d small = ground (arith, octet_row ones d small)

-- The four sizes of a mask: full octets, then one that is cut, then free ones.
shape_ok : ℕ → Bool
shape_ok p =
    (size p * 16777216 == 2 ^ (32 - p)
      && size (p - 8) == 256
      && size (p - 16) == 256
      && size (p - 24) == 256)
    || (size p == 1
        && size (p - 8) * 65536 == 2 ^ (32 - p)
        && size (p - 16) == 256
        && size (p - 24) == 256)
    || (size p == 1
        && size (p - 8) == 1
        && size (p - 16) * 256 == 2 ^ (32 - p)
        && size (p - 24) == 256)
    || (size p == 1 && size (p - 8) == 1 && size (p - 16) == 1 && size (p - 24) == 2 ^ (32 - p))

shape_table : up_to shape_ok 32 ≡ true
unfolding up_to shape_ok size mask_octet
shape_table = refl

-- The number of addresses of a network with prefix length `p`.
abbrev pub host_count : ℕ → ℕ
host_count p = 2 ^ (32 - p)

-- A mask's octets are full up to one, and free below it.
abbrev pub Shape : ℕ → ℕ → ℕ → ℕ → ℕ → Type 0
Shape total h0 h1 h2 h3 =
    ((h0 * 16777216 ≡ total) × (h1 ≡ 256) × (h2 ≡ 256) × (h3 ≡ 256))
    ⊎ (((h0 ≡ 1) × (h1 * 65536 ≡ total) × (h2 ≡ 256) × (h3 ≡ 256))
        ⊎ (((h0 ≡ 1) × (h1 ≡ 1) × (h2 * 256 ≡ total) × (h3 ≡ 256))
            ⊎ ((h0 ≡ 1) × (h1 ≡ 1) × (h2 ≡ 1) × (h3 ≡ total))))

pub mask-Shape :
    (p : ℕ) → p < 33 → Shape (host_count p) (size p) (size (p - 8)) (size (p - 16)) (size (p - 24))
unfolding shape_ok
mask-Shape p h = ground (arith, row_of_table shape_ok 32 shape_table p h)

mask_same : ℕ → Bool
mask_same p =
    (subnet_mask p).b0 == mask_octet p
    && (subnet_mask p).b1 == mask_octet (p - 8)
    && (subnet_mask p).b2 == mask_octet (p - 16)
    && (subnet_mask p).b3 == mask_octet (p - 24)

mask_table : up_to mask_same 32 ≡ true
unfolding up_to mask_same subnet_mask mask_octet
mask_table = refl

-- The bits that `cidrSubnetMask` sets one by one are the mask that `net.ParseCIDR` works with.
pub subnet_mask-cidr_mask : (p : ℕ) → p < 33 → subnet_mask p ≡ cidr_mask p
unfolding mask_same cidr_mask
subnet_mask-cidr_mask p h = ground (arith, row_of_table mask_same 32 mask_table p h)
