-- ===== src/Cidr/Tests.antt =====
-- The theorems at inputs, and the tables of pkg/vsphere/infrastructure/task/helpers_test.go.
use gardener_extension_provi.Base.{arith, ◌≡◌, refl, none, some}
use gardener_extension_provi.Base.Int.{pos, negsuc}
use gardener_extension_provi.Cidr.{
  Octets, host_octets, cidr_mask, subnet_mask, cidr_host, cidr_host_and_prefix, cidr_subnet_mask,
}
use gardener_extension_provi.Cidr.Bytes.{subnet_mask-cidr_mask}
use gardener_extension_provi.Cidr.Host.{IsOctets, IsHost, host_octets-IsHost}

host_table :
    (cidr_host "10.0.96.0/20" (pos 0) ≡ some "10.0.96.0")
    × (cidr_host "10.0.96.0/20" (pos 256) ≡ some "10.0.97.0")
    × (cidr_host "10.0.96.0/20" (negsuc 1) ≡ some "10.0.111.254")
    × (cidr_host "10.0.96.0/20" (negsuc 0) ≡ some "10.0.111.255")
    × (cidr_host "10.0.96.0/20" (pos 4095) ≡ some "10.0.111.255")
    × (cidr_host "10.0.96.0/20" (pos 4096) ≡ none)
unfolding cidr_host
host_table = (refl, refl, refl, refl, refl, refl)

prefix_table : cidr_host_and_prefix "10.0.96.0/19" (pos 1) ≡ some "10.0.96.1/19"
unfolding cidr_host_and_prefix
prefix_table = refl

mask_table :
    (cidr_subnet_mask "0.0.0.0/0" ≡ some "0.0.0.0")
    × (cidr_subnet_mask "10.0.96.0/19" ≡ some "255.255.224.0")
    × (cidr_subnet_mask "10.0.96.0/28" ≡ some "255.255.255.240")
    × (cidr_subnet_mask "123.254.96.32/32" ≡ some "255.255.255.255")
unfolding cidr_subnet_mask
mask_table = (refl, refl, refl, refl)

subnet_mask-cidr_mask_example : subnet_mask 19 ≡ cidr_mask 19
subnet_mask-cidr_mask_example = subnet_mask-cidr_mask 19 (omega arith)

abbrev address : Octets
address = record { b0 = 10; b1 = 0; b2 = 96; b3 = 0 }

address-IsOctets : IsOctets address
address-IsOctets = record {
  small0 = omega arith;
  small1 = omega arith;
  small2 = omega arith;
  small3 = omega arith;
}

host_octets-IsHost_example :
    IsHost address 20 (negsuc 1) (host_octets address (cidr_mask 20) (negsuc 1))
host_octets-IsHost_example = host_octets-IsHost address 20 (negsuc 1) address-IsOctets (omega arith)
