-- ===== src/Network/Address/Tests.antt =====
-- Addresses, masks and ports that are accepted and refused.
use freenetic.Base.{
  trim_start, trim_end, ◌≡◌, ◌↔◌, refl, true, false, codes, every, is_decimal, digits_value,
}
use freenetic.Network.Address.{
  valid_ipv4, valid_ipv4_netmask, valid_port, split_on, valid_octet, binary_octet, mask_bits,
  is_mask, ones_zeros, all_zeros,
}
use freenetic.Network.Address.Netmask.{IsNetmask, valid_ipv4_netmask_iff}
use freenetic.Network.Address.Ports.{IsPort, valid_port_iff}

ipv4_run :
    (valid_ipv4 (codes "192.168.1.1") ≡ true)
    × (valid_ipv4 (codes "256.0.0.1") ≡ false)
    × (valid_ipv4 (codes "1.2.3") ≡ false)
unfolding valid_ipv4 split_on valid_octet every is_decimal digits_value
ipv4_run = (refl, refl, refl)

netmask_run :
    (valid_ipv4_netmask (codes "255.255.255.0") ≡ true)
    × (valid_ipv4_netmask (codes "255.0.255.0") ≡ false)
    × (valid_ipv4_netmask (codes "0.0.0.0") ≡ false)
unfolding valid_ipv4_netmask valid_ipv4 split_on valid_octet every is_decimal digits_value
    binary_octet mask_bits is_mask ones_zeros all_zeros
netmask_run = (refl, refl, refl)

valid_ipv4_netmask_iff_example :
    (valid_ipv4_netmask (codes "255.255.0.0") ≡ true) ↔ IsNetmask (codes "255.255.0.0")
valid_ipv4_netmask_iff_example = valid_ipv4_netmask_iff (codes "255.255.0.0")

valid_port_iff_example :
    (valid_port (codes "80-443") true ≡ true) ↔ IsPort true (trim_end (trim_start (codes "80-443")))
valid_port_iff_example = valid_port_iff (codes "80-443") true
