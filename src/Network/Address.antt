-- ===== src/Network/Address.antt =====
-- `validIPv4`, `validIPv4Netmask` and `validPort` of freenetic-network.js, on texts.
pub mod Split
pub mod Ipv4
pub mod Ports
pub mod Netmask
mod Tests
use freenetic.Base.{
  is_space, trim_start, trim_end, ℕ, zero, suc, ◌+◌, ◌/◌, ◌%◌, ◌^◌, Bool, true, false, not, ◌&&◌,
  ◌||◌, List, [], ◌∷◌, ◌++◌, map, Option, none, some, ◌==◌, leb, Text, is_digit, is_decimal,
  digits_value, length, every, if◌then◌else◌,
}

-- `s.split(c)` at a single character: there is always a first piece.
unfoldable pub split_on : ℕ → Text → Text × List Text
split_on c [] = ([], [])
split_on c (d ∷ s) =
    let (piece, pieces) = split_on c s in
    if d == c then ([], piece ∷ pieces) else (d ∷ piece, pieces)

-- `/^\d{1,3}$/.test(octet) && Number(octet) >= 0 && Number(octet) <= 255`
unfoldable pub valid_octet : Text → Bool
unfolding is_decimal digits_value
valid_octet octet = is_decimal octet && (leb (length octet) 3 && leb (digits_value 0 octet) 255)

unfoldable pub valid_ipv4 : Text → Bool
unfolding split_on valid_octet every
valid_ipv4 address =
    let (octet, octets) = split_on b'.' address in
    length octets == 3 && every valid_octet (octet ∷ octets)

-- `toString(2).padStart(8, '0')` of a number below 256; a `1` is true.
unfoldable pub binary_octet : ℕ → List Bool
binary_octet n = digit 7 ∷ digit 6 ∷ digit 5 ∷ digit 4 ∷ digit 3 ∷ digit 2 ∷ digit 1 ∷ digit 0 ∷ []
  where
    digit : ℕ → Bool
    digit i = n / 2 ^ i % 2 == 1

unfoldable pub all_zeros : List Bool → Bool
all_zeros [] = true
all_zeros (b ∷ bs) = not b && all_zeros bs

-- `/^1*0*$/`
unfoldable pub ones_zeros : List Bool → Bool
unfolding all_zeros
ones_zeros [] = true
ones_zeros (true ∷ bs) = ones_zeros bs
ones_zeros (false ∷ bs) = all_zeros bs

-- `/^1+0*$/`
unfoldable pub is_mask : List Bool → Bool
unfolding ones_zeros
is_mask [] = false
is_mask (b ∷ bs) = b && ones_zeros bs

unfoldable pub mask_bits : List Text → List Bool
unfolding binary_octet digits_value
mask_bits [] = []
mask_bits (octet ∷ octets) = binary_octet (digits_value 0 octet) ++ mask_bits octets

unfoldable pub valid_ipv4_netmask : Text → Bool
unfolding valid_ipv4 mask_bits is_mask split_on
valid_ipv4_netmask mask =
    let (octet, octets) = split_on b'.' mask in
    valid_ipv4 mask && is_mask (mask_bits (octet ∷ octets))

-- The groups of `/^(\d+)(?:-(\d+))?$/` in a text that is cut at its dashes.
unfoldable pub port_groups : Text → List Text → Option (Text × Option Text)
unfolding is_decimal
port_groups start [] = if is_decimal start then some (start, none) else none
port_groups start (end ∷ []) =
    if is_decimal start && is_decimal end then some (start, some end) else none
port_groups start (end ∷ next ∷ rest) = none

unfoldable pub in_range : ℕ → ℕ → Bool
in_range start end = leb 1 start && (leb start 65535 && (leb start end && leb end 65535))

unfoldable pub accepts : Bool → Option (Text × Option Text) → Bool
unfolding in_range digits_value
accepts allow_range none = false
accepts allow_range (some (start, none)) = in_range (digits_value 0 start) (digits_value 0 start)
accepts allow_range (some (start, some end)) =
    if allow_range then in_range (digits_value 0 start) (digits_value 0 end) else false

unfoldable pub valid_port : Text → Bool → Bool
unfolding trim_start trim_end is_space split_on port_groups accepts
valid_port value allow_range =
    let (start, ends) = split_on b'-' (trim_end (trim_start value)) in
    accepts allow_range (port_groups start ends)
