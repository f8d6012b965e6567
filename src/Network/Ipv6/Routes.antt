-- ===== src/Network/Ipv6/Routes.antt =====
-- The networks of connected routes: `ipv4NetworkCidr`, `ipv6NetworkCidr` and `connectedRouteTarget`.
-- A prefix is given as what `Number` makes of it, where that is an integer that is not negative.
use freenetic.Base.{
  ℕ, ◌+◌, ◌-◌, ◌*◌, ◌/◌, ◌%◌, ◌^◌, List, [], ◌∷◌, ◌++◌, Option, none, some, ◌==◌, leb, ltb, Text,
  decimal, number_of, some_of, if◌then◌else◌,
}
use freenetic.Network.Address.{split_on}
use freenetic.Network.Ipv6.{parse_ipv6_words, format_ipv6_words}

-- `Number` of each octet, where all are from 0 to 255.
unfoldable pub octet_values : List Text → Option (List ℕ)
unfolding number_of
octet_values [] = some []
octet_values (octet ∷ octets) = elim (number_of octet) [
  | none ↦ none
  | some n ↦ elim (octet_values octets) [
    | none ↦ none
    | some ns ↦ (if leb n 255 then some (n ∷ ns) else none)
  ]
]

-- `value & mask`, which clears the lower `32 - prefix` bits.
unfoldable pub network_of : ℕ → ℕ → ℕ
network_of value prefix = if prefix == 0 then 0 else value / 2 ^ (32 - prefix) * 2 ^ (32 - prefix)

unfoldable pub dotted_quad : ℕ → Text
unfolding decimal
dotted_quad network =
    decimal (network / 2 ^ 24)
    ++ (b'.'
        ∷ (decimal (network / 2 ^ 16 % 256)
            ++ (b'.' ∷ (decimal (network / 2 ^ 8 % 256) ++ (b'.' ∷ decimal (network % 256))))))

unfoldable pub ipv4_network_cidr : Text → Option ℕ → Option Text
unfolding split_on octet_values network_of dotted_quad decimal
ipv4_network_cidr address none = none
ipv4_network_cidr address (some prefix) =
    let (octet, octets) = split_on b'.' address in of_values (octet_values (octet ∷ octets))
  where
    of_values : Option (List ℕ) → Option Text
    of_values (some (a ∷ b ∷ c ∷ d ∷ [])) =
        if leb prefix 32
        then some (
            dotted_quad (network_of (a * 2 ^ 24 + (b * 2 ^ 16 + (c * 2 ^ 8 + d))) prefix)
            ++ b'/' ∷ decimal prefix)
        else none
    of_values _ = none

-- `words[index] & (0xffff << (16 - keep)) & 0xffff` clears the lower bits of a word below 2 ^ 16.
unfoldable pub masked_word : ℕ → ℕ → ℕ → ℕ
masked_word prefix index word =
    let keep = prefix - index * 16 in
    if keep == 0 then 0 else if ltb keep 16 then word / 2 ^ (16 - keep) * 2 ^ (16 - keep) else word

unfoldable pub mask_words : ℕ → ℕ → List ℕ → List ℕ
unfolding masked_word
mask_words prefix index [] = []
mask_words prefix index (word ∷ words) =
    masked_word prefix index word ∷ mask_words prefix (index + 1) words

unfoldable pub cidr_of_words : ℕ → Option (List ℕ) → Option Text
unfolding format_ipv6_words mask_words decimal
cidr_of_words prefix none = none
cidr_of_words prefix (some words) =
    if leb prefix 128
    then some (format_ipv6_words (mask_words prefix 0 words) ++ b'/' ∷ decimal prefix)
    else none

unfoldable pub ipv6_network_cidr : Text → Option ℕ → Option Text
unfolding parse_ipv6_words cidr_of_words
ipv6_network_cidr address none = none
ipv6_network_cidr address (some prefix) = cidr_of_words prefix (parse_ipv6_words address)

-- An address of an interface, as netifd gives it.
pub record IfaceAddress : Type 0 where
  pub address : Option Text
  pub mask : Option ℕ

unfoldable pub connected_route_target : Option IfaceAddress → Option Text
unfolding some_of ipv6_network_cidr ipv4_network_cidr
connected_route_target none = none
connected_route_target (some a) = of_parts a.address a.mask
  where
    of_parts : Option Text → Option ℕ → Option Text
    of_parts (some address) (some mask) =
        if some_of (λ c. c == b':') address
        then ipv6_network_cidr address (some mask)
        else ipv4_network_cidr address (some mask)
    of_parts _ _ = none
