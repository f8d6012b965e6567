-- ===== src/Network/Ipv6/Tests.antt =====
-- Addresses that are read, written and masked.
use freenetic.Base.{
  get_or, if◌then◌else◌, length, ltb, ◌*◌, ◌+◌, ◌-◌, ℕ, ◌≡◌, ◌++◌, refl, true, false, List, [], ◌∷◌,
  none, some, codes, arith, Text, decimal, hex_value, to_hex, every, lower, some_of, trim_start,
  trim_end, is_space, digits_value, is_decimal, number_of,
}
use freenetic.Network.Address.{split_on, valid_ipv4, valid_octet}
use freenetic.Network.Ipv6.{
  parse_ipv6_words, parse_plain, format_ipv6_words, valid_address, valid_ipv6, valid_ipv4_address,
  split_ipv6, split_parts, prefix_fits, zone_fits, cut_at, cut_last, without_dots, word_pair,
  parse_colons, parse_halves, parse_half, join_halves, is_group, cut_double, count_doubles,
  best_run, zero_run, join_colons,
}
use freenetic.Network.Ipv6.Routes.{
  connected_route_target, ipv6_network_cidr, ipv4_network_cidr, cidr_of_words, mask_words,
  masked_word, octet_values, network_of, dotted_quad,
}
use freenetic.Network.Ipv6.Round.{parse_ipv6_words-format_ipv6_words}
use freenetic.Network.Ipv6.Bits.{bit}
use freenetic.Network.Ipv6.Masked.{ipv6_network_cidr-network}

abbrev documentation : List ℕ
documentation = 0x2001 ∷ 0xdb8 ∷ 0 ∷ 0 ∷ 1 ∷ 0 ∷ 0 ∷ 5 ∷ []

read_run :
    (parse_ipv6_words (codes "2001:DB8::1:0:0:5%eth0") ≡ some documentation)
    × (parse_ipv6_words (codes "::ffff:192.0.2.1")
        ≡ some (0 ∷ 0 ∷ 0 ∷ 0 ∷ 0 ∷ 0xffff ∷ 0xc000 ∷ 0x201 ∷ []))
    × (parse_ipv6_words (codes "1::2::3") ≡ none)
    × (parse_ipv6_words (codes "1:2:3:4:5:6:7") ≡ none)
unfolding parse_ipv6_words parse_plain cut_at lower without_dots some_of cut_last valid_ipv4
    split_on valid_octet word_pair to_hex digits_value is_decimal every parse_colons parse_halves
    parse_half join_halves is_group hex_value cut_double count_doubles
read_run = (refl, refl, refl, refl)

written_run :
    (format_ipv6_words documentation ≡ codes "2001:db8::1:0:0:5")
    × (format_ipv6_words (1 ∷ 2 ∷ 3 ∷ 4 ∷ 5 ∷ 0 ∷ 7 ∷ 8 ∷ []) ≡ codes "1:2:3:4:5:0:7:8")
unfolding format_ipv6_words best_run zero_run join_colons to_hex
written_run = (refl, refl)

target_run :
    (connected_route_target
        (some (record { address = some (codes "192.168.77.9"); mask = some 20 }))
      ≡ some (codes "192.168.64.0/20"))
    × (connected_route_target
          (some (record { address = some (codes "2001:db8::5"); mask = some 32 }))
        ≡ some (codes "2001:db8::/32"))
    × (connected_route_target
          (some (record { address = some (codes "192.168.77"); mask = some 20 }))
        ≡ none)
unfolding connected_route_target some_of ipv4_network_cidr ipv6_network_cidr cidr_of_words
    mask_words masked_word octet_values network_of dotted_quad decimal number_of split_on
    parse_ipv6_words parse_plain cut_at lower without_dots parse_colons parse_halves parse_half
    join_halves is_group hex_value cut_double count_doubles every format_ipv6_words best_run
    zero_run join_colons to_hex
target_run = (refl, refl, refl)

accepted_run :
    (valid_address (codes " 2001:db8::/32 ") false true ≡ true)
    × (valid_address (codes "10.0.0.1/33") true true ≡ false)
    × (valid_address (codes "fe80::1%eth0") false false ≡ true)
    × (valid_address (codes "fe80::1/64") false false ≡ false)
unfolding valid_address valid_ipv6 valid_ipv4_address split_ipv6 split_parts prefix_fits zone_fits
    trim_start trim_end is_space valid_ipv4 valid_octet split_on is_decimal digits_value
    parse_ipv6_words parse_plain cut_at lower without_dots some_of parse_colons parse_halves
    parse_half join_halves is_group hex_value cut_double count_doubles every
accepted_run = (refl, refl, refl, refl)

parse_ipv6_words-format_ipv6_words_example :
    parse_ipv6_words (format_ipv6_words documentation) ≡ some documentation
parse_ipv6_words-format_ipv6_words_example = parse_ipv6_words-format_ipv6_words documentation refl (
  omega arith,
  (
    omega arith,
    (omega arith, (omega arith, (omega arith, (omega arith, (omega arith, (omega arith, tt)))))),
  ),
)

abbrev host : Text
host = codes "2001:db8::1:0:0:5"

host_words : parse_ipv6_words host ≡ some documentation
unfolding parse_ipv6_words parse_plain cut_at lower without_dots some_of parse_colons parse_halves
    parse_half join_halves is_group hex_value cut_double count_doubles every
host_words = refl

-- The lowest bit of the fourth word is the last that is kept.
ipv6_network_cidr-network_example :
    (network : Text) × (ipv6_network_cidr host (some 64) ≡ some (network ++ b'/' ∷ decimal 64))
    × ((masked : List ℕ) × (parse_ipv6_words network ≡ some masked)
        × (length masked ≡ 8)
        × (bit 0 (get_or masked 3 0)
            ≡ (if ltb (16 * 3 + (15 - 0)) 64 then bit 0 (get_or documentation 3 0) else 0)))
    × (ipv6_network_cidr network (some 64) ≡ some (network ++ b'/' ∷ decimal 64))
ipv6_network_cidr-network_example =
    ipv6_network_cidr-network host 64 documentation 3 0 host_words (omega arith) (omega arith)
      (omega arith)
