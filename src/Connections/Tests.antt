-- ===== src/Connections/Tests.antt =====
-- Configurations, endpoints, profiles and names.
use freenetic.Base.{
  ◌≡◌, refl, true, false, [], ◌∷◌, none, some, inr, codes, Text, every, some_of, trim_start,
  trim_end, is_space, text_eq, lower, digits_value, is_decimal, hex_value,
}
use freenetic.Network.Address.{split_on, valid_ipv4, valid_octet}
use freenetic.Network.Ipv6
use freenetic.Network.Ipv6.{
  valid_ipv6, valid_ipv4_address, split_ipv6, split_parts, prefix_fits, zone_fits, parse_ipv6_words,
  parse_plain, cut_at, cut_last, without_dots, word_pair, parse_colons, parse_halves, parse_half,
  join_halves, is_group, cut_double, count_doubles,
}
use freenetic.Connections.Fields.{valid_key, is_key, valid_address, valid_host, valid_port}
use freenetic.Connections.Config.{
  Connection, Peer, parse_config, serialize_config, parsed, awg_value,
}
use freenetic.Connections.Lines.{IsWritable}
use freenetic.Connections.Endpoints.{IsEndpoint}
use freenetic.Connections.Round.Peers.{IsPortablePeer}
use freenetic.Connections.Round.Interface.{IsPortableInterface}
use freenetic.Connections.Round.Whole.{parse_config-serialize_config}
use freenetic.Connections.Round.Portable.{IsPortable, imported}
use freenetic.Connections.Accepted.{IsAccepted, parse_config-IsAccepted}
use freenetic.Connections.Profiles.{
  managed_openvpn_profile, openvpn_profile_path, openvpn_profile_name,
  openvpn_profile_name_from_path,
}
use freenetic.Connections.Profiles.Paths.{openvpn_profile_path-IsManaged}

abbrev key_a : Text
key_a = codes "AAAAAAAAAAAAAAAAAAAAAAAAAAAAAAAAAAAAAAAAAAA="

abbrev server : Peer
server = record {
  section = none;
  description = codes "office";
  disabled = false;
  private_key = [];
  preshared_key = [];
  public_key = key_a;
  allowed_ips = codes "0.0.0.0/0" ∷ codes "::/0" ∷ [];
  endpoint_host = codes "fd00::1";
  endpoint_port = codes "51820";
  keepalive = codes "25";
  route_allowed = true;
}

abbrev tunnel : Connection
tunnel = record {
  section = some (codes "wg0");
  name = codes "Office";
  is_awg = true;
  enabled = true;
  private_key = key_a;
  public_key = [];
  addresses = codes "10.0.0.2/32" ∷ [];
  dns = [];
  listen_port = [];
  mtu = codes "1420";
  fwmark = [];
  nohostroute = false;
  awg = (codes "awg_jc", codes "4") ∷ [];
  peers = server ∷ [];
}

server-IsPortable : IsPortablePeer server
unfolding IsPortablePeer IsWritable IsEndpoint every trim_start trim_end is_space valid_key is_key
    text_eq valid_address some_of Ipv6.valid_address valid_ipv6 valid_ipv4_address split_ipv6
    split_parts prefix_fits zone_fits parse_ipv6_words parse_plain cut_at without_dots lower
    parse_colons parse_halves parse_half join_halves is_group cut_double count_doubles hex_value
    split_on valid_ipv4 valid_octet is_decimal digits_value valid_host valid_port
server-IsPortable = (
  ((λ e. cc), (refl, refl, refl), refl),
  (refl, refl, refl),
  ((refl, refl, refl), refl),
  ((((λ e. cc), refl), (((λ e. cc), refl), tt)), refl),
  inr (((λ e. cc), refl, inr refl), refl, refl),
  (refl, refl, refl),
)

tunnel-IsPortable : IsPortable tunnel
unfolding IsPortable IsPortableInterface IsWritable every trim_start trim_end is_space valid_key
    is_key text_eq valid_address some_of Ipv6.valid_address valid_ipv4_address split_on valid_ipv4
    valid_octet is_decimal digits_value awg_value
tunnel-IsPortable = (
  (
    (refl, refl, refl),
    (((λ e. cc), refl), tt),
    (refl, refl, refl),
    (refl, refl, refl),
    (refl, refl, refl),
    tt,
  ),
  ((λ e. cc), refl),
  ((λ e. cc), refl),
  (
    (refl, refl, refl),
    (
      (refl, refl, refl),
      (
        (refl, refl, refl),
        (
          (refl, refl, refl),
          (
            (refl, refl, refl),
            (
              (refl, refl, refl),
              ((refl, refl, refl), ((refl, refl, refl), ((refl, refl, refl), tt))),
            ),
          ),
        ),
      ),
    ),
  ),
  (server-IsPortable, tt),
)

parse_config-serialize_config_example :
    parse_config (serialize_config tunnel) ≡ parsed (imported tunnel)
parse_config-serialize_config_example = parse_config-serialize_config tunnel tunnel-IsPortable

parse_config-IsAccepted_example : IsAccepted (imported tunnel)
parse_config-IsAccepted_example =
    parse_config-IsAccepted (serialize_config tunnel) (imported tunnel)
      (parse_config-serialize_config tunnel tunnel-IsPortable)

openvpn_profile_path-IsManaged_example :
    managed_openvpn_profile (openvpn_profile_path (codes "my vpn")) ≡ true
    × openvpn_profile_name_from_path (openvpn_profile_path (codes "my vpn"))
      ≡ openvpn_profile_name (codes "my vpn")
openvpn_profile_path-IsManaged_example = openvpn_profile_path-IsManaged (codes "my vpn")
