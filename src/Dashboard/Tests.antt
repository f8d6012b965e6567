-- ===== src/Dashboard/Tests.antt =====
-- Clients, connections and versions.
use mathlib.Core.List.{Perm}
use freenetic.Base.{
  ◌≡◌, refl, true, false, List, [], ◌∷◌, map, none, some, codes, Text, text_eq, keep, some_of,
  every, lower, upper, trim_start, trim_end, is_space, hex_value, number_of, is_decimal, All,
  starts_with,
}
use freenetic.Network.Address.{split_on}
use freenetic.Connections.Fields.{split_spaces, non_empty}
use freenetic.Multiwan.Values.{Section, text, texts, option, list_value}
use freenetic.Dashboard.Clients.{
  ip_in_lan, ip2int, part_value, lan_bits, same_network, columns_of, arp_lines, active_arp_macs,
  parse_hex, hex_prefix,
}
use freenetic.Dashboard.Wan.{
  Iface, Group, wan_connections, wan_names, add_names, group_ifaces, add_to_groups,
  connection_label, is_station, wi_fi, pppoe, mhz_to_channel,
}
use freenetic.Dashboard.Wan.Groups.{members, IsOnDevice, IsApart, wan_connections-IsApart}
use freenetic.Dashboard.Version.{
  build_revision, find_revision, revision_here, span_hex, is_release_end,
}

lan_run :
    (ip_in_lan
        (codes "192.168.2.7")
        (some (record { address = some (codes "192.168.2.1"); mask = some 24 }))
      ≡ true)
    × (ip_in_lan
          (codes "192.168.3.7")
          (some (record { address = some (codes "192.168.2.1"); mask = some 24 }))
        ≡ false)
    × (ip_in_lan
          (codes "fd00::7")
          (some (record { address = some (codes "192.168.2.1"); mask = none }))
        ≡ false)
unfolding ip_in_lan ip2int part_value lan_bits same_network some_of split_on number_of
lan_run = (refl, refl, refl)

arp_run :
    active_arp_macs (
      arp_lines (
        codes
          "IP\n192.168.2.7 0x1 0x2 aa:bb:cc:00:11:22 * br\n192.168.2.8 0x1 0x0 aa:bb:cc:00:11:23 * br"))
    ≡ codes "AA:BB:CC:00:11:22" ∷ []
unfolding active_arp_macs arp_lines split_on columns_of split_spaces non_empty is_space trim_start
    trim_end upper parse_hex hex_prefix lower every hex_value
arp_run = refl

label_run :
    (connection_label (codes "wwan") [] [] ≡ wi_fi)
    × (connection_label (codes "wan") (codes "phy0-sta0") [] ≡ wi_fi)
    × (connection_label (codes "wan") (codes "eth0") (codes "pppoe") ≡ pppoe)
    × (mhz_to_channel 5180 (codes "5g") ≡ 36)
    × (mhz_to_channel 2412 (codes "2g") ≡ 1)
    × (build_revision (codes "0.3.1~1A2b3c4d5-r2") ≡ codes "1A2b3c4")
unfolding connection_label text_eq lower is_station starts_with split_on is_decimal every upper
    trim_start trim_end is_space mhz_to_channel build_revision find_revision revision_here span_hex
    is_release_end
label_run = (refl, refl, refl, refl, refl, refl)

abbrev iface : Text → Text → Iface Text Text
iface name device = record {
  interface = name;
  l3_device = device;
  device = [];
  up = true;
  uptime = 5;
  proto = codes "dhcp";
  ipv4_address = [];
  ipv6_address = [];
  dns_server = [];
  route = [];
}

abbrev zone : Section
zone =
    (codes ".type", text (codes "zone"))
    ∷ (codes "masq", text (codes "1"))
    ∷ (codes "network", texts (codes "wan" ∷ codes "wan6" ∷ []))
    ∷ []

abbrev three : List (Iface Text Text)
three =
    iface (codes "wan") (codes "eth0")
    ∷ iface (codes "lan") (codes "br")
    ∷ iface (codes "wan6") (codes "eth0")
    ∷ []

groups_run :
    map
      (λ (g : Group Text Text). map (λ (e : Iface Text Text). e.interface) g.ifaces)
      (wan_connections (zone ∷ []) three)
    ≡ (codes "wan" ∷ codes "wan6" ∷ []) ∷ []
unfolding wan_connections wan_names add_names option list_value text_eq some_of keep group_ifaces
    add_to_groups
groups_run = refl

wan_connections-IsApart_example :
    Perm (members (wan_connections (zone ∷ []) three)) (
      keep
        (λ (e : Iface Text Text). some_of (text_eq e.interface) (wan_names (zone ∷ []) []))
        three)
    × All IsOnDevice (wan_connections (zone ∷ []) three)
    × IsApart (wan_connections (zone ∷ []) three)
wan_connections-IsApart_example = wan_connections-IsApart (zone ∷ []) three
