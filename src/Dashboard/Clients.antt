-- ===== src/Dashboard/Clients.antt =====
-- The clients of the dashboard: `upperString`, the table of `getArpTable`, `getActiveArpMacs`, `ip2int`,
-- `ipInLan` and `dashboardClientRows` of freenetic-dashboard-data.js. `localeCompare` is an argument.
use freenetic.Base.{
  ℕ, zero, suc, ◌-◌, ◌*◌, ◌/◌, ◌%◌, ◌^◌, bit_or, Bool, true, false, not, ◌&&◌, List, [], ◌∷◌,
  Option, none, some, or_else, ◌==◌, leb, Text, codes, text_eq, upper, lower, trim_start, trim_end,
  number_of, some_of, is_hex, hex_value, length, get_or, if◌then◌else◌,
}
use freenetic.Network.Address.{split_on}
use freenetic.Network.Ipv6.Routes.{IfaceAddress}
use freenetic.Connections.Fields.{trim, split_spaces, non_empty}
use freenetic.Multiwan.Values.{Value, missing, text, texts, Section, option, is_text, truthy}
use freenetic.Release.Tags.{Sign, after}
pub mod Arp
unfoldable pub use freenetic.Dashboard.Clients.Arp.{
  upper_string, part_value, ip2int, lan_bits, same_network, ip_in_lan, columns_of, arp_lines,
  set_key, arp_table, hex_prefix, parse_hex, active_arp_macs,
}

-- A DHCP lease.
pub record Lease : Type 0 where
  pub macaddr : Value
  pub ipaddr : Text
  pub hostname : Text

pub data Link : Type 0 where
  wifi : Text → Link
  ethernet : Link
  not_connected : Link

pub record Client : Type 0 where
  pub mac : Text
  pub name : Text
  pub ip : Text
  pub guest : Bool
  pub link : Link
  pub online : Bool

-- `hosts[mac] = section`, the last section of an address; a section that is no host is skipped.
unfoldable pub host_of : Text → List Section → Option Section
unfolding text_eq option upper_string
host_of mac [] = none
host_of mac (s ∷ ss) =
    let rest = host_of mac ss in
    or_else rest (
      if is_text (option (codes ".type") s) (codes "host")
        && text_eq (upper_string (option (codes "mac") s)) mac
      then some s
      else none)

unfoldable pub band_of : Text → List (Text × Text) → Option Text
unfolding text_eq
band_of mac [] = none
band_of mac ((m, band) ∷ stations) =
    let rest = band_of mac stations in if text_eq m mac then some band else rest

unfoldable pub link_of : Option Text → Bool → Link
link_of (some band) active = wifi band
link_of none true = ethernet
link_of none false = not_connected

abbrev pub is_connected : Link → Bool
is_connected (wifi band) = true
is_connected ethernet = true
is_connected not_connected = false

-- `host.name || lease.hostname || mac`
unfoldable pub client_name : Option Section → Text → Text → Text
unfolding truthy option
client_name host hostname mac = elim (named host) [
  | some name ↦ name
  | none ↦ elim hostname [ [] ↦ mac | c ∷ s ↦ c ∷ s ]
]
  where
    named : Option Section → Option Text
    named none = none
    named (some s) = truthy (option (codes "name") s)

unfoldable pub client_of :
    List (Text × Text) → List Text → List Section → Option IfaceAddress → Lease → Text → Client
unfolding ip_in_lan host_of band_of link_of client_name some_of text_eq
client_of stations active dhcp guest_info lease mac =
    let link = link_of (band_of mac stations) (some_of (text_eq mac) active) in
    record {
      mac = mac;
      name = client_name (host_of mac dhcp) lease.hostname mac;
      ip = elim (lease.ipaddr) [ [] ↦ 0x2013 ∷ [] | c ∷ s ↦ c ∷ s ];
      guest = ip_in_lan lease.ipaddr guest_info;
      link = link;
      online = is_connected link;
    }

-- `clients[mac] = …`: a client that is there keeps its place.
unfoldable pub put_client : Client → List Client → List Client
unfolding text_eq
put_client c [] = c ∷ []
put_client c (d ∷ ds) =
    let rest = put_client c ds in if text_eq d.mac c.mac then c ∷ ds else d ∷ rest

unfoldable pub add_clients :
    List (Text × Text)
    → List Text
    → List Section
    → Option IfaceAddress
    → List Lease
    → List Client
    → List Client
unfolding upper_string client_of put_client
add_clients stations active dhcp guest_info [] clients = clients
add_clients stations active dhcp guest_info (lease ∷ leases) clients =
    add_clients stations active dhcp guest_info leases (added (upper_string lease.macaddr))
  where
    added : Text → List Client
    added [] = clients
    added (c ∷ mac) = put_client (client_of stations active dhcp guest_info lease (c ∷ mac)) clients

-- The sort by name, which keeps equal names in their order.
unfoldable pub insert_client : (Text → Text → Sign) → Client → List Client → List Client
insert_client locale_compare c [] = c ∷ []
insert_client locale_compare c (d ∷ ds) =
    let behind = insert_client locale_compare c ds in
    elim (locale_compare c.name d.name) [ after ↦ d ∷ behind | _ ↦ c ∷ d ∷ ds ]

unfoldable pub sort_clients : (Text → Text → Sign) → List Client → List Client
unfolding insert_client
sort_clients locale_compare [] = []
sort_clients locale_compare (c ∷ cs) =
    insert_client locale_compare c (sort_clients locale_compare cs)

unfoldable pub dashboard_client_rows :
    (Text → Text → Sign)
    → List Lease
    → List (Text × Text)
    → List Text
    → List Section
    → Option IfaceAddress
    → List Client
unfolding add_clients sort_clients
dashboard_client_rows locale_compare leases stations active dhcp guest_info =
    sort_clients locale_compare (add_clients stations active dhcp guest_info leases [])
