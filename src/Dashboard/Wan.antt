-- ===== src/Dashboard/Wan.antt =====
-- Internet connections of the dashboard: the zones and groups of `getWanConnections`, `mergeWanGroup`,
-- `connectionLabel`, `backupEthernetDevices` and `mhzToChannel` of
-- freenetic-dashboard-data.js.
pub mod Groups
use freenetic.Base.{
  ℕ, zero, suc, ◌+◌, ◌-◌, ◌*◌, ◌/◌, max, Bool, true, false, not, ◌&&◌, ◌||◌, List, [], ◌∷◌, ◌++◌,
  map, Option, none, some, or_else, ◌==◌, Text, codes, text_eq, lower, is_digit, trim_start,
  trim_end, upper, some_of, every, find, keep, starts_with, drop, length, is_decimal, if◌then◌else◌,
}
use freenetic.Network.Address.{split_on}
use freenetic.Connections.Fields.{trim}
use freenetic.Multiwan.Values.{Value, Section, option, list_value, is_text}

module _ (Address Route : Type 0) where
  -- An interface in netifd's dump; addresses and routes are passed on as they are.
  pub record Iface : Type 0 where
    pub interface : Text
    pub l3_device : Text
    pub device : Text
    pub up : Bool
    pub uptime : ℕ
    pub proto : Text
    pub ipv4_address : List Address
    pub ipv6_address : List Address
    pub dns_server : List Text
    pub route : List Route

  pub record Group : Type 0 where
    pub device : Text
    pub name : Text
    pub ifaces : List Iface

  -- What `mergeWanGroup` makes of a group.
  pub record Wan : Type 0 where
    pub name : Text
    pub device : Text
    pub up : Bool
    pub uptime : ℕ
    pub proto : Text
    pub ipv4_address : List Address
    pub ipv6_address : List Address
    pub dns_server : List Text
    pub route : List Route

-- The networks of the zones with `masq`, each once.
unfoldable pub add_names : List Text → List Text → List Text
unfolding some_of text_eq
add_names names [] = names
add_names names (n ∷ ns) =
    add_names (if some_of (text_eq n) names then names else names ++ n ∷ []) ns

unfoldable pub wan_names : List Section → List Text → List Text
unfolding add_names option list_value
wan_names [] names = names
wan_names (z ∷ zones) names = wan_names zones (
    if is_text (option (codes ".type") z) (codes "zone")
      && is_text (option (codes "masq") z) (codes "1")
    then add_names names (list_value (option (codes "network") z))
    else names)

abbrev pub or_text : Text → Text → Text
or_text [] t = t
or_text (c ∷ s) t = c ∷ s

module _ {Address Route : Type 0} where
  -- `e.l3_device || e.device || e.interface`
  abbrev pub device_of : Iface Address Route → Text
  device_of e = or_text e.l3_device (or_text e.device e.interface)

  -- An interface joins the group of its device, or starts a group.
  unfoldable pub add_to_groups :
      Iface Address Route → List (Group Address Route) → List (Group Address Route)
  unfolding text_eq
  add_to_groups e [] = record { device = device_of e; name = e.interface; ifaces = e ∷ [] } ∷ []
  add_to_groups e (g ∷ gs) =
      let rest = add_to_groups e gs in
      if text_eq g.device (device_of e)
      then record g { ifaces = g.ifaces ++ e ∷ [] } ∷ gs
      else g ∷ rest

  unfoldable pub group_ifaces :
      List (Iface Address Route) → List (Group Address Route) → List (Group Address Route)
  unfolding add_to_groups
  group_ifaces [] groups = groups
  group_ifaces (e ∷ es) groups = group_ifaces es (add_to_groups e groups)

  unfoldable pub wan_connections :
      List Section → List (Iface Address Route) → List (Group Address Route)
  unfolding wan_names keep some_of text_eq group_ifaces
  wan_connections firewall dump =
      let names = wan_names firewall [] in
      group_ifaces (keep (λ (e : Iface Address Route). some_of (text_eq e.interface) names) dump) []

  unfoldable pub longest : List (Iface Address Route) → ℕ
  longest [] = 0
  longest (e ∷ es) = max e.uptime (longest es)

  -- The protocol of the first interface that is up, or of the first one.
  unfoldable pub wan_proto : List (Iface Address Route) → Text
  unfolding find
  wan_proto [] = []
  wan_proto (e ∷ es) = elim (find (λ (i : Iface Address Route). i.up) (e ∷ es)) [
    | some i ↦ i.proto
    | none ↦ e.proto
  ]

  unfoldable pub all_of {ℓ} :
      {A : Type ℓ} → (Iface Address Route → List A) → List (Iface Address Route) → List A
  all_of field [] = []
  all_of field (e ∷ es) = field e ++ all_of field es

  -- A group has at least one interface.
  unfoldable pub merge_wan_group : Group Address Route → Wan Address Route
  unfolding some_of longest wan_proto all_of
  merge_wan_group g = record {
    name = g.name;
    device = g.device;
    up = some_of (λ (e : Iface Address Route). e.up) g.ifaces;
    uptime = longest g.ifaces;
    proto = wan_proto g.ifaces;
    ipv4_address = all_of (λ (e : Iface Address Route). e.ipv4_address) g.ifaces;
    ipv6_address = all_of (λ (e : Iface Address Route). e.ipv6_address) g.ifaces;
    dns_server = all_of (λ (e : Iface Address Route). e.dns_server) g.ifaces;
    route = all_of (λ (e : Iface Address Route). e.route) g.ifaces;
  }

pub data Label : Type 0 where
  wi_fi pppoe pppoa ipv6 ethernet_connection connection : Label
  upper_name : Text → Label

-- `/^phy\d+-sta\d+$/i`
unfoldable pub is_station : Text → Bool
unfolding lower starts_with is_decimal split_on
is_station device =
    let name = lower device in
    starts_with name (codes "phy") && by_dash (split_on b'-' (drop 3 name))
  where
    by_dash : Text × List Text → Bool
    by_dash (phy, station ∷ []) =
        is_decimal phy && (starts_with station (codes "sta") && is_decimal (drop 3 station))
    by_dash _ = false

unfoldable pub connection_label : Text → Text → Text → Label
unfolding text_eq lower is_station upper trim_start trim_end
connection_label name device proto =
    if (text_eq (lower name) (codes "wwan") || text_eq (lower name) (codes "fnwwan"))
      || is_station device
    then wi_fi
    else if text_eq proto (codes "pppoe")
    then pppoe
    else if text_eq proto (codes "pppoa")
    then pppoa
    else if text_eq proto (codes "dhcpv6")
    then ipv6
    else if text_eq proto (codes "dhcp") || text_eq proto (codes "static")
    then ethernet_connection
    else elim (upper (trim name)) [ [] ↦ connection | c ∷ s ↦ upper_name (c ∷ s) ]

-- An uplink of the Multi-WAN status: its scope and device.
unfoldable pub backup_ethernet_devices : List (Text × Text) → List Text → List Text
unfolding text_eq some_of trim_start trim_end
backup_ethernet_devices [] devices = devices
backup_ethernet_devices ((scope, device) ∷ uplinks) devices =
    backup_ethernet_devices uplinks (added (trim device))
  where
    added : Text → List Text
    added [] = devices
    added (c ∷ s) =
        if text_eq scope (codes "ethernet-port") && not (some_of (text_eq (c ∷ s)) devices)
        then devices ++ (c ∷ s) ∷ []
        else devices

-- `Math.round(n / 5)` for a frequency from the band's start on.
unfoldable pub mhz_to_channel : ℕ → Text → ℕ
unfolding text_eq
mhz_to_channel mhz band =
    if text_eq band (codes "5g") then (2 * (mhz - 5000) + 5) / 10 else (2 * (mhz - 2407) + 5) / 10
