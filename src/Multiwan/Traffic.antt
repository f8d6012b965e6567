-- ===== src/Multiwan/Traffic.antt =====
-- `buildTrafficState` of freenetic-multiwan-data.js: which uplink carries the traffic.
pub mod Current
use freenetic.Base.{
  ℕ, Bool, true, false, ◌&&◌, ◌||◌, List, [], ◌∷◌, ◌++◌, map, Option, none, some, Text, codes,
  text_eq, lower, keep, find, some_of, or_else, if◌then◌else◌,
}
use freenetic.Multiwan.Values.{Family, ipv4, ipv6}
use freenetic.Multiwan.Plan.{Uplink, Member, Policy, is_family}

pub record Traffic : Type 0 where
  pub uplinks : List Uplink
  pub primary : Option Uplink
  pub selected : Option Uplink
  pub current : Option Uplink
  pub backups : List Uplink
  pub backup_online : Option Uplink
  pub hero_state : Text

-- The IPv4 uplinks, or all where there is none.
unfoldable pub candidates : List Uplink → List Uplink
unfolding keep is_family
candidates uplinks = elim (keep (is_family ipv4) uplinks) [ [] ↦ uplinks | u ∷ us ↦ u ∷ us ]

-- `selectedPolicy.members.map(member => member.interface).filter(Boolean)`
unfoldable pub policy_interfaces : List Policy → Text → List Text
unfolding find text_eq
policy_interfaces policies policy_name =
    elim (find (λ (p : Policy). text_eq p.name policy_name) policies) [
      | none ↦ []
      | some p ↦ not_empty (map (λ (m : Member). m.interface) p.members)
    ]
  where
    not_empty : List Text → List Text
    not_empty [] = []
    not_empty ([] ∷ names) = not_empty names
    not_empty ((c ∷ name) ∷ names) = (c ∷ name) ∷ not_empty names

unfoldable pub has_role : List Text → Uplink → Bool
unfolding lower text_eq some_of
has_role interfaces u =
    let name = lower u.name in
    let scope = lower u.scope in
    (text_eq name (codes "wan") || text_eq name (codes "wanb"))
    || ((text_eq scope (codes "ethernet-port")
          || (text_eq scope (codes "wifi-uplink") || text_eq scope (codes "modem-uplink")))
        || some_of (text_eq u.name) interfaces)

unfoldable pub scoped : List Text → List Uplink → List Uplink
unfolding keep has_role
scoped interfaces us = elim (keep (has_role interfaces) us) [ [] ↦ us | v ∷ vs ↦ v ∷ vs ]

-- The first uplink that passes the test, and the others: `uplink !== primary` compares objects.
unfoldable pub take_out : (Uplink → Bool) → List Uplink → Option (Uplink × List Uplink)
take_out test [] = none
take_out test (u ∷ us) = if test u then some (u, us) else behind (take_out test us)
  where
    behind : Option (Uplink × List Uplink) → Option (Uplink × List Uplink)
    behind none = none
    behind (some (v, vs)) = some (v, u ∷ vs)

-- The primary uplink and the backups.
unfoldable pub split_primary : List Uplink → Option (Uplink × List Uplink)
unfolding take_out lower text_eq
split_primary us =
    or_else (take_out (λ u. text_eq (lower u.name) (codes "wan")) us) (take_out (λ _. true) us)

unfoldable pub named_uplinks : List Uplink → List Text → List Uplink
unfolding find text_eq
named_uplinks ordered [] = []
named_uplinks ordered (name ∷ names) =
    let rest = named_uplinks ordered names in
    elim (find (λ (u : Uplink). text_eq u.name name) ordered) [ none ↦ rest | some u ↦ u ∷ rest ]

unfoldable pub policy_uplinks : List Text → List Uplink → List Uplink
unfolding named_uplinks
policy_uplinks [] ordered = ordered
policy_uplinks (name ∷ names) ordered = named_uplinks ordered (name ∷ names)

abbrev pub first : List Uplink → Option Uplink
first [] = none
first (u ∷ us) = some u

abbrev pub single_list : Option Uplink → List Uplink
single_list none = []
single_list (some u) = u ∷ []

abbrev pub is_online : Uplink → Bool
is_online u = text_eq u.state (codes "online")

unfoldable pub hero : Option Uplink → Option Uplink → Text
hero (some u) selected = codes "online"
hero none (some u) = u.state
hero none none = codes "unknown"

-- The state from the primary uplink and the backups on.
unfoldable pub traffic_of : Text → List Text → Option Uplink → List Uplink → Traffic
unfolding find policy_uplinks hero text_eq
traffic_of mode interfaces primary backups =
    let ordered = single_list primary ++ backups in
    let by_policy = policy_uplinks interfaces ordered in
    let selected =
      if text_eq mode (codes "single") then or_else (first by_policy) primary else primary in
    let eligible = if text_eq mode (codes "single") then single_list selected else by_policy in
    let current = find is_online eligible in
    record {
      uplinks = ordered;
      primary = primary;
      selected = selected;
      current = current;
      backups = backups;
      backup_online = find is_online backups;
      hero_state = hero current selected;
    }

unfoldable pub build_traffic_state : List Uplink → Text → List Policy → Text → Traffic
unfolding candidates policy_interfaces scoped split_primary traffic_of
build_traffic_state uplinks mode policies policy_name =
    let interfaces = policy_interfaces policies policy_name in
    elim (split_primary (scoped interfaces (candidates uplinks))) [
      | none ↦ traffic_of mode interfaces none []
      | some (primary, backups) ↦ traffic_of mode interfaces (some primary) backups
    ]
