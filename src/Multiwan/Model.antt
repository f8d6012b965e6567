-- ===== src/Multiwan/Model.antt =====
-- `buildModel` of freenetic-multiwan-data.js: the model that the views show.
-- A section without a name is looked up as `undefined`, as the source's objects do. Names that every
-- object inherits (`constructor`) are left out: the objects are lists of the keys that were set.
pub mod Members
pub mod Least
use freenetic.Base.{
  ℕ, zero, suc, ◌+◌, ◌-◌, Bool, true, false, not, ◌&&◌, ◌||◌, List, [], ◌∷◌, ◌++◌, map, Option,
  none, some, or_else, Text, codes, text_eq, trim_start, trim_end, length, keep, find, some_of, leb,
  ltb, if◌then◌else◌,
}
use freenetic.Multiwan.Values.{
  Value, missing, text, texts, Section, option, list_value, section_name, enabled_value,
  number_value, string_of, family_value, Family, ℤ, pos, negsuc,
}
use freenetic.Multiwan.Metric.{Source, normalize_sections, is_named}
use freenetic.Multiwan.Runtime.{
  RuntimeEntry, RuntimeSource, MwanEntry, MwanSource, PackageSource, PackageState, State, online,
  offline, disabled, unknown, normalize_runtime, find_runtime, runtime_state,
  normalize_mwan_runtime, mwan_entry, mwan_runtime_state, package_states, package_state,
  package_installed, package_available,
}
use freenetic.Multiwan.Model.Members.{
  ModelMember, value_or, key_of, name_or_empty, read_members, members_of, member_named, integer_le,
  add, present, least, total_weight,
}

-- The configuration's four lists of sections; `config.interfaces || config.interface` is one source.
pub record Config : Type 0 where
  pub interfaces : Source
  pub members : Source
  pub policies : Source
  pub rules : Source

pub record ModelUplink : Type 0 where
  pub name : Text
  pub label : Value
  pub scope : Value
  pub device : Value
  pub proto : Value
  pub family : Family
  pub enabled : Bool
  pub state : State
  pub up : Bool
  pub track_method : Value
  pub track_ips : List Text
  pub tracking : Text
  pub initial_state : Value
  pub members : List ModelMember
  pub metric : Option ℤ
  pub weight : Option ℤ

pub record ModelPolicy : Type 0 where
  pub name : Text
  pub label : Value
  pub members : List ModelMember
  pub rule_count : ℕ
  pub last_resort : Value

pub record Summary : Type 0 where
  pub total : ℕ
  pub online : ℕ
  pub offline : ℕ
  pub disabled : ℕ
  pub policy_count : ℕ
  pub rule_count : ℕ

-- `installed` and `available`
pub record PackageFlags : Type 0 where
  pub installed : Bool
  pub available : Bool

pub record Model : Type 0 where
  pub ready : Bool
  pub mwan3 : PackageFlags
  pub luci : PackageFlags
  pub uplinks : List ModelUplink
  pub policies : List ModelPolicy
  pub summary : Summary

unfoldable pub device_value : Option RuntimeEntry → Value
device_value none = missing
device_value (some e) = value_or (text_value e.l3_device) (text_value e.device)
  where
    text_value : Option Text → Value
    text_value none = missing
    text_value (some s) = text s

unfoldable pub tracking_of : Option MwanEntry → Text
tracking_of none = []
tracking_of (some e) = e.tracking

-- The state of an uplink: disabled, else what mwan3 says, else what netifd says.
unfoldable pub uplink_state : Bool → Option MwanEntry → Option RuntimeEntry → State
unfolding mwan_runtime_state runtime_state
uplink_state enabled mwan entry =
    if enabled
    then elim (mwan_runtime_state mwan) [ some s ↦ s | none ↦ runtime_state entry ]
    else disabled

unfoldable pub first_named : Option Text → List Section → Section
unfolding find is_named
first_named none sections = elim (find (λ s. not_named (section_name s)) sections) [
  | none ↦ []
  | some s ↦ s
]
  where
    not_named : Option Text → Bool
    not_named none = true
    not_named (some name) = false
first_named (some name) sections = elim (find (is_named name) sections) [ none ↦ [] | some s ↦ s ]

abbrev pub same_state : State → State → Bool
same_state online online = true
same_state offline offline = true
same_state disabled disabled = true
same_state unknown unknown = true
same_state _ _ = false

unfoldable pub uplink_of :
    List ModelMember
    → List (Option RuntimeEntry)
    → List (Text × MwanEntry)
    → Section
    → Section
    → ModelUplink
unfolding section_name find_runtime mwan_entry key_of members_of enabled_value option uplink_state
    value_or device_value family_value list_value tracking_of least present total_weight
    name_or_empty
uplink_of all_members runtime mwan network section =
    let name = section_name section in
    let entry = find_runtime runtime name in
    let mwan_of_name = mwan_entry mwan (key_of name) in
    let members = members_of (key_of name) all_members in
    let enabled = enabled_value (option (codes "enabled") section) in
    let proto = value_or (option (codes "proto") network) (option (codes "proto") section) in
    record {
      name = name_or_empty name;
      label = value_or (option (codes "label") section) (
          value_or (option (codes "description") section) (
            value_or (option (codes "label") network)
              (value_or (text (name_or_empty name)) (text (0x2013 ∷ [])))));
      scope =
          value_or (option (codes "freenetic_scope") network)
            (value_or (option (codes "freenetic_scope") section) (text []));
      device = value_or (device_value entry) (
          value_or (option (codes "device") network)
            (value_or (option (codes "ifname") network) (text [])));
      proto = value_or proto (text []);
      family = family_value (option (codes "family") section) name proto;
      enabled = enabled;
      state = uplink_state enabled mwan_of_name entry;
      up = same_state (uplink_state enabled mwan_of_name entry) online;
      track_method = value_or (option (codes "track_method") section) (text []);
      track_ips = list_value (option (codes "track_ip") section);
      tracking = tracking_of mwan_of_name;
      initial_state = value_or (option (codes "initial_state") section) (text []);
      members = members;
      metric = least (present (map (λ (m : ModelMember). m.metric) members));
      weight = total_weight (present (map (λ (m : ModelMember). m.weight) members));
    }

unfoldable pub used_member : List ModelMember → Text → ModelMember
unfolding member_named
used_member members name = elim (member_named name members) [
  | none ↦ record { name = name; interface = []; metric = none; weight = none }
  | some m ↦ record m { name = name }
]

-- `listValue(rule.use_policy || rule.policy).indexOf(name) !== -1`
unfoldable pub uses_policy : Option Text → Section → Bool
unfolding some_of text_eq list_value value_or option
uses_policy none rule = false
uses_policy (some name) rule =
    some_of (text_eq name)
      (list_value (value_or (option (codes "use_policy") rule) (option (codes "policy") rule)))

unfoldable pub policy_of : List ModelMember → List Section → Section → ModelPolicy
unfolding section_name name_or_empty value_or option list_value used_member keep uses_policy
policy_of members rules section =
    let name = section_name section in
    record {
      name = name_or_empty name;
      label = value_or (option (codes "label") section) (
          value_or (option (codes "description") section)
            (value_or (text (name_or_empty name)) (text (0x2013 ∷ []))));
      members = map (used_member members) (list_value (option (codes "use_member") section));
      rule_count = length (keep (uses_policy name) rules);
      last_resort = value_or (option (codes "last_resort") section) (text []);
    }

-- `uplinks.filter(item => item.state === state).length`
unfoldable pub count_state : State → List ModelUplink → ℕ
unfolding keep
count_state state us = length (keep (λ (u : ModelUplink). same_state u.state state) us)

unfoldable pub package_flags : PackageState → PackageFlags
unfolding package_installed package_available
package_flags s = record { installed = package_installed s; available = package_available s }

unfoldable pub build_uplinks : Config → Source → RuntimeSource → MwanSource → List ModelUplink
unfolding normalize_sections normalize_runtime normalize_mwan_runtime read_members first_named
    section_name uplink_of
build_uplinks config network runtime mwan =
    let members = read_members (normalize_sections config.members (codes "member")) in
    let networks = normalize_sections network (codes "interface") in
    map
      (λ s.
        uplink_of members (normalize_runtime runtime) (normalize_mwan_runtime mwan)
          (first_named (section_name s) networks) s)
      (normalize_sections config.interfaces (codes "interface"))

unfoldable pub build_model : Config → Source → RuntimeSource → PackageSource → MwanSource → Model
unfolding build_uplinks normalize_sections read_members policy_of package_states package_state
    package_flags package_installed count_state
build_model config network runtime reported mwan =
    let members = read_members (normalize_sections config.members (codes "member")) in
    let rules = normalize_sections config.rules (codes "rule") in
    let uplinks = build_uplinks config network runtime mwan in
    let policies =
      map (policy_of members rules) (normalize_sections config.policies (codes "policy")) in
    let mwan3 = package_state (package_states reported) (codes "mwan3") in
    record {
      ready = package_installed mwan3;
      mwan3 = package_flags mwan3;
      luci = package_flags (package_state (package_states reported) (codes "luci-app-mwan3"));
      uplinks = uplinks;
      policies = policies;
      summary = record {
        total = length uplinks;
        online = count_state online uplinks;
        offline = count_state offline uplinks;
        disabled = count_state disabled uplinks;
        policy_count = length policies;
        rule_count = length rules;
      };
    }
