-- ===== src/Network/Guest.antt =====
-- The guest network's sections in freenetic-network.js: `GUEST_INPUT_RULES`, `ensureRule`, `isManaged`,
-- `assertGuestFirewallOwnership`, `ensureGuestWifi`,
-- `ensureGuestFirewall` and `removeGuestFirewallRules`.
pub mod Frame
pub mod Spared
pub mod Values
pub mod Secured
pub mod Removed
pub mod Adopt
use freenetic.Base.{
  Bool, true, false, not, ◌&&◌, ◌||◌, List, [], ◌∷◌, ◌++◌, Option, none, some, Text, codes, text_eq,
  some_of, if◌then◌else◌,
}
use freenetic.Multiwan.Values.{is_text, Value, missing, text, texts, Section, option, string_of}
use freenetic.Network.Uci.{Uci}

unfoldable pub has : Text → Text → Section → Bool
unfolding option text_eq
has key value section = is_text (option key section) value

unfoldable pub is_managed : Section → Bool
unfolding has
is_managed section = has (codes "freenetic_managed") (codes "1") section

pub record Rule : Type 0 where
  pub section : Text
  pub values : List (Text × Value)

abbrev pub dhcp_rule : Rule
dhcp_rule = record {
  section = codes "freenetic_guest_dhcp";
  values =
      (codes "name", text (codes "Allow guest DHCP"))
      ∷ (codes "src", text (codes "guest"))
      ∷ (codes "proto", text (codes "udp"))
      ∷ (codes "dest_port", text (codes "67"))
      ∷ (codes "target", text (codes "ACCEPT"))
      ∷ (codes "family", text (codes "ipv4"))
      ∷ (codes "freenetic_managed", text (codes "1"))
      ∷ [];
}

abbrev pub dns_rule : Rule
dns_rule = record {
  section = codes "freenetic_guest_dns";
  values =
      (codes "name", text (codes "Allow guest DNS"))
      ∷ (codes "src", text (codes "guest"))
      ∷ (codes "proto", texts (codes "tcp" ∷ codes "udp" ∷ []))
      ∷ (codes "dest_port", text (codes "53"))
      ∷ (codes "target", text (codes "ACCEPT"))
      ∷ (codes "family", text (codes "ipv4"))
      ∷ (codes "freenetic_managed", text (codes "1"))
      ∷ [];
}

abbrev pub guest_input_rules : List Rule
guest_input_rules = dhcp_rule ∷ dns_rule ∷ []

-- The errors that are thrown.
pub data Fault : Type 0 where
  not_a_rule rule_not_managed not_guest_zone no_zone zone_not_managed wifi_not_managed
        wifi_mismatch :
      Fault

-- How a call ends: it returns, or it throws; what it changed before it threw stays changed.
pub data Step {ℓ} (S : Type ℓ) : Type ℓ where
  returned : S → Step S
  threw : Fault → S → Step S

abbrev pub state_of {ℓ} : {S : Type ℓ} → Step S → S
state_of (returned s) = s
state_of (threw fault s) = s

abbrev pub firewall : Text
firewall = codes "firewall"

abbrev pub wireless : Text
wireless = codes "wireless"

module _ {S : Type 0} (uci : Uci S) where
  unfoldable pub set_all : Text → Text → List (Text × Value) → S → S
  set_all config name [] s = s
  set_all config name ((key, value) ∷ values) s =
      set_all config name values (uci.set config name key value s)

  unfoldable pub ensure_rule : Rule → S → Step S
  unfolding set_all has is_managed
  ensure_rule rule s = elim (uci.get firewall rule.section s) [
    | none ↦
        returned (
          set_all firewall rule.section rule.values
            (uci.add firewall (codes "rule") rule.section s))
    | some existing ↦
        if not (has (codes ".type") (codes "rule") existing)
        then threw not_a_rule s
        else if not (is_managed existing)
        then threw rule_not_managed s
        else returned (set_all firewall rule.section rule.values s)
  ]

  -- `GUEST_INPUT_RULES.forEach(ensureRule)`
  unfoldable pub ensure_rules : List Rule → S → Step S
  ensure_rules [] s = returned s
  ensure_rules (rule ∷ rules) s = elim (ensure_rule rule s) [
    | threw fault s' ↦ threw fault s'
    | returned s' ↦ ensure_rules rules s'
  ]

  abbrev pub close_zone : S → S
  close_zone s = uci.set firewall (codes "guest") (codes "input") (text (codes "REJECT")) s

  unfoldable pub ensure_guest_firewall : S → Step S
  unfolding has is_managed
  ensure_guest_firewall s = elim (uci.get firewall (codes "guest") s) [
    | none ↦ threw no_zone s
    | some zone ↦
        if not (has (codes ".type") (codes "zone") zone)
        then threw no_zone s
        else if not (is_managed zone)
        then threw zone_not_managed s
        else ensure_rules guest_input_rules (close_zone s)
  ]

  unfoldable pub remove_rule : Rule → S → S
  unfolding has is_managed
  remove_rule rule s = elim (uci.get firewall rule.section s) [
    | none ↦ s
    | some existing ↦ if is_managed existing then uci.remove firewall rule.section s else s
  ]

  unfoldable pub remove_rules : List Rule → S → S
  remove_rules [] s = s
  remove_rules (rule ∷ rules) s = remove_rules rules (remove_rule rule s)

  unfoldable pub remove_guest_firewall_rules : S → S
  remove_guest_firewall_rules s = remove_rules guest_input_rules s

  -- What `ensureGuestWifi` gives a new section.
  abbrev pub wifi_values : Text → Text → List (Text × Value)
  wifi_values radio_name network_name =
      (codes "device", text radio_name)
      ∷ (codes "mode", text (codes "ap"))
      ∷ (codes "network", text network_name)
      ∷ (codes "isolate", text (codes "1"))
      ∷ (codes "freenetic_managed", text (codes "1"))
      ∷ []

  -- It returns the section's name, which is its argument.
  unfoldable pub ensure_guest_wifi : Text → Text → Text → S → Step S
  unfolding set_all has is_managed
  ensure_guest_wifi section_name radio_name network_name s =
      elim (uci.get wireless section_name s) [
        | none ↦ returned (
            set_all wireless section_name (wifi_values radio_name network_name)
              (uci.add wireless (codes "wifi-iface") section_name s))
        | some existing ↦
            if not (has (codes ".type") (codes "wifi-iface") existing) || not (is_managed existing)
            then threw wifi_not_managed s
            else if not (has (codes "device") radio_name existing)
                || (not (has (codes "mode") (codes "ap") existing)
                    || not (has (codes "network") network_name existing))
            then threw wifi_mismatch s
            else returned (uci.set wireless section_name (codes "isolate") (text (codes "1")) s)
      ]

  abbrev pub is_guest : Value → Bool
  is_guest (texts (x ∷ [])) = text_eq x (codes "guest")
  is_guest (texts _) = false
  is_guest v = is_text v (codes "guest")

  unfoldable pub is_exact_legacy_guest_zone : Section → Bool
  unfolding has text_eq option
  is_exact_legacy_guest_zone section =
      has (codes ".type") (codes "zone") section
      && (has (codes "name") (codes "guest") section && is_guest (option (codes "network") section))

  unfoldable pub assert_guest_firewall_ownership : S → Step S
  unfolding is_managed is_exact_legacy_guest_zone
  assert_guest_firewall_ownership s = elim (uci.get firewall (codes "guest") s) [
    | none ↦ returned s
    | some zone ↦
        if not (is_managed zone) && not (is_exact_legacy_guest_zone zone)
        then threw not_guest_zone s
        else returned s
  ]
