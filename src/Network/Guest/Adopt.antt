-- ===== src/Network/Guest/Adopt.antt =====
-- `adoptLegacySection` and `adoptLegacyGuest` of freenetic-network.js, which mark the sections of earlier
-- versions as Freenetic's.
pub mod Marks
use freenetic.Base.{
  Bool, true, false, not, ◌&&◌, ◌||◌, List, [], ◌∷◌, ◌++◌, Option, none, some, Text, codes, text_eq,
  some_of, if◌then◌else◌,
}
use freenetic.Multiwan.Values.{is_text, Value, missing, text, texts, Section, option, string_of}
use freenetic.Network.Uci.{Uci}
use freenetic.Network.Guest.{
  has, is_managed, Rule, guest_input_rules, firewall, wireless, is_exact_legacy_guest_zone,
}

-- `option` of a rule is that of its table.
abbrev same_option : Text → Rule → Section → Bool
same_option key rule section = has key (string_of (option key rule.values)) section

unfoldable pub is_legacy_rule : Rule → Section → Bool
unfolding has option string_of text_eq
is_legacy_rule rule section =
    same_option (codes "name") rule section
    && (same_option (codes "src") rule section
        && (text_eq (string_of (option (codes "dest_port") section))
              (string_of (option (codes "dest_port") rule.values))
            && (same_option (codes "target") rule section
                && same_option (codes "family") rule section)))

module _ {S : Type 0} (uci : Uci S) where
  -- `uci.set(config, name, 'freenetic_managed', '1')`
  abbrev pub mark : Text → Text → S → S
  mark config name s = uci.set config name (codes "freenetic_managed") (text (codes "1")) s

  unfoldable pub adopt_legacy_section : Text → Text → Text → (Section → Bool) → S → S
  unfolding has is_managed
  adopt_legacy_section config name type_name predicate s = elim (uci.get config name s) [
    | none ↦ s
    | some section ↦
        if has (codes ".type") type_name section && (not (is_managed section) && predicate section)
        then mark config name s
        else s
  ]

  -- The wireless sections of the old guest network: `guest_` and the name of a radio that is there.
  unfoldable pub is_legacy_wifi : S → Section → Bool
  unfolding has is_managed option text_eq some_of
  is_legacy_wifi s section = elim (option (codes "device") section) [
    | text radio ↦
        not (is_managed section)
        && (has (codes ".name") (codes "guest_" ++ radio) section
            && (some_of (has (codes ".name") radio) (uci.sections wireless (codes "wifi-device") s)
                && (has (codes ".type") (codes "wifi-iface") section
                    && (has (codes "mode") (codes "ap") section
                        && (has (codes "network") (codes "guest") section
                            && has (codes "isolate") (codes "1") section)))))
    | _ ↦ false
  ]

  unfoldable pub is_legacy_bridge : Section → Bool
  unfolding has is_managed
  is_legacy_bridge section =
      not (is_managed section)
      && (has (codes "name") (codes "br-guest") section
          && (has (codes "type") (codes "bridge") section
              && has (codes "bridge_empty") (codes "1") section))

  -- `sections.forEach(section => { if (test(section)) mark it })`; the test reads the state of the round.
  unfoldable pub mark_each : Text → (S → Section → Bool) → List Section → S → S
  unfolding option string_of
  mark_each config test [] s = s
  mark_each config test (section ∷ sections) s =
      mark_each config test sections
        (if test s section then mark config (string_of (option (codes ".name") section)) s else s)

  unfoldable pub adopt_rules : List Rule → S → S
  unfolding adopt_legacy_section is_legacy_rule
  adopt_rules [] s = s
  adopt_rules (rule ∷ rules) s =
      adopt_rules rules
        (adopt_legacy_section firewall rule.section (codes "rule") (is_legacy_rule rule) s)

  -- The five sections with fixed names.
  unfoldable pub adopt_named : S → S
  unfolding adopt_legacy_section has is_exact_legacy_guest_zone
  adopt_named s =
      let s1 =
        adopt_legacy_section (codes "network") (codes "guest") (codes "interface")
          (λ x. has (codes "proto") (codes "static") x && has (codes "device") (codes "br-guest") x)
          s in
      let s2 =
        adopt_legacy_section (codes "dhcp") (codes "guest") (codes "dhcp")
          (has (codes "interface") (codes "guest")) s1 in
      let s3 =
        adopt_legacy_section firewall (codes "guest") (codes "zone")
          (is_exact_legacy_guest_zone uci) s2 in
      adopt_legacy_section firewall (codes "guest_wan_fwd") (codes "forwarding")
        (λ x. has (codes "src") (codes "guest") x && has (codes "dest") (codes "wan") x) s3

  unfoldable pub adopt_legacy_guest : S → S
  unfolding mark_each is_legacy_wifi is_legacy_bridge adopt_named adopt_rules
  adopt_legacy_guest s =
      let s1 = mark_each wireless is_legacy_wifi (uci.sections wireless (codes "wifi-iface") s) s in
      let s2 =
        mark_each (codes "network") (λ _ x. is_legacy_bridge x)
          (uci.sections (codes "network") (codes "device") s1) s1 in
      adopt_rules guest_input_rules (adopt_named s2)
