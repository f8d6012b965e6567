-- ===== src/Network/Guest/Spared.antt =====
-- The operations on the guest network's sections spare the sections that are not Freenetic's.
use freenetic.Base.{not, ◌||◌, inl, inr, List, [], ◌∷◌, Text, codes, Bool-cases, Option-cases}
use freenetic.Multiwan.Values.{text}
use freenetic.Network.Uci.{Uci, Laws}
use freenetic.Network.Guest.{
  has, is_managed, Rule, guest_input_rules, not_a_rule, rule_not_managed, no_zone, zone_not_managed,
  wifi_not_managed, wifi_mismatch, returned, state_of, firewall, wireless, ensure_rule,
  ensure_rules, close_zone, ensure_guest_firewall, remove_rule, remove_rules,
  remove_guest_firewall_rules, wifi_values, ensure_guest_wifi,
}
use freenetic.Network.Guest.Frame.{
  Step-cases, not-false, or_right, Spares, Spares-refl, Spares-trans, Own-Spares, owned,
  set_all-Spares, create-Spares, remove-Only, set-Spares, guard-Spares,
}

module _ {S : Type 0} (uci : Uci S) (laws : Laws uci) where
  ensure_rule-Spares : (rule : Rule) (s : S) → Spares uci laws s (state_of (ensure_rule uci rule s))
  unfolding ensure_rule
  ensure_rule-Spares rule s = elim (Option-cases (uci.get firewall rule.section s)) [
    | inl h ↦
        rw (h, state_of, ensure_rule)
          (create-Spares uci laws firewall (codes "rule") rule.section rule.values s h)
    | inr (existing, h) ↦
        rw (h, state_of, ensure_rule)
          (guard-Spares uci laws (not (has (codes ".type") (codes "rule") existing)) not_a_rule s _
            (λ _. guard-Spares uci laws (not (is_managed existing)) rule_not_managed s _ (λ k.
              set_all-Spares uci laws firewall rule.section rule.values s
                (owned uci laws firewall rule.section s existing h (not-false _ k)))))
  ]

  ensure_rules-Spares :
      (rules : List Rule) (s : S) → Spares uci laws s (state_of (ensure_rules uci rules s))
  unfolding ensure_rules
  ensure_rules-Spares [] s = Spares-refl uci laws s
  ensure_rules-Spares (rule ∷ rules) s =
      let one = ensure_rule-Spares rule s in
      elim (Step-cases (ensure_rule uci rule s)) [
        | inl (s', e) ↦
            rw (e, state_of, ensure_rules)
              (Spares-trans uci laws s s' _ (rw (e, state_of) at one)
                (ensure_rules-Spares rules s'))
        | inr (fault, s', e) ↦ rw (e, state_of, ensure_rules) (rw (e, state_of) at one)
      ]

  -- Whether it returns or throws, `ensureGuestFirewall` leaves every section that is not marked as
  -- Freenetic's, in every configuration, as it was.
  pub ensure_guest_firewall-Spares :
      (s : S) → Spares uci laws s (state_of (ensure_guest_firewall uci s))
  unfolding ensure_guest_firewall
  ensure_guest_firewall-Spares s = elim (Option-cases (uci.get firewall (codes "guest") s)) [
    | inl h ↦ rw (h, state_of, ensure_guest_firewall) (Spares-refl uci laws s)
    | inr (zone, h) ↦
        rw (h, state_of, ensure_guest_firewall)
          (guard-Spares uci laws (not (has (codes ".type") (codes "zone") zone)) no_zone s _ (λ _.
            guard-Spares uci laws (not (is_managed zone)) zone_not_managed s _ (λ k.
              let closed =
                set-Spares uci laws firewall (codes "guest") (codes "input") (text (codes "REJECT"))
                  s (owned uci laws firewall (codes "guest") s zone h (not-false _ k)) in
              Spares-trans uci laws s (close_zone uci s) _ closed
                (ensure_rules-Spares guest_input_rules (close_zone uci s)))))
  ]

  remove_rule-Spares : (rule : Rule) (s : S) → Spares uci laws s (remove_rule uci rule s)
  unfolding remove_rule
  remove_rule-Spares rule s = elim (Option-cases (uci.get firewall rule.section s)) [
    | inl h ↦ rw (h, remove_rule) (Spares-refl uci laws s)
    | inr (existing, h) ↦
        rw (h, remove_rule)
          (elim (Bool-cases (is_managed existing)) [
            | inr k ↦ rw k (Spares-refl uci laws s)
            | inl k ↦ rw k (
                Own-Spares uci laws firewall rule.section s _
                  (owned uci laws firewall rule.section s existing h k)
                  (remove-Only uci laws firewall rule.section s))
          ])
  ]

  remove_rules-Spares : (rules : List Rule) (s : S) → Spares uci laws s (remove_rules uci rules s)
  unfolding remove_rules
  remove_rules-Spares [] s = Spares-refl uci laws s
  remove_rules-Spares (rule ∷ rules) s =
      Spares-trans uci laws s (remove_rule uci rule s) _ (remove_rule-Spares rule s)
        (remove_rules-Spares rules (remove_rule uci rule s))

  ensure_guest_wifi-Spares :
      (section_name radio_name network_name : Text) (s : S)
      → Spares uci laws s (state_of (ensure_guest_wifi uci section_name radio_name network_name s))
  unfolding ensure_guest_wifi
  ensure_guest_wifi-Spares section_name radio_name network_name s =
      elim (Option-cases (uci.get wireless section_name s)) [
        | inl h ↦
            rw (h, state_of, ensure_guest_wifi)
              (create-Spares uci laws wireless (codes "wifi-iface") section_name
                (wifi_values uci radio_name network_name) s h)
        | inr (existing, h) ↦
            rw (h, state_of, ensure_guest_wifi)
              (guard-Spares uci laws
                (not (has (codes ".type") (codes "wifi-iface") existing)
                  || not (is_managed existing))
                wifi_not_managed s _
                (λ k.
                  guard-Spares uci laws
                    (not (has (codes "device") radio_name existing)
                      || (not (has (codes "mode") (codes "ap") existing)
                          || not (has (codes "network") network_name existing)))
                    wifi_mismatch s
                    (returned
                      (uci.set wireless section_name (codes "isolate") (text (codes "1")) s))
                    (λ _.
                      set-Spares uci laws wireless section_name (codes "isolate") (text (codes "1"))
                        s
                        (owned uci laws wireless section_name s existing h
                          (not-false _ (or_right _ (not (is_managed existing)) k))))))
      ]

  -- The same of `removeGuestFirewallRules` and of `ensureGuestWifi`: whatever they do, a section that is
  -- not marked as Freenetic's stays as it was.
  pub guest_operations-Spares :
      (s : S)
      → Spares uci laws s (remove_guest_firewall_rules uci s)
        × ((section_name radio_name network_name : Text)
            → Spares uci laws s
                (state_of (ensure_guest_wifi uci section_name radio_name network_name s)))
  unfolding remove_guest_firewall_rules
  guest_operations-Spares s =
      (remove_rules-Spares guest_input_rules s, (λ n r w. ensure_guest_wifi-Spares n r w s))
