-- ===== src/Network/Tests.antt =====
-- The guest network's operations on a store in memory.
use freenetic.Base.{◌≡◌, ◌≢◌, refl, [], ◌∷◌, Text, codes, All, text_eq}
use freenetic.Multiwan.Values.{text, option}
use freenetic.Network.Uci.{same_place}
use freenetic.Network.Store.{Store, store, store-Laws, lookup, assign}
use freenetic.Network.Guest.{
  returned, state_of, has, is_managed, set_all, ensure_rule, ensure_rules, guest_input_rules,
  dhcp_rule, dns_rule, ensure_guest_firewall, ensure_guest_wifi, remove_guest_firewall_rules,
}
use freenetic.Network.Guest.Frame.{Spares}
use freenetic.Network.Guest.Spared.{ensure_guest_firewall-Spares, guest_operations-Spares}
use freenetic.Network.Guest.Secured.{Secured, ensure_guest_firewall-Secured}
use freenetic.Network.Guest.Adopt.{adopt_legacy_guest}
use freenetic.Network.Guest.Adopt.Marks.{Marks, adopt_legacy_guest-Marks}
use freenetic.Network.Guest.Removed.{
  Released, remove_guest_firewall_rules-Released, ensure_guest_firewall-Secured_again,
}

-- A guest zone of Freenetic's, and a user's own rule.
abbrev router : Store
router =
    (
      codes "firewall",
      codes "guest",
      (codes ".type", text (codes "zone")) ∷ (codes "freenetic_managed", text (codes "1")) ∷ [],
    )
    ∷ (
      codes "firewall",
      codes "mine",
      (codes ".type", text (codes "rule")) ∷ (codes "target", text (codes "DROP")) ∷ [],
    )
    ∷ []

abbrev secured : Store
secured = state_of (ensure_guest_firewall store router)

router_run : ensure_guest_firewall store router ≡ returned secured
unfolding ensure_guest_firewall ensure_rules ensure_rule set_all has is_managed lookup assign option
    same_place text_eq
router_run = refl

ensure_guest_firewall-Spares_example :
    Spares store store-Laws router (state_of (ensure_guest_firewall store router))
ensure_guest_firewall-Spares_example = ensure_guest_firewall-Spares store store-Laws router

guest_operations-Spares_example :
    Spares store store-Laws router (remove_guest_firewall_rules store router)
    × ((section_name radio_name network_name : Text)
        → Spares store store-Laws router
            (state_of (ensure_guest_wifi store section_name radio_name network_name router)))
guest_operations-Spares_example = guest_operations-Spares store store-Laws router

ensure_guest_firewall-Secured_example : Secured store store-Laws secured
ensure_guest_firewall-Secured_example =
    ensure_guest_firewall-Secured store store-Laws router secured router_run

ensure_guest_firewall-Secured_again_example :
    (s2 : Store) × (ensure_guest_firewall store secured ≡ returned s2) × Secured store store-Laws s2
ensure_guest_firewall-Secured_again_example =
    ensure_guest_firewall-Secured_again store store-Laws router secured router_run

remove_guest_firewall_rules-Released_example :
    All
      (λ rule. Released store store-Laws rule (remove_guest_firewall_rules store router))
      guest_input_rules
    × ((n : Text)
        → n ≢ dhcp_rule.section
        → n ≢ dns_rule.section
        → lookup (codes "firewall") n (remove_guest_firewall_rules store router)
          ≡ lookup (codes "firewall") n router)
remove_guest_firewall_rules-Released_example =
    remove_guest_firewall_rules-Released store store-Laws router

adopt_legacy_guest-Marks_example : Marks store store-Laws router (adopt_legacy_guest store router)
adopt_legacy_guest-Marks_example = adopt_legacy_guest-Marks store store-Laws router
