-- ===== src/Multiwan/Detect.antt =====
-- `detectMode`, `defaultRuleMatches` and `detectDefaultMode` of freenetic-multiwan-data.js: the mode
-- that the rules of the configuration show.
pub mod Planned
use freenetic.Base.{
  ℕ, Bool, true, false, ◌&&◌, ◌||◌, List, [], ◌∷◌, ◌++◌, Option, none, some, or_else, Text, codes,
  text_eq, starts_with, lower, keep, some_of, if◌then◌else◌,
}
use freenetic.Multiwan.Values.{
  is_text, Value, missing, text, texts, Section, option, section_name, enabled_value, string_of,
  Family, ipv4, ipv6,
}
use freenetic.Multiwan.Plan.{Uplink, Mode, single, failover, balance, mode_or, is_family}

-- The mode that a policy's name in lower case shows.
unfoldable pub policy_mode : Text → Option Mode
unfolding text_eq starts_with
policy_mode policy =
    if starts_with policy (codes "fn_b") || text_eq policy (codes "balanced")
    then some balance
    else if starts_with policy (codes "fn_f")
        || (text_eq policy (codes "wan_wanb") || text_eq policy (codes "wanb_wan"))
    then some failover
    else if starts_with policy (codes "fn_s") || text_eq policy (codes "wan_only")
    then some single
    else none

-- The mode of a rule; an empty name shows none.
unfoldable pub rule_mode : Section → Option Mode
unfolding option string_of lower
rule_mode rule = policy_mode (lower (string_of (option (codes "use_policy") rule)))

-- The array `modes`.
unfoldable pub rule_modes : List Section → List Mode
rule_modes [] = []
rule_modes (rule ∷ rules) = elim (rule_mode rule) [
  | none ↦ rule_modes rules
  | some mode ↦ mode ∷ rule_modes rules
]

unfoldable pub same_mode : Mode → Mode → Bool
same_mode single single = true
same_mode failover failover = true
same_mode balance balance = true
same_mode _ _ = false

unfoldable pub detect_mode : List Section → Text → Mode
unfolding some_of
detect_mode rules fallback =
    let modes = rule_modes rules in
    if some_of (same_mode balance) modes
    then balance
    else if some_of (same_mode failover) modes
    then failover
    else if some_of (same_mode single) modes
    then single
    else mode_or single fallback

abbrev destination : Family → Text
destination ipv6 = codes "::/0"
destination ipv4 = codes "0.0.0.0/0"

abbrev suffix : Family → Text
suffix ipv6 = codes "v6"
suffix ipv4 = codes "v4"

abbrev is_name : Option Text → Text → Bool
is_name (some s) t = text_eq s t
is_name none t = false

unfoldable pub default_rule_matches : Section → Family → Bool
unfolding option section_name text_eq
default_rule_matches rule family =
    let name = section_name rule in
    is_name name (codes "default_rule_" ++ suffix family)
    || (is_name name (codes "fn_default_rule_" ++ suffix family)
        || (is_text (option (codes "freenetic_managed") rule) (codes "1")
            && is_text (option (codes "dest_ip") rule) (destination family)))

-- The family whose mode is shown: IPv4, where an enabled uplink has it.
unfoldable pub shown_family : List Uplink → Option Family
unfolding keep some_of
shown_family uplinks =
    let active = keep (λ (u : Uplink). u.enabled) uplinks in
    if some_of (is_family ipv4) active
    then some ipv4
    else if some_of (is_family ipv6) active
    then some ipv6
    else none

-- The enabled default rules of the family.
unfoldable pub default_rules : List Section → Option Family → List Section
unfolding option
default_rules rules none = []
default_rules rules (some family) =
    keep (λ rule. default_rule_matches rule family && enabled_value (option (codes "enabled") rule))
      rules

unfoldable pub detect_default_mode : List Section → List Uplink → Text → Mode
detect_default_mode rules uplinks fallback =
    detect_mode (default_rules rules (shown_family uplinks)) fallback
