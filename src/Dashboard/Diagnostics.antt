-- ===== src/Dashboard/Diagnostics.antt =====
-- freenetic-diagnostics.js: interfaces for the diagnostics page, and the target of a probe.
use freenetic.Base.{
  ℕ, Bool, true, false, not, ◌&&◌, ◌||◌, List, [], ◌∷◌, ◌++◌, map, Option, none, some, ◌==◌, leb,
  Text, codes, text_eq, is_alnum, is_word, is_decimal, every, some_of, find, keep, decimal,
  trim_start, trim_end, length, starts_with, drop, if◌then◌else◌,
}
use freenetic.Connections.Fields.{trim}
use freenetic.Network.Ipv6.Routes.{IfaceAddress}

pub record Route : Type 0 where
  pub target : Text
  pub mask : Option ℕ
  pub nexthop : Text

-- An interface as netifd reports it; a text that is missing is empty.
pub record Report : Type 0 where
  pub interface : Text
  pub up : Bool
  pub proto : Text
  pub l3_device : Text
  pub device : Text
  pub ipv4_address : List IfaceAddress
  pub ipv6_address : List IfaceAddress
  pub route : List Route
  pub dns_server : List Text

pub record Shown : Type 0 where
  pub name : Text
  pub up : Bool
  pub protocol : Text
  pub device : Text
  pub addresses : List Text
  pub gateway : Text
  pub dns : List Text

unfoldable pub is_zero_mask : Option ℕ → Bool
is_zero_mask none = false
is_zero_mask (some n) = n == 0

unfoldable pub is_default_route : Route → Bool
unfolding is_zero_mask text_eq
is_default_route r =
    is_zero_mask r.mask && (text_eq r.target (codes "0.0.0.0") || text_eq r.target (codes "::"))

-- An address with its mask, where it has one.
unfoldable pub address_text : Text → Option ℕ → Text
unfolding decimal
address_text address none = address
address_text address (some mask) = address ++ (b'/' ∷ decimal mask)

unfoldable pub address_list : List IfaceAddress → List Text
unfolding address_text
address_list [] = []
address_list (a ∷ rest) = elim (a.address) [
  | none ↦ address_list rest
  | some [] ↦ address_list rest
  | some (c ∷ s) ↦ address_text (c ∷ s) a.mask ∷ address_list rest
]

-- `value || '–'`
abbrev pub or_dash : Text → Text
or_dash [] = 0x2013 ∷ []
or_dash (c ∷ s) = c ∷ s

unfoldable pub gateway_of : Option Route → Text
gateway_of none = []
gateway_of (some r) = r.nexthop

-- `filter(Boolean)`
unfoldable pub not_empty : Text → Bool
not_empty [] = false
not_empty (c ∷ s) = true

unfoldable pub summarize_interface : Report → Shown
unfolding find is_default_route address_list gateway_of keep not_empty
summarize_interface i = record {
  name = or_dash i.interface;
  up = i.up;
  protocol = or_dash i.proto;
  device = elim (i.l3_device) [ [] ↦ or_dash i.device | c ∷ s ↦ c ∷ s ];
  addresses = address_list (i.ipv4_address ++ i.ipv6_address);
  gateway = gateway_of (find is_default_route i.route);
  dns = keep not_empty i.dns_server;
}

-- `/^wan(?:\d+|_\w+)?$/`
unfoldable pub is_wan : Text → Bool
unfolding starts_with is_decimal every
is_wan name = starts_with name (codes "wan") && by_suffix (drop 3 name)
  where
    by_suffix : Text → Bool
    by_suffix [] = true
    by_suffix (c ∷ []) = is_decimal (c ∷ [])
    by_suffix (c ∷ d ∷ s) = is_decimal (c ∷ d ∷ s) || (c == b'_' && every is_word (d ∷ s))

-- The interfaces with a default route, or, where there is none, those that are named like one.
unfoldable pub uplinks_of : List Report → List Report
unfolding keep some_of is_default_route is_wan
uplinks_of interfaces = elim (keep (λ (i : Report). some_of is_default_route i.route) interfaces) [
  | [] ↦ keep (λ (i : Report). is_wan i.interface) interfaces
  | i ∷ is ↦ i ∷ is
]

unfoldable pub summarize_interfaces : List Report → List Shown
unfolding uplinks_of summarize_interface
summarize_interfaces interfaces = map summarize_interface (uplinks_of interfaces)

unfoldable pub is_target : Text → Bool
unfolding every
is_target [] = false
is_target (c ∷ s) =
    leb (length (c ∷ s)) 253
    && (not (c == b'-')
        && every (λ d. is_alnum d || (d == b'.' || (d == b'_' || (d == b':' || d == b'-'))))
            (c ∷ s))

unfoldable pub normalize_target : Text → Option Text
unfolding trim_start trim_end is_target
normalize_target value = if is_target (trim value) then some (trim value) else none
