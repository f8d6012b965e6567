-- ===== src/Dashboard/Clients/Arp.antt =====
-- The addresses of freenetic-dashboard-data.js and its reader of the ARP table.
use freenetic.Base.{
  ℕ, zero, suc, ◌-◌, ◌*◌, ◌/◌, ◌%◌, ◌^◌, bit_or, Bool, false, not, ◌&&◌, List, [], ◌∷◌, Option,
  none, some, ◌==◌, leb, Text, codes, text_eq, upper, lower, trim_start, trim_end, number_of,
  some_of, is_hex, hex_value, length, get_or, if◌then◌else◌,
}
use freenetic.Network.Address.{split_on}
use freenetic.Network.Ipv6.Routes.{IfaceAddress}
use freenetic.Connections.Fields.{trim, split_spaces, non_empty}
use freenetic.Multiwan.Values.{Value, missing, text, texts}

unfoldable pub upper_string : Value → Text
unfolding upper trim_start trim_end
upper_string missing = []
upper_string (text s) = upper (trim s)
upper_string (texts []) = []
upper_string (texts (s ∷ ss)) = upper (trim s)

-- A part of an address as `<<` and `|` take it: what is no number is 0. Parts with a sign or a fraction,
-- which `<<` would cut, are read as 0 too: no IPv4 address of the router has any.
unfoldable pub part_value : Text → ℕ
unfolding number_of
part_value s = elim (number_of s) [ none ↦ 0 | some n ↦ n ]

-- `((p[0] << 24) | (p[1] << 16) | (p[2] << 8) | p[3]) >>> 0`
unfoldable pub ip2int : Text → Option ℕ
unfolding split_on part_value
ip2int ip = let (part, parts) = split_on b'.' ip in of_parts (part ∷ parts)
  where
    of_parts : List Text → Option ℕ
    of_parts (a ∷ b ∷ c ∷ d ∷ []) = some (
        bit_or
          (bit_or (bit_or (part_value a * 2 ^ 24 % 2 ^ 32) (part_value b * 2 ^ 16 % 2 ^ 32))
            (part_value c * 2 ^ 8 % 2 ^ 32))
          (part_value d % 2 ^ 32))
    of_parts _ = none

-- `lan.mask || 24`
unfoldable pub lan_bits : Option ℕ → ℕ
lan_bits none = 24
lan_bits (some zero) = 24
lan_bits (some (suc n)) = suc n

unfoldable pub same_network : ℕ → Option ℕ → Option ℕ → Bool
same_network bits (some a) (some b) =
    let shift = if leb 32 bits then 0 else 32 - bits in a / 2 ^ shift == b / 2 ^ shift
same_network bits _ _ = false

unfoldable pub ip_in_lan : Text → Option IfaceAddress → Bool
unfolding some_of ip2int lan_bits same_network
ip_in_lan [] lan = false
ip_in_lan (c ∷ ip) none = false
ip_in_lan (c ∷ ip) (some lan) = elim (lan.address) [
  | none ↦ false
  | some [] ↦ false
  | some (d ∷ address) ↦
      not (some_of (λ x. x == b':') (c ∷ ip))
      && same_network (lan_bits lan.mask) (ip2int (c ∷ ip)) (ip2int (d ∷ address))
]

-- `line.trim().split(/\s+/)`
unfoldable pub columns_of : Text → List Text
unfolding trim_start trim_end split_spaces non_empty
columns_of line = let (piece, pieces) = split_spaces (trim line) in non_empty (piece ∷ pieces)

-- The lines of /proc/net/arp, less the first.
unfoldable pub arp_lines : Text → List Text
unfolding split_on
arp_lines table = (split_on 10 table).1

-- `map[address] = mac`
unfoldable pub set_key : Text → Text → List (Text × Text) → List (Text × Text)
unfolding text_eq
set_key key value [] = (key, value) ∷ []
set_key key value ((k, v) ∷ entries) =
    let rest = set_key key value entries in
    if text_eq k key then (k, value) ∷ entries else (k, v) ∷ rest

unfoldable pub arp_table : List Text → List (Text × Text) → List (Text × Text)
unfolding columns_of set_key text_eq
arp_table [] table = table
arp_table (line ∷ lines) table =
    let columns = columns_of line in
    let mac = get_or columns 3 [] in
    arp_table lines (
      if leb 4 (length columns) && not (text_eq mac (codes "00:00:00:00:00:00"))
      then set_key (get_or columns 0 []) mac table
      else table)

-- `parseInt(flags, 16) & 0x2`: the hexadecimal digits at the start, behind `0x` or not.
unfoldable pub hex_prefix : ℕ → Text → ℕ
unfolding hex_value
hex_prefix n [] = n
hex_prefix n (c ∷ s) =
    let next = hex_prefix (hex_value n (c ∷ [])) s in if is_hex c then next else n

unfoldable pub parse_hex : Text → ℕ
unfolding hex_prefix lower
parse_hex s = by_form (lower s)
  where
    by_form : Text → ℕ
    by_form (c ∷ d ∷ t) =
        if c == b'0' && d == b'x' then hex_prefix 0 t else hex_prefix 0 (c ∷ d ∷ t)
    by_form s = hex_prefix 0 s

unfoldable pub active_arp_macs : List Text → List Text
unfolding columns_of upper trim_start trim_end parse_hex
active_arp_macs [] = []
active_arp_macs (line ∷ lines) =
    let columns = columns_of line in
    let mac = if leb 4 (length columns) then upper (trim (get_or columns 3 [])) else [] in
    let rest = active_arp_macs lines in
    elim mac [
      | [] ↦ rest
      | c ∷ s ↦ (if parse_hex (get_or columns 2 []) / 2 % 2 == 1 then (c ∷ s) ∷ rest else rest)
    ]
