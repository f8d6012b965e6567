-- ===== src/Network/Ipv6.antt =====
-- IPv6 addresses in freenetic-network.js: `parseIpv6Words`, `splitIpv6`, `validIPv6`, `validAddress` and
-- `formatIpv6Words`.
pub mod Runs
pub mod Colons
pub mod Read
pub mod Round
pub mod Words
pub mod Bits
pub mod Masked
mod Tests
pub mod Routes
use freenetic.Base.{
  trim_start, trim_end, lower, ℕ, zero, suc, ◌+◌, ◌-◌, ◌*◌, Bool, true, false, not, ◌&&◌, ◌||◌,
  List, [], ◌∷◌, ◌++◌, map, Option, none, some, ◌==◌, leb, ltb, Text, is_digit, is_alnum,
  is_decimal, digits_value, is_hex, hex_value, to_hex, length, every, some_of, take, drop,
  replicate, if◌then◌else◌,
}
use freenetic.Network.Address.{split_on, valid_ipv4}

-- `indexOf(c)`: the text before the first `c`, and the text behind it if there is one.
unfoldable pub cut_at : ℕ → Text → Text × Option Text
cut_at c [] = ([], none)
cut_at c (d ∷ s) =
    let (before, behind) = cut_at c s in if d == c then ([], some s) else (d ∷ before, behind)

-- `lastIndexOf(c)`: the text up to the last `c`, that included, and the text behind it.
unfoldable pub cut_last : ℕ → Text → Option (Text × Text)
cut_last c [] = none
cut_last c (d ∷ s) = elim (cut_last c s) [
  | some (upto, behind) ↦ some (d ∷ upto, behind)
  | none ↦ if d == c then some (d ∷ [], s) else none
]

-- `address.match(/::/g).length`
unfoldable pub count_doubles : Text → ℕ
count_doubles [] = 0
count_doubles (c ∷ []) = 0
count_doubles (c ∷ d ∷ s) =
    let skip = count_doubles s in
    let step = count_doubles (d ∷ s) in if c == b':' && d == b':' then suc skip else step

-- `address.split('::')` where there is at most one.
unfoldable pub cut_double : Text → Text × Option Text
cut_double [] = ([], none)
cut_double (c ∷ []) = (c ∷ [], none)
cut_double (c ∷ d ∷ s) =
    let (before, behind) = cut_double (d ∷ s) in
    if c == b':' && d == b':' then ([], some s) else (c ∷ before, behind)

-- `/^[0-9a-f]{1,4}$/`
unfoldable pub is_group : Text → Bool
unfolding every
is_group group = leb 1 (length group) && (leb (length group) 4 && every is_hex group)

unfoldable pub parse_half : Text → Option (List ℕ)
unfolding split_on every is_group hex_value
parse_half [] = some []
parse_half (c ∷ s) =
    let (group, groups) = split_on b':' (c ∷ s) in
    if every is_group (group ∷ groups) then some (map (hex_value 0) (group ∷ groups)) else none

-- The octets of an address that `validIPv4` accepts, as two words.
unfoldable pub word_pair : List Text → Text
unfolding to_hex digits_value
word_pair (a ∷ b ∷ c ∷ d ∷ []) =
    to_hex (digits_value 0 a * 256 + digits_value 0 b)
    ++ (b':' ∷ to_hex (digits_value 0 c * 256 + digits_value 0 d))
word_pair _ = []

-- A dotted end is written as two words; null if it is no IPv4 address.
unfoldable pub without_dots : Text → Option Text
unfolding some_of cut_last valid_ipv4 split_on word_pair
without_dots s =
    if some_of (λ c. c == b'.') s
    then elim (cut_last b':' s) [
      | none ↦ none
      | some (upto, tail) ↦
          let (octet, octets) = split_on b'.' tail in
          if valid_ipv4 tail then some (upto ++ word_pair (octet ∷ octets)) else none
    ]
    else some s

unfoldable pub join_halves : List ℕ → List ℕ → Bool → Option (List ℕ)
join_halves left right double =
    let size = length left + length right in
    if double
    then (if leb 8 size then none else some (left ++ (replicate (8 - size) 0 ++ right)))
    else if size == 8
    then some (left ++ right)
    else none

unfoldable pub parse_halves : Text × Option Text → Option (List ℕ)
unfolding parse_half join_halves
parse_halves (left, none) = elim (parse_half left) [ none ↦ none | some l ↦ join_halves l [] false ]
parse_halves (left, some right) = elim (parse_half left) [
  | none ↦ none
  | some l ↦ elim (parse_half right) [ none ↦ none | some r ↦ join_halves l r true ]
]

unfoldable pub parse_colons : Text → Option (List ℕ)
unfolding count_doubles every cut_double parse_halves
parse_colons [] = none
parse_colons (c ∷ s) =
    if leb (count_doubles (c ∷ s)) 1 && every (λ d. is_hex d || d == b':') (c ∷ s)
    then parse_halves (cut_double (c ∷ s))
    else none

unfoldable pub parse_plain : Option Text → Option (List ℕ)
unfolding parse_colons
parse_plain none = none
parse_plain (some address) = parse_colons address

unfoldable pub parse_ipv6_words : Text → Option (List ℕ)
unfolding cut_at lower without_dots parse_plain
parse_ipv6_words address = parse_plain (without_dots (lower (cut_at b'%' address).0))

-- The argument `prefixMode`: true, false or undefined.
pub data PrefixMode : Type 0 where
  required forbidden allowed : PrefixMode

unfoldable pub prefix_fits : PrefixMode → Option Text → Bool
unfolding is_decimal digits_value
prefix_fits required none = false
prefix_fits forbidden (some p) = false
prefix_fits _ none = true
prefix_fits _ (some p) = is_decimal p && leb (digits_value 0 p) 128

unfoldable pub zone_fits : Option Text → Bool
unfolding every
zone_fits none = true
zone_fits (some []) = false
zone_fits (some (c ∷ zone)) =
    every (λ d. is_alnum d || (d == b'_' || (d == b'.' || d == b'-'))) (c ∷ zone)

unfoldable pub split_parts : Text → Option Text → PrefixMode → Option (Text × Option Text)
unfolding prefix_fits cut_at zone_fits parse_ipv6_words
split_parts value prefix mode =
    let (address, zone) = cut_at b'%' value in
    if prefix_fits mode prefix && zone_fits zone
    then elim (parse_ipv6_words address) [ none ↦ none | some _ ↦ some (address, prefix) ]
    else none

unfoldable pub split_ipv6 : Text → PrefixMode → Option (Text × Option Text)
unfolding trim_start trim_end split_on split_parts
split_ipv6 value mode = by_slash (split_on b'/' (trim_end (trim_start value)))
  where
    by_slash : Text × List Text → Option (Text × Option Text)
    by_slash (address, []) = split_parts address none mode
    by_slash (address, prefix ∷ []) = split_parts address (some prefix) mode
    by_slash (address, prefix ∷ more ∷ rest) = none

unfoldable pub valid_ipv6 : Text → PrefixMode → Bool
unfolding split_ipv6
valid_ipv6 value mode = elim (split_ipv6 value mode) [ none ↦ false | some _ ↦ true ]

-- `family === 'ipv4'`
unfoldable pub valid_ipv4_address : Text → Bool → Bool
unfolding split_on valid_ipv4 is_decimal digits_value trim_start trim_end
valid_ipv4_address value allow_prefix = by_slash (split_on b'/' (trim_end (trim_start value)))
  where
    by_slash : Text × List Text → Bool
    by_slash (address, []) = valid_ipv4 address
    by_slash (address, prefix ∷ []) =
        allow_prefix
        && (valid_ipv4 address && (is_decimal prefix && leb (digits_value 0 prefix) 32))
    by_slash (address, prefix ∷ more ∷ rest) = false

unfoldable pub valid_address : Text → Bool → Bool → Bool
unfolding valid_ipv4_address valid_ipv6
valid_address value ipv4 allow_prefix =
    if ipv4
    then valid_ipv4_address value allow_prefix
    else valid_ipv6 value (if allow_prefix then allowed else forbidden)

-- The zeros at the start.
unfoldable pub zero_run : List ℕ → ℕ
zero_run [] = 0
zero_run (zero ∷ ws) = suc (zero_run ws)
zero_run (suc w ∷ ws) = 0

-- `bestStart`, and `bestLength`.
pub record Run : Type 0 where
  pub start : ℕ
  pub size : ℕ

-- The loop from `start` on, where `words` are the words from there on; one round for each word is enough.
unfoldable pub best_run : ℕ → ℕ → List ℕ → Run → Run
unfolding zero_run
best_run zero start words best = best
best_run (suc n) start [] best = best
best_run (suc n) start (suc w ∷ words) best = best_run n (start + 1) words best
best_run (suc n) start (zero ∷ words) best =
    let run = suc (zero_run words) in
    best_run n (start + run) (drop run (zero ∷ words))
      (if ltb best.size run then record { start = start; size = run } else best)

-- `parts.join(':')`
unfoldable pub join_colons : List Text → Text
join_colons [] = []
join_colons (p ∷ []) = p
join_colons (p ∷ q ∷ ps) = p ++ (b':' ∷ join_colons (q ∷ ps))

unfoldable pub format_ipv6_words : List ℕ → Text
unfolding best_run join_colons to_hex
format_ipv6_words words =
    let best = best_run (length words) 0 words (record { start = 0; size = 0 }) in
    let parts = map to_hex words in
    if ltb best.size 2
    then join_colons parts
    else join_colons (take best.start parts)
      ++ (b':' ∷ b':' ∷ join_colons (drop (best.start + best.size) parts))
