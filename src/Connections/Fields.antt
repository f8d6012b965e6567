-- ===== src/Connections/Fields.antt =====
-- Values of connections in freenetic-connections-core.js: lists, section names, the checks of keys,
-- addresses, hosts and ports, and endpoints. A value is given as the text that `String(value || '')` is.

use freenetic.Base.{
  trim_start, trim_end, is_space, ℕ, zero, suc, ◌+◌, ◌-◌, ◌*◌, ◌/◌, ◌%◌, ◌^◌, Bool, true, false,
  not, ◌&&◌, ◌||◌, List, [], ◌∷◌, ◌++◌, Option, none, some, ◌==◌, leb, ltb, Text, codes, text_eq,
  is_alnum, is_decimal, digits_value, length, every, some_of, take, drop, if◌then◌else◌,
}
use freenetic.Network.Ipv6
use freenetic.Network.Ipv6.{cut_at}

abbrev pub trim : Text → Text
trim s = trim_end (trim_start s)

-- `split(/\s+/)`, but at each character of white space: the pieces that are not empty are the same.
unfoldable pub split_spaces : Text → Text × List Text
unfolding is_space
split_spaces [] = ([], [])
split_spaces (c ∷ s) =
    let (piece, pieces) = split_spaces s in
    if is_space c then ([], piece ∷ pieces) else (c ∷ piece, pieces)

-- `filter(Boolean)`
unfoldable pub non_empty : List Text → List Text
non_empty [] = []
non_empty ([] ∷ ps) = non_empty ps
non_empty ((c ∷ p) ∷ ps) = (c ∷ p) ∷ non_empty ps

-- `replace(/[\r\n,]+/g, ' ')`, where a run of spaces is as good as one.
unfoldable pub spaced : Text → Text
spaced [] = []
spaced (c ∷ s) = (if c == 13 || (c == 10 || c == b',') then 32 else c) ∷ spaced s

-- No piece has white space that `trim` would take off.
unfoldable pub parse_list : Text → List Text
unfolding spaced split_spaces non_empty
parse_list value = let (piece, pieces) = split_spaces (spaced value) in non_empty (piece ∷ pieces)

unfoldable pub list_text : List Text → Text
list_text [] = []
list_text (v ∷ []) = v
list_text (v ∷ w ∷ vs) = v ++ (b',' ∷ 32 ∷ list_text (w ∷ vs))

-- The hash in 32 bits: `(hash << 5) - hash` is 31 times the hash.
unfoldable pub hash_of : ℕ → Text → ℕ
hash_of hash [] = hash
hash_of hash (c ∷ s) = hash_of ((hash * 31 + c) % 2 ^ 32) s

abbrev pub digit36 : ℕ → ℕ
digit36 n = if ltb n 10 then b'0' + n else b'a' + (n - 10)

unfoldable pub base36_of : ℕ → ℕ → Text
base36_of zero n = []
base36_of (suc fuel) n =
    let rest = base36_of fuel (n / 36) in
    if ltb n 36 then digit36 n ∷ [] else rest ++ digit36 (n % 36) ∷ []

-- `toString(36)` of a number of 32 bits, which has at most 7 digits.
unfoldable pub section_token : Text → Text
unfolding hash_of base36_of
section_token value = elim (take 7 (base36_of 7 (hash_of 0 value))) [
  | [] ↦ codes "default"
  | c ∷ s ↦ c ∷ s
]

unfoldable pub managed_ipsec_section : Text → Text → Text
unfolding section_token
managed_ipsec_section prefix value = prefix ++ section_token value

unfoldable pub is_secret : ℕ → Bool
is_secret c = not (c == 0 || (c == 13 || (c == 10 || (c == b'"' || c == 92))))

unfoldable pub valid_secret : Text → Bool → Bool
unfolding is_secret every
valid_secret [] optional = optional
valid_secret (c ∷ s) optional = leb (length (c ∷ s)) 4096 && every is_secret (c ∷ s)

-- `/^[A-Za-z0-9+\/]{43}=$/`
unfoldable pub is_key : ℕ → Text → Bool
is_key n [] = false
is_key zero (c ∷ []) = c == b'='
is_key zero (c ∷ d ∷ s) = false
is_key (suc n) (c ∷ s) = (is_alnum c || (c == b'+' || c == b'/')) && is_key n s

unfoldable pub valid_key : Text → Bool → Bool
unfolding trim_start trim_end is_key text_eq
valid_key value optional = by_text (trim value)
  where
    by_text : Text → Bool
    by_text [] = optional
    by_text (c ∷ s) = text_eq (c ∷ s) (codes "generate") || is_key 43 (c ∷ s)

unfoldable pub valid_address : Text → Bool
unfolding trim_start trim_end some_of Ipv6.valid_address
valid_address value =
    Ipv6.valid_address (trim value) (not (some_of (λ c. c == b':') (trim value))) true

unfoldable pub valid_selector : Text → Bool
unfolding trim_start trim_end valid_address
valid_selector value = elim (trim value) [ [] ↦ false | c ∷ s ↦ valid_address (c ∷ s) ]

-- `[A-Za-z0-9._:[\]%~-]`
abbrev pub is_host : ℕ → Bool
is_host c =
    is_alnum c
    || (c == b'.'
        || (c == b'_'
            || (c == b':'
                || (c == b'[' || (c == b']' || (c == b'%' || (c == b'~' || c == b'-')))))))

unfoldable pub valid_host : Text → Bool
unfolding trim_start trim_end every
valid_host value = every is_host (trim value)

unfoldable pub valid_number : Text → ℕ → ℕ → Bool
unfolding trim_start trim_end is_decimal digits_value
valid_number value low high = by_text (trim value)
  where
    by_text : Text → Bool
    by_text [] = true
    by_text (c ∷ s) =
        is_decimal (c ∷ s)
        && (leb low (digits_value 0 (c ∷ s)) && leb (digits_value 0 (c ∷ s)) high)

unfoldable pub valid_port : Text → Bool → Bool
unfolding trim_start trim_end is_decimal digits_value
valid_port value optional = by_text (trim value)
  where
    by_text : Text → Bool
    by_text [] = optional
    by_text (c ∷ s) =
        is_decimal (c ∷ s) && (ltb 0 (digits_value 0 (c ∷ s)) && leb (digits_value 0 (c ∷ s)) 65535)

-- The text before the last `c`, and the text behind it.
unfoldable pub split_last : ℕ → Text → Option (Text × Text)
split_last c [] = none
split_last c (d ∷ s) = elim (split_last c s) [
  | some (before, behind) ↦ some (d ∷ before, behind)
  | none ↦ if d == c then some ([], s) else none
]

unfoldable pub bracketed_parts : Text × Option Text → Option (Text × Text)
unfolding is_decimal
bracketed_parts (c ∷ host, some []) = some (c ∷ host, [])
bracketed_parts (c ∷ host, some (d ∷ port)) =
    if d == b':' && is_decimal port then some (c ∷ host, port) else none
bracketed_parts _ = none

-- `/^\[([^\]]+)\](?::(\d+))?$/`, behind the bracket.
unfoldable pub bracketed : Text → Option (Text × Text)
unfolding cut_at bracketed_parts
bracketed s = bracketed_parts (cut_at b']' s)

-- `value.lastIndexOf(':')` where digits follow.
unfoldable pub colon_parts : Text → Option (Text × Text) → Text × Text
unfolding is_decimal
colon_parts value none = (value, [])
colon_parts value (some (host, port)) = if is_decimal port then (host, port) else (value, [])

unfoldable pub by_colon : Text → Text × Text
unfolding split_last colon_parts
by_colon value = colon_parts value (split_last b':' value)

unfoldable pub bracket_or_colon : Text → Option (Text × Text) → Text × Text
unfolding by_colon
bracket_or_colon value (some parts) = parts
bracket_or_colon value none = by_colon value

unfoldable pub endpoint_of : Text → Text × Text
unfolding bracketed bracket_or_colon by_colon
endpoint_of [] = ([], [])
endpoint_of (c ∷ s) = if c == b'[' then bracket_or_colon (c ∷ s) (bracketed s) else by_colon (c ∷ s)

-- The host and the port.
unfoldable pub parse_endpoint : Text → Text × Text
unfolding trim_start trim_end endpoint_of
parse_endpoint value = endpoint_of (trim value)

unfoldable pub valid_server : Text → Bool
unfolding parse_endpoint valid_host valid_port
valid_server value = by_parts (parse_endpoint value)
  where
    by_parts : Text × Text → Bool
    by_parts ([], port) = false
    by_parts (c ∷ host, port) = valid_host (c ∷ host) && valid_port port true

unfoldable pub shown_host : Text → Text
unfolding some_of
shown_host [] = []
shown_host (c ∷ s) =
    if some_of (λ d. d == b':') (c ∷ s) && not (c == b'[')
    then b'[' ∷ ((c ∷ s) ++ b']' ∷ [])
    else c ∷ s

unfoldable pub endpoint_text : Text → Text → Text
unfolding shown_host
endpoint_text [] [] = 0x2013 ∷ []
endpoint_text [] (p ∷ port) = b'*' ∷ b':' ∷ p ∷ port
endpoint_text (c ∷ host) [] = shown_host (c ∷ host)
endpoint_text (c ∷ host) (p ∷ port) = shown_host (c ∷ host) ++ b':' ∷ p ∷ port

unfoldable pub short_key : Text → Text
short_key [] = 0x2013 ∷ []
short_key (c ∷ s) = take 8 (c ∷ s) ++ (0x2026 ∷ drop (length (c ∷ s) - 6) (c ∷ s))
