-- ===== src/Multiwan/Values.antt =====
-- Option values of UCI sections and their readings: `listValue`, `sectionName`, `enabledValue`,
-- `numberValue` and `familyValue` of freenetic-multiwan-data.js.
-- An option is missing (undefined), a text, or a list of texts: that is all that UCI holds.
use freenetic.Base.{
  ℕ, zero, suc, Bool, true, false, not, ◌&&◌, ◌||◌, List, [], ◌∷◌, ◌++◌, Option, none, some, ◌==◌,
  Text, codes, text_eq, is_decimal, digits_value, lower, or_else, if◌then◌else◌,
}

pub data Value : Type 0 where
  missing : Value
  text : Text → Value
  texts : List Text → Value

-- A section: its options, those that UCI adds (`.name`, `.type`) included.
abbrev pub Section : Type 0
Section = List (Text × Value)

-- `section[key]`
unfoldable pub option : Text → Section → Value
unfolding text_eq
option key [] = missing
option key ((k, v) ∷ s) = if text_eq k key then v else option key s

-- `listValue`
unfoldable pub list_value : Value → List Text
list_value missing = []
list_value (text []) = []
list_value (text (c ∷ s)) = (c ∷ s) ∷ []
list_value (texts xs) = xs

-- A text that is truthy, as `a || b` wants it.
unfoldable pub truthy : Value → Option Text
truthy (text (c ∷ s)) = some (c ∷ s)
truthy _ = none

-- `sectionName`: `section['.name'] || section.name`; names are texts.
unfoldable pub section_name : Section → Option Text
unfolding option truthy
section_name s = or_else (truthy (option (codes ".name") s)) (truthy (option (codes "name") s))

-- `enabledValue`
unfoldable pub enabled_value : Value → Bool
unfolding text_eq
enabled_value (text s) = not (text_eq s (codes "0") || text_eq s (codes "false"))
enabled_value _ = true

join_with : Text → List Text → Text
join_with sep [] = []
join_with sep (x ∷ []) = x
join_with sep (x ∷ y ∷ xs) = x ++ (sep ++ join_with sep (y ∷ xs))

-- `String(value || '')`
unfoldable pub string_of : Value → Text
unfolding join_with
string_of missing = []
string_of (text s) = s
string_of (texts xs) = join_with (codes ",") xs

-- An integer; `negsuc n` is -(n + 1).
pub data ℤ : Type 0 where
  pos : ℕ → ℤ
  negsuc : ℕ → ℤ

negated : ℕ → ℤ
negated zero = pos 0
negated (suc n) = negsuc n

-- `/^-?\d+$/`, then `Number`.
unfoldable pub integer_of : Text → Option ℤ
unfolding is_decimal digits_value negated
integer_of [] = none
integer_of (c ∷ s) =
    if c == b'-'
    then (if is_decimal s then some (negated (digits_value 0 s)) else none)
    else if is_decimal (c ∷ s)
    then some (pos (digits_value 0 (c ∷ s)))
    else none

-- `numberValue`
unfoldable pub number_value : Value → Option ℤ
unfolding integer_of string_of
number_value missing = none
number_value v = integer_of (string_of v)

pub data Family : Type 0 where
  ipv4 ipv6 : Family

contains_digit : ℕ → Text → Bool
contains_digit d [] = false
contains_digit d (c ∷ s) = c == d || contains_digit d s

ends_in_six : Text → Bool
ends_in_six [] = false
ends_in_six (c ∷ []) = c == b'6'
ends_in_six (c ∷ d ∷ s) =
    if is_nil s && c == b'6' && (d == b'v' || d == b'V') then true else ends_in_six (d ∷ s)
  where
    is_nil : Text → Bool
    is_nil [] = true
    is_nil (_ ∷ _) = false

-- `familyValue`
unfoldable pub family_value : Value → Option Text → Value → Family
unfolding text_eq lower string_of ends_in_six contains_digit
family_value value name proto =
    let v = lower (string_of value) in
    if text_eq v (codes "ipv6") || text_eq v (codes "6")
    then ipv6
    else if text_eq v (codes "ipv4") || text_eq v (codes "4")
    then ipv4
    else if ends_in_six (name_text name) || contains_digit b'6' (lower (string_of proto))
    then ipv6
    else ipv4
  where
    name_text : Option Text → Text
    name_text none = []
    name_text (some s) = s

-- `value === 'literal'`
abbrev pub is_text : Value → Text → Bool
is_text (text s) t = text_eq s t
is_text _ t = false
