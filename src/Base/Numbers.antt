-- ===== src/Base/Numbers.antt =====
-- `Number(s)` of a text, as far as the source uses it: where the value is an integer that is not
-- negative. The arithmetic is exact: what rounding to a double would add is left out.
use Prim.Native.Nat.{ℕ, zero, ◌+◌, ◌-◌, ◌*◌, ◌/◌, ◌%◌, ◌^◌}
use mathlib.Core.Bool.{Bool, ◌&&◌, ◌||◌}
use mathlib.Core.Option.{Option, none, some}
use mathlib.Core.List.{[], ◌∷◌, ◌++◌}
use freenetic.Base.Tests.{if◌then◌else◌, leb, ltb, ◌==◌}
use freenetic.Base.Lists.{length, every}
use freenetic.Base.Texts.{Text, is_digit, is_space, trim_start, trim_end, lower}
use freenetic.Base.Decimal.{digits_value, is_decimal}
use freenetic.Base.Hex.{is_hex, hex_value}

-- The digits at the start, and what follows.
unfoldable pub span_digits : Text → Text × Text
span_digits [] = ([], [])
span_digits (c ∷ s) =
    let (ds, rest) = span_digits s in if is_digit c then (c ∷ ds, rest) else ([], c ∷ s)

unfoldable pub base_value : ℕ → ℕ → Text → Option ℕ
base_value base n [] = some n
base_value base n (c ∷ s) =
    let rest = base_value base (n * base + (c - b'0')) s in
    if leb b'0' c && ltb c (b'0' + base) then rest else none

-- `0x…`, `0o…` and `0b…`, behind the letter.
unfoldable pub prefixed_value : ℕ → Text → Option ℕ
unfolding lower hex_value every base_value
prefixed_value letter [] = none
prefixed_value letter (c ∷ s) =
    if letter == b'x'
    then (if every is_hex (lower (c ∷ s)) then some (hex_value 0 (lower (c ∷ s))) else none)
    else if letter == b'o'
    then base_value 8 0 (c ∷ s)
    else base_value 2 0 (c ∷ s)

-- `m * 10 ^ (e - k)`, where it is an integer.
unfoldable pub scaled : ℕ → ℕ → ℕ → Option ℕ
scaled m e k =
    if leb k e
    then some (m * 10 ^ (e - k))
    else if m % 10 ^ (k - e) == 0
    then some (m / 10 ^ (k - e))
    else none

-- The exponent `[eE][+-]?\d+` or nothing, behind a mantissa `m` with `k` digits behind its point.
unfoldable pub with_exponent : ℕ → ℕ → Text → Option ℕ
unfolding scaled is_decimal digits_value
with_exponent m k [] = scaled m 0 k
with_exponent m k (c ∷ s) = if c == b'e' || c == b'E' then signed s else none
  where
    signed : Text → Option ℕ
    signed [] = none
    signed (d ∷ s) =
        if d == b'-'
        then (if is_decimal s then scaled m 0 (k + digits_value 0 s) else none)
        else if d == b'+'
        then (if is_decimal s then scaled m (digits_value 0 s) k else none)
        else if is_decimal (d ∷ s)
        then scaled m (digits_value 0 (d ∷ s)) k
        else none

unfoldable pub mantissa : Text → Text → Option ℕ
unfolding span_digits with_exponent digits_value
mantissa ds [] = elim ds [ [] ↦ none | d ∷ ds' ↦ with_exponent (digits_value 0 (d ∷ ds')) 0 [] ]
mantissa ds (c ∷ rest) =
    if c == b'.'
    then fraction (span_digits rest)
    else elim ds [ [] ↦ none | d ∷ ds' ↦ with_exponent (digits_value 0 (d ∷ ds')) 0 (c ∷ rest) ]
  where
    fraction : Text × Text → Option ℕ
    fraction (fs, after) = elim (ds ++ fs) [
      | [] ↦ none
      | d ∷ all ↦ with_exponent (digits_value 0 (d ∷ all)) (length fs) after
    ]

unfoldable pub unsigned_value : Text → Option ℕ
unfolding mantissa span_digits
unsigned_value s = let (ds, rest) = span_digits s in mantissa ds rest

-- A negative number is no value here, but -0 is 0.
unfoldable pub signed_value : Text → Option ℕ
unfolding unsigned_value
signed_value [] = some 0
signed_value (c ∷ s) =
    if c == b'+'
    then unsigned_value s
    else if c == b'-'
    then elim (unsigned_value s) [ some zero ↦ some 0 | _ ↦ none ]
    else unsigned_value (c ∷ s)

abbrev is_base_letter : ℕ → Bool
is_base_letter c = c == b'x' || (c == b'o' || c == b'b')

unfoldable pub number_of : Text → Option ℕ
unfolding trim_start trim_end is_space lower prefixed_value signed_value
number_of s = by_form (trim_end (trim_start s))
  where
    low : ℕ → ℕ
    low c = if leb b'A' c && leb c b'Z' then c + 32 else c

    by_form : Text → Option ℕ
    by_form [] = some 0
    by_form (c ∷ []) = signed_value (c ∷ [])
    by_form (c ∷ d ∷ t) =
        if c == b'0' && is_base_letter (low d)
        then prefixed_value (low d) t
        else signed_value (c ∷ d ∷ t)
