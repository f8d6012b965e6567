-- ===== src/Base/Hex.antt =====
-- Numbers written in hexadecimal: `n.toString(16)` and `parseInt(s, 16)` of lower-case digits.
use Prim.Native.Nat.{ℕ, zero, suc, ◌+◌, ◌-◌, ◌*◌, ◌/◌, ◌%◌, ◌^◌, ◌<◌, ◌≤◌}
use mathlib.Core.Path.{◌≡◌, refl, ap}
use mathlib.Core.Logic.{◌≢◌, inl, inr}
use mathlib.Core.Bool.{Bool, true, ◌&&◌, ◌||◌}
use mathlib.Core.List.{[], ◌∷◌, ◌++◌}
use native.Mathlib.Nat.{pow-suc, mul-le-mul_right, mul_assoc}
use native.Mathlib.Omega.{arith}
use freenetic.Base.Tests.{if◌then◌else◌, leb, ltb, if-intro, le_of_ltb, ltb_of_lt, Bool-cases}
use freenetic.Base.Lists.{length, length-append, every}
use freenetic.Base.Texts.{Text, is_digit}

-- The class `[0-9a-f]`.
abbrev pub is_hex : ℕ → Bool
is_hex c = is_digit c || (leb b'a' c && leb c b'f')

abbrev pub hex_digit : ℕ → ℕ
hex_digit n = if ltb n 10 then b'0' + n else b'a' + (n - 10)

abbrev pub digit_value : ℕ → ℕ
digit_value c = if leb c b'9' then c - b'0' else c - b'a' + 10

unfoldable pub hex_value : ℕ → Text → ℕ
hex_value n [] = n
hex_value n (c ∷ s) = hex_value (n * 16 + digit_value c) s

hex_of : ℕ → ℕ → Text
hex_of zero n = []
hex_of (suc fuel) n =
    let rest = hex_of fuel (n / 16) in
    if ltb n 16 then hex_digit n ∷ [] else rest ++ hex_digit (n % 16) ∷ []

unfoldable pub to_hex : ℕ → Text
unfolding hex_of
to_hex n = hex_of (suc n) n

hex_value-append :
    (n c : ℕ) (s : Text) → hex_value n (s ++ c ∷ []) ≡ hex_value n s * 16 + digit_value c
unfolding hex_value
hex_value-append n c [] = refl
hex_value-append n c (d ∷ s) = hex_value-append (n * 16 + digit_value d) c s

digit_value-hex_digit : (n : ℕ) → n < 16 → digit_value (hex_digit n) ≡ n
digit_value-hex_digit n h = ground arith

is_hex-hex_digit : (n : ℕ) → n < 16 → is_hex (hex_digit n) ≡ true
is_hex-hex_digit n h = ground arith

hex_value-hex_of : (fuel n : ℕ) → n < fuel → hex_value 0 (hex_of fuel n) ≡ n
unfolding hex_of
hex_value-hex_of zero n h = absurd (omega arith)
hex_value-hex_of (suc fuel) n h = elim (Bool-cases (ltb n 16)) [
  | inl small ↦ rw small (unfold hex_value in ground arith)
  | inr big ↦ rw big (
      omega (
        arith,
        hex_value-append 0 (hex_digit (n % 16)) (hex_of fuel (n / 16)),
        digit_value-hex_digit (n % 16) (omega arith),
        hex_value-hex_of fuel (n / 16) (omega (arith, le_of_ltb n 16 big)),
      ))
]

-- Reading a printed number gives the number.
pub hex_value-to_hex : (n : ℕ) → hex_value 0 (to_hex n) ≡ n
unfolding to_hex
hex_value-to_hex n = hex_value-hex_of (suc n) n (omega arith)

length-hex_of : (fuel n k : ℕ) → n < 16 ^ suc k → length (hex_of fuel n) ≤ suc k
unfolding hex_of
length-hex_of zero n k h = omega arith
length-hex_of (suc fuel) n zero h = rw (ltb_of_lt n 16 (omega arith)) (omega arith)
length-hex_of (suc fuel) n (suc k) h =
    let rest = hex_of fuel (n / 16) in
    elim (Bool-cases (ltb n 16)) [
      | inl small ↦ rw small (omega arith)
      | inr big ↦ rw big (
          omega (
            arith,
            length-append rest (hex_digit (n % 16) ∷ []),
            length-hex_of fuel (n / 16) k (omega (arith, pow-suc 16 (suc k))),
          ))
    ]

pub length-to_hex : (n k : ℕ) → n < 16 ^ suc k → length (to_hex n) ≤ suc k
unfolding to_hex
length-to_hex n k h = length-hex_of (suc n) n k h

pub every-append : (p : ℕ → Bool) (s t : Text) → every p (s ++ t) ≡ (every p s && every p t)
unfolding every
every-append p [] t = refl
every-append p (c ∷ s) t = rw (every-append p s t) (and_assoc (p c) (every p s) (every p t))
  where
    and_assoc : (a b c : Bool) → (a && (b && c)) ≡ ((a && b) && c)
    and_assoc a b c = ground arith

hex_of-is_hex : (fuel n : ℕ) → every is_hex (hex_of fuel n) ≡ true
unfolding hex_of every
hex_of-is_hex zero n = refl
hex_of-is_hex (suc fuel) n = elim (Bool-cases (ltb n 16)) [
  | inl small ↦ rw small (rw (is_hex-hex_digit n (ground arith)) refl)
  | inr big ↦
      rw
        (
          big,
          every-append is_hex (hex_of fuel (n / 16)) (hex_digit (n % 16) ∷ []),
          hex_of-is_hex fuel (n / 16),
        )
        (rw (is_hex-hex_digit (n % 16) (omega arith)) refl)
]

pub to_hex-is_hex : (n : ℕ) → every is_hex (to_hex n) ≡ true
unfolding to_hex
to_hex-is_hex n = hex_of-is_hex (suc n) n

pub to_hex-ne_nil : (n : ℕ) → to_hex n ≢ []
unfolding to_hex hex_of
to_hex-ne_nil n = if-intro (λ s. s ≢ []) (ltb n 16) (λ _ e. cc) (λ _. ne_nil (hex_of n (n / 16)) _)
  where
    ne_nil : (s : Text) (c : ℕ) → (s ++ c ∷ []) ≢ []
    ne_nil [] c e = cc
    ne_nil (d ∷ s) c e = cc

pub hex_value-lt :
    (s : Text) (n : ℕ) → every is_hex s ≡ true → hex_value n s < suc n * 16 ^ length s
unfolding hex_value every
hex_value-lt [] n h = omega arith
hex_value-lt (c ∷ s) n h =
    let (h1, h2) = both (is_hex c) (every is_hex s) h in
    let small : digit_value c < 16 = ground arith in
    let wide : suc (n * 16 + digit_value c) * 16 ^ length s ≤ (suc n * 16) * 16 ^ length s =
      mul-le-mul_right (16 ^ length s) (omega (arith, small)) in
    let power : suc n * (16 * 16 ^ length s) ≡ suc n * 16 ^ suc (length s) =
      ap (λ q. suc n * q) (omega (arith, pow-suc 16 (length s))) in
    omega (
      arith,
      wide,
      hex_value-lt s (n * 16 + digit_value c) h2,
      mul_assoc (suc n) 16 (16 ^ length s),
      power,
    )
  where
    both : (a b : Bool) → (a && b) ≡ true → (a ≡ true) × (b ≡ true)
    both a b e = ground arith
