-- ===== src/Base/Decimal.antt =====
-- Numbers written in decimal: `String(n)` of a natural number, and `Number(s)` of digits.
use Prim.Native.Nat.{ℕ, zero, suc, ◌+◌, ◌-◌, ◌*◌, ◌/◌, ◌%◌, ◌^◌, ◌<◌, ◌≤◌}
use mathlib.Core.Path.{◌≡◌, refl}
use mathlib.Core.Bool.{Bool, false}
use mathlib.Core.List.{[], ◌∷◌, ◌++◌}
use native.Mathlib.Nat.{pow-suc}
use native.Mathlib.Omega.{arith}
use freenetic.Base.Tests.{if◌then◌else◌, ltb, if-intro, le_of_ltb, ltb_of_lt, Bool-cases}
use mathlib.Core.Logic.{inl, inr}
use freenetic.Base.Lists.{length, length-append, every}
use freenetic.Base.Texts.{Text, is_digit}

-- The value that digits spell behind `n`.
unfoldable pub digits_value : ℕ → Text → ℕ
digits_value n [] = n
digits_value n (c ∷ s) = digits_value (n * 10 + (c - b'0')) s

-- `/^\d+$/`
unfoldable pub is_decimal : Text → Bool
unfolding every
is_decimal [] = false
is_decimal (c ∷ s) = every is_digit (c ∷ s)

-- The digits of a number, the lowest last; a number below 10 ^ fuel has at most fuel digits.
digits_of : ℕ → ℕ → Text
digits_of zero n = []
digits_of (suc fuel) n =
    let rest = digits_of fuel (n / 10) in
    if ltb n 10 then (b'0' + n) ∷ [] else rest ++ (b'0' + n % 10) ∷ []

unfoldable pub decimal : ℕ → Text
unfolding digits_of
decimal n = digits_of (suc n) n

digits_value-append :
    (n c : ℕ) (s : Text) → digits_value n (s ++ c ∷ []) ≡ digits_value n s * 10 + (c - b'0')
unfolding digits_value
digits_value-append n c [] = refl
digits_value-append n c (d ∷ s) = digits_value-append (n * 10 + (d - b'0')) c s

digits_value-digits_of : (fuel n : ℕ) → n < fuel → digits_value 0 (digits_of fuel n) ≡ n
unfolding digits_of
digits_value-digits_of zero n h = absurd (omega arith)
digits_value-digits_of (suc fuel) n h =
    if-intro (λ s. digits_value 0 s ≡ n) (ltb n 10) (λ _. unfold digits_value in omega arith)
      (λ big. omega (
        arith,
        digits_value-append 0 (b'0' + n % 10) (digits_of fuel (n / 10)),
        digits_value-digits_of fuel (n / 10) (omega (arith, le_of_ltb n 10 big)),
      ))

-- Reading a printed number gives the number.
pub digits_value-decimal : (n : ℕ) → digits_value 0 (decimal n) ≡ n
unfolding decimal
digits_value-decimal n = digits_value-digits_of (suc n) n (omega arith)

length-digits_of : (fuel n k : ℕ) → n < 10 ^ suc k → length (digits_of fuel n) ≤ suc k
unfolding digits_of
length-digits_of zero n k h = omega arith
length-digits_of (suc fuel) n zero h = rw (ltb_of_lt n 10 (omega arith)) (omega arith)
length-digits_of (suc fuel) n (suc k) h =
    let rest = digits_of fuel (n / 10) in
    elim (Bool-cases (ltb n 10)) [
      | inl small ↦ rw small (omega arith)
      | inr big ↦ rw big (
          omega (
            arith,
            length-append rest ((b'0' + n % 10) ∷ []),
            length-digits_of fuel (n / 10) k (omega (arith, pow-suc 10 (suc k))),
          ))
    ]

pub length-decimal : (n k : ℕ) → n < 10 ^ suc k → length (decimal n) ≤ suc k
unfolding decimal
length-decimal n k h = length-digits_of (suc n) n k h
