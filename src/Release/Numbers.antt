-- ===== src/Release/Numbers.antt =====
-- `Number` of a sequence of digits: the nearest double, of two that are as near the even one. What is
-- beyond the doubles is `Infinity`, for which 2 ^ 1024 stands.
use freenetic.Base.{
  ℕ, zero, suc, ◌+◌, ◌*◌, ◌/◌, ◌%◌, ◌^◌, true, false, ltb, Text, digits_value, if◌then◌else◌,
}

-- The doubles near a number are multiples of 2 ^ e, for the lowest e with n < 2 ^ (53 + e); the doubles
-- end with e = 971.
unfoldable pub spacing : ℕ → ℕ → ℕ → ℕ
spacing zero e n = e
spacing (suc fuel) e n = elim (ltb n (2 ^ (53 + e))) [ true ↦ e | false ↦ spacing fuel (e + 1) n ]

unfoldable pub nearest : ℕ → ℕ → ℕ
nearest e n =
    let q = n / 2 ^ e in
    let r = n % 2 ^ e in
    if ltb (2 * r) (2 ^ e) then q else if ltb (2 ^ e) (2 * r) then q + 1 else q + q % 2

unfoldable pub to_double : ℕ → ℕ
unfolding spacing nearest
to_double n =
    let e = spacing 971 0 n in
    let rounded = nearest e n * 2 ^ e in if ltb rounded (2 ^ 1024) then rounded else 2 ^ 1024

unfoldable pub read_number : Text → ℕ
unfolding to_double digits_value
read_number s = to_double (digits_value 0 s)
