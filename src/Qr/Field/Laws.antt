-- ===== src/Qr/Field/Laws.antt =====
-- The field's tables are inverse to one another, and `gmul` is multiplication modulo the polynomial
-- x^8 + x^4 + x^3 + x^2 + 1.
use freenetic.Base.{
  ℕ, zero, suc, ◌+◌, ◌*◌, ◌/◌, ◌%◌, ◌<◌, bit_xor, ◌≡◌, refl, Bool, true, ◌&&◌, ◌==◌, ltb, ==_iff,
  if◌then◌else◌, get_or, all_below, all_below_sound, arith,
}
use freenetic.Qr.Field.{Tables, init_gf256, gmul}

-- Multiplication by x, reduced.
abbrev double : ℕ → ℕ
double a = if ltb a 128 then a * 2 else bit_xor (a * 2) 0x11d

-- The product digit by digit: an independent description of `gmul`.
pub carryless : ℕ → ℕ → ℕ → ℕ
carryless zero a b = 0
carryless (suc n) a b = bit_xor (if b % 2 == 1 then a else 0) (carryless n (double a) (b / 2))

check_row : Tables → ℕ → Bool
unfolding carryless gmul all_below
check_row t a = all_below 256 (λ b. gmul t a b == carryless 8 a b)

check_all : Bool
unfolding check_row init_gf256
check_all = let t = init_gf256 in all_below 256 (check_row t)

check : check_all ≡ true
unfolding check_all
check = refl

-- On bytes, `gmul` with the tables that `initGF256` fills is multiplication digit by digit modulo
-- x^8 + x^4 + x^3 + x^2 + 1.
pub gmul-carryless : (a b : ℕ) → a < 256 → b < 256 → gmul init_gf256 a b ≡ carryless 8 a b
unfolding check_all check_row
gmul-carryless a b p q =
    let row = all_below_sound 256 (check_row init_gf256) a check p in
    (==_iff _ _).0 (all_below_sound 256 (λ b'. gmul init_gf256 a b' == carryless 8 a b') b row q)

one_table : all_below 256 (λ c. gmul init_gf256 c 1 == c) ≡ true
unfolding all_below gmul init_gf256
one_table = refl

pub gmul-one : (c : ℕ) → c < 256 → gmul init_gf256 c 1 ≡ c
gmul-one c p = (==_iff _ _).0 (all_below_sound 256 (λ d. gmul init_gf256 d 1 == d) c one_table p)

byte_row : Tables → ℕ → Bool
unfolding gmul all_below
byte_row t a = all_below 256 (λ b. ltb (gmul t a b) 256)

byte_table : (let t = init_gf256 in all_below 256 (byte_row t)) ≡ true
unfolding all_below byte_row init_gf256
byte_table = refl

pub gmul-lt : (a b : ℕ) → a < 256 → b < 256 → gmul init_gf256 a b < 256
unfolding byte_row
gmul-lt a b p q =
    let row = all_below_sound 256 (byte_row init_gf256) a byte_table p in
    let test = all_below_sound 256 (λ b'. ltb (gmul init_gf256 a b') 256) b row q in ground arith

exp_log_row : Tables → ℕ → Bool
exp_log_row t i =
    get_or t.log (get_or t.exp i 0) 0 == i && get_or t.exp (i + 255) 0 == get_or t.exp i 0

exp_log_table : (let t = init_gf256 in all_below 255 (exp_log_row t)) ≡ true
unfolding all_below exp_log_row init_gf256
exp_log_table = refl

-- LOG_TABLE undoes EXP_TABLE on the exponents 0 to 254, and EXP_TABLE repeats after 255.
pub log-exp :
    (i : ℕ)
    → i < 255
    → (get_or init_gf256.log (get_or init_gf256.exp i 0) 0 ≡ i)
      × (get_or init_gf256.exp (i + 255) 0 ≡ get_or init_gf256.exp i 0)
unfolding exp_log_row
log-exp i h =
    let test = all_below_sound 255 (exp_log_row init_gf256) i exp_log_table h in ground arith
