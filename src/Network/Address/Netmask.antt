-- ===== src/Network/Address/Netmask.antt =====
-- Which masks `validIPv4Netmask` accepts.
use freenetic.Base.{
  ℕ, zero, suc, ◌+◌, ◌-◌, ◌*◌, ◌^◌, ◌/◌, ◌%◌, ◌≤◌, ◌<◌, Bool, true, false, ◌&&◌, ◌≡◌, ◌↔◌, refl,
  sym, ap, ◌∙◌, List, [], ◌∷◌, ◌++◌, ◌==◌, ==_iff, Text, every, digits_value, length, arith,
  if◌then◌else◌, length-append, all_below, all_below_sound,
}
use native.Mathlib.Nat.{pow-suc}
use freenetic.Network.Address.{
  split_on, valid_octet, valid_ipv4, binary_octet, all_zeros, ones_zeros, is_mask, mask_bits,
  valid_ipv4_netmask,
}
use freenetic.Network.Address.Split.{joined}
use freenetic.Network.Address.Ipv4.{IsIpv4, split-octets, every-octets, valid_ipv4_iff}

-- The number whose binary digits are given, the highest first.
pub number : List Bool → ℕ
number [] = 0
number (b ∷ bs) = (if b then 2 ^ length bs else 0) + number bs

number-all_zeros : (bs : List Bool) → all_zeros bs ≡ true → number bs ≡ 0
unfolding all_zeros number
number-all_zeros [] h = refl
number-all_zeros (true ∷ bs) h = cc
number-all_zeros (false ∷ bs) h = omega (arith, number-all_zeros bs h)

number-ones_zeros :
    (bs : List Bool)
    → ones_zeros bs ≡ true
    → (k : ℕ) × (k ≤ length bs) × (number bs + 2 ^ (length bs - k) ≡ 2 ^ length bs)
unfolding ones_zeros number
number-ones_zeros [] h = (0, omega arith, refl)
number-ones_zeros (true ∷ bs) h =
    let (k, le, e) = number-ones_zeros bs h in
    let same : suc (length bs) - suc k ≡ length bs - k = omega arith in
    (suc k, omega arith, rw same (omega (arith, pow-suc 2 (length bs))))
number-ones_zeros (false ∷ bs) h =
    let same : suc (length bs) - 0 ≡ suc (length bs) = omega arith in
    (0, omega arith, rw same (omega (arith, number-all_zeros bs h)))

number-is_mask :
    (bs : List Bool)
    → is_mask bs ≡ true
    → (k : ℕ) × (1 ≤ k) × (k ≤ length bs) × (number bs + 2 ^ (length bs - k) ≡ 2 ^ length bs)
unfolding is_mask number
number-is_mask [] h = cc
number-is_mask (false ∷ bs) h = cc
number-is_mask (true ∷ bs) h =
    let (k, le, e) = number-ones_zeros bs h in
    let same : suc (length bs) - suc k ≡ length bs - k = omega arith in
    (suc k, omega arith, omega arith, rw same (omega (arith, pow-suc 2 (length bs))))

pow_sum : (a b : ℕ) → 2 ^ (a + b) ≡ 2 ^ a * 2 ^ b
pow_sum zero b = let e : 0 + b ≡ b = omega arith in rw e (omega arith)
pow_sum (suc a) b =
    let e : suc a + b ≡ suc (a + b) = omega arith in
    rw (e, pow-suc 2 (a + b), pow-suc 2 a, pow_sum a b) (grind arith)

number-append : (xs ys : List Bool) → number (xs ++ ys) ≡ number xs * 2 ^ length ys + number ys
unfolding number
number-append [] ys = omega arith
number-append (true ∷ xs) ys =
    rw (length-append xs ys, number-append xs ys, pow_sum (length xs) (length ys)) (grind arith)
number-append (false ∷ xs) ys = rw (number-append xs ys) (grind arith)

octet_table : all_below 256 (λ n. number (binary_octet n) == n) ≡ true
unfolding all_below number binary_octet
octet_table = refl

both : (a b : Bool) → (a && b) ≡ true → (a ≡ true) × (b ≡ true)
both a b e = ground arith

number-binary_octet :
    (n : ℕ) (bs : List Bool)
    → n < 256
    → number (binary_octet n ++ bs) ≡ n * 2 ^ length bs + number bs
number-binary_octet n bs h =
    let e =
      (==_iff _ _).0 (all_below_sound 256 (λ m. number (binary_octet m) == m) n octet_table h) in
    number-append (binary_octet n) bs ∙ ap (λ m. m * 2 ^ length bs + number bs) e

octet-lt : (s : Text) → valid_octet s ≡ true → digits_value 0 s < 256
unfolding valid_octet
octet-lt s h = ground arith

-- Four octets whose number has k ones, at least one, and then only zeros.
pub record IsNetmask (s : Text) : Type 0 where
  pub ipv4 : IsIpv4 s
  pub k : ℕ
  pub lower : 1 ≤ k
  pub upper : k ≤ 32
  pub word :
      digits_value 0 ipv4.a * 2 ^ 24
        + digits_value 0 ipv4.b * 2 ^ 16
        + digits_value 0 ipv4.c * 2 ^ 8
        + digits_value 0 ipv4.d
        + 2 ^ (32 - k)
      ≡ 2 ^ 32

number-mask_bits :
    (a b c d : Text)
    → every valid_octet (a ∷ b ∷ c ∷ d ∷ []) ≡ true
    → number (mask_bits (a ∷ b ∷ c ∷ d ∷ []))
      ≡ digits_value 0 a * 2 ^ 24
        + digits_value 0 b * 2 ^ 16
        + digits_value 0 c * 2 ^ 8
        + digits_value 0 d
unfolding mask_bits number binary_octet
number-mask_bits a b c d h =
    let (ha, hb, hc, hd) = every-octets a b c d h in
    let D = digits_value 0 d in
    let C = digits_value 0 c in
    let B = digits_value 0 b in
    let low = mask_bits (d ∷ []) in
    let mid = mask_bits (c ∷ d ∷ []) in
    let high = mask_bits (b ∷ c ∷ d ∷ []) in
    omega (
      arith,
      number-binary_octet (digits_value 0 a) high (octet-lt a ha),
      number-binary_octet B mid (octet-lt b hb),
      number-binary_octet C low (octet-lt c hc),
      number-binary_octet D [] (octet-lt d hd),
    )

length-mask_bits : (a b c d : Text) → length (mask_bits (a ∷ b ∷ c ∷ d ∷ [])) ≡ 32
unfolding mask_bits binary_octet
length-mask_bits a b c d = refl

mask_test :
    (s : Text) (r : IsIpv4 s)
    → valid_ipv4_netmask s ≡ (valid_ipv4 s && is_mask (mask_bits (r.a ∷ r.b ∷ r.c ∷ r.d ∷ [])))
unfolding valid_ipv4_netmask joined
mask_test s r =
    ap (λ (p : Text × List Text). valid_ipv4 s && is_mask (mask_bits (p.0 ∷ p.1)))
      (ap (split_on b'.') r.shape ∙ split-octets r.a r.b r.c r.d r.octets)

netmask_ipv4 : (s : Text) → valid_ipv4_netmask s ≡ true → valid_ipv4 s ≡ true
unfolding valid_ipv4_netmask
netmask_ipv4 s h = let (v, _) = both (valid_ipv4 s) _ h in v

-- A mask that `validIPv4Netmask` accepts is four octets that spell a prefix of 1 to 32 ones.
valid_ipv4_netmask-IsNetmask : (mask : Text) → valid_ipv4_netmask mask ≡ true → IsNetmask mask
valid_ipv4_netmask-IsNetmask mask h =
    let r = (valid_ipv4_iff mask).0 (netmask_ipv4 mask h) in
    let bits = mask_bits (r.a ∷ r.b ∷ r.c ∷ r.d ∷ []) in
    let (_, m) = both (valid_ipv4 mask) (is_mask bits) (sym (mask_test mask r) ∙ h) in
    let (k, low, up, e) = number-is_mask bits m in
    let size = length-mask_bits r.a r.b r.c r.d in
    let rest = ap (λ n. 2 ^ (n - k)) size in
    let whole = ap (λ n. 2 ^ n) size in
    record {
      ipv4 = r;
      k = k;
      lower = low;
      upper = omega (arith, size);
      word = omega (arith, number-mask_bits r.a r.b r.c r.d r.octets, e, rest, whole);
    }

prefix_word : ℕ → ℕ
prefix_word k = 2 ^ 32 - 2 ^ (32 - k)

word_bits : ℕ → List Bool
word_bits n =
    binary_octet (n / 2 ^ 24)
    ++ (binary_octet (n / 2 ^ 16 % 256)
        ++ (binary_octet (n / 2 ^ 8 % 256) ++ (binary_octet (n % 256) ++ [])))

prefix_table : all_below 32 (λ k. is_mask (word_bits (prefix_word (k + 1)))) ≡ true
unfolding all_below is_mask word_bits binary_octet prefix_word
prefix_table = refl

split_word :
    (a b c d n : ℕ)
    → a < 256
    → b < 256
    → c < 256
    → d < 256
    → a * 2 ^ 24 + b * 2 ^ 16 + c * 2 ^ 8 + d ≡ n
    → (n / 2 ^ 24 ≡ a) × (n / 2 ^ 16 % 256 ≡ b) × (n / 2 ^ 8 % 256 ≡ c) × (n % 256 ≡ d)
split_word a b c d n p q r s e = (omega arith, omega arith, omega arith, omega arith)

IsNetmask-is_mask :
    (s : Text) (r : IsNetmask s)
    → is_mask (mask_bits (r.ipv4.a ∷ r.ipv4.b ∷ r.ipv4.c ∷ r.ipv4.d ∷ [])) ≡ true
unfolding mask_bits word_bits prefix_word
IsNetmask-is_mask s r =
    let (ha, hb, hc, hd) = every-octets r.ipv4.a r.ipv4.b r.ipv4.c r.ipv4.d r.ipv4.octets in
    let one_more : r.k - 1 + 1 ≡ r.k = omega (arith, r.lower) in
    let row =
      all_below_sound 32 (λ k. is_mask (word_bits (prefix_word (k + 1)))) (r.k - 1) prefix_table
        (omega (arith, r.lower, r.upper)) in
    let (ea, eb, ec, ed) =
      split_word (digits_value 0 r.ipv4.a) (digits_value 0 r.ipv4.b) (digits_value 0 r.ipv4.c)
        (digits_value 0 r.ipv4.d) (2 ^ 32 - 2 ^ (32 - r.k)) (octet-lt r.ipv4.a ha)
        (octet-lt r.ipv4.b hb) (octet-lt r.ipv4.c hc) (octet-lt r.ipv4.d hd)
        (omega (arith, r.word)) in
    rw (one_more, ea, eb, ec, ed) at row

-- `validIPv4Netmask` accepts exactly four octets, each of one to three digits with a value of at most
-- 255, that spell a prefix of 1 to 32 ones.
pub valid_ipv4_netmask_iff : (mask : Text) → (valid_ipv4_netmask mask ≡ true) ↔ IsNetmask mask
valid_ipv4_netmask_iff mask = (
  valid_ipv4_netmask-IsNetmask mask,
  λ r. mask_test mask r.ipv4 ∙ (rw ((valid_ipv4_iff mask).1 r.ipv4) (IsNetmask-is_mask mask r)),
)
