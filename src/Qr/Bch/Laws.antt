-- ===== src/Qr/Bch/Laws.antt =====
-- The BCH code words of format and version information: the division ends, the information is
-- read back from the word, and distinct words lie far apart.
use freenetic.Base.{
  ℕ, zero, suc, ◌+◌, ◌/◌, ◌%◌, ◌^◌, ◌<◌, ◌≤◌, bit_xor, ◌≡◌, ◌≢◌, refl, ◌⊎◌, Bool, true, ◌&&◌, ◌||◌,
  ◌==◌, ==_iff, ltb, leb, le_of_leb, all_below, all_below_sound, Bool-cases, inl, inr, arith,
}
use freenetic.Qr.Blocks.{EcLevel, low, medium}
use freenetic.Qr.Bch.{g18, digit_count, bch_encode, ec_level_bits, version_bits, format_bits}

-- The number of ones among the lowest n binary digits.
pub ones : ℕ → ℕ → ℕ
ones zero x = 0
ones (suc n) x = x % 2 + ones n (x / 2)

version_row : ℕ → Bool
version_row v =
    ltb (digit_count (bch_encode v g18)) (digit_count g18) && version_bits v / 2 ^ 12 == v

version_table : all_below 64 version_row ≡ true
unfolding all_below version_row version_bits
version_table = refl

-- For the numbers of six digits the division loop of `bchEncode` ends by its own test within the
-- rounds given to it, and the version stands in the upper six digits of its code word.
pub version_bits-field :
    (v : ℕ)
    → v < 64
    → (digit_count (bch_encode v g18) < digit_count g18) × (version_bits v / 2 ^ 12 ≡ v)
unfolding version_row
version_bits-field v h = let test = all_below_sound 64 version_row v version_table h in ground arith

version_pair : ℕ → ℕ → Bool
version_pair v w = v == w || leb 8 (ones 18 (bit_xor (version_bits v) (version_bits w)))

version_pairs : all_below 64 (λ v. all_below 64 (version_pair v)) ≡ true
unfolding all_below version_pair version_bits ones
version_pairs = refl

-- Two version words differ in at least eight of their eighteen digits.
pub version_bits-distance :
    (v w : ℕ) → v < 64 → w < 64 → v ≢ w → 8 ≤ ones 18 (bit_xor (version_bits v) (version_bits w))
unfolding version_pair
version_bits-distance v w p q ne =
    let row = all_below_sound 64 (λ u. all_below 64 (version_pair u)) v version_pairs p in
    let test = all_below_sound 64 (version_pair v) w row q in
    elim (Bool-cases (v == w)) [
      | inl same ↦ absurd (ne ((==_iff v w).0 same))
      | inr other ↦ le_of_leb 8 _ (rw other at test)
    ]

format_pair : EcLevel → EcLevel → ℕ → ℕ → Bool
format_pair l l' m n =
    (ec_level_bits l == ec_level_bits l' && m == n)
    || leb 7 (ones 15 (bit_xor (format_bits l m) (format_bits l' n)))

format_pairs : (l l' : EcLevel) → all_below 8 (λ m. all_below 8 (format_pair l l' m)) ≡ true
unfolding all_below format_pair format_bits ones
format_pairs low low = refl
format_pairs low medium = refl
format_pairs medium low = refl
format_pairs medium medium = refl

far_mask : (m n x : ℕ) → m ≢ n → (m == n || leb 7 x) ≡ true → 7 ≤ x
far_mask m n x d t = ground arith

-- Two format words of the two levels and the eight masks differ in at least seven of their fifteen
-- digits.
pub format_bits-distance :
    (l l' : EcLevel) (m n : ℕ)
    → m < 8
    → n < 8
    → (l ≢ l') ⊎ (m ≢ n)
    → 7 ≤ ones 15 (bit_xor (format_bits l m) (format_bits l' n))
unfolding format_pair ec_level_bits
format_bits-distance l l' m n p q ne =
    let row = all_below_sound 8 (λ k. all_below 8 (format_pair l l' k)) m (format_pairs l l') p in
    let test = all_below_sound 8 (format_pair l l' m) n row q in apart l l' test ne
  where
    apart :
        (l l' : EcLevel)
        → format_pair l l' m n ≡ true
        → (l ≢ l') ⊎ (m ≢ n)
        → 7 ≤ ones 15 (bit_xor (format_bits l m) (format_bits l' n))
    apart low low t (inl d) = absurd (d refl)
    apart low low t (inr d) = far_mask m n _ d t
    apart low medium t _ = le_of_leb 7 _ t
    apart medium low t _ = le_of_leb 7 _ t
    apart medium medium t (inl d) = absurd (d refl)
    apart medium medium t (inr d) = far_mask m n _ d t
