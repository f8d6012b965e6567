-- ===== src/Qr/Bch.antt =====
-- Format and version information of freenetic-qrcode.js: `bchDigitCount`, `bchEncode`,
-- `formatBits` and `versionBits`.
pub mod Laws
use freenetic.Base.{
  ℕ, zero, suc, ◌+◌, ◌-◌, ◌*◌, ◌/◌, ◌^◌, bit_or, bit_xor, ◌==◌, leb, if◌then◌else◌,
}
use freenetic.Qr.Blocks.{EcLevel, low, medium}

-- EC_LEVEL_BITS
unfoldable pub ec_level_bits : EcLevel → ℕ
ec_level_bits low = 1
ec_level_bits medium = 0

abbrev pub g15 : ℕ
g15 = 0x537

abbrev pub g18 : ℕ
g18 = 0x1f25

abbrev pub g15_mask : ℕ
g15_mask = 0x5412

-- The loop of `bchDigitCount`; a number below 2 ^ fuel needs no more than fuel rounds.
unfoldable pub bch_digit_count : ℕ → ℕ → ℕ → ℕ
bch_digit_count zero n bits = bits
bch_digit_count (suc fuel) n bits =
    let rest = bch_digit_count fuel (n / 2) (bits + 1) in if n == 0 then bits else rest

-- The operands of the source's bit operations have 32 bits.
unfoldable pub digit_count : ℕ → ℕ
unfolding bch_digit_count
digit_count n = bch_digit_count 32 n 0

-- The loop of `bchEncode`: each round clears the highest digit of `d`.
unfoldable pub bch_reduce : ℕ → ℕ → ℕ → ℕ
unfolding digit_count
bch_reduce zero generator d = d
bch_reduce (suc fuel) generator d =
    let shift = digit_count d - digit_count generator in
    let rest = bch_reduce fuel generator (bit_xor d (generator * 2 ^ shift)) in
    if leb (digit_count generator) (digit_count d) then rest else d

unfoldable pub bch_encode : ℕ → ℕ → ℕ
unfolding bch_reduce
bch_encode word generator = bch_reduce 32 generator (word * 2 ^ (digit_count generator - 1))

unfoldable pub format_bits : EcLevel → ℕ → ℕ
unfolding bch_encode ec_level_bits
format_bits ec_level mask_pattern =
    let word = bit_or (ec_level_bits ec_level * 2 ^ 3) mask_pattern in
    bit_xor (bit_or (word * 2 ^ 10) (bch_encode word g15)) g15_mask

unfoldable pub version_bits : ℕ → ℕ
unfolding bch_encode
version_bits version = bit_or (version * 2 ^ 12) (bch_encode version g18)
