-- ===== src/Qr/Buffer.antt =====
-- The class BitBuffer of freenetic-qrcode.js.
pub mod Bits
use freenetic.Base.{
  ℕ, zero, suc, ◌+◌, ◌/◌, ◌%◌, ◌^◌, bit_or, Bool, List, [], ◌∷◌, ◌++◌, ◌==◌, leb, if◌then◌else◌,
  get_or, set, length,
}

pub record BitBuffer : Type 0 where
  pub bytes : List ℕ
  pub length : ℕ

unfoldable pub empty : BitBuffer
empty = record { bytes = []; length = 0 }

-- `putBit`; `0x80 >>> k` is 0x80 / 2 ^ k.
unfoldable pub put_bit : BitBuffer → Bool → BitBuffer
put_bit b bit =
    let idx = b.length / 8 in
    let bytes = if leb (length b.bytes) idx then b.bytes ++ 0 ∷ [] else b.bytes in
    record {
      bytes =
          if bit
          then set bytes idx (bit_or (get_or bytes idx 0) (0x80 / 2 ^ (b.length % 8)))
          else bytes;
      length = b.length + 1;
    }

-- The loop of `put` with `len` rounds left: bit `len - 1` of the number comes next.
unfoldable pub put : BitBuffer → ℕ → ℕ → BitBuffer
put b num zero = b
put b num (suc len) = put (put_bit b (num / 2 ^ len % 2 == 1)) num len
