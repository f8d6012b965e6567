-- ===== src/Qr/Codewords.antt =====
-- `buildDataCodewords` of freenetic-qrcode.js: mode, length, data, terminator and padding.
pub mod Layout
pub mod Decode
use freenetic.Base.{
  ℕ, zero, suc, ◌+◌, ◌*◌, ◌%◌, Bool, false, List, [], ◌∷◌, ◌==◌, ltb, leb, if◌then◌else◌, get_or,
  length,
}
use freenetic.Qr.Blocks.{EcLevel, capacity_bytes, count_bits}
use freenetic.Qr.Buffer.{BitBuffer, empty, put_bit, put}

-- `for (const b of bytes) buf.put(b, 8)`
unfoldable pub put_all : BitBuffer → List ℕ → BitBuffer
put_all b [] = b
put_all b (x ∷ xs) = put_all (put b x 8) xs

-- `while (buf.length % 8 !== 0) buf.putBit(false)`; seven rounds are enough.
unfoldable pub align : ℕ → BitBuffer → BitBuffer
align zero b = b
align (suc fuel) b =
    let rest = align fuel (put_bit b false) in if b.length % 8 == 0 then b else rest

unfoldable pub pad_byte : ℕ → ℕ
pad_byte i = if i % 2 == 0 then 0xec else 0x11

-- `while (buf.bytes.length < capBytes) { buf.put(pad[i % 2], 8); i++; }`; each round adds a byte.
unfoldable pub fill : ℕ → ℕ → ℕ → BitBuffer → BitBuffer
fill zero cap_bytes i b = b
fill (suc fuel) cap_bytes i b =
    let rest = fill fuel cap_bytes (i + 1) (put b (pad_byte i) 8) in
    if ltb (length b.bytes) cap_bytes then rest else b

-- Mode and length, and the data.
unfoldable pub header_and_data : List ℕ → ℕ → BitBuffer
header_and_data bytes version =
    put_all (put (put empty 4 4) (length bytes) (count_bits version)) bytes

-- The four bits of the terminator, where there is room.
unfoldable pub terminate : ℕ → BitBuffer → BitBuffer
terminate cap_bits b = if leb (b.length + 4) cap_bits then put b 0 4 else b

unfoldable pub build_data_codewords : List ℕ → ℕ → EcLevel → List ℕ
build_data_codewords bytes version ec_level =
    let cap_bytes = capacity_bytes version ec_level in
    let ended = terminate (cap_bytes * 8) (header_and_data bytes version) in
    (fill cap_bytes cap_bytes 0 (align 8 ended)).bytes
