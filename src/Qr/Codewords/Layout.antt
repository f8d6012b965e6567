-- ===== src/Qr/Codewords/Layout.antt =====
-- The bits of the data code words, in order, and their number.
use freenetic.Base.{
  ℕ, zero, suc, ◌+◌, ◌-◌, ◌*◌, ◌/◌, ◌%◌, ◌<◌, ◌≤◌, ◌≡◌, refl, ap, ◌≢◌, ==_iff, ne_of_==, lt_of_leb,
  ◌∙◌, Bool, false, List, [], ◌∷◌, ◌++◌, append_assoc, append-nil, ◌==◌, ltb, leb, length,
  length-append, replicate, length-replicate, Bool-cases, inl, inr, arith,
}
use freenetic.Qr.Blocks.{EcLevel, capacity_bytes, count_bits}
use freenetic.Qr.Blocks.Pick.{Fits}
use freenetic.Qr.Buffer.{BitBuffer, empty, put_bit, put}
use freenetic.Qr.Buffer.Bits.{Holds, pack, bits_of, empty-Holds, put_bit-Holds, put-Holds}
use freenetic.Qr.Codewords.{
  put_all, align, pad_byte, fill, header_and_data, terminate, build_data_codewords,
}

pub length-bits_of : (num len : ℕ) → length (bits_of num len) ≡ len
length-bits_of num zero = refl
length-bits_of num (suc len) = ap suc (length-bits_of num len)

-- The bits of a sequence of bytes.
abbrev pub unpack : List ℕ → List Bool
unpack [] = []
unpack (x ∷ xs) = bits_of x 8 ++ unpack xs

pub length-unpack : (xs : List ℕ) → length (unpack xs) ≡ 8 * length xs
length-unpack [] = omega arith
length-unpack (x ∷ xs) =
    omega (arith, length-append (bits_of x 8) (unpack xs), length-bits_of x 8, length-unpack xs)

put_all-Holds :
    (b : BitBuffer) (bs : List Bool) (xs : List ℕ)
    → Holds b bs
    → Holds (put_all b xs) (bs ++ unpack xs)
unfolding put_all
put_all-Holds b bs [] h = rw append-nil h
put_all-Holds b bs (x ∷ xs) h =
    let rest = put_all-Holds (put b x 8) (bs ++ bits_of x 8) xs (put-Holds b bs x 8 h) in
    rw append_assoc at rest

abbrev pub falses : ℕ → List Bool
falses n = replicate n false

-- Alignment appends fewer than eight zero bits, and ends at a multiple of eight.
align-Holds :
    (fuel : ℕ) (b : BitBuffer) (bs : List Bool)
    → (8 - length bs % 8) % 8 ≤ fuel
    → Holds b bs
    → (k : ℕ) × Holds (align fuel b) (bs ++ falses k) × ((length bs + k) % 8 ≡ 0) × (k < 8)
unfolding align
align-Holds zero b bs f h = (0, rw append-nil h, omega arith, omega arith)
align-Holds (suc fuel) b bs f h = elim (Bool-cases (b.length % 8 == 0)) [
  | inl aligned ↦ (
    0,
    rw (aligned, append-nil) h,
    omega (arith, h.counted, (==_iff (b.length % 8) 0).0 aligned),
    omega arith,
  )
  | inr ragged ↦
      let off : length bs % 8 ≢ 0 =
        λ e. ne_of_== (b.length % 8) 0 ragged (omega (arith, h.counted)) in
      let size : length (bs ++ false ∷ []) ≡ length bs + 1 =
        omega (arith, length-append bs (false ∷ [])) in
      let (k, held, even, small) =
        align-Holds fuel (put_bit b false) (bs ++ false ∷ []) (omega arith)
          (put_bit-Holds b bs false h) in
      (suc k, rw (ragged, ← append_assoc bs (false ∷ []) (falses k)) held, omega arith, omega arith)
]

length-pack : (bs : List Bool) → length (pack bs) ≡ (length bs + 7) / 8
length-pack [] = omega arith
length-pack (b0 ∷ b1 ∷ b2 ∷ b3 ∷ b4 ∷ b5 ∷ b6 ∷ b7 ∷ bs) = omega (arith, length-pack bs)
length-pack bs = omega arith

-- The padding bytes 0xEC and 0x11 in turn, from the i-th on.
abbrev pub padding : ℕ → ℕ → List ℕ
padding zero i = []
padding (suc n) i = pad_byte i ∷ padding n (i + 1)

length-padding : (n i : ℕ) → length (padding n i) ≡ n
length-padding zero i = refl
length-padding (suc n) i = ap suc (length-padding n (i + 1))

fill-Holds :
    (fuel cap_bytes i : ℕ) (b : BitBuffer) (bs : List Bool) (k : ℕ)
    → Holds b bs
    → length bs ≡ 8 * k
    → k ≤ cap_bytes
    → cap_bytes - k ≤ fuel
    → Holds (fill fuel cap_bytes i b) (bs ++ unpack (padding (cap_bytes - k) i))
unfolding fill
fill-Holds zero cap_bytes i b bs k h e p f =
    let done : cap_bytes - k ≡ 0 = omega arith in rw (done, append-nil) h
fill-Holds (suc fuel) cap_bytes i b bs k h e p f =
    let size : length b.bytes ≡ k = ap length h.packed ∙ omega (arith, length-pack bs) in
    elim (Bool-cases (ltb (length b.bytes) cap_bytes)) [
      | inl room ↦
          let left : cap_bytes - k ≡ suc (cap_bytes - (k + 1)) = ground arith in
          let word = bits_of (pad_byte i) 8 in
          let ih =
            fill-Holds fuel cap_bytes (i + 1) (put b (pad_byte i) 8) (bs ++ word) (k + 1)
              (put-Holds b bs (pad_byte i) 8 h)
              (omega (arith, length-append bs word, length-bits_of (pad_byte i) 8)) (ground arith)
              (omega arith) in
          rw (room, left) (rw append_assoc at ih)
      | inr full ↦ let done : cap_bytes - k ≡ 0 = ground arith in rw (full, done, append-nil) h
    ]

header_and_data-Holds :
    (bytes : List ℕ) (version : ℕ)
    → Holds
        (header_and_data bytes version)
        (bits_of 4 4 ++ bits_of (length bytes) (count_bits version) ++ unpack bytes)
unfolding header_and_data
header_and_data-Holds bytes version =
    let mode = put-Holds empty [] 4 4 empty-Holds in
    let sized = put-Holds _ _ (length bytes) (count_bits version) mode in
    put_all-Holds _ _ bytes sized

terminate-Holds :
    (b : BitBuffer) (bs : List Bool) (cap_bits : ℕ)
    → Holds b bs
    → length bs + 4 ≤ cap_bits
    → Holds (terminate cap_bits b) (bs ++ bits_of 0 4)
unfolding terminate
terminate-Holds b bs cap_bits h room = elim (Bool-cases (leb (b.length + 4) cap_bits)) [
  | inl fits ↦ rw fits (put-Holds b bs 0 4 h)
  | inr full ↦ absurd (omega (arith, h.counted, lt_of_leb (b.length + 4) cap_bits full))
]

module _ (bytes : List ℕ) (version : ℕ) (ec_level : EcLevel)
    (fits : Fits (length bytes) version ec_level) where
  abbrev start : List Bool
  start = bits_of 4 4 ++ bits_of (length bytes) (count_bits version) ++ unpack bytes

  length-start : length start ≡ 4 + count_bits version + 8 * length bytes
  length-start = omega (
    arith,
    length-append (bits_of 4 4 ++ bits_of (length bytes) (count_bits version)) (unpack bytes),
    length-append (bits_of 4 4) (bits_of (length bytes) (count_bits version)),
    length-bits_of (length bytes) (count_bits version),
    length-unpack bytes,
  )

  -- Where the text fits, the code words hold the mode 0100, the number of bytes, the bytes, the
  -- terminator 0000, fewer than eight zero bits and then the padding bytes in turn; and they fill the
  -- capacity of the version and level exactly.
  pub build_data_codewords-layout :
      (k pads : ℕ) × (bits : List Bool) × (build_data_codewords bytes version ec_level ≡ pack bits)
      × (bits ≡ (start ++ bits_of 0 4 ++ falses k) ++ unpack (padding pads 0))
      × (length bits ≡ 8 * capacity_bytes version ec_level)
      × (length (build_data_codewords bytes version ec_level) ≡ capacity_bytes version ec_level)
      × (k < 8)
  unfolding build_data_codewords
  build_data_codewords-layout =
      let cap = capacity_bytes version ec_level in
      let ended = start ++ bits_of 0 4 in
      let size : length ended ≡ length start + 4 =
        omega (arith, length-append start (bits_of 0 4)) in
      let held =
        terminate-Holds (header_and_data bytes version) start (cap * 8)
          (header_and_data-Holds bytes version) (omega (arith, length-start)) in
      let b = terminate (cap * 8) (header_and_data bytes version) in
      let (k, aligned, even, small) = align-Holds 8 b ended (omega arith) held in
      let whole = ended ++ falses k in
      let total : length whole ≡ length ended + k =
        omega (arith, length-append ended (falses k), length-replicate {A = Bool} k false) in
      let m = length whole / 8 in
      let exact : length whole ≡ 8 * m = omega (arith, even, total) in
      let inside : m ≤ cap = omega (arith, length-start, size, total, small, even, fits) in
      let full = fill-Holds cap cap 0 (align 8 b) whole m aligned exact inside (omega arith) in
      let pads = padding (cap - m) 0 in
      let bits : length (whole ++ unpack pads) ≡ 8 * cap = omega (
        arith,
        length-append whole (unpack pads),
        length-unpack pads,
        length-padding (cap - m) 0,
        exact,
        inside,
      ) in
      (
        k,
        cap - m,
        whole ++ unpack pads,
        full.packed,
        refl,
        bits,
        ap length full.packed ∙ omega (arith, length-pack (whole ++ unpack pads), bits),
        small,
      )
