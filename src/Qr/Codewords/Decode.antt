-- ===== src/Qr/Codewords/Decode.antt =====
-- Reading the data code words back: the reader of ISO 18004 in byte mode finds the text's bytes.
use freenetic.Base.{
  ℕ, zero, suc, ◌+◌, ◌-◌, ◌*◌, ◌/◌, ◌%◌, ◌^◌, ◌<◌, ◌≤◌, ◌≡◌, refl, ap, le_of_leb, ◌≡⟨◌⟩◌, ◌∎,
  ==_iff, ne_of_==, ap₂, ◌∙◌, Bool, true, false, List, [], ◌∷◌, ◌++◌, append_assoc, Option, none,
  some, ◌==◌, leb, if◌then◌else◌, length, take, drop, all_below, all_below_sound, All, Bool-cases,
  inl, inr, arith,
}
use native.Mathlib.Nat.{
  pow-suc, one-le-pow, div-add-mod, mod-lt, add-mul-mod_self_left, mod-eq_of_lt,
}
use freenetic.Qr.Blocks.{EcLevel, low, medium, capacity_bytes, count_bits}
use freenetic.Qr.Blocks.Pick.{Fits}
use freenetic.Qr.Buffer.Bits.{value, byte_of, pack, bits_of, all_bits, all_bits_sound}
use freenetic.Qr.Codewords.{build_data_codewords}
use freenetic.Qr.Codewords.Layout.{
  unpack, falses, padding, length-bits_of, build_data_codewords-layout,
}

-- Eight bits each.
read_bytes : ℕ → List Bool → List ℕ
read_bytes zero bs = []
read_bytes (suc n) bs = value 0 (take 8 bs) ∷ read_bytes n (drop 8 bs)

-- The mode 0100, the number of bytes, the bytes.
pub decode : ℕ → List ℕ → Option (List ℕ)
decode width words =
    let bs = unpack words in
    if value 0 (take 4 bs) == 4
    then some (read_bytes (value 0 (take width (drop 4 bs))) (drop width (drop 4 bs)))
    else none

take-append : (xs ys : List Bool) (n : ℕ) → length xs ≡ n → take n (xs ++ ys) ≡ xs
take-append [] ys zero h = refl
take-append [] ys (suc n) h = absurd (omega arith)
take-append (x ∷ xs) ys zero h = absurd (omega arith)
take-append (x ∷ xs) ys (suc n) h = ap (λ l. x ∷ l) (take-append xs ys n (omega arith))

drop-append : (xs ys : List Bool) (n : ℕ) → length xs ≡ n → drop n (xs ++ ys) ≡ ys
drop-append [] ys zero h = refl
drop-append [] ys (suc n) h = absurd (omega arith)
drop-append (x ∷ xs) ys zero h = absurd (omega arith)
drop-append (x ∷ xs) ys (suc n) h = drop-append xs ys n (omega arith)

mod_double : (num p : ℕ) → 0 < p → num % (p * 2) ≡ num / p % 2 * p + num % p
mod_double num p pos =
    let q = num / p in
    let low = q % 2 * p + num % p in
    let halves : p * q ≡ p * (2 * (q / 2) + q % 2) = ap (λ (t : ℕ). p * t) (omega arith) in
    let whole : num ≡ low + p * 2 * (q / 2) = omega (arith, div-add-mod num p, halves) in
    let bit_bound : q % 2 * p ≤ 1 * p = grind arith in
    let small : low < p * 2 = omega (arith, mod-lt num pos, bit_bound) in
    num % (p * 2)
    ≡⟨ ap (λ (t : ℕ). t % (p * 2)) whole ⟩ (low + p * 2 * (q / 2)) % (p * 2)
    ≡⟨ add-mul-mod_self_left low (p * 2) (q / 2) ⟩ low % (p * 2)
    ≡⟨ mod-eq_of_lt small ⟩ low ∎

-- The low bits of a number spell its remainder.
value-bits_of : (num acc len : ℕ) → value acc (bits_of num len) ≡ acc * 2 ^ len + num % 2 ^ len
value-bits_of num acc zero = ground arith
value-bits_of num acc (suc len) =
    let p = 2 ^ len in
    let wide : num % 2 ^ suc len ≡ num / p % 2 * p + num % p =
      rw (pow-suc 2 len) (mod_double num p (one-le-pow len 2 (omega arith))) in
    elim (Bool-cases (num / p % 2 == 1)) [
      | inl one ↦
          let e = (==_iff (num / p % 2) 1).0 one in
          let scaled : num / p % 2 * p ≡ 1 * p = ap (λ (t : ℕ). t * p) e in
          rw one (
            value-bits_of num (acc * 2 + 1) len
            ∙ omega (arith, wide, scaled, pow-suc 2 len, ap (λ (t : ℕ). acc * t) (pow-suc 2 len)))
      | inr zero_bit ↦
          let e : num / p % 2 ≡ 0 = omega (arith, ne_of_== (num / p % 2) 1 zero_bit) in
          let scaled : num / p % 2 * p ≡ 0 * p = ap (λ (t : ℕ). t * p) e in
          rw zero_bit (
            value-bits_of num (acc * 2) len
            ∙ omega (arith, wide, scaled, pow-suc 2 len, ap (λ (t : ℕ). acc * t) (pow-suc 2 len)))
    ]

pub value-bits_of-lt : (num len : ℕ) → num < 2 ^ len → value 0 (bits_of num len) ≡ num
value-bits_of-lt num len h = omega (arith, value-bits_of num 0 len, mod-eq_of_lt h)

bits_eq : List Bool → List Bool → Bool
bits_eq [] [] = true
bits_eq [] (c ∷ cs) = false
bits_eq (b ∷ bs) [] = false
bits_eq (true ∷ bs) (true ∷ cs) = bits_eq bs cs
bits_eq (true ∷ bs) (false ∷ cs) = false
bits_eq (false ∷ bs) (true ∷ cs) = false
bits_eq (false ∷ bs) (false ∷ cs) = bits_eq bs cs

eq_of_bits_eq : (bs cs : List Bool) → bits_eq bs cs ≡ true → bs ≡ cs
unfolding bits_eq
eq_of_bits_eq [] [] h = refl
eq_of_bits_eq [] (c ∷ cs) h = cc
eq_of_bits_eq (b ∷ bs) [] h = cc
eq_of_bits_eq (true ∷ bs) (true ∷ cs) h = ap (λ l. true ∷ l) (eq_of_bits_eq bs cs h)
eq_of_bits_eq (true ∷ bs) (false ∷ cs) h = cc
eq_of_bits_eq (false ∷ bs) (true ∷ cs) h = cc
eq_of_bits_eq (false ∷ bs) (false ∷ cs) h = ap (λ l. false ∷ l) (eq_of_bits_eq bs cs h)

byte_test : List Bool → Bool
byte_test bs = bits_eq (bits_of (byte_of bs) 8) bs

byte_table : all_bits 8 byte_test ≡ true
unfolding all_bits byte_test bits_eq
byte_table = refl

bits_of-byte_of : (bs : List Bool) → length bs ≡ 8 → bits_of (byte_of bs) 8 ≡ bs
unfolding byte_test
bits_of-byte_of bs h = eq_of_bits_eq _ _ (all_bits_sound 8 byte_test bs byte_table h)

-- Whole bytes are read back as the bits that were packed.
unpack-pack : (bs : List Bool) (m : ℕ) → length bs ≡ 8 * m → unpack (pack bs) ≡ bs
unpack-pack [] m h = refl
unpack-pack (b0 ∷ b1 ∷ b2 ∷ b3 ∷ b4 ∷ b5 ∷ b6 ∷ b7 ∷ bs) m h =
    ap₂ ◌++◌ (bits_of-byte_of (b0 ∷ b1 ∷ b2 ∷ b3 ∷ b4 ∷ b5 ∷ b6 ∷ b7 ∷ []) refl)
      (unpack-pack bs (m - 1) (omega arith))
unpack-pack bs m h = absurd (omega arith)

read_bytes-unpack :
    (xs : List ℕ) (rest : List Bool)
    → All (λ x. x < 256) xs
    → read_bytes (length xs) (unpack xs ++ rest) ≡ xs
unfolding read_bytes
read_bytes-unpack [] rest h = refl
read_bytes-unpack (x ∷ xs) rest (p, h) =
    let word = bits_of x 8 in
    let shape = append_assoc word (unpack xs) rest in
    ap₂ ◌∷◌
      (ap (value 0) (ap (take 8) shape ∙ take-append word (unpack xs ++ rest) 8 refl)
        ∙ value-bits_of-lt x 8 p)
      (ap (read_bytes (length xs)) (ap (drop 8) shape ∙ drop-append word (unpack xs ++ rest) 8 refl)
        ∙ read_bytes-unpack xs rest h)

length_room : EcLevel → ℕ → Bool
length_room ec_level v =
    leb (capacity_bytes v ec_level * 8) (4 + count_bits v + 8 * 2 ^ count_bits v + 3)

length_table : (ec_level : EcLevel) → all_below 11 (length_room ec_level) ≡ true
unfolding all_below length_room count_bits capacity_bytes
length_table low = refl
length_table medium = refl

-- A text that fits a version is shorter than what the version's length field can say.
length-Fits :
    (n version : ℕ) (ec_level : EcLevel)
    → version < 11
    → Fits n version ec_level
    → n < 2 ^ count_bits version
unfolding length_room
length-Fits n version ec_level b f =
    let test = all_below_sound 11 (length_room ec_level) version (length_table ec_level) b in
    omega (arith, le_of_leb _ _ test)

-- The words that hold the fields in order, with anything behind them, are read as the bytes.
decode_fields :
    (bytes words : List ℕ) (width : ℕ) (rest : List Bool)
    → unpack words ≡ bits_of 4 4 ++ (bits_of (length bytes) width ++ (unpack bytes ++ rest))
    → length bytes < 2 ^ width
    → All (λ x. x < 256) bytes
    → decode width words ≡ some bytes
unfolding decode
decode_fields bytes words width rest e short h =
    let size = bits_of (length bytes) width in
    let tail_bits = unpack bytes ++ rest in
    let len = length-bits_of (length bytes) width in
    let n : value 0 (take width (size ++ tail_bits)) ≡ length bytes =
      ap (value 0) (take-append size tail_bits width len)
      ∙ value-bits_of-lt (length bytes) width short in
    rw (e, n, drop-append size tail_bits width len) (ap some (read_bytes-unpack bytes rest h))

-- The data code words built for a text that fits are read back, by their mode and length fields, as
-- exactly the bytes of the text.
pub decode-build_data_codewords :
    (bytes : List ℕ) (version : ℕ) (ec_level : EcLevel)
    → version < 11
    → Fits (length bytes) version ec_level
    → All (λ x. x < 256) bytes
    → decode (count_bits version) (build_data_codewords bytes version ec_level) ≡ some bytes
decode-build_data_codewords bytes version ec_level b fits h =
    let (k, pads, bits, words, shape, total, _, _) =
      build_data_codewords-layout bytes version ec_level fits in
    let rest = bits_of 0 4 ++ (falses k ++ unpack (padding pads 0)) in
    let fields : bits
        ≡ bits_of 4 4 ++ (bits_of (length bytes) (count_bits version) ++ (unpack bytes ++ rest)) =
      shape ∙ simp append_assoc in
    decode_fields bytes _ (count_bits version) rest
      (ap unpack words ∙ unpack-pack bits (capacity_bytes version ec_level) total ∙ fields)
      (length-Fits (length bytes) version ec_level b fits) h
