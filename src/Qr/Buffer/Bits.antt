-- ===== src/Qr/Buffer/Bits.antt =====
-- A BitBuffer holds a sequence of bits: packed eight to a byte, the first in the highest place.
use freenetic.Base.{
  text_eq, text_eq_iff, All, lt_of_ltb, Bool-cases, inl, inr, ℕ, zero, suc, ◌+◌, ◌-◌, ◌*◌, ◌/◌, ◌%◌,
  ◌^◌, ◌<◌, bit_or, ◌≡◌, refl, ap, ◌∙◌, Bool, true, false, ◌&&◌, List, [], ◌∷◌, ◌++◌, append-nil,
  append_assoc, ◌==◌, ltb, leb, if◌then◌else◌, get_or, set, length, length-append, all_below,
  all_below_sound, arith,
}
use freenetic.Qr.Buffer.{BitBuffer, empty, put_bit, put}

-- The number that bits spell, the first in the highest place.
abbrev pub value : ℕ → List Bool → ℕ
value acc [] = acc
value acc (true ∷ bs) = value (acc * 2 + 1) bs
value acc (false ∷ bs) = value (acc * 2) bs

-- A byte from at most eight bits, filled up with zeros.
abbrev pub byte_of : List Bool → ℕ
byte_of bs = value 0 bs * 2 ^ (8 - length bs)

-- The bytes of a sequence of bits.
abbrev pub pack : List Bool → List ℕ
pack [] = []
pack (b0 ∷ b1 ∷ b2 ∷ b3 ∷ b4 ∷ b5 ∷ b6 ∷ b7 ∷ bs) =
    byte_of (b0 ∷ b1 ∷ b2 ∷ b3 ∷ b4 ∷ b5 ∷ b6 ∷ b7 ∷ []) ∷ pack bs
pack bs = byte_of bs ∷ []

-- The buffer holds these bits.
pub record Holds (b : BitBuffer) (bs : List Bool) : Type 0 where
  pub packed : b.bytes ≡ pack bs
  pub counted : b.length ≡ length bs

pub empty-Holds : Holds empty []
unfolding empty
empty-Holds = record { packed = refl; counted = refl }

-- The bytes after a call of `putBit`.
put_bytes : List ℕ → ℕ → Bool → List ℕ
put_bytes bytes n bit =
    let idx = n / 8 in
    let longer = if leb (length bytes) idx then bytes ++ 0 ∷ [] else bytes in
    if bit then set longer idx (bit_or (get_or longer idx 0) (0x80 / 2 ^ (n % 8))) else longer

leb-suc : (a b : ℕ) → leb (suc a) (suc b) ≡ leb a b
leb-suc a b = ground arith

if-cons :
    (w : ℕ) (ws : List ℕ) (i v : ℕ) (bit : Bool)
    → (if bit then set (w ∷ ws) (suc i) v else w ∷ ws) ≡ w ∷ (if bit then set ws i v else ws)
if-cons w ws i v true = refl
if-cons w ws i v false = refl

put_bytes_step :
    (w : ℕ) (ws : List ℕ) (n : ℕ) (bit : Bool)
    → put_bytes (w ∷ ws) (8 + n) bit ≡ w ∷ put_bytes ws n bit
unfolding put_bytes
put_bytes_step w ws n bit =
    let idx : (8 + n) / 8 ≡ suc (n / 8) = omega arith in
    let place : (8 + n) % 8 ≡ n % 8 = omega arith in
    rw (idx, place, leb-suc (length ws) (n / 8))
      (elim (Bool-cases (leb (length ws) (n / 8))) [
        | inl full ↦ rw full (if-cons w (ws ++ 0 ∷ []) (n / 8) _ bit)
        | inr room ↦ rw room (if-cons w ws (n / 8) _ bit)
      ])

-- A test of all sequences of n bits.
unfoldable pub all_bits : ℕ → (List Bool → Bool) → Bool
all_bits zero p = p []
all_bits (suc n) p = all_bits n (λ bs. p (true ∷ bs)) && all_bits n (λ bs. p (false ∷ bs))

pub all_bits_sound :
    (n : ℕ) (p : List Bool → Bool) (bs : List Bool)
    → all_bits n p ≡ true
    → length bs ≡ n
    → p bs ≡ true
unfolding all_bits
all_bits_sound zero p [] h e = h
all_bits_sound zero p (b ∷ bs) h e = absurd (omega arith)
all_bits_sound (suc n) p [] h e = absurd (omega arith)
all_bits_sound (suc n) p (true ∷ bs) h e =
    all_bits_sound n (λ cs. p (true ∷ cs)) bs (ground arith) (omega arith)
all_bits_sound (suc n) p (false ∷ bs) h e =
    all_bits_sound n (λ cs. p (false ∷ cs)) bs (ground arith) (omega arith)

short_test : Bool → List Bool → Bool
short_test bit bs = text_eq (put_bytes (pack bs) (length bs) bit) (pack (bs ++ bit ∷ []))

short_table : Bool → Bool
short_table bit = all_below 8 (λ n. all_bits n (short_test bit))

short_tables : (bit : Bool) → short_table bit ≡ true
unfolding short_table short_test all_bits all_below put_bytes text_eq
short_tables true = refl
short_tables false = refl

put_bytes_short :
    (bs : List Bool) (bit : Bool)
    → length bs < 8
    → put_bytes (pack bs) (length bs) bit ≡ pack (bs ++ bit ∷ [])
unfolding short_table short_test
put_bytes_short bs bit h =
    let row =
      all_below_sound 8 (λ n. all_bits n (short_test bit)) (length bs) (short_tables bit) h in
    (text_eq_iff _ _).0 (all_bits_sound (length bs) (short_test bit) bs row refl)

put_bytes-pack :
    (bs : List Bool) (bit : Bool) → put_bytes (pack bs) (length bs) bit ≡ pack (bs ++ bit ∷ [])
put_bytes-pack (b0 ∷ b1 ∷ b2 ∷ b3 ∷ b4 ∷ b5 ∷ b6 ∷ b7 ∷ bs) bit =
    let w = byte_of (b0 ∷ b1 ∷ b2 ∷ b3 ∷ b4 ∷ b5 ∷ b6 ∷ b7 ∷ []) in
    let eight : length (b0 ∷ b1 ∷ b2 ∷ b3 ∷ b4 ∷ b5 ∷ b6 ∷ b7 ∷ bs) ≡ 8 + length bs = omega arith in
    rw eight
      (put_bytes_step w (pack bs) (length bs) bit ∙ ap (λ ws. w ∷ ws) (put_bytes-pack bs bit))
put_bytes-pack bs bit = put_bytes_short bs bit (omega arith)

-- `putBit` appends one bit.
pub put_bit-Holds :
    (b : BitBuffer) (bs : List Bool) (bit : Bool)
    → Holds b bs
    → Holds (put_bit b bit) (bs ++ bit ∷ [])
unfolding put_bit put_bytes
put_bit-Holds b bs bit h = record {
  packed = rw (h.packed, h.counted) (put_bytes-pack bs bit);
  counted = omega (arith, h.counted, length-append bs (bit ∷ []));
}

-- The low `len` bits of a number, the highest of them first.
abbrev pub bits_of : ℕ → ℕ → List Bool
bits_of num zero = []
bits_of num (suc len) = (num / 2 ^ len % 2 == 1) ∷ bits_of num len

-- `put` appends the low bits of a number, the highest first.
pub put-Holds :
    (b : BitBuffer) (bs : List Bool) (num len : ℕ)
    → Holds b bs
    → Holds (put b num len) (bs ++ bits_of num len)
unfolding put
put-Holds b bs num zero h = rw append-nil h
put-Holds b bs num (suc len) h =
    let bit = num / 2 ^ len % 2 == 1 in
    let rest = put-Holds (put_bit b bit) (bs ++ bit ∷ []) num len (put_bit-Holds b bs bit h) in
    rw append_assoc at rest

byte_size : List Bool → Bool
byte_size bs = ltb (byte_of bs) 256

byte_sizes : all_below 9 (λ n. all_bits n byte_size) ≡ true
unfolding all_below all_bits byte_size
byte_sizes = refl

byte_of-lt : (bs : List Bool) → length bs < 9 → byte_of bs < 256
unfolding byte_size
byte_of-lt bs h =
    let row = all_below_sound 9 (λ n. all_bits n byte_size) (length bs) byte_sizes h in
    lt_of_ltb (byte_of bs) 256 (all_bits_sound (length bs) byte_size bs row refl)

-- Packed bits are bytes.
pub pack-IsByte : (bs : List Bool) → All (λ x. x < 256) (pack bs)
pack-IsByte [] = tt
pack-IsByte (b0 ∷ b1 ∷ b2 ∷ b3 ∷ b4 ∷ b5 ∷ b6 ∷ b7 ∷ bs) =
    (byte_of-lt (b0 ∷ b1 ∷ b2 ∷ b3 ∷ b4 ∷ b5 ∷ b6 ∷ b7 ∷ []) (omega arith), pack-IsByte bs)
pack-IsByte bs = (byte_of-lt bs (omega arith), tt)
