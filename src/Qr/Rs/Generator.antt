-- ===== src/Qr/Rs/Generator.antt =====
-- The generator polynomial is monic, of the degree asked for, with the powers of the field's
-- generator as its roots; and the code words that `rsEncode` completes are its multiples.
use freenetic.Base.{
  ℕ, zero, suc, ◌+◌, ◌<◌, ◌≤◌, bit_xor, ◌≡◌, refl, sym, ap, ◌∙◌, Bool, true, List, [], ◌∷◌, ◌++◌,
  map, ◌==◌, ==_iff, ltb, get_or, every, length, length-append, length-replicate, All, All-append,
  all_below, all_below_sound, arith, ◌≡⟨◌⟩◌, ◌∎,
}
use freenetic.Base.Bits.{bit_xor-zero}
use freenetic.Qr.Field.{Tables, gmul, init_gf256}
use freenetic.Qr.Field.Laws.{gmul-one, gmul-lt}
use freenetic.Qr.Rs.{
  xor_into, generator_polynomial, generator_rounds, generator_round, rs_loop, rs_encode,
}
use freenetic.Qr.Rs.Divides.{
  IsByte, poly_mul, zeros, xor_into-IsByte, zeros-IsByte, xor_into_cancel, length-xor_into,
  pad_then_add, rs_loop-divides,
}

get_or-lt : (xs : List ℕ) (i : ℕ) → every (λ x. ltb x 256) xs ≡ true → get_or xs i 0 < 256
unfolding every
get_or-lt [] i h = omega arith
get_or-lt (x ∷ xs) zero h = ground arith
get_or-lt (x ∷ xs) (suc i) h = ground (arith, get_or-lt xs i)

exp_bytes : every (λ x. ltb x 256) init_gf256.exp ≡ true
unfolding every init_gf256
exp_bytes = refl

scaled-IsByte :
    (k : ℕ) (xs : List ℕ) → k < 256 → All IsByte xs → All IsByte (map (λ c. gmul init_gf256 c k) xs)
scaled-IsByte k [] p h = tt
scaled-IsByte k (x ∷ xs) p (q, h) = (gmul-lt x k q p, scaled-IsByte k xs p h)

-- The tail of a monic polynomial after a round of `generatorPolynomial`.
next_tail : ℕ → List ℕ → List ℕ
next_tail i g =
    xor_into (xor_into (0 ∷ zeros (length g)) (map (λ c. gmul init_gf256 c 1) g))
      (map (λ c. gmul init_gf256 c (get_or init_gf256.exp i 0)) (1 ∷ g))

round-monic : (i : ℕ) (g : List ℕ) → generator_round init_gf256 i (1 ∷ g) ≡ 1 ∷ next_tail i g
unfolding generator_round next_tail
round-monic i g =
    let size : suc (length g) + 1 ≡ suc (suc (length g)) = omega arith in
    rw (size, xor_into, gmul-one 1 (omega arith), bit_xor-zero)

next_tail-IsByte : (i : ℕ) (g : List ℕ) → All IsByte g → All IsByte (next_tail i g)
unfolding next_tail
next_tail-IsByte i g h =
    xor_into-IsByte _ _
      (xor_into-IsByte _ _ (omega arith, zeros-IsByte (length g))
        (scaled-IsByte 1 g (omega arith) h))
      (scaled-IsByte _ (1 ∷ g) (get_or-lt init_gf256.exp i exp_bytes) (omega arith, h))

length-next_tail : (i : ℕ) (g : List ℕ) → length (next_tail i g) ≡ suc (length g)
unfolding next_tail
length-next_tail i g = rw (length-xor_into, length-xor_into, length-replicate)

-- A monic polynomial stays monic, and each round adds one to its degree.
generator_rounds-monic :
    (n i : ℕ) (g : List ℕ)
    → All IsByte g
    → (h : List ℕ) × (generator_rounds init_gf256 n i (1 ∷ g) ≡ 1 ∷ h)
      × (length h ≡ n + length g)
      × All IsByte h
unfolding generator_rounds
generator_rounds-monic zero i g b = (g, refl, omega arith, b)
generator_rounds-monic (suc n) i g b =
    let (h, e, size, bytes) =
      generator_rounds-monic n (i + 1) (next_tail i g) (next_tail-IsByte i g b) in
    (h, rw (round-monic i g) e, omega (arith, length-next_tail i g), bytes)

generator-monic :
    (n : ℕ)
    → (g : List ℕ) × (generator_polynomial init_gf256 n ≡ 1 ∷ g) × (length g ≡ n) × All IsByte g
unfolding generator_polynomial
generator-monic n =
    let (g, e, size, bytes) = generator_rounds-monic n 0 [] tt in (g, e, omega arith, bytes)

module _ (data_bytes : List ℕ) (ec_count : ℕ) (bytes : All IsByte data_bytes) where
  completes :
      (g : List ℕ)
      → All IsByte g
      → length g ≡ ec_count
      → (q : List ℕ) × (length q ≡ length data_bytes)
        × (data_bytes
              ++ rs_loop init_gf256 (1 ∷ g) (length data_bytes) (data_bytes ++ zeros ec_count)
            ≡ poly_mul init_gf256 q (1 ∷ g))
        × (length (rs_loop init_gf256 (1 ∷ g) (length data_bytes) (data_bytes ++ zeros ec_count))
            ≡ ec_count)
  completes g b size =
      let msg = data_bytes ++ zeros ec_count in
      let len : length msg ≡ length data_bytes + length g =
        omega
          (arith, length-append data_bytes (zeros ec_count), length-replicate {A = ℕ} ec_count 0) in
      let (q, q_size, e, r_size) =
        rs_loop-divides g b (length data_bytes) msg len
          (All-append IsByte data_bytes (zeros ec_count) bytes (zeros-IsByte ec_count)) in
      let r = rs_loop init_gf256 (1 ∷ g) (length data_bytes) msg in
      let added = zeros (length data_bytes) ++ r in
      let product = poly_mul init_gf256 q (1 ∷ g) in
      let whole : data_bytes ++ r ≡ product =
        data_bytes ++ r
        ≡⟨ sym (pad_then_add data_bytes r ec_count (r_size ∙ size)) ⟩ xor_into msg added
        ≡⟨ ap (λ s. xor_into s added) e ⟩ xor_into (xor_into product added) added
        ≡⟨ xor_into_cancel product added ⟩ product ∎ in
      (q, q_size, whole, r_size ∙ size)

-- The data bytes with the check bytes of `rsEncode` behind them are the product of the generator
-- polynomial and some polynomial; there are as many check bytes as were asked for.
pub rs_encode-divides :
    (data_bytes : List ℕ) (ec_count : ℕ)
    → All IsByte data_bytes
    → (q : List ℕ) × (length q ≡ length data_bytes)
      × (data_bytes ++ rs_encode init_gf256 data_bytes ec_count
          ≡ poly_mul init_gf256 q (generator_polynomial init_gf256 ec_count))
      × (length (rs_encode init_gf256 data_bytes ec_count) ≡ ec_count)
unfolding rs_encode
rs_encode-divides data_bytes ec_count bytes =
    let (g, e, size, b) = generator-monic ec_count in
    rw e (completes data_bytes ec_count bytes g b size)

-- The value of a polynomial at a point, by Horner's rule.
pub value_at : Tables → ℕ → ℕ → List ℕ → ℕ
value_at t x acc [] = acc
value_at t x acc (c ∷ p) = value_at t x (bit_xor (gmul t acc x) c) p

roots_of : Tables → ℕ → Bool
unfolding generator_polynomial value_at gmul all_below
roots_of t n =
    let gen = generator_polynomial t n in
    all_below n (λ i. value_at t (get_or t.exp i 0) 0 gen == 0)

roots_table : (let t = init_gf256 in all_below 31 (roots_of t)) ≡ true
unfolding roots_of init_gf256
roots_table = refl

-- Up to degree 30 (the largest of the block tables), the generator polynomial of degree n vanishes
-- at the first n powers of the field's generator.
pub generator-roots :
    (n i : ℕ)
    → n ≤ 30
    → i < n
    → value_at init_gf256 (get_or init_gf256.exp i 0) 0 (generator_polynomial init_gf256 n) ≡ 0
unfolding roots_of
generator-roots n i p q =
    let row = all_below_sound 31 (roots_of init_gf256) n roots_table (omega arith) in
    let gen = generator_polynomial init_gf256 n in
    (==_iff _ _).0
      (all_below_sound n (λ j. value_at init_gf256 (get_or init_gf256.exp j 0) 0 gen == 0) i row q)
