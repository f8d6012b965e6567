-- ===== src/Qr/Rs.antt =====
-- Reed-Solomon check bytes of freenetic-qrcode.js: `generatorPolynomial` and `rsEncode`.
-- A polynomial is the list of its coefficients, the leading one first.
pub mod Divides
pub mod Generator
use freenetic.Base.{
  ℕ, zero, suc, ◌+◌, bit_xor, List, [], ◌∷◌, ◌++◌, map, ◌==◌, if◌then◌else◌, get_or, replicate,
  length,
}
use mathlib.Core.List.{tail}
use freenetic.Qr.Field.{Tables, gmul}

-- `target[j] ^= terms[j]` for every j; the target is at least as long wherever the code does this.
unfoldable pub xor_into : List ℕ → List ℕ → List ℕ
xor_into [] terms = []
xor_into (x ∷ xs) [] = x ∷ xs
xor_into (x ∷ xs) (t ∷ ts) = bit_xor x t ∷ xor_into xs ts

module _ (t : Tables) where
  -- One round: `next[j] ^= gmul(poly[j], 1)` and `next[j + 1] ^= gmul(poly[j], EXP_TABLE[i])`.
  unfoldable pub generator_round : ℕ → List ℕ → List ℕ
  unfolding xor_into
  generator_round i poly =
      let next = replicate (length poly + 1) 0 in
      xor_into (xor_into next (map (λ c. gmul t c 1) poly))
        (0 ∷ map (λ c. gmul t c (get_or t.exp i 0)) poly)

  pub generator_rounds : ℕ → ℕ → List ℕ → List ℕ
  generator_rounds zero i poly = poly
  generator_rounds (suc n) i poly = generator_rounds n (i + 1) (generator_round i poly)

  unfoldable pub generator_polynomial : ℕ → List ℕ
  unfolding generator_rounds generator_round
  generator_polynomial ec_count = generator_rounds ec_count 0 (1 ∷ [])

  -- The body of the loop of `rsEncode` on the message from index i on: `coef` is `msg[i]`.
  reduce : List ℕ → List ℕ → List ℕ
  reduce gen [] = []
  reduce gen (coef ∷ msg) =
      if coef == 0 then coef ∷ msg else xor_into (coef ∷ msg) (map (gmul t coef) gen)

  -- The rounds left; after round i the entry `msg[i]` is not used again, and is dropped here.
  pub rs_loop : List ℕ → ℕ → List ℕ → List ℕ
  rs_loop gen zero msg = msg
  rs_loop gen (suc n) msg = rs_loop gen n (tail (reduce gen msg))

  unfoldable pub rs_encode : List ℕ → ℕ → List ℕ
  unfolding rs_loop reduce
  rs_encode data_bytes ec_count =
      let gen = generator_polynomial ec_count in
      rs_loop gen (length data_bytes) (data_bytes ++ replicate ec_count 0)
