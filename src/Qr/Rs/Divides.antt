-- ===== src/Qr/Rs/Divides.antt =====
-- The bytes that `rsEncode` makes complete the data to a multiple of the generator polynomial.
use mathlib.Core.List.{tail}
use freenetic.Base.{
  Bool-cases, inl, inr, ◌≡⟨◌⟩◌, ◌∎, ℕ, zero, suc, ◌+◌, ◌<◌, bit_xor, ◌≡◌, refl, sym, ap, ap₂, ◌∙◌,
  List, [], ◌∷◌, ◌++◌, map, ◌==◌, replicate, length, length-replicate, All, arith,
}
use freenetic.Base.Bits.{bit_xor_comm, bit_xor_assoc, bit_xor_cancel, bit_xor-zero, bit_xor_lt}
use freenetic.Qr.Field.{Tables, gmul, init_gf256}
use freenetic.Qr.Field.Laws.{gmul-one, gmul-lt}
use freenetic.Qr.Rs.{xor_into, reduce, rs_loop}

-- The product of two polynomials by the school method.
pub poly_mul : Tables → List ℕ → List ℕ → List ℕ
poly_mul t [] gen = map (λ _. 0) (tail gen)
poly_mul t (c ∷ q) gen = xor_into (0 ∷ poly_mul t q gen) (map (gmul t c) gen)

pub xor_into_cancel : (xs ts : List ℕ) → xor_into (xor_into xs ts) ts ≡ xs
unfolding xor_into
xor_into_cancel [] ts = refl
xor_into_cancel (x ∷ xs) [] = refl
xor_into_cancel (x ∷ xs) (t ∷ ts) = ap₂ ◌∷◌ (bit_xor_cancel x t) (xor_into_cancel xs ts)

xor_swap : (a b c : ℕ) → bit_xor (bit_xor a b) c ≡ bit_xor (bit_xor a c) b
xor_swap a b c = rw (bit_xor_assoc a b c, bit_xor_comm b c, bit_xor_assoc a c b)

xor_into_swap : (xs ys zs : List ℕ) → xor_into (xor_into xs ys) zs ≡ xor_into (xor_into xs zs) ys
unfolding xor_into
xor_into_swap [] ys zs = refl
xor_into_swap (x ∷ xs) [] [] = refl
xor_into_swap (x ∷ xs) [] (z ∷ zs) = refl
xor_into_swap (x ∷ xs) (y ∷ ys) [] = refl
xor_into_swap (x ∷ xs) (y ∷ ys) (z ∷ zs) = ap₂ ◌∷◌ (xor_swap x y z) (xor_into_swap xs ys zs)

pub length-xor_into : (xs ts : List ℕ) → length (xor_into xs ts) ≡ length xs
unfolding xor_into
length-xor_into [] ts = refl
length-xor_into (x ∷ xs) [] = refl
length-xor_into (x ∷ xs) (t ∷ ts) = ap suc (length-xor_into xs ts)

abbrev pub IsByte : ℕ → Type 0
IsByte a = a < 256

pub xor_into-IsByte : (xs ts : List ℕ) → All IsByte xs → All IsByte ts → All IsByte (xor_into xs ts)
unfolding xor_into
xor_into-IsByte [] ts h k = tt
xor_into-IsByte (x ∷ xs) [] h k = h
xor_into-IsByte (x ∷ xs) (t ∷ ts) (p, h) (q, k) = (bit_xor_lt 8 x t p q, xor_into-IsByte xs ts h k)

map-gmul-zero : (t : Tables) (xs gen : List ℕ) → xor_into xs (map (gmul t 0) gen) ≡ xs
unfolding xor_into gmul
map-gmul-zero t [] gen = refl
map-gmul-zero t (x ∷ xs) [] = refl
map-gmul-zero t (x ∷ xs) (g ∷ gen) = ap₂ ◌∷◌ (bit_xor-zero x) (map-gmul-zero t xs gen)

-- The early `continue` at a zero coefficient skips a round that would change nothing.
reduce-xor_into :
    (t : Tables) (gen msg : List ℕ) (c : ℕ)
    → reduce t gen (c ∷ msg) ≡ xor_into (c ∷ msg) (map (gmul t c) gen)
unfolding reduce
reduce-xor_into t gen msg c = elim (Bool-cases (c == 0)) [
  | inl zero_coef ↦
      let e : c ≡ 0 = ground arith in rw (zero_coef, e) (sym (map-gmul-zero t (0 ∷ msg) gen))
  | inr other ↦ rw other refl
]

map-gmul-IsByte :
    (c : ℕ) (gen : List ℕ) → c < 256 → All IsByte gen → All IsByte (map (gmul init_gf256 c) gen)
map-gmul-IsByte c [] p h = tt
map-gmul-IsByte c (g ∷ gen) p (q, h) = (gmul-lt c g p q, map-gmul-IsByte c gen p h)

abbrev pub zeros : ℕ → List ℕ
zeros n = replicate n 0

zeros-xor_into : (g xs : List ℕ) → length xs ≡ length g → xor_into (map (λ _. 0) g) xs ≡ xs
unfolding xor_into
zeros-xor_into [] [] h = refl
zeros-xor_into [] (x ∷ xs) h = absurd (omega arith)
zeros-xor_into (y ∷ g) [] h = absurd (omega arith)
zeros-xor_into (y ∷ g) (x ∷ xs) h =
    ap₂ ◌∷◌ (bit_xor_comm 0 x ∙ bit_xor-zero x) (zeros-xor_into g xs (omega arith))

module _ (g : List ℕ) (bytes : All IsByte g) where
  abbrev gen : List ℕ
  gen = 1 ∷ g

  tail-reduce :
      (c : ℕ) (msg : List ℕ)
      → tail (reduce init_gf256 gen (c ∷ msg)) ≡ xor_into msg (map (gmul init_gf256 c) g)
  unfolding xor_into
  tail-reduce c msg = rw (reduce-xor_into init_gf256 gen msg c)

  head_lem : (c : ℕ) → c < 256 → c ≡ bit_xor (bit_xor 0 (gmul init_gf256 c 1)) 0
  head_lem c p = rw (gmul-one c p, bit_xor_comm 0 c, bit_xor-zero c, bit_xor-zero c)

  tail_lem :
      (c : ℕ) (msg product left : List ℕ)
      → xor_into msg (map (gmul init_gf256 c) g) ≡ xor_into product left
      → msg ≡ xor_into (xor_into product (map (gmul init_gf256 c) g)) left
  tail_lem c msg product left e =
      let m = map (gmul init_gf256 c) g in
      msg
      ≡⟨ sym (xor_into_cancel msg m) ⟩ xor_into (xor_into msg m) m
      ≡⟨ ap (λ s. xor_into s m) e ⟩ xor_into (xor_into product left) m
      ≡⟨ xor_into_swap product left m ⟩ xor_into (xor_into product m) left ∎

  -- The message is the sum of a multiple of the generator and what the loop leaves.
  pub rs_loop-divides :
      (n : ℕ) (msg : List ℕ)
      → length msg ≡ n + length g
      → All IsByte msg
      → (q : List ℕ) × (length q ≡ n)
        × (msg ≡ xor_into (poly_mul init_gf256 q gen) (zeros n ++ rs_loop init_gf256 gen n msg))
        × (length (rs_loop init_gf256 gen n msg) ≡ length g)
  unfolding rs_loop poly_mul xor_into
  rs_loop-divides zero msg h b = ([], refl, sym (zeros-xor_into g msg (omega arith)), omega arith)
  rs_loop-divides (suc n) [] h b = absurd (omega arith)
  rs_loop-divides (suc n) (c ∷ msg) h (p, b) =
      let m = map (gmul init_gf256 c) g in
      let len : length (xor_into msg m) ≡ n + length g = omega (arith, length-xor_into msg m) in
      let (q, q_length, e, r_length) =
        rs_loop-divides n (xor_into msg m) len
          (xor_into-IsByte msg m b (map-gmul-IsByte c g p bytes)) in
      rw (tail-reduce c msg)
        (c ∷ q, omega arith, ap₂ ◌∷◌ (head_lem c p) (tail_lem c msg _ _ e), r_length)

xor_into-append :
    (xs ys us vs : List ℕ)
    → length xs ≡ length us
    → xor_into (xs ++ ys) (us ++ vs) ≡ xor_into xs us ++ xor_into ys vs
unfolding xor_into
xor_into-append [] ys [] vs h = refl
xor_into-append [] ys (u ∷ us) vs h = absurd (omega arith)
xor_into-append (x ∷ xs) ys [] vs h = absurd (omega arith)
xor_into-append (x ∷ xs) ys (u ∷ us) vs h = ap₂ ◌∷◌ refl (xor_into-append xs ys us vs (omega arith))

xor_into-zeros : (n : ℕ) (xs : List ℕ) → xor_into xs (zeros n) ≡ xs
unfolding xor_into
xor_into-zeros zero [] = refl
xor_into-zeros zero (x ∷ xs) = refl
xor_into-zeros (suc n) [] = refl
xor_into-zeros (suc n) (x ∷ xs) = ap₂ ◌∷◌ (bit_xor-zero x) (xor_into-zeros n xs)

from_zeros : (n : ℕ) (xs : List ℕ) → length xs ≡ n → xor_into (zeros n) xs ≡ xs
unfolding xor_into
from_zeros zero [] h = refl
from_zeros zero (x ∷ xs) h = absurd (omega arith)
from_zeros (suc n) [] h = absurd (omega arith)
from_zeros (suc n) (x ∷ xs) h =
    ap₂ ◌∷◌ (bit_xor_comm 0 x ∙ bit_xor-zero x) (from_zeros n xs (omega arith))

-- Adding the check bytes to the padded data puts them behind the data.
pub pad_then_add :
    (data_bytes check : List ℕ) (n : ℕ)
    → length check ≡ n
    → xor_into (data_bytes ++ zeros n) (zeros (length data_bytes) ++ check) ≡ data_bytes ++ check
pad_then_add data_bytes check n h = rw (
  xor_into-append data_bytes (zeros n) (zeros (length data_bytes)) check
      (sym (length-replicate (length data_bytes) 0)),
  xor_into-zeros (length data_bytes) data_bytes,
  from_zeros n check h,
)

pub zeros-IsByte : (n : ℕ) → All IsByte (zeros n)
zeros-IsByte zero = tt
zeros-IsByte (suc n) = (omega arith, zeros-IsByte n)
