-- ===== src/Network/Ipv6/Bits.antt =====
-- The mask of `ipv6NetworkCidr`, bit by bit.
use freenetic.Base.{
  ℕ, zero, suc, ◌+◌, ◌-◌, ◌*◌, ◌/◌, ◌%◌, ◌^◌, ◌<◌, ◌≡◌, inl, inr, refl, sym, ◌∙◌, Bool, true, false,
  List, [], ◌∷◌, ltb, ◌==◌, get_or, length, if◌then◌else◌, Bool-cases, arith,
}
use native.Mathlib.Nat.{pow-succ', div-div-eq-div-mul}
use freenetic.Network.Ipv6.Routes.{masked_word, mask_words}

-- The bit of weight 2 ^ j.
unfoldable pub bit : ℕ → ℕ → ℕ
bit j w = w / 2 ^ j % 2

bit-suc : (j w : ℕ) → bit (suc j) w ≡ bit j (w / 2)
unfolding bit
bit-suc j w = rw (pow-succ' 2 j, div-div-eq-div-mul w 2 (2 ^ j)) refl

bit-zero : (w : ℕ) → bit 0 w ≡ w % 2
unfolding bit
bit-zero w = omega arith

-- The lower k bits cleared.
abbrev clear : ℕ → ℕ → ℕ
clear k w = w / 2 ^ k * 2 ^ k

clear-suc : (k w : ℕ) → clear (suc k) w ≡ clear k (w / 2) * 2
clear-suc k w = rw (pow-succ' 2 k, sym (div-div-eq-div-mul w 2 (2 ^ k))) (omega arith)

ltb-zero : (j : ℕ) → ltb j 0 ≡ false
ltb-zero j = ground arith

ltb-suc : (j k : ℕ) → ltb (suc j) (suc k) ≡ ltb j k
ltb-suc j k = ground arith

zero_below : (k : ℕ) → ltb 0 (suc k) ≡ true
zero_below k = ground arith

twice-even : (n : ℕ) → n * 2 % 2 ≡ 0
twice-even n = omega arith

twice-half : (n : ℕ) → n * 2 / 2 ≡ n
twice-half n = omega arith

clear-zero : (w : ℕ) → clear 0 w ≡ w
clear-zero w = omega arith

bit-clear : (k j w : ℕ) → bit j (clear k w) ≡ (if ltb j k then 0 else bit j w)
bit-clear zero j w = rw (clear-zero w, ltb-zero j) refl
bit-clear (suc k) zero w =
    rw (clear-suc k w, bit-zero (clear k (w / 2) * 2), twice-even (clear k (w / 2)), zero_below k)
      refl
bit-clear (suc k) (suc j) w =
    rw
      (
        clear-suc k w,
        bit-suc j (clear k (w / 2) * 2),
        twice-half (clear k (w / 2)),
        ltb-suc j k,
        bit-suc j w,
      )
      (bit-clear k j (w / 2))

bit-nothing : (j : ℕ) → bit j 0 ≡ 0
bit-nothing zero = bit-zero 0
bit-nothing (suc j) = rw (bit-suc j 0) (bit-nothing j)

-- The bit of weight 2 ^ j of the word at an index stands behind 16 * index + (15 - j) others.
module _ (prefix index : ℕ) where
  kept : ℕ → Bool
  kept j = ltb (16 * index + (15 - j)) prefix

  before_word : (j : ℕ) → ((prefix - index * 16) == 0) ≡ true → kept j ≡ false
  unfolding kept
  before_word j e = ground arith

  in_word :
      (j : ℕ)
      → j < 16
      → ltb (prefix - index * 16) 16 ≡ true
      → kept j ≡ (if ltb j (16 - (prefix - index * 16)) then false else true)
  unfolding kept
  in_word j h e = ground arith

  behind_word : (j : ℕ) → j < 16 → ltb (prefix - index * 16) 16 ≡ false → kept j ≡ true
  unfolding kept
  behind_word j h e = ground arith

  pub masked_word-bit :
      (w j : ℕ)
      → j < 16
      → bit j (masked_word prefix index w)
        ≡ (if ltb (16 * index + (15 - j)) prefix then bit j w else 0)
  unfolding masked_word kept
  masked_word-bit w j h =
      let keep = prefix - index * 16 in
      elim (Bool-cases (keep == 0)) [
        | inl e ↦ rw (e, before_word j e) (bit-nothing j)
        | inr e ↦ elim (Bool-cases (ltb keep 16)) [
          | inl f ↦
              rw (e, f, in_word j h f)
                (bit-clear (16 - keep) j w ∙ swapped (ltb j (16 - keep)) (bit j w))
          | inr f ↦ rw (e, f, behind_word j h f) refl
        ]
      ]
    where
      swapped :
          (b : Bool) (v : ℕ) → (if b then 0 else v) ≡ (if (if b then false else true) then v else 0)
      swapped true v = refl
      swapped false v = refl

mask_words-bit :
    (prefix start i j : ℕ) (ws : List ℕ)
    → i < length ws
    → j < 16
    → bit j (get_or (mask_words prefix start ws) i 0)
      ≡ (if ltb (16 * (start + i) + (15 - j)) prefix then bit j (get_or ws i 0) else 0)
unfolding mask_words
mask_words-bit prefix start i j [] h k = absurd (omega arith)
mask_words-bit prefix start zero j (w ∷ ws) h k =
    let e : start + 0 ≡ start = omega arith in rw (e) (masked_word-bit prefix start w j k)
mask_words-bit prefix start (suc i) j (w ∷ ws) h k =
    let e : start + suc i ≡ start + 1 + i = omega arith in
    rw (e) (mask_words-bit prefix (start + 1) i j ws (omega arith) k)

pub first_words-bit :
    (prefix i j : ℕ) (ws : List ℕ)
    → i < length ws
    → j < 16
    → bit j (get_or (mask_words prefix 0 ws) i 0)
      ≡ (if ltb (16 * i + (15 - j)) prefix then bit j (get_or ws i 0) else 0)
first_words-bit prefix i j ws h k =
    let e : 0 + i ≡ i = omega arith in rw (e) at (mask_words-bit prefix 0 i j ws h k)
