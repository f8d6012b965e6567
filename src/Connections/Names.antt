-- ===== src/Connections/Names.antt =====
-- The names of managed IPsec sections.
use freenetic.Base.{
  ℕ, zero, suc, ◌/◌, ◌%◌, ◌<◌, ◌≤◌, Bool, true, ◌&&◌, ◌||◌, [], ◌∷◌, ◌++◌, ◌≡◌, refl, arith, inl,
  inr, Text, codes, every, every-append, is_digit, leb, ltb, Bool-cases, length, length-append,
  length-take, take,
}
use freenetic.Connections.Fields.{digit36, base36_of, hash_of, section_token, managed_ipsec_section}

-- A digit or a lower-case letter.
abbrev pub is_base36 : ℕ → Bool
is_base36 c = is_digit c || (leb b'a' c && leb c b'z')

digit36-is_base36 : (n : ℕ) → n < 36 → is_base36 (digit36 n) ≡ true
digit36-is_base36 n h = ground arith

base36_of-is_base36 : (fuel n : ℕ) → every is_base36 (base36_of fuel n) ≡ true
unfolding base36_of every
base36_of-is_base36 zero n = refl
base36_of-is_base36 (suc fuel) n = elim (Bool-cases (ltb n 36)) [
  | inl small ↦ rw small (rw (digit36-is_base36 n (ground arith)) refl)
  | inr big ↦
      rw
        (
          big,
          every-append is_base36 (base36_of fuel (n / 36)) (digit36 (n % 36) ∷ []),
          base36_of-is_base36 fuel (n / 36),
        )
        (rw (digit36-is_base36 (n % 36) (omega arith)) refl)
]

every-take : (n : ℕ) (s : Text) → every is_base36 s ≡ true → every is_base36 (take n s) ≡ true
unfolding every
every-take zero s h = refl
every-take (suc n) [] h = refl
every-take (suc n) (c ∷ s) h =
    let e : is_base36 c ≡ true = ground arith in
    let k : every is_base36 s ≡ true = ground arith in rw (e, every-take n s k) refl

-- A token of at most seven characters, none but digits and lower-case letters.
abbrev pub IsShortToken : Text → Type 0
IsShortToken s = length s ≤ 7 × every is_base36 s ≡ true

section_token-IsShortToken : (value : Text) → IsShortToken (section_token value)
unfolding section_token every
section_token-IsShortToken value =
    shown (take 7 (base36_of 7 (hash_of 0 value)))
      (omega (arith, length-take 7 (base36_of 7 (hash_of 0 value))))
      (every-take 7 (base36_of 7 (hash_of 0 value)) (base36_of-is_base36 7 (hash_of 0 value)))
  where
    shown :
        (s : Text)
        → length s ≤ 7
        → every is_base36 s ≡ true
        → IsShortToken (elim s [ [] ↦ codes "default" | c ∷ t ↦ c ∷ t ])
    shown [] h k = (omega arith, refl)
    shown (c ∷ t) h k = (h, k)

-- Whatever the name, the section is the prefix and a token, of at most seven characters more; with a
-- prefix of at most eight it has at most 15, which is all that some releases of UCI allow.
pub managed_ipsec_section-IsShort :
    (prefix value : Text)
    → length prefix ≤ 8
    → length (managed_ipsec_section prefix value) ≤ 15
      × ((token : Text) × managed_ipsec_section prefix value ≡ prefix ++ token
          × every is_base36 token ≡ true)
unfolding managed_ipsec_section
managed_ipsec_section-IsShort prefix value h =
    let (short, digits) = section_token-IsShortToken value in
    (
      omega (arith, h, short, length-append prefix (section_token value)),
      (section_token value, refl, digits),
    )
