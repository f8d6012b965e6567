-- ===== src/Network/Ipv6/Masked.antt =====
-- The IPv6 network of a connected route: `ipv6NetworkCidr`.
use freenetic.Base.{
  get_or, if◌then◌else◌, ℕ, suc, ◌+◌, ◌-◌, ◌*◌, ◌/◌, ◌<◌, ◌≤◌, ◌^◌, List, [], ◌∷◌, ◌++◌, some, ◌≡◌,
  inl, inr, refl, ap, ◌∙◌, arith, ltb, leb_of_le, ◌==◌, if-intro, Bool-cases, Text, decimal, All,
  length,
}
use native.Mathlib.Nat.{div-mul-le_self, mul-div_cancel, one-le-pow}
use freenetic.Network.Ipv6.{parse_ipv6_words, format_ipv6_words}
use freenetic.Network.Ipv6.Round.{IsWord, parse_ipv6_words-format_ipv6_words}
use freenetic.Network.Ipv6.Words.{parse_ipv6_words-IsWords}
use freenetic.Network.Ipv6.Bits.{bit, first_words-bit}
use freenetic.Network.Ipv6.Routes.{masked_word, mask_words, cidr_of_words, ipv6_network_cidr}

masked_word-le : (prefix index w : ℕ) → masked_word prefix index w ≤ w
unfolding masked_word
masked_word-le prefix index w =
    let keep = prefix - index * 16 in
    if-intro (λ v. v ≤ w) (keep == 0) (λ _. omega arith)
      (λ _.
        if-intro (λ v. v ≤ w) (ltb keep 16) (λ _. div-mul-le_self w (2 ^ (16 - keep)))
          (λ _. omega arith))

masked_word-again :
    (prefix index w : ℕ)
    → masked_word prefix index (masked_word prefix index w) ≡ masked_word prefix index w
unfolding masked_word
masked_word-again prefix index w =
    let keep = prefix - index * 16 in
    elim (Bool-cases (keep == 0)) [
      | inl e ↦ rw e refl
      | inr e ↦ elim (Bool-cases (ltb keep 16)) [
        | inl f ↦
            rw (e, f)
              (ap (λ q. q * 2 ^ (16 - keep))
                (mul-div_cancel (w / 2 ^ (16 - keep)) (positive (16 - keep))))
        | inr f ↦ rw (e, f) refl
      ]
    ]
  where
    positive : (n : ℕ) → 0 < 2 ^ n
    positive n = omega (arith, one-le-pow n 2 (omega arith))

mask_words-again :
    (prefix index : ℕ) (ws : List ℕ)
    → mask_words prefix index (mask_words prefix index ws) ≡ mask_words prefix index ws
unfolding mask_words
mask_words-again prefix index [] = refl
mask_words-again prefix index (w ∷ ws) =
    rw (masked_word-again prefix index w, mask_words-again prefix (index + 1) ws) refl

mask_words-IsWord :
    (prefix index : ℕ) (ws : List ℕ) → All IsWord ws → All IsWord (mask_words prefix index ws)
unfolding mask_words
mask_words-IsWord prefix index [] h = tt
mask_words-IsWord prefix index (w ∷ ws) (h, k) =
    (omega (arith, h, masked_word-le prefix index w), mask_words-IsWord prefix (index + 1) ws k)

length-mask_words :
    (prefix index : ℕ) (ws : List ℕ) → length (mask_words prefix index ws) ≡ length ws
unfolding mask_words
length-mask_words prefix index [] = refl
length-mask_words prefix index (w ∷ ws) = ap suc (length-mask_words prefix (index + 1) ws)

cidr_of :
    (address : Text) (prefix : ℕ) (words : List ℕ)
    → prefix ≤ 128
    → parse_ipv6_words address ≡ some words
    → ipv6_network_cidr address (some prefix)
      ≡ some (format_ipv6_words (mask_words prefix 0 words) ++ b'/' ∷ decimal prefix)
unfolding ipv6_network_cidr cidr_of_words
cidr_of address prefix words h e = ap (cidr_of_words prefix) e ∙ rw (leb_of_le prefix 128 h) refl

-- For an address that parses and a prefix of at most 128, ipv6NetworkCidr returns a network and the
-- prefix. The network parses to eight words; of their 128 bits, from the highest of the first word on,
-- the first `prefix` ones are those of the address and the others are 0 (bit j of word i, of weight
-- 2 ^ j, stands behind 16 * i + (15 - j) others); and the code maps the network to itself.
pub ipv6_network_cidr-network :
    (address : Text) (prefix : ℕ) (words : List ℕ) (i j : ℕ)
    → parse_ipv6_words address ≡ some words
    → prefix ≤ 128
    → i < 8
    → j < 16
    → (network : Text) × (ipv6_network_cidr address (some prefix)
        ≡ some (network ++ b'/' ∷ decimal prefix))
      × ((masked : List ℕ) × (parse_ipv6_words network ≡ some masked)
          × (length masked ≡ 8)
          × (bit j (get_or masked i 0)
              ≡ (if ltb (16 * i + (15 - j)) prefix then bit j (get_or words i 0) else 0)))
      × (ipv6_network_cidr network (some prefix) ≡ some (network ++ b'/' ∷ decimal prefix))
ipv6_network_cidr-network address prefix words i j e h p q =
    let masked = mask_words prefix 0 words in
    let (eight, small) = parse_ipv6_words-IsWords address e in
    let sized = length-mask_words prefix 0 words ∙ eight in
    let read =
      parse_ipv6_words-format_ipv6_words masked sized (mask_words-IsWord prefix 0 words small) in
    (
      format_ipv6_words masked,
      cidr_of address prefix words h e,
      (masked, read, sized, first_words-bit prefix i j words (omega arith) q),
      cidr_of (format_ipv6_words masked) prefix masked h read
          ∙ ap (λ ws. some (format_ipv6_words ws ++ b'/' ∷ decimal prefix))
              (mask_words-again prefix 0 words),
    )
