-- ===== src/Qr/Encode/Outcomes.antt =====
-- What `encode` returns, from the text to the finished symbol.
use mathlib.Core.List.{flatten}
use mathlib.Core.Option
use mathlib.Core.Path.{subst}
use freenetic.Qr.Buffer.Bits.{pack-IsByte}
use freenetic.Base.{
  ℕ, zero, suc, ◌+◌, ◌-◌, ◌*◌, ◌<◌, ◌≤◌, ◌≡◌, ◌⊎◌, inl, inr, refl, sym, true, ◌||◌, List, [], ◌∷◌,
  ◌++◌, map, Option, none, some, ltb, take, drop, length, Text, All, All-append, Option-cases,
  if-intro, lt_of_ltb, arith,
}
use freenetic.Qr.Field.{init_gf256}
use freenetic.Qr.Rs.{generator_polynomial, rs_encode}
use freenetic.Qr.Rs.Divides.{IsByte, poly_mul}
use freenetic.Qr.Rs.Generator.{rs_encode-divides}
use freenetic.Qr.Blocks.{Group, Picked, groups_of, pick_version, count_bits}
use freenetic.Qr.Blocks.Pick.{pick_version-Fits, pick_version-none_iff}
use freenetic.Qr.Codewords.{build_data_codewords}
use freenetic.Qr.Codewords.Layout.{build_data_codewords-layout}
use freenetic.Qr.Codewords.Decode.{decode, decode-build_data_codewords}
use freenetic.Qr.Matrix.Placement.{build_matrix}
use freenetic.Qr.Interleave.{interleave}
use freenetic.Qr.Encode.{
  is_high, is_low, pair_point, utf8_point, utf8_bytes, Block, group_blocks, all_blocks, Symbol,
  throws, too_long, symbol, encode_picked, encode_bytes, encode,
}
use freenetic.Qr.Encode.Blocks.{words_of, all_blocks-words}

utf8_point-IsByte : (p : ℕ) → p < 0x110000 → All IsByte (utf8_point p)
unfolding utf8_point
utf8_point-IsByte p h =
    if-intro (All IsByte) (ltb p 0x80) (λ a. (omega (arith, lt_of_ltb p 0x80 a), tt))
      λ _.
        if-intro (All IsByte) (ltb p 0x800) (λ a. let b = lt_of_ltb p 0x800 a in omega arith)
          λ _.
            if-intro (All IsByte) (ltb p 0x10000)
              (λ a. let b = lt_of_ltb p 0x10000 a in omega arith) λ _. omega arith

abbrev IsUnit : ℕ → Type 0
IsUnit c = c < 65536

abbrev BytesOf : Option (List ℕ) → Type 0
BytesOf none = Unit
BytesOf (some bytes) = All IsByte bytes

BytesOf-map :
    (front : List ℕ) (o : Option (List ℕ))
    → All IsByte front
    → BytesOf o
    → BytesOf (Option.map (λ bytes. front ++ bytes) o)
BytesOf-map front none h k = tt
BytesOf-map front (some bytes) h k = All-append IsByte front bytes h k

pair_point-lt : (c d : ℕ) → is_high c ≡ true → is_low d ≡ true → pair_point c d < 0x110000
pair_point-lt c d h k = ground arith

utf8_bytes-BytesOf : (s : Text) → All IsUnit s → BytesOf (utf8_bytes s)
unfolding utf8_bytes
utf8_bytes-BytesOf [] h = tt
utf8_bytes-BytesOf (c ∷ []) (p, h) =
    if-intro BytesOf (is_high c || is_low c) (λ _. tt)
      (λ _. unfold utf8_bytes in utf8_point-IsByte c (omega arith))
utf8_bytes-BytesOf (c ∷ d ∷ s) (p, (q, h)) =
    if-intro BytesOf (is_high c)
      (λ high.
        if-intro BytesOf (is_low d)
          (λ low.
            BytesOf-map (utf8_point (pair_point c d)) (utf8_bytes s)
              (utf8_point-IsByte (pair_point c d) (pair_point-lt c d high low))
              (utf8_bytes-BytesOf s h))
          (λ _. tt))
      (λ _.
        if-intro BytesOf (is_low c) (λ _. tt)
          (λ _.
            BytesOf-map (utf8_point c) (utf8_bytes (d ∷ s)) (utf8_point-IsByte c (omega arith))
              (utf8_bytes-BytesOf (d ∷ s) (q, h))))

-- The check bytes complete the block's words to a multiple of the generator polynomial.
abbrev pub IsCodeword : Block → Type 0
IsCodeword b =
    (q : List ℕ) × (b.words ++ b.checks
      ≡ poly_mul init_gf256 q (generator_polynomial init_gf256 (length b.checks)))

All-take : (n : ℕ) (xs : List ℕ) → All IsByte xs → All IsByte (take n xs)
All-take zero xs h = tt
All-take (suc n) [] h = tt
All-take (suc n) (x ∷ xs) (p, h) = (p, All-take n xs h)

All-drop : (n : ℕ) (xs : List ℕ) → All IsByte xs → All IsByte (drop n xs)
All-drop zero xs h = h
All-drop (suc n) [] h = tt
All-drop (suc n) (x ∷ xs) (p, h) = All-drop n xs h

rs_encode-IsCodeword :
    (ws : List ℕ) (ec_count : ℕ)
    → All IsByte ws
    → IsCodeword (record { words = ws; checks = rs_encode init_gf256 ws ec_count })
rs_encode-IsCodeword ws ec_count h =
    let (q, _, e, size) = rs_encode-divides ws ec_count h in (q, rw size e)

module _ (ws : List ℕ) (bytes : All IsByte ws) where
  group_blocks-IsCodeword :
      (payload ec_count count offset : ℕ)
      → All IsCodeword (group_blocks init_gf256 ws payload ec_count count offset)
  unfolding group_blocks
  group_blocks-IsCodeword payload ec_count zero offset = tt
  group_blocks-IsCodeword payload ec_count (suc count) offset = (
    rs_encode-IsCodeword (take payload (drop offset ws)) ec_count
        (All-take payload _ (All-drop offset ws bytes)),
    group_blocks-IsCodeword payload ec_count count (offset + payload),
  )

  all_blocks-IsCodeword :
      (groups : List Group) (offset : ℕ) → All IsCodeword (all_blocks init_gf256 ws groups offset)
  unfolding all_blocks
  all_blocks-IsCodeword [] offset = tt
  all_blocks-IsCodeword (g ∷ gs) offset =
      All-append IsCodeword _ _
        (group_blocks-IsCodeword g.payload (g.total - g.payload) g.count offset)
        (all_blocks-IsCodeword gs (offset + g.count * g.payload))

-- What a symbol for these bytes is made of.
pub record Carries (bytes : List ℕ) (rows : Symbol) : Type 0 where
  pub picked : Picked
  pub chosen : pick_version (length bytes) ≡ some picked
  pub words : List ℕ
  pub readable : decode (count_bits picked.version) words ≡ some bytes
  pub blocks : List Block
  pub cut : flatten (words_of blocks) ≡ words
  pub corrected : All IsCodeword blocks
  pub drawn :
      rows
      ≡ build_matrix picked.version picked.ec_level
          (interleave (words_of blocks) (map (λ b. b.checks) blocks))

encode_picked-Carries :
    (bytes : List ℕ) (p : Picked)
    → All IsByte bytes
    → pick_version (length bytes) ≡ some p
    → Carries bytes (encode_picked bytes p)
unfolding encode_picked
encode_picked-Carries bytes p h e =
    let (fits, small) = pick_version-Fits (length bytes) p e in
    let ws = build_data_codewords bytes p.version p.ec_level in
    let (_, _, bits, packed, _, _, size, _) =
      build_data_codewords-layout bytes p.version p.ec_level fits in
    let all_bytes : All IsByte ws = subst (All IsByte) (sym packed) (pack-IsByte bits) in
    record {
      picked = p;
      chosen = e;
      words = ws;
      readable = decode-build_data_codewords bytes p.version p.ec_level small fits h;
      blocks = all_blocks init_gf256 ws (groups_of p.version p.ec_level) 0;
      cut = all_blocks-words init_gf256 ws p.version p.ec_level size;
      corrected = all_blocks-IsCodeword ws all_bytes (groups_of p.version p.ec_level) 0;
      drawn = refl;
    }

le_or_lt : (a b : ℕ) → (a ≤ b) ⊎ (b < a)
le_or_lt a b = grind arith

no_pick :
    (bytes : List ℕ) (p : Picked)
    → pick_version (length bytes) ≡ some p
    → pick_version (length bytes) ≡ none
    → ⊥
no_pick bytes p h k = cc

-- The three outcomes of `encode` on a text of UTF-16 code units: it throws exactly where the text has
-- no UTF-8 form; it returns null where the UTF-8 form has more than 271 bytes; and otherwise it
-- returns a symbol, drawn from blocks whose words, read by the mode and length fields, are exactly the
-- text's bytes, each block with check bytes that make it a multiple of the generator polynomial.
pub encode_outcomes :
    (text : Text)
    → All IsUnit text
    → ((encode text ≡ throws) × (utf8_bytes text ≡ none))
      ⊎ ((bytes : List ℕ) × (utf8_bytes text ≡ some bytes)
          × (((encode text ≡ too_long) × (271 < length bytes))
              ⊎ ((rows : Symbol) × (encode text ≡ symbol rows)
                  × (length bytes ≤ 271)
                  × Carries bytes rows)))
unfolding encode encode_bytes
encode_outcomes text h = elim (Option-cases (utf8_bytes text)) [
  | inl failed ↦ inl (rw (failed, encode), failed)
  | inr (bytes, e) ↦ inr (
    bytes,
    e,
    elim (Option-cases (pick_version (length bytes))) [
      | inl refused ↦ inl (
        rw (e, encode) (rw (refused, encode_bytes)),
        (pick_version-none_iff (length bytes)).0 refused,
      )
      | inr (p, chosen) ↦ inr (
        encode_picked bytes p,
        rw (e, encode) (rw (chosen, encode_bytes)),
        short bytes p chosen,
        encode_picked-Carries bytes p (subst BytesOf e (utf8_bytes-BytesOf text h)) chosen,
      )
    ],
  )
]
  where
    short :
        (bytes : List ℕ) (p : Picked) → pick_version (length bytes) ≡ some p → length bytes ≤ 271
    short bytes p chosen = elim (le_or_lt (length bytes) 271) [
      | inl fits ↦ fits
      | inr long ↦ absurd (no_pick bytes p chosen ((pick_version-none_iff (length bytes)).1 long))
    ]
