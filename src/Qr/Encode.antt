-- ===== src/Qr/Encode.antt =====
-- `utf8Bytes`, `encode` and `renderToCanvas` of freenetic-qrcode.js.
pub mod Blocks
pub mod Outcomes
use freenetic.Base.{
  ℕ, zero, suc, ◌+◌, ◌-◌, ◌*◌, ◌/◌, ◌%◌, ◌^◌, Bool, true, false, ◌&&◌, ◌||◌, List, [], ◌∷◌, ◌++◌,
  map, Option, none, some, leb, ltb, ◌==◌, if◌then◌else◌, take, drop, length, Text,
}
use mathlib.Core.Option
use freenetic.Qr.Field.{Tables, init_gf256}
use freenetic.Qr.Rs.{rs_encode}
use freenetic.Qr.Blocks.{EcLevel, Group, Picked, groups_of, pick_version}
use freenetic.Qr.Codewords.{build_data_codewords}
use freenetic.Qr.Interleave.{interleave}
use freenetic.Qr.Matrix.Placement.{build_matrix}

abbrev is_high : ℕ → Bool
is_high c = leb 0xd800 c && leb c 0xdbff

abbrev is_low : ℕ → Bool
is_low c = leb 0xdc00 c && leb c 0xdfff

-- The bytes of a code point.
unfoldable pub utf8_point : ℕ → List ℕ
utf8_point p =
    if ltb p 0x80
    then p ∷ []
    else if ltb p 0x800
    then (0xc0 + p / 2 ^ 6) ∷ (0x80 + p % 2 ^ 6) ∷ []
    else if ltb p 0x10000
    then (0xe0 + p / 2 ^ 12) ∷ (0x80 + p / 2 ^ 6 % 2 ^ 6) ∷ (0x80 + p % 2 ^ 6) ∷ []
    else (0xf0 + p / 2 ^ 18)
      ∷ (0x80 + p / 2 ^ 12 % 2 ^ 6)
      ∷ (0x80 + p / 2 ^ 6 % 2 ^ 6)
      ∷ (0x80 + p % 2 ^ 6)
      ∷ []

-- The code point of a surrogate pair.
abbrev pair_point : ℕ → ℕ → ℕ
pair_point c d = 0x10000 + (c - 0xd800) * 0x400 + (d - 0xdc00)

-- `utf8Bytes`: `encodeURIComponent` throws (here none) at a surrogate that has no partner.
unfoldable pub utf8_bytes : Text → Option (List ℕ)
unfolding utf8_point
utf8_bytes [] = some []
utf8_bytes (c ∷ []) = if is_high c || is_low c then none else some (utf8_point c)
utf8_bytes (c ∷ d ∷ s) =
    let after_pair = Option.map (λ bytes. utf8_point (pair_point c d) ++ bytes) (utf8_bytes s) in
    let after_unit = Option.map (λ bytes. utf8_point c ++ bytes) (utf8_bytes (d ∷ s)) in
    if is_high c
    then (if is_low d then after_pair else none)
    else if is_low c
    then none
    else after_unit

pub record Block : Type 0 where
  pub words : List ℕ
  pub checks : List ℕ

-- The inner loop of `encode`: the blocks of one group, cut from `offset` on.
unfoldable pub group_blocks : Tables → List ℕ → ℕ → ℕ → ℕ → ℕ → List Block
group_blocks t data_codewords payload ec_count zero offset = []
group_blocks t data_codewords payload ec_count (suc count) offset =
    let block = take payload (drop offset data_codewords) in
    record { words = block; checks = rs_encode t block ec_count }
    ∷ group_blocks t data_codewords payload ec_count count (offset + payload)

-- The outer loop of `encode`.
unfoldable pub all_blocks : Tables → List ℕ → List Group → ℕ → List Block
all_blocks t data_codewords [] offset = []
all_blocks t data_codewords (g ∷ gs) offset =
    group_blocks t data_codewords g.payload (g.total - g.payload) g.count offset
    ++ all_blocks t data_codewords gs (offset + g.count * g.payload)

abbrev pub Symbol : Type 0
Symbol = List (List (Option Bool))

-- What `encode` does: it throws, returns null, or returns the matrix.
pub data Outcome : Type 0 where
  throws : Outcome
  too_long : Outcome
  symbol : Symbol → Outcome

unfoldable pub encode_picked : List ℕ → Picked → Symbol
encode_picked bytes p =
    let data_codewords = build_data_codewords bytes p.version p.ec_level in
    let blocks = all_blocks init_gf256 data_codewords (groups_of p.version p.ec_level) 0 in
    build_matrix p.version p.ec_level
      (interleave (map (λ b. b.words) blocks) (map (λ b. b.checks) blocks))

unfoldable pub encode_bytes : List ℕ → Outcome
encode_bytes bytes = elim (pick_version (length bytes)) [
  | none ↦ too_long
  | some p ↦ symbol (encode_picked bytes p)
]

unfoldable pub encode : Text → Outcome
encode text = elim (utf8_bytes text) [ none ↦ throws | some bytes ↦ encode_bytes bytes ]

-- A call of `fillRect`: x, y, width, height.
pub record Rect : Type 0 where
  pub x : ℕ
  pub y : ℕ
  pub width : ℕ
  pub height : ℕ

-- The calls of `fillRect` for the dark modules of a row, from column c on; null is not drawn.
unfoldable pub draw_row : ℕ → ℕ → ℕ → List (Option Bool) → List Rect
draw_row cell_size r c [] = []
draw_row cell_size r c (some true ∷ row) =
    record {
      x = (c + 4) * cell_size;
      y = (r + 4) * cell_size;
      width = cell_size;
      height = cell_size;
    }
    ∷ draw_row cell_size r (c + 1) row
draw_row cell_size r c (_ ∷ row) = draw_row cell_size r (c + 1) row

unfoldable pub draw_rows : ℕ → ℕ → Symbol → List Rect
draw_rows cell_size r [] = []
draw_rows cell_size r (row ∷ rows) = draw_row cell_size r 0 row ++ draw_rows cell_size (r + 1) rows

-- The side of the canvas, the white ground and the dark modules; none where `renderToCanvas` returns
-- false. The outcome is that of `encode`, which has not thrown.
unfoldable pub render_to_canvas : Outcome → ℕ → Option (ℕ × List Rect)
render_to_canvas (symbol rows) cell_size =
    let cell = if cell_size == 0 then 6 else cell_size in
    let side = (length rows + 4 * 2) * cell in
    some (side, record { x = 0; y = 0; width = side; height = side } ∷ draw_rows cell 0 rows)
render_to_canvas _ cell_size = none
