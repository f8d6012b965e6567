-- ===== src/Qr/Matrix.antt =====
-- The module grid of freenetic-qrcode.js, and its function patterns: the first part of
-- `buildMatrix`, up to the placement of the code words.
pub mod Placement
pub mod Untouched
pub mod Sweep
pub mod Filled
pub mod Complete
use freenetic.Base.{
  ℕ, zero, suc, ◌+◌, ◌-◌, ◌*◌, ◌/◌, ◌%◌, ◌^◌, Bool, true, false, ◌&&◌, ◌||◌, not, List, [], ◌∷◌,
  Option, none, some, ◌==◌, leb, ltb, if◌then◌else◌, get_elem?, get_or, set, replicate, for_range,
  for_each, is_some, length,
}
use freenetic.Qr.Blocks.{EcLevel}
use freenetic.Qr.Bch.{format_bits, version_bits}

module _ {ℓ} {A : Type ℓ} where
  -- `grid[r][c]`
  abbrev pub get_cell : List (List A) → ℕ → ℕ → Option A
  get_cell rows r c = get_elem? (get_or rows r []) c

  -- `grid[r][c] = v`
  abbrev pub set_cell : List (List A) → ℕ → ℕ → A → List (List A)
  set_cell rows r c v = set rows r (set (get_or rows r []) c v)

pub record Grid : Type 0 where
  -- `matrix`, where none stands for null
  pub matrix : List (List (Option Bool))
  pub reserved : List (List Bool)

-- `matrix[r][c] = dark; reserved[r][c] = true`
unfoldable pub reserve : ℕ → ℕ → Bool → Grid → Grid
reserve r c dark g = record {
  matrix = set_cell g.matrix r c (some dark);
  reserved = set_cell g.reserved r c true;
}

unfoldable pub blank : ℕ → Grid
blank n = record {
  matrix = replicate n (replicate n none);
  reserved = replicate n (replicate n false);
}

abbrev within : ℕ → ℕ → ℕ → Bool
within lo hi x = leb lo x && leb x hi

-- `placeFinder`; the source's r and c, from -1 to 7, are i - 1 and j - 1.
finder_dark : ℕ → ℕ → Bool
finder_dark i j =
    (within 1 7 i && (j == 1 || j == 7))
    || (within 1 7 j && (i == 1 || i == 7))
    || (within 3 5 i && within 3 5 j)

finder_module : ℕ → ℕ → ℕ → ℕ → ℕ → Grid → Grid
unfolding finder_dark reserve
finder_module n row col i j g =
    if row + i == 0 || leb (n + 1) (row + i) || col + j == 0 || leb (n + 1) (col + j)
    then g
    else reserve (row + i - 1) (col + j - 1) (finder_dark i j) g

unfoldable pub place_finder : ℕ → ℕ → ℕ → Grid → Grid
unfolding finder_module
place_finder n row col g = for_range 9 0 (λ i. for_range 9 0 (λ j. finder_module n row col i j)) g

-- ALIGNMENT_POSITIONS; version 1 has none.
unfoldable pub alignment_positions : ℕ → List ℕ
alignment_positions version =
    get_or
      ([]
        ∷ []
        ∷ (6 ∷ 18 ∷ [])
        ∷ (6 ∷ 22 ∷ [])
        ∷ (6 ∷ 26 ∷ [])
        ∷ (6 ∷ 30 ∷ [])
        ∷ (6 ∷ 34 ∷ [])
        ∷ (6 ∷ 22 ∷ 38 ∷ [])
        ∷ (6 ∷ 24 ∷ 42 ∷ [])
        ∷ (6 ∷ 26 ∷ 46 ∷ [])
        ∷ (6 ∷ 28 ∷ 50 ∷ [])
        ∷ [])
      version []

-- `matrix[r][c] !== null`
unfoldable pub is_set : Grid → ℕ → ℕ → Bool
is_set g r c = elim (get_cell g.matrix r c) [ some none ↦ false | _ ↦ true ]

-- The source's r and c, from -2 to 2, are i - 2 and j - 2.
alignment_module : ℕ → ℕ → ℕ → ℕ → Grid → Grid
unfolding reserve
alignment_module row col i j g =
    reserve (row + i - 2) (col + j - 2) (i == 0 || i == 4 || j == 0 || j == 4 || (i == 2 && j == 2))
      g

place_alignment : ℕ → ℕ → Grid → Grid
unfolding alignment_module is_set
place_alignment row col g =
    if is_set g row col
    then g
    else for_range 5 0 (λ i. for_range 5 0 (λ j. alignment_module row col i j)) g

unfoldable pub place_alignments : ℕ → Grid → Grid
unfolding place_alignment alignment_positions
place_alignments version g =
    let positions = alignment_positions version in
    for_each positions (λ row. for_each positions (λ col. place_alignment row col)) g

timing_row : ℕ → Grid → Grid
unfolding reserve is_set
timing_row r g = if is_set g r 6 then g else reserve r 6 (r % 2 == 0) g

timing_column : ℕ → Grid → Grid
unfolding reserve is_set
timing_column c g = if is_set g 6 c then g else reserve 6 c (c % 2 == 0) g

unfoldable pub place_timing : ℕ → Grid → Grid
unfolding timing_row timing_column
place_timing n g = for_range (n - 16) 8 timing_column (for_range (n - 16) 8 timing_row g)

-- The i-th digit of a word.
abbrev pub digit_of : ℕ → ℕ → Bool
digit_of word i = word / 2 ^ i % 2 == 1

format_down : ℕ → ℕ → ℕ → Grid → Grid
unfolding reserve
format_down n word i g =
    let r = if ltb i 6 then i else if ltb i 8 then i + 1 else n - 15 + i in
    reserve r 8 (digit_of word i) g

format_across : ℕ → ℕ → ℕ → Grid → Grid
unfolding reserve
format_across n word i g =
    let c = if ltb i 8 then n - i - 1 else if ltb i 9 then 15 - i - 1 + 1 else 15 - i - 1 in
    reserve 8 c (digit_of word i) g

unfoldable pub place_format : ℕ → EcLevel → Grid → Grid
unfolding format_down format_across
place_format n ec_level g =
    let word = format_bits ec_level 0 in
    for_range 15 0 (format_across n word) (for_range 15 0 (format_down n word) g)

version_module : ℕ → ℕ → ℕ → Grid → Grid
unfolding reserve
version_module n word i g =
    let r = i / 3 in
    let c = i % 3 + n - 8 - 3 in reserve c r (digit_of word i) (reserve r c (digit_of word i) g)

unfoldable pub place_version : ℕ → ℕ → Grid → Grid
unfolding version_module
place_version n version g =
    if leb 7 version then for_range 18 0 (version_module n (version_bits version)) g else g

unfoldable pub module_count : ℕ → ℕ
module_count version = version * 4 + 17

-- `buildMatrix` before the code words are placed.
unfoldable pub function_patterns : ℕ → EcLevel → Grid
unfolding module_count
function_patterns version ec_level =
    let n = module_count version in
    let finders =
      place_finder n (n - 7) 0 (place_finder n 0 (n - 7) (place_finder n 0 0 (blank n))) in
    let timed = place_timing n (place_alignments version finders) in
    place_version n version (place_format n ec_level (reserve (n - 8) 8 true timed))
