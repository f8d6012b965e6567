-- ===== src/Qr/Matrix/Placement.antt =====
-- The placement of the code words: the second part of `buildMatrix`.
use freenetic.Base.{
  ℕ, zero, suc, ◌+◌, ◌-◌, ◌/◌, ◌%◌, ◌^◌, Bool, true, false, ◌&&◌, not, List, Option, some, ◌==◌,
  leb, ltb, if◌then◌else◌, get_or, length,
}
use freenetic.Qr.Blocks.{EcLevel}
use freenetic.Qr.Matrix.{Grid, get_cell, set_cell, function_patterns, module_count}

-- The variables of the loops; `up` is `inc === -1`.
pub record Cursor : Type 0 where
  pub grid : Grid
  pub row : ℕ
  pub up : Bool
  pub bit_index : ℕ
  pub byte_index : ℕ

-- `!reserved[r][c]`; the loops stay within the grid.
unfoldable pub is_free : Grid → ℕ → ℕ → Bool
is_free g r c = elim (get_cell g.reserved r c) [ some true ↦ false | _ ↦ true ]

-- The colour of the next data module, inverted where mask 0 says so.
unfoldable pub module_dark : List ℕ → Cursor → ℕ → Bool
module_dark codewords s c =
    let dark =
      ltb s.byte_index (length codewords)
      && get_or codewords s.byte_index 0 / 2 ^ s.bit_index % 2 == 1 in
    if (s.row + c) % 2 == 0 then not dark else dark

unfoldable pub place_module : List ℕ → ℕ → Cursor → Cursor
place_module codewords c s =
    let placed = set_cell s.grid.matrix s.row c (some (module_dark codewords s c)) in
    let last = s.bit_index == 0 in
    if is_free s.grid s.row c
    then record s {
      grid = record { matrix = placed; reserved = s.grid.reserved };
      bit_index = if last then 7 else s.bit_index - 1;
      byte_index = if last then s.byte_index + 1 else s.byte_index;
    }
    else s

-- The two modules of a row; `col` is positive.
unfoldable pub place_pair : List ℕ → ℕ → Cursor → Cursor
place_pair codewords col s = place_module codewords (col - 1) (place_module codewords col s)

-- `for (;;)`: one pass over the rows, which turns round behind the last; n rounds are enough.
unfoldable pub sweep : List ℕ → ℕ → ℕ → ℕ → Cursor → Cursor
sweep codewords n zero col s = s
sweep codewords n (suc fuel) col s =
    let t = place_pair codewords col s in
    let above = sweep codewords n fuel col (record t { row = t.row - 1 }) in
    let below = sweep codewords n fuel col (record t { row = t.row + 1 }) in
    if t.up
    then (if t.row == 0 then record t { up = false } else above)
    else (if leb n (t.row + 1) then record t { up = true } else below)

-- `for (let col = moduleCount - 1; col > 0; col -= 2)`; the timing column 6 is left out.
unfoldable pub place_columns : List ℕ → ℕ → ℕ → ℕ → Cursor → Cursor
place_columns codewords n zero col s = s
place_columns codewords n (suc fuel) col s =
    let here = if col == 6 then col - 1 else col in
    let rest = place_columns codewords n fuel (here - 2) (sweep codewords n n here s) in
    if col == 0 then s else rest

unfoldable pub place_codewords : List ℕ → ℕ → Grid → Grid
place_codewords codewords n g =
    (place_columns codewords n n (n - 1)
      (record { grid = g; row = n - 1; up = true; bit_index = 7; byte_index = 0 })).grid

unfoldable pub build_matrix : ℕ → EcLevel → List ℕ → List (List (Option Bool))
build_matrix version ec_level codewords =
    (place_codewords codewords (module_count version) (function_patterns version ec_level)).matrix
