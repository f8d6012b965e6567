-- ===== src/Qr/Matrix/Complete.antt =====
-- The finished symbol is a full square of dark and light modules.
use freenetic.Base.{
  ℕ, zero, suc, ◌+◌, ◌*◌, ◌<◌, ◌≡◌, refl, Bool, true, false, ◌&&◌, List, [], ◌∷◌, Option, none,
  some, ◌==◌, is_some, every, length, get_elem?, get_or, arith,
}
use freenetic.Qr.Blocks.{EcLevel}
use freenetic.Qr.Matrix.{get_cell, module_count}
use freenetic.Qr.Matrix.Placement.{build_matrix}
use freenetic.Qr.Matrix.Filled.{filled, Filled-every}

filled-parts :
    (n : ℕ) (rows : List (List (Option Bool)))
    → filled n rows ≡ true
    → (length rows ≡ n) × (every (λ row. length row == n && every is_some row) rows ≡ true)
unfolding filled
filled-parts n rows h = ground arith

false_ne_true : false ≡ true → ⊥
false_ne_true h = cc

cell_of_every :
    (row : List (Option Bool)) (c : ℕ)
    → every is_some row ≡ true
    → c < length row
    → (dark : Bool) × (get_elem? row c ≡ some (some dark))
unfolding every
cell_of_every [] c h k = absurd (omega arith)
cell_of_every (none ∷ row) c h k = absurd (false_ne_true h)
cell_of_every (some dark ∷ row) zero h k = (dark, refl)
cell_of_every (some dark ∷ row) (suc c) h k = cell_of_every row c h (omega arith)

cell_of_filled :
    (n : ℕ) (rows : List (List (Option Bool))) (r c : ℕ)
    → every (λ row. length row == n && every is_some row) rows ≡ true
    → r < length rows
    → c < n
    → (dark : Bool) × (get_cell rows r c ≡ some (some dark))
unfolding every
cell_of_filled n [] r c h k l = absurd (omega arith)
cell_of_filled n (row ∷ rows) zero c h k l =
    cell_of_every row c (unfold every in ground arith) (unfold every in ground arith)
cell_of_filled n (row ∷ rows) (suc r) c h k l =
    cell_of_filled n rows r c (unfold every in ground arith) (omega arith) l

row_of_filled :
    (n : ℕ) (rows : List (List (Option Bool))) (r : ℕ)
    → every (λ row. length row == n && every is_some row) rows ≡ true
    → r < length rows
    → length (get_or rows r []) ≡ n
unfolding every
row_of_filled n [] r h k = absurd (omega arith)
row_of_filled n (row ∷ rows) zero h k = unfold every in ground arith
row_of_filled n (row ∷ rows) (suc r) h k =
    row_of_filled n rows r (unfold every in ground arith) (omega arith)

-- For the versions 1 to 10 and both levels, the finished symbol has 4 * version + 17 rows, each row has
-- as many modules, and every module is dark or light, none is left null, whatever the code words.
pub build_matrix_complete :
    (version : ℕ) (ec_level : EcLevel) (codewords : List ℕ) (r c : ℕ)
    → version < 11
    → r < 4 * version + 17
    → c < 4 * version + 17
    → (length (build_matrix version ec_level codewords) ≡ 4 * version + 17)
      × (length (get_or (build_matrix version ec_level codewords) r []) ≡ 4 * version + 17)
      × ((dark : Bool) × (get_cell (build_matrix version ec_level codewords) r c
            ≡ some (some dark)))
unfolding module_count
build_matrix_complete version ec_level codewords r c h p q =
    let rows = build_matrix version ec_level codewords in
    let n = module_count version in
    let full = Filled-every codewords version ec_level h in
    let (sized, each) = filled-parts n rows full in
    let wide : length (get_or rows r []) ≡ n = row_of_filled n rows r each (omega arith) in
    (omega arith, omega arith, cell_of_filled n rows r c each (omega arith) (omega arith))
