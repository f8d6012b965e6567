-- ===== src/Qr/Matrix/Untouched.antt =====
-- The placement of the code words writes no reserved module, so the function patterns are in the
-- finished symbol as they were drawn.
use freenetic.Base.{
  ℕ, zero, suc, ◌+◌, ◌-◌, ◌≡◌, ◌≢◌, refl, ap, ap₂, ◌∙◌, Bool, true, false, List, [], ◌∷◌, some,
  ◌==◌, ==_iff, ne_of_==, leb, if◌then◌else◌, get_elem?-set_ne, Bool-cases, inl, inr, ◌⊎◌,
}
use freenetic.Qr.Blocks.{EcLevel}
use freenetic.Qr.Matrix.{Grid, get_cell, set_cell, function_patterns, module_count}
use freenetic.Qr.Matrix.Placement.{
  Cursor, is_free, place_module, place_pair, sweep, place_columns, place_codewords, build_matrix,
}

-- A write to one module leaves the others.
get_cell-set_cell_ne {ℓ} :
    {A : Type ℓ} (rows : List (List A)) (i r c c' : ℕ) (v : A)
    → (i ≢ r) ⊎ (c ≢ c')
    → get_cell (set_cell rows i c v) r c' ≡ get_cell rows r c'
get_cell-set_cell_ne [] i r c c' v h = refl
get_cell-set_cell_ne (row ∷ rows) zero zero c c' v (inl h) = absurd (h refl)
get_cell-set_cell_ne (row ∷ rows) zero zero c c' v (inr h) = get_elem?-set_ne row c c' v h
get_cell-set_cell_ne (row ∷ rows) zero (suc r) c c' v h = refl
get_cell-set_cell_ne (row ∷ rows) (suc i) zero c c' v h = refl
get_cell-set_cell_ne (row ∷ rows) (suc i) (suc r) c c' v (inl h) =
    get_cell-set_cell_ne rows i r c c' v (inl (λ e. h (ap suc e)))
get_cell-set_cell_ne (row ∷ rows) (suc i) (suc r) c c' v (inr h) =
    get_cell-set_cell_ne rows i r c c' v (inr h)

-- The grid has the reserved modules of `g`, and on them the colours of `g`.
record Keeps (g : Grid) (s : Cursor) : Type 0 where
  marks : s.grid.reserved ≡ g.reserved
  colours :
      (r c : ℕ)
      → get_cell g.reserved r c ≡ some true
      → get_cell s.grid.matrix r c ≡ get_cell g.matrix r c

is_free-false : (g : Grid) (r c : ℕ) → get_cell g.reserved r c ≡ some true → is_free g r c ≡ false
unfolding is_free
is_free-false g r c h = rw (h, is_free)

differ :
    (g : Grid) (i r c c' : ℕ)
    → is_free g i c ≡ true
    → get_cell g.reserved r c' ≡ some true
    → (i ≢ r) ⊎ (c ≢ c')
differ g i r c c' free taken = elim (Bool-cases (i == r)) [
  | inr other ↦ inl (ne_of_== i r other)
  | inl row ↦ elim (Bool-cases (c == c')) [
    | inr other ↦ inr (ne_of_== c c' other)
    | inl column ↦
        let e : is_free g i c ≡ is_free g r c' =
          ap₂ (is_free g) ((==_iff i r).0 row) ((==_iff c c').0 column) in
        let no_longer = is_free-false g r c' taken in cc
  ]
]

pick-Keeps :
    {g : Grid} (b : Bool) {s t : Cursor} → Keeps g s → Keeps g t → Keeps g (if b then s else t)
pick-Keeps true ks kt = ks
pick-Keeps false ks kt = kt

module _ (g : Grid) (codewords : List ℕ) where
  place_module-Keeps : (c : ℕ) (s : Cursor) → Keeps g s → Keeps g (place_module codewords c s)
  unfolding place_module
  place_module-Keeps c s k = elim (Bool-cases (is_free s.grid s.row c)) [
    | inr taken ↦ rw taken k
    | inl free ↦ rw free (record {
      marks = k.marks;
      colours = λ r c' h.
          get_cell-set_cell_ne s.grid.matrix s.row r c c' _
            (differ s.grid s.row r c c' free (rw k.marks h))
          ∙ k.colours r c' h;
    })
  ]

  place_pair-Keeps : (col : ℕ) (s : Cursor) → Keeps g s → Keeps g (place_pair codewords col s)
  unfolding place_pair
  place_pair-Keeps col s k = place_module-Keeps (col - 1) _ (place_module-Keeps col s k)

  -- Moving to another row or turning round changes no module.
  move-Keeps : (s : Cursor) (row : ℕ) → Keeps g s → Keeps g (record s { row = row })
  move-Keeps s row k = record { marks = k.marks; colours = k.colours }

  turn-Keeps : (s : Cursor) (up : Bool) → Keeps g s → Keeps g (record s { up = up })
  turn-Keeps s up k = record { marks = k.marks; colours = k.colours }

  sweep-Keeps : (n fuel col : ℕ) (s : Cursor) → Keeps g s → Keeps g (sweep codewords n fuel col s)
  unfolding sweep
  sweep-Keeps n zero col s k = k
  sweep-Keeps n (suc fuel) col s k =
      let t = place_pair codewords col s in
      let kt = place_pair-Keeps col s k in
      let above = sweep-Keeps n fuel col (record t { row = t.row - 1 }) (move-Keeps t _ kt) in
      let below = sweep-Keeps n fuel col (record t { row = t.row + 1 }) (move-Keeps t _ kt) in
      pick-Keeps t.up (pick-Keeps (t.row == 0) (turn-Keeps t false kt) above)
        (pick-Keeps (leb n (t.row + 1)) (turn-Keeps t true kt) below)

  place_columns-Keeps :
      (n fuel col : ℕ) (s : Cursor) → Keeps g s → Keeps g (place_columns codewords n fuel col s)
  unfolding place_columns
  place_columns-Keeps n zero col s k = k
  place_columns-Keeps n (suc fuel) col s k =
      let here = if col == 6 then col - 1 else col in
      let rest =
        place_columns-Keeps n fuel (here - 2) (sweep codewords n n here s)
          (sweep-Keeps n n here s k) in
      pick-Keeps (col == 0) k rest

-- In the finished symbol, every module that the function patterns reserve has the colour that they
-- gave it, whatever the code words are.
pub build_matrix-untouched :
    (version : ℕ) (ec_level : EcLevel) (codewords : List ℕ) (r c : ℕ)
    → get_cell (function_patterns version ec_level).reserved r c ≡ some true
    → get_cell (build_matrix version ec_level codewords) r c
      ≡ get_cell (function_patterns version ec_level).matrix r c
unfolding build_matrix place_codewords
build_matrix-untouched version ec_level codewords r c h =
    let g = function_patterns version ec_level in
    let n = module_count version in
    let start : Cursor = record {
      grid = g;
      row = n - 1;
      up = true;
      bit_index = 7;
      byte_index = 0;
    } in
    let same : Keeps g start = record { marks = refl; colours = λ _ _ _. refl } in
    (place_columns-Keeps g codewords n n (n - 1) start same).colours r c h
