-- ===== src/Qr/Matrix/Sweep.antt =====
-- The passes over the rows end at the edges of the grid.
use freenetic.Base.{
  ℕ, zero, suc, ◌+◌, ◌-◌, ◌<◌, ◌≤◌, ◌≡◌, refl, ◌∙◌, Bool, true, false, not, List, ◌==◌, ==_iff, leb,
  if-intro, ne_of_==, le_of_leb, lt_of_leb, Bool-cases, inl, inr, arith,
}
use freenetic.Qr.Matrix.Placement.{Cursor, is_free, place_module, place_pair, sweep}

place_module-row :
    (codewords : List ℕ) (c : ℕ) (s : Cursor)
    → ((place_module codewords c s).row ≡ s.row) × ((place_module codewords c s).up ≡ s.up)
unfolding place_module
place_module-row codewords c s = elim (Bool-cases (is_free s.grid s.row c)) [
  | inl free ↦ rw free (refl, refl)
  | inr taken ↦ rw taken (refl, refl)
]

place_pair-row :
    (codewords : List ℕ) (col : ℕ) (s : Cursor)
    → ((place_pair codewords col s).row ≡ s.row) × ((place_pair codewords col s).up ≡ s.up)
unfolding place_pair
place_pair-row codewords col s =
    let (row, up) = place_module-row codewords col s in
    let (row', up') = place_module-row codewords (col - 1) (place_module codewords col s) in
    (row' ∙ row, up' ∙ up)

not_both : (b : Bool) → b ≡ true → b ≡ false → ⊥
not_both b h k = cc

-- The row a pass starts from: the last one facing up, the first one facing down.
unfoldable pub edge : ℕ → Bool → ℕ
edge n true = n - 1
edge n false = 0

module _ (codewords : List ℕ) (n : ℕ) where
  -- An upward pass with a round for each row above ends in row 0, facing down.
  sweep_up :
      (fuel col : ℕ) (s : Cursor)
      → s.up ≡ true
      → s.row < fuel
      → ((sweep codewords n fuel col s).row ≡ 0) × ((sweep codewords n fuel col s).up ≡ false)
  unfolding sweep
  sweep_up zero col s u h = absurd (omega arith)
  sweep_up (suc fuel) col s u h =
      let t = place_pair codewords col s in
      let (row, up) = place_pair-row codewords col s in
      let Ends = λ (z : Cursor). (z.row ≡ 0) × (z.up ≡ false) in
      if-intro Ends t.up
        (λ _.
          if-intro Ends (t.row == 0) (λ top. ((==_iff t.row 0).0 top, refl))
            (λ inside.
              sweep_up fuel col (record t { row = t.row - 1 }) (up ∙ u)
                (omega (arith, row, ne_of_== t.row 0 inside))))
        (λ down. absurd (not_both t.up (up ∙ u) down))

  -- A downward pass with a round for each row below ends in the last row, facing up.
  sweep_down :
      (fuel col : ℕ) (s : Cursor)
      → s.up ≡ false
      → s.row < n
      → n ≤ s.row + fuel
      → ((sweep codewords n fuel col s).row + 1 ≡ n) × ((sweep codewords n fuel col s).up ≡ true)
  unfolding sweep
  sweep_down zero col s u h k = absurd (omega arith)
  sweep_down (suc fuel) col s u h k =
      let t = place_pair codewords col s in
      let (row, up) = place_pair-row codewords col s in
      let Ends = λ (z : Cursor). (z.row + 1 ≡ n) × (z.up ≡ true) in
      if-intro Ends t.up (λ above. absurd (not_both t.up above (up ∙ u)))
        (λ _.
          if-intro Ends (leb n (t.row + 1))
            (λ last. (omega (arith, row, le_of_leb n (t.row + 1) last), refl))
            (λ inside.
              sweep_down fuel col (record t { row = t.row + 1 }) (up ∙ u)
                (omega (arith, row, lt_of_leb n (t.row + 1) inside)) (omega (arith, row))))

  -- The endless loop over the rows always ends within n rounds: started at an edge of the grid, a pass
  -- ends at the opposite edge, facing the other way, where the next pass starts.
  pub sweep_turns :
      (col : ℕ) (up : Bool) (s : Cursor)
      → 0 < n
      → s.up ≡ up
      → s.row ≡ edge n up
      → ((sweep codewords n n col s).up ≡ not up)
        × ((sweep codewords n n col s).row ≡ edge n (not up))
  unfolding edge
  sweep_turns col true s pos u e = let (row, up) = sweep_up n col s u (omega arith) in (up, row)
  sweep_turns col false s pos u e =
      let (row, up) = sweep_down n col s u (omega arith) (omega arith) in (up, omega arith)
