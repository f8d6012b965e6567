-- ===== src/Qr/Matrix/Filled.antt =====
-- No module of the symbol stays null: checked for each version and level, for any code words.
use freenetic.Base.{
  ℕ, zero, suc, ◌<◌, ◌≡◌, refl, Bool, true, ◌&&◌, List, Option, ◌==◌, is_some, every, length,
  for_range, for_each, arith,
}
use freenetic.Qr.Blocks.{EcLevel, low, medium}
use freenetic.Qr.Matrix.{
  function_patterns, module_count, blank, place_finder, place_alignments, place_timing,
  place_format, place_version, reserve,
}
use freenetic.Qr.Matrix.Placement.{
  is_free, module_dark, place_module, place_pair, sweep, place_columns, place_codewords,
  build_matrix,
}

-- The grid has n rows of n modules, and every module has a colour.
unfoldable pub filled : ℕ → List (List (Option Bool)) → Bool
unfolding every
filled n rows = length rows == n && every (λ row. length row == n && every is_some row) rows

drawing : Unit {0}
unfolding filled build_matrix place_codewords place_columns sweep place_pair place_module is_free
    module_dark function_patterns blank place_finder place_alignments place_timing place_format
    place_version reserve for_range for_each
drawing = tt

abbrev pub Filled : ℕ → EcLevel → List ℕ → Type 0
Filled v ec_level codewords = filled (module_count v) (build_matrix v ec_level codewords) ≡ true

Filled-low : (codewords : List ℕ) (v : ℕ) → v < 11 → Filled v low codewords
unfolding drawing
Filled-low codewords zero h = refl
Filled-low codewords (suc zero) h = refl
Filled-low codewords (suc (suc zero)) h = refl
Filled-low codewords (suc (suc (suc zero))) h = refl
Filled-low codewords (suc (suc (suc (suc zero)))) h = refl
Filled-low codewords (suc (suc (suc (suc (suc zero))))) h = refl
Filled-low codewords (suc (suc (suc (suc (suc (suc zero)))))) h = refl
Filled-low codewords (suc (suc (suc (suc (suc (suc (suc zero))))))) h = refl
Filled-low codewords (suc (suc (suc (suc (suc (suc (suc (suc zero)))))))) h = refl
Filled-low codewords (suc (suc (suc (suc (suc (suc (suc (suc (suc zero))))))))) h = refl
Filled-low codewords (suc (suc (suc (suc (suc (suc (suc (suc (suc (suc zero)))))))))) h = refl
Filled-low codewords (suc (suc (suc (suc (suc (suc (suc (suc (suc (suc (suc v))))))))))) h =
    absurd (omega arith)

Filled-medium : (codewords : List ℕ) (v : ℕ) → v < 11 → Filled v medium codewords
unfolding drawing
Filled-medium codewords zero h = refl
Filled-medium codewords (suc zero) h = refl
Filled-medium codewords (suc (suc zero)) h = refl
Filled-medium codewords (suc (suc (suc zero))) h = refl
Filled-medium codewords (suc (suc (suc (suc zero)))) h = refl
Filled-medium codewords (suc (suc (suc (suc (suc zero))))) h = refl
Filled-medium codewords (suc (suc (suc (suc (suc (suc zero)))))) h = refl
Filled-medium codewords (suc (suc (suc (suc (suc (suc (suc zero))))))) h = refl
Filled-medium codewords (suc (suc (suc (suc (suc (suc (suc (suc zero)))))))) h = refl
Filled-medium codewords (suc (suc (suc (suc (suc (suc (suc (suc (suc zero))))))))) h = refl
Filled-medium codewords (suc (suc (suc (suc (suc (suc (suc (suc (suc (suc zero)))))))))) h = refl
Filled-medium codewords (suc (suc (suc (suc (suc (suc (suc (suc (suc (suc (suc v))))))))))) h =
    absurd (omega arith)

pub Filled-every :
    (codewords : List ℕ) (v : ℕ) (ec_level : EcLevel) → v < 11 → Filled v ec_level codewords
Filled-every codewords v low h = Filled-low codewords v h
Filled-every codewords v medium h = Filled-medium codewords v h
