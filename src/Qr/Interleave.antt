-- ===== src/Qr/Interleave.antt =====
-- `interleave` of freenetic-qrcode.js: the code words of the blocks in turn, data before checks.
pub mod Order
use freenetic.Base.{ℕ, zero, suc, ◌+◌, max, List, [], ◌∷◌, ◌++◌, none, some, get_elem?, length}

-- `for (const block of blocks) if (i < block.length) result.push(block[i])`
unfoldable pub column : ℕ → List (List ℕ) → List ℕ
column i [] = []
column i (block ∷ blocks) = elim (get_elem? block i) [
  | none ↦ column i blocks
  | some x ↦ x ∷ column i blocks
]

-- The rounds left, from index i on.
unfoldable pub columns : ℕ → ℕ → List (List ℕ) → List ℕ
unfolding column
columns zero i blocks = []
columns (suc n) i blocks = column i blocks ++ columns n (i + 1) blocks

-- `Math.max(...blocks.map(b => b.length))`
unfoldable pub max_length : List (List ℕ) → ℕ
max_length [] = 0
max_length (block ∷ blocks) = max (length block) (max_length blocks)

unfoldable pub interleave : List (List ℕ) → List (List ℕ) → List ℕ
unfolding columns max_length
interleave data_blocks ec_blocks =
    columns (max_length data_blocks) 0 data_blocks ++ columns (max_length ec_blocks) 0 ec_blocks
