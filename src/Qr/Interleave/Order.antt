-- ===== src/Qr/Interleave/Order.antt =====
-- Interleaving moves the code words of all blocks, and drops and repeats none.
use mathlib.Core.List.{Perm, perm_append_comm, tail, flatten}
use mathlib.Core.List.Perm
use freenetic.Base.{
  ℕ, zero, suc, ◌+◌, ◌≤◌, ◌≡◌, refl, ap, ap₂, ◌∙◌, List, [], ◌∷◌, ◌++◌, map, append_assoc, none,
  some, get_elem?, length, All, arith,
}
use freenetic.Qr.Interleave.{column, columns, max_length, interleave}

column-suc : (i : ℕ) (blocks : List (List ℕ)) → column (suc i) blocks ≡ column i (map tail blocks)
unfolding column
column-suc i [] = refl
column-suc i ([] ∷ blocks) = column-suc i blocks
column-suc i ((x ∷ xs) ∷ blocks) =
    λ j. elim (get_elem? xs i) [ none ↦ column-suc i blocks j | some y ↦ y ∷ column-suc i blocks j ]

columns-suc :
    (n i : ℕ) (blocks : List (List ℕ)) → columns n (i + 1) blocks ≡ columns n i (map tail blocks)
unfolding columns
columns-suc zero i blocks = refl
columns-suc (suc n) i blocks =
    let e : i + 1 ≡ suc i = omega arith in
    ap₂ ◌++◌ (ap (λ k. column k blocks) e ∙ column-suc i blocks) (columns-suc n (i + 1) blocks)

perm_across : (xs ys zs : List ℕ) → Perm (xs ++ (ys ++ zs)) (ys ++ (xs ++ zs))
perm_across xs ys zs =
    rw (← append_assoc xs ys zs, ← append_assoc ys xs zs)
      (Perm.append_right zs (perm_append_comm xs ys))

column-perm :
    (blocks : List (List ℕ)) → Perm (flatten blocks) (column 0 blocks ++ flatten (map tail blocks))
unfolding column flatten
column-perm [] = Perm.refl []
column-perm ([] ∷ blocks) = column-perm blocks
column-perm ((x ∷ xs) ∷ blocks) =
    let rest = flatten (map tail blocks) in
    Perm.cons x (
      Perm.trans (Perm.append_left xs (column-perm blocks)) (perm_across xs (column 0 blocks) rest))

abbrev Short : ℕ → List ℕ → Type 0
Short n block = length block ≤ n

flatten_empty : (blocks : List (List ℕ)) → All (Short 0) blocks → flatten blocks ≡ []
unfolding flatten
flatten_empty [] h = refl
flatten_empty ([] ∷ blocks) (p, h) = flatten_empty blocks h
flatten_empty ((x ∷ xs) ∷ blocks) (p, h) = absurd (omega arith)

All-tail :
    (n : ℕ) (blocks : List (List ℕ)) → All (Short (suc n)) blocks → All (Short n) (map tail blocks)
All-tail n [] h = tt
All-tail n ([] ∷ blocks) (p, h) = (omega arith, All-tail n blocks h)
All-tail n ((x ∷ xs) ∷ blocks) (p, h) = (omega arith, All-tail n blocks h)

columns_one : (n : ℕ) (blocks : List (List ℕ)) → columns n 1 blocks ≡ columns n 0 (map tail blocks)
columns_one n blocks = columns-suc n 0 blocks

columns_step :
    (n : ℕ) (blocks : List (List ℕ))
    → Perm (columns n 0 (map tail blocks)) (flatten (map tail blocks))
    → Perm (columns (suc n) 0 blocks) (column 0 blocks ++ flatten (map tail blocks))
columns_step n blocks p =
    let e : columns (suc n) 0 blocks ≡ column 0 blocks ++ columns n 0 (map tail blocks) =
      unfold columns in ap (λ l. column 0 blocks ++ l) (columns_one n blocks) in
    rw e (Perm.append_left (column 0 blocks) p)

columns-perm :
    (n : ℕ) (blocks : List (List ℕ))
    → All (Short n) blocks
    → Perm (columns n 0 blocks) (flatten blocks)
columns-perm zero blocks h = unfold columns in rw (flatten_empty blocks h) (Perm.refl [])
columns-perm (suc n) blocks h =
    Perm.trans (columns_step n blocks (columns-perm n (map tail blocks) (All-tail n blocks h)))
      (Perm.symm (column-perm blocks))

Short-max_length : (n : ℕ) (blocks : List (List ℕ)) → max_length blocks ≤ n → All (Short n) blocks
unfolding max_length
Short-max_length n [] h = tt
Short-max_length n (block ∷ blocks) h = (omega arith, Short-max_length n blocks (omega arith))

-- The interleaved sequence is a rearrangement of the data blocks and the check blocks laid end to
-- end: no code word is lost or repeated, whatever the blocks' lengths.
pub interleave-perm :
    (data_blocks ec_blocks : List (List ℕ))
    → Perm (interleave data_blocks ec_blocks) (flatten data_blocks ++ flatten ec_blocks)
unfolding interleave
interleave-perm data_blocks ec_blocks =
    Perm.append
      (columns-perm (max_length data_blocks) data_blocks
        (Short-max_length _ data_blocks (omega arith)))
      (columns-perm (max_length ec_blocks) ec_blocks (Short-max_length _ ec_blocks (omega arith)))
