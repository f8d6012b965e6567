-- ===== src/Qr/Encode/Blocks.antt =====
-- The blocks of a symbol: they cut the data code words into consecutive parts.
use mathlib.Core.List.{flatten, map-append}
use freenetic.Base.{
  ℕ, zero, suc, ◌+◌, ◌-◌, ◌*◌, ◌≤◌, ◌≡◌, refl, sym, ap, ap₂, ◌≡⟨◌⟩◌, ◌∎, ◌∙◌, List, [], ◌∷◌, ◌++◌,
  map, append_assoc, take, drop, length, arith,
}
use freenetic.Qr.Field.{Tables}
use freenetic.Qr.Blocks.{EcLevel, Group, groups_of, capacity_bytes, sum_payload}
use freenetic.Qr.Encode.{Block, group_blocks, all_blocks}

module _ {ℓ} {A : Type ℓ} where
  drop-drop : (m n : ℕ) (xs : List A) → drop n (drop m xs) ≡ drop (m + n) xs
  drop-drop zero n xs = let e : 0 + n ≡ n = omega arith in rw e
  drop-drop (suc m) zero [] = let e : suc m + 0 ≡ suc m = omega arith in rw e
  drop-drop (suc m) (suc n) [] = let e : suc m + suc n ≡ suc (m + suc n) = omega arith in rw e
  drop-drop (suc m) n (x ∷ xs) =
      let e : suc m + n ≡ suc (m + n) = omega arith in rw e (drop-drop m n xs)

  take-add : (m n : ℕ) (xs : List A) → take m xs ++ take n (drop m xs) ≡ take (m + n) xs
  take-add zero n xs = let e : 0 + n ≡ n = omega arith in rw e
  take-add (suc m) zero [] = let e : suc m + 0 ≡ suc m = omega arith in rw e
  take-add (suc m) (suc n) [] = let e : suc m + suc n ≡ suc (m + suc n) = omega arith in rw e
  take-add (suc m) n (x ∷ xs) =
      let e : suc m + n ≡ suc (m + n) = omega arith in rw e (ap (λ l. x ∷ l) (take-add m n xs))

  take-all : (n : ℕ) (xs : List A) → length xs ≤ n → take n xs ≡ xs
  take-all zero [] h = refl
  take-all zero (x ∷ xs) h = absurd (omega arith)
  take-all (suc n) [] h = refl
  take-all (suc n) (x ∷ xs) h = ap (λ l. x ∷ l) (take-all n xs (omega arith))

abbrev pub words_of : List Block → List (List ℕ)
words_of = map (λ b. b.words)

group_blocks-flatten :
    (t : Tables) (ws : List ℕ) (payload ec_count count offset : ℕ)
    → flatten (words_of (group_blocks t ws payload ec_count count offset))
      ≡ take (count * payload) (drop offset ws)
unfolding group_blocks flatten
group_blocks-flatten t ws payload ec_count zero offset =
    let e : 0 * payload ≡ 0 = omega arith in rw e
group_blocks-flatten t ws payload ec_count (suc count) offset =
    let here = drop offset ws in
    let rest : flatten (words_of (group_blocks t ws payload ec_count count (offset + payload)))
        ≡ take (count * payload) (drop payload here) =
      group_blocks-flatten t ws payload ec_count count (offset + payload)
      ∙ ap (take (count * payload)) (sym (drop-drop offset payload ws)) in
    let sum : suc count * payload ≡ payload + count * payload = omega arith in
    rw (rest, sum) (take-add payload (count * payload) here)

flatten-append : (xs ys : List (List ℕ)) → flatten (xs ++ ys) ≡ flatten xs ++ flatten ys
unfolding flatten
flatten-append [] ys = refl
flatten-append (x ∷ xs) ys = rw (flatten-append xs ys, append_assoc)

all_blocks-flatten :
    (t : Tables) (ws : List ℕ) (groups : List Group) (offset : ℕ)
    → flatten (words_of (all_blocks t ws groups offset))
      ≡ take (sum_payload groups) (drop offset ws)
unfolding all_blocks sum_payload
all_blocks-flatten t ws [] offset = unfold flatten in refl
all_blocks-flatten t ws (g ∷ gs) offset =
    let first = group_blocks t ws g.payload (g.total - g.payload) g.count offset in
    let rest = all_blocks t ws gs (offset + g.count * g.payload) in
    flatten (words_of (first ++ rest))
    ≡⟨ ap flatten (map-append _ first rest) ∙ flatten-append (words_of first) (words_of rest) ⟩
      flatten (words_of first) ++ flatten (words_of rest)
    ≡⟨ ap₂ ◌++◌ (group_blocks-flatten t ws g.payload _ g.count offset) (
        all_blocks-flatten t ws gs (offset + g.count * g.payload)
        ∙ ap (take (sum_payload gs)) (sym (drop-drop offset (g.count * g.payload) ws))) ⟩
      take (g.count * g.payload) (drop offset ws)
      ++ take (sum_payload gs) (drop (g.count * g.payload) (drop offset ws))
    ≡⟨ take-add (g.count * g.payload) (sum_payload gs) (drop offset ws) ⟩
      take (g.count * g.payload + sum_payload gs) (drop offset ws) ∎

-- Where the data code words fill the capacity, the blocks laid end to end are exactly the data code
-- words: every word is in one block, in order.
pub all_blocks-words :
    (t : Tables) (ws : List ℕ) (version : ℕ) (ec_level : EcLevel)
    → length ws ≡ capacity_bytes version ec_level
    → flatten (words_of (all_blocks t ws (groups_of version ec_level) 0)) ≡ ws
unfolding capacity_bytes
all_blocks-words t ws version ec_level h =
    all_blocks-flatten t ws (groups_of version ec_level) 0 ∙ take-all _ ws (omega arith)
