-- ===== src/Base/Loops.antt =====
-- Counted loops and loops over a list, with the rule that an invariant of the body is one of the loop.
use Prim.Native.Nat.{ℕ, zero, suc, ◌+◌}
use mathlib.Core.List.{List, [], ◌∷◌}

module _ {ℓ} {S : Type ℓ} where
  -- `for (k = i; k < i + n; k++) s = body(k, s)`
  unfoldable pub for_range : ℕ → ℕ → (ℕ → S → S) → S → S
  for_range zero i body s = s
  for_range (suc n) i body s = for_range n (i + 1) body (body i s)

  -- `for (const x of xs) s = body(x, s)`
  unfoldable pub for_each {κ} : {A : Type κ} → List A → (A → S → S) → S → S
  for_each [] body s = s
  for_each (x ∷ xs) body s = for_each xs body (body x s)

  pub for_range-keeps {κ} :
      (P : S → Type κ) (n i : ℕ) (body : ℕ → S → S) (s : S)
      → ((k : ℕ) (t : S) → P t → P (body k t))
      → P s
      → P (for_range n i body s)
  unfolding for_range
  for_range-keeps P zero i body s keeps h = h
  for_range-keeps P (suc n) i body s keeps h =
      for_range-keeps P n (i + 1) body (body i s) keeps (keeps i s h)

  pub for_each-keeps {κ ν} :
      {A : Type ν} (P : S → Type κ) (xs : List A) (body : A → S → S) (s : S)
      → ((x : A) (t : S) → P t → P (body x t))
      → P s
      → P (for_each xs body s)
  unfolding for_each
  for_each-keeps P [] body s keeps h = h
  for_each-keeps P (x ∷ xs) body s keeps h = for_each-keeps P xs body (body x s) keeps (keeps x s h)
