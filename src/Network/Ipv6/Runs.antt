-- ===== src/Network/Ipv6/Runs.antt =====
-- The longest run of zeros that `formatIpv6Words` looks for.
use freenetic.Base.{
  ℕ, zero, suc, ◌+◌, List, [], ◌∷◌, ◌++◌, ◌≡◌, refl, sym, ap, ◌∙◌, arith, ltb, if◌then◌else◌,
  if-intro, take, drop, replicate, length, length-append, length-replicate, append_assoc,
}
use freenetic.Network.Ipv6.{Run, best_run, zero_run}

-- What the run covers is all zeros: put back as zeros, it gives the words again.
unfoldable pub IsRun : List ℕ → Run → Type 0
IsRun words run =
    take run.start words ++ (replicate run.size 0 ++ drop (run.start + run.size) words) ≡ words

module _ {ℓ} {A : Type ℓ} where
  take-append : (xs ys : List A) → take (length xs) (xs ++ ys) ≡ xs
  take-append [] ys = refl
  take-append (x ∷ xs) ys = ap (λ t. x ∷ t) (take-append xs ys)

  drop-append : (xs ys : List A) (n : ℕ) → drop (length xs + n) (xs ++ ys) ≡ drop n ys
  drop-append [] ys n = let e : 0 + n ≡ n = omega arith in rw e refl
  drop-append (x ∷ xs) ys n =
      let e : suc (length xs) + n ≡ suc (length xs + n) = omega arith in rw e (drop-append xs ys n)

zero_run_split : (ws : List ℕ) → ws ≡ replicate (zero_run ws) 0 ++ drop (zero_run ws) ws
unfolding zero_run
zero_run_split [] = refl
zero_run_split (zero ∷ ws) = ap (λ t. zero ∷ t) (zero_run_split ws)
zero_run_split (suc w ∷ ws) = refl

found :
    (before words : List ℕ) (run : ℕ)
    → words ≡ replicate run 0 ++ drop run words
    → IsRun (before ++ words) (record { start = length before; size = run })
unfolding IsRun
found before words run e =
    rw (take-append before words, drop-append before words run) (ap (λ t. before ++ t) (sym e))

best_run-kept :
    (n : ℕ) (before words : List ℕ) (best : Run)
    → IsRun (before ++ words) best
    → IsRun (before ++ words) (best_run n (length before) words best)
unfolding best_run
best_run-kept zero before words best h = h
best_run-kept (suc n) before [] best h = h
best_run-kept (suc n) before (suc w ∷ words) best h =
    let again =
      best_run-kept n (before ++ suc w ∷ []) words best
        (rw (append_assoc before (suc w ∷ []) words) h) in
    rw (append_assoc before (suc w ∷ []) words, length-append before (suc w ∷ [])) at again
best_run-kept (suc n) before (zero ∷ words) best h =
    let run = suc (zero_run words) in
    let cut : zero ∷ words ≡ replicate run 0 ++ drop run (zero ∷ words) =
      ap (λ t. zero ∷ t) (zero_run_split words) in
    let whole : (before ++ replicate run 0) ++ drop run (zero ∷ words) ≡ before ++ zero ∷ words =
      append_assoc before (replicate run 0) (drop run (zero ∷ words))
      ∙ ap (λ t. before ++ t) (sym cut) in
    let size : length (before ++ replicate run 0) ≡ length before + run =
      length-append before (replicate run 0)
      ∙ ap (λ k. length before + k) (length-replicate run 0) in
    let better = if ltb best.size run then record { start = length before; size = run } else best in
    let kept : IsRun (before ++ zero ∷ words) better =
      if-intro (λ r. IsRun (before ++ zero ∷ words) r) (ltb best.size run)
        (λ _. found before (zero ∷ words) run cut) (λ _. h) in
    let again =
      best_run-kept n (before ++ replicate run 0) (drop run (zero ∷ words)) better
        (rw whole kept) in
    rw (whole, size) at again

pub best_run-IsRun :
    (words : List ℕ)
    → IsRun words (best_run (length words) 0 words (record { start = 0; size = 0 }))
unfolding IsRun
best_run-IsRun words = best_run-kept (length words) [] words _ refl
