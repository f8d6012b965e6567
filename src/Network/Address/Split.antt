-- ===== src/Network/Address/Split.antt =====
-- `split` at a character undoes `join`.
use freenetic.Base.{
  ℕ, Bool, true, false, ◌&&◌, ◌≡◌, inl, inr, refl, sym, ap, ◌∙◌, List, [], ◌∷◌, ◌++◌, ◌==◌, ==_iff,
  Text, every, is_digit, is_decimal, not, Bool-cases, All, arith,
}
use freenetic.Network.Address.{split_on}

-- `[ p, ...ps ].join(c)`
unfoldable pub joined : ℕ → Text → List Text → Text
joined c p [] = p
joined c p (q ∷ qs) = p ++ c ∷ joined c q qs

-- No character of the text is `c`.
unfoldable pub free : ℕ → Text → Bool
free c s = every (λ d. not (d == c)) s

pub joined-split_on : (c : ℕ) (s : Text) → joined c (split_on c s).0 (split_on c s).1 ≡ s
unfolding joined split_on
joined-split_on c [] = refl
joined-split_on c (d ∷ s) = elim (Bool-cases (d == c)) [
  | inl e ↦ rw (e, split_on, joined-split_on c s) (ap (λ x. x ∷ s) (sym ((==_iff d c).0 e)))
  | inr e ↦
      rw (e, split_on)
        (unread c d (split_on c s).0 (split_on c s).1 ∙ ap (λ t. d ∷ t) (joined-split_on c s))
]
  where
    unread : (c d : ℕ) (p : Text) (ps : List Text) → joined c (d ∷ p) ps ≡ d ∷ joined c p ps
    unread c d p [] = refl
    unread c d p (q ∷ qs) = refl

split_on-free : (c : ℕ) (p : Text) → free c p ≡ true → split_on c p ≡ (p, [])
unfolding split_on free every
split_on-free c [] h = refl
split_on-free c (d ∷ p) h = elim (Bool-cases (d == c)) [
  | inl e ↦ absurd (false_ne_true (rw (e, not) at h))
  | inr e ↦ rw (e, split_on-free c p (rw (e, not) at h)) refl
]
  where
    false_ne_true : false ≡ true → ⊥
    false_ne_true e = cc

split_on-append :
    (c : ℕ) (p s : Text)
    → free c p ≡ true
    → split_on c (p ++ c ∷ s) ≡ (p, (split_on c s).0 ∷ (split_on c s).1)
unfolding split_on free every
split_on-append c [] s h = rw ((==_iff c c).1 refl) refl
split_on-append c (d ∷ p) s h = elim (Bool-cases (d == c)) [
  | inl e ↦ absurd (false_ne_true (rw (e, not) at h))
  | inr e ↦ rw (e, split_on-append c p s (rw (e, not) at h)) refl
]
  where
    false_ne_true : false ≡ true → ⊥
    false_ne_true e = cc

pub split_on-joined :
    (c : ℕ) (p : Text) (ps : List Text)
    → free c p ≡ true
    → All (λ q. free c q ≡ true) ps
    → split_on c (joined c p ps) ≡ (p, ps)
unfolding joined
split_on-joined c p [] h k = split_on-free c p h
split_on-joined c p (q ∷ qs) h (k, ks) =
    rw (split_on-append c p (joined c q qs) h, split_on-joined c q qs k ks) refl

digit-other : (c d : ℕ) → is_digit c ≡ false → is_digit d ≡ true → (d == c) ≡ false
digit-other c d h k = elim (Bool-cases (d == c)) [
  | inr e ↦ e
  | inl e ↦ absurd (true_ne_false (sym k ∙ ap is_digit ((==_iff d c).0 e) ∙ h))
]
  where
    true_ne_false : true ≡ false → ⊥
    true_ne_false e = cc

pub digits-free :
    (c : ℕ) (s : Text) → is_digit c ≡ false → every is_digit s ≡ true → free c s ≡ true
unfolding every free
digits-free c [] h k = refl
digits-free c (d ∷ s) h k =
    let (k1, k2) = both (is_digit d) (every is_digit s) k in
    rw (digit-other c d h k1, digits-free c s h k2) refl
  where
    both : (a b : Bool) → (a && b) ≡ true → (a ≡ true) × (b ≡ true)
    both a b e = ground arith

pub decimal-free : (c : ℕ) (s : Text) → is_digit c ≡ false → is_decimal s ≡ true → free c s ≡ true
unfolding is_decimal
decimal-free c [] h k = cc
decimal-free c (d ∷ s) h k = digits-free c (d ∷ s) h k
