-- ===== src/Release/Tags/Order.antt =====
-- The comparison of release tags gives opposite answers in opposite orders.
use freenetic.Release.Numbers.{read_number}
use freenetic.Base.{
  ℕ, Bool, true, false, not, ◌≡◌, inl, inr, refl, sym, ◌∙◌, List, [], ◌∷◌, some, ◌==◌, ==_iff, Text,
  text_eq, text_eq_iff, is_decimal, if◌then◌else◌, Bool-cases, Option-cases, All, arith,
}
use freenetic.Release.Tags.{
  Sign, before, same, after, Tag, dot_parts, release_tag_parts, number_sign, text_greater,
  part_sign, compare_parts, compare_pre, compare_tags, compare_release_tags,
}

pub flip : Sign → Sign
flip before = after
flip same = same
flip after = before

number_sign-flip : (m n : ℕ) → (m == n) ≡ false → number_sign n m ≡ flip (number_sign m n)
unfolding number_sign flip
number_sign-flip m n h = ground arith

pub eq_sym : (m n : ℕ) → (m == n) ≡ (n == m)
eq_sym m n = ground arith

pub text_eq_sym : (s t : Text) → text_eq s t ≡ text_eq t s
unfolding text_eq
text_eq_sym [] [] = refl
text_eq_sym [] (d ∷ t) = refl
text_eq_sym (c ∷ s) [] = refl
text_eq_sym (c ∷ s) (d ∷ t) = rw (eq_sym c d, text_eq_sym s t) refl

pub text_greater-flip :
    (s t : Text) → text_eq s t ≡ false → text_greater t s ≡ not (text_greater s t)
unfolding text_greater text_eq
text_greater-flip [] [] h = cc
text_greater-flip [] (d ∷ t) h = refl
text_greater-flip (c ∷ s) [] h = refl
text_greater-flip (c ∷ s) (d ∷ t) h = ground (arith, text_greater-flip s t)

-- Two parts of digits that `Number` reads as the same number are the same text.
pub Clear : Text → Text → Type 0
Clear p q = is_decimal p ≡ true → is_decimal q ≡ true → read_number p ≡ read_number q → p ≡ q

part_sign-flip :
    (p q : Text) → Clear p q → text_eq p q ≡ false → part_sign q p ≡ flip (part_sign p q)
unfolding part_sign flip Clear
part_sign-flip p q clear h = elim (Bool-cases (is_decimal p)) [
  | inl dp ↦ elim (Bool-cases (is_decimal q)) [
    | inl dq ↦ rw (dp, dq) (number_sign-flip (read_number p) (read_number q) (differ dp dq))
    | inr dq ↦ rw (dp, dq) refl
  ]
  | inr dp ↦ elim (Bool-cases (is_decimal q)) [
    | inl dq ↦ rw (dp, dq) refl
    | inr dq ↦ rw (dp, dq, text_greater-flip p q h) (sides (text_greater p q))
  ]
]
  where
    differ : is_decimal p ≡ true → is_decimal q ≡ true → (read_number p == read_number q) ≡ false
    differ dp dq = elim (Bool-cases (read_number p == read_number q)) [
      | inr e ↦ e
      | inl e ↦ absurd (apart ((text_eq_iff p q).1 (clear dp dq ((==_iff _ _).0 e))) h)
    ]
      where
        apart : text_eq p q ≡ true → text_eq p q ≡ false → ⊥
        apart e f = cc

    sides : (b : Bool) → (if not b then after else before) ≡ flip (if b then after else before)
    sides true = refl
    sides false = refl

pub AllClear : List Text → List Text → Type 0
AllClear ps qs = All (λ p. All (Clear p) qs) ps

-- A stable release has no part that is a number.
pub AllClear-stable : (qs : List Text) → AllClear (dot_parts []) qs
unfolding AllClear dot_parts Clear is_decimal
AllClear-stable qs = (empty_clear qs, tt)
  where
    empty_clear : (rs : List Text) → All (Clear []) rs
    empty_clear [] = tt
    empty_clear (r ∷ rs) = (clear_empty r, empty_clear rs)
      where
        clear_empty : (q : Text) → Clear [] q
        clear_empty q d _ _ = absurd (no_digit d)
          where
            no_digit : false ≡ true → ⊥
            no_digit e = cc

tail_clear : (p q : Text) (ps qs : List Text) → AllClear (p ∷ ps) (q ∷ qs) → AllClear ps qs
unfolding AllClear
tail_clear p q ps qs (h, hs) = drop_first ps hs
  where
    drop_first :
        (rs : List Text) → All (λ r. All (Clear r) (q ∷ qs)) rs → All (λ r. All (Clear r) qs) rs
    drop_first [] k = tt
    drop_first (r ∷ rs) ((k1, k2), ks) = (k2, drop_first rs ks)

compare_parts-flip :
    (ps qs : List Text) → AllClear ps qs → compare_parts qs ps ≡ flip (compare_parts ps qs)
unfolding compare_parts flip AllClear
compare_parts-flip [] [] h = refl
compare_parts-flip [] (q ∷ qs) h = refl
compare_parts-flip (p ∷ ps) [] h = refl
compare_parts-flip (p ∷ ps) (q ∷ qs) ((h, h1), hs) =
    let ih = compare_parts-flip ps qs (tail_clear p q ps qs ((h, h1), hs)) in
    elim (Bool-cases (text_eq p q)) [
      | inl e ↦ rw (e, sym (text_eq_sym p q) ∙ e) ih
      | inr e ↦ rw (e, sym (text_eq_sym p q) ∙ e) (part_sign-flip p q h e)
    ]

compare_pre-flip :
    (s t : Text) → AllClear (dot_parts s) (dot_parts t) → compare_pre t s ≡ flip (compare_pre s t)
unfolding compare_pre flip
compare_pre-flip [] [] h = refl
compare_pre-flip [] (d ∷ t) h = refl
compare_pre-flip (c ∷ s) [] h = refl
compare_pre-flip (c ∷ s) (d ∷ t) h = elim (Bool-cases (text_eq (c ∷ s) (d ∷ t))) [
  | inl e ↦ rw (e, sym (text_eq_sym (c ∷ s) (d ∷ t)) ∙ e) refl
  | inr e ↦
      rw (e, sym (text_eq_sym (c ∷ s) (d ∷ t)) ∙ e)
        (compare_parts-flip (dot_parts (c ∷ s)) (dot_parts (d ∷ t)) h)
]

-- One step of the comparison by numbers.
number_step-flip :
    (m n : ℕ) (x y : Sign)
    → y ≡ flip x
    → (if not (n == m) then number_sign n m else y)
      ≡ flip (if not (m == n) then number_sign m n else x)
unfolding flip
number_step-flip m n x y h = elim (Bool-cases (m == n)) [
  | inl e ↦ rw (e, sym (eq_sym m n) ∙ e) h
  | inr e ↦ rw (e, sym (eq_sym m n) ∙ e) (number_sign-flip m n e)
]

compare_tags-flip :
    (a b : Tag)
    → AllClear (dot_parts a.pre) (dot_parts b.pre)
    → compare_tags b a ≡ flip (compare_tags a b)
unfolding compare_tags
compare_tags-flip a b h = number_step-flip a.major b.major _ _ (
    number_step-flip a.minor b.minor _ _
      (number_step-flip a.patch b.patch _ _ (compare_pre-flip a.pre b.pre h)))

-- Where two numbers in the prereleases that `Number` reads as the same double are the same text, comparing
-- two release tags in the opposite order gives the opposite answer; also where one is no release tag.
pub compare_release_tags-flip :
    (left right : Text)
    → ((a b : Tag)
        → release_tag_parts left ≡ some a
        → release_tag_parts right ≡ some b
        → AllClear (dot_parts a.pre) (dot_parts b.pre))
    → compare_release_tags right left ≡ flip (compare_release_tags left right)
unfolding compare_release_tags flip
compare_release_tags-flip left right h = elim (Option-cases (release_tag_parts left)) [
  | inl e ↦ elim (Option-cases (release_tag_parts right)) [
    | inl f ↦ rw (e, f, compare_release_tags) refl
    | inr (b, f) ↦ rw (e, f, compare_release_tags) refl
  ]
  | inr (a, e) ↦ elim (Option-cases (release_tag_parts right)) [
    | inl f ↦ rw (e, f, compare_release_tags) refl
    | inr (b, f) ↦ rw (e, f, compare_release_tags) (compare_tags-flip a b (h a b e f))
  ]
]
