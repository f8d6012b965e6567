-- ===== src/Release/Tags/Opposed.antt =====
-- The comparison of release tags never says of both that they come after the other, and says that they
-- are the same in both orders or in neither.
use freenetic.Release.Numbers.{read_number}
use freenetic.Base.{
  ℕ, Bool, true, false, not, ◌≡◌, inl, inr, refl, sym, ◌∙◌, List, [], ◌∷◌, ◌==◌, Text, text_eq,
  is_decimal, if◌then◌else◌, Bool-cases, Option-cases, arith,
}
use freenetic.Release.Tags.{
  Sign, before, same, after, Tag, dot_parts, release_tag_parts, number_sign, text_greater,
  part_sign, compare_parts, compare_pre, compare_tags, compare_release_tags,
}
use freenetic.Release.Tags.Order.{text_eq_sym, text_greater-flip, eq_sym}

-- The two answers of a comparison in the two orders.
unfoldable pub opposed : Sign → Sign → Bool
opposed after before = true
opposed before after = true
opposed before before = true
opposed same same = true
opposed _ _ = false

number_sign-opposed : (m n : ℕ) → opposed (number_sign m n) (number_sign n m) ≡ true
unfolding number_sign opposed
number_sign-opposed m n = ground arith

part_sign-opposed :
    (p q : Text) → text_eq p q ≡ false → opposed (part_sign p q) (part_sign q p) ≡ true
unfolding part_sign opposed
part_sign-opposed p q h = elim (Bool-cases (is_decimal p)) [
  | inl dp ↦ elim (Bool-cases (is_decimal q)) [
    | inl dq ↦ rw (dp, dq) (number_sign-opposed (read_number p) (read_number q))
    | inr dq ↦ rw (dp, dq) refl
  ]
  | inr dp ↦ elim (Bool-cases (is_decimal q)) [
    | inl dq ↦ rw (dp, dq) refl
    | inr dq ↦ rw (dp, dq, text_greater-flip p q h) (sides (text_greater p q))
  ]
]
  where
    sides :
        (b : Bool) → opposed (if b then after else before) (if not b then after else before) ≡ true
    sides true = refl
    sides false = refl

compare_parts-opposed :
    (ps qs : List Text) → opposed (compare_parts ps qs) (compare_parts qs ps) ≡ true
unfolding compare_parts opposed
compare_parts-opposed [] [] = refl
compare_parts-opposed [] (q ∷ qs) = refl
compare_parts-opposed (p ∷ ps) [] = refl
compare_parts-opposed (p ∷ ps) (q ∷ qs) = elim (Bool-cases (text_eq p q)) [
  | inl e ↦ rw (e, sym (text_eq_sym p q) ∙ e) (compare_parts-opposed ps qs)
  | inr e ↦ rw (e, sym (text_eq_sym p q) ∙ e) (part_sign-opposed p q e)
]

compare_pre-opposed : (s t : Text) → opposed (compare_pre s t) (compare_pre t s) ≡ true
unfolding compare_pre opposed
compare_pre-opposed [] [] = refl
compare_pre-opposed [] (d ∷ t) = refl
compare_pre-opposed (c ∷ s) [] = refl
compare_pre-opposed (c ∷ s) (d ∷ t) = elim (Bool-cases (text_eq (c ∷ s) (d ∷ t))) [
  | inl e ↦ rw (e, sym (text_eq_sym (c ∷ s) (d ∷ t)) ∙ e) refl
  | inr e ↦
      rw (e, sym (text_eq_sym (c ∷ s) (d ∷ t)) ∙ e)
        (compare_parts-opposed (dot_parts (c ∷ s)) (dot_parts (d ∷ t)))
]

number_step-opposed :
    (m n : ℕ) (x y : Sign)
    → opposed x y ≡ true
    → opposed
        (if not (m == n) then number_sign m n else x)
        (if not (n == m) then number_sign n m else y)
      ≡ true
number_step-opposed m n x y h = elim (Bool-cases (m == n)) [
  | inl e ↦ rw (e, sym (eq_sym m n) ∙ e) h
  | inr e ↦ rw (e, sym (eq_sym m n) ∙ e) (number_sign-opposed m n)
]

compare_tags-opposed : (a b : Tag) → opposed (compare_tags a b) (compare_tags b a) ≡ true
unfolding compare_tags
compare_tags-opposed a b = number_step-opposed a.major b.major _ _ (
    number_step-opposed a.minor b.minor _ _
      (number_step-opposed a.patch b.patch _ _ (compare_pre-opposed a.pre b.pre)))

pub compare_release_tags-opposed :
    (left right : Text)
    → opposed (compare_release_tags left right) (compare_release_tags right left) ≡ true
unfolding compare_release_tags opposed
compare_release_tags-opposed left right = elim (Option-cases (release_tag_parts left)) [
  | inl e ↦ elim (Option-cases (release_tag_parts right)) [
    | inl f ↦ rw (e, f, compare_release_tags) refl
    | inr (b, f) ↦ rw (e, f, compare_release_tags) refl
  ]
  | inr (a, e) ↦ elim (Option-cases (release_tag_parts right)) [
    | inl f ↦ rw (e, f, compare_release_tags) refl
    | inr (b, f) ↦ rw (e, f, compare_release_tags) (compare_tags-opposed a b)
  ]
]
