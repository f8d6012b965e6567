-- ===== src/Release/Tags/Form.antt =====
-- The form of a release tag.
use freenetic.Release.Numbers.{read_number}
use freenetic.Base.{
  ℕ, Bool, true, false, ◌&&◌, ◌||◌, ◌≡◌, ◌≢◌, ◌⊎◌, inl, inr, refl, ap, ◌∙◌, [], ◌∷◌, ◌++◌, none,
  some, is_some, ◌==◌, ==_iff, Text, is_digit, is_alnum, every, Bool-cases, Option-cases, arith,
}
use freenetic.Release.Tags.{digits_of_start, number_then, is_pre, patch_and_pre, tag_groups}

-- Digits, at least one.
pub IsNumber : Text → Type 0
IsNumber ds = (ds ≢ []) × (every is_digit ds ≡ true)

-- What stands behind the third number: nothing, or a dash and a prerelease.
pub IsPre : Text → Type 0
IsPre s =
    (s ≡ [])
    ⊎ ((p : ℕ) × (pre : Text) × (s ≡ b'-' ∷ p ∷ pre)
        × (is_alnum p ≡ true)
        × (every (λ c. is_alnum c || (c == b'.' || c == b'-')) pre ≡ true))

-- `v`, three numbers with points between them, and perhaps a prerelease.
pub IsTag : Text → Type 0
IsTag s =
    (major : Text) × (minor : Text) × (patch : Text) × (pre : Text) × (s
      ≡ b'v' ∷ (major ++ (b'.' ∷ (minor ++ (b'.' ∷ (patch ++ pre))))))
    × IsNumber major
    × IsNumber minor
    × IsNumber patch
    × IsPre pre

and_true : (a b : Bool) → a ≡ true → b ≡ true → (a && b) ≡ true
and_true a b h k = rw (h, k) refl

digits_of_start-parts :
    (s : Text)
    → (s ≡ (digits_of_start s).0 ++ (digits_of_start s).1)
      × (every is_digit ((digits_of_start s).0) ≡ true)
unfolding digits_of_start every
digits_of_start-parts [] = (refl, refl)
digits_of_start-parts (c ∷ s) = elim (Bool-cases (is_digit c)) [
  | inl e ↦
      let (a, b) = digits_of_start-parts s in
      rw (e) (ap (λ t. c ∷ t) a, and_true (is_digit c) _ e b)
  | inr e ↦ rw (e) (refl, refl)
]

cons_ne_nil : (c : ℕ) (s : Text) → c ∷ s ≢ []
cons_ne_nil c s e = cc

number_then-parts :
    (c : ℕ) (s rest : Text) (n : ℕ)
    → number_then c s ≡ some (n, rest)
    → (ds : Text) × (s ≡ ds ++ c ∷ rest) × IsNumber ds
unfolding number_then IsNumber
number_then-parts c s rest n h =
    let (a, b) = digits_of_start-parts s in
    by_digits ((digits_of_start s).0) ((digits_of_start s).1) refl a b
  where
    by_digits :
        (ds tail : Text)
        → digits_of_start s ≡ (ds, tail)
        → s ≡ ds ++ tail
        → every is_digit ds ≡ true
        → (es : Text) × (s ≡ es ++ c ∷ rest) × ((es ≢ []) × (every is_digit es ≡ true))
    by_digits [] tail e a b = let k : none ≡ some (n, rest) = rw (e) at h in cc
    by_digits (d ∷ ds) [] e a b = let k : none ≡ some (n, rest) = rw (e) at h in cc
    by_digits (d ∷ ds) (x ∷ tail) e a b = elim (Bool-cases (x == c)) [
      | inl f ↦
          let k : some (read_number (d ∷ ds), tail) ≡ some (n, rest) = rw (e, f) at h in
          let same : tail ≡ rest = cc in
          let here : x ≡ c = (==_iff x c).0 f in
          (d ∷ ds, rw (← here, ← same) a, (cons_ne_nil d ds, b))
      | inr f ↦ let k : none ≡ some (n, rest) = rw (e, f) at h in cc
    ]

patch_and_pre-parts :
    (s pre : Text) (n : ℕ)
    → patch_and_pre s ≡ some (n, pre)
    → (ds : Text) × (tail : Text) × (s ≡ ds ++ tail) × IsNumber ds × IsPre tail
unfolding patch_and_pre IsNumber IsPre is_pre
patch_and_pre-parts s pre n h =
    let (a, b) = digits_of_start-parts s in
    by_digits ((digits_of_start s).0) ((digits_of_start s).1) refl a b
  where
    both : (a b c : Bool) → (a && (b && c)) ≡ true → (a ≡ true) × (b ≡ true) × (c ≡ true)
    both a b c e = ground arith

    by_digits :
        (ds tail : Text)
        → digits_of_start s ≡ (ds, tail)
        → s ≡ ds ++ tail
        → every is_digit ds ≡ true
        → (es : Text) × (end : Text) × (s ≡ es ++ end) × IsNumber es × IsPre end
    by_digits [] tail e a b = let k : none ≡ some (n, pre) = rw (e) at h in cc
    by_digits (d ∷ ds) [] e a b = (d ∷ ds, [], a, (cons_ne_nil d ds, b), inl refl)
    by_digits (d ∷ ds) (x ∷ []) e a b = let k : none ≡ some (n, pre) = rw (e) at h in cc
    by_digits (d ∷ ds) (x ∷ p ∷ tail) e a b =
        elim (Bool-cases (x == b'-' && (is_alnum p && every is_pre tail))) [
          | inl f ↦
              let (u, v, w) = both (x == b'-') (is_alnum p) (every is_pre tail) f in
              let here : x ≡ b'-' = (==_iff x b'-').0 u in
              (
                d ∷ ds,
                x ∷ p ∷ tail,
                a,
                (cons_ne_nil d ds, b),
                inr (p, tail, ap (λ y. y ∷ p ∷ tail) here, v, w),
              )
          | inr f ↦ let k : none ≡ some (n, pre) = rw (e, f) at h in cc
        ]

pub tag_groups-IsTag : (s : Text) → is_some (tag_groups s) ≡ true → IsTag s
unfolding tag_groups IsTag
tag_groups-IsTag [] h = let k : false ≡ true = h in cc
tag_groups-IsTag (c ∷ s) h = elim (Option-cases (number_then b'.' s)) [
  | inl e ↦ let k : false ≡ true = rw (e, is_some) at h in cc
  | inr ((major, s1), e) ↦ elim (Option-cases (number_then b'.' s1)) [
    | inl f ↦ let k : false ≡ true = rw (e, f, is_some) at h in cc
    | inr ((minor, s2), f) ↦ elim (Option-cases (patch_and_pre s2)) [
      | inl g ↦ let k : false ≡ true = rw (e, f, g, is_some) at h in cc
      | inr ((patch, pre), g) ↦ elim (Bool-cases (c == b'v')) [
        | inr v ↦ let k : false ≡ true = rw (e, f, g, v, is_some) at h in cc
        | inl v ↦
            let (ds1, a1, n1) = number_then-parts b'.' s s1 major e in
            let (ds2, a2, n2) = number_then-parts b'.' s1 s2 minor f in
            let (ds3, tail, a3, n3, p) = patch_and_pre-parts s2 pre patch g in
            (
              ds1,
              ds2,
              ds3,
              tail,
              ap (λ x. x ∷ s) ((==_iff c b'v').0 v)
                  ∙ ap (λ t. b'v' ∷ t)
                      (a1 ∙ ap (λ t. ds1 ++ b'.' ∷ t) (a2 ∙ ap (λ t. ds2 ++ b'.' ∷ t) a3)),
              n1,
              n2,
              n3,
              p,
            )
      ]
    ]
  ]
]
