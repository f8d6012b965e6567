-- ===== src/Release/Tags.antt =====
-- `freeneticReleaseTag`, `releaseTagParts`, `freeneticReleaseLine` and `compareFreeneticReleaseTags` of
-- freenetic-dashboard-data.js.
pub mod Order
pub mod Opposed
pub mod Form
use freenetic.Release.Numbers.{read_number}
use freenetic.Base.{
  trim_start, trim_end, ℕ, zero, suc, Bool, true, false, not, ◌&&◌, ◌||◌, List, [], ◌∷◌, ◌++◌,
  Option, none, some, ◌==◌, ltb, Text, text_eq, is_digit, is_alnum, is_decimal, every, length,
  if◌then◌else◌,
}

-- The comparison's -1, 0 and 1.
pub data Sign : Type 0 where
  before same after : Sign

pub record Tag : Type 0 where
  pub major : ℕ
  pub minor : ℕ
  pub patch : ℕ
  pub pre : Text

-- The longest run of digits at the start, and what follows.
unfoldable pub digits_of_start : Text → Text × Text
digits_of_start [] = ([], [])
digits_of_start (c ∷ s) =
    let (ds, rest) = digits_of_start s in if is_digit c then (c ∷ ds, rest) else ([], c ∷ s)

-- `\d+` and then the character `c`.
unfoldable pub number_then : ℕ → Text → Option (ℕ × Text)
unfolding digits_of_start read_number
number_then c s = go (digits_of_start s)
  where
    go : Text × Text → Option (ℕ × Text)
    go ([], rest) = none
    go (d ∷ ds, []) = none
    go (d ∷ ds, e ∷ rest) = if e == c then some (read_number (d ∷ ds), rest) else none

-- The class `[0-9A-Za-z.-]`.
unfoldable pub is_pre : ℕ → Bool
is_pre c = is_alnum c || (c == b'.' || c == b'-')

-- `(\d+)(?:-([A-Za-z0-9][A-Za-z0-9.-]*))?$`
unfoldable pub patch_and_pre : Text → Option (ℕ × Text)
unfolding digits_of_start read_number every is_pre
patch_and_pre s = go (digits_of_start s)
  where
    go : Text × Text → Option (ℕ × Text)
    go ([], rest) = none
    go (d ∷ ds, []) = some (read_number (d ∷ ds), [])
    go (d ∷ ds, c ∷ []) = none
    go (d ∷ ds, c ∷ p ∷ pre) =
        if c == b'-' && (is_alnum p && every is_pre pre)
        then some (read_number (d ∷ ds), p ∷ pre)
        else none

-- `.split('.')`
unfoldable pub dot_parts : Text → List Text
dot_parts [] = [] ∷ []
dot_parts (c ∷ s) = if c == b'.' then [] ∷ dot_parts s else push c (dot_parts s)
  where
    push : ℕ → List Text → List Text
    push c [] = (c ∷ []) ∷ []
    push c (p ∷ ps) = (c ∷ p) ∷ ps

-- The groups of `/^v(\d+)\.(\d+)\.(\d+)(?:-([A-Za-z0-9][A-Za-z0-9.-]*))?$/`: the test of
-- `freeneticReleaseTag`, and the match of `releaseTagParts` on what passes it.
unfoldable pub tag_groups : Text → Option Tag
unfolding number_then patch_and_pre
tag_groups [] = none
tag_groups (c ∷ s) = elim (number_then b'.' s) [
  | none ↦ none
  | some (major, s1) ↦ elim (number_then b'.' s1) [
    | none ↦ none
    | some (minor, s2) ↦ elim (patch_and_pre s2) [
      | none ↦ none
      | some (patch, pre) ↦
          if c == b'v'
          then some (record { major = major; minor = minor; patch = patch; pre = pre })
          else none
    ]
  ]
]

unfoldable pub release_tag : Text → Text
unfolding trim_start trim_end tag_groups
release_tag value =
    let tag = trim_end (trim_start value) in elim (tag_groups tag) [ none ↦ [] | some _ ↦ tag ]

unfoldable pub release_tag_parts : Text → Option Tag
unfolding release_tag tag_groups
release_tag_parts value = tag_groups (release_tag value)

unfoldable pub number_sign : ℕ → ℕ → Sign
number_sign m n = if ltb n m then after else before

-- `av > bv` on strings: by code units, a prefix before what it begins.
unfoldable pub text_greater : Text → Text → Bool
text_greater [] t = false
text_greater (c ∷ s) [] = true
text_greater (c ∷ s) (d ∷ t) = if c == d then text_greater s t else ltb d c

-- Two parts of a prerelease that differ.
unfoldable pub part_sign : Text → Text → Sign
unfolding is_decimal read_number number_sign text_greater
part_sign av bv =
    if is_decimal av
    then (if is_decimal bv then number_sign (read_number av) (read_number bv) else before)
    else if is_decimal bv
    then after
    else if text_greater av bv
    then after
    else before

unfoldable pub compare_parts : List Text → List Text → Sign
unfolding text_eq part_sign
compare_parts [] [] = same
compare_parts [] (bv ∷ bvs) = before
compare_parts (av ∷ avs) [] = after
compare_parts (av ∷ avs) (bv ∷ bvs) =
    let rest = compare_parts avs bvs in if text_eq av bv then rest else part_sign av bv

unfoldable pub compare_pre : Text → Text → Sign
unfolding text_eq dot_parts compare_parts
compare_pre [] [] = same
compare_pre [] (d ∷ t) = after
compare_pre (c ∷ s) [] = before
compare_pre (c ∷ s) (d ∷ t) =
    if text_eq (c ∷ s) (d ∷ t) then same else compare_parts (dot_parts (c ∷ s)) (dot_parts (d ∷ t))

unfoldable pub compare_tags : Tag → Tag → Sign
unfolding number_sign compare_pre
compare_tags a b =
    if not (a.major == b.major)
    then number_sign a.major b.major
    else if not (a.minor == b.minor)
    then number_sign a.minor b.minor
    else if not (a.patch == b.patch)
    then number_sign a.patch b.patch
    else compare_pre a.pre b.pre

unfoldable pub compare_release_tags : Text → Text → Sign
unfolding compare_tags release_tag_parts
compare_release_tags left right = both (release_tag_parts left) (release_tag_parts right)
  where
    both : Option Tag → Option Tag → Sign
    both (some a) (some b) = compare_tags a b
    both _ _ = same
