-- ===== src/Release/Candidates.antt =====
-- `freeneticReleaseLine`, `freeneticReleaseCandidates`, `freeneticReleaseNotes`, `freeneticBuildRevision`,
-- `freeneticReleaseCodename` and `formatFreeneticVersion` of freenetic-dashboard-data.js.
-- `localeCompare` is an argument; `sort` keeps equal elements in their order.
pub mod Sorted
pub mod Eligible
pub mod Complete
use freenetic.Base.{
  ℕ, zero, suc, ◌+◌, ◌-◌, Bool, true, false, not, ◌&&◌, ◌||◌, List, [], ◌∷◌, ◌++◌, map, Option,
  none, some, ◌==◌, leb, ltb, Text, codes, text_eq, is_digit, is_alnum, is_space, trim_start,
  trim_end, line_feeds, every, some_of, keep, length, take, drop, if◌then◌else◌,
}
use freenetic.Release.Tags.{
  Sign, before, same, after, digits_of_start, release_tag, compare_release_tags,
}
use freenetic.Release.Plan.{
  Release, Updater, Package, Plan, incompatible, incomplete, compatible, release_plan, dotted,
}

-- A release as GitHub lists it.
pub record Listed : Type 0 where
  pub release : Release
  pub draft : Bool
  pub prerelease : Bool
  pub published_at : Text
  pub created_at : Text

-- `^(\d+\.\d+)` and what follows.
unfoldable pub line_prefix : Text → Option (Text × Text)
unfolding digits_of_start
line_prefix s = major (digits_of_start s)
  where
    minor : Text → Text × Text → Option (Text × Text)
    minor ds ([], rest) = none
    minor ds (e ∷ es, rest) = some (ds ++ (b'.' ∷ e ∷ es), rest)

    major : Text × Text → Option (Text × Text)
    major ([], rest) = none
    major (d ∷ ds, []) = none
    major (d ∷ ds, c ∷ rest) =
        let found = minor (d ∷ ds) (digits_of_start rest) in if c == b'.' then found else none

-- `tag.match(/^v(\d+\.\d+)\./)`
unfoldable pub line_of_tag : Text → Text
unfolding line_prefix
line_of_tag [] = []
line_of_tag (v ∷ s) = if v == b'v' then before_dot (line_prefix s) else []
  where
    before_dot : Option (Text × Text) → Text
    before_dot none = []
    before_dot (some (line, [])) = []
    before_dot (some (line, c ∷ rest)) = if c == b'.' then line else []

unfoldable pub release_line : Text → Text
unfolding release_tag line_of_tag
release_line value = line_of_tag (release_tag value)

-- `/^\d+\.\d+$/.test(line) ? line : ''`
unfoldable pub selected_line : Text → Text
unfolding line_prefix
selected_line line = elim (line_prefix line) [ some (l, []) ↦ line | _ ↦ [] ]

unfoldable pub is_eligible : Bool → Text → Listed → Bool
unfolding release_line text_eq
is_eligible beta [] r = not r.draft && same_flag beta r.prerelease
  where
    same_flag : Bool → Bool → Bool
    same_flag true b = b
    same_flag false b = not b
is_eligible beta (c ∷ line) r =
    not r.draft
    && (same_flag beta r.prerelease && text_eq (release_line r.release.tag_name) (c ∷ line))
  where
    same_flag : Bool → Bool → Bool
    same_flag true b = b
    same_flag false b = not b

pub record Candidate : Type 0 where
  pub listed : Listed
  pub plan : Plan

abbrev pub is_compatible : Plan → Bool
is_compatible (compatible tag version sign assets) = true
is_compatible (incomplete version assets) = false
is_compatible (incompatible reason) = false

unfoldable pub with_plans : Option Updater → List Package → List Listed → List Candidate
unfolding release_plan
with_plans updater installed [] = []
with_plans updater installed (r ∷ rs) =
    let plan = release_plan r.release updater installed in
    let rest = with_plans updater installed rs in
    if is_compatible plan then record { listed = r; plan = plan } ∷ rest else rest

-- `published_at || created_at || ''`
abbrev pub date_of : Listed → Text
date_of r = elim (r.published_at) [ [] ↦ r.created_at | c ∷ s ↦ c ∷ s ]

-- The comparison of the sort: a later tag, then a later date, comes first.
unfoldable pub compare_candidates : (Text → Text → Sign) → Candidate → Candidate → Sign
unfolding compare_release_tags
compare_candidates locale_compare a b =
    by_tag (compare_release_tags b.listed.release.tag_name a.listed.release.tag_name)
  where
    by_tag : Sign → Sign
    by_tag same = locale_compare (date_of b.listed) (date_of a.listed)
    by_tag sign = sign

-- A candidate in front of the others, or behind the first of them.
unfoldable pub place :
    Sign → Candidate → Candidate → List Candidate → List Candidate → List Candidate
place after c d ds behind = d ∷ behind
place same c d ds behind = c ∷ d ∷ ds
place before c d ds behind = c ∷ d ∷ ds

unfoldable pub insert_candidate :
    (Candidate → Candidate → Sign) → Candidate → List Candidate → List Candidate
unfolding place
insert_candidate compare c [] = c ∷ []
insert_candidate compare c (d ∷ ds) = place (compare c d) c d ds (insert_candidate compare c ds)

unfoldable pub sort_candidates : (Candidate → Candidate → Sign) → List Candidate → List Candidate
unfolding insert_candidate
sort_candidates compare [] = []
sort_candidates compare (c ∷ cs) = insert_candidate compare c (sort_candidates compare cs)

unfoldable pub release_candidates :
    (Text → Text → Sign)
    → List Listed
    → Option Updater
    → List Package
    → Bool
    → Text
    → List Candidate
unfolding keep is_eligible selected_line with_plans compare_candidates sort_candidates
release_candidates locale_compare releases updater installed beta line =
    sort_candidates (compare_candidates locale_compare)
      (with_plans updater installed (keep (is_eligible beta (selected_line line)) releases))

-- What stands before the last white space.
unfoldable pub before_last_space : Text → Option Text
unfolding is_space
before_last_space [] = none
before_last_space (c ∷ s) = elim (before_last_space s) [
  | some front ↦ some (c ∷ front)
  | none ↦ (if is_space c then some [] else none)
]

-- `.replace(/\s+\S*$/, '').trimEnd()`
unfoldable pub without_last_word : Text → Text
unfolding before_last_space trim_end
without_last_word s = elim (before_last_space s) [ none ↦ trim_end s | some t ↦ trim_end t ]

unfoldable pub release_notes : Text → Option ℕ → Text
unfolding line_feeds trim_start trim_end without_last_word
release_notes value limit = shown (trim_end (trim_start (line_feeds false value))) (most limit)
  where
    most : Option ℕ → ℕ
    most none = 720
    most (some n) = n

    shown : Text → ℕ → Text
    shown [] max = []
    shown (c ∷ notes) max =
        if leb (length (c ∷ notes)) max
        then c ∷ notes
        else without_last_word (take (max - 1) (c ∷ notes)) ++ (0x2026 ∷ [])

-- `FREENETIC_RELEASE_CODENAMES[line] || ''`
unfoldable pub codename_of : Text → Text
unfolding text_eq
codename_of line =
    if text_eq line (codes "0.2")
    then codes "Onyx"
    else if text_eq line (codes "0.3")
    then codes "Noxium"
    else if text_eq line (codes "0.4")
    then codes "Oxidice"
    else []

unfoldable pub release_codename : Text → Text
unfolding release_tag some_of line_of_tag codename_of
release_codename value =
    let tag = release_tag value in
    if some_of (λ c. c == b'-') tag then [] else codename_of (line_of_tag tag)
