-- ===== src/Dashboard/Version.antt =====
-- The version that the dashboard shows: `freeneticBuildRevision` and `formatFreeneticVersion` of
-- freenetic-dashboard-data.js.
use freenetic.Base.{
  Bool, true, false, ◌&&◌, ◌||◌, List, [], ◌∷◌, map, Option, none, some, or_else, ◌==◌, leb, Text,
  codes, text_eq, lower, is_hex, is_decimal, every, length, take, keep, if◌then◌else◌,
}
use freenetic.Release.Tags.{release_tag}
use freenetic.Release.Plan.{Package}

-- `(?:-r\d+)?$`
unfoldable pub is_release_end : Text → Bool
unfolding is_decimal lower
is_release_end [] = true
is_release_end (c ∷ []) = false
is_release_end (c ∷ d ∷ s) = c == b'-' && ((d == b'r' || d == b'R') && is_decimal s)

-- The hexadecimal digits at the start, and what follows.
unfoldable pub span_hex : Text → Text × Text
unfolding lower
span_hex [] = ([], [])
span_hex (c ∷ s) =
    let (ds, rest) = span_hex s in
    if every is_hex (lower (c ∷ [])) then (c ∷ ds, rest) else ([], c ∷ s)

-- `([0-9a-f]{7,})(?:-r\d+)?$` at the start, with the flag i.
unfoldable pub revision_here : Text → Option Text
unfolding span_hex is_release_end
revision_here s = by_parts (span_hex s)
  where
    by_parts : Text × Text → Option Text
    by_parts (ds, rest) =
        if leb 7 (length ds) && is_release_end rest then some (take 7 ds) else none

-- The first `.` or `~` behind which that stands.
unfoldable pub find_revision : Text → Option Text
unfolding revision_here
find_revision [] = none
find_revision (c ∷ s) =
    let rest = find_revision s in
    if c == b'.' || c == b'~' then or_else (revision_here s) rest else rest

unfoldable pub build_revision : Text → Text
unfolding find_revision
build_revision version = elim (find_revision version) [ none ↦ [] | some r ↦ r ]

abbrev pub display_version : Text
display_version = codes "v0.2.x-dev"

-- What is shown; the words are translated by the caller.
pub data Shown : Type 0 where
  release : Text → Shown
  development_build : Shown
  version_only : Shown
  one_revision : Text → Shown
  revisions : List (Bool × Text) → Shown

unfoldable pub has_version : Package → Bool
has_version p = elim (p.version) [ [] ↦ false | c ∷ s ↦ true ]

-- Whether it is the theme, and `revision || version`.
unfoldable pub part_of : Package → Bool × Text
unfolding text_eq build_revision
part_of p = (
  text_eq p.name (codes "luci-theme-freenetic"),
  elim (build_revision p.version) [ [] ↦ p.version | c ∷ s ↦ c ∷ s ],
)

unfoldable pub same_versions : List Package → Shown
unfolding every text_eq part_of
same_versions [] = development_build
same_versions (p ∷ ps) =
    if every (λ (q : Package). text_eq q.version p.version) (p ∷ ps)
    then version_only
    else revisions (map part_of (p ∷ ps))

unfoldable pub by_revision : List Package → Shown
unfolding build_revision every text_eq same_versions
by_revision [] = development_build
by_revision (p ∷ ps) = one (build_revision p.version)
  where
    one : Text → Shown
    one [] = same_versions (p ∷ ps)
    one (c ∷ r) =
        if every (λ (q : Package). text_eq (build_revision q.version) (c ∷ r)) (p ∷ ps)
        then one_revision (c ∷ r)
        else same_versions (p ∷ ps)

unfoldable pub format_freenetic_version : List Package → Text → Shown
unfolding release_tag keep has_version by_revision
format_freenetic_version packages installed_release = elim (release_tag installed_release) [
  | [] ↦ by_revision (keep has_version packages)
  | c ∷ s ↦ release (c ∷ s)
]
