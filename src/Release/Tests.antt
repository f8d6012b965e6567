-- ===== src/Release/Tests.antt =====
-- Release tags compared, and the plan of an update.
use freenetic.Release.Numbers.{read_number}
use freenetic.Base.{
  ◌≢◌, ◌++◌, All, line_feeds, Text, false, ◌≡◌, refl, sym, ◌∙◌, true, [], ◌∷◌, none, some, codes,
  text_eq, every, find, some_of, starts_with, is_decimal, trim_start, trim_end, is_space,
}
use freenetic.Release.Tags.{
  Sign, same, before, after, Tag, digits_of_start, number_then, is_pre, patch_and_pre, dot_parts,
  tag_groups, release_tag, release_tag_parts, number_sign, text_greater, part_sign, compare_parts,
  compare_pre, compare_tags, compare_release_tags,
}
use freenetic.Release.Tags.Order.{flip, AllClear, AllClear-stable, compare_release_tags-flip}
use freenetic.Release.Plan.{
  Release, Updater, compatible, is_target, app_asset, ends_with, package_suffix, middle,
  plan_version, is_version, required_assets, comparison, dotted, build_version, installed_builds,
  compare_installed, release_plan,
}
use freenetic.Release.Candidates.{
  Listed, is_compatible, selected_line, release_candidates, release_notes, without_last_word,
  before_last_space, release_codename, line_of_tag, line_prefix, codename_of,
}
use freenetic.Release.Candidates.Sorted.{IsOrdered}
use freenetic.Release.Candidates.Eligible.{IsEligible}
use freenetic.Release.Candidates.Complete.{IsOffered, candidate_of, release_candidates-IsOffered}
use mathlib.Core.List.{Memᴰ}
use freenetic.Release.Plan.Complete.{IsComplete, release_plan-IsComplete}

tag_run :
    (compare_release_tags (codes "v0.3.10") (codes "v0.3.9") ≡ after)
    × (compare_release_tags (codes "v1.0.0-beta.2") (codes "v1.0.0") ≡ before)
    × (compare_release_tags (codes "v1.0.0-beta.10") (codes "v1.0.0-beta.9") ≡ after)
unfolding compare_release_tags release_tag_parts release_tag tag_groups number_then digits_of_start
    patch_and_pre is_pre dot_parts trim_start trim_end is_space compare_tags compare_pre
    compare_parts part_sign number_sign text_greater text_eq is_decimal every read_number
tag_run = (refl, refl, refl)

-- Numbers with extra zeros in front: each of the two tags is said to come before the other.
zeros_run :
    (compare_release_tags (codes "v1.0.0-01") (codes "v1.0.0-1") ≡ before)
    × (compare_release_tags (codes "v1.0.0-1") (codes "v1.0.0-01") ≡ before)
unfolding compare_release_tags release_tag_parts release_tag tag_groups number_then digits_of_start
    patch_and_pre is_pre dot_parts trim_start trim_end is_space compare_tags compare_pre
    compare_parts part_sign number_sign text_greater text_eq is_decimal every read_number
zeros_run = (refl, refl)

left_groups :
    release_tag_parts (codes "v0.3.10")
    ≡ some (record { major = 0; minor = 3; patch = 10; pre = [] })
unfolding release_tag_parts release_tag tag_groups number_then digits_of_start patch_and_pre
    trim_start trim_end is_space read_number
left_groups = refl

stable_left :
    (a b : Tag)
    → release_tag_parts (codes "v0.3.10") ≡ some a
    → release_tag_parts (codes "v0.3.9") ≡ some b
    → AllClear (dot_parts a.pre) (dot_parts b.pre)
stable_left a b e f =
    let groups : Tag = record { major = 0; minor = 3; patch = 10; pre = [] } in
    let same : some groups ≡ some a = sym left_groups ∙ e in
    let eq : groups ≡ a = cc in rw (← eq) (AllClear-stable (dot_parts b.pre))

compare_release_tags-flip_example :
    compare_release_tags (codes "v0.3.9") (codes "v0.3.10")
    ≡ flip (compare_release_tags (codes "v0.3.10") (codes "v0.3.9"))
compare_release_tags-flip_example =
    compare_release_tags-flip (codes "v0.3.10") (codes "v0.3.9") stable_left

abbrev release : Release
release = record {
  tag_name = codes "v0.3.1";
  assets =
      codes "luci-theme-freenetic-0.3.1-all.ipk"
      ∷ codes "luci-app-freenetic-0.3.1-all.ipk"
      ∷ codes "luci-i18n-theme-freenetic-ru-0.3.1-all.ipk"
      ∷ codes "luci-i18n-freenetic-ru-0.3.1-all.ipk"
      ∷ codes "fnc-0.3.1-x86_64-ipk"
      ∷ [];
}

abbrev updater : Updater
updater = record {
  can_update = true;
  package_manager = codes "opkg";
  asset_suffix = codes "x86_64";
  installed_release = [];
}

plan_run :
    release_plan release (some updater) []
    ≡ compatible (codes "v0.3.1") (codes "0.3.1") none (required_assets updater (codes "0.3.1"))
unfolding release_plan tag_groups number_then digits_of_start patch_and_pre is_pre is_target
    app_asset find starts_with ends_with package_suffix middle plan_version is_version
    required_assets comparison build_version dotted installed_builds compare_installed every some_of
    text_eq read_number
plan_run = refl

release_plan-IsComplete_example :
    (u : Updater) × (some updater ≡ some u)
    × IsComplete release u
        (codes "v0.3.1")
        (codes "0.3.1")
        (required_assets updater (codes "0.3.1"))
release_plan-IsComplete_example =
    release_plan-IsComplete release (some updater) [] (codes "v0.3.1") (codes "0.3.1") none
      (required_assets updater (codes "0.3.1")) plan_run

abbrev listed : Listed
listed = record {
  release = release;
  draft = false;
  prerelease = false;
  published_at = codes "2025-01-01";
  created_at = [];
}

abbrev no_order : Text → Text → Sign
no_order s t = same

no_order_consistent : (s t : Text) → no_order s t ≡ after → no_order t s ≢ after
no_order_consistent s t e = absurd (impossible e)
  where
    impossible : same ≡ after → ⊥
    impossible f = cc

-- `Number` rounds: 2 ^ 53 + 1 is read as 2 ^ 53, and 2 ^ 53 + 3 as 2 ^ 53 + 4.
number_run :
    (read_number (codes "9007199254740993") ≡ 9007199254740992)
    × (read_number (codes "9007199254740995") ≡ 9007199254740996)
unfolding read_number
number_run = (refl, refl)

release_candidates-IsOffered_example :
    All
      (IsOffered (some updater) [] (listed ∷ []) false (selected_line (codes "0.3")))
      (release_candidates no_order (listed ∷ []) (some updater) [] false (codes "0.3"))
    × ((r : Listed)
        → Memᴰ r (listed ∷ [])
        → IsEligible false (selected_line (codes "0.3")) r
        → is_compatible (release_plan r.release (some updater) []) ≡ true
        → Memᴰ
            (candidate_of (some updater) [] r)
            (release_candidates no_order (listed ∷ []) (some updater) [] false (codes "0.3")))
    × IsOrdered no_order
        (release_candidates no_order (listed ∷ []) (some updater) [] false (codes "0.3"))
release_candidates-IsOffered_example =
    release_candidates-IsOffered no_order (listed ∷ []) (some updater) [] false (codes "0.3")
      no_order_consistent

notes_run :
    (release_notes (codes " one two three ") (some 7) ≡ codes "one" ++ (0x2026 ∷ []))
    × (release_notes (codes "one two") none ≡ codes "one two")
    × (release_codename (codes "v0.3.1") ≡ codes "Noxium")
    × (release_codename (codes "v0.3.1-rc.1") ≡ [])
unfolding release_notes line_feeds trim_start trim_end is_space without_last_word before_last_space
    release_codename release_tag tag_groups number_then digits_of_start read_number patch_and_pre
    is_pre every some_of line_of_tag line_prefix codename_of text_eq
notes_run = (refl, refl, refl, refl)
