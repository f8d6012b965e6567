-- ===== src/Release/Plan.antt =====
-- `freeneticBuildVersion`, `compareFreeneticBuilds` and `freeneticReleasePlan` of
-- freenetic-dashboard-data.js.
pub mod Assets
pub mod Complete
use freenetic.Release.Numbers.{read_number}
use freenetic.Base.{
  is_some, ℕ, zero, suc, ◌+◌, ◌-◌, Bool, true, false, not, ◌&&◌, ◌||◌, List, [], ◌∷◌, ◌++◌, map,
  Option, none, some, ◌==◌, ltb, Text, codes, text_eq, is_digit, is_alnum, every, some_of, find,
  keep, length, take, drop, starts_with, if◌then◌else◌,
}
use freenetic.Release.Tags.{
  Sign, before, same, after, Tag, digits_of_start, number_then, tag_groups, release_tag_parts,
  compare_release_tags,
}

-- A release as GitHub describes it: `assets` are the names, those that are empty left out.
pub record Release : Type 0 where
  pub tag_name : Text
  pub assets : List Text

pub record Updater : Type 0 where
  pub can_update : Bool
  pub package_manager : Text
  pub asset_suffix : Text
  pub installed_release : Text

pub record Package : Type 0 where
  pub name : Text
  pub version : Text

pub data Reason : Type 0 where
  bad_tag no_updater bad_target bad_assets : Reason

pub data Plan : Type 0 where
  incompatible : Reason → Plan
  incomplete : Text → List Text → Plan
  compatible : Text → Text → Option Sign → List Text → Plan

abbrev pub Build : Type 0
Build = ℕ × ℕ × ℕ

-- `.replace(/~/g, '.')`
unfoldable pub dotted : Text → Text
dotted s = map (λ c. if c == b'~' then b'.' else c) s

-- `.match(/^(\d+)\.(\d+)\.(\d+)/)`
unfoldable pub build_version : Text → Option Build
unfolding dotted number_then digits_of_start read_number
build_version value = elim (number_then b'.' (dotted value)) [
  | none ↦ none
  | some (major, s1) ↦ elim (number_then b'.' s1) [
    | none ↦ none
    | some (minor, s2) ↦ last major minor (digits_of_start s2)
  ]
]
  where
    last : ℕ → ℕ → Text × Text → Option Build
    last major minor ([], rest) = none
    last major minor (d ∷ ds, rest) = some (major, minor, read_number (d ∷ ds))

unfoldable pub compare_builds : Build → Build → Sign
compare_builds (a, b, c) (x, y, z) =
    if not (a == x)
    then sign a x
    else if not (b == y)
    then sign b y
    else if not (c == z)
    then sign c z
    else same
  where
    sign : ℕ → ℕ → Sign
    sign m n = if ltb n m then after else before

abbrev pub one_of : Text → List Text → Bool
one_of s ts = some_of (text_eq s) ts

unfoldable pub is_target : Updater → Bool
unfolding some_of text_eq
is_target u =
    one_of u.package_manager (codes "apk" ∷ codes "opkg" ∷ [])
    && one_of u.asset_suffix
        (codes "aarch64_cortex-a53" ∷ codes "mipsel_24kc" ∷ codes "x86_64" ∷ [])

unfoldable pub package_suffix : Updater → Text
unfolding text_eq
package_suffix u =
    if text_eq u.package_manager (codes "apk")
    then codes "-" ++ (u.asset_suffix ++ codes ".apk")
    else codes "-all.ipk"

unfoldable pub ends_with : Text → Text → Bool
unfolding text_eq
ends_with s suffix =
    if ltb (length s) (length suffix)
    then false
    else text_eq (drop (length s - length suffix) s) suffix

abbrev pub app_prefix : Text
app_prefix = codes "luci-app-freenetic-"

-- `name.slice(prefix.length, -suffix.length)`
unfoldable pub middle : Text → Text → Text → Text
middle prefix suffix name = drop (length prefix) (take (length name - length suffix) name)

-- `/^[0-9][0-9A-Za-z._-]*$/`
unfoldable pub is_version : Text → Bool
unfolding every
is_version [] = false
is_version (c ∷ s) =
    is_digit c && every (λ d. is_alnum d || (d == b'.' || (d == b'_' || d == b'-'))) s

abbrev pub release_packages : List Text
release_packages =
    codes "luci-theme-freenetic"
    ∷ codes "luci-app-freenetic"
    ∷ codes "luci-i18n-theme-freenetic-ru"
    ∷ codes "luci-i18n-freenetic-ru"
    ∷ []

unfoldable pub required_assets : Updater → Text → List Text
unfolding package_suffix text_eq
required_assets u version =
    map (λ name. name ++ (codes "-" ++ (version ++ package_suffix u))) release_packages
    ++ (codes "fnc-"
        ++ (version
            ++ (codes "-"
                ++ (u.asset_suffix
                    ++ (codes "-"
                        ++ (if text_eq u.package_manager (codes "apk")
                            then codes "apk"
                            else codes "ipk"))))))
      ∷ []

unfoldable pub installed_builds : List Package → List Build
unfolding some_of text_eq build_version
installed_builds [] = []
installed_builds (p ∷ ps) =
    let rest = installed_builds ps in
    if one_of p.name (codes "luci-theme-freenetic" ∷ codes "luci-app-freenetic" ∷ [])
    then elim (build_version p.version) [ none ↦ rest | some build ↦ build ∷ rest ]
    else rest

abbrev is_sign : Sign → Sign → Bool
is_sign after after = true
is_sign same same = true
is_sign before before = true
is_sign _ _ = false

unfoldable pub compare_installed : Build → List Build → Option Sign
unfolding some_of every compare_builds
compare_installed build [] = none
compare_installed build (b ∷ bs) =
    let signs = map (compare_builds build) (b ∷ bs) in
    some (
      if some_of (is_sign after) signs
      then after
      else if every (is_sign same) signs
      then same
      else before)

unfoldable pub comparison : Release → Updater → List Package → Text → Option Sign
unfolding compare_installed build_version installed_builds release_tag_parts compare_release_tags
comparison release u installed version = by_tag (by_build (build_version version))
  where
    by_build : Option Build → Option Sign
    by_build none = none
    by_build (some build) = compare_installed build (installed_builds installed)

    by_tag : Option Sign → Option Sign
    by_tag (some same) = elim (release_tag_parts u.installed_release) [
      | none ↦ some same
      | some _ ↦ some (compare_release_tags release.tag_name u.installed_release)
    ]
    by_tag other = other

-- The plan once the name of the application's package is known.
unfoldable pub plan_version : Release → Updater → List Package → Text → Plan
unfolding is_version required_assets comparison every some_of text_eq
plan_version release u installed version =
    if not (is_version version)
    then incompatible bad_assets
    else if every (λ name. one_of name release.assets) (required_assets u version)
    then compatible release.tag_name version (comparison release u installed version)
        (required_assets u version)
    else incomplete version (required_assets u version)

unfoldable pub app_asset : Release → Updater → Option Text
unfolding find starts_with ends_with package_suffix
app_asset release u =
    find (λ name. starts_with name app_prefix && ends_with name (package_suffix u)) release.assets

unfoldable pub release_plan : Release → Option Updater → List Package → Plan
unfolding tag_groups is_target app_asset middle plan_version
release_plan release updater installed =
    if not (is_some (tag_groups release.tag_name))
    then incompatible bad_tag
    else with_updater updater
  where
    with_updater : Option Updater → Plan
    with_updater none = incompatible no_updater
    with_updater (some u) =
        if not u.can_update
        then incompatible no_updater
        else if not (is_target u)
        then incompatible bad_target
        else elim (app_asset release u) [
          | none ↦ incompatible bad_assets
          | some name ↦ plan_version release u installed (middle app_prefix (package_suffix u) name)
        ]
