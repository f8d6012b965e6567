-- ===== src/Release/Plan/Complete.antt =====
-- What a compatible plan says of the release.
use mathlib.Core.List.{Memᴰ}
use freenetic.Base.{
  is_some, Bool, true, false, not, ◌&&◌, ◌≡◌, inl, inr, refl, sym, List, [], ◌∷◌, Option, none,
  some, Text, text_eq, text_eq_iff, some_of, every, if◌then◌else◌, Bool-cases, Option-cases, All,
  arith,
}
use freenetic.Release.Tags.{Sign, tag_groups}
use freenetic.Release.Tags.Form.{IsTag, tag_groups-IsTag}
use freenetic.Release.Plan.{
  Release, Updater, Package, Reason, bad_tag, no_updater, bad_target, bad_assets, Plan,
  incompatible, incomplete, compatible, one_of, is_target, package_suffix, app_prefix, middle,
  is_version, required_assets, comparison, plan_version, app_asset, release_plan,
}
use freenetic.Release.Plan.Assets.{
  IsFor, IsBuilt, IsVersion, is_version-IsVersion, is_target-parts, required_assets-IsFor,
}

-- The release can be installed by the updater: its tag is one of Freenetic's, the updater works and is
-- for a known target, and the assets for it, all of one version, are among those of the release.
pub record IsComplete (release : Release) (u : Updater) (tag version : Text) (required : List Text)
    : Type 0 where
  pub tagged : tag ≡ release.tag_name
  pub parsed : IsTag release.tag_name
  pub ready : u.can_update ≡ true
  pub target : IsBuilt u.asset_suffix
  pub versioned : IsVersion version
  pub asked : IsFor u.package_manager u.asset_suffix version required
  pub listed : All (λ name. Memᴰ name release.assets) required

passed :
    (b : Bool) (r : Reason) (p : Plan) (tag version : Text) (sign : Option Sign)
    (required : List Text)
    → (if b then incompatible r else p) ≡ compatible tag version sign required
    → (b ≡ false) × (p ≡ compatible tag version sign required)
passed true r p tag version sign required e = absurd (apart e)
  where
    apart : incompatible r ≡ compatible tag version sign required → ⊥
    apart e = cc
passed false r p tag version sign required e = (refl, e)

not-false : (b : Bool) → not b ≡ false → b ≡ true
not-false b e = ground arith

one_of-Memᴰ : (s : Text) (ts : List Text) → one_of s ts ≡ true → Memᴰ s ts
unfolding some_of
one_of-Memᴰ s [] h = cc
one_of-Memᴰ s (t ∷ ts) h = elim (Bool-cases (text_eq s t)) [
  | inl e ↦ Memᴰ.head ((text_eq_iff s t).0 e)
  | inr e ↦ Memᴰ.tail (one_of-Memᴰ s ts (rw e at h))
]

every-listed :
    (names assets : List Text)
    → every (λ name. one_of name assets) names ≡ true
    → All (λ name. Memᴰ name assets) names
unfolding every
every-listed [] assets h = tt
every-listed (name ∷ names) assets h =
    let (p, q) = both (one_of name assets) (every (λ n. one_of n assets) names) h in
    (one_of-Memᴰ name assets p, every-listed names assets q)
  where
    both : (a b : Bool) → (a && b) ≡ true → (a ≡ true) × (b ≡ true)
    both a b e = ground arith

plan_version-compatible :
    (release : Release) (u : Updater) (installed : List Package) (v tag version : Text)
    (sign : Option Sign) (required : List Text)
    → plan_version release u installed v ≡ compatible tag version sign required
    → (tag ≡ release.tag_name)
      × (is_version version ≡ true)
      × (required ≡ required_assets u version)
      × All (λ name. Memᴰ name release.assets) required
unfolding plan_version
plan_version-compatible release u installed v tag version sign required e =
    let (ok, e1) = passed (not (is_version v)) bad_assets _ tag version sign required e in
    elim (Bool-cases (every (λ name. one_of name release.assets) (required_assets u v))) [
      | inl all ↦
          let e2 : compatible release.tag_name v (comparison release u installed v)
                (required_assets u v)
              ≡ compatible tag version sign required =
            rw all at e1 in
          let t : release.tag_name ≡ tag = cc in
          let same : v ≡ version = cc in
          let names : required_assets u v ≡ required = cc in
          (
            sym t,
            rw (← same) (not-false _ ok),
            rw (← same) (sym names),
            rw (← names) (every-listed (required_assets u v) release.assets all),
          )
      | inr some_missing ↦ absurd (apart (rw some_missing at e1))
    ]
  where
    apart : incomplete v (required_assets u v) ≡ compatible tag version sign required → ⊥
    apart e = cc

-- A plan is compatible only for a release that is complete for this router: its tag has the form of
-- Freenetic's tags, the updater works and is for apk or opkg and a known target, and the four packages
-- and the fnc binary for these, all of the plan's version and written out by their names, are the plan's
-- assets and are among the release's.
pub release_plan-IsComplete :
    (release : Release) (updater : Option Updater) (installed : List Package) (tag version : Text)
    (sign : Option Sign) (required : List Text)
    → release_plan release updater installed ≡ compatible tag version sign required
    → (u : Updater) × (updater ≡ some u) × IsComplete release u tag version required
unfolding release_plan
release_plan-IsComplete release none installed tag version sign required e =
    let (_, e1) =
      passed (not (is_some (tag_groups release.tag_name))) bad_tag (incompatible no_updater) tag
        version sign required e in
    absurd (apart e1)
  where
    apart : incompatible no_updater ≡ compatible tag version sign required → ⊥
    apart e = cc
release_plan-IsComplete release (some u) installed tag version sign required e =
    let (t, e1) =
      passed (not (is_some (tag_groups release.tag_name))) bad_tag _ tag version sign required e in
    let (ready, e2) = passed (not u.can_update) no_updater _ tag version sign required e1 in
    let (target, e3) = passed (not (is_target u)) bad_target _ tag version sign required e2 in
    elim (Option-cases (app_asset release u)) [
      | inl f ↦ absurd (apart (rw f at e3))
      | inr (name, f) ↦
          let (same, ok, asked, listed) =
            plan_version-compatible release u installed (middle app_prefix (package_suffix u) name)
              tag version sign required (rw f at e3) in
          (
            u,
            refl,
            record {
              tagged = same;
              parsed = tag_groups-IsTag release.tag_name (not-false _ t);
              ready = not-false _ ready;
              target = (is_target-parts u (not-false _ target)).1;
              versioned = is_version-IsVersion version ok;
              asked = rw (asked) (required_assets-IsFor u version (not-false _ target));
              listed = listed;
            },
          )
    ]
  where
    apart : incompatible bad_assets ≡ compatible tag version sign required → ⊥
    apart e = cc
