-- ===== src/Release/Plan/Assets.antt =====
-- The targets, the versions and the assets of a release, written out.
use freenetic.Base.{
  ◌||◌, ℕ, ◌==◌, is_digit, is_alnum, ◌⊎◌, ◌++◌, codes, Bool, true, ◌&&◌, ◌≡◌, inl, inr, refl, List,
  [], ◌∷◌, Text, text_eq, text_eq_iff, some_of, every, Bool-cases, arith,
}
use freenetic.Release.Plan.{Updater, one_of, is_target, package_suffix, is_version, required_assets}

-- The five assets of a version for apk, and for opkg, whose packages serve every target.
pub apk_assets : Text → Text → List Text
apk_assets suffix version =
    (codes "luci-theme-freenetic-" ++ (version ++ (codes "-" ++ (suffix ++ codes ".apk"))))
    ∷ (codes "luci-app-freenetic-" ++ (version ++ (codes "-" ++ (suffix ++ codes ".apk"))))
    ∷ (codes "luci-i18n-theme-freenetic-ru-"
        ++ (version ++ (codes "-" ++ (suffix ++ codes ".apk"))))
    ∷ (codes "luci-i18n-freenetic-ru-" ++ (version ++ (codes "-" ++ (suffix ++ codes ".apk"))))
    ∷ (codes "fnc-" ++ (version ++ (codes "-" ++ (suffix ++ codes "-apk"))))
    ∷ []

pub opkg_assets : Text → Text → List Text
opkg_assets suffix version =
    (codes "luci-theme-freenetic-" ++ (version ++ codes "-all.ipk"))
    ∷ (codes "luci-app-freenetic-" ++ (version ++ codes "-all.ipk"))
    ∷ (codes "luci-i18n-theme-freenetic-ru-" ++ (version ++ codes "-all.ipk"))
    ∷ (codes "luci-i18n-freenetic-ru-" ++ (version ++ codes "-all.ipk"))
    ∷ (codes "fnc-" ++ (version ++ (codes "-" ++ (suffix ++ codes "-ipk"))))
    ∷ []

-- The assets for a package manager: one of the two, with the assets that are its own.
pub IsFor : Text → Text → Text → List Text → Type 0
IsFor manager suffix version assets =
    ((manager ≡ codes "apk") × (assets ≡ apk_assets suffix version))
    ⊎ ((manager ≡ codes "opkg") × (assets ≡ opkg_assets suffix version))

-- A target that releases are built for.
pub IsBuilt : Text → Type 0
IsBuilt suffix =
    (suffix ≡ codes "aarch64_cortex-a53")
    ⊎ ((suffix ≡ codes "mipsel_24kc") ⊎ (suffix ≡ codes "x86_64"))

-- A digit, and then letters, digits, points, low lines and dashes.
pub IsVersion : Text → Type 0
IsVersion version =
    (c : ℕ) × (s : Text) × (version ≡ c ∷ s)
    × (is_digit c ≡ true)
    × (every (λ d. is_alnum d || (d == b'.' || (d == b'_' || d == b'-'))) s ≡ true)

pub one_of-cons :
    (s t : Text) (ts : List Text) → one_of s (t ∷ ts) ≡ true → (s ≡ t) ⊎ (one_of s ts ≡ true)
unfolding some_of
one_of-cons s t ts h = elim (Bool-cases (text_eq s t)) [
  | inl e ↦ inl ((text_eq_iff s t).0 e)
  | inr e ↦ inr (rw (e) at h)
]

pub one_of-nil : (s : Text) → one_of s [] ≡ true → ⊥
unfolding some_of
one_of-nil s h = cc

pub and_parts : (a b : Bool) → (a && b) ≡ true → (a ≡ true) × (b ≡ true)
and_parts a b h = ground arith

pub is_version-IsVersion : (version : Text) → is_version version ≡ true → IsVersion version
unfolding is_version IsVersion
is_version-IsVersion [] h = cc
is_version-IsVersion (c ∷ s) h =
    let (a, b) =
      and_parts (is_digit c) (every (λ d. is_alnum d || (d == b'.' || (d == b'_' || d == b'-'))) s)
        h in
    (c, s, refl, a, b)

pub one_of_two : (s a b : Text) → one_of s (a ∷ b ∷ []) ≡ true → (s ≡ a) ⊎ (s ≡ b)
one_of_two s a b h = elim (one_of-cons s a (b ∷ []) h) [
  | inl e ↦ inl e
  | inr k ↦ elim (one_of-cons s b [] k) [ inl e ↦ inr e | inr l ↦ absurd (one_of-nil s l) ]
]

pub is_target-parts :
    (u : Updater)
    → is_target u ≡ true
    → ((u.package_manager ≡ codes "apk") ⊎ (u.package_manager ≡ codes "opkg"))
      × IsBuilt u.asset_suffix
unfolding is_target IsBuilt
is_target-parts u h =
    let m = u.package_manager in
    let t = u.asset_suffix in
    let others = codes "mipsel_24kc" ∷ codes "x86_64" ∷ [] in
    let (a, b) =
      and_parts (one_of m (codes "apk" ∷ codes "opkg" ∷ []))
        (one_of t (codes "aarch64_cortex-a53" ∷ others)) h in
    (
      one_of_two m (codes "apk") (codes "opkg") a,
      elim (one_of-cons t (codes "aarch64_cortex-a53") others b) [
        | inl e ↦ inl e
        | inr k ↦ inr (one_of_two t (codes "mipsel_24kc") (codes "x86_64") k)
      ],
    )

pub required_assets-IsFor :
    (u : Updater) (version : Text)
    → is_target u ≡ true
    → IsFor u.package_manager u.asset_suffix version (required_assets u version)
unfolding IsFor required_assets package_suffix apk_assets opkg_assets text_eq
required_assets-IsFor u version h = elim ((is_target-parts u h).0) [
  | inl e ↦ inl (e, rw (e) refl)
  | inr e ↦ inr (e, rw (e) refl)
]
