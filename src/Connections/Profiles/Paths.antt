-- ===== src/Connections/Profiles/Paths.antt =====
-- The path of a profile, and the name that it holds.
use freenetic.Base.{
  ℕ, true, false, not, ◌&&◌, [], ◌∷◌, ◌++◌, ◌≡◌, ◌≢◌, refl, sym, ap, ap₂, ◌∙◌, some, ◌==◌, ==_iff,
  arith, Bool-cases, inl, inr, Text, codes, text_eq, every, if◌then◌else◌, starts_with, drop,
  every-append, is_some,
}
use freenetic.Network.Address.Split.{free}
use freenetic.Connections.Lines.{cut_at-append}
use freenetic.Connections.Endpoints.Bare.{split_last-append}
use freenetic.Connections.Profiles.{
  is_name, underscored, openvpn_profile_name, openvpn_profile_path, profile_dir, profile_stem,
  stem_of_parts, stem_or_empty, is_profile_file, managed_openvpn_profile,
  openvpn_profile_name_from_path,
}

underscored-is_name : (s : Text) → every is_name (underscored s) ≡ true
unfolding underscored every
underscored-is_name [] = refl
underscored-is_name (c ∷ s) = elim (Bool-cases (is_name c)) [
  | inl e ↦ rw (e, underscored-is_name s) (rw e refl)
  | inr e ↦ rw (e, underscored-is_name s) refl
]

-- A name of a profile: at least one character, and no other than letters, digits, dashes and lines.
abbrev IsName : Text → Type 0
IsName s = s ≢ [] × every is_name s ≡ true

openvpn_profile_name-IsName : (section : Text) → IsName (openvpn_profile_name section)
unfolding openvpn_profile_name every
openvpn_profile_name-IsName section = named (underscored section) (underscored-is_name section)
  where
    named :
        (s : Text)
        → every is_name s ≡ true
        → IsName (elim s [ [] ↦ codes "connection" | c ∷ t ↦ c ∷ t ])
    named [] h = ((λ e. cc), refl)
    named (c ∷ t) h = ((λ e. cc), h)

name-free : (d : ℕ) (s : Text) → is_name d ≡ false → every is_name s ≡ true → free d s ≡ true
unfolding free every
name-free d [] e h = refl
name-free d (c ∷ s) e h =
    let named : is_name c ≡ true = ground arith in
    let rest : every is_name s ≡ true = ground arith in rw (ne_of named, name-free d s e rest) refl
  where
    true_ne_false : true ≡ false → ⊥
    true_ne_false e = cc

    ne_of : is_name c ≡ true → (c == d) ≡ false
    ne_of named = elim (Bool-cases (c == d)) [
      | inr other ↦ other
      | inl same ↦ absurd (true_ne_false (sym named ∙ ap is_name ((==_iff c d).0 same) ∙ e))
    ]

profile_stem-name : (name : Text) → IsName name → profile_stem (name ++ codes ".ovpn") ≡ some name
unfolding profile_stem stem_of_parts text_eq
profile_stem-name [] (ne, h) = absurd (ne refl)
profile_stem-name (c ∷ name) (ne, h) =
    ap stem_of_parts
      (cut_at-append b'.' (c ∷ name) (codes "ovpn") (name-free b'.' (c ∷ name) refl h))
    ∙ rw h refl

in_directory : (file : Text) → starts_with (profile_dir ++ file) profile_dir ≡ true
unfolding starts_with
in_directory file = refl

behind_directory : (file : Text) → drop 23 (profile_dir ++ file) ≡ file
behind_directory file = refl

file-free : (name : Text) → IsName name → free b'/' (name ++ codes ".ovpn") ≡ true
unfolding free every
file-free name (ne, h) =
    every-append (λ d. not (d == b'/')) name (codes ".ovpn") ∙ rw (name-free b'/' name refl h) refl

-- The path that Freenetic gives to a profile is one that it manages, and holds the profile's name.
pub openvpn_profile_path-IsManaged :
    (section : Text)
    → managed_openvpn_profile (openvpn_profile_path section) ≡ true
      × openvpn_profile_name_from_path (openvpn_profile_path section) ≡ openvpn_profile_name section
unfolding managed_openvpn_profile openvpn_profile_path openvpn_profile_name_from_path
    is_profile_file stem_or_empty
openvpn_profile_path-IsManaged section =
    let name = openvpn_profile_name section in
    let file = name ++ codes ".ovpn" in
    let named = openvpn_profile_name-IsName section in
    let stem : profile_stem file ≡ some name = profile_stem-name name named in
    (
      ap₂ (λ a b. a && is_profile_file b) (in_directory file)
            (split_last-append b'/' (codes "/etc/openvpn/freenetic") file (file-free name named))
          ∙ ap is_some stem,
      ap₂ (λ b f. if b then stem_or_empty (profile_stem f) else []) (in_directory file)
            (behind_directory file)
          ∙ ap stem_or_empty stem,
    )
