-- ===== src/Release/Candidates/Eligible.antt =====
-- Which releases of a list `freeneticReleaseCandidates` considers.
use freenetic.Base.{
  ℕ, not, ◌&&◌, text_eq, text_eq_iff, ◌⊎◌, arith, Bool, true, false, ◌≡◌, inl, inr, refl, [], ◌∷◌,
  Text,
}
use freenetic.Release.Candidates.{Listed, is_eligible, release_line}

-- No draft, of the channel, and of the line unless none is selected.
pub IsEligible : Bool → Text → Listed → Type 0
IsEligible beta line r =
    (r.draft ≡ false)
    × (r.prerelease ≡ beta)
    × ((line ≡ []) ⊎ (release_line r.release.tag_name ≡ line))

pub and_parts : (a b : Bool) → (a && b) ≡ true → (a ≡ true) × (b ≡ true)
and_parts a b h = ground arith

pub false_of_not : (a : Bool) → not a ≡ true → a ≡ false
false_of_not a h = ground arith

pub cons_ne_nil : (c : ℕ) (s : Text) → c ∷ s ≡ [] → ⊥
cons_ne_nil c s e = cc

-- `is_eligible` decides it.
pub is_eligible-IsEligible :
    (beta : Bool) (line : Text) (r : Listed)
    → is_eligible beta line r ≡ true
    → IsEligible beta line r
unfolding IsEligible is_eligible
is_eligible-IsEligible true [] r h =
    let (a, b) = and_parts (not r.draft) r.prerelease h in (false_of_not r.draft a, b, inl refl)
is_eligible-IsEligible false [] r h =
    let (a, b) = and_parts (not r.draft) (not r.prerelease) h in
    (false_of_not r.draft a, false_of_not r.prerelease b, inl refl)
is_eligible-IsEligible true (c ∷ line) r h =
    let on = text_eq (release_line r.release.tag_name) (c ∷ line) in
    let (a, k) = and_parts (not r.draft) (r.prerelease && on) h in
    let (b, d) = and_parts r.prerelease on k in
    (
      false_of_not r.draft a,
      b,
      inr ((text_eq_iff (release_line r.release.tag_name) (c ∷ line)).0 d),
    )
is_eligible-IsEligible false (c ∷ line) r h =
    let on = text_eq (release_line r.release.tag_name) (c ∷ line) in
    let (a, k) = and_parts (not r.draft) (not r.prerelease && on) h in
    let (b, d) = and_parts (not r.prerelease) on k in
    (
      false_of_not r.draft a,
      false_of_not r.prerelease b,
      inr ((text_eq_iff (release_line r.release.tag_name) (c ∷ line)).0 d),
    )

pub IsEligible-is_eligible :
    (beta : Bool) (line : Text) (r : Listed)
    → IsEligible beta line r
    → is_eligible beta line r ≡ true
unfolding IsEligible is_eligible
IsEligible-is_eligible true [] r (a, b, l) = rw (a, b) refl
IsEligible-is_eligible false [] r (a, b, l) = rw (a, b) refl
IsEligible-is_eligible beta (c ∷ line) r (a, b, inl e) = absurd (cons_ne_nil c line e)
IsEligible-is_eligible true (c ∷ line) r (a, b, inr e) =
    rw (a, b) ((text_eq_iff (release_line r.release.tag_name) (c ∷ line)).1 e)
IsEligible-is_eligible false (c ∷ line) r (a, b, inr e) =
    rw (a, b) ((text_eq_iff (release_line r.release.tag_name) (c ∷ line)).1 e)
