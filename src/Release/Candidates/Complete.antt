-- ===== src/Release/Candidates/Complete.antt =====
-- Which releases the view may offer.
use mathlib.Core.List.{Memᴰ}
use freenetic.Base.{
  ◌≢◌, Bool, true, false, ◌≡◌, inl, inr, refl, sym, ◌∙◌, List, [], ◌∷◌, Option, Text, if-intro,
  Bool-cases, All, keep,
}
use mathlib.Core.Path.{subst}
use freenetic.Release.Tags.{Sign, before, same, after}
use freenetic.Release.Plan.{Updater, Package, release_plan}
use freenetic.Release.Candidates.Sorted.{IsOrdered, sort_candidates-IsOrdered}
use freenetic.Release.Candidates.{
  Listed, Candidate, is_eligible, is_compatible, with_plans, place, insert_candidate,
  sort_candidates, compare_candidates, selected_line, release_candidates,
}
use freenetic.Release.Candidates.Eligible.{
  IsEligible, is_eligible-IsEligible, IsEligible-is_eligible,
}

module _ (updater : Option Updater) (installed : List Package) where
  abbrev pub candidate_of : Listed → Candidate
  candidate_of r = record { listed = r; plan = release_plan r.release updater installed }

  -- A release of the list that is no draft, of the channel and of the line where there is one, with its
  -- plan, which is compatible.
  unfoldable pub IsOffered : List Listed → Bool → Text → Candidate → Type 0
  IsOffered releases beta line c =
      Memᴰ c.listed releases
      × IsEligible beta line c.listed
      × (c.plan ≡ release_plan c.listed.release updater installed)
      × (is_compatible c.plan ≡ true)

module _ (P : Candidate → Type 0) (compare : Candidate → Candidate → Sign) where
  All-place :
      (s : Sign) (c d : Candidate) (ds behind : List Candidate)
      → P c
      → P d
      → All P ds
      → All P behind
      → All P (place s c d ds behind)
  unfolding place
  All-place after c d ds behind pc pd pds pb = (pd, pb)
  All-place same c d ds behind pc pd pds pb = (pc, (pd, pds))
  All-place before c d ds behind pc pd pds pb = (pc, (pd, pds))

  All-insert_candidate :
      (c : Candidate) (ds : List Candidate) → P c → All P ds → All P (insert_candidate compare c ds)
  unfolding insert_candidate
  All-insert_candidate c [] pc h = (pc, tt)
  All-insert_candidate c (d ∷ ds) pc (pd, pds) =
      All-place (compare c d) c d ds (insert_candidate compare c ds) pc pd pds
        (All-insert_candidate c ds pc pds)

  All-sort_candidates : (cs : List Candidate) → All P cs → All P (sort_candidates compare cs)
  unfolding sort_candidates
  All-sort_candidates [] h = tt
  All-sort_candidates (c ∷ cs) (pc, h) =
      All-insert_candidate c (sort_candidates compare cs) pc (All-sort_candidates cs h)

module _ (compare : Candidate → Candidate → Sign) where
  place-first :
      (s : Sign) (c d : Candidate) (ds behind : List Candidate)
      → Memᴰ c behind
      → Memᴰ c (place s c d ds behind)
  unfolding place
  place-first after c d ds behind m = Memᴰ.tail m
  place-first same c d ds behind m = Memᴰ.head refl
  place-first before c d ds behind m = Memᴰ.head refl

  place-other :
      (x : Candidate) (s : Sign) (c d : Candidate) (ds behind : List Candidate)
      → Memᴰ x (d ∷ ds)
      → (Memᴰ x ds → Memᴰ x behind)
      → Memᴰ x (place s c d ds behind)
  unfolding place
  place-other x after c d ds behind (Memᴰ.head e) f = Memᴰ.head e
  place-other x after c d ds behind (Memᴰ.tail m) f = Memᴰ.tail (f m)
  place-other x same c d ds behind m f = Memᴰ.tail m
  place-other x before c d ds behind m f = Memᴰ.tail m

  insert_candidate-first :
      (c : Candidate) (ds : List Candidate) → Memᴰ c (insert_candidate compare c ds)
  unfolding insert_candidate
  insert_candidate-first c [] = Memᴰ.head refl
  insert_candidate-first c (d ∷ ds) =
      place-first (compare c d) c d ds (insert_candidate compare c ds) (insert_candidate-first c ds)

  insert_candidate-other :
      (x c : Candidate) (ds : List Candidate) → Memᴰ x ds → Memᴰ x (insert_candidate compare c ds)
  unfolding insert_candidate
  insert_candidate-other x c [] m = Memᴰ.tail m
  insert_candidate-other x c (d ∷ ds) m =
      place-other x (compare c d) c d ds (insert_candidate compare c ds) m
        (insert_candidate-other x c ds)

  sort_candidates-all :
      (x : Candidate) (cs : List Candidate) → Memᴰ x cs → Memᴰ x (sort_candidates compare cs)
  unfolding sort_candidates
  sort_candidates-all x [] m = m
  sort_candidates-all x (c ∷ cs) (Memᴰ.head e) =
      subst (λ y. Memᴰ y (insert_candidate compare c (sort_candidates compare cs))) (sym e)
        (insert_candidate-first c (sort_candidates compare cs))
  sort_candidates-all x (c ∷ cs) (Memᴰ.tail m) =
      insert_candidate-other x c (sort_candidates compare cs) (sort_candidates-all x cs m)

module _ (updater : Option Updater) (installed : List Package) (beta : Bool) (line : Text) where
  with_plans-IsOffered :
      (releases rs : List Listed)
      → ((r : Listed) → Memᴰ r rs → Memᴰ r releases)
      → All
          (IsOffered updater installed releases beta line)
          (with_plans updater installed (keep (is_eligible beta line) rs))
  unfolding with_plans keep IsOffered
  with_plans-IsOffered releases [] within = tt
  with_plans-IsOffered releases (r ∷ rs) within =
      let ih = with_plans-IsOffered releases rs (λ q m. within q (Memᴰ.tail m)) in
      elim (Bool-cases (is_eligible beta line r)) [
        | inl e ↦ rw e (
            if-intro (All (IsOffered updater installed releases beta line))
              (is_compatible (release_plan r.release updater installed))
              (λ c.
                ((within r (Memᴰ.head refl), is_eligible-IsEligible beta line r e, refl, c), ih))
              (λ c. ih))
        | inr e ↦ rw e ih
      ]

  nowhere : {r : Listed} → Memᴰ r [] → ⊥
  nowhere m = elim m [ ]

  abbrev offered : List Listed → List Candidate
  offered rs = with_plans updater installed (keep (is_eligible beta line) rs)

  head_kept :
      (r : Listed) (rs : List Listed)
      → is_eligible beta line r ≡ true
      → is_compatible (release_plan r.release updater installed) ≡ true
      → Memᴰ (candidate_of updater installed r) (offered (r ∷ rs))
  unfolding with_plans keep
  head_kept r rs e c = rw e (
      if-intro (Memᴰ (candidate_of updater installed r))
        (is_compatible (release_plan r.release updater installed)) (λ _. Memᴰ.head refl)
        (λ bad. absurd (true_ne_false (sym c ∙ bad))))
    where
      true_ne_false : true ≡ false → ⊥
      true_ne_false e = cc

  behind_head :
      (x : Candidate) (r : Listed) (rs : List Listed)
      → Memᴰ x (offered rs)
      → Memᴰ x (offered (r ∷ rs))
  unfolding with_plans keep
  behind_head x r rs m = elim (Bool-cases (is_eligible beta line r)) [
    | inl e ↦ rw e (
        if-intro (Memᴰ x) (is_compatible (release_plan r.release updater installed))
          (λ _. Memᴰ.tail m) (λ _. m))
    | inr e ↦ rw e m
  ]

  with_plans-all :
      (r : Listed) (rs : List Listed)
      → Memᴰ r rs
      → is_eligible beta line r ≡ true
      → is_compatible (release_plan r.release updater installed) ≡ true
      → Memᴰ
          (candidate_of updater installed r)
          (with_plans updater installed (keep (is_eligible beta line) rs))
  unfolding with_plans keep
  with_plans-all r [] m e c = absurd (nowhere m)
  with_plans-all r (q ∷ rs) (Memᴰ.head eq) e c =
      subst (λ x. Memᴰ (candidate_of updater installed x) (offered (q ∷ rs))) (sym eq)
        (head_kept q rs (subst (λ x. is_eligible beta line x ≡ true) eq e)
          (subst (λ x. is_compatible (release_plan x.release updater installed) ≡ true) eq c))
  with_plans-all r (q ∷ rs) (Memᴰ.tail m) e c =
      behind_head (candidate_of updater installed r) q rs (with_plans-all r rs m e c)

-- The candidates are releases of the list that are no drafts, are of the channel (prereleases exactly in
-- the beta channel) and, where a line is selected, of that line, with the plan of each, which is
-- compatible; every such release of the list is among them; and each stands before the next by a later
-- tag, or by the same and no earlier date, where localeCompare never says of both that they come after.
pub release_candidates-IsOffered :
    (locale_compare : Text → Text → Sign) (rs : List Listed) (updater : Option Updater)
    (installed : List Package) (beta : Bool) (line : Text)
    → ((s t : Text) → locale_compare s t ≡ after → locale_compare t s ≢ after)
    → All
        (IsOffered updater installed rs beta (selected_line line))
        (release_candidates locale_compare rs updater installed beta line)
      × ((r : Listed)
          → Memᴰ r rs
          → IsEligible beta (selected_line line) r
          → is_compatible (release_plan r.release updater installed) ≡ true
          → Memᴰ
              (candidate_of updater installed r)
              (release_candidates locale_compare rs updater installed beta line))
      × IsOrdered locale_compare (release_candidates locale_compare rs updater installed beta line)
unfolding release_candidates
release_candidates-IsOffered locale_compare rs updater installed beta line consistent =
    let shown = selected_line line in
    let compare = compare_candidates locale_compare in
    (
      All-sort_candidates (IsOffered updater installed rs beta shown) compare _
          (with_plans-IsOffered updater installed beta shown rs rs (λ r m. m)),
      (λ r m e c. sort_candidates-all compare (candidate_of updater installed r) _ (
          with_plans-all updater installed beta shown r rs m (IsEligible-is_eligible beta shown r e)
            c)),
      sort_candidates-IsOrdered locale_compare consistent
          (with_plans updater installed (keep (is_eligible beta shown) rs)),
    )
