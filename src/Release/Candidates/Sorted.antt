-- ===== src/Release/Candidates/Sorted.antt =====
-- The sort of the candidates: a later tag, and of the same tags a later date, never stands behind.
use freenetic.Base.{true, false, ◌≡◌, ◌≢◌, ◌⊎◌, inl, inr, refl, sym, ◌∙◌, List, [], ◌∷◌, Text}
use freenetic.Release.Tags.{Sign, before, same, after, compare_release_tags}
use freenetic.Release.Tags.Opposed.{opposed, compare_release_tags-opposed}
use freenetic.Release.Candidates.{
  Candidate, date_of, place, insert_candidate, sort_candidates, compare_candidates,
}

module _ (compare : Candidate → Candidate → Sign) where
  -- A candidate may stand in front of the others.
  Leads : Candidate → List Candidate → Type 0
  Leads c [] = Unit
  Leads c (d ∷ ds) = compare c d ≢ after

  IsSorted : List Candidate → Type 0
  IsSorted [] = Unit
  IsSorted (c ∷ cs) = Leads c cs × IsSorted cs

  module _ (asym : (c d : Candidate) → compare c d ≡ after → compare d c ≢ after) where
    place-Leads :
        (s : Sign) (x c d : Candidate) (ds behind : List Candidate)
        → Leads x (d ∷ ds)
        → compare x c ≢ after
        → Leads x (place s c d ds behind)
    unfolding place Leads
    place-Leads after x c d ds behind l h = l
    place-Leads same x c d ds behind l h = h
    place-Leads before x c d ds behind l h = h

    insert_candidate-Leads :
        (x c : Candidate) (ds : List Candidate)
        → Leads x ds
        → compare x c ≢ after
        → Leads x (insert_candidate compare c ds)
    unfolding insert_candidate Leads
    insert_candidate-Leads x c [] l h = h
    insert_candidate-Leads x c (d ∷ ds) l h =
        place-Leads (compare c d) x c d ds (insert_candidate compare c ds) l h

    place-IsSorted :
        (s : Sign) (c d : Candidate) (ds : List Candidate)
        → compare c d ≡ s
        → IsSorted (d ∷ ds)
        → IsSorted (insert_candidate compare c ds)
        → IsSorted (place s c d ds (insert_candidate compare c ds))
    unfolding place IsSorted Leads
    place-IsSorted after c d ds e (l, h) k = (insert_candidate-Leads d c ds l (asym c d e), k)
    place-IsSorted same c d ds e h k = ((λ a. other (sym e ∙ a)), h)
      where
        other : same ≡ after → ⊥
        other f = cc
    place-IsSorted before c d ds e h k = ((λ a. other (sym e ∙ a)), h)
      where
        other : before ≡ after → ⊥
        other f = cc

    insert_candidate-IsSorted :
        (c : Candidate) (ds : List Candidate)
        → IsSorted ds
        → IsSorted (insert_candidate compare c ds)
    unfolding insert_candidate IsSorted Leads
    insert_candidate-IsSorted c [] h = (tt, tt)
    insert_candidate-IsSorted c (d ∷ ds) (l, h) =
        place-IsSorted (compare c d) c d ds refl (l, h) (insert_candidate-IsSorted c ds h)

    sort_candidates-IsSorted : (cs : List Candidate) → IsSorted (sort_candidates compare cs)
    unfolding sort_candidates IsSorted
    sort_candidates-IsSorted [] = tt
    sort_candidates-IsSorted (c ∷ cs) =
        insert_candidate-IsSorted c (sort_candidates compare cs) (sort_candidates-IsSorted cs)

abbrev tag_of : Candidate → Text
tag_of c = c.listed.release.tag_name

module _ (locale_compare : Text → Text → Sign) where
  -- The first is not for an earlier tag, nor for the same tag with an earlier date.
  pub Precedes : Candidate → Candidate → Type 0
  Precedes c d =
      (compare_release_tags (tag_of d) (tag_of c) ≡ before)
      ⊎ ((compare_release_tags (tag_of d) (tag_of c) ≡ same)
          × (locale_compare (date_of d.listed) (date_of c.listed) ≢ after))

  -- Each candidate precedes the next.
  pub IsOrdered : List Candidate → Type 0
  IsOrdered [] = Unit
  IsOrdered (c ∷ []) = Unit
  IsOrdered (c ∷ d ∷ cs) = Precedes c d × IsOrdered (d ∷ cs)

  -- The comparison of two tags decides, or that of the dates.
  abbrev Decided : Candidate → Candidate → Type 0
  Decided c d =
      ((compare_release_tags (tag_of d) (tag_of c) ≡ before)
        × (compare_candidates locale_compare c d ≡ before))
      ⊎ (((compare_release_tags (tag_of d) (tag_of c) ≡ after)
            × (compare_candidates locale_compare c d ≡ after))
          ⊎ ((compare_release_tags (tag_of d) (tag_of c) ≡ same)
              × (compare_candidates locale_compare c d
                  ≡ locale_compare (date_of d.listed) (date_of c.listed))))

  compare_candidates-cases : (c d : Candidate) → Decided c d
  unfolding compare_candidates
  compare_candidates-cases c d = by_sign (compare_release_tags (tag_of d) (tag_of c)) refl
    where
      by_sign : (s : Sign) → compare_release_tags (tag_of d) (tag_of c) ≡ s → Decided c d
      by_sign before e = inl (e, rw (e, compare_candidates) refl)
      by_sign after e = inr (inl (e, rw (e, compare_candidates) refl))
      by_sign same e = inr (inr (e, rw (e, compare_candidates) refl))

  module _
      (consistent : (s t : Text) → locale_compare s t ≡ after → locale_compare t s ≢ after) where
    compare_candidates-asym :
        (c d : Candidate)
        → compare_candidates locale_compare c d ≡ after
        → compare_candidates locale_compare d c ≢ after
    unfolding opposed
    compare_candidates-asym c d h k =
        by_cases (compare_release_tags-opposed (tag_of d) (tag_of c)) (compare_candidates-cases c d)
          (compare_candidates-cases d c)
      where
        impossible : before ≡ after → ⊥
        impossible e = cc

        false_ne_true : false ≡ true → ⊥
        false_ne_true e = cc

        by_cases :
            opposed
                (compare_release_tags (tag_of d) (tag_of c))
                (compare_release_tags (tag_of c) (tag_of d))
              ≡ true
            → Decided c d
            → Decided d c
            → ⊥
        by_cases o (inl (e, f)) q = impossible (sym f ∙ h)
        by_cases o p (inl (e, f)) = impossible (sym f ∙ k)
        by_cases o (inr (inl (e, f))) (inr (inl (u, v))) = false_ne_true (rw (e, u) at o)
        by_cases o (inr (inl (e, f))) (inr (inr (u, v))) = false_ne_true (rw (e, u) at o)
        by_cases o (inr (inr (e, f))) (inr (inl (u, v))) = false_ne_true (rw (e, u) at o)
        by_cases o (inr (inr (e, f))) (inr (inr (u, v))) =
            consistent (date_of d.listed) (date_of c.listed) (sym f ∙ h) (sym v ∙ k)

    before-Precedes :
        (c d : Candidate) → compare_candidates locale_compare c d ≢ after → Precedes c d
    unfolding Precedes
    before-Precedes c d h = elim (compare_candidates-cases c d) [
      | inl (e, f) ↦ inl e
      | inr (inl (e, f)) ↦ absurd (h f)
      | inr (inr (e, f)) ↦ inr (e, (λ g. h (f ∙ g)))
    ]

    sorted-IsOrdered :
        (cs : List Candidate) → IsSorted (compare_candidates locale_compare) cs → IsOrdered cs
    unfolding IsOrdered IsSorted Leads
    sorted-IsOrdered [] h = tt
    sorted-IsOrdered (c ∷ []) h = tt
    sorted-IsOrdered (c ∷ d ∷ cs) (l, h) = (before-Precedes c d l, sorted-IsOrdered (d ∷ cs) h)

    pub sort_candidates-IsOrdered :
        (cs : List Candidate) → IsOrdered (sort_candidates (compare_candidates locale_compare) cs)
    sort_candidates-IsOrdered cs =
        sorted-IsOrdered (sort_candidates (compare_candidates locale_compare) cs)
          (sort_candidates-IsSorted (compare_candidates locale_compare) compare_candidates-asym cs)
