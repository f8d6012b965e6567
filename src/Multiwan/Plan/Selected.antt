-- ===== src/Multiwan/Plan/Selected.antt =====
-- Which uplinks a policy is made for.
use mathlib.Core.List.{Memᴰ}
use freenetic.Base.{
  ◌⊎◌, inl, inr, sym, Bool, true, false, keep, Bool-cases, ◌≡◌, ◌≢◌, refl, ap, ◌∙◌, List, [], ◌∷◌,
}
use freenetic.Multiwan.Values.{Family, ipv4, ipv6}
use freenetic.Multiwan.Plan.{Uplink, is_family, group_of}

-- Those of the uplinks, in order, that are enabled and of the family.
pub Selected : Family → List Uplink → List Uplink → Type 0
Selected family [] picked = picked ≡ []
Selected family (u ∷ us) picked =
    ((u.enabled ≡ true)
      × (u.family ≡ family)
      × ((rest : List Uplink) × (picked ≡ u ∷ rest) × Selected family us rest))
    ⊎ (((u.enabled ≡ false) ⊎ (u.family ≢ family)) × Selected family us picked)

pub ipv4_ne_ipv6 : ipv4 ≢ ipv6
ipv4_ne_ipv6 e = cc

pub is_family-cases :
    (family own : Family) (u : Uplink)
    → u.family ≡ own
    → ((u.family ≡ family) × (is_family family u ≡ true))
      ⊎ ((u.family ≢ family) × (is_family family u ≡ false))
unfolding is_family
is_family-cases ipv4 ipv4 u e = inl (e, rw (e) refl)
is_family-cases ipv4 ipv6 u e = inr ((λ f. ipv4_ne_ipv6 (sym f ∙ e)), rw (e) refl)
is_family-cases ipv6 ipv4 u e = inr ((λ f. ipv4_ne_ipv6 (sym e ∙ f)), rw (e) refl)
is_family-cases ipv6 ipv6 u e = inl (e, rw (e) refl)

pub keep-true :
    (p : Uplink → Bool) (u : Uplink) (us : List Uplink)
    → p u ≡ true
    → keep p (u ∷ us) ≡ u ∷ keep p us
unfolding keep
keep-true p u us e = rw (e) refl

pub keep-false :
    (p : Uplink → Bool) (u : Uplink) (us : List Uplink) → p u ≡ false → keep p (u ∷ us) ≡ keep p us
unfolding keep
keep-false p u us e = rw (e) refl

-- The first uplink is in the group, or it is not enabled or of another family.
pub group_of-cases :
    (family : Family) (u : Uplink) (us : List Uplink)
    → ((u.enabled ≡ true)
        × (u.family ≡ family)
        × (group_of family (u ∷ us) ≡ u ∷ group_of family us))
      ⊎ (((u.enabled ≡ false) ⊎ (u.family ≢ family))
          × (group_of family (u ∷ us) ≡ group_of family us))
unfolding group_of
group_of-cases family u us = elim (Bool-cases u.enabled) [
  | inr e ↦ inr (inl e, ap (keep (is_family family)) (keep-false (λ v. v.enabled) u us e))
  | inl e ↦
      let kept = ap (keep (is_family family)) (keep-true (λ v. v.enabled) u us e) in
      let others = keep (λ v. v.enabled) us in
      elim (is_family-cases family u.family u refl) [
        | inl (f, g) ↦ inl (e, f, kept ∙ keep-true (is_family family) u others g)
        | inr (f, g) ↦ inr (inr f, kept ∙ keep-false (is_family family) u others g)
      ]
]

pub group_of-Selected :
    (family : Family) (uplinks : List Uplink) → Selected family uplinks (group_of family uplinks)
unfolding Selected
group_of-Selected family [] = unfold group_of keep in refl
group_of-Selected family (u ∷ us) = elim (group_of-cases family u us) [
  | inl (e, f, g) ↦ inl (e, f, (group_of family us, g, group_of-Selected family us))
  | inr (e, g) ↦ inr (e, rw (g) (group_of-Selected family us))
]

pub cons_ne_nil : {A : Type 0} (x : A) (xs : List A) → x ∷ xs ≢ []
cons_ne_nil x xs e = cc

pub excluded : (u : Uplink) → u.enabled ≡ true → ((u.enabled ≡ false) ⊎ (u.family ≢ u.family)) → ⊥
excluded u e (inl f) = cc
excluded u e (inr f) = f refl

pub group_of-ne_nil :
    (u : Uplink) (us : List Uplink) → Memᴰ u us → u.enabled ≡ true → group_of u.family us ≢ []
group_of-ne_nil u [] l e = elim l [ ]
group_of-ne_nil u (v ∷ vs) (Memᴰ.head same) e = rw (← same) (elim (group_of-cases u.family u vs) [
  | inl (f, g, h) ↦ rw (h) (cons_ne_nil u (group_of u.family vs))
  | inr (f, h) ↦ absurd (excluded u e f)
])
group_of-ne_nil u (v ∷ vs) (Memᴰ.tail l) e = elim (group_of-cases u.family v vs) [
  | inl (f, g, h) ↦ rw (h) (cons_ne_nil v (group_of u.family vs))
  | inr (f, h) ↦ rw (h) (group_of-ne_nil u vs l e)
]
