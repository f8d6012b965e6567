-- ===== src/Multiwan/Traffic/Current.antt =====
-- Which uplinks `buildTrafficState` shows, and which of them it says carries the traffic.
use mathlib.Core.List.{Perm, Memᴰ}
use mathlib.Core.List.Perm
use freenetic.Base.{
  Bool, true, ◌≡◌, inl, inr, refl, sym, ap, ◌∙◌, List, [], ◌∷◌, ◌++◌, Option, none, some, Text,
  codes, text_eq, lower, find, or_else, Bool-cases, Option-cases,
}
use freenetic.Multiwan.Plan.{Uplink, Policy}
use freenetic.Multiwan.Traffic.{
  Traffic, candidates, policy_interfaces, scoped, take_out, split_primary, named_uplinks,
  policy_uplinks, first, single_list, is_online, traffic_of, build_traffic_state,
}

none_ne_some : {A : Type 0} (x : A) → none ≡ some x → ⊥
none_ne_some x e = cc

take_out-perm :
    (test : Uplink → Bool) (us : List Uplink) (v : Uplink) (vs : List Uplink)
    → take_out test us ≡ some (v, vs)
    → Perm (v ∷ vs) us
unfolding take_out
take_out-perm test [] v vs h = cc
take_out-perm test (u ∷ us) v vs h = elim (Bool-cases (test u)) [
  | inl e ↦
      let h' : some (u, us) ≡ some (v, vs) = rw (e, take_out) at h in
      let a : u ≡ v = cc in let b : us ≡ vs = cc in rw (a, b) (Perm.refl (v ∷ vs))
  | inr e ↦ elim (Option-cases (take_out test us)) [
    | inl f ↦ absurd (none_ne_some (v, vs) (rw (e, take_out, f) at h))
    | inr ((w, ws), f) ↦
        let h' : some (w, u ∷ ws) ≡ some (v, vs) = rw (e, take_out, f) at h in
        let a : w ≡ v = cc in
        let b : u ∷ ws ≡ vs = cc in
        rw (← a, ← b) (Perm.trans (Perm.swap u w ws) (Perm.cons u (take_out-perm test us w ws f)))
  ]
]

find-Memᴰ :
    (p : Uplink → Bool) (us : List Uplink) (u : Uplink)
    → find p us ≡ some u
    → (p u ≡ true) × Memᴰ u us
unfolding find
find-Memᴰ p [] u h = cc
find-Memᴰ p (v ∷ us) u h = elim (Bool-cases (p v)) [
  | inl e ↦
      let h' : some v ≡ some u = rw (e, find) at h in
      let same : v ≡ u = cc in (rw (← same) e, Memᴰ.head (sym same))
  | inr e ↦ let (k, l) = find-Memᴰ p us u (rw (e, find) at h) in (k, Memᴰ.tail l)
]

named_uplinks-Memᴰ :
    (ordered : List Uplink) (names : List Text) (u : Uplink)
    → Memᴰ u (named_uplinks ordered names)
    → Memᴰ u ordered
unfolding named_uplinks
named_uplinks-Memᴰ ordered [] u l = elim l [ ]
named_uplinks-Memᴰ ordered (name ∷ names) u l =
    elim (Option-cases (find (λ (v : Uplink). text_eq v.name name) ordered)) [
      | inl e ↦ named_uplinks-Memᴰ ordered names u (rw (e, named_uplinks) at l)
      | inr (v, e) ↦ either v e (rw (e, named_uplinks) at l) (named_uplinks-Memᴰ ordered names u)
    ]
  where
    either :
        (v : Uplink)
        → find (λ (w : Uplink). text_eq w.name name) ordered ≡ some v
        → Memᴰ u (v ∷ named_uplinks ordered names)
        → (Memᴰ u (named_uplinks ordered names) → Memᴰ u ordered)
        → Memᴰ u ordered
    either v e (Memᴰ.head same) deeper =
        let (_, here) = find-Memᴰ (λ (w : Uplink). text_eq w.name name) ordered v e in rw same here
    either v e (Memᴰ.tail l) deeper = deeper l

policy_uplinks-Memᴰ :
    (names : List Text) (ordered : List Uplink) (u : Uplink)
    → Memᴰ u (policy_uplinks names ordered)
    → Memᴰ u ordered
unfolding policy_uplinks
policy_uplinks-Memᴰ [] ordered u l = l
policy_uplinks-Memᴰ (name ∷ names) ordered u l = named_uplinks-Memᴰ ordered (name ∷ names) u l

-- What the state of the traffic says, where `shown` are the uplinks in scope.
pub record IsSound (mode : Text) (shown : List Uplink) (t : Traffic) : Type 0 where
  pub all_shown : Perm t.uplinks shown
  pub carried : (u : Uplink) → t.current ≡ some u → is_online u ≡ true × Memᴰ u t.uplinks
  pub single :
      (u : Uplink) → text_eq mode (codes "single") ≡ true → t.current ≡ some u → t.selected ≡ some u

first-Memᴰ : (us : List Uplink) (u : Uplink) → first us ≡ some u → Memᴰ u us
first-Memᴰ [] u h = cc
first-Memᴰ (v ∷ us) u h = let same : v ≡ u = cc in Memᴰ.head (sym same)

single_list-Memᴰ : (o : Option Uplink) (u : Uplink) → Memᴰ u (single_list o) → o ≡ some u
single_list-Memᴰ none u l = elim l [ ]
single_list-Memᴰ (some v) u (Memᴰ.head e) = ap some (sym e)
single_list-Memᴰ (some v) u (Memᴰ.tail l) = elim l [ ]

module _ (mode : Text) (names : List Text) (primary : Option Uplink) (backups : List Uplink) where
  abbrev t : Traffic
  t = traffic_of mode names primary backups

  abbrev by_policy : List Uplink
  by_policy = policy_uplinks names (single_list primary ++ backups)

  selected-Memᴰ :
      (u : Uplink)
      → or_else (first by_policy) primary ≡ some u
      → Memᴰ u (single_list primary ++ backups)
  selected-Memᴰ u h = elim (Option-cases (first by_policy)) [
    | inr (v, e) ↦
        let e' : some v ≡ some u = rw (e, or_else) at h in
        let same : v ≡ u = cc in
        rw (← same)
          (policy_uplinks-Memᴰ names (single_list primary ++ backups) v (first-Memᴰ by_policy v e))
    | inl e ↦ let p : primary ≡ some u = rw (e, or_else) at h in rw p (Memᴰ.head refl)
  ]

  single_current :
      (u : Uplink)
      → find is_online (single_list (or_else (first by_policy) primary)) ≡ some u
      → (is_online u ≡ true) × (or_else (first by_policy) primary ≡ some u)
  single_current u h =
      let (k, l) = find-Memᴰ is_online (single_list (or_else (first by_policy) primary)) u h in
      (k, single_list-Memᴰ (or_else (first by_policy) primary) u l)

  traffic_of-carried : (u : Uplink) → t.current ≡ some u → is_online u ≡ true × Memᴰ u t.uplinks
  unfolding traffic_of
  traffic_of-carried u h = elim (Bool-cases (text_eq mode (codes "single"))) [
    | inl e ↦ let (k, sel) = single_current u (rw e at h) in (k, selected-Memᴰ u sel)
    | inr e ↦
        let (k, l) = find-Memᴰ is_online by_policy u (rw e at h) in
        (k, policy_uplinks-Memᴰ names (single_list primary ++ backups) u l)
  ]

  traffic_of-single :
      (u : Uplink) → text_eq mode (codes "single") ≡ true → t.current ≡ some u → t.selected ≡ some u
  unfolding traffic_of
  traffic_of-single u e h = let (_, sel) = single_current u (rw e at h) in rw e sel

  traffic_of-IsSound :
      (shown : List Uplink) → Perm (single_list primary ++ backups) shown → IsSound mode shown t
  unfolding traffic_of
  traffic_of-IsSound shown p = record {
    all_shown = p;
    carried = traffic_of-carried;
    single = traffic_of-single;
  }

take_out-none : (us : List Uplink) → take_out (λ _. true) us ≡ none → us ≡ []
unfolding take_out
take_out-none [] h = refl
take_out-none (u ∷ us) h = absurd (none_ne_some (u, us) (sym h))

split_primary-none : (us : List Uplink) → split_primary us ≡ none → us ≡ []
unfolding split_primary
split_primary-none us h =
    elim (Option-cases (take_out (λ u. text_eq (lower u.name) (codes "wan")) us)) [
      | inl e ↦ take_out-none us (rw (e, or_else) at h)
      | inr (v, e) ↦ absurd (none_ne_some v (sym (rw (e, or_else) at h)))
    ]

split_primary-perm :
    (us : List Uplink) (v : Uplink) (vs : List Uplink)
    → split_primary us ≡ some (v, vs)
    → Perm (v ∷ vs) us
unfolding split_primary
split_primary-perm us v vs h =
    elim (Option-cases (take_out (λ u. text_eq (lower u.name) (codes "wan")) us)) [
      | inl e ↦ take_out-perm (λ _. true) us v vs (rw (e, or_else) at h)
      | inr (w, e) ↦
          take_out-perm (λ u. text_eq (lower u.name) (codes "wan")) us v vs
            (e ∙ (rw (e, or_else) at h))
    ]

-- The uplinks of the traffic state are those in scope, each once; the current one is online and one of
-- them; and in single mode only the selected uplink is ever the current one.
pub build_traffic_state-IsSound :
    (uplinks : List Uplink) (mode : Text) (policies : List Policy) (policy_name : Text)
    → IsSound mode
        (scoped (policy_interfaces policies policy_name) (candidates uplinks))
        (build_traffic_state uplinks mode policies policy_name)
unfolding build_traffic_state
build_traffic_state-IsSound uplinks mode policies policy_name =
    let names = policy_interfaces policies policy_name in
    let us = scoped names (candidates uplinks) in
    elim (Option-cases (split_primary us)) [
      | inl e ↦
          rw (e, build_traffic_state)
            (traffic_of-IsSound mode names none [] us (rw (split_primary-none us e) (Perm.refl [])))
      | inr ((v, vs), e) ↦
          rw (e, build_traffic_state)
            (traffic_of-IsSound mode names (some v) vs us (split_primary-perm us v vs e))
    ]
