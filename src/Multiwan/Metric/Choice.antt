-- ===== src/Multiwan/Metric/Choice.antt =====
-- Which metric `nextRouteMetric` chooses.
use mathlib.Core.List.{Memᴰ}
use freenetic.Base.{
  ℕ, zero, suc, ◌+◌, ◌-◌, ◌*◌, ◌/◌, ◌%◌, ◌≤◌, ◌<◌, ◌≡◌, ◌⊎◌, inl, inr, refl, ap, ◌∙◌, Bool, true,
  false, ◌||◌, List, [], ◌∷◌, Option, none, some, Text, codes, Bool-cases, Option-cases, arith,
}
use freenetic.Multiwan.Values.{Section, ℤ, pos, negsuc}
use freenetic.Multiwan.Metric.{
  Source, normalize_sections, int_eq, is_used, Scan, is_named, metric_of, add_used, scan_section,
  scan_sections, first_free, keeps_current, next_route_metric,
}

-- A section of another name has this metric.
pub record IsTaken (ss : List Section) (name : Text) (m : ℕ) : Type 0 where
  pub by : Section
  pub listed : Memᴰ by ss
  pub other : is_named name by ≡ false
  pub metric : metric_of by ≡ some (pos m)

int_eq_iff : (a b : ℤ) → int_eq a b ≡ true → a ≡ b
unfolding int_eq
int_eq_iff (pos a) (pos b) h = ground arith
int_eq_iff (negsuc a) (negsuc b) h = ground arith
int_eq_iff (pos a) (negsuc b) h = cc
int_eq_iff (negsuc a) (pos b) h = cc

int_eq_refl : (a : ℤ) → int_eq a a ≡ true
unfolding int_eq
int_eq_refl (pos a) = ground arith
int_eq_refl (negsuc a) = ground arith

add_used-cases :
    (o : Option ℤ) (used : List ℤ) (m : ℤ)
    → is_used (add_used o used) m ≡ true
    → (is_used used m ≡ true) ⊎ (o ≡ some m)
unfolding is_used
add_used-cases none used m h = inl h
add_used-cases (some z) used m h = elim (Bool-cases (int_eq z m)) [
  | inl same ↦ inr (ap some (int_eq_iff z m same))
  | inr other ↦ inl (rw other at h)
]

or_true : (b : Bool) → (b || true) ≡ true
or_true true = refl
or_true false = refl

not_both : (b : Bool) → b ≡ true → b ≡ false → ⊥
not_both b h k = cc

is_used-add_used :
    (o : Option ℤ) (used : List ℤ) (m : ℤ)
    → (is_used used m ≡ true) ⊎ (o ≡ some m)
    → is_used (add_used o used) m ≡ true
unfolding is_used
is_used-add_used none used m (inl h) = h
is_used-add_used none used m (inr e) = cc
is_used-add_used (some z) used m (inl h) = rw h (or_true (int_eq z m))
is_used-add_used (some z) used m (inr e) =
    let same : z ≡ m = cc in let test = int_eq_refl m in rw (same, test)

module _ (name : Text) where
  -- Every metric in `used` is one of a scanned section of another name, or was there before.
  used-IsTaken :
      (ss : List Section) (scan : Scan) (m : ℕ)
      → is_used (scan_sections name ss scan).used (pos m) ≡ true
      → (is_used scan.used (pos m) ≡ true) ⊎ IsTaken ss name m
  unfolding scan_sections scan_section
  used-IsTaken [] scan m h = inl h
  used-IsTaken (s ∷ ss) scan m h = elim (used-IsTaken ss (scan_section name s scan) m h) [
    | inr t ↦
        inr (record { by = t.by; listed = Memᴰ.tail t.listed; other = t.other; metric = t.metric })
    | inl u ↦ elim (Bool-cases (is_named name s)) [
      | inl own ↦ inl (rw (own, scan_section) at u)
      | inr other ↦
          elim (add_used-cases (metric_of s) scan.used (pos m) (rw (other, scan_section) at u)) [
            | inl before ↦ inl before
            | inr metric ↦
                inr (record { by = s; listed = Memᴰ.head refl; other = other; metric = metric })
          ]
    ]
  ]

  scan_section-is_used :
      (s : Section) (scan : Scan) (m : ℕ)
      → (is_used scan.used (pos m) ≡ true)
        ⊎ ((is_named name s ≡ false) × (metric_of s ≡ some (pos m)))
      → is_used (scan_section name s scan).used (pos m) ≡ true
  unfolding scan_section
  scan_section-is_used s scan m h = elim (Bool-cases (is_named name s)) [
    | inl own ↦ elim h [ inl u ↦ rw own u | inr t ↦ absurd (not_both (is_named name s) own t.0) ]
    | inr other ↦ elim h [
      | inl u ↦ rw other (is_used-add_used (metric_of s) scan.used (pos m) (inl u))
      | inr t ↦ rw other (is_used-add_used (metric_of s) scan.used (pos m) (inr t.1))
    ]
  ]

  used-keeps :
      (ss : List Section) (scan : Scan) (m : ℕ)
      → is_used scan.used (pos m) ≡ true
      → is_used (scan_sections name ss scan).used (pos m) ≡ true
  unfolding scan_sections
  used-keeps [] scan m h = h
  used-keeps (s ∷ ss) scan m h =
      used-keeps ss (scan_section name s scan) m (scan_section-is_used s scan m (inl h))

  IsTaken-used :
      (ss : List Section) (scan : Scan) (m : ℕ) (by : Section)
      → Memᴰ by ss
      → is_named name by ≡ false
      → metric_of by ≡ some (pos m)
      → is_used (scan_sections name ss scan).used (pos m) ≡ true
  unfolding scan_sections
  IsTaken-used [] scan m by l other metric = elim l [ ]
  IsTaken-used (s ∷ ss) scan m by (Memᴰ.head e) other metric =
      used-keeps ss (scan_section name s scan) m
        (scan_section-is_used s scan m (inr (rw e at other, rw e at metric)))
  IsTaken-used (s ∷ ss) scan m by (Memᴰ.tail l) other metric =
      IsTaken-used ss (scan_section name s scan) m by l other metric

  abbrev scanned : List Section → Scan
  scanned ss = scan_sections name ss (record { current = none; used = [] })

  -- A metric is marked as used exactly when a section of another name has it.
  scanned-IsTaken :
      (ss : List Section) (m : ℕ) → is_used (scanned ss).used (pos m) ≡ true → IsTaken ss name m
  unfolding is_used
  scanned-IsTaken ss m h = elim (used-IsTaken ss (record { current = none; used = [] }) m h) [
    | inl u ↦ absurd (not_both false u refl)
    | inr t ↦ t
  ]

-- One of 20, 30, 40, 50, 60, 70.
abbrev pub IsRouteMetric : ℕ → Type 0
IsRouteMetric m = (k : ℕ) × (2 ≤ k) × (k ≤ 7) × (m ≡ 10 * k)

first_free-some :
    (used : List ℤ) (n from : ℕ) {m : ℕ}
    → first_free used n from ≡ some m
    → (is_used used (pos m) ≡ false) × ((j : ℕ) × (j < n) × (m ≡ from + 10 * j))
unfolding first_free
first_free-some used zero from h = cc
first_free-some used (suc n) from {m} h = elim (Bool-cases (is_used used (pos from))) [
  | inl taken ↦
      let (free, (j, lt, e)) = first_free-some used n (from + 10) (rw (taken, first_free) at h) in
      (free, (suc j, omega arith, omega arith))
  | inr free ↦
      let h' : some from ≡ some m = rw (free, first_free) at h in
      let same : from ≡ m = cc in (rw (← same) free, (0, omega arith, omega arith))
]

some_ne_none : (a : ℕ) → some a ≡ none → ⊥
some_ne_none a e = cc

first_free-none :
    (used : List ℤ) (n from j : ℕ)
    → first_free used n from ≡ none
    → j < n
    → is_used used (pos (from + 10 * j)) ≡ true
unfolding first_free
first_free-none used zero from j h lt = absurd (omega arith)
first_free-none used (suc n) from zero h lt = elim (Bool-cases (is_used used (pos from))) [
  | inr free ↦ absurd (some_ne_none from (rw (free, first_free) at h))
  | inl taken ↦ let e : from + 10 * 0 ≡ from = omega arith in rw e taken
]
first_free-none used (suc n) from (suc j) h lt = elim (Bool-cases (is_used used (pos from))) [
  | inr free ↦ absurd (some_ne_none from (rw (free, first_free) at h))
  | inl taken ↦
      let e : from + 10 * suc j ≡ from + 10 + 10 * j = omega arith in
      rw e (first_free-none used n (from + 10) j (rw (taken, first_free) at h) (omega arith))
]

keeps_current-some :
    (o : Option ℤ) (used : List ℤ) {m : ℕ}
    → keeps_current (record { current = o; used = used }) ≡ some m
    → (20 ≤ m) × (m ≤ 70) × (m % 10 ≡ 0) × (is_used used (pos m) ≡ false)
unfolding keeps_current
keeps_current-some none used h = cc
keeps_current-some (some (negsuc k)) used h = cc
keeps_current-some (some (pos k)) used h = ground arith

module _ (source : Source) (name : Text) where
  abbrev interfaces : List Section
  interfaces = normalize_sections source (codes "interface")

  -- The metric that `nextRouteMetric` returns is one of 20, 30, …, 70, and no interface section of
  -- another name has it.
  pub next_route_metric-some :
      {m : ℕ}
      → next_route_metric source name ≡ some m
      → IsRouteMetric m × ¬ IsTaken interfaces name m
  unfolding next_route_metric
  next_route_metric-some {m} h = elim (Option-cases (keeps_current (scanned name interfaces))) [
    | inr (c, kept) ↦
        let same : c ≡ m = some-injective' (rw (kept, next_route_metric) at h) in
        let (low, high, tens, free) =
          keeps_current-some (scanned name interfaces).current (scanned name interfaces).used
            (kept ∙ ap some same) in
        ((m / 10, omega arith, omega arith, omega arith), not_taken m free)
    | inl none_kept ↦
        let (free, (j, lt, e)) =
          first_free-some (scanned name interfaces).used 6 20
            (rw (none_kept, next_route_metric) at h) in
        ((j + 2, omega arith, omega arith, omega arith), not_taken m free)
  ]
    where
      some-injective' : {a b : ℕ} → some a ≡ some b → a ≡ b
      some-injective' e = cc

      not_taken :
          (k : ℕ)
          → is_used (scanned name interfaces).used (pos k) ≡ false
          → ¬ IsTaken interfaces name k
      not_taken k free t =
          not_both _
            (IsTaken-used name interfaces (record { current = none; used = [] }) k t.by t.listed
              t.other t.metric)
            free

  -- It returns null only where each of 20, 30, …, 70 is the metric of an interface section of another
  -- name.
  pub next_route_metric-none :
      next_route_metric source name ≡ none → (m : ℕ) → IsRouteMetric m → IsTaken interfaces name m
  unfolding next_route_metric
  next_route_metric-none h m (k, low, high, e) =
      elim (Option-cases (keeps_current (scanned name interfaces))) [
        | inr (c, kept) ↦ absurd (some_ne_none c (rw (kept, next_route_metric) at h))
        | inl none_kept ↦
            let used = (scanned name interfaces).used in
            let all =
              first_free-none used 6 20 (k - 2) (rw (none_kept, next_route_metric) at h)
                (omega arith) in
            let same : 20 + 10 * (k - 2) ≡ m = omega arith in
            scanned-IsTaken name interfaces m (rw same at all)
      ]
