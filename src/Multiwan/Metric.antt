-- ===== src/Multiwan/Metric.antt =====
-- `normalizeSections` and `nextRouteMetric` of freenetic-multiwan-data.js.
pub mod Choice
use freenetic.Base.{
  ℕ, zero, suc, ◌+◌, ◌%◌, Bool, true, false, not, ◌&&◌, ◌||◌, List, [], ◌∷◌, map, Option, none,
  some, ◌==◌, leb, Text, codes, text_eq, if◌then◌else◌, keep, for_each,
}
use freenetic.Multiwan.Values.{
  Value, missing, text, texts, Section, option, section_name, truthy, number_value, ℤ, pos, negsuc,
}

-- Where sections come from: nothing, `uci.sections()`, an object with the list under the type's name,
-- or a configuration keyed by section name.
pub data Source : Type 0 where
  absent : Source
  array : List Section → Source
  grouped : List Section → Source
  keyed : List (Text × Section) → Source

-- `!section['.type'] || section['.type'] === type`
unfoldable pub has_type : Text → Section → Bool
has_type type s = elim (truthy (option (codes ".type") s)) [ none ↦ true | some t ↦ text_eq t type ]

-- A section without a name takes its key for one.
with_name : Text × Section → Section
with_name (name, s) = elim (truthy (option (codes ".name") s)) [
  | none ↦ (codes ".name", text name) ∷ s
  | some _ ↦ s
]

unfoldable pub normalize_sections : Source → Text → List Section
unfolding with_name
normalize_sections absent type = []
normalize_sections (array ss) type = keep (has_type type) ss
normalize_sections (grouped ss) type = ss
normalize_sections (keyed entries) type = keep (has_type type) (map with_name entries)

unfoldable pub int_eq : ℤ → ℤ → Bool
int_eq (pos a) (pos b) = a == b
int_eq (negsuc a) (negsuc b) = a == b
int_eq _ _ = false

-- `used[metric]`
unfoldable pub is_used : List ℤ → ℤ → Bool
unfolding int_eq
is_used [] m = false
is_used (u ∷ us) m = int_eq u m || is_used us m

pub record Scan : Type 0 where
  pub current : Option ℤ
  pub used : List ℤ

unfoldable pub is_named : Text → Section → Bool
is_named name s = elim (section_name s) [ none ↦ false | some n ↦ text_eq n name ]

abbrev pub metric_of : Section → Option ℤ
metric_of s = number_value (option (codes "metric") s)

abbrev add_used : Option ℤ → List ℤ → List ℤ
add_used none used = used
add_used (some m) used = m ∷ used

-- The body of the loop over the sections.
unfoldable pub scan_section : Text → Section → Scan → Scan
scan_section current_name s scan =
    if is_named current_name s
    then record scan { current = metric_of s }
    else record scan { used = add_used (metric_of s) scan.used }

unfoldable pub scan_sections : Text → List Section → Scan → Scan
scan_sections current_name [] scan = scan
scan_sections current_name (s ∷ ss) scan =
    scan_sections current_name ss (scan_section current_name s scan)

-- `for (let metric = 20; metric <= 70; metric += 10)`, with the rounds left.
unfoldable pub first_free : List ℤ → ℕ → ℕ → Option ℕ
first_free used zero metric = none
first_free used (suc n) metric =
    if is_used used (pos metric) then first_free used n (metric + 10) else some metric

-- `current >= 20 && current <= 70 && current % 10 === 0 && !used[current]`
unfoldable pub keeps_current : Scan → Option ℕ
keeps_current scan = elim scan.current [
  | some (pos m) ↦
      if leb 20 m && leb m 70 && m % 10 == 0 && not (is_used scan.used (pos m))
      then some m
      else none
  | _ ↦ none
]

unfoldable pub next_route_metric : Source → Text → Option ℕ
next_route_metric network_source current_name =
    let scan =
      scan_sections current_name (normalize_sections network_source (codes "interface"))
        (record { current = none; used = [] }) in
    elim (keeps_current scan) [ some m ↦ some m | none ↦ first_free scan.used 6 20 ]
