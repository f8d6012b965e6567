-- ===== src/Multiwan/Model/Least.antt =====
-- The metrics, states and counts of the model.
use freenetic.Base.{
  ℕ, suc, ◌+◌, Bool, true, false, List, [], ◌∷◌, map, Option, none, some, ◌≡◌, ◌⊎◌, inl, inr, refl,
  sym, ◌∙◌, arith, length, keep, All, Bool-cases, if◌then◌else◌, Text, codes,
}
use mathlib.Core.Path.{subst}
use freenetic.Multiwan.Values.{ℤ, pos, negsuc, Section, section_name, enabled_value, option}
use freenetic.Multiwan.Metric.{Source, normalize_sections}
use freenetic.Multiwan.Runtime.{
  State, online, offline, disabled, unknown, RuntimeSource, RuntimeEntry, MwanSource, MwanEntry,
  PackageSource, normalize_runtime, normalize_mwan_runtime, mwan_entry, find_runtime,
}
use freenetic.Multiwan.Model.{
  ModelUplink, Model, Config, first_named, uplink_of, uplink_state, build_uplinks, build_model,
  same_state, count_state,
}
use freenetic.Multiwan.Model.Members.{ModelMember, integer_le, present, least, read_members, key_of}

-- One of the values is the number.
unfoldable pub IsValue : ℤ → List (Option ℤ) → Type 0
IsValue n [] = ⊥
IsValue n (o ∷ os) = (o ≡ some n) ⊎ IsValue n os

-- No value is lower.
unfoldable pub IsLowest : ℤ → List (Option ℤ) → Type 0
IsLowest n [] = Unit
IsLowest n (o ∷ os) = ((k : ℤ) → o ≡ some k → integer_le n k ≡ true) × IsLowest n os

integer_le_refl : (a : ℤ) → integer_le a a ≡ true
unfolding integer_le
integer_le_refl (pos a) = ground arith
integer_le_refl (negsuc a) = ground arith

integer_le_trans :
    (a b c : ℤ) → integer_le a b ≡ true → integer_le b c ≡ true → integer_le a c ≡ true
unfolding integer_le
integer_le_trans (pos a) (pos b) (pos c) h k = ground arith
integer_le_trans (pos a) (pos b) (negsuc c) h k = cc
integer_le_trans (pos a) (negsuc b) c h k = cc
integer_le_trans (negsuc a) b (pos c) h k = refl
integer_le_trans (negsuc a) (pos b) (negsuc c) h k = cc
integer_le_trans (negsuc a) (negsuc b) (negsuc c) h k = ground arith

integer_le_total : (a b : ℤ) → integer_le a b ≡ false → integer_le b a ≡ true
unfolding integer_le
integer_le_total (pos a) (pos b) h = ground arith
integer_le_total (pos a) (negsuc b) h = refl
integer_le_total (negsuc a) (pos b) h = cc
integer_le_total (negsuc a) (negsuc b) h = ground arith

-- The lowest of the values, and none where all are none.
unfoldable pub IsLeast : Option ℤ → List (Option ℤ) → Type 0
IsLeast none os = All (λ o. o ≡ none) os
IsLeast (some n) os = IsValue n os × IsLowest n os

none-IsLowest : (n : ℤ) (os : List (Option ℤ)) → All (λ o. o ≡ none) os → IsLowest n os
unfolding IsLowest
none-IsLowest n [] h = tt
none-IsLowest n (o ∷ os) (e, h) =
    ((λ k f. absurd (none_ne_some k (sym e ∙ f))), none-IsLowest n os h)
  where
    none_ne_some : (k : ℤ) → none ≡ some k → ⊥
    none_ne_some k e = cc

integer_le-IsLowest :
    (n m : ℤ) (os : List (Option ℤ)) → integer_le n m ≡ true → IsLowest m os → IsLowest n os
unfolding IsLowest
integer_le-IsLowest n m [] h low = tt
integer_le-IsLowest n m (o ∷ os) h (f, low) =
    ((λ k e. integer_le_trans n m k h (f k e)), integer_le-IsLowest n m os h low)

le_of_some : (n k : ℤ) → some n ≡ some k → integer_le n k ≡ true
le_of_some n k e =
    let same : n ≡ k = cc in subst (λ x. integer_le n x ≡ true) same (integer_le_refl n)

ge_of_some : (m n k : ℤ) → integer_le m n ≡ true → some n ≡ some k → integer_le m k ≡ true
ge_of_some m n k h e = let same : n ≡ k = cc in subst (λ x. integer_le m x ≡ true) same h

some-IsLeast :
    (n : ℤ) (os : List (Option ℤ)) (r : Option ℤ)
    → IsLeast r os
    → IsLeast
        (elim r [ none ↦ some n | some m ↦ (if integer_le n m then some n else some m) ])
        (some n ∷ os)
unfolding IsLeast IsValue IsLowest
some-IsLeast n os none h = (inl refl, ((λ k e. le_of_some n k e), none-IsLowest n os h))
some-IsLeast n os (some m) (p, low) = elim (Bool-cases (integer_le n m)) [
  | inl e ↦ rw e (inl refl, ((λ k f. le_of_some n k f), integer_le-IsLowest n m os e low))
  | inr e ↦ rw e (inr p, ((λ k f. ge_of_some m n k (integer_le_total n m e) f), low))
]

skip_none : (os : List (Option ℤ)) (r : Option ℤ) → IsLeast r os → IsLeast r (none ∷ os)
unfolding IsLeast IsValue IsLowest
skip_none os none h = (refl, h)
skip_none os (some n) (p, low) = (inr p, ((λ k e. cc), low))

least-IsLeast : (os : List (Option ℤ)) → IsLeast (least (present os)) os
unfolding least present
least-IsLeast [] = unfold IsLeast in tt
least-IsLeast (none ∷ os) = skip_none os (least (present os)) (least-IsLeast os)
least-IsLeast (some n ∷ os) = some-IsLeast n os (least (present os)) (least-IsLeast os)

one_state :
    (s : State) (a b c d : ℕ)
    → (if same_state s online then suc a else a)
        + ((if same_state s offline then suc b else b)
            + ((if same_state s disabled then suc c else c)
                + (if same_state s unknown then suc d else d)))
      ≡ suc (a + (b + (c + d)))
one_state online a b c d = omega arith
one_state offline a b c d = omega arith
one_state disabled a b c d = omega arith
one_state unknown a b c d = omega arith

count_step :
    (s : State) (u : ModelUplink) (us : List ModelUplink)
    → count_state s (u ∷ us)
      ≡ (if same_state u.state s then suc (count_state s us) else count_state s us)
unfolding count_state keep
count_step s u us =
    length_if (same_state u.state s) (keep (λ (v : ModelUplink). same_state v.state s) us)
  where
    length_if :
        (b : Bool) (vs : List ModelUplink)
        → length (if b then u ∷ vs else vs) ≡ (if b then suc (length vs) else length vs)
    length_if true vs = refl
    length_if false vs = refl

states_total :
    (us : List ModelUplink)
    → count_state online us
        + (count_state offline us + (count_state disabled us + count_state unknown us))
      ≡ length us
unfolding count_state keep
states_total [] = refl
states_total (u ∷ us) = omega (
  arith,
  count_step online u us,
  count_step offline u us,
  count_step disabled u us,
  count_step unknown u us,
  one_state u.state (count_state online us) (count_state offline us) (count_state disabled us)
      (count_state unknown us),
  states_total us,
)

-- The metric is the lowest of the members', and an uplink that is switched off is disabled.
unfoldable pub IsSound : ModelUplink → Type 0
IsSound u =
    IsLeast u.metric (map (λ (m : ModelMember). m.metric) u.members)
    × (u.enabled ≡ false → u.state ≡ disabled)

uplink_of-IsSound :
    (ms : List ModelMember) (runtime : List (Option RuntimeEntry)) (mwan : List (Text × MwanEntry))
    (network s : Section)
    → IsSound (uplink_of ms runtime mwan network s)
unfolding IsSound uplink_of uplink_state
uplink_of-IsSound ms runtime mwan network s = (
  least-IsLeast _,
  (λ e.
      off (enabled_value (option (codes "enabled") s)) (mwan_entry mwan (key_of (section_name s)))
        (find_runtime runtime (section_name s)) e),
)
  where
    off :
        (b : Bool) (m : Option MwanEntry) (r : Option RuntimeEntry)
        → b ≡ false
        → uplink_state b m r ≡ disabled
    off true m r e = cc
    off false m r e = refl

all_map :
    (f : Section → ModelUplink)
    → ((s : Section) → IsSound (f s))
    → (ss : List Section) → All IsSound (map f ss)
all_map f h [] = tt
all_map f h (s ∷ ss) = (h s, all_map f h ss)

unfoldable pub IsConsistent : Model → Type 0
IsConsistent m =
    All IsSound m.uplinks
    × m.summary.online + (m.summary.offline + (m.summary.disabled + count_state unknown m.uplinks))
      ≡ m.summary.total

-- In every model that buildModel makes, each uplink's metric is the lowest of its members' metrics, and
-- none where no member has one; an uplink that is switched off is disabled; and the uplinks that are
-- online, offline, disabled and unknown add up to the total of the summary.
pub build_model-IsConsistent :
    (config : Config) (network : Source) (runtime : RuntimeSource) (reported : PackageSource)
    (mwan : MwanSource)
    → IsConsistent (build_model config network runtime reported mwan)
unfolding IsConsistent build_model build_uplinks
build_model-IsConsistent config network runtime reported mwan =
    let members = read_members (normalize_sections config.members (codes "member")) in
    let networks = normalize_sections network (codes "interface") in
    (
      all_map
          (λ s.
            uplink_of members (normalize_runtime runtime) (normalize_mwan_runtime mwan)
              (first_named (section_name s) networks) s)
          (λ s.
            uplink_of-IsSound members (normalize_runtime runtime) (normalize_mwan_runtime mwan)
              (first_named (section_name s) networks) s)
          (normalize_sections config.interfaces (codes "interface")),
      states_total (build_uplinks config network runtime mwan),
    )
