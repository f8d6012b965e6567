-- ===== src/Multiwan/Detect/Planned.antt =====
-- The mode that is detected from rules with the policies of a plan.
use mathlib.Core.List.{Memᴰ}
use freenetic.Base.{
  ◌≡◌, ◌≢◌, refl, Bool, true, false, List, [], ◌∷◌, ◌||◌, some, Text, codes, lower, some_of, All,
}
use freenetic.Multiwan.Values.{text, Section, option, string_of, Family, ipv4, ipv6}
use freenetic.Multiwan.Plan.{
  Uplink, Mode, single, failover, balance, Policy, Plan, policy_name, build_mode_plan,
}
use freenetic.Multiwan.Plan.Members.{IsPlanned, PlanName-policy_name, build_mode_plan-IsPlanned}
use freenetic.Multiwan.Detect.{policy_mode, rule_mode, rule_modes, same_mode, detect_mode}

-- The rule sends its traffic by a policy of the plan.
unfoldable pub Uses : Plan → Section → Type 0
Uses plan rule =
    (p : Policy) × Memᴰ p plan.policies × (option (codes "use_policy") rule ≡ text p.name)

policy_mode-policy_name :
    (mode : Mode) (family : Family) → policy_mode (lower (policy_name mode family)) ≡ some mode
unfolding policy_mode policy_name lower
policy_mode-policy_name single ipv4 = refl
policy_mode-policy_name single ipv6 = refl
policy_mode-policy_name failover ipv4 = refl
policy_mode-policy_name failover ipv6 = refl
policy_mode-policy_name balance ipv4 = refl
policy_mode-policy_name balance ipv6 = refl

named_by_plan :
    (mode : Mode) (uplinks : List Uplink) (ps : List Policy) (p : Policy)
    → All (IsPlanned mode uplinks) ps
    → Memᴰ p ps
    → p.name ≡ policy_name mode p.family
named_by_plan mode uplinks [] p h l = elim l [ ]
named_by_plan mode uplinks (q ∷ ps) p (k, h) (Memᴰ.head e) =
    rw e (PlanName-policy_name mode q.family q.name k.named)
named_by_plan mode uplinks (q ∷ ps) p (k, h) (Memᴰ.tail l) = named_by_plan mode uplinks ps p h l

pub OnlyMode : Mode → List Mode → Type 0
OnlyMode mode ms = All (λ m. m ≡ mode) ms

same_mode-head :
    (k mode m : Mode) (ms : List Mode)
    → m ≡ mode
    → some_of (same_mode k) ms ≡ same_mode k mode
    → some_of (same_mode k) (m ∷ ms) ≡ same_mode k mode
unfolding some_of
same_mode-head k mode m ms e h = rw (e, h) (or_self (same_mode k mode))
  where
    or_self : (b : Bool) → (b || b) ≡ b
    or_self true = refl
    or_self false = refl

some_of-same_mode :
    (k mode m : Mode) (ms : List Mode)
    → OnlyMode mode (m ∷ ms)
    → some_of (same_mode k) (m ∷ ms) ≡ same_mode k mode
unfolding some_of OnlyMode
some_of-same_mode k mode m [] (e, h) = rw e (or_false (same_mode k mode))
  where
    or_false : (b : Bool) → (b || false) ≡ b
    or_false true = refl
    or_false false = refl
some_of-same_mode k mode m (m' ∷ ms) (e, h) =
    same_mode-head k mode m (m' ∷ ms) e (some_of-same_mode k mode m' ms h)

tests-OnlyMode :
    (k mode : Mode) (ms : List Mode)
    → ms ≢ []
    → OnlyMode mode ms
    → some_of (same_mode k) ms ≡ same_mode k mode
tests-OnlyMode k mode [] ne h = absurd (ne refl)
tests-OnlyMode k mode (m ∷ ms) ne h = some_of-same_mode k mode m ms h

detect_mode-OnlyMode :
    (rules : List Section) (fallback : Text) (mode : Mode)
    → rule_modes rules ≢ []
    → OnlyMode mode (rule_modes rules)
    → detect_mode rules fallback ≡ mode
unfolding detect_mode same_mode
detect_mode-OnlyMode rules fallback single ne h =
    rw
      (
        tests-OnlyMode balance single (rule_modes rules) ne h,
        tests-OnlyMode failover single (rule_modes rules) ne h,
        tests-OnlyMode single single (rule_modes rules) ne h,
      )
      refl
detect_mode-OnlyMode rules fallback failover ne h =
    rw
      (
        tests-OnlyMode balance failover (rule_modes rules) ne h,
        tests-OnlyMode failover failover (rule_modes rules) ne h,
      )
      refl
detect_mode-OnlyMode rules fallback balance ne h =
    rw (tests-OnlyMode balance balance (rule_modes rules) ne h) refl

cons_ne_nil : {A : Type 0} (x : A) (xs : List A) → x ∷ xs ≢ []
cons_ne_nil x xs e = cc

module _ (mode_text : Text) (uplinks : List Uplink) where
  abbrev plan : Plan
  plan = build_mode_plan mode_text uplinks

  Uses-rule_mode : (rule : Section) → Uses plan rule → rule_mode rule ≡ some plan.mode
  unfolding rule_mode Uses string_of
  Uses-rule_mode rule (p, l, e) =
      rw
        (
          e,
          named_by_plan plan.mode uplinks plan.policies p
              ((build_mode_plan-IsPlanned mode_text uplinks).0) l,
        )
        (policy_mode-policy_name plan.mode p.family)

  rule_modes-Uses :
      (rules : List Section) → All (Uses plan) rules → OnlyMode plan.mode (rule_modes rules)
  unfolding rule_modes OnlyMode
  rule_modes-Uses [] h = tt
  rule_modes-Uses (rule ∷ rules) (k, h) =
      rw (Uses-rule_mode rule k, rule_modes) (refl, rule_modes-Uses rules h)

  rule_modes-cons :
      (rules : List Section) → All (Uses plan) rules → rules ≢ [] → rule_modes rules ≢ []
  unfolding rule_modes
  rule_modes-cons [] h ne = absurd (ne refl)
  rule_modes-cons (rule ∷ rules) (k, h) ne =
      rw (Uses-rule_mode rule k, rule_modes) (cons_ne_nil plan.mode (rule_modes rules))

  -- Where there are rules and all of them use policies of a plan, the mode that is detected is the
  -- plan's, whatever the fallback.
  pub detect_mode-build_mode_plan :
      (rules : List Section) (fallback : Text)
      → All (Uses (build_mode_plan mode_text uplinks)) rules
      → rules ≢ []
      → detect_mode rules fallback ≡ (build_mode_plan mode_text uplinks).mode
  detect_mode-build_mode_plan rules fallback h ne =
      detect_mode-OnlyMode rules fallback plan.mode (rule_modes-cons rules h ne)
        (rule_modes-Uses rules h)
