-- ===== src/Multiwan/Plan/Members.antt =====
-- The members of the policies that `buildModePlan` makes.
use mathlib.Core.List.{Memᴰ}
use mathlib.Core.List.Memᴰ
use freenetic.Base.{
  ◌++◌, ◌⊎◌, inl, inr, sym, false, codes, Bool-cases, ℕ, zero, suc, ◌+◌, ◌<◌, ◌≡◌, ◌≢◌, refl, ap,
  ◌∙◌, List, [], ◌∷◌, map, some, length, get_elem?, All, All-append, Text, arith,
}
use freenetic.Multiwan.Values.{Family, ipv4, ipv6}
use freenetic.Multiwan.Plan.{
  Uplink, Mode, single, failover, balance, mode_or, Member, Policy, policy_name, metric_at,
  member_name, build_members, chosen, family_policy, group_of, build_mode_plan,
}
use freenetic.Multiwan.Plan.Selected.{Selected, group_of-Selected, cons_ne_nil, group_of-ne_nil}

-- The rank that a mode gives to the member at an index.
pub Ranked : Mode → ℕ → ℕ → Type 0
Ranked mode index metric = (mode ≡ balance → metric ≡ 1) × (mode ≢ balance → metric ≡ index + 1)

-- The names of the policies.
pub PlanName : Mode → Family → Text → Type 0
PlanName single ipv4 name = name ≡ codes "fn_s4"
PlanName single ipv6 name = name ≡ codes "fn_s6"
PlanName failover ipv4 name = name ≡ codes "fn_f4"
PlanName failover ipv6 name = name ≡ codes "fn_f6"
PlanName balance ipv4 name = name ≡ codes "fn_b4"
PlanName balance ipv6 name = name ≡ codes "fn_b6"

-- The interfaces in the members: all of the uplinks', and in single mode that of the first.
pub Serves : Mode → List Uplink → List Text → Type 0
Serves single us names =
    (u : Uplink) × (rest : List Uplink) × (us ≡ u ∷ rest) × (names ≡ u.name ∷ [])
Serves failover us names = names ≡ map (λ (u : Uplink). u.name) us
Serves balance us names = names ≡ map (λ (u : Uplink). u.name) us

-- What the plan of a mode says of a policy.
pub record IsPlanned (mode : Mode) (uplinks : List Uplink) (p : Policy) : Type 0 where
  pub named : PlanName mode p.family p.name
  pub serves :
      (us : List Uplink) × Selected p.family uplinks us
      × Serves mode us (map (λ (m : Member). m.interface) p.members)
  pub ranked :
      (i : ℕ) (m : Member)
      → get_elem? p.members i ≡ some m
      → Ranked mode i m.metric × (m.weight ≡ 1)
  pub inhabited : 0 < length p.members

-- A policy of the uplink's family is there, unless the uplink is not enabled.
pub IsServed : List Policy → Uplink → Type 0
IsServed ps u = (u.enabled ≡ false) ⊎ ((p : Policy) × Memᴰ p ps × (p.family ≡ u.family))

policy_name-PlanName :
    (mode : Mode) (family : Family) → PlanName mode family (policy_name mode family)
unfolding PlanName policy_name
policy_name-PlanName single ipv4 = refl
policy_name-PlanName single ipv6 = refl
policy_name-PlanName failover ipv4 = refl
policy_name-PlanName failover ipv6 = refl
policy_name-PlanName balance ipv4 = refl
policy_name-PlanName balance ipv6 = refl

pub PlanName-policy_name :
    (mode : Mode) (family : Family) (name : Text)
    → PlanName mode family name
    → name ≡ policy_name mode family
unfolding PlanName policy_name
PlanName-policy_name single ipv4 name h = h
PlanName-policy_name single ipv6 name h = h
PlanName-policy_name failover ipv4 name h = h
PlanName-policy_name failover ipv6 name h = h
PlanName-policy_name balance ipv4 name h = h
PlanName-policy_name balance ipv6 name h = h

metric_at-Ranked : (mode : Mode) (i : ℕ) → Ranked mode i (metric_at mode i)
unfolding Ranked
metric_at-Ranked single i = ((λ e. cc), (λ _. refl))
metric_at-Ranked failover i = ((λ e. cc), (λ _. refl))
metric_at-Ranked balance i = ((λ _. refl), (λ ne. absurd (ne refl)))

build_members-interfaces :
    (mode : Mode) (family : Family) (index : ℕ) (us : List Uplink)
    → map (λ (m : Member). m.interface) (build_members mode family index us)
      ≡ map (λ (u : Uplink). u.name) us
unfolding build_members
build_members-interfaces mode family index [] = refl
build_members-interfaces mode family index (u ∷ us) =
    ap (λ t. u.name ∷ t) (build_members-interfaces mode family (index + 1) us)

build_members-Ranked :
    (mode : Mode) (family : Family) (index : ℕ) (us : List Uplink) (i j : ℕ) (m : Member)
    → index + i ≡ j
    → get_elem? (build_members mode family index us) i ≡ some m
    → Ranked mode j m.metric × (m.weight ≡ 1)
unfolding build_members
build_members-Ranked mode family index [] i j m e h = cc
build_members-Ranked mode family index (u ∷ us) zero j m e h =
    let first : Member = record {
      name = member_name mode family index;
      interface = u.name;
      metric = metric_at mode index;
      weight = 1;
    } in
    let h' : some first ≡ some m = h in
    let same : first ≡ m = cc in
    let here : index ≡ j = omega arith in rw (← same, ← here) (metric_at-Ranked mode index, refl)
build_members-Ranked mode family index (u ∷ us) (suc i) j m e h =
    build_members-Ranked mode family (index + 1) us i j m (omega arith) h

chosen-Serves :
    (mode : Mode) (us : List Uplink) (v : Uplink) (vs : List Uplink)
    → v ∷ vs ≡ chosen mode us
    → Serves mode us (map (λ (u : Uplink). u.name) (v ∷ vs))
unfolding Serves chosen
chosen-Serves single [] v vs e = cc
chosen-Serves single (u ∷ us) v vs e = (u, us, refl, ap (map (λ (w : Uplink). w.name)) e)
chosen-Serves failover us v vs e = ap (map (λ (u : Uplink). u.name)) e
chosen-Serves balance us v vs e = ap (map (λ (u : Uplink). u.name)) e

family_policy-IsPlanned :
    (mode : Mode) (family : Family) (uplinks us : List Uplink)
    → us ≡ chosen mode (group_of family uplinks)
    → All (IsPlanned mode uplinks) (family_policy mode family us)
unfolding family_policy
family_policy-IsPlanned mode family uplinks [] e = tt
family_policy-IsPlanned mode family uplinks (u ∷ us) e = (
  record {
    named = policy_name-PlanName mode family;
    serves = (
      group_of family uplinks,
      group_of-Selected family uplinks,
      rw (build_members-interfaces mode family 0 (u ∷ us))
          (chosen-Serves mode (group_of family uplinks) u us e),
    );
    ranked = λ i m h. build_members-Ranked mode family 0 (u ∷ us) i i m (omega arith) h;
    inhabited = unfold build_members in omega arith;
  },
  tt,
)

chosen-ne_nil : (mode : Mode) (us : List Uplink) → us ≢ [] → chosen mode us ≢ []
unfolding chosen
chosen-ne_nil mode [] h = absurd (h refl)
chosen-ne_nil single (u ∷ us) h = cons_ne_nil u []
chosen-ne_nil failover (u ∷ us) h = h
chosen-ne_nil balance (u ∷ us) h = h

family_policy-some :
    (mode : Mode) (family : Family) (us : List Uplink)
    → us ≢ []
    → (p : Policy) × Memᴰ p (family_policy mode family us) × (p.family ≡ family)
unfolding family_policy
family_policy-some mode family [] h = absurd (h refl)
family_policy-some mode family (u ∷ us) h = (_, Memᴰ.head refl, refl)

policies-IsServed :
    (mode : Mode) (uplinks : List Uplink) (u : Uplink) (family : Family)
    → u.family ≡ family
    → Memᴰ u uplinks
    → IsServed
        (family_policy mode ipv4 (chosen mode (group_of ipv4 uplinks))
          ++ family_policy mode ipv6 (chosen mode (group_of ipv6 uplinks)))
        u
unfolding IsServed
policies-IsServed mode uplinks u family own l = elim (Bool-cases u.enabled) [
  | inr e ↦ inl e
  | inl e ↦ inr (by_family family own (rw (own) at (group_of-ne_nil u uplinks l e)))
]
  where
    policies : Family → List Policy
    policies f = family_policy mode f (chosen mode (group_of f uplinks))

    by_family :
        (f : Family)
        → u.family ≡ f
        → group_of f uplinks ≢ []
        → (p : Policy) × Memᴰ p (policies ipv4 ++ policies ipv6) × (p.family ≡ u.family)
    by_family ipv4 e h =
        let (p, k, same) =
          family_policy-some mode ipv4 (chosen mode (group_of ipv4 uplinks))
            (chosen-ne_nil mode (group_of ipv4 uplinks) h) in
        (p, Memᴰ.append_left (policies ipv6) k, same ∙ sym e)
    by_family ipv6 e h =
        let (p, k, same) =
          family_policy-some mode ipv6 (chosen mode (group_of ipv6 uplinks))
            (chosen-ne_nil mode (group_of ipv6 uplinks) h) in
        (p, Memᴰ.append_right (policies ipv4) k, same ∙ sym e)

All_of_Memᴰ : (P : Uplink → Type 0) (us : List Uplink) → ((u : Uplink) → Memᴰ u us → P u) → All P us
All_of_Memᴰ P [] h = tt
All_of_Memᴰ P (u ∷ us) h = (h u (Memᴰ.head refl), All_of_Memᴰ P us (λ v l. h v (Memᴰ.tail l)))

-- Every policy of a plan has the name of its mode and family; its members are, in order, the enabled
-- uplinks of that family, of which the single mode keeps the first; there is at least one; all have
-- weight 1, and metric 1 in balance mode and otherwise their position from 1 on. And each enabled uplink
-- has a policy of its family.
pub build_mode_plan-IsPlanned :
    (mode : Text) (uplinks : List Uplink)
    → All
        (IsPlanned (build_mode_plan mode uplinks).mode uplinks)
        (build_mode_plan mode uplinks).policies
      × All (IsServed (build_mode_plan mode uplinks).policies) uplinks
unfolding build_mode_plan
build_mode_plan-IsPlanned mode uplinks =
    let m = mode_or failover mode in
    (
      All-append (IsPlanned m uplinks) (family_policy m ipv4 (chosen m (group_of ipv4 uplinks)))
          (family_policy m ipv6 (chosen m (group_of ipv6 uplinks)))
          (family_policy-IsPlanned m ipv4 uplinks _ refl)
          (family_policy-IsPlanned m ipv6 uplinks _ refl),
      All_of_Memᴰ _ uplinks (λ u l. policies-IsServed m uplinks u u.family refl l),
    )
