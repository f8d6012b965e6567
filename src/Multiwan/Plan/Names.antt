-- ===== src/Multiwan/Plan/Names.antt =====
-- The lengths of the names that `buildModePlan` gives: mwan3 takes fifteen characters at most.
use freenetic.Base.{
  ℕ, ◌+◌, ◌^◌, ◌≤◌, ◌<◌, ◌≡◌, inl, inr, refl, List, [], ◌∷◌, ◌++◌, length, length-append, keep, All,
  All-append, Text, codes, decimal, length-decimal, Bool-cases, Bool, arith,
}
use freenetic.Multiwan.Values.{Family, ipv4, ipv6}
use freenetic.Multiwan.Plan.{
  Uplink, Mode, single, failover, balance, mode_or, Member, Policy, is_family, policy_name,
  member_name, build_members, chosen, family_policy, group_of, build_mode_plan,
}

length-policy_name : (mode : Mode) (family : Family) → length (policy_name mode family) ≡ 5
unfolding policy_name
length-policy_name single ipv4 = refl
length-policy_name single ipv6 = refl
length-policy_name failover ipv4 = refl
length-policy_name failover ipv6 = refl
length-policy_name balance ipv4 = refl
length-policy_name balance ipv6 = refl

-- Both names of a policy's size: its own and its members'.
pub IsShort : Policy → Type 0
IsShort p = (length p.name ≤ 15) × All (λ (m : Member). length m.name ≤ 15) p.members

length-member_name :
    (mode : Mode) (family : Family) (i : ℕ) → i < 10 ^ 9 → length (member_name mode family i) ≤ 15
unfolding member_name
length-member_name mode family i h = omega (
  arith,
  length-append (policy_name mode family) (codes "_" ++ decimal i),
  length-policy_name mode family,
  length-decimal i 8 h,
)

build_members-short :
    (mode : Mode) (family : Family) (i : ℕ) (us : List Uplink)
    → i + length us ≤ 10 ^ 9
    → All (λ (m : Member). length m.name ≤ 15) (build_members mode family i us)
unfolding build_members
build_members-short mode family i [] h = tt
build_members-short mode family i (u ∷ us) h = (
  length-member_name mode family i (omega arith),
  build_members-short mode family (i + 1) us (omega arith),
)

length-keep : {A : Type 0} (p : A → Bool) (xs : List A) → length (keep p xs) ≤ length xs
unfolding keep
length-keep p [] = omega arith
length-keep p (x ∷ xs) = elim (Bool-cases (p x)) [
  | inl e ↦ rw e (omega (arith, length-keep p xs))
  | inr e ↦ rw e (omega (arith, length-keep p xs))
]

length-chosen : (mode : Mode) (us : List Uplink) → length (chosen mode us) ≤ length us
unfolding chosen
length-chosen single [] = omega arith
length-chosen single (u ∷ us) = omega arith
length-chosen failover us = omega arith
length-chosen balance us = omega arith

family_policy-IsShort :
    (mode : Mode) (family : Family) (us : List Uplink)
    → length us ≤ 10 ^ 9
    → All IsShort (family_policy mode family us)
unfolding family_policy IsShort
family_policy-IsShort mode family [] h = tt
family_policy-IsShort mode family (u ∷ us) h = (
  (
    omega (arith, length-policy_name mode family),
    build_members-short mode family 0 (u ∷ us) (omega arith),
  ),
  tt,
)

length-chosen_group :
    (mode : Mode) (family : Family) (uplinks : List Uplink)
    → length (chosen mode (group_of family uplinks)) ≤ length uplinks
unfolding group_of
length-chosen_group mode family uplinks = omega (
  arith,
  length-chosen mode (group_of family uplinks),
  length-keep (is_family family) (keep (λ (u : Uplink). u.enabled) uplinks),
  length-keep (λ (u : Uplink). u.enabled) uplinks,
)

-- With at most 10^9 uplinks, no policy and no member of a plan has a name of more than 15 characters.
pub build_mode_plan-IsShort :
    (mode : Text) (uplinks : List Uplink)
    → length uplinks ≤ 10 ^ 9
    → All IsShort (build_mode_plan mode uplinks).policies
unfolding build_mode_plan
build_mode_plan-IsShort mode uplinks h =
    let m = mode_or failover mode in
    All-append IsShort (family_policy m ipv4 (chosen m (group_of ipv4 uplinks)))
      (family_policy m ipv6 (chosen m (group_of ipv6 uplinks)))
      (family_policy-IsShort m ipv4 (chosen m (group_of ipv4 uplinks))
        (omega (arith, length-chosen_group m ipv4 uplinks)))
      (family_policy-IsShort m ipv6 (chosen m (group_of ipv6 uplinks))
        (omega (arith, length-chosen_group m ipv6 uplinks)))
