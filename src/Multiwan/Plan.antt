-- ===== src/Multiwan/Plan.antt =====
-- `buildModePlan` of freenetic-multiwan-data.js: the policies of a mode.
pub mod Selected
pub mod Members
pub mod Names
use freenetic.Base.{
  ℕ, ◌+◌, Bool, true, false, List, [], ◌∷◌, ◌++◌, Text, codes, text_eq, decimal, if◌then◌else◌,
  keep, take,
}
use freenetic.Multiwan.Values.{Family, ipv4, ipv6}

-- An uplink of the model that `buildModel` makes; `family` is one of the two texts there.
pub record Uplink : Type 0 where
  pub name : Text
  pub family : Family
  pub enabled : Bool
  pub state : Text
  pub scope : Text

pub data Mode : Type 0 where
  single failover balance : Mode

-- `[ 'single', 'failover', 'balance' ].indexOf(mode) !== -1 ? mode : fallback`
unfoldable pub mode_or : Mode → Text → Mode
unfolding text_eq
mode_or fallback s =
    if text_eq s (codes "single")
    then single
    else if text_eq s (codes "failover")
    then failover
    else if text_eq s (codes "balance")
    then balance
    else fallback

pub record Member : Type 0 where
  pub name : Text
  pub interface : Text
  pub metric : ℕ
  pub weight : ℕ

pub record Policy : Type 0 where
  pub name : Text
  pub family : Family
  pub members : List Member

pub record Plan : Type 0 where
  pub mode : Mode
  pub policies : List Policy

unfoldable pub is_family : Family → Uplink → Bool
is_family family u = same family u.family
  where
    same : Family → Family → Bool
    same ipv4 ipv4 = true
    same ipv6 ipv6 = true
    same _ _ = false

abbrev mode_code : Mode → Text
mode_code single = codes "s"
mode_code failover = codes "f"
mode_code balance = codes "b"

abbrev family_code : Family → Text
family_code ipv4 = codes "4"
family_code ipv6 = codes "6"

-- `'fn_' + modeCode + familyCode`
unfoldable pub policy_name : Mode → Family → Text
policy_name mode family = codes "fn_" ++ (mode_code mode ++ family_code family)

abbrev metric_at : Mode → ℕ → ℕ
metric_at balance index = 1
metric_at _ index = index + 1

unfoldable pub member_name : Mode → Family → ℕ → Text
member_name mode family index = policy_name mode family ++ (codes "_" ++ decimal index)

-- The members from an index on.
unfoldable pub build_members : Mode → Family → ℕ → List Uplink → List Member
build_members mode family index [] = []
build_members mode family index (u ∷ us) =
    record {
      name = member_name mode family index;
      interface = u.name;
      metric = metric_at mode index;
      weight = 1;
    }
    ∷ build_members mode family (index + 1) us

-- `if (mode === 'single') members = members.slice(0, 1)`
unfoldable pub chosen : Mode → List Uplink → List Uplink
chosen single us = take 1 us
chosen _ us = us

-- The policy of a family, unless it has no member.
unfoldable pub family_policy : Mode → Family → List Uplink → List Policy
family_policy mode family [] = []
family_policy mode family (u ∷ us) =
    record {
      name = policy_name mode family;
      family = family;
      members = build_members mode family 0 (u ∷ us);
    }
    ∷ []

-- The enabled uplinks of a family, in their order.
unfoldable pub group_of : Family → List Uplink → List Uplink
group_of family uplinks = keep (is_family family) (keep (λ u. u.enabled) uplinks)

unfoldable pub build_mode_plan : Text → List Uplink → Plan
build_mode_plan mode_text uplinks =
    let mode = mode_or failover mode_text in
    record {
      mode = mode;
      policies =
          family_policy mode ipv4 (chosen mode (group_of ipv4 uplinks))
          ++ family_policy mode ipv6 (chosen mode (group_of ipv6 uplinks));
    }
