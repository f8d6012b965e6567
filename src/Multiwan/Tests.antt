-- ===== src/Multiwan/Tests.antt =====
-- Runs of the Multi-WAN model on concrete inputs, and its theorems at inputs that meet their hypotheses.
use mathlib.Core.List.{Memᴰ}
use freenetic.Base.{
  find, some_of, lower, map, trim_start, trim_end, is_space, is_decimal, digits_value, every, List,
  Bool, true, false, All, text_eq, ◌≡◌, refl, [], ◌∷◌, none, some, Text, codes, keep, arith,
}
use freenetic.Multiwan.Values.{
  Family, ipv4, ipv6, Section, text, option, truthy, section_name, number_value, string_of,
  integer_of, enabled_value, pos,
}
use freenetic.Multiwan.Metric.{
  Source, absent, array, has_type, is_named, keeps_current, scan_section, scan_sections, first_free,
  is_used, next_route_metric, normalize_sections,
}
use freenetic.Multiwan.Metric.Choice.{IsTaken, IsRouteMetric, next_route_metric-some}
use freenetic.Multiwan.Plan.{
  Uplink, mode_or, build_mode_plan, family_policy, chosen, group_of, is_family, policy_name,
}
use freenetic.Multiwan.Plan.Members.{IsPlanned, IsServed, build_mode_plan-IsPlanned}
use freenetic.Multiwan.Plan.Names.{IsShort, build_mode_plan-IsShort}
use freenetic.Multiwan.Traffic.{
  candidates, policy_interfaces, scoped, has_role, split_primary, take_out, traffic_of,
  policy_uplinks, hero, build_traffic_state,
}
use freenetic.Multiwan.Traffic.Current.{IsSound, build_traffic_state-IsSound}
use freenetic.Multiwan.Runtime.{
  no_runtime, no_packages, bare, normalize_mwan_runtime, mwan_entry, mwan_runtime_state, status_of,
}
use freenetic.Multiwan.Model.{
  Config, Model, ModelUplink, build_model, build_uplinks, uplink_of, first_named, uplink_state,
  count_state,
}
use freenetic.Multiwan.Model.Members.{read_members, members_of, key_of, present, least, integer_le}
use freenetic.Multiwan.Model.Least.{IsConsistent, build_model-IsConsistent}
use freenetic.Multiwan.Detect.{detect_mode}
use freenetic.Multiwan.Detect.Planned.{Uses, detect_mode-build_mode_plan}

abbrev interface : Text → Text → Section
interface name metric = (codes ".name", text name) ∷ (codes "metric", text metric) ∷ []

abbrev two_wans : Source
two_wans = array (interface (codes "wan") (codes "20") ∷ interface (codes "wanb") (codes "30") ∷ [])

abbrev all_taken : Source
all_taken = array (
    interface (codes "a") (codes "20")
    ∷ interface (codes "b") (codes "30")
    ∷ interface (codes "c") (codes "40")
    ∷ interface (codes "d") (codes "50")
    ∷ interface (codes "e") (codes "60")
    ∷ interface (codes "f") (codes "70")
    ∷ [])

third_run : next_route_metric two_wans (codes "wanc") ≡ some 40
unfolding next_route_metric keeps_current scan_sections scan_section normalize_sections keep
    has_type is_named section_name truthy option first_free is_used number_value
third_run = refl

full_run : next_route_metric all_taken (codes "wan") ≡ none
unfolding next_route_metric keeps_current scan_sections scan_section normalize_sections keep
    has_type is_named section_name truthy option first_free is_used number_value
full_run = refl

next_route_metric-some_example :
    IsRouteMetric 40 × ¬ IsTaken (normalize_sections two_wans (codes "interface")) (codes "wanc") 40
next_route_metric-some_example = next_route_metric-some two_wans (codes "wanc") third_run

abbrev uplink : Text → Family → Bool → Uplink
uplink name family enabled = record {
  name = name;
  family = family;
  enabled = enabled;
  state = codes "online";
  scope = [];
}

abbrev three : List Uplink
three =
    uplink (codes "wan") ipv4 true
    ∷ uplink (codes "wan6") ipv6 false
    ∷ uplink (codes "wanb") ipv4 true
    ∷ []

build_mode_plan-IsPlanned_example :
    All
      (IsPlanned (build_mode_plan (codes "failover") three).mode three)
      (build_mode_plan (codes "failover") three).policies
    × All (IsServed (build_mode_plan (codes "failover") three).policies) three
build_mode_plan-IsPlanned_example = build_mode_plan-IsPlanned (codes "failover") three

build_mode_plan-IsShort_example : All IsShort (build_mode_plan (codes "balance") three).policies
build_mode_plan-IsShort_example = build_mode_plan-IsShort (codes "balance") three (omega arith)

abbrev failover_rule : Section
failover_rule = (codes "use_policy", text (codes "fn_f4")) ∷ []

failover_rule-Uses : All (Uses (build_mode_plan (codes "failover") three)) (failover_rule ∷ [])
unfolding Uses build_mode_plan mode_or text_eq family_policy chosen group_of keep is_family
    policy_name option
failover_rule-Uses = ((_, Memᴰ.head refl, refl), tt)

detect_mode-build_mode_plan_example :
    detect_mode (failover_rule ∷ []) (codes "single")
    ≡ (build_mode_plan (codes "failover") three).mode
detect_mode-build_mode_plan_example =
    detect_mode-build_mode_plan (codes "failover") three (failover_rule ∷ []) (codes "single")
      failover_rule-Uses (λ e. cc)

traffic_run : (build_traffic_state three (codes "failover") [] []).hero_state ≡ codes "online"
unfolding build_traffic_state candidates keep is_family policy_interfaces find scoped has_role
    some_of lower text_eq split_primary take_out traffic_of policy_uplinks hero
traffic_run = refl

build_traffic_state-IsSound_example :
    IsSound
      (codes "failover")
      (scoped (policy_interfaces [] []) (candidates three))
      (build_traffic_state three (codes "failover") [] [])
build_traffic_state-IsSound_example = build_traffic_state-IsSound three (codes "failover") [] []

abbrev two_members : Config
two_members = record {
  interfaces = array (((codes ".name", text (codes "wan")) ∷ []) ∷ []);
  members = array (
      ((codes ".name", text (codes "a"))
        ∷ (codes "interface", text (codes "wan"))
        ∷ (codes "metric", text (codes "3"))
        ∷ [])
      ∷ ((codes ".name", text (codes "b"))
          ∷ (codes "interface", text (codes "wan"))
          ∷ (codes "metric", text (codes "2"))
          ∷ [])
      ∷ []);
  policies = absent;
  rules = absent;
}

abbrev model_of_two : Model
model_of_two =
    build_model two_members absent no_runtime no_packages
      (bare ((codes "wan", record { enabled = none; status = codes "Online"; tracking = [] }) ∷ []))

model_run :
    (model_of_two.summary.online ≡ 1)
    × (map (λ (u : ModelUplink). u.metric) model_of_two.uplinks ≡ some (pos 2) ∷ [])
unfolding build_model build_uplinks normalize_sections has_type keep read_members section_name
    option truthy trim_start trim_end is_space string_of number_value integer_of is_decimal
    digits_value every text_eq uplink_of members_of key_of first_named find mwan_entry
    normalize_mwan_runtime mwan_runtime_state status_of lower uplink_state enabled_value present
    least integer_le count_state
model_run = (refl, refl)

build_model-IsConsistent_example : IsConsistent model_of_two
build_model-IsConsistent_example =
    build_model-IsConsistent two_members absent no_runtime no_packages
      (bare ((codes "wan", record { enabled = none; status = codes "Online"; tracking = [] }) ∷ []))
