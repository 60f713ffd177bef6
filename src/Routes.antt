-- ===== src/Routes.antt =====
-- backend/app/scanner/v13.py, the pure part: which discovery route an event or an expiry takes.
pub mod Eligibility
pub mod Sources
pub mod Requests
pub mod Monthly
pub mod Budget
use Prim.Native.String.{String}
use options_anomaly_scanner.Prelude.{
  ℕ, zero, suc, ◌+◌, ◌-◌, ◌%◌, ◌≡◌, refl, Bool, true, false, not, ◌&&◌, ◌||◌, Option, none, some,
  List, [], ◌∷◌, ◌++◌, ltb, leb, ◌==◌, if◌then◌else◌, filter_by, any_by,
}
use options_anomaly_scanner.Prelude.Int.{ℤ, pos, negsuc, abs, ltb_ℤ}
use options_anomaly_scanner.Prelude.Order.{LinearOrder}
use options_anomaly_scanner.Prelude.Eq.{Eq, ticker_date_eq}
use options_anomaly_scanner.Prelude.Dict.{Dict, lookup, put, get_or}
use options_anomaly_scanner.Prelude.Sort.{sort_by}

-- The decimal type is a parameter: only its order is used.
pub record RadarThresholdProfile (D : Type 0) : Type 0 where
  pub enabled : Bool
  pub min_premium_usd : D
  pub min_abs_oi_diff : ℤ

pub data RadarReason : Type 0 where
  profile_disabled : RadarReason
  missing_premium : RadarReason
  missing_oi_diff : RadarReason
  premium_below_profile_minimum : RadarReason
  abs_oi_diff_below_profile_minimum : RadarReason
  radar_material_event : RadarReason

pub data RiskFlag : Type 0 where
  low_oi_base : RiskFlag

pub record RadarEligibility : Type 0 where
  pub eligible : Bool
  pub reason : RadarReason
  pub risk_flags : List RiskFlag

low_oi_flags : Option ℤ → List RiskFlag
low_oi_flags none = []
low_oi_flags (some oi) = if ltb_ℤ oi (pos 100) then low_oi_base ∷ [] else []

module _ {D : Type 0} (order : LinearOrder D) where
  radar_reason : Option D → Option ℤ → RadarThresholdProfile D → RadarReason
  radar_reason none oi_diff profile =
      if not profile.enabled then profile_disabled else missing_premium
  radar_reason (some premium) none profile =
      if not profile.enabled then profile_disabled else missing_oi_diff
  radar_reason (some premium) (some diff) profile =
      if not profile.enabled
      then profile_disabled
      else if order.lt premium profile.min_premium_usd
      then premium_below_profile_minimum
      else if ltb_ℤ (pos (abs diff)) profile.min_abs_oi_diff
      then abs_oi_diff_below_profile_minimum
      else radar_material_event

  is_material : RadarReason → Bool
  is_material radar_material_event = true
  is_material _ = false

  unfoldable pub evaluate_radar_material_event :
      Option D → Option ℤ → Option ℤ → RadarThresholdProfile D → RadarEligibility
  unfolding radar_reason is_material low_oi_flags
  evaluate_radar_material_event premium_usd oi_diff previous_oi profile =
      let reason = radar_reason premium_usd oi_diff profile in
      record {
        eligible = is_material reason;
        reason = reason;
        risk_flags = low_oi_flags previous_oi;
      }

pub data RadarScope : Type 0 where
  unjoined : RadarScope
  outside_archive_scope : RadarScope
  incomplete_chain : RadarScope
  long_dte_radar_watch : RadarScope
  full_deep_dive_eligible : RadarScope

unfoldable pub radar_scope : Option ℤ → Bool → Bool → RadarScope
radar_scope dte false chain_complete = unjoined
radar_scope none true chain_complete = outside_archive_scope
radar_scope (some dte) true chain_complete =
    if ltb_ℤ dte (pos 0) || ltb_ℤ (pos 180) dte
    then outside_archive_scope
    else if not chain_complete
    then incomplete_chain
    else if ltb_ℤ (pos 90) dte
    then long_dte_radar_watch
    else full_deep_dive_eligible

-- A source family by its text: the three active ones, and any other.
pub data Source : Type 0 where
  radar_event : Source
  expiry_activity : Source
  contract_persistence : Source
  other : (name : String) → Source

-- `priority[value]`; an inactive family has no priority and is filtered out before.
abbrev pub priority : Source → ℕ
priority radar_event = 0
priority expiry_activity = 1
priority contract_persistence = 2
priority (other name) = 3

abbrev pub is_active : Source → Bool
is_active s = ltb (priority s) 3

abbrev pub has_source : Source → List Source → Bool
has_source s = any_by (λ x. priority x == priority s)

-- The set comprehension: each active family once.
distinct_active : List Source → List Source
distinct_active [] = []
distinct_active (s ∷ rest) =
    let others = distinct_active rest in
    if is_active s && not (has_source s others) then s ∷ others else others

unfoldable pub ordered_trigger_sources : List Source → List Source
unfolding distinct_active sort_by any_by
ordered_trigger_sources sources =
    sort_by (λ a b. ltb (priority a) (priority b)) (distinct_active sources)

pub record RouteState : Type 0 where
  pub radar_route_eligible : Bool
  pub persistent_route_eligible : Bool
  pub expiry_activity_route_eligible : Bool
  pub trigger_sources : List Source
  pub deep_dive_eligible : Bool

-- `bool(ordered)`
abbrev pub is_nonempty {ℓ} : {A : Type ℓ} → List A → Bool
is_nonempty [] = false
is_nonempty (x ∷ xs) = true

abbrev pub when {ℓ} : {A : Type ℓ} → Bool → A → List A
when true a = a ∷ []
when false a = []

-- The two removed families are accepted as arguments and not read.
unfoldable pub resolve_route_state :
    (radar contract expiry_pers activity cold_start : Bool) → RouteState
unfolding ordered_trigger_sources
resolve_route_state radar contract expiry_pers activity cold_start =
    let ordered = ordered_trigger_sources (
      when radar radar_event
      ++ (when contract contract_persistence ++ when activity expiry_activity)) in
    record {
      radar_route_eligible = radar;
      persistent_route_eligible = contract;
      expiry_activity_route_eligible = activity;
      trigger_sources = ordered;
      deep_dive_eligible = is_nonempty ordered;
    }

-- One request of a deep dive: a ticker, an expiration and the family that asks for it.
pub record DeepDiveRequest : Type 0 where
  pub key : String × ℕ
  pub source : Source

request_step : Dict (String × ℕ) (List Source) → DeepDiveRequest → Dict (String × ℕ) (List Source)
unfolding lookup put
request_step result r =
    put r.key (ordered_trigger_sources (get_or (lookup r.key result) [] ++ r.source ∷ [])) result

requests_from :
    Dict (String × ℕ) (List Source) → List DeepDiveRequest → Dict (String × ℕ) (List Source)
unfolding request_step
requests_from result [] = result
requests_from result (r ∷ rest) = requests_from (request_step result r) rest

unfoldable pub deduplicate_deep_dive_requests :
    List DeepDiveRequest → Dict (String × ℕ) (List Source)
unfolding requests_from
deduplicate_deep_dive_requests = requests_from []

-- A calendar date, with what `monthrange` says of its month: the weekday of its first day, Monday
-- being 0, and its number of days.
pub record CalendarDate : Type 0 where
  pub day : ℕ
  pub first_weekday : ℕ
  pub days : ℕ

unfoldable pub is_standard_monthly_expiry : CalendarDate → Bool
is_standard_monthly_expiry expiration =
    let first_friday = 1 + (4 + 7 - expiration.first_weekday) % 7 in
    let third_friday = first_friday + 14 in
    expiration.day == third_friday && leb expiration.day expiration.days
