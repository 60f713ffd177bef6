-- ===== src/Freshness.antt =====
-- backend/app/scanner/vnext.py: the freshness of contract persistence and the selection of the
-- current observations.
pub mod Current
use Prim.Native.String.{String}
use options_anomaly_scanner.Prelude.{
  ℕ, ◌+◌, ◌-◌, ◌≡◌, Bool, true, false, not, ◌&&◌, ◌||◌, Option, none, some, List, [], ◌∷◌, ltb, leb,
  if◌then◌else◌, any_by,
}
use options_anomaly_scanner.Prelude.Eq.{string_eq}
use options_anomaly_scanner.Time.{DateTime, aware, naive, Market}

pub data FreshnessState : Type 0 where
  future_evidence_rejected : FreshnessState
  calibration_required : FreshnessState
  window_last_observation_date_unavailable : FreshnessState
  current : FreshnessState
  stale : FreshnessState

pub record PersistenceFreshnessAssessment : Type 0 where
  pub eligible : Bool
  pub state : FreshnessState
  pub observation_age_days : Option ℕ

-- The mode is CALIBRATION_REQUIRED where no maximal age is configured.
pub record PersistenceFreshnessPolicy : Type 0 where
  pub max_vendor_observation_age_days : Option ℕ

pub data PolicyMode : Type 0 where
  mode_calibration_required : PolicyMode
  mode_max_vendor_observation_age : PolicyMode

unfoldable pub mode : PersistenceFreshnessPolicy → PolicyMode
mode policy = elim policy.max_vendor_observation_age_days [
  | none ↦ mode_calibration_required
  | some limit ↦ mode_max_vendor_observation_age
]

assess_limit : Option ℕ → Option ℕ → ℕ → PersistenceFreshnessAssessment
assess_limit none window_last analysis_date = record {
  eligible = false;
  state = calibration_required;
  observation_age_days = none;
}
assess_limit (some limit) none analysis_date = record {
  eligible = false;
  state = window_last_observation_date_unavailable;
  observation_age_days = none;
}
assess_limit (some limit) (some last) analysis_date =
    let age = analysis_date - last in
    record {
      eligible = leb age limit;
      state = if leb age limit then current else stale;
      observation_age_days = some age;
    }

is_future : Option ℕ → ℕ → Bool
is_future none analysis_date = false
is_future (some last) analysis_date = ltb analysis_date last

unfoldable pub assess : PersistenceFreshnessPolicy → Option ℕ → ℕ → PersistenceFreshnessAssessment
unfolding assess_limit is_future
assess policy window_last analysis_date =
    if is_future window_last analysis_date
    then record { eligible = false; state = future_evidence_rejected; observation_age_days = none }
    else assess_limit policy.max_vendor_observation_age_days window_last analysis_date

-- What the stored components hold under `window_last_observation_date`.
pub data ComponentValue : Type 0 where
  date_value : ℕ → ComponentValue
  text_value : String → ComponentValue
  other_value : ComponentValue

-- The fields of a row that the selection reads; a row may lack each.
pub record PersistenceObservation : Type 0 where
  pub observed_at : Option DateTime
  pub window_last : Option ComponentValue
  pub contract_symbol : Option String

-- `fromisoformat` of the standard library, `none` standing for its ValueError.
module _ (date_fromisoformat : String → Option ℕ) where
  parse_observation_date : Option ComponentValue → Option ℕ
  parse_observation_date none = none
  parse_observation_date (some (date_value d)) = some d
  parse_observation_date (some (text_value text)) = date_fromisoformat text
  parse_observation_date (some other_value) = none

  unfoldable pub persistence_window_last_observation_date : PersistenceObservation → Option ℕ
  unfolding parse_observation_date
  persistence_window_last_observation_date row = parse_observation_date row.window_last

module _ (m : Market) where
  -- Midnight in New York after the analysis date.
  unfoldable pub analysis_date_exclusive_utc_cutoff : ℕ → ℕ
  analysis_date_exclusive_utc_cutoff analysis_date = m.instant (analysis_date + 1) 0

  before_cutoff : Option DateTime → ℕ → Bool
  before_cutoff none analysis_date = false
  before_cutoff (some (naive wall)) analysis_date = false
  before_cutoff (some (aware t)) analysis_date =
      ltb t (analysis_date_exclusive_utc_cutoff analysis_date)

  unfoldable pub persistence_observation_is_time_admissible : PersistenceObservation → ℕ → Bool
  unfolding before_cutoff
  persistence_observation_is_time_admissible row analysis_date =
      before_cutoff row.observed_at analysis_date

-- The loop over the observations, newest first.
module _ (m : Market) (date_fromisoformat : String → Option ℕ) (policy : PersistenceFreshnessPolicy)
    (analysis_date : ℕ) where
  unfoldable pub freshness_of : PersistenceObservation → PersistenceFreshnessAssessment
  freshness_of row =
      assess policy (persistence_window_last_observation_date date_fromisoformat row) analysis_date

  -- The loop, with `seen_contracts`; it returns what it appends from here on.
  select_from : List String → List PersistenceObservation → List PersistenceObservation
  unfolding freshness_of
  select_from seen [] = []
  select_from seen (row ∷ rest) =
      let skipped = select_from seen rest in
      let selected : List PersistenceObservation = elim row.contract_symbol [
        | none ↦ skipped
        | some symbol ↦
            let kept = row ∷ select_from (symbol ∷ seen) rest in
            if any_by (string_eq.beq symbol) seen then skipped else kept
      ] in
      if not (persistence_observation_is_time_admissible m row analysis_date)
      then skipped
      else if not (freshness_of row).eligible
      then skipped
      else selected

  unfoldable pub select_current_persistence_observations :
      List PersistenceObservation → List PersistenceObservation
  unfolding select_from
  select_current_persistence_observations observations = select_from [] observations
