-- ===== src/Research/Sample.antt =====
-- build_research_sample_foundation of backend/app/research/forward_outcome.py: the origin of a scan,
-- the cohort of a candidate, and whether its sample is valid and eligible.
pub mod Validity
use Prim.Native.String.{String}
use options_anomaly_scanner.Prelude.{
  ℕ, Bool, true, false, not, ◌&&◌, Option, none, some, List, [], ◌∷◌, ◌==◌, if◌then◌else◌, length,
  filter_by, any_by, count_by,
}
use options_anomaly_scanner.Prelude.Eq.{string_eq}
use options_anomaly_scanner.Prelude.Int.{ℤ}
use options_anomaly_scanner.Prelude.Result.{Result, ok, err, ◌>>=◌}
use options_anomaly_scanner.Time.{DateTime, ensure_utc}
use options_anomaly_scanner.Tenor.{
  DteBucket, very_short, short, medium, long, bucket_for_dte, default_dte_bucket_rules,
}
use options_anomaly_scanner.Research.Sessions.{Calendar, ForwardSessionPlan, map_forward_sessions}

pub data RunOrigin : Type 0 where
  canonical_scheduled_production : RunOrigin
  manual : RunOrigin
  controlled_observation : RunOrigin
  diagnostic : RunOrigin
  remediation : RunOrigin
  developer_rerun : RunOrigin
  other_non_canonical : RunOrigin

-- _RUN_ORIGINS.get(key, OTHER_NON_CANONICAL)
unfoldable pub origin_of_key : String → RunOrigin
origin_of_key key =
    if string_eq.beq key "scheduled_daily"
    then canonical_scheduled_production
    else if string_eq.beq key "cli"
    then manual
    else if string_eq.beq key "dashboard"
    then controlled_observation
    else if string_eq.beq key "controlled"
    then controlled_observation
    else if string_eq.beq key "diagnostic"
    then diagnostic
    else if string_eq.beq key "test"
    then diagnostic
    else if string_eq.beq key "remediation"
    then remediation
    else if string_eq.beq key "developer_rerun"
    then developer_rerun
    else other_non_canonical

abbrev pub is_canonical : RunOrigin → Bool
is_canonical canonical_scheduled_production = true
is_canonical _ = false

-- What the outcomes read of the rows of a candidate, its triggers, its scan and its context.
pub record CohortTrigger : Type 0 where
  pub id : ℕ
  pub evidence_family : String
  pub qualifies_candidate : Bool
  pub present_at_first_knowledge : Bool

pub record Candidate : Type 0 where
  pub id : ℕ
  pub scan_run_id : ℕ
  pub ticker : String
  pub candidate_first_knowledge_at : DateTime
  pub triggers : List CohortTrigger

pub record Scan : Type 0 where
  pub id : ℕ
  pub trigger : String

pub record Context : Type 0 where
  pub id : ℕ
  pub product_candidate_id : ℕ
  pub evaluation_kind : String
  pub candidate_first_knowledge_at : DateTime

pub data DteValue : Type 0 where
  bucket : DteBucket → DteValue
  days : ℤ → DteValue
  bucket_text : String → DteValue

pub record Cohort : Type 0 where
  pub has_radar : Bool
  pub has_expiry_activity : Bool
  pub has_contract_persistence : Bool
  pub route_composition : Option (List String)
  pub qualifying_trigger_count : ℕ
  -- the count of each bucket, which has an entry where it is not 0
  pub dte_bucket_counts : DteBucket → ℕ

pub data InvalidReason : Type 0 where
  scan_run_identity_mismatch : InvalidReason
  baseline_missing : InvalidReason
  baseline_candidate_mismatch : InvalidReason
  baseline_kind_invalid : InvalidReason
  baseline_first_knowledge_mismatch : InvalidReason
  no_qualifying_trigger : InvalidReason

pub record Foundation : Type 0 where
  pub product_candidate_id : ℕ
  pub frozen_baseline_context_id : Option ℕ
  pub scan_run_id : ℕ
  pub ticker : String
  pub candidate_first_knowledge_at : ℕ
  pub invalid_reason : Option InvalidReason
  pub run_origin : RunOrigin
  pub run_origin_source_trigger : String
  pub primary_research_eligible : Bool
  pub sessions : ForwardSessionPlan
  -- the parts of the key, before they are joined
  pub outcome_window_key : List String
  pub cohort : Cohort

-- trigger.strip().lower(), ticker.upper(), date.isoformat().
pub record Texts : Type 0 where
  pub strip_lower : String → String
  pub upper : String → String
  pub isoformat : ℕ → String

abbrev bucket_of_text : String → Option DteBucket
bucket_of_text t =
    if string_eq.beq t "VERY_SHORT"
    then some very_short
    else if string_eq.beq t "SHORT"
    then some short
    else if string_eq.beq t "MEDIUM"
    then some medium
    else if string_eq.beq t "LONG"
    then some long
    else none

-- _canonical_dte_bucket
unfoldable pub canonical_dte_bucket : Option DteValue → Option DteBucket
unfolding bucket_for_dte
canonical_dte_bucket none = none
canonical_dte_bucket (some (bucket b)) = some b
canonical_dte_bucket (some (days n)) = bucket_for_dte n default_dte_bucket_rules
canonical_dte_bucket (some (bucket_text t)) = bucket_of_text t

abbrev same_bucket : DteBucket → DteBucket → Bool
same_bucket very_short very_short = true
same_bucket short short = true
same_bucket medium medium = true
same_bucket long long = true
same_bucket _ _ = false

abbrev is_bucket : DteBucket → Option DteBucket → Bool
is_bucket b none = false
is_bucket b (some c) = same_bucket c b

abbrev pub is_qualifying : CohortTrigger → Bool
is_qualifying t = t.qualifies_candidate && t.present_at_first_knowledge

-- _route_composition, as the words of the value: `other` tells that there is a further family.
unfoldable pub route_composition : (radar expiry persistence other : Bool) → Option (List String)
route_composition false false false other = none
route_composition radar expiry persistence true = none
route_composition true false false false = some ("RADAR_ONLY" ∷ [])
route_composition false true false false = some ("EXPIRY_ONLY" ∷ [])
route_composition false false true false = some ("PERSISTENCE_ONLY" ∷ [])
route_composition true true false false = some ("RADAR" ∷ "EXPIRY" ∷ [])
route_composition true false true false = some ("RADAR" ∷ "PERSISTENCE" ∷ [])
route_composition false true true false = some ("EXPIRY" ∷ "PERSISTENCE" ∷ [])
route_composition true true true false = some ("RADAR" ∷ "EXPIRY" ∷ "PERSISTENCE" ∷ [])

abbrev is_other_family : CohortTrigger → Bool
is_other_family t =
    not (string_eq.beq t.evidence_family "RADAR_EVENT")
    && not (string_eq.beq t.evidence_family "EXPIRY_ACTIVITY")
    && not (string_eq.beq t.evidence_family "CONTRACT_PERSISTENCE")

-- `dte_of` is the entry of a trigger, under its identifier or its text.
unfoldable pub cohort_metadata : (dte_of : ℕ → Option DteValue) → List CohortTrigger → Cohort
unfolding filter_by any_by count_by canonical_dte_bucket route_composition
cohort_metadata dte_of triggers =
    let qualifying = filter_by is_qualifying triggers in
    let radar = any_by (λ t. string_eq.beq t.evidence_family "RADAR_EVENT") qualifying in
    let expiry = any_by (λ t. string_eq.beq t.evidence_family "EXPIRY_ACTIVITY") qualifying in
    let persistence =
      any_by (λ t. string_eq.beq t.evidence_family "CONTRACT_PERSISTENCE") qualifying in
    record {
      has_radar = radar;
      has_expiry_activity = expiry;
      has_contract_persistence = persistence;
      route_composition =
          route_composition radar expiry persistence (any_by is_other_family qualifying);
      qualifying_trigger_count = length qualifying;
      dte_bucket_counts =
          λ b. count_by (λ t. is_bucket b (canonical_dte_bucket (dte_of t.id))) qualifying;
    }

compare_times : Candidate → Context → Result (Option InvalidReason)
unfolding ensure_utc
compare_times candidate baseline = do
  baseline_at ← ensure_utc baseline.candidate_first_knowledge_at
  candidate_at ← ensure_utc candidate.candidate_first_knowledge_at
  ok (if baseline_at == candidate_at then none else some baseline_first_knowledge_mismatch)

unfoldable pub baseline_reason : Candidate → Option Context → Result (Option InvalidReason)
unfolding compare_times
baseline_reason candidate none = ok (some baseline_missing)
baseline_reason candidate (some baseline) =
    if not (baseline.product_candidate_id == candidate.id)
    then ok (some baseline_candidate_mismatch)
    else if not (string_eq.beq baseline.evaluation_kind "FIRST_KNOWLEDGE_BASELINE")
    then ok (some baseline_kind_invalid)
    else compare_times candidate baseline

unfoldable pub sample_invalid_reason :
    Candidate → Scan → Option Context → Result (Option InvalidReason)
unfolding baseline_reason
sample_invalid_reason candidate scan baseline =
    if not (candidate.scan_run_id == scan.id)
    then ok (some scan_run_identity_mismatch)
    else baseline_reason candidate baseline

-- The reason once the cohort is known.
abbrev pub with_cohort : Option InvalidReason → ℕ → Option InvalidReason
with_cohort (some reason) count = some reason
with_cohort none count = if count == 0 then some no_qualifying_trigger else none

abbrev id_of : Option Context → Option ℕ
id_of none = none
id_of (some baseline) = some baseline.id

-- sample_validity_state is VALID where there is no reason.
abbrev pub is_valid : Option InvalidReason → Bool
is_valid none = true
is_valid (some reason) = false

module _ (calendar : Calendar) (texts : Texts) (dte_of : ℕ → Option DteValue) where
  abbrev window_key : String → ForwardSessionPlan → List String
  window_key ticker sessions =
      texts.upper ticker
      ∷ texts.isoformat sessions.reference_session
      ∷ texts.isoformat sessions.t1_session
      ∷ texts.isoformat sessions.t3_session
      ∷ texts.isoformat sessions.t5_session
      ∷ []

  unfoldable pub foundation_of :
      Candidate → Scan → Option Context → Option InvalidReason → ForwardSessionPlan → ℕ → Foundation
  unfolding cohort_metadata origin_of_key
  foundation_of candidate scan baseline reason sessions first_known =
      let cohort = cohort_metadata dte_of candidate.triggers in
      let origin = origin_of_key (texts.strip_lower scan.trigger) in
      let final = with_cohort reason cohort.qualifying_trigger_count in
      record {
        product_candidate_id = candidate.id;
        frozen_baseline_context_id = id_of baseline;
        scan_run_id = scan.id;
        ticker = candidate.ticker;
        candidate_first_knowledge_at = first_known;
        invalid_reason = final;
        run_origin = origin;
        run_origin_source_trigger = scan.trigger;
        primary_research_eligible = is_valid final && is_canonical origin;
        sessions = sessions;
        outcome_window_key = window_key candidate.ticker sessions;
        cohort = cohort;
      }

  unfoldable pub build_research_sample_foundation :
      (same_day_close_known : Bool) → Candidate → Scan → Option Context → Result Foundation
  unfolding sample_invalid_reason map_forward_sessions foundation_of ensure_utc
  build_research_sample_foundation same_day_close_known candidate scan baseline = do
    reason ← sample_invalid_reason candidate scan baseline
    sessions ←
        map_forward_sessions calendar same_day_close_known candidate.candidate_first_knowledge_at
    first_known ← ensure_utc candidate.candidate_first_knowledge_at
    ok (foundation_of candidate scan baseline reason sessions first_known)
