-- ===== src/Candidates/Triggers.antt =====
-- _materialize_triggers of backend/app/scanner/candidate_persistence.py, with its parsers.
pub mod Known
use Prim.Native.String.{String}
use options_anomaly_scanner.Prelude.{
  ℕ, Bool, true, false, not, ◌&&◌, ◌||◌, Option, none, some, List, [], ◌∷◌, ◌++◌, ltb, ◌==◌,
  if◌then◌else◌, find_by,
}
use options_anomaly_scanner.Prelude.Eq.{string_eq}
use options_anomaly_scanner.Prelude.Result.{Result, ok, err, raised, raise_if, ◌>>=◌, ◌>>◌}
use options_anomaly_scanner.Time.{DateTime, aware, naive, ensure_utc}
use options_anomaly_scanner.Candidates.{
  TimeValue, no_time, time_text, moment, no_timestamp, DateValue, no_date, date_text, date,
  invalid_date, IdValue, no_id, uuid, id_text, Anomaly, is_active_family,
}

-- The standard library's texts: fromisoformat after the replacement of Z, and UUID, with none for a
-- ValueError, and endswith.
pub record Library : Type 0 where
  pub datetime_fromisoformat : String → Option DateTime
  pub date_fromisoformat : String → Option ℕ
  pub uuid_of : String → Option ℕ
  pub ends_with : String → String → Bool

-- ProductCandidateTrigger, without its own identifier; its provenance is the rule's hash and what is
-- copied from the anomaly.
pub record Trigger (J : Type 0) : Type 0 where
  pub product_candidate_id : ℕ
  pub evidence_family : String
  pub anomaly_entity_type : String
  pub anomaly_identity : String
  pub source_evidence_identity : String
  pub qualifies_candidate : Bool
  pub event_date : Option ℕ
  pub trigger_first_knowledge_at : ℕ
  pub source_first_received_at : Option ℕ
  pub vendor_observed_at : Option ℕ
  pub local_captured_at : Option ℕ
  pub source_raw_payload_id : Option ℕ
  pub source_radar_observation_id : Option ℕ
  pub source_expiry_observation_id : Option ℕ
  pub source_contract_observation_id : Option ℕ
  pub rule_hash : String
  pub copied : J
  pub specification_version : String
  pub created_at : ℕ

abbrev parsed {ℓ} : {A : Type ℓ} → String → Option A → Result A
parsed error none = err (raised error)
parsed error (some a) = ok a

abbrev present {ℓ} : {A : Type ℓ} → Result A → Result (Option A)
present r = do a ← r; ok (some a)

module _ (lib : Library) where
  unfoldable pub optional_datetime : TimeValue → Result (Option ℕ)
  unfolding ensure_utc
  optional_datetime no_time = ok none
  optional_datetime (time_text t) = do
    parsed_time ← parsed "Invalid isoformat string" (lib.datetime_fromisoformat t)
    present (ensure_utc parsed_time)
  optional_datetime (moment d) = present (ensure_utc d)
  optional_datetime (no_timestamp v) = err (raised "Invalid trigger timestamp")

  unfoldable pub required_datetime : TimeValue → Result ℕ
  unfolding optional_datetime
  required_datetime value = do
    time ← optional_datetime value
    parsed "Candidate trigger requires trigger_first_knowledge_at" time

  unfoldable pub optional_date : DateValue → Result (Option ℕ)
  optional_date no_date = ok none
  optional_date (date d) = ok (some d)
  optional_date (date_text t) =
      present (parsed "Invalid isoformat string" (lib.date_fromisoformat t))
  optional_date invalid_date = err (raised "Invalid trigger event date")

  unfoldable pub optional_uuid : IdValue → Result (Option ℕ)
  optional_uuid no_id = ok none
  optional_uuid (uuid n) = ok (some n)
  optional_uuid (id_text t) =
      present (parsed "badly formed hexadecimal UUID string" (lib.uuid_of t))

-- Python's == of two such values; a naive and an aware datetime differ.
unfoldable pub same_time : TimeValue → TimeValue → Bool
same_time no_time no_time = true
same_time (time_text s) (time_text t) = string_eq.beq s t
same_time (moment (aware s)) (moment (aware t)) = s == t
same_time (moment (naive s)) (moment (naive t)) = s == t
same_time (no_timestamp s) (no_timestamp t) = string_eq.beq s t
same_time _ _ = false

-- after > cutoff, where there is such a time
abbrev pub is_after : Option ℕ → ℕ → Bool
is_after none cutoff = false
is_after (some t) cutoff = ltb cutoff t

module _ {J : Type 0} where
  -- The key (family, source_identity).
  abbrev pub same_key : Anomaly J → Anomaly J → Bool
  same_key a b =
      string_eq.beq a.evidence_family b.evidence_family
      && string_eq.beq a.source_evidence_identity b.source_evidence_identity

  -- _trigger_identity(a) == _trigger_identity(b)
  unfoldable pub same_trigger : Anomaly J → Anomaly J → Bool
  unfolding same_time
  same_trigger a b =
      string_eq.beq a.anomaly_entity b.anomaly_entity
      && string_eq.beq a.anomaly_identity b.anomaly_identity
      && same_time a.source_first_received_at b.source_first_received_at
      && same_time a.trigger_first_knowledge_at b.trigger_first_knowledge_at

  -- deduplicated.setdefault, after the comparison with the entry that is there.
  unfoldable pub keep_first :
      Option (Anomaly J) → Anomaly J → List (Anomaly J) → Result (List (Anomaly J))
  unfolding same_trigger
  keep_first none a seen = ok (seen ++ a ∷ [])
  keep_first (some existing) a seen =
      if same_trigger existing a
      then ok seen
      else err (raised "Conflicting replay for the same logical trigger")

-- str(version or SIGNAL_SPEC_VERSION)
abbrev or_active_version : Option String → String
or_active_version none = "phase2a_vnext_stage4b"
or_active_version (some v) = if string_eq.beq v "" then "phase2a_vnext_stage4b" else v

module _ {J : Type 0} (lib : Library) where
  unfoldable pub deduplicate_step : List (Anomaly J) → Anomaly J → Result (List (Anomaly J))
  unfolding keep_first find_by is_active_family
  deduplicate_step seen a = do
    raise_if (not (is_active_family a.evidence_family))
        (raised "Forbidden candidate trigger family")
    raise_if
        (string_eq.beq a.source_evidence_identity ""
          || lib.ends_with a.source_evidence_identity ":None")
        (raised "Candidate trigger requires authoritative source evidence identity")
    keep_first (find_by (same_key a) seen) a seen

  unfoldable pub deduplicate_from : List (Anomaly J) → List (Anomaly J) → Result (List (Anomaly J))
  unfolding deduplicate_step
  deduplicate_from seen [] = ok seen
  deduplicate_from seen (a ∷ rest) = do next ← deduplicate_step seen a; deduplicate_from next rest

  unfoldable pub trigger_of :
      (candidate_id materialized_at : ℕ) → String → Anomaly J → Result (Trigger J)
  unfolding required_datetime optional_datetime optional_date optional_uuid
  trigger_of candidate_id materialized_at rule_hash a = do
    trigger_first ← required_datetime lib a.trigger_first_knowledge_at
    raise_if (ltb materialized_at trigger_first)
        (raised "Future trigger evidence cannot enter first-knowledge state")
    source_first ← optional_datetime lib a.source_first_received_at
    local_captured ← optional_datetime lib a.local_captured_at
    vendor_observed ← optional_datetime lib a.vendor_observed_at
    raise_if (is_after source_first materialized_at)
        (raised "Future source receipt cannot enter first-knowledge state")
    raise_if (is_after local_captured materialized_at)
        (raised "Future local capture cannot enter first-knowledge state")
    event_date ← optional_date lib a.evidence_date
    raw_payload ← optional_uuid lib a.source_raw_payload_id
    radar ← optional_uuid lib a.source_radar_observation_id
    expiry ← optional_uuid lib a.source_expiry_observation_id
    contract ← optional_uuid lib a.source_contract_observation_id
    ok (record {
      product_candidate_id = candidate_id;
      evidence_family = a.evidence_family;
      anomaly_entity_type = a.anomaly_entity;
      anomaly_identity = a.anomaly_identity;
      source_evidence_identity = a.source_evidence_identity;
      qualifies_candidate = a.qualifies;
      event_date = event_date;
      trigger_first_knowledge_at = trigger_first;
      source_first_received_at = source_first;
      vendor_observed_at = vendor_observed;
      local_captured_at = local_captured;
      source_raw_payload_id = raw_payload;
      source_radar_observation_id = radar;
      source_expiry_observation_id = expiry;
      source_contract_observation_id = contract;
      rule_hash = rule_hash;
      copied = a.copied;
      specification_version = or_active_version a.specification_version;
      created_at = materialized_at;
    })

  unfoldable pub triggers_of :
      (candidate_id materialized_at : ℕ) → String → List (Anomaly J) → Result (List (Trigger J))
  unfolding trigger_of
  triggers_of candidate_id materialized_at rule_hash [] = ok []
  triggers_of candidate_id materialized_at rule_hash (a ∷ rest) = do
    trigger ← trigger_of candidate_id materialized_at rule_hash a
    triggers ← triggers_of candidate_id materialized_at rule_hash rest
    ok (trigger ∷ triggers)

  unfoldable pub materialize_triggers :
      (candidate_id materialized_at : ℕ) → String → List (Anomaly J) → Result (List (Trigger J))
  unfolding deduplicate_from triggers_of
  materialize_triggers candidate_id materialized_at rule_hash anomalies = do
    deduplicated ← deduplicate_from [] anomalies
    triggers_of candidate_id materialized_at rule_hash deduplicated
