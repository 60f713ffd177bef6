-- ===== src/Candidates.antt =====
-- backend/app/scanner/vnext.py, group_product_candidates, and backend/app/scanner/
-- candidate_persistence.py: from the pool of anomalies to the stored candidates of a scan.
pub mod Grouping
pub mod Triggers
pub mod Persistence
use Prim.Native.String.{String}
use options_anomaly_scanner.Prelude.{ℕ, Bool, true, false, ◌||◌, Option, none, some, List, [], ◌∷◌}
use options_anomaly_scanner.Prelude.Eq.{string_eq}
use options_anomaly_scanner.Time.{DateTime}

-- A value under a key that should hold a time: absent, a text, a datetime, or something else, by
-- its rendering.
pub data TimeValue : Type 0 where
  no_time : TimeValue
  time_text : String → TimeValue
  moment : DateTime → TimeValue
  no_timestamp : String → TimeValue

pub data DateValue : Type 0 where
  no_date : DateValue
  date_text : String → DateValue
  date : ℕ → DateValue
  invalid_date : DateValue

-- An identifier: absent, a UUID, or its text.
pub data IdValue : Type 0 where
  no_id : IdValue
  uuid : ℕ → IdValue
  id_text : String → IdValue

-- An anomaly of the pool, by the keys that candidates read; J is what they only copy. The texts are
-- those that str() gives.
pub record Anomaly (J : Type 0) : Type 0 where
  pub ticker : Option String
  pub evidence_family : String
  pub anomaly_entity : String
  pub anomaly_identity : String
  pub source_evidence_identity : String
  -- qualifies_current_candidate is True
  pub qualifies : Bool
  pub evidence_date : DateValue
  pub trigger_first_knowledge_at : TimeValue
  pub source_first_received_at : TimeValue
  pub vendor_observed_at : TimeValue
  pub local_captured_at : TimeValue
  pub source_raw_payload_id : IdValue
  pub source_radar_observation_id : IdValue
  pub source_expiry_observation_id : IdValue
  pub source_contract_observation_id : IdValue
  pub specification_version : Option String
  pub copied : J

-- family in ACTIVE_DISCOVERY_FAMILIES
unfoldable pub is_active_family : String → Bool
is_active_family family =
    string_eq.beq family "RADAR_EVENT"
    || string_eq.beq family "EXPIRY_ACTIVITY"
    || string_eq.beq family "CONTRACT_PERSISTENCE"
