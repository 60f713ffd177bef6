-- ===== src/Tests/Candidates.antt =====
-- A pool of anomalies of two tickers, and the candidates of a scan at noon.
use Prim.Native.String.{String}
use options_anomaly_scanner.Prelude.{
  ℕ, ◌+◌, ◌≡◌, refl, ◌↔◌, Bool, true, false, none, some, List, [], ◌∷◌, In, here, there, any_by,
  All,
}
use options_anomaly_scanner.Prelude.Eq.{string_eq}
use options_anomaly_scanner.Prelude.Result.{Result, ok}
use options_anomaly_scanner.Time.{aware}
use options_anomaly_scanner.Candidates.{
  Anomaly, no_date, no_time, moment, no_id, uuid, is_active_family,
}
use options_anomaly_scanner.Candidates.Grouping.{
  CandidateItem, Texts, is_of, group_product_candidates,
}
use options_anomaly_scanner.Candidates.Grouping.Partition.{group_sound, group_complete}
use options_anomaly_scanner.Candidates.Triggers.{Library, Trigger, materialize_triggers}
use options_anomaly_scanner.Candidates.Persistence.{
  ProductCandidate, ScanRun, Store, materialization_rule_version, load_product_candidates_for_scan,
  persist_candidate_projection, materialize_successful_scan_candidates,
}
use options_anomaly_scanner.Candidates.Persistence.Known.{
  StandsOnKnown, persist_projection-StandsOnKnown,
}
use options_anomaly_scanner.Candidates.Persistence.Replay.{materialize_replayed}

abbrev texts : Texts
texts = record { text_lt = λ s t. false; date_str = λ d. "" }

abbrev library : Library
library = record {
  datetime_fromisoformat = λ t. none;
  date_fromisoformat = λ t. none;
  uuid_of = λ t. none;
  ends_with = λ s t. false;
}

abbrev anomaly : String → String → String → Bool → Anomaly ℕ
anomaly ticker family source qualifies = record {
  ticker = some ticker;
  evidence_family = family;
  anomaly_entity = "CONTRACT";
  anomaly_identity = source;
  source_evidence_identity = source;
  qualifies = qualifies;
  evidence_date = no_date;
  trigger_first_knowledge_at = moment (aware 900);
  source_first_received_at = no_time;
  vendor_observed_at = no_time;
  local_captured_at = moment (aware 800);
  source_raw_payload_id = no_id;
  source_radar_observation_id = uuid 7;
  source_expiry_observation_id = no_id;
  source_contract_observation_id = no_id;
  specification_version = none;
  copied = 0;
}

abbrev event : Anomaly ℕ
event = anomaly "AAPL" "RADAR_EVENT" "radar:1" true

abbrev context : Anomaly ℕ
context = anomaly "AAPL" "CONTRACT_PERSISTENCE" "contract:2" false

abbrev removed : Anomaly ℕ
removed = anomaly "MSFT" "EVIDENCE_BREADTH" "breadth:3" true

abbrev pool : List (Anomaly ℕ)
pool = context ∷ removed ∷ event ∷ []

event_of_apple : is_of "AAPL" event ≡ true
unfolding is_active_family
event_of_apple = refl

abbrev only_item : CandidateItem ℕ
only_item = record {
  ticker = "AAPL";
  active_trigger_sources = "RADAR_EVENT" ∷ [];
  anomaly_count = 2;
  qualifying_anomaly_count = 1;
  anomalies = event ∷ context ∷ [];
}

grouped : group_product_candidates texts pool ≡ only_item ∷ []
unfolding group_product_candidates is_active_family
grouped = refl

only_item-In : In only_item (group_product_candidates texts pool)
unfolding group_product_candidates is_active_family
only_item-In = here refl

group_sound_example :
    (any_by (λ x. x.qualifies) only_item.anomalies ≡ true)
    × (In context only_item.anomalies ↔ (In context pool × (is_of "AAPL" context ≡ true)))
group_sound_example = group_sound texts pool only_item context only_item-In

group_complete_example :
    (item : CandidateItem ℕ) × In item (group_product_candidates texts pool)
    × (item.ticker ≡ "AAPL")
    × (In context item.anomalies ↔ (In context pool × (is_of item.ticker context ≡ true)))
group_complete_example =
    group_complete texts pool "AAPL" event context (there (there (here refl))) event_of_apple refl

abbrev run : ScanRun ℕ
run = record {
  id = 1;
  is_complete = true;
  completed_at = some (aware 1000);
  specification_version = none;
  configuration_snapshot = 0;
  candidate_materialized_at = none;
  candidate_materialization_rule_version = none;
  candidate_materialization_rule_hash = none;
}

abbrev store : Store ℕ ℕ
store = record { run = run; candidates = [] }

abbrev trigger : Anomaly ℕ → Trigger ℕ
trigger a = record {
  product_candidate_id = 5;
  evidence_family = a.evidence_family;
  anomaly_entity_type = a.anomaly_entity;
  anomaly_identity = a.anomaly_identity;
  source_evidence_identity = a.source_evidence_identity;
  qualifies_candidate = a.qualifies;
  event_date = none;
  trigger_first_knowledge_at = 900;
  source_first_received_at = none;
  vendor_observed_at = none;
  local_captured_at = some 800;
  source_raw_payload_id = none;
  source_radar_observation_id = some 7;
  source_expiry_observation_id = none;
  source_contract_observation_id = none;
  rule_hash = "rule";
  copied = 0;
  specification_version = "phase2a_vnext_stage4b";
  created_at = 1000;
}

abbrev candidate : ProductCandidate ℕ
candidate = record {
  id = 5;
  scan_run_id = 1;
  ticker = "AAPL";
  candidate_first_knowledge_at = 1000;
  materialization_rule_version = materialization_rule_version;
  materialization_rule_hash = "rule";
  created_at = 1000;
  triggers = trigger event ∷ trigger context ∷ [];
}

abbrev marked : Store ℕ ℕ
marked = record {
  run = record run {
    candidate_materialized_at = some 1000;
    candidate_materialization_rule_version = some materialization_rule_version;
    candidate_materialization_rule_hash = some "rule";
  };
  candidates = candidate ∷ [];
}

persisted :
    persist_candidate_projection library (λ n. 5 + n) 1000 "rule" (only_item ∷ []) store
    ≡ ok (candidate ∷ [], marked)
unfolding persist_candidate_projection is_active_family
persisted = refl

persist_projection-StandsOnKnown_example : All (StandsOnKnown 1000) (candidate ∷ [])
persist_projection-StandsOnKnown_example =
    persist_projection-StandsOnKnown library (λ n. 5 + n) 1000 "rule" (only_item ∷ []) store marked
      (candidate ∷ []) persisted

abbrev projected : ScanRun ℕ → ℕ → List (CandidateItem ℕ)
projected r cutoff = only_item ∷ []

materialized :
    materialize_successful_scan_candidates library texts.text_lt
      (λ version snapshot. "rule")
      projected
      (λ n. 5 + n)
      (aware 1000)
      store
    ≡ ok (candidate ∷ [], marked)
unfolding materialize_successful_scan_candidates is_active_family
materialized = refl

-- The second call, after the evidence is gone.
materialize_replayed_example :
    let rows = load_product_candidates_for_scan texts.text_lt 1 marked.candidates in
    ◌≡◌ {A = Result (List (ProductCandidate ℕ) × Store ℕ ℕ)}
      (materialize_successful_scan_candidates library texts.text_lt
        (λ version snapshot. "rule")
        (λ r cutoff. [])
        (λ n. 9)
        (aware 1000)
        marked)
      (ok (rows, marked))
    × (In candidate rows ↔ In candidate (candidate ∷ []))
materialize_replayed_example =
    materialize_replayed library texts.text_lt (λ version snapshot. "rule") (λ r cutoff. [])
      (λ n. 9) (aware 1000) projected (λ n. 5 + n) store marked (candidate ∷ []) candidate refl
      materialized

-- Two anomalies of one source, of which only the later one qualifies: the check that some anomaly
-- qualifies passes, and the trigger that stays does not qualify.
only_first_kept :
    materialize_triggers library 5 1000 "rule"
      (anomaly "AAPL" "RADAR_EVENT" "radar:1" false ∷ event ∷ [])
    ≡ ok (trigger (anomaly "AAPL" "RADAR_EVENT" "radar:1" false) ∷ [])
unfolding materialize_triggers is_active_family
only_first_kept = refl
