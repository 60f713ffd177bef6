-- ===== src/Tests/Confirmation.antt =====
-- Confirmation states of concrete candidates.
use Prim.Native.String.{String}
use options_anomaly_scanner.Prelude.{
  ℕ, ◌+◌, ◌-◌, ◌/◌, ◌≤◌, ◌≡◌, refl, Bool, Option, ◌↔◌, true, false, none, some, List, [], ◌∷◌,
  arith, ltb, ◌==◌, if◌then◌else◌, length, In,
}
use options_anomaly_scanner.Prelude.Json.{Fields, no_fields, field, null, number, text}
use options_anomaly_scanner.Prelude.Eq.{string_eq}
use options_anomaly_scanner.Prelude.Floats.{Floats, number_of}
use options_anomaly_scanner.Confirmation.States.{
  flat_or_equal, local_peak, topology_of, classify_term_topology, build_price_state,
  build_volatility_state, build_dealer_state,
}
use options_anomaly_scanner.Confirmation.Topology.{shape, is_flat, topology_shape}
use options_anomaly_scanner.Confirmation.Positioning.{
  History, is_present, radar_event_family, no_evidence, single_evidence, multi_evidence,
  build_positioning_state,
}
use options_anomaly_scanner.Confirmation.Positioning.Families.{state_of, evidence_families}
use options_anomaly_scanner.Confirmation.Readiness.{
  context_complete, context_partial, context_limited, build_research_readiness, positioning_ready,
  price_ready, iv_ready, term_ready, dealer_ready, execution_ready,
}
use options_anomaly_scanner.Confirmation.Readiness.Layers.{bit, readiness_layers}
use options_anomaly_scanner.Confirmation.Candidate.{Evaluation, build_execution_state}
use options_anomaly_scanner.Confirmation.Materialize.{Archive, materialize_contracts}
use options_anomaly_scanner.Confirmation.Materialize.Once.{
  IsOncePerEvaluation, materialize-IsOncePerEvaluation, materialize_again,
}

whole_asym : (a b : ℕ) → ltb a b ≡ true → ltb b a ≡ false
whole_asym a b h = ground arith

-- Whole numbers with the tolerance zero; no text is a number.
abbrev whole : Floats ℕ
whole = record {
  lt = ltb;
  zero_value = 0;
  three_value = 3;
  near = λ a b. a == b;
  minus = λ a b. a - b;
  mean = λ a b. (a + b) / 2;
  float_text = λ t. none;
  lt_asym = whole_asym;
}

-- Whole numbers and NaN, which is not smaller than, greater than or near anything.
abbrev nan_lt : Option ℕ → Option ℕ → Bool
nan_lt (some a) (some b) = ltb a b
nan_lt (some a) none = false
nan_lt none b = false

nan_asym : (a b : Option ℕ) → nan_lt a b ≡ true → nan_lt b a ≡ false
nan_asym (some a) (some b) h = ground arith
nan_asym (some a) none h = refl
nan_asym none (some b) h = refl
nan_asym none none h = refl

abbrev nan_near : Option ℕ → Option ℕ → Bool
nan_near (some a) (some b) = a == b
nan_near (some a) none = false
nan_near none b = false

abbrev with_nan : Floats (Option ℕ)
with_nan = record {
  lt = nan_lt;
  zero_value = some 0;
  three_value = some 3;
  near = nan_near;
  minus = λ a b. none;
  mean = λ a b. none;
  float_text = λ t. if string_eq.beq t "nan" then some none else none;
  lt_asym = nan_asym;
}

topology_shape_example :
    classify_term_topology with_nan (number (some 30)) (number (some 42)) (number (some 35)) ≡ (
      if is_flat with_nan (some 30) (some 42) (some 35)
      then flat_or_equal
      else shape (ltb 30 42) (ltb 35 42))
unfolding number_of
topology_shape_example =
    topology_shape with_nan (number (some 30)) (number (some 42)) (number (some 35)) (some 30)
      (some 42) (some 35) refl refl refl

peak_classified :
    classify_term_topology with_nan (number (some 30)) (number (some 42)) (number (some 35))
    ≡ local_peak
unfolding classify_term_topology topology_of number_of
peak_classified = refl

nan_is_flat :
    classify_term_topology with_nan (text "nan") (number (some 42)) (number (some 35))
    ≡ flat_or_equal
unfolding classify_term_topology topology_of number_of
nan_is_flat = refl

abbrev evidence : Fields ℕ
evidence = field "contract_persistence" (number 81) (field "structure_score" null no_fields)

abbrev no_history : History ℕ
no_history = record { confidence = none; count = null }

evidence_families_example :
    let st = build_positioning_state whole evidence ("RADAR_EVENT" ∷ []) no_history no_history [] in
    (In radar_event_family st.present_evidence_families
      ↔ (is_present (state_of radar_event_family st.presence_states) ≡ true))
    × (st.evidence_family_count ≡ length st.present_evidence_families)
    × (st.evidence_family_count ≤ 5)
    × (st.evidence_breadth ≡ (
        if st.evidence_family_count == 0
        then no_evidence
        else if st.evidence_family_count == 1
        then single_evidence
        else multi_evidence))
evidence_families_example =
    evidence_families whole evidence ("RADAR_EVENT" ∷ []) no_history no_history []
      radar_event_family

readiness_layers_example :
    let p = build_positioning_state whole evidence [] no_history no_history [] in
    let pr = build_price_state {N = ℕ} no_fields in
    let v = build_volatility_state whole no_fields no_fields in
    let d = build_dealer_state whole no_fields in
    let e = build_execution_state {N = ℕ} no_fields none in
    let r = build_research_readiness whole p pr v d e in
    let count = r.missing_or_degraded_count in
    (count
      ≡ bit (positioning_ready whole p)
        + (bit (price_ready whole pr)
            + (bit (iv_ready whole v)
                + (bit (term_ready whole v)
                    + (bit (dealer_ready whole d) + bit (execution_ready whole e))))))
    × (r.state ≡ (
        if count == 0
        then context_complete
        else if count == 1
        then context_partial
        else context_limited))
    × (length r.missing_or_degraded_layers ≡ count)
    × (length r.why ≡ count)
readiness_layers_example =
    readiness_layers whole (build_positioning_state whole evidence [] no_history no_history [])
      (build_price_state no_fields) (build_volatility_state whole no_fields no_fields)
      (build_dealer_state whole no_fields) (build_execution_state no_fields none)

abbrev evaluation : Evaluation ℕ
evaluation = record {
  id = 7;
  contract_symbol = "AAPL250620C00200000";
  ticker = "AAPL";
  expiration = 739422;
  right = "C";
  ticker_context_id = 3;
  trigger_sources = "RADAR_EVENT" ∷ [];
  phase2a_evidence = evidence;
  volatility_context = no_fields;
  dealer_context = no_fields;
  execution_context = no_fields;
  source_timestamps = null;
  specification_version = "signal_spec_v1.3";
  config_version = "phase2b_v1";
  config_hash = "a1";
}

abbrev archive : Archive ℕ
archive = record {
  latest_evaluation = λ symbol. some evaluation;
  ticker_context = λ id. some (record { id = id; price_context = no_fields; iv_rank = no_fields });
  latest_contract = λ symbol. none;
  latest_expiry = λ ticker expiration. none;
  strike_clusters = λ ticker expiration right. [];
}

abbrev symbols : List String
symbols = "AAPL250620C00200000" ∷ "AAPL250620C00200000" ∷ []

abbrev ids : ℕ → ℕ
ids n = 100 + n

materialize-IsOncePerEvaluation_example :
    IsOncePerEvaluation (materialize_contracts whole archive "c0" 5000 ids symbols []).1
materialize-IsOncePerEvaluation_example =
    materialize-IsOncePerEvaluation whole archive "c0" 5000 ids symbols [] tt

materialize_again_example :
    let first = (materialize_contracts whole archive "c0" 5000 ids symbols []).1 in
    let second = materialize_contracts whole archive "c0" 6000 ids symbols first in
    (second.0.created ≡ 0) × (second.1 ≡ first)
materialize_again_example = materialize_again whole archive "c0" 5000 6000 ids ids symbols []
