-- ===== src/Confirmation/Candidate.antt =====
-- backend/app/confirmation/state_v2.py, build_candidate_state: the archived rows that a state is
-- built from, and the state. The rows hold the columns that the code reads.
use Prim.Native.String.{String}
use options_anomaly_scanner.Prelude.{ℕ, Option, none, some, List, [], ◌∷◌}
use options_anomaly_scanner.Prelude.Json.{Json, Fields, null, get}
use options_anomaly_scanner.Prelude.Floats.{Floats, number_of}
use options_anomaly_scanner.Confirmation.States.{
  VolatilityState, DealerState, PriceState, build_volatility_state, build_dealer_state,
  build_price_state,
}
use options_anomaly_scanner.Confirmation.Positioning.{
  PositioningState, ClusterMembership, History, build_positioning_state,
}
use options_anomaly_scanner.Confirmation.Readiness.{
  ExecutionState, ResearchReadiness, build_research_readiness,
}

-- Phase2bCandidateEvaluation
pub record Evaluation (N : Type 0) : Type 0 where
  pub id : ℕ
  pub contract_symbol : String
  pub ticker : String
  pub expiration : ℕ
  pub right : String
  pub ticker_context_id : ℕ
  pub trigger_sources : List String
  pub phase2a_evidence : Fields N
  pub volatility_context : Fields N
  pub dealer_context : Fields N
  pub execution_context : Fields N
  pub source_timestamps : Json N
  pub specification_version : String
  pub config_version : String
  pub config_hash : String

-- Phase2bTickerContextSnapshot
pub record TickerContext (N : Type 0) : Type 0 where
  pub id : ℕ
  pub price_context : Fields N
  pub iv_rank : Fields N

-- ContractScanObservation; a column that may be NULL and is read as `x or {}` is an empty dict.
pub record ContractRow (N : Type 0) : Type 0 where
  pub id : ℕ
  pub history_confidence : Option String
  pub history_observation_count : Json N
  pub structure_components : Fields N
  pub risk_flags : List String
  pub hard_reject_reason : Json N

-- ExpiryObservation
pub record ExpiryRow (N : Type 0) : Type 0 where
  pub id : ℕ
  pub history_confidence : Option String
  pub persistent_components : Fields N

-- StrikeCluster
pub record ClusterRow (N : Type 0) : Type 0 where
  pub id : ℕ
  pub right : String
  pub cluster_score : Json N
  pub classification : String
  pub source_contract_ids : List ℕ

pub data Direction : Type 0 where
  unresolved : Direction

pub record CandidateState (N : Type 0) : Type 0 where
  pub positioning : PositioningState N
  pub price : PriceState N
  pub volatility : VolatilityState N
  pub dealer_gex : DealerState N
  pub execution : ExecutionState N
  pub research_readiness : ResearchReadiness N
  pub direction : Direction

unfoldable pub build_execution_state :
    {N : Type 0} → Fields N → Option (ContractRow N) → ExecutionState N
build_execution_state execution none = record {
  execution = execution;
  accepted_liquidity_component = null;
  accepted_risk_flags = [];
  accepted_hard_reject_reason = null;
}
build_execution_state execution (some contract) = record {
  execution = execution;
  accepted_liquidity_component = get "liquidity_quality" contract.structure_components;
  accepted_risk_flags = contract.risk_flags;
  accepted_hard_reject_reason = contract.hard_reject_reason;
}

contract_history : {N : Type 0} → Option (ContractRow N) → History N
contract_history none = record { confidence = none; count = null }
contract_history (some c) = record {
  confidence = c.history_confidence;
  count = c.history_observation_count;
}

expiry_history : {N : Type 0} → Option (ExpiryRow N) → History N
expiry_history none = record { confidence = none; count = null }
expiry_history (some e) = record {
  confidence = e.history_confidence;
  count = get "history_observation_count" e.persistent_components;
}

module _ {N : Type 0} (f : Floats N) where
  cluster_evidence : List (ClusterRow N) → List (ClusterMembership N)
  cluster_evidence [] = []
  cluster_evidence (row ∷ rest) =
      record {
        cluster_id = row.id;
        right = row.right;
        score = number_of f row.cluster_score;
        classification = row.classification;
      }
      ∷ cluster_evidence rest

  unfoldable pub build_candidate_state :
      Evaluation N
      → TickerContext N
      → Option (ContractRow N)
      → Option (ExpiryRow N)
      → List (ClusterRow N)
      → CandidateState N
  unfolding cluster_evidence contract_history expiry_history build_execution_state
  build_candidate_state evaluation context contract expiry exact_clusters =
      let positioning =
        build_positioning_state f evaluation.phase2a_evidence evaluation.trigger_sources
          (contract_history contract) (expiry_history expiry) (cluster_evidence exact_clusters) in
      let price = build_price_state context.price_context in
      let volatility = build_volatility_state f context.iv_rank evaluation.volatility_context in
      let dealer = build_dealer_state f evaluation.dealer_context in
      let execution = build_execution_state evaluation.execution_context contract in
      record {
        positioning = positioning;
        price = price;
        volatility = volatility;
        dealer_gex = dealer;
        execution = execution;
        research_readiness =
            build_research_readiness f positioning price volatility dealer execution;
        direction = unresolved;
      }
