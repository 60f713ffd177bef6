-- ===== src/Confirmation/Materialize.antt =====
-- backend/app/confirmation/state_v2.py, Phase2bV2StateService: one state per evaluation and
-- specification version, materialized from the archive.
pub mod Once
use Prim.Native.String.{String}
use options_anomaly_scanner.Prelude.{
  ℕ, suc, ◌+◌, Bool, true, false, not, ◌&&◌, Option, none, some, List, [], ◌∷◌, ◌++◌, ◌==◌,
  if◌then◌else◌, find_by, filter_by, any_by, leb,
}
use options_anomaly_scanner.Prelude.Eq.{string_eq}
use options_anomaly_scanner.Prelude.Distinct.{distinct_from}
use options_anomaly_scanner.Prelude.Json.{Json}
use options_anomaly_scanner.Prelude.Floats.{Floats}
use options_anomaly_scanner.Confirmation.Candidate.{
  Evaluation, TickerContext, ContractRow, ExpiryRow, ClusterRow, CandidateState,
  build_candidate_state,
}

abbrev pub phase2b_v2_spec_version : String
phase2b_v2_spec_version = "signal_spec_v2.0_phase2b"

abbrev state_config_version : String
state_config_version = "phase2b_v2_state_config_v1"

-- The tables that the service reads, by its queries: the latest row by the time of evaluation or of
-- observation, and rows by key.
pub record Archive (N : Type 0) : Type 0 where
  pub latest_evaluation : String → Option (Evaluation N)
  pub ticker_context : ℕ → Option (TickerContext N)
  pub latest_contract : String → Option (ContractRow N)
  pub latest_expiry : (ticker : String) (expiration : ℕ) → Option (ExpiryRow N)
  pub strike_clusters : (ticker : String) (expiration : ℕ) (right : String) → List (ClusterRow N)

pub record Phase2aProvenance (N : Type 0) : Type 0 where
  pub candidate_evaluation_id : ℕ
  pub ticker_context_id : ℕ
  pub contract_observation_id : Option ℕ
  pub expiry_observation_id : Option ℕ
  pub exact_cluster_ids : List ℕ
  pub trigger_sources : List String
  pub source_timestamps : Json N

-- Phase2bCandidateState
pub record StateRow (N : Type 0) : Type 0 where
  pub id : ℕ
  pub candidate_evaluation_id : ℕ
  pub ticker_context_id : ℕ
  pub contract_symbol : String
  pub ticker : String
  pub evaluated_at : ℕ
  pub state : CandidateState N
  pub phase2a_provenance : Phase2aProvenance N
  pub specification_version : String
  pub source_context_specification_version : String
  pub config_version : String
  pub config_hash : String
  pub context_config_version : String
  pub context_config_hash : String

pub record StateBuildSummary : Type 0 where
  pub created : ℕ
  pub reused : ℕ
  pub missing : List String
  pub state_ids : List ℕ

-- What one symbol comes to.
pub data Outcome (N : Type 0) : Type 0 where
  lacking : Outcome N
  existing : StateRow N → Outcome N
  buildable : Evaluation N → TickerContext N → Outcome N

contains_id : List ℕ → ℕ → Bool
unfolding any_by
contains_id ids n = any_by (λ i. i == n) ids

module _ {N : Type 0} where
  abbrev pub is_state_of : ℕ → StateRow N → Bool
  is_state_of evaluation_id row =
      row.candidate_evaluation_id == evaluation_id
      && string_eq.beq row.specification_version phase2b_v2_spec_version

  -- select(Phase2bCandidateState).where(evaluation, version)
  abbrev pub find_state : ℕ → List (StateRow N) → Option (StateRow N)
  find_state evaluation_id = find_by (is_state_of evaluation_id)

  unfoldable pub context_outcome : Evaluation N → Option (TickerContext N) → Outcome N
  context_outcome evaluation none = lacking
  context_outcome evaluation (some context) = buildable evaluation context

  unfoldable pub state_outcome : Archive N → Evaluation N → Option (StateRow N) → Outcome N
  unfolding context_outcome
  state_outcome archive evaluation (some row) = existing row
  state_outcome archive evaluation none =
      context_outcome evaluation (archive.ticker_context evaluation.ticker_context_id)

  unfoldable pub evaluation_outcome :
      Archive N → Option (Evaluation N) → List (StateRow N) → Outcome N
  unfolding state_outcome
  evaluation_outcome archive none states = lacking
  evaluation_outcome archive (some evaluation) states =
      state_outcome archive evaluation (find_state evaluation.id states)

  abbrev pub symbol_outcome : Archive N → String → List (StateRow N) → Outcome N
  symbol_outcome archive symbol states =
      evaluation_outcome archive (archive.latest_evaluation symbol) states

  exact_clusters : Option (ContractRow N) → List (ClusterRow N) → List (ClusterRow N)
  unfolding filter_by contains_id
  exact_clusters none clusters = []
  exact_clusters (some contract) clusters =
      filter_by (λ row. contains_id row.source_contract_ids contract.id) clusters

  cluster_ids : List (ClusterRow N) → List ℕ
  cluster_ids [] = []
  cluster_ids (row ∷ rest) = row.id ∷ cluster_ids rest

  contract_id : Option (ContractRow N) → Option ℕ
  contract_id none = none
  contract_id (some c) = some c.id

  expiry_id : Option (ExpiryRow N) → Option ℕ
  expiry_id none = none
  expiry_id (some e) = some e.id

-- `config_hash` is state_config_hash(), a constant of the running program, `now` the clock, and
-- `new_id` the identifier that the database gives to the row.
module _ {N : Type 0} (f : Floats N) (archive : Archive N) (config_hash : String) (now : ℕ)
    (new_id : ℕ → ℕ) where
  unfoldable pub state_row : String → Evaluation N → TickerContext N → ℕ → StateRow N
  unfolding exact_clusters cluster_ids contract_id expiry_id
  state_row symbol evaluation context id =
      let contract = archive.latest_contract symbol in
      let expiry = archive.latest_expiry evaluation.ticker evaluation.expiration in
      let exact =
        exact_clusters contract
          (archive.strike_clusters evaluation.ticker evaluation.expiration evaluation.right) in
      record {
        id = id;
        candidate_evaluation_id = evaluation.id;
        ticker_context_id = context.id;
        contract_symbol = evaluation.contract_symbol;
        ticker = evaluation.ticker;
        evaluated_at = now;
        state = build_candidate_state f evaluation context contract expiry exact;
        phase2a_provenance = record {
          candidate_evaluation_id = evaluation.id;
          ticker_context_id = context.id;
          contract_observation_id = contract_id contract;
          expiry_observation_id = expiry_id expiry;
          exact_cluster_ids = cluster_ids exact;
          trigger_sources = evaluation.trigger_sources;
          source_timestamps = evaluation.source_timestamps;
        };
        specification_version = phase2b_v2_spec_version;
        source_context_specification_version = evaluation.specification_version;
        config_version = state_config_version;
        config_hash = config_hash;
        context_config_version = evaluation.config_version;
        context_config_hash = evaluation.config_hash;
      }

  -- The body of the loop: the summary and the table of states after one symbol.
  unfoldable pub apply_outcome :
      String
      → Outcome N
      → StateBuildSummary × List (StateRow N)
      → StateBuildSummary × List (StateRow N)
  unfolding state_row
  apply_outcome symbol lacking (sum, states) =
      (record sum { missing = sum.missing ++ symbol ∷ [] }, states)
  apply_outcome symbol (existing row) (sum, states) =
      (record sum { reused = suc sum.reused; state_ids = sum.state_ids ++ row.id ∷ [] }, states)
  apply_outcome symbol (buildable evaluation context) (sum, states) =
      let row = state_row symbol evaluation context (new_id sum.created) in
      (
        record sum { created = suc sum.created; state_ids = sum.state_ids ++ row.id ∷ [] },
        row ∷ states,
      )

  unfoldable pub materialize_from :
      List String → StateBuildSummary × List (StateRow N) → StateBuildSummary × List (StateRow N)
  unfolding apply_outcome
  materialize_from [] p = p
  materialize_from (symbol ∷ rest) p =
      materialize_from rest (apply_outcome symbol (symbol_outcome archive symbol p.1) p)

  unfoldable pub materialize_contracts :
      List String → List (StateRow N) → StateBuildSummary × List (StateRow N)
  unfolding materialize_from distinct_from any_by
  materialize_contracts symbols states =
      materialize_from (distinct_from [] symbols)
        (record { created = 0; reused = 0; missing = []; state_ids = [] }, states)
