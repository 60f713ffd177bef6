-- ===== src/Confirmation/Readiness.antt =====
-- backend/app/confirmation/state_v2.py: the readiness of the research context, layer by layer.
pub mod Layers
use Prim.Native.String.{String}
use options_anomaly_scanner.Prelude.{
  ℕ, ◌≡◌, Bool, true, false, not, ◌&&◌, ◌||◌, Option, none, some, List, [], ◌∷◌, ltb, if◌then◌else◌,
  length, is_some, map, zero, suc,
}
use options_anomaly_scanner.Prelude.Json.{Json, Fields, get, is_text}
use options_anomaly_scanner.Prelude.Floats.{Floats, number_of, present_number, truthy}
use options_anomaly_scanner.Confirmation.States.{
  VolatilityState, DealerState, PriceState, GexSign, unknown, positive_net_gex, negative_net_gex,
  zero_net_gex,
}
use options_anomaly_scanner.Confirmation.Positioning.{PositioningState}

pub data LayerName : Type 0 where
  positioning : LayerName
  price : LayerName
  iv_rank : LayerName
  candidate_term : LayerName
  dealer_gex : LayerName
  execution : LayerName

pub data LayerStatus : Type 0 where
  ready : LayerStatus
  degraded : LayerStatus
  not_ready : LayerStatus

-- A layer's reason; that of the price layer is its availability as text.
pub data Reason (N : Type 0) : Type 0 where
  phase2a_provenance_present : Reason N
  no_phase2a_positioning_evidence : Reason N
  price_availability : Json N → Reason N
  valid_value_and_as_of : Reason N
  missing_value_or_as_of : Reason N
  exact_candidate_node : Reason N
  exact_candidate_node_missing : Reason N
  exact_cell_complete_source : Reason N
  exact_cell_degraded_source : Reason N
  exact_usable_cell_missing : Reason N
  phase2a_execution_evidence_present : Reason N
  execution_or_greeks_missing : Reason N

pub record Layer (N : Type 0) : Type 0 where
  pub name : LayerName
  pub status : LayerStatus
  pub reason : Reason N

pub data ContextState : Type 0 where
  context_complete : ContextState
  context_partial : ContextState
  context_limited : ContextState

pub record ResearchReadiness (N : Type 0) : Type 0 where
  pub state : ContextState
  pub layers : List (Layer N)
  pub missing_or_degraded_count : ℕ
  pub missing_or_degraded_layers : List LayerName
  pub why : List (Reason N)

-- dict(execution), with the accepted components beside it.
pub record ExecutionState (N : Type 0) : Type 0 where
  pub execution : Fields N
  pub accepted_liquidity_component : Json N
  pub accepted_risk_flags : List String
  pub accepted_hard_reject_reason : Json N

abbrev pub ready_if : Bool → LayerStatus
ready_if true = ready
ready_if false = not_ready

abbrev pub is_ready : LayerStatus → Bool
is_ready ready = true
is_ready degraded = false
is_ready not_ready = false

abbrev pub is_unknown : GexSign → Bool
is_unknown unknown = true
is_unknown positive_net_gex = false
is_unknown negative_net_gex = false
is_unknown zero_net_gex = false

-- [name for name, item in layers.items() if item["status"] != "READY"]
unfoldable pub missing_layers : {N : Type 0} → List (Layer N) → List (Layer N)
missing_layers [] = []
missing_layers (l ∷ rest) =
    let others = missing_layers rest in if is_ready l.status then others else l ∷ others

abbrev pub context_of : ℕ → ContextState
context_of zero = context_complete
context_of (suc zero) = context_partial
context_of (suc (suc n)) = context_limited

abbrev pub names : {N : Type 0} → List (Layer N) → List LayerName
names [] = []
names (l ∷ ls) = l.name ∷ names ls

abbrev pub reasons : {N : Type 0} → List (Layer N) → List (Reason N)
reasons [] = []
reasons (l ∷ ls) = l.reason ∷ reasons ls

-- The conditions of the six layers.
module _ {N : Type 0} (f : Floats N) where
  abbrev pub positioning_ready : PositioningState N → Bool
  positioning_ready p = ltb 0 p.evidence_family_count

  abbrev pub price_ready : PriceState N → Bool
  price_ready p = is_text "AVAILABLE" p.availability || is_text "AVAILABLE_WITH_GAPS" p.availability

  unfoldable pub iv_ready : VolatilityState N → Bool
  iv_ready v = is_some v.iv_rank && (truthy f v.iv_rank_vendor_date || truthy f v.iv_rank_as_of)

  abbrev pub term_ready : VolatilityState N → Bool
  term_ready v = is_text "EXACT_MATCH" v.exact_match_status && is_some v.candidate_iv

  abbrev pub dealer_exact : DealerState N → Bool
  dealer_exact d = is_text "EXACT_MATCH" d.candidate_cell_status && not (is_unknown d.sign)

  abbrev pub dealer_ready : DealerState N → Bool
  dealer_ready d = dealer_exact d && is_text "AVAILABLE" d.source_quality

  abbrev pub dealer_degraded : DealerState N → Bool
  dealer_degraded d =
      dealer_exact d
      && (is_text "AVAILABLE_DEGRADED" d.source_quality
          || is_text "INCOMPLETE_OR_TRUNCATED" d.source_quality)

  unfoldable pub execution_ready : ExecutionState N → Bool
  execution_ready e =
      is_text "AVAILABLE" (get "availability" e.execution)
      && present_number f (get "bid" e.execution)
      && present_number f (get "ask" e.execution)
      && present_number f (get "delta" e.execution)

  unfoldable pub layers_of :
      PositioningState N
      → PriceState N
      → VolatilityState N
      → DealerState N
      → ExecutionState N
      → List (Layer N)
  layers_of p pr v d e =
      record {
        name = positioning;
        status = ready_if (positioning_ready p);
        reason =
            if positioning_ready p
            then phase2a_provenance_present
            else no_phase2a_positioning_evidence;
      }
      ∷ record {
        name = price;
        status = ready_if (price_ready pr);
        reason = price_availability pr.availability;
      }
      ∷ record {
        name = iv_rank;
        status = ready_if (iv_ready v);
        reason = if iv_ready v then valid_value_and_as_of else missing_value_or_as_of;
      }
      ∷ record {
        name = candidate_term;
        status = ready_if (term_ready v);
        reason = if term_ready v then exact_candidate_node else exact_candidate_node_missing;
      }
      ∷ record {
        name = dealer_gex;
        status =
            if dealer_ready d then ready else if dealer_degraded d then degraded else not_ready;
        reason =
            if dealer_ready d
            then exact_cell_complete_source
            else if dealer_degraded d
            then exact_cell_degraded_source
            else exact_usable_cell_missing;
      }
      ∷ record {
        name = execution;
        status = ready_if (execution_ready e);
        reason =
            if execution_ready e
            then phase2a_execution_evidence_present
            else execution_or_greeks_missing;
      }
      ∷ []

  unfoldable pub build_research_readiness :
      PositioningState N
      → PriceState N
      → VolatilityState N
      → DealerState N
      → ExecutionState N
      → ResearchReadiness N
  unfolding missing_layers layers_of
  build_research_readiness p pr v d e =
      let layers = layers_of p pr v d e in
      let missing = missing_layers layers in
      record {
        state = context_of (length missing);
        layers = layers;
        missing_or_degraded_count = length missing;
        missing_or_degraded_layers = names missing;
        why = reasons missing;
      }
