-- ===== src/Research/Path.antt =====
-- calculate_close_path_outcome of backend/app/research/forward_outcome.py, over decimals as a type
-- with the operations that it calls.
pub mod Bracket
use Prim.Native.String.{String}
use options_anomaly_scanner.Prelude.{
  Bool, true, false, not, ◌&&◌, ◌||◌, Option, none, some, List, [], ◌∷◌, if◌then◌else◌, all_by,
  any_by, is_some,
}
use options_anomaly_scanner.Prelude.Eq.{string_eq}
use options_anomaly_scanner.Prelude.Result.{Result, ok, err, raised, raise_if, ◌>>=◌, ◌>>◌}

pub data CorporateActionBasisStatus : Type 0 where
  proven_consistent : CorporateActionBasisStatus
  raw_unadjusted : CorporateActionBasisStatus
  unconfirmed : CorporateActionBasisStatus
  mismatched : CorporateActionBasisStatus

pub record PriceBasis : Type 0 where
  pub basis_id : Option String
  pub corporate_action_status : CorporateActionBasisStatus

-- The session and the provenance of a close are not read. V is a number or a text.
pub record ClosePriceEvidence (V : Type 0) : Type 0 where
  pub close : Option V
  pub basis : PriceBasis

pub record OutcomeMetrics (D : Type 0) : Type 0 where
  pub close_return : D
  pub max_upside : D
  pub max_downside : D

-- decimal.Decimal on finite values: the order, zero, Decimal(str(value)), and a / b - 1.
pub record Decimals (V D : Type 0) : Type 0 where
  pub lt : D → D → Bool
  pub zero_value : D
  pub decimal : V → Option D
  pub return_over : D → D → D

abbrev same_status : CorporateActionBasisStatus → CorporateActionBasisStatus → Bool
same_status proven_consistent proven_consistent = true
same_status raw_unadjusted raw_unadjusted = true
same_status unconfirmed unconfirmed = true
same_status mismatched mismatched = true
same_status _ _ = false

abbrev is_allowed : CorporateActionBasisStatus → Bool
is_allowed proven_consistent = true
is_allowed raw_unadjusted = true
is_allowed _ = false

-- The identifier is there, is not empty, and is the one of the reference.
abbrev shares_id : Option String → Option String → Bool
shares_id none _ = false
shares_id (some i) none = false
shares_id (some i) (some j) = not (string_eq.beq i "") && string_eq.beq i j

module _ {V : Type 0} where
  abbrev has_status : CorporateActionBasisStatus → ClosePriceEvidence V → Bool
  has_status status item = same_status item.basis.corporate_action_status status

  abbrev has_id : Option String → ClosePriceEvidence V → Bool
  has_id id item = shares_id item.basis.basis_id id

  -- _require_consistent_price_basis of the reference and the closes after it
  unfoldable pub require_consistent_price_basis :
      ClosePriceEvidence V → List (ClosePriceEvidence V) → Result (Unit {0})
  unfolding all_by
  require_consistent_price_basis reference closes =
      let status = reference.basis.corporate_action_status in
      let id = reference.basis.basis_id in
      do
        raise_if (not (is_allowed status && all_by (has_status status) closes))
            (raised "Every Close must share one explicit proven or raw/unadjusted price basis")
        raise_if (not (shares_id id id && all_by (has_id id) closes))
            (raised "Reference and future Closes do not share one proven price basis")
        ok tt

  abbrev pub is_missing : ClosePriceEvidence V → Bool
  is_missing item = not (is_some item.close)

  -- The closes that are there; the code has returned None where one is missing.
  abbrev and_value : Option V → List V → List V
  and_value none vs = vs
  and_value (some v) vs = v ∷ vs

  abbrev pub values : List (ClosePriceEvidence V) → List V
  values [] = []
  values (item ∷ rest) = and_value item.close (values rest)

abbrev numeric : {D : Type 0} → Option D → Result D
numeric none = err (raised "Close must be numeric")
numeric (some d) = ok d

module _ {V D : Type 0} (dec : Decimals V D) where
  unfoldable pub decimal_of : V → Result D
  decimal_of v = numeric (dec.decimal v)

  unfoldable pub decimals_of : List V → Result (List D)
  unfolding decimal_of
  decimals_of [] = ok []
  decimals_of (v ∷ rest) = do d ← decimal_of v; ds ← decimals_of rest; ok (d ∷ ds)

  -- max(...) and min(...): the first of the greatest and of the smallest, from the first item on
  unfoldable pub max_from : D → List D → D
  max_from best [] = best
  max_from best (d ∷ rest) = max_from (if dec.lt best d then d else best) rest

  unfoldable pub min_from : D → List D → D
  min_from best [] = best
  min_from best (d ∷ rest) = min_from (if dec.lt d best then d else best) rest

  -- closes[-1]
  unfoldable pub last_from : D → List D → D
  last_from target [] = target
  last_from target (d ∷ rest) = last_from d rest

  unfoldable pub metrics_of : D → List D → Option (OutcomeMetrics D)
  unfolding max_from min_from last_from
  metrics_of reference [] = none
  metrics_of reference (d ∷ rest) = some (record {
    close_return = dec.return_over reference (last_from d rest);
    max_upside = dec.return_over reference (max_from d rest);
    max_downside = dec.return_over reference (min_from d rest);
  })

  unfoldable pub outcome_of :
      ClosePriceEvidence V → V → List (ClosePriceEvidence V) → Result (Option (OutcomeMetrics D))
  unfolding require_consistent_price_basis decimal_of decimals_of metrics_of
  outcome_of reference close future_closes = do
    require_consistent_price_basis reference future_closes
    reference_value ← decimal_of close
    raise_if (not (dec.lt dec.zero_value reference_value))
        (raised "Reference Close must be positive")
    closes ← decimals_of (values future_closes)
    ok (metrics_of reference_value closes)

  unfoldable pub outcome_from :
      ClosePriceEvidence V
      → Option V
      → List (ClosePriceEvidence V)
      → Result (Option (OutcomeMetrics D))
  unfolding outcome_of any_by
  outcome_from reference none future_closes = ok none
  outcome_from reference (some close) [] = ok none
  outcome_from reference (some close) (first ∷ rest) =
      if any_by is_missing (first ∷ rest)
      then ok none
      else outcome_of reference close (first ∷ rest)

  unfoldable pub calculate_close_path_outcome :
      ClosePriceEvidence V → List (ClosePriceEvidence V) → Result (Option (OutcomeMetrics D))
  unfolding outcome_from
  calculate_close_path_outcome reference future_closes =
      outcome_from reference reference.close future_closes
