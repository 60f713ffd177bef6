-- ===== src/Confirmation/Readiness/Layers.antt =====
-- build_research_readiness of backend/app/confirmation/state_v2.py by its six layers.
use options_anomaly_scanner.Prelude.{
  ℕ, zero, suc, ◌+◌, ◌≡◌, refl, Bool, true, false, List, [], ◌∷◌, arith, if◌then◌else◌, length,
  ◌==◌,
}
use options_anomaly_scanner.Prelude.Floats.{Floats}
use options_anomaly_scanner.Confirmation.States.{VolatilityState, DealerState, PriceState}
use options_anomaly_scanner.Confirmation.Positioning.{PositioningState}
use options_anomaly_scanner.Confirmation.Readiness.{
  ExecutionState, context_complete, context_partial, context_limited, context_of, missing_layers,
  layers_of, build_research_readiness, positioning_ready, price_ready, iv_ready, term_ready,
  dealer_ready, dealer_degraded, execution_ready, is_ready, Layer, names, reasons, ready_if, ready,
  degraded, not_ready,
}

abbrev pub bit : Bool → ℕ
bit true = 0
bit false = 1

context_of-count :
    (n : ℕ)
    → context_of n
      ≡ (if n == 0 then context_complete else if n == 1 then context_partial else context_limited)
context_of-count zero = refl
context_of-count (suc zero) = refl
context_of-count (suc (suc n)) = ground arith

module _ {N : Type 0} where
  abbrev not_ready_count : List (Layer N) → ℕ
  not_ready_count [] = 0
  not_ready_count (l ∷ ls) = bit (is_ready l.status) + not_ready_count ls

  length-missing_layers : (ls : List (Layer N)) → length (missing_layers ls) ≡ not_ready_count ls
  unfolding missing_layers
  length-missing_layers [] = refl
  length-missing_layers (l ∷ ls) = ground (arith, length-missing_layers ls)

  length-names : (ls : List (Layer N)) → length (names ls) ≡ length ls
  length-names [] = refl
  length-names (l ∷ ls) = omega (arith, length-names ls)

  length-reasons : (ls : List (Layer N)) → length (reasons ls) ≡ length ls
  length-reasons [] = refl
  length-reasons (l ∷ ls) = omega (arith, length-reasons ls)

bit-ready_if : (b : Bool) → bit (is_ready (ready_if b)) ≡ bit b
bit-ready_if true = refl
bit-ready_if false = refl

bit-dealer :
    (b c : Bool) → bit (is_ready (if b then ready else if c then degraded else not_ready)) ≡ bit b
bit-dealer true c = refl
bit-dealer false true = refl
bit-dealer false false = refl

module _ {N : Type 0} (f : Floats N) where
  -- The number of missing or degraded layers is the number of the six conditions that fail, a
  -- degraded dealer surface counting as missing; the state is complete, partial or limited as that
  -- number is zero, one or more; and each missing layer has one reason.
  pub readiness_layers :
      (p : PositioningState N) (pr : PriceState N) (v : VolatilityState N) (d : DealerState N)
      (e : ExecutionState N)
      → let r = build_research_readiness f p pr v d e in
        let count = r.missing_or_degraded_count in
        (count
          ≡ bit (positioning_ready f p)
            + (bit (price_ready f pr)
                + (bit (iv_ready f v)
                    + (bit (term_ready f v)
                        + (bit (dealer_ready f d) + bit (execution_ready f e))))))
        × (r.state ≡ (
            if count == 0
            then context_complete
            else if count == 1
            then context_partial
            else context_limited))
        × (length r.missing_or_degraded_layers ≡ count)
        × (length r.why ≡ count)
  unfolding build_research_readiness layers_of
  readiness_layers p pr v d e =
      let ls = missing_layers (layers_of f p pr v d e) in
      (count-layers, context_of-count _, length-names ls, length-reasons ls)
    where
      count-layers :
          length (missing_layers (layers_of f p pr v d e))
          ≡ bit (positioning_ready f p)
            + (bit (price_ready f pr)
                + (bit (iv_ready f v)
                    + (bit (term_ready f v)
                        + (bit (dealer_ready f d) + bit (execution_ready f e)))))
      count-layers = omega (
        arith,
        length-missing_layers (layers_of f p pr v d e),
        bit-ready_if (positioning_ready f p),
        bit-ready_if (price_ready f pr),
        bit-ready_if (iv_ready f v),
        bit-ready_if (term_ready f v),
        bit-dealer (dealer_ready f d) (dealer_degraded f d),
        bit-ready_if (execution_ready f e),
      )
