-- ===== src/Research/Path/Bracket.antt =====
-- The metrics of calculate_close_path_outcome of backend/app/research/forward_outcome.py.
use options_anomaly_scanner.Prelude.{
  ◌≡◌, refl, inl, inr, true, false, some, List, [], ◌∷◌, any_by, Bool-cases,
}
use options_anomaly_scanner.Prelude.Result.{ok}
use options_anomaly_scanner.Research.Path.{
  ClosePriceEvidence, OutcomeMetrics, Decimals, require_consistent_price_basis, is_missing, values,
  decimal_of, decimals_of, max_from, min_from, last_from, metrics_of, outcome_of, outcome_from,
  calculate_close_path_outcome,
}

-- Decimals are ordered, and dividing by a positive number, which rounds correctly, keeps the order.
pub record DecimalLaws {V D : Type 0} (dec : Decimals V D) : Type 0 where
  pub lt_irrefl : (a : D) → dec.lt a a ≡ false
  pub return_mono :
      (r a b : D)
      → dec.lt dec.zero_value r ≡ true
      → dec.lt a b ≡ false
      → dec.lt (dec.return_over r a) (dec.return_over r b) ≡ false

module _ {V D : Type 0} (dec : Decimals V D) (laws : DecimalLaws dec) where
  last-max_from :
      (best l : D) (xs : List D)
      → dec.lt best l ≡ false
      → dec.lt (max_from dec best xs) (last_from dec l xs) ≡ false
  unfolding max_from last_from
  last-max_from best l [] h = h
  last-max_from best l (x ∷ xs) h = elim (Bool-cases (dec.lt best x)) [
    | inl more ↦ rw more (last-max_from x x xs (laws.lt_irrefl x))
    | inr less ↦ rw less (last-max_from best x xs less)
  ]

  last-min_from :
      (best l : D) (xs : List D)
      → dec.lt l best ≡ false
      → dec.lt (last_from dec l xs) (min_from dec best xs) ≡ false
  unfolding min_from last_from
  last-min_from best l [] h = h
  last-min_from best l (x ∷ xs) h = elim (Bool-cases (dec.lt x best)) [
    | inl less ↦ rw less (last-min_from x x xs (laws.lt_irrefl x))
    | inr more ↦ rw more (last-min_from best x xs more)
  ]

  -- Where the reference has a positive numeric close and every later close is there, is numeric,
  -- and shares its price basis, the outcome is calculated: its return lies between the largest fall
  -- and the largest rise of the path.
  pub close_path_bracketed :
      (reference first : ClosePriceEvidence V) (rest : List (ClosePriceEvidence V)) (v : V)
      (r d : D) (ds : List D)
      → reference.close ≡ some v
      → any_by is_missing (first ∷ rest) ≡ false
      → require_consistent_price_basis reference (first ∷ rest) ≡ ok tt
      → decimal_of dec v ≡ ok r
      → dec.lt dec.zero_value r ≡ true
      → decimals_of dec (values (first ∷ rest)) ≡ ok (d ∷ ds)
      → (m : OutcomeMetrics D) × (calculate_close_path_outcome dec reference (first ∷ rest)
          ≡ ok (some m))
        × (dec.lt m.close_return m.max_downside ≡ false)
        × (dec.lt m.max_upside m.close_return ≡ false)
  unfolding calculate_close_path_outcome outcome_from outcome_of metrics_of
  close_path_bracketed reference first rest v r d ds there present basis numeric positive closes = (
    record {
      close_return = dec.return_over r (last_from dec d ds);
      max_upside = dec.return_over r (max_from dec d ds);
      max_downside = dec.return_over r (min_from dec d ds);
    },
    rw (there, present, basis, numeric, positive, closes) refl,
    laws.return_mono r _ _ positive (last-min_from d d ds (laws.lt_irrefl d)),
    laws.return_mono r _ _ positive (last-max_from d d ds (laws.lt_irrefl d)),
  )
