-- ===== src/Dealer/Archive/Coverage.antt =====
-- dealer_gex_history_coverage of backend/app/dealer_archive/repository.py.
use Prim.Native.String.{String}
use options_anomaly_scanner.Prelude.{
  ℕ, Bool, true, false, Option, none, some, List, [], ◌∷◌, ltb, length, filter_by, count_by, map,
}
use options_anomaly_scanner.Prelude.Eq.{string_eq}
use options_anomaly_scanner.Prelude.Sort.{sort_by}
use options_anomaly_scanner.Dealer.Surface.{
  SourceQuality, available, available_degraded, incomplete_or_truncated, unavailable,
}
use options_anomaly_scanner.Dealer.Archive.{Snapshot}

-- The report on one ticker, whose times it renders.
pub record HistoryCoverage : Type 0 where
  pub ticker : String
  pub distinct_valid_observations : ℕ
  pub first_vendor_observed_at : Option ℕ
  pub latest_vendor_observed_at : Option ℕ
  pub usable_observations : ℕ
  pub degraded_observations : ℕ
  pub incomplete_attempts : ℕ
  pub unavailable_attempts : ℕ

abbrev is_available : SourceQuality → Bool
is_available available = true
is_available _ = false

abbrev is_available_degraded : SourceQuality → Bool
is_available_degraded available_degraded = true
is_available_degraded _ = false

abbrev is_incomplete_or_truncated : SourceQuality → Bool
is_incomplete_or_truncated incomplete_or_truncated = true
is_incomplete_or_truncated _ = false

abbrev is_unavailable_attempt : SourceQuality → Bool
is_unavailable_attempt unavailable = true
is_unavailable_attempt _ = false

-- order_by(vendor_observed_at), where NULL is after every time
abbrev observed_before : Option ℕ → Option ℕ → Bool
observed_before (some s) (some t) = ltb s t
observed_before (some s) none = true
observed_before none t = false

module _ {D : Type 0} where
  abbrev first_time : List (Snapshot D) → Option ℕ
  first_time [] = none
  first_time (row ∷ rest) = row.vendor_observed_at

  abbrev last_time : Option ℕ → List (Snapshot D) → Option ℕ
  last_time t [] = t
  last_time t (row ∷ rest) = last_time row.vendor_observed_at rest

  unfoldable pub coverage_of : List (Snapshot D) → String → HistoryCoverage
  unfolding sort_by filter_by count_by
  coverage_of snapshots ticker =
      let rows =
        sort_by (λ (a : Snapshot D) b. observed_before a.vendor_observed_at b.vendor_observed_at)
          (filter_by (λ row. string_eq.beq row.ticker ticker) snapshots) in
      let valid = filter_by (λ row. row.is_analytical_observation) rows in
      record {
        ticker = ticker;
        distinct_valid_observations = length valid;
        first_vendor_observed_at = first_time valid;
        latest_vendor_observed_at = last_time none valid;
        usable_observations = count_by (λ row. is_available row.source_quality) valid;
        degraded_observations = count_by (λ row. is_available_degraded row.source_quality) valid;
        incomplete_attempts = count_by (λ row. is_incomplete_or_truncated row.source_quality) rows;
        unavailable_attempts = count_by (λ row. is_unavailable_attempt row.source_quality) rows;
      }

  unfoldable pub dealer_gex_history_coverage :
      List (Snapshot D) → List String → List HistoryCoverage
  unfolding coverage_of
  dealer_gex_history_coverage snapshots tickers =
      map (λ ticker. coverage_of snapshots ticker) tickers
