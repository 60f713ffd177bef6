-- ===== src/Tests/Freshness.antt =====
-- A selection over rows that are stale, from the future, and current.
use Prim.Native.String.{String}
use options_anomaly_scanner.Prelude.{
  ℕ, ◌≤◌, ◌≡◌, refl, ◌&&◌, Option, none, some, List, [], ◌∷◌, In, here, find_by, count_by, any_by,
}
use options_anomaly_scanner.Time.{aware}
use options_anomaly_scanner.Freshness.{
  PersistenceFreshnessPolicy, PersistenceObservation, date_value, assess,
  analysis_date_exclusive_utc_cutoff, persistence_window_last_observation_date,
  persistence_observation_is_time_admissible, select_current_persistence_observations,
}
use options_anomaly_scanner.Freshness.Current.{is_current, has_symbol, selection_newest}
use options_anomaly_scanner.Tests.Clock.{market, at}

abbrev week : PersistenceFreshnessPolicy
week = record { max_vendor_observation_age_days = some 7 }

abbrev unreadable : String → Option ℕ
unreadable text = none

abbrev row : ℕ → ℕ → PersistenceObservation
row observed last = record {
  observed_at = some (aware observed);
  window_last = some (date_value last);
  contract_symbol = some "NVDA270115C00150000";
}

-- Newest first: one row from after the analysis date, one current, one older.
abbrev rows : List PersistenceObservation
rows = row (at 30 0) 10 ∷ row (at 12 0) 9 ∷ row (at 11 0) 8 ∷ []

selection_newest_example :
    (find_by
        (has_symbol market unreadable week 10 "NVDA270115C00150000")
        (select_current_persistence_observations market unreadable week 10 rows)
      ≡ find_by
          (λ r.
            is_current market unreadable week 10 r
            && has_symbol market unreadable week 10 "NVDA270115C00150000" r)
          rows)
    × (count_by
          (has_symbol market unreadable week 10 "NVDA270115C00150000")
          (select_current_persistence_observations market unreadable week 10 rows)
        ≤ 1)
selection_newest_example = selection_newest market unreadable week 10 "NVDA270115C00150000" rows

selection_run :
    select_current_persistence_observations market unreadable week 10 rows ≡ row (at 12 0) 9 ∷ []
unfolding select_current_persistence_observations assess persistence_observation_is_time_admissible
    any_by analysis_date_exclusive_utc_cutoff persistence_window_last_observation_date
selection_run = refl

selected :
    In (row (at 12 0) 9) (select_current_persistence_observations market unreadable week 10 rows)
selected = rw selection_run (here refl)
