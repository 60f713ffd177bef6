-- ===== src/Dealer/Run/Counts.antt =====
-- The counters of a finished run of backend/app/dealer_archive/service.py.
use Prim.Native.String.{String}
use options_anomaly_scanner.Prelude.{
  ℕ, ◌+◌, ◌≤◌, ◌≡◌, refl, inl, inr, Bool, false, not, ◌&&◌, Option, none, some, List, [], ◌∷◌, ltb,
  ◌==◌, if◌then◌else◌, filter_by, all_by, count_by, length, arith, Bool-cases, is_some, All,
}
use options_anomaly_scanner.Dealer.Parsing.{Python}
use options_anomaly_scanner.Dealer.Surface.{
  SourceQuality, available, available_degraded, incomplete_or_truncated, unavailable,
}
use options_anomaly_scanner.Dealer.Capture.{
  ArchiveConfig, CaptureState, Surroundings, TickerResult, TickerStatus, persisted, reused,
  not_usable, budget_not_attempted, is_attempted, was_attempted, capture_all,
}
use options_anomaly_scanner.Dealer.Capture.Results.{HasQuality, capture_all-HasQuality}
use options_anomaly_scanner.Dealer.Run.{
  ArchiveRun, finish, set_usage_totals, is_succeeded, has_succeeded, is_reused, was_reused,
  has_quality, holds, is_usable, is_degraded, is_incomplete, is_unavailable, is_complete,
  is_success, loop_status,
}

abbrev one_if : Bool → ℕ
one_if b = if b then 1 else 0

module _ {ℓ} {A : Type ℓ} (p : A → Bool) where
  length-filter_by : (xs : List A) → length (filter_by p xs) ≡ count_by p xs
  unfolding filter_by count_by
  length-filter_by [] = refl
  length-filter_by (x ∷ xs) = ground (arith, length-filter_by xs)

  count_by-not : (xs : List A) → count_by p xs + count_by (λ x. not (p x)) xs ≡ length xs
  unfolding count_by
  count_by-not [] = refl
  count_by-not (x ∷ xs) = ground (arith, count_by-not xs)

  all_by-count : (xs : List A) → all_by p xs ≡ (count_by p xs == length xs)
  unfolding all_by count_by
  all_by-count [] = refl
  all_by-count (x ∷ xs) = ground (arith, all_by-count xs, count_by-not xs)

quality_split :
    (status : TickerStatus) (quality : Option SourceQuality)
    → was_attempted status ≡ is_some quality
    → one_if (holds is_usable quality)
        + one_if (holds is_degraded quality)
        + one_if (holds is_incomplete quality)
        + one_if (holds is_unavailable quality)
      ≡ one_if (was_attempted status)
quality_split status none h = rw h refl
quality_split status (some available) h = rw h refl
quality_split status (some available_degraded) h = rw h refl
quality_split status (some incomplete_or_truncated) h = rw h refl
quality_split status (some unavailable) h = rw h refl

quality_counts :
    (rows : List TickerResult)
    → All HasQuality rows
    → let attempted = filter_by is_attempted rows in
      count_by (has_quality is_usable) attempted
        + count_by (has_quality is_degraded) attempted
        + count_by (has_quality is_incomplete) attempted
        + count_by (has_quality is_unavailable) attempted
      ≡ length attempted
unfolding filter_by count_by
quality_counts [] h = refl
quality_counts (row ∷ rest) (this, others) = elim (Bool-cases (was_attempted row.status)) [
  | inl was ↦
      let split = quality_split row.status row.source_quality this in
      let one : one_if (was_attempted row.status) ≡ 1 = rw was refl in
      rw was (omega (arith, split, one, quality_counts rest others))
  | inr not_was ↦ rw not_was (quality_counts rest others)
]

reused_row : (status : TickerStatus) → one_if (was_reused status) ≤ one_if (has_succeeded status)
reused_row persisted = omega arith
reused_row reused = omega arith
reused_row (not_usable q) = omega arith
reused_row budget_not_attempted = omega arith

unattempted : (status : TickerStatus) → was_attempted status ≡ false → has_succeeded status ≡ false
unattempted persisted e = e
unattempted reused e = e
unattempted (not_usable q) e = refl
unattempted budget_not_attempted e = refl

reused_count : (rows : List TickerResult) → count_by is_reused rows ≤ count_by is_succeeded rows
unfolding count_by
reused_count [] = omega arith
reused_count (row ∷ rest) = omega (arith, reused_row row.status, reused_count rest)

succeeded_count :
    (rows : List TickerResult)
    → count_by is_succeeded (filter_by is_attempted rows) ≡ count_by is_succeeded rows
unfolding filter_by count_by
succeeded_count [] = refl
succeeded_count (row ∷ rest) = elim (Bool-cases (was_attempted row.status)) [
  | inl was ↦ rw was (omega (arith, succeeded_count rest))
  | inr not_was ↦ rw (not_was, unattempted row.status not_was) (omega (arith, succeeded_count rest))
]

complete_status :
    (rows : List TickerResult)
    → is_complete (loop_status rows)
      ≡ (ltb 0 (length rows) && (count_by is_succeeded rows == length rows))
unfolding loop_status
complete_status [] = refl
complete_status (row ∷ rest) =
    let all = all_by-count is_succeeded (row ∷ rest) in
    elim (Bool-cases (all_by is_succeeded (row ∷ rest))) [
      | inl was ↦ let all' = rw was at all in rw was (ground (arith, all'))
      | inr not_was ↦ let all' = rw not_was at all in rw not_was (ground (arith, all'))
    ]

module _ {N : Type 0} (py : Python N) (identity_digest : String → ℕ → String)
    (config : ArchiveConfig) (env : Surroundings N) (run_id : ℕ) where
  -- The run that ends the loop over the tickers: the attempted tickers are those that succeeded and
  -- those that failed, and also those of the four qualities; the reused observations are among the
  -- tickers that succeeded; the answers of HTTP are successes or failures; and the run is complete
  -- exactly where there is a ticker and every ticker succeeded.
  pub finish_counts :
      (tickers : List String) (state : CaptureState N) (completed_at : ℕ) (run : ArchiveRun)
      → let loop = capture_all py identity_digest config env run_id tickers state in
        let events = loop.state.events in
        let done = finish (loop_status loop.rows) loop.rows completed_at events run in
        (done.tickers_succeeded + done.tickers_failed ≡ done.tickers_attempted)
        × (done.usable_snapshots + done.degraded_snapshots + done.incomplete_snapshots
              + done.unavailable_snapshots
            ≡ done.tickers_attempted)
        × (done.observations_reused ≤ done.tickers_succeeded)
        × (done.http_successes + done.http_failures ≡ length events)
        × (is_complete done.status
            ≡ (ltb 0 (length loop.rows) && (done.tickers_succeeded == length loop.rows)))
  unfolding finish set_usage_totals
  finish_counts tickers state completed_at run =
      let loop = capture_all py identity_digest config env run_id tickers state in
      let attempted = filter_by is_attempted loop.rows in
      let succeeded = length-filter_by is_succeeded attempted in
      let all = length-filter_by is_attempted loop.rows in
      (
        omega (arith, succeeded, count_by-not is_succeeded attempted),
        quality_counts loop.rows
            (capture_all-HasQuality py identity_digest config env run_id tickers state),
        omega (arith, succeeded, reused_count attempted),
        count_by-not is_success loop.state.events,
        rw (succeeded, succeeded_count loop.rows) (complete_status loop.rows),
      )
