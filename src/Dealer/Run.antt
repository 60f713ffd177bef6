-- ===== src/Dealer/Run.antt =====
-- The rows of runs of backend/app/dealer_archive/service.py and repository.py: how a run ends, and
-- the search for a completed run that already covers a slot.
pub mod Counts
pub mod Reuse
use Prim.Native.String.{String}
use options_anomaly_scanner.Prelude.{
  ℕ, ◌+◌, ◌-◌, Bool, true, false, not, ◌&&◌, ◌||◌, Option, none, some, List, [], ◌∷◌, ltb, leb,
  ◌==◌, if◌then◌else◌, length, find_by, filter_by, all_by, count_by, is_some,
}
use options_anomaly_scanner.Prelude.Eq.{string_eq}
use options_anomaly_scanner.Prelude.Int.{ℤ, pos, ◌+ℤ◌}
use options_anomaly_scanner.Prelude.Result.{Error}
use options_anomaly_scanner.Prelude.Sort.{sort_by}
use options_anomaly_scanner.Sessions.{PlanStatus}
use options_anomaly_scanner.Nightwatch.Client.{ApiUsageEvent}
use options_anomaly_scanner.Dealer.Surface.{
  SourceQuality, available, available_degraded, incomplete_or_truncated, unavailable,
}
use options_anomaly_scanner.Dealer.Capture.{
  TickerStatus, persisted, reused, TickerResult, is_attempted, count_attempts, count_consumed,
  is_consumed,
}

pub data RunStatus : Type 0 where
  running : RunStatus
  complete : RunStatus
  partial : RunStatus
  empty : RunStatus
  failed : RunStatus
  skipped_disabled : RunStatus
  skipped_plan : PlanStatus → RunStatus

-- DealerGexArchiveRun, without the columns that only copy the configuration; the summary is its
-- rows, its number of retries and its safe error.
pub record ArchiveRun : Type 0 where
  pub id : ℕ
  pub canonical_slot_id : Option ℕ
  pub trigger : String
  pub status : RunStatus
  pub started_at : ℕ
  pub completed_at : Option ℕ
  pub market_date : ℕ
  pub intended_capture_slot : String
  pub scope_key : String
  pub universe : List String
  pub specification_version : String
  pub config_version : String
  pub config_hash : String
  pub tickers_attempted : ℕ
  pub tickers_succeeded : ℕ
  pub tickers_failed : ℕ
  pub observations_reused : ℕ
  pub usable_snapshots : ℕ
  pub degraded_snapshots : ℕ
  pub incomplete_snapshots : ℕ
  pub unavailable_snapshots : ℕ
  pub network_attempts : ℕ
  pub http_successes : ℕ
  pub http_failures : ℕ
  pub consumed_quota_units : ℕ
  pub quota_remaining_before : Option ℤ
  pub quota_remaining_after : Option ℤ
  pub tickers : List TickerResult
  pub retry_count : ℕ
  pub safe_error : Option String

-- The keyword arguments of archive_run_suppresses_capture.
pub record CaptureKey : Type 0 where
  pub market_date : ℕ
  pub intended_capture_slot : String
  pub scope_key : String
  pub specification_version : String
  pub config_version : String
  pub config_hash : String
  pub intended_at : ℕ

abbrev pub is_complete : RunStatus → Bool
is_complete complete = true
is_complete _ = false

unfoldable pub archive_run_suppresses_capture : CaptureKey → ArchiveRun → Bool
archive_run_suppresses_capture key run =
    is_complete run.status
    && is_some run.completed_at
    && (run.market_date == key.market_date)
    && string_eq.beq run.intended_capture_slot key.intended_capture_slot
    && string_eq.beq run.scope_key key.scope_key
    && string_eq.beq run.specification_version key.specification_version
    && string_eq.beq run.config_version key.config_version
    && string_eq.beq run.config_hash key.config_hash
    && leb key.intended_at run.started_at

-- order_by(desc(completed_at), desc(started_at)), where NULL is before every time.
abbrev pub completed_later : Option ℕ → Option ℕ → Bool
completed_later none none = false
completed_later none (some t) = true
completed_later (some t) none = false
completed_later (some t) (some u) = ltb u t

abbrev pub more_recent : ArchiveRun → ArchiveRun → Bool
more_recent a b =
    completed_later a.completed_at b.completed_at
    || (not (completed_later b.completed_at a.completed_at) && ltb b.started_at a.started_at)

-- The `where` of the query.
unfoldable pub is_candidate_run : CaptureKey → ArchiveRun → Bool
is_candidate_run key run =
    (run.market_date == key.market_date)
    && string_eq.beq run.intended_capture_slot key.intended_capture_slot
    && string_eq.beq run.scope_key key.scope_key
    && is_complete run.status

unfoldable pub reusable_completed_archive_run : CaptureKey → List ArchiveRun → Option ArchiveRun
unfolding find_by sort_by filter_by archive_run_suppresses_capture is_candidate_run
reusable_completed_archive_run key runs =
    find_by (archive_run_suppresses_capture key)
      (sort_by more_recent (filter_by (is_candidate_run key) runs))

abbrev pub has_succeeded : TickerStatus → Bool
has_succeeded persisted = true
has_succeeded reused = true
has_succeeded _ = false

abbrev pub is_succeeded : TickerResult → Bool
is_succeeded row = has_succeeded row.status

abbrev pub was_reused : TickerStatus → Bool
was_reused reused = true
was_reused _ = false

abbrev pub is_reused : TickerResult → Bool
is_reused row = was_reused row.status

abbrev pub holds : (SourceQuality → Bool) → Option SourceQuality → Bool
holds test none = false
holds test (some q) = test q

abbrev pub has_quality : (SourceQuality → Bool) → TickerResult → Bool
has_quality test row = holds test row.source_quality

abbrev pub is_usable : SourceQuality → Bool
is_usable q = elim q [ available ↦ true | _ ↦ false ]

abbrev pub is_degraded : SourceQuality → Bool
is_degraded q = elim q [ available_degraded ↦ true | _ ↦ false ]

abbrev pub is_incomplete : SourceQuality → Bool
is_incomplete q = elim q [ incomplete_or_truncated ↦ true | _ ↦ false ]

abbrev pub is_unavailable : SourceQuality → Bool
is_unavailable q = elim q [ unavailable ↦ true | _ ↦ false ]

-- What _summary_from_run and a dry run return.
pub record ArchiveSummary : Type 0 where
  pub archive_run_id : ℕ
  pub status : RunStatus
  pub market_date : ℕ
  pub intended_capture_slot : String
  pub tickers : List TickerResult
  pub tickers_attempted : ℕ
  pub tickers_succeeded : ℕ
  pub tickers_failed : ℕ
  pub observations_reused : ℕ
  pub network_attempts : ℕ
  pub consumed_quota_units : ℕ
  pub quota_remaining_before : Option ℤ
  pub quota_remaining_after : Option ℤ

unfoldable pub summary_from_run : ArchiveRun → ArchiveSummary
summary_from_run run = record {
  archive_run_id = run.id;
  status = run.status;
  market_date = run.market_date;
  intended_capture_slot = run.intended_capture_slot;
  tickers = run.tickers;
  tickers_attempted = run.tickers_attempted;
  tickers_succeeded = run.tickers_succeeded;
  tickers_failed = run.tickers_failed;
  observations_reused = run.observations_reused;
  network_attempts = run.network_attempts;
  consumed_quota_units = run.consumed_quota_units;
  quota_remaining_before = run.quota_remaining_before;
  quota_remaining_after = run.quota_remaining_after;
}

pub data Execution : Type 0 where
  returned : ArchiveSummary → Execution
  -- the plan's status where it does not capture, or DRY_RUN_READY
  planned : Option PlanStatus → (tickers : List String) → Execution
  plan_raised : Error → Execution
  ticker_outside_universe : Execution
  already_running : Execution
  capture_raised : String → Execution

abbrev newer : Option ℤ → Option ℤ → Option ℤ
newer earlier none = earlier
newer earlier (some n) = some n

module _ {N : Type 0} where
  abbrev quota_remaining : ApiUsageEvent N → Option ℤ
  quota_remaining e = elim e.quota [ none ↦ none | some q ↦ q.quota_remaining ]

  abbrev is_success : ApiUsageEvent N → Bool
  is_success e = elim e.http_status [ none ↦ false | some s ↦ ltb s 400 ]

  abbrev total_retries : List (ApiUsageEvent N) → ℕ
  total_retries [] = 0
  total_retries (e ∷ rest) = e.retry_count + total_retries rest

  -- remaining[-1]
  abbrev last_remaining : Option ℤ → List (ApiUsageEvent N) → Option ℤ
  last_remaining earlier [] = earlier
  last_remaining earlier (e ∷ rest) = last_remaining (newer earlier (quota_remaining e)) rest

  abbrev before_first : ApiUsageEvent N → Option ℤ → Option ℤ
  before_first e none = none
  before_first e (some n) = some (n +ℤ pos (if is_consumed e.consumed_quota then 1 else 0))

  abbrev first_remaining : List (ApiUsageEvent N) → Option ℤ
  first_remaining [] = none
  first_remaining (e ∷ rest) = before_first e (quota_remaining e)

  unfoldable pub set_usage_totals : List (ApiUsageEvent N) → ArchiveRun → ArchiveRun
  unfolding count_by count_consumed
  set_usage_totals events run = record run {
    network_attempts = count_attempts events;
    http_successes = count_by is_success events;
    http_failures = count_by (λ e. not (is_success e)) events;
    consumed_quota_units = count_consumed events;
    quota_remaining_after = last_remaining none events;
    quota_remaining_before = first_remaining events;
  }

  -- _finish, before its commit
  unfoldable pub finish :
      RunStatus
      → List TickerResult
      → (completed_at : ℕ) → List (ApiUsageEvent N)
      → ArchiveRun
      → ArchiveRun
  unfolding set_usage_totals filter_by count_by
  finish status rows completed_at events run =
      let attempted = filter_by is_attempted rows in
      let succeeded = filter_by is_succeeded attempted in
      set_usage_totals events (record run {
        status = status;
        completed_at = some completed_at;
        tickers_attempted = length attempted;
        tickers_succeeded = length succeeded;
        tickers_failed = length attempted - length succeeded;
        observations_reused = count_by is_reused attempted;
        usable_snapshots = count_by (has_quality is_usable) attempted;
        degraded_snapshots = count_by (has_quality is_degraded) attempted;
        incomplete_snapshots = count_by (has_quality is_incomplete) attempted;
        unavailable_snapshots = count_by (has_quality is_unavailable) attempted;
        tickers = rows;
        retry_count = total_retries events;
      })

  -- except Exception
  unfoldable pub fail_run :
      String → (completed_at : ℕ) → List (ApiUsageEvent N) → ArchiveRun → ArchiveRun
  unfolding set_usage_totals
  fail_run error completed_at events run =
      set_usage_totals events
        (record run { status = failed; completed_at = some completed_at; safe_error = some error })

unfoldable pub loop_status : List TickerResult → RunStatus
unfolding all_by
loop_status [] = empty
loop_status rows = if all_by is_succeeded rows then complete else partial
