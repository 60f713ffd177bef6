-- ===== src/Dealer/Execute.antt =====
-- backend/app/dealer_archive/service.py, DealerGexArchiver.execute: the plan, the checks, the lock,
-- and the run.
pub mod Repeated
use Prim.Native.String.{String}
use options_anomaly_scanner.Prelude.{
  ℕ, Bool, true, false, not, ◌&&◌, ◌||◌, Option, none, some, List, [], ◌∷◌, if◌then◌else◌, any_by,
}
use options_anomaly_scanner.Prelude.Eq.{string_eq}
use options_anomaly_scanner.Prelude.Result.{Result, err, ok, ◌>>=◌}
use options_anomaly_scanner.Prelude.Distinct.{distinct_from}
use options_anomaly_scanner.Time.{DateTime, Market, ensure_utc}
use options_anomaly_scanner.Sessions.{CaptureSessionPlan, PlanStatus, dealer_capture_session_plan}
use options_anomaly_scanner.Dealer.Parsing.{Python}
use options_anomaly_scanner.Dealer.Capture.{
  ArchiveConfig, archive_spec_version, TickerResult, CaptureState, Surroundings, capture_all,
}
use options_anomaly_scanner.Dealer.Run.{
  ArchiveRun, CaptureKey, running, skipped_disabled, skipped_plan, summary_from_run, Execution,
  returned, planned, plan_raised, ticker_outside_universe, already_running, capture_raised, finish,
  fail_run, loop_status, reusable_completed_archive_run,
}

-- The arguments of execute, where no tickers stand for None.
pub record Request : Type 0 where
  pub tickers : List String
  pub trigger : String
  pub dry_run : Bool
  pub now : DateTime
  pub intended_market_date : Option ℕ
  pub canonical_slot_id : Option ℕ

-- The rows of the runs, and what the captures change.
pub record World (N : Type 0) : Type 0 where
  pub runs : List ArchiveRun
  pub capture : CaptureState N

-- What surrounds an execution: the runs that other processes have committed once the lock is taken,
-- whether it is free, and the identifier and the end of the run.
pub record Host (N : Type 0) : Type 0 where
  pub meanwhile : List ArchiveRun → List ArchiveRun
  pub lock_free : Bool
  pub run_id : ℕ
  pub completed_at : ℕ
  pub env : Surroundings N

abbrev or_universe : List String → List String → List String
or_universe universe [] = universe
or_universe universe (t ∷ rest) = t ∷ rest

abbrev is_scheduled : String → Bool
is_scheduled trigger =
    string_eq.beq trigger "external_scheduler" || string_eq.beq trigger "google_cloud_scheduler"

planned_status : CaptureSessionPlan → Option PlanStatus
planned_status plan = if plan.should_capture then none else some plan.status

module _ (config : ArchiveConfig) where
  unfoldable pub selected_of : Request → List String
  unfolding distinct_from any_by
  selected_of request = distinct_from [] (or_universe config.universe request.tickers)

  unfoldable pub is_outside : List String → Bool
  unfolding any_by
  is_outside selected = any_by (λ t. not (any_by (string_eq.beq t) config.universe)) selected

  unfoldable pub plan_of : Market → Request → Result (CaptureSessionPlan × ℕ)
  unfolding dealer_capture_session_plan ensure_utc
  plan_of market request = do
    plan ←
        dealer_capture_session_plan market request.now config.slot_time
          (is_scheduled request.trigger) request.intended_market_date
    started_at ← ensure_utc request.now
    ok (plan, started_at)

-- `joined` is ",".join(sorted(...)).
module _ (joined : List String → String) (config : ArchiveConfig) where
  unfoldable pub key_of : Request → CaptureSessionPlan → CaptureKey
  unfolding selected_of
  key_of request plan = record {
    market_date = plan.market_date;
    intended_capture_slot = config.intended_capture_slot;
    scope_key = joined (selected_of config request);
    specification_version = archive_spec_version;
    config_version = config.version;
    config_hash = config.hash;
    intended_at = plan.intended_at;
  }

  unfoldable pub new_run : ℕ → Request → CaptureSessionPlan → ℕ → ArchiveRun
  unfolding selected_of
  new_run id request plan started_at = record {
    id = id;
    canonical_slot_id = request.canonical_slot_id;
    trigger = request.trigger;
    status = running;
    started_at = started_at;
    completed_at = none;
    market_date = plan.market_date;
    intended_capture_slot = config.intended_capture_slot;
    scope_key = joined (selected_of config request);
    universe = selected_of config request;
    specification_version = archive_spec_version;
    config_version = config.version;
    config_hash = config.hash;
    tickers_attempted = 0;
    tickers_succeeded = 0;
    tickers_failed = 0;
    observations_reused = 0;
    usable_snapshots = 0;
    degraded_snapshots = 0;
    incomplete_snapshots = 0;
    unavailable_snapshots = 0;
    network_attempts = 0;
    http_successes = 0;
    http_failures = 0;
    consumed_quota_units = 0;
    quota_remaining_before = none;
    quota_remaining_after = none;
    tickers = [];
    retry_count = 0;
    safe_error = none;
  }

  -- The run to reuse, where the plan captures.
  unfoldable pub reusable_run : Request → CaptureSessionPlan → List ArchiveRun → Option ArchiveRun
  unfolding reusable_completed_archive_run key_of
  reusable_run request plan runs =
      if config.enabled && plan.should_capture
      then reusable_completed_archive_run (key_of request plan) runs
      else none

module _ {N : Type 0} where
  unfoldable pub end_run : ArchiveRun → List ArchiveRun → CaptureState N → Execution × World N
  unfolding summary_from_run
  end_run run runs state =
      (returned (summary_from_run run), record { runs = run ∷ runs; capture = state })

  -- After the loop: the run is finished, or failed and the exception goes on.
  unfoldable pub after_loop :
      (completed_at : ℕ)
      → ArchiveRun
      → List ArchiveRun
      → (exception : Option String) → List TickerResult
      → CaptureState N
      → Execution × World N
  unfolding finish fail_run loop_status end_run
  after_loop completed_at run runs none rows state =
      end_run (finish (loop_status rows) rows completed_at state.events run) runs state
  after_loop completed_at run runs (some exception) rows state = (
    capture_raised exception,
    record { runs = fail_run exception completed_at state.events run ∷ runs; capture = state },
  )

module _ {N : Type 0} (py : Python N) (identity_digest : String → ℕ → String) (market : Market)
    (joined : List String → String) (config : ArchiveConfig) where
  unfoldable pub run_new :
      Host N → Request → CaptureSessionPlan → (started_at : ℕ) → World N → Execution × World N
  unfolding finish new_run end_run selected_of capture_all after_loop
  run_new host request plan started_at w =
      let run = new_run joined config host.run_id request plan started_at in
      let loop =
        capture_all py identity_digest config host.env host.run_id (selected_of config request)
          w.capture in
      if not config.enabled
      then end_run (finish skipped_disabled [] host.completed_at w.capture.events run) w.runs
          w.capture
      else if not plan.should_capture
      then end_run (finish (skipped_plan plan.status) [] host.completed_at w.capture.events run)
          w.runs w.capture
      else after_loop host.completed_at run w.runs loop.exception loop.rows loop.state

  unfoldable pub execute_locked :
      Host N → Request → CaptureSessionPlan → ℕ → Option ArchiveRun → World N → Execution × World N
  unfolding run_new summary_from_run
  execute_locked host request plan started_at (some existing) w =
      (returned (summary_from_run existing), w)
  execute_locked host request plan started_at none w = run_new host request plan started_at w

  unfoldable pub execute_unless :
      Host N → Request → CaptureSessionPlan → ℕ → Option ArchiveRun → World N → Execution × World N
  unfolding execute_locked summary_from_run reusable_run
  execute_unless host request plan started_at (some existing) w =
      (returned (summary_from_run existing), w)
  execute_unless host request plan started_at none w =
      let seen = record w { runs = host.meanwhile w.runs } in
      if not host.lock_free
      then (already_running, w)
      else execute_locked host request plan started_at
          (reusable_run joined config request plan seen.runs) seen

  unfoldable pub execute_planned :
      Host N → Request → Result (CaptureSessionPlan × ℕ) → World N → Execution × World N
  unfolding execute_unless is_outside selected_of planned_status reusable_run
  execute_planned host request (err e) w = (plan_raised e, w)
  execute_planned host request (ok (plan, started_at)) w =
      if is_outside config (selected_of config request)
      then (ticker_outside_universe, w)
      else if request.dry_run
      then (planned (planned_status plan) (selected_of config request), w)
      else execute_unless host request plan started_at
          (reusable_run joined config request plan w.runs) w

  unfoldable pub execute : Host N → Request → World N → Execution × World N
  unfolding execute_planned plan_of
  execute host request w = execute_planned host request (plan_of config market request) w
