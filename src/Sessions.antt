-- ===== src/Sessions.antt =====
-- backend/app/scanner/daily_semantics.py and backend/app/dealer_archive/calendar.py: which session
-- a scheduled job may collect for, decided from the clock and the exchange calendar.
pub mod Windows
use options_anomaly_scanner.Prelude.{
  ℕ, ◌≡◌, Bool, true, false, not, ◌&&◌, Option, none, some, ltb, if◌then◌else◌,
}
use options_anomaly_scanner.Prelude.Result.{Result, ok, err, invalid_local_time, ◌>>=◌}
use options_anomaly_scanner.Time.{DateTime, ensure_utc, hour, time_of_day, Market, market_date}

pub data PlanStatus : Type 0 where
  skipped_non_trading_session : PlanStatus
  skipped_before_source_ready : PlanStatus
  skipped_after_safe_window : PlanStatus
  skipped_before_session_close : PlanStatus
  skipped_target_after_early_close : PlanStatus
  skipped_before_target_slot : PlanStatus
  ready : PlanStatus

pub record RadarOiSchedulePlan : Type 0 where
  pub market_date : ℕ
  pub should_collect : Bool
  pub status : PlanStatus

pub record ActivitySessionPlan : Type 0 where
  pub market_date : ℕ
  pub session_close_at : Option ℕ
  pub should_collect : Bool
  pub status : PlanStatus

pub record CaptureSessionPlan : Type 0 where
  pub market_date : ℕ
  pub intended_at : ℕ
  pub session_close : Option ℕ
  pub should_capture : Bool
  pub status : PlanStatus

-- `value or default` on an optional date.
abbrev pub or_else : Option ℕ → ℕ → ℕ
or_else none d = d
or_else (some x) d = x

-- `int(part) for part in local_time.split(":", 1)` and `time(hour, minute)`, whose errors are
-- ValueErrors, as a parameter: `none` is a text that is no time of day.
abbrev pub or_invalid : Option ℕ → Result ℕ
or_invalid none = err invalid_local_time
or_invalid (some t) = ok t

module _ (m : Market) where
  unfoldable pub radar_oi_plan_at : ℕ → RadarOiSchedulePlan
  radar_oi_plan_at aware_now =
      let market_day = m.local_day aware_now in
      if not (m.is_session market_day)
      then record {
        market_date = market_day;
        should_collect = false;
        status = skipped_non_trading_session;
      }
      else if ltb (m.local_time aware_now) (time_of_day 6 0)
      then record {
        market_date = market_day;
        should_collect = false;
        status = skipped_before_source_ready;
      }
      else if ltb (time_of_day 8 0) (m.local_time aware_now)
      then record {
        market_date = market_day;
        should_collect = false;
        status = skipped_after_safe_window;
      }
      else record { market_date = market_day; should_collect = true; status = ready }

  unfoldable pub radar_oi_schedule_plan : DateTime → Result RadarOiSchedulePlan
  unfolding radar_oi_plan_at ensure_utc
  radar_oi_schedule_plan now = do aware_now ← ensure_utc now; ok (radar_oi_plan_at aware_now)

  activity_plan_at : ℕ → ℕ → ActivitySessionPlan
  activity_plan_at aware_now market_day =
      let close = m.session_close market_day in
      if not (m.is_session market_day)
      then record {
        market_date = market_day;
        session_close_at = none;
        should_collect = false;
        status = skipped_non_trading_session;
      }
      else if ltb aware_now close
      then record {
        market_date = market_day;
        session_close_at = some close;
        should_collect = false;
        status = skipped_before_session_close;
      }
      else record {
        market_date = market_day;
        session_close_at = some close;
        should_collect = true;
        status = ready;
      }

  unfoldable pub activity_session_plan : DateTime → Option ℕ → Result ActivitySessionPlan
  unfolding activity_plan_at ensure_utc
  activity_session_plan now intended_market_date = do
    aware_now ← ensure_utc now
    ok (activity_plan_at aware_now (or_else intended_market_date (m.local_day aware_now)))

  capture_plan_at : ℕ → ℕ → ℕ → Bool → CaptureSessionPlan
  capture_plan_at aware_now market_day slot_time enforce_target_time =
      let intended = m.instant market_day slot_time in
      let close = m.session_close market_day in
      if not (m.is_session market_day)
      then record {
        market_date = market_day;
        intended_at = intended;
        session_close = none;
        should_capture = false;
        status = skipped_non_trading_session;
      }
      else if ltb close intended
      then record {
        market_date = market_day;
        intended_at = intended;
        session_close = some close;
        should_capture = false;
        status = skipped_target_after_early_close;
      }
      else if enforce_target_time && ltb aware_now intended
      then record {
        market_date = market_day;
        intended_at = intended;
        session_close = some close;
        should_capture = false;
        status = skipped_before_target_slot;
      }
      else record {
        market_date = market_day;
        intended_at = intended;
        session_close = some close;
        should_capture = true;
        status = ready;
      }

  -- `local_time` is the configured text, read by the standard library.
  unfoldable pub dealer_capture_session_plan :
      DateTime → Option ℕ → Bool → Option ℕ → Result CaptureSessionPlan
  unfolding capture_plan_at ensure_utc
  dealer_capture_session_plan now local_time enforce_target_time intended_market_date = do
    aware_now ← ensure_utc now
    let market_day = or_else intended_market_date (m.local_day aware_now)
    slot_time ← or_invalid local_time
    ok (capture_plan_at aware_now market_day slot_time enforce_target_time)
