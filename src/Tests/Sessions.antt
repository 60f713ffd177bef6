-- ===== src/Tests/Sessions.antt =====
-- The plans at 06:30, at the close and at 15:30 of a session.
use options_anomaly_scanner.Prelude.{◌≤◌, ◌≡◌, refl, ◌↔◌, true, false}
use options_anomaly_scanner.Prelude.Result.{ok, err, timezone_aware_datetime_required}
use options_anomaly_scanner.Time.{aware, naive, time_of_day}
use options_anomaly_scanner.Sessions.{
  ready, RadarOiSchedulePlan, ActivitySessionPlan, CaptureSessionPlan, radar_oi_schedule_plan,
  activity_session_plan, dealer_capture_session_plan,
}
use options_anomaly_scanner.Sessions.Windows.{radar_plan_window}
use options_anomaly_scanner.Tests.Clock.{market, at}

radar_plan_window_example :
    (p : RadarOiSchedulePlan) × (radar_oi_schedule_plan market (aware (at 6 30)) ≡ ok p)
    × (p.market_date ≡ 10)
    × ((p.should_collect ≡ true) ↔ (
        (market.is_session 10 ≡ true)
        × (time_of_day 6 0 ≤ time_of_day 6 30)
        × (time_of_day 6 30 ≤ time_of_day 8 0)))
    × ((p.status ≡ ready) ↔ (p.should_collect ≡ true))
radar_plan_window_example = radar_plan_window market (at 6 30)

-- Outside the window, and with a naive clock.
radar_after_window :
    radar_oi_schedule_plan market (aware (at 8 1))
    ≡ ok (record {
      market_date = 10;
      should_collect = false;
      status = options_anomaly_scanner.Sessions.skipped_after_safe_window;
    })
unfolding radar_oi_schedule_plan
radar_after_window = refl

radar_naive : radar_oi_schedule_plan market (naive (at 6 30)) ≡ err timezone_aware_datetime_required
unfolding radar_oi_schedule_plan
radar_naive = refl
