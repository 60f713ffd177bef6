-- ===== src/Sessions/Windows.antt =====
-- The windows of backend/app/scanner/daily_semantics.py and backend/app/dealer_archive/calendar.py.
use options_anomaly_scanner.Prelude.{
  ℕ, ◌≤◌, ◌≡◌, refl, ◌↔◌, Bool, true, false, Option, none, some, arith, ◌⊎◌, if◌then◌else◌,
}
use options_anomaly_scanner.Prelude.Result.{ok}
use options_anomaly_scanner.Time.{aware, time_of_day, Market}
use options_anomaly_scanner.Sessions.{
  ready, RadarOiSchedulePlan, ActivitySessionPlan, CaptureSessionPlan, or_else, radar_oi_plan_at,
  radar_oi_schedule_plan, activity_plan_at, activity_session_plan, capture_plan_at,
  dealer_capture_session_plan,
}

module _ (m : Market) where
  radar_plan_at_window :
      (t : ℕ)
      → ((radar_oi_plan_at m t).should_collect ≡ true) ↔ (
          (m.is_session (m.local_day t) ≡ true)
          × (time_of_day 6 0 ≤ m.local_time t)
          × (m.local_time t ≤ time_of_day 8 0))
  unfolding radar_oi_plan_at
  radar_plan_at_window t = ground arith

  radar_plan_at_status :
      (t : ℕ)
      → ((radar_oi_plan_at m t).status ≡ ready) ↔ ((radar_oi_plan_at m t).should_collect ≡ true)
  unfolding radar_oi_plan_at
  radar_plan_at_status t = ground arith

  radar_plan_at_day : (t : ℕ) → (radar_oi_plan_at m t).market_date ≡ m.local_day t
  unfolding radar_oi_plan_at
  radar_plan_at_day t = ground arith

  -- At every instant the Radar/OI plan is made for the local market date, and it collects exactly
  -- when that date is a session and the local time is from 06:00 to 08:00, both included. Its
  -- status is READY exactly when it collects.
  pub radar_plan_window :
      (t : ℕ)
      → (p : RadarOiSchedulePlan) × (radar_oi_schedule_plan m (aware t) ≡ ok p)
        × (p.market_date ≡ m.local_day t)
        × ((p.should_collect ≡ true) ↔ (
            (m.is_session (m.local_day t) ≡ true)
            × (time_of_day 6 0 ≤ m.local_time t)
            × (m.local_time t ≤ time_of_day 8 0)))
        × ((p.status ≡ ready) ↔ (p.should_collect ≡ true))
  unfolding radar_oi_schedule_plan
  radar_plan_window t = (
    radar_oi_plan_at m t,
    refl,
    radar_plan_at_day t,
    radar_plan_at_window t,
    radar_plan_at_status t,
  )

  activity_plan_at_close :
      (t day : ℕ)
      → ((activity_plan_at m t day).should_collect ≡ true)
        ↔ ((m.is_session day ≡ true) × (m.session_close day ≤ t))
  unfolding activity_plan_at
  activity_plan_at_close t day = ground arith

  activity_plan_at_status :
      (t day : ℕ)
      → ((activity_plan_at m t day).status ≡ ready)
        ↔ ((activity_plan_at m t day).should_collect ≡ true)
  unfolding activity_plan_at
  activity_plan_at_status t day = ground arith

  activity_plan_at_fields :
      (t day : ℕ)
      → ((activity_plan_at m t day).market_date ≡ day)
        × ((activity_plan_at m t day).session_close_at
            ≡ (if m.is_session day then some (m.session_close day) else none))
  unfolding activity_plan_at
  activity_plan_at_fields t day = ground arith

  -- The Activity plan for an intended market date, or for the local one where none is given,
  -- collects exactly when that date is a session whose actual close is not after the clock. Its
  -- status is READY exactly when it collects, and it carries the close of a session, and of no
  -- other date.
  pub activity_plan_close :
      (t : ℕ) (intended : Option ℕ)
      → (p : ActivitySessionPlan) × (activity_session_plan m (aware t) intended ≡ ok p)
        × (p.market_date ≡ or_else intended (m.local_day t))
        × ((p.should_collect ≡ true)
            ↔ ((m.is_session p.market_date ≡ true) × (m.session_close p.market_date ≤ t)))
        × ((p.status ≡ ready) ↔ (p.should_collect ≡ true))
        × (p.session_close_at
            ≡ (if m.is_session p.market_date then some (m.session_close p.market_date) else none))
  unfolding activity_session_plan
  activity_plan_close t intended =
      let day : ℕ = or_else intended (m.local_day t) in
      let same = (activity_plan_at_fields t day).0 in
      (
        activity_plan_at m t day,
        refl,
        same,
        rw same (activity_plan_at_close t day),
        activity_plan_at_status t day,
        rw same (activity_plan_at_fields t day).1,
      )

  capture_plan_at_slot :
      (t day slot : ℕ) (enforce : Bool)
      → ((capture_plan_at m t day slot enforce).should_capture ≡ true) ↔ (
          (m.is_session day ≡ true)
          × (m.instant day slot ≤ m.session_close day)
          × ((enforce ≡ false) ⊎ (m.instant day slot ≤ t)))
  unfolding capture_plan_at
  capture_plan_at_slot t day slot enforce = ground arith

  capture_plan_at_fields :
      (t day slot : ℕ) (enforce : Bool)
      → ((capture_plan_at m t day slot enforce).intended_at ≡ m.instant day slot)
        × ((capture_plan_at m t day slot enforce).market_date ≡ day)
        × (((capture_plan_at m t day slot enforce).status ≡ ready)
            ↔ ((capture_plan_at m t day slot enforce).should_capture ≡ true))
  unfolding capture_plan_at
  capture_plan_at_fields t day slot enforce = ground arith

  -- The Dealer/GEX plan for a readable slot time captures exactly when the date is a session, the
  -- slot is not after that session's close, and, where the target time is enforced, the slot is
  -- not after the clock. The instant that it intends is the slot on that date.
  pub capture_plan_slot :
      (t slot : ℕ) (enforce : Bool) (intended : Option ℕ)
      → (p : CaptureSessionPlan) × (dealer_capture_session_plan m
            (aware t)
            (some slot)
            enforce
            intended
          ≡ ok p)
        × (p.market_date ≡ or_else intended (m.local_day t))
        × (p.intended_at ≡ m.instant (or_else intended (m.local_day t)) slot)
        × ((p.should_capture ≡ true) ↔ (
            (m.is_session (or_else intended (m.local_day t)) ≡ true)
            × (p.intended_at ≤ m.session_close (or_else intended (m.local_day t)))
            × ((enforce ≡ false) ⊎ (p.intended_at ≤ t))))
        × ((p.status ≡ ready) ↔ (p.should_capture ≡ true))
  unfolding dealer_capture_session_plan
  capture_plan_slot t slot enforce intended =
      let day : ℕ = or_else intended (m.local_day t) in
      let fields = capture_plan_at_fields t day slot enforce in
      (
        capture_plan_at m t day slot enforce,
        refl,
        fields.1,
        fields.0,
        rw fields.0 (capture_plan_at_slot t day slot enforce),
        fields.2,
      )
