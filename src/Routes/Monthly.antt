-- ===== src/Routes/Monthly.antt =====
-- The third-Friday rule of backend/app/scanner/v13.py beside that of backend/app/scanner/scoring.py.
use options_anomaly_scanner.Prelude.{
  ℕ, ◌+◌, ◌-◌, ◌%◌, ◌≤◌, ◌<◌, ◌≡◌, ◌↔◌, Bool, true, arith, ◌==◌, ◌&&◌, leb,
}
use options_anomaly_scanner.Routes.{CalendarDate, is_standard_monthly_expiry}

-- `expiration.weekday()`
abbrev pub weekday : CalendarDate → ℕ
weekday d = (d.first_weekday + d.day - 1) % 7

-- expiry_type of backend/app/scanner/scoring.py, where the vendor names no type
unfoldable pub inferred_monthly : CalendarDate → Bool
inferred_monthly d = weekday d == 4 && (leb 15 d.day && leb d.day 21)

-- On every date of a month with at least 28 days the two modules agree on what a standard monthly
-- expiration is.
pub standard_monthly_agrees :
    (d : CalendarDate)
    → d.first_weekday < 7
    → 1 ≤ d.day
    → 28 ≤ d.days
    → (is_standard_monthly_expiry d ≡ true) ↔ (inferred_monthly d ≡ true)
unfolding is_standard_monthly_expiry inferred_monthly
standard_monthly_agrees d w one long = ground arith
