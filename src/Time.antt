-- ===== src/Time.antt =====
-- backend/app/core/time.py: aware and naive datetimes, and the parts of the time zone database and
-- of the exchange calendar that the sources call. An instant is the number of microseconds since
-- a fixed midnight in UTC, a date is its ordinal number, and a time of day is in microseconds.
use options_anomaly_scanner.Prelude.{ℕ, ◌+◌, ◌-◌, ◌*◌, ◌%◌, ◌≡◌, Bool}
use options_anomaly_scanner.Prelude.Result.{Result, ok, err, timezone_aware_datetime_required}

pub data DateTime : Type 0 where
  aware : (instant : ℕ) → DateTime
  naive : (wall : ℕ) → DateTime

-- `value.astimezone(UTC)`, or the ValueError on a value with no time zone.
unfoldable pub ensure_utc : DateTime → Result ℕ
ensure_utc (aware t) = ok t
ensure_utc (naive w) = err timezone_aware_datetime_required

abbrev pub second : ℕ
second = 1000000

abbrev pub minute : ℕ
minute = 60 * second

abbrev pub hour : ℕ
hour = 60 * minute

-- time(hour, minute)
abbrev pub time_of_day : ℕ → ℕ → ℕ
time_of_day h m = h * hour + m * minute

-- value.replace(second=0, microsecond=0)
abbrev pub floor_minute : ℕ → ℕ
floor_minute t = t - t % minute

-- The New York time zone and the XNYS calendar, which the program takes from libraries.
pub record Market : Type 0 where
  pub local_day : ℕ → ℕ
  pub local_time : ℕ → ℕ
  pub instant : ℕ → ℕ → ℕ
  pub is_session : ℕ → Bool
  pub session_close : ℕ → ℕ

-- The zone's offset is a whole number of minutes, as it is since standard time was introduced.
pub record MinuteZone (m : Market) : Type 0 where
  pub day_floor : (t : ℕ) → m.local_day (floor_minute t) ≡ m.local_day t
  pub time_floor : (t : ℕ) → m.local_time (floor_minute t) ≡ floor_minute (m.local_time t)

module _ (m : Market) where
  -- market_date
  unfoldable pub market_date : ℕ → ℕ
  market_date t = m.local_day t

  unfoldable pub is_xnys_session : ℕ → Bool
  is_xnys_session day = m.is_session day
