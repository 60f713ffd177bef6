-- ===== src/Tests/Clock.antt =====
-- A market whose zone is UTC and whose sessions are five days of seven, closing at 16:00.
use options_anomaly_scanner.Prelude.{ℕ, ◌+◌, ◌*◌, ◌/◌, ◌%◌, ◌≡◌, refl, arith, ltb, [], ◌∷◌}
use options_anomaly_scanner.Time.{hour, time_of_day, Market, MinuteZone}
use options_anomaly_scanner.Scheduler.{Text, Formats}
use options_anomaly_scanner.Scheduler.Identity.{StampLaws}

abbrev pub day_length : ℕ
day_length = 24 * hour

abbrev pub market : Market
market = record {
  local_day = λ t. t / day_length;
  local_time = λ t. t % day_length;
  instant = λ day time. day * day_length + time;
  is_session = λ day. ltb (day % 7) 5;
  session_close = λ day. day * day_length + time_of_day 16 0;
}

pub market-MinuteZone : MinuteZone market
market-MinuteZone = record { day_floor = λ t. omega arith; time_floor = λ t. omega arith }

-- A time of day on day 10, which is a session.
abbrev pub at : ℕ → ℕ → ℕ
at h m = 10 * day_length + time_of_day h m

-- One character for each instant.
abbrev pub formats : Formats
formats = record { isoformat = λ t. t ∷ []; stamp = λ t. t ∷ []; sha256 = λ text. text }

one_code : (a b : ℕ) → ◌≡◌ {A = Text} (a ∷ []) (b ∷ []) → a ≡ b
one_code a b h = cc

pub formats-StampLaws : StampLaws formats
formats-StampLaws = record {
  stamp_length = λ a b. refl;
  stamp_injective = λ a b _ _ h. one_code a b h;
}
