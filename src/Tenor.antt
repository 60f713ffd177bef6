-- ===== src/Tenor.antt =====
-- backend/app/models/signals.py: calendar days to expiration and their buckets.
pub mod Buckets
use options_anomaly_scanner.Prelude.{
  ℕ, Bool, true, false, ◌&&◌, Option, none, some, List, [], ◌∷◌, leb, if◌then◌else◌,
}
use options_anomaly_scanner.Prelude.Int.{ℤ, pos, sub_ℕ, leb_ℤ}

pub data DteBucket : Type 0 where
  very_short : DteBucket
  short : DteBucket
  medium : DteBucket
  long : DteBucket

pub record DteBucketRule : Type 0 where
  pub bucket : DteBucket
  pub minimum : ℕ
  pub maximum : ℕ

abbrev pub default_dte_bucket_rules : List DteBucketRule
default_dte_bucket_rules =
    record { bucket = very_short; minimum = 0; maximum = 7 }
    ∷ record { bucket = short; minimum = 8; maximum = 30 }
    ∷ record { bucket = medium; minimum = 31; maximum = 90 }
    ∷ record { bucket = long; minimum = 91; maximum = 180 }
    ∷ []

unfoldable pub calendar_dte : (expiration market_day : ℕ) → ℤ
calendar_dte expiration market_day = sub_ℕ expiration market_day

-- rule.minimum <= dte <= rule.maximum
abbrev pub holds : DteBucketRule → ℤ → Bool
holds rule dte = leb_ℤ (pos rule.minimum) dte && leb_ℤ dte (pos rule.maximum)

unfoldable pub bucket_for_dte : ℤ → List DteBucketRule → Option DteBucket
bucket_for_dte dte [] = none
bucket_for_dte dte (rule ∷ rest) =
    let later = bucket_for_dte dte rest in if holds rule dte then some rule.bucket else later
