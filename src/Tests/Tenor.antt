-- ===== src/Tests/Tenor.antt =====
-- An expiration 30 days away.
use options_anomaly_scanner.Tenor.{short, DteBucketRule}

abbrev short_rule : DteBucketRule
short_rule = record { bucket = short; minimum = 8; maximum = 30 }
