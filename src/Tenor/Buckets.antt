-- ===== src/Tenor/Buckets.antt =====
-- bucket_for_dte of backend/app/models/signals.py under the default rules.
use options_anomaly_scanner.Prelude.{
  ℕ, ◌+◌, ◌≡◌, sym, true, ◌&&◌, some, arith, leb, is_some, In, here, there,
}
use options_anomaly_scanner.Prelude.Int.{ℤ}
use options_anomaly_scanner.Tenor.{
  DteBucketRule, default_dte_bucket_rules, bucket_for_dte, calendar_dte, holds,
}

-- The calendar distance of an expiration on or after the market's day and at most 180 days away has
-- a bucket, any other distance has none.
pub bucket_range :
    (expiration market_day : ℕ)
    → is_some (bucket_for_dte (calendar_dte expiration market_day) default_dte_bucket_rules)
      ≡ (leb market_day expiration && leb expiration (market_day + 180))
unfolding bucket_for_dte calendar_dte
bucket_range expiration market_day = ground arith

holds_equal :
    {rule rule' : DteBucketRule} (dte : ℤ)
    → rule ≡ rule'
    → holds rule dte ≡ true
    → holds rule' dte ≡ true
holds_equal dte e h = rw (sym e) h

-- Every default rule that holds of a distance gives its own bucket: the rules do not overlap, so
-- that their order does not matter.
pub bucket_unique :
    (rule : DteBucketRule) (dte : ℤ)
    → In rule default_dte_bucket_rules
    → holds rule dte ≡ true
    → bucket_for_dte dte default_dte_bucket_rules ≡ some rule.bucket
unfolding bucket_for_dte
bucket_unique rule dte (here e) h = rw e (ground (arith, holds_equal dte e h))
bucket_unique rule dte (there (here e)) h = rw e (ground (arith, holds_equal dte e h))
bucket_unique rule dte (there (there (here e))) h = rw e (ground (arith, holds_equal dte e h))
bucket_unique rule dte (there (there (there (here e)))) h =
    rw e (ground (arith, holds_equal dte e h))
bucket_unique rule dte (there (there (there (there m)))) h = elim m [ ]
