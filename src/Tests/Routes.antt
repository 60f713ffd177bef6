-- ===== src/Tests/Routes.antt =====
-- Events, sources and requests of deep dives.
use options_anomaly_scanner.Prelude.{
  ℕ, ◌≡◌, refl, ◌↔◌, true, false, none, some, List, [], ◌∷◌, arith, ltb,
}
use options_anomaly_scanner.Prelude.Int.{pos}
use options_anomaly_scanner.Prelude.Order.{LinearOrder}
use options_anomaly_scanner.Prelude.Eq.{ticker_date_eq}
use options_anomaly_scanner.Prelude.Dict.{DistinctKeys, lookup}
use options_anomaly_scanner.Routes.{
  RadarThresholdProfile, evaluate_radar_material_event, Source, radar_event, contract_persistence,
  other, ordered_trigger_sources, DeepDiveRequest, deduplicate_deep_dive_requests, CalendarDate,
  is_standard_monthly_expiry,
}
use options_anomaly_scanner.Routes.Requests.{deduplicate_requests_merged}
use options_anomaly_scanner.Routes.Monthly.{inferred_monthly, standard_monthly_agrees}

-- Decimals that are whole numbers.
whole_irrefl : (a : ℕ) → ltb a a ≡ false
whole_irrefl a = ground arith

whole_trans : (a b c : ℕ) → ltb a b ≡ true → ltb b c ≡ true → ltb a c ≡ true
whole_trans a b c h k = ground arith

whole_ge_trans : (a b c : ℕ) → ltb a b ≡ false → ltb b c ≡ false → ltb a c ≡ false
whole_ge_trans a b c h k = ground arith

abbrev whole : LinearOrder ℕ
whole = record {
  lt = ltb;
  lt_irrefl = whole_irrefl;
  lt_trans = whole_trans;
  ge_trans = whole_ge_trans;
}

abbrev profile : RadarThresholdProfile ℕ
profile = record { enabled = true; min_premium_usd = 1000000; min_abs_oi_diff = pos 500 }

abbrev strict_profile : RadarThresholdProfile ℕ
strict_profile = record { enabled = true; min_premium_usd = 2000000; min_abs_oi_diff = pos 800 }

strict_accepts :
    (evaluate_radar_material_event whole
      (some 2500000)
      (some (pos 900))
      none
      strict_profile).eligible
    ≡ true
unfolding evaluate_radar_material_event
strict_accepts = refl

abbrev mixed : List Source
mixed = contract_persistence ∷ other "EXPIRY_PERSISTENCE" ∷ radar_event ∷ contract_persistence ∷ []

abbrev requests : List DeepDiveRequest
requests =
    record { key = ("NVDA", 740000); source = contract_persistence }
    ∷ record { key = ("TSLA", 740007); source = radar_event }
    ∷ record { key = ("NVDA", 740000); source = radar_event }
    ∷ []

deduplicate_requests_merged_example :
    DistinctKeys (deduplicate_deep_dive_requests requests)
    × (lookup ("NVDA", 740000) (deduplicate_deep_dive_requests requests)
        ≡ some (ordered_trigger_sources (contract_persistence ∷ radar_event ∷ [])))
deduplicate_requests_merged_example = deduplicate_requests_merged ("NVDA", 740000) requests

-- January 2027 begins on a Friday; its third Friday is the 15th.
abbrev third_friday : CalendarDate
third_friday = record { day = 15; first_weekday = 4; days = 31 }

standard_monthly_agrees_example :
    (is_standard_monthly_expiry third_friday ≡ true) ↔ (inferred_monthly third_friday ≡ true)
standard_monthly_agrees_example =
    standard_monthly_agrees third_friday (omega arith) (omega arith) (omega arith)
