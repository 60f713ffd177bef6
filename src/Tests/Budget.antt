-- ===== src/Tests/Budget.antt =====
-- The budget on the expiries of one ticker.
use options_anomaly_scanner.Prelude.{
  ℕ, ◌≤◌, ◌≡◌, refl, ◌⊎◌, true, false, none, some, List, [], ◌∷◌, ltb, length, In, here, there,
}
use options_anomaly_scanner.Prelude.Int.{pos, leb_ℤ}
use options_anomaly_scanner.Routes.{radar_event, full_deep_dive_eligible, ordered_trigger_sources}
use options_anomaly_scanner.Routes.Budget.{
  Expiry, RadarEvent, Ranking, max_deep_tickers, max_expiries_per_ticker, is_known,
  select_within_budget, select_dual,
}
use options_anomaly_scanner.Routes.Budget.Limits.{taken, IsExhausted}
use options_anomaly_scanner.Routes.Budget.Complete.{
  budget_limits, budget_complete, select_dual_eligible,
}

abbrev whole : Ranking ℕ
whole = record { lt = ltb; zero_value = 0; text_lt = λ s t. false }

abbrev expiry : ℕ → Expiry ℕ
expiry day = record {
  id = day;
  ticker = "NVDA";
  expiration = day;
  dte_at_detection = pos 20;
  same_day_activity_score = none;
  radar_route_eligible = false;
  persistent_route_eligible = false;
  deep_dive_eligible = true;
  trigger_sources = radar_event ∷ [];
}

abbrev four_expiries : List (Expiry ℕ)
four_expiries = expiry 1 ∷ expiry 2 ∷ expiry 3 ∷ expiry 4 ∷ []

budget_limits_example :
    let b = select_within_budget four_expiries in
    (length b.tickers ≤ max_deep_tickers)
    × (taken "NVDA" b ≤ max_expiries_per_ticker)
    × (is_known "NVDA" b.tickers ≡ ltb 0 (taken "NVDA" b))
budget_limits_example = budget_limits four_expiries "NVDA"

budget_complete_example :
    In (expiry 4) (select_within_budget four_expiries).selected
    ⊎ IsExhausted "NVDA" (select_within_budget four_expiries)
budget_complete_example =
    budget_complete (expiry 4) four_expiries (there (there (there (here refl))))

abbrev unmarked : Expiry ℕ
unmarked = record (expiry 7) { deep_dive_eligible = false; trigger_sources = [] }

abbrev marked : Expiry ℕ
marked = record (expiry 7) { radar_route_eligible = true }

abbrev event : RadarEvent ℕ
event = record {
  ticker = "NVDA";
  matched_expiration = some 7;
  scope = full_deep_dive_eligible;
  premium = some 9;
}

select_marked : (select_dual whole (event ∷ []) [] (unmarked ∷ [])).selected ≡ marked ∷ []
unfolding select_dual ordered_trigger_sources
select_marked = refl

select_dual_eligible_example :
    (marked.deep_dive_eligible ≡ true) × (leb_ℤ marked.dte_at_detection (pos 90) ≡ true)
select_dual_eligible_example =
    select_dual_eligible whole (event ∷ []) [] (unmarked ∷ []) marked (rw select_marked (here refl))
