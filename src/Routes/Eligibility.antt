-- ===== src/Routes/Eligibility.antt =====
-- evaluate_radar_material_event and radar_scope of backend/app/scanner/v13.py.
use options_anomaly_scanner.Prelude.{
  ◌≡◌, ◌↔◌, Bool, true, false, Option, none, some, [], ◌∷◌, arith,
}
use options_anomaly_scanner.Prelude.Int.{ℤ, pos, negsuc, abs, ltb_ℤ, leb_ℤ}
use options_anomaly_scanner.Prelude.Order.{LinearOrder}
use options_anomaly_scanner.Routes.{
  RadarThresholdProfile, radar_material_event, low_oi_base, evaluate_radar_material_event,
  radar_scope, full_deep_dive_eligible, long_dte_radar_watch,
}

-- A known previous open interest under 100.
abbrev pub IsLowBase : Option ℤ → Type 0
IsLowBase none = ⊥
IsLowBase (some oi) = ltb_ℤ oi (pos 100) ≡ true

module _ {D : Type 0} (order : LinearOrder D) where
  -- What the documentation of the gate asks of an event, in one formula.
  abbrev pub IsMaterial : Option D → Option ℤ → RadarThresholdProfile D → Type 0
  IsMaterial none oi_diff profile = ⊥
  IsMaterial (some premium) none profile = ⊥
  IsMaterial (some premium) (some diff) profile =
      (profile.enabled ≡ true)
      × (order.lt premium profile.min_premium_usd ≡ false)
      × (leb_ℤ profile.min_abs_oi_diff (pos (abs diff)) ≡ true)

  -- An event is eligible exactly when the profile is enabled and both values are present and reach
  -- their minimums; its reason is then the material one, and only then. The risk flag depends on
  -- the previous open interest alone.
  pub radar_event-IsMaterial :
      (premium : Option D) (diff previous : Option ℤ) (profile : RadarThresholdProfile D)
      → (((evaluate_radar_material_event order premium diff previous profile).eligible ≡ true)
          ↔ IsMaterial premium diff profile)
        × (((evaluate_radar_material_event order premium diff previous profile).reason
              ≡ radar_material_event)
            ↔ IsMaterial premium diff profile)
        × (((evaluate_radar_material_event order premium diff previous profile).risk_flags
              ≡ low_oi_base ∷ [])
            ↔ IsLowBase previous)
  unfolding evaluate_radar_material_event
  radar_event-IsMaterial none diff none profile = ground arith
  radar_event-IsMaterial none diff (some oi) profile = ground arith
  radar_event-IsMaterial (some premium) none none profile = ground arith
  radar_event-IsMaterial (some premium) none (some oi) profile = ground arith
  radar_event-IsMaterial (some premium) (some diff) none profile = ground arith
  radar_event-IsMaterial (some premium) (some diff) (some oi) profile = ground arith

  -- A profile with minimums at least as high accepts only what the lower one accepts.
  pub radar_event_mono :
      (premium : Option D) (diff previous : Option ℤ) (low high : RadarThresholdProfile D)
      → low.enabled ≡ true
      → order.lt high.min_premium_usd low.min_premium_usd ≡ false
      → leb_ℤ low.min_abs_oi_diff high.min_abs_oi_diff ≡ true
      → (evaluate_radar_material_event order premium diff previous high).eligible ≡ true
      → (evaluate_radar_material_event order premium diff previous low).eligible ≡ true
  unfolding evaluate_radar_material_event
  radar_event_mono none diff previous low high on p q h = ground arith
  radar_event_mono (some premium) none previous low high on p q h = ground arith
  radar_event_mono (some premium) (some diff) previous low high on p q h =
      ground (arith, order.ge_trans premium high.min_premium_usd low.min_premium_usd)

-- The scope of an event opens a full deep dive exactly when the event matched a contract of a
-- complete chain that expires in 0 to 90 days, and it is a watch exactly from 91 to 180 days.
pub radar_scope_full :
    (dte : ℤ) (exact complete : Bool)
    → ((radar_scope (some dte) exact complete ≡ full_deep_dive_eligible) ↔ (
        (exact ≡ true)
        × (complete ≡ true)
        × (leb_ℤ (pos 0) dte ≡ true)
        × (leb_ℤ dte (pos 90) ≡ true)))
      × ((radar_scope (some dte) exact complete ≡ long_dte_radar_watch) ↔ (
          (exact ≡ true)
          × (complete ≡ true)
          × (leb_ℤ (pos 91) dte ≡ true)
          × (leb_ℤ dte (pos 180) ≡ true)))
unfolding radar_scope
radar_scope_full dte false complete = ground arith
radar_scope_full (pos n) true complete = ground arith
radar_scope_full (negsuc n) true complete = ground arith
