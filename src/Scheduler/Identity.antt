-- ===== src/Scheduler/Identity.antt =====
-- The identities and the delay of backend/app/scheduler/domain.py.
use options_anomaly_scanner.Prelude.{
  ℕ, suc, ◌+◌, ◌*◌, ◌/◌, ◌%◌, ◌≤◌, ◌<◌, ◌≡◌, refl, ◌↔◌, true, ◌∷◌, ◌++◌, arith, [], ◌∙◌, length,
}
use options_anomaly_scanner.Prelude.Int.{pos, negsuc, ltb_ℤ}
use options_anomaly_scanner.Prelude.Result.{ok}
use options_anomaly_scanner.Time.{
  aware, hour, minute, second, floor_minute, Market, MinuteZone, time_of_day,
}
use options_anomaly_scanner.Sessions.{RadarOiSchedulePlan, radar_oi_schedule_plan}
use options_anomaly_scanner.Sessions.Windows.{radar_plan_window}
use options_anomaly_scanner.Scheduler.{
  Text, codes, CanonicalSlotType, radar_oi, dealer_gex, activity_vnext, value,
  CanonicalSlotIdentity, Formats, canonical_key, matches_slot, slot_identity,
  execution_delay_seconds,
}

-- The delay is negative exactly when the start is a whole second or more before the intended
-- instant.
pub delay_negative :
    (identity : CanonicalSlotIdentity) (actual : ℕ)
    → (ltb_ℤ (execution_delay_seconds identity actual) (pos 0) ≡ true)
      ↔ (actual + second ≤ identity.intended_at)
unfolding execution_delay_seconds
delay_negative identity actual = ground arith

-- The delay is n + 1 seconds exactly when the start is at least that much after the intended
-- instant, and less than a second more; and minus n + 1 seconds exactly when it is as far before it.
-- So it is zero where the two are less than a second apart.
pub delay_truncated :
    (identity : CanonicalSlotIdentity) (actual n : ℕ)
    → ((execution_delay_seconds identity actual ≡ pos (suc n)) ↔ (
        (identity.intended_at + suc n * second ≤ actual)
        × (actual < identity.intended_at + suc (suc n) * second)))
      × ((execution_delay_seconds identity actual ≡ negsuc n) ↔ (
          (actual + suc n * second ≤ identity.intended_at)
          × (identity.intended_at < actual + suc (suc n) * second)))
unfolding execution_delay_seconds
delay_truncated identity actual n = ground arith

floor-hour : (x : ℕ) → floor_minute x / hour ≡ x / hour
floor-hour x = omega arith

floor-minute : (x : ℕ) → floor_minute x % hour / minute ≡ x % hour / minute
floor-minute x = omega arith

-- The heads of two equal texts of the same first length are equal.
append_injective : (a b x y : Text) → length a ≡ length b → (a ++ x) ≡ (b ++ y) → a ≡ b
append_injective [] [] x y l h = refl
append_injective [] (d ∷ b) x y l h = absurd (omega arith)
append_injective (c ∷ a) [] x y l h = absurd (omega arith)
append_injective (c ∷ a) (d ∷ b) x y l h =
    let head : c ≡ d = cc in
    let tail : (a ++ x) ≡ (b ++ y) = cc in
    let lengths : length a ≡ length b = omega arith in
    cc (head, append_injective a b x y lengths tail)

append_cancel : (p x y : Text) → (p ++ x) ≡ (p ++ y) → x ≡ y
append_cancel [] x y h = h
append_cancel (c ∷ p) x y h = let tail : (p ++ x) ≡ (p ++ y) = cc in append_cancel p x y tail

-- An instant that matches 06:30 lies between 06:00 and 08:00.
half_past :
    (m : Market) (formats : Formats) (t : ℕ)
    → matches_slot m formats radar_oi t ≡ true
    → (time_of_day 6 0 ≤ m.local_time t) × (m.local_time t ≤ time_of_day 8 0)
unfolding matches_slot
half_past m formats t h = ground arith

-- strftime writes years of four digits in as many characters, and no two seconds alike.
pub record StampLaws (formats : Formats) : Type 0 where
  pub stamp_length : (a b : ℕ) → length (formats.stamp a) ≡ length (formats.stamp b)
  pub stamp_injective :
      (a b : ℕ) → a % second ≡ 0 → b % second ≡ 0 → formats.stamp a ≡ formats.stamp b → a ≡ b

module _ (m : Market) (formats : Formats) where
  slot_identity_fields :
      (s : CanonicalSlotType) (t : ℕ) (identity : CanonicalSlotIdentity)
      → slot_identity m formats s t ≡ ok identity
      → (matches_slot m formats s t ≡ true)
        × (identity.slot_type ≡ s)
        × (identity.intended_at ≡ floor_minute t)
        × (identity.intended_market_date ≡ m.local_day (floor_minute t))
        × (identity.canonical_key ≡ canonical_key m formats s (floor_minute t))
  unfolding slot_identity
  slot_identity_fields s t identity h = ground arith

  -- The slot type and the stamp of equal keys agree.
  same_type :
      (s s' : CanonicalSlotType) (a b : ℕ)
      → canonical_key m formats s a ≡ canonical_key m formats s' b
      → s ≡ s'
  unfolding canonical_key
  same_type radar_oi radar_oi a b h = refl
  same_type dealer_gex dealer_gex a b h = refl
  same_type activity_vnext activity_vnext a b h = refl
  same_type radar_oi dealer_gex a b h = absurd (ground arith)
  same_type radar_oi activity_vnext a b h = absurd (ground arith)
  same_type dealer_gex radar_oi a b h = absurd (ground arith)
  same_type dealer_gex activity_vnext a b h = absurd (ground arith)
  same_type activity_vnext radar_oi a b h = absurd (ground arith)
  same_type activity_vnext dealer_gex a b h = absurd (ground arith)

  module _ (laws : StampLaws formats) where
    same_stamp :
        (s : CanonicalSlotType) (a b : ℕ)
        → canonical_key m formats s a ≡ canonical_key m formats s b
        → formats.stamp a ≡ formats.stamp b
    unfolding canonical_key
    same_stamp s a b h =
        append_injective (formats.stamp a) (formats.stamp b) _ _ (laws.stamp_length a b)
          (append_cancel (codes ":") _ _ (append_cancel (value s) _ _ h))

    -- Two identities with the same key have the same slot type and the same instant: the two
    -- uniqueness constraints on the slots never disagree.
    pub canonical_key_injective :
        (s s' : CanonicalSlotType) (t t' : ℕ) (i i' : CanonicalSlotIdentity)
        → slot_identity m formats s t ≡ ok i
        → slot_identity m formats s' t' ≡ ok i'
        → i.canonical_key ≡ i'.canonical_key
        → (i.slot_type ≡ i'.slot_type) × (i.intended_at ≡ i'.intended_at)
    canonical_key_injective s s' t t' i i' h h' e =
        let fields = slot_identity_fields s t i h in
        let fields' = slot_identity_fields s' t' i' h' in
        let keys : canonical_key m formats s (floor_minute t)
            ≡ canonical_key m formats s' (floor_minute t') =
          cc (fields.4, fields'.4) in
        let types : s ≡ s' = same_type s s' _ _ keys in
        let keys' : canonical_key m formats s (floor_minute t)
            ≡ canonical_key m formats s (floor_minute t') =
          cc (keys, types) in
        let instants : floor_minute t ≡ floor_minute t' =
          laws.stamp_injective (floor_minute t) (floor_minute t') (omega arith) (omega arith)
            (same_stamp s _ _ keys') in
        (cc (fields.1, fields'.1, types), cc (fields.2, fields'.2, instants))

module _ (m : Market) (formats : Formats) (zone : MinuteZone m) where
  matches-floor :
      (s : CanonicalSlotType) (t : ℕ)
      → matches_slot m formats s (floor_minute t) ≡ matches_slot m formats s t
  unfolding matches_slot
  matches-floor s t = simp (zone.time_floor, floor-hour, floor-minute)

  -- Two schedule times of one minute give one identity, or the same error: seconds of jitter in the
  -- delivery make no second slot.
  pub slot_identity_jitter :
      (s : CanonicalSlotType) (t t' : ℕ)
      → floor_minute t ≡ floor_minute t'
      → slot_identity m formats s t ≡ slot_identity m formats s t'
  unfolding slot_identity
  slot_identity_jitter s t t' h = rw (← matches-floor s t, ← matches-floor s t', h)

  -- The Radar/OI slot lies in the window in which Radar/OI may be collected: a delivery that starts
  -- at the intended instant of a session is collected.
  pub radar_slot_in_window :
      (t : ℕ) (identity : CanonicalSlotIdentity)
      → slot_identity m formats radar_oi t ≡ ok identity
      → m.is_session identity.intended_market_date ≡ true
      → (p : RadarOiSchedulePlan) × (radar_oi_schedule_plan m (aware identity.intended_at) ≡ ok p)
        × (p.market_date ≡ identity.intended_market_date)
        × (p.should_collect ≡ true)
  radar_slot_in_window t identity h session =
      let fields = slot_identity_fields m formats radar_oi t identity h in
      let (p, planned, day, window, status) = radar_plan_window m identity.intended_at in
      let same_day : m.local_day identity.intended_at ≡ identity.intended_market_date =
        cc (fields.2, fields.3) in
      let matched : matches_slot m formats radar_oi identity.intended_at ≡ true =
        rw fields.2 (rw (matches-floor radar_oi t) fields.0) in
      let clock = half_past m formats identity.intended_at matched in
      (p, planned, day ∙ same_day, window.1 (rw same_day session, clock.0, clock.1))
