-- ===== src/Tests/Scheduler.antt =====
-- Deliveries of the Radar/OI slot of day 10.
use options_anomaly_scanner.Prelude.{
  ℕ, ◌+◌, ◌*◌, ◌≤◌, ◌<◌, ◌≡◌, refl, ◌↔◌, true, false, Option, none, some, [], ◌∷◌, arith,
}
use options_anomaly_scanner.Prelude.Int.{negsuc, ltb_ℤ, pos}
use options_anomaly_scanner.Prelude.Result.{ok, err, raised, actual_start_precedes_intended_slot}
use options_anomaly_scanner.Time.{aware, second}
use options_anomaly_scanner.Sessions.{RadarOiSchedulePlan, radar_oi_schedule_plan}
use options_anomaly_scanner.Scheduler.{
  CanonicalSlotType, radar_oi, CanonicalSlotIdentity, canonical_key, matches_slot, slot_identity,
  execution_delay_seconds, expected_hour, expected_minute,
}
use options_anomaly_scanner.Scheduler.Identity.{
  delay_truncated, slot_identity_jitter, radar_slot_in_window, canonical_key_injective,
}
use options_anomaly_scanner.Scheduler.Store.{Slot, same_slot}
use options_anomaly_scanner.Scheduler.Claim.{
  SlotClaim, Delivery, new_slot, claim_canonical_slot, claim_all,
}
use options_anomaly_scanner.Scheduler.Claim.Once.{owners, taken, claim_all_once, claim_progress}
use options_anomaly_scanner.Scheduler.Collect.{
  Outcome, returned, Observation, not_ready, DailySummary, Collectors,
}
use options_anomaly_scanner.Scheduler.Collect
use options_anomaly_scanner.Scheduler.Execute.{from_claim, execute}
use options_anomaly_scanner.Scheduler.Execute.Completion.{
  IsSettled, execute-IsSettled, execute-duplicate, execute-early,
}
use options_anomaly_scanner.Tests.Clock.{market, market-MinuteZone, formats, formats-StampLaws, at}
use options_anomaly_scanner.Tests.Database.{Tables, empty, store, session, session-SessionLaws}

abbrev radar_slot : CanonicalSlotIdentity
radar_slot = record {
  slot_type = radar_oi;
  intended_at = at 6 30;
  intended_market_date = 10;
  canonical_key = canonical_key market formats radar_oi (at 6 30);
}

-- A schedule time 12 seconds into the minute.
radar_identity : slot_identity market formats radar_oi (at 6 30 + 12 * second) ≡ ok radar_slot
unfolding slot_identity matches_slot expected_hour expected_minute
radar_identity = refl

delay_truncated_example :
    ((execution_delay_seconds radar_slot (at 6 29) ≡ pos 60)
      ↔ ((at 6 30 + 60 * second ≤ at 6 29) × (at 6 29 < at 6 30 + 61 * second)))
    × ((execution_delay_seconds radar_slot (at 6 29) ≡ negsuc 59)
        ↔ ((at 6 29 + 60 * second ≤ at 6 30) × (at 6 30 < at 6 29 + 61 * second)))
delay_truncated_example = delay_truncated radar_slot (at 6 29) 59

slot_identity_jitter_example :
    slot_identity market formats radar_oi (at 6 30 + 12 * second)
    ≡ slot_identity market formats radar_oi (at 6 30)
slot_identity_jitter_example =
    slot_identity_jitter market formats market-MinuteZone radar_oi (at 6 30 + 12 * second) (at 6 30)
      refl

radar_slot_in_window_example :
    (p : RadarOiSchedulePlan) × (radar_oi_schedule_plan market (aware (at 6 30)) ≡ ok p)
    × (p.market_date ≡ 10)
    × (p.should_collect ≡ true)
radar_slot_in_window_example =
    radar_slot_in_window market formats market-MinuteZone (at 6 30 + 12 * second) radar_slot
      radar_identity refl

canonical_key_injective_example :
    (radar_slot.slot_type ≡ radar_slot.slot_type)
    × (radar_slot.intended_at ≡ radar_slot.intended_at)
canonical_key_injective_example =
    canonical_key_injective market formats formats-StampLaws radar_oi radar_oi
      (at 6 30 + 12 * second) (at 6 30 + 12 * second) radar_slot radar_slot radar_identity
      radar_identity refl

abbrev delivery : ℕ → Delivery
delivery i = record {
  identity = radar_slot;
  actual_started_at = at 6 31;
  scheduler_job_name = "radar-oi";
  new_slot_id = i;
  new_attempt_id = i;
}

claim_all_once_example :
    (owners radar_oi (at 6 30) (claim_all session (delivery 1 ∷ delivery 2 ∷ []) empty).0
        + taken (session.find_slot radar_oi (at 6 30) empty)
      ≡ taken (
          session.find_slot radar_oi
            (at 6 30)
            (claim_all session (delivery 1 ∷ delivery 2 ∷ []) empty).1))
    × (owners radar_oi (at 6 30) (claim_all session (delivery 1 ∷ delivery 2 ∷ []) empty).0 ≤ 1)
claim_all_once_example =
    claim_all_once session session-SessionLaws (delivery 1 ∷ delivery 2 ∷ []) empty radar_oi
      (at 6 30)

no_key :
    (r : Slot)
    → ◌≡◌ {A = Option Slot} none (some r)
    → session.find_slot radar_oi (at 6 30) empty ≡ some r
no_key r h = cc

claim_progress_example :
    (claim : SlotClaim) × ((claim_canonical_slot session (delivery 1) empty).0 ≡ ok claim)
    × (same_slot claim.slot radar_oi (at 6 30) ≡ true)
    × (session.find_slot radar_oi (at 6 30) (claim_canonical_slot session (delivery 1) empty).1
        ≡ some claim.slot)
    × (claim.created ≡ true)
claim_progress_example = claim_progress session session-SessionLaws (delivery 1) empty no_key

-- The Radar/OI collector raises; the others are not called by these deliveries.
abbrev collectors : Collectors
collectors = record {
  daily_radar_oi = λ d. Collect.raised (raised "TimeoutError") false;
  daily_activity = λ d. Collect.raised (raised "TimeoutError") false;
  dealer_archiver = λ d. Collect.raised (raised "TimeoutError") false;
  vnext_observation = λ d. not_ready "NOT_READY";
}

abbrev claimed : Tables
claimed = store (new_slot (delivery 1)) empty

insert_first : session.insert_slot (new_slot (delivery 1)) empty ≡ some claimed
unfolding new_slot
insert_first = refl

on_time : ltb_ℤ (execution_delay_seconds radar_slot (at 6 31)) (pos 0) ≡ false
unfolding execution_delay_seconds
on_time = refl

execute-IsSettled_example :
    IsSettled session
      (delivery 1)
      (at 6 32)
      (execute session market collectors (delivery 1) (at 6 32) empty)
execute-IsSettled_example =
    execute-IsSettled session session-SessionLaws market collectors (delivery 1) (at 6 32) empty
      claimed on_time insert_first

taken_slot : session.find_slot radar_oi (at 6 30) claimed ≡ some (new_slot (delivery 1))
unfolding new_slot
taken_slot = refl

execute-duplicate_example :
    ((execute session market collectors (delivery 2) (at 6 32) claimed).calls ≡ [])
    × ((execute session market collectors (delivery 2) (at 6 32) claimed).outcome
        ≡ ok (from_claim (new_slot (delivery 1)) false radar_slot))
    × ((slot_type : CanonicalSlotType) (t : ℕ)
        → session.find_slot slot_type t
            (execute session market collectors (delivery 2) (at 6 32) claimed).db
          ≡ session.find_slot slot_type t claimed)
execute-duplicate_example =
    execute-duplicate session session-SessionLaws market collectors (delivery 2) (at 6 32) claimed
      (new_slot (delivery 1)) on_time taken_slot

abbrev early : Delivery
early = record (delivery 1) { actual_started_at = at 6 0 }

execute-early_example :
    execute session market collectors early (at 6 32) empty
    ≡ record { outcome = err actual_start_precedes_intended_slot; db = empty; calls = [] }
execute-early_example =
    execute-early session session-SessionLaws market collectors early (at 6 32) empty (omega arith)
