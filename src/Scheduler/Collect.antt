-- ===== src/Scheduler/Collect.antt =====
-- backend/app/scheduler/service.py: the work of a claimed slot. The collectors that it calls are
-- other components: what one call of them returns is a parameter.
pub mod Rows
use Prim.Native.String.{String}
use text.Mathlib.Text.{◌==◌ as str_eq}
use options_anomaly_scanner.Prelude.{
  ℕ, ◌+◌, ◌≡◌, Bool, true, false, not, Option, none, some, List, [], ◌∷◌, ltb, ◌==◌, if◌then◌else◌,
}
use options_anomaly_scanner.Prelude.Int.{pos, ltb_ℤ}
use options_anomaly_scanner.Prelude.Eq.{string_eq}
use options_anomaly_scanner.Prelude.Dict.{Dict, put}
use options_anomaly_scanner.Prelude.Result.{
  Error, Result, ok, err, actual_start_precedes_intended_slot,
}
use options_anomaly_scanner.Time.{DateTime, Market}
use options_anomaly_scanner.Sessions.{PlanStatus, RadarOiSchedulePlan, radar_oi_plan_at}
use options_anomaly_scanner.Scheduler.{
  Text, CanonicalSlotType, radar_oi, dealer_gex, activity_vnext, CanonicalSlotIdentity,
  actual_market_date, execution_delay_seconds,
}
use options_anomaly_scanner.Scheduler.Store.{
  Status, failed, held_not_ready, skipped_outside_intended_market_date, skipped, reported,
  SlotResult, actual_date_mismatch, source_validity_guard, safe_error, daily_collection,
  dealer_archive, activity_incomplete, observation_not_ready, observation_complete, Slot, Attempt,
  executed, Session,
}
use options_anomaly_scanner.Scheduler.Claim.{
  SlotClaim, Delivery, finish_attempt, claim_canonical_slot,
}

-- The summaries that the collectors return.
pub record DailySummary : Type 0 where
  pub daily_run_id : ℕ
  pub status : String
  -- of each subjob, what it has under "status"
  pub subjobs : Dict String (Option String)
  pub network_attempts : ℕ
  pub consumed_quota_units : ℕ

pub record ArchiveSummary : Type 0 where
  pub archive_run_id : Option ℕ
  pub status : String
  -- of each row, the text of its ticker and what it has under "status"
  pub tickers : List (String × Option String)
  pub network_attempts : ℕ
  pub consumed_quota_units : ℕ

pub record ObservationSummary : Type 0 where
  pub scan_run_id : ℕ
  pub scan_status : String
  pub observation_status : String
  pub network_attempts : ℕ
  pub consumed_quota_units : ℕ
  pub candidate_count : ℕ
  pub baseline_count : ℕ

-- A call of a collector returns, or raises. Before it raises it may have committed the session,
-- and with it what the orchestrator had written to the slot so far.
pub data Outcome (A : Type 0) : Type 0 where
  returned : A → Outcome A
  raised : Error → (committed : Bool) → Outcome A

pub data Observation : Type 0 where
  observed : ObservationSummary → Observation
  not_ready : (readiness : String) → Observation
  observation_raised : Error → (committed : Bool) → Observation

pub record Collectors : Type 0 where
  pub daily_radar_oi : Delivery → Outcome DailySummary
  pub daily_activity : Delivery → Outcome DailySummary
  pub dealer_archiver : Delivery → Outcome ArchiveSummary
  pub vnext_observation : Delivery → Observation

-- The calls of collectors that a delivery makes.
pub data Call : Type 0 where
  call_radar_oi : Call
  call_dealer_gex : Call
  call_activity : Call
  call_observation : Call

-- What a slot's work leaves: the slot to be completed with its status and result, or an error and
-- the slot as it was last committed by a collector, if it was.
pub record Completed : Type 0 where
  pub slot : Slot
  pub status : Status
  pub result : SlotResult

pub data Work : Type 0 where
  done : Completed → List Call → Work
  failing : Error → (persisted : Option Slot) → List Call → Work

-- claim.slot.network_attempts, consumed_units and paid_work_attempted, from a summary
charge : Slot → ℕ → ℕ → Slot
charge slot network_attempts consumed_units = record slot {
  network_attempts = network_attempts;
  consumed_units = consumed_units;
  paid_work_attempted = ltb 0 network_attempts;
}

-- What the session holds of the slot after a collector raised.
persisted_if : Bool → Slot → Option Slot
persisted_if true slot = some slot
persisted_if false slot = none

-- {str(row.get("ticker")): row.get("status") for row in summary.tickers}, a later row winning.
ticker_statuses :
    Dict String (Option String) → List (String × Option String) → Dict String (Option String)
unfolding put
ticker_statuses d [] = d
ticker_statuses d ((ticker, status) ∷ rest) = ticker_statuses (put ticker status d) rest

radar_outcome : Slot → Outcome DailySummary → Work
radar_outcome slot (raised e committed) =
    failing e (persisted_if committed slot) (call_radar_oi ∷ [])
radar_outcome slot (returned summary) =
    done
      (record {
        slot = charge slot summary.network_attempts summary.consumed_quota_units;
        status = reported summary.status;
        result = daily_collection summary.daily_run_id summary.subjobs;
      })
      (call_radar_oi ∷ [])

dealer_outcome : Slot → Outcome ArchiveSummary → Work
unfolding ticker_statuses
dealer_outcome slot (raised e committed) =
    failing e (persisted_if committed slot) (call_dealer_gex ∷ [])
dealer_outcome slot (returned summary) =
    done
      (record {
        slot = charge slot summary.network_attempts summary.consumed_quota_units;
        status = reported summary.status;
        result = dealer_archive summary.archive_run_id (ticker_statuses [] summary.tickers);
      })
      (call_dealer_gex ∷ [])

-- The slot has been charged with the activity run before the observation is called.
observation_outcome : Slot → DailySummary → Observation → Work
observation_outcome charged activity (observation_raised e committed) =
    failing e (persisted_if committed charged) (call_activity ∷ call_observation ∷ [])
observation_outcome charged activity (not_ready readiness) =
    done
      (record {
        slot = charged;
        status = held_not_ready;
        result = observation_not_ready activity.daily_run_id activity.status readiness;
      })
      (call_activity ∷ call_observation ∷ [])
observation_outcome charged activity (observed o) =
    let attempts = charged.network_attempts + o.network_attempts in
    let units = charged.consumed_units + o.consumed_quota_units in
    done
      (record {
        slot = record (charge charged attempts units) {
          product_candidate_count = o.candidate_count;
          baseline_count = o.baseline_count;
        };
        status = reported o.observation_status;
        result =
            observation_complete activity.daily_run_id o.scan_run_id activity.status o.scan_status;
      })
      (call_activity ∷ call_observation ∷ [])

-- `if test: self._complete(...); return`
stop_if : Bool → Completed → List Call → Work → Work
stop_if true c calls rest = done c calls
stop_if false c calls rest = rest

-- Which guard stops a Radar/OI delivery before any call of the collector.
module _ (m : Market) (collectors : Collectors) where
  -- _run_radar_oi
  run_radar_oi : Delivery → Slot → Work
  run_radar_oi d slot =
      let plan = radar_oi_plan_at m d.actual_started_at in
      let wrong_date =
        not (actual_market_date m d.actual_started_at == d.identity.intended_market_date) in
      stop_if wrong_date
        (record {
          slot = slot;
          status = skipped_outside_intended_market_date;
          result = actual_date_mismatch;
        })
        []
        (stop_if (not plan.should_collect)
          (record {
            slot = slot;
            status = skipped plan.status;
            result = source_validity_guard plan.status;
          })
          [] (radar_outcome slot (collectors.daily_radar_oi d)))

  -- _run_dealer_gex
  run_dealer_gex : Delivery → Slot → Work
  run_dealer_gex d slot = dealer_outcome slot (collectors.dealer_archiver d)

  activity_outcome : Delivery → Slot → Outcome DailySummary → Work
  activity_outcome d slot (raised e committed) =
      failing e (persisted_if committed slot) (call_activity ∷ [])
  activity_outcome d slot (returned activity) =
      let charged = charge slot activity.network_attempts activity.consumed_quota_units in
      stop_if (not (str_eq activity.status "COMPLETE"))
        (record {
          slot = charged;
          status = reported activity.status;
          result = activity_incomplete activity.daily_run_id activity.status;
        })
        (call_activity ∷ []) (observation_outcome charged activity (collectors.vnext_observation d))

  -- _run_activity_vnext
  run_activity_vnext : Delivery → Slot → Work
  run_activity_vnext d slot = activity_outcome d slot (collectors.daily_activity d)

  run_slot : CanonicalSlotType → Delivery → Slot → Work
  run_slot radar_oi d slot = run_radar_oi d slot
  run_slot dealer_gex d slot = run_dealer_gex d slot
  run_slot activity_vnext d slot = run_activity_vnext d slot

  -- The dispatch on the slot's type in `execute`.
  pub run_work : Delivery → Slot → Work
  run_work d slot = run_slot d.identity.slot_type d slot
