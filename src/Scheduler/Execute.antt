-- ===== src/Scheduler/Execute.antt =====
-- backend/app/scheduler/service.py: a delivery is refused, finds its slot's owner, or owns the slot;
-- then the work runs and the slot and the attempt are completed, on the failing paths too.
pub mod Completion
use options_anomaly_scanner.Prelude.{
  ℕ, Bool, true, false, Option, none, some, List, [], ◌∷◌, ◌++◌, if◌then◌else◌,
}
use options_anomaly_scanner.Prelude.Int.{ℤ, pos, ltb_ℤ}
use options_anomaly_scanner.Prelude.Result.{
  Error, Result, ok, err, actual_start_precedes_intended_slot,
}
use options_anomaly_scanner.Time.{Market}
use options_anomaly_scanner.Scheduler.{CanonicalSlotIdentity, execution_delay_seconds}
use options_anomaly_scanner.Scheduler.Store.{
  Status, failed, SlotResult, safe_error, Slot, Attempt, executed, Session,
}
use options_anomaly_scanner.Scheduler.Claim.{
  SlotClaim, Delivery, finish_attempt, claim_canonical_slot,
}
use options_anomaly_scanner.Scheduler.Collect.{
  Completed, Work, done, failing, Call, Collectors, run_work,
}

-- CanonicalExecutionResult.from_claim: the slot's fields, the delay and whether this delivery
-- created the slot.
pub record CanonicalExecutionResult : Type 0 where
  pub slot : Slot
  pub execution_delay_seconds : ℤ
  pub created_execution_state : Bool

unfoldable pub from_claim : Slot → Bool → CanonicalSlotIdentity → CanonicalExecutionResult
from_claim slot created identity = record {
  slot = slot;
  execution_delay_seconds = execution_delay_seconds identity slot.actual_started_at;
  created_execution_state = created;
}

-- What _complete writes to the slot.
unfoldable pub complete_slot : Slot → ℕ → Status → SlotResult → Slot
complete_slot slot completed_at status result = record slot {
  status = status;
  result = result;
  completed_at = some completed_at;
}

-- What a delivery leaves: its result or its error, the database, and the calls of collectors that
-- it made.
pub record Execution (Db : Type 0) : Type 0 where
  pub outcome : Result CanonicalExecutionResult
  pub db : Db
  pub calls : List Call

module _ (s : Session) where
  -- _complete: the slot and the attempt are committed together.
  complete : Attempt → Slot → ℕ → Status → SlotResult → s.Db → s.Db
  unfolding complete_slot finish_attempt
  complete attempt slot completed_at status result db =
      s.save_attempt (finish_attempt attempt completed_at executed status)
        (s.save_slot (complete_slot slot completed_at status result) db)

  save_persisted : Option Slot → s.Db → s.Db
  save_persisted none db = db
  save_persisted (some slot) db = s.save_slot slot db

  -- The handler of an exception: the slot is read again after the rollback, and the error goes on.
  fail_slot : SlotClaim → ℕ → Error → Option Slot → s.Db → s.Db
  unfolding complete
  fail_slot claim completed_at e none db = db
  fail_slot claim completed_at e (some row) db =
      complete claim.attempt row completed_at failed (safe_error e) db

  settle : Delivery → ℕ → SlotClaim → s.Db → Work → Execution s.Db
  unfolding complete save_persisted fail_slot complete_slot from_claim
  settle d completed_at claim db (done c calls) = record {
    outcome =
        ok (
          from_claim (complete_slot c.slot completed_at c.status c.result) claim.created
            d.identity);
    db = complete claim.attempt c.slot completed_at c.status c.result db;
    calls = calls;
  }
  settle d completed_at claim db (failing e persisted calls) =
      let rolled_back = save_persisted persisted db in
      record {
        outcome = err e;
        db = fail_slot claim completed_at e (s.get_slot claim.slot.id rolled_back) rolled_back;
        calls = calls;
      }

module _ (s : Session) (m : Market) (collectors : Collectors) where
  after_claim : Delivery → ℕ → Result SlotClaim → s.Db → Execution s.Db
  unfolding settle from_claim
  after_claim d completed_at (err e) db = record { outcome = err e; db = db; calls = [] }
  after_claim d completed_at (ok claim) db =
      if claim.created
      then settle s d completed_at claim db (run_work m collectors d claim.slot)
      else record {
        outcome = ok (from_claim claim.slot claim.created d.identity);
        db = db;
        calls = [];
      }

  -- `completed_at` is the clock at completion.
  unfoldable pub execute : Delivery → ℕ → s.Db → Execution s.Db
  unfolding after_claim
  execute d completed_at db =
      if ltb_ℤ (execution_delay_seconds d.identity d.actual_started_at) (pos 0)
      then record { outcome = err actual_start_precedes_intended_slot; db = db; calls = [] }
      else (let (claim, db1) = claim_canonical_slot s d db in after_claim d completed_at claim db1)
