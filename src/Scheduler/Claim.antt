-- ===== src/Scheduler/Claim.antt =====
-- backend/app/scheduler/repository.py: one delivery claims a canonical slot, or finds its owner.
pub mod Once
use Prim.Native.String.{String}
use options_anomaly_scanner.Prelude.{ℕ, Bool, true, false, Option, none, some, List, [], ◌∷◌}
use options_anomaly_scanner.Prelude.Result.{Result, ok, err, slot_conflict_without_visible_owner}
use options_anomaly_scanner.Scheduler.{CanonicalSlotIdentity}
use options_anomaly_scanner.Scheduler.Store.{
  Status, claimed, no_result, Slot, owner, duplicate_delivery_reused, Disposition, Attempt, Session,
}

pub record SlotClaim : Type 0 where
  pub slot : Slot
  pub attempt : Attempt
  pub created : Bool

-- One delivery by the scheduler: the identity of its slot, the start, the job, and the identifiers
-- that uuid4 gives to the rows that it may insert.
pub record Delivery : Type 0 where
  pub identity : CanonicalSlotIdentity
  pub actual_started_at : ℕ
  pub scheduler_job_name : String
  pub new_slot_id : ℕ
  pub new_attempt_id : ℕ

unfoldable pub new_slot : Delivery → Slot
new_slot d = record {
  id = d.new_slot_id;
  slot_type = d.identity.slot_type;
  intended_at = d.identity.intended_at;
  intended_market_date = d.identity.intended_market_date;
  canonical_key = d.identity.canonical_key;
  actual_started_at = d.actual_started_at;
  scheduler_job_name = d.scheduler_job_name;
  status = claimed;
  paid_work_attempted = false;
  network_attempts = 0;
  consumed_units = 0;
  product_candidate_count = 0;
  baseline_count = 0;
  result = no_result;
  completed_at = none;
}

unfoldable pub owner_attempt : Delivery → Slot → Attempt
owner_attempt d slot = record {
  id = d.new_attempt_id;
  slot_id = slot.id;
  scheduler_job_name = d.scheduler_job_name;
  received_at = d.actual_started_at;
  disposition = owner;
  completed_at = none;
  result_status = none;
}

unfoldable pub duplicate_attempt : Delivery → Slot → Attempt
duplicate_attempt d existing = record {
  id = d.new_attempt_id;
  slot_id = existing.id;
  scheduler_job_name = d.scheduler_job_name;
  received_at = d.actual_started_at;
  disposition = duplicate_delivery_reused;
  completed_at = some d.actual_started_at;
  result_status = some existing.status;
}

unfoldable pub finish_attempt : Attempt → ℕ → Disposition → Status → Attempt
finish_attempt attempt completed_at disposition result_status = record attempt {
  disposition = disposition;
  completed_at = some completed_at;
  result_status = some result_status;
}

module _ (s : Session) where
  -- The database after the claim comes back beside the claim or the error.
  unfoldable pub claim_created : Delivery → s.Db → Result SlotClaim × s.Db
  unfolding new_slot owner_attempt
  claim_created d db1 =
      let slot = new_slot d in
      let attempt = owner_attempt d slot in
      (ok (record { slot = slot; attempt = attempt; created = true }), s.save_attempt attempt db1)

  unfoldable pub claim_existing : Delivery → Option Slot → s.Db → Result SlotClaim × s.Db
  unfolding duplicate_attempt
  claim_existing d none db = (err slot_conflict_without_visible_owner, db)
  claim_existing d (some existing) db =
      let duplicate = duplicate_attempt d existing in
      (
        ok (record { slot = existing; attempt = duplicate; created = false }),
        s.save_attempt duplicate db,
      )

  unfoldable pub claim_canonical_slot : Delivery → s.Db → Result SlotClaim × s.Db
  unfolding claim_created claim_existing
  claim_canonical_slot d db = elim (s.insert_slot (new_slot d) db) [
    | some db1 ↦ claim_created d db1
    | none ↦ claim_existing d (s.find_slot d.identity.slot_type d.identity.intended_at db) db
  ]

  -- Deliveries one after another, of any slots in any order, as the database serialises them.
  unfoldable pub claim_all : List Delivery → s.Db → List (Result SlotClaim) × s.Db
  claim_all [] db = ([], db)
  claim_all (d ∷ ds) db =
      let (r, db1) = claim_canonical_slot d db in let (rs, db2) = claim_all ds db1 in (r ∷ rs, db2)
