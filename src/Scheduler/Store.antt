-- ===== src/Scheduler/Store.antt =====
-- The rows of CanonicalSchedulerSlot and CanonicalSchedulerAttempt of backend/app/db/models.py, and
-- the database session that the repository uses, which is a library's: its operations are
-- parameters, with what the repository relies on as laws.
use Prim.Native.String.{String}
use options_anomaly_scanner.Prelude.{
  ℕ, ◌≡◌, Bool, true, Option, none, some, ◌&&◌, ◌==◌, if◌then◌else◌,
}
use options_anomaly_scanner.Prelude.Result.{Error}
use options_anomaly_scanner.Sessions.{PlanStatus}
use options_anomaly_scanner.Prelude.Dict.{Dict}
use options_anomaly_scanner.Scheduler.{Text, CanonicalSlotType, slot_eq}

-- The texts of the column `status`; a pipeline reports one of its own.
pub data Status : Type 0 where
  claimed : Status
  failed : Status
  held_not_ready : Status
  skipped_outside_intended_market_date : Status
  skipped : PlanStatus → Status
  reported : String → Status

-- The dictionaries that the orchestrator stores in the column `result`.
pub data SlotResult : Type 0 where
  no_result : SlotResult
  actual_date_mismatch : SlotResult
  source_validity_guard : PlanStatus → SlotResult
  safe_error : Error → SlotResult
  daily_collection : (run_id : ℕ) (subjob_statuses : Dict String (Option String)) → SlotResult
  dealer_archive : (run_id : Option ℕ) (ticker_statuses : Dict String (Option String)) → SlotResult
  activity_incomplete : (run_id : ℕ) (status : String) → SlotResult
  observation_not_ready : (run_id : ℕ) (status readiness : String) → SlotResult
  observation_complete : (run_id scan_run_id : ℕ) (status scan_status : String) → SlotResult

pub record Slot : Type 0 where
  pub id : ℕ
  pub slot_type : CanonicalSlotType
  pub intended_at : ℕ
  pub intended_market_date : ℕ
  pub canonical_key : Text
  pub actual_started_at : ℕ
  pub scheduler_job_name : String
  pub status : Status
  pub paid_work_attempted : Bool
  pub network_attempts : ℕ
  pub consumed_units : ℕ
  pub product_candidate_count : ℕ
  pub baseline_count : ℕ
  pub result : SlotResult
  pub completed_at : Option ℕ

pub data Disposition : Type 0 where
  owner : Disposition
  duplicate_delivery_reused : Disposition
  executed : Disposition

pub record Attempt : Type 0 where
  pub id : ℕ
  pub slot_id : ℕ
  pub scheduler_job_name : String
  pub received_at : ℕ
  pub disposition : Disposition
  pub completed_at : Option ℕ
  pub result_status : Option Status

-- One committed state of the two tables, and what the session does with it. `insert_slot` is
-- `add` and `flush` of a new row, `none` standing for the IntegrityError after which the session is
-- rolled back; the saves are the commit of a changed row.
pub record Session : Type 1 where
  pub Db : Type 0
  pub find_slot : CanonicalSlotType → ℕ → Db → Option Slot
  pub find_key : Text → Db → Option Slot
  pub get_slot : ℕ → Db → Option Slot
  pub get_attempt : ℕ → Db → Option Attempt
  pub insert_slot : Slot → Db → Option Db
  pub save_slot : Slot → Db → Db
  pub save_attempt : Attempt → Db → Db

-- The same slot type and the same intended instant.
abbrev pub same_slot : Slot → CanonicalSlotType → ℕ → Bool
same_slot s slot_type intended_at = slot_eq s.slot_type slot_type && s.intended_at == intended_at

-- What the two uniqueness constraints of CanonicalSchedulerSlot, a commit and a query by key mean.
pub record SessionLaws (s : Session) : Type 0 where
  pub insert_taken_slot :
      (r owner : Slot) (db : s.Db)
      → s.find_slot r.slot_type r.intended_at db ≡ some owner
      → s.insert_slot r db ≡ none
  pub insert_taken_key :
      (r owner : Slot) (db : s.Db)
      → s.find_key r.canonical_key db ≡ some owner
      → s.insert_slot r db ≡ none
  pub insert_free :
      (r : Slot) (db : s.Db)
      → s.find_slot r.slot_type r.intended_at db ≡ none
      → s.find_key r.canonical_key db ≡ none
      → (db' : s.Db) × (s.insert_slot r db ≡ some db')
  pub find_sound :
      (db : s.Db) (slot_type : CanonicalSlotType) (at : ℕ) (r : Slot)
      → s.find_slot slot_type at db ≡ some r
      → same_slot r slot_type at ≡ true
  pub find-insert :
      (r : Slot) (db db' : s.Db) (slot_type : CanonicalSlotType) (at : ℕ)
      → s.insert_slot r db ≡ some db'
      → s.find_slot slot_type at db'
        ≡ (if same_slot r slot_type at then some r else s.find_slot slot_type at db)
  pub get-insert :
      (r : Slot) (db db' : s.Db) → s.insert_slot r db ≡ some db' → s.get_slot r.id db' ≡ some r
  pub find-save_attempt :
      (a : Attempt) (db : s.Db) (slot_type : CanonicalSlotType) (at : ℕ)
      → s.find_slot slot_type at (s.save_attempt a db) ≡ s.find_slot slot_type at db
  pub get_slot-save_attempt :
      (a : Attempt) (db : s.Db) (i : ℕ) → s.get_slot i (s.save_attempt a db) ≡ s.get_slot i db
  pub get_attempt-save_attempt :
      (a : Attempt) (db : s.Db) → s.get_attempt a.id (s.save_attempt a db) ≡ some a
  -- An update keeps the row's identity, which no handler changes.
  pub find-save_slot :
      (r old : Slot) (db : s.Db) (slot_type : CanonicalSlotType) (at : ℕ)
      → s.get_slot r.id db ≡ some old
      → same_slot old r.slot_type r.intended_at ≡ true
      → s.find_slot slot_type at (s.save_slot r db)
        ≡ (if same_slot r slot_type at then some r else s.find_slot slot_type at db)
  pub get-save_slot :
      (r old : Slot) (db : s.Db)
      → s.get_slot r.id db ≡ some old
      → s.get_slot r.id (s.save_slot r db) ≡ some r
