-- ===== src/Scheduler/Execute/Completion.antt =====
-- The slot and the attempt after execute of backend/app/scheduler/service.py.
use options_anomaly_scanner.Prelude.{
  ℕ, ◌+◌, ◌≤◌, ◌≡◌, refl, ◌⊎◌, inl, inr, true, false, Option, none, some, List, [],
}
use options_anomaly_scanner.Prelude.Int.{pos, ltb_ℤ}
use options_anomaly_scanner.Prelude.Result.{Error, ok, err, actual_start_precedes_intended_slot}
use options_anomaly_scanner.Time.{Market, second}
use options_anomaly_scanner.Scheduler.{CanonicalSlotType, execution_delay_seconds}
use options_anomaly_scanner.Scheduler.Store.{
  Status, failed, SlotResult, safe_error, Slot, Attempt, executed, Session, SessionLaws, same_slot,
}
use options_anomaly_scanner.Scheduler.Claim.{
  SlotClaim, Delivery, new_slot, owner_attempt, finish_attempt, claim_created, claim_existing,
}
use options_anomaly_scanner.Scheduler.Claim.Once.{same_slot_refl, claim-insert, claim-refused}
use options_anomaly_scanner.Scheduler.Identity.{delay_negative}
use options_anomaly_scanner.Scheduler.Collect.{Completed, Work, done, failing, Call, Collectors}
use options_anomaly_scanner.Scheduler.Collect.Rows.{
  SameRow, SameRow-refl, SameRow-sym, KeepsRow, run_work-KeepsRow,
}
use options_anomaly_scanner.Scheduler.Execute.{
  from_claim, complete_slot, Execution, complete, fail_slot, settle, execute,
}

-- The row of a slot, and the attempt that owns it, as a completed delivery leaves them.
pub record IsSettled (s : Session) (d : Delivery) (t : ℕ) (x : Execution s.Db) : Type 0 where
  pub row : Slot
  pub found : s.find_slot d.identity.slot_type d.identity.intended_at x.db ≡ some row
  pub completed : row.completed_at ≡ some t
  pub attempt :
      s.get_attempt d.new_attempt_id x.db
      ≡ some (finish_attempt (owner_attempt d (new_slot d)) t executed row.status)
  pub reported :
      (x.outcome ≡ ok (from_claim row true d.identity))
      ⊎ ((e : Error) × (x.outcome ≡ err e) × (row.status ≡ failed) × (row.result ≡ safe_error e))

module _ (s : Session) (laws : SessionLaws s) where
  -- A commit of a stored row shows in the queries.
  complete_row :
      (attempt : Attempt) (row old : Slot) (t : ℕ) (status : Status) (value : SlotResult)
      (db : s.Db)
      → s.get_slot row.id db ≡ some old
      → SameRow old row
      → (s.find_slot row.slot_type row.intended_at (complete s attempt row t status value db)
          ≡ some (complete_slot row t status value))
        × (s.get_attempt attempt.id (complete s attempt row t status value db)
            ≡ some (finish_attempt attempt t executed status))
  unfolding complete
  complete_row attempt row old t status value db stored same =
      let new : Slot = complete_slot row t status value in
      let kept : same_slot old row.slot_type row.intended_at ≡ true =
        rw (same.types, same.instants) (same_slot_refl row) in
      (
        rw laws.find-save_attempt (
            rw (laws.find-save_slot new old db row.slot_type row.intended_at stored kept)
              (rw (same_slot_refl row))),
        laws.get_attempt-save_attempt (finish_attempt attempt t executed status) _,
      )

  -- A query by the identity of the row that a delivery inserts.
  find_inserted :
      (d : Delivery) (row : Slot) (db : s.Db) (o : Option Slot)
      → SameRow row (new_slot d)
      → s.find_slot row.slot_type row.intended_at db ≡ o
      → s.find_slot d.identity.slot_type d.identity.intended_at db ≡ o
  unfolding new_slot
  find_inserted d row db o same h = cc (same.types, same.instants)

  -- The claim of a delivery that inserted its slot.
  abbrev owner_claim : Delivery → SlotClaim
  owner_claim d = record {
    slot = new_slot d;
    attempt = owner_attempt d (new_slot d);
    created = true;
  }

  settle-done :
      (d : Delivery) (t : ℕ) (db : s.Db) (c : Completed) (calls : List Call)
      → s.get_slot (new_slot d).id db ≡ some (new_slot d)
      → SameRow c.slot (new_slot d)
      → IsSettled s d t (settle s d t (owner_claim d) db (done c calls))
  unfolding settle owner_attempt
  settle-done d t db c calls stored same =
      let row : Slot = complete_slot c.slot t c.status c.result in
      let attempt = owner_attempt d (new_slot d) in
      let r =
        complete_row attempt c.slot (new_slot d) t c.status c.result db (rw same.ids stored)
          (SameRow-sym same) in
      record {
        row = row;
        found = find_inserted d c.slot _ (some row) same r.0;
        completed = refl;
        attempt = r.1;
        reported = inl refl;
      }

  settle-row :
      (d : Delivery) (t : ℕ) (db : s.Db) (e : Error) (p : Slot)
      → s.get_slot (new_slot d).id db ≡ some p
      → SameRow p (new_slot d)
      → (x : Execution s.Db) → x.outcome ≡ err e
      → x.db ≡ fail_slot s (owner_claim d) t e (some p) db
      → IsSettled s d t x
  unfolding fail_slot owner_attempt
  settle-row d t db e p stored same x outcome dbs =
      let row : Slot = complete_slot p t failed (safe_error e) in
      let attempt = owner_attempt d (new_slot d) in
      let at_id : s.get_slot p.id db ≡ some p = cc (same.ids, stored) in
      let r = complete_row attempt p p t failed (safe_error e) db at_id (SameRow-refl p) in
      record {
        row = row;
        found = rw dbs (find_inserted d p _ (some row) same r.0);
        completed = refl;
        attempt = rw dbs r.1;
        reported = inr (e, outcome, refl, refl);
      }

  settle-failing :
      (d : Delivery) (t : ℕ) (db : s.Db) (e : Error) (persisted : Option Slot) (calls : List Call)
      → s.get_slot (new_slot d).id db ≡ some (new_slot d)
      → KeepsRow (new_slot d) (failing e persisted calls)
      → IsSettled s d t (settle s d t (owner_claim d) db (failing e persisted calls))
  unfolding settle
  settle-failing d t db e none calls stored same =
      settle-row d t db e (new_slot d) stored (SameRow-refl (new_slot d)) _ refl (rw stored)
  settle-failing d t db e (some p) calls stored same =
      let again : s.get_slot (new_slot d).id (s.save_slot p db) ≡ some p =
        rw (← same.ids) (laws.get-save_slot p (new_slot d) db (rw same.ids stored)) in
      settle-row d t (s.save_slot p db) e p again same _ refl (rw again)

module _ (s : Session) (laws : SessionLaws s) (m : Market) (collectors : Collectors) where
  settle-work :
      (d : Delivery) (t : ℕ) (db : s.Db) (w : Work)
      → s.get_slot (new_slot d).id db ≡ some (new_slot d)
      → KeepsRow (new_slot d) w
      → IsSettled s d t (settle s d t (owner_claim s laws d) db w)
  settle-work d t db (done c calls) stored same = settle-done s laws d t db c calls stored same
  settle-work d t db (failing e persisted calls) stored same =
      settle-failing s laws d t db e persisted calls stored same

  -- A delivery that is not early and whose slot can be inserted leaves its slot completed at the
  -- given time and its attempt executed with the slot's status, whatever the collectors do: either
  -- it returns the result of that row, or it raises the collector's error again and the row says
  -- FAILED with that error.
  pub execute-IsSettled :
      (d : Delivery) (t : ℕ) (db db1 : s.Db)
      → ltb_ℤ (execution_delay_seconds d.identity d.actual_started_at) (pos 0) ≡ false
      → s.insert_slot (new_slot d) db ≡ some db1
      → IsSettled s d t (execute s m collectors d t db)
  unfolding execute
  execute-IsSettled d t db db1 on_time e = rw on_time (
      rw (claim-insert s d db db1 e) (
        unfold claim_created in
        settle-work d t _ _ (rw laws.get_slot-save_attempt (laws.get-insert (new_slot d) db db1 e))
          (run_work-KeepsRow m collectors d (new_slot d))))

  -- A delivery of a slot that is taken, and that is not early, calls no collector, returns the
  -- stored row as not created, and changes no slot.
  pub execute-duplicate :
      (d : Delivery) (t : ℕ) (db : s.Db) (existing : Slot)
      → ltb_ℤ (execution_delay_seconds d.identity d.actual_started_at) (pos 0) ≡ false
      → s.find_slot d.identity.slot_type d.identity.intended_at db ≡ some existing
      → ((execute s m collectors d t db).calls ≡ [])
        × ((execute s m collectors d t db).outcome ≡ ok (from_claim existing false d.identity))
        × ((slot_type : CanonicalSlotType) (at : ℕ)
            → s.find_slot slot_type at (execute s m collectors d t db).db
              ≡ s.find_slot slot_type at db)
  unfolding execute
  execute-duplicate d t db existing on_time found =
      let e : s.insert_slot (new_slot d) db ≡ none =
        unfold new_slot in laws.insert_taken_slot (new_slot d) existing db found in
      let claim = claim-refused s d db e in
      (
        rw on_time (rw claim (unfold claim_existing in rw found)),
        rw on_time (rw claim (unfold claim_existing in rw found)),
        λ slot_type at. rw on_time (
            rw claim
              (unfold claim_existing in rw found (laws.find-save_attempt _ db slot_type at))),
      )

  -- An early delivery is refused before anything is written or called.
  pub execute-early :
      (d : Delivery) (t : ℕ) (db : s.Db)
      → d.actual_started_at + second ≤ d.identity.intended_at
      → execute s m collectors d t db
        ≡ record { outcome = err actual_start_precedes_intended_slot; db = db; calls = [] }
  unfolding execute
  execute-early d t db early = rw ((delay_negative d.identity d.actual_started_at).1 early)
