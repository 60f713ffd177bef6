-- ===== src/Scheduler/Collect/Rows.antt =====
-- The row of a slot through the handlers of backend/app/scheduler/service.py.
use options_anomaly_scanner.Prelude.{ℕ, ◌≡◌, refl, sym, Bool, true, false, Option, none, some, List}
use options_anomaly_scanner.Time.{Market}
use options_anomaly_scanner.Scheduler.{CanonicalSlotType, radar_oi, dealer_gex, activity_vnext}
use options_anomaly_scanner.Scheduler.Store.{Slot}
use options_anomaly_scanner.Scheduler.Claim.{Delivery}
use options_anomaly_scanner.Scheduler.Collect.{
  Outcome, returned, raised, Observation, observed, not_ready, observation_raised, DailySummary,
  ArchiveSummary, Work, done, failing, Collectors, Completed, Call, stop_if, run_radar_oi,
  run_dealer_gex, run_activity_vnext, persisted_if, charge, radar_outcome, dealer_outcome,
  observation_outcome, activity_outcome, run_slot, run_work,
}

pub record SameRow (r slot : Slot) : Type 0 where
  pub ids : r.id ≡ slot.id
  pub types : r.slot_type ≡ slot.slot_type
  pub instants : r.intended_at ≡ slot.intended_at

abbrev pub PersistsRow : Slot → Option Slot → Type 0
PersistsRow slot none = Unit
PersistsRow slot (some p) = SameRow p slot

-- The slots that the work hands on are the row it was given.
abbrev pub KeepsRow : Slot → Work → Type 0
KeepsRow slot (done c calls) = SameRow c.slot slot
KeepsRow slot (failing e persisted calls) = PersistsRow slot persisted

pub SameRow-refl : (slot : Slot) → SameRow slot slot
SameRow-refl slot = record { ids = refl; types = refl; instants = refl }

pub SameRow-sym : {r slot : Slot} → SameRow r slot → SameRow slot r
SameRow-sym h = record { ids = sym h.ids; types = sym h.types; instants = sym h.instants }

persisted-PersistsRow :
    (slot p : Slot) (committed : Bool)
    → SameRow p slot
    → PersistsRow slot (persisted_if committed p)
unfolding persisted_if
persisted-PersistsRow slot p true h = h
persisted-PersistsRow slot p false h = tt

radar-KeepsRow : (slot : Slot) (o : Outcome DailySummary) → KeepsRow slot (radar_outcome slot o)
unfolding radar_outcome charge
radar-KeepsRow slot (returned summary) = record { ids = refl; types = refl; instants = refl }
radar-KeepsRow slot (raised e committed) =
    persisted-PersistsRow slot slot committed (SameRow-refl slot)

dealer-KeepsRow : (slot : Slot) (o : Outcome ArchiveSummary) → KeepsRow slot (dealer_outcome slot o)
unfolding dealer_outcome charge
dealer-KeepsRow slot (returned summary) = record { ids = refl; types = refl; instants = refl }
dealer-KeepsRow slot (raised e committed) =
    persisted-PersistsRow slot slot committed (SameRow-refl slot)

charge-SameRow : (slot : Slot) (attempts units : ℕ) → SameRow (charge slot attempts units) slot
unfolding charge
charge-SameRow slot attempts units = record { ids = refl; types = refl; instants = refl }

observation-KeepsRow :
    (slot charged : Slot) (activity : DailySummary) (o : Observation)
    → SameRow charged slot
    → KeepsRow slot (observation_outcome charged activity o)
unfolding observation_outcome charge
observation-KeepsRow slot charged activity (observed o) h = record {
  ids = h.ids;
  types = h.types;
  instants = h.instants;
}
observation-KeepsRow slot charged activity (not_ready readiness) h = h
observation-KeepsRow slot charged activity (observation_raised e committed) h =
    persisted-PersistsRow slot charged committed h

stop_if-KeepsRow :
    (slot : Slot) (test : Bool) (c : Completed) (calls : List Call) (rest : Work)
    → SameRow c.slot slot
    → KeepsRow slot rest
    → KeepsRow slot (stop_if test c calls rest)
unfolding stop_if
stop_if-KeepsRow slot true c calls rest hc hr = hc
stop_if-KeepsRow slot false c calls rest hc hr = hr

module _ (m : Market) (collectors : Collectors) where
  activity-KeepsRow :
      (d : Delivery) (slot : Slot) (o : Outcome DailySummary)
      → KeepsRow slot (activity_outcome m collectors d slot o)
  unfolding activity_outcome
  activity-KeepsRow d slot (raised e committed) =
      persisted-PersistsRow slot slot committed (SameRow-refl slot)
  activity-KeepsRow d slot (returned activity) =
      let charged = charge slot activity.network_attempts activity.consumed_quota_units in
      let same = charge-SameRow slot activity.network_attempts activity.consumed_quota_units in
      stop_if-KeepsRow slot _ _ _ _ same
        (observation-KeepsRow slot charged activity (collectors.vnext_observation d) same)

  slot-KeepsRow :
      (slot_type : CanonicalSlotType) (d : Delivery) (slot : Slot)
      → KeepsRow slot (run_slot m collectors slot_type d slot)
  unfolding run_slot run_radar_oi run_dealer_gex run_activity_vnext
  slot-KeepsRow radar_oi d slot = stop_if-KeepsRow slot _ _ _ _ (SameRow-refl slot) (
      stop_if-KeepsRow slot _ _ _ _ (SameRow-refl slot)
        (radar-KeepsRow slot (collectors.daily_radar_oi d)))
  slot-KeepsRow dealer_gex d slot = dealer-KeepsRow slot (collectors.dealer_archiver d)
  slot-KeepsRow activity_vnext d slot = activity-KeepsRow d slot (collectors.daily_activity d)

  pub run_work-KeepsRow :
      (d : Delivery) (slot : Slot) → KeepsRow slot (run_work m collectors d slot)
  unfolding run_work
  run_work-KeepsRow d slot = slot-KeepsRow d.identity.slot_type d slot
