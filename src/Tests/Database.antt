-- ===== src/Tests/Database.antt =====
-- A session over tables given by their indexes, which meets the laws that the repository relies on.
use options_anomaly_scanner.Prelude.{
  sym, ℕ, ◌≡◌, refl, Bool, true, false, ◌&&◌, Option, none, some, [], ◌∷◌, arith, ◌==◌,
  if◌then◌else◌, Bool-cases, inl, inr,
}
use options_anomaly_scanner.Scheduler.{Text, CanonicalSlotType}
use options_anomaly_scanner.Scheduler.Store.{Slot, Attempt, Session, SessionLaws, same_slot}

pub record Tables : Type 0 where
  pub slots : CanonicalSlotType → ℕ → Option Slot
  pub keys : Text → Option Slot
  pub ids : ℕ → Option Slot
  pub attempts : ℕ → Option Attempt

abbrev pub empty : Tables
empty = record {
  slots = λ slot_type at. none;
  keys = λ key. none;
  ids = λ i. none;
  attempts = λ i. none;
}

abbrev text_eq : Text → Text → Bool
text_eq [] [] = true
text_eq (c ∷ s) (d ∷ t) = c == d && text_eq s t
text_eq _ _ = false

abbrev checked : CanonicalSlotType → ℕ → Option Slot → Option Slot
checked slot_type at none = none
checked slot_type at (some r) = if same_slot r slot_type at then some r else none

abbrev pub store : Slot → Tables → Tables
store r db = record {
  slots = λ slot_type at. if same_slot r slot_type at then some r else db.slots slot_type at;
  keys = λ key. if text_eq r.canonical_key key then some r else db.keys key;
  ids = λ i. if r.id == i then some r else db.ids i;
  attempts = db.attempts;
}

abbrev insert_if : Option Slot → Option Slot → Slot → Tables → Option Tables
insert_if (some owner) key r db = none
insert_if none (some owner) r db = none
insert_if none none r db = some (store r db)

abbrev pub session : Session
session = record {
  Db = Tables;
  find_slot = λ slot_type at db. checked slot_type at (db.slots slot_type at);
  find_key = λ key db. db.keys key;
  get_slot = λ i db. db.ids i;
  get_attempt = λ i db. db.attempts i;
  insert_slot = λ r db.
      insert_if (checked r.slot_type r.intended_at (db.slots r.slot_type r.intended_at))
        (db.keys r.canonical_key) r db;
  save_slot = store;
  save_attempt = λ a db. record db { attempts = λ i. if a.id == i then some a else db.attempts i };
}

checked_sound :
    (slot_type : CanonicalSlotType) (at : ℕ) (o : Option Slot) (r : Slot)
    → checked slot_type at o ≡ some r
    → same_slot r slot_type at ≡ true
checked_sound slot_type at none r h = cc
checked_sound slot_type at (some q) r h = elim (Bool-cases (same_slot q slot_type at)) [
  | inl e ↦ let h' : some q ≡ some r = rw e at h in let q_is : q ≡ r = cc in rw (sym q_is) e
  | inr e ↦ let h' : ◌≡◌ {A = Option Slot} none (some r) = rw e at h in cc
]

find-store :
    (r : Slot) (db : Tables) (slot_type : CanonicalSlotType) (at : ℕ)
    → checked slot_type at (if same_slot r slot_type at then some r else db.slots slot_type at)
      ≡ (if same_slot r slot_type at then some r else checked slot_type at (db.slots slot_type at))
find-store r db slot_type at = elim (Bool-cases (same_slot r slot_type at)) [
  | inl e ↦ rw e (rw e)
  | inr e ↦ rw e
]

inserted :
    (a b : Option Slot) (r : Slot) (db db' : Tables)
    → insert_if a b r db ≡ some db'
    → db' ≡ store r db
inserted (some o) b r db db' h = cc
inserted none (some o) r db db' h = cc
inserted none none r db db' h = cc

key_refused :
    (a b : Option Slot) (r owner : Slot) (db : Tables) → b ≡ some owner → insert_if a b r db ≡ none
key_refused (some o) b r owner db h = refl
key_refused none b r owner db h = rw h

pub session-SessionLaws : SessionLaws session
session-SessionLaws = record {
  insert_taken_slot = λ r owner db h. rw h;
  insert_taken_key = λ r owner db h. key_refused _ _ r owner db h;
  insert_free = λ r db h k. (store r db, rw (h, k));
  find_sound = λ db slot_type at r h. checked_sound slot_type at _ r h;
  find-insert =
      λ r db db' slot_type at h. rw (inserted _ _ r db db' h) (find-store r db slot_type at);
  get-insert = λ r db db' h. rw (inserted _ _ r db db' h) (ground arith);
  find-save_attempt = λ a db slot_type at. refl;
  get_slot-save_attempt = λ a db i. refl;
  get_attempt-save_attempt = λ a db. ground arith;
  find-save_slot = λ r old db slot_type at h k. find-store r db slot_type at;
  get-save_slot = λ r old db h. ground arith;
}
