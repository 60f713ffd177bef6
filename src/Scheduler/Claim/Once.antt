-- ===== src/Scheduler/Claim/Once.antt =====
-- The owners of a slot over claims of backend/app/scheduler/repository.py.
use options_anomaly_scanner.Prelude.{
  ℕ, ◌+◌, ◌≤◌, ◌≡◌, refl, Bool, true, false, Option, none, some, List, [], ◌∷◌, arith, ◌&&◌,
  if◌then◌else◌, is_some, not, and_left, and_right, ==_iff, Bool-cases, Option-cases, inl, inr,
}
use options_anomaly_scanner.Prelude.Result.{Result, ok, err}
use options_anomaly_scanner.Scheduler.{
  CanonicalSlotType, radar_oi, dealer_gex, activity_vnext, slot_eq,
}
use options_anomaly_scanner.Scheduler.Store.{Slot, Session, SessionLaws, same_slot}
use options_anomaly_scanner.Scheduler.Claim.{
  SlotClaim, Delivery, new_slot, owner_attempt, duplicate_attempt, claim_created, claim_existing,
  claim_canonical_slot, claim_all,
}

-- The claims of a slot that created it.
abbrev pub owns : CanonicalSlotType → ℕ → Result SlotClaim → Bool
owns slot_type at (ok claim) = claim.created && same_slot claim.slot slot_type at
owns slot_type at (err e) = false

abbrev pub owners : CanonicalSlotType → ℕ → List (Result SlotClaim) → ℕ
owners slot_type at [] = 0
owners slot_type at (r ∷ rs) = (if owns slot_type at r then 1 else 0) + owners slot_type at rs

-- Whether a row of the slot stands in the table, as a number.
abbrev pub taken : Option Slot → ℕ
taken none = 0
taken (some slot) = 1

slot_eq-eq : (a b : CanonicalSlotType) → slot_eq a b ≡ true → a ≡ b
slot_eq-eq radar_oi radar_oi h = refl
slot_eq-eq dealer_gex dealer_gex h = refl
slot_eq-eq activity_vnext activity_vnext h = refl
slot_eq-eq _ _ h = cc

slot_eq_refl : (a : CanonicalSlotType) → slot_eq a a ≡ true
slot_eq_refl radar_oi = refl
slot_eq_refl dealer_gex = refl
slot_eq_refl activity_vnext = refl

pub same_slot_eq :
    (r : Slot) (slot_type : CanonicalSlotType) (at : ℕ)
    → same_slot r slot_type at ≡ true
    → (r.slot_type ≡ slot_type) × (r.intended_at ≡ at)
same_slot_eq r slot_type at h =
    (slot_eq-eq r.slot_type slot_type (and_left _ _ h), (==_iff _ _).0 (and_right _ _ h))

taken_le : (o : Option Slot) → taken o ≤ 1
taken_le none = omega arith
taken_le (some slot) = omega arith

pub same_slot_refl : (r : Slot) → same_slot r r.slot_type r.intended_at ≡ true
same_slot_refl r = rw slot_eq_refl (ground arith)

module _ (s : Session) where
  pub claim-insert :
      (d : Delivery) (db db1 : s.Db)
      → s.insert_slot (new_slot d) db ≡ some db1
      → claim_canonical_slot s d db ≡ claim_created s d db1
  unfolding claim_canonical_slot
  claim-insert d db db1 e = rw (e, claim_canonical_slot)

  pub claim-refused :
      (d : Delivery) (db : s.Db)
      → s.insert_slot (new_slot d) db ≡ none
      → claim_canonical_slot s d db
        ≡ claim_existing s d (s.find_slot d.identity.slot_type d.identity.intended_at db) db
  unfolding claim_canonical_slot
  claim-refused d db e = rw (e, claim_canonical_slot)

module _ (s : Session) (laws : SessionLaws s) where
  -- Where an insert succeeds, its slot was free.
  free :
      (d : Delivery) (db db1 : s.Db) (slot_type : CanonicalSlotType) (at : ℕ)
      → s.insert_slot (new_slot d) db ≡ some db1
      → same_slot (new_slot d) slot_type at ≡ true
      → s.find_slot slot_type at db ≡ none
  free d db db1 slot_type at e same = elim (Option-cases (s.find_slot slot_type at db)) [
    | inl absent ↦ absent
    | inr (o, found) ↦
        let ids = same_slot_eq (new_slot d) slot_type at same in
        let again : s.find_slot (new_slot d).slot_type (new_slot d).intended_at db ≡ some o =
          rw (ids.0, ids.1) found in
        absurd (cc (laws.insert_taken_slot (new_slot d) o db again))
  ]

  existing_step :
      (d : Delivery) (found : Option Slot) (db : s.Db) (slot_type : CanonicalSlotType) (at : ℕ)
      → (if owns slot_type at (claim_existing s d found db).0 then 1 else 0)
          + taken (s.find_slot slot_type at db)
        ≡ taken (s.find_slot slot_type at (claim_existing s d found db).1)
  unfolding claim_existing
  existing_step d none db slot_type at = omega arith
  existing_step d (some existing) db slot_type at = rw laws.find-save_attempt (omega arith)

  created_step :
      (d : Delivery) (db db1 : s.Db) (slot_type : CanonicalSlotType) (at : ℕ)
      → s.insert_slot (new_slot d) db ≡ some db1
      → (if owns slot_type at (claim_created s d db1).0 then 1 else 0)
          + taken (s.find_slot slot_type at db)
        ≡ taken (s.find_slot slot_type at (claim_created s d db1).1)
  unfolding claim_created
  created_step d db db1 slot_type at e = rw laws.find-save_attempt (
      rw (laws.find-insert (new_slot d) db db1 slot_type at e)
        (elim (Bool-cases (same_slot (new_slot d) slot_type at)) [
          | inl same ↦ rw (same, free d db db1 slot_type at e same) (omega arith)
          | inr other ↦ rw other (omega arith)
        ]))

  -- A claim owns a slot exactly when the slot was free before and is taken after.
  claim_step :
      (d : Delivery) (db : s.Db) (slot_type : CanonicalSlotType) (at : ℕ)
      → (if owns slot_type at (claim_canonical_slot s d db).0 then 1 else 0)
          + taken (s.find_slot slot_type at db)
        ≡ taken (s.find_slot slot_type at (claim_canonical_slot s d db).1)
  claim_step d db slot_type at = elim (Option-cases (s.insert_slot (new_slot d) db)) [
    | inl e ↦ rw (claim-refused s d db e) (existing_step d _ db slot_type at)
    | inr (db1, e) ↦ rw (claim-insert s d db db1 e) (created_step d db db1 slot_type at e)
  ]

  -- Over any deliveries of any slots, in any order, the number of claims that own a slot is 1 where
  -- the slot was free before and is taken after, and 0 otherwise: no slot ever has two owners.
  pub claim_all_once :
      (ds : List Delivery) (db : s.Db) (slot_type : CanonicalSlotType) (at : ℕ)
      → (owners slot_type at (claim_all s ds db).0 + taken (s.find_slot slot_type at db)
          ≡ taken (s.find_slot slot_type at (claim_all s ds db).1))
        × (owners slot_type at (claim_all s ds db).0 ≤ 1)
  unfolding claim_all
  claim_all_once [] db slot_type at = (omega arith, omega arith)
  claim_all_once (d ∷ ds) db slot_type at =
      let db1 = (claim_canonical_slot s d db).1 in
      let total : owners slot_type at (claim_all s (d ∷ ds) db).0
            + taken (s.find_slot slot_type at db)
          ≡ taken (s.find_slot slot_type at (claim_all s (d ∷ ds) db).1) =
        omega (arith, claim_step d db slot_type at, (claim_all_once ds db1 slot_type at).0) in
      (total, omega (arith, total, taken_le (s.find_slot slot_type at (claim_all s (d ∷ ds) db).1)))

  same_slot-new :
      (d : Delivery) → same_slot (new_slot d) d.identity.slot_type d.identity.intended_at ≡ true
  unfolding new_slot
  same_slot-new d = rw slot_eq_refl (ground arith)

  -- Where the delivery's key is taken by no other slot, the claim returns, with a slot of the
  -- delivery's type and instant that the table then holds, and it is created exactly where the slot
  -- was free: the error of a conflict without an owner cannot happen.
  pub claim_progress :
      (d : Delivery) (db : s.Db)
      → ((r : Slot)
          → s.find_key d.identity.canonical_key db ≡ some r
          → s.find_slot d.identity.slot_type d.identity.intended_at db ≡ some r)
      → (claim : SlotClaim) × ((claim_canonical_slot s d db).0 ≡ ok claim)
        × (same_slot claim.slot d.identity.slot_type d.identity.intended_at ≡ true)
        × (s.find_slot d.identity.slot_type d.identity.intended_at (claim_canonical_slot s d db).1
            ≡ some claim.slot)
        × (claim.created
            ≡ not (is_some (s.find_slot d.identity.slot_type d.identity.intended_at db)))
  unfolding claim_created claim_existing
  claim_progress d db key_owner =
      elim (Option-cases (s.find_slot d.identity.slot_type d.identity.intended_at db)) [
        | inl absent ↦ elim (Option-cases (s.find_key d.identity.canonical_key db)) [
          | inl no_key ↦
              let (db1, e) : (db1 : s.Db) × (s.insert_slot (new_slot d) db ≡ some db1) =
                unfold new_slot in laws.insert_free (new_slot d) db absent no_key in
              (
                record {
                  slot = new_slot d;
                  attempt = owner_attempt d (new_slot d);
                  created = true;
                },
                rw (claim-insert s d db db1 e),
                same_slot-new d,
                rw (claim-insert s d db db1 e) (
                    rw laws.find-save_attempt
                      (rw (laws.find-insert (new_slot d) db db1 _ _ e) (rw (same_slot-new d)))),
                rw absent,
              )
          | inr (r, key) ↦ absurd (cc (key_owner r key))
        ]
        | inr (r, found) ↦
            let e : s.insert_slot (new_slot d) db ≡ none =
              unfold new_slot in laws.insert_taken_slot (new_slot d) r db found in
            (
              record { slot = r; attempt = duplicate_attempt d r; created = false },
              rw (claim-refused s d db e) (rw found),
              laws.find_sound db _ _ r found,
              rw (claim-refused s d db e) (rw found (rw laws.find-save_attempt found)),
              rw found,
            )
      ]
