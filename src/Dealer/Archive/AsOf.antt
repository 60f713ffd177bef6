-- ===== src/Dealer/Archive/AsOf.antt =====
-- best_archived_surface_at_or_before of backend/app/dealer_archive/repository.py.
use Prim.Native.String.{String}
use mathlib.Core.Option.{some-injective}
use options_anomaly_scanner.Prelude.{
  ℕ, ◌<◌, ◌≡◌, refl, sym, inl, inr, Bool, true, false, some, List, [], ◌∷◌, ◌++◌, arith, ◌==◌,
  any_by, filter_by, Option-cases, In, here, there, In-filter_by, filter_by-In, All-In,
}
use options_anomaly_scanner.Prelude.Sort.{sort_by, In-sort_by}
use options_anomaly_scanner.Prelude.Sort.Least.{
  first, WeakOrder, first-sort_by, first-sort_by-eq-none,
}
use options_anomaly_scanner.Dealer.Parsing.{DealerGexCellValue}
use options_anomaly_scanner.Dealer.Surface.{NormalizedDealerGexSurface, usable}
use options_anomaly_scanner.Dealer.Archive.{
  Snapshot, Tables, Capture, StoredDetails, find_identity, snapshot_row, cell_rows, persist_found,
  persist_surface, is_known_by, later, best_snapshot, archived_surface, best_payload,
  best_archived_surface_at_or_before,
}
use options_anomaly_scanner.Dealer.Archive.FirstWrite.{IsUnused, cells_of-other, stored_cells}

any_by-In {ℓ} :
    {A : Type ℓ} (p : A → Bool) (a : A) (xs : List A) → any_by p xs ≡ false → In a xs → p a ≡ false
unfolding any_by
any_by-In p a [] h m = elim m [ ]
any_by-In p a (x ∷ xs) h (here e) = rw e (ground (arith, h))
any_by-In p a (x ∷ xs) h (there m) = any_by-In p a xs (ground (arith, h)) m

first-In {ℓ} : {A : Type ℓ} (xs : List A) {y : A} → first xs ≡ some y → In y xs
first-In [] e = cc
first-In (x ∷ xs) e = here (sym (some-injective _ _ e))

module _ {D : Type 0} where
  later-WeakOrder : WeakOrder (later {D = D})
  later-WeakOrder = record { asym = λ a b h. ground arith; ge_trans = λ a b c h k. ground arith }

  -- The answer as of a cutoff is a row of the table that is known by the cutoff, and no row that is
  -- known by the cutoff is later; there is no answer only where no row is known by then.
  pub best_snapshot-newest :
      (ticker : String) (cutoff : ℕ) (rows : List (Snapshot D)) (row : Snapshot D)
      → In row rows
      → is_known_by ticker cutoff row ≡ true
      → (best : Snapshot D) × (best_snapshot ticker cutoff rows ≡ some best)
        × In best rows
        × (is_known_by ticker cutoff best ≡ true)
        × (later row best ≡ false)
  unfolding best_snapshot
  best_snapshot-newest ticker cutoff rows row m known =
      let known_rows = filter_by (is_known_by ticker cutoff) rows in
      let m' : In row known_rows = filter_by-In (is_known_by ticker cutoff) rows m known in
      elim (Option-cases (first (sort_by later known_rows))) [
        | inl e ↦
            let nothing : known_rows ≡ [] =
              first-sort_by-eq-none later later-WeakOrder known_rows e in
            let m'' : In row [] = rw nothing at m' in elim m'' [ ]
        | inr (best, e) ↦
            let from =
              In-filter_by (is_known_by ticker cutoff) rows
                (In-sort_by later known_rows (first-In _ e)) in
            (
              best,
              e,
              from.0,
              from.1,
              All-In (λ x. later x best ≡ false) row known_rows
                  (first-sort_by later later-WeakOrder known_rows best e) m',
            )
      ]

  best_snapshot-In :
      (ticker : String) (cutoff : ℕ) (rows : List (Snapshot D)) {best : Snapshot D}
      → best_snapshot ticker cutoff rows ≡ some best
      → In best rows
  unfolding best_snapshot
  best_snapshot-In ticker cutoff rows e =
      (In-filter_by (is_known_by ticker cutoff) rows (In-sort_by later _ (first-In _ e))).0

  best_snapshot-unknown :
      (ticker : String) (cutoff : ℕ) (row : Snapshot D) (rows : List (Snapshot D))
      → is_known_by ticker cutoff row ≡ false
      → best_snapshot ticker cutoff (row ∷ rows) ≡ best_snapshot ticker cutoff rows
  unfolding best_snapshot filter_by
  best_snapshot-unknown ticker cutoff row rows h = rw h refl

  best_payload-other :
      (cell_lt : DealerGexCellValue D → DealerGexCellValue D → Bool) (ticker : String)
      (cutoff id : ℕ) (new : List (DealerGexCellValue D)) (rows : List (Snapshot D)) (db : Tables D)
      → IsUnused id db
      → best_payload cell_lt
          (record { snapshots = rows; cells = cell_rows id new ++ db.cells })
          (best_snapshot ticker cutoff db.snapshots)
        ≡ best_payload cell_lt db (best_snapshot ticker cutoff db.snapshots)
  unfolding best_payload archived_surface
  best_payload-other cell_lt ticker cutoff id new rows db h =
      elim (Option-cases (best_snapshot ticker cutoff db.snapshots)) [
        | inl nothing ↦ rw nothing refl
        | inr (best, found) ↦
            let differ =
              any_by-In (λ r. r.id == id) best db.snapshots h.no_snapshot
                (best_snapshot-In ticker cutoff db.snapshots found) in
            rw (found, cells_of-other id best.id new db.cells (ground (arith, differ))) refl
      ]

  -- A surface that is captured after a cutoff, under an unused identifier, does not change what the
  -- archive answers as of that cutoff, neither the row nor its cells: what was known stays known,
  -- and nothing is known before it was captured.
  pub as_of_stable :
      {Q : Type 0} (cell_lt : DealerGexCellValue D → DealerGexCellValue D → Bool)
      (stored : Q → StoredDetails D) (c : Capture) (surface : NormalizedDealerGexSurface D Q)
      (ticker : String) (cutoff : ℕ) (db : Tables D)
      → IsUnused c.new_id db
      → cutoff < c.captured_at
      → best_archived_surface_at_or_before cell_lt ticker cutoff
          (persist_surface stored c surface db).1
        ≡ best_archived_surface_at_or_before cell_lt ticker cutoff db
  unfolding best_archived_surface_at_or_before persist_surface persist_found snapshot_row
      archived_surface
  as_of_stable cell_lt stored c surface ticker cutoff db h late =
      elim (Option-cases (find_identity surface.observation_identity db.snapshots)) [
        | inr (old, found) ↦ rw found refl
        | inl absent ↦
            rw
              (
                absent,
                best_snapshot-unknown ticker cutoff (snapshot_row stored c surface) db.snapshots
                    unknown,
                stored_cells c.new_id (usable surface) surface.cells db.cells,
              )
              (best_payload-other cell_lt ticker cutoff c.new_id _
                (snapshot_row stored c surface ∷ db.snapshots) db h)
      ]
    where
      unknown : is_known_by ticker cutoff (snapshot_row stored c surface) ≡ false
      unknown = unfold is_known_by in ground (arith, late)
