-- ===== src/Dealer/Archive/FirstWrite.antt =====
-- persist_surface of backend/app/dealer_archive/repository.py as a map from observation identities
-- to surfaces that is written once at each key.
use Prim.Native.String.{String}
use options_anomaly_scanner.Prelude.{
  ℕ, ◌≡◌, refl, sym, ap, ◌∙◌, inl, inr, Bool, true, false, Option, none, some, List, [], ◌∷◌, ◌++◌,
  arith, ◌==◌, if◌then◌else◌, any_by, find_by, Bool-cases, Option-cases, ==_iff,
}
use mathlib.Core.Option.{some-injective, none-ne-some}
use options_anomaly_scanner.Prelude.Eq.{string_eq}
use options_anomaly_scanner.Dealer.Parsing.{DealerGexCellValue}
use options_anomaly_scanner.Dealer.Surface.{SourceQuality, NormalizedDealerGexSurface, usable}
use options_anomaly_scanner.Dealer.Archive.{
  Snapshot, SnapshotCell, Tables, Capture, StoredDetails, is_text_of, find_identity, snapshot_row,
  cell_rows, persist_found, persist_surface, cells_of,
}

-- What the archive promises of an observation.
pub record Observation (D : Type 0) : Type 0 where
  pub ticker : String
  pub vendor_observed_at : Option ℕ
  pub captured_at : ℕ
  pub spot_usd : Option D
  pub source_quality : SourceQuality
  pub cells : List (DealerGexCellValue D)

-- The abstract archive: the observation of each identity. The first one written stays.
abbrev pub View : Type 0 → Type 0
View D = String → Option (Observation D)

abbrev pub or_new : {A : Type 0} → Option A → Option A → Option A
or_new (some old) new = some old
or_new none new = new

abbrev pub first_write : {D : Type 0} → Option String → Observation D → View D → View D
first_write none o view k = view k
first_write (some identity) o view k =
    or_new (view k) (if string_eq.beq identity k then some o else none)

find_by-any_by {ℓ} :
    {A : Type ℓ} (p q : A → Bool) (xs : List A) {r : A}
    → any_by q xs ≡ false
    → find_by p xs ≡ some r
    → q r ≡ false
unfolding find_by any_by
find_by-any_by p q [] h e = cc
find_by-any_by p q (x ∷ xs) {r} h e = elim (Bool-cases (p x)) [
  | inl t ↦ let e' : some x ≡ some r = rw t at e in ground (arith, h, ap q (some-injective _ _ e'))
  | inr f ↦ let e' = rw f at e in find_by-any_by p q xs (ground (arith, h)) e'
]

module _ {D : Type 0} where
  abbrev observation_of : List (SnapshotCell D) → Snapshot D → Observation D
  observation_of cells row = record {
    ticker = row.ticker;
    vendor_observed_at = row.vendor_observed_at;
    captured_at = row.captured_at;
    spot_usd = row.spot_usd;
    source_quality = row.source_quality;
    cells = cells_of row.id cells;
  }

  abbrev map_row : List (SnapshotCell D) → Option (Snapshot D) → Option (Observation D)
  map_row cells none = none
  map_row cells (some row) = some (observation_of cells row)

  -- The concrete tables as an abstract archive.
  unfoldable pub view_of : Tables D → View D
  view_of db k = map_row db.cells (find_identity (some k) db.snapshots)

  abbrev pub captured : {Q : Type 0} → Capture → NormalizedDealerGexSurface D Q → Observation D
  captured c surface = record {
    ticker = surface.ticker;
    vendor_observed_at = surface.vendor_observed_at;
    captured_at = c.captured_at;
    spot_usd = surface.spot_usd;
    source_quality = surface.source_quality;
    cells = if usable surface then surface.cells else [];
  }

  -- No row has the identifier.
  pub record IsUnused (id : ℕ) (db : Tables D) : Type 0 where
    pub no_snapshot : any_by (λ row. row.id == id) db.snapshots ≡ false
    pub no_cell : any_by (λ c. c.snapshot_id == id) db.cells ≡ false

  cells_of-unused :
      (id : ℕ) (cells : List (SnapshotCell D))
      → any_by (λ c. c.snapshot_id == id) cells ≡ false
      → cells_of id cells ≡ []
  unfolding cells_of any_by
  cells_of-unused id [] h = refl
  cells_of-unused id (c ∷ cells) h = ground (arith, cells_of-unused id cells, h)

  cells_of-same :
      (id : ℕ) (new : List (DealerGexCellValue D)) (cells : List (SnapshotCell D))
      → any_by (λ c. c.snapshot_id == id) cells ≡ false
      → cells_of id (cell_rows id new ++ cells) ≡ new
  unfolding cells_of cell_rows
  cells_of-same id [] cells h = cells_of-unused id cells h
  cells_of-same id (n ∷ new) cells h =
      rw ((==_iff id id).1 refl) (ap (λ l. n ∷ l) (cells_of-same id new cells h))

  pub cells_of-other :
      (id other : ℕ) (new : List (DealerGexCellValue D)) (cells : List (SnapshotCell D))
      → (id == other) ≡ false
      → cells_of other (cell_rows id new ++ cells) ≡ cells_of other cells
  unfolding cells_of cell_rows
  cells_of-other id other [] cells h = refl
  cells_of-other id other (n ∷ new) cells h = rw h (cells_of-other id other new cells h)

  -- Cells under an identifier that no row had leave every old observation as it was.
  map_row-other :
      (id : ℕ) (new : List (DealerGexCellValue D)) (db : Tables D) (k : String)
      → IsUnused id db
      → map_row (cell_rows id new ++ db.cells) (find_identity (some k) db.snapshots) ≡ view_of db k
  unfolding view_of find_identity
  map_row-other id new db k h =
      elim (Option-cases (find_by (λ row. is_text_of row.observation_identity k) db.snapshots)) [
        | inl none_found ↦ rw none_found refl
        | inr (row, found) ↦
            let differ = find_by-any_by _ (λ r. r.id == id) db.snapshots h.no_snapshot found in
            rw (found, cells_of-other id row.id new db.cells (ground (arith, differ))) refl
      ]

  pub stored_cells :
      (id : ℕ) (b : Bool) (new : List (DealerGexCellValue D)) (cells : List (SnapshotCell D))
      → ((if b then cell_rows id new else []) ++ cells)
        ≡ cell_rows id (if b then new else []) ++ cells
  unfolding cell_rows
  stored_cells id true new cells = refl
  stored_cells id false new cells = refl

  -- The row of an identity in the table.
  abbrev old_row : Tables D → String → Option (Snapshot D)
  old_row db j = find_by (λ row. is_text_of row.observation_identity j) db.snapshots

  first_write-held :
      (db : Tables D) (k k0 : String) (o : Observation D) (old : Snapshot D)
      → old_row db k0 ≡ some old
      → view_of db k ≡ first_write (some k0) o (view_of db) k
  unfolding view_of find_identity
  first_write-held db k k0 o old found = elim (Option-cases (old_row db k)) [
    | inr (row, e) ↦ rw e refl
    | inl absent ↦ elim (Bool-cases (string_eq.beq k0 k)) [
      | inl same ↦
          let found' : old_row db k ≡ some old = rw (sym ((string_eq.beq_iff k0 k).0 same)) found in
          absurd (none-ne-some old (sym absent ∙ found'))
      | inr other ↦ rw (absent, other) refl
    ]
  ]

  first_write-new :
      (db : Tables D) (k k0 : String) (new : List (DealerGexCellValue D)) (row : Snapshot D)
      → old_row db k0 ≡ none
      → IsUnused row.id db
      → let cells' = cell_rows row.id new ++ db.cells in
        map_row cells' (if string_eq.beq k0 k then some row else old_row db k)
        ≡ first_write
            (some k0)
            (record {
              ticker = row.ticker;
              vendor_observed_at = row.vendor_observed_at;
              captured_at = row.captured_at;
              spot_usd = row.spot_usd;
              source_quality = row.source_quality;
              cells = new;
            })
            (view_of db)
            k
  unfolding view_of find_identity
  first_write-new db k k0 new row absent h = elim (Bool-cases (string_eq.beq k0 k)) [
    | inl same ↦
        let absent' : old_row db k ≡ none = rw (sym ((string_eq.beq_iff k0 k).0 same)) absent in
        rw (same, absent', cells_of-same row.id new db.cells h.no_cell) refl
    | inr other ↦ rw (other, map_row-other row.id new db k h) (stays (view_of db k))
  ]
    where
      stays : (o : Option (Observation D)) → o ≡ or_new o none
      stays none = refl
      stays (some old) = refl

  -- Persisting a surface, whose new row would have an unused identifier, is the first write of its
  -- observation at its identity: an identity that the archive holds keeps its observation, one that
  -- it does not hold gets the surface, and every other identity is as before.
  pub persist_refines :
      {Q : Type 0} (stored : Q → StoredDetails D) (c : Capture)
      (surface : NormalizedDealerGexSurface D Q) (db : Tables D)
      → IsUnused c.new_id db
      → (k : String)
      → view_of (persist_surface stored c surface db).1 k
        ≡ first_write surface.observation_identity (captured c surface) (view_of db) k
  unfolding persist_surface persist_found find_identity view_of snapshot_row find_by
  persist_refines stored c surface db h k = elim (Option-cases surface.observation_identity) [
    | inl e ↦
        rw (e, stored_cells c.new_id (usable surface) surface.cells db.cells)
          (map_row-other c.new_id (if usable surface then surface.cells else []) db k h)
    | inr (k0, e) ↦
        elim (Option-cases (find_by (λ row. is_text_of row.observation_identity k0) db.snapshots)) [
          | inr (old, found) ↦
              rw (e, found) (first_write-held db k k0 (captured c surface) old found)
          | inl absent ↦
              rw (e, absent, stored_cells c.new_id (usable surface) surface.cells db.cells)
                (first_write-new db k k0 (if usable surface then surface.cells else [])
                  (snapshot_row stored c (record surface { observation_identity = some k0 })) absent
                  h)
        ]
  ]

-- Captures one after another, of any runs and tickers.
module _ {D Q : Type 0} (stored : Q → StoredDetails D) where
  abbrev pub persist_all : List (Capture × NormalizedDealerGexSurface D Q) → Tables D → Tables D
  persist_all [] db = db
  persist_all ((c, surface) ∷ rest) db = persist_all rest (persist_surface stored c surface db).1

  abbrev pub first_writes : List (Capture × NormalizedDealerGexSurface D Q) → View D → View D
  first_writes [] view = view
  first_writes ((c, surface) ∷ rest) view =
      first_writes rest (first_write surface.observation_identity (captured c surface) view)

  -- Each capture is given an identifier that no row has by then.
  abbrev pub AreUnused : List (Capture × NormalizedDealerGexSurface D Q) → Tables D → Type 0
  AreUnused [] db = Unit
  AreUnused ((c, surface) ∷ rest) db =
      IsUnused c.new_id db × AreUnused rest (persist_surface stored c surface db).1

  -- Over any captures with unused identifiers, the tables refine the map from observation
  -- identities to surfaces in which the first write of each identity stays: what the archive shows
  -- of an identity is what that map holds after the same captures.
  pub archive_refines :
      (captures : List (Capture × NormalizedDealerGexSurface D Q)) (db : Tables D)
      → AreUnused captures db
      → (k : String) → view_of (persist_all captures db) k ≡ first_writes captures (view_of db) k
  archive_refines [] db h k = refl
  archive_refines ((c, surface) ∷ rest) db h k =
      archive_refines rest (persist_surface stored c surface db).1 h.1 k
      ∙ ap (λ v. first_writes rest v k) (λ i j. persist_refines stored c surface db h.0 j i)
