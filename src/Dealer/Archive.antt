-- ===== src/Dealer/Archive.antt =====
-- backend/app/dealer_archive/repository.py: the tables of archived surfaces, the write of one
-- surface, and the reads of what was known at a time.
pub mod FirstWrite
pub mod AsOf
pub mod Coverage
use Prim.Native.String.{String}
use options_anomaly_scanner.Prelude.{
  ℕ, Bool, true, false, not, ◌&&◌, ◌||◌, Option, none, some, List, [], ◌∷◌, ◌++◌, ltb, leb, ◌==◌,
  if◌then◌else◌, length, find_by, filter_by, any_by,
}
use options_anomaly_scanner.Prelude.Eq.{string_eq}
use options_anomaly_scanner.Prelude.Sort.{sort_by}
use options_anomaly_scanner.Prelude.Sort.Least.{first}
use options_anomaly_scanner.Dealer.Parsing.{DealerGexCellValue}
use options_anomaly_scanner.Dealer.Surface.{
  SourceQuality, available, available_degraded, incomplete_or_truncated, unavailable, SafeError,
  QualityDetails, NormalizedDealerGexSurface, usable, count_expirations,
}

-- The JSON column of the details: those of a payload, or the status of a failed request.
pub data StoredDetails (D : Type 0) : Type 0 where
  payload_details : QualityDetails D → StoredDetails D
  status_details : Option ℕ → StoredDetails D

-- DealerGexSnapshot, without the columns that hold a constant.
pub record Snapshot (D : Type 0) : Type 0 where
  pub id : ℕ
  pub archive_run_id : ℕ
  pub ticker : String
  pub vendor_observed_at : Option ℕ
  pub captured_at : ℕ
  pub spot_usd : Option D
  pub source_quality : SourceQuality
  pub endpoint : String
  pub source_request_id : Option String
  pub raw_payload_id : Option ℕ
  pub source_http_status : Option ℕ
  pub safe_error_code : Option SafeError
  pub truncated : Bool
  pub cell_count : ℕ
  pub expiration_count : ℕ
  pub observation_identity : Option String
  pub is_analytical_observation : Bool
  pub quality_details : StoredDetails D
  pub specification_version : String
  pub config_version : String
  pub config_hash : String

-- DealerGexSnapshotCell
pub record SnapshotCell (D : Type 0) : Type 0 where
  pub snapshot_id : ℕ
  pub cell : DealerGexCellValue D

pub record Tables (D : Type 0) : Type 0 where
  pub snapshots : List (Snapshot D)
  pub cells : List (SnapshotCell D)

-- The arguments of persist_surface beside the surface, and the identifier that uuid4 gives to the
-- row that it may insert.
pub record Capture : Type 0 where
  pub run_id : ℕ
  pub captured_at : ℕ
  pub endpoint : String
  pub source_request_id : Option String
  pub source_http_status : Option ℕ
  pub raw_id : Option ℕ
  pub specification_version : String
  pub config_version : String
  pub config_hash : String
  pub new_id : ℕ

abbrev pub is_text_of : Option String → String → Bool
is_text_of none k = false
is_text_of (some t) k = string_eq.beq t k

-- vendor_observed_at <= cutoff
abbrev pub observed_by : Option ℕ → ℕ → Bool
observed_by none cutoff = false
observed_by (some t) cutoff = leb t cutoff

abbrev pub time_or_zero : Option ℕ → ℕ
time_or_zero none = 0
time_or_zero (some t) = t

module _ {D : Type 0} where
  -- select(DealerGexSnapshot).where(observation_identity == identity)
  unfoldable pub find_identity : Option String → List (Snapshot D) → Option (Snapshot D)
  unfolding find_by
  find_identity none rows = none
  find_identity (some k) rows = find_by (λ row. is_text_of row.observation_identity k) rows

  unfoldable pub snapshot_row :
      {Q : Type 0} → (Q → StoredDetails D) → Capture → NormalizedDealerGexSurface D Q → Snapshot D
  snapshot_row stored c surface = record {
    id = c.new_id;
    archive_run_id = c.run_id;
    ticker = surface.ticker;
    vendor_observed_at = surface.vendor_observed_at;
    captured_at = c.captured_at;
    spot_usd = surface.spot_usd;
    source_quality = surface.source_quality;
    endpoint = c.endpoint;
    source_request_id = c.source_request_id;
    raw_payload_id = c.raw_id;
    source_http_status = c.source_http_status;
    safe_error_code = surface.safe_error_code;
    truncated = surface.truncated;
    cell_count = if usable surface then length surface.cells else 0;
    expiration_count = if usable surface then count_expirations surface.cells else 0;
    observation_identity = surface.observation_identity;
    is_analytical_observation = usable surface;
    quality_details = stored surface.quality_details;
    specification_version = c.specification_version;
    config_version = c.config_version;
    config_hash = c.config_hash;
  }

  unfoldable pub cell_rows : ℕ → List (DealerGexCellValue D) → List (SnapshotCell D)
  cell_rows id [] = []
  cell_rows id (cell ∷ rest) = record { snapshot_id = id; cell = cell } ∷ cell_rows id rest

  -- The row that holds the surface, whether it was there before, and the tables.
  unfoldable pub persist_found :
      {Q : Type 0}
      → (Q → StoredDetails D)
      → Capture
      → NormalizedDealerGexSurface D Q
      → Option (Snapshot D)
      → Tables D
      → (Snapshot D × Bool) × Tables D
  unfolding snapshot_row cell_rows
  persist_found stored c surface (some existing) db = ((existing, true), db)
  persist_found stored c surface none db =
      let row = snapshot_row stored c surface in
      (
        (row, false),
        record {
          snapshots = row ∷ db.snapshots;
          cells = (if usable surface then cell_rows row.id surface.cells else []) ++ db.cells;
        },
      )

  unfoldable pub persist_surface :
      {Q : Type 0}
      → (Q → StoredDetails D)
      → Capture
      → NormalizedDealerGexSurface D Q
      → Tables D
      → (Snapshot D × Bool) × Tables D
  unfolding persist_found find_identity
  persist_surface stored c surface db =
      persist_found stored c surface (find_identity surface.observation_identity db.snapshots) db

  -- select(DealerGexSnapshotCell).where(snapshot_id == id), in the order of insertion
  unfoldable pub cells_of : ℕ → List (SnapshotCell D) → List (DealerGexCellValue D)
  cells_of id [] = []
  cells_of id (row ∷ rest) =
      let others = cells_of id rest in if row.snapshot_id == id then row.cell ∷ others else others

  -- The latest of the analytical rows of the ticker that were observed by the vendor and captured
  -- here by the cutoff; a NULL time is not before it.
  unfoldable pub is_known_by : String → ℕ → Snapshot D → Bool
  is_known_by ticker cutoff row =
      string_eq.beq row.ticker ticker
      && row.is_analytical_observation
      && observed_by row.vendor_observed_at cutoff
      && leb row.captured_at cutoff

  -- order_by(desc(vendor_observed_at), desc(captured_at))
  abbrev pub later : Snapshot D → Snapshot D → Bool
  later a b =
      let va = time_or_zero a.vendor_observed_at in
      let vb = time_or_zero b.vendor_observed_at in
      ltb vb va || (va == vb && ltb b.captured_at a.captured_at)

  unfoldable pub best_snapshot : String → ℕ → List (Snapshot D) → Option (Snapshot D)
  unfolding sort_by filter_by is_known_by
  best_snapshot ticker cutoff rows =
      first (sort_by later (filter_by (is_known_by ticker cutoff) rows))

  -- archived_surface_payload, as the row and its cells by expiration and strike.
  unfoldable pub archived_surface :
      (DealerGexCellValue D → DealerGexCellValue D → Bool)
      → Tables D
      → Snapshot D
      → Snapshot D × List (DealerGexCellValue D)
  unfolding sort_by cells_of
  archived_surface cell_lt db row = (row, sort_by cell_lt (cells_of row.id db.cells))

  best_payload :
      (DealerGexCellValue D → DealerGexCellValue D → Bool)
      → Tables D
      → Option (Snapshot D)
      → Option (Snapshot D × List (DealerGexCellValue D))
  unfolding archived_surface
  best_payload cell_lt db none = none
  best_payload cell_lt db (some row) = some (archived_surface cell_lt db row)

  unfoldable pub best_archived_surface_at_or_before :
      (DealerGexCellValue D → DealerGexCellValue D → Bool)
      → String
      → ℕ
      → Tables D
      → Option (Snapshot D × List (DealerGexCellValue D))
  unfolding best_snapshot best_payload
  best_archived_surface_at_or_before cell_lt ticker cutoff db =
      best_payload cell_lt db (best_snapshot ticker cutoff db.snapshots)
