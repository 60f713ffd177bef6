-- ===== src/Dealer/Surface.antt =====
-- backend/app/dealer_archive/domain.py, normalize_dealer_gex_surface: the quality of a surface, and
-- what of it is kept.
pub mod Usable
use Prim.Native.String.{String}
use options_anomaly_scanner.Prelude.{
  ℕ, zero, suc, ◌+◌, ◌≡◌, Bool, true, false, not, ◌&&◌, ◌||◌, Option, none, some, List, [], ◌∷◌,
  ltb, leb, ◌==◌, if◌then◌else◌, any_by, length, is_some,
}
use options_anomaly_scanner.Prelude.Eq.{string_eq}
use options_anomaly_scanner.Prelude.Json.{
  Json, null, boolean, array, object, Items, no_items, item, Fields, no_fields, field, find_field,
  get, object_or_empty,
}
use options_anomaly_scanner.Prelude.Json.{text as text_value}
use options_anomaly_scanner.Dealer.Parsing.{
  Python, DealerGexCellValue, ParsedCells, parse_cells, decimal_of, timestamp_of, sorted_keys,
}

pub data SourceQuality : Type 0 where
  available : SourceQuality
  available_degraded : SourceQuality
  incomplete_or_truncated : SourceQuality
  unavailable : SourceQuality

pub data SafeError : Type 0 where
  source_request_unavailable : SafeError
  missing_payload : SafeError
  malformed_or_missing_cells : SafeError
  incomplete_or_truncated_surface : SafeError
  missing_vendor_observation_timestamp : SafeError
  no_usable_net_gex_cells : SafeError
  partial_net_gex_values : SafeError
  vendor_reported_degraded : SafeError
  truncation_status_missing_or_invalid : SafeError
  -- the code of the client's error
  client_error : String → SafeError

pub data TruncatedSource : Type 0 where
  from_meta : TruncatedSource
  from_data : TruncatedSource

abbrev pub is_usable : SourceQuality → Bool
is_usable available = true
is_usable available_degraded = true
is_usable incomplete_or_truncated = false
is_usable unavailable = false

pub record QualityDetails (D : Type 0) : Type 0 where
  pub top_level_keys : List String
  pub data_keys : List String
  pub representative_cell_keys : List String
  pub source_cell_count : ℕ
  pub parsed_cell_count : ℕ
  pub expiration_count : ℕ
  pub invalid_cell_count : ℕ
  pub duplicate_cell_count : ℕ
  pub missing_net_cell_count : ℕ
  pub missing_call_gex_cell_count : ℕ
  pub missing_put_gex_cell_count : ℕ
  pub source_http_status : ℕ
  pub session_date_et : Json D
  pub market_status : Json D
  pub vendor_state : Json D
  pub scale : Json D
  pub declared_expiration_count : Option ℕ
  pub truncated_source : Option TruncatedSource
  pub truncated_value : Option Bool
  pub vendor_meta : Fields D

-- `Q` is what is kept of the quality: the details of a payload, or of a failed request.
pub record NormalizedDealerGexSurface (D Q : Type 0) : Type 0 where
  pub ticker : String
  pub vendor_observed_at : Option ℕ
  pub spot_usd : Option D
  pub source_quality : SourceQuality
  pub safe_error_code : Option SafeError
  pub truncated : Bool
  pub cells : List (DealerGexCellValue D)
  pub observation_identity : Option String
  pub quality_details : Q

-- The property `usable`, which `availability` repeats.
abbrev pub usable : {D Q : Type 0} → NormalizedDealerGexSurface D Q → Bool
usable s = is_usable s.source_quality

-- The branch that the ladder takes: the quality, the error, and the cells that are kept.
pub record Verdict (D : Type 0) : Type 0 where
  pub quality : SourceQuality
  pub safe_error : Option SafeError
  pub cells : List (DealerGexCellValue D)

module _ {D : Type 0} where
  abbrev pub items_of : Json D → Items D
  items_of (array items) = items
  items_of _ = no_items

  abbrev pub is_list : Json D → Bool
  is_list (array items) = true
  is_list _ = false

  unfoldable pub count_items : Items D → ℕ
  count_items no_items = 0
  count_items (item x rest) = suc (count_items rest)

  list_length : Json D → Option ℕ
  unfolding count_items
  list_length (array items) = some (count_items items)
  list_length _ = none

  abbrev pub is_empty_dict : Fields D → Bool
  is_empty_dict no_fields = true
  is_empty_dict (field k v rest) = false

  abbrev pub is_boolean : Bool → Json D → Bool
  is_boolean true (boolean b) = b
  is_boolean false (boolean b) = not b
  is_boolean b _ = false

  boolean_of : Json D → Option Bool
  boolean_of (boolean b) = some b
  boolean_of _ = none

  -- envelope["data"] where it is a dict, else the envelope
  data_of : Json D → Fields D → Fields D
  data_of (object d) envelope = d
  data_of _ envelope = envelope

  -- The value of `truncated` and where it was found.
  truncation_of : Option (Json D) → Option (Json D) → Json D × Option TruncatedSource
  truncation_of (some v) in_data = (v, some from_meta)
  truncation_of none (some v) = (v, some from_data)
  truncation_of none none = (null, none)

  -- {key: meta.get(key) for key in keys if key in meta}
  present_keys : List String → Fields D → Fields D
  present_keys [] meta = no_fields
  present_keys (key ∷ rest) meta =
      let others = present_keys rest meta in
      elim (find_field key meta) [ none ↦ others | some v ↦ field key v others ]

  -- len({cell.expiration for cell in cells})
  unfoldable pub count_expirations : List (DealerGexCellValue D) → ℕ
  unfolding any_by
  count_expirations [] = 0
  count_expirations (cell ∷ rest) =
      let others = count_expirations rest in
      if any_by (λ c. c.expiration == cell.expiration) rest then others else suc others

  unfoldable pub judge :
      (status : ℕ) (empty_data cells_listed is_truncated declared_whole degraded_state : Bool)
      → Option ℕ
      → ParsedCells D
      → Verdict D
  judge status empty_data cells_listed is_truncated declared_whole degraded_state vendor_time p =
      if leb 400 status
      then record {
        quality = unavailable;
        safe_error = some source_request_unavailable;
        cells = [];
      }
      else if empty_data
      then record { quality = unavailable; safe_error = some missing_payload; cells = [] }
      else if not cells_listed
      then record {
        quality = unavailable;
        safe_error = some malformed_or_missing_cells;
        cells = [];
      }
      else if is_truncated || ltb 0 p.invalid_rows || ltb 0 p.duplicate_rows
      then record {
        quality = incomplete_or_truncated;
        safe_error = some incomplete_or_truncated_surface;
        cells = [];
      }
      else if not (is_some vendor_time)
      then record {
        quality = unavailable;
        safe_error = some missing_vendor_observation_timestamp;
        cells = [];
      }
      else if length p.parsed_cells == 0 || p.missing_net_rows == length p.parsed_cells
      then record { quality = unavailable; safe_error = some no_usable_net_gex_cells; cells = [] }
      else if ltb 0 p.missing_net_rows
      then record {
        quality = available_degraded;
        safe_error = some partial_net_gex_values;
        cells = p.parsed_cells;
      }
      else if degraded_state
      then record {
        quality = available_degraded;
        safe_error = some vendor_reported_degraded;
        cells = p.parsed_cells;
      }
      else if not declared_whole
      then record {
        quality = available_degraded;
        safe_error = some truncation_status_missing_or_invalid;
        cells = p.parsed_cells;
      }
      else record { quality = available; safe_error = none; cells = p.parsed_cells }

module _ {D : Type 0} (py : Python D) where
  -- str(state).lower() == "degraded", which only a text can be.
  unfoldable pub is_degraded_state : Json D → Bool
  is_degraded_state (text_value t) = string_eq.beq (py.lower t) "degraded"
  is_degraded_state _ = false

-- `identity_digest` is analytical_observation_identity: the SHA-256 of the canonical JSON of the
-- ticker, the vendor's time and two constants.
module _ {D : Type 0} (py : Python D) (identity_digest : String → ℕ → String) where
  unfoldable pub identity_of : SourceQuality → String → Option ℕ → Option String
  identity_of quality ticker none = none
  identity_of quality ticker (some t) =
      if is_usable quality then some (identity_digest ticker t) else none

  unfoldable pub normalize_dealer_gex_surface :
      String → Option (Fields D) → ℕ → NormalizedDealerGexSurface D (QualityDetails D)
  unfolding data_of truncation_of list_length boolean_of present_keys count_expirations
      is_degraded_state count_items
  normalize_dealer_gex_surface ticker payload source_http_status =
      let envelope : Fields D = elim payload [ none ↦ no_fields | some d ↦ d ] in
      let data_fields = data_of (get "data" envelope) envelope in
      let meta = object_or_empty (get "_meta" envelope) in
      let cells_value = get "cells" data_fields in
      let vendor_time = timestamp_of py (get "generated_at" data_fields) in
      let truncation =
        truncation_of (find_field "truncated" meta) (find_field "truncated" data_fields) in
      let parsed = parse_cells py [] (items_of cells_value) in
      let verdict =
        judge source_http_status (is_empty_dict data_fields) (is_list cells_value)
          (is_boolean true truncation.0) (is_boolean false truncation.0)
          (is_degraded_state py (get "state" data_fields)) vendor_time parsed in
      record {
        ticker = ticker;
        vendor_observed_at = vendor_time;
        spot_usd = decimal_of py (get "spot_usd" data_fields);
        source_quality = verdict.quality;
        safe_error_code = verdict.safe_error;
        truncated = is_boolean true truncation.0;
        cells = verdict.cells;
        observation_identity = identity_of verdict.quality ticker vendor_time;
        quality_details = record {
          top_level_keys = sorted_keys py envelope;
          data_keys = sorted_keys py data_fields;
          representative_cell_keys = parsed.representative_keys;
          source_cell_count = count_items (items_of cells_value);
          parsed_cell_count = length parsed.parsed_cells;
          expiration_count = count_expirations parsed.parsed_cells;
          invalid_cell_count = parsed.invalid_rows;
          duplicate_cell_count = parsed.duplicate_rows;
          missing_net_cell_count = parsed.missing_net_rows;
          missing_call_gex_cell_count = parsed.missing_call_rows;
          missing_put_gex_cell_count = parsed.missing_put_rows;
          source_http_status = source_http_status;
          session_date_et = get "session_date_et" data_fields;
          market_status = get "market_status" data_fields;
          vendor_state = get "state" data_fields;
          scale = get "scale" data_fields;
          declared_expiration_count = list_length (get "expirations" data_fields);
          truncated_source = truncation.1;
          truncated_value = boolean_of truncation.0;
          vendor_meta =
              present_keys
                ("request_id" ∷ "cache_hit" ∷ "data_freshness_seconds" ∷ "rate_limit_remaining"
                  ∷ "quota_remaining_pct" ∷ [])
                meta;
        };
      }

-- unavailable_surface: the surface of a request that failed with this code and status.
unfoldable pub unavailable_surface :
    {D : Type 0} → String → String → Option ℕ → NormalizedDealerGexSurface D (Option ℕ)
unavailable_surface ticker safe_error_code source_http_status = record {
  ticker = ticker;
  vendor_observed_at = none;
  spot_usd = none;
  source_quality = unavailable;
  safe_error_code = some (client_error safe_error_code);
  truncated = false;
  cells = [];
  observation_identity = none;
  quality_details = source_http_status;
}
