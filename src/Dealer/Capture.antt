-- ===== src/Dealer/Capture.antt =====
-- backend/app/dealer_archive/service.py, DealerGexArchiver: the capture of one ticker, and the loop
-- over the tickers under the budget of network attempts and quota.
pub mod Budget
pub mod Limits
pub mod Results
use Prim.Native.String.{String}
use options_anomaly_scanner.Prelude.{
  ℕ, suc, ◌+◌, Bool, true, false, not, ◌&&◌, ◌||◌, Option, none, some, List, [], ◌∷◌, ◌++◌, ltb,
  leb, ◌==◌, if◌then◌else◌, length, find_by, count_by,
}
use options_anomaly_scanner.Prelude.Eq.{string_eq}
use options_anomaly_scanner.Prelude.Json.{Json, Fields, object}
use options_anomaly_scanner.Nightwatch.Client.{
  Response, Reply, Call, ApiUsageEvent, Outcome, key_missing, transport_error, escaped_error,
  vendor_error, result, request,
}
use options_anomaly_scanner.Dealer.Parsing.{Python}
use options_anomaly_scanner.Dealer.Surface.{
  SourceQuality, unavailable, SafeError, client_error, NormalizedDealerGexSurface, QualityDetails,
  usable, count_expirations, normalize_dealer_gex_surface, unavailable_surface,
}
use options_anomaly_scanner.Dealer.Archive.{
  Snapshot, Tables, Capture, StoredDetails, payload_details, status_details, persist_surface,
}

-- DealerGexArchiveConfig, with its hash; the local time of the slot is its text and what time it is.
pub record ArchiveConfig : Type 0 where
  pub version : String
  pub enabled : Bool
  pub universe : List String
  pub intended_capture_slot : String
  pub slot_time : Option ℕ
  pub max_network_attempts : ℕ
  pub max_consumed_units : ℕ
  pub hash : String

abbrev pub archive_spec_version : String
archive_spec_version = "signal_spec_v3.1_phase2b"

pub data TickerStatus : Type 0 where
  persisted : TickerStatus
  reused : TickerStatus
  not_usable : SourceQuality → TickerStatus
  budget_not_attempted : TickerStatus

pub record TickerResult : Type 0 where
  pub ticker : String
  pub status : TickerStatus
  pub http_status : Option ℕ
  pub source_quality : Option SourceQuality
  pub vendor_observed_at : Option ℕ
  pub snapshot_id : Option ℕ
  pub request_id : Option String
  pub cells : ℕ
  pub expirations : ℕ
  pub safe_error_code : Option SafeError

abbrev pub was_attempted : TickerStatus → Bool
was_attempted budget_not_attempted = false
was_attempted _ = true

abbrev pub is_attempted : TickerResult → Bool
is_attempted row = was_attempted row.status

-- RawVendorPayload of the source "nightwatch", by the columns that the capture decides.
pub record RawPayload (N : Type 0) : Type 0 where
  pub id : ℕ
  pub request_id : String
  pub vendor_request_id : Option String
  pub ticker : String
  pub payload : Json N

-- What a run changes besides its own row: the archive, the raw payloads, and the usage events that
-- the observer has seen, the oldest first.
pub record CaptureState (N : Type 0) : Type 0 where
  pub tables : Tables N
  pub raws : List (RawPayload N)
  pub events : List (ApiUsageEvent N)

-- What surrounds a run: the vendor's replies to the attempts for a ticker, the client's settings,
-- the request and the endpoint of a ticker, the clock and the identifiers that its rows get, and
-- the exception that the database or the ingestion raises while a ticker is captured, if any.
pub record Surroundings (N : Type 0) : Type 0 where
  pub server : String → ℕ → Reply N
  pub has_key : Bool
  pub max_retries : ℕ
  pub call_for : String → Call
  pub captured_at : String → ℕ
  pub snapshot_id : String → ℕ
  pub raw_id : String → ℕ
  pub fault : String → Option String

pub data Captured (N : Type 0) : Type 0 where
  captured_result : TickerResult → CaptureState N → Captured N
  captured_fault : String → CaptureState N → Captured N

-- What the loop over the tickers leaves: its rows, and the exception that ended it, if any.
pub record LoopOutcome (N : Type 0) : Type 0 where
  pub rows : List TickerResult
  pub exception : Option String
  pub state : CaptureState N

abbrev pub with_row : {N : Type 0} → TickerResult → LoopOutcome N → LoopOutcome N
with_row r later = record later { rows = r ∷ later.rows }

-- `value or default` on an optional text.
abbrev or_text : Option String → String → String
or_text none t = t
or_text (some s) t = if string_eq.beq s "" then t else s

abbrev pub count_attempts : {N : Type 0} → List (ApiUsageEvent N) → ℕ
count_attempts [] = 0
count_attempts (e ∷ rest) = e.attempt_count + count_attempts rest

-- `consumed_quota is True`
abbrev pub is_consumed : Option Bool → Bool
is_consumed none = false
is_consumed (some b) = b

unfoldable pub count_consumed : {N : Type 0} → List (ApiUsageEvent N) → ℕ
unfolding count_by
count_consumed events = count_by (λ e. is_consumed e.consumed_quota) events

module _ {N : Type 0} where
  -- `raw` of the request: the row of its identifier, or a new one.
  ensure_raw : RawPayload N → List (RawPayload N) → ℕ × List (RawPayload N)
  unfolding find_by
  ensure_raw new raws = elim (find_by (λ r. string_eq.beq r.request_id new.request_id) raws) [
    | some old ↦ (old.id, raws)
    | none ↦ (new.id, new ∷ raws)
  ]

  abbrev dict_of : Json N → Option (Fields N)
  dict_of (object d) = some d
  dict_of _ = none

  unfoldable pub surface_status :
      {Q : Type 0} → Bool → NormalizedDealerGexSurface N Q → TickerStatus
  surface_status true surface = reused
  surface_status false surface =
      if usable surface then persisted else not_usable surface.source_quality

module _ {N : Type 0} (py : Python N) (identity_digest : String → ℕ → String)
    (config : ArchiveConfig) (env : Surroundings N) (run_id : ℕ) where
  capture_of : String → Option String → Option ℕ → Option ℕ → Capture
  capture_of ticker source_request_id source_http_status raw_id = record {
    run_id = run_id;
    captured_at = env.captured_at ticker;
    endpoint = (env.call_for ticker).path;
    source_request_id = source_request_id;
    source_http_status = source_http_status;
    raw_id = raw_id;
    specification_version = archive_spec_version;
    config_version = config.version;
    config_hash = config.hash;
    new_id = env.snapshot_id ticker;
  }

  -- The request succeeded: the payload is kept, normalized and archived.
  unfoldable pub capture_response : String → Response N → CaptureState N → Captured N
  unfolding capture_of ensure_raw surface_status persist_surface count_expirations
  capture_response ticker response state =
      let request_id = or_text response.vendor_request_id (env.call_for ticker).request_id in
      let (raw_id, raws) =
        ensure_raw
          (record {
            id = env.raw_id ticker;
            request_id = request_id;
            vendor_request_id = response.vendor_request_id;
            ticker = ticker;
            payload = response.payload;
          })
          state.raws in
      let surface =
        normalize_dealer_gex_surface py identity_digest ticker (dict_of response.payload)
          response.status_code in
      let ((snapshot, was_there), tables) =
        persist_surface payload_details
          (capture_of ticker (some request_id) (some response.status_code) (some raw_id)) surface
          state.tables in
      captured_result
        (record {
          ticker = ticker;
          status = surface_status was_there surface;
          http_status = some response.status_code;
          source_quality = some surface.source_quality;
          vendor_observed_at = surface.vendor_observed_at;
          snapshot_id = some snapshot.id;
          request_id = some request_id;
          cells = length surface.cells;
          expirations = count_expirations surface.cells;
          safe_error_code = surface.safe_error_code;
        })
        (record state { tables = tables; raws = raws })

  -- except NightwatchError: the failed attempt is archived without an observation.
  capture_error :
      String
      → (code : String) (status : Option ℕ) (request_id : Option String) → CaptureState N
      → Captured N
  unfolding capture_of persist_surface unavailable_surface
  capture_error ticker code status request_id state =
      let surface = unavailable_surface {D = N} ticker code status in
      let ((snapshot, was_there), tables) =
        persist_surface status_details (capture_of ticker request_id status none) surface
          state.tables in
      captured_result
        (record {
          ticker = ticker;
          status = not_usable unavailable;
          http_status = status;
          source_quality = some unavailable;
          vendor_observed_at = none;
          snapshot_id = some snapshot.id;
          request_id = request_id;
          cells = 0;
          expirations = 0;
          safe_error_code = some (client_error code);
        })
        (record state { tables = tables })

  capture_outcome : String → Outcome N → CaptureState N → Captured N
  unfolding capture_response capture_error
  capture_outcome ticker key_missing state = capture_error ticker "KEY_MISSING" none none state
  capture_outcome ticker transport_error state =
      capture_error ticker "NightwatchTransportError" none (some (env.call_for ticker).request_id)
        state
  capture_outcome ticker (escaped_error exception) state = captured_fault exception state
  capture_outcome ticker (vendor_error response code retryable) state =
      capture_error ticker (or_text code "NightwatchError") (some response.status_code)
        (some (or_text response.vendor_request_id (env.call_for ticker).request_id)) state
  capture_outcome ticker (result response) state = capture_response ticker response state

  -- An exception of the request comes before any of the archive.
  abbrev fault_of : Outcome N → String → String
  fault_of (escaped_error first_exception) later_exception = first_exception
  fault_of _ later_exception = later_exception

  unfoldable pub capture_unless : Option String → String → Outcome N → CaptureState N → Captured N
  unfolding capture_outcome
  capture_unless (some exception) ticker outcome state =
      captured_fault (fault_of outcome exception) state
  capture_unless none ticker outcome state = capture_outcome ticker outcome state

  -- _capture_ticker; the observer sees the events of the request first.
  unfoldable pub capture_ticker : String → CaptureState N → Captured N
  unfolding capture_unless request
  capture_ticker ticker state =
      let (events, outcome) =
        request env.has_key env.max_retries (env.server ticker) "GET" (env.call_for ticker) in
      capture_unless (env.fault ticker) ticker outcome
        (record state { events = state.events ++ events })

  unfoldable pub is_spent : CaptureState N → Bool
  unfolding count_consumed
  is_spent state =
      leb config.max_network_attempts (count_attempts state.events)
      || leb config.max_consumed_units (count_consumed state.events)

  abbrev pub skipped_result : String → TickerResult
  skipped_result ticker = record {
    ticker = ticker;
    status = budget_not_attempted;
    http_status = none;
    source_quality = none;
    vendor_observed_at = none;
    snapshot_id = none;
    request_id = none;
    cells = 0;
    expirations = 0;
    safe_error_code = none;
  }

  -- An exception ends the loop; a result is followed by those of the later tickers.
  abbrev pub after_capture : Captured N → (CaptureState N → LoopOutcome N) → LoopOutcome N
  after_capture (captured_fault exception state) later = record {
    rows = [];
    exception = some exception;
    state = state;
  }
  after_capture (captured_result r state) later = with_row r (later state)

  unfoldable pub capture_all : List String → CaptureState N → LoopOutcome N
  unfolding capture_ticker is_spent
  capture_all [] state = record { rows = []; exception = none; state = state }
  capture_all (ticker ∷ rest) state =
      if is_spent state
      then with_row (skipped_result ticker) (capture_all rest state)
      else after_capture (capture_ticker ticker state) (capture_all rest)
