-- ===== src/Tests/Archive.antt =====
-- Captures of one ticker, by two runs.
use Prim.Native.String.{String}
use options_anomaly_scanner.Prelude.{
  ℕ, ◌+◌, ◌≤◌, ◌≡◌, refl, ◌&&◌, true, false, none, some, List, [], ◌∷◌, ltb, ◌==◌, length, arith,
  any_by,
}
use options_anomaly_scanner.Prelude.Json.{
  Fields, no_fields, field, text, array, object, boolean, no_items, item, get,
}
use options_anomaly_scanner.Prelude.Result.{ok}
use options_anomaly_scanner.Time.{aware, time_of_day}
use options_anomaly_scanner.Sessions.{CaptureSessionPlan, ready}
use options_anomaly_scanner.Nightwatch.Client.{answered}
use options_anomaly_scanner.Dealer.Surface.{
  NormalizedDealerGexSurface, QualityDetails, normalize_dealer_gex_surface, identity_of, judge,
}
use options_anomaly_scanner.Dealer.Parsing.{
  timestamp_of, parse_cells, read_cell, date_of, or_truthy, decimal_of,
}
use options_anomaly_scanner.Dealer.Archive.{
  Tables, Capture, payload_details, persist_surface, best_archived_surface_at_or_before,
}
use options_anomaly_scanner.Dealer.Archive.FirstWrite.{
  IsUnused, archive_refines, view_of, persist_all, first_writes,
}
use options_anomaly_scanner.Dealer.Archive.AsOf.{as_of_stable}
use options_anomaly_scanner.Dealer.Capture.{ArchiveConfig, CaptureState, Surroundings, capture_all}
use options_anomaly_scanner.Dealer.Run.{Execution, finish, loop_status, is_complete}
use options_anomaly_scanner.Dealer.Run.Counts.{finish_counts}
use options_anomaly_scanner.Dealer.Execute.{
  Request, World, Host, execute, plan_of, key_of, new_run, is_outside, selected_of,
}
use options_anomaly_scanner.Dealer.Execute.Repeated.{execute_repeated, is_completed}
use options_anomaly_scanner.Tests.Clock.{market, at}
use options_anomaly_scanner.Tests.Dealer.{whole, digest, cell}
use options_anomaly_scanner.Tests.Nightwatch.{no_quota}

abbrev payload : Fields ℕ
payload = field "generated_at" (text "2025-06-20T14:00:00Z") (
    field "truncated" (boolean false)
      (field "cells" (array (item (object cell) no_items)) no_fields))

abbrev no_rows : Tables ℕ
no_rows = record { snapshots = []; cells = [] }

abbrev capture_at : ℕ → ℕ → Capture
capture_at id time = record {
  run_id = 1;
  captured_at = time;
  endpoint = "/v1/gex";
  source_request_id = some "r1";
  source_http_status = some 200;
  raw_id = none;
  specification_version = "v3";
  config_version = "v1";
  config_hash = "h";
  new_id = id;
}

abbrev surface : NormalizedDealerGexSurface ℕ (QualityDetails ℕ)
surface = normalize_dealer_gex_surface whole digest "AAPL" (some payload) 200

nothing_stored : (id : ℕ) → IsUnused id no_rows
unfolding any_by
nothing_stored id = record { no_snapshot = refl; no_cell = refl }

archive_refines_example :
    view_of (persist_all payload_details ((capture_at 1 100, surface) ∷ []) no_rows) "AAPL"
    ≡ first_writes payload_details ((capture_at 1 100, surface) ∷ []) (view_of no_rows) "AAPL"
archive_refines_example =
    archive_refines payload_details ((capture_at 1 100, surface) ∷ []) no_rows
      (nothing_stored 1, tt) "AAPL"

as_of_stable_example :
    best_archived_surface_at_or_before
      (λ a b. false)
      "AAPL"
      90
      (persist_surface payload_details (capture_at 1 100) surface no_rows).1
    ≡ best_archived_surface_at_or_before (λ a b. false) "AAPL" 90 no_rows
as_of_stable_example =
    as_of_stable (λ a b. false) payload_details (capture_at 1 100) surface "AAPL" 90 no_rows
      (nothing_stored 1) (omega arith)

abbrev config : ArchiveConfig
config = record {
  version = "v1";
  enabled = true;
  universe = "AAPL" ∷ [];
  intended_capture_slot = "15:30";
  slot_time = some (time_of_day 15 30);
  max_network_attempts = 2;
  max_consumed_units = 1;
  hash = "h";
}

abbrev vendor : Surroundings ℕ
vendor = record {
  server = λ ticker attempt. answered (record {
    status_code = 200;
    payload = object payload;
    quota = no_quota;
    vendor_request_id = none;
  });
  has_key = true;
  max_retries = 0;
  call_for = λ ticker. record {
    path = "/v1/gex";
    command = none;
    ticker = some ticker;
    expiration = none;
    authenticated = true;
    request_id = "r1";
  };
  captured_at = λ ticker. at 15 30;
  snapshot_id = λ ticker. 1;
  raw_id = λ ticker. 1;
  fault = λ ticker. none;
}

abbrev no_captures : CaptureState ℕ
no_captures = record { tables = no_rows; raws = []; events = [] }

abbrev host : Host ℕ
host = record {
  meanwhile = λ runs. runs;
  lock_free = true;
  run_id = 1;
  completed_at = at 15 31;
  env = vendor;
}

abbrev request_at : ℕ → ℕ → Request
request_at h m = record {
  tickers = [];
  trigger = "cli";
  dry_run = false;
  now = aware (at h m);
  intended_market_date = none;
  canonical_slot_id = none;
}

abbrev world : World ℕ
world = record { runs = []; capture = no_captures }

abbrev joined : List String → String
joined tickers = "AAPL"

abbrev plan : CaptureSessionPlan
plan = record {
  market_date = 10;
  intended_at = at 15 30;
  session_close = some (at 16 0);
  should_capture = true;
  status = ready;
}

finish_counts_example :
    let loop = capture_all whole digest config vendor 1 ("AAPL" ∷ "MSFT" ∷ []) no_captures in
    let events = loop.state.events in
    let done =
      finish
        (loop_status loop.rows)
        loop.rows
        5
        events
        (new_run joined config 1 (request_at 15 45) plan 4) in
    (done.tickers_succeeded + done.tickers_failed ≡ done.tickers_attempted)
    × (done.usable_snapshots + done.degraded_snapshots + done.incomplete_snapshots
          + done.unavailable_snapshots
        ≡ done.tickers_attempted)
    × (done.observations_reused ≤ done.tickers_succeeded)
    × (done.http_successes + done.http_failures ≡ length events)
    × (is_complete done.status
        ≡ (ltb 0 (length loop.rows) && (done.tickers_succeeded == length loop.rows)))
finish_counts_example =
    finish_counts whole digest config vendor 1 ("AAPL" ∷ "MSFT" ∷ []) no_captures 5
      (new_run joined config 1 (request_at 15 45) plan 4)

session_planned : plan_of config market (request_at 15 45) ≡ ok (plan, at 15 45)
unfolding plan_of
session_planned = refl

later_planned : plan_of config market (request_at 18 0) ≡ ok (plan, at 18 0)
unfolding plan_of
later_planned = refl

same_key :
    key_of joined config (request_at 18 0) plan ≡ key_of joined config (request_at 15 45) plan
unfolding key_of
same_key = refl

nothing_outside : is_outside config (selected_of config (request_at 18 0)) ≡ false
unfolding is_outside selected_of
nothing_outside = refl

captured_once :
    is_completed (execute whole digest market joined config host (request_at 15 45) world).0 ≡ true
unfolding execute normalize_dealer_gex_surface identity_of timestamp_of get judge parse_cells
    read_cell date_of or_truthy decimal_of
captured_once = refl

-- A collection at 15:45, and one at 18:00 that finds it complete.
execute_repeated_example :
    let (summary, after) =
      execute whole digest market joined config host (request_at 15 45) world in
    ◌≡◌ {A = Execution × World ℕ}
      (execute whole digest market joined config host (request_at 18 0) after)
      (summary, after)
execute_repeated_example =
    execute_repeated whole digest market joined config host (request_at 15 45) (request_at 18 0)
      plan plan (at 15 45) (at 18 0) later_planned same_key refl refl refl nothing_outside refl
      (omega arith) host world session_planned captured_once
