-- ===== src/Tests/Dealer.antt =====
-- A dealer surface of two cells, of which one is a duplicate.
use Prim.Native.String.{String}
use options_anomaly_scanner.Prelude.{
  true, length, ℕ, ◌+◌, ◌≡◌, refl, false, not, ◌&&◌, Option, none, some, ltb, ◌==◌, any_by, is_some,
}
use options_anomaly_scanner.Prelude.Eq.{nat_eq, string_eq}
use options_anomaly_scanner.Prelude.Json.{
  Fields, no_fields, field, number, text, array, object, boolean, Items, no_items, item, get,
}
use options_anomaly_scanner.Time.{aware}
use options_anomaly_scanner.Dealer.Parsing.{
  Python, parse_cells, read_cell, date_of, or_truthy, decimal_of, timestamp_of,
}
use options_anomaly_scanner.Dealer.Parsing.Cells.{has_net, DistinctIdentity}
use options_anomaly_scanner.Dealer.Surface.{
  usable, normalize_dealer_gex_surface, is_degraded_state, incomplete_or_truncated, available,
  judge,
}
use options_anomaly_scanner.Dealer.Surface.Usable.{
  is_available, is_false, surface_usable, surface_cells, surface_available,
}

-- Whole numbers as decimals, and a calendar that knows one date and one instant.
abbrev pub whole : Python ℕ
whole = record {
  decimal_eq = nat_eq;
  is_zero = λ d. d == 0;
  is_finite = λ d. true;
  decimal = λ t. none;
  prefix_10 = λ t. t;
  is_blank = λ t. string_eq.beq t "";
  replace_z = λ t. t;
  lower = λ t. t;
  text_lt = λ s t. false;
  date_fromisoformat = λ t. some 739422;
  datetime_fromisoformat = λ t. some (aware 1750000000);
}

abbrev pub digest : String → ℕ → String
digest ticker t = ticker

abbrev pub cell : Fields ℕ
cell =
    field "expiration" (text "2025-06-20")
      (field "strike_usd" (number 200) (field "net_dealer_gex_usd" (number 5) no_fields))

abbrev surface : Items ℕ → Option (Fields ℕ)
surface cells = some (
    field "generated_at" (text "2025-06-20T14:00:00Z")
      (field "truncated" (boolean false) (field "cells" (array cells) no_fields)))

abbrev one_cell : Option (Fields ℕ)
one_cell = surface (item (object cell) no_items)

abbrev repeated_cell : Option (Fields ℕ)
repeated_cell = surface (item (object cell) (item (object cell) no_items))

one_cell_quality :
    (normalize_dealer_gex_surface whole digest "AAPL" one_cell 200).source_quality ≡ available
unfolding normalize_dealer_gex_surface judge get parse_cells read_cell date_of or_truthy decimal_of
    timestamp_of
one_cell_quality = refl

repeated_cell_quality :
    (normalize_dealer_gex_surface whole digest "AAPL" repeated_cell 200).source_quality
    ≡ incomplete_or_truncated
unfolding normalize_dealer_gex_surface judge get parse_cells read_cell date_of or_truthy decimal_of
    timestamp_of
repeated_cell_quality = refl

surface_usable_example :
    let s = normalize_dealer_gex_surface whole digest "AAPL" one_cell 200 in
    (is_some s.observation_identity ≡ usable s)
    × (ltb 0 (length s.cells) ≡ usable s)
    × (any_by has_net s.cells ≡ usable s)
surface_usable_example = surface_usable whole digest "AAPL" one_cell 200

surface_cells_example :
    let s = normalize_dealer_gex_surface whole digest "AAPL" repeated_cell 200 in
    let q = s.quality_details in
    (q.parsed_cell_count + q.invalid_cell_count + q.duplicate_cell_count ≡ q.source_cell_count)
    × DistinctIdentity whole s.cells
surface_cells_example = surface_cells whole digest "AAPL" repeated_cell 200

surface_available_example :
    let s = normalize_dealer_gex_surface whole digest "AAPL" one_cell 200 in
    let q = s.quality_details in
    is_available s.source_quality ≡ (
      ltb 200 400
      && is_false q.truncated_value
      && (q.invalid_cell_count == 0)
      && (q.duplicate_cell_count == 0)
      && is_some s.vendor_observed_at
      && ltb 0 q.parsed_cell_count
      && (q.missing_net_cell_count == 0)
      && not (is_degraded_state whole q.vendor_state))
surface_available_example = surface_available whole digest "AAPL" one_cell 200
