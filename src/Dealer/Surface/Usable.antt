-- ===== src/Dealer/Surface/Usable.antt =====
-- The quality ladder of normalize_dealer_gex_surface against what a surface keeps.
use Prim.Native.String.{String}
use options_anomaly_scanner.Prelude.{
  ℕ, ◌+◌, ◌≡◌, refl, Bool, true, false, not, ◌&&◌, Option, none, some, [], arith, ltb, ◌==◌, any_by,
  length, is_some, count_by,
}
use options_anomaly_scanner.Prelude.Json.{
  Json, null, boolean, number, text, array, object, Fields, no_fields, field, get, get_default,
  find_field,
}
use options_anomaly_scanner.Dealer.Parsing.{Python, ParsedCells, parse_cells}
use options_anomaly_scanner.Dealer.Parsing.Cells.{
  has_net, any_by-count_by, DistinctIdentity, parse_cells-count, parse_cells-net,
  parse_cells-DistinctIdentity,
}
use options_anomaly_scanner.Dealer.Surface.{
  SourceQuality, available, available_degraded, incomplete_or_truncated, unavailable, is_usable,
  usable, judge, normalize_dealer_gex_surface, identity_of, items_of, is_degraded_state, boolean_of,
  is_boolean, is_list, is_empty_dict,
}

abbrev pub is_available : SourceQuality → Bool
is_available available = true
is_available available_degraded = false
is_available incomplete_or_truncated = false
is_available unavailable = false

-- `is False`
abbrev pub is_false : Option Bool → Bool
is_false none = false
is_false (some b) = not b

module _ {D : Type 0} where
  judge-has_net :
      (status : ℕ) (empty listed truncated whole degraded : Bool) (time : Option ℕ)
      (p : ParsedCells D)
      → p.missing_net_rows + count_by has_net p.parsed_cells ≡ length p.parsed_cells
      → let v = judge status empty listed truncated whole degraded time p in
        any_by has_net v.cells ≡ is_usable v.quality
  unfolding judge any_by
  judge-has_net status empty listed truncated whole degraded time p h =
      ground (arith, h, any_by-count_by has_net p.parsed_cells)

  -- Cells are kept on the usable branches only, and there are some.
  judge-kept :
      (status : ℕ) (empty listed truncated whole degraded : Bool) (time : Option ℕ)
      (p : ParsedCells D)
      → let v = judge status empty listed truncated whole degraded time p in
        ltb 0 (length v.cells) ≡ is_usable v.quality
  unfolding judge
  judge-kept status empty listed truncated whole degraded time p = ground arith

  judge-identity :
      (status : ℕ) (empty listed truncated whole degraded : Bool) (time : Option ℕ)
      (p : ParsedCells D)
      → let v = judge status empty listed truncated whole degraded time p in
        (is_usable v.quality && not (is_some time)) ≡ false
  unfolding judge
  judge-identity status empty listed truncated whole degraded time p = ground arith

  judge-DistinctIdentity :
      (py : Python D) (status : ℕ) (empty listed truncated whole degraded : Bool) (time : Option ℕ)
      (p : ParsedCells D)
      → DistinctIdentity py p.parsed_cells
      → DistinctIdentity py (judge status empty listed truncated whole degraded time p).cells
  unfolding judge
  judge-DistinctIdentity py status empty listed truncated whole degraded time p h =
      ground (arith, h)

  -- The quality is AVAILABLE in one case only.
  judge-available :
      (status : ℕ) (empty listed truncated whole degraded : Bool) (time : Option ℕ)
      (p : ParsedCells D)
      → is_available (judge status empty listed truncated whole degraded time p).quality ≡ (
          ltb status 400
          && not empty
          && listed
          && not truncated
          && (p.invalid_rows == 0)
          && (p.duplicate_rows == 0)
          && is_some time
          && ltb 0 (length p.parsed_cells)
          && (p.missing_net_rows == 0)
          && not degraded
          && whole)
  unfolding judge
  judge-available status empty listed truncated whole degraded time p = ground arith

module _ {D : Type 0} (py : Python D) (identity_digest : String → ℕ → String) where
  is_some-identity_of :
      (q : SourceQuality) (ticker : String) (time : Option ℕ)
      → (is_usable q && not (is_some time)) ≡ false
      → is_some (identity_of py identity_digest q ticker time) ≡ is_usable q
  unfolding identity_of
  is_some-identity_of q ticker none h = ground (arith, h)
  is_some-identity_of q ticker (some t) h = ground arith

  -- A normalized surface, of any payload and status, is usable exactly where it has an observation
  -- identity, exactly where it keeps some cell, and exactly where it keeps some cell with a net
  -- exposure: an unavailable or incomplete surface keeps no cell at all.
  pub surface_usable :
      (ticker : String) (payload : Option (Fields D)) (status : ℕ)
      → let s = normalize_dealer_gex_surface py identity_digest ticker payload status in
        (is_some s.observation_identity ≡ usable s)
        × (ltb 0 (length s.cells) ≡ usable s)
        × (any_by has_net s.cells ≡ usable s)
  unfolding normalize_dealer_gex_surface any_by
  surface_usable ticker payload status = (
    is_some-identity_of _ ticker _ (judge-identity status _ _ _ _ _ _ _),
    judge-kept status _ _ _ _ _ _ _,
    judge-has_net status _ _ _ _ _ _ _ (parse_cells-net py [] _),
  )

  -- Every source cell of a payload is parsed, invalid or a duplicate, and no two cells that the
  -- surface keeps have one expiration and strike.
  pub surface_cells :
      (ticker : String) (payload : Option (Fields D)) (status : ℕ)
      → let s = normalize_dealer_gex_surface py identity_digest ticker payload status in
        let q = s.quality_details in
        (q.parsed_cell_count + q.invalid_cell_count + q.duplicate_cell_count ≡ q.source_cell_count)
        × DistinctIdentity py s.cells
  unfolding normalize_dealer_gex_surface
  surface_cells ticker payload status = (
    parse_cells-count py [] _,
    judge-DistinctIdentity py status _ _ _ _ _ _ _ (parse_cells-DistinctIdentity py [] _),
  )

  -- What the ladder tests beside the parsed cells follows from them, for each form of the flag and
  -- of the cells.
  truncation_flags :
      (v : Json D) → (not (is_boolean true v) && is_boolean false v) ≡ is_false (boolean_of v)
  unfolding boolean_of
  truncation_flags null = refl
  truncation_flags (boolean true) = refl
  truncation_flags (boolean false) = refl
  truncation_flags (number n) = refl
  truncation_flags (text t) = refl
  truncation_flags (array items) = refl
  truncation_flags (object d) = refl

  parsed-is_list :
      (j : Json D)
      → (is_list j && ltb 0 (length (parse_cells py [] (items_of j)).parsed_cells))
        ≡ ltb 0 (length (parse_cells py [] (items_of j)).parsed_cells)
  unfolding parse_cells
  parsed-is_list null = refl
  parsed-is_list (boolean b) = refl
  parsed-is_list (number n) = refl
  parsed-is_list (text t) = refl
  parsed-is_list (array items) = refl
  parsed-is_list (object d) = refl

  parsed-nonempty :
      (d : Fields D)
      → (not (is_empty_dict d)
          && ltb 0 (length (parse_cells py [] (items_of (get "cells" d))).parsed_cells))
        ≡ ltb 0 (length (parse_cells py [] (items_of (get "cells" d))).parsed_cells)
  unfolding parse_cells get get_default find_field
  parsed-nonempty no_fields = refl
  parsed-nonempty (field k v rest) = refl

  ladder-available :
      (d : Fields D) (v : Json D) (status : ℕ) (degraded : Bool) (time : Option ℕ)
      → let j = get "cells" d in
        let p = parse_cells py [] (items_of j) in
        is_available
          (judge status
            (is_empty_dict d)
            (is_list j)
            (is_boolean true v)
            (is_boolean false v)
            degraded
            time
            p).quality
        ≡ (ltb status 400
            && is_false (boolean_of v)
            && (p.invalid_rows == 0)
            && (p.duplicate_rows == 0)
            && is_some time
            && ltb 0 (length p.parsed_cells)
            && (p.missing_net_rows == 0)
            && not degraded)
  ladder-available d v status degraded time =
      let j = get "cells" d in
      let p = parse_cells py [] (items_of j) in
      regroup (ltb status 400) (not (is_empty_dict d)) (is_list j) (not (is_boolean true v))
        (is_boolean false v) (is_false (boolean_of v)) (p.invalid_rows == 0) (p.duplicate_rows == 0)
        (is_some time) (ltb 0 (length p.parsed_cells)) (p.missing_net_rows == 0) (not degraded)
        (truncation_flags v) (parsed-is_list j) (parsed-nonempty d)
        (judge-available status (is_empty_dict d) (is_list j) (is_boolean true v)
          (is_boolean false v) degraded time p)
    where
      regroup :
          (status nonempty listed whole declared flag invalid dup time parsed net fine : Bool)
          → (whole && declared) ≡ flag
          → (listed && parsed) ≡ parsed
          → (nonempty && parsed) ≡ parsed
          → {b : Bool}
          → b ≡ (
              status && nonempty && listed && whole && invalid && dup && time && parsed && net
              && fine && declared)
          → b ≡ (status && flag && invalid && dup && time && parsed && net && fine)
      regroup status nonempty listed whole declared flag invalid dup time parsed net fine f l n e =
          ground (arith, f, l, n, e)

  -- A surface is AVAILABLE exactly where the status is below 400, truncation is declared and false,
  -- no source cell is invalid, a duplicate or without a net exposure, some cell is parsed, the
  -- vendor's time is known, and the vendor does not report a degraded state.
  pub surface_available :
      (ticker : String) (payload : Option (Fields D)) (status : ℕ)
      → let s = normalize_dealer_gex_surface py identity_digest ticker payload status in
        let q = s.quality_details in
        is_available s.source_quality ≡ (
          ltb status 400
          && is_false q.truncated_value
          && (q.invalid_cell_count == 0)
          && (q.duplicate_cell_count == 0)
          && is_some s.vendor_observed_at
          && ltb 0 q.parsed_cell_count
          && (q.missing_net_cell_count == 0)
          && not (is_degraded_state py q.vendor_state))
  unfolding normalize_dealer_gex_surface
  surface_available ticker payload status = ladder-available _ _ status _ _
