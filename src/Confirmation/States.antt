-- ===== src/Confirmation/States.antt =====
-- backend/app/confirmation/state_v2.py: the volatility, dealer, positioning, price and execution
-- states. A state is a record with the keys of the source's dict.
use Prim.Native.String.{String}
use options_anomaly_scanner.Prelude.{not, ◌&&◌, ◌||◌, Option, none, some, if◌then◌else◌}
use options_anomaly_scanner.Prelude.Eq.{string_eq}
use options_anomaly_scanner.Prelude.Json.{
  Json, Fields, text, get, get_default, is_text, object_or_empty, or_else, object,
}
use options_anomaly_scanner.Prelude.Floats.{Floats, number_of}

pub data Topology : Type 0 where
  incomplete : Topology
  flat_or_equal : Topology
  local_peak : Topology
  local_trough : Topology
  rising_through_candidate : Topology
  falling_through_candidate : Topology

pub data GexSign : Type 0 where
  unknown : GexSign
  positive_net_gex : GexSign
  negative_net_gex : GexSign
  zero_net_gex : GexSign

module _ {N : Type 0} (f : Floats N) where
  -- The ladder of tests on three present values.
  unfoldable pub topology_of : (shorter candidate longer : N) → Topology
  topology_of shorter candidate longer =
      if f.near candidate shorter || f.near candidate longer
      then flat_or_equal
      else if f.lt shorter candidate && f.lt longer candidate
      then local_peak
      else if f.lt candidate shorter && f.lt candidate longer
      then local_trough
      else if f.lt shorter candidate && f.lt candidate longer
      then rising_through_candidate
      else if f.lt candidate shorter && f.lt longer candidate
      then falling_through_candidate
      else flat_or_equal

  numbers_topology : (shorter candidate longer : Option N) → Topology
  unfolding topology_of
  numbers_topology (some s) (some c) (some l) = topology_of s c l
  numbers_topology (some s) (some c) none = incomplete
  numbers_topology (some s) none longer = incomplete
  numbers_topology none candidate longer = incomplete

  unfoldable pub classify_term_topology : (shorter_iv candidate_iv longer_iv : Json N) → Topology
  unfolding numbers_topology
  classify_term_topology shorter_iv candidate_iv longer_iv =
      numbers_topology (number_of f shorter_iv) (number_of f candidate_iv) (number_of f longer_iv)

abbrev pub map_two : {N : Type 0} → (N → N → N) → Option N → Option N → Option N
map_two op (some a) (some b) = some (op a b)
map_two op (some a) none = none
map_two op none b = none

pub record VolatilityState (N : Type 0) : Type 0 where
  pub iv_rank : Option N
  pub iv_rank_vendor_date : Json N
  pub iv_rank_as_of : Json N
  pub term_availability : Json N
  pub exact_match_status : Json N
  pub topology : Topology
  pub candidate_iv : Option N
  pub shorter_iv : Option N
  pub longer_iv : Option N
  pub candidate_iv_minus_shorter : Json N
  pub candidate_iv_minus_longer : Json N
  pub candidate_iv_minus_neighbor_mean : Option N
  pub neighbor_mean_iv : Option N
  pub candidate_expiration : Json N
  pub shorter_expiration : Json N
  pub longer_expiration : Json N
  pub implied_move_usd : Json N
  pub implied_move_pct : Json N
  pub term_vendor_date : Json N
  pub term_as_of : Json N

module _ {N : Type 0} (f : Floats N) where
  unfoldable pub build_volatility_state : (iv_rank term : Fields N) → VolatilityState N
  unfolding numbers_topology
  build_volatility_state iv_rank term =
      let candidate = object_or_empty (get "candidate_node" term) in
      let shorter = object_or_empty (get "nearest_shorter_node" term) in
      let longer = object_or_empty (get "nearest_longer_node" term) in
      let candidate_iv = number_of f (get "candidate_term_iv" term) in
      let shorter_iv = number_of f (get "implied_vol_pct" shorter) in
      let longer_iv = number_of f (get "implied_vol_pct" longer) in
      let neighbor_mean = map_two f.mean shorter_iv longer_iv in
      record {
        iv_rank = number_of f (get "value" iv_rank);
        iv_rank_vendor_date = get "vendor_date" iv_rank;
        iv_rank_as_of = get "as_of" iv_rank;
        term_availability = get_default "availability" (text "UNAVAILABLE") term;
        exact_match_status = get_default "exact_match_status" (text "NOT_PRESENT") term;
        topology = numbers_topology f shorter_iv candidate_iv longer_iv;
        candidate_iv = candidate_iv;
        shorter_iv = shorter_iv;
        longer_iv = longer_iv;
        candidate_iv_minus_shorter = get "candidate_iv_minus_shorter" term;
        candidate_iv_minus_longer = get "candidate_iv_minus_longer" term;
        candidate_iv_minus_neighbor_mean = map_two f.minus candidate_iv neighbor_mean;
        neighbor_mean_iv = neighbor_mean;
        candidate_expiration = get "expiry" candidate;
        shorter_expiration = get "expiry" shorter;
        longer_expiration = get "expiry" longer;
        implied_move_usd = get "implied_move_usd" candidate;
        implied_move_pct = get "implied_move_pct" candidate;
        term_vendor_date = get "vendor_date" term;
        term_as_of = get "as_of" term;
      }

  sign_of : Option N → GexSign
  sign_of none = unknown
  sign_of (some value) =
      if f.lt f.zero_value value
      then positive_net_gex
      else if f.lt value f.zero_value
      then negative_net_gex
      else zero_net_gex

  -- The flat value, or the cell's where the flat one is no number.
  first_number : Option N → Json N → Option N
  first_number (some value) cell = some value
  first_number none (object cell) = number_of f (get "net_dealer_gex_usd" cell)
  first_number none _ = none

  unfoldable pub classify_gex_sign : Fields N → GexSign
  unfolding sign_of first_number
  classify_gex_sign dealer =
      if not (is_text "EXACT_MATCH" (get "candidate_heatmap_cell_status" dealer))
      then unknown
      else sign_of (
          first_number (number_of f (get "candidate_net_gex_usd" dealer))
            (get "candidate_cell" dealer))

pub record DealerState (N : Type 0) : Type 0 where
  pub sign : GexSign
  pub source_quality : Json N
  pub candidate_cell_status : Json N
  pub row_stack_status : Json N
  pub candidate_net_gex_usd : Json N
  pub candidate_call_gex_usd : Json N
  pub candidate_put_gex_usd : Json N
  pub row_net_gex_usd : Json N
  pub row_abs_gex_usd : Json N
  pub vendor_row_rank : Json N
  pub generated_at : Json N
  pub session_date_et : Json N
  pub truncated : Json N
  pub availability_reason : Json N

module _ {N : Type 0} (f : Floats N) where
  unfoldable pub build_dealer_state : Fields N → DealerState N
  unfolding classify_gex_sign
  build_dealer_state dealer =
      let cell = object_or_empty (get "candidate_cell" dealer) in
      let candidate_value : String → String → Json N =
        λ flat_key cell_key. or_else (get flat_key dealer) (get cell_key cell) in
      record {
        sign = classify_gex_sign f dealer;
        source_quality =
            get_default "quality" (get_default "availability" (text "UNAVAILABLE") dealer) dealer;
        candidate_cell_status =
            get_default "candidate_heatmap_cell_status" (text "UNAVAILABLE") dealer;
        row_stack_status = get_default "row_stack_status" (text "ROW_UNAVAILABLE") dealer;
        candidate_net_gex_usd = candidate_value "candidate_net_gex_usd" "net_dealer_gex_usd";
        candidate_call_gex_usd = candidate_value "candidate_call_gex_usd" "call_gex_usd";
        candidate_put_gex_usd = candidate_value "candidate_put_gex_usd" "put_gex_usd";
        row_net_gex_usd = get "row_net_gex_usd" dealer;
        row_abs_gex_usd = get "row_abs_gex_usd" dealer;
        vendor_row_rank = get "vendor_row_rank" dealer;
        generated_at = get "generated_at" dealer;
        session_date_et = get "session_date_et" dealer;
        truncated = get "truncated" dealer;
        availability_reason = get "availability_reason" dealer;
      }

pub record PriceState (N : Type 0) : Type 0 where
  pub availability : Json N
  pub trend : Json N
  pub latest_trading_date : Json N
  pub latest_regular_close_usd : Json N
  pub return_1d : Json N
  pub return_5d : Json N
  pub return_20d : Json N
  pub sma_20 : Json N
  pub sma_50 : Json N
  pub distance_to_sma20_pct : Json N
  pub distance_to_sma50_pct : Json N
  pub atr_14 : Json N
  pub coverage_quality : Json N
  pub price_adjustment_semantics : Json N

unfoldable pub build_price_state : {N : Type 0} → Fields N → PriceState N
build_price_state price = record {
  availability = get_default "availability" (text "UNAVAILABLE") price;
  trend = get_default "trend" (text "UNKNOWN") price;
  latest_trading_date = get "latest_trading_date" price;
  latest_regular_close_usd = get "latest_regular_close_usd" price;
  return_1d = get "return_1d" price;
  return_5d = get "return_5d" price;
  return_20d = get "return_20d" price;
  sma_20 = get "sma_20" price;
  sma_50 = get "sma_50" price;
  distance_to_sma20_pct = get "distance_to_sma20_pct" price;
  distance_to_sma50_pct = get "distance_to_sma50_pct" price;
  atr_14 = get "atr_14" price;
  coverage_quality = get "coverage_quality" price;
  price_adjustment_semantics = get "price_adjustment_semantics" price;
}
