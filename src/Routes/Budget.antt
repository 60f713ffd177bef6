-- ===== src/Routes/Budget.antt =====
-- backend/app/scanner/v13.py, _select_dual: Radar events and persistence mark the expiries, and the
-- eligible ones are selected by priority under the budget of the deep scan.
pub mod Limits
pub mod Complete
use Prim.Native.String.{String}
use options_anomaly_scanner.Prelude.{
  ℕ, suc, ◌+◌, Bool, true, false, not, ◌&&◌, ◌||◌, Option, none, some, List, [], ◌∷◌, ◌++◌, ltb,
  leb, ◌==◌, if◌then◌else◌, any_by, filter_by, length,
}
use options_anomaly_scanner.Prelude.Eq.{string_eq, ticker_date_eq}
use options_anomaly_scanner.Prelude.Int.{ℤ, pos, leb_ℤ}
use options_anomaly_scanner.Prelude.Dict.{Dict, lookup, put, get_or}
use options_anomaly_scanner.Prelude.Sort.{sort_by}
use options_anomaly_scanner.Routes.{
  Source, radar_event, expiry_activity, contract_persistence, RadarScope, full_deep_dive_eligible,
  unjoined, outside_archive_scope, incomplete_chain, long_dte_radar_watch, has_source,
  ordered_trigger_sources,
}

abbrev pub max_deep_tickers : ℕ
max_deep_tickers = 4

abbrev pub max_expiries_per_ticker : ℕ
max_expiries_per_ticker = 3

-- ExpiryObservation, by the columns that the selection reads and writes; `selected_for_deep_scan`,
-- which flags the result afterwards, is left out.
pub record Expiry (N : Type 0) : Type 0 where
  pub id : ℕ
  pub ticker : String
  pub expiration : ℕ
  pub dte_at_detection : ℤ
  pub same_day_activity_score : Option N
  pub radar_route_eligible : Bool
  pub persistent_route_eligible : Bool
  pub deep_dive_eligible : Bool
  pub trigger_sources : List Source

-- A material event of the latest observation date of its ticker.
pub record RadarEvent (N : Type 0) : Type 0 where
  pub ticker : String
  pub matched_expiration : Option ℕ
  pub scope : RadarScope
  pub premium : Option N

-- A current observation of contract persistence.
pub record ContractPersistence (N : Type 0) : Type 0 where
  pub ticker : String
  pub expiration : ℕ
  pub persistent_positioning_score : Option N

-- The numbers that the priority compares, and Python's order of str.
pub record Ranking (N : Type 0) : Type 0 where
  pub lt : N → N → Bool
  pub zero_value : N
  pub text_lt : String → String → Bool

abbrev pub key : {N : Type 0} → Expiry N → String × ℕ
key row = (row.ticker, row.expiration)

abbrev is_full : RadarScope → Bool
is_full full_deep_dive_eligible = true
is_full unjoined = false
is_full outside_archive_scope = false
is_full incomplete_chain = false
is_full long_dte_radar_watch = false

module _ {N : Type 0} where
  -- `by_key` holds the last row of each key: that row is changed, if there is one.
  unfoldable pub update_last :
      String × ℕ → (Expiry N → Expiry N) → List (Expiry N) → Option (List (Expiry N))
  update_last k f [] = none
  update_last k f (row ∷ rest) =
      let later = update_last k f rest in
      elim later [
        | some rows ↦ some (row ∷ rows)
        | none ↦ if ticker_date_eq.beq (key row) k then some (f row ∷ rest) else none
      ]

  unfoldable pub mark_radar : Expiry N → Expiry N
  mark_radar row = record row {
    radar_route_eligible = true;
    deep_dive_eligible = true;
    trigger_sources = ordered_trigger_sources (row.trigger_sources ++ radar_event ∷ []);
  }

  unfoldable pub mark_persistence : Expiry N → Expiry N
  mark_persistence row = record row {
    persistent_route_eligible = true;
    deep_dive_eligible = true;
    trigger_sources = ordered_trigger_sources (row.trigger_sources ++ contract_persistence ∷ []);
  }

module _ {N : Type 0} (rank : Ranking N) where
  larger : N → N → N
  larger a b = if rank.lt a b then b else a

  apply_event :
      RadarEvent N
      → String × ℕ
      → List (Expiry N) × Dict (String × ℕ) N
      → List (Expiry N) × Dict (String × ℕ) N
  unfolding update_last mark_radar lookup put larger
  apply_event event k (rows, premiums) =
      elim (update_last k (if is_full event.scope then mark_radar else λ row. row) rows) [
        | none ↦ (rows, premiums)
        | some rows' ↦
            let old = get_or (lookup k premiums) rank.zero_value in
            (rows', put k (larger old (get_or event.premium rank.zero_value)) premiums)
      ]

  -- The loop over the Radar events, with `radar_premium`.
  unfoldable pub apply_events :
      List (RadarEvent N)
      → List (Expiry N) × Dict (String × ℕ) N
      → List (Expiry N) × Dict (String × ℕ) N
  unfolding apply_event
  apply_events [] p = p
  apply_events (event ∷ rest) p = apply_events rest (elim event.matched_expiration [
    | none ↦ p
    | some expiration ↦ apply_event event (event.ticker, expiration) p
  ])

  -- The loop over the current persistence, with `contract_persistence`.
  unfoldable pub apply_persistence :
      List (ContractPersistence N)
      → List (Expiry N) × Dict (String × ℕ) N
      → List (Expiry N) × Dict (String × ℕ) N
  unfolding update_last mark_persistence put
  apply_persistence [] p = p
  apply_persistence (contract ∷ rest) (rows, scores) =
      let k : String × ℕ = (contract.ticker, contract.expiration) in
      apply_persistence rest (elim (update_last k mark_persistence rows) [
        | none ↦ (rows, scores)
        | some rows' ↦
            (rows', put k (get_or contract.persistent_positioning_score rank.zero_value) scores)
      ])

  unfoldable pub route_rank : Expiry N → ℕ
  unfolding any_by
  route_rank row =
      if has_source radar_event row.trigger_sources
      then 0
      else if has_source expiry_activity row.trigger_sources
      then 1
      else if has_source contract_persistence row.trigger_sources
      then 2
      else 3

  unfoldable pub route_value : (premiums scores : Dict (String × ℕ) N) → Expiry N → N
  unfolding route_rank lookup
  route_value premiums scores row =
      if route_rank row == 0
      then get_or (lookup (key row) premiums) rank.zero_value
      else if route_rank row == 1
      then get_or row.same_day_activity_score rank.zero_value
      else get_or (lookup (key row) scores) rank.zero_value

  -- The order of the tuples: the rank, the larger value first, the ticker, the expiration.
  unfoldable pub before : (premiums scores : Dict (String × ℕ) N) → Expiry N → Expiry N → Bool
  unfolding route_value
  before premiums scores a b =
      let va = route_value premiums scores a in
      let vb = route_value premiums scores b in
      if ltb (route_rank a) (route_rank b)
      then true
      else if ltb (route_rank b) (route_rank a)
      then false
      else if rank.lt vb va
      then true
      else if rank.lt va vb
      then false
      else if rank.text_lt a.ticker b.ticker
      then true
      else if rank.text_lt b.ticker a.ticker
      then false
      else ltb a.expiration b.expiration

abbrev pub is_candidate : {N : Type 0} → Expiry N → Bool
is_candidate row = row.deep_dive_eligible && leb_ℤ row.dte_at_detection (pos 90)

-- The variables of the budget loop: `selected`, `selected_tickers` and `ticker_counts`.
pub record Budget (N : Type 0) : Type 0 where
  pub selected : List (Expiry N)
  pub tickers : List String
  pub counts : Dict String ℕ

abbrev pub is_known : String → List String → Bool
is_known t = any_by (string_eq.beq t)

module _ {N : Type 0} where
  unfoldable pub take_row : Budget N → Expiry N → Budget N
  unfolding lookup put
  take_row b row = record {
    selected = b.selected ++ row ∷ [];
    tickers = if is_known row.ticker b.tickers then b.tickers else row.ticker ∷ b.tickers;
    counts = put row.ticker (suc (get_or (lookup row.ticker b.counts) 0)) b.counts;
  }

  unfoldable pub budget_step : Budget N → Expiry N → Budget N
  unfolding take_row lookup any_by
  budget_step b row =
      if not (is_known row.ticker b.tickers) && leb max_deep_tickers (length b.tickers)
      then b
      else if leb max_expiries_per_ticker (get_or (lookup row.ticker b.counts) 0)
      then b
      else take_row b row

  unfoldable pub budget_from : Budget N → List (Expiry N) → Budget N
  unfolding budget_step
  budget_from b [] = b
  budget_from b (row ∷ rest) = budget_from (budget_step b row) rest

  unfoldable pub select_within_budget : List (Expiry N) → Budget N
  unfolding budget_from
  select_within_budget = budget_from (record { selected = []; tickers = []; counts = [] })

module _ {N : Type 0} (rank : Ranking N) where
  -- The expiries after the marks, the candidates in order, and what the budget takes of them.
  unfoldable pub select_dual :
      List (RadarEvent N) → List (ContractPersistence N) → List (Expiry N) → Budget N
  unfolding apply_events apply_persistence select_within_budget sort_by filter_by before
  select_dual events persistence expiries =
      let (with_radar, premiums) = apply_events rank events (expiries, []) in
      let (marked, scores) = apply_persistence rank persistence (with_radar, []) in
      select_within_budget (sort_by (before rank premiums scores) (filter_by is_candidate marked))
