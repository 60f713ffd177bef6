-- ===== src/Dealer/Parsing.antt =====
-- backend/app/dealer_archive/domain.py: the cells of a vendor's heatmap, parsed one by one.
pub mod Cells
use Prim.Native.String.{String}
use options_anomaly_scanner.Prelude.{
  ℕ, suc, ◌+◌, ◌≡◌, Bool, true, false, not, ◌&&◌, Option, none, some, List, [], ◌∷◌, if◌then◌else◌,
  any_by, ◌==◌,
}
use options_anomaly_scanner.Prelude.Eq.{Eq, string_eq}
use options_anomaly_scanner.Prelude.Sort.{sort_by}
use options_anomaly_scanner.Prelude.Json.{
  Json, null, boolean, number, text, array, object, Items, no_items, item, Fields, no_fields, field,
  get, get_default,
}
use options_anomaly_scanner.Time.{DateTime, aware, naive}

-- What the code calls of Python's library: decimals up to their equality as numbers, and text.
pub record Python (D : Type 0) : Type 0 where
  pub decimal_eq : Eq D
  pub is_zero : D → Bool
  -- Decimal(str(value)).is_finite() of a decoded number
  pub is_finite : D → Bool
  -- Decimal(text), none where it is refused or not finite
  pub decimal : String → Option D
  -- value[:10]
  pub prefix_10 : String → String
  -- not value.strip()
  pub is_blank : String → Bool
  -- value.replace("Z", "+00:00")
  pub replace_z : String → String
  pub lower : String → String
  pub text_lt : String → String → Bool
  -- fromisoformat, none for a ValueError
  pub date_fromisoformat : String → Option ℕ
  pub datetime_fromisoformat : String → Option DateTime

pub record DealerGexCellValue (D : Type 0) : Type 0 where
  pub expiration : ℕ
  pub strike : D
  pub net_dealer_gex_usd : Option D
  pub call_gex_usd : Option D
  pub put_gex_usd : Option D

abbrev pub keys : {D : Type 0} → Fields D → List String
keys no_fields = []
keys (field k v rest) = k ∷ keys rest

module _ {D : Type 0} (py : Python D) where
  -- _decimal; a list or a dict is no decimal.
  unfoldable pub decimal_of : Json D → Option D
  decimal_of (number d) = if py.is_finite d then some d else none
  decimal_of (text t) = py.decimal t
  decimal_of _ = none

  -- _date
  unfoldable pub date_of : Json D → Option ℕ
  date_of (text t) = py.date_fromisoformat (py.prefix_10 t)
  date_of _ = none

  utc_of : Option DateTime → Option ℕ
  utc_of none = none
  utc_of (some (naive wall)) = none
  utc_of (some (aware t)) = some t

  -- _timestamp
  unfoldable pub timestamp_of : Json D → Option ℕ
  unfolding utc_of
  timestamp_of (text t) =
      if py.is_blank t then none else utc_of (py.datetime_fromisoformat (py.replace_z t))
  timestamp_of _ = none

  unfoldable pub truthy : Json D → Bool
  truthy null = false
  truthy (boolean b) = b
  truthy (number d) = not (py.is_zero d)
  truthy (text t) = not (string_eq.beq t "")
  truthy (array no_items) = false
  truthy (array (item x rest)) = true
  truthy (object no_fields) = false
  truthy (object (field k v rest)) = true

  -- `a or b`
  unfoldable pub or_truthy : Json D → Json D → Json D
  unfolding truthy
  or_truthy a b = if truthy a then a else b

  unfoldable pub sorted_keys : Fields D → List String
  unfolding sort_by
  sorted_keys d = sort_by py.text_lt (keys d)

-- What the loop has found from some cell on.
pub record ParsedCells (D : Type 0) : Type 0 where
  pub parsed_cells : List (DealerGexCellValue D)
  pub invalid_rows : ℕ
  pub duplicate_rows : ℕ
  pub missing_net_rows : ℕ
  pub missing_call_rows : ℕ
  pub missing_put_rows : ℕ
  pub representative_keys : List String

-- `if value is None: count += 1`
abbrev pub if_none : {D : Type 0} → Option D → ℕ → ℕ
if_none none n = suc n
if_none (some d) n = n

abbrev pub first_nonempty : List String → List String → List String
first_nonempty [] later = later
first_nonempty (k ∷ ks) later = k ∷ ks

-- What one source cell is.
pub data CellReading (D : Type 0) : Type 0 where
  invalid_cell : CellReading D
  valid_cell : DealerGexCellValue D → CellReading D

module _ {D : Type 0} (py : Python D) where
  reading_of : Option ℕ → Option D → Fields D → CellReading D
  reading_of none strike d = invalid_cell
  reading_of (some expiration) none d = invalid_cell
  reading_of (some expiration) (some strike) d = valid_cell (record {
    expiration = expiration;
    strike = strike;
    net_dealer_gex_usd = decimal_of py (get "net_dealer_gex_usd" d);
    call_gex_usd = decimal_of py (get "call_gex_usd" d);
    put_gex_usd = decimal_of py (get "put_gex_usd" d);
  })

  unfoldable pub read_cell : Json D → CellReading D
  unfolding reading_of
  read_cell (object d) =
      reading_of (date_of py (or_truthy py (get "expiration" d) (get "expiry" d)))
        (decimal_of py (get_default "strike_usd" (get "strike" d) d)) d
  read_cell _ = invalid_cell

  unfoldable pub cell_keys : Json D → List String
  cell_keys (object d) = sorted_keys py d
  cell_keys _ = []

  abbrev pub same_identity : DealerGexCellValue D → DealerGexCellValue D → Bool
  same_identity a b = (a.expiration == b.expiration) && py.decimal_eq.beq a.strike b.strike

  -- The effect of one cell before those after it; `fresh` says that its identity is new.
  unfoldable pub add_cell :
      CellReading D → (fresh : Bool) → List String → ParsedCells D → ParsedCells D
  add_cell invalid_cell fresh cell_keys rest = record rest {
    invalid_rows = suc rest.invalid_rows;
    representative_keys = first_nonempty cell_keys rest.representative_keys;
  }
  add_cell (valid_cell cell) false cell_keys rest = record rest {
    duplicate_rows = suc rest.duplicate_rows;
    representative_keys = first_nonempty cell_keys rest.representative_keys;
  }
  add_cell (valid_cell cell) true cell_keys rest = record rest {
    parsed_cells = cell ∷ rest.parsed_cells;
    missing_net_rows = if_none cell.net_dealer_gex_usd rest.missing_net_rows;
    missing_call_rows = if_none cell.call_gex_usd rest.missing_call_rows;
    missing_put_rows = if_none cell.put_gex_usd rest.missing_put_rows;
    representative_keys = first_nonempty cell_keys rest.representative_keys;
  }

  abbrev pub is_fresh : List (DealerGexCellValue D) → CellReading D → Bool
  is_fresh seen invalid_cell = true
  is_fresh seen (valid_cell cell) = not (any_by (same_identity cell) seen)

  abbrev pub remember : List (DealerGexCellValue D) → CellReading D → List (DealerGexCellValue D)
  remember seen invalid_cell = seen
  remember seen (valid_cell cell) = cell ∷ seen

  -- The loop over the source cells; `seen` holds the cells whose identities are in the set.
  unfoldable pub parse_cells : List (DealerGexCellValue D) → Items D → ParsedCells D
  unfolding add_cell
  parse_cells seen no_items = record {
    parsed_cells = [];
    invalid_rows = 0;
    duplicate_rows = 0;
    missing_net_rows = 0;
    missing_call_rows = 0;
    missing_put_rows = 0;
    representative_keys = [];
  }
  parse_cells seen (item source_cell rest) =
      let reading = read_cell source_cell in
      add_cell reading (is_fresh seen reading) (cell_keys source_cell)
        (parse_cells (remember seen reading) rest)
