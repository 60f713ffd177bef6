-- ===== src/Dealer/Capture/Results.antt =====
-- The rows that the loop of backend/app/dealer_archive/service.py over the tickers returns.
use Prim.Native.String.{String}
use options_anomaly_scanner.Prelude.{
  ℕ, ◌≡◌, refl, ap, ◌∙◌, inl, inr, Bool, true, false, Option, none, some, List, [], ◌∷◌, Bool-cases,
  map, arith, is_some, All,
}
use options_anomaly_scanner.Nightwatch.Client.{
  Response, Outcome, key_missing, transport_error, escaped_error, vendor_error, result,
}
use options_anomaly_scanner.Dealer.Parsing.{Python}
use options_anomaly_scanner.Dealer.Surface.{
  NormalizedDealerGexSurface, usable, normalize_dealer_gex_surface,
}
use options_anomaly_scanner.Dealer.Capture.{
  ArchiveConfig, CaptureState, Captured, captured_result, captured_fault, Surroundings,
  TickerResult, is_attempted, was_attempted, capture_ticker, capture_unless, capture_outcome,
  capture_response, capture_all, is_spent, surface_status,
}
use options_anomaly_scanner.Dealer.Capture.Budget.{Captured-cases}

-- A row that was attempted has a quality, and the others have none.
abbrev pub HasQuality : TickerResult → Type 0
HasQuality row = is_attempted row ≡ is_some row.source_quality

surface_status-attempted :
    {N Q : Type 0} (known : Bool) (surface : NormalizedDealerGexSurface N Q)
    → was_attempted (surface_status known surface) ≡ true
unfolding surface_status
surface_status-attempted true surface = refl
surface_status-attempted false surface = elim (Bool-cases (usable surface)) [
  | inl e ↦ rw e refl
  | inr e ↦ rw e refl
]

module _ {N : Type 0} (py : Python N) (identity_digest : String → ℕ → String)
    (config : ArchiveConfig) (env : Surroundings N) (run_id : ℕ) where
  IsRowOf : String → Captured N → Type 0
  IsRowOf ticker (captured_result r s) =
      (r.ticker ≡ ticker) × (is_attempted r ≡ true) × HasQuality r
  IsRowOf ticker (captured_fault e s) = Unit

  capture_response-IsRowOf :
      (ticker : String) (r : Response N) (s : CaptureState N)
      → IsRowOf ticker (capture_response py identity_digest config env run_id ticker r s)
  unfolding capture_response IsRowOf surface_status
  capture_response-IsRowOf ticker r s =
      let attempted =
        surface_status-attempted _
          (normalize_dealer_gex_surface py identity_digest ticker _ r.status_code) in
      (refl, attempted, attempted)

  capture_outcome-IsRowOf :
      (ticker : String) (outcome : Outcome N) (s : CaptureState N)
      → IsRowOf ticker (capture_outcome py identity_digest config env run_id ticker outcome s)
  unfolding capture_outcome IsRowOf
  capture_outcome-IsRowOf ticker key_missing s = (refl, refl, refl)
  capture_outcome-IsRowOf ticker transport_error s = (refl, refl, refl)
  capture_outcome-IsRowOf ticker (escaped_error exception) s = tt
  capture_outcome-IsRowOf ticker (vendor_error r code again) s = (refl, refl, refl)
  capture_outcome-IsRowOf ticker (result r) s = capture_response-IsRowOf ticker r s

  capture_unless-IsRowOf :
      (fault : Option String) (ticker : String) (outcome : Outcome N) (s : CaptureState N)
      → IsRowOf ticker (capture_unless py identity_digest config env run_id fault ticker outcome s)
  unfolding capture_unless IsRowOf
  capture_unless-IsRowOf (some exception) ticker outcome s = tt
  capture_unless-IsRowOf none ticker outcome s = capture_outcome-IsRowOf ticker outcome s

  capture_ticker-IsRowOf :
      (ticker : String) (s : CaptureState N)
      → IsRowOf ticker (capture_ticker py identity_digest config env run_id ticker s)
  unfolding capture_ticker
  capture_ticker-IsRowOf ticker s = capture_unless-IsRowOf (env.fault ticker) ticker _ _

  -- The row of a ticker that was captured is one that was attempted.
  pub capture_ticker-attempted :
      (ticker : String) (s s' : CaptureState N) (r : TickerResult)
      → capture_ticker py identity_digest config env run_id ticker s ≡ captured_result r s'
      → is_attempted r ≡ true
  unfolding IsRowOf
  capture_ticker-attempted ticker s s' r captured =
      let row : IsRowOf ticker (captured_result r s') =
        rw captured at (capture_ticker-IsRowOf ticker s) in
      row.1

  -- Where no exception ended the loop, it returns one row for each ticker, in the order of the
  -- tickers.
  pub capture_all-rows :
      (tickers : List String) (s : CaptureState N)
      → (capture_all py identity_digest config env run_id tickers s).exception ≡ none
      → map (λ r. r.ticker) (capture_all py identity_digest config env run_id tickers s).rows
        ≡ tickers
  unfolding capture_all IsRowOf
  capture_all-rows [] s quiet = refl
  capture_all-rows (ticker ∷ rest) s quiet =
      elim (Bool-cases (is_spent py identity_digest config env run_id s)) [
        | inl spent ↦
            let quiet' = rw spent at quiet in
            rw spent (ap (λ later. ticker ∷ later) (capture_all-rows rest s quiet'))
        | inr unspent ↦
            let quiet' = rw unspent at quiet in
            let named = capture_ticker-IsRowOf ticker s in
            rw unspent
              (elim (Captured-cases
                (capture_ticker py identity_digest config env run_id ticker s)) [
                  | inl (exception, s', raised) ↦ (let q = rw raised at quiet' in ground (arith, q))
                  | inr (r, s', captured) ↦
                      let later = capture_all py identity_digest config env run_id rest s' in
                      let row : IsRowOf ticker (captured_result r s') = rw captured at named in
                      let quiet2 = rw captured at quiet' in
                      rw captured (
                        ap (λ t. t ∷ map (λ r. r.ticker) later.rows) row.0
                        ∙ ap (λ ts. ticker ∷ ts) (capture_all-rows rest s' quiet2))
                ])
      ]

  pub capture_all-HasQuality :
      (tickers : List String) (s : CaptureState N)
      → All HasQuality (capture_all py identity_digest config env run_id tickers s).rows
  unfolding capture_all IsRowOf
  capture_all-HasQuality [] s = tt
  capture_all-HasQuality (ticker ∷ rest) s =
      elim (Bool-cases (is_spent py identity_digest config env run_id s)) [
        | inl spent ↦ rw spent (refl, capture_all-HasQuality rest s)
        | inr unspent ↦
            let named = capture_ticker-IsRowOf ticker s in
            rw unspent
              (elim (Captured-cases
                (capture_ticker py identity_digest config env run_id ticker s)) [
                  | inl (exception, s', raised) ↦ rw raised tt
                  | inr (r, s', captured) ↦
                      let row : IsRowOf ticker (captured_result r s') = rw captured at named in
                      rw captured (row.2, capture_all-HasQuality rest s')
                ])
      ]
