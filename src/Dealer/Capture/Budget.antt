-- ===== src/Dealer/Capture/Budget.antt =====
-- What a request of the loop of backend/app/dealer_archive/service.py adds to the usage events, and
-- how far the loop lets them grow.
use Prim.Native.String.{String}
use options_anomaly_scanner.Prelude.{
  ℕ, ◌+◌, ◌≤◌, ◌≡◌, refl, ◌⊎◌, inl, inr, Bool, false, Option, none, some, List, [], ◌∷◌, ◌++◌,
  arith, Bool-cases, Option-cases, count_by,
}
use options_anomaly_scanner.Nightwatch.Client.{
  Call, Attempted, Reply, Outcome, ApiUsageEvent, key_missing, transport_error, escaped_error,
  vendor_error, result, request, attempt_from, finish,
}
use options_anomaly_scanner.Nightwatch.Retries.{request_attempts}
use options_anomaly_scanner.Dealer.Parsing.{Python}
use options_anomaly_scanner.Dealer.Capture.{
  ArchiveConfig, CaptureState, Captured, captured_result, captured_fault, Surroundings,
  TickerResult, count_attempts, count_consumed, capture_ticker, capture_unless, capture_outcome,
  capture_all, is_spent,
}

module _ {N : Type 0} where
  count_attempts-append :
      (xs ys : List (ApiUsageEvent N))
      → count_attempts (xs ++ ys) ≡ count_attempts xs + count_attempts ys
  count_attempts-append [] ys = omega arith
  count_attempts-append (x ∷ xs) ys = omega (arith, count_attempts-append xs ys)

  count_consumed-append :
      (xs ys : List (ApiUsageEvent N))
      → count_consumed (xs ++ ys) ≡ count_consumed xs + count_consumed ys
  unfolding count_consumed count_by
  count_consumed-append [] ys = omega arith
  count_consumed-append (x ∷ xs) ys = ground (arith, count_consumed-append xs ys)

  finish-attempts : (call : Call) (a : Attempted N) → (finish call a).0.attempt_count ≡ a.attempts
  unfolding finish
  finish-attempts call a = elim (Option-cases a.response) [
    | inl none_yet ↦ rw none_yet refl
    | inr (r, last) ↦ rw last refl
  ]

  -- What one request adds to the sums of the events.
  request-costs :
      (has_key : Bool) (max_retries : ℕ) (server : ℕ → Reply N) (call : Call)
      → let events = (request has_key max_retries server "GET" call).0 in
        (count_attempts events ≤ max_retries + 1) × (count_consumed events ≤ 1)
  unfolding request count_consumed count_by
  request-costs has_key max_retries server call =
      let a = attempt_from server "GET" 0 max_retries none in
      let bounds = request_attempts server "GET" max_retries in
      let same = finish-attempts call a in (ground (arith, bounds.1, same), ground arith)

  pub Captured-cases :
      (c : Captured N)
      → ((exception : String) × (s : CaptureState N) × (c ≡ captured_fault exception s))
        ⊎ ((r : TickerResult) × (s : CaptureState N) × (c ≡ captured_result r s))
  Captured-cases (captured_fault e s) = inl (e, s, refl)
  Captured-cases (captured_result r s) = inr (r, s, refl)

  state_after : Captured N → CaptureState N
  state_after (captured_result r s) = s
  state_after (captured_fault e s) = s

module _ {N : Type 0} (py : Python N) (identity_digest : String → ℕ → String)
    (config : ArchiveConfig) (env : Surroundings N) (run_id : ℕ) where
  capture_outcome-events :
      (ticker : String) (outcome : Outcome N) (s : CaptureState N)
      → (state_after (capture_outcome py identity_digest config env run_id ticker outcome s)).events
        ≡ s.events
  unfolding capture_outcome state_after
  capture_outcome-events ticker key_missing s = refl
  capture_outcome-events ticker transport_error s = refl
  capture_outcome-events ticker (escaped_error exception) s = refl
  capture_outcome-events ticker (vendor_error r code again) s = refl
  capture_outcome-events ticker (result r) s = refl

  capture_unless-events :
      (fault : Option String) (ticker : String) (outcome : Outcome N) (s : CaptureState N)
      → (state_after
          (capture_unless py identity_digest config env run_id fault ticker outcome s)).events
        ≡ s.events
  unfolding capture_unless state_after
  capture_unless-events (some exception) ticker outcome s = refl
  capture_unless-events none ticker outcome s = capture_outcome-events ticker outcome s

  -- Where the budget holds, and how far the last request may pass the attempts.
  unfoldable pub IsWithin : CaptureState N → Type 0
  IsWithin s =
      (count_attempts s.events ≤ config.max_network_attempts + env.max_retries)
      × (count_consumed s.events ≤ config.max_consumed_units)

  capture_ticker-IsWithin :
      (ticker : String) (s : CaptureState N)
      → is_spent py identity_digest config env run_id s ≡ false
      → IsWithin (state_after (capture_ticker py identity_digest config env run_id ticker s))
  unfolding capture_ticker is_spent IsWithin
  capture_ticker-IsWithin ticker s unspent =
      let events =
        (request env.has_key env.max_retries (env.server ticker) "GET" (env.call_for ticker)).0 in
      let costs =
        request-costs env.has_key env.max_retries (env.server ticker) (env.call_for ticker) in
      let kept =
        capture_unless-events (env.fault ticker) ticker
          (request env.has_key env.max_retries (env.server ticker) "GET" (env.call_for ticker)).1
          (record s { events = s.events ++ events }) in
      rw (kept, count_attempts-append s.events events, count_consumed-append s.events events)
        (ground (arith, costs, unspent), ground (arith, costs, unspent))

  pub capture_all-IsWithin :
      (tickers : List String) (s : CaptureState N)
      → IsWithin s
      → IsWithin (capture_all py identity_digest config env run_id tickers s).state
  unfolding capture_all state_after
  capture_all-IsWithin [] s h = h
  capture_all-IsWithin (ticker ∷ rest) s h =
      elim (Bool-cases (is_spent py identity_digest config env run_id s)) [
        | inl spent ↦ rw spent (capture_all-IsWithin rest s h)
        | inr unspent ↦
            let next = capture_ticker-IsWithin ticker s unspent in
            rw unspent
              (elim (Captured-cases
                (capture_ticker py identity_digest config env run_id ticker s)) [
                  | inl (exception, s', raised) ↦ rw raised (rw raised at next)
                  | inr (r, s', captured) ↦
                      let next' : IsWithin s' = rw captured at next in
                      rw captured (capture_all-IsWithin rest s' next')
                ])
      ]
