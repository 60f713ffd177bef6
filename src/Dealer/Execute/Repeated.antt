-- ===== src/Dealer/Execute/Repeated.antt =====
-- A second execution of backend/app/dealer_archive/service.py for a session that is complete.
use Prim.Native.String.{String}
use options_anomaly_scanner.Prelude.{
  ℕ, ◌≤◌, ◌≡◌, refl, sym, ap, ◌∙◌, inl, inr, Bool, true, false, not, ◌&&◌, Option, none, some, List,
  ◌∷◌, if◌then◌else◌, arith, Bool-cases, Option-cases,
}
use mathlib.Core.Bool.{true≢false}
use mathlib.Core.Path.{subst}
use options_anomaly_scanner.Prelude.Eq.{string_eq, beq_refl}
use options_anomaly_scanner.Prelude.Result.{ok}
use options_anomaly_scanner.Time.{Market}
use options_anomaly_scanner.Sessions.{CaptureSessionPlan}
use options_anomaly_scanner.Nightwatch.Client.{ApiUsageEvent}
use options_anomaly_scanner.Dealer.Parsing.{Python}
use options_anomaly_scanner.Dealer.Capture.{
  ArchiveConfig, archive_spec_version, TickerResult, CaptureState, capture_all,
}
use options_anomaly_scanner.Dealer.Run.{
  ArchiveRun, is_complete, archive_run_suppresses_capture, set_usage_totals,
  reusable_completed_archive_run, summary_from_run, Execution, returned, finish, loop_status,
}
use options_anomaly_scanner.Dealer.Execute.{
  Request, World, Host, execute, execute_planned, execute_unless, execute_locked, run_new, plan_of,
  selected_of, key_of, reusable_run, after_loop, end_run, new_run, is_outside,
}
use options_anomaly_scanner.Dealer.Run.Reuse.{reusable-new}

module _ {ℓ} {A : Type ℓ} (a b : Bool) (x y z : A) where
  if-both : a ≡ true → b ≡ true → (if a && b then x else y) ≡ x
  if-both ea eb = rw (ea, eb) refl

  if-neither : a ≡ true → b ≡ true → (if not a then x else if not b then y else z) ≡ z
  if-neither ea eb = rw (ea, eb) refl

abbrev pub is_completed : Execution → Bool
is_completed (returned summary) = is_complete summary.status
is_completed _ = false

module _ {N : Type 0} (py : Python N) (identity_digest : String → ℕ → String) (market : Market)
    (joined : List String → String) (config : ArchiveConfig) where
  -- An execution that finds a run to reuse returns its summary and changes nothing.
  execute-reuses :
      (host : Host N) (request : Request) (plan : CaptureSessionPlan) (t : ℕ) (w : World N)
      (x : ArchiveRun)
      → plan_of config market request ≡ ok (plan, t)
      → is_outside config (selected_of config request) ≡ false
      → request.dry_run ≡ false
      → reusable_run joined config request plan w.runs ≡ some x
      → ◌≡◌ {A = Execution × World N}
          (execute py identity_digest market joined config host request w)
          (returned (summary_from_run x), w)
  unfolding execute execute_planned execute_unless
  execute-reuses host request plan t w x ready inside real found =
      rw (ready, inside, real, found) refl

-- The run that the end of a complete loop stores suppresses the captures of its key.
finish-suppresses :
    {N : Type 0} (joined : List String → String) (config : ArchiveConfig) (id completed_at t : ℕ)
    (request : Request) (plan : CaptureSessionPlan) (rows : List TickerResult)
    (events : List (ApiUsageEvent N))
    → plan.intended_at ≤ t
    → is_complete (loop_status rows) ≡ true
    → archive_run_suppresses_capture (key_of joined config request plan) (
        finish
          (loop_status rows)
          rows
          completed_at
          events
          (new_run joined config id request plan t))
      ≡ true
unfolding archive_run_suppresses_capture key_of finish set_usage_totals new_run
finish-suppresses joined config id completed_at t request plan rows events late done = ground (
  arith,
  late,
  done,
  beq_refl string_eq config.intended_capture_slot,
  beq_refl string_eq (joined (selected_of config request)),
  beq_refl string_eq archive_spec_version,
  beq_refl string_eq config.version,
  beq_refl string_eq config.hash,
)

module _ {N : Type 0} (py : Python N) (identity_digest : String → ℕ → String) (market : Market)
    (joined : List String → String) (config : ArchiveConfig) (second : Host N)
    (first_request next : Request) (plan plan2 : CaptureSessionPlan) (t t2 : ℕ)
    (later : plan_of config market next ≡ ok (plan2, t2))
    (same : key_of joined config next plan2 ≡ key_of joined config first_request plan)
    (enabled : config.enabled ≡ true) (captures : plan.should_capture ≡ true)
    (captures2 : plan2.should_capture ≡ true)
    (inside : is_outside config (selected_of config next) ≡ false) (real : next.dry_run ≡ false)
    (late : plan.intended_at ≤ t) where
  -- The second execution leaves this end of the first one as it is, if it is complete.
  IsSettled : Execution × World N → Type 0
  IsSettled end =
      is_completed end.0 ≡ true
      → execute py identity_digest market joined config second next end.1 ≡ end

  by_key :
      (request : Request) (p : CaptureSessionPlan) (runs : List ArchiveRun)
      → p.should_capture ≡ true
      → reusable_run joined config request p runs
        ≡ reusable_completed_archive_run (key_of joined config request p) runs
  unfolding reusable_run
  by_key request p runs capturing =
      if-both config.enabled p.should_capture
        (reusable_completed_archive_run (key_of joined config request p) runs) none none enabled
        capturing

  reused_again :
      (x : ArchiveRun) (w : World N)
      → reusable_run joined config first_request plan w.runs ≡ some x
      → execute py identity_digest market joined config second next w
        ≡ (returned (summary_from_run x), w)
  reused_again x w found =
      let key = key_of joined config first_request plan in
      execute-reuses py identity_digest market joined config second next plan2 t2 w x later inside
        real
        (by_key next plan2 w.runs captures2
          ∙ ap (λ k. reusable_completed_archive_run k w.runs) same
          ∙ sym (by_key first_request plan w.runs captures)
          ∙ found)

  after_loop-IsSettled :
      (id completed_at : ℕ) (runs : List ArchiveRun) (exception : Option String)
      (rows : List TickerResult) (state : CaptureState N)
      → reusable_run joined config first_request plan runs ≡ none
      → IsSettled (
          after_loop completed_at
            (new_run joined config id first_request plan t)
            runs
            exception
            rows
            state)
  unfolding IsSettled after_loop end_run
  after_loop-IsSettled id completed_at runs (some e) rows state lost done =
      absurd (true≢false (sym done))
  after_loop-IsSettled id completed_at runs none rows state lost done =
      let run = new_run joined config id first_request plan t in
      let closed = finish (loop_status rows) rows completed_at state.events run in
      let key = key_of joined config first_request plan in
      let unseen : reusable_completed_archive_run key runs ≡ none =
        sym (by_key first_request plan runs captures) ∙ lost in
      let covers =
        finish-suppresses joined config id completed_at t first_request plan rows state.events late
          done in
      reused_again closed (record { runs = closed ∷ runs; capture = state })
        (by_key first_request plan (closed ∷ runs) captures
          ∙ reusable-new key closed runs covers unseen)

  run_new-IsSettled :
      (host : Host N) (w : World N)
      → reusable_run joined config first_request plan w.runs ≡ none
      → IsSettled (run_new py identity_digest market joined config host first_request plan t w)
  unfolding run_new
  run_new-IsSettled host w lost =
      let loop =
        capture_all py identity_digest config host.env host.run_id
          (selected_of config first_request) w.capture in
      subst IsSettled (sym (if-neither config.enabled plan.should_capture _ _ _ enabled captures)) (
        after_loop-IsSettled host.run_id host.completed_at w.runs loop.exception loop.rows
          loop.state lost)

  locked :
      (host : Host N) (w : World N)
      → IsSettled
          (execute_unless py identity_digest market joined config host first_request plan t none w)
  unfolding IsSettled execute_unless execute_locked
  locked host w = elim (Bool-cases host.lock_free) [
    | inr taken ↦ rw taken λ done. absurd (true≢false (sym done))
    | inl free ↦
        let seen = host.meanwhile w.runs in
        elim (Option-cases (reusable_run joined config first_request plan seen)) [
          | inr (x, found) ↦
              rw (free, found) λ done. reused_again x (record w { runs = seen }) found
          | inl lost ↦ rw (free, lost) (run_new-IsSettled host (record w { runs = seen }) lost)
        ]
  ]

  execute_unless-IsSettled :
      (host : Host N) (w : World N)
      → IsSettled (
          execute_unless py identity_digest market joined config host first_request plan t
            (reusable_run joined config first_request plan w.runs)
            w)
  unfolding IsSettled execute_unless execute_locked
  execute_unless-IsSettled host w =
      elim (Option-cases (reusable_run joined config first_request plan w.runs)) [
        | inr (x, found) ↦ rw found λ done. reused_again x w found
        | inl lost ↦ rw lost (locked host w)
      ]

  -- Where the archive is enabled, the plans of both executions capture, and the first one starts at
  -- or after its intended time: once it has returned a complete summary, a later execution for the
  -- same session and selection, which selects tickers of the universe and is no dry run, returns
  -- the same summary and changes nothing, so that no vendor call is made and no row is written,
  -- whatever the vendor, the lock and the clock do then.
  pub execute_repeated :
      (host : Host N) (w : World N)
      → plan_of config market first_request ≡ ok (plan, t)
      → is_completed (execute py identity_digest market joined config host first_request w).0 ≡ true
      → let (summary, after) =
          execute py identity_digest market joined config host first_request w in
        ◌≡◌ {A = Execution × World N}
          (execute py identity_digest market joined config second next after)
          (summary, after)
  unfolding execute execute_planned IsSettled
  execute_repeated host w ready done =
      elim (Bool-cases (is_outside config (selected_of config first_request))) [
        | inl out ↦ absurd (true≢false (sym (rw (ready, out) at done)))
        | inr within ↦ elim (Bool-cases first_request.dry_run) [
          | inl dry ↦ absurd (true≢false (sym (rw (ready, within, dry) at done)))
          | inr live ↦
              rw (ready, within, live)
                (execute_unless-IsSettled host w (rw (ready, within, live) at done))
        ]
      ]
