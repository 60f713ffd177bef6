-- ===== src/Nightwatch/Retries.antt =====
-- The attempts of NightwatchClient.request of backend/app/nightwatch/client.py, and its report.
use Prim.Native.String.{String}
use options_anomaly_scanner.Prelude.{
  ℕ, zero, suc, is_some, ◌+◌, ◌-◌, ◌≤◌, ◌<◌, ◌≡◌, refl, sym, ◌⊎◌, inl, inr, Bool, true, false,
  Option, none, some, List, arith, length, Bool-cases, if◌then◌else◌, ◌==◌, ==_iff, not, ◌&&◌,
  count_by,
}
use options_anomaly_scanner.Nightwatch.Client.{
  Reply, Response, attempt_from, is_retried, response_after, finish, request, Call, Delay, Outcome,
  key_missing, transport_error, escaped_error, vendor_error, result, is_error, is_zero_quota_path,
  uncaught_by, unless_escaped, consumed_quota_of,
}

pred-suc : (n : ℕ) → suc n - 1 ≡ n
pred-suc n = omega arith

module _ {N : Type 0} (server : ℕ → Reply N) (method : String) where
  -- From some attempt on: the loop makes at least one and at most one more than the retries that it is allowed,
  -- and sleeps once between two attempts.
  attempts_bounds :
      (attempt left : ℕ) (earlier : Option (Response N))
      → let a = attempt_from server method attempt left earlier in
        (attempt < a.attempts)
        × (a.attempts ≤ attempt + left + 1)
        × (a.attempts ≡ attempt + length a.delays + 1)
  unfolding attempt_from
  attempts_bounds attempt zero earlier = (omega arith, omega arith, omega arith)
  attempts_bounds attempt (suc left) earlier =
      let hyp = attempts_bounds (suc attempt) left (response_after (server attempt) earlier) in
      (ground (arith, hyp), ground (arith, hyp), ground (arith, hyp))

  -- Each attempt but the last has a reply after which the loop goes on.
  attempts_retried :
      (attempt left : ℕ) (earlier : Option (Response N)) (i : ℕ)
      → attempt ≤ i
      → i + 1 < (attempt_from server method attempt left earlier).attempts
      → is_retried method (server i) ≡ true
  unfolding attempt_from
  attempts_retried attempt zero earlier i low high = ground (arith, low, high)
  attempts_retried attempt (suc left) earlier i low high =
      elim (Bool-cases (is_retried method (server attempt))) [
        | inl again ↦
            let later =
              attempt_from server method (suc attempt) left
                (response_after (server attempt) earlier) in
            let high' : i + 1 < later.attempts = rw again at high in
            elim (Bool-cases (attempt == i)) [
              | inl same ↦ rw (sym ((==_iff attempt i).0 same)) again
              | inr differ ↦
                  attempts_retried (suc attempt) left (response_after (server attempt) earlier) i
                    (ground (arith, low, differ)) high'
            ]
        | inr stop ↦ let high' : i + 1 < suc attempt = rw stop at high in ground (arith, low, high')
      ]

  -- The last attempt has a reply after which the loop stops, unless no retry was left.
  attempts_stop :
      (attempt left : ℕ) (earlier : Option (Response N))
      → let a = attempt_from server method attempt left earlier in
        (is_retried method (server (a.attempts - 1)) ≡ false) ⊎ (a.attempts ≡ attempt + left + 1)
  unfolding attempt_from
  attempts_stop attempt zero earlier = inr (omega arith)
  attempts_stop attempt (suc left) earlier =
      elim (Bool-cases (is_retried method (server attempt))) [
        | inl again ↦
            rw again
              (elim (attempts_stop (suc attempt) left (response_after (server attempt) earlier)) [
                | inl stop ↦ inl stop
                | inr all ↦ inr (omega (arith, all))
              ])
        | inr stop ↦ rw (stop, pred-suc attempt) (inl stop)
      ]

  -- A call makes at least one attempt and at most one more than the maximal number of retries,
  -- sleeps once between two attempts, and stops at a reply that is not to be retried, unless no
  -- retry is left.
  pub request_attempts :
      (max_retries : ℕ)
      → let a = attempt_from server method 0 max_retries none in
        (1 ≤ a.attempts)
        × (a.attempts ≤ max_retries + 1)
        × (a.attempts ≡ length a.delays + 1)
        × ((is_retried method (server (a.attempts - 1)) ≡ false) ⊎ (a.attempts ≡ max_retries + 1))
  request_attempts max_retries =
      let h = attempts_bounds 0 max_retries none in
      (
        omega (arith, h),
        omega (arith, h),
        omega (arith, h),
        elim (attempts_stop 0 max_retries none) [
          | inl stop ↦ inl stop
          | inr all ↦ inr (omega (arith, all))
        ],
      )

  -- Every attempt of a call before the last one has a reply that is to be retried: a retryable
  -- status, or a failed transport under a method that is safe to send again.
  pub request_retried :
      (max_retries i : ℕ)
      → i + 1 < (attempt_from server method 0 max_retries none).attempts
      → is_retried method (server i) ≡ true
  request_retried max_retries i h = attempts_retried 0 max_retries none i (omega arith) h

abbrev pub is_result : {N : Type 0} → Outcome N → Bool
is_result key_missing = false
is_result transport_error = false
is_result (escaped_error exception) = false
is_result (vendor_error r code retryable) = false
is_result (result r) = true

-- The test holds of the status of the last response that was received.
abbrev pub has_status : {N : Type 0} → (ℕ → Bool) → Option (Response N) → Bool
has_status test none = false
has_status test (some r) = test r.status_code

abbrev pub is_billed : Option Bool → Bool
is_billed none = false
is_billed (some b) = b

abbrev pub is_escaped : {N : Type 0} → Outcome N → Bool
is_escaped (escaped_error exception) = true
is_escaped _ = false

-- The last response among the replies to the first attempts.
unfoldable pub last_answer : {N : Type 0} → (ℕ → Reply N) → ℕ → Option (Response N)
last_answer server zero = none
last_answer server (suc n) = response_after (server n) (last_answer server n)

module _ {N : Type 0} (server : ℕ → Reply N) (method : String) where
  -- The loop leaves the last response, and the exception of its last attempt.
  attempts_left :
      (attempt left : ℕ)
      → let a = attempt_from server method attempt left (last_answer server attempt) in
        (a.response ≡ last_answer server a.attempts)
        × (a.exception ≡ uncaught_by (server (a.attempts - 1)))
  unfolding attempt_from last_answer
  attempts_left attempt zero = (refl, rw (pred-suc attempt) refl)
  attempts_left attempt (suc left) = elim (Bool-cases (is_retried method (server attempt))) [
    | inl again ↦ rw again (attempts_left (suc attempt) left)
    | inr stop ↦ rw stop (refl, rw (pred-suc attempt) refl)
  ]

module _ {N : Type 0} where
  report-response :
      (call : Call) (attempts : ℕ) (delays : List (Delay N)) (r : Option (Response N))
      (exception : Option String)
      → let (events, outcome) = unless_escaped exception (
          finish call (record {
            response = r;
            exception = exception;
            attempts = attempts;
            delays = delays;
          })) in
        (length events ≡ (if is_some exception then 0 else 1))
        × (is_escaped outcome ≡ is_some exception)
        × (is_result outcome ≡ (not (is_some exception) && has_status (λ s. not (is_error s)) r))
        × (count_by (λ e. is_billed e.consumed_quota) events ≡ (
            if not (is_some exception)
              && has_status (λ s. s == 200 && not (is_zero_quota_path call.path)) r
            then 1
            else 0))
  unfolding finish consumed_quota_of count_by
  report-response call attempts delays r (some exception) = (refl, refl, refl, refl)
  report-response call attempts delays none none = (refl, refl, refl, refl)
  report-response call attempts delays (some r) none =
      (refl, ground arith, ground arith, ground arith)

  -- A call that has the key it needs: where the reply to its last attempt is an exception that the
  -- loop does not catch, that exception leaves the call and no usage event is observed; elsewhere
  -- exactly one is. It returns a result exactly where, besides, the last response among the replies
  -- to its attempts is no client or server error, and is recorded as billed exactly where, besides,
  -- the status of that response is 200 and the path costs quota.
  pub request_reported :
      (max_retries : ℕ) (server : ℕ → Reply N) (method : String) (call : Call)
      → let (events, outcome) = request true max_retries server method call in
        let attempts = (attempt_from server method 0 max_retries none).attempts in
        let answer = last_answer server attempts in
        let escaped = is_some (uncaught_by (server (attempts - 1))) in
        (length events ≡ (if escaped then 0 else 1))
        × (is_escaped outcome ≡ escaped)
        × (is_result outcome ≡ (not escaped && has_status (λ s. not (is_error s)) answer))
        × (count_by (λ e. is_billed e.consumed_quota) events ≡ (
            if not escaped
              && has_status (λ s. s == 200 && not (is_zero_quota_path call.path)) answer
            then 1
            else 0))
  unfolding request last_answer
  request_reported max_retries server method call =
      let a = attempt_from server method 0 max_retries none in
      let left = attempts_left server method 0 max_retries in
      let h = report-response call a.attempts a.delays a.response a.exception in
      let key : (call.authenticated && not true) ≡ false = ground arith in
      rw (key, ← left.0, ← left.1) h
