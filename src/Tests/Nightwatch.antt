-- ===== src/Tests/Nightwatch.antt =====
-- Calls of a server that is busy once.
use options_anomaly_scanner.Prelude.{
  ℕ, zero, suc, ◌+◌, ◌-◌, ◌≤◌, ◌≡◌, refl, ◌⊎◌, true, false, none, some, length, not, ◌&&◌, ◌==◌,
  count_by, if◌then◌else◌, is_some, [],
}
use options_anomaly_scanner.Prelude.Json.{null}
use options_anomaly_scanner.Nightwatch.Client.{
  Reply, answered, QuotaMetadata, attempt_from, is_retried, is_retryable_status, Call, request,
  is_error, is_zero_quota_path, uncaught_by, uncaught_error, escaped_error,
}
use options_anomaly_scanner.Nightwatch.Retries.{
  request_attempts, request_reported, is_result, is_escaped, last_answer, has_status, is_billed,
}

abbrev pub no_quota : QuotaMetadata ℕ
no_quota = record {
  quota_limit = none;
  quota_remaining = none;
  rate_limit = none;
  rate_limit_remaining = none;
  rate_limit_reset_epoch = none;
  retry_after_seconds = some 2;
}

abbrev reply : ℕ → Reply ℕ
reply status =
    answered
      (record { status_code = status; payload = null; quota = no_quota; vendor_request_id = none })

abbrev busy_once : ℕ → Reply ℕ
busy_once zero = reply 503
busy_once (suc n) = reply 200

two_attempts : (attempt_from busy_once "GET" 0 3 none).attempts ≡ 2
unfolding attempt_from is_retried is_retryable_status
two_attempts = refl

request_attempts_example :
    let a = attempt_from busy_once "GET" 0 3 none in
    (1 ≤ a.attempts)
    × (a.attempts ≤ 3 + 1)
    × (a.attempts ≡ length a.delays + 1)
    × ((is_retried "GET" (busy_once (a.attempts - 1)) ≡ false) ⊎ (a.attempts ≡ 3 + 1))
request_attempts_example = request_attempts busy_once "GET" 3

abbrev expirations : Call
expirations = record {
  path = "/v1/expirations";
  command = none;
  ticker = some "AAPL";
  expiration = none;
  authenticated = true;
  request_id = "r1";
}

request_reported_example :
    let (events, outcome) = request true 3 busy_once "GET" expirations in
    let attempts = (attempt_from busy_once "GET" 0 3 none).attempts in
    let answer = last_answer busy_once attempts in
    let escaped = is_some (uncaught_by (busy_once (attempts - 1))) in
    (length events ≡ (if escaped then 0 else 1))
    × (is_escaped outcome ≡ escaped)
    × (is_result outcome ≡ (not escaped && has_status (λ s. not (is_error s)) answer))
    × (count_by (λ e. is_billed e.consumed_quota) events ≡ (
        if not escaped
          && has_status (λ s. s == 200 && not (is_zero_quota_path expirations.path)) answer
        then 1
        else 0))
request_reported_example = request_reported 3 busy_once "GET" expirations

-- A proxy that fails at the second attempt.
abbrev proxy_fails : ℕ → Reply ℕ
proxy_fails zero = reply 503
proxy_fails (suc n) = uncaught_error "ProxyError"

proxy_error_escapes :
    request true 3 proxy_fails "GET" expirations ≡ ([], escaped_error "ProxyError")
unfolding request attempt_from is_retried is_retryable_status
proxy_error_escapes = refl
