-- ===== src/Nightwatch/Client.antt =====
-- backend/app/nightwatch/client.py, NightwatchClient.request: the loop of attempts, the usage event
-- of the call, and its result or error. The network is a parameter: the reply to each attempt.
use Prim.Native.String.{String}
use options_anomaly_scanner.Prelude.{
  ℕ, zero, suc, ◌-◌, ◌^◌, min, Bool, true, false, not, ◌&&◌, ◌||◌, Option, none, some, List, [],
  ◌∷◌, ltb, leb, ◌==◌, if◌then◌else◌,
}
use options_anomaly_scanner.Prelude.Eq.{string_eq}
use options_anomaly_scanner.Prelude.Int.{ℤ}
use options_anomaly_scanner.Prelude.Json.{Json, text, object, get}

-- What parse_quota_headers reads of the headers, as far as the client uses it.
pub record QuotaMetadata (N : Type 0) : Type 0 where
  pub quota_limit : Option ℤ
  pub quota_remaining : Option ℤ
  pub rate_limit : Option ℤ
  pub rate_limit_remaining : Option ℤ
  pub rate_limit_reset_epoch : Option ℤ
  pub retry_after_seconds : Option N

pub record Response (N : Type 0) : Type 0 where
  pub status_code : ℕ
  -- _safe_json: the decoded body, or its text under "raw_text"
  pub payload : Json N
  pub quota : QuotaMetadata N
  pub vendor_request_id : Option String

-- What the HTTP client does at an attempt: it answers, it raises a timeout or a network error, which
-- the loop catches, or it raises another exception (of the protocol or a proxy, say), which it does
-- not.
pub data Reply (N : Type 0) : Type 0 where
  answered : Response N → Reply N
  transport_failed : Reply N
  uncaught_error : (exception : String) → Reply N

-- A sleep: what the vendor asks for, or the backoff in quarters of a second.
pub data Delay (N : Type 0) : Type 0 where
  vendor_delay : N → Delay N
  backoff : ℕ → Delay N

-- min(0.25 * 2 ** attempt, 4.0) in quarters of a second.
abbrev pub backoff_quarters : ℕ → ℕ
backoff_quarters attempt = min (2 ^ attempt) 16

unfoldable pub is_retryable_status : ℕ → Bool
is_retryable_status s =
    s == 408 || s == 425 || s == 429 || s == 500 || s == 502 || s == 503 || s == 504

-- The method, in upper case, may be sent again without a reply.
unfoldable pub is_safe_method : String → Bool
is_safe_method method = string_eq.beq method "GET" || string_eq.beq method "HEAD"

-- What the loop leaves; `exception` is the one that it did not catch.
pub record Attempted (N : Type 0) : Type 0 where
  pub response : Option (Response N)
  pub exception : Option String
  pub attempts : ℕ
  pub delays : List (Delay N)

module _ {N : Type 0} where
  abbrev pub delay_after : Option N → ℕ → Delay N
  delay_after (some seconds) attempt = vendor_delay seconds
  delay_after none attempt = backoff (backoff_quarters attempt)

  -- Whether the loop goes on after a reply, where it may.
  unfoldable pub is_retried : String → Reply N → Bool
  unfolding is_safe_method is_retryable_status
  is_retried method (answered r) = is_retryable_status r.status_code
  is_retried method transport_failed = is_safe_method method
  is_retried method (uncaught_error exception) = false

  abbrev pub uncaught_by : Reply N → Option String
  uncaught_by (answered r) = none
  uncaught_by transport_failed = none
  uncaught_by (uncaught_error exception) = some exception

  -- `response` after a reply: that of an earlier attempt stays where this one raised.
  abbrev pub response_after : Reply N → Option (Response N) → Option (Response N)
  response_after (answered r) earlier = some r
  response_after transport_failed earlier = earlier
  response_after (uncaught_error exception) earlier = earlier

  abbrev pub sleep_after : Reply N → ℕ → Delay N
  sleep_after (answered r) attempt = delay_after r.quota.retry_after_seconds attempt
  sleep_after _ attempt = backoff (backoff_quarters attempt)

  -- The loop from an attempt on, with the number of retries that are left.
  unfoldable pub attempt_from :
      (server : ℕ → Reply N) (method : String) (attempt retries_left : ℕ)
      → Option (Response N)
      → Attempted N
  unfolding is_retried
  attempt_from server method attempt zero earlier = record {
    response = response_after (server attempt) earlier;
    exception = uncaught_by (server attempt);
    attempts = suc attempt;
    delays = [];
  }
  attempt_from server method attempt (suc left) earlier =
      let reply = server attempt in
      let next = attempt_from server method (suc attempt) left (response_after reply earlier) in
      if is_retried method reply
      then record next { delays = sleep_after reply attempt ∷ next.delays }
      else record {
        response = response_after reply earlier;
        exception = uncaught_by reply;
        attempts = suc attempt;
        delays = [];
      }

-- The arguments of a call that its usage event repeats.
pub record Call : Type 0 where
  pub path : String
  pub command : Option String
  pub ticker : Option String
  pub expiration : Option String
  pub authenticated : Bool
  pub request_id : String

pub record ApiUsageEvent (N : Type 0) : Type 0 where
  pub call : Call
  pub http_status : Option ℕ
  pub consumed_quota : Option Bool
  pub quota : Option (QuotaMetadata N)
  pub vendor_request_id : Option String
  pub attempt_count : ℕ
  pub retry_count : ℕ
  pub error_code : Option String

pub data Outcome (N : Type 0) : Type 0 where
  key_missing : Outcome N
  transport_error : Outcome N
  escaped_error : (exception : String) → Outcome N
  vendor_error : (response : Response N) (code : Option String) (retryable : Bool) → Outcome N
  result : Response N → Outcome N

-- ZERO_QUOTA_PATHS
unfoldable pub is_zero_quota_path : String → Bool
is_zero_quota_path path =
    string_eq.beq path "/v1/health"
    || string_eq.beq path "/v1/discover"
    || string_eq.beq path "/v1/openapi.json"

-- `response.is_error` of httpx: a client or a server error.
abbrev pub is_error : ℕ → Bool
is_error s = leb 400 s && ltb s 600

unfoldable pub consumed_quota_of : String → ℕ → Option Bool
consumed_quota_of path status =
    if is_zero_quota_path path
    then some false
    else if status == 200
    then some true
    else if status == 202
    then some false
    else none

module _ {N : Type 0} where
  text_of : Json N → Option String
  text_of (text t) = some t
  text_of _ = none

  first_code : Option String → Json N → Option String
  unfolding text_of
  first_code (some code) top = some code
  first_code none top = text_of top

  nested_code : Json N → Option String
  unfolding text_of
  nested_code (object error) = text_of (get "code" error)
  nested_code _ = none

  -- _error_code
  unfoldable pub error_code_of : Json N → Option String
  unfolding first_code nested_code
  error_code_of (object payload) =
      first_code (nested_code (get "error" payload)) (get "code" payload)
  error_code_of _ = none

  -- The usage event and the outcome, after a loop that no exception has left.
  unfoldable pub finish : Call → Attempted N → ApiUsageEvent N × Outcome N
  unfolding error_code_of consumed_quota_of
  finish call a = elim a.response [
    | none ↦ (
      record {
        call = call;
        http_status = none;
        consumed_quota = none;
        quota = none;
        vendor_request_id = none;
        attempt_count = a.attempts;
        retry_count = a.attempts - 1;
        error_code = some "TRANSPORT_ERROR";
      },
      transport_error,
    )
    | some r ↦
        let code = if is_error r.status_code then error_code_of r.payload else none in
        (
          record {
            call = call;
            http_status = some r.status_code;
            consumed_quota = consumed_quota_of call.path r.status_code;
            quota = some r.quota;
            vendor_request_id = r.vendor_request_id;
            attempt_count = a.attempts;
            retry_count = a.attempts - 1;
            error_code = code;
          },
          if is_error r.status_code
              then vendor_error r code (is_retryable_status r.status_code)
              else result r,
        )
  ]

  -- An exception that leaves the loop leaves the call, before there is a usage event.
  abbrev pub unless_escaped :
      Option String → ApiUsageEvent N × Outcome N → List (ApiUsageEvent N) × Outcome N
  unless_escaped none (event, outcome) = (event ∷ [], outcome)
  unless_escaped (some exception) reported = ([], escaped_error exception)

  -- The events that the observer sees, at most one, and the outcome.
  unfoldable pub request :
      (has_key : Bool) (max_retries : ℕ) (server : ℕ → Reply N) (method : String)
      → Call
      → List (ApiUsageEvent N) × Outcome N
  unfolding attempt_from finish
  request has_key max_retries server method call =
      let a = attempt_from server method 0 max_retries none in
      if call.authenticated && not has_key
      then ([], key_missing)
      else unless_escaped a.exception (finish call a)
