-- ===== src/Prelude/Result.antt =====
-- Python's exceptions as values: a computation returns, or raises an error by its message.
pub mod Bind
use mathlib.Core.Bool.{Bool}
use options_anomaly_scanner.Prelude.Tests.{if◌then◌else◌}
use Prim.Native.String.{String}

pub data Error : Type 0 where
  timezone_aware_datetime_required : Error
  invalid_local_time : Error
  invalid_schedule_time : Error
  schedule_time_must_be_aware : Error
  schedule_time_does_not_match_slot : Error
  missing_scheduler_marker : Error
  missing_scheduler_job_name : Error
  unexpected_scheduler_job : Error
  actual_start_precedes_intended_slot : Error
  slot_conflict_without_visible_owner : Error
  raised : String → Error

-- What a call returns, or the error it raises.
pub data Result {ℓ} (Value : Type ℓ) : Type ℓ where
  err : Error → Result Value
  ok : Value → Result Value

infixl 5 ◌>>=◌ ◌>>◌
abbrev pub ◌>>=◌ {ℓ κ} :
    {Value : Type ℓ} {Next : Type κ} → Result Value → (Value → Result Next) → Result Next
err e >>= k = err e
ok v >>= k = k v

-- A statement whose value is not used.
abbrev pub ◌>>◌ {ℓ} : {Next : Type ℓ} → Result (Unit {0}) → Result Next → Result Next
err e >> next = err e
ok v >> next = next

-- `if test: raise error`
abbrev pub raise_if : Bool → Error → Result (Unit {0})
raise_if test e = if test then err e else ok tt
