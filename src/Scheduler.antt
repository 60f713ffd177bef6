-- ===== src/Scheduler.antt =====
-- backend/app/scheduler/domain.py: the identity of a canonical slot, its key and the delay of a
-- delivery. The repository and the orchestrator are the modules below.
pub mod Identity
pub mod Store
pub mod Claim
pub mod Collect
pub mod Execute
use Prim.Native.Char.{code}
use Prim.Native.String
use Prim.Native.String.{String}
use options_anomaly_scanner.Prelude.{
  ℕ, ◌+◌, ◌-◌, ◌*◌, ◌/◌, ◌%◌, ◌≡◌, Bool, true, false, not, ◌&&◌, Option, none, some, List, [], ◌∷◌,
  ◌++◌, leb, ◌==◌, if◌then◌else◌, take,
}
use options_anomaly_scanner.Prelude.Int.{ℤ, pos, sub_ℕ}
use options_anomaly_scanner.Prelude.Result.{
  Result, ok, err, raise_if, schedule_time_does_not_match_slot, ◌>>=◌, ◌>>◌,
}
use options_anomaly_scanner.Time.{hour, minute, second, floor_minute, Market}

-- A text, by its code points.
abbrev pub Text : Type 0
Text = List ℕ

abbrev pub codes : String → Text
codes String.[] = []
codes (String.◌∷◌ c s) = code c ∷ codes s

pub data CanonicalSlotType : Type 0 where
  radar_oi : CanonicalSlotType
  dealer_gex : CanonicalSlotType
  activity_vnext : CanonicalSlotType

-- slot_type.value
abbrev pub value : CanonicalSlotType → Text
value radar_oi = codes "RADAR_OI"
value dealer_gex = codes "DEALER_GEX"
value activity_vnext = codes "ACTIVITY_VNEXT"

abbrev pub slot_eq : CanonicalSlotType → CanonicalSlotType → Bool
slot_eq radar_oi radar_oi = true
slot_eq dealer_gex dealer_gex = true
slot_eq activity_vnext activity_vnext = true
slot_eq _ _ = false

-- EXPECTED_LOCAL_TIMES
unfoldable pub expected_hour : CanonicalSlotType → ℕ
expected_hour radar_oi = 6
expected_hour dealer_gex = 15
expected_hour activity_vnext = 16

unfoldable pub expected_minute : CanonicalSlotType → ℕ
expected_minute slot_type = 30

pub record CanonicalSlotIdentity : Type 0 where
  pub slot_type : CanonicalSlotType
  pub intended_at : ℕ
  pub intended_market_date : ℕ
  pub canonical_key : Text

-- Formatting and hashing of the standard library: isoformat(), strftime("%Y%m%dT%H%M%SZ") and the
-- hexadecimal SHA-256 digest.
pub record Formats : Type 0 where
  pub isoformat : ℕ → Text
  pub stamp : ℕ → Text
  pub sha256 : Text → Text

module _ (m : Market) (formats : Formats) where
  unfoldable pub canonical_key : CanonicalSlotType → ℕ → Text
  canonical_key slot_type intended_at =
      let semantic = value slot_type ++ (codes "|" ++ formats.isoformat intended_at) in
      let digest = take 24 (formats.sha256 semantic) in
      value slot_type ++ (codes ":" ++ (formats.stamp intended_at ++ (codes ":" ++ digest)))

  unfoldable pub matches_slot : CanonicalSlotType → ℕ → Bool
  unfolding expected_hour expected_minute
  matches_slot slot_type intended_at =
      let local = m.local_time intended_at in
      local / hour == expected_hour slot_type && local % hour / minute == expected_minute slot_type

  -- canonical_slot_identity, from the parsed schedule time on.
  unfoldable pub slot_identity : CanonicalSlotType → ℕ → Result CanonicalSlotIdentity
  slot_identity slot_type schedule_time = do
    raise_if (not (matches_slot slot_type schedule_time)) schedule_time_does_not_match_slot
    let intended_at = floor_minute schedule_time
    ok (record {
      slot_type = slot_type;
      intended_at = intended_at;
      intended_market_date = m.local_day intended_at;
      canonical_key = canonical_key slot_type intended_at;
    })

module _ (m : Market) where
  unfoldable pub actual_market_date : ℕ → ℕ
  actual_market_date actual_started_at = m.local_day actual_started_at

-- int(total_seconds()): the fraction is cut off towards zero.
unfoldable pub execution_delay_seconds : CanonicalSlotIdentity → ℕ → ℤ
execution_delay_seconds identity actual =
    if leb identity.intended_at actual
    then pos ((actual - identity.intended_at) / second)
    else sub_ℕ 0 ((identity.intended_at - actual) / second)
