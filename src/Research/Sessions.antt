-- ===== src/Research/Sessions.antt =====
-- map_forward_sessions and maturity_state of backend/app/research/forward_outcome.py.
pub mod Lookahead
use options_anomaly_scanner.Prelude.{
  ℕ, zero, suc, ◌<◌, ◌≤◌, ◌≡◌, Bool, true, false, not, ◌||◌, ltb, if◌then◌else◌,
}
use options_anomaly_scanner.Prelude.Result.{Result, ok, err, ◌>>=◌}
use options_anomaly_scanner.Time.{DateTime, ensure_utc, Market}

-- The other functions of the exchange's calendar that the outcomes call.
pub record Calendar : Type 0 where
  pub market : Market
  pub previous_session : ℕ → ℕ
  pub next_session : ℕ → ℕ
  -- date_to_session(label, direction) of a day without a session
  pub session_before : ℕ → ℕ
  pub session_after : ℕ → ℕ

pub record ForwardSessionPlan : Type 0 where
  pub reference_session : ℕ
  pub t1_session : ℕ
  pub t3_session : ℕ
  pub t5_session : ℕ

pub data MaturityState : Type 0 where
  not_yet_mature : MaturityState
  mature_available : MaturityState
  mature_missing_data : MaturityState
  invalid_sample : MaturityState

module _ (calendar : Calendar) where
  -- The count is the range of a loop.
  unfoldable pub advance_sessions : ℕ → ℕ → ℕ
  advance_sessions start zero = start
  advance_sessions start (suc n) = advance_sessions (calendar.next_session start) n

  unfoldable pub plan_from : (reference t1 : ℕ) → ForwardSessionPlan
  unfolding advance_sessions
  plan_from reference t1 = record {
    reference_session = reference;
    t1_session = t1;
    t3_session = advance_sessions t1 2;
    t5_session = advance_sessions t1 4;
  }

  unfoldable pub sessions_of : Bool → (first_known market_day : ℕ) → ForwardSessionPlan
  unfolding plan_from
  sessions_of same_day_close_known first_known market_day =
      if calendar.market.is_session market_day
      then if ltb first_known (calendar.market.session_close market_day)
        then plan_from (calendar.previous_session market_day) market_day
        else plan_from
            (if same_day_close_known then market_day else calendar.previous_session market_day)
            (calendar.next_session market_day)
      else plan_from (calendar.session_before market_day) (calendar.session_after market_day)

  unfoldable pub map_forward_sessions : Bool → DateTime → Result ForwardSessionPlan
  unfolding sessions_of ensure_utc
  map_forward_sessions same_day_close_known candidate_first_knowledge_at = do
    first_known ← ensure_utc candidate_first_knowledge_at
    ok (sessions_of same_day_close_known first_known (calendar.market.local_day first_known))

  unfoldable pub maturity_at : Bool → (target evaluated_at : ℕ) → MaturityState
  maturity_at close_present target evaluated_at =
      if ltb evaluated_at (calendar.market.session_close target)
      then not_yet_mature
      else if close_present
      then mature_available
      else mature_missing_data

  unfoldable pub maturity_after : Bool → ℕ → DateTime → Result MaturityState
  unfolding maturity_at ensure_utc
  maturity_after close_present target evaluated_at = do
    instant ← ensure_utc evaluated_at
    ok (maturity_at close_present target instant)

  unfoldable pub maturity_state :
      (target : ℕ)
      → DateTime
      → (close_present sample_valid price_basis_provable : Bool) → Result MaturityState
  unfolding maturity_after
  maturity_state target evaluated_at close_present sample_valid price_basis_provable =
      if not sample_valid || not price_basis_provable
      then ok invalid_sample
      else if not (calendar.market.is_session target)
      then ok invalid_sample
      else maturity_after close_present target evaluated_at
