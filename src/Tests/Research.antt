-- ===== src/Tests/Research.antt =====
-- Sessions on every day from day 1 on, and whole numbers as decimals.
use options_anomaly_scanner.Prelude.{
  ℕ, ◌+◌, ◌-◌, ◌/◌, ◌<◌, ◌≤◌, ◌≡◌, refl, true, false, ◌&&◌, none, some, [], ◌∷◌, ltb, arith, any_by,
}
use native.Mathlib.Nat.{le-div_iff_mul-le, div-mul-le_self}
use options_anomaly_scanner.Prelude.Eq.{string_eq}
use options_anomaly_scanner.Prelude.Result.{ok}
use options_anomaly_scanner.Time.{Market, aware}
use options_anomaly_scanner.Research.Sessions.{
  Calendar, ForwardSessionPlan, map_forward_sessions, maturity_state, not_yet_mature,
}
use options_anomaly_scanner.Research.Sessions.Lookahead.{
  CalendarLaws, IsAround, map_forward_sessions-IsAround,
}
use options_anomaly_scanner.Research.Path.{
  ClosePriceEvidence, OutcomeMetrics, Decimals, raw_unadjusted, require_consistent_price_basis,
  calculate_close_path_outcome, decimal_of, decimals_of, is_missing,
}
use options_anomaly_scanner.Research.Path.Bracket.{DecimalLaws, close_path_bracketed}
use options_anomaly_scanner.Research.Sample.{
  Candidate, Scan, Context, Texts, Foundation, is_qualifying, build_research_sample_foundation,
}
use options_anomaly_scanner.Research.Sample.Validity.{rows_agree, foundation_eligible}
use options_anomaly_scanner.Prelude.{
  List, All, In, here, there, filter_by, all_by, ◌==◌, if◌then◌else◌,
}
use options_anomaly_scanner.Prelude.Sort.Least.{WeakOrder}
use options_anomaly_scanner.Research.Sample.{canonical_scheduled_production}
use options_anomaly_scanner.Research.Primary.{
  same_window, occurs_before, deterministic_primary_occurrence,
}
use options_anomaly_scanner.Research.Primary.Earliest.{share_window, primary_occurrence-earliest}
use options_anomaly_scanner.Tests.Clock.{market, at}

abbrev daily : Market
daily = record market { is_session = λ day. ltb 0 day }

abbrev calendar : Calendar
calendar = record {
  market = daily;
  previous_session = λ day. day - 1;
  next_session = λ day. day + 1;
  session_before = λ day. day - 1;
  session_after = λ day. day + 1;
}

calendar-CalendarLaws : CalendarLaws 1 calendar
calendar-CalendarLaws = record {
  closes_on_day = λ s h. omega arith;
  day_mono = λ t u h. omega (arith, h);
  previous = λ s session h. (ground (arith, h), omega (arith, h));
  next = λ s session. (ground arith, omega arith);
  before = λ d closed h. (ground (arith, h), omega (arith, h));
  after = λ d closed. (ground arith, omega arith);
}

map_forward_sessions-IsAround_example :
    (plan : ForwardSessionPlan) × (map_forward_sessions calendar false (aware (at 12 0)) ≡ ok plan)
    × IsAround calendar (at 12 0) plan
    × (maturity_state calendar plan.t1_session (aware (at 12 0)) false true true
        ≡ ok not_yet_mature)
    × (maturity_state calendar plan.t3_session (aware (at 12 0)) false true true
        ≡ ok not_yet_mature)
    × (maturity_state calendar plan.t5_session (aware (at 12 0)) false true true
        ≡ ok not_yet_mature)
map_forward_sessions-IsAround_example =
    map_forward_sessions-IsAround 1 calendar calendar-CalendarLaws false false (at 12 0)
      (omega arith)

-- Whole quotients as returns.
abbrev whole : Decimals ℕ ℕ
whole = record {
  lt = λ a b. ltb a b;
  zero_value = 0;
  decimal = λ v. some v;
  return_over = λ r a. a / r;
}

quotient_mono : (r a b : ℕ) → 0 < r → b ≤ a → b / r ≤ a / r
quotient_mono r a b positive h =
    (le-div_iff_mul-le positive).1 (omega (arith, div-mul-le_self b r, h))

whole-DecimalLaws : DecimalLaws whole
whole-DecimalLaws = record {
  lt_irrefl = λ a. ground arith;
  return_mono = λ r a b positive h.
      let le = quotient_mono r a b (ground (arith, positive)) (ground (arith, h)) in
      ground (arith, le);
}

abbrev close : ℕ → ClosePriceEvidence ℕ
close price = record {
  close = some price;
  basis = record { basis_id = some "raw"; corporate_action_status = raw_unadjusted };
}

nothing_missing : any_by is_missing (close 8 ∷ close 4 ∷ []) ≡ false
unfolding any_by
nothing_missing = refl

one_basis : require_consistent_price_basis (close 2) (close 8 ∷ close 4 ∷ []) ≡ ok tt
unfolding require_consistent_price_basis
one_basis = refl

numeric : decimal_of whole 2 ≡ ok 2
unfolding decimal_of
numeric = refl

both_numeric : decimals_of whole (8 ∷ 4 ∷ []) ≡ ok (8 ∷ 4 ∷ [])
unfolding decimals_of
both_numeric = refl

close_path_bracketed_example :
    (m : OutcomeMetrics ℕ) × (calculate_close_path_outcome whole (close 2) (close 8 ∷ close 4 ∷ [])
      ≡ ok (some m))
    × (ltb m.close_return m.max_downside ≡ false)
    × (ltb m.max_upside m.close_return ≡ false)
close_path_bracketed_example =
    close_path_bracketed whole whole-DecimalLaws (close 2) (close 8) (close 4 ∷ []) 2 2 8 (4 ∷ [])
      refl nothing_missing one_basis numeric refl both_numeric

abbrev candidate : Candidate
candidate = record {
  id = 5;
  scan_run_id = 1;
  ticker = "AAPL";
  candidate_first_knowledge_at = aware (at 12 0);
  triggers =
      record {
        id = 7;
        evidence_family = "RADAR_EVENT";
        qualifies_candidate = true;
        present_at_first_knowledge = true;
      }
      ∷ [];
}

abbrev scan : Scan
scan = record { id = 1; trigger = "scheduled_daily" }

abbrev baseline : Context
baseline = record {
  id = 3;
  product_candidate_id = 5;
  evaluation_kind = "FIRST_KNOWLEDGE_BASELINE";
  candidate_first_knowledge_at = aware (at 12 0);
}

abbrev texts : Texts
texts = record { strip_lower = λ t. t; upper = λ t. t; isoformat = λ d. "" }

foundation_eligible_example :
    (f : Foundation) × (build_research_sample_foundation calendar texts
        (λ id. none)
        false
        candidate
        scan
        (some baseline)
      ≡ ok f)
    × (f.primary_research_eligible ≡ (
        rows_agree candidate scan baseline (at 12 0) (at 12 0)
        && any_by is_qualifying candidate.triggers
        && string_eq.beq scan.trigger "scheduled_daily"))
foundation_eligible_example =
    foundation_eligible calendar texts (λ id. none) false candidate scan baseline (at 12 0)
      (at 12 0) refl refl

abbrev sample : ℕ → ℕ → Foundation
sample id time = record {
  product_candidate_id = id;
  frozen_baseline_context_id = some 3;
  scan_run_id = 1;
  ticker = "AAPL";
  candidate_first_knowledge_at = time;
  invalid_reason = none;
  run_origin = canonical_scheduled_production;
  run_origin_source_trigger = "scheduled_daily";
  primary_research_eligible = true;
  sessions = record { reference_session = 9; t1_session = 10; t3_session = 12; t5_session = 14 };
  outcome_window_key = "AAPL" ∷ [];
  cohort = record {
    has_radar = true;
    has_expiry_activity = false;
    has_contract_persistence = false;
    route_composition = some ("RADAR_ONLY" ∷ []);
    qualifying_trigger_count = 1;
    dte_bucket_counts = λ b. 0;
  };
}

abbrev later_first : List Foundation
later_first = sample 1 20 ∷ sample 2 10 ∷ []

number-WeakOrder : WeakOrder ltb
number-WeakOrder = record {
  asym = λ a b h. ground (arith, h);
  ge_trans = λ a b c h k. ground (arith, h, k);
}

number_total : (m n : ℕ) → ltb m n ≡ false → ltb n m ≡ false → m ≡ n
number_total m n h k = ground arith

abbrev earlier_first : List Foundation
earlier_first = sample 2 10 ∷ sample 1 20 ∷ []

-- The identifier of a member tells which it is.
abbrev member : ℕ → Foundation
member n = if n == 1 then sample 1 20 else sample 2 10

member-of_id : (a : Foundation) → In a later_first → a ≡ member a.product_candidate_id
member-of_id a (here e) = rw e refl
member-of_id a (there (here e)) = rw e refl
member-of_id a (there (there m)) = elim m [ ]

later_distinct :
    (a b : Foundation)
    → In a later_first
    → In b later_first
    → a.product_candidate_id ≡ b.product_candidate_id
    → a ≡ b
later_distinct a b ma mb e = cc (member-of_id a ma, member-of_id b mb, e)

swapped : {A : Type 0} (x y z : A) → In z (x ∷ y ∷ []) → In z (y ∷ x ∷ [])
swapped x y z (here e) = there (here e)
swapped x y z (there (here e)) = here e
swapped x y z (there (there m)) = elim m [ ]

one_window : share_window (filter_by (λ r. r.primary_research_eligible) later_first) ≡ true
unfolding filter_by share_window same_window all_by
one_window = refl

primary_occurrence-earliest_example :
    (best : Foundation) × (deterministic_primary_occurrence ltb later_first ≡ ok (some best))
    × (deterministic_primary_occurrence ltb earlier_first ≡ ok (some best))
    × In best later_first
    × (best.primary_research_eligible ≡ true)
    × All
        (λ r. occurs_before ltb r best ≡ false)
        (filter_by (λ r. r.primary_research_eligible) later_first)
primary_occurrence-earliest_example =
    primary_occurrence-earliest ltb number-WeakOrder number_total later_first earlier_first
      (sample 1 20) later_distinct (λ x. (swapped _ _ x, swapped _ _ x)) (here refl) refl one_window

earlier_chosen : deterministic_primary_occurrence ltb later_first ≡ ok (some (sample 2 10))
unfolding deterministic_primary_occurrence
earlier_chosen = refl
