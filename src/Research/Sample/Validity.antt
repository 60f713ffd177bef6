-- ===== src/Research/Sample/Validity.antt =====
-- The eligibility of a sample of backend/app/research/forward_outcome.py.
use Prim.Native.String.{String}
use options_anomaly_scanner.Prelude.{
  ℕ, ◌≡◌, refl, inl, inr, Bool, not, ◌&&◌, Option, none, some, ◌==◌, arith, length, filter_by,
  any_by, any_by-filter_by, Bool-cases,
}
use options_anomaly_scanner.Prelude.Eq.{string_eq}
use options_anomaly_scanner.Prelude.Result.{ok}
use options_anomaly_scanner.Time.{aware, ensure_utc}
use options_anomaly_scanner.Research.Sessions.{Calendar, map_forward_sessions, sessions_of}
use options_anomaly_scanner.Research.Sample.{
  origin_of_key, is_canonical, Candidate, Scan, Context, DteValue, Texts, Foundation, InvalidReason,
  is_qualifying, cohort_metadata, compare_times, baseline_reason, sample_invalid_reason,
  with_cohort, is_valid, foundation_of, build_research_sample_foundation,
}

canonical_key :
    (key : String) → is_canonical (origin_of_key key) ≡ string_eq.beq key "scheduled_daily"
unfolding origin_of_key
canonical_key key = ground arith

-- The conditions on the rows of a sample with a baseline, whose times are u and t.
abbrev pub rows_agree : Candidate → Scan → Context → (u t : ℕ) → Bool
rows_agree candidate scan baseline u t =
    (candidate.scan_run_id == scan.id)
    && (baseline.product_candidate_id == candidate.id)
    && string_eq.beq baseline.evaluation_kind "FIRST_KNOWLEDGE_BASELINE"
    && (u == t)

reason-rows_agree :
    (candidate : Candidate) (scan : Scan) (baseline : Context) (t u : ℕ)
    → candidate.candidate_first_knowledge_at ≡ aware t
    → baseline.candidate_first_knowledge_at ≡ aware u
    → (reason : Option InvalidReason) × (sample_invalid_reason candidate scan (some baseline)
        ≡ ok reason)
      × (is_valid reason ≡ rows_agree candidate scan baseline u t)
unfolding sample_invalid_reason baseline_reason compare_times ensure_utc
reason-rows_agree candidate scan baseline t u at_t at_u =
    elim (Bool-cases (candidate.scan_run_id == scan.id)) [
      | inr other ↦ rw other (_, refl, refl)
      | inl same ↦ elim (Bool-cases (baseline.product_candidate_id == candidate.id)) [
        | inr other ↦ rw (same, other) (_, refl, refl)
        | inl own ↦
            elim (Bool-cases (string_eq.beq baseline.evaluation_kind "FIRST_KNOWLEDGE_BASELINE")) [
              | inr other ↦ rw (same, own, other) (_, refl, refl)
              | inl kind ↦ elim (Bool-cases (u == t)) [
                | inr other ↦ rw (same, own, kind, at_t, at_u, other) (_, refl, refl)
                | inl equal ↦ rw (same, own, kind, at_t, at_u, equal) (_, refl, refl)
              ]
            ]
      ]
    ]

valid-with_cohort :
    (reason : Option InvalidReason) (count : ℕ)
    → is_valid (with_cohort reason count) ≡ (is_valid reason && not (count == 0))
valid-with_cohort (some r) count = refl
valid-with_cohort none count = ground arith

module _ (calendar : Calendar) (texts : Texts) (dte_of : ℕ → Option DteValue) where
  -- For a candidate and a baseline with aware times, the foundation is built, and its sample is
  -- eligible for primary research exactly where the scan is the candidate's, the baseline is the
  -- first-knowledge baseline of the candidate at the candidate's time, some trigger qualifies and
  -- was present at first knowledge, and the scan's trigger is the scheduled daily one.
  pub foundation_eligible :
      (same_day : Bool) (candidate : Candidate) (scan : Scan) (baseline : Context) (t u : ℕ)
      → candidate.candidate_first_knowledge_at ≡ aware t
      → baseline.candidate_first_knowledge_at ≡ aware u
      → (f : Foundation) × (build_research_sample_foundation calendar texts dte_of same_day
            candidate scan
            (some baseline)
          ≡ ok f)
        × (f.primary_research_eligible ≡ (
            rows_agree candidate scan baseline u t
            && any_by is_qualifying candidate.triggers
            && string_eq.beq (texts.strip_lower scan.trigger) "scheduled_daily"))
  unfolding build_research_sample_foundation map_forward_sessions foundation_of cohort_metadata
      ensure_utc
  foundation_eligible same_day candidate scan baseline t u at_t at_u =
      let (reason, found, agrees) = reason-rows_agree candidate scan baseline t u at_t at_u in
      let count = length (filter_by is_qualifying candidate.triggers) in
      (
        foundation_of calendar texts dte_of candidate scan (some baseline) reason
            (sessions_of calendar same_day t (calendar.market.local_day t)) t,
        rw (found, at_t) refl,
        ground (
          arith,
          agrees,
          valid-with_cohort reason count,
          any_by-filter_by is_qualifying candidate.triggers,
          canonical_key (texts.strip_lower scan.trigger),
        ),
      )
