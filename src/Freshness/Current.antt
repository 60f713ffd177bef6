-- ===== src/Freshness/Current.antt =====
-- The policy and the selection of current observations of backend/app/scanner/vnext.py.
use Prim.Native.String.{String}
use options_anomaly_scanner.Prelude.{
  ℕ, ◌+◌, ◌≤◌, ◌≡◌, ◌↔◌, Bool, true, false, not, ◌&&◌, Option, none, some, List, [], ◌∷◌, arith,
  if◌then◌else◌, any_by, find_by, count_by, ◌⊎◌, In, here, there, In-cons, In-nil, and_left,
  and_right, Bool-cases, inl, inr, Option-cases,
}
use options_anomaly_scanner.Prelude.Eq.{string_eq}
use options_anomaly_scanner.Time.{Market}
use options_anomaly_scanner.Freshness.{
  PersistenceFreshnessPolicy, PersistenceObservation, current, future_evidence_rejected, assess,
  persistence_observation_is_time_admissible, freshness_of, select_from,
  select_current_persistence_observations,
}

-- A known last date, not after the analysis date and at most `limit` days before it.
abbrev pub IsFresh : Option ℕ → Option ℕ → ℕ → Type 0
IsFresh none window_last analysis_date = ⊥
IsFresh (some limit) none analysis_date = ⊥
IsFresh (some limit) (some last) analysis_date =
    (last ≤ analysis_date) × (analysis_date ≤ last + limit)

abbrev pub IsAfter : Option ℕ → ℕ → Type 0
IsAfter none analysis_date = ⊥
IsAfter (some last) analysis_date = analysis_date + 1 ≤ last

-- An assessment is eligible exactly when an age limit is configured and the last observation date
-- is known, not in the future and within the limit; its state is CURRENT exactly then. A date
-- after the analysis date is rejected as future evidence whatever the configuration.
pub assess-IsFresh :
    (policy : PersistenceFreshnessPolicy) (last : Option ℕ) (analysis : ℕ)
    → (((assess policy last analysis).eligible ≡ true)
        ↔ IsFresh policy.max_vendor_observation_age_days last analysis)
      × (((assess policy last analysis).state ≡ current)
          ↔ ((assess policy last analysis).eligible ≡ true))
      × (((assess policy last analysis).state ≡ future_evidence_rejected) ↔ IsAfter last analysis)
unfolding assess
assess-IsFresh policy none analysis = elim (Option-cases policy.max_vendor_observation_age_days) [
  | inl e ↦ rw e (ground arith)
  | inr (l, e) ↦ rw e (ground arith)
]
assess-IsFresh policy (some last) analysis =
    elim (Option-cases policy.max_vendor_observation_age_days) [
      | inl e ↦ rw e (ground arith)
      | inr (l, e) ↦ rw e (ground arith)
    ]

module _ (m : Market) (date_fromisoformat : String → Option ℕ) (policy : PersistenceFreshnessPolicy)
    (analysis : ℕ) where
  -- Both guards that stand before a contract's identity is consumed.
  abbrev pub is_current : PersistenceObservation → Bool
  is_current row =
      persistence_observation_is_time_admissible m row analysis
      && (freshness_of m date_fromisoformat policy analysis row).eligible

  abbrev pub has_symbol : String → PersistenceObservation → Bool
  has_symbol k row = elim row.contract_symbol [
    | none ↦ false
    | some symbol ↦ string_eq.beq symbol k
  ]

  abbrev seen_by : String → List String → Bool
  seen_by k seen = any_by (λ s. string_eq.beq s k) seen

  select_from_newest :
      (k : String) (seen : List String) (rows : List PersistenceObservation)
      → find_by (has_symbol k) (select_from m date_fromisoformat policy analysis seen rows) ≡ (
          if any_by (string_eq.beq k) seen
          then none
          else find_by (λ row. is_current row && has_symbol k row) rows)
  unfolding select_from find_by any_by
  select_from_newest k seen [] = ground arith
  select_from_newest k seen (row ∷ rows) = elim (Option-cases row.contract_symbol) [
    | inl e ↦ rw e (ground (arith, select_from_newest k seen rows))
    | inr (s, e) ↦ rw e (
        ground (
          arith,
          string_eq.beq_iff s k,
          string_eq.beq_iff k s,
          select_from_newest k seen rows,
          select_from_newest k (s ∷ seen) rows,
        ))
  ]

  select_from_distinct :
      (k : String) (seen : List String) (rows : List PersistenceObservation)
      → count_by (has_symbol k) (select_from m date_fromisoformat policy analysis seen rows)
        ≤ (if any_by (string_eq.beq k) seen then 0 else 1)
  unfolding select_from count_by any_by
  select_from_distinct k seen [] = ground arith
  select_from_distinct k seen (row ∷ rows) = elim (Option-cases row.contract_symbol) [
    | inl e ↦ rw e (ground (arith, select_from_distinct k seen rows))
    | inr (s, e) ↦ rw e (
        ground (
          arith,
          string_eq.beq_iff s k,
          string_eq.beq_iff k s,
          select_from_distinct k seen rows,
          select_from_distinct k (s ∷ seen) rows,
        ))
  ]

  -- A row is passed over, or it is current and stands before what the rest gives.
  select_from_step :
      (seen : List String) (row : PersistenceObservation) (rows : List PersistenceObservation)
      → (select_from m date_fromisoformat policy analysis seen (row ∷ rows)
          ≡ select_from m date_fromisoformat policy analysis seen rows)
        ⊎ ((s : String) × (select_from m date_fromisoformat policy analysis seen (row ∷ rows)
              ≡ row ∷ select_from m date_fromisoformat policy analysis (s ∷ seen) rows)
            × (is_current row ≡ true))
  unfolding select_from
  select_from_step seen row rows = elim (Option-cases row.contract_symbol) [
    | inl e ↦ inl (rw e (ground arith))
    | inr (s, e) ↦ elim (Bool-cases (is_current row && not (any_by (string_eq.beq s) seen))) [
      | inl fits ↦ inr (s, rw e (ground arith), ground arith)
      | inr fails ↦ inl (rw e (ground arith))
    ]
  ]

  In-select_from :
      {a : PersistenceObservation} (seen : List String) (rows : List PersistenceObservation)
      → In a (select_from m date_fromisoformat policy analysis seen rows)
      → In a rows × (is_current a ≡ true)
  In-select_from seen [] h = unfold select_from in absurd (In-nil h)
  In-select_from {a} seen (row ∷ rows) h = elim (select_from_step seen row rows) [
    | inl e ↦
        let h' : In a (select_from m date_fromisoformat policy analysis seen rows) = rw e at h in
        let r = In-select_from seen rows h' in (there r.0, r.1)
    | inr (s, e, now) ↦
        let h' : In a (row ∷ select_from m date_fromisoformat policy analysis (s ∷ seen) rows) =
          rw e at h in
        elim (In-cons h') [
          | inl q ↦ (here q, rw q now)
          | inr l ↦ let r = In-select_from (s ∷ seen) rows l in (there r.0, r.1)
        ]
  ]

  abbrev selection : List PersistenceObservation → List PersistenceObservation
  selection = select_current_persistence_observations m date_fromisoformat policy analysis

  -- Of each contract the selection holds exactly the first observation, which is the newest where
  -- they come newest first, that is admissible at the analysis date and fresh, and it holds none
  -- where there is no such observation: a future or stale row hides no older one.
  pub selection_newest :
      (k : String) (rows : List PersistenceObservation)
      → (find_by (has_symbol k) (selection rows)
          ≡ find_by (λ row. is_current row && has_symbol k row) rows)
        × (count_by (has_symbol k) (selection rows) ≤ 1)
  unfolding select_current_persistence_observations
  selection_newest k rows = (
    unfold any_by in select_from_newest k [] rows,
    unfold any_by in select_from_distinct k [] rows,
  )

  -- Whatever is selected was offered, is fresh, and was observed before midnight in New York at
  -- the end of the analysis date: no observation from the future is used.
  pub selection_sound :
      (a : PersistenceObservation) (rows : List PersistenceObservation)
      → In a (selection rows)
      → In a rows
        × (persistence_observation_is_time_admissible m a analysis ≡ true)
        × ((freshness_of m date_fromisoformat policy analysis a).eligible ≡ true)
  unfolding select_current_persistence_observations
  selection_sound a rows h =
      let r = In-select_from [] rows h in (r.0, and_left _ _ r.1, and_right _ _ r.1)
