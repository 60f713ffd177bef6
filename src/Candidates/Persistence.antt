-- ===== src/Candidates/Persistence.antt =====
-- The candidates of a successful scan, from backend/app/scanner/candidate_persistence.py: their
-- materialization once, and its verified replay.
pub mod Rows
pub mod Known
pub mod Replay
use Prim.Native.String.{String}
use options_anomaly_scanner.Prelude.{
  ℕ, suc, Bool, true, false, not, ◌&&◌, ◌||◌, Option, none, some, List, [], ◌∷◌, ◌++◌, ltb, ◌==◌,
  length, if◌then◌else◌, filter_by, any_by, all_by,
}
use options_anomaly_scanner.Prelude.Eq.{Eq, string_eq, nat_eq}
use options_anomaly_scanner.Prelude.Result.{Result, ok, err, raised, raise_if, ◌>>=◌, ◌>>◌}
use options_anomaly_scanner.Prelude.Sort.{sort_by}
use options_anomaly_scanner.Time.{DateTime, ensure_utc}
use options_anomaly_scanner.Candidates.{Anomaly}
use options_anomaly_scanner.Candidates.Grouping.{CandidateItem}
use options_anomaly_scanner.Candidates.Triggers.{Library, Trigger, materialize_triggers}

abbrev pub materialization_rule_version : String
materialization_rule_version = "phase2a_vnext_stage4b.product-candidate-materialization.v1"

-- ProductCandidate, whose lifecycle state is always MATERIALIZED, with its triggers.
pub record ProductCandidate (J : Type 0) : Type 0 where
  pub id : ℕ
  pub scan_run_id : ℕ
  pub ticker : String
  pub candidate_first_knowledge_at : ℕ
  pub materialization_rule_version : String
  pub materialization_rule_hash : String
  pub created_at : ℕ
  pub triggers : List (Trigger J)

-- What the materialization reads of a ScanRun, and its marker; S is the configuration snapshot.
pub record ScanRun (S : Type 0) : Type 0 where
  pub id : ℕ
  pub is_complete : Bool
  pub completed_at : Option DateTime
  pub specification_version : Option String
  pub configuration_snapshot : S
  pub candidate_materialized_at : Option ℕ
  pub candidate_materialization_rule_version : Option String
  pub candidate_materialization_rule_hash : Option String

-- The run and the rows of candidates.
pub record Store (S J : Type 0) : Type 0 where
  pub run : ScanRun S
  pub candidates : List (ProductCandidate J)

abbrev is_text : Option String → String → Bool
is_text none t = false
is_text (some s) t = string_eq.beq s t

module _ {A : Type 0} (e : Eq A) where
  abbrev is_other : Option A → A → Bool
  is_other none new = false
  is_other (some old) new = not (e.beq old new)

  -- The validator of the marker's three columns: a value that is set cannot change.
  abbrev set_once : Option A → A → Result (Option A)
  set_once old new = do
    raise_if (is_other old new) (raised "ScanRun marker is immutable once established")
    ok (some new)

abbrev pub completed_utc : Option DateTime → Result (Option ℕ)
completed_utc none = ok none
completed_utc (some d) = do t ← ensure_utc d; ok (some t)

abbrev pub is_time : Option ℕ → ℕ → Bool
is_time none t = false
is_time (some s) t = s == t

abbrev is_missing : Option String → Bool
is_missing none = true
is_missing (some t) = false

module _ {J : Type 0} (text_lt : String → String → Bool) where
  -- order_by(ticker, id)
  abbrev pub candidate_lt : ProductCandidate J → ProductCandidate J → Bool
  candidate_lt a b = text_lt a.ticker b.ticker || (string_eq.beq a.ticker b.ticker && ltb a.id b.id)

  unfoldable pub load_product_candidates_for_scan :
      ℕ → List (ProductCandidate J) → List (ProductCandidate J)
  unfolding sort_by filter_by
  load_product_candidates_for_scan run_id rows =
      sort_by candidate_lt (filter_by (λ c. c.scan_run_id == run_id) rows)

module _ {J : Type 0} where
  -- The unique constraint uq_product_candidate_occurrence.
  is_taken : ProductCandidate J → List (ProductCandidate J) → Bool
  unfolding any_by
  is_taken new rows =
      any_by
        (λ c.
          (c.scan_run_id == new.scan_run_id)
          && string_eq.beq c.ticker new.ticker
          && string_eq.beq c.materialization_rule_version new.materialization_rule_version)
        rows

  abbrev new_candidate : (new_id run_id cutoff : ℕ) → String → String → ProductCandidate J
  new_candidate new_id run_id cutoff rule_hash ticker = record {
    id = new_id;
    scan_run_id = run_id;
    ticker = ticker;
    candidate_first_knowledge_at = cutoff;
    materialization_rule_version = materialization_rule_version;
    materialization_rule_hash = rule_hash;
    created_at = cutoff;
    triggers = [];
  }

  abbrev is_authentic : ℕ → String → ProductCandidate J → Bool
  is_authentic materialized_at rule_hash c =
      (c.candidate_first_knowledge_at == materialized_at)
      && string_eq.beq c.materialization_rule_version materialization_rule_version
      && string_eq.beq c.materialization_rule_hash rule_hash

module _ {J : Type 0} (lib : Library) where
  -- One item of the projection: the new row before its triggers, and then with them.
  unfoldable pub candidate_of :
      (new_id run_id cutoff : ℕ)
      → String
      → CandidateItem J
      → List (ProductCandidate J)
      → Result (ProductCandidate J)
  unfolding is_taken materialize_triggers any_by
  candidate_of new_id run_id cutoff rule_hash item rows =
      let candidate = new_candidate new_id run_id cutoff rule_hash item.ticker in
      do
        raise_if (not (any_by (λ a. a.qualifies) item.anomalies))
            (raised "A ProductCandidate requires a qualifying active trigger")
        raise_if (is_taken candidate rows) (raised "IntegrityError")
        triggers ← materialize_triggers lib new_id cutoff rule_hash item.anomalies
        ok (record candidate { triggers = triggers })

  -- The loop: `new_ids n` is the identifier that uuid4 gives to the n-th candidate from here on.
  unfoldable pub persist_items :
      (new_ids : ℕ → ℕ) (run_id cutoff : ℕ)
      → String
      → List (CandidateItem J)
      → List (ProductCandidate J)
      → Result (List (ProductCandidate J) × List (ProductCandidate J))
  unfolding candidate_of
  persist_items new_ids run_id cutoff rule_hash [] rows = ok ([], rows)
  persist_items new_ids run_id cutoff rule_hash (item ∷ rest) rows = do
    candidate ← candidate_of (new_ids 0) run_id cutoff rule_hash item rows
    (later, rows') ←
        persist_items (λ n. new_ids (suc n)) run_id cutoff rule_hash rest (candidate ∷ rows)
    ok (candidate ∷ later, rows')

module _ {S J : Type 0} where
  -- persist_candidate_projection, with the marker of the run at its end.
  unfoldable pub persist_candidate_projection :
      Library
      → (ℕ → ℕ)
      → (cutoff : ℕ) → String
      → List (CandidateItem J)
      → Store S J
      → Result (List (ProductCandidate J) × Store S J)
  unfolding persist_items
  persist_candidate_projection lib new_ids cutoff rule_hash items store = do
    (candidates, rows) ←
        persist_items lib new_ids store.run.id cutoff rule_hash items store.candidates
    at ← set_once nat_eq store.run.candidate_materialized_at cutoff
    version ←
        set_once string_eq store.run.candidate_materialization_rule_version
          materialization_rule_version
    hash ← set_once string_eq store.run.candidate_materialization_rule_hash rule_hash
    ok (
      candidates,
      record {
        run = record store.run {
          candidate_materialized_at = at;
          candidate_materialization_rule_version = version;
          candidate_materialization_rule_hash = hash;
        };
        candidates = rows;
      },
    )

  -- _load_verified_replay of a run that was materialized at a time
  unfoldable pub load_verified_replay :
      (String → String → Bool) → ℕ → String → Store S J → Result (List (ProductCandidate J))
  unfolding load_product_candidates_for_scan all_by
  load_verified_replay text_lt materialized_at rule_hash store =
      let run = store.run in
      let candidates = load_product_candidates_for_scan text_lt run.id store.candidates in
      do
        raise_if
            (is_missing run.candidate_materialization_rule_version
              || is_missing run.candidate_materialization_rule_hash)
            (raised "Incomplete candidate materialization marker")
        raise_if
            (not (is_text run.candidate_materialization_rule_version materialization_rule_version))
            (raised "Candidate occurrence was materialized under a different rule version")
        raise_if (not (is_text run.candidate_materialization_rule_hash rule_hash))
            (raised "Candidate occurrence rule provenance conflicts with replay")
        raise_if (not (all_by (is_authentic materialized_at rule_hash) candidates))
            (raised "Persisted candidate identity conflicts with scan occurrence")
        ok candidates

-- `rule_hash_of` is materialization_rule_hash, a digest of the specification and the configuration,
-- and `projection` is what load_stage4_candidate_projection finds at the cutoff.
module _ {S J : Type 0} (lib : Library) (text_lt : String → String → Bool)
    (rule_hash_of : Option String → S → String)
    (projection : ScanRun S → ℕ → List (CandidateItem J)) where
  unfoldable pub materialize_once :
      (ℕ → ℕ)
      → (cutoff : ℕ) → String
      → Option ℕ
      → Store S J
      → Result (List (ProductCandidate J) × Store S J)
  unfolding load_verified_replay load_product_candidates_for_scan persist_candidate_projection
  materialize_once new_ids cutoff rule_hash (some at) store = do
    candidates ← load_verified_replay text_lt at rule_hash store
    ok (candidates, store)
  materialize_once new_ids cutoff rule_hash none store = do
    raise_if
        (not (length (load_product_candidates_for_scan text_lt store.run.id store.candidates) == 0))
        (raised "Candidate rows exist without an authoritative materialization marker")
    persist_candidate_projection lib new_ids cutoff rule_hash (projection store.run cutoff) store

  unfoldable pub materialize_successful_scan_candidates :
      (ℕ → ℕ) → DateTime → Store S J → Result (List (ProductCandidate J) × Store S J)
  unfolding materialize_once ensure_utc
  materialize_successful_scan_candidates new_ids materialized_at store =
      let run = store.run in
      if not run.is_complete then ok ([], store) else do
        cutoff ← ensure_utc materialized_at
        completed ← completed_utc run.completed_at
        raise_if (not (is_time completed cutoff))
            (raised "Candidate materialization cutoff must be the successful scan cutoff")
        materialize_once new_ids cutoff
            (rule_hash_of run.specification_version run.configuration_snapshot)
            run.candidate_materialized_at store
