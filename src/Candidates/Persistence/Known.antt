-- ===== src/Candidates/Persistence/Known.antt =====
-- What the candidates of backend/app/scanner/candidate_persistence.py stand on.
use Prim.Native.String.{String}
use mathlib.Core.Path.{subst}
use options_anomaly_scanner.Prelude.{ℕ, suc, ◌≡◌, refl, true, not, List, [], ◌∷◌, any_by, All}
use options_anomaly_scanner.Prelude.Eq.{string_eq, nat_eq}
use options_anomaly_scanner.Prelude.Result.{Result, ok}
use options_anomaly_scanner.Prelude.Result.Bind.{ok-injective, bind-ok, raise_if-ok}
use options_anomaly_scanner.Candidates.{is_active_family}
use options_anomaly_scanner.Candidates.Grouping.{CandidateItem}
use options_anomaly_scanner.Candidates.Triggers.{Library, materialize_triggers}
use options_anomaly_scanner.Candidates.Triggers.Known.{
  IsKnownBy, AllDistinct, materialize_triggers-IsKnownBy,
}
use options_anomaly_scanner.Candidates.Persistence.{
  ProductCandidate, Store, candidate_of, new_candidate, is_taken, persist_items, set_once,
  persist_candidate_projection, materialization_rule_version,
}

-- A candidate whose first knowledge is the cutoff, and whose triggers are of active families, stand
-- on what was known by then, and are of different sources.
pub record StandsOnKnown {J : Type 0} (cutoff : ℕ) (c : ProductCandidate J) : Type 0 where
  pub first : c.candidate_first_knowledge_at ≡ cutoff
  pub known : All (IsKnownBy cutoff) c.triggers
  pub distinct : AllDistinct c.triggers
  pub active : All (λ t. is_active_family t.evidence_family ≡ true) c.triggers

module _ {J : Type 0} (lib : Library) (run_id cutoff : ℕ) (rule_hash : String) where
  candidate_of-StandsOnKnown :
      (id : ℕ) (item : CandidateItem J) (rows : List (ProductCandidate J)) (c : ProductCandidate J)
      → candidate_of lib id run_id cutoff rule_hash item rows ≡ ok c
      → StandsOnKnown cutoff c
  unfolding candidate_of
  candidate_of-StandsOnKnown id item rows c h =
      let (qualified, h1) = raise_if-ok (not (any_by (λ a. a.qualifies) item.anomalies)) _ _ h in
      let (free, h2) =
        raise_if-ok (is_taken (new_candidate id run_id cutoff rule_hash item.ticker) rows) _ _ h1 in
      let (triggers, made, h3) =
        bind-ok (materialize_triggers lib id cutoff rule_hash item.anomalies) _ h2 in
      let (known, distinct, active) =
        materialize_triggers-IsKnownBy lib id cutoff rule_hash item.anomalies triggers made in
      subst (λ d. StandsOnKnown cutoff d) (ok-injective h3)
        (record { first = refl; known = known; distinct = distinct; active = active })

  persist_items-StandsOnKnown :
      (new_ids : ℕ → ℕ) (items : List (CandidateItem J))
      (rows candidates rows' : List (ProductCandidate J))
      → ◌≡◌ {A = Result (List (ProductCandidate J) × List (ProductCandidate J))}
          (persist_items lib new_ids run_id cutoff rule_hash items rows)
          (ok (candidates, rows'))
      → All (StandsOnKnown cutoff) candidates
  unfolding persist_items
  persist_items-StandsOnKnown new_ids [] rows candidates rows' h =
      subst
        (λ (p : List (ProductCandidate J) × List (ProductCandidate J)).
          All (StandsOnKnown cutoff) p.0)
        (ok-injective h) tt
  persist_items-StandsOnKnown new_ids (item ∷ rest) rows candidates rows' h =
      let (c, e1, h1) =
        bind-ok (candidate_of lib (new_ids 0) run_id cutoff rule_hash item rows) _ h in
      let ((later, out), e2, h2) =
        bind-ok (persist_items lib (λ n. new_ids (suc n)) run_id cutoff rule_hash rest (c ∷ rows)) _
          h1 in
      subst
        (λ (p : List (ProductCandidate J) × List (ProductCandidate J)).
          All (StandsOnKnown cutoff) p.0)
        (ok-injective h2)
        (
          candidate_of-StandsOnKnown (new_ids 0) item rows c e1,
          persist_items-StandsOnKnown (λ n. new_ids (suc n)) rest (c ∷ rows) later out e2,
        )

-- Every candidate that is persisted at a cutoff has its first knowledge at the cutoff, and its
-- triggers are of active families, stand on no knowledge, receipt or capture after the cutoff, and
-- are pairwise of different families or source evidence: no later evidence leaks into it.
pub persist_projection-StandsOnKnown :
    {S J : Type 0} (lib : Library) (new_ids : ℕ → ℕ) (cutoff : ℕ) (rule_hash : String)
    (items : List (CandidateItem J)) (store store' : Store S J)
    (candidates : List (ProductCandidate J))
    → persist_candidate_projection lib new_ids cutoff rule_hash items store
      ≡ ok (candidates, store')
    → All (StandsOnKnown cutoff) candidates
unfolding persist_candidate_projection
persist_projection-StandsOnKnown {S} {J} lib new_ids cutoff rule_hash items store store' candidates
      h =
    let run = store.run in
    let ((made, rows), e1, h1) =
      bind-ok (persist_items lib new_ids run.id cutoff rule_hash items store.candidates) _ h in
    let (at, e0, h0) = bind-ok (set_once nat_eq run.candidate_materialized_at cutoff) _ h1 in
    let (version, e2, h2) =
      bind-ok
        (set_once string_eq run.candidate_materialization_rule_version materialization_rule_version)
        _ h0 in
    let (hash, e3, h3) =
      bind-ok (set_once string_eq run.candidate_materialization_rule_hash rule_hash) _ h2 in
    subst (λ (p : List (ProductCandidate J) × Store S J). All (StandsOnKnown cutoff) p.0)
      (ok-injective h3)
      (persist_items-StandsOnKnown lib run.id cutoff rule_hash new_ids items store.candidates made
        rows e1)
