-- ===== src/Candidates/Persistence/Replay.antt =====
-- The replay of a materialization of backend/app/scanner/candidate_persistence.py.
use Prim.Native.String.{String}
use mathlib.Core.Path.{subst}
use mathlib.Core.Bool.{true≢false}
use options_anomaly_scanner.Prelude.{
  ℕ, ◌≡◌, refl, sym, ap, ◌∙◌, ◌↔◌, inl, inr, Bool, true, false, not, ◌||◌, Option, none, some, List,
  [], ◌∷◌, ◌==◌, arith, if◌then◌else◌, length, all_by, In, In-nil, In-filter_by, filter_by-In,
  and_right,
}
use options_anomaly_scanner.Prelude.Eq.{Eq, string_eq, nat_eq, beq_refl}
use options_anomaly_scanner.Prelude.Result.{Result, ok}
use options_anomaly_scanner.Prelude.Result.Bind.{ok-injective, bind-ok, raise_if-ok}
use options_anomaly_scanner.Prelude.Sort.{In-sort_by, sort_by-In}
use options_anomaly_scanner.Time.{DateTime, ensure_utc}
use options_anomaly_scanner.Candidates.Grouping.{CandidateItem}
use options_anomaly_scanner.Candidates.Triggers.{Library}
use options_anomaly_scanner.Candidates.Persistence.{
  ProductCandidate, ScanRun, Store, materialization_rule_version, candidate_lt, is_authentic,
  load_product_candidates_for_scan, persist_items, persist_candidate_projection,
  load_verified_replay, materialize_once, completed_utc, is_time,
  materialize_successful_scan_candidates, is_text, is_missing, set_once, is_other,
}
use options_anomaly_scanner.Candidates.Persistence.Rows.{
  all_by-of_In, IsPersisted, persist_items-IsPersisted,
}

if_not-skips {ℓ} :
    {A : Type ℓ} (b : Bool) (x y : A) {z : A} → b ≡ true → (if not b then x else y) ≡ z → y ≡ z
if_not-skips true x y e h = h
if_not-skips false x y e h = absurd (true≢false (sym e))

empty-In : {A : Type 0} (xs : List A) → (length xs == 0) ≡ true → (a : A) → ¬ In a xs
empty-In [] e a m = In-nil m
empty-In (x ∷ xs) e a m = ground (arith, e)

module _ {J : Type 0} (lib : Library) (text_lt : String → String → Bool) where
  load-In :
      (run_id : ℕ) (rows : List (ProductCandidate J)) (c : ProductCandidate J)
      → In c (load_product_candidates_for_scan text_lt run_id rows)
      → In c rows × ((c.scan_run_id == run_id) ≡ true)
  unfolding load_product_candidates_for_scan
  load-In run_id rows c m =
      In-filter_by (λ d. d.scan_run_id == run_id) rows (In-sort_by (candidate_lt text_lt) _ m)

  In-load :
      (run_id : ℕ) (rows : List (ProductCandidate J)) (c : ProductCandidate J)
      → In c rows
      → (c.scan_run_id == run_id) ≡ true
      → In c (load_product_candidates_for_scan text_lt run_id rows)
  unfolding load_product_candidates_for_scan
  In-load run_id rows c m e =
      sort_by-In (candidate_lt text_lt) _ (filter_by-In (λ d. d.scan_run_id == run_id) rows m e)

  -- Where there were none, the rows of the run are those of the loop.
  load-persisted :
      (run_id cutoff : ℕ) (rule_hash : String) (candidates rows rows' : List (ProductCandidate J))
      (c : ProductCandidate J)
      → (length (load_product_candidates_for_scan text_lt run_id rows) == 0) ≡ true
      → IsPersisted lib run_id cutoff rule_hash candidates rows rows'
      → In c (load_product_candidates_for_scan text_lt run_id rows') ↔ In c candidates
  load-persisted run_id cutoff rule_hash candidates rows rows' c none_before h = (
    λ m.
        let (there_now, mine) = load-In run_id rows' c m in
        elim (h.only c there_now) [
          | inl new ↦ new
          | inr old ↦ absurd (empty-In _ none_before c (In-load run_id rows c old mine))
        ],
    λ m. In-load run_id rows' c (h.added c m) (ground (arith, h.own c m)),
  )

set_once-some :
    {A : Type 0} (e : Eq A) (old : Option A) (new : A) (v : Option A)
    → set_once e old new ≡ ok v
    → v ≡ some new
set_once-some e old new v h =
    let (same, h1) = raise_if-ok (is_other e old new) _ _ h in sym (ok-injective h1)

module _ {S J : Type 0} (text_lt : String → String → Bool) where
  -- A marker under the rule, and authentic rows, are a verified replay.
  verified :
      (at : ℕ) (rule_hash : String) (store : Store S J)
      → store.run.candidate_materialization_rule_version ≡ some materialization_rule_version
      → store.run.candidate_materialization_rule_hash ≡ some rule_hash
      → all_by
          (is_authentic at rule_hash)
          (load_product_candidates_for_scan text_lt store.run.id store.candidates)
        ≡ true
      → load_verified_replay text_lt at rule_hash store
        ≡ ok (load_product_candidates_for_scan text_lt store.run.id store.candidates)
  unfolding load_verified_replay
  verified at rule_hash store version hash authentic =
      rw (version, hash, beq_refl string_eq rule_hash, authentic) refl

  load_verified_replay-loads :
      (at : ℕ) (rule_hash : String) (store : Store S J) (candidates : List (ProductCandidate J))
      → load_verified_replay text_lt at rule_hash store ≡ ok candidates
      → load_product_candidates_for_scan text_lt store.run.id store.candidates ≡ candidates
  unfolding load_verified_replay
  load_verified_replay-loads at rule_hash store candidates h =
      let run = store.run in
      let version = run.candidate_materialization_rule_version in
      let hash = run.candidate_materialization_rule_hash in
      let rows = load_product_candidates_for_scan text_lt run.id store.candidates in
      let (p1, h1) = raise_if-ok (is_missing version || is_missing hash) _ _ h in
      let (p2, h2) = raise_if-ok (not (is_text version materialization_rule_version)) _ _ h1 in
      let (p3, h3) = raise_if-ok (not (is_text hash rule_hash)) _ _ h2 in
      let (p4, h4) = raise_if-ok (not (all_by (is_authentic at rule_hash) rows)) _ _ h3 in
      ok-injective h4

module _ {S J : Type 0} (lib : Library) (text_lt : String → String → Bool)
    (rule_hash_of : Option String → S → String)
    (later_projection : ScanRun S → ℕ → List (CandidateItem J)) (later_ids : ℕ → ℕ)
    (at : DateTime) where
  -- The second materialization, of what the first one left: its rows, and no change.
  IsReplayed : List (ProductCandidate J) × Store S J → Type 0
  IsReplayed (candidates, store) =
      let rows = load_product_candidates_for_scan text_lt store.run.id store.candidates in
      ◌≡◌ {A = Result (List (ProductCandidate J) × Store S J)}
        (materialize_successful_scan_candidates lib text_lt rule_hash_of later_projection later_ids
          at store)
        (ok (rows, store))
      × ((c : ProductCandidate J) → In c rows ↔ In c candidates)

  -- A marked store is replayed.
  marked-IsReplayed :
      (candidates : List (ProductCandidate J)) (store : Store S J) (cutoff marker : ℕ)
      (completed : Option ℕ)
      → store.run.is_complete ≡ true
      → ensure_utc at ≡ ok cutoff
      → completed_utc store.run.completed_at ≡ ok completed
      → not (is_time completed cutoff) ≡ false
      → store.run.candidate_materialized_at ≡ some marker
      → load_verified_replay text_lt marker
          (rule_hash_of store.run.specification_version store.run.configuration_snapshot)
          store
        ≡ ok (load_product_candidates_for_scan text_lt store.run.id store.candidates)
      → ((c : ProductCandidate J)
          → In c (load_product_candidates_for_scan text_lt store.run.id store.candidates)
            ↔ In c candidates)
      → IsReplayed (candidates, store)
  unfolding IsReplayed materialize_successful_scan_candidates materialize_once
  marked-IsReplayed candidates store cutoff marker completed done e1 e2 e3 e4 e5 same =
      (rw (done, e1, e2, e3, e4, e5) refl, same)

  all_authentic :
      (run_id cutoff : ℕ) (hash : String) (candidates rows rows' : List (ProductCandidate J))
      → (length (load_product_candidates_for_scan text_lt run_id rows) == 0) ≡ true
      → IsPersisted lib run_id cutoff hash candidates rows rows'
      → all_by (is_authentic cutoff hash) (load_product_candidates_for_scan text_lt run_id rows')
        ≡ true
  all_authentic run_id cutoff hash candidates rows rows' none_before h =
      all_by-of_In (is_authentic cutoff hash) _ λ c m.
        let own = h.own c (
          (load-persisted lib text_lt run_id cutoff hash candidates rows rows' c none_before h).0
            m) in
        and_right (c.scan_run_id == run_id) (is_authentic cutoff hash c) own

  persist-IsReplayed :
      (new_ids : ℕ → ℕ) (items : List (CandidateItem J)) (store : Store S J) (cutoff : ℕ)
      (completed : Option ℕ) (candidates : List (ProductCandidate J)) (store' : Store S J)
      → store.run.is_complete ≡ true
      → ensure_utc at ≡ ok cutoff
      → completed_utc store.run.completed_at ≡ ok completed
      → not (is_time completed cutoff) ≡ false
      → (length (load_product_candidates_for_scan text_lt store.run.id store.candidates) == 0)
        ≡ true
      → persist_candidate_projection lib new_ids cutoff
          (rule_hash_of store.run.specification_version store.run.configuration_snapshot)
          items
          store
        ≡ ok (candidates, store')
      → IsReplayed (candidates, store')
  unfolding persist_candidate_projection
  persist-IsReplayed new_ids items store cutoff completed candidates store' done e1 e2 e3
        none_before h =
      let run = store.run in
      let hash = rule_hash_of run.specification_version run.configuration_snapshot in
      let ((made, rows'), p1, h1) =
        bind-ok (persist_items lib new_ids run.id cutoff hash items store.candidates) _ h in
      let (marker, p0, h0) = bind-ok (set_once nat_eq run.candidate_materialized_at cutoff) _ h1 in
      let (version, p2, h2) =
        bind-ok
          (set_once string_eq run.candidate_materialization_rule_version
            materialization_rule_version)
          _ h0 in
      let (kept, p3, h3) =
        bind-ok (set_once string_eq run.candidate_materialization_rule_hash hash) _ h2 in
      let persisted =
        persist_items-IsPersisted lib run.id cutoff hash new_ids items store.candidates made rows'
          p1 in
      let marked : Store S J = record {
        run = record run {
          candidate_materialized_at = marker;
          candidate_materialization_rule_version = version;
          candidate_materialization_rule_hash = kept;
        };
        candidates = rows';
      } in
      subst IsReplayed (ok-injective h3) (
        marked-IsReplayed made marked cutoff cutoff completed done e1 e2 e3
          (set_once-some nat_eq run.candidate_materialized_at cutoff marker p0)
          (verified text_lt cutoff hash marked
            (set_once-some string_eq run.candidate_materialization_rule_version
              materialization_rule_version version p2)
            (set_once-some string_eq run.candidate_materialization_rule_hash hash kept p3)
            (all_authentic run.id cutoff hash made store.candidates rows' none_before persisted))
          (λ c.
            load-persisted lib text_lt run.id cutoff hash made store.candidates rows' c none_before
              persisted))

  once-IsReplayed :
      (projection : ScanRun S → ℕ → List (CandidateItem J)) (new_ids : ℕ → ℕ) (store : Store S J)
      (cutoff : ℕ) (completed : Option ℕ) (marker : Option ℕ)
      (candidates : List (ProductCandidate J)) (store' : Store S J)
      → store.run.candidate_materialized_at ≡ marker
      → store.run.is_complete ≡ true
      → ensure_utc at ≡ ok cutoff
      → completed_utc store.run.completed_at ≡ ok completed
      → not (is_time completed cutoff) ≡ false
      → materialize_once lib text_lt rule_hash_of projection new_ids cutoff
          (rule_hash_of store.run.specification_version store.run.configuration_snapshot)
          marker
          store
        ≡ ok (candidates, store')
      → IsReplayed (candidates, store')
  unfolding materialize_once
  once-IsReplayed projection new_ids store cutoff completed (some marker) candidates store' e0 done
        e1 e2 e3 h =
      let hash = rule_hash_of store.run.specification_version store.run.configuration_snapshot in
      let (loaded, replay, h1) = bind-ok (load_verified_replay text_lt marker hash store) _ h in
      let rows = load_verified_replay-loads text_lt marker hash store loaded replay in
      subst IsReplayed (ok-injective h1) (
        marked-IsReplayed loaded store cutoff marker completed done e1 e2 e3 e0
          (replay ∙ ap (λ l. ok l) (sym rows))
          (λ c. (λ m. subst (λ l. In c l) rows m, λ m. subst (λ l. In c l) (sym rows) m)))
  once-IsReplayed projection new_ids store cutoff completed none candidates store' e0 done e1 e2 e3
        h =
      let loaded = load_product_candidates_for_scan text_lt store.run.id store.candidates in
      let (empty, h1) = raise_if-ok (not (length loaded == 0)) _ _ h in
      persist-IsReplayed new_ids (projection store.run cutoff) store cutoff completed candidates
        store' done e1 e2 e3 (ground (arith, empty)) h1

  -- Once a complete scan has been materialized, materializing it again at the same time returns the
  -- stored rows of the scan, which are exactly the candidates of the first call, and changes
  -- nothing, whatever evidence has come since.
  pub materialize_replayed :
      (projection : ScanRun S → ℕ → List (CandidateItem J)) (new_ids : ℕ → ℕ)
      (store store' : Store S J) (candidates : List (ProductCandidate J)) (c : ProductCandidate J)
      → store.run.is_complete ≡ true
      → materialize_successful_scan_candidates lib text_lt rule_hash_of projection new_ids at store
        ≡ ok (candidates, store')
      → let rows = load_product_candidates_for_scan text_lt store'.run.id store'.candidates in
        ◌≡◌ {A = Result (List (ProductCandidate J) × Store S J)}
          (materialize_successful_scan_candidates lib text_lt rule_hash_of later_projection
            later_ids at store')
          (ok (rows, store'))
        × (In c rows ↔ In c candidates)
  unfolding materialize_successful_scan_candidates IsReplayed
  materialize_replayed projection new_ids store store' candidates c done h =
      let h0 = if_not-skips store.run.is_complete _ _ done h in
      let (cutoff, e1, h1) = bind-ok (ensure_utc at) _ h0 in
      let (completed, e2, h2) = bind-ok (completed_utc store.run.completed_at) _ h1 in
      let (e3, h3) = raise_if-ok (not (is_time completed cutoff)) _ _ h2 in
      let (again, same) =
        once-IsReplayed projection new_ids store cutoff completed
          store.run.candidate_materialized_at candidates store' refl done e1 e2 e3 h3 in
      (again, same c)
