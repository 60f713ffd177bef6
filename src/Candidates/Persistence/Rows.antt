-- ===== src/Candidates/Persistence/Rows.antt =====
-- The rows that the loop of backend/app/scanner/candidate_persistence.py over the items leaves.
use Prim.Native.String.{String}
use mathlib.Core.Path.{subst}
use options_anomaly_scanner.Prelude.{
  ℕ, suc, ◌≡◌, refl, ap, ◌∙◌, ◌⊎◌, inl, inr, Bool, true, not, ◌&&◌, List, [], ◌∷◌, ◌==◌, arith,
  any_by, all_by, In, here, there, In-cons, In-nil,
}
use options_anomaly_scanner.Prelude.Eq.{string_eq, beq_refl}
use options_anomaly_scanner.Prelude.Result.{Result, ok}
use options_anomaly_scanner.Prelude.Result.Bind.{ok-injective, bind-ok, raise_if-ok}
use options_anomaly_scanner.Candidates.Grouping.{CandidateItem}
use options_anomaly_scanner.Candidates.Triggers.{Library, materialize_triggers}
use options_anomaly_scanner.Candidates.Persistence.{
  ProductCandidate, materialization_rule_version, is_authentic, candidate_of, new_candidate,
  is_taken, persist_items,
}

pub all_by-of_In {ℓ} :
    {A : Type ℓ} (p : A → Bool) (xs : List A)
    → ((a : A) → In a xs → p a ≡ true)
    → all_by p xs ≡ true
unfolding all_by
all_by-of_In p [] f = refl
all_by-of_In p (x ∷ xs) f = rw (f x (here refl)) (all_by-of_In p xs λ a m. f a (there m))

module _ {J : Type 0} (lib : Library) (run_id cutoff : ℕ) (rule_hash : String) where
  -- A row of the run with its first knowledge at the cutoff, under the rule.
  abbrev pub is_own : ProductCandidate J → Bool
  is_own c = (c.scan_run_id == run_id) && is_authentic cutoff rule_hash c

  candidate_of-own :
      (id : ℕ) (item : CandidateItem J) (rows : List (ProductCandidate J)) (c : ProductCandidate J)
      → candidate_of lib id run_id cutoff rule_hash item rows ≡ ok c
      → is_own c ≡ true
  unfolding candidate_of
  candidate_of-own id item rows c h =
      let (qualified, h1) = raise_if-ok (not (any_by (λ a. a.qualifies) item.anomalies)) _ _ h in
      let (free, h2) =
        raise_if-ok (is_taken (new_candidate id run_id cutoff rule_hash item.ticker) rows) _ _ h1 in
      let (triggers, made, h3) =
        bind-ok (materialize_triggers lib id cutoff rule_hash item.anomalies) _ h2 in
      subst (λ d. is_own d ≡ true) (ok-injective h3)
        (ground
          (arith, beq_refl string_eq materialization_rule_version, beq_refl string_eq rule_hash))

  -- What the loop leaves: its candidates are rows of the run, and the rows are those and the old.
  pub record IsPersisted (candidates rows rows' : List (ProductCandidate J)) : Type 0 where
    pub own : (c : ProductCandidate J) → In c candidates → is_own c ≡ true
    pub added : (c : ProductCandidate J) → In c candidates → In c rows'
    pub kept : (c : ProductCandidate J) → In c rows → In c rows'
    pub only : (c : ProductCandidate J) → In c rows' → In c candidates ⊎ In c rows

  IsPersisted-cons :
      (c : ProductCandidate J) (later rows rows' : List (ProductCandidate J))
      → is_own c ≡ true
      → IsPersisted later (c ∷ rows) rows'
      → IsPersisted (c ∷ later) rows rows'
  IsPersisted-cons c later rows rows' mine h = record {
    own = λ d m. elim (In-cons m) [ inl e ↦ ap is_own e ∙ mine | inr l ↦ h.own d l ];
    added = λ d m. elim (In-cons m) [ inl e ↦ h.kept d (here e) | inr l ↦ h.added d l ];
    kept = λ d m. h.kept d (there m);
    only = λ d m. elim (h.only d m) [
      | inl l ↦ inl (there l)
      | inr r ↦ elim (In-cons r) [ inl e ↦ inl (here e) | inr o ↦ inr o ]
    ];
  }

  pub persist_items-IsPersisted :
      (new_ids : ℕ → ℕ) (items : List (CandidateItem J))
      (rows candidates rows' : List (ProductCandidate J))
      → ◌≡◌ {A = Result (List (ProductCandidate J) × List (ProductCandidate J))}
          (persist_items lib new_ids run_id cutoff rule_hash items rows)
          (ok (candidates, rows'))
      → IsPersisted candidates rows rows'
  unfolding persist_items
  persist_items-IsPersisted new_ids [] rows candidates rows' h =
      subst
        (λ (p : List (ProductCandidate J) × List (ProductCandidate J)). IsPersisted p.0 rows p.1)
        (ok-injective h)
        (record {
          own = λ c m. absurd (In-nil m);
          added = λ c m. absurd (In-nil m);
          kept = λ c m. m;
          only = λ c m. inr m;
        })
  persist_items-IsPersisted new_ids (item ∷ rest) rows candidates rows' h =
      let (c, e1, h1) =
        bind-ok (candidate_of lib (new_ids 0) run_id cutoff rule_hash item rows) _ h in
      let ((later, out), e2, h2) =
        bind-ok (persist_items lib (λ n. new_ids (suc n)) run_id cutoff rule_hash rest (c ∷ rows)) _
          h1 in
      subst
        (λ (p : List (ProductCandidate J) × List (ProductCandidate J)). IsPersisted p.0 rows p.1)
        (ok-injective h2)
        (IsPersisted-cons c later rows out (candidate_of-own (new_ids 0) item rows c e1)
          (persist_items-IsPersisted (λ n. new_ids (suc n)) rest (c ∷ rows) later out e2))
