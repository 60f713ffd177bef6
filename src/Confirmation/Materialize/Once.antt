-- ===== src/Confirmation/Materialize/Once.antt =====
-- materialize_contracts of backend/app/confirmation/state_v2.py: its summary, and the rows of one
-- evaluation over one and several runs.
use Prim.Native.String.{String}
use options_anomaly_scanner.Prelude.{
  ℕ, suc, ◌+◌, ◌≡◌, refl, ◌∙◌, inl, inr, Bool, true, false, Option, none, some, List, [], ◌∷◌,
  arith, find_by, length, length-append, Bool-cases, Option-cases, All, ==_iff,
}
use options_anomaly_scanner.Prelude.Eq.{string_eq}
use options_anomaly_scanner.Prelude.Distinct.{distinct_from}
use options_anomaly_scanner.Prelude.Floats.{Floats}
use options_anomaly_scanner.Confirmation.Candidate.{Evaluation}
use options_anomaly_scanner.Confirmation.Materialize.{
  Archive, StateRow, StateBuildSummary, Outcome, lacking, existing, buildable, distinct_from,
  is_state_of, find_state, context_outcome, state_outcome, evaluation_outcome, symbol_outcome,
  state_row, apply_outcome, materialize_from, materialize_contracts,
}

abbrev handled : StateBuildSummary → ℕ
handled s = s.created + s.reused + length s.missing

module _ {N : Type 0} where
  -- No two rows of the table are of one evaluation under the version.
  abbrev pub IsOncePerEvaluation : List (StateRow N) → Type 0
  IsOncePerEvaluation [] = Unit
  IsOncePerEvaluation (row ∷ rows) =
      (find_state row.candidate_evaluation_id rows ≡ none) × IsOncePerEvaluation rows

  -- The outcome creates no row.
  abbrev is_settled : Outcome N → Bool
  is_settled lacking = true
  is_settled (existing row) = true
  is_settled (buildable evaluation context) = false

module _ {N : Type 0} (f : Floats N) (archive : Archive N) (config_hash : String) (now : ℕ)
    (new_id : ℕ → ℕ) where
  abbrev Progress : Type 0
  Progress = StateBuildSummary × List (StateRow N)

  apply-counts :
      (symbol : String) (o : Outcome N) (p : Progress)
      → let q = apply_outcome f archive config_hash now new_id symbol o p in
        (handled q.0 ≡ suc (handled p.0))
        × (length q.0.state_ids + (p.0.created + p.0.reused)
            ≡ length p.0.state_ids + (q.0.created + q.0.reused))
        × (length q.1 + p.0.created ≡ length p.1 + q.0.created)
  unfolding apply_outcome
  apply-counts symbol lacking (s, states) =
      (omega (arith, length-append s.missing (symbol ∷ [])), omega arith, omega arith)
  apply-counts symbol (existing row) (s, states) =
      (omega arith, omega (arith, length-append s.state_ids (row.id ∷ [])), omega arith)
  apply-counts symbol (buildable evaluation context) (s, states) =
      (omega arith, omega (arith, length-append s.state_ids (new_id s.created ∷ [])), omega arith)

  materialize_from-counts :
      (symbols : List String) (p : Progress)
      → let q = materialize_from f archive config_hash now new_id symbols p in
        (handled q.0 ≡ length symbols + handled p.0)
        × (length q.0.state_ids + (p.0.created + p.0.reused)
            ≡ length p.0.state_ids + (q.0.created + q.0.reused))
        × (length q.1 + p.0.created ≡ length p.1 + q.0.created)
  unfolding materialize_from
  materialize_from-counts [] p = (omega arith, omega arith, omega arith)
  materialize_from-counts (symbol ∷ rest) p =
      let o = symbol_outcome archive symbol p.1 in
      let step = apply-counts symbol o p in
      let hyp =
        materialize_from-counts rest (apply_outcome f archive config_hash now new_id symbol o p) in
      (omega (arith, step, hyp), omega (arith, step, hyp), omega (arith, step, hyp))

  -- Every distinct symbol is created, reused or missing; there is one identifier for each created
  -- or reused state; and the table grows by exactly the created ones.
  pub materialize_accounts :
      (symbols : List String) (states : List (StateRow N))
      → let (s, states') = materialize_contracts f archive config_hash now new_id symbols states in
        (s.created + s.reused + length s.missing ≡ length (distinct_from [] symbols))
        × (length s.state_ids ≡ s.created + s.reused)
        × (length states' ≡ length states + s.created)
  unfolding materialize_contracts
  materialize_accounts symbols states =
      let h =
        materialize_from-counts (distinct_from [] symbols)
          (record { created = 0; reused = 0; missing = []; state_ids = [] }, states) in
      (omega (arith, h), omega (arith, h), omega (arith, h))

  -- One symbol, by what its latest evaluation is.
  apply-KeepsOnce :
      (symbol : String) (oe : Option (Evaluation N)) (s : StateBuildSummary)
      (states : List (StateRow N))
      → IsOncePerEvaluation states
      → IsOncePerEvaluation
          (apply_outcome f archive config_hash now new_id symbol
            (evaluation_outcome archive oe states)
            (s, states)).1
  unfolding apply_outcome evaluation_outcome state_outcome context_outcome state_row
  apply-KeepsOnce symbol none s states h = h
  apply-KeepsOnce symbol (some e) s states h = elim (Option-cases (find_state e.id states)) [
    | inr (row, found) ↦ rw found h
    | inl new ↦ elim (Option-cases (archive.ticker_context e.ticker_context_id)) [
      | inl absent ↦ rw (new, absent) h
      | inr (context, got) ↦ rw (new, got) (new, h)
    ]
  ]

  apply-settles :
      (symbol : String) (oe : Option (Evaluation N)) (s : StateBuildSummary)
      (states : List (StateRow N))
      → is_settled (
          evaluation_outcome archive oe
            (apply_outcome f archive config_hash now new_id symbol
              (evaluation_outcome archive oe states)
              (s, states)).1)
        ≡ true
  unfolding apply_outcome evaluation_outcome state_outcome context_outcome state_row find_by
  apply-settles symbol none s states = refl
  apply-settles symbol (some e) s states = elim (Option-cases (find_state e.id states)) [
    | inr (row, found) ↦ rw (found, found) refl
    | inl new ↦ elim (Option-cases (archive.ticker_context e.ticker_context_id)) [
      | inl absent ↦ rw (new, absent, new, absent) refl
      | inr (context, got) ↦ rw (new, got, (==_iff e.id e.id).1 refl) refl
    ]
  ]

  settled-grows :
      (oe : Option (Evaluation N)) (row : StateRow N) (states : List (StateRow N))
      → is_settled (evaluation_outcome archive oe states) ≡ true
      → is_settled (evaluation_outcome archive oe (row ∷ states)) ≡ true
  unfolding evaluation_outcome state_outcome find_by
  settled-grows none row states h = refl
  settled-grows (some e) row states h = elim (Bool-cases (is_state_of e.id row)) [
    | inl same ↦ rw same refl
    | inr other ↦ rw other h
  ]

  apply-keeps :
      (oe : Option (Evaluation N)) (symbol : String) (o : Outcome N) (p : Progress)
      → is_settled (evaluation_outcome archive oe p.1) ≡ true
      → is_settled (
          evaluation_outcome archive oe
            (apply_outcome f archive config_hash now new_id symbol o p).1)
        ≡ true
  unfolding apply_outcome
  apply-keeps oe symbol lacking (s, states) h = h
  apply-keeps oe symbol (existing row) (s, states) h = h
  apply-keeps oe symbol (buildable e c) (s, states) h = settled-grows oe _ states h

  materialize_from-keeps :
      (oe : Option (Evaluation N)) (symbols : List String) (p : Progress)
      → is_settled (evaluation_outcome archive oe p.1) ≡ true
      → is_settled (
          evaluation_outcome archive oe
            (materialize_from f archive config_hash now new_id symbols p).1)
        ≡ true
  unfolding materialize_from
  materialize_from-keeps oe [] p h = h
  materialize_from-keeps oe (symbol ∷ rest) p h =
      materialize_from-keeps oe rest _
        (apply-keeps oe symbol (symbol_outcome archive symbol p.1) p h)

  materialize_from-settles :
      (symbols : List String) (p : Progress)
      → All
          (λ s.
            is_settled (
              symbol_outcome archive s
                (materialize_from f archive config_hash now new_id symbols p).1)
            ≡ true)
          symbols
  unfolding materialize_from
  materialize_from-settles [] p = tt
  materialize_from-settles (symbol ∷ rest) p = (
    materialize_from-keeps (archive.latest_evaluation symbol) rest _
        (apply-settles symbol (archive.latest_evaluation symbol) p.0 p.1),
    materialize_from-settles rest _,
  )

  materialize_from-KeepsOnce :
      (symbols : List String) (p : Progress)
      → IsOncePerEvaluation p.1
      → IsOncePerEvaluation (materialize_from f archive config_hash now new_id symbols p).1
  unfolding materialize_from
  materialize_from-KeepsOnce [] p h = h
  materialize_from-KeepsOnce (symbol ∷ rest) p h =
      materialize_from-KeepsOnce rest _
        (apply-KeepsOnce symbol (archive.latest_evaluation symbol) p.0 p.1 h)

  -- Where no two rows of the table are of one evaluation under the specification version, that is
  -- so after any list of symbols is materialized, however often it repeats a symbol.
  pub materialize-IsOncePerEvaluation :
      (symbols : List String) (states : List (StateRow N))
      → IsOncePerEvaluation states
      → IsOncePerEvaluation
          (materialize_contracts f archive config_hash now new_id symbols states).1
  unfolding materialize_contracts
  materialize-IsOncePerEvaluation symbols states h =
      materialize_from-KeepsOnce (distinct_from [] symbols) _ h

  apply-settled :
      (symbol : String) (o : Outcome N) (p : Progress)
      → is_settled o ≡ true
      → ((apply_outcome f archive config_hash now new_id symbol o p).0.created ≡ p.0.created)
        × ((apply_outcome f archive config_hash now new_id symbol o p).1 ≡ p.1)
  unfolding apply_outcome
  apply-settled symbol lacking (s, states) h = (refl, refl)
  apply-settled symbol (existing row) (s, states) h = (refl, refl)
  apply-settled symbol (buildable e c) (s, states) h = ground (arith, h)

  materialize_from-settled :
      (symbols : List String) (p : Progress)
      → All (λ s. is_settled (symbol_outcome archive s p.1) ≡ true) symbols
      → ((materialize_from f archive config_hash now new_id symbols p).0.created ≡ p.0.created)
        × ((materialize_from f archive config_hash now new_id symbols p).1 ≡ p.1)
  unfolding materialize_from
  materialize_from-settled [] p h = (refl, refl)
  materialize_from-settled (symbol ∷ rest) p h =
      let step = apply-settled symbol (symbol_outcome archive symbol p.1) p h.0 in
      let hyp = materialize_from-settled rest _ (rw step.1 h.1) in (hyp.0 ∙ step.0, hyp.1 ∙ step.1)

module _ {N : Type 0} (f : Floats N) (archive : Archive N) where
  -- Materializing the same symbols again over the same archive, at any later clock and with any
  -- identifiers, creates no state and leaves the table as the first run left it.
  pub materialize_again :
      (config_hash : String) (now now' : ℕ) (new_id new_id' : ℕ → ℕ) (symbols : List String)
      (states : List (StateRow N))
      → let first = (materialize_contracts f archive config_hash now new_id symbols states).1 in
        let second = materialize_contracts f archive config_hash now' new_id' symbols first in
        (second.0.created ≡ 0) × (second.1 ≡ first)
  unfolding materialize_contracts
  materialize_again config_hash now now' new_id new_id' symbols states =
      materialize_from-settled f archive config_hash now' new_id' (distinct_from [] symbols) _
        (materialize_from-settles f archive config_hash now new_id (distinct_from [] symbols) _)
