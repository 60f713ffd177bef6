-- ===== src/Research/Primary.antt =====
-- backend/app/research/aggregation.py: one representative of the occurrences of an outcome window.
pub mod Earliest
use Prim.Native.String.{String}
use options_anomaly_scanner.Prelude.{
  ℕ, Bool, true, false, not, ◌&&◌, ◌||◌, Option, none, some, List, [], ◌∷◌, ltb, ◌==◌,
  if◌then◌else◌, filter_by, all_by,
}
use options_anomaly_scanner.Prelude.Eq.{string_eq}
use options_anomaly_scanner.Prelude.Result.{Result, ok, err, raised}
use options_anomaly_scanner.Prelude.Sort.{sort_by}
use options_anomaly_scanner.Prelude.Sort.Least.{first}
use options_anomaly_scanner.Research.Sample.{Foundation}

-- Equality of the window keys, by their parts.
unfoldable pub same_window : List String → List String → Bool
same_window [] [] = true
same_window (a ∷ as_rest) (b ∷ bs) = string_eq.beq a b && same_window as_rest bs
same_window _ _ = false

-- `id_lt` is the order of str(product_candidate_id).
module _ (id_lt : ℕ → ℕ → Bool) where
  abbrev pub occurs_before : Foundation → Foundation → Bool
  occurs_before a b =
      ltb a.candidate_first_knowledge_at b.candidate_first_knowledge_at
      || ((a.candidate_first_knowledge_at == b.candidate_first_knowledge_at)
          && id_lt a.product_candidate_id b.product_candidate_id)

  -- min(...), the first of the smallest, as the head of the stable order.
  unfoldable pub primary_of : List Foundation → Result (Option Foundation)
  unfolding all_by sort_by same_window
  primary_of [] = ok none
  primary_of (row ∷ rest) =
      if all_by (λ r. same_window r.outcome_window_key row.outcome_window_key) rest
      then ok (first (sort_by occurs_before (row ∷ rest)))
      else err (raised "Defensive deduplication requires one outcome window")

  unfoldable pub deterministic_primary_occurrence : List Foundation → Result (Option Foundation)
  unfolding primary_of filter_by
  deterministic_primary_occurrence occurrences =
      primary_of (filter_by (λ r. r.primary_research_eligible) occurrences)
