-- ===== src/Tests/Clusters.antt =====
-- Four strikes, of which the last is far from the others.
use options_anomaly_scanner.Prelude.{
  ℕ, ◌-◌, ◌*◌, ◌≡◌, refl, ltb, leb, ◌==◌, some, List, [], ◌∷◌, filter_by, length, All,
}
use options_anomaly_scanner.Clusters.{Strikes, Contract, groups_of, cluster_groups}
use options_anomaly_scanner.Clusters.Runs.{groups_of-runs, runs_of, concat, IsRun, AreCut}

abbrev whole : Strikes ℕ
whole = record {
  lt = λ a b. ltb a b;
  eq = λ a b. a == b;
  is_zero = λ a. a == 0;
  span_within = λ a b spot. leb ((a - b) * 5) spot;
}

abbrev contract : ℕ → Contract ℕ
contract strike = record { id = strike; strike = strike; spot = some 100 }

abbrev ladder : List ℕ
ladder = 95 ∷ 100 ∷ 105 ∷ 110 ∷ 115 ∷ 120 ∷ []

abbrev rows : List (Contract ℕ)
rows = contract 95 ∷ contract 100 ∷ contract 120 ∷ []

groups_of-runs_example :
    (groups_of whole ladder rows
      ≡ filter_by (λ run. leb 2 (length run)) (runs_of whole ladder rows))
    × (concat whole ladder (runs_of whole ladder rows) ≡ rows)
    × All (IsRun whole ladder) (runs_of whole ladder rows)
    × AreCut whole ladder (runs_of whole ladder rows)
groups_of-runs_example = groups_of-runs whole ladder rows

one_group :
    cluster_groups whole
      (120 ∷ 95 ∷ 100 ∷ 105 ∷ 110 ∷ 115 ∷ 95 ∷ [])
      (contract 120 ∷ contract 100 ∷ contract 95 ∷ contract 97 ∷ [])
    ≡ (contract 95 ∷ contract 100 ∷ []) ∷ []
unfolding cluster_groups
one_group = refl
