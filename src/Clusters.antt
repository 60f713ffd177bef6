-- ===== src/Clusters.antt =====
-- backend/app/scanner/clusters.py: the groups of neighbouring strikes that build_clusters and
-- build_positioning_clusters score.
pub mod Runs
use options_anomaly_scanner.Prelude.{
  ℕ, suc, ◌-◌, Bool, true, false, not, ◌&&◌, ◌||◌, Option, none, some, List, [], ◌∷◌, ◌++◌, ltb,
  leb, ◌==◌, if◌then◌else◌, length, filter_by, is_some,
}
use options_anomaly_scanner.Prelude.Sort.{sort_by}

-- Decimals and the test `float(a - b) / float(spot) <= 0.20`.
pub record Strikes (D : Type 0) : Type 0 where
  pub lt : D → D → Bool
  pub eq : D → D → Bool
  pub is_zero : D → Bool
  pub span_within : D → D → D → Bool

-- What the grouping reads of a contract.
pub record Contract (D : Type 0) : Type 0 where
  pub id : ℕ
  pub strike : D
  pub spot : Option D

-- A group of one row is dropped.
abbrev pub keep_group :
    {D : Type 0} → List (Contract D) → List (List (Contract D)) → List (List (Contract D))
keep_group group later = if leb 2 (length group) then group ∷ later else later

module _ {D : Type 0} (s : Strikes D) where
  -- The rungs of the ladder, sorted(set(strikes)): equal strikes are neighbours once sorted.
  unfoldable pub distinct_rungs : List D → List D
  distinct_rungs [] = []
  distinct_rungs (a ∷ []) = a ∷ []
  distinct_rungs (a ∷ b ∷ rest) =
      let others = distinct_rungs (b ∷ rest) in if s.eq a b then others else a ∷ others

  abbrev next_rung : Option ℕ → Option ℕ
  next_rung none = none
  next_rung (some n) = some (suc n)

  unfoldable pub rung : D → List D → Option ℕ
  rung strike [] = none
  rung strike (a ∷ rest) = if s.eq a strike then some 0 else next_rung (rung strike rest)

  -- `row.spot or prior.spot`
  abbrev or_spot : Option D → Option D → Option D
  or_spot none other = other
  or_spot (some a) other = if s.is_zero a then other else some a

  abbrev within_span : Option D → D → D → Bool
  within_span none strike first = true
  within_span (some spot) strike first = s.is_zero spot || s.span_within strike first spot

  abbrev within_gap : Option ℕ → Option ℕ → Bool
  within_gap (some i) (some j) = leb (i - j) 2
  within_gap _ _ = false

  -- Whether a row joins the group of a first row whose last one is the prior.
  unfoldable pub joins : List D → (first prior row : Contract D) → Bool
  unfolding rung
  joins ladder first prior row =
      within_gap (rung row.strike ladder) (rung prior.strike ladder)
      && within_span (or_spot row.spot prior.spot) row.strike first.strike

  -- The loop, from a group that starts at `first` and ends at `prior`.
  unfoldable pub groups_from :
      List D
      → (first prior : Contract D) → (current : List (Contract D)) → List (Contract D)
      → List (List (Contract D))
  unfolding joins
  groups_from ladder first prior current [] = keep_group current []
  groups_from ladder first prior current (row ∷ rest) =
      let joined = groups_from ladder first row (current ++ row ∷ []) rest in
      let started = groups_from ladder row row (row ∷ []) rest in
      if joins ladder first prior row then joined else keep_group current started

  unfoldable pub groups_of : List D → List (Contract D) → List (List (Contract D))
  unfolding groups_from
  groups_of ladder [] = []
  groups_of ladder (row ∷ rest) = groups_from ladder row row (row ∷ []) rest

  unfoldable pub ladder_of : List D → List D
  unfolding sort_by distinct_rungs
  ladder_of strikes = distinct_rungs (sort_by s.lt strikes)

  abbrev strike_lt : Contract D → Contract D → Bool
  strike_lt a b = s.lt a.strike b.strike

  unfoldable pub ordered_of : List D → List (Contract D) → List (Contract D)
  unfolding filter_by sort_by rung
  ordered_of ladder candidates =
      sort_by strike_lt (filter_by (λ row. is_some (rung row.strike ladder)) candidates)

  -- The groups of the candidates.
  unfoldable pub cluster_groups : List D → List (Contract D) → List (List (Contract D))
  unfolding groups_of ladder_of ordered_of
  cluster_groups full_strike_ladder candidates =
      let ladder = ladder_of full_strike_ladder in
      if ltb (length candidates) 2 then [] else groups_of ladder (ordered_of ladder candidates)
