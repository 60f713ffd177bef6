-- ===== src/Clusters/Runs.antt =====
-- The groups of backend/app/scanner/clusters.py as the runs of the ordered rows.
use options_anomaly_scanner.Prelude.{
  ◌≡◌, refl, ap, ◌∙◌, inl, inr, Bool, true, not, List, [], ◌∷◌, ◌++◌, leb, if◌then◌else◌, length,
  filter_by, Bool-cases, All,
}
use mathlib.Core.List.{append_assoc}
use options_anomaly_scanner.Clusters.{Strikes, Contract, joins, keep_group, groups_from, groups_of}

module _ {D : Type 0} (s : Strikes D) (ladder : List D) where
  -- All the runs, those of one row included: a run goes on as long as the rows join it.
  abbrev runs_from :
      (first prior : Contract D) → (current rest : List (Contract D)) → List (List (Contract D))
  runs_from first prior current [] = current ∷ []
  runs_from first prior current (row ∷ rest) =
      let joined = runs_from first row (current ++ row ∷ []) rest in
      let started = runs_from row row (row ∷ []) rest in
      if joins s ladder first prior row then joined else current ∷ started

  abbrev pub runs_of : List (Contract D) → List (List (Contract D))
  runs_of [] = []
  runs_of (row ∷ rest) = runs_from row row (row ∷ []) rest

  abbrev pub last_of : Contract D → List (Contract D) → Contract D
  last_of a [] = a
  last_of a (b ∷ rest) = last_of b rest

  -- Each row joins the group of `first` after the row before it.
  abbrev IsChain : (first prior : Contract D) → List (Contract D) → Type 0
  IsChain first prior [] = Unit
  IsChain first prior (row ∷ rest) =
      (joins s ladder first prior row ≡ true) × IsChain first row rest

  abbrev pub IsRun : List (Contract D) → Type 0
  IsRun [] = ⊥
  IsRun (first ∷ rest) = IsChain first first rest

  -- The row that follows a run does not join it.
  abbrev pub is_cut : List (Contract D) → List (List (Contract D)) → Bool
  is_cut (first ∷ rest) ((row ∷ more) ∷ later) = not (joins s ladder first (last_of first rest) row)
  is_cut _ _ = true

  abbrev pub AreCut : List (List (Contract D)) → Type 0
  AreCut [] = Unit
  AreCut (run ∷ later) = (is_cut run later ≡ true) × AreCut later

  abbrev pub concat : List (List (Contract D)) → List (Contract D)
  concat [] = []
  concat (run ∷ later) = run ++ concat later

  IsChain-append :
      (first prior row : Contract D) (rows : List (Contract D))
      → IsChain first prior rows
      → joins s ladder first (last_of prior rows) row ≡ true
      → IsChain first prior (rows ++ row ∷ [])
  IsChain-append first prior row [] h j = (j, tt)
  IsChain-append first prior row (r ∷ rows) h j = (h.0, IsChain-append first r row rows h.1 j)

  last_of-append :
      (prior row : Contract D) (rows : List (Contract D)) → last_of prior (rows ++ row ∷ []) ≡ row
  last_of-append prior row [] = refl
  last_of-append prior row (r ∷ rows) = last_of-append r row rows

  groups_from-runs :
      (first prior : Contract D) (current rest : List (Contract D))
      → groups_from s ladder first prior current rest
        ≡ filter_by (λ run. leb 2 (length run)) (runs_from first prior current rest)
  unfolding groups_from filter_by
  groups_from-runs first prior current [] = refl
  groups_from-runs first prior current (row ∷ rest) =
      elim (Bool-cases (joins s ladder first prior row)) [
        | inl j ↦ rw j (groups_from-runs first row (current ++ row ∷ []) rest)
        | inr n ↦
            rw n (ap (λ later. keep_group current later) (groups_from-runs row row (row ∷ []) rest))
      ]

  concat-runs :
      (first prior : Contract D) (current rest : List (Contract D))
      → concat (runs_from first prior current rest) ≡ current ++ rest
  concat-runs first prior current [] = refl
  concat-runs first prior current (row ∷ rest) =
      elim (Bool-cases (joins s ladder first prior row)) [
        | inl j ↦ rw j (
            concat-runs first row (current ++ row ∷ []) rest ∙ append_assoc current (row ∷ []) rest)
        | inr n ↦ rw n (ap (λ later. current ++ later) (concat-runs row row (row ∷ []) rest))
      ]

  runs_from-IsRun :
      (first : Contract D) (middle rest : List (Contract D))
      → IsChain first first middle
      → All IsRun (runs_from first (last_of first middle) (first ∷ middle) rest)
  runs_from-IsRun first middle [] h = (h, tt)
  runs_from-IsRun first middle (row ∷ rest) h =
      elim (Bool-cases (joins s ladder first (last_of first middle) row)) [
        | inl j ↦
            let next =
              runs_from-IsRun first (middle ++ row ∷ []) rest
                (IsChain-append first first row middle h j) in
            rw j (rw (last_of-append first row middle) at next)
        | inr n ↦ rw n (h, runs_from-IsRun row [] rest tt)
      ]

  -- The next run starts at the row that was cut off.
  cut-head :
      (first row prior : Contract D) (middle more rest : List (Contract D))
      → is_cut (first ∷ middle) (runs_from row prior (row ∷ more) rest)
        ≡ not (joins s ladder first (last_of first middle) row)
  cut-head first row prior middle more [] = refl
  cut-head first row prior middle more (r ∷ rest) = elim (Bool-cases (joins s ladder row prior r)) [
    | inl j ↦ rw j (cut-head first row r middle (more ++ r ∷ []) rest)
    | inr n ↦ rw n refl
  ]

  runs_from-AreCut :
      (first : Contract D) (middle rest : List (Contract D))
      → AreCut (runs_from first (last_of first middle) (first ∷ middle) rest)
  runs_from-AreCut first middle [] = (refl, tt)
  runs_from-AreCut first middle (row ∷ rest) =
      elim (Bool-cases (joins s ladder first (last_of first middle) row)) [
        | inl j ↦
            let next = runs_from-AreCut first (middle ++ row ∷ []) rest in
            rw j (rw (last_of-append first row middle) at next)
        | inr n ↦
            rw n (cut-head first row row middle [] rest ∙ ap not n, runs_from-AreCut row [] rest)
      ]

  -- The groups are the runs of at least two rows, where the runs split the ordered rows without
  -- losing or reordering one, each row of a run joins the group of its first row after the row
  -- before it, and the row after a run does not join it.
  pub groups_of-runs :
      (rows : List (Contract D))
      → (groups_of s ladder rows ≡ filter_by (λ run. leb 2 (length run)) (runs_of rows))
        × (concat (runs_of rows) ≡ rows)
        × All IsRun (runs_of rows)
        × AreCut (runs_of rows)
  unfolding groups_of filter_by
  groups_of-runs [] = (refl, refl, tt, tt)
  groups_of-runs (row ∷ rest) = (
    groups_from-runs row row (row ∷ []) rest,
    concat-runs row row (row ∷ []) rest,
    runs_from-IsRun row [] rest tt,
    runs_from-AreCut row [] rest,
  )
