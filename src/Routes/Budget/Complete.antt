-- ===== src/Routes/Budget/Complete.antt =====
-- The selection of _select_dual of backend/app/scanner/v13.py as a whole.
use Prim.Native.String.{String}
use options_anomaly_scanner.Prelude.{
  ◌≤◌, ◌≡◌, refl, ◌⊎◌, inl, inr, true, List, [], ◌∷◌, ◌++◌, arith, ltb, any_by, length, count_by,
  Bool-cases, filter_by, In, here, there, In-append, In-append_left, In-append_right, In-cons,
  In-filter_by, and_left, and_right,
}
use options_anomaly_scanner.Prelude.Eq.{string_eq}
use options_anomaly_scanner.Prelude.Dict.{lookup}
use options_anomaly_scanner.Prelude.Sort.{In-sort_by}
use options_anomaly_scanner.Prelude.Int.{pos, leb_ℤ}
use options_anomaly_scanner.Routes.Budget.{
  Expiry, Budget, Ranking, RadarEvent, ContractPersistence, is_known, take_row, budget_step,
  budget_from, select_within_budget, select_dual, is_candidate, before, apply_events,
  apply_persistence, max_deep_tickers, max_expiries_per_ticker,
}
use options_anomaly_scanner.Routes.Budget.Limits.{
  taken, IsBudget, IsExhausted, taken-take_row, take_row-other, budget_step-cases,
}

module _ {N : Type 0} where
  take_row-IsExhausted :
      (t : String) (b : Budget N) (row : Expiry N)
      → IsBudget b
      → IsBudget (take_row b row)
      → IsExhausted t b
      → IsExhausted t (take_row b row)
  unfolding take_row
  take_row-IsExhausted t b row h k (inl full) =
      inl (ground (arith, taken-take_row t b row, k.few_expiries t, full))
  take_row-IsExhausted t b row h k (inr none_taken) =
      elim (Bool-cases (string_eq.beq row.ticker t)) [
        | inl e ↦
            let at_ticker : taken row.ticker b ≡ 0 =
              rw ((string_eq.beq_iff row.ticker t).0 e) none_taken.0 in
            absurd (no_room at_ticker)
        | inr e ↦
            let other = take_row-other t b row e in
            inr (omega (arith, other, none_taken.0), ground (arith, k.few_tickers, none_taken.1))
      ]
    where
      no_room : taken row.ticker b ≡ 0 → ⊥
      no_room zero_taken =
          ground (arith, k.few_tickers, none_taken.1, h.tickers_agree row.ticker, zero_taken)

  abbrev IsPlaced : Expiry N → Budget N → Type 0
  IsPlaced row b = In row b.selected ⊎ IsExhausted row.ticker b

  step-IsPlaced :
      (b : Budget N) (row : Expiry N)
      → IsBudget b
      → IsBudget (budget_step b row) × IsPlaced row (budget_step b row)
  unfolding take_row
  step-IsPlaced b row h = elim (budget_step-cases b row h) [
    | inl kept ↦ rw kept.0 (h, inr kept.1)
    | inr took ↦ rw took.0 (took.1, inl (In-append_right b.selected (row ∷ []) (here refl)))
  ]

  step-KeepsPlaced :
      (known : Expiry N) (b : Budget N) (row : Expiry N)
      → IsBudget b
      → IsPlaced known b
      → IsPlaced known (budget_step b row)
  unfolding take_row
  step-KeepsPlaced known b row h p = elim (budget_step-cases b row h) [
    | inl kept ↦ rw kept.0 p
    | inr took ↦ rw took.0 (elim p [
      | inl m ↦ inl (In-append_left b.selected (row ∷ []) m)
      | inr e ↦ inr (take_row-IsExhausted known.ticker b row h took.1 e)
    ])
  ]

  budget_from-KeepsPlaced :
      (known : Expiry N) (b : Budget N) (rows : List (Expiry N))
      → IsBudget b
      → IsPlaced known b
      → IsPlaced known (budget_from b rows)
  unfolding budget_from
  budget_from-KeepsPlaced known b [] h p = p
  budget_from-KeepsPlaced known b (row ∷ rest) h p =
      budget_from-KeepsPlaced known (budget_step b row) rest (step-IsPlaced b row h).0
        (step-KeepsPlaced known b row h p)

  budget_from-IsPlaced :
      (known : Expiry N) (b : Budget N) (rows : List (Expiry N))
      → IsBudget b
      → In known rows
      → IsPlaced known (budget_from b rows)
  unfolding budget_from
  budget_from-IsPlaced known b [] h m = elim m [ ]
  budget_from-IsPlaced known b (row ∷ rest) h (here e) =
      let s = step-IsPlaced b row h in
      rw e (budget_from-KeepsPlaced row (budget_step b row) rest s.0 s.1)
  budget_from-IsPlaced known b (row ∷ rest) h (there m) =
      budget_from-IsPlaced known (budget_step b row) rest (step-IsPlaced b row h).0 m

  budget_from-IsBudget :
      (b : Budget N) (rows : List (Expiry N)) → IsBudget b → IsBudget (budget_from b rows)
  unfolding budget_from
  budget_from-IsBudget b [] h = h
  budget_from-IsBudget b (row ∷ rest) h =
      budget_from-IsBudget (budget_step b row) rest (step-IsPlaced b row h).0

  In-budget_from :
      (known : Expiry N) (b : Budget N) (rows : List (Expiry N))
      → IsBudget b
      → In known (budget_from b rows).selected
      → In known b.selected ⊎ In known rows
  unfolding budget_from take_row
  In-budget_from known b [] h m = inl m
  In-budget_from known b (row ∷ rest) h m =
      elim (In-budget_from known (budget_step b row) rest (step-IsPlaced b row h).0 m) [
        | inr later ↦ inr (there later)
        | inl old ↦ elim (budget_step-cases b row h) [
          | inl kept ↦ let old' : In known b.selected = rw kept.0 at old in inl old'
          | inr took ↦
              let old' : In known (b.selected ++ row ∷ []) = rw took.0 at old in
              elim (In-append b.selected (row ∷ []) old') [
                | inl before_it ↦ inl before_it
                | inr it ↦ elim (In-cons it) [
                  | inl same ↦ inr (here same)
                  | inr nothing ↦ elim nothing [ ]
                ]
              ]
        ]
      ]

  empty-IsBudget : IsBudget {N = N} (record { selected = []; tickers = []; counts = [] })
  unfolding count_by any_by lookup
  empty-IsBudget = record {
    few_tickers = omega arith;
    counts_agree = λ t. refl;
    few_expiries = λ t. omega arith;
    tickers_agree = λ t. refl;
  }

  -- Whatever the candidates are and in whatever order, the budget selects expiries of at most four
  -- tickers, those that it counts, and at most three expiries of each ticker.
  pub budget_limits :
      (rows : List (Expiry N)) (t : String)
      → let b = select_within_budget rows in
        (length b.tickers ≤ max_deep_tickers)
        × (taken t b ≤ max_expiries_per_ticker)
        × (is_known t b.tickers ≡ ltb 0 (taken t b))
  unfolding select_within_budget
  budget_limits rows t =
      let h = budget_from-IsBudget _ rows empty-IsBudget in
      (h.few_tickers, h.few_expiries t, h.tickers_agree t)

  -- A candidate of the list is selected, or three expiries of its ticker are, or none of its ticker
  -- is while four other tickers are.
  pub budget_complete :
      (row : Expiry N) (rows : List (Expiry N))
      → In row rows
      → In row (select_within_budget rows).selected
        ⊎ IsExhausted row.ticker (select_within_budget rows)
  unfolding select_within_budget
  budget_complete row rows m = budget_from-IsPlaced row _ rows empty-IsBudget m

  pub In-select_within_budget :
      (row : Expiry N) (rows : List (Expiry N))
      → In row (select_within_budget rows).selected
      → In row rows
  unfolding select_within_budget
  In-select_within_budget row rows m = elim (In-budget_from row _ rows empty-IsBudget m) [
    | inl nothing ↦ elim nothing [ ]
    | inr offered ↦ offered
  ]

module _ {N : Type 0} (rank : Ranking N) where
  -- Every expiry that is selected for the deep scan is eligible for a deep dive after the Radar
  -- events and the persistence have marked the expiries, and is at most 90 days away.
  pub select_dual_eligible :
      (events : List (RadarEvent N)) (persistence : List (ContractPersistence N))
      (expiries : List (Expiry N)) (row : Expiry N)
      → In row (select_dual rank events persistence expiries).selected
      → (row.deep_dive_eligible ≡ true) × (leb_ℤ row.dte_at_detection (pos 90) ≡ true)
  unfolding select_dual
  select_dual_eligible events persistence expiries row m =
      let radar = apply_events rank events (expiries, []) in
      let marked = apply_persistence rank persistence (radar.0, []) in
      let offered = In-select_within_budget row _ m in
      let candidate =
        In-filter_by is_candidate marked.0
          (In-sort_by (before rank radar.1 marked.1) (filter_by is_candidate marked.0) offered) in
      (and_left _ _ candidate.1, and_right _ _ candidate.1)
