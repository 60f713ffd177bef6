-- ===== src/Routes/Budget/Limits.antt =====
-- The variables of the budget loop of _select_dual, and what one row does to them.
use Prim.Native.String.{String}
use options_anomaly_scanner.Prelude.{
  ℕ, suc, ◌+◌, ◌≤◌, ◌≡◌, refl, sym, ◌⊎◌, inl, inr, Bool, true, false, not, ◌&&◌, List, [], ◌∷◌,
  ◌++◌, arith, ltb, leb, if◌then◌else◌, any_by, length, count_by, Bool-cases,
}
use options_anomaly_scanner.Prelude.Eq.{string_eq, beq_refl}
use options_anomaly_scanner.Prelude.Dict.{lookup, get_or, lookup-put}
use options_anomaly_scanner.Routes.Budget.{
  Expiry, Budget, is_known, take_row, budget_step, max_deep_tickers, max_expiries_per_ticker,
}

abbrev pub of_ticker : {N : Type 0} → String → Expiry N → Bool
of_ticker t row = string_eq.beq row.ticker t

-- The number of selected expiries of a ticker.
abbrev pub taken : {N : Type 0} → String → Budget N → ℕ
taken t b = count_by (of_ticker t) b.selected

abbrev pub counted : {N : Type 0} → String → Budget N → ℕ
counted t b = get_or (lookup t b.counts) 0

count_by-append {ℓ} :
    {A : Type ℓ} (p : A → Bool) (xs ys : List A)
    → count_by p (xs ++ ys) ≡ count_by p xs + count_by p ys
unfolding count_by
count_by-append p [] ys = omega arith
count_by-append p (x ∷ xs) ys = omega (arith, count_by-append p xs ys)

-- The loop's variables agree with the selection, and are within the limits.
pub record IsBudget {N : Type 0} (b : Budget N) : Type 0 where
  pub few_tickers : length b.tickers ≤ max_deep_tickers
  pub counts_agree : (t : String) → counted t b ≡ taken t b
  pub few_expiries : (t : String) → taken t b ≤ max_expiries_per_ticker
  pub tickers_agree : (t : String) → is_known t b.tickers ≡ ltb 0 (taken t b)

-- Why a row is not taken: its ticker is full, or there is no room for another ticker.
abbrev pub IsExhausted : {N : Type 0} → String → Budget N → Type 0
IsExhausted t b =
    (taken t b ≡ max_expiries_per_ticker)
    ⊎ ((taken t b ≡ 0) × (length b.tickers ≡ max_deep_tickers))

module _ {N : Type 0} where
  pub taken-take_row :
      (t : String) (b : Budget N) (row : Expiry N)
      → taken t (take_row b row) ≡ taken t b + (if of_ticker t row then 1 else 0)
  unfolding take_row count_by
  taken-take_row t b row = omega (arith, count_by-append (of_ticker t) b.selected (row ∷ []))

  -- The ticker of a row that is taken.
  take_row-same :
      (b : Budget N) (row : Expiry N)
      → (counted row.ticker (take_row b row) ≡ suc (counted row.ticker b))
        × (taken row.ticker (take_row b row) ≡ suc (taken row.ticker b))
        × (is_known row.ticker (take_row b row).tickers ≡ true)
  unfolding take_row any_by
  take_row-same b row =
      let here_too = beq_refl string_eq row.ticker in
      let count = taken-take_row row.ticker b row in
      (
        rw (lookup-put row.ticker row.ticker (suc (counted row.ticker b)) b.counts, here_too) refl,
        ground (arith, count, here_too),
        ground (arith, here_too),
      )

  -- Another ticker.
  pub take_row-other :
      (t : String) (b : Budget N) (row : Expiry N)
      → string_eq.beq row.ticker t ≡ false
      → (counted t (take_row b row) ≡ counted t b)
        × (taken t (take_row b row) ≡ taken t b)
        × (is_known t (take_row b row).tickers ≡ is_known t b.tickers)
  unfolding take_row any_by
  take_row-other t b row differ =
      let count = taken-take_row t b row in
      (
        rw (lookup-put row.ticker t (suc (counted row.ticker b)) b.counts, differ) refl,
        ground (arith, count, differ),
        ground (arith, differ, string_eq.beq_iff row.ticker t, string_eq.beq_iff t row.ticker),
      )

  take_row-tickers :
      (b : Budget N) (row : Expiry N)
      → (not (is_known row.ticker b.tickers) && leb max_deep_tickers (length b.tickers)) ≡ false
      → length b.tickers ≤ max_deep_tickers
      → length (take_row b row).tickers ≤ max_deep_tickers
  unfolding take_row
  take_row-tickers b row room few = ground (arith, room, few)

  take_row-IsBudget :
      (b : Budget N) (row : Expiry N)
      → IsBudget b
      → (not (is_known row.ticker b.tickers) && leb max_deep_tickers (length b.tickers)) ≡ false
      → leb max_expiries_per_ticker (counted row.ticker b) ≡ false
      → IsBudget (take_row b row)
  take_row-IsBudget b row h room space =
      let same = take_row-same b row in
      let agree = h.counts_agree row.ticker in
      record {
        few_tickers = take_row-tickers b row room h.few_tickers;
        counts_agree = λ t. elim (Bool-cases (string_eq.beq row.ticker t)) [
          | inl e ↦ rw (sym ((string_eq.beq_iff row.ticker t).0 e)) (omega (arith, same, agree))
          | inr e ↦ let other = take_row-other t b row e in omega (arith, other, h.counts_agree t)
        ];
        few_expiries = λ t. elim (Bool-cases (string_eq.beq row.ticker t)) [
          | inl e ↦
              rw (sym ((string_eq.beq_iff row.ticker t).0 e)) (ground (arith, same, agree, space))
          | inr e ↦ let other = take_row-other t b row e in omega (arith, other, h.few_expiries t)
        ];
        tickers_agree = λ t. elim (Bool-cases (string_eq.beq row.ticker t)) [
          | inl e ↦ rw (sym ((string_eq.beq_iff row.ticker t).0 e)) (ground (arith, same))
          | inr e ↦
              let other = take_row-other t b row e in rw (other.1, other.2) (h.tickers_agree t)
        ];
      }

  -- What one row does: it is taken, or its ticker is exhausted and nothing changes.
  pub budget_step-cases :
      (b : Budget N) (row : Expiry N)
      → IsBudget b
      → ((budget_step b row ≡ b) × IsExhausted row.ticker b)
        ⊎ ((budget_step b row ≡ take_row b row) × IsBudget (take_row b row))
  unfolding budget_step
  budget_step-cases b row h =
      elim (Bool-cases
        (not (is_known row.ticker b.tickers) && leb max_deep_tickers (length b.tickers))) [
          | inl full ↦ inl (
            rw full refl,
            inr (
              ground (arith, full, h.tickers_agree row.ticker),
              ground (arith, full, h.few_tickers),
            ),
          )
          | inr room ↦ elim (Bool-cases (leb max_expiries_per_ticker (counted row.ticker b))) [
            | inl full ↦ inl (
              rw (room, full) refl,
              inl (ground (arith, full, h.counts_agree row.ticker, h.few_expiries row.ticker)),
            )
            | inr space ↦ inr (rw (room, space) refl, take_row-IsBudget b row h room space)
          ]
        ]
