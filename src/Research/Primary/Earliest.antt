-- ===== src/Research/Primary/Earliest.antt =====
-- The representative that backend/app/research/aggregation.py chooses.
use mathlib.Core.Option.{some-injective, none-ne-some}
use options_anomaly_scanner.Prelude.{
  ℕ, ◌≡◌, ◌↔◌, refl, sym, ap, inl, inr, Bool, true, false, some, List, [], ◌∷◌, filter_by, all_by,
  arith, Option-cases, All, In, here, there, In-nil, In-filter_by, filter_by-In, All-In,
}
use Prim.Native.String.{String}
use options_anomaly_scanner.Prelude.Eq.{string_eq, beq_refl}
use options_anomaly_scanner.Prelude.Result.{ok}
use options_anomaly_scanner.Prelude.Sort.{sort_by, In-sort_by}
use options_anomaly_scanner.Prelude.Sort.Least.{
  first, WeakOrder, first-sort_by, first-sort_by-eq-none,
}
use options_anomaly_scanner.Research.Sample.{Foundation}
use options_anomaly_scanner.Research.Primary.{
  same_window, occurs_before, primary_of, deterministic_primary_occurrence,
}

first-In : {A : Type 0} (xs : List A) {y : A} → first xs ≡ some y → In y xs
first-In [] e = absurd (none-ne-some _ e)
first-In (x ∷ xs) e = here (sym (some-injective _ _ e))

same_window_eq : (xs ys : List String) → same_window xs ys ≡ true → xs ≡ ys
unfolding same_window
same_window_eq [] [] h = refl
same_window_eq [] (y ∷ ys) h = absurd (ground (arith, h))
same_window_eq (x ∷ xs) [] h = absurd (ground (arith, h))
same_window_eq (x ∷ xs) (y ∷ ys) h =
    let heads : string_eq.beq x y ≡ true = ground (arith, h) in
    let tails : same_window xs ys ≡ true = ground (arith, h) in
    cc ((string_eq.beq_iff x y).0 heads, same_window_eq xs ys tails)

same_window_refl : (xs : List String) → same_window xs xs ≡ true
unfolding same_window
same_window_refl [] = refl
same_window_refl (x ∷ xs) = rw (beq_refl string_eq x) (same_window_refl xs)

-- One outcome window: the keys of all the rows are that of the first.
unfoldable pub share_window : List Foundation → Bool
unfolding all_by
share_window [] = true
share_window (row ∷ rest) =
    all_by (λ r. same_window r.outcome_window_key row.outcome_window_key) rest

all_by-In :
    {A : Type 0} (p : A → Bool) (xs : List A) (x : A) → all_by p xs ≡ true → In x xs → p x ≡ true
unfolding all_by
all_by-In p [] x h m = absurd (In-nil m)
all_by-In p (y ∷ ys) x h (here e) = rw e (ground (arith, h))
all_by-In p (y ∷ ys) x h (there m) = all_by-In p ys x (ground (arith, h)) m

all_by-of_In :
    {A : Type 0} (p : A → Bool) (xs : List A)
    → ((x : A) → In x xs → p x ≡ true)
    → all_by p xs ≡ true
unfolding all_by
all_by-of_In p [] f = refl
all_by-of_In p (x ∷ xs) f = rw (f x (here refl)) (all_by-of_In p xs (λ y m. f y (there m)))

share_window-first :
    (r x : Foundation) (rest : List Foundation)
    → share_window (r ∷ rest) ≡ true
    → In x (r ∷ rest)
    → x.outcome_window_key ≡ r.outcome_window_key
unfolding share_window
share_window-first r x rest one (here e) = rw e refl
share_window-first r x rest one (there m) = same_window_eq _ _ (all_by-In _ rest x one m)

-- The rows of one window are so in whatever order.
share_window-kept :
    (rows rows' : List Foundation)
    → share_window rows ≡ true
    → ((x : Foundation) → In x rows' → In x rows)
    → share_window rows' ≡ true
unfolding share_window
share_window-kept rows [] one back = refl
share_window-kept [] (r ∷ rest) one back = absurd (In-nil (back r (here refl)))
share_window-kept (s ∷ rows) (r ∷ rest) one back = all_by-of_In _ rest λ x m.
    let a = share_window-first s x rows one (back x (there m)) in
    let b = share_window-first s r rows one (back r (here refl)) in
    rw (a, b) (same_window_refl s.outcome_window_key)

-- The order of the texts of identifiers is strict.
module _ (id_lt : ℕ → ℕ → Bool) (ids : WeakOrder id_lt) where
  before-WeakOrder : WeakOrder (occurs_before id_lt)
  before-WeakOrder = record {
    asym = λ a b h. ground (arith, h, ids.asym a.product_candidate_id b.product_candidate_id);
    ge_trans = λ a b c h k. ground (
      arith,
      h,
      k,
      ids.ge_trans a.product_candidate_id b.product_candidate_id c.product_candidate_id,
    );
  }

  -- Of two occurrences neither of which is before the other, the identifiers agree.
  before-same_id :
      (a b : Foundation)
      → ((m n : ℕ) → id_lt m n ≡ false → id_lt n m ≡ false → m ≡ n)
      → occurs_before id_lt a b ≡ false
      → occurs_before id_lt b a ≡ false
      → a.product_candidate_id ≡ b.product_candidate_id
  before-same_id a b total h k =
      total a.product_candidate_id b.product_candidate_id (ground (arith, h, k))
        (ground (arith, h, k))

  IsLeast : Foundation → List Foundation → Type 0
  IsLeast best rows = All (λ r. occurs_before id_lt r best ≡ false) rows

  primary_of-earliest :
      (rows : List Foundation) (row : Foundation)
      → In row rows
      → share_window rows ≡ true
      → (best : Foundation) × (primary_of id_lt rows ≡ ok (some best))
        × In best rows
        × IsLeast best rows
  unfolding primary_of share_window IsLeast
  primary_of-earliest [] row m one = absurd (In-nil m)
  primary_of-earliest (r ∷ rest) row m one =
      let before = occurs_before id_lt in
      elim (Option-cases (first (sort_by before (r ∷ rest)))) [
        | inl e ↦
            let nothing : (r ∷ rest) ≡ [] =
              first-sort_by-eq-none before before-WeakOrder (r ∷ rest) e in
            let m' : In row [] = rw nothing at m in absurd (In-nil m')
        | inr (best, e) ↦ (
          best,
          rw one (ap (λ o. ok o) e),
          In-sort_by before (r ∷ rest) (first-In _ e),
          first-sort_by before before-WeakOrder (r ∷ rest) best e,
        )
      ]

  -- Where the eligible occurrences share one outcome window and there is one, and no two
  -- occurrences have one identifier: the representative is an eligible occurrence, and no eligible
  -- one has an earlier first knowledge, or the same and a smaller identifier; and of any other
  -- sequence with the same occurrences it is the representative too, in whatever order they come
  -- and however often. The order of the identifiers is strict and total.
  pub primary_occurrence-earliest :
      (total : (m n : ℕ) → id_lt m n ≡ false → id_lt n m ≡ false → m ≡ n)
      (occurrences others : List Foundation) (row : Foundation)
      → ((a b : Foundation)
          → In a occurrences
          → In b occurrences
          → a.product_candidate_id ≡ b.product_candidate_id
          → a ≡ b)
      → ((x : Foundation) → In x occurrences ↔ In x others)
      → In row occurrences
      → row.primary_research_eligible ≡ true
      → share_window (filter_by (λ r. r.primary_research_eligible) occurrences) ≡ true
      → (best : Foundation) × (deterministic_primary_occurrence id_lt occurrences ≡ ok (some best))
        × (deterministic_primary_occurrence id_lt others ≡ ok (some best))
        × In best occurrences
        × (best.primary_research_eligible ≡ true)
        × All
            (λ r. occurs_before id_lt r best ≡ false)
            (filter_by (λ r. r.primary_research_eligible) occurrences)
  unfolding deterministic_primary_occurrence IsLeast
  primary_occurrence-earliest total occurrences others row distinct same m good one =
      let eligible = λ (r : Foundation). r.primary_research_eligible in
      let rows = filter_by eligible occurrences in
      let rows' = filter_by eligible others in
      let to : (x : Foundation) → In x rows → In x rows' = λ x h.
        let kept = In-filter_by eligible occurrences h in
        filter_by-In eligible others ((same x).0 kept.0) kept.1 in
      let back : (x : Foundation) → In x rows' → In x rows = λ x h.
        let kept = In-filter_by eligible others h in
        filter_by-In eligible occurrences ((same x).1 kept.0) kept.1 in
      let m' = filter_by-In eligible occurrences m good in
      let (best, e, inside, least) = primary_of-earliest rows row m' one in
      let (best', e', inside', least') =
        primary_of-earliest rows' row (to row m') (share_window-kept rows rows' one back) in
      let (kept, ok_best) = In-filter_by eligible occurrences inside in
      let (kept', ok_best') = In-filter_by eligible occurrences (back best' inside') in
      let ids =
        before-same_id best best' total
          (All-In (λ r. occurs_before id_lt r best' ≡ false) best rows' least' (to best inside))
          (All-In (λ r. occurs_before id_lt r best ≡ false) best' rows least
            (back best' inside')) in
      let unique : best ≡ best' = distinct best best' kept kept' ids in
      (best, e, cc (e', unique), kept, ok_best, least)
