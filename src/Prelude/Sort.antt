-- ===== src/Prelude/Sort.antt =====
-- Python's `sorted`, which is stable, by a strict Boolean order on keys.
pub mod Least
use mathlib.Core.Path.{◌≡◌}
use mathlib.Core.Bool.{Bool}
use mathlib.Core.Logic.{◌⊎◌, inl, inr}
use mathlib.Core.List.{List, [], ◌∷◌}
use options_anomaly_scanner.Prelude.Tests.{if◌then◌else◌, Bool-cases}
use options_anomaly_scanner.Prelude.Lists.{In, here, there, In-cons}

module _ {ℓ} {A : Type ℓ} (lt : A → A → Bool) where
  -- Before the first item that is not smaller, so that equal items keep their order.
  unfoldable pub insert_by : A → List A → List A
  insert_by x [] = x ∷ []
  insert_by x (y ∷ ys) = if lt y x then y ∷ insert_by x ys else x ∷ y ∷ ys

  unfoldable pub sort_by : List A → List A
  unfolding insert_by
  sort_by [] = []
  sort_by (x ∷ xs) = insert_by x (sort_by xs)

  -- Sorting keeps the members.
  pub In-insert_by : {a : A} (x : A) (ys : List A) → In a (insert_by x ys) → (a ≡ x) ⊎ In a ys
  unfolding insert_by
  In-insert_by x [] m = In-cons m
  In-insert_by {a} x (y ∷ ys) m = elim (Bool-cases (lt y x)) [
    | inl e ↦
        let m' : In a (y ∷ insert_by x ys) = rw e at m in
        elim (In-cons m') [
          | inl q ↦ inr (here q)
          | inr r ↦ elim (In-insert_by x ys r) [ inl q ↦ inl q | inr s ↦ inr (there s) ]
        ]
    | inr e ↦ let m' : In a (x ∷ y ∷ ys) = rw e at m in In-cons m'
  ]

  pub insert_by-In : {a : A} (x : A) (ys : List A) → (a ≡ x) ⊎ In a ys → In a (insert_by x ys)
  unfolding insert_by
  insert_by-In x [] (inl q) = here q
  insert_by-In x [] (inr m) = elim m [ ]
  insert_by-In x (y ∷ ys) (inl q) = elim (Bool-cases (lt y x)) [
    | inl e ↦ rw e (there (insert_by-In x ys (inl q)))
    | inr e ↦ rw e (here q)
  ]
  insert_by-In x (y ∷ ys) (inr (here q)) = elim (Bool-cases (lt y x)) [
    | inl e ↦ rw e (here q)
    | inr e ↦ rw e (there (here q))
  ]
  insert_by-In x (y ∷ ys) (inr (there m)) = elim (Bool-cases (lt y x)) [
    | inl e ↦ rw e (there (insert_by-In x ys (inr m)))
    | inr e ↦ rw e (there (there m))
  ]

  pub In-sort_by : {a : A} (xs : List A) → In a (sort_by xs) → In a xs
  unfolding sort_by
  In-sort_by [] m = m
  In-sort_by (x ∷ xs) m = elim (In-insert_by x (sort_by xs) m) [
    | inl q ↦ here q
    | inr r ↦ there (In-sort_by xs r)
  ]

  pub sort_by-In : {a : A} (xs : List A) → In a xs → In a (sort_by xs)
  unfolding sort_by
  sort_by-In [] m = m
  sort_by-In (x ∷ xs) (here q) = insert_by-In x (sort_by xs) (inl q)
  sort_by-In (x ∷ xs) (there m) = insert_by-In x (sort_by xs) (inr (sort_by-In xs m))
