-- ===== src/Prelude/Sort/Least.antt =====
-- The first item of a sorted list.
use mathlib.Core.Path.{◌≡◌, refl}
use mathlib.Core.Bool.{Bool, true, false}
use mathlib.Core.Option.{Option, none, some}
use mathlib.Core.Logic.{inl, inr}
use mathlib.Core.List.{List, [], ◌∷◌}
use options_anomaly_scanner.Prelude.Tests.{Bool-cases}
use options_anomaly_scanner.Prelude.Lists.{All}
use options_anomaly_scanner.Prelude.Sort.{insert_by, sort_by}

-- `limit(1)`
abbrev pub first {ℓ} : {A : Type ℓ} → List A → Option A
first [] = none
first (x ∷ xs) = some x

-- A strict order, up to items that are equal for it.
pub record WeakOrder {ℓ} {A : Type ℓ} (lt : A → A → Bool) : Type ℓ where
  pub asym : (a b : A) → lt a b ≡ true → lt b a ≡ false
  pub ge_trans : (a b c : A) → lt a b ≡ false → lt b c ≡ false → lt a c ≡ false

module _ {ℓ} {A : Type ℓ} (lt : A → A → Bool) (w : WeakOrder lt) where
  irrefl : (a : A) → lt a a ≡ false
  irrefl a = elim (Bool-cases (lt a a)) [ inl t ↦ w.asym a a t | inr f ↦ f ]

  All-ge_trans :
      (y z : A) (xs : List A)
      → lt y z ≡ false
      → All (λ x. lt x y ≡ false) xs
      → All (λ x. lt x z ≡ false) xs
  All-ge_trans y z [] h k = tt
  All-ge_trans y z (x ∷ xs) h k = (w.ge_trans x y z k.0 h, All-ge_trans y z xs h k.1)

  abbrev IsLeastOf : Option A → List A → Type 0
  IsLeastOf none xs = Unit
  IsLeastOf (some y) xs = All (λ x. lt x y ≡ false) xs

  abbrev IsLost : Option A → List A → Type ℓ
  IsLost none xs = xs ≡ []
  IsLost (some y) xs = Unit

  insert-least :
      (x : A) (s xs : List A)
      → IsLeastOf (first s) xs
      → IsLost (first s) xs
      → IsLeastOf (first (insert_by lt x s)) (x ∷ xs)
  unfolding insert_by
  insert-least x [] xs h e = rw e (irrefl x, tt)
  insert-least x (y ∷ ys) xs h e = elim (Bool-cases (lt y x)) [
    | inl t ↦ rw t (w.asym y x t, h)
    | inr f ↦ rw f (irrefl x, All-ge_trans y x xs f h)
  ]

  insert-kept : (x : A) (s xs : List A) → IsLost (first (insert_by lt x s)) xs
  unfolding insert_by
  insert-kept x [] xs = tt
  insert-kept x (y ∷ ys) xs = elim (Bool-cases (lt y x)) [ inl t ↦ rw t tt | inr f ↦ rw f tt ]

  sort-least :
      (xs : List A) → IsLeastOf (first (sort_by lt xs)) xs × IsLost (first (sort_by lt xs)) xs
  unfolding sort_by
  sort-least [] = (tt, refl)
  sort-least (x ∷ xs) =
      let h = sort-least xs in
      (insert-least x (sort_by lt xs) xs h.0 h.1, insert-kept x (sort_by lt xs) (x ∷ xs))

  -- Nothing in the list is before the first item of the sorted list.
  pub first-sort_by :
      (xs : List A) (y : A) → first (sort_by lt xs) ≡ some y → All (λ x. lt x y ≡ false) xs
  first-sort_by xs y e = let h : IsLeastOf (some y) xs = rw e at (sort-least xs).0 in h

  -- Only the empty list has no first item once sorted.
  pub first-sort_by-eq-none : (xs : List A) → first (sort_by lt xs) ≡ none → xs ≡ []
  first-sort_by-eq-none xs e = let h : IsLost none xs = rw e at (sort-least xs).1 in h
