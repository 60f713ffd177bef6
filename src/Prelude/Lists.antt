-- ===== src/Prelude/Lists.antt =====
-- Lists measured by native numbers, filtered by Boolean tests, and predicates on their members.
use Prim.Native.Nat.{ℕ, zero, suc, ◌+◌}
use mathlib.Core.Path.{◌≡◌, refl, sym, ap, ◌∙◌}
use mathlib.Core.Bool.{Bool, true, false, not, ◌&&◌, ◌||◌}
use mathlib.Core.Logic.{◌⊎◌, inl, inr}
use mathlib.Core.List.{List, [], ◌∷◌, ◌++◌}
use mathlib.Core.Option.{Option, none, some}
use native.Mathlib.Omega.{arith}
use options_anomaly_scanner.Prelude.Tests.{if◌then◌else◌, Bool-cases, ◌==◌}

module _ {ℓ} {A : Type ℓ} where
  abbrev pub length : List A → ℕ
  length [] = 0
  length (x ∷ xs) = suc (length xs)

  abbrev pub take : ℕ → List A → List A
  take zero xs = []
  take (suc n) [] = []
  take (suc n) (x ∷ xs) = x ∷ take n xs

  pub length-append : (xs ys : List A) → length (xs ++ ys) ≡ length xs + length ys
  length-append [] ys = omega arith
  length-append (x ∷ xs) ys = omega (arith, length-append xs ys)

-- Comprehensions `[row for row in rows if test(row)]`, and `any`, `all` and `next(..., None)`.
module _ {ℓ} {A : Type ℓ} (p : A → Bool) where
  unfoldable pub filter_by : List A → List A
  filter_by [] = []
  filter_by (x ∷ xs) = let rest = filter_by xs in if p x then x ∷ rest else rest

  unfoldable pub any_by : List A → Bool
  any_by [] = false
  any_by (x ∷ xs) = p x || any_by xs

  unfoldable pub all_by : List A → Bool
  all_by [] = true
  all_by (x ∷ xs) = p x && all_by xs

  unfoldable pub find_by : List A → Option A
  find_by [] = none
  find_by (x ∷ xs) = if p x then some x else find_by xs

  unfoldable pub count_by : List A → ℕ
  count_by [] = 0
  count_by (x ∷ xs) = (if p x then 1 else 0) + count_by xs

module _ {ℓ} {A : Type ℓ} (p : A → Bool) where
  pub any_by-filter_by : (xs : List A) → any_by p xs ≡ not (length (filter_by p xs) == 0)
  unfolding any_by filter_by
  any_by-filter_by [] = refl
  any_by-filter_by (x ∷ xs) = ground (arith, any_by-filter_by xs)

-- Membership as data that can be matched.
pub data In {ℓ} {A : Type ℓ} (a : A) : List A → Type ℓ where
  here : {x : A} {xs : List A} → a ≡ x → In a (x ∷ xs)
  there : {x : A} {xs : List A} → In a xs → In a (x ∷ xs)

abbrev pub All {ℓ κ} : {Item : Type ℓ} → (Item → Type κ) → List Item → Type κ
All Holds [] = Unit
All Holds (first ∷ rest) = Holds first × All Holds rest

module _ {ℓ κ} {A : Type ℓ} (P : A → Type κ) where
  pub All-In : (a : A) (xs : List A) → All P xs → In a xs → P a
  All-In a [] h m = elim m [ ]
  All-In a (x ∷ xs) h (here e) = rw e h.0
  All-In a (x ∷ xs) h (there m) = All-In a xs h.1 m

  pub All-append : (front back : List A) → All P front → All P back → All P (front ++ back)
  All-append [] back f b = b
  All-append (x ∷ front) back f b = (f.0, All-append front back f.1 b)

  pub All-of_In : (xs : List A) → ((a : A) → In a xs → P a) → All P xs
  All-of_In [] f = tt
  All-of_In (x ∷ xs) f = (f x (here refl), All-of_In xs λ a m. f a (there m))

module _ {ℓ} {A : Type ℓ} where
  pub In-append_left : {a : A} (xs ys : List A) → In a xs → In a (xs ++ ys)
  In-append_left [] ys m = elim m [ ]
  In-append_left (x ∷ xs) ys (here e) = here e
  In-append_left (x ∷ xs) ys (there m) = there (In-append_left xs ys m)

  pub In-append_right : {a : A} (xs ys : List A) → In a ys → In a (xs ++ ys)
  In-append_right [] ys m = m
  In-append_right (x ∷ xs) ys m = there (In-append_right xs ys m)

  pub In-append : {a : A} (xs ys : List A) → In a (xs ++ ys) → In a xs ⊎ In a ys
  In-append [] ys m = inr m
  In-append (x ∷ xs) ys (here e) = inl (here e)
  In-append (x ∷ xs) ys (there m) = elim (In-append xs ys m) [
    | inl l ↦ inl (there l)
    | inr r ↦ inr r
  ]

  pub In-cons : {a x : A} {xs : List A} → In a (x ∷ xs) → (a ≡ x) ⊎ In a xs
  In-cons (here e) = inl e
  In-cons (there m) = inr m

  pub In-nil : {a : A} → In a [] → ⊥
  In-nil m = elim m [ ]

-- A filtered list holds exactly the members that pass the test.
module _ {ℓ} {A : Type ℓ} (p : A → Bool) where
  pub In-filter_by : {a : A} (xs : List A) → In a (filter_by p xs) → In a xs × (p a ≡ true)
  unfolding filter_by
  In-filter_by [] m = absurd (In-nil m)
  In-filter_by {a} (x ∷ xs) m = elim (Bool-cases (p x)) [
    | inl e ↦
        let m' : In a (x ∷ filter_by p xs) = rw e at m in
        elim (In-cons m') [
          | inl q ↦ (here q, rw q e)
          | inr r ↦ let h = In-filter_by xs r in (there h.0, h.1)
        ]
    | inr e ↦
        let m' : In a (filter_by p xs) = rw e at m in let h = In-filter_by xs m' in (there h.0, h.1)
  ]

  pub filter_by-In : {a : A} (xs : List A) → In a xs → p a ≡ true → In a (filter_by p xs)
  unfolding filter_by
  filter_by-In [] m e = elim m [ ]
  filter_by-In {a} (x ∷ xs) (here q) e = rw (ap p (sym q) ∙ e) (here q)
  filter_by-In {a} (x ∷ xs) (there m) e = elim (Bool-cases (p x)) [
    | inl t ↦ rw t (there (filter_by-In xs m e))
    | inr f ↦ rw f (filter_by-In xs m e)
  ]
