-- ===== src/Prelude/Dict.antt =====
-- Python's `dict`: an association list in the order of first insertion.
use mathlib.Core.Path.{◌≡◌, refl, sym, ap}
use mathlib.Core.Bool.{false}
use mathlib.Core.Option.{Option, none, some}
use mathlib.Core.List.{List, [], ◌∷◌}
use mathlib.Core.Logic.{inl, inr}
use native.Mathlib.Omega.{arith}
use options_anomaly_scanner.Prelude.Tests.{if◌then◌else◌, Bool-cases}
use options_anomaly_scanner.Prelude.Eq.{Eq, beq_refl}
use options_anomaly_scanner.Prelude.Lists.{In, here, there}

abbrev pub Dict {ℓ κ} : Type ℓ → Type κ → Type (ℓ ⊔ κ)
Dict K V = List (K × V)

module _ {ℓ κ} {K : Type ℓ} {V : Type κ} ⦃e : Eq K⦄ where
  -- d.get(k)
  unfoldable pub lookup : K → Dict K V → Option V
  lookup k [] = none
  lookup k ((j, v) ∷ d) = if e.beq j k then some v else lookup k d

  -- d[k] = v: an old key keeps its place
  unfoldable pub put : K → V → Dict K V → Dict K V
  put k v [] = (k, v) ∷ []
  put k v ((j, w) ∷ d) = if e.beq j k then (j, v) ∷ d else (j, w) ∷ put k v d

  pub lookup-put :
      (k j : K) (v : V) (d : Dict K V)
      → lookup j (put k v d) ≡ (if e.beq k j then some v else lookup j d)
  unfolding lookup put
  lookup-put k j v [] = refl
  lookup-put k j v ((i, w) ∷ d) =
      ground (arith, e.beq_iff k j, e.beq_iff i k, e.beq_iff i j, lookup-put k j v d)

-- No key twice: `put` keeps it, and with it an entry is what its key looks up.
module _ {ℓ κ} {K : Type ℓ} {V : Type κ} ⦃e : Eq K⦄ where
  abbrev pub DistinctKeys : Dict K V → Type κ
  DistinctKeys [] = Unit
  DistinctKeys ((k, v) ∷ d) = (lookup k d ≡ none) × DistinctKeys d

  pub put-DistinctKeys : (k : K) (v : V) (d : Dict K V) → DistinctKeys d → DistinctKeys (put k v d)
  unfolding put lookup
  put-DistinctKeys k v [] h = (refl, tt)
  put-DistinctKeys k v ((j, w) ∷ d) h = elim (Bool-cases (e.beq j k)) [
    | inl same ↦ rw same h
    | inr differ ↦ rw differ (absent k j v d differ h.0, put-DistinctKeys k v d h.1)
  ]
    where
      absent :
          (k j : K) (v : V) (d : Dict K V)
          → e.beq j k ≡ false
          → lookup j d ≡ none
          → lookup j (put k v d) ≡ none
      absent k j v d differ h = rw lookup-put (ground (arith, e.beq_iff k j, e.beq_iff j k))

  pub In-lookup :
      (k : K) (v : V) (d : Dict K V) → DistinctKeys d → In (k, v) d → lookup k d ≡ some v
  unfolding lookup
  In-lookup k v [] h m = elim m [ ]
  In-lookup k v ((j, w) ∷ d) h (here q) =
      rw (ap (λ (p : K × V). p.0) q, beq_refl e j) (ap (λ (p : K × V). some p.1) (sym q))
  In-lookup k v ((j, w) ∷ d) h (there m) = ground (arith, e.beq_iff j k, In-lookup k v d h.1 m)

-- d.get(k, default)
abbrev pub get_or {ℓ} : {A : Type ℓ} → Option A → A → A
get_or none d = d
get_or (some a) d = a
