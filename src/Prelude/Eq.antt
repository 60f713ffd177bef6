-- ===== src/Prelude/Eq.antt =====
-- Boolean equality of keys as an interface, with the instances that the program compares by.
use Prim.Native.Nat.{ℕ}
use Prim.Native.String.{String}
use mathlib.Core.Path.{◌≡◌, refl, ap}
use mathlib.Core.Logic.{◌↔◌}
use mathlib.Core.Bool.{Bool, true, ◌&&◌}
use native.Mathlib.Omega.{arith}
use text.Mathlib.Text.{◌==◌ as str_eq}
use text.Mathlib.TextEquality.{eq_iff}
use options_anomaly_scanner.Prelude.Tests.{==_iff, ◌==◌}

pub record Eq {ℓ} (A : Type ℓ) : Type ℓ where
  pub beq : (left right : A) → Bool
  -- the test is true on equal keys only
  pub beq_iff : (left right : A) → (beq left right ≡ true) ↔ (left ≡ right)

-- Python's `==` of two strings.
instance abbrev pub string_eq : Eq String
string_eq = record { beq = λ s t. str_eq s t; beq_iff = λ s t. eq_iff s t }

-- Python's `==` of two dates, which are ordinals here.
instance abbrev pub nat_eq : Eq ℕ
nat_eq = record { beq = λ m n. m == n; beq_iff = λ m n. ==_iff m n }

module _ {ℓ κ} {A : Type ℓ} {B : Type κ} (a : Eq A) (b : Eq B) where
  abbrev pub pair_beq : A × B → A × B → Bool
  pair_beq p q = a.beq p.0 q.0 && b.beq p.1 q.1

  both : (x y : Bool) → (x && y) ≡ true → (x ≡ true) × (y ≡ true)
  both x y h = ground arith

  pub pair_beq_iff : (p q : A × B) → (pair_beq p q ≡ true) ↔ (p ≡ q)
  pair_beq_iff p q = (
    λ h. let hs = both _ _ h in λ i. ((a.beq_iff p.0 q.0).0 hs.0 i, (b.beq_iff p.1 q.1).0 hs.1 i),
    λ e.
        let l = (a.beq_iff p.0 q.0).1 (ap (λ (r : A × B). r.0) e) in
        let r = (b.beq_iff p.1 q.1).1 (ap (λ (s : A × B). s.1) e) in rw (l, r),
  )

-- The key `(ticker, expiration)`.
instance abbrev pub ticker_date_eq : Eq (String × ℕ)
ticker_date_eq = record { beq = pair_beq string_eq nat_eq; beq_iff = pair_beq_iff string_eq nat_eq }

module _ {ℓ} {A : Type ℓ} (e : Eq A) where
  pub beq_refl : (a : A) → e.beq a a ≡ true
  beq_refl a = (e.beq_iff a a).1 refl
