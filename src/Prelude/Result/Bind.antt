-- ===== src/Prelude/Result/Bind.antt =====
-- What a computation that returned went through.
use mathlib.Core.Path.{◌≡◌, refl, ap}
use mathlib.Core.Bool.{Bool, true, false, false≢true}
use options_anomaly_scanner.Prelude.Result.{Result, Error, ok, err, ◌>>=◌, ◌>>◌, raise_if}

abbrev is_ok {ℓ} : {A : Type ℓ} → Result A → Bool
is_ok (err e) = false
is_ok (ok a) = true

abbrev value_or {ℓ} : {A : Type ℓ} → A → Result A → A
value_or d (err e) = d
value_or d (ok a) = a

pub err≢ok {ℓ} : {A : Type ℓ} {e : Error} {a : A} → ¬ (err e ≡ ok a)
err≢ok h = false≢true (ap is_ok h)

pub ok-injective {ℓ} : {A : Type ℓ} {a b : A} → ok a ≡ ok b → a ≡ b
ok-injective {a} h = ap (value_or a) h

pub bind-ok {ℓ κ} :
    {A : Type ℓ} {B : Type κ} (r : Result A) (k : A → Result B) {b : B}
    → (r >>= k) ≡ ok b
    → (a : A) × (r ≡ ok a) × (k a ≡ ok b)
bind-ok (err e) k h = absurd (err≢ok h)
bind-ok (ok a) k h = (a, refl, h)

pub raise_if-ok {ℓ} :
    {B : Type ℓ} (test : Bool) (e : Error) (next : Result B) {b : B}
    → (raise_if test e >> next) ≡ ok b
    → (test ≡ false) × (next ≡ ok b)
raise_if-ok true e next h = absurd (err≢ok h)
raise_if-ok false e next h = (refl, h)
