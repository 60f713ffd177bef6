-- ===== src/Prelude/Order.antt =====
-- The order of decimals and floating-point numbers that are taken to be finite: on these `<` is a
-- strict linear order up to the equality of Python's numbers.
use mathlib.Core.Path.{◌≡◌}
use mathlib.Core.Bool.{Bool, true, false}

pub record LinearOrder (A : Type 0) : Type 0 where
  pub lt : A → A → Bool
  pub lt_irrefl : (a : A) → lt a a ≡ false
  pub lt_trans : (a b c : A) → lt a b ≡ true → lt b c ≡ true → lt a c ≡ true
  -- what is not smaller is transitive too
  pub ge_trans : (a b c : A) → lt a b ≡ false → lt b c ≡ false → lt a c ≡ false
