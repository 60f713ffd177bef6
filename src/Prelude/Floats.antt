-- ===== src/Prelude/Floats.antt =====
-- Python's floats, as far as the confirmation layer uses them. A number of a JSON column is finite;
-- what float reads from a text may be NaN or infinite. So the comparisons are those of floats: two
-- values of which neither is smaller may be unordered.
use Prim.Native.String.{String}
use mathlib.Core.Path.{◌≡◌}
use mathlib.Core.Bool.{Bool, true, false, not, ◌||◌}
use mathlib.Core.Option.{Option, none, some}
use options_anomaly_scanner.Prelude.Tests.{is_some}
use options_anomaly_scanner.Prelude.Eq.{string_eq}
use options_anomaly_scanner.Prelude.Json.{
  Json, null, boolean, number, text, array, object, no_items, item, no_fields, field,
}

pub record Floats (N : Type 0) : Type 0 where
  pub lt : N → N → Bool
  pub zero_value : N
  pub three_value : N
  -- abs(a - b) <= tolerance
  pub near : N → N → Bool
  pub minus : N → N → N
  -- (a + b) / 2
  pub mean : N → N → N
  -- float(text), none for a ValueError
  pub float_text : String → Option N
  pub lt_asym : (a b : N) → lt a b ≡ true → lt b a ≡ false

module _ {N : Type 0} (f : Floats N) where
  -- confirmation/state_v2.py, _number: None, a Boolean and what float refuses give None
  unfoldable pub number_of : Json N → Option N
  number_of (number n) = some n
  number_of (text t) = f.float_text t
  number_of _ = none

  -- bool(value)
  unfoldable pub truthy : Json N → Bool
  truthy null = false
  truthy (boolean b) = b
  truthy (number n) = f.lt n f.zero_value || f.lt f.zero_value n
  truthy (text t) = not (string_eq.beq t "")
  truthy (array no_items) = false
  truthy (array (item x rest)) = true
  truthy (object no_fields) = false
  truthy (object (field k v rest)) = true

  -- _number(value) is not None
  abbrev pub present_number : Json N → Bool
  unfolding number_of
  present_number v = is_some (number_of v)
