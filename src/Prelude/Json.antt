-- ===== src/Prelude/Json.antt =====
-- Decoded JSON, as the backend reads it from vendors and from JSON columns, and Python's `dict.get`.
use Prim.Native.String.{String}
use mathlib.Core.Bool.{Bool, true, false}
use mathlib.Core.Option.{Option, none, some}
use options_anomaly_scanner.Prelude.Tests.{if◌then◌else◌}
use options_anomaly_scanner.Prelude.Eq.{string_eq}

-- The numbers are a parameter; `null` is None.
mutual
  pub data Json (N : Type 0) : Type 0 where
    null : Json N
    boolean : Bool → Json N
    number : N → Json N
    text : String → Json N
    array : Items N → Json N
    object : Fields N → Json N

  pub data Items (N : Type 0) : Type 0 where
    no_items : Items N
    item : Json N → Items N → Items N

  pub data Fields (N : Type 0) : Type 0 where
    no_fields : Fields N
    field : String → Json N → Fields N → Fields N

module _ {N : Type 0} where
  unfoldable pub find_field : String → Fields N → Option (Json N)
  find_field key no_fields = none
  find_field key (field k v rest) = if string_eq.beq k key then some v else find_field key rest

  abbrev pub or_default : Option (Json N) → Json N → Json N
  or_default none default = default
  or_default (some v) default = v

  -- d.get(key, default)
  unfoldable pub get_default : String → Json N → Fields N → Json N
  unfolding find_field
  get_default key default d = or_default (find_field key d) default

  -- d.get(key)
  unfoldable pub get : String → Fields N → Json N
  unfolding get_default
  get key d = get_default key null d

  abbrev pub is_null : Json N → Bool
  is_null null = true
  is_null _ = false

  abbrev pub is_text : String → Json N → Bool
  is_text s (text t) = string_eq.beq t s
  is_text s _ = false

  abbrev pub is_true : Json N → Bool
  is_true (boolean b) = b
  is_true _ = false

  -- `value if isinstance(value, dict) else {}`
  abbrev pub object_or_empty : Json N → Fields N
  object_or_empty (object d) = d
  object_or_empty _ = no_fields

  -- `value if value is not None else other`
  abbrev pub or_else : Json N → Json N → Json N
  or_else null other = other
  or_else v other = v
