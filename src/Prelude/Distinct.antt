-- ===== src/Prelude/Distinct.antt =====
-- Python's dict.fromkeys on texts.
use Prim.Native.String.{String}
use mathlib.Core.List.{List, [], ◌∷◌}
use options_anomaly_scanner.Prelude.Tests.{if◌then◌else◌}
use options_anomaly_scanner.Prelude.Lists.{any_by}
use options_anomaly_scanner.Prelude.Eq.{string_eq}

-- Each text once, where it comes first; `seen` holds those before.
unfoldable pub distinct_from : List String → List String → List String
distinct_from seen [] = []
distinct_from seen (s ∷ rest) =
    let kept = distinct_from (s ∷ seen) rest in
    let skipped = distinct_from seen rest in
    if any_by (string_eq.beq s) seen then skipped else s ∷ kept
