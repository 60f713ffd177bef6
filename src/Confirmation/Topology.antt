-- ===== src/Confirmation/Topology.antt =====
-- classify_term_topology of backend/app/confirmation/state_v2.py by two strict comparisons.
use options_anomaly_scanner.Prelude.{◌≡◌, Bool, true, false, not, ◌||◌, some, arith, if◌then◌else◌}
use options_anomaly_scanner.Prelude.Json.{Json}
use options_anomaly_scanner.Prelude.Floats.{Floats, number_of}
use options_anomaly_scanner.Confirmation.States.{
  Topology, flat_or_equal, local_peak, local_trough, rising_through_candidate,
  falling_through_candidate, topology_of, classify_term_topology,
}

-- What two comparisons with the candidate say where it is near neither neighbour.
abbrev pub shape : (above_shorter above_longer : Bool) → Topology
shape true true = local_peak
shape true false = rising_through_candidate
shape false true = falling_through_candidate
shape false false = local_trough

module _ {N : Type 0} (f : Floats N) where
  -- The candidate is near a neighbour, or neither above nor below one.
  abbrev pub is_flat : (s c l : N) → Bool
  is_flat s c l =
      f.near c s || f.near c l || not (f.lt s c || f.lt c s) || not (f.lt l c || f.lt c l)

  ladder-shape :
      (s c l : N)
      → topology_of f s c l ≡ (if is_flat s c l then flat_or_equal else shape (f.lt s c) (f.lt l c))
  unfolding topology_of
  ladder-shape s c l = ground (arith, f.lt_asym s c, f.lt_asym c s, f.lt_asym l c, f.lt_asym c l)

  -- The topology of three values that are numbers, NaN and infinities included, is flat exactly
  -- where the candidate is near a neighbour, or is neither above nor below one, as for NaN;
  -- elsewhere it is told by whether the candidate is above the shorter and above the longer
  -- neighbour.
  pub topology_shape :
      (shorter_iv candidate_iv longer_iv : Json N) (s c l : N)
      → number_of f shorter_iv ≡ some s
      → number_of f candidate_iv ≡ some c
      → number_of f longer_iv ≡ some l
      → classify_term_topology f shorter_iv candidate_iv longer_iv
        ≡ (if is_flat s c l then flat_or_equal else shape (f.lt s c) (f.lt l c))
  unfolding classify_term_topology
  topology_shape shorter_iv candidate_iv longer_iv s c l hs hc hl =
      rw (hs, hc, hl) (ladder-shape s c l)
