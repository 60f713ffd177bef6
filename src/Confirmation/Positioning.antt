-- ===== src/Confirmation/Positioning.antt =====
-- backend/app/confirmation/state_v2.py: the evidence families of a candidate and their breadth.
pub mod Families
use Prim.Native.String.{String}
use options_anomaly_scanner.Prelude.{
  ℕ, zero, suc, ◌≡◌, refl, ◌↔◌, Bool, true, false, ◌&&◌, ◌||◌, Option, none, some, List, [], ◌∷◌,
  arith, if◌then◌else◌, length, any_by, In, here, there, In-cons, sym, ap, ◌∙◌, inl, inr,
  Bool-cases, ◌≤◌, ◌==◌,
}
use options_anomaly_scanner.Prelude.Eq.{string_eq}
use options_anomaly_scanner.Prelude.Json.{Json, Fields, no_fields, field, get, is_true}
use options_anomaly_scanner.Prelude.Floats.{Floats, number_of, present_number}

pub data Presence : Type 0 where
  present : Presence
  absent : Presence
  not_yet_available : Presence

pub data Family : Type 0 where
  radar_event_family : Family
  contract_persistence_family : Family
  expiry_persistence_family : Family
  structure_family : Family
  cluster_family : Family

pub data Breadth : Type 0 where
  no_evidence : Breadth
  single_evidence : Breadth
  multi_evidence : Breadth

-- The dict of presence states, by family.
pub record PresenceStates : Type 0 where
  pub radar_event : Presence
  pub contract_persistence : Presence
  pub expiry_persistence : Presence
  pub structure : Presence
  pub cluster : Presence

-- A cluster that counts the candidate's contract among its sources.
pub record ClusterMembership (N : Type 0) : Type 0 where
  pub cluster_id : ℕ
  pub right : String
  pub score : Option N
  pub classification : String

pub record PositioningState (N : Type 0) : Type 0 where
  pub presence_states : PresenceStates
  pub evidence_family_count : ℕ
  pub evidence_breadth : Breadth
  pub present_evidence_families : List Family
  pub radar_event : Fields N
  pub contract_persistence_score : Json N
  pub expiry_persistence_score : Json N
  pub structure_score : Json N
  pub exact_cluster_membership : List (ClusterMembership N)

-- state.endswith("_PRESENT")
abbrev pub is_present : Presence → Bool
is_present present = true
is_present absent = false
is_present not_yet_available = false

abbrev pub families : PresenceStates → List (Family × Presence)
families s =
    (radar_event_family, s.radar_event)
    ∷ (contract_persistence_family, s.contract_persistence)
    ∷ (expiry_persistence_family, s.expiry_persistence)
    ∷ (structure_family, s.structure)
    ∷ (cluster_family, s.cluster)
    ∷ []

unfoldable pub present_families : List (Family × Presence) → List Family
present_families [] = []
present_families ((family, state) ∷ rest) =
    let others = present_families rest in if is_present state then family ∷ others else others

abbrev pub breadth_of : ℕ → Breadth
breadth_of zero = no_evidence
breadth_of (suc zero) = single_evidence
breadth_of (suc (suc n)) = multi_evidence

abbrev presence_if : Bool → Presence
presence_if true = present
presence_if false = absent

abbrev is_nonempty {ℓ} : {A : Type ℓ} → List A → Bool
is_nonempty [] = false
is_nonempty (x ∷ xs) = true

-- `confidence in {None, "INSUFFICIENT", "LOW"}`
abbrev low_confidence : Option String → Bool
low_confidence none = true
low_confidence (some c) = string_eq.beq c "INSUFFICIENT" || string_eq.beq c "LOW"

module _ {N : Type 0} (f : Floats N) where
  abbrev below_three : Option N → Bool
  below_three none = true
  below_three (some n) = f.lt n f.three_value

  unfoldable pub persistence_presence :
      (score : Json N) (confidence : Option String) (count : Json N) → Presence
  persistence_presence score confidence count =
      if present_number f score
      then present
      else if low_confidence confidence && below_three (number_of f count)
      then not_yet_available
      else absent

-- {key: d.get(key) for key in keys}
select_keys : {N : Type 0} → List String → Fields N → Fields N
select_keys [] d = no_fields
select_keys (key ∷ keys) d = field key (get key d) (select_keys keys d)

-- What the archived rows say of the history of the contract or of the expiry.
pub record History (N : Type 0) : Type 0 where
  pub confidence : Option String
  pub count : Json N

module _ {N : Type 0} (f : Floats N) where
  unfoldable pub presence_states_of :
      Fields N
      → List String
      → (contract expiry : History N) → List (ClusterMembership N)
      → PresenceStates
  unfolding any_by persistence_presence
  presence_states_of phase2a trigger_sources contract expiry clusters = record {
    radar_event = presence_if (
        is_true (get "radar_material_event" phase2a)
        || any_by (string_eq.beq "RADAR_EVENT") trigger_sources);
    contract_persistence =
        persistence_presence f (get "contract_persistence" phase2a) contract.confidence
          contract.count;
    expiry_persistence =
        persistence_presence f (get "expiry_persistence" phase2a) expiry.confidence expiry.count;
    structure = presence_if (present_number f (get "structure_score" phase2a));
    cluster = presence_if (is_nonempty clusters);
  }

  unfoldable pub build_positioning_state :
      Fields N
      → List String
      → (contract expiry : History N) → List (ClusterMembership N)
      → PositioningState N
  unfolding present_families select_keys
  build_positioning_state phase2a trigger_sources contract expiry clusters =
      let states = presence_states_of phase2a trigger_sources contract expiry clusters in
      let present = present_families (families states) in
      record {
        presence_states = states;
        evidence_family_count = length present;
        evidence_breadth = breadth_of (length present);
        present_evidence_families = present;
        radar_event =
            select_keys
              ("radar_material_event" ∷ "radar_observation_date" ∷ "premium_usd" ∷ "oi_diff"
                ∷ "relative_oi_change" ∷ "volume" ∷ "trades" ∷ "archive_completeness" ∷ [])
              phase2a;
        contract_persistence_score = get "contract_persistence" phase2a;
        expiry_persistence_score = get "expiry_persistence" phase2a;
        structure_score = get "structure_score" phase2a;
        exact_cluster_membership = clusters;
      }
