-- ===== src/Confirmation/Positioning/Families.antt =====
-- The families of build_positioning_state of backend/app/confirmation/state_v2.py.
use Prim.Native.String.{String}
use options_anomaly_scanner.Prelude.{
  ℕ, zero, suc, ◌≡◌, refl, ◌↔◌, true, List, [], ◌∷◌, arith, if◌then◌else◌, length, In, here, there,
  In-cons, sym, ap, ◌∙◌, inl, inr, Bool-cases, ◌≤◌, ◌==◌,
}
use options_anomaly_scanner.Prelude.Eq.{string_eq}
use options_anomaly_scanner.Prelude.Json.{Fields}
use options_anomaly_scanner.Prelude.Floats.{Floats}
use options_anomaly_scanner.Confirmation.Positioning.{
  Presence, Family, radar_event_family, contract_persistence_family, expiry_persistence_family,
  structure_family, cluster_family, no_evidence, single_evidence, multi_evidence, PresenceStates,
  ClusterMembership, is_present, families, present_families, breadth_of, History,
  presence_states_of, build_positioning_state,
}

abbrev pub state_of : Family → PresenceStates → Presence
state_of radar_event_family s = s.radar_event
state_of contract_persistence_family s = s.contract_persistence
state_of expiry_persistence_family s = s.expiry_persistence
state_of structure_family s = s.structure
state_of cluster_family s = s.cluster

same :
    (s : PresenceStates) (family g : Family) (p : Presence)
    → ◌≡◌ {A = Family × Presence} (family, p) (g, state_of g s)
    → p ≡ state_of family s
same s family g p e =
    rw (ap (λ (r : Family × Presence). r.0) e) (ap (λ (r : Family × Presence). r.1) e)

In-families :
    (family : Family) (p : Presence) (s : PresenceStates)
    → In (family, p) (families s)
    → p ≡ state_of family s
In-families family p s (here e) = same s family radar_event_family p e
In-families family p s (there (here e)) = same s family contract_persistence_family p e
In-families family p s (there (there (here e))) = same s family expiry_persistence_family p e
In-families family p s (there (there (there (here e)))) = same s family structure_family p e
In-families family p s (there (there (there (there (here e))))) = same s family cluster_family p e
In-families family p s (there (there (there (there (there m))))) = elim m [ ]

families-In : (family : Family) (s : PresenceStates) → In (family, state_of family s) (families s)
families-In radar_event_family s = here refl
families-In contract_persistence_family s = there (here refl)
families-In expiry_persistence_family s = there (there (here refl))
families-In structure_family s = there (there (there (here refl)))
families-In cluster_family s = there (there (there (there (here refl))))

In-present :
    (family : Family) (d : List (Family × Presence))
    → In family (present_families d)
    → (p : Presence) × In (family, p) d × (is_present p ≡ true)
unfolding present_families
In-present family [] m = elim m [ ]
In-present family ((g, q) ∷ d) m = elim (Bool-cases (is_present q)) [
  | inl e ↦
      let m' : In family (g ∷ present_families d) = rw e at m in
      elim (In-cons m') [
        | inl same ↦ (q, here (rw same refl), e)
        | inr r ↦ let h = In-present family d r in (h.0, there h.1, h.2)
      ]
  | inr e ↦
      let m' : In family (present_families d) = rw e at m in
      let h = In-present family d m' in (h.0, there h.1, h.2)
]

present-In :
    (family : Family) (p : Presence) (d : List (Family × Presence))
    → In (family, p) d
    → is_present p ≡ true
    → In family (present_families d)
unfolding present_families
present-In family p [] m e = elim m [ ]
present-In family p ((g, q) ∷ d) (here same) e =
    let at_q : is_present q ≡ true =
      ap (λ (r : Family × Presence). is_present r.1) (sym same) ∙ e in
    rw at_q (here (ap (λ (r : Family × Presence). r.0) same))
present-In family p ((g, q) ∷ d) (there m) e = elim (Bool-cases (is_present q)) [
  | inl t ↦ rw t (there (present-In family p d m e))
  | inr t ↦ rw t (present-In family p d m e)
]

length-present : (d : List (Family × Presence)) → length (present_families d) ≤ length d
unfolding present_families
length-present [] = omega arith
length-present ((g, q) ∷ d) = ground (arith, length-present d)

module _ {N : Type 0} (f : Floats N) where
  -- The families that a positioning state lists are exactly those whose presence state is present;
  -- their number is the evidence count, at most five; and the breadth is none, single or multiple
  -- evidence as that number is zero, one or more.
  pub evidence_families :
      (phase2a : Fields N) (sources : List String) (contract expiry : History N)
      (clusters : List (ClusterMembership N)) (family : Family)
      → let st = build_positioning_state f phase2a sources contract expiry clusters in
        (In family st.present_evidence_families
          ↔ (is_present (state_of family st.presence_states) ≡ true))
        × (st.evidence_family_count ≡ length st.present_evidence_families)
        × (st.evidence_family_count ≤ 5)
        × (st.evidence_breadth ≡ (
            if st.evidence_family_count == 0
            then no_evidence
            else if st.evidence_family_count == 1
            then single_evidence
            else multi_evidence))
  unfolding build_positioning_state
  evidence_families phase2a sources contract expiry clusters family =
      let s = presence_states_of f phase2a sources contract expiry clusters in
      (
        (
          λ m.
              let h = In-present family (families s) m in
              ap is_present (sym (In-families family h.0 s h.1)) ∙ h.2,
          λ e. present-In family (state_of family s) (families s) (families-In family s) e,
        ),
        refl,
        length-present (families s),
        breadth-count (length (present_families (families s))),
      )
    where
      breadth-count :
          (n : ℕ)
          → breadth_of n
            ≡ (if n == 0 then no_evidence else if n == 1 then single_evidence else multi_evidence)
      breadth-count zero = refl
      breadth-count (suc zero) = refl
      breadth-count (suc (suc n)) = ground arith
