-- ===== src/Candidates/Triggers/Known.antt =====
-- What the triggers of backend/app/scanner/candidate_persistence.py hold once they are made.
use Prim.Native.String.{String}
use mathlib.Core.Path.{subst}
use mathlib.Core.Option.{none-ne-some}
use options_anomaly_scanner.Prelude.{
  ℕ, ◌≤◌, ◌≡◌, refl, sym, ap, ◌∙◌, inl, inr, Bool, true, false, not, ◌&&◌, Option, none, some, List,
  [], ◌∷◌, ◌++◌, ltb, arith, find_by, Bool-cases, All, All-append,
}
use options_anomaly_scanner.Prelude.Eq.{string_eq}
use options_anomaly_scanner.Prelude.Result.{ok}
use options_anomaly_scanner.Prelude.Result.Bind.{err≢ok, ok-injective, bind-ok, raise_if-ok}
use options_anomaly_scanner.Candidates.{Anomaly, is_active_family}
use options_anomaly_scanner.Candidates.Triggers.{
  Library, Trigger, is_after, required_datetime, optional_datetime, optional_date, optional_uuid,
  same_key, same_trigger, keep_first, deduplicate_step, deduplicate_from, trigger_of, triggers_of,
  materialize_triggers,
}

-- Everything that the trigger stands on was received and known by the cutoff.
pub record IsKnownBy {J : Type 0} (cutoff : ℕ) (t : Trigger J) : Type 0 where
  pub knowledge : t.trigger_first_knowledge_at ≤ cutoff
  pub receipt : is_after t.source_first_received_at cutoff ≡ false
  pub capture : is_after t.local_captured_at cutoff ≡ false

-- The trigger copies the logical identity of the anomaly.
pub record IsFrom {J : Type 0} (a : Anomaly J) (t : Trigger J) : Type 0 where
  pub family : t.evidence_family ≡ a.evidence_family
  pub source : t.source_evidence_identity ≡ a.source_evidence_identity

module _ {J : Type 0} (lib : Library) (candidate_id cutoff : ℕ) (rule_hash : String) where
  trigger_of-IsKnownBy :
      (a : Anomaly J) (t : Trigger J)
      → trigger_of lib candidate_id cutoff rule_hash a ≡ ok t
      → IsKnownBy cutoff t × IsFrom a t
  unfolding trigger_of
  trigger_of-IsKnownBy a t h =
      let (first, e1, h1) = bind-ok (required_datetime lib a.trigger_first_knowledge_at) _ h in
      let (known, h2) = raise_if-ok (ltb cutoff first) _ _ h1 in
      let (source, e3, h3) = bind-ok (optional_datetime lib a.source_first_received_at) _ h2 in
      let (local, e4, h4) = bind-ok (optional_datetime lib a.local_captured_at) _ h3 in
      let (vendor, e5, h5) = bind-ok (optional_datetime lib a.vendor_observed_at) _ h4 in
      let (received, h6) = raise_if-ok (is_after source cutoff) _ _ h5 in
      let (captured, h7) = raise_if-ok (is_after local cutoff) _ _ h6 in
      let (day, e8, h8) = bind-ok (optional_date lib a.evidence_date) _ h7 in
      let (raw, e9, h9) = bind-ok (optional_uuid lib a.source_raw_payload_id) _ h8 in
      let (radar, e10, h10) = bind-ok (optional_uuid lib a.source_radar_observation_id) _ h9 in
      let (expiry, e11, h11) = bind-ok (optional_uuid lib a.source_expiry_observation_id) _ h10 in
      let (contract, e12, h12) =
        bind-ok (optional_uuid lib a.source_contract_observation_id) _ h11 in
      subst (λ u. IsKnownBy cutoff u × IsFrom a u) (ok-injective h12)
        (
          record { knowledge = ground (arith, known); receipt = received; capture = captured },
          record { family = refl; source = refl },
        )

  -- The triggers of a list of anomalies, one for each, in their order.
  abbrev AreFrom : List (Anomaly J) → List (Trigger J) → Type 0
  AreFrom [] [] = Unit
  AreFrom [] (t ∷ ts) = ⊥
  AreFrom (a ∷ anomalies) [] = ⊥
  AreFrom (a ∷ anomalies) (t ∷ ts) = IsFrom a t × AreFrom anomalies ts

  triggers_of-IsKnownBy :
      (anomalies : List (Anomaly J)) (ts : List (Trigger J))
      → triggers_of lib candidate_id cutoff rule_hash anomalies ≡ ok ts
      → All (IsKnownBy cutoff) ts × AreFrom anomalies ts
  unfolding triggers_of
  triggers_of-IsKnownBy [] ts h =
      subst (λ us. All (IsKnownBy cutoff) us × AreFrom [] us) (ok-injective h) (tt, tt)
  triggers_of-IsKnownBy (a ∷ rest) ts h =
      let (t, e1, h1) = bind-ok (trigger_of lib candidate_id cutoff rule_hash a) _ h in
      let (us, e2, h2) = bind-ok (triggers_of lib candidate_id cutoff rule_hash rest) _ h1 in
      let (known, from) = trigger_of-IsKnownBy a t e1 in
      let (all_known, all_from) = triggers_of-IsKnownBy rest us e2 in
      subst (λ vs. All (IsKnownBy cutoff) vs × AreFrom (a ∷ rest) vs) (ok-injective h2)
        ((known, all_known), (from, all_from))

-- Two triggers of one family and one source evidence.
abbrev pub same_source : {J : Type 0} → Trigger J → Trigger J → Bool
same_source t u =
    string_eq.beq t.evidence_family u.evidence_family
    && string_eq.beq t.source_evidence_identity u.source_evidence_identity

abbrev pub AllDistinct : {J : Type 0} → List (Trigger J) → Type 0
AllDistinct [] = Unit
AllDistinct (t ∷ ts) = All (λ u. same_source t u ≡ false) ts × AllDistinct ts

module _ {J : Type 0} (lib : Library) where
  -- No two of the anomalies have one key, and their families are active.
  abbrev IsDeduplicated : List (Anomaly J) → Type 0
  IsDeduplicated [] = Unit
  IsDeduplicated (a ∷ rest) =
      (is_active_family a.evidence_family ≡ true)
      × All (λ b. same_key a b ≡ false) rest
      × IsDeduplicated rest

  find_by-none :
      (a : Anomaly J) (seen : List (Anomaly J))
      → find_by (same_key a) seen ≡ none
      → All (λ b. same_key b a ≡ false) seen
  unfolding find_by
  find_by-none a [] e = tt
  find_by-none a (b ∷ seen) e = elim (Bool-cases (same_key a b)) [
    | inl t ↦ absurd (none-ne-some _ (sym (rw t at e)))
    | inr f ↦ (
      ground (
        arith,
        f,
        string_eq.beq_iff a.evidence_family b.evidence_family,
        string_eq.beq_iff b.evidence_family a.evidence_family,
        string_eq.beq_iff a.source_evidence_identity b.source_evidence_identity,
        string_eq.beq_iff b.source_evidence_identity a.source_evidence_identity,
      ),
      find_by-none a seen (rw f at e),
    )
  ]

  append-IsDeduplicated :
      (a : Anomaly J) (seen : List (Anomaly J))
      → is_active_family a.evidence_family ≡ true
      → All (λ b. same_key b a ≡ false) seen
      → IsDeduplicated seen
      → IsDeduplicated (seen ++ a ∷ [])
  append-IsDeduplicated a [] active new h = (active, tt, tt)
  append-IsDeduplicated a (b ∷ seen) active new h = (
    h.0,
    All-append (λ c. same_key b c ≡ false) seen (a ∷ []) h.1 (new.0, tt),
    append-IsDeduplicated a seen active new.1 h.2,
  )

  keep_first-IsDeduplicated :
      (o : Option (Anomaly J)) (a : Anomaly J) (seen next : List (Anomaly J))
      → find_by (same_key a) seen ≡ o
      → is_active_family a.evidence_family ≡ true
      → IsDeduplicated seen
      → keep_first o a seen ≡ ok next
      → IsDeduplicated next
  unfolding keep_first
  keep_first-IsDeduplicated none a seen next e active h r =
      subst (λ l. IsDeduplicated l) (ok-injective r)
        (append-IsDeduplicated a seen active (find_by-none a seen e) h)
  keep_first-IsDeduplicated (some b) a seen next e active h r =
      elim (Bool-cases (same_trigger b a)) [
        | inl t ↦ subst (λ l. IsDeduplicated l) (ok-injective (rw t at r)) h
        | inr f ↦ absurd (err≢ok (rw f at r))
      ]

  deduplicate_from-IsDeduplicated :
      (seen anomalies kept : List (Anomaly J))
      → IsDeduplicated seen
      → deduplicate_from lib seen anomalies ≡ ok kept
      → IsDeduplicated kept
  unfolding deduplicate_from deduplicate_step
  deduplicate_from-IsDeduplicated seen [] kept h e =
      subst (λ l. IsDeduplicated l) (ok-injective e) h
  deduplicate_from-IsDeduplicated seen (a ∷ rest) kept h e =
      let (next, e1, e2) = bind-ok (deduplicate_step lib seen a) _ e in
      let (active, e3) = raise_if-ok (not (is_active_family a.evidence_family)) _ _ e1 in
      let alive : is_active_family a.evidence_family ≡ true = ground (arith, active) in
      let (named, e4) = raise_if-ok _ _ _ e3 in
      deduplicate_from-IsDeduplicated next rest kept
        (keep_first-IsDeduplicated (find_by (same_key a) seen) a seen next refl alive h e4) e2

module _ {J : Type 0} (lib : Library) (candidate_id cutoff : ℕ) (rule_hash : String) where
  differs-from :
      (a : Anomaly J) (t : Trigger J) (others : List (Anomaly J)) (us : List (Trigger J))
      → IsFrom a t
      → AreFrom lib candidate_id cutoff rule_hash others us
      → All (λ b. same_key a b ≡ false) others
      → All (λ u. same_source t u ≡ false) us
  differs-from a t [] [] from all h = tt
  differs-from a t [] (u ∷ us) from all h = absurd all
  differs-from a t (b ∷ others) [] from all h = absurd all
  differs-from a t (b ∷ others) (u ∷ us) from all h = (
    rw (from.family, from.source, all.0.family, all.0.source) h.0,
    differs-from a t others us from all.1 h.1,
  )

  AllDistinct-from :
      (anomalies : List (Anomaly J)) (ts : List (Trigger J))
      → AreFrom lib candidate_id cutoff rule_hash anomalies ts
      → IsDeduplicated lib anomalies
      → AllDistinct ts × All (λ t. is_active_family t.evidence_family ≡ true) ts
  AllDistinct-from [] [] all h = (tt, tt)
  AllDistinct-from [] (t ∷ ts) all h = absurd all
  AllDistinct-from (a ∷ rest) [] all h = absurd all
  AllDistinct-from (a ∷ rest) (t ∷ ts) all h =
      let (distinct, active) = AllDistinct-from rest ts all.1 h.2 in
      (
        (differs-from a t rest ts all.0 all.1 h.1, distinct),
        (ap is_active_family all.0.family ∙ h.0, active),
      )

  -- The triggers that are made of any anomalies at a cutoff: each is of an active family and stands
  -- on knowledge, a receipt and a capture that are not after the cutoff, and no two of them are of
  -- one family and one source evidence.
  pub materialize_triggers-IsKnownBy :
      (anomalies : List (Anomaly J)) (ts : List (Trigger J))
      → materialize_triggers lib candidate_id cutoff rule_hash anomalies ≡ ok ts
      → All (IsKnownBy cutoff) ts
        × AllDistinct ts
        × All (λ t. is_active_family t.evidence_family ≡ true) ts
  unfolding materialize_triggers
  materialize_triggers-IsKnownBy anomalies ts h =
      let (kept, e1, h1) = bind-ok (deduplicate_from lib [] anomalies) _ h in
      let (known, from) = triggers_of-IsKnownBy lib candidate_id cutoff rule_hash kept ts h1 in
      let once = deduplicate_from-IsDeduplicated lib [] anomalies kept tt e1 in
      let (distinct, active) = AllDistinct-from kept ts from once in (known, distinct, active)
