-- ===== src/Candidates/Grouping/Partition.antt =====
-- What group_product_candidates of backend/app/scanner/vnext.py keeps of the pool of anomalies.
use Prim.Native.String.{String}
use mathlib.Core.Path.{subst}
use mathlib.Core.Bool.{true≢false}
use mathlib.Core.Option.{some-injective, none-ne-some}
use options_anomaly_scanner.Prelude.{
  ◌≡◌, refl, sym, ap, ◌∙◌, ◌⊎◌, ◌↔◌, inl, inr, Bool, true, not, Option, none, some, List, [], ◌∷◌,
  ◌==◌, arith, filter_by, any_by, any_by-filter_by, length, Bool-cases, In, here, there, In-cons,
  In-nil, In-filter_by, filter_by-In,
}
use options_anomaly_scanner.Prelude.Eq.{string_eq}
use options_anomaly_scanner.Prelude.Sort.{sort_by, In-sort_by, sort_by-In}
use options_anomaly_scanner.Candidates.{Anomaly}
use options_anomaly_scanner.Candidates.Grouping.{
  CandidateItem, Texts, is_of, grouped_from, item_lt, project, and_item, project_all, entry_lt,
  group_product_candidates,
}
use options_anomaly_scanner.Candidates.Grouping.Entries.{lookup-In, entry_of, entry-filter}

module _ {J : Type 0} (texts : Texts) where
  In-and_item :
      (item : CandidateItem J) (o : Option (CandidateItem J)) (rest : List (CandidateItem J))
      → In item (and_item o rest)
      → (o ≡ some item) ⊎ In item rest
  In-and_item item none rest m = inr m
  In-and_item item (some x) rest m = elim (In-cons m) [
    | inl e ↦ inl (ap some (sym e))
    | inr r ↦ inr r
  ]

  In-project_all :
      (item : CandidateItem J) (entries : List (String × List (Anomaly J)))
      → In item (project_all texts entries)
      → (p : String × List (Anomaly J)) × In p entries × (project texts p.0 p.1 ≡ some item)
  unfolding project_all
  In-project_all item [] m = absurd (In-nil m)
  In-project_all item ((t, v) ∷ rest) m = elim (In-and_item item (project texts t v) _ m) [
    | inl e ↦ ((t, v), here refl, e)
    | inr r ↦ let (p, inside, e) = In-project_all item rest r in (p, there inside, e)
  ]

  and_item-In :
      (item : CandidateItem J) (o : Option (CandidateItem J)) (rest : List (CandidateItem J))
      → (o ≡ some item) ⊎ In item rest
      → In item (and_item o rest)
  and_item-In item none rest (inl e) = absurd (none-ne-some _ e)
  and_item-In item (some x) rest (inl e) = here (sym (some-injective _ _ e))
  and_item-In item none rest (inr m) = m
  and_item-In item (some x) rest (inr m) = there m

  project_all-In :
      (item : CandidateItem J) (t : String) (v : List (Anomaly J))
      (entries : List (String × List (Anomaly J)))
      → In (t, v) entries
      → project texts t v ≡ some item
      → In item (project_all texts entries)
  unfolding project_all
  project_all-In item t v [] m e = absurd (In-nil m)
  project_all-In item t v ((u, w) ∷ rest) m e = elim (In-cons m) [
    | inl same ↦
        and_item-In item _ _
          (inl (ap (λ (p : String × List (Anomaly J)). project texts p.0 p.1) (sym same) ∙ e))
    | inr later ↦ and_item-In item _ _ (inr (project_all-In item t v rest later e))
  ]

  -- An item is that of its ticker, holds the ticker's anomalies, and has one that qualifies.
  project-some :
      (t : String) (v : List (Anomaly J)) (item : CandidateItem J)
      → project texts t v ≡ some item
      → (item.ticker ≡ t)
        × (item.anomalies ≡ sort_by (item_lt texts) v)
        × (any_by (λ a. a.qualifies) item.anomalies ≡ true)
  unfolding project
  project-some t v item e =
      let sorted = sort_by (item_lt texts) v in
      let counted = any_by-filter_by (λ a. a.qualifies) sorted in
      elim (Bool-cases (length (filter_by (λ a. a.qualifies) sorted) == 0)) [
        | inl none_left ↦ absurd (none-ne-some _ (rw none_left at e))
        | inr some_left ↦
            let same = some-injective _ _ (rw some_left at e) in
            (
              ap (λ (i : CandidateItem J). i.ticker) (sym same),
              ap (λ (i : CandidateItem J). i.anomalies) (sym same),
              ap (λ (i : CandidateItem J). any_by (λ a. a.qualifies) i.anomalies) (sym same)
                  ∙ counted
                  ∙ ap not some_left,
            )
      ]

  any_by-true :
      (p : Anomaly J → Bool) (x : Anomaly J) (xs : List (Anomaly J))
      → In x xs
      → p x ≡ true
      → any_by p xs ≡ true
  unfolding any_by
  any_by-true p x [] m e = absurd (In-nil m)
  any_by-true p x (y ∷ ys) (here same) e = rw (sym (ap p same) ∙ e)
  any_by-true p x (y ∷ ys) (there m) e = ground (arith, any_by-true p x ys m e)

  project-exists :
      (t : String) (v : List (Anomaly J)) (q : Anomaly J)
      → In q v
      → q.qualifies ≡ true
      → (item : CandidateItem J) × (project texts t v ≡ some item)
  unfolding project
  project-exists t v q m good =
      let sorted = sort_by (item_lt texts) v in
      let counted = any_by-filter_by (λ a. a.qualifies) sorted in
      let found = any_by-true (λ a. a.qualifies) q sorted (sort_by-In (item_lt texts) v m) good in
      elim (Bool-cases (length (filter_by (λ a. a.qualifies) sorted) == 0)) [
        | inl none_left ↦ absurd (true≢false (sym found ∙ counted ∙ ap not none_left))
        | inr some_left ↦ rw some_left (_, refl)
      ]

  -- The members of an item, once it is projected from the entry of its ticker.
  item_members :
      (pool v : List (Anomaly J)) (t : String) (item : CandidateItem J) (a : Anomaly J)
      → v ≡ filter_by (is_of t) pool
      → item.ticker ≡ t
      → item.anomalies ≡ sort_by (item_lt texts) v
      → In a item.anomalies ↔ (In a pool × (is_of item.ticker a ≡ true))
  item_members pool v t item a kept same sorted =
      let of_item = sorted ∙ ap (λ l. sort_by (item_lt texts) l) kept in
      let relabel = ap (λ u. is_of u a) same in
      (
        λ h.
            let h1 : In a (sort_by (item_lt texts) (filter_by (is_of t) pool)) =
              subst (λ l. In a l) of_item h in
            let h2 = In-filter_by (is_of t) pool (In-sort_by (item_lt texts) _ h1) in
            (h2.0, relabel ∙ h2.1),
        λ h.
            subst (λ l. In a l) (sym of_item)
              (sort_by-In (item_lt texts) _ (filter_by-In (is_of t) pool h.0 (sym relabel ∙ h.1))),
      )

  -- Every item of the projection has an anomaly that qualifies, and holds exactly the anomalies of
  -- the pool that are of an active family and of its ticker.
  pub group_sound :
      (pool : List (Anomaly J)) (item : CandidateItem J) (a : Anomaly J)
      → In item (group_product_candidates texts pool)
      → (any_by (λ x. x.qualifies) item.anomalies ≡ true)
        × (In a item.anomalies ↔ (In a pool × (is_of item.ticker a ≡ true)))
  unfolding group_product_candidates
  group_sound pool item a m =
      let ((t, v), inside, e) = In-project_all item _ m in
      let entry = In-sort_by (entry_lt texts) (grouped_from [] pool) inside in
      let (same, sorted, good) = project-some t v item e in
      (good, item_members pool v t item a (entry-filter pool t v entry) same sorted)

  -- A ticker with an anomaly of an active family that qualifies has an item, and the item holds
  -- every anomaly of the pool that is of an active family and of that ticker: grouping discards
  -- nothing of a candidate.
  pub group_complete :
      (pool : List (Anomaly J)) (t : String) (q a : Anomaly J)
      → In q pool
      → is_of t q ≡ true
      → q.qualifies ≡ true
      → (item : CandidateItem J) × In item (group_product_candidates texts pool)
        × (item.ticker ≡ t)
        × (In a item.anomalies ↔ (In a pool × (is_of item.ticker a ≡ true)))
  unfolding group_product_candidates
  group_complete pool t q a m mine good =
      let v = filter_by (is_of t) pool in
      let member = filter_by-In (is_of t) pool m mine in
      let (item, e) = project-exists t v q member good in
      let (same, sorted, some_good) = project-some t v item e in
      let entry = lookup-In t (grouped_from [] pool) v (entry_of t pool q member) in
      (
        item,
        project_all-In item t v _ (sort_by-In (entry_lt texts) _ entry) e,
        same,
        item_members pool v t item a refl same sorted,
      )
