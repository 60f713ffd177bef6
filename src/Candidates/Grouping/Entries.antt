-- ===== src/Candidates/Grouping/Entries.antt =====
-- The dictionary of group_product_candidates of backend/app/scanner/vnext.py.
use Prim.Native.String.{String}
use mathlib.Core.Option.{some-injective, none-ne-some}
use mathlib.Core.List.{append_assoc}
use options_anomaly_scanner.Prelude.{
  ◌≡◌, refl, sym, ap, ◌∙◌, inl, inr, Bool, true, false, ◌&&◌, Option, none, some, List, [], ◌∷◌,
  ◌++◌, if◌then◌else◌, filter_by, Bool-cases, In, here, there, In-nil,
}
use options_anomaly_scanner.Prelude.Eq.{string_eq}
use options_anomaly_scanner.Prelude.Dict.{
  Dict, lookup, get_or, lookup-put, DistinctKeys, put-DistinctKeys, In-lookup,
}
use options_anomaly_scanner.Candidates.{Anomaly, is_active_family}
use options_anomaly_scanner.Candidates.Grouping.{
  is_of, is_text, add_under, group_step, grouped_from,
}

module _ {J : Type 0} where
  -- An entry of the dictionary with the anomalies that come to it later.
  abbrev with_more : Option (List (Anomaly J)) → List (Anomaly J) → Option (List (Anomaly J))
  with_more o [] = o
  with_more o (x ∷ xs) = some (get_or o [] ++ x ∷ xs)

  with_more-cons :
      (o : Option (List (Anomaly J))) (a : Anomaly J) (more : List (Anomaly J))
      → with_more (some (get_or o [] ++ a ∷ [])) more ≡ with_more o (a ∷ more)
  with_more-cons o a [] = refl
  with_more-cons o a (x ∷ xs) = ap some (append_assoc (get_or o []) (a ∷ []) (x ∷ xs))

  lookup-added :
      (t : String) (b : Bool) (u : Option String) (a : Anomaly J)
      (d : Dict String (List (Anomaly J)))
      → lookup t (if b then add_under u a d else d)
        ≡ (if b && is_text u t then some (get_or (lookup t d) [] ++ a ∷ []) else lookup t d)
  unfolding add_under
  lookup-added t false u a d = refl
  lookup-added t true none a d = refl
  lookup-added t true (some v) a d = elim (Bool-cases (string_eq.beq v t)) [
    | inl e ↦ rw lookup-put (rw e (rw ((string_eq.beq_iff v t).0 e)))
    | inr e ↦ rw lookup-put (rw e)
  ]

  lookup-group_step :
      (t : String) (d : Dict String (List (Anomaly J))) (a : Anomaly J)
      → lookup t (group_step d a)
        ≡ (if is_of t a then some (get_or (lookup t d) [] ++ a ∷ []) else lookup t d)
  unfolding group_step
  lookup-group_step t d a = lookup-added t (is_active_family a.evidence_family) a.ticker a d

  -- A ticker's entry holds exactly its anomalies, in the order of the pool.
  lookup-grouped_from :
      (t : String) (d : Dict String (List (Anomaly J))) (pool : List (Anomaly J))
      → lookup t (grouped_from d pool) ≡ with_more (lookup t d) (filter_by (is_of t) pool)
  unfolding grouped_from filter_by
  lookup-grouped_from t d [] = refl
  lookup-grouped_from t d (a ∷ rest) = elim (Bool-cases (is_of t a)) [
    | inl e ↦
        rw (lookup-grouped_from t (group_step d a) rest)
          (rw (lookup-group_step t d a) (rw e (with_more-cons (lookup t d) a _)))
    | inr e ↦ rw (lookup-grouped_from t (group_step d a) rest) (rw (lookup-group_step t d a) (rw e))
  ]

  add_under-DistinctKeys :
      (b : Bool) (u : Option String) (a : Anomaly J) (d : Dict String (List (Anomaly J)))
      → DistinctKeys d
      → DistinctKeys (if b then add_under u a d else d)
  unfolding add_under
  add_under-DistinctKeys false u a d h = h
  add_under-DistinctKeys true none a d h = h
  add_under-DistinctKeys true (some t) a d h = put-DistinctKeys t _ d h

  grouped_from-DistinctKeys :
      (d : Dict String (List (Anomaly J))) (pool : List (Anomaly J))
      → DistinctKeys d
      → DistinctKeys (grouped_from d pool)
  unfolding grouped_from group_step
  grouped_from-DistinctKeys d [] h = h
  grouped_from-DistinctKeys d (a ∷ rest) h =
      grouped_from-DistinctKeys (group_step d a) rest
        (add_under-DistinctKeys (is_active_family a.evidence_family) a.ticker a d h)

  pub lookup-In :
      (t : String) (d : Dict String (List (Anomaly J))) (v : List (Anomaly J))
      → lookup t d ≡ some v
      → In (t, v) d
  unfolding lookup
  lookup-In t [] v e = absurd (none-ne-some _ e)
  lookup-In t ((j, w) ∷ d) v e = elim (Bool-cases (string_eq.beq j t)) [
    | inl same ↦
        let e' : some w ≡ some v = rw same at e in
        here (λ i. (sym ((string_eq.beq_iff j t).0 same) i, sym (some-injective _ _ e') i))
    | inr differ ↦ there (lookup-In t d v (rw differ at e))
  ]

  pub entry_of :
      (t : String) (pool : List (Anomaly J)) (q : Anomaly J)
      → In q (filter_by (is_of t) pool)
      → lookup t (grouped_from [] pool) ≡ some (filter_by (is_of t) pool)
  unfolding lookup
  entry_of t pool q m = lookup-grouped_from t [] pool ∙ filled (filter_by (is_of t) pool) m
    where
      filled : (xs : List (Anomaly J)) → In q xs → with_more none xs ≡ some xs
      filled [] m = absurd (In-nil m)
      filled (x ∷ xs) m = refl

  -- The anomalies of an entry of the dictionary.
  pub entry-filter :
      (pool : List (Anomaly J)) (t : String) (v : List (Anomaly J))
      → In (t, v) (grouped_from [] pool)
      → v ≡ filter_by (is_of t) pool
  unfolding lookup
  entry-filter pool t v m =
      let found = In-lookup t v (grouped_from [] pool) (grouped_from-DistinctKeys [] pool tt) m in
      from_more (filter_by (is_of t) pool) (sym (lookup-grouped_from t [] pool) ∙ found)
    where
      from_more : (xs : List (Anomaly J)) → with_more none xs ≡ some v → v ≡ xs
      from_more [] e = absurd (none-ne-some _ e)
      from_more (x ∷ xs) e = sym (some-injective _ _ e)
