-- ===== src/Routes/Requests.antt =====
-- deduplicate_deep_dive_requests of backend/app/scanner/v13.py, by ticker and expiration. No other
-- code of the backend calls it; backend/tests/test_v13_routes.py does.
use Prim.Native.String.{String}
use options_anomaly_scanner.Prelude.{
  ℕ, ◌≡◌, refl, Bool, true, false, ◌||◌, Option, none, some, List, [], ◌∷◌, ◌++◌, arith,
  if◌then◌else◌, any_by, Bool-cases, inl, inr,
}
use mathlib.Core.List.{append_assoc}
use options_anomaly_scanner.Prelude.Eq.{ticker_date_eq}
use options_anomaly_scanner.Prelude.Dict.{
  Dict, DistinctKeys, put-DistinctKeys, lookup, lookup-put, get_or,
}
use options_anomaly_scanner.Routes.{
  Source, radar_event, expiry_activity, contract_persistence, has_source, ordered_trigger_sources,
  DeepDiveRequest, request_step, requests_from, deduplicate_deep_dive_requests,
}
use options_anomaly_scanner.Routes.Sources.{ranked, ordered_sources_ranked}

-- The families that ask for a key, in the order of the requests.
abbrev pub sources_for : String × ℕ → List DeepDiveRequest → List Source
sources_for k [] = []
sources_for k (r ∷ rest) =
    let more = sources_for k rest in if ticker_date_eq.beq r.key k then r.source ∷ more else more

has-append :
    (s : Source) (xs ys : List Source)
    → has_source s (xs ++ ys) ≡ (has_source s xs || has_source s ys)
unfolding any_by
has-append s [] ys = refl
has-append s (x ∷ xs) ys = ground (arith, has-append s xs ys)

ordered-ranked :
    (r a c : Bool) (ys : List Source)
    → ordered_trigger_sources (ranked r a c ++ ys)
      ≡ ranked
          (r || has_source radar_event ys)
          (a || has_source expiry_activity ys)
          (c || has_source contract_persistence ys)
unfolding any_by
ordered-ranked true true true ys = ordered_sources_ranked _
ordered-ranked true true false ys = ordered_sources_ranked _
ordered-ranked true false true ys = ordered_sources_ranked _
ordered-ranked true false false ys = ordered_sources_ranked _
ordered-ranked false true true ys = ordered_sources_ranked _
ordered-ranked false true false ys = ordered_sources_ranked _
ordered-ranked false false true ys = ordered_sources_ranked _
ordered-ranked false false false ys = ordered_sources_ranked _

-- Ordering a merged list again adds nothing: a stored list can be extended one source at a time.
ordered-append :
    (xs ys : List Source)
    → ordered_trigger_sources (ordered_trigger_sources xs ++ ys)
      ≡ ordered_trigger_sources (xs ++ ys)
ordered-append xs ys =
    rw (ordered_sources_ranked xs)
      (rw ordered-ranked (rw (ordered_sources_ranked (xs ++ ys)) (simp has-append)))

abbrev pub asked : String × ℕ → List DeepDiveRequest → Bool
asked k [] = false
asked k (r ∷ rs) = ticker_date_eq.beq r.key k || asked k rs

sources_for_unasked :
    (k : String × ℕ) (rs : List DeepDiveRequest) → asked k rs ≡ false → sources_for k rs ≡ []
sources_for_unasked k [] h = refl
sources_for_unasked k (r ∷ rs) h = ground (arith, sources_for_unasked k rs)

-- What a key holds after the requests, from what it held before.
abbrev merged : String × ℕ → Option (List Source) → List DeepDiveRequest → Option (List Source)
merged k o rs =
    if asked k rs then some (ordered_trigger_sources (get_or o [] ++ sources_for k rs)) else o

merged-cons :
    (k : String × ℕ) (o : Option (List Source)) (r : DeepDiveRequest) (rs : List DeepDiveRequest)
    → ticker_date_eq.beq r.key k ≡ true
    → merged k (some (ordered_trigger_sources (get_or o [] ++ r.source ∷ []))) rs
      ≡ some (ordered_trigger_sources (get_or o [] ++ r.source ∷ sources_for k rs))
merged-cons k o r rs e = elim (Bool-cases (asked k rs)) [
  | inl a ↦ rw a (rw ordered-append (rw append_assoc))
  | inr a ↦ rw a (rw (sources_for_unasked k rs a))
]

lookup-request_step :
    (k : String × ℕ) (d : Dict (String × ℕ) (List Source)) (r : DeepDiveRequest)
    → lookup k (request_step d r) ≡ (
        if ticker_date_eq.beq r.key k
        then some (ordered_trigger_sources (get_or (lookup k d) [] ++ r.source ∷ []))
        else lookup k d)
unfolding request_step
lookup-request_step k d r = elim (Bool-cases (ticker_date_eq.beq r.key k)) [
  | inl e ↦ rw lookup-put (rw e (rw ((ticker_date_eq.beq_iff r.key k).0 e)))
  | inr e ↦ rw lookup-put (rw e)
]

lookup-requests_from :
    (k : String × ℕ) (d : Dict (String × ℕ) (List Source)) (rs : List DeepDiveRequest)
    → lookup k (requests_from d rs) ≡ merged k (lookup k d) rs
unfolding requests_from
lookup-requests_from k d [] = refl
lookup-requests_from k d (r ∷ rs) = elim (Bool-cases (ticker_date_eq.beq r.key k)) [
  | inl e ↦
      rw (lookup-requests_from k (request_step d r) rs)
        (rw (lookup-request_step k d r) (rw e (merged-cons k (lookup k d) r rs e)))
  | inr e ↦
      rw (lookup-requests_from k (request_step d r) rs) (rw (lookup-request_step k d r) (rw e))
]

requests_from-DistinctKeys :
    (d : Dict (String × ℕ) (List Source)) (rs : List DeepDiveRequest)
    → DistinctKeys d
    → DistinctKeys (requests_from d rs)
unfolding requests_from request_step
requests_from-DistinctKeys d [] h = h
requests_from-DistinctKeys d (r ∷ rs) h =
    requests_from-DistinctKeys (request_step d r) rs (put-DistinctKeys r.key _ d h)

-- After merging, no key has two entries, a key that some request names holds the canonical list of
-- the families of all the requests that name it, and any other key is absent.
pub deduplicate_requests_merged :
    (k : String × ℕ) (rs : List DeepDiveRequest)
    → DistinctKeys (deduplicate_deep_dive_requests rs)
      × (lookup k (deduplicate_deep_dive_requests rs)
          ≡ (if asked k rs then some (ordered_trigger_sources (sources_for k rs)) else none))
unfolding deduplicate_deep_dive_requests lookup
deduplicate_requests_merged k rs =
    (requests_from-DistinctKeys [] rs tt, lookup-requests_from k [] rs)
