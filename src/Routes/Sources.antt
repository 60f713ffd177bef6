-- ===== src/Routes/Sources.antt =====
-- ordered_trigger_sources and resolve_route_state of backend/app/scanner/v13.py.
use options_anomaly_scanner.Prelude.{
  ◌≡◌, refl, inl, inr, Bool, true, false, ◌||◌, List, [], ◌∷◌, ◌++◌, arith, ltb, if◌then◌else◌,
  any_by, Bool-cases,
}
use options_anomaly_scanner.Prelude.Sort.{insert_by}
use options_anomaly_scanner.Routes.{
  Source, radar_event, expiry_activity, contract_persistence, other, priority, is_active,
  has_source, distinct_active, ordered_trigger_sources, resolve_route_state, when,
}

-- The families that are present, by rank.
abbrev pub ranked : Bool → Bool → Bool → List Source
ranked radar activity contract =
    when radar radar_event ++ (when activity expiry_activity ++ when contract contract_persistence)

abbrev by_priority : Source → Source → Bool
by_priority a b = ltb (priority a) (priority b)

abbrev ranked_of : List Source → List Source
ranked_of xs =
    ranked (has_source radar_event xs) (has_source expiry_activity xs)
      (has_source contract_persistence xs)

insert-radar : (a c : Bool) → insert_by by_priority radar_event (ranked false a c) ≡ ranked true a c
unfolding insert_by
insert-radar true c = refl
insert-radar false true = refl
insert-radar false false = refl

insert-activity :
    (r c : Bool) → insert_by by_priority expiry_activity (ranked r false c) ≡ ranked r true c
unfolding insert_by
insert-activity true true = refl
insert-activity true false = refl
insert-activity false true = refl
insert-activity false false = refl

insert-contract :
    (r a : Bool) → insert_by by_priority contract_persistence (ranked r a false) ≡ ranked r a true
unfolding insert_by
insert-contract true true = refl
insert-contract true false = refl
insert-contract false true = refl
insert-contract false false = refl

has-distinct :
    (s : Source) (xs : List Source)
    → is_active s ≡ true
    → has_source s (distinct_active xs) ≡ has_source s xs
unfolding distinct_active any_by
has-distinct s [] h = refl
has-distinct s (x ∷ xs) h = ground (arith, has-distinct s xs h)

sort-active :
    (s : Source) (xs : List Source)
    → is_active s ≡ true
    → ordered_trigger_sources (s ∷ xs) ≡ (
        if has_source s xs
        then ordered_trigger_sources xs
        else insert_by by_priority s (ordered_trigger_sources xs))
unfolding ordered_trigger_sources
sort-active s xs h = elim (Bool-cases (has_source s xs)) [
  | inl e ↦ rw (h, has-distinct s xs h, e)
  | inr e ↦ rw (h, has-distinct s xs h, e)
]

ordered-other :
    (s : Source) (xs : List Source)
    → is_active s ≡ false
    → ordered_trigger_sources (s ∷ xs) ≡ ordered_trigger_sources xs
unfolding ordered_trigger_sources
ordered-other s xs h = rw h

-- One more family among ranked ones.
rank-radar :
    (r a c : Bool)
    → (if r then ranked r a c else insert_by by_priority radar_event (ranked r a c))
      ≡ ranked true a c
rank-radar true a c = refl
rank-radar false a c = insert-radar a c

rank-activity :
    (r a c : Bool)
    → (if a then ranked r a c else insert_by by_priority expiry_activity (ranked r a c))
      ≡ ranked r true c
rank-activity r true c = refl
rank-activity r false c = insert-activity r c

rank-contract :
    (r a c : Bool)
    → (if c then ranked r a c else insert_by by_priority contract_persistence (ranked r a c))
      ≡ ranked r a true
rank-contract r a true = refl
rank-contract r a false = insert-contract r a

-- The list of trigger sources holds each active family that is present, once, by rank, and nothing
-- else: it depends on which families are present and not on their order or number.
pub ordered_sources_ranked :
    (xs : List Source)
    → ordered_trigger_sources xs
      ≡ ranked
          (has_source radar_event xs)
          (has_source expiry_activity xs)
          (has_source contract_persistence xs)
unfolding any_by
ordered_sources_ranked [] = unfold ordered_trigger_sources in refl
ordered_sources_ranked (radar_event ∷ xs) =
    rw (sort-active radar_event xs refl, ordered_sources_ranked xs) (rank-radar _ _ _)
ordered_sources_ranked (expiry_activity ∷ xs) =
    rw (sort-active expiry_activity xs refl, ordered_sources_ranked xs) (rank-activity _ _ _)
ordered_sources_ranked (contract_persistence ∷ xs) =
    rw (sort-active contract_persistence xs refl, ordered_sources_ranked xs) (rank-contract _ _ _)
ordered_sources_ranked (other name ∷ xs) =
    rw (ordered-other (other name) xs refl) (ordered_sources_ranked xs)

-- The route state is eligible for a deep dive exactly when one of the three active families
-- triggers, it lists exactly the families that trigger, by rank, and the two removed families have
-- no influence on it.
pub route_state_active :
    (radar contract activity expiry_pers cold_start expiry_pers' cold_start' : Bool)
    → ((resolve_route_state radar contract expiry_pers activity cold_start).trigger_sources
        ≡ ranked radar activity contract)
      × ((resolve_route_state radar contract expiry_pers activity cold_start).deep_dive_eligible
          ≡ (radar || contract || activity))
      × (resolve_route_state radar contract expiry_pers activity cold_start
          ≡ resolve_route_state radar contract expiry_pers' activity cold_start')
unfolding resolve_route_state any_by
route_state_active true true true _ _ _ _ = (refl, refl, refl)
route_state_active true true false _ _ _ _ = (refl, refl, refl)
route_state_active true false true _ _ _ _ = (refl, refl, refl)
route_state_active true false false _ _ _ _ = (refl, refl, refl)
route_state_active false true true _ _ _ _ = (refl, refl, refl)
route_state_active false true false _ _ _ _ = (refl, refl, refl)
route_state_active false false true _ _ _ _ = (refl, refl, refl)
route_state_active false false false _ _ _ _ = (refl, refl, refl)
