-- ===== src/Candidates/Grouping.antt =====
-- group_product_candidates of backend/app/scanner/vnext.py.
pub mod Entries
pub mod Partition
use Prim.Native.String.{String}
use options_anomaly_scanner.Prelude.{
  ℕ, Bool, true, false, not, ◌&&◌, ◌||◌, Option, none, some, List, [], ◌∷◌, ◌++◌, ltb, ◌==◌,
  if◌then◌else◌, filter_by, any_by, is_some, length,
}
use options_anomaly_scanner.Prelude.Eq.{string_eq}
use options_anomaly_scanner.Prelude.Dict.{Dict, lookup, put, get_or}
use options_anomaly_scanner.Prelude.Sort.{sort_by}
use options_anomaly_scanner.Candidates.{Anomaly, DateValue, is_active_family}

-- An item of the projection.
pub record CandidateItem (J : Type 0) : Type 0 where
  pub ticker : String
  pub active_trigger_sources : List String
  pub anomaly_count : ℕ
  pub qualifying_anomaly_count : ℕ
  pub anomalies : List (Anomaly J)

-- The order of texts, and the text of the date.
pub record Texts : Type 0 where
  pub text_lt : String → String → Bool
  pub date_str : DateValue → String

unfoldable pub family_order : String → ℕ
family_order family =
    if string_eq.beq family "RADAR_EVENT"
    then 0
    else if string_eq.beq family "EXPIRY_ACTIVITY"
    then 1
    else 2

abbrev pub is_text : Option String → String → Bool
is_text none t = false
is_text (some u) t = string_eq.beq u t

module _ {J : Type 0} where
  abbrev pub is_of : String → Anomaly J → Bool
  is_of t a = is_active_family a.evidence_family && is_text a.ticker t

  add_under :
      Option String → Anomaly J → Dict String (List (Anomaly J)) → Dict String (List (Anomaly J))
  unfolding lookup put
  add_under none a d = d
  add_under (some t) a d = put t (get_or (lookup t d) [] ++ a ∷ []) d

  -- One anomaly of the loop.
  unfoldable pub group_step :
      Dict String (List (Anomaly J)) → Anomaly J → Dict String (List (Anomaly J))
  unfolding add_under
  group_step d a = if is_active_family a.evidence_family then add_under a.ticker a d else d

  unfoldable pub grouped_from :
      Dict String (List (Anomaly J)) → List (Anomaly J) → Dict String (List (Anomaly J))
  unfolding group_step
  grouped_from d [] = d
  grouped_from d (a ∷ rest) = grouped_from (group_step d a) rest

  -- A ticker without an item adds nothing.
  abbrev pub and_item : Option (CandidateItem J) → List (CandidateItem J) → List (CandidateItem J)
  and_item none rest = rest
  and_item (some item) rest = item ∷ rest

module _ {J : Type 0} (texts : Texts) where
  -- The key of sorted(...), compared in order.
  unfoldable pub item_lt : Anomaly J → Anomaly J → Bool
  unfolding family_order
  item_lt a b =
      let fa = family_order a.evidence_family in
      let fb = family_order b.evidence_family in
      let da = texts.date_str a.evidence_date in
      let db = texts.date_str b.evidence_date in
      ltb fa fb
      || ((fa == fb)
          && (texts.text_lt a.anomaly_identity b.anomaly_identity
              || (string_eq.beq a.anomaly_identity b.anomaly_identity && texts.text_lt da db)))

  active_sources : List (Anomaly J) → List String
  unfolding filter_by any_by
  active_sources qualifying =
      filter_by (λ family. any_by (λ a. string_eq.beq a.evidence_family family) qualifying)
        ("RADAR_EVENT" ∷ "EXPIRY_ACTIVITY" ∷ "CONTRACT_PERSISTENCE" ∷ [])

  unfoldable pub project : String → List (Anomaly J) → Option (CandidateItem J)
  unfolding sort_by filter_by active_sources item_lt
  project ticker grouped =
      let ticker_anomalies = sort_by item_lt grouped in
      let qualifying = filter_by (λ a. a.qualifies) ticker_anomalies in
      if length qualifying == 0
      then none
      else some (record {
        ticker = ticker;
        active_trigger_sources = active_sources qualifying;
        anomaly_count = length ticker_anomalies;
        qualifying_anomaly_count = length qualifying;
        anomalies = ticker_anomalies;
      })

  unfoldable pub project_all : List (String × List (Anomaly J)) → List (CandidateItem J)
  unfolding project
  project_all [] = []
  project_all ((ticker, grouped) ∷ rest) = and_item (project ticker grouped) (project_all rest)

  abbrev pub entry_lt : String × List (Anomaly J) → String × List (Anomaly J) → Bool
  entry_lt p q = texts.text_lt p.0 q.0

  unfoldable pub group_product_candidates : List (Anomaly J) → List (CandidateItem J)
  unfolding grouped_from sort_by project_all
  group_product_candidates anomalies = project_all (sort_by entry_lt (grouped_from [] anomalies))
