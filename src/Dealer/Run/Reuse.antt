-- ===== src/Dealer/Run/Reuse.antt =====
-- The search for a completed run of backend/app/dealer_archive/repository.py.
use options_anomaly_scanner.Prelude.{
  ◌≡◌, refl, sym, ap, ◌∙◌, inl, inr, Bool, true, false, none, some, List, [], ◌∷◌, find_by,
  filter_by, arith, Bool-cases, Option-cases, In, here, there, In-cons, In-filter_by, filter_by-In,
  In-nil,
}
use mathlib.Core.Bool.{true≢false}
use mathlib.Core.Option.{some-injective, none-ne-some}
use options_anomaly_scanner.Prelude.Eq.{string_eq}
use options_anomaly_scanner.Prelude.Sort.{sort_by, In-sort_by, sort_by-In}
use options_anomaly_scanner.Dealer.Run.{
  ArchiveRun, CaptureKey, more_recent, is_candidate_run, archive_run_suppresses_capture,
  reusable_completed_archive_run,
}

module _ {ℓ} {A : Type ℓ} (p : A → Bool) where
  find_by-In : (xs : List A) (y : A) → find_by p xs ≡ some y → In y xs × (p y ≡ true)
  unfolding find_by
  find_by-In [] y e = absurd (none-ne-some _ e)
  find_by-In (x ∷ xs) y e = elim (Bool-cases (p x)) [
    | inl t ↦ let same = some-injective _ _ (rw t at e) in (here (sym same), ap p (sym same) ∙ t)
    | inr f ↦ let h = find_by-In xs y (rw f at e) in (there h.0, h.1)
  ]

  find_by-none : (xs : List A) (y : A) → find_by p xs ≡ none → In y xs → p y ≡ false
  unfolding find_by
  find_by-none [] y e m = absurd (In-nil m)
  find_by-none (x ∷ xs) y e m = elim (Bool-cases (p x)) [
    | inl t ↦ absurd (none-ne-some _ (sym (rw t at e)))
    | inr f ↦ elim (In-cons m) [
      | inl same ↦ ap p same ∙ f
      | inr later ↦ find_by-none xs y (rw f at e) later
    ]
  ]

-- Whatever suppresses the capture meets the query.
suppresses-candidate :
    (key : CaptureKey) (run : ArchiveRun)
    → archive_run_suppresses_capture key run ≡ true
    → is_candidate_run key run ≡ true
unfolding archive_run_suppresses_capture is_candidate_run
suppresses-candidate key run h = ground (arith, h)

module _ (key : CaptureKey) where
  abbrev suppresses : ArchiveRun → Bool
  suppresses = archive_run_suppresses_capture key

  candidate_of :
      (runs : List ArchiveRun) (x : ArchiveRun)
      → In x runs
      → suppresses x ≡ true
      → In x (sort_by more_recent (filter_by (is_candidate_run key) runs))
  candidate_of runs x m h =
      sort_by-In more_recent _
        (filter_by-In (is_candidate_run key) runs m (suppresses-candidate key x h))

  of_candidate :
      (runs : List ArchiveRun) (x : ArchiveRun)
      → In x (sort_by more_recent (filter_by (is_candidate_run key) runs))
      → In x runs
  of_candidate runs x m = (In-filter_by (is_candidate_run key) runs (In-sort_by more_recent _ m)).0

  -- A new run that suppresses the capture is the one to reuse, where there was none.
  pub reusable-new :
      (x : ArchiveRun) (runs : List ArchiveRun)
      → suppresses x ≡ true
      → reusable_completed_archive_run key runs ≡ none
      → reusable_completed_archive_run key (x ∷ runs) ≡ some x
  unfolding reusable_completed_archive_run
  reusable-new x runs h lost = elim (Option-cases (reusable_completed_archive_run key (x ∷ runs))) [
    | inl none_found ↦ absurd (
        true≢false (
          sym h ∙ find_by-none suppresses _ x none_found (candidate_of (x ∷ runs) x (here refl) h)))
    | inr (y, found) ↦
        let (m, t) = find_by-In suppresses _ y found in
        elim (In-cons (of_candidate (x ∷ runs) y m)) [
          | inl same ↦ found ∙ ap some same
          | inr old ↦
              absurd
                (true≢false (sym t ∙ find_by-none suppresses _ y lost (candidate_of runs y old t)))
        ]
  ]
