-- ===== src/Research/Sessions/Lookahead.antt =====
-- The order of the sessions of backend/app/research/forward_outcome.py around the first knowledge.
use options_anomaly_scanner.Prelude.{
  ℕ, ◌<◌, ◌≤◌, ◌≡◌, refl, inl, inr, Bool, true, false, ltb, arith, if◌then◌else◌, Bool-cases,
}
use options_anomaly_scanner.Time.{aware, ensure_utc}
use options_anomaly_scanner.Prelude.Result.{ok}
use options_anomaly_scanner.Research.Sessions.{
  Calendar, ForwardSessionPlan, advance_sessions, plan_from, sessions_of, map_forward_sessions,
  maturity_at, maturity_after, maturity_state, not_yet_mature,
}

-- What the calendar documents: a session closes on its own day, days follow the instants, and the
-- neighbouring sessions are sessions before and after the day; before the first session there is
-- none.
pub record CalendarLaws (first : ℕ) (c : Calendar) : Type 0 where
  pub closes_on_day :
      (s : ℕ) → c.market.is_session s ≡ true → c.market.local_day (c.market.session_close s) ≡ s
  pub day_mono : (t u : ℕ) → t ≤ u → c.market.local_day t ≤ c.market.local_day u
  pub previous :
      (s : ℕ)
      → c.market.is_session s ≡ true
      → first < s
      → (c.market.is_session (c.previous_session s) ≡ true) × (c.previous_session s < s)
  pub next :
      (s : ℕ)
      → c.market.is_session s ≡ true
      → (c.market.is_session (c.next_session s) ≡ true) × (s < c.next_session s)
  pub before :
      (d : ℕ)
      → c.market.is_session d ≡ false
      → first < d
      → (c.market.is_session (c.session_before d) ≡ true) × (c.session_before d < d)
  pub after :
      (d : ℕ)
      → c.market.is_session d ≡ false
      → (c.market.is_session (c.session_after d) ≡ true) × (d < c.session_after d)

-- The plan is in order around an instant.
pub record IsAround (c : Calendar) (t : ℕ) (plan : ForwardSessionPlan) : Type 0 where
  pub reference_closed : c.market.session_close plan.reference_session ≤ t
  pub reference_before : plan.reference_session < plan.t1_session
  pub t1_open : t < c.market.session_close plan.t1_session
  pub t1_before : plan.t1_session < plan.t3_session
  pub t3_before : plan.t3_session < plan.t5_session
  pub t1_is_session : c.market.is_session plan.t1_session ≡ true
  pub t3_is_session : c.market.is_session plan.t3_session ≡ true
  pub t5_is_session : c.market.is_session plan.t5_session ≡ true

module _ (first : ℕ) (c : Calendar) (laws : CalendarLaws first c) where
  -- A session of an earlier day has closed, and one of a later day has not.
  earlier-closed :
      (s t : ℕ)
      → c.market.is_session s ≡ true
      → s < c.market.local_day t
      → c.market.session_close s ≤ t
  earlier-closed s t session h =
      let day = laws.closes_on_day s session in
      let mono = laws.day_mono t (c.market.session_close s) in
      elim (Bool-cases (ltb t (c.market.session_close s))) [
        | inl late ↦ let le = mono (ground (arith, late)) in absurd (omega (arith, le, day, h))
        | inr done ↦ ground (arith, done)
      ]

  later-open :
      (s t : ℕ)
      → c.market.is_session s ≡ true
      → c.market.local_day t < s
      → t < c.market.session_close s
  later-open s t session h =
      let day = laws.closes_on_day s session in
      elim (Bool-cases (ltb t (c.market.session_close s))) [
        | inl open_yet ↦ ground (arith, open_yet)
        | inr closed ↦
            let le = laws.day_mono (c.market.session_close s) t (ground (arith, closed)) in
            absurd (omega (arith, le, day, h))
      ]

  plan_from-IsAround :
      (t reference t1 : ℕ)
      → c.market.session_close reference ≤ t
      → reference < t1
      → t < c.market.session_close t1
      → c.market.is_session t1 ≡ true
      → IsAround c t (plan_from c reference t1)
  unfolding plan_from advance_sessions
  plan_from-IsAround t reference t1 closed order still_open session =
      let (s2, o2) = laws.next t1 session in
      let (s3, o3) = laws.next (c.next_session t1) s2 in
      let (s4, o4) = laws.next _ s3 in
      let (s5, o5) = laws.next _ s4 in
      record {
        reference_closed = closed;
        reference_before = order;
        t1_open = still_open;
        t1_before = omega (arith, o2, o3);
        t3_before = omega (arith, o4, o5);
        t1_is_session = session;
        t3_is_session = s3;
        t5_is_session = s5;
      }

  known_reference :
      (same_day : Bool) (day t : ℕ)
      → c.market.is_session (c.previous_session day) ≡ true
      → c.previous_session day < c.market.local_day t
      → c.market.session_close day ≤ t
      → c.market.session_close (if same_day then day else c.previous_session day) ≤ t
  known_reference true day t session before closed = closed
  known_reference false day t session before closed = earlier-closed _ t session before

  reference_below :
      (same_day : Bool) (day : ℕ)
      → c.previous_session day < day
      → day < c.next_session day
      → (if same_day then day else c.previous_session day) < c.next_session day
  reference_below true day before after = after
  reference_below false day before after = omega (arith, before, after)

  -- A session that has not closed is of the instant's day or later.
  open_day :
      (s t : ℕ)
      → c.market.is_session s ≡ true
      → t < c.market.session_close s
      → c.market.local_day t ≤ s
  open_day s t session h =
      let day = laws.closes_on_day s session in
      let le = laws.day_mono t (c.market.session_close s) (omega (arith, h)) in
      omega (arith, le, day)

  sessions_of-IsAround :
      (same_day : Bool) (t : ℕ)
      → first < c.market.local_day t
      → IsAround c t (sessions_of c same_day t (c.market.local_day t))
  unfolding sessions_of
  sessions_of-IsAround same_day t since =
      let day = c.market.local_day t in
      elim (Bool-cases (c.market.is_session day)) [
        | inr closed_day ↦
            let (ref_session, ref_before) = laws.before day closed_day since in
            let (t1_session, t1_after) = laws.after day closed_day in
            rw closed_day (
              plan_from-IsAround t _ _ (earlier-closed _ t ref_session ref_before)
                (omega (arith, ref_before, t1_after)) (later-open _ t t1_session t1_after)
                t1_session)
        | inl session_day ↦
            let (ref_session, ref_before) = laws.previous day session_day since in
            let (t1_session, t1_after) = laws.next day session_day in
            elim (Bool-cases (ltb t (c.market.session_close day))) [
              | inl early ↦
                  rw (session_day, early)
                    (plan_from-IsAround t _ _ (earlier-closed _ t ref_session ref_before) ref_before
                      (ground (arith, early)) session_day)
              | inr late ↦
                  rw (session_day, late)
                    (plan_from-IsAround t _ _
                      (known_reference same_day day t ref_session ref_before (ground (arith, late)))
                      (reference_below same_day day ref_before t1_after)
                      (later-open _ t t1_session t1_after) t1_session)
            ]
      ]

  immature :
      (close_present : Bool) (s t : ℕ)
      → c.market.is_session s ≡ true
      → t < c.market.session_close s
      → maturity_state c s (aware t) close_present true true ≡ ok not_yet_mature
  unfolding maturity_state maturity_after maturity_at ensure_utc
  immature close_present s t session still_open =
      let early : ltb t (c.market.session_close s) ≡ true = ground (arith, still_open) in
      rw (session, early) refl

  -- A sample whose first knowledge is on a day after the calendar's first session is measured from a session whose close was
  -- already known then, over sessions of which the first closes only afterwards, each after the one
  -- before: no outcome is known at first knowledge, and the sample's maturity at each horizon is
  -- then that it is not yet mature.
  pub map_forward_sessions-IsAround :
      (same_day close_present : Bool) (t : ℕ)
      → first < c.market.local_day t
      → (plan : ForwardSessionPlan) × (map_forward_sessions c same_day (aware t) ≡ ok plan)
        × IsAround c t plan
        × (maturity_state c plan.t1_session (aware t) close_present true true ≡ ok not_yet_mature)
        × (maturity_state c plan.t3_session (aware t) close_present true true ≡ ok not_yet_mature)
        × (maturity_state c plan.t5_session (aware t) close_present true true ≡ ok not_yet_mature)
  unfolding map_forward_sessions ensure_utc
  map_forward_sessions-IsAround same_day close_present t since =
      let plan = sessions_of c same_day t (c.market.local_day t) in
      let a = sessions_of-IsAround same_day t since in
      let first_day = open_day plan.t1_session t a.t1_is_session a.t1_open in
      (
        plan,
        refl,
        a,
        immature close_present plan.t1_session t a.t1_is_session a.t1_open,
        immature close_present plan.t3_session t a.t3_is_session
            (later-open plan.t3_session t a.t3_is_session (omega (arith, first_day, a.t1_before))),
        immature close_present plan.t5_session t a.t5_is_session (
            later-open plan.t5_session t a.t5_is_session
              (omega (arith, first_day, a.t1_before, a.t3_before))),
      )
