-- ===== src/Analytics/Sweeper/Arrows.antt =====
-- What a sweep does to each observation.
use thread_pilot.Common.{RowByRow, no_rows, a_row}
use thread_pilot.Common.{
  ℕ, ◌≡◌, refl, sym, Bool, true, false, List, [], ◌∷◌, ◌==◌, ◌||◌, ◌&&◌, arith, count_if,
  update_all, if◌then◌else◌,
}
use mathlib.Core.Path.{subst}
use thread_pilot.Analytics.Observation.{
  ObservationStatus, scheduled, processing, captured, failed, rate_limited, missed, deleted,
  unavailable, is_processing, accepted, validate_observation_transition,
}
use thread_pilot.Analytics.Observation.Diagram.{
  Arrow-accepted, never_picked_up, window_closed, retry_expired, cool_off_expired,
  transient_failure,
}
use thread_pilot.Analytics.Row.{AnalyticsObservation, Store}
use thread_pilot.Analytics.Sweeper.{
  recover_unless, is_waiting, is_overdue, miss, is_abandoned, is_abandoned_row, recover,
  find_abandoned, recover_one, recover_each, close_windows, reconcile_expired_observations,
}

-- What becomes of a row: nothing, MISSED as its window is over, or FAILED as its worker is gone.
pub data Swept (missed_at now : ℕ) (a : AnalyticsObservation) : AnalyticsObservation → Type 0 where
  untouched : Swept missed_at now a a
  closed :
      is_overdue missed_at a ≡ true
      → validate_observation_transition a.status missed ≡ accepted
      → Swept missed_at now a (miss a)
  handed_back :
      is_abandoned now a ≡ true
      → validate_observation_transition a.status failed ≡ accepted
      → Swept missed_at now a (recover a)

waiting-accepted :
    (st : ObservationStatus)
    → (is_waiting st || is_processing st) ≡ true
    → validate_observation_transition st missed ≡ accepted
waiting-accepted scheduled h = Arrow-accepted never_picked_up
waiting-accepted processing h = Arrow-accepted window_closed
waiting-accepted failed h = Arrow-accepted retry_expired
waiting-accepted rate_limited h = Arrow-accepted cool_off_expired
waiting-accepted captured h = cc
waiting-accepted missed h = cc
waiting-accepted deleted h = cc
waiting-accepted unavailable h = cc

processing-accepted :
    (st : ObservationStatus)
    → is_processing st ≡ true
    → validate_observation_transition st failed ≡ accepted
processing-accepted processing h = Arrow-accepted transient_failure
processing-accepted scheduled h = cc
processing-accepted failed h = cc
processing-accepted rate_limited h = cc
processing-accepted captured h = cc
processing-accepted missed h = cc
processing-accepted deleted h = cc
processing-accepted unavailable h = cc

closed-accepted :
    (now : ℕ) (a : AnalyticsObservation)
    → is_overdue now a ≡ true
    → validate_observation_transition a.status missed ≡ accepted
unfolding is_overdue
closed-accepted now a h = waiting-accepted a.status (ground arith)

abandoned-accepted :
    (now : ℕ) (a : AnalyticsObservation)
    → is_abandoned now a ≡ true
    → validate_observation_transition a.status failed ≡ accepted
unfolding is_abandoned
abandoned-accepted now a h = processing-accepted a.status (ground arith)

close-RowByRow :
    (missed_at now : ℕ) (os : List AnalyticsObservation)
    → RowByRow (Swept missed_at now) os (update_all (is_overdue missed_at) miss os)
close-RowByRow missed_at now [] = no_rows
close-RowByRow missed_at now (o ∷ os) =
    a_row (on_test (is_overdue missed_at o) refl) (close-RowByRow missed_at now os)
  where
    on_test :
        (b : Bool) → is_overdue missed_at o ≡ b → Swept missed_at now o (if b then miss o else o)
    on_test true e = closed e (closed-accepted missed_at o e)
    on_test false e = untouched

-- A row that was swept is not abandoned; recovering after it is one step.
recovered-Swept :
    (missed_at now id : ℕ) (a b : AnalyticsObservation)
    → Swept missed_at now a b
    → Swept missed_at now a (if is_abandoned_row now id b then recover b else b)
unfolding is_abandoned
recovered-Swept missed_at now id a b untouched = on_test (is_abandoned_row now id a) refl
  where
    on_test :
        (t : Bool)
        → is_abandoned_row now id a ≡ t
        → Swept missed_at now a (if t then recover a else a)
    on_test true e =
        let gone : is_abandoned now a ≡ true = ground arith in
        handed_back gone (abandoned-accepted now a gone)
    on_test false e = untouched
recovered-Swept missed_at now id a b (closed e t) =
    subst (λ x. Swept missed_at now a (if x then recover (miss a) else miss a))
      (sym (not_again (a.id == id))) (closed e t)
  where
    not_again : (x : Bool) → (x && false) ≡ false
    not_again x = ground arith
recovered-Swept missed_at now id a b (handed_back e t) =
    subst (λ x. Swept missed_at now a (if x then recover (recover a) else recover a))
      (sym (not_again (a.id == id))) (handed_back e t)
  where
    not_again : (x : Bool) → (x && false) ≡ false
    not_again x = ground arith

recover-RowByRow :
    (missed_at now id : ℕ) {xs ys : List AnalyticsObservation}
    → RowByRow (Swept missed_at now) xs ys
    → RowByRow (Swept missed_at now) xs (update_all (is_abandoned_row now id) recover ys)
recover-RowByRow missed_at now id no_rows = no_rows
recover-RowByRow missed_at now id (a_row {x = x} {y = y} r rs) =
    a_row (recovered-Swept missed_at now id x y r) (recover-RowByRow missed_at now id rs)

recover_one-RowByRow :
    (missed_at now fresh : ℕ) (o : AnalyticsObservation) (xs : List AnalyticsObservation)
    (s : Store)
    → RowByRow (Swept missed_at now) xs s.observations
    → RowByRow (Swept missed_at now) xs (recover_one now fresh o s).1.observations
unfolding recover_one
recover_one-RowByRow missed_at now fresh o xs s rows =
    on_affected (count_if (is_abandoned_row now o.id) s.observations == 0)
  where
    on_affected :
        (none_affected : Bool)
        → RowByRow
            (Swept missed_at now)
            xs
            (recover_unless none_affected now fresh o s).1.observations
    on_affected true = rows
    on_affected false = recover-RowByRow missed_at now o.id rows

recover_each-RowByRow :
    (missed_at now : ℕ) (fresh : ℕ → ℕ) (os xs : List AnalyticsObservation) (s : Store)
    → RowByRow (Swept missed_at now) xs s.observations
    → RowByRow (Swept missed_at now) xs (recover_each now fresh os s).1.observations
unfolding recover_each
recover_each-RowByRow missed_at now fresh [] xs s rows = rows
recover_each-RowByRow missed_at now fresh (o ∷ os) xs s rows =
    recover_each-RowByRow missed_at now fresh os xs (recover_one now (fresh o.id) o s).1
      (recover_one-RowByRow missed_at now (fresh o.id) o xs s rows)

-- A sweep leaves each observation as it is, or closes it as MISSED where its window is over and no
-- live worker has it, or hands it back as FAILED with one attempt more where its window is open and
-- the lease of its worker ran out; the check of transitions accepts every such change, and none is
-- made twice.
pub reconcile_expired_observations-Swept :
    (missed_at seen_at now : ℕ) (fresh : ℕ → ℕ) (s : Store)
    → RowByRow
        (Swept missed_at now)
        s.observations
        (reconcile_expired_observations missed_at seen_at now fresh s).1.observations
unfolding reconcile_expired_observations close_windows
reconcile_expired_observations-Swept missed_at seen_at now fresh s =
    recover_each-RowByRow missed_at now fresh
      (find_abandoned 50 seen_at (close_windows missed_at s).observations) s.observations
      (close_windows missed_at s) (close-RowByRow missed_at now s.observations)
