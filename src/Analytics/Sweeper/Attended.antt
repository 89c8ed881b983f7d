-- ===== src/Analytics/Sweeper/Attended.antt =====
-- What a sweep leaves open.
use thread_pilot.Common.{
  ap, ltb, Bool-cases, inl, inr, Option, none, some, ℕ, ◌≤◌, ◌≡◌, refl, Bool, true, false, List, [],
  ◌∷◌, ◌==◌, ◌||◌, ◌&&◌, arith, All, count_if, update_all, if◌then◌else◌,
}
use thread_pilot.Publishing.Post.{before}
use thread_pilot.Analytics.Observation.{
  is_terminal, ObservationStatus, scheduled, processing, captured, failed, rate_limited, missed,
  deleted, unavailable, is_processing,
}
use thread_pilot.Analytics.Row.{AnalyticsObservation, Store}
use thread_pilot.Analytics.Sweeper.{
  recover_unless, is_waiting, is_overdue, miss, is_abandoned, is_abandoned_row, recover,
  find_abandoned, recover_one, recover_each, close_windows, reconcile_expired_observations,
}

-- The rows that a closure of windows leaves, one by one.
abbrev NoneOverdue : ℕ → List AnalyticsObservation → Type 0
NoneOverdue missed_at = All (λ o. is_overdue missed_at o ≡ false)

missed-NoneOverdue :
    (missed_at : ℕ) (os : List AnalyticsObservation)
    → NoneOverdue missed_at (update_all (is_overdue missed_at) miss os)
unfolding is_overdue
missed-NoneOverdue missed_at [] = tt
missed-NoneOverdue missed_at (o ∷ os) =
    (on_test (is_overdue missed_at o) refl, missed-NoneOverdue missed_at os)
  where
    on_test :
        (b : Bool)
        → is_overdue missed_at o ≡ b
        → is_overdue missed_at (if b then miss o else o) ≡ false
    on_test true e = refl
    on_test false e = e

recovered-NoneOverdue :
    (missed_at now id : ℕ) (os : List AnalyticsObservation)
    → missed_at ≤ now
    → NoneOverdue missed_at os
    → NoneOverdue missed_at (update_all (is_abandoned_row now id) recover os)
unfolding is_overdue is_abandoned
recovered-NoneOverdue missed_at now id [] le all = tt
recovered-NoneOverdue missed_at now id (o ∷ os) le (h, all) =
    (on_test (is_abandoned_row now id o) refl, recovered-NoneOverdue missed_at now id os le all)
  where
    on_test :
        (b : Bool)
        → is_abandoned_row now id o ≡ b
        → is_overdue missed_at (if b then recover o else o) ≡ false
    on_test true e = ground arith
    on_test false e = h

recover_each-NoneOverdue :
    (missed_at now : ℕ) (fresh : ℕ → ℕ) (os : List AnalyticsObservation) (s : Store)
    → missed_at ≤ now
    → NoneOverdue missed_at s.observations
    → NoneOverdue missed_at (recover_each now fresh os s).1.observations
unfolding recover_each recover_one
recover_each-NoneOverdue missed_at now fresh [] s le all = all
recover_each-NoneOverdue missed_at now fresh (o ∷ os) s le all =
    recover_each-NoneOverdue missed_at now fresh os (recover_one now (fresh o.id) o s).1 le
      (on_affected (count_if (is_abandoned_row now o.id) s.observations == 0))
  where
    on_affected :
        (none_affected : Bool)
        → NoneOverdue missed_at (recover_unless none_affected now (fresh o.id) o s).1.observations
    on_affected true = all
    on_affected false = recovered-NoneOverdue missed_at now o.id s.observations le all

-- Where the sweep owes a row nothing.
pub data Attended (missed_at : ℕ) (o : AnalyticsObservation) : Type 0 where
  finished : is_terminal o.status ≡ true → Attended missed_at o
  window_open : missed_at ≤ o.window_closes_at → Attended missed_at o
  unleased : o.status ≡ processing → o.lease_until ≡ none → Attended missed_at o
  at_work :
      {t : ℕ}
      → o.status ≡ processing
      → o.lease_until ≡ some t
      → missed_at ≤ t
      → Attended missed_at o

not_overdue-Attended :
    (missed_at : ℕ) (o : AnalyticsObservation) (st : ObservationStatus) (lease : Option ℕ)
    → o.status ≡ st
    → o.lease_until ≡ lease
    → ((is_waiting st || (is_processing st && before lease missed_at))
        && ltb o.window_closes_at missed_at)
      ≡ false
    → Attended missed_at o
not_overdue-Attended missed_at o captured l e f h = finished (ap is_terminal e)
not_overdue-Attended missed_at o missed l e f h = finished (ap is_terminal e)
not_overdue-Attended missed_at o deleted l e f h = finished (ap is_terminal e)
not_overdue-Attended missed_at o unavailable l e f h = finished (ap is_terminal e)
not_overdue-Attended missed_at o scheduled l e f h = window_open (ground arith)
not_overdue-Attended missed_at o failed l e f h = window_open (ground arith)
not_overdue-Attended missed_at o rate_limited l e f h = window_open (ground arith)
not_overdue-Attended missed_at o processing none e f h = unleased e f
not_overdue-Attended missed_at o processing (some t) e f h = elim (Bool-cases (ltb t missed_at)) [
  | inl gone ↦ window_open (ground arith)
  | inr live ↦ at_work e f (ground arith)
]

NoneOverdue-Attended :
    (missed_at : ℕ) (os : List AnalyticsObservation)
    → NoneOverdue missed_at os
    → All (Attended missed_at) os
unfolding is_overdue
NoneOverdue-Attended missed_at [] all = tt
NoneOverdue-Attended missed_at (o ∷ os) (h, all) = (
  not_overdue-Attended missed_at o o.status o.lease_until refl refl h,
  NoneOverdue-Attended missed_at os all,
)

-- After a sweep every observation is in a terminal status, or its window was not over when the sweep
-- closed windows, or it is PROCESSING with a lease that had not run out then, or with no time of a lease
-- at all. The recovery is not
-- before the closure.
pub reconcile_expired_observations-All :
    (missed_at seen_at now : ℕ) (fresh : ℕ → ℕ) (s : Store)
    → missed_at ≤ now
    → All
        (Attended missed_at)
        (reconcile_expired_observations missed_at seen_at now fresh s).1.observations
unfolding reconcile_expired_observations close_windows
reconcile_expired_observations-All missed_at seen_at now fresh s le =
    NoneOverdue-Attended missed_at _ (
      recover_each-NoneOverdue missed_at now fresh
        (find_abandoned 50 seen_at (close_windows missed_at s).observations)
        (close_windows missed_at s) le (missed-NoneOverdue missed_at s.observations))
