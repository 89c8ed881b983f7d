-- ===== src/Analytics/Sweeper.antt =====
-- apps/worker/src/services/expired-observation-sweeper.service.ts.
pub mod Arrows
pub mod Attended
use thread_pilot.Common.{
  ℕ, zero, suc, ◌+◌, ◌&&◌, ◌||◌, Bool, true, false, not, Option, none, some, List, [], ◌∷◌, ltb,
  leb, ◌==◌, if◌then◌else◌, update_all, count_if,
}
use thread_pilot.Publishing.Post.{before}
use thread_pilot.Analytics.Observation.{
  ObservationStatus, scheduled, processing, failed, rate_limited, missed, is_processing,
}
use thread_pilot.Analytics.Row.{
  AnalyticsObservation, recovered, retry_observation, OutboxEvent, Store, upsert_event, new_event,
}

-- `status IN ('SCHEDULED', 'FAILED', 'RATE_LIMITED')`.
abbrev pub is_waiting : ObservationStatus → Bool
is_waiting scheduled = true
is_waiting failed = true
is_waiting rate_limited = true
is_waiting _ = false

-- The `WHERE` of the closure of windows.
unfoldable pub is_overdue : ℕ → AnalyticsObservation → Bool
is_overdue now o =
    (is_waiting o.status || (is_processing o.status && before o.lease_until now))
    && ltb o.window_closes_at now

abbrev pub miss : AnalyticsObservation → AnalyticsObservation
miss o = record o { status = missed; lease_token = none; lease_until = none }

-- PROCESSING, with a lease that ran out and an open window.
unfoldable pub is_abandoned : ℕ → AnalyticsObservation → Bool
is_abandoned now o =
    is_processing o.status && before o.lease_until now && leb now o.window_closes_at

abbrev pub is_abandoned_row : ℕ → ℕ → AnalyticsObservation → Bool
is_abandoned_row now id o = o.id == id && is_abandoned now o

abbrev pub recover : AnalyticsObservation → AnalyticsObservation
recover o = record o {
  status = failed;
  attempt_count = suc o.attempt_count;
  lease_token = none;
  lease_until = none;
}

-- `findMany` with `take`.
unfoldable pub find_abandoned : ℕ → ℕ → List AnalyticsObservation → List AnalyticsObservation
find_abandoned zero now os = []
find_abandoned (suc left) now [] = []
find_abandoned (suc left) now (o ∷ os) =
    let rest = find_abandoned left now os in
    let all = find_abandoned (suc left) now os in if is_abandoned now o then o ∷ rest else all

-- The retry of an observation, at once; `fresh` is the identifier of the event.
abbrev pub retry_event : ℕ → ℕ → AnalyticsObservation → OutboxEvent
retry_event now fresh o =
    new_event fresh o.workspace_id o.social_account_id retry_observation
      (recovered o.id (suc o.attempt_count)) now
      (record {
        social_account_id = o.social_account_id;
        observation_id = o.id;
        published_post_id = o.published_post_id;
        slot = o.slot;
        ingestion_generation = 0;
        source_revision = 0;
      })

-- `affected > 0`, where `none_affected` is its negation.
abbrev pub recover_unless : Bool → ℕ → ℕ → AnalyticsObservation → Store → Bool × Store
recover_unless true now fresh o s = (false, s)
recover_unless false now fresh o s = (
  true,
  record s {
    observations = update_all (is_abandoned_row now o.id) recover s.observations;
    events = upsert_event (retry_event now fresh o) s.events;
  },
)

-- One transaction of the recovery, and whether it recovered the row.
unfoldable pub recover_one : ℕ → ℕ → AnalyticsObservation → Store → Bool × Store
recover_one now fresh o s =
    let none_affected = count_if (is_abandoned_row now o.id) s.observations == 0 in
    recover_unless none_affected now fresh o s

unfoldable pub recover_each : ℕ → (ℕ → ℕ) → List AnalyticsObservation → Store → ℕ × Store
unfolding recover_one
recover_each now fresh [] s = (0, s)
recover_each now fresh (o ∷ os) s =
    let (one, s') = recover_one now (fresh o.id) o s in
    let (n, s'') = recover_each now fresh os s' in (if one then suc n else n, s'')

pub record SweepResult : Type 0 where
  pub missed_count : ℕ
  pub recovered_count : ℕ

unfoldable pub close_windows : ℕ → Store → Store
close_windows now s = record s { observations = update_all (is_overdue now) miss s.observations }

-- The windows are closed at `missed_at`, the abandoned rows are looked up at `seen_at` and recovered
-- at `now`.
unfoldable pub reconcile_expired_observations : ℕ → ℕ → ℕ → (ℕ → ℕ) → Store → SweepResult × Store
unfolding close_windows recover_each find_abandoned
reconcile_expired_observations missed_at seen_at now fresh s =
    let missed_count = count_if (is_overdue missed_at) s.observations in
    let s' = close_windows missed_at s in
    let (n, s'') = recover_each now fresh (find_abandoned 50 seen_at s'.observations) s' in
    (record { missed_count = missed_count; recovered_count = n }, s'')
