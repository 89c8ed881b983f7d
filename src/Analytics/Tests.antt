-- ===== src/Analytics/Tests.antt =====
-- Concrete runs: the observations of a post are scheduled twice, and a sweep closes one window and
-- hands one observation back.
use thread_pilot.Common.{ℕ, ◌+◌, ◌<◌, ◌⊎◌, refl, ◌≡◌, none, some, [], ◌∷◌, arith, All}
use thread_pilot.Analytics.Observation.{scheduled, processing}
use thread_pilot.Analytics.Row.{
  ObservationSlot, t_1h, t_6h, AnalyticsObservation, Store, obs, trigger_observation, OutboxEvent,
  new_event,
}
use thread_pilot.Analytics.Schedule.{ScheduleParams, schedule_observations, new_observation}
use thread_pilot.Analytics.Schedule.Idempotent.{again, schedule_observations_twice}
use thread_pilot.Analytics.Schedule.Windows.{windows_apart}
use thread_pilot.Analytics.Outbox.{threw, Outside}
use thread_pilot.Analytics.Outbox.Exhaustion.{Refuses, Tried, dispatches, dispatches-Tried}
use thread_pilot.Analytics.Sweeper.{reconcile_expired_observations}
use thread_pilot.Common.{RowByRow}
use thread_pilot.Analytics.Row.{failed}
use thread_pilot.Analytics.Sweeper.Attended.{Attended, reconcile_expired_observations-All}
use thread_pilot.Analytics.Sweeper.Arrows.{Swept, reconcile_expired_observations-Swept}

abbrev number : ObservationSlot → ℕ
number t_1h = 1
number t_6h = 2
number _ = 3

abbrev a_post : ScheduleParams
a_post = record {
  workspace_id = 1;
  social_account_id = 2;
  published_post_id = 3;
  published_at = 1000;
  fresh_id = number;
  fresh_event = number;
}

abbrev late : AnalyticsObservation
late = record {
  id = 1;
  workspace_id = 1;
  social_account_id = 2;
  published_post_id = 3;
  slot = t_1h;
  scheduled_for = 100;
  window_closes_at = 200;
  status = scheduled;
  attempt_count = 0;
  lease_token = none;
  lease_until = none;
}

abbrev orphaned : AnalyticsObservation
orphaned = record late {
  id = 2;
  slot = t_6h;
  window_closes_at = 9000;
  status = processing;
  lease_token = some 70;
  lease_until = some 300;
}

abbrev some_rows : Store
some_rows = record { observations = late ∷ orphaned ∷ []; events = []; sync_states = [] }

schedule_observations_twice_example :
    schedule_observations
      (again a_post 5000 (λ slot. 80) (λ slot. 81))
      (schedule_observations a_post some_rows).1
    ≡ schedule_observations a_post some_rows
schedule_observations_twice_example =
    schedule_observations_twice a_post 5000 (λ slot. 80) (λ slot. 81) some_rows

windows_apart_example :
    ((new_observation a_post t_1h).window_closes_at < (new_observation a_post t_6h).scheduled_for)
    ⊎ ((new_observation a_post t_6h).window_closes_at < (new_observation a_post t_1h).scheduled_for)
windows_apart_example = windows_apart a_post t_1h t_6h (λ e. cc)

reconcile_expired_observations-Swept_example :
    RowByRow
      (Swept 500 510)
      (late ∷ orphaned ∷ [])
      (reconcile_expired_observations 500 505 510 (λ id. id) some_rows).1.observations
reconcile_expired_observations-Swept_example =
    reconcile_expired_observations-Swept 500 505 510 (λ id. id) some_rows

reconcile_expired_observations-All_example :
    All
      (Attended 500)
      (reconcile_expired_observations 500 505 510 (λ id. id) some_rows).1.observations
reconcile_expired_observations-All_example =
    reconcile_expired_observations-All 500 505 510 (λ id. id) some_rows (omega arith)

abbrev an_event : OutboxEvent
an_event = new_event 7 1 2 trigger_observation (obs 1) 100 (record {
  social_account_id = 2;
  observation_id = 1;
  published_post_id = 3;
  slot = t_1h;
  ingestion_generation = 0;
  source_revision = 0;
})

abbrev refusing_at : ℕ → Outside
refusing_at now = record {
  claimed_at = now;
  settled_at = λ id. now + 10;
  lease_token = 70;
  deliver = λ v. threw;
  meanwhile = λ v vs. vs;
}

refusing_at-Refuses : (now : ℕ) → Refuses (refusing_at now)
refusing_at-Refuses now = record { throws = λ v. refl; alone = λ v vs. refl }

dispatches-Tried_example :
    Tried 7 2 (dispatches (refusing_at 200 ∷ refusing_at 6000 ∷ []) (an_event ∷ []))
dispatches-Tried_example =
    dispatches-Tried (refusing_at 200 ∷ refusing_at 6000 ∷ []) an_event refl refl
      (refusing_at-Refuses 200, omega arith, (refusing_at-Refuses 6000, omega arith, tt))

abbrev failed_event : OutboxEvent
failed_event = record an_event { status = failed; attempt_count = 5 }
