-- ===== src/Analytics/Schedule.antt =====
-- apps/worker/src/services/observation-scheduler.service.ts. The identifiers of the rows that are
-- created are the parameters `fresh_id` and `fresh_event`.
pub mod Idempotent
pub mod Windows
use thread_pilot.Common.{
  ℕ, ◌+◌, ◌*◌, ◌&&◌, Bool, Option, none, some, List, [], ◌∷◌, ◌==◌, find_first,
}
use thread_pilot.Analytics.Observation.{scheduled}
use thread_pilot.Analytics.Row.{
  ObservationSlot, t_1h, t_6h, t_24h, t_7d, t_30d, same_slot, AnalyticsObservation, obs,
  trigger_observation, OutboxEvent, SyncState, Store, row_or_new, add_unless, upsert_event,
  new_event,
}

abbrev pub hour_ms : ℕ
hour_ms = 3600000

-- OBSERVATION_SLOT_CONFIGS.
unfoldable pub delay_ms : ObservationSlot → ℕ
delay_ms t_1h = 1 * hour_ms
delay_ms t_6h = 6 * hour_ms
delay_ms t_24h = 24 * hour_ms
delay_ms t_7d = 7 * 24 * hour_ms
delay_ms t_30d = 30 * 24 * hour_ms

unfoldable pub window_ms : ObservationSlot → ℕ
window_ms t_1h = 1 * hour_ms
window_ms t_6h = 2 * hour_ms
window_ms t_24h = 6 * hour_ms
window_ms t_7d = 24 * hour_ms
window_ms t_30d = 48 * hour_ms

abbrev pub ordered_observation_slots : List ObservationSlot
ordered_observation_slots = t_1h ∷ t_6h ∷ t_24h ∷ t_7d ∷ t_30d ∷ []

-- `publishedAt ?? new Date()` is `published_at`.
pub record ScheduleParams : Type 0 where
  pub workspace_id : ℕ
  pub social_account_id : ℕ
  pub published_post_id : ℕ
  pub published_at : ℕ
  pub fresh_id : ObservationSlot → ℕ
  pub fresh_event : ObservationSlot → ℕ

abbrev pub is_slot_of : ℕ → ObservationSlot → AnalyticsObservation → Bool
is_slot_of post slot o = o.published_post_id == post && same_slot o.slot slot

unfoldable pub new_observation : ScheduleParams → ObservationSlot → AnalyticsObservation
unfolding delay_ms window_ms
new_observation p slot = record {
  id = p.fresh_id slot;
  workspace_id = p.workspace_id;
  social_account_id = p.social_account_id;
  published_post_id = p.published_post_id;
  slot = slot;
  scheduled_for = p.published_at + delay_ms slot;
  window_closes_at = p.published_at + delay_ms slot + window_ms slot;
  status = scheduled;
  attempt_count = 0;
  lease_token = none;
  lease_until = none;
}

unfoldable pub observation_event :
    ScheduleParams → ObservationSlot → AnalyticsObservation → OutboxEvent
unfolding delay_ms
observation_event p slot o =
    new_event (p.fresh_event slot) p.workspace_id p.social_account_id trigger_observation (obs o.id)
      (p.published_at + delay_ms slot)
      (record {
        social_account_id = p.social_account_id;
        observation_id = o.id;
        published_post_id = p.published_post_id;
        slot = slot;
        ingestion_generation = 0;
        source_revision = 0;
      })

-- The observation of the slot that the table has afterwards.
unfoldable pub slot_observation :
    ScheduleParams → ObservationSlot → List AnalyticsObservation → AnalyticsObservation
slot_observation p slot os =
    row_or_new (find_first (is_slot_of p.published_post_id slot) os) (new_observation p slot)

unfoldable pub upsert_observation :
    ScheduleParams → ObservationSlot → List AnalyticsObservation → List AnalyticsObservation
upsert_observation p slot os =
    add_unless (find_first (is_slot_of p.published_post_id slot) os) (new_observation p slot) os

-- The body of the loop.
unfoldable pub schedule_slot : ScheduleParams → ObservationSlot → Store → Store
unfolding upsert_observation slot_observation observation_event upsert_event
schedule_slot p slot s = record s {
  observations = upsert_observation p slot s.observations;
  events =
      upsert_event (observation_event p slot (slot_observation p slot s.observations)) s.events;
}

unfoldable pub schedule_slots :
    ScheduleParams → List ObservationSlot → Store → List AnalyticsObservation × Store
unfolding schedule_slot slot_observation
schedule_slots p [] s = ([], s)
schedule_slots p (slot ∷ slots) s =
    let (rest, s') = schedule_slots p slots (schedule_slot p slot s) in
    (slot_observation p slot s.observations ∷ rest, s')

unfoldable pub ensure_sync_state : ScheduleParams → List SyncState → List SyncState
ensure_sync_state p ss =
    add_unless (find_first (λ x. x.social_account_id == p.social_account_id) ss)
      (record {
        workspace_id = p.workspace_id;
        social_account_id = p.social_account_id;
        analytics_revision = 0;
        ingestion_generation = 0;
      })
      ss

unfoldable pub schedule_observations : ScheduleParams → Store → List AnalyticsObservation × Store
unfolding ensure_sync_state schedule_slots
schedule_observations p s =
    schedule_slots p ordered_observation_slots
      (record s { sync_states = ensure_sync_state p s.sync_states })
