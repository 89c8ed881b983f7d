-- ===== src/Analytics/Row.antt =====
-- The rows of analytics_observations and analytics_outbox_events (packages/database/prisma/
-- schema.prisma), and the upserts that add to them.
use thread_pilot.Common.{
  ◌≡◌, refl, ℕ, Bool, true, false, find_first, ◌&&◌, Option, none, some, List, [], ◌∷◌, ◌++◌, ◌==◌,
  ite,
}
use thread_pilot.Analytics.Observation.{ObservationStatus}

pub data ObservationSlot : Type 0 where
  t_1h t_6h t_24h t_7d t_30d : ObservationSlot

pub ObservationSlot-discrete : Discrete ObservationSlot
ObservationSlot-discrete = hlevel

abbrev pub same_slot : ObservationSlot → ObservationSlot → Bool
same_slot s t = ite (ObservationSlot-discrete s t) true false

pub same_slot_refl : (slot : ObservationSlot) → same_slot slot slot ≡ true
unfolding ObservationSlot-discrete
same_slot_refl t_1h = refl
same_slot_refl t_6h = refl
same_slot_refl t_24h = refl
same_slot_refl t_7d = refl
same_slot_refl t_30d = refl

-- `published_post_id` and `slot` are a unique key.
pub record AnalyticsObservation : Type 0 where
  pub id : ℕ
  pub workspace_id : ℕ
  pub social_account_id : ℕ
  pub published_post_id : ℕ
  pub slot : ObservationSlot
  pub scheduled_for : ℕ
  pub window_closes_at : ℕ
  pub status : ObservationStatus
  pub attempt_count : ℕ
  pub lease_token : Option ℕ
  pub lease_until : Option ℕ

-- `obs:${id}`, `retry-observation:${id}:recovered_${n}`, and the keys of other code.
pub data DedupeKey : Type 0 where
  obs : (id : ℕ) → DedupeKey
  recovered : (id attempt : ℕ) → DedupeKey
  other_key : (id : ℕ) → DedupeKey

pub data OutboxType : Type 0 where
  trigger_observation retry_observation trigger_aggregation : OutboxType
  trigger_insights trigger_profile_learning trigger_recommendations : OutboxType

pub data OutboxStatus : Type 0 where
  pending processing completed failed : OutboxStatus

-- The members that the payloads have.
pub record Payload : Type 0 where
  pub social_account_id : ℕ
  pub observation_id : ℕ
  pub published_post_id : ℕ
  pub slot : ObservationSlot
  pub ingestion_generation : ℕ
  pub source_revision : ℕ

-- `dedupe_key` is a unique key.
pub record OutboxEvent : Type 0 where
  pub id : ℕ
  pub workspace_id : ℕ
  pub social_account_id : ℕ
  pub event_type : OutboxType
  pub status : OutboxStatus
  pub payload : Payload
  pub dedupe_key : DedupeKey
  pub delivery_generation : ℕ
  pub attempt_count : ℕ
  pub lease_token : Option ℕ
  pub lease_until : Option ℕ
  pub execute_at : ℕ
  pub processed_at : Option ℕ

pub record SyncState : Type 0 where
  pub workspace_id : ℕ
  pub social_account_id : ℕ
  pub analytics_revision : ℕ
  pub ingestion_generation : ℕ

pub record Store : Type 0 where
  pub observations : List AnalyticsObservation
  pub events : List OutboxEvent
  pub sync_states : List SyncState

abbrev pub same_key : DedupeKey → DedupeKey → Bool
same_key (obs a) (obs b) = a == b
same_key (recovered a m) (recovered b n) = a == b && m == n
same_key (other_key a) (other_key b) = a == b
same_key _ _ = false

-- `upsert` with an empty `update`: the row that has the key, or the new one, and the table.
abbrev pub row_or_new {ℓ} : {A : Type ℓ} → Option A → A → A
row_or_new (some x) new = x
row_or_new none new = new

abbrev pub add_unless {ℓ} : {A : Type ℓ} → Option A → A → List A → List A
add_unless (some x) new xs = xs
add_unless none new xs = xs ++ new ∷ []

abbrev pub has_key : DedupeKey → OutboxEvent → Bool
has_key k v = same_key k v.dedupe_key

unfoldable pub upsert_event : OutboxEvent → List OutboxEvent → List OutboxEvent
upsert_event v vs = add_unless (find_first (has_key v.dedupe_key) vs) v vs

-- An event that has not been claimed yet, as a `create` leaves it.
abbrev pub new_event : ℕ → ℕ → ℕ → OutboxType → DedupeKey → ℕ → Payload → OutboxEvent
new_event id workspace account type key execute_at payload = record {
  id = id;
  workspace_id = workspace;
  social_account_id = account;
  event_type = type;
  status = pending;
  payload = payload;
  dedupe_key = key;
  delivery_generation = 1;
  attempt_count = 0;
  lease_token = none;
  lease_until = none;
  execute_at = execute_at;
  processed_at = none;
}
