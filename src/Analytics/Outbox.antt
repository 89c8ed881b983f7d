-- ===== src/Analytics/Outbox.antt =====
-- apps/worker/src/services/analytics-outbox.service.ts. A dispatch is one worker's; what the queues
-- answer, the times and what other workers write meanwhile are the record `Outside`.
pub mod Exhaustion
pub mod Replay
use thread_pilot.Common.{
  ℕ, zero, suc, ◌+◌, ◌&&◌, ◌||◌, Bool, true, false, not, Option, none, some, List, [], ◌∷◌, ltb,
  leb, ◌==◌, if◌then◌else◌, any, update_all, count_if,
}
use thread_pilot.Publishing.Post.{before}
use thread_pilot.Analytics.Row.{
  ObservationSlot, DedupeKey, OutboxType, trigger_observation, retry_observation,
  trigger_aggregation, trigger_insights, trigger_profile_learning, trigger_recommendations,
  OutboxStatus, pending, processing, completed, failed, OutboxEvent,
}

abbrev pub max_outbox_attempts : ℕ
max_outbox_attempts = 5

-- OUTBOX_LEASE_SECONDS.
abbrev pub outbox_lease_ms : ℕ
outbox_lease_ms = 60000

abbrev pub is_pending : OutboxStatus → Bool
is_pending pending = true
is_pending _ = false

abbrev pub is_processing : OutboxStatus → Bool
is_processing processing = true
is_processing _ = false

abbrev pub is_failed : OutboxStatus → Bool
is_failed failed = true
is_failed _ = false

-- The `WHERE` of the claim.
unfoldable pub is_claimable : ℕ → OutboxEvent → Bool
is_claimable now v =
    (is_pending v.status && leb v.execute_at now)
    || (is_processing v.status && before v.lease_until now)

-- ORDER BY execute_at ASC.
unfoldable pub insert_by_time : OutboxEvent → List OutboxEvent → List OutboxEvent
insert_by_time v [] = v ∷ []
insert_by_time v (w ∷ ws) =
    let rest = insert_by_time v ws in if leb v.execute_at w.execute_at then v ∷ w ∷ ws else w ∷ rest

unfoldable pub claimable : ℕ → List OutboxEvent → List OutboxEvent
unfolding insert_by_time
claimable now [] = []
claimable now (v ∷ vs) =
    let rest = claimable now vs in if is_claimable now v then insert_by_time v rest else rest

-- LIMIT.
abbrev pub take_first : ℕ → List OutboxEvent → List OutboxEvent
take_first zero vs = []
take_first (suc n) [] = []
take_first (suc n) (v ∷ vs) = v ∷ take_first n vs

abbrev pub has_id : ℕ → OutboxEvent → Bool
has_id id v = v.id == id

-- The `UPDATE` of the claim.
abbrev pub take : ℕ → ℕ → OutboxEvent → OutboxEvent
take now token v = record v {
  status = processing;
  lease_token = some token;
  lease_until = some (now + outbox_lease_ms);
  attempt_count = suc v.attempt_count;
}

abbrev pub is_among : List OutboxEvent → OutboxEvent → Bool
is_among chosen v = any (has_id v.id) chosen

abbrev pub filter_rows : (OutboxEvent → Bool) → List OutboxEvent → List OutboxEvent
filter_rows p [] = []
filter_rows p (v ∷ vs) = if p v then v ∷ filter_rows p vs else filter_rows p vs

-- The table after the claim; RETURNING gives the rows that were claimed, as they are then.
unfoldable pub claim_events : ℕ → ℕ → List OutboxEvent → List OutboxEvent × List OutboxEvent
unfolding claimable
claim_events now token vs =
    let chosen = take_first 50 (claimable now vs) in
    let vs' = update_all (is_among chosen) (take now token) vs in
    (filter_rows (is_among chosen) vs', vs')

-- The `jobId`s: the kind of the job, what names it, and the suffix `_delgen${n}` of a replay.
pub data JobId : Type 0 where
  sync_job : DedupeKey → Option ℕ → JobId
  aggregate_job : (account generation : ℕ) → ObservationSlot → Option ℕ → JobId
  insights_job : (account revision : ℕ) → ObservationSlot → Option ℕ → JobId
  learning_job : (account revision : ℕ) → Option ℕ → JobId
  recommendations_job : (account revision : ℕ) → Option ℕ → JobId

abbrev pub gen_suffix : ℕ → Option ℕ
gen_suffix generation = if ltb 1 generation then some generation else none

-- The `switch`.
unfoldable pub job_for : OutboxType → OutboxEvent → JobId
job_for trigger_observation v = sync_job v.dedupe_key (gen_suffix v.delivery_generation)
job_for retry_observation v = sync_job v.dedupe_key (gen_suffix v.delivery_generation)
job_for trigger_aggregation v =
    aggregate_job v.payload.social_account_id v.payload.ingestion_generation v.payload.slot
      (gen_suffix v.delivery_generation)
job_for trigger_insights v =
    insights_job v.payload.social_account_id v.payload.source_revision v.payload.slot
      (gen_suffix v.delivery_generation)
job_for trigger_profile_learning v =
    learning_job v.payload.social_account_id v.payload.source_revision
      (gen_suffix v.delivery_generation)
job_for trigger_recommendations v =
    recommendations_job v.payload.social_account_id v.payload.source_revision
      (gen_suffix v.delivery_generation)

unfoldable pub job_id : OutboxEvent → JobId
unfolding job_for
job_id v = job_for v.event_type v

-- What a queue answers: it took the job, it threw, or there is no such queue.
pub data Delivery : Type 0 where
  added threw no_queue : Delivery

pub record Outside : Type 0 where
  pub claimed_at : ℕ
  pub settled_at : ℕ → ℕ  -- by the event
  pub lease_token : ℕ
  pub deliver : OutboxEvent → Delivery
  pub meanwhile : OutboxEvent → List OutboxEvent → List OutboxEvent

-- The `WHERE` of the two settlements.
unfoldable pub is_held : ℕ → ℕ → OutboxEvent → Bool
is_held id token v =
    v.id == id
    && is_processing v.status
    && elim v.lease_token [ none ↦ false | some t ↦ t == token ]

abbrev pub complete : ℕ → OutboxEvent → OutboxEvent
complete now v = record v {
  status = completed;
  processed_at = some now;
  lease_token = none;
  lease_until = none;
}

-- The `UPDATE` of the `catch`.
unfoldable pub give_back : ℕ → OutboxEvent → OutboxEvent
give_back now v = record v {
  status = if leb max_outbox_attempts v.attempt_count then failed else pending;
  execute_at = now + 5000;
  lease_token = none;
  lease_until = none;
}

-- The jobs that were added, the number of events dispatched, and the table.
pub record Progress : Type 0 where
  pub jobs : List JobId
  pub dispatched_count : ℕ
  pub events : List OutboxEvent

abbrev pub completed_with : ℕ → ℕ → List JobId → OutboxEvent → Progress → Progress
completed_with now token jobs v p =
    let held = is_held v.id token in
    record p {
      jobs = jobs;
      dispatched_count =
          if count_if held p.events == 0 then p.dispatched_count else suc p.dispatched_count;
      events = update_all held (complete now) p.events;
    }

-- The body of the loop, from what the queue answers.
unfoldable pub settle : Outside → Delivery → OutboxEvent → Progress → Progress
unfolding is_held give_back job_id
settle w added v p = completed_with (w.settled_at v.id) w.lease_token (job_id v ∷ p.jobs) v p
settle w no_queue v p = completed_with (w.settled_at v.id) w.lease_token p.jobs v p
settle w threw v p = record p {
  events = update_all (is_held v.id w.lease_token) (give_back (w.settled_at v.id)) p.events;
}

unfoldable pub settle_all : Outside → List OutboxEvent → Progress → Progress
unfolding settle
settle_all w [] p = p
settle_all w (v ∷ vs) p =
    settle_all w vs (settle w (w.deliver v) v (record p { events = w.meanwhile v p.events }))

unfoldable pub dispatch_outbox_events : Outside → List OutboxEvent → Progress
unfolding claim_events settle_all
dispatch_outbox_events w vs =
    let (claimed, vs') = claim_events w.claimed_at w.lease_token vs in
    settle_all w claimed (record { jobs = []; dispatched_count = 0; events = vs' })

-- With how many events are replayed.
abbrev pub is_replayable : List ℕ → OutboxEvent → Bool
is_replayable ids v = any (λ id. id == v.id) ids && is_failed v.status

abbrev pub replay : ℕ → OutboxEvent → OutboxEvent
replay now v = record v {
  status = pending;
  delivery_generation = suc v.delivery_generation;
  attempt_count = 0;
  lease_token = none;
  lease_until = none;
  execute_at = now;
}

unfoldable pub replay_failed_outbox_events : ℕ → List ℕ → List OutboxEvent → ℕ × List OutboxEvent
replay_failed_outbox_events now ids vs =
    (count_if (is_replayable ids) vs, update_all (is_replayable ids) (replay now) vs)
