-- ===== src/Analytics/Outbox/Replay.antt =====
-- A replayed event goes to its queue as a new job.
use thread_pilot.Common.{true, false, List, ℕ, ◌≡◌, ◌≢◌, Option}
use thread_pilot.Analytics.Row.{OutboxEvent}
use thread_pilot.Analytics.Outbox.{
  is_failed, is_claimable, is_replayable, JobId, sync_job, aggregate_job, insights_job,
  learning_job, recommendations_job, job_id,
}

abbrev suffix_of : JobId → Option ℕ
suffix_of (sync_job _ s) = s
suffix_of (aggregate_job _ _ _ s) = s
suffix_of (insights_job _ _ _ s) = s
suffix_of (learning_job _ _ s) = s
suffix_of (recommendations_job _ _ s) = s

-- What becomes of an event at a replay at `now`, and at a claim at `later`.
pub data Replayed (now later : ℕ) (ids : List ℕ) (v : OutboxEvent) : OutboxEvent → Type 0 where
  left_alone : is_replayable ids v ≡ false → Replayed now later ids v v
  queued_anew :
      {v' : OutboxEvent}
      → is_failed v.status ≡ true
      → job_id v' ≢ job_id v
      → is_claimable later v' ≡ true
      → v'.attempt_count ≡ 0
      → v'.event_type ≡ v.event_type
      → Replayed now later ids v v'
