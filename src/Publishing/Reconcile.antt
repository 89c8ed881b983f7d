-- ===== src/Publishing/Reconcile.antt =====
-- apps/worker/src/services/publishing-reconciliation.service.ts: which posts the scans 2, 3 and 4
-- pick, what scan 4 does with each, and safeEnqueue. What the queue answers is an argument.
pub mod Pages
pub mod Recovers
mod Tests
use thread_pilot.Common.{
  ℕ, ◌+◌, Bool, true, false, ◌&&◌, ◌||◌, not, Option, none, some, List, leb, ltb, ◌==◌,
  if◌then◌else◌, update_all,
}
use thread_pilot.Publishing.Post.{
  Status, failed_retryable, quota_blocked, failed_permanent, max_retries_exceeded, ScheduledPost,
  is_set, is_scheduled, is_publishing, is_ambiguous,
}
use thread_pilot.Publishing.Steps.{in_flight}

-- SQL `x <= NOW()`, which does not hold of a null.
abbrev pub elapsed : Option ℕ → ℕ → Bool
elapsed none now = false
elapsed (some t) now = leb t now

-- The `WHERE` of scan 2.
unfoldable pub is_watched : ℕ → ScheduledPost → Bool
is_watched now p = is_scheduled p.status && leb p.scheduled_at (now + 300000)

abbrev pub waits_for_retry : Status → Bool
waits_for_retry failed_retryable = true
waits_for_retry quota_blocked = true
waits_for_retry _ = false

abbrev pub waits_for_quota : Status → Bool
waits_for_quota quota_blocked = true
waits_for_quota _ = false

-- The `WHERE` of scan 3.
unfoldable pub is_retry_due : ℕ → ScheduledPost → Bool
is_retry_due now p =
    waits_for_retry p.status
    && elapsed p.next_retry_at now
    && (waits_for_quota p.status
        || ltb p.attempt_count 5
        || is_set p.publish_requested_at
        || is_set p.ambiguity_detected_at)

-- The `WHERE` of scan 4.
unfoldable pub is_stale_lease : ℕ → ScheduledPost → Bool
is_stale_lease now p = in_flight p.status && elapsed p.lease_until now

-- What scan 4 decides about such a row.
unfoldable pub is_hopeless : ScheduledPost → Bool
is_hopeless p = leb 5 p.attempt_count && not (is_ambiguous p)

abbrev pub give_up : ℕ → ScheduledPost → ScheduledPost
give_up now p = record p {
  status = failed_permanent;
  last_error_code = some max_retries_exceeded;
  claimed_by = none;
  lease_until = none;
  attempt_id = none;
  updated_at = now;
}

-- `publish-${id}`, `publish-${id}-retry-${n}` and `publish-${id}-reclaim-${n}`.
pub data PublishJob : Type 0 where
  first_job : (post_id : ℕ) → PublishJob
  retry_job reclaim_job : (post_id attempt_count : ℕ) → PublishJob

-- A stale row: the job that is to be enqueued for it, and the table.
unfoldable pub handle_stale :
    ℕ → ScheduledPost → List ScheduledPost → Option PublishJob × List ScheduledPost
unfolding is_hopeless is_stale_lease
handle_stale now sp rows =
    if is_hopeless sp
    then (none, update_all (λ p. p.id == sp.id && is_stale_lease now p) (give_up now) rows)
    else (some (reclaim_job sp.id sp.attempt_count), rows)

-- safeEnqueue, from the state of the job that has the identifier and from what `add` does.
pub data JobState : Type 0 where
  waiting delayed active prioritized waiting_children completed failed unrecognised : JobState

pub data Adding : Type 0 where
  added already_exists throws : Adding

pub data SafeEnqueueResult : Type 0 where
  enqueued already_in_flight skipped_unknown raised : SafeEnqueueResult

abbrev pub add_job : Adding → SafeEnqueueResult
add_job added = enqueued
add_job already_exists = already_in_flight
add_job throws = raised

unfoldable pub safe_enqueue : Option JobState → Adding → SafeEnqueueResult
safe_enqueue none adding = add_job adding
safe_enqueue (some completed) adding = add_job adding
safe_enqueue (some failed) adding = add_job adding
safe_enqueue (some unrecognised) adding = skipped_unknown
safe_enqueue (some _) adding = already_in_flight
