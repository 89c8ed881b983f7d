-- ===== src/Publishing/Reconcile/Recovers.antt =====
-- The scans against the claim of the publishing worker.
use thread_pilot.Common.{ℕ, ◌≤◌, ◌<◌, ◌≡◌, true, false, arith}
use thread_pilot.Publishing.Post.{ScheduledPost, is_set, is_publishing, is_ambiguous}
use thread_pilot.Publishing.Steps.{claimable}
use thread_pilot.Publishing.Reconcile.{is_retry_due, is_stale_lease, is_hopeless}

-- A post that scan 3 enqueues is one that the worker claims, then and later.
pub retry_due-claimable :
    (now at : ℕ) (p : ScheduledPost) → is_retry_due now p ≡ true → now ≤ at → claimable at p ≡ true
unfolding claimable is_retry_due
retry_due-claimable now at p h le = ground arith

-- A post that scan 4 enqueues is one that the worker claims from the next millisecond on, provided
-- that a PUBLISHING row records its request.
pub stale_lease-claimable :
    (now at : ℕ) (p : ScheduledPost)
    → is_stale_lease now p ≡ true
    → is_hopeless p ≡ false
    → (is_publishing p.status ≡ true → is_set p.publish_requested_at ≡ true)
    → now < at
    → claimable at p ≡ true
unfolding claimable is_stale_lease is_hopeless is_ambiguous
stale_lease-claimable now at p s h r lt = ground arith
