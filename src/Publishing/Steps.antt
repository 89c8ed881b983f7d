-- ===== src/Publishing/Steps.antt =====
-- The steps of `process` up to a container that is ready: the claim, the lateness and retry guards,
-- the quota gate, the attempt count, the container and its polling.
use thread_pilot.Common.{
  ℕ, ◌+◌, ◌*◌, ◌^◌, min, Bool, true, false, not, ◌&&◌, ◌||◌, leb, ltb, ◌==◌, if◌then◌else◌,
}
use thread_pilot.Publishing.Post.{
  Status, claimed, creating_container, container_created, publishing, quota_blocked,
  failed_retryable, failed_permanent, expired, schedule_expired, max_age_exceeded,
  max_retries_exceeded, container_creation_failed, ScheduledPost, is_set, is_scheduled,
  is_ambiguous, max_execution_attempts, before, is_due, settle, claim_write, quota_write,
  attempt_write, creating_write, created_write,
}
use thread_pilot.Publishing.Effect.{
  Done, done, Env, Vars, M, JsError, ◌>>=◌, ◌>>◌, pure, return, case_option, gets, set_vars, ask,
  request, write_if, fenced_update,
}
use thread_pilot.Publishing.Recovery.{demand}

-- The statuses under which a worker holds a lease.
abbrev pub in_flight : Status → Bool
in_flight claimed = true
in_flight creating_container = true
in_flight container_created = true
in_flight publishing = true
in_flight _ = false

abbrev is_failed_retryable : Status → Bool
is_failed_retryable failed_retryable = true
is_failed_retryable _ = false

abbrev is_quota_blocked : Status → Bool
is_quota_blocked quota_blocked = true
is_quota_blocked _ = false

-- `attempt_count < 5 OR publish_requested_at IS NOT NULL OR ambiguity_detected_at IS NOT NULL`.
abbrev pub may_retry : ScheduledPost → Bool
may_retry p =
    ltb p.attempt_count 5 || is_set p.publish_requested_at || is_set p.ambiguity_detected_at

-- The `WHERE` of the claim.
unfoldable pub claimable : ℕ → ScheduledPost → Bool
claimable now p =
    (is_scheduled p.status && ltb p.attempt_count 5)
    || (is_failed_retryable p.status && is_due p.next_retry_at now && may_retry p)
    || (is_quota_blocked p.status && is_due p.next_retry_at now)
    || (in_flight p.status && before p.lease_until now && may_retry p)

-- What the claim returns of the row before it.
pub record Claim : Type 0 where
  pub previous_status : Status
  pub attempt_count : ℕ

-- `Math.min(30 * Math.pow(2, attemptCount), 900)` seconds.
unfoldable pub backoff_seconds : ℕ → ℕ
backoff_seconds attempt_count = min (30 * 2 ^ attempt_count) 900

-- `Some text` of an `Error` that this code throws itself.
abbrev pub not_ready_error : JsError
not_ready_error = record {
  name = "Error";
  code = "";
  model_name = "";
  message = "Container did not reach FINISHED state within polling window";
}

unfoldable pub read_vars : ScheduledPost → Vars → Vars
read_vars p v = record {
  post = p;
  has_publish_ambiguity = is_ambiguous p;
  ambiguity_reference_time = v.ambiguity_reference_time;
}

unfoldable pub count_attempt : Vars → Vars
count_attempt v = record v { post = record v.post { attempt_count = v.post.attempt_count + 1 } }

module _ (env : Env) where
  -- Step 1, the atomic claim; an unclaimable row ends the run.
  unfoldable pub claim : ℕ → ℕ → M Claim
  claim worker attempt_id = do
    request env
    now ← gets (λ s. s.now)
    previous ←
        gets (λ s. record { previous_status = s.row.status; attempt_count = s.row.attempt_count })
    won ← write_if (claimable now) (claim_write worker attempt_id now)
    if won then pure previous else return

  -- `findUniqueOrThrow` after the claim, and the flag that is computed from it.
  unfoldable pub read_post : M (Done)
  read_post = do request env; p ← gets (λ s. s.row); set_vars (read_vars p)

  module _ (attempt_id : ℕ) where
    -- A write that ends the run, whether or not the lease still holds.
    unfoldable pub settle_and_return : {A : Type 0} → (ℕ → ScheduledPost → ScheduledPost) → M A
    settle_and_return f = do _ ← fenced_update env attempt_id f; return

    -- A write without which the run is halted.
    unfoldable pub fenced_or_throw : (ℕ → ScheduledPost → ScheduledPost) → M (Done)
    fenced_or_throw f = do held ← fenced_update env attempt_id f; demand held

    -- Step 2. `a < b - c` on dates is written `a + c < b`.
    unfoldable pub lateness_guard : Claim → M (Done)
    lateness_guard c = do
      v ← gets (λ s. s.vars)
      now ← gets (λ s. s.now)
      let ambiguous = v.has_publish_ambiguity
      let initial = is_scheduled c.previous_status && c.attempt_count == 0 && not ambiguous
      let delayed = initial && ltb (v.post.scheduled_at + 900000) now
      let too_old = not ambiguous && ltb (v.post.scheduled_at + 86400000) now
      let exhausted = not ambiguous && leb max_execution_attempts v.post.attempt_count
      if delayed
          then settle_and_return (settle expired schedule_expired)
          else if too_old
          then settle_and_return (settle expired max_age_exceeded)
          else if exhausted
          then settle_and_return (settle failed_permanent max_retries_exceeded)
          else pure done

    -- Step 3: the access token and the live quota.
    unfoldable pub quota_gate : M ℕ
    quota_gate = do
      token ← ask env env.access_token
      quota ← ask env env.publishing_limit
      later ← gets (λ s. s.now + 900000)
      if leb quota.total quota.usage then settle_and_return (quota_write later) else pure token

    -- The cap on attempts, and the count of this one.
    unfoldable pub begin_attempt : M (Done)
    begin_attempt = do
      v ← gets (λ s. s.vars)
      if not v.has_publish_ambiguity && leb max_execution_attempts v.post.attempt_count
          then settle_and_return (settle failed_permanent max_retries_exceeded)
          else do fenced_or_throw attempt_write; set_vars count_attempt

    -- Step 4, where the post has no container yet.
    unfoldable pub create_container : M ℕ
    create_container = do
      v ← gets (λ s. s.vars)
      if leb 3 v.post.container_create_attempts
          then settle_and_return (settle failed_permanent container_creation_failed)
          else do
            fenced_or_throw creating_write
            container ← ask env env.created_container
            fenced_or_throw (created_write container)
            pure container

    unfoldable pub ensure_container : M ℕ
    ensure_container = do
      v ← gets (λ s. s.vars)
      case_option v.post.container_id create_container pure
