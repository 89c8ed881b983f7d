-- ===== src/Publishing/Post.antt =====
-- The row of `scheduled_posts` (packages/database/prisma/schema.prisma, model ScheduledPost) as
-- the publishing worker reads and writes it. Times are milliseconds; identifiers are numbers.
use thread_pilot.Common.{ℕ, ◌+◌, Bool, true, false, ◌&&◌, ◌||◌, Option, none, some, List, ltb, ◌==◌}

-- The FSM that the comment on the schema's `status` lists.
pub data Status : Type 0 where
  scheduled claimed creating_container container_created publishing published : Status
  quota_blocked failed_retryable failed_permanent auth_required : Status
  recovery_required cancelled expired : Status

-- The codes that are written to `last_error_code`.
pub data ErrorCode : Type 0 where
  schedule_expired max_age_exceeded max_retries_exceeded quota_exhausted : ErrorCode
  container_creation_failed container_error container_expired : ErrorCode
  container_expired_max_retries ambiguous_publish_unconfirmed ambiguous_feed_match : ErrorCode
  needs_auth threads_bad_request container_not_found threads_server_error : ErrorCode
  transaction_timeout network_timeout internal_error : ErrorCode

pub record ScheduledPost : Type 0 where
  pub id : ℕ
  pub workspace_id : ℕ
  pub social_account_id : ℕ
  pub draft_id : ℕ
  pub content_version_id : ℕ
  pub body : List ℕ  -- contentSnapshot.body, as UTF-16 code units
  pub content_hash : List ℕ
  pub scheduled_at : ℕ
  pub status : Status
  pub claimed_by : Option ℕ
  pub claimed_at : Option ℕ
  pub lease_until : Option ℕ
  pub attempt_id : Option ℕ
  pub attempt_count : ℕ
  pub last_attempt_at : Option ℕ
  pub last_quota_checked_at : Option ℕ
  pub container_id : Option ℕ
  pub container_create_attempts : ℕ
  pub publish_requested_at : Option ℕ
  pub publish_attempt_id : Option ℕ
  pub ambiguity_detected_at : Option ℕ
  pub published_at : Option ℕ
  pub published_observed_at : Option ℕ
  pub next_retry_at : Option ℕ
  pub last_error_code : Option ErrorCode
  pub updated_at : ℕ

abbrev pub is_set {ℓ} : {A : Type ℓ} → Option A → Bool
is_set none = false
is_set (some _) = true

abbrev pub is_publishing : Status → Bool
is_publishing publishing = true
is_publishing _ = false

abbrev pub is_scheduled : Status → Bool
is_scheduled scheduled = true
is_scheduled _ = false

-- `!!post.publishRequestedAt || post.status === 'PUBLISHING' || !!post.ambiguityDetectedAt`.
unfoldable pub is_ambiguous : ScheduledPost → Bool
is_ambiguous p =
    is_set p.publish_requested_at || is_publishing p.status || is_set p.ambiguity_detected_at

-- The lease that a claim or a heartbeat grants.
abbrev pub lease_ms : ℕ
lease_ms = 90000

abbrev pub max_execution_attempts : ℕ
max_execution_attempts = 5

-- SQL `x < NOW()`, `x > NOW()` and `x IS NULL OR x <= NOW()` on a nullable time.
abbrev pub before : Option ℕ → ℕ → Bool
before none now = false
before (some t) now = ltb t now

abbrev pub after : Option ℕ → ℕ → Bool
after none now = false
after (some t) now = ltb now t

abbrev pub is_due : Option ℕ → ℕ → Bool
is_due none now = true
is_due (some t) now = ltb t (now + 1)

-- The writes of the worker, one for each `UPDATE`. Those that end a run release the lease:
-- `claimed_by = NULL, lease_until = NULL, attempt_id = NULL`.
unfoldable pub settle : Status → ErrorCode → ℕ → ScheduledPost → ScheduledPost
settle st code now p = record p {
  status = st;
  last_error_code = some code;
  claimed_by = none;
  lease_until = none;
  attempt_id = none;
  updated_at = now;
}

unfoldable pub claim_write : ℕ → ℕ → ℕ → ScheduledPost → ScheduledPost
claim_write worker attempt now p = record p {
  status = claimed;
  claimed_by = some worker;
  claimed_at = some now;
  lease_until = some (now + lease_ms);
  attempt_id = some attempt;
  updated_at = now;
}

unfoldable pub quota_write : ℕ → ℕ → ScheduledPost → ScheduledPost
quota_write retry_at now p = record p {
  status = quota_blocked;
  last_quota_checked_at = some now;
  next_retry_at = some retry_at;
  claimed_by = none;
  lease_until = none;
  attempt_id = none;
  last_error_code = some quota_exhausted;
  updated_at = now;
}

unfoldable pub attempt_write : ℕ → ScheduledPost → ScheduledPost
attempt_write now p = record p {
  attempt_count = p.attempt_count + 1;
  last_attempt_at = some now;
  updated_at = now;
}

unfoldable pub creating_write : ℕ → ScheduledPost → ScheduledPost
creating_write now p = record p {
  status = creating_container;
  container_create_attempts = p.container_create_attempts + 1;
  lease_until = some (now + lease_ms);
  updated_at = now;
}

unfoldable pub created_write : ℕ → ℕ → ScheduledPost → ScheduledPost
created_write container now p = record p {
  status = container_created;
  container_id = some container;
  lease_until = some (now + lease_ms);
  updated_at = now;
}

unfoldable pub heartbeat_write : ℕ → ScheduledPost → ScheduledPost
heartbeat_write now p = record p { lease_until = some (now + lease_ms); updated_at = now }

abbrev pub or_time : Option ℕ → ℕ → ℕ
or_time none d = d
or_time (some t) d = t

-- `ambiguity_detected_at = COALESCE(ambiguity_detected_at, t)`.
unfoldable pub ambiguity_write : ℕ → ℕ → ScheduledPost → ScheduledPost
ambiguity_write t now p = record p {
  ambiguity_detected_at = some (or_time p.ambiguity_detected_at t);
  updated_at = now;
}

-- The container is dropped with the failure of its attempt.
unfoldable pub drop_container :
    (ℕ → ScheduledPost → ScheduledPost) → ℕ → ScheduledPost → ScheduledPost
drop_container f now p = record (f now p) { container_id = none }

unfoldable pub retry_write : ErrorCode → ℕ → ℕ → ScheduledPost → ScheduledPost
unfolding settle
retry_write code retry_at now p = record (settle failed_retryable code now p) {
  next_retry_at = some retry_at;
}

unfoldable pub announce_write : ℕ → ℕ → ℕ → ScheduledPost → ScheduledPost
announce_write requested_at attempt now p = record p {
  status = publishing;
  publish_requested_at = some requested_at;
  publish_attempt_id = some attempt;
  lease_until = some (now + lease_ms);
  updated_at = now;
}

unfoldable pub published_write : Option ℕ → ℕ → ℕ → ScheduledPost → ScheduledPost
published_write platform_time observed_at now p = record p {
  status = published;
  published_at = platform_time;
  published_observed_at = some observed_at;
  claimed_by = none;
  lease_until = none;
  attempt_id = none;
  updated_at = now;
}

-- `WHERE attempt_id = ${attemptId} AND lease_until > NOW()`.
abbrev pub owns : Option ℕ → ℕ → Bool
owns none a = false
owns (some b) a = b == a

unfoldable pub holds_lease : ℕ → ℕ → ScheduledPost → Bool
holds_lease attempt_id now p = owns p.attempt_id attempt_id && after p.lease_until now
