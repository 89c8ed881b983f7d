-- ===== src/Operator/Schedule.antt =====
-- The scheduling transaction of `runPlanningCycle` (its steps 5a to 5f), at one time of the database.
-- An exception undoes all of it.
use thread_pilot.Common.{
  ℕ, suc, Bool, true, false, ◌&&◌, not, Option, none, some, List, [], ◌∷◌, ltb, ◌==◌, if◌then◌else◌,
  any, update_all, count_if,
}
use thread_pilot.Publishing.Post.{ScheduledPost, scheduled}
use thread_pilot.Operator.Record.{
  Candidate, CandidateStatus, selected, placed, Quota, Failure, Store, quota_exceeded,
  candidate_lease_expired, slot_taken,
}
use thread_pilot.Operator.Lease.{lease_active}
use thread_pilot.Operator.Slot.{is_at}

pub data Attempt {ℓ} (A : Type ℓ) : Type ℓ where
  value : A → Attempt A
  raised : Failure → Attempt A

-- What the transaction is called with: the account, its configuration, the candidate, the version
-- and the hash of its audit, the slot and its week, and the fresh identifier of the post.
pub record Order : Type 0 where
  pub now : ℕ
  pub workspace_id : ℕ
  pub social_account_id : ℕ
  pub lease_token : ℕ
  pub max_weekly_posts : ℕ
  pub candidate_id : ℕ
  pub draft_id : ℕ
  pub content_version_id : ℕ
  pub body : List ℕ
  pub content_hash : List ℕ
  pub slot : ℕ
  pub week : ℕ
  pub post_id : ℕ

abbrev pub is_quota_of : ℕ → ℕ → Quota → Bool
is_quota_of account week q = q.social_account_id == account && q.week_window == week

-- Step 5a, which adds a row at the end.
unfoldable pub ensure_quota : Order → List Quota → List Quota
ensure_quota o [] =
    record {
      workspace_id = o.workspace_id;
      social_account_id = o.social_account_id;
      week_window = o.week;
      max_weekly_posts = o.max_weekly_posts;
      claimed_posts = 0;
    }
    ∷ []
ensure_quota o (q ∷ qs) =
    if is_quota_of o.social_account_id o.week q then q ∷ qs else q ∷ ensure_quota o qs

-- Step 5b.
abbrev pub is_reservable : ℕ → ℕ → Quota → Bool
is_reservable account week q = is_quota_of account week q && ltb q.claimed_posts q.max_weekly_posts

abbrev pub reserve : Quota → Quota
reserve q = record q { claimed_posts = suc q.claimed_posts }

-- Step 5d.
abbrev pub new_post : Order → ScheduledPost
new_post o = record {
  id = o.post_id;
  workspace_id = o.workspace_id;
  social_account_id = o.social_account_id;
  draft_id = o.draft_id;
  content_version_id = o.content_version_id;
  body = o.body;
  content_hash = o.content_hash;
  scheduled_at = o.slot;
  status = scheduled;
  claimed_by = none;
  claimed_at = none;
  lease_until = none;
  attempt_id = none;
  attempt_count = 0;
  last_attempt_at = none;
  last_quota_checked_at = none;
  container_id = none;
  container_create_attempts = 0;
  publish_requested_at = none;
  publish_attempt_id = none;
  ambiguity_detected_at = none;
  published_at = none;
  published_observed_at = none;
  next_retry_at = none;
  last_error_code = none;
  updated_at = o.now;
}

-- Step 5f.
abbrev pub is_selected : CandidateStatus → Bool
is_selected selected = true
is_selected _ = false

abbrev pub is_ours : Order → Candidate → Bool
is_ours o c =
    c.id == o.candidate_id
    && c.workspace_id == o.workspace_id
    && c.social_account_id == o.social_account_id
    && is_selected c.status

abbrev pub place : ℕ → Candidate → Candidate
place post_id c = record c { status = placed; scheduled_post_id = some post_id }

-- The store that the transaction leaves when it commits.
unfoldable pub committed : Order → Store → Store
committed o s = record s {
  quotas = update_all (is_reservable o.social_account_id o.week) reserve (ensure_quota o s.quotas);
  posts = new_post o ∷ s.posts;
  dispatches = record { scheduled_post_id = o.post_id } ∷ s.dispatches;
  candidates = update_all (is_ours o) (place o.post_id) s.candidates;
}

-- The assertion that fails first, in the order of the steps; what the steps before it wrote does not
-- bear on it.
unfoldable pub refusal : Order → Store → Option Failure
refusal o s =
    if count_if (is_reservable o.social_account_id o.week) (ensure_quota o s.quotas) == 0
    then some quota_exceeded
    else if not (lease_active o.now o.social_account_id o.lease_token s.leases)
    then some candidate_lease_expired
    else if any (is_at o.social_account_id o.slot) s.posts
    then some slot_taken
    else if count_if (is_ours o) s.candidates == 1
    then none
    else some candidate_lease_expired

abbrev pub commit_unless : Option Failure → Order → Store → Attempt ℕ × Store
commit_unless (some f) o s = (raised f, s)
commit_unless none o s = (value o.post_id, committed o s)

unfoldable pub schedule_candidate : Order → Store → Attempt ℕ × Store
unfolding refusal committed
schedule_candidate o s = commit_unless (refusal o s) o s
