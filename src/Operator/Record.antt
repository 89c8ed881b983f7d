-- ===== src/Operator/Record.antt =====
-- The rows that the autonomous operator (apps/worker/src/services/autonomous-operator.service.ts)
-- reads and writes. Identifiers and week windows are numbers, times are milliseconds.
use thread_pilot.Common.{ℕ, Bool, Option, List, [], ◌∷◌}
use thread_pilot.Publishing.Post.{ScheduledPost}
use thread_pilot.Safety.Record.{AuditStatus, Refusal}

pub data AutonomyLevel : Type 0 where
  manual semi_autonomous full_autonomous paused : AutonomyLevel

pub record OperatorConfig : Type 0 where
  pub workspace_id : ℕ
  pub social_account_id : ℕ
  pub autonomy_level : AutonomyLevel
  pub max_weekly_posts : ℕ
  pub min_hours_between_posts : ℕ
  pub target_posting_hours : List ℕ

-- `social_account_id` is the primary key.
pub record OperatorLease : Type 0 where
  pub social_account_id : ℕ
  pub workspace_id : ℕ
  pub lease_token : Option ℕ
  pub lease_until : Option ℕ
  pub cycle_id : Option ℕ
  pub heartbeat_at : Option ℕ

-- The exceptions that end a planning cycle.
pub data Failure : Type 0 where
  quota_exceeded candidate_lease_expired slot_taken queue_failed run_not_created : Failure
  safety_refused : Refusal → Failure

-- The `summary` of a run.
pub data Summary : Type 0 where
  empty kill_switch no_candidates : Summary
  dispatched : (request_id : ℕ) (topic format : List ℕ) → Summary
  flagged : AuditStatus → Summary
  for_manual : (candidate_id draft_id slot : ℕ) → Summary
  scheduled_as : (post_id slot week : ℕ) → Summary
  failed_with : Failure → Summary

pub data RunStatus : Type 0 where
  running completed halted_kill_switch failed : RunStatus

pub record OperatorRun : Type 0 where
  pub id : ℕ
  pub workspace_id : ℕ
  pub social_account_id : ℕ
  pub cycle_id : ℕ
  pub status : RunStatus
  pub candidates_evaluated : ℕ
  pub candidates_scheduled : ℕ
  pub safety_flagged_count : ℕ
  pub summary : Summary
  pub completed_at : Option ℕ

pub data CandidateStatus : Type 0 where
  selected safety_blocked placed : CandidateStatus  -- `placed` is SCHEDULED

pub record Candidate : Type 0 where
  pub id : ℕ
  pub workspace_id : ℕ
  pub social_account_id : ℕ
  pub run_id : ℕ
  pub draft_id : ℕ
  pub scheduled_slot : ℕ
  pub scheduled_post_id : Option ℕ
  pub status : CandidateStatus
  pub rejection : Option AuditStatus

pub data DraftStatus : Type 0 where
  draft ready approved archived : DraftStatus

pub record Draft : Type 0 where
  pub id : ℕ
  pub workspace_id : ℕ
  pub status : DraftStatus
  pub is_backfill : Option Bool  -- `generatedBy`, which may be null, is 'BACKFILL'
  pub created_at : ℕ

-- `social_account_id` and `week_window` are a unique key.
pub record Quota : Type 0 where
  pub workspace_id : ℕ
  pub social_account_id : ℕ
  pub week_window : ℕ
  pub max_weekly_posts : ℕ
  pub claimed_posts : ℕ

-- A row of `scheduled_post_dispatches`, whose status is PENDING.
pub record Dispatch : Type 0 where
  pub scheduled_post_id : ℕ

pub data JobStatus : Type 0 where
  pending running complete failed : JobStatus

pub record JobRecord : Type 0 where
  pub workspace_id : ℕ
  pub request_id : ℕ
  pub is_content : Bool  -- `type` is 'CONTENT'
  pub status : JobStatus
  pub bull_job_id : Option ℕ
  pub created_at : ℕ
  pub completed_at : Option ℕ

-- The learned profile of an account, and the preferences of a workspace.
pub record Profile : Type 0 where
  pub social_account_id : ℕ
  pub best_topic : Option (List ℕ)
  pub best_format : Option (List ℕ)

pub record Preferences : Type 0 where
  pub workspace_id : ℕ
  pub preferred_topics : List (List ℕ)
  pub preferred_formats : List (List ℕ)

pub record Store : Type 0 where
  pub configs : List OperatorConfig
  pub leases : List OperatorLease
  pub runs : List OperatorRun
  pub candidates : List Candidate
  pub drafts : List Draft
  pub published_drafts : List ℕ  -- the `draftId`s of `published_posts`
  pub posts : List ScheduledPost
  pub quotas : List Quota
  pub dispatches : List Dispatch
  pub jobs : List JobRecord
  pub profiles : List Profile
  pub preferences : List Preferences
  pub safety : thread_pilot.Safety.Record.Store

-- 'AI & Tech Insights' and 'hook_body_cta'.
abbrev pub default_topic : List ℕ
default_topic =
    65 ∷ 73 ∷ 32 ∷ 38 ∷ 32 ∷ 84 ∷ 101 ∷ 99 ∷ 104 ∷ 32 ∷ 73 ∷ 110 ∷ 115 ∷ 105 ∷ 103 ∷ 104 ∷ 116 ∷ 115
    ∷ []

abbrev pub default_format : List ℕ
default_format = 104 ∷ 111 ∷ 111 ∷ 107 ∷ 95 ∷ 98 ∷ 111 ∷ 100 ∷ 121 ∷ 95 ∷ 99 ∷ 116 ∷ 97 ∷ []
