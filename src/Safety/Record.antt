-- ===== src/Safety/Record.antt =====
-- The rows of the safety gate: policies, content versions, audits, overrides and memberships.
-- Identifiers and versions are numbers, times are milliseconds, scores are hundredths.
use thread_pilot.Common.{ℕ, Bool, Option, List}
pub use thread_pilot.Common.{find_first, update_all, count_if, latest}

pub data AuditStatus : Type 0 where
  pending running passed flagged_approval_required blocked_policy_violation expired : AuditStatus

pub data Wall : Type 0 where
  claim_hallucination toxicity_brand_safety policy_compliance sensitive_topic_rate : Wall

pub data Role : Type 0 where
  owner admin member : Role

pub data OverrideStatus : Type 0 where
  override_requested overridden rejected expired : OverrideStatus

pub record Policy : Type 0 where
  pub workspace_id : ℕ
  pub social_account_id : ℕ
  pub policy_version : ℕ
  pub hallucination_threshold : ℕ
  pub toxicity_threshold : ℕ
  pub prohibited_topics : List (List ℕ)
  pub flagged_topics : List (List ℕ)
  pub audit_ttl_seconds : ℕ
  pub is_active : Bool
  pub created_at : ℕ

-- A content version with the research sources of its draft; an absent text is empty.
pub record Version : Type 0 where
  pub id : ℕ
  pub draft_id : ℕ
  pub version : ℕ
  pub body : List ℕ
  pub hook : List ℕ
  pub cta : List ℕ
  pub research_sources : List (List ℕ)

-- What `evaluateAudit` writes with the status.
pub record Evaluation : Type 0 where
  pub status : AuditStatus
  pub hallucination_score : ℕ
  pub toxicity_score : ℕ
  pub failed_walls : List Wall
  pub char_count : ℕ
  pub prohibited_topics_found : List (List ℕ)
  pub matched_topic : Option (List ℕ)

pub record Audit : Type 0 where
  pub id : ℕ
  pub workspace_id : ℕ
  pub social_account_id : ℕ
  pub draft_id : ℕ
  pub content_version_id : ℕ
  pub content_hash : List ℕ
  pub status : AuditStatus
  pub policy_version : ℕ
  pub evaluation : Option Evaluation
  pub failed_walls : List Wall
  pub evaluated_at : Option ℕ
  pub expires_at : ℕ
  pub created_at : ℕ

pub record OverrideLog : Type 0 where
  pub workspace_id : ℕ
  pub social_account_id : ℕ
  pub audit_id : ℕ
  pub actor_id : ℕ
  pub actor_role_snapshot : Role
  pub reason : List ℕ
  pub one_time_token : ℕ
  pub status : OverrideStatus
  pub expires_at : ℕ
  pub consumed_at : Option ℕ
  pub consumed_by : Option ℕ

pub record Member : Type 0 where
  pub workspace_id : ℕ
  pub user_id : ℕ
  pub role : Role

pub record Workspace : Type 0 where
  pub id : ℕ
  pub user_id : ℕ

pub record Store : Type 0 where
  pub policies : List Policy
  pub versions : List Version
  pub audits : List Audit
  pub override_logs : List OverrideLog
  pub members : List Member
  pub workspaces : List Workspace

pub data Refusal : Type 0 where
  reason_too_short risk_not_acknowledged not_authorized audit_not_found version_not_found : Refusal
  hard_violation audit_expired token_invalid : Refusal
  not_flagged : AuditStatus → Refusal

pub data Result {ℓ} (A : Type ℓ) : Type ℓ where
  ok : A → Result A
  refused : Refusal → Result A
