-- ===== src/Safety/Override.antt =====
-- requestOverride, isPublishPermitted and consumeOverrideToken.
use thread_pilot.Common.{
  ℕ, Bool, true, false, not, ◌&&◌, Option, none, some, List, [], ◌∷◌, leb, ltb, ◌==◌, if◌then◌else◌,
  length,
}
use thread_pilot.Publishing.Post.{is_set}
use thread_pilot.Publishing.Text.{trim}
use thread_pilot.Safety.Record.{
  AuditStatus, passed, flagged_approval_required, blocked_policy_violation, Role, owner, admin,
  OverrideStatus, overridden, Audit, OverrideLog, Member, Store, Result, ok, refused,
  reason_too_short, risk_not_acknowledged, not_authorized, audit_not_found, hard_violation,
  audit_expired, token_invalid, not_flagged, find_first, latest, update_all, count_if,
}

-- The arguments of `requestOverride`.
pub record Request : Type 0 where
  pub workspace_id : ℕ
  pub social_account_id : ℕ
  pub audit_id : ℕ
  pub actor_id : ℕ
  pub reason : List ℕ
  pub risk_acknowledged : Bool

abbrev pub may_authorize : Role → Bool
may_authorize owner = true
may_authorize admin = true
may_authorize _ = false

abbrev pub is_member : ℕ → ℕ → Member → Bool
is_member workspace user m = m.workspace_id == workspace && m.user_id == user

-- The membership of the actor; that of the workspace's own user is created as OWNER.
unfoldable pub find_membership : ℕ → ℕ → Store → Option Member × Store
find_membership workspace actor s = elim (find_first (is_member workspace actor) s.members) [
  | some m ↦ (some m, s)
  | none ↦ elim (find_first (λ w. w.id == workspace) s.workspaces) [
    | none ↦ (none, s)
    | some w ↦
        let m : Member = record { workspace_id = workspace; user_id = actor; role = owner } in
        if w.user_id == actor then (some m, record s { members = m ∷ s.members }) else (none, s)
  ]
]

abbrev pub is_for : ℕ → OverrideLog → Bool
is_for audit l = l.audit_id == audit

-- The upsert of the override of the audit.
unfoldable pub upsert_override : OverrideLog → List OverrideLog → List OverrideLog
upsert_override l [] = l ∷ []
upsert_override l (k ∷ ks) = if is_for l.audit_id k then l ∷ ks else k ∷ upsert_override l ks

abbrev pub granted : Request → Role → ℕ → Audit → OverrideLog
granted r role token a = record {
  workspace_id = r.workspace_id;
  social_account_id = r.social_account_id;
  audit_id = r.audit_id;
  actor_id = r.actor_id;
  actor_role_snapshot = role;
  reason = trim r.reason;
  one_time_token = token;
  status = overridden;
  expires_at = a.expires_at;
  consumed_at = none;
  consumed_by = none;
}

abbrev pub is_of : ℕ → ℕ → Audit → Bool
is_of workspace account a = a.workspace_id == workspace && a.social_account_id == account

-- The checks on the audit, and the new token.
unfoldable pub override_audit :
    ℕ → ℕ → Request → Role → Option Audit → Store → Result OverrideLog × Store
unfolding upsert_override
override_audit now token r role none s = (refused audit_not_found, s)
override_audit now token r role (some a) s =
    if not (is_of r.workspace_id r.social_account_id a)
    then (refused audit_not_found, s)
    else elim a.status [
      | blocked_policy_violation ↦ (refused hard_violation, s)
      | flagged_approval_required ↦
          let l = granted r role token a in
          if leb a.expires_at now
          then (refused audit_expired, s)
          else (ok l, record s { override_logs = upsert_override l s.override_logs })
      | st ↦ (refused (not_flagged st), s)
    ]

abbrev pub authorize : ℕ → ℕ → Request → Option Member → Store → Result OverrideLog × Store
authorize now token r none s = (refused not_authorized, s)
authorize now token r (some m) s =
    if may_authorize m.role
    then override_audit now token r m.role (find_first (λ a. a.id == r.audit_id) s.audits) s
    else (refused not_authorized, s)

unfoldable pub request_override : ℕ → ℕ → Request → Store → Result OverrideLog × Store
unfolding override_audit find_membership
request_override now token r s =
    if ltb (length (trim r.reason)) 10
    then (refused reason_too_short, s)
    else if not r.risk_acknowledged
    then (refused risk_not_acknowledged, s)
    else let (m, s') = find_membership r.workspace_id r.actor_id s in authorize now token r m s'

-- The `reason` of a refusal to publish.
pub data Permission : Type 0 where
  permitted no_safety_audit_found safety_audit_expired : Permission
  approval_required invalid_or_consumed_override_token : Permission
  audit_status : AuditStatus → Permission

abbrev pub is_overridden : OverrideStatus → Bool
is_overridden overridden = true
is_overridden _ = false

-- Whether the override grants the token now.
abbrev pub grants : ℕ → ℕ → Option OverrideLog → Bool
grants now token none = false
grants now token (some l) =
    l.one_time_token == token
    && is_overridden l.status
    && not (is_set l.consumed_at)
    && ltb now l.expires_at

abbrev pub check_override : ℕ → Option ℕ → Option OverrideLog → Permission
check_override now none log = approval_required
check_override now (some token) log =
    if grants now token log then permitted else invalid_or_consumed_override_token

unfoldable pub check_audit : ℕ → Option ℕ → List OverrideLog → Audit → Permission
check_audit now token logs a =
    if leb a.expires_at now then safety_audit_expired else elim a.status [
      | passed ↦ permitted
      | flagged_approval_required ↦ check_override now token (find_first (is_for a.id) logs)
      | st ↦ audit_status st
    ]

abbrev pub check_latest : ℕ → Option ℕ → List OverrideLog → Option Audit → Permission
check_latest now token logs none = no_safety_audit_found
check_latest now token logs (some a) = check_audit now token logs a

abbrev pub audit_in : ℕ → ℕ → ℕ → List Audit → Option Audit
audit_in workspace account version audits =
    latest (λ a. a.created_at) (λ a. is_of workspace account a && a.content_version_id == version)
      audits

abbrev pub audit_for : ℕ → ℕ → ℕ → Store → Option Audit
audit_for workspace account version s = audit_in workspace account version s.audits

unfoldable pub is_publish_permitted : ℕ → ℕ → ℕ → ℕ → Option ℕ → Store → Permission
unfolding check_audit
is_publish_permitted now workspace account version token s =
    check_latest now token s.override_logs (audit_for workspace account version s)

-- The `WHERE` of the consumption.
abbrev pub is_consumable : ℕ → ℕ → ℕ → ℕ → OverrideLog → Bool
is_consumable now workspace account token l =
    l.one_time_token == token
    && l.workspace_id == workspace
    && l.social_account_id == account
    && not (is_set l.consumed_at)
    && ltb now l.expires_at

abbrev pub consume : ℕ → ℕ → OverrideLog → OverrideLog
consume now post l = record l { consumed_at = some now; consumed_by = some post }

-- The transaction that calls this is undone by the exception.
unfoldable pub consume_override_token :
    ℕ → ℕ → ℕ → ℕ → ℕ → List OverrideLog → Result Bool × List OverrideLog
consume_override_token now workspace account token post logs =
    let test = is_consumable now workspace account token in
    if count_if test logs == 0
    then (refused token_invalid, logs)
    else (ok true, update_all test (consume now post) logs)
