-- ===== src/Safety/Grant.antt =====
-- What a granted override rests on, and what it permits until its token is consumed.
use thread_pilot.Common.{
  ℕ, ◌≤◌, ◌<◌, ◌≡◌, refl, sym, inl, inr, true, Option, none, some, ◌==◌, arith, ap, ◌∙◌, length,
  Bool-cases,
}
use thread_pilot.Publishing.Text.{trim}
use thread_pilot.Safety.Record.{
  flagged_approval_required, Role, Audit, OverrideLog, Member, Store, ok, find_first,
}
use thread_pilot.Safety.Override.{
  Request, may_authorize, is_member, find_membership, upsert_override, granted, is_of,
  override_audit, authorize, request_override,
}

-- A membership that was found is a row of the table that is left; audits and overrides stay.
record Found (workspace actor : ℕ) (s s' : Store) (m : Member) : Type 0 where
  a_row : find_first (is_member workspace actor) s'.members ≡ some m
  same_audits : s'.audits ≡ s.audits
  same_logs : s'.override_logs ≡ s.override_logs

find_membership-Found :
    (workspace actor : ℕ) (s s' : Store) (m : Member)
    → find_membership workspace actor s ≡ (some m, s')
    → Found workspace actor s s' m
unfolding find_membership
find_membership-Found workspace actor s s' m h = record {
  a_row = ground arith;
  same_audits = ground arith;
  same_logs = ground arith;
}

-- The conditions of an override.
pub record Granted (now token : ℕ) (r : Request) (s s' : Store) (l : OverrideLog) : Type 0 where
  pub reason_given : 10 ≤ length (trim r.reason)
  pub acknowledged : r.risk_acknowledged ≡ true
  pub actor : Member
  pub actor_found : find_first (is_member r.workspace_id r.actor_id) s'.members ≡ some actor
  pub actor_may : may_authorize actor.role ≡ true
  pub audit : Audit
  pub audit_found : find_first (λ a. a.id == r.audit_id) s.audits ≡ some audit
  pub audit_is_of : is_of r.workspace_id r.social_account_id audit ≡ true
  pub flagged : audit.status ≡ flagged_approval_required
  pub unexpired : now < audit.expires_at
  pub log : l ≡ granted r actor.role token audit
  pub same_audits : s'.audits ≡ s.audits
  pub upserted : s'.override_logs ≡ upsert_override l s.override_logs

record Overrode (now token : ℕ) (r : Request) (role : Role) (a : Audit) (s s' : Store)
    (l : OverrideLog) : Type 0 where
  audit_is_of : is_of r.workspace_id r.social_account_id a ≡ true
  flagged : a.status ≡ flagged_approval_required
  unexpired : now < a.expires_at
  log : l ≡ granted r role token a
  left : s' ≡ record s { override_logs = upsert_override l s.override_logs }

override_audit_lem :
    (now token : ℕ) (r : Request) (role : Role) (a : Audit) (s s' : Store) (l : OverrideLog)
    → override_audit now token r role (some a) s ≡ (ok l, s')
    → Overrode now token r role a s s' l
unfolding override_audit
override_audit_lem now token r role a s s' l h = record {
  audit_is_of = ground arith;
  flagged = ground arith;
  unexpired = ground arith;
  log = ground arith;
  left = ground arith;
}

request_lem :
    (now token : ℕ) (r : Request) (s s' : Store) (l : OverrideLog)
    → request_override now token r s ≡ (ok l, s')
    → (10 ≤ length (trim r.reason))
      × (r.risk_acknowledged ≡ true)
      × (authorize now token r
            (find_membership r.workspace_id r.actor_id s).0
            (find_membership r.workspace_id r.actor_id s).1
          ≡ (ok l, s'))
unfolding request_override
request_lem now token r s s' l h = (ground arith, ground arith, ground arith)

abbrev Authorized :
    ℕ → ℕ → Request → Option Member → Option Audit → Store → Store → OverrideLog → Type 0
Authorized now token r m a s s' l =
    (n : Member) × (b : Audit) × (m ≡ some n)
    × (a ≡ some b)
    × (may_authorize n.role ≡ true)
    × Overrode now token r n.role b s s' l

audited_lem :
    (now token : ℕ) (r : Request) (m : Member) (a : Option Audit) (s s' : Store) (l : OverrideLog)
    → may_authorize m.role ≡ true
    → override_audit now token r m.role a s ≡ (ok l, s')
    → Authorized now token r (some m) a s s' l
unfolding override_audit
audited_lem now token r m none s s' l may h = cc
audited_lem now token r m (some b) s s' l may h =
    (m, b, refl, refl, may, override_audit_lem now token r m.role b s s' l h)

authorize_lem :
    (now token : ℕ) (r : Request) (m : Option Member) (s s' : Store) (l : OverrideLog)
    → authorize now token r m s ≡ (ok l, s')
    → Authorized now token r m (find_first (λ b. b.id == r.audit_id) s.audits) s s' l
authorize_lem now token r none s s' l h = cc
authorize_lem now token r (some m) s s' l h = elim (Bool-cases (may_authorize m.role)) [
  | inl may ↦ audited_lem now token r m _ s s' l may (rw may at h)
  | inr may_not ↦ absurd (ground arith)
]

-- An override that `requestOverride` grants has a reason of at least 10 characters and the
-- acknowledgement of the risk; its actor is an OWNER or ADMIN of the workspace; its audit is one of
-- the workspace's account, flagged and unexpired; and the override, with its fresh token and the
-- expiry of the audit, takes the place of the audit's earlier one, while no audit changes.
pub request_override-Granted :
    (now token : ℕ) (r : Request) (s s' : Store) (l : OverrideLog)
    → request_override now token r s ≡ (ok l, s')
    → Granted now token r s s' l
request_override-Granted now token r s s' l h =
    let s1 = (find_membership r.workspace_id r.actor_id s).1 in
    let (long, known, done) = request_lem now token r s s' l h in
    let (m, a, is_m, is_a, may, o) = authorize_lem now token r _ s1 s' l done in
    let f = find_membership-Found r.workspace_id r.actor_id s s1 m (ap (λ x. (x, s1)) is_m) in
    record {
      reason_given = long;
      acknowledged = known;
      actor = m;
      actor_found =
          ap (λ t. find_first (is_member r.workspace_id r.actor_id) t.members) o.left ∙ f.a_row;
      actor_may = may;
      audit = a;
      audit_found = ap (find_first _) (sym f.same_audits) ∙ is_a;
      audit_is_of = o.audit_is_of;
      flagged = o.flagged;
      unexpired = o.unexpired;
      log = o.log;
      same_audits = ap (λ t. t.audits) o.left ∙ f.same_audits;
      upserted = ap (λ t. t.override_logs) o.left ∙ ap (upsert_override l) f.same_logs;
    }
