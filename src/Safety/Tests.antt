-- ===== src/Safety/Tests.antt =====
-- Concrete runs of the safety gate: a flagged audit, an override that its owner requests, the
-- publication that it permits, and the consumption of its token.
use thread_pilot.Common.{◌≡◌, ◌≢◌, ◌↔◌, refl, true, none, some, [], ◌∷◌, arith}
use thread_pilot.Publishing.Text.{trim, trim_start, is_space}
use thread_pilot.Safety.Record.{
  flagged_approval_required, owner, Version, Audit, OverrideLog, Member, Store, ok, refused,
  token_invalid,
}
use thread_pilot.Safety.Walls.{Oracle}
use thread_pilot.Safety.Override.{
  Request, granted, find_membership, upsert_override, override_audit, request_override, permitted,
  audit_for, is_publish_permitted, consume_override_token,
}
use thread_pilot.Safety.Verdict.{Allowed, is_publish_permitted_iff}
use thread_pilot.Safety.SingleUse.{consume_once}
use thread_pilot.Safety.Grant.{Granted, request_override-Granted}
use thread_pilot.Safety.Lifecycle.{override_permits_once}

abbrev a_version : Version
a_version = record {
  id = 5;
  draft_id = 4;
  version = 1;
  body = 65 ∷ 66 ∷ [];
  hook = [];
  cta = [];
  research_sources = [];
}

-- No pattern matches and no post is recent.
abbrev calm : Oracle
calm = record {
  sha256 = λ t. t;
  to_lower_case = λ t. t;
  claim_matches = λ t. [];
  insult_match = λ t. none;
  offense_match = λ t. none;
  recent_post = λ w a since topic. none;
}

abbrev flagged : Audit
flagged = record {
  id = 9;
  workspace_id = 1;
  social_account_id = 2;
  draft_id = 4;
  content_version_id = 5;
  content_hash = [];
  status = flagged_approval_required;
  policy_version = 1;
  evaluation = none;
  failed_walls = [];
  evaluated_at = some 10;
  expires_at = 1000;
  created_at = 10;
}

abbrev the_owner : Member
the_owner = record { workspace_id = 1; user_id = 3; role = owner }

abbrev before : Store
before = record {
  policies = [];
  versions = a_version ∷ [];
  audits = flagged ∷ [];
  override_logs = [];
  members = the_owner ∷ [];
  workspaces = [];
}

abbrev a_request : Request
a_request = record {
  workspace_id = 1;
  social_account_id = 2;
  audit_id = 9;
  actor_id = 3;
  reason = 65 ∷ 65 ∷ 65 ∷ 65 ∷ 65 ∷ 65 ∷ 65 ∷ 65 ∷ 65 ∷ 65 ∷ [];
  risk_acknowledged = true;
}

abbrev the_log : OverrideLog
the_log = granted a_request owner 77 flagged

abbrev after : Store
after = record before { override_logs = the_log ∷ [] }

request_is_granted : request_override 100 77 a_request before ≡ (ok the_log, after)
unfolding request_override override_audit find_membership upsert_override trim trim_start is_space
request_is_granted = refl

is_publish_permitted_iff_example :
    (is_publish_permitted 200 1 2 5 (some 77) after ≡ permitted)
    ↔ ((a : Audit) × (audit_for 1 2 5 after ≡ some a) × Allowed 200 (some 77) after.override_logs a)
is_publish_permitted_iff_example = is_publish_permitted_iff 200 1 2 5 (some 77) after

request_override-Granted_example : Granted 100 77 a_request before after the_log
request_override-Granted_example =
    request_override-Granted 100 77 a_request before after the_log request_is_granted

consume_once_example :
    consume_override_token 300 1 2 77 51
      (consume_override_token 200 1 2 77 50 after.override_logs).1
    ≡ (refused token_invalid, (consume_override_token 200 1 2 77 50 after.override_logs).1)
consume_once_example = consume_once 200 300 1 2 77 50 51 after.override_logs (omega arith)

override_permits_once_example :
    (is_publish_permitted 200 1 2 5 (some 77) after ≡ permitted)
    × ((consume_override_token 200 1 2 77 50 after.override_logs).0 ≡ ok true)
    × (is_publish_permitted 300 1 2 5 (some 77) (record after {
      override_logs = (consume_override_token 200 1 2 77 50 after.override_logs).1;
    })
        ≢ permitted)
override_permits_once_example =
    override_permits_once 100 77 200 300 5 50 a_request before after the_log request_is_granted refl
      (omega arith)
