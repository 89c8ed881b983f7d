-- ===== src/Safety/Audit.antt =====
-- initiateAudit and evaluateAudit.
use thread_pilot.Common.{
  ℕ, ◌+◌, ◌*◌, Bool, true, false, not, ◌&&◌, ◌||◌, Option, none, some, List, [], ◌∷◌, ◌++◌, ltb,
  ◌==◌, if◌then◌else◌,
}
use thread_pilot.Publishing.Text.{trim}
use thread_pilot.Safety.Record.{
  AuditStatus, pending, running, passed, flagged_approval_required, blocked_policy_violation, Wall,
  claim_hallucination, toxicity_brand_safety, policy_compliance, sensitive_topic_rate, Policy,
  Version, Evaluation, Audit, Store, Result, ok, refused, version_not_found, audit_not_found,
  find_first, latest, update_all,
}
use thread_pilot.Safety.Walls.{
  Oracle, ClaimWall, ToxicityWall, ComplianceWall, SpacingWall, evaluate_claim_hallucination,
  evaluate_toxicity_brand_safety, evaluate_policy_compliance, evaluate_sensitive_topic_spacing,
}

-- What identifies the draft's version that is audited.
pub record Target : Type 0 where
  pub workspace_id : ℕ
  pub social_account_id : ℕ
  pub draft_id : ℕ
  pub content_version_id : ℕ

-- `${body} ${hook} ${cta}`.trim().
unfoldable pub full_text : Version → List ℕ
full_text v = trim (v.body ++ 32 ∷ v.hook ++ 32 ∷ v.cta)

-- The policy that is created for an account that has none: version '1.0.0' is `first_version`.
module _ (first_version : ℕ) (prohibited flagged : List (List ℕ)) where
  abbrev pub default_policy : ℕ → ℕ → ℕ → Policy
  default_policy now workspace account = record {
    workspace_id = workspace;
    social_account_id = account;
    policy_version = first_version;
    hallucination_threshold = 30;
    toxicity_threshold = 15;
    prohibited_topics = prohibited;
    flagged_topics = flagged;
    audit_ttl_seconds = 86400;
    is_active = true;
    created_at = now;
  }

-- `uq_safety_audit_version`.
abbrev pub is_audit_of : ℕ → ℕ → Audit → Bool
is_audit_of version policy a = a.content_version_id == version && a.policy_version == policy

abbrev pub is_pending : AuditStatus → Bool
is_pending pending = true
is_pending _ = false

-- Whether an audit is handed out again as it is.
abbrev pub is_reusable : ℕ → Audit → Bool
is_reusable now a = ltb now a.expires_at && not (is_pending a.status)

abbrev fail_unless : Bool → Wall → List Wall → List Wall
fail_unless true w ws = ws
fail_unless false w ws = w ∷ ws

unfoldable pub failing_walls : ClaimWall → ToxicityWall → ComplianceWall → SpacingWall → List Wall
failing_walls w1 w2 w3 w4 = fail_unless w1.passed claim_hallucination (
    fail_unless w2.passed toxicity_brand_safety
      (fail_unless w3.passed policy_compliance (fail_unless w4.passed sensitive_topic_rate [])))

-- The status that the walls decide.
unfoldable pub decide : ToxicityWall → ComplianceWall → List Wall → AuditStatus
decide w2 w3 [] = if not w3.passed || ltb 50 w2.score then blocked_policy_violation else passed
decide w2 w3 (_ ∷ _) =
    if not w3.passed || ltb 50 w2.score then blocked_policy_violation else flagged_approval_required

abbrev pub result : ClaimWall → ToxicityWall → ComplianceWall → SpacingWall → Evaluation
result w1 w2 w3 w4 = record {
  status = decide w2 w3 (failing_walls w1 w2 w3 w4);
  hallucination_score = w1.score;
  toxicity_score = w2.score;
  failed_walls = failing_walls w1 w2 w3 w4;
  char_count = w3.char_count;
  prohibited_topics_found = w3.prohibited_topics_found;
  matched_topic = w4.matched_topic;
}

module _ (o : Oracle) (now : ℕ) where
  abbrev pub new_audit : ℕ → Target → ℕ → ℕ → List ℕ → Audit
  new_audit id t policy_version expires_at hash = record {
    id = id;
    workspace_id = t.workspace_id;
    social_account_id = t.social_account_id;
    draft_id = t.draft_id;
    content_version_id = t.content_version_id;
    content_hash = hash;
    status = pending;
    policy_version = policy_version;
    evaluation = none;
    failed_walls = [];
    evaluated_at = none;
    expires_at = expires_at;
    created_at = now;
  }

  -- The `update` of the upsert; the scores stay, the details go.
  abbrev pub reset_audit : ℕ → List ℕ → Audit → Audit
  reset_audit expires_at hash a = record a {
    status = pending;
    content_hash = hash;
    expires_at = expires_at;
    evaluated_at = none;
    failed_walls = [];
    evaluation = none;
  }

  -- With the policy and the version at hand.
  unfoldable pub initiate_with : ℕ → Target → Policy → Version → Store → Result Audit × Store
  unfolding full_text
  initiate_with id t policy version s =
      let hash = o.sha256 (full_text version) in
      let expires_at = now + policy.audit_ttl_seconds * 1000 in
      let is_it = is_audit_of t.content_version_id policy.policy_version in
      elim (find_first is_it s.audits) [
        | none ↦
            let a = new_audit id t policy.policy_version expires_at hash in
            (ok a, record s { audits = a ∷ s.audits })
        | some a ↦ if is_reusable now a then (ok a, s) else (
          ok (reset_audit expires_at hash a),
          record s { audits = update_all is_it (reset_audit expires_at hash) s.audits },
        )
      ]

  abbrev pub initiate_version : ℕ → Target → Policy → Option Version → Store → Result Audit × Store
  initiate_version id t policy none s = (refused version_not_found, s)
  initiate_version id t policy (some v) s = initiate_with id t policy v s

  abbrev pub is_active_policy : ℕ → ℕ → Policy → Bool
  is_active_policy workspace account p =
      p.workspace_id == workspace && p.social_account_id == account && p.is_active

  -- The account's active policy, which is created where there is none; `defaults` is that one.
  abbrev pub ensure_policy : Policy → Option Policy → Store → Policy × Store
  ensure_policy defaults none s = (defaults, record s { policies = defaults ∷ s.policies })
  ensure_policy defaults (some p) s = (p, s)

  unfoldable pub initiate_audit : Policy → ℕ → Target → Store → Result Audit × Store
  initiate_audit defaults id t s =
      let active =
        latest (λ p. p.created_at) (is_active_policy t.workspace_id t.social_account_id)
          s.policies in
      let (policy, s') = ensure_policy defaults active s in
      let version =
        find_first (λ v. v.id == t.content_version_id && v.draft_id == t.draft_id) s'.versions in
      initiate_version id t policy version s'

  abbrev threshold_or : (Policy → ℕ) → ℕ → Option Policy → ℕ
  threshold_or get d none = d
  threshold_or get d (some p) = get p

  abbrev topics_or : (Policy → List (List ℕ)) → Option Policy → List (List ℕ)
  topics_or get none = []
  topics_or get (some p) = get p

  abbrev pub claim_wall : Version → Option Policy → ClaimWall
  claim_wall v policy =
      evaluate_claim_hallucination o (full_text v) v.research_sources
        (threshold_or (λ p. p.hallucination_threshold) 30 policy)

  abbrev pub toxicity_wall : Version → Option Policy → ToxicityWall
  toxicity_wall v policy =
      evaluate_toxicity_brand_safety o (full_text v)
        (threshold_or (λ p. p.toxicity_threshold) 15 policy)

  abbrev pub compliance_wall : Version → Option Policy → ComplianceWall
  compliance_wall v policy =
      evaluate_policy_compliance o (full_text v) (topics_or (λ p. p.prohibited_topics) policy)

  abbrev pub spacing_wall : Audit → Version → Option Policy → SpacingWall
  spacing_wall a v policy =
      evaluate_sensitive_topic_spacing o now a.workspace_id a.social_account_id (full_text v)
        (topics_or (λ p. p.flagged_topics) policy)

  unfoldable pub evaluate_text : Audit → Version → Option Policy → Evaluation
  evaluate_text a v policy =
      result (claim_wall v policy) (toxicity_wall v policy) (compliance_wall v policy)
        (spacing_wall a v policy)

  abbrev evaluated : Evaluation → Audit → Audit
  evaluated e a = record a {
    status = e.status;
    evaluation = some e;
    failed_walls = e.failed_walls;
    evaluated_at = some now;
  }

  abbrev pub has_id : ℕ → Audit → Bool
  has_id id a = a.id == id

  -- The row is RUNNING while the walls are evaluated, and stays so if that fails.
  unfoldable pub start_evaluation : ℕ → Store → Store
  start_evaluation id s = record s {
    audits = update_all (has_id id) (λ a. record a { status = running }) s.audits;
  }

  abbrev pub policy_of : Audit → Store → Option Policy
  policy_of a s =
      find_first
        (λ p. p.social_account_id == a.social_account_id && p.policy_version == a.policy_version)
        s.policies

  abbrev pub evaluate_version : ℕ → Audit → Option Version → Store → Result Evaluation × Store
  evaluate_version id a none s = (refused audit_not_found, s)
  evaluate_version id a (some v) s =
      let s' = start_evaluation id s in
      let e = evaluate_text a v (policy_of a s) in
      (ok e, record s' { audits = update_all (has_id id) (evaluated e) s'.audits })

  abbrev pub evaluate_found : ℕ → Option Audit → Store → Result Evaluation × Store
  evaluate_found id none s = (refused audit_not_found, s)
  evaluate_found id (some a) s =
      evaluate_version id a (find_first (λ v. v.id == a.content_version_id) s.versions) s

  unfoldable pub evaluate_audit : ℕ → Store → Result Evaluation × Store
  unfolding start_evaluation
  evaluate_audit id s = evaluate_found id (find_first (has_id id) s.audits) s
