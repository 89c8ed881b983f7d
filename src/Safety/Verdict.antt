-- ===== src/Safety/Verdict.antt =====
-- What the walls decide, and what a permission to publish rests on.
use thread_pilot.Common.{
  ℕ, ◌≤◌, ◌<◌, ◌≡◌, refl, ◌↔◌, ◌⊎◌, inl, inr, Bool, true, false, Option, none, some, List, [],
  arith, any, sym, ap, ◌∙◌,
}
use thread_pilot.Safety.Record.{
  AuditStatus, passed, flagged_approval_required, blocked_policy_violation, Wall, policy_compliance,
  Policy, Version, Evaluation, ok, Audit, OverrideLog, Store, find_first, overridden,
}
use thread_pilot.Safety.Walls.{
  Oracle, ClaimWall, ToxicityWall, ComplianceWall, SpacingWall, evaluate_toxicity_brand_safety,
}
use thread_pilot.Safety.Audit.{
  has_id, policy_of, evaluate_version, evaluate_found, evaluate_audit, decide, evaluate_text,
  failing_walls, full_text, claim_wall, toxicity_wall, compliance_wall, spacing_wall,
}
use thread_pilot.Safety.Override.{
  is_for, check_override, check_audit, check_latest, permitted, audit_for, is_publish_permitted,
}

abbrev pub is_compliance : Wall → Bool
is_compliance policy_compliance = true
is_compliance _ = false

toxicity_score-le :
    (o : Oracle) (text : List ℕ) (threshold : ℕ)
    → (evaluate_toxicity_brand_safety o text threshold).score ≤ 40
unfolding evaluate_toxicity_brand_safety
toxicity_score-le o text threshold = ground arith

-- The verdict of walls whose toxicity score is at most 0.40.
record Verdict (st : AuditStatus) (walls : List Wall) : Type 0 where
  passes : (st ≡ passed) ↔ (walls ≡ [])
  blocks : (st ≡ blocked_policy_violation) ↔ (any is_compliance walls ≡ true)

decide-Verdict :
    (w1 : ClaimWall) (w2 : ToxicityWall) (w3 : ComplianceWall) (w4 : SpacingWall)
    → w2.score ≤ 40
    → Verdict (decide w2 w3 (failing_walls w1 w2 w3 w4)) (failing_walls w1 w2 w3 w4)
unfolding decide failing_walls
decide-Verdict w1 w2 w3 w4 h = record {
  passes = (λ e. ground arith, λ e. ground arith);
  blocks = (λ e. ground arith, λ e. ground arith);
}

toxicity_wall_score :
    (o : Oracle) (now : ℕ) (v : Version) (policy : Option Policy)
    → (toxicity_wall o now v policy).score ≤ 40
toxicity_wall_score o now v none = toxicity_score-le o (full_text v) 15
toxicity_wall_score o now v (some p) = toxicity_score-le o (full_text v) p.toxicity_threshold

pub evaluate_text-Verdict :
    (o : Oracle) (now : ℕ) (a : Audit) (v : Version) (policy : Option Policy)
    → ((evaluate_text o now a v policy).status ≡ passed
        ↔ (evaluate_text o now a v policy).failed_walls ≡ [])
      × ((evaluate_text o now a v policy).status ≡ blocked_policy_violation
          ↔ any is_compliance (evaluate_text o now a v policy).failed_walls ≡ true)
      × ((evaluate_text o now a v policy).toxicity_score ≤ 40)
unfolding evaluate_text
evaluate_text-Verdict o now a v policy =
    let low = toxicity_wall_score o now v policy in
    let d =
      decide-Verdict (claim_wall o now v policy) (toxicity_wall o now v policy)
        (compliance_wall o now v policy) (spacing_wall o now a v policy) low in
    (d.passes, d.blocks, low)

evaluate_version-walls :
    (o : Oracle) (now id : ℕ) (a : Audit) (found : Option Version) (s : Store) (e : Evaluation)
    → (evaluate_version o now id a found s).0 ≡ ok e
    → e.status ≡ passed
    → e.failed_walls ≡ []
evaluate_version-walls o now id a none s e h p =
    absurd (let no_answer : ⊥ = ground arith in no_answer)
evaluate_version-walls o now id a (some v) s e h p =
    let (passes, _, _) = evaluate_text-Verdict o now a v (policy_of o now a s) in
    let same : evaluate_text o now a v (policy_of o now a s) ≡ e = ground arith in
    sym (ap (λ x. x.failed_walls) same) ∙ passes.0 (ap (λ x. x.status) same ∙ p)

-- An evaluation that comes out PASSED has no failed wall.
pub evaluate_audit-walls :
    (o : Oracle) (now id : ℕ) (s : Store) (e : Evaluation)
    → (evaluate_audit o now id s).0 ≡ ok e
    → e.status ≡ passed
    → e.failed_walls ≡ []
unfolding evaluate_audit
evaluate_audit-walls o now id s e h p = on_found (find_first (has_id o now id) s.audits) h
  where
    on_found :
        (found : Option Audit) → (evaluate_found o now id found s).0 ≡ ok e → e.failed_walls ≡ []
    on_found none h = absurd (let no_answer : ⊥ = ground arith in no_answer)
    on_found (some a) h = evaluate_version-walls o now id a _ s e h p

-- Why a version may be published: its latest audit, unexpired, passed, or was flagged and has an
-- override in force whose token is the one presented.
pub data Allowed (now : ℕ) (token : Option ℕ) (logs : List OverrideLog) : Audit → Type 0 where
  by_verdict : {a : Audit} → now < a.expires_at → a.status ≡ passed → Allowed now token logs a
  by_override :
      {a : Audit} (l : OverrideLog)
      → now < a.expires_at
      → a.status ≡ flagged_approval_required
      → find_first (is_for a.id) logs ≡ some l
      → token ≡ some l.one_time_token
      → l.status ≡ overridden
      → l.consumed_at ≡ none
      → now < l.expires_at
      → Allowed now token logs a

permitted_status :
    (now : ℕ) (token : Option ℕ) (logs : List OverrideLog) (a : Audit)
    → check_audit now token logs a ≡ permitted
    → (now < a.expires_at) × ((a.status ≡ passed) ⊎ (a.status ≡ flagged_approval_required))
unfolding check_audit
permitted_status now token logs a h = ground arith

flagged_status :
    (now : ℕ) (token : Option ℕ) (logs : List OverrideLog) (a : Audit)
    → check_audit now token logs a ≡ permitted
    → a.status ≡ flagged_approval_required
    → check_override now token (find_first (is_for a.id) logs) ≡ permitted
unfolding check_audit
flagged_status now token logs a h e = ground arith

override_Allowed :
    (now : ℕ) (token : Option ℕ) (logs : List OverrideLog) (a : Audit) (o : Option OverrideLog)
    → now < a.expires_at
    → a.status ≡ flagged_approval_required
    → find_first (is_for a.id) logs ≡ o
    → check_override now token o ≡ permitted
    → Allowed now token logs a
override_Allowed now none logs a o u e found h = cc
override_Allowed now (some t) logs a none u e found h = cc
override_Allowed now (some t) logs a (some l) u e found h =
    by_override l u e found (ground arith) (ground arith) (ground arith) (ground arith)

check_audit-Allowed :
    (now : ℕ) (token : Option ℕ) (logs : List OverrideLog) (a : Audit)
    → check_audit now token logs a ≡ permitted
    → Allowed now token logs a
check_audit-Allowed now token logs a h =
    let (u, st) = permitted_status now token logs a h in
    elim st [
      | inl p ↦ by_verdict u p
      | inr e ↦ override_Allowed now token logs a _ u e refl (flagged_status now token logs a h e)
    ]

pub Allowed-check_audit :
    (now : ℕ) (token : Option ℕ) (logs : List OverrideLog) (a : Audit)
    → Allowed now token logs a
    → check_audit now token logs a ≡ permitted
unfolding check_audit
Allowed-check_audit now token logs a (by_verdict u p) = ground arith
Allowed-check_audit now token logs a (by_override l u f found t st c e) = ground (arith, found)

-- A version with a latest audit may be published exactly for one of the reasons of `Allowed`; a
-- version without one may not.
pub is_publish_permitted_iff :
    (now workspace account version : ℕ) (token : Option ℕ) (s : Store)
    → (is_publish_permitted now workspace account version token s ≡ permitted) ↔ (
        (a : Audit) × (audit_for workspace account version s ≡ some a)
        × Allowed now token s.override_logs a)
unfolding is_publish_permitted
is_publish_permitted_iff now workspace account version token s =
    latest_iff (audit_for workspace account version s)
  where
    latest_iff :
        (o : Option Audit)
        → (check_latest now token s.override_logs o ≡ permitted)
          ↔ ((a : Audit) × (o ≡ some a) × Allowed now token s.override_logs a)
    latest_iff none = (λ h. cc, λ (a, e, _). cc)
    latest_iff (some b) = (
      λ h. (b, refl, check_audit-Allowed now token s.override_logs b h),
      λ (a, e, allowed).
          ap (check_latest now token s.override_logs) e
          ∙ Allowed-check_audit now token s.override_logs a allowed,
    )
