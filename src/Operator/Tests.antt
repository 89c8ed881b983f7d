-- ===== src/Operator/Tests.antt =====
-- A semi-autonomous cycle that schedules a draft, and the leases around it.
use thread_pilot.Common.{
  ℕ, ◌+◌, ◌*◌, ◌/◌, ◌≤◌, ◌<◌, ◌≡◌, refl, true, false, none, some, [], ◌∷◌, arith,
}
use thread_pilot.Publishing.Text.{is_space, trim, trim_start}
use thread_pilot.Safety.Record.{Version, Policy}
use thread_pilot.Safety.Walls.{
  Oracle, evaluate_claim_hallucination, evaluate_policy_compliance,
  evaluate_sensitive_topic_spacing, evaluate_toxicity_brand_safety, first_topic, topics_found,
}
use thread_pilot.Operator.Schedule.{ensure_quota, committed, refusal, schedule_candidate}
use thread_pilot.Safety.Audit.{
  full_text, failing_walls, decide, initiate_with, initiate_audit, evaluate_text, start_evaluation,
  evaluate_audit,
}
use thread_pilot.Operator.Record.{Draft, draft, Store, Quota}
use thread_pilot.Operator.Lease.{
  ClaimedLease, claim_account_lease, claim_row, lease_active, operator_lease_ms,
  release_account_lease,
}
use thread_pilot.Operator.Slot.{
  day_ms, find_next_available_slot, is_available, search_days, search_hours, slot_at,
}
use thread_pilot.Operator.Cycle.{
  Around, Moment, after_audit, after_clearance, after_config, after_evaluation, after_initiation,
  after_schedule, at_end, at_start, audit_candidate, candidate_draft, catch_failure, guarded,
  end_run, ensure_config, evaluate_candidate, is_candidate, mark_run, place_candidate, plan_cycle,
  release, return_early, run_planning_cycle, select_slot, with_draft, with_lease, with_version,
}
use thread_pilot.Operator.Exclusion.{claims, beats, releases, calls, claim_excludes}
use thread_pilot.Operator.SlotSearch.{
  Chosen, find_next_available_slot-Chosen, find_next_available_slot-lt,
}
use thread_pilot.Operator.Cleared.{
  begun, its_config, planning_at, has_post, Cleared, run_planning_cycle-Cleared,
}
use thread_pilot.Operator.Bounds.{InQuota, run_planning_cycle-InQuota}
use thread_pilot.Operator.Released.{run_planning_cycle-claim, run_planning_cycle-stuck}

abbrev calm : Oracle
calm = record {
  sha256 = λ t. t;
  to_lower_case = λ t. t;
  claim_matches = λ t. [];
  insult_match = λ t. none;
  offense_match = λ t. none;
  recent_post = λ w a since topic. none;
}

abbrev lenient : Policy
lenient = record {
  workspace_id = 1;
  social_account_id = 2;
  policy_version = 1;
  hallucination_threshold = 30;
  toxicity_threshold = 15;
  prohibited_topics = [];
  flagged_topics = [];
  audit_ttl_seconds = 86400;
  is_active = true;
  created_at = 0;
}

abbrev minute_of : Moment → ℕ
minute_of at_start = 1000
minute_of at_end = 61000
minute_of _ = 31000

abbrev around : Around
around = record {
  clock = minute_of;
  meanwhile = λ m s. s;
  run_is_created = true;
  lease_token = 70;
  cycle_id = 71;
  run_id = 72;
  candidate_id = 73;
  request_id = 74;
  post_id = 75;
  audit_id = 76;
  content_queue = none;
  week_window = λ slot. slot / 604800000;
  oracle = calm;
  default_policy = lenient;
}

abbrev a_version : Version
a_version = record {
  id = 5;
  draft_id = 4;
  version = 1;
  body = 65 ∷ 66 ∷ [];
  hook = [];
  cta = [];
  research_sources = [];
}

abbrev a_draft : Draft
a_draft = record {
  id = 4;
  workspace_id = 1;
  status = draft;
  is_backfill = some false;
  created_at = 10;
}

abbrev a_quota : Quota
a_quota = record {
  workspace_id = 1;
  social_account_id = 2;
  week_window = 0;
  max_weekly_posts = 14;
  claimed_posts = 13;
}

abbrev prepared : Store
prepared = record {
  configs = [];
  leases = [];
  runs = [];
  candidates = [];
  drafts = a_draft ∷ [];
  published_drafts = [];
  posts = [];
  quotas = a_quota ∷ [];
  dispatches = [];
  jobs = [];
  profiles = [];
  preferences = [];
  safety = record {
    policies = [];
    versions = a_version ∷ [];
    audits = [];
    override_logs = [];
    members = [];
    workspaces = [];
  };
}

abbrev first_claim : ClaimedLease
first_claim = record { lease_token = 70; cycle_id = 71 }

claims_first : (claim_account_lease 1000 70 71 1 2 []).0 ≡ some first_claim
unfolding claim_account_lease claim_row
claims_first = refl

claim_excludes_example :
    let left =
      calls
        (claims 5000 80 81 1 2 ∷ beats 6000 2 70 ∷ releases 2 80 ∷ [])
        (claim_account_lease 1000 70 71 1 2 []).1 in
    ((at : ℕ) → at < 1000 + operator_lease_ms → lease_active at 2 70 left ≡ true)
    × ((at other cycle' workspace' : ℕ)
        → at ≤ 1000 + operator_lease_ms
        → claim_account_lease at other cycle' workspace' 2 left ≡ (none, left))
claim_excludes_example =
    claim_excludes 1000 70 71 1 2 [] first_claim
      (claims 5000 80 81 1 2 ∷ beats 6000 2 70 ∷ releases 2 80 ∷ []) claims_first
      ((omega arith, ground arith), (omega arith, (ground arith, tt)))

find_next_available_slot-Chosen_example :
    Chosen 31000 2 4 [] (9 ∷ 17 ∷ []) (find_next_available_slot 31000 2 4 [] (9 ∷ 17 ∷ []))
find_next_available_slot-Chosen_example = find_next_available_slot-Chosen 31000 2 4 [] (9 ∷ 17 ∷ [])

find_next_available_slot-lt_example :
    (31000 < find_next_available_slot 31000 2 4 [] (9 ∷ 17 ∷ []))
    × (find_next_available_slot 31000 2 4 [] (9 ∷ 17 ∷ []) < 31000 + 7 * day_ms)
find_next_available_slot-lt_example =
    find_next_available_slot-lt 31000 2 4 [] (9 ∷ 17 ∷ []) (omega arith, (omega arith, tt))

posts_it : has_post 75 (run_planning_cycle around 1 2 prepared).1 ≡ true
unfolding ensure_config is_candidate candidate_draft end_run mark_run release return_early
    after_schedule place_candidate after_clearance after_audit after_evaluation evaluate_candidate
    after_initiation audit_candidate with_version with_draft select_slot after_config plan_cycle
    catch_failure guarded with_lease run_planning_cycle ensure_quota committed refusal
    schedule_candidate claim_row claim_account_lease release_account_lease lease_active slot_at
    is_available search_hours search_days find_next_available_slot full_text failing_walls decide
    initiate_with initiate_audit evaluate_text start_evaluation evaluate_audit
    evaluate_claim_hallucination evaluate_toxicity_brand_safety topics_found
    evaluate_policy_compliance first_topic evaluate_sensitive_topic_spacing is_space trim_start trim
posts_it = refl

run_planning_cycle-Cleared_example :
    Cleared around 1 2
      (its_config around 1 2 prepared)
      (planning_at around 1 2 prepared)
      (plan_cycle around 1 2 (begun around 1 2 prepared)).1
run_planning_cycle-Cleared_example =
    run_planning_cycle-Cleared around 1 2 (λ m s h. h) prepared refl posts_it

run_planning_cycle-InQuota_example : InQuota (run_planning_cycle around 1 2 prepared).1
run_planning_cycle-InQuota_example =
    run_planning_cycle-InQuota around 1 2 prepared (λ m t i. i) (omega arith, tt)

run_planning_cycle-claim_example :
    (claim_account_lease 62000 80 81 1 2 (run_planning_cycle around 1 2 prepared).1.leases).0
    ≡ some (record { lease_token = 80; cycle_id = 81 })
run_planning_cycle-claim_example =
    run_planning_cycle-claim around 1 2 prepared first_claim 62000 80 81 1 (λ m t. refl) refl
      claims_first

run_planning_cycle-stuck_example :
    claim_account_lease 62000 80 81 1 2
      (run_planning_cycle (record around { run_is_created = false }) 1 2 prepared).1.leases
    ≡ (none, (run_planning_cycle (record around { run_is_created = false }) 1 2 prepared).1.leases)
run_planning_cycle-stuck_example =
    run_planning_cycle-stuck (record around { run_is_created = false }) 1 2 prepared first_claim
      62000 80 81 1 refl claims_first (omega arith)
