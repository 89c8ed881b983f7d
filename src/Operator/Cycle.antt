-- ===== src/Operator/Cycle.antt =====
-- runPlanningCycle. What stands outside it (the clock, the random identifiers, the queue, what other
-- processes do to the database meanwhile) is the record `Around`; `getIsoWeekWindow` is its
-- `week_window`.
use thread_pilot.Common.{
  ℕ, ◌-◌, Bool, true, false, ◌&&◌, not, Option, none, some, List, [], ◌∷◌, ltb, ◌==◌, if◌then◌else◌,
  any, find_first, latest, update_all,
}
use thread_pilot.Publishing.Post.{Status, scheduled, claimed, publishing, published}
use thread_pilot.Safety.Record.{
  AuditStatus, passed, Policy, Version, Evaluation, Audit, Result, ok, refused,
}
use thread_pilot.Safety.Walls.{Oracle}
use thread_pilot.Safety.Audit.{Target, initiate_audit, evaluate_audit}
use thread_pilot.Operator.Record.{
  AutonomyLevel, manual, semi_autonomous, full_autonomous, paused, OperatorConfig, Summary, empty,
  kill_switch, no_candidates, dispatched, flagged, for_manual, scheduled_as, failed_with, RunStatus,
  running, completed, halted_kill_switch, failed, OperatorRun, Candidate, selected, safety_blocked,
  DraftStatus, draft, ready, approved, Draft, JobStatus, JobRecord, Profile, Preferences,
  queue_failed, run_not_created, safety_refused, Store, default_topic, default_format,
}
use thread_pilot.Operator.Lease.{ClaimedLease, claim_account_lease, release_account_lease}
use thread_pilot.Operator.Slot.{find_next_available_slot}
use thread_pilot.Operator.Schedule.{Attempt, value, raised, Order, schedule_candidate}

-- Where the cycle waits for the database or the queue.
pub data Moment : Type 0 where
  at_start at_planning at_drafts at_audit at_evaluation at_schedule at_end : Moment

pub record Around : Type 0 where
  pub clock : Moment → ℕ
  pub meanwhile : Moment → Store → Store
  pub run_is_created : Bool  -- or `autonomousOperatorRun.create` throws
  pub lease_token : ℕ
  pub cycle_id : ℕ
  pub run_id : ℕ
  pub candidate_id : ℕ
  pub request_id : ℕ
  pub post_id : ℕ
  pub audit_id : ℕ
  pub content_queue : Option (Option ℕ)  -- if it is injected, the job's id, or `add` throws
  pub week_window : ℕ → ℕ
  pub oracle : Oracle
  pub default_policy : Policy

abbrev is_config_of : ℕ → ℕ → OperatorConfig → Bool
is_config_of workspace account c = c.social_account_id == account && c.workspace_id == workspace

abbrev pub default_config : ℕ → ℕ → OperatorConfig
default_config workspace account = record {
  workspace_id = workspace;
  social_account_id = account;
  autonomy_level = semi_autonomous;
  max_weekly_posts = 14;
  min_hours_between_posts = 4;
  target_posting_hours = 9 ∷ 12 ∷ 17 ∷ 20 ∷ [];
}

abbrev pub config_or_default : ℕ → ℕ → Option OperatorConfig → Store → OperatorConfig × Store
config_or_default workspace account (some c) s = (c, s)
config_or_default workspace account none s =
    let c = default_config workspace account in (c, record s { configs = c ∷ s.configs })

unfoldable pub ensure_config : ℕ → ℕ → Store → OperatorConfig × Store
ensure_config workspace account s =
    config_or_default workspace account (find_first (is_config_of workspace account) s.configs) s

abbrev pub is_passed : AuditStatus → Bool
is_passed passed = true
is_passed _ = false

-- Step 3: the newest draft that may be scheduled.
abbrev may_schedule : DraftStatus → Bool
may_schedule ready = true
may_schedule approved = true
may_schedule draft = true
may_schedule _ = false

-- `{ not: 'BACKFILL' }`, which SQL does not answer for a null.
abbrev not_backfill : Option Bool → Bool
not_backfill none = false
not_backfill (some b) = not b

abbrev pub occupies : Status → Bool
occupies scheduled = true
occupies claimed = true
occupies publishing = true
occupies published = true
occupies _ = false

unfoldable pub is_candidate : ℕ → Store → Draft → Bool
is_candidate workspace s d =
    d.workspace_id == workspace
    && may_schedule d.status
    && not_backfill d.is_backfill
    && not (any (λ id. id == d.id) s.published_drafts)
    && not (any (λ p. p.draft_id == d.id && occupies p.status) s.posts)

unfoldable pub candidate_draft : ℕ → Store → Option Draft
candidate_draft workspace s = latest (λ d. d.created_at) (is_candidate workspace s) s.drafts

abbrev pub newest_version : Store → Draft → Option Version
newest_version s d = latest (λ v. v.version) (λ v. v.draft_id == d.id) s.safety.versions

-- `a || b` on a text that may be missing, and the first member of a list that may.
abbrev or_text : Option (List ℕ) → List ℕ → List ℕ
or_text (some (c ∷ cs)) other = c ∷ cs
or_text _ other = other

abbrev head_of : List (List ℕ) → Option (List ℕ)
head_of [] = none
head_of (t ∷ _) = some t

abbrev from_profile : (Profile → Option (List ℕ)) → Option Profile → Option (List ℕ)
from_profile get none = none
from_profile get (some p) = get p

abbrev from_preferences : (Preferences → List (List ℕ)) → Option Preferences → Option (List ℕ)
from_preferences get none = none
from_preferences get (some p) = head_of (get p)

unfoldable pub topic_and_format : ℕ → ℕ → Store → List ℕ × List ℕ
topic_and_format workspace account s =
    let profile = find_first (λ p. p.social_account_id == account) s.profiles in
    let prefs = find_first (λ p. p.workspace_id == workspace) s.preferences in
    (
      or_text (from_profile (λ p. p.best_topic) profile)
          (or_text (from_preferences (λ p. p.preferred_topics) prefs) default_topic),
      or_text (from_profile (λ p. p.best_format) profile)
          (or_text (from_preferences (λ p. p.preferred_formats) prefs) default_format),
    )

module _ (e : Around) (workspace account : ℕ) where
  abbrev pub new_run : OperatorRun
  new_run = record {
    id = e.run_id;
    workspace_id = workspace;
    social_account_id = account;
    cycle_id = e.cycle_id;
    status = running;
    candidates_evaluated = 0;
    candidates_scheduled = 0;
    safety_flagged_count = 0;
    summary = empty;
    completed_at = none;
  }

  -- The update of the run: its status, three counts and the summary.
  unfoldable pub end_run : RunStatus → ℕ → ℕ → ℕ → Summary → Store → Store
  end_run status evaluated placed_count flagged_count summary s = record s {
    runs =
        update_all (λ r. r.id == e.run_id)
          (λ r. record r {
            status = status;
            candidates_evaluated = evaluated;
            candidates_scheduled = placed_count;
            safety_flagged_count = flagged_count;
            summary = summary;
            completed_at = some (e.clock at_end);
          })
          s.runs;
  }

  -- The update of the run without its counts.
  unfoldable pub mark_run : RunStatus → Summary → Store → Store
  mark_run status summary s = record s {
    runs =
        update_all (λ r. r.id == e.run_id)
          (λ r. record r {
            status = status;
            summary = summary;
            completed_at = some (e.clock at_end);
          })
          s.runs;
  }

  unfoldable pub release : Store → Store
  release s = record s { leases = release_account_lease account e.lease_token s.leases }

  -- An early return of a run that completed.
  unfoldable pub return_early : ℕ → ℕ → Summary → Store → Attempt OperatorRun × Store
  unfolding end_run release
  return_early evaluated flagged_count summary s =
      (value new_run, release (end_run completed evaluated 0 flagged_count summary s))

  -- The kill switch.
  unfoldable pub halt : Store → Attempt OperatorRun × Store
  unfolding mark_run release
  halt s = (value new_run, release (mark_run halted_kill_switch kill_switch s))

  -- A content job of the last thirty minutes that has not ended.
  abbrev pub is_active_job : JobRecord → Bool
  is_active_job j =
      j.workspace_id == workspace
      && j.is_content
      && elim j.status [ JobStatus.pending ↦ true | JobStatus.running ↦ true | _ ↦ false ]
      && ltb (e.clock at_drafts - 1800000) j.created_at

  abbrev is_our_job : JobRecord → Bool
  is_our_job j = j.request_id == e.request_id

  -- The dispatch of a content generation, with what the queue answers.
  unfoldable pub dispatch_generation : Option ℕ → Store → Attempt OperatorRun × Store
  unfolding return_early topic_and_format
  dispatch_generation answer s =
      let (topic, format) = topic_and_format workspace account s in
      let job : JobRecord = record {
        workspace_id = workspace;
        request_id = e.request_id;
        is_content = true;
        status = JobStatus.pending;
        bull_job_id = none;
        created_at = e.clock at_drafts;
        completed_at = none;
      } in
      let jobs = job ∷ s.jobs in
      elim answer [
        | none ↦
            let fail : JobRecord → JobRecord = λ j. record j {
              status = JobStatus.failed;
              completed_at = some (e.clock at_drafts);
            } in
            (raised queue_failed, record s { jobs = update_all is_our_job fail jobs })
        | some id ↦
            let named : JobRecord → JobRecord = λ j. record j { bull_job_id = some id } in
            return_early 0 0 (dispatched e.request_id topic format)
              (record s { jobs = update_all is_our_job named jobs })
      ]

  -- The FULL_AUTONOMOUS operator with no draft, if it has a queue.
  unfoldable pub request_content : Option (Option ℕ) → Store → Attempt OperatorRun × Store
  unfolding return_early dispatch_generation
  request_content none s = return_early 0 0 no_candidates s
  request_content (some answer) s =
      if any is_active_job s.jobs
      then return_early 0 0 no_candidates s
      else dispatch_generation answer s

  unfoldable pub no_draft : AutonomyLevel → Store → Attempt OperatorRun × Store
  unfolding return_early request_content
  no_draft full_autonomous s = request_content e.content_queue s
  no_draft _ s = return_early 0 0 no_candidates s

  abbrev pub new_candidate : Draft → ℕ → Candidate
  new_candidate d slot = record {
    id = e.candidate_id;
    workspace_id = workspace;
    social_account_id = account;
    run_id = e.run_id;
    draft_id = d.id;
    scheduled_slot = slot;
    scheduled_post_id = none;
    status = selected;
    rejection = none;
  }

  abbrev block : AuditStatus → Candidate → Candidate
  block status c = record c { status = safety_blocked; rejection = some status }

  unfoldable pub refuse_candidate : AuditStatus → Store → Attempt OperatorRun × Store
  unfolding return_early
  refuse_candidate status s = return_early 1 1 (flagged status) (record s {
    candidates = update_all (λ c. c.id == e.candidate_id) (block status) s.candidates;
  })

  abbrev pub order : OperatorConfig → ℕ → Draft → Version → Audit → Order
  order config slot d v a = record {
    now = e.clock at_schedule;
    workspace_id = workspace;
    social_account_id = account;
    lease_token = e.lease_token;
    max_weekly_posts = config.max_weekly_posts;
    candidate_id = e.candidate_id;
    draft_id = d.id;
    content_version_id = v.id;
    body = v.body;
    content_hash = a.content_hash;
    slot = slot;
    week = e.week_window slot;
    post_id = e.post_id;
  }

  -- Steps 5 and 6, from what the transaction answers.
  unfoldable pub after_schedule : Order → Attempt ℕ → Store → Attempt OperatorRun × Store
  unfolding end_run
  after_schedule o (raised f) s = (raised f, s)
  after_schedule o (value id) s =
      (value new_run, end_run completed 1 1 0 (scheduled_as id o.slot o.week) s)

  unfoldable pub place_candidate : Order → Store → Attempt OperatorRun × Store
  unfolding schedule_candidate after_schedule
  place_candidate o s = let (r, s') = schedule_candidate o s in after_schedule o r s'

  -- A candidate that the safety gate cleared: the MANUAL operator leaves it to a human.
  unfoldable pub after_clearance : AutonomyLevel → Order → Store → Attempt OperatorRun × Store
  unfolding return_early place_candidate
  after_clearance manual o s = return_early 1 0 (for_manual o.candidate_id o.draft_id o.slot) s
  after_clearance _ o s = place_candidate o (e.meanwhile at_schedule s)

  unfoldable pub after_audit :
      AutonomyLevel → Order → AuditStatus → Store → Attempt OperatorRun × Store
  unfolding after_clearance refuse_candidate
  after_audit level o st s =
      if is_passed st then after_clearance level o s else refuse_candidate st s

  -- Step 4: the evaluation of the audit, and its start.
  unfoldable pub after_evaluation :
      AutonomyLevel → Order → Result Evaluation → Store → Attempt OperatorRun × Store
  unfolding after_audit
  after_evaluation level o (refused f) s = (raised (safety_refused f), s)
  after_evaluation level o (ok evaluation) s = after_audit level o evaluation.status s

  unfoldable pub evaluate_candidate :
      OperatorConfig → ℕ → Draft → Version → Audit → Store → Attempt OperatorRun × Store
  unfolding after_evaluation
  evaluate_candidate config slot d v a s =
      let (r, safety) = evaluate_audit e.oracle (e.clock at_evaluation) a.id s.safety in
      after_evaluation config.autonomy_level (order config slot d v a) r
        (record s { safety = safety })

  unfoldable pub after_initiation :
      OperatorConfig → ℕ → Draft → Version → Result Audit → Store → Attempt OperatorRun × Store
  unfolding evaluate_candidate
  after_initiation config slot d v (refused f) s = (raised (safety_refused f), s)
  after_initiation config slot d v (ok a) s =
      evaluate_candidate config slot d v a (e.meanwhile at_evaluation s)

  abbrev pub target : Draft → Version → Target
  target d v = record {
    workspace_id = workspace;
    social_account_id = account;
    draft_id = d.id;
    content_version_id = v.id;
  }

  unfoldable pub audit_candidate :
      OperatorConfig → ℕ → Draft → Version → Store → Attempt OperatorRun × Store
  unfolding after_initiation
  audit_candidate config slot d v s =
      let (r, safety) =
        initiate_audit e.oracle (e.clock at_audit) e.default_policy e.audit_id (target d v)
          s.safety in
      after_initiation config slot d v r (record s { safety = safety })

  unfoldable pub with_version :
      OperatorConfig → ℕ → Draft → Option Version → Store → Attempt OperatorRun × Store
  unfolding no_draft audit_candidate
  with_version config slot d none s = no_draft config.autonomy_level s
  with_version config slot d (some v) s =
      audit_candidate config slot d v
        (e.meanwhile at_audit (record s { candidates = new_candidate d slot ∷ s.candidates }))

  unfoldable pub with_draft :
      OperatorConfig → ℕ → Option Draft → Store → Attempt OperatorRun × Store
  unfolding no_draft with_version
  with_draft config slot none s = no_draft config.autonomy_level s
  with_draft config slot (some d) s = with_version config slot d (newest_version s d) s

  abbrev pub planned_slot : OperatorConfig → Store → ℕ
  planned_slot config s =
      find_next_available_slot (e.clock at_planning) account config.min_hours_between_posts s.posts
        config.target_posting_hours

  -- Steps 2 and 3.
  unfoldable pub select_slot : OperatorConfig → Store → Attempt OperatorRun × Store
  unfolding with_draft
  select_slot config s =
      let s' = e.meanwhile at_drafts s in
      with_draft config (planned_slot config s) (candidate_draft workspace s') s'

  unfoldable pub after_config : AutonomyLevel → OperatorConfig → Store → Attempt OperatorRun × Store
  unfolding halt select_slot
  after_config paused config s = halt s
  after_config _ config s = select_slot config (e.meanwhile at_planning s)

  -- The body of the `try`.
  unfoldable pub plan_cycle : Store → Attempt OperatorRun × Store
  unfolding ensure_config after_config
  plan_cycle s =
      let (config, s') = ensure_config workspace account s in
      after_config config.autonomy_level config s'

  -- The `catch`.
  unfoldable pub catch_failure : Attempt OperatorRun × Store → Attempt (Option OperatorRun) × Store
  unfolding mark_run
  catch_failure (value r, s) = (value (some r), s)
  catch_failure (raised f, s) = (raised f, mark_run failed (failed_with f) s)

  -- The `finally`.
  abbrev pub finally_release :
      Attempt (Option OperatorRun) × Store → Attempt (Option OperatorRun) × Store
  finally_release (r, s) = (r, release (e.meanwhile at_end s))

  -- The `try`, the `catch` and the `finally`.
  unfoldable pub guarded : Store → Attempt (Option OperatorRun) × Store
  unfolding plan_cycle catch_failure
  guarded s =
      finally_release
        (catch_failure (plan_cycle (e.meanwhile at_start (record s { runs = new_run ∷ s.runs }))))

  -- The run is created before the `try`: where that throws, neither the `catch` nor the `finally`
  -- comes.
  abbrev pub create_run : Bool → Store → Attempt (Option OperatorRun) × Store
  create_run true s = guarded s
  create_run false s = (raised run_not_created, s)

  unfoldable pub with_lease : Option ClaimedLease → Store → Attempt (Option OperatorRun) × Store
  unfolding guarded
  with_lease none s = (value none, s)
  with_lease (some lease) s = create_run e.run_is_created s

  unfoldable pub run_planning_cycle : Store → Attempt (Option OperatorRun) × Store
  unfolding with_lease
  run_planning_cycle s =
      let (lease, leases) =
        claim_account_lease (e.clock at_start) e.lease_token e.cycle_id workspace account
          s.leases in
      with_lease lease (record s { leases = leases })
