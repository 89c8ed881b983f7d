-- ===== src/Operator/Keeps.antt =====
-- A property of the database that every write of a planning cycle keeps, and the others keep, holds
-- when the cycle ends.
use thread_pilot.Common.{
  ℕ, Bool, true, false, Option, none, some, List, ◌∷◌, any, find_first, ◌&&◌, ◌==◌, if◌then◌else◌,
}
use thread_pilot.Safety.Record.{Version, Audit, Evaluation, Result, ok, refused, AuditStatus}
use thread_pilot.Operator.Record.{
  no_candidates, AutonomyLevel, manual, semi_autonomous, full_autonomous, paused, OperatorConfig,
  OperatorRun, Candidate, JobRecord, Draft, Store,
}
use thread_pilot.Operator.Lease.{ClaimedLease}
use thread_pilot.Operator.Schedule.{Attempt, value, raised, Order, schedule_candidate}
use thread_pilot.Operator.Cycle.{
  default_config, config_or_default, request_content, is_active_job, Moment, Around, at_start,
  at_planning, at_drafts, at_audit, at_evaluation, at_schedule, at_end, end_run, mark_run, release,
  return_early, halt, dispatch_generation, no_draft, refuse_candidate, after_schedule,
  place_candidate, after_clearance, after_audit, is_passed, after_evaluation, evaluate_candidate,
  after_initiation, audit_candidate, with_version, with_draft, select_slot, ensure_config,
  after_config, plan_cycle, catch_failure, guarded, create_run, with_lease, new_run,
}

-- The writes of a cycle that is under way.
pub record KeepsWrites (e : Around) (workspace account : ℕ) (Inv : Store → Type 0) : Type 0 where
  pub on_configs : (cs : List OperatorConfig) (s : Store) → Inv s → Inv (record s { configs = cs })
  pub on_runs : (rs : List OperatorRun) (s : Store) → Inv s → Inv (record s { runs = rs })
  pub on_candidates : (cs : List Candidate) (s : Store) → Inv s → Inv (record s { candidates = cs })
  pub on_jobs : (js : List JobRecord) (s : Store) → Inv s → Inv (record s { jobs = js })
  pub on_safety :
      (g : thread_pilot.Safety.Record.Store) (s : Store) → Inv s → Inv (record s { safety = g })
  pub on_release : (s : Store) → Inv s → Inv (release e workspace account s)
  pub on_schedule : (o : Order) (s : Store) → Inv s → Inv (schedule_candidate o s).1
  pub on_others : (m : Moment) (s : Store) → Inv s → Inv (e.meanwhile m s)

module _ (e : Around) (workspace account : ℕ) (Inv : Store → Type 0)
    (k : KeepsWrites e workspace account Inv) where
  return_early-keeps :
      (n m : ℕ) (summary : thread_pilot.Operator.Record.Summary) (s : Store)
      → Inv s
      → Inv (return_early e workspace account n m summary s).1
  unfolding return_early end_run
  return_early-keeps n m summary s i = k.on_release _ (k.on_runs _ s i)

  dispatch_generation-keeps :
      (answer : Option ℕ) (s : Store)
      → Inv s
      → Inv (dispatch_generation e workspace account answer s).1
  unfolding dispatch_generation
  dispatch_generation-keeps none s i = k.on_jobs _ s i
  dispatch_generation-keeps (some id) s i = return_early-keeps 0 0 _ _ (k.on_jobs _ s i)

  request_content-keeps :
      (queue : Option (Option ℕ)) (s : Store)
      → Inv s
      → Inv (request_content e workspace account queue s).1
  unfolding request_content
  request_content-keeps none s i = return_early-keeps 0 0 no_candidates s i
  request_content-keeps (some answer) s i = on_test (any (is_active_job e workspace account) s.jobs)
    where
      on_test :
          (b : Bool)
          → Inv
              (if b
                then return_early e workspace account 0 0 no_candidates s
                else dispatch_generation e workspace account answer s).1
      on_test true = return_early-keeps 0 0 no_candidates s i
      on_test false = dispatch_generation-keeps answer s i

  no_draft-keeps :
      (level : AutonomyLevel) (s : Store) → Inv s → Inv (no_draft e workspace account level s).1
  unfolding no_draft
  no_draft-keeps manual s i = return_early-keeps 0 0 no_candidates s i
  no_draft-keeps semi_autonomous s i = return_early-keeps 0 0 no_candidates s i
  no_draft-keeps paused s i = return_early-keeps 0 0 no_candidates s i
  no_draft-keeps full_autonomous s i = request_content-keeps e.content_queue s i

  after_schedule-keeps :
      (o : Order) (r : Attempt ℕ) (s : Store)
      → Inv s
      → Inv (after_schedule e workspace account o r s).1
  unfolding after_schedule end_run
  after_schedule-keeps o (raised f) s i = i
  after_schedule-keeps o (value id) s i = k.on_runs _ s i

  place_candidate-keeps :
      (o : Order) (s : Store) → Inv s → Inv (place_candidate e workspace account o s).1
  unfolding place_candidate
  place_candidate-keeps o s i =
      after_schedule-keeps o (schedule_candidate o s).0 (schedule_candidate o s).1
        (k.on_schedule o s i)

  after_clearance-keeps :
      (level : AutonomyLevel) (o : Order) (s : Store)
      → Inv s
      → Inv (after_clearance e workspace account level o s).1
  unfolding after_clearance
  after_clearance-keeps manual o s i = return_early-keeps 1 0 _ s i
  after_clearance-keeps semi_autonomous o s i =
      place_candidate-keeps o _ (k.on_others at_schedule s i)
  after_clearance-keeps full_autonomous o s i =
      place_candidate-keeps o _ (k.on_others at_schedule s i)
  after_clearance-keeps paused o s i = place_candidate-keeps o _ (k.on_others at_schedule s i)

  refuse_candidate-keeps :
      (st : AuditStatus) (s : Store) → Inv s → Inv (refuse_candidate e workspace account st s).1
  unfolding refuse_candidate
  refuse_candidate-keeps st s i = return_early-keeps 1 1 _ _ (k.on_candidates _ s i)

  after_audit-keeps :
      (level : AutonomyLevel) (o : Order) (st : AuditStatus) (s : Store)
      → Inv s
      → Inv (after_audit e workspace account level o st s).1
  unfolding after_audit
  after_audit-keeps level o st s i = on_test (is_passed st)
    where
      on_test :
          (b : Bool)
          → Inv
              (if b
                then after_clearance e workspace account level o s
                else refuse_candidate e workspace account st s).1
      on_test true = after_clearance-keeps level o s i
      on_test false = refuse_candidate-keeps st s i

  after_evaluation-keeps :
      (level : AutonomyLevel) (o : Order) (r : Result Evaluation) (s : Store)
      → Inv s
      → Inv (after_evaluation e workspace account level o r s).1
  unfolding after_evaluation
  after_evaluation-keeps level o (refused f) s i = i
  after_evaluation-keeps level o (ok v) s i = after_audit-keeps level o v.status s i

  after_initiation-keeps :
      (config : OperatorConfig) (slot : ℕ) (d : Draft) (v : Version) (r : Result Audit) (s : Store)
      → Inv s
      → Inv (after_initiation e workspace account config slot d v r s).1
  unfolding after_initiation evaluate_candidate
  after_initiation-keeps config slot d v (refused f) s i = i
  after_initiation-keeps config slot d v (ok a) s i =
      after_evaluation-keeps config.autonomy_level _ _ _
        (k.on_safety _ _ (k.on_others at_evaluation s i))

  with_version-keeps :
      (config : OperatorConfig) (slot : ℕ) (d : Draft) (o : Option Version) (s : Store)
      → Inv s
      → Inv (with_version e workspace account config slot d o s).1
  unfolding with_version audit_candidate
  with_version-keeps config slot d none s i = no_draft-keeps config.autonomy_level s i
  with_version-keeps config slot d (some v) s i =
      after_initiation-keeps config slot d v _ _
        (k.on_safety _ _ (k.on_others at_audit _ (k.on_candidates _ s i)))

  with_draft-keeps :
      (config : OperatorConfig) (slot : ℕ) (o : Option Draft) (s : Store)
      → Inv s
      → Inv (with_draft e workspace account config slot o s).1
  unfolding with_draft
  with_draft-keeps config slot none s i = no_draft-keeps config.autonomy_level s i
  with_draft-keeps config slot (some d) s i = with_version-keeps config slot d _ s i

  select_slot-keeps :
      (config : OperatorConfig) (s : Store)
      → Inv s
      → Inv (select_slot e workspace account config s).1
  unfolding select_slot
  select_slot-keeps config s i = with_draft-keeps config _ _ _ (k.on_others at_drafts s i)

  after_config-keeps :
      (level : AutonomyLevel) (config : OperatorConfig) (s : Store)
      → Inv s
      → Inv (after_config e workspace account level config s).1
  unfolding after_config halt mark_run
  after_config-keeps paused config s i = k.on_release _ (k.on_runs _ s i)
  after_config-keeps manual config s i = select_slot-keeps config _ (k.on_others at_planning s i)
  after_config-keeps semi_autonomous config s i =
      select_slot-keeps config _ (k.on_others at_planning s i)
  after_config-keeps full_autonomous config s i =
      select_slot-keeps config _ (k.on_others at_planning s i)

  plan_cycle-keeps : (s : Store) → Inv s → Inv (plan_cycle e workspace account s).1
  unfolding plan_cycle ensure_config
  plan_cycle-keeps s i =
      on_config
        (find_first (λ c. c.social_account_id == account && c.workspace_id == workspace) s.configs)
    where
      on_config :
          (o : Option OperatorConfig)
          → Inv
              (after_config e workspace account
                (config_or_default workspace account o s).0.autonomy_level
                (config_or_default workspace account o s).0
                (config_or_default workspace account o s).1).1
      on_config (some c) = after_config-keeps c.autonomy_level c s i
      on_config none =
          after_config-keeps semi_autonomous (default_config workspace account) _
            (k.on_configs _ s i)

  catch_failure-keeps :
      (r : Attempt OperatorRun) (s : Store)
      → Inv s
      → Inv (catch_failure e workspace account (r, s)).1
  unfolding catch_failure mark_run
  catch_failure-keeps (value run) s i = i
  catch_failure-keeps (raised f) s i = k.on_runs _ s i

  guarded-keeps : (s : Store) → Inv s → Inv (guarded e workspace account s).1
  unfolding guarded
  guarded-keeps s i =
      let after =
        plan_cycle e workspace account
          (e.meanwhile at_start (record s { runs = new_run e workspace account ∷ s.runs })) in
      k.on_release _ (
        k.on_others at_end _ (
          catch_failure-keeps after.0 after.1
            (plan_cycle-keeps _ (k.on_others at_start _ (k.on_runs _ s i)))))

  create_run-keeps :
      (is_created : Bool) (s : Store) → Inv s → Inv (create_run e workspace account is_created s).1
  create_run-keeps true s i = guarded-keeps s i
  create_run-keeps false s i = i

  -- From the claim on.
  pub with_lease-keeps :
      (lease : Option ClaimedLease) (s : Store)
      → Inv s
      → Inv (with_lease e workspace account lease s).1
  unfolding with_lease
  with_lease-keeps none s i = i
  with_lease-keeps (some lease) s i = create_run-keeps e.run_is_created s i
