-- ===== src/Operator/Cleared.antt =====
-- What a post that a planning cycle schedules rests on.
use thread_pilot.Common.{
  ℕ, ◌≤◌, ◌≡◌, ◌≢◌, refl, sym, ap, ◌∙◌, ◌⊎◌, inl, inr, Bool, true, false, Option, none, some, [],
  ◌∷◌, ◌==◌, arith, any, count_if, if◌then◌else◌,
}
use thread_pilot.Safety.Record.{
  AuditStatus, passed, Version, Evaluation, Audit, Result, ok, refused,
}
use thread_pilot.Safety.Audit.{initiate_audit, evaluate_audit}
use thread_pilot.Safety.Verdict.{evaluate_audit-walls}
use thread_pilot.Operator.Record.{
  AutonomyLevel, manual, semi_autonomous, full_autonomous, paused, OperatorConfig, OperatorRun,
  Failure, Draft, Store,
}
use thread_pilot.Operator.Lease.{ClaimedLease, claim_account_lease, lease_active}
use thread_pilot.Operator.Slot.{is_at}
use thread_pilot.Operator.Schedule.{
  new_post, committed, Attempt, value, refusal, commit_unless, raised, Order, ensure_quota,
  is_reservable, is_ours, schedule_candidate,
}
use thread_pilot.Operator.Cycle.{
  guarded, create_run, new_candidate, request_content, ensure_config, new_run, Moment, at_start,
  at_planning, at_drafts, at_audit, at_evaluation, at_schedule, at_end, Around, after_schedule,
  place_candidate, after_clearance, after_audit, is_passed, after_evaluation, evaluate_candidate,
  after_initiation, audit_candidate, with_version, with_draft, select_slot, after_config,
  plan_cycle, catch_failure, with_lease, run_planning_cycle, target, order, planned_slot,
  candidate_draft, newest_version, no_draft, dispatch_generation, halt, mark_run, return_early,
  end_run, release, refuse_candidate,
}

-- Whether the table has a post of the identifier.
abbrev pub has_post : ℕ → Store → Bool
has_post id s = any (λ p. p.id == id) s.posts

-- The state of the database at a transaction that scheduled a post.
pub record Admitted (o : Order) (s : Store) : Type 0 where
  pub quota_left : 1 ≤ count_if (is_reservable o.social_account_id o.week) (ensure_quota o s.quotas)
  pub lease_held : lease_active o.now o.social_account_id o.lease_token s.leases ≡ true
  pub slot_free : any (is_at o.social_account_id o.slot) s.posts ≡ false
  pub one_candidate : count_if (is_ours o) s.candidates ≡ 1

refusal-Admitted : (o : Order) (s : Store) → refusal o s ≡ none → Admitted o s
unfolding refusal
refusal-Admitted o s h = record {
  quota_left = ground arith;
  lease_held = ground arith;
  slot_free = ground arith;
  one_candidate = ground arith;
}

module _ (e : Around) (workspace account : ℕ) where
  -- The posts after the transaction's outcome is recorded.
  after_schedule_posts :
      (o : Order) (r : Attempt ℕ) (s : Store)
      → (after_schedule e workspace account o r s).1.posts ≡ s.posts
  unfolding after_schedule end_run
  after_schedule_posts o (raised f) s = refl
  after_schedule_posts o (value id) s = refl

  -- The post of an order, in front of the table.
  abbrev pub Inserted : Order → Store → Store → Type 0
  Inserted o s out = out.posts ≡ new_post o ∷ s.posts

  commit_unless-Admitted :
      (o : Order) (s : Store) (f : Option Failure)
      → refusal o s ≡ f
      → has_post e.post_id (commit_unless f o s).1 ≡ true
      → (has_post e.post_id s ≡ true) ⊎ (Admitted o s × Inserted o s (commit_unless f o s).1)
  unfolding committed
  commit_unless-Admitted o s none h t = inr (refusal-Admitted o s h, refl)
  commit_unless-Admitted o s (some f) h t = inl t

  place_candidate-Admitted :
      (o : Order) (s : Store)
      → has_post e.post_id (place_candidate e workspace account o s).1 ≡ true
      → (has_post e.post_id s ≡ true)
        ⊎ (Admitted o s × Inserted o s (place_candidate e workspace account o s).1)
  unfolding place_candidate schedule_candidate
  place_candidate-Admitted o s h =
      let (r, s') = schedule_candidate o s in
      let kept = after_schedule_posts o r s' in
      elim (commit_unless-Admitted o s (refusal o s) refl
        (sym (ap (any (λ p. p.id == e.post_id)) kept) ∙ h)) [
          | inl t ↦ inl t
          | inr (admitted, at_front) ↦ inr (admitted, kept ∙ at_front)
        ]

  is_passed_lem : (st : AuditStatus) → is_passed st ≡ true → st ≡ passed
  is_passed_lem st h = ground arith

  -- The transaction that scheduled the post, for a level that schedules: from the database `s` that
  -- the cycle left before it, to `out`.
  pub record Placed (level : AutonomyLevel) (o : Order) (s out : Store) : Type 0 where
    pub not_manual : level ≢ manual
    pub admitted : Admitted o (e.meanwhile at_schedule s)
    pub post : Inserted o (e.meanwhile at_schedule s) out

  -- The two calls of the safety gate.
  abbrev pub started : Draft → Version → thread_pilot.Safety.Record.Store → Result Audit
  started d v g =
      (initiate_audit e.oracle (e.clock at_audit) e.default_policy e.audit_id
        (target e workspace account d v) g).0

  abbrev pub judged : Audit → thread_pilot.Safety.Record.Store → Result Evaluation
  judged a g = (evaluate_audit e.oracle (e.clock at_evaluation) a.id g).0

  -- The database when the evaluation begins, and after it, from the one when the audit begins.
  abbrev pub judging : Draft → Version → Store → Store
  judging d v s = e.meanwhile at_evaluation (record s {
    safety =
        (initiate_audit e.oracle (e.clock at_audit) e.default_policy e.audit_id
          (target e workspace account d v) s.safety).1;
  })

  abbrev pub after_judging : Audit → Store → Store
  after_judging a s = record s {
    safety = (evaluate_audit e.oracle (e.clock at_evaluation) a.id s.safety).1;
  }

  -- What the safety gate answered for the version, from the database `s` when the audit begins, and
  -- the transaction, which left `out`.
  pub record Approved (config : OperatorConfig) (slot : ℕ) (d : Draft) (v : Version) (s out : Store)
      : Type 0 where
    pub audit : Audit
    pub evaluation : Evaluation
    pub initiated : started d v s.safety ≡ ok audit
    pub evaluated : judged audit (judging d v s).safety ≡ ok evaluation
    pub audit_passed : evaluation.status ≡ passed
    pub no_wall_failed : evaluation.failed_walls ≡ []
    pub placement :
        Placed config.autonomy_level
          (order e workspace account config slot d v audit)
          (after_judging audit (judging d v s))
          out

  -- The database when the draft is looked up, after the slot was planned, and when the audit begins.
  abbrev pub choosing : Store → Store
  choosing planned = e.meanwhile at_drafts planned

  abbrev pub auditing : Draft → ℕ → Store → Store
  auditing d slot s =
      e.meanwhile at_audit
        (record s { candidates = new_candidate e workspace account d slot ∷ s.candidates })

  -- What a cycle's post rests on, from its configuration and the database when the slot is planned,
  -- to the one that the planning leaves.
  pub record Cleared (config : OperatorConfig) (planned out : Store) : Type 0 where
    pub its_draft : Draft
    pub its_version : Version
    pub not_paused : config.autonomy_level ≢ paused
    pub draft_found : candidate_draft workspace (choosing planned) ≡ some its_draft
    pub version_found : newest_version (choosing planned) its_draft ≡ some its_version
    pub approval :
        let slot = planned_slot e workspace account config planned in
        Approved config slot its_draft its_version (auditing its_draft slot (choosing planned)) out

  -- The database when the planning of a cycle that began with `s` begins, its configuration, and the
  -- database when it plans the slot.
  abbrev pub begun : Store → Store
  begun s = e.meanwhile at_start (record s {
    leases =
        (claim_account_lease (e.clock at_start) e.lease_token e.cycle_id workspace account
          s.leases).1;
    runs = new_run e workspace account ∷ s.runs;
  })

  abbrev pub its_config : Store → OperatorConfig
  its_config s = (ensure_config workspace account (begun s)).0

  abbrev pub planning_at : Store → Store
  planning_at s = e.meanwhile at_planning (ensure_config workspace account (begun s)).1

  module _
      (hands_off : (m : Moment) (s : Store)
        → has_post e.post_id (e.meanwhile m s) ≡ true
        → has_post e.post_id s ≡ true) where
    after_level :
        (level : AutonomyLevel) (o : Order) (s : Store)
        → level ≢ manual
        → has_post e.post_id (place_candidate e workspace account o (e.meanwhile at_schedule s)).1
          ≡ true
        → (has_post e.post_id s ≡ true)
          ⊎ Placed level o s (place_candidate e workspace account o (e.meanwhile at_schedule s)).1
    after_level level o s ne h = elim (place_candidate-Admitted o (e.meanwhile at_schedule s) h) [
      | inl t ↦ inl (hands_off at_schedule s t)
      | inr (admitted, post) ↦ inr (record { not_manual = ne; admitted = admitted; post = post })
    ]

    after_clearance-Placed :
        (level : AutonomyLevel) (o : Order) (s : Store)
        → has_post e.post_id (after_clearance e workspace account level o s).1 ≡ true
        → (has_post e.post_id s ≡ true)
          ⊎ Placed level o s (after_clearance e workspace account level o s).1
    unfolding after_clearance return_early end_run release
    after_clearance-Placed manual o s h = inl h
    after_clearance-Placed semi_autonomous o s h = after_level semi_autonomous o s (λ q. cc) h
    after_clearance-Placed full_autonomous o s h = after_level full_autonomous o s (λ q. cc) h
    after_clearance-Placed paused o s h = after_level paused o s (λ q. cc) h

    after_audit-Placed :
        (level : AutonomyLevel) (o : Order) (st : AuditStatus) (s : Store)
        → has_post e.post_id (after_audit e workspace account level o st s).1 ≡ true
        → (has_post e.post_id s ≡ true)
          ⊎ ((st ≡ passed) × Placed level o s (after_audit e workspace account level o st s).1)
    unfolding after_audit refuse_candidate return_early end_run release
    after_audit-Placed level o st s h = on_test (is_passed st) refl h
      where
        on_test :
            (b : Bool)
            → is_passed st ≡ b
            → has_post e.post_id
                (if b
                  then after_clearance e workspace account level o s
                  else refuse_candidate e workspace account st s).1
              ≡ true
            → (has_post e.post_id s ≡ true)
              ⊎ ((st ≡ passed)
                  × Placed level o s
                      (if b
                        then after_clearance e workspace account level o s
                        else refuse_candidate e workspace account st s).1)
        on_test true t h = elim (after_clearance-Placed level o s h) [
          | inl had ↦ inl had
          | inr placement ↦ inr (is_passed_lem st t, placement)
        ]
        on_test false t h = inl h

    after_evaluation-Approved :
        (config : OperatorConfig) (slot : ℕ) (d : Draft) (v : Version) (a : Audit) (s : Store)
        (r : Result Evaluation)
        → started d v s.safety ≡ ok a
        → judged a (judging d v s).safety ≡ r
        → has_post e.post_id
            (after_evaluation e workspace account config.autonomy_level
              (order e workspace account config slot d v a)
              r
              (after_judging a (judging d v s))).1
          ≡ true
        → (has_post e.post_id (judging d v s) ≡ true)
          ⊎ Approved config slot d v s
              (after_evaluation e workspace account config.autonomy_level
                (order e workspace account config slot d v a)
                r
                (after_judging a (judging d v s))).1
    unfolding after_evaluation
    after_evaluation-Approved config slot d v a s (refused f) i j h = inl h
    after_evaluation-Approved config slot d v a s (ok evaluation) i j h =
        elim (after_audit-Placed config.autonomy_level _ evaluation.status
          (after_judging a (judging d v s)) h) [
            | inl t ↦ inl t
            | inr (p, placement) ↦ inr (record {
              audit = a;
              evaluation = evaluation;
              initiated = i;
              evaluated = j;
              audit_passed = p;
              no_wall_failed =
                  evaluate_audit-walls e.oracle (e.clock at_evaluation) a.id (judging d v s).safety
                    evaluation j p;
              placement = placement;
            })
          ]

    after_initiation-Approved :
        (config : OperatorConfig) (slot : ℕ) (d : Draft) (v : Version) (s : Store)
        (r : Result Audit)
        → started d v s.safety ≡ r
        → has_post e.post_id
            (after_initiation e workspace account config slot d v r (record s {
              safety =
                  (initiate_audit e.oracle
                    (e.clock at_audit)
                    e.default_policy
                    e.audit_id
                    (target e workspace account d v)
                    s.safety).1;
            })).1
          ≡ true
        → (has_post e.post_id s ≡ true)
          ⊎ Approved config slot d v s
              (after_initiation e workspace account config slot d v r (record s {
                safety =
                    (initiate_audit e.oracle
                      (e.clock at_audit)
                      e.default_policy
                      e.audit_id
                      (target e workspace account d v)
                      s.safety).1;
              })).1
    unfolding after_initiation evaluate_candidate
    after_initiation-Approved config slot d v s (refused f) i h = inl h
    after_initiation-Approved config slot d v s (ok a) i h =
        elim (after_evaluation-Approved config slot d v a s (judged a (judging d v s).safety) i refl
          h) [ inl t ↦ inl (hands_off at_evaluation _ t) | inr approved ↦ inr approved ]

    audit_candidate-Approved :
        (config : OperatorConfig) (slot : ℕ) (d : Draft) (v : Version) (s : Store)
        → has_post e.post_id (audit_candidate e workspace account config slot d v s).1 ≡ true
        → (has_post e.post_id s ≡ true)
          ⊎ Approved config slot d v s (audit_candidate e workspace account config slot d v s).1
    unfolding audit_candidate
    audit_candidate-Approved config slot d v s h =
        after_initiation-Approved config slot d v s (started d v s.safety) refl h

    dispatch_generation_posts :
        (answer : Option ℕ) (s : Store)
        → (dispatch_generation e workspace account answer s).1.posts ≡ s.posts
    unfolding dispatch_generation return_early end_run release
    dispatch_generation_posts none s = refl
    dispatch_generation_posts (some id) s = refl

    no_draft_posts :
        (level : AutonomyLevel) (s : Store)
        → (no_draft e workspace account level s).1.posts ≡ s.posts
    unfolding no_draft request_content dispatch_generation return_early end_run release
    no_draft_posts manual s = refl
    no_draft_posts semi_autonomous s = refl
    no_draft_posts paused s = refl
    no_draft_posts full_autonomous s = ground arith

    no_draft_has :
        (level : AutonomyLevel) (s : Store)
        → has_post e.post_id (no_draft e workspace account level s).1 ≡ true
        → has_post e.post_id s ≡ true
    no_draft_has level s h = sym (ap (any (λ p. p.id == e.post_id)) (no_draft_posts level s)) ∙ h

    with_version-Approved :
        (config : OperatorConfig) (slot : ℕ) (d : Draft) (o : Option Version) (s : Store)
        → has_post e.post_id (with_version e workspace account config slot d o s).1 ≡ true
        → (has_post e.post_id s ≡ true)
          ⊎ ((v : Version) × (o ≡ some v)
              × Approved config slot d v
                  (auditing d slot s)
                  (with_version e workspace account config slot d o s).1)
    unfolding with_version
    with_version-Approved config slot d none s h = inl (no_draft_has config.autonomy_level s h)
    with_version-Approved config slot d (some v) s h =
        elim (audit_candidate-Approved config slot d v (auditing d slot s) h) [
          | inl t ↦ inl (hands_off at_audit _ t)
          | inr approval ↦ inr (v, refl, approval)
        ]

    with_draft-Cleared :
        (config : OperatorConfig) (planned : Store) (o : Option Draft)
        → config.autonomy_level ≢ paused
        → candidate_draft workspace (choosing planned) ≡ o
        → has_post e.post_id
            (with_draft e workspace account config
              (planned_slot e workspace account config planned)
              o
              (choosing planned)).1
          ≡ true
        → (has_post e.post_id (choosing planned) ≡ true)
          ⊎ Cleared config planned
              (with_draft e workspace account config
                (planned_slot e workspace account config planned)
                o
                (choosing planned)).1
    unfolding with_draft
    with_draft-Cleared config planned none ne found h =
        inl (no_draft_has config.autonomy_level (choosing planned) h)
    with_draft-Cleared config planned (some d) ne found h =
        elim (with_version-Approved config _ d (newest_version (choosing planned) d)
          (choosing planned) h) [
            | inl t ↦ inl t
            | inr (v, newest, approval) ↦ inr (record {
              its_draft = d;
              its_version = v;
              not_paused = ne;
              draft_found = found;
              version_found = newest;
              approval = approval;
            })
          ]

    select_slot-Cleared :
        (config : OperatorConfig) (planned : Store)
        → config.autonomy_level ≢ paused
        → has_post e.post_id (select_slot e workspace account config planned).1 ≡ true
        → (has_post e.post_id planned ≡ true)
          ⊎ Cleared config planned (select_slot e workspace account config planned).1
    unfolding select_slot
    select_slot-Cleared config planned ne h = elim (with_draft-Cleared config planned _ ne refl h) [
      | inl t ↦ inl (hands_off at_drafts planned t)
      | inr cleared ↦ inr cleared
    ]

    planning :
        (config : OperatorConfig) (s : Store)
        → config.autonomy_level ≢ paused
        → has_post e.post_id (select_slot e workspace account config (e.meanwhile at_planning s)).1
          ≡ true
        → (has_post e.post_id s ≡ true)
          ⊎ Cleared config
              (e.meanwhile at_planning s)
              (select_slot e workspace account config (e.meanwhile at_planning s)).1
    planning config s ne h = elim (select_slot-Cleared config (e.meanwhile at_planning s) ne h) [
      | inl t ↦ inl (hands_off at_planning s t)
      | inr cleared ↦ inr cleared
    ]

    after_config-Cleared :
        (config : OperatorConfig) (level : AutonomyLevel) (s : Store)
        → config.autonomy_level ≡ level
        → has_post e.post_id (after_config e workspace account level config s).1 ≡ true
        → (has_post e.post_id s ≡ true)
          ⊎ Cleared config
              (e.meanwhile at_planning s)
              (after_config e workspace account level config s).1
    unfolding after_config halt mark_run release
    after_config-Cleared config paused s same h = inl h
    after_config-Cleared config manual s same h = planning config s (λ q. cc) h
    after_config-Cleared config semi_autonomous s same h = planning config s (λ q. cc) h
    after_config-Cleared config full_autonomous s same h = planning config s (λ q. cc) h

    ensure_config_posts : (s : Store) → (ensure_config workspace account s).1.posts ≡ s.posts
    unfolding ensure_config
    ensure_config_posts s = ground arith

    plan_cycle-Cleared :
        (s : Store)
        → has_post e.post_id (plan_cycle e workspace account s).1 ≡ true
        → (has_post e.post_id s ≡ true)
          ⊎ Cleared
              (ensure_config workspace account s).0
              (e.meanwhile at_planning (ensure_config workspace account s).1)
              (plan_cycle e workspace account s).1
    unfolding plan_cycle
    plan_cycle-Cleared s h =
        elim (after_config-Cleared (ensure_config workspace account s).0 _
          (ensure_config workspace account s).1 refl h) [
            | inl t ↦ inl (sym (ap (any (λ p. p.id == e.post_id)) (ensure_config_posts s)) ∙ t)
            | inr cleared ↦ inr cleared
          ]

    catch_failure_has :
        (r : Attempt OperatorRun) (s : Store)
        → has_post e.post_id (catch_failure e workspace account (r, s)).1 ≡ true
        → has_post e.post_id s ≡ true
    unfolding catch_failure mark_run
    catch_failure_has (value run) s h = h
    catch_failure_has (raised f) s h = h

    guarded-Cleared :
        (s : Store)
        → has_post e.post_id s ≡ false
        → has_post e.post_id (guarded e workspace account s).1 ≡ true
        → let start =
            e.meanwhile at_start (record s { runs = new_run e workspace account ∷ s.runs }) in
          Cleared
            (ensure_config workspace account start).0
            (e.meanwhile at_planning (ensure_config workspace account start).1)
            (plan_cycle e workspace account start).1
    unfolding guarded release
    guarded-Cleared s before h =
        let created : Store = record s { runs = new_run e workspace account ∷ s.runs } in
        let start = e.meanwhile at_start created in
        let after = plan_cycle e workspace account start in
        let caught = hands_off at_end (catch_failure e workspace account after).1 h in
        elim (plan_cycle-Cleared start (catch_failure_has after.0 after.1 caught)) [
          | inl t ↦
              let had = hands_off at_start created t in absurd (let both : ⊥ = ground arith in both)
          | inr cleared ↦ cleared
        ]

    create_run-Cleared :
        (is_created : Bool) (s : Store)
        → has_post e.post_id s ≡ false
        → has_post e.post_id (create_run e workspace account is_created s).1 ≡ true
        → let start =
            e.meanwhile at_start (record s { runs = new_run e workspace account ∷ s.runs }) in
          Cleared
            (ensure_config workspace account start).0
            (e.meanwhile at_planning (ensure_config workspace account start).1)
            (plan_cycle e workspace account start).1
    create_run-Cleared true s before h = guarded-Cleared s before h
    create_run-Cleared false s before h = absurd (let both : ⊥ = ground arith in both)

    with_lease-Cleared :
        (lease : Option ClaimedLease) (s : Store)
        → has_post e.post_id s ≡ false
        → has_post e.post_id (with_lease e workspace account lease s).1 ≡ true
        → let start =
            e.meanwhile at_start (record s { runs = new_run e workspace account ∷ s.runs }) in
          Cleared
            (ensure_config workspace account start).0
            (e.meanwhile at_planning (ensure_config workspace account start).1)
            (plan_cycle e workspace account start).1
    unfolding with_lease
    with_lease-Cleared none s before h = absurd (let both : ⊥ = ground arith in both)
    with_lease-Cleared (some lease) s before h = create_run-Cleared e.run_is_created s before h

    -- A cycle that no other process helps with its post, whatever else the others write meanwhile:
    -- suppose the post is there when the cycle ends and was not when it began. Then the configuration
    -- that the cycle read was neither PAUSED nor MANUAL. The draft was the newest that could be
    -- scheduled when the cycle looked for one, and the version its newest then. The slot was the one
    -- that the search chose among the posts there were when the cycle planned it. The safety gate, on
    -- the tables that the cycle found there, started an audit of that version, and its evaluation was
    -- PASSED with no failed wall. In the database in which the transaction ran, the week's quota had
    -- a place left, the cycle held its lease, the slot was free, and the candidate was SELECTED. And
    -- the planning left the posts of that database with one more, of that draft, version, body, hash
    -- and slot.
    pub run_planning_cycle-Cleared :
        (s : Store)
        → has_post e.post_id s ≡ false
        → has_post e.post_id (run_planning_cycle e workspace account s).1 ≡ true
        → Cleared (its_config s) (planning_at s) (plan_cycle e workspace account (begun s)).1
    unfolding run_planning_cycle
    run_planning_cycle-Cleared s before h =
        let claim =
          claim_account_lease (e.clock at_start) e.lease_token e.cycle_id workspace account
            s.leases in
        with_lease-Cleared claim.0 (record s { leases = claim.1 }) before h
