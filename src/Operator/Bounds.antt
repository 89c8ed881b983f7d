-- ===== src/Operator/Bounds.antt =====
-- The weekly quota is a bound.
use thread_pilot.Common.{
  ℕ, ◌≤◌, Bool, true, false, Option, none, some, List, [], ◌∷◌, arith, All, update_all,
  if◌then◌else◌,
}
use thread_pilot.Operator.Record.{Quota, Store, Failure}
use thread_pilot.Operator.Schedule.{
  Order, ensure_quota, is_quota_of, is_reservable, reserve, refusal, commit_unless, committed,
  schedule_candidate,
}
use thread_pilot.Operator.Cycle.{Moment, Around, run_planning_cycle, release}
use thread_pilot.Operator.Keeps.{with_lease-keeps}

-- No more places are claimed than there are.
abbrev pub InQuota : Store → Type 0
InQuota s = All (λ q. q.claimed_posts ≤ q.max_weekly_posts) s.quotas

ensure_quota-All :
    (o : Order) (qs : List Quota)
    → All (λ q. q.claimed_posts ≤ q.max_weekly_posts) qs
    → All (λ q. q.claimed_posts ≤ q.max_weekly_posts) (ensure_quota o qs)
unfolding ensure_quota
ensure_quota-All o [] all = (omega arith, tt)
ensure_quota-All o (q ∷ qs) (le, all) =
    on_test (is_quota_of o.social_account_id o.week q) (ensure_quota-All o qs all)
  where
    on_test :
        (b : Bool)
        → All (λ q. q.claimed_posts ≤ q.max_weekly_posts) (ensure_quota o qs)
        → All
            (λ q. q.claimed_posts ≤ q.max_weekly_posts)
            (if b then q ∷ qs else q ∷ ensure_quota o qs)
    on_test true rest = (le, all)
    on_test false rest = (le, rest)

reserve-All :
    (account week : ℕ) (qs : List Quota)
    → All (λ q. q.claimed_posts ≤ q.max_weekly_posts) qs
    → All
        (λ q. q.claimed_posts ≤ q.max_weekly_posts)
        (update_all (is_reservable account week) reserve qs)
reserve-All account week [] all = tt
reserve-All account week (q ∷ qs) (le, all) = (ground arith, reserve-All account week qs all)

commit-InQuota :
    (o : Order) (f : Option Failure) (s : Store) → InQuota s → InQuota (commit_unless f o s).1
unfolding committed
commit-InQuota o (some f) s i = i
commit-InQuota o none s i = reserve-All o.social_account_id o.week _ (ensure_quota-All o s.quotas i)

-- A planning cycle, however it ends and whatever others do that keep the same, claims no more places
-- of a week than the week's quota has.
pub run_planning_cycle-InQuota :
    (e : Around) (workspace account : ℕ) (s : Store)
    → ((m : Moment) (t : Store) → InQuota t → InQuota (e.meanwhile m t))
    → InQuota s
    → InQuota (run_planning_cycle e workspace account s).1
unfolding run_planning_cycle schedule_candidate release
run_planning_cycle-InQuota e workspace account s others i =
    with_lease-keeps e workspace account InQuota
      (record {
        on_configs = λ _ _ i. i;
        on_runs = λ _ _ i. i;
        on_candidates = λ _ _ i. i;
        on_jobs = λ _ _ i. i;
        on_safety = λ _ _ i. i;
        on_release = λ _ i. i;
        on_schedule = λ o s i. commit-InQuota o (refusal o s) s i;
        on_others = others;
      })
      _ _ i
