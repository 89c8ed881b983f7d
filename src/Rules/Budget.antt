-- ===== src/Rules/Budget.antt =====
-- apps/worker/src/services/rules-engine.service.ts: claimExecutionAndBudget, one transaction. The
-- execution window is a number; a log is known by its unique key (rule, window, execution key), a
-- budget by its unique key (rule, window).
pub mod Bound
use thread_pilot.Common.{
  ℕ, suc, ◌+◌, Bool, true, false, ◌&&◌, Option, none, some, List, [], ◌∷◌, ltb, ◌==◌, if◌then◌else◌,
}

pub data ExecutionStatus : Type 0 where
  claimed executing executed skipped_condition skipped_budget failed : ExecutionStatus

pub record Budget : Type 0 where
  pub rule_id : ℕ
  pub window : ℕ
  pub max_executions : ℕ
  pub claimed_executions : ℕ

pub record Log : Type 0 where
  pub rule_id : ℕ
  pub window : ℕ
  pub key : ℕ
  pub status : ExecutionStatus
  pub lease_token : Option ℕ
  pub lease_until : Option ℕ

pub record Store : Type 0 where
  pub budgets : List Budget
  pub logs : List Log

-- The parameters of a claim, with the time and the fresh lease token.
pub record Call : Type 0 where
  pub now : ℕ
  pub lease_token : ℕ
  pub rule_id : ℕ
  pub window : ℕ
  pub key : ℕ
  pub max_daily : ℕ

-- What the claim answers: leased, done or leased before, or out of budget.
pub data Answer : Type 0 where
  allowed already_executed budget_exhausted : Answer

abbrev pub is_budget : ℕ → ℕ → Budget → Bool
is_budget rule window b = b.rule_id == rule && b.window == window

abbrev pub has_key : Call → Log → Bool
has_key c l = l.rule_id == c.rule_id && l.window == c.window && l.key == c.key

-- `INSERT … ON CONFLICT (rule_id, execution_window) DO NOTHING`, which adds the row at the end.
unfoldable pub ensure_budget : Call → List Budget → List Budget
ensure_budget c [] =
    record {
      rule_id = c.rule_id;
      window = c.window;
      max_executions = c.max_daily;
      claimed_executions = 0;
    }
    ∷ []
ensure_budget c (b ∷ bs) = if is_budget c.rule_id c.window b then b ∷ bs else b ∷ ensure_budget c bs

abbrev pub lapsed : ℕ → Option ℕ → Bool
lapsed now none = true
lapsed now (some t) = ltb t now

abbrev pub is_claimed : ExecutionStatus → Bool
is_claimed claimed = true
is_claimed _ = false

abbrev pub leased : Call → Log
leased c = record {
  rule_id = c.rule_id;
  window = c.window;
  key = c.key;
  status = claimed;
  lease_token = some c.lease_token;
  lease_until = some (c.now + 300000);
}

-- The upsert of the log: no row returned, the lease taken over, or a new row.
pub data LogClaim : Type 0 where
  conflict : LogClaim
  taken_over : List Log → LogClaim
  fresh : LogClaim

abbrev pub behind : Log → LogClaim → LogClaim
behind l conflict = conflict
behind l (taken_over ls) = taken_over (l ∷ ls)
behind l fresh = fresh

unfoldable pub claim_log : Call → List Log → LogClaim
claim_log c [] = fresh
claim_log c (l ∷ ls) =
    let rest = claim_log c ls in
    if has_key c l
    then (if is_claimed l.status && lapsed c.now l.lease_until
        then taken_over (
            record l { lease_token = some c.lease_token; lease_until = some (c.now + 300000) } ∷ ls)
        else conflict)
    else behind l rest

-- `UPDATE … SET claimed_executions = claimed_executions + 1 … AND claimed_executions < max_executions`;
-- `none` if no row was updated.
abbrev pub behind_budget : Budget → Option (List Budget) → Option (List Budget)
behind_budget b none = none
behind_budget b (some bs) = some (b ∷ bs)

unfoldable pub reserve : ℕ → ℕ → List Budget → Option (List Budget)
reserve rule window [] = none
reserve rule window (b ∷ bs) =
    let rest = reserve rule window bs in
    if is_budget rule window b
    then (if ltb b.claimed_executions b.max_executions
        then some (record b { claimed_executions = suc b.claimed_executions } ∷ bs)
        else none)
    else behind_budget b rest

abbrev pub skipped : Call → Log
skipped c = record (leased c) { status = skipped_budget; lease_token = none; lease_until = none }

-- The budget of a new log.
abbrev pub reserve_for : Call → List Log → List Budget → Option (List Budget) → Answer × Store
reserve_for c ls bs none = (budget_exhausted, record { budgets = bs; logs = skipped c ∷ ls })
reserve_for c ls bs (some bs') = (allowed, record { budgets = bs'; logs = leased c ∷ ls })

abbrev pub settle_claim : Call → Store → LogClaim → Answer × Store
settle_claim c s conflict = (already_executed, s)
settle_claim c s (taken_over ls) = (allowed, record s { logs = ls })
settle_claim c s fresh = reserve_for c s.logs s.budgets (reserve c.rule_id c.window s.budgets)

unfoldable pub claim_execution_and_budget : Call → Store → Answer × Store
claim_execution_and_budget c s =
    let s' = record s { budgets = ensure_budget c s.budgets } in
    settle_claim c s' (claim_log c s.logs)
