-- ===== src/Rules/Budget/Bound.antt =====
-- No rule is executed more often in a window than its budget says.
use thread_pilot.Common.{
  ℕ, suc, ◌+◌, ◌≤◌, ◌≡◌, refl, sym, ◌∙◌, inl, inr, Bool, true, false, ◌&&◌, Option, none, some,
  List, [], ◌∷◌, ltb, ◌==◌, if◌then◌else◌, arith, Bool-cases,
}
use thread_pilot.Rules.Budget.{
  skipped_budget, Budget, Log, Store, Call, is_budget, has_key, ensure_budget, lapsed, is_claimed,
  leased, LogClaim, conflict, taken_over, fresh, behind, claim_log, behind_budget, reserve,
  reserve_for, settle_claim, claim_execution_and_budget,
}

abbrev pub is_admitted : ℕ → ℕ → Log → Bool
is_admitted rule window l =
    l.rule_id == rule && l.window == window && elim l.status [ skipped_budget ↦ false | _ ↦ true ]

-- The logs of the rule and window that were not refused for their budget.
abbrev pub admitted : ℕ → ℕ → List Log → ℕ
admitted rule window [] = 0
admitted rule window (l ∷ ls) =
    let rest = admitted rule window ls in if is_admitted rule window l then suc rest else rest

-- The executions that the budget counts, and its bound.
abbrev pub spent : ℕ → ℕ → List Budget → ℕ
spent rule window [] = 0
spent rule window (b ∷ bs) =
    let rest = spent rule window bs in
    if is_budget rule window b then b.claimed_executions else rest

abbrev pub bound : ℕ → ℕ → List Budget → ℕ
bound rule window [] = 0
bound rule window (b ∷ bs) =
    let rest = bound rule window bs in if is_budget rule window b then b.max_executions else rest

-- The logs are counted, within the bound.
pub record Within (rule window : ℕ) (s : Store) : Type 0 where
  pub counted : admitted rule window s.logs ≡ spent rule window s.budgets
  pub bounded : spent rule window s.budgets ≤ bound rule window s.budgets

module _ (rule window : ℕ) (c : Call) where
  spent-ensure_budget :
      (bs : List Budget) → spent rule window (ensure_budget c bs) ≡ spent rule window bs
  unfolding ensure_budget
  spent-ensure_budget [] = ground arith
  spent-ensure_budget (b ∷ bs) = ground (arith, spent-ensure_budget bs)

  bound-ensure_budget :
      (bs : List Budget) → bound rule window bs ≤ bound rule window (ensure_budget c bs)
  unfolding ensure_budget
  bound-ensure_budget [] = ground arith
  bound-ensure_budget (b ∷ bs) = ground (arith, bound-ensure_budget bs)

  -- One more is spent where the claim is for this budget, and the bound stays.
  abbrev Reserved : List Budget → Option (List Budget) → Type 0
  Reserved bs none = Unit
  Reserved bs (some bs') =
      (spent rule window bs' ≡ spent rule window bs + admitted rule window (leased c ∷ []))
      × (bound rule window bs' ≡ bound rule window bs)
      × (spent rule window bs ≤ bound rule window bs
          → spent rule window bs' ≤ bound rule window bs')

  behind_lem :
      (b : Budget) (bs : List Budget) (o : Option (List Budget))
      → is_budget c.rule_id c.window b ≡ false
      → Reserved bs o
      → Reserved (b ∷ bs) (behind_budget b o)
  behind_lem b bs none other h = tt
  behind_lem b bs (some bs') other (p, q, r) = (ground arith, ground arith, λ u. ground (arith, r))

  here_lem :
      (b : Budget) (bs : List Budget)
      → is_budget c.rule_id c.window b ≡ true
      → ltb b.claimed_executions b.max_executions ≡ true
      → Reserved (b ∷ bs) (some (record b { claimed_executions = suc b.claimed_executions } ∷ bs))
  here_lem b bs same room = (ground arith, ground arith, λ u. ground arith)

  reserve-Reserved : (bs : List Budget) → Reserved bs (reserve c.rule_id c.window bs)
  unfolding reserve
  reserve-Reserved [] = tt
  reserve-Reserved (b ∷ bs) = elim (Bool-cases (is_budget c.rule_id c.window b)) [
    | inl same ↦ elim (Bool-cases (ltb b.claimed_executions b.max_executions)) [
      | inl room ↦ rw (same, room) (here_lem b bs same room)
      | inr full ↦ rw (same, full) tt
    ]
    | inr other ↦ rw other (behind_lem b bs _ other (reserve-Reserved bs))
  ]

  abbrev SameCount : List Log → LogClaim → Type 0
  SameCount ls (taken_over ls') = admitted rule window ls' ≡ admitted rule window ls
  SameCount ls _ = Unit

  behind_log :
      (l : Log) (ls : List Log) (r : LogClaim) → SameCount ls r → SameCount (l ∷ ls) (behind l r)
  behind_log l ls conflict h = tt
  behind_log l ls (taken_over ls') h = ground arith
  behind_log l ls fresh h = tt

  claim_log-SameCount : (ls : List Log) → SameCount ls (claim_log c ls)
  unfolding claim_log
  claim_log-SameCount [] = tt
  claim_log-SameCount (l ∷ ls) = elim (Bool-cases (has_key c l)) [
    | inl same ↦ elim (Bool-cases (is_claimed l.status && lapsed c.now l.lease_until)) [
      | inl free ↦ rw (same, free) refl
      | inr held ↦ rw (same, held) tt
    ]
    | inr other ↦ rw other (behind_log l ls _ (claim_log-SameCount ls))
  ]

  module _ (s : Store) (bs : List Budget)
      (start : Within rule window (record { budgets = bs; logs = s.logs })) where
    reserve_for-Within :
        (o : Option (List Budget))
        → Reserved bs o
        → Within rule window (reserve_for c s.logs bs o).1
    reserve_for-Within none r = record {
      counted = ground (arith, start.counted);
      bounded = start.bounded;
    }
    reserve_for-Within (some bs') (p, q, r) = record {
      counted = ground (arith, start.counted, p);
      bounded = r start.bounded;
    }

    settle_claim-Within :
        (r : LogClaim)
        → SameCount s.logs r
        → Within rule window (settle_claim c (record s { budgets = bs }) r).1
    settle_claim-Within conflict r = record { counted = start.counted; bounded = start.bounded }
    settle_claim-Within (taken_over ls) r = record {
      counted = r ∙ start.counted;
      bounded = start.bounded;
    }
    settle_claim-Within fresh r = reserve_for-Within _ (reserve-Reserved bs)

  ensured-Within :
      (s : Store)
      → Within rule window s
      → Within rule window (record { budgets = ensure_budget c s.budgets; logs = s.logs })
  ensured-Within s h = record {
    counted = h.counted ∙ sym (spent-ensure_budget s.budgets);
    bounded =
        omega (arith, h.bounded, spent-ensure_budget s.budgets, bound-ensure_budget s.budgets);
  }

  claim-Within :
      (s : Store) → Within rule window s → Within rule window (claim_execution_and_budget c s).1
  unfolding claim_execution_and_budget
  claim-Within s h =
      settle_claim-Within s (ensure_budget c s.budgets) (ensured-Within s h) _
        (claim_log-SameCount s.logs)

-- The store after the claims, one after the other.
pub after_claims : List Call → Store → Store
after_claims [] s = s
after_claims (c ∷ cs) s = after_claims cs (claim_execution_and_budget c s).1

after_claims-Within :
    (rule window : ℕ) (cs : List Call) (s : Store)
    → Within rule window s
    → Within rule window (after_claims cs s)
unfolding after_claims
after_claims-Within rule window [] s h = h
after_claims-Within rule window (c ∷ cs) s h =
    after_claims-Within rule window cs _ (claim-Within rule window c s h)

-- From empty tables, after any claims of any rules, windows and keys: the executions of a rule that
-- were admitted in a window are as many as its budget counts, and at most the budget's bound.
pub admitted-le-bound :
    (rule window : ℕ) (cs : List Call)
    → (admitted rule window (after_claims cs (record { budgets = []; logs = [] })).logs
        ≡ spent rule window (after_claims cs (record { budgets = []; logs = [] })).budgets)
      × (admitted rule window (after_claims cs (record { budgets = []; logs = [] })).logs
          ≤ bound rule window (after_claims cs (record { budgets = []; logs = [] })).budgets)
admitted-le-bound rule window cs =
    let w =
      after_claims-Within rule window cs (record { budgets = []; logs = [] })
        (record { counted = refl; bounded = omega arith }) in
    (w.counted, omega (arith, w.counted, w.bounded))
