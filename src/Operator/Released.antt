-- ===== src/Operator/Released.antt =====
-- What becomes of the account's lease when a cycle is over.
use thread_pilot.Common.{
  ℕ, ◌+◌, ◌≤◌, ◌≡◌, refl, sym, ap, ◌∙◌, ◌⊎◌, inl, inr, Bool, true, false, Option, none, some, List,
  [], ◌∷◌, arith, any, find_first, find_first-update_all, found_passes, find_first-any,
  if◌then◌else◌,
}
use mathlib.Core.Option
use mathlib.Core.Path.{subst}
use thread_pilot.Operator.Record.{OperatorLease, Failure, Store}
use thread_pilot.Operator.Lease.{
  operator_lease_ms, is_lease_of, is_free, take, ClaimedLease, new_lease, take_if, claim_row,
  claim_account_lease, holds_token, clear, release_account_lease,
}
use thread_pilot.Operator.Exclusion.{take_found, calls, claim_excludes}
use thread_pilot.Operator.Schedule.{Order, refusal, commit_unless, committed, schedule_candidate}
use thread_pilot.Operator.Cycle.{
  guarded, at_start, Moment, Around, with_lease, run_planning_cycle, release,
}
use thread_pilot.Operator.Keeps.{with_lease-keeps}

-- The account's lease has the token, or none until when it holds.
record Ours (account token : ℕ) (leases : List OperatorLease) : Type 0 where
  row : OperatorLease
  found : find_first (is_lease_of account) leases ≡ some row
  mine : (row.lease_token ≡ some token) ⊎ (row.lease_until ≡ none)

release-Ours :
    (account token : ℕ) (leases : List OperatorLease)
    → Ours account token leases
    → Ours account token (release_account_lease account token leases)
unfolding release_account_lease
release-Ours account token leases o = record {
  row = if holds_token account token o.row then clear o.row else o.row;
  found =
      find_first-update_all (is_lease_of account) (holds_token account token) clear leases
        (λ l. refl)
      ∙ ap (Option.map (λ x. if holds_token account token x then clear x else x)) o.found;
  mine = on_test (holds_token account token o.row);
}
  where
    on_test :
        (b : Bool)
        → ((if b then clear o.row else o.row).lease_token ≡ some token)
          ⊎ ((if b then clear o.row else o.row).lease_until ≡ none)
    on_test true = inr refl
    on_test false = o.mine

-- After a release no row holds the token.
released_none :
    (account token : ℕ) (leases : List OperatorLease)
    → any (holds_token account token) (release_account_lease account token leases) ≡ false
unfolding release_account_lease
released_none account token [] = refl
released_none account token (l ∷ ls) =
    let rest = released_none account token ls in ground (arith, rest)

-- A row without a time can be claimed by anyone at any time.
released-free :
    (account token now other cycle workspace : ℕ) (leases : List OperatorLease)
    → Ours account token leases
    → any (holds_token account token) leases ≡ false
    → (claim_account_lease now other cycle workspace account leases).0
      ≡ some (record { lease_token = other; cycle_id = cycle })
unfolding claim_account_lease claim_row
released-free account token now other cycle workspace leases o gone = elim o.mine [
  | inr e ↦ let found = o.found in ground (arith, found, e)
  | inl e ↦
      let ours = found_passes (is_lease_of account) leases o.row o.found in
      let held =
        find_first-any (is_lease_of account) (holds_token account token) leases o.row o.found
          (ground (arith, ours, e)) in
      absurd (let both : ⊥ = ground arith in both)
]

claim_row-Ours :
    (now token cycle workspace account : ℕ) (leases : List OperatorLease) (o : Option OperatorLease)
    (got : ClaimedLease)
    → find_first (is_lease_of account) leases ≡ o
    → (claim_row now token cycle workspace account leases o).0 ≡ some got
    → Ours account token (claim_row now token cycle workspace account leases o).1
unfolding claim_row
claim_row-Ours now token cycle workspace account leases none got e h = record {
  row = new_lease now token cycle workspace account;
  found = ground arith;
  mine = inl refl;
}
claim_row-Ours now token cycle workspace account leases (some l) got e h = on_test (is_free now l) h
  where
    on_test :
        (b : Bool)
        → (take_if b now token cycle account leases).0 ≡ some got
        → Ours account token (take_if b now token cycle account leases).1
    on_test false h = absurd (let no_claim : ⊥ = ground arith in no_claim)
    on_test true h = record {
      row = take now token cycle l;
      found = take_found now token cycle account leases l e;
      mine = inl refl;
    }

commit-Ours :
    (account token : ℕ) (o : Order) (f : Option Failure) (s : Store)
    → Ours account token s.leases
    → Ours account token (commit_unless f o s).1.leases
unfolding committed
commit-Ours account token o (some f) s i = i
commit-Ours account token o none s i = i

claimed-Ours :
    (now token cycle workspace account : ℕ) (leases : List OperatorLease) (got : ClaimedLease)
    → (claim_account_lease now token cycle workspace account leases).0 ≡ some got
    → Ours account token (claim_account_lease now token cycle workspace account leases).1
unfolding claim_account_lease
claimed-Ours now token cycle workspace account leases got h =
    claim_row-Ours now token cycle workspace account leases
      (find_first (is_lease_of account) leases) got refl h

with_lease-Ours :
    (e : Around) (workspace account : ℕ)
    → ((m : Moment) (t : Store) → (e.meanwhile m t).leases ≡ t.leases)
    → (lease : Option ClaimedLease) (t : Store) → Ours account e.lease_token t.leases
    → Ours account e.lease_token (with_lease e workspace account lease t).1.leases
unfolding schedule_candidate release
with_lease-Ours e workspace account others =
    with_lease-keeps e workspace account (λ t. Ours account e.lease_token t.leases)
      (record {
        on_configs = λ _ _ i. i;
        on_runs = λ _ _ i. i;
        on_candidates = λ _ _ i. i;
        on_jobs = λ _ _ i. i;
        on_safety = λ _ _ i. i;
        on_release = λ t i. release-Ours account e.lease_token t.leases i;
        on_schedule = λ o t i. commit-Ours account e.lease_token o (refusal o t) t i;
        on_others = λ m t i. subst (Ours account e.lease_token) (sym (others m t)) i;
      })

guarded-none :
    (e : Around) (workspace account : ℕ) (t : Store)
    → any (holds_token account e.lease_token) (guarded e workspace account t).1.leases ≡ false
unfolding guarded release
guarded-none e workspace account t = released_none account e.lease_token _

with_lease-none :
    (e : Around) (workspace account : ℕ) (lease : ClaimedLease) (t : Store)
    → e.run_is_created ≡ true
    → any
        (holds_token account e.lease_token)
        (with_lease e workspace account (some lease) t).1.leases
      ≡ false
unfolding with_lease
with_lease-none e workspace account lease t created =
    rw created (guarded-none e workspace account t)

-- A cycle that claimed its account's lease and created its run gives the lease back, whether it ends
-- well or by an exception of the planning: if the others leave the leases alone meanwhile, then after
-- it any operator can claim the account, at any time, at once.
pub run_planning_cycle-claim :
    (e : Around) (workspace account : ℕ) (s : Store) (got : ClaimedLease)
    (now other cycle workspace' : ℕ)
    → ((m : Moment) (t : Store) → (e.meanwhile m t).leases ≡ t.leases)
    → e.run_is_created ≡ true
    → (claim_account_lease (e.clock at_start) e.lease_token e.cycle_id workspace account s.leases).0
      ≡ some got
    → (claim_account_lease now other cycle workspace' account
        (run_planning_cycle e workspace account s).1.leases).0
      ≡ some (record { lease_token = other; cycle_id = cycle })
unfolding run_planning_cycle
run_planning_cycle-claim e workspace account s got now other cycle workspace' others created claim =
    after_lease
      (claim_account_lease (e.clock at_start) e.lease_token e.cycle_id workspace account s.leases).0
      (record s {
        leases =
            (claim_account_lease (e.clock at_start) e.lease_token e.cycle_id workspace account
              s.leases).1;
      })
      claim
      (claimed-Ours (e.clock at_start) e.lease_token e.cycle_id workspace account s.leases got
        claim)
  where
    after_lease :
        (lease : Option ClaimedLease) (t : Store)
        → lease ≡ some got
        → Ours account e.lease_token t.leases
        → (claim_account_lease now other cycle workspace' account
            (with_lease e workspace account lease t).1.leases).0
          ≡ some (record { lease_token = other; cycle_id = cycle })
    after_lease none t h o = absurd (let no_lease : ⊥ = ground arith in no_lease)
    after_lease (some lease) t h o =
        released-free account e.lease_token now other cycle workspace' _
          (with_lease-Ours e workspace account others (some lease) t o)
          (with_lease-none e workspace account lease t created)

with_lease-unmade :
    (e : Around) (workspace account : ℕ) (lease : Option ClaimedLease) (t : Store)
    → e.run_is_created ≡ false
    → (with_lease e workspace account lease t).1 ≡ t
unfolding with_lease
with_lease-unmade e workspace account none t h = refl
with_lease-unmade e workspace account (some lease) t h = rw h refl

-- A cycle that claimed its account's lease and whose run could not be created leaves the lease taken:
-- for ten minutes from the claim no operator can claim the account, and an attempt changes no lease.
pub run_planning_cycle-stuck :
    (e : Around) (workspace account : ℕ) (s : Store) (got : ClaimedLease)
    (now other cycle workspace' : ℕ)
    → e.run_is_created ≡ false
    → (claim_account_lease (e.clock at_start) e.lease_token e.cycle_id workspace account s.leases).0
      ≡ some got
    → now ≤ e.clock at_start + operator_lease_ms
    → claim_account_lease now other cycle workspace' account
        (run_planning_cycle e workspace account s).1.leases
      ≡ (none, (run_planning_cycle e workspace account s).1.leases)
unfolding run_planning_cycle calls
run_planning_cycle-stuck e workspace account s got now other cycle workspace' h claim soon =
    let c =
      claim_account_lease (e.clock at_start) e.lease_token e.cycle_id workspace account s.leases in
    rw (with_lease-unmade e workspace account c.0 (record s { leases = c.1 }) h) (
      (claim_excludes (e.clock at_start) e.lease_token e.cycle_id workspace account s.leases got []
          claim tt).1
        now other cycle workspace' soon)
