-- ===== src/Operator/Exclusion.antt =====
-- While an operator's lease has time left, no other operator gets one, whatever the others do.
use thread_pilot.Common.{
  ℕ, ◌+◌, ◌≤◌, ◌<◌, ◌≡◌, ◌≢◌, refl, ap, ◌∙◌, Bool, true, false, Option, none, some, List, [], ◌∷◌,
  ◌&&◌, arith, All, if◌then◌else◌, find_first, update_all, find_first-update_all, found_passes,
  find_first-any,
}
use mathlib.Core.Option
use thread_pilot.Publishing.Post.{after}
use thread_pilot.Operator.Record.{OperatorLease}
use thread_pilot.Operator.Lease.{
  operator_lease_ms, is_lease_of, is_free, take, ClaimedLease, new_lease, take_if, claim_row,
  claim_account_lease, holds_token, extend, heartbeat_account_lease, clear, release_account_lease,
  lease_active,
}

-- What operators do to the leases, in the order of the database.
pub data LeaseCall : Type 0 where
  claims : (now token cycle workspace account : ℕ) → LeaseCall
  beats : (now account token : ℕ) → LeaseCall
  releases : (account token : ℕ) → LeaseCall

unfoldable pub call : LeaseCall → List OperatorLease → List OperatorLease
unfolding claim_account_lease heartbeat_account_lease release_account_lease
call (claims now token cycle workspace account) leases =
    (claim_account_lease now token cycle workspace account leases).1
call (beats now account token) leases = (heartbeat_account_lease now account token leases).1
call (releases account token) leases = release_account_lease account token leases

unfoldable pub calls : List LeaseCall → List OperatorLease → List OperatorLease
unfolding call
calls [] leases = leases
calls (c ∷ cs) leases = calls cs (call c leases)

-- A call within ten minutes of `since` that neither claims nor releases with `token`: a random token
-- is not drawn twice, and its owner releases last.
abbrev pub Foreign : ℕ → ℕ → LeaseCall → Type 0
Foreign since token (claims now other cycle workspace account) =
    (now ≤ since + operator_lease_ms) × (other ≢ token)
Foreign since token (beats now account other) = since ≤ now
Foreign since token (releases account other) = other ≢ token

-- The row has the token and is not due before the deadline.
record Live (deadline token : ℕ) (l : OperatorLease) : Type 0 where
  until : ℕ
  its_token : l.lease_token ≡ some token
  its_until : l.lease_until ≡ some until
  enough : deadline ≤ until

record Held (deadline account token : ℕ) (leases : List OperatorLease) : Type 0 where
  row : OperatorLease
  found : find_first (is_lease_of account) leases ≡ some row
  live : Live deadline token row

-- An update keeps the lease held if it keeps the row live wherever it changes it.
updated_Held :
    (deadline account token : ℕ) (q : OperatorLease → Bool) (f : OperatorLease → OperatorLease)
    (leases : List OperatorLease)
    → ((l : OperatorLease) → is_lease_of account (f l) ≡ is_lease_of account l)
    → ((l : OperatorLease)
        → is_lease_of account l ≡ true
        → Live deadline token l
        → q l ≡ true
        → Live deadline token (f l))
    → Held deadline account token leases
    → Held deadline account token (update_all q f leases)
updated_Held deadline account token q f leases keeps stays h = record {
  row = if q h.row then f h.row else h.row;
  found =
      find_first-update_all (is_lease_of account) q f leases keeps
      ∙ ap (Option.map (λ x. if q x then f x else x)) h.found;
  live = on_row (q h.row) refl;
}
  where
    on_row : (b : Bool) → q h.row ≡ b → Live deadline token (if b then f h.row else h.row)
    on_row true e = stays h.row (found_passes (is_lease_of account) leases h.row h.found) h.live e
    on_row false e = h.live

is_free-Live :
    (deadline token now : ℕ) (l : OperatorLease)
    → now ≤ deadline
    → Live deadline token l
    → is_free now l ≡ false
is_free-Live deadline token now l le h = let u = h.its_until in let d = h.enough in ground arith

holds_token-Live :
    (deadline token account other : ℕ) (l : OperatorLease)
    → other ≢ token
    → Live deadline token l
    → holds_token account other l ≡ false
holds_token-Live deadline token account other l ne h = let t = h.its_token in ground arith

-- A claim finds no row of its account, or a row that is free; neither is the one that is held.
new_row-Held :
    (deadline account token now other cycle workspace target : ℕ) (leases : List OperatorLease)
    → find_first (is_lease_of target) leases ≡ none
    → Held deadline account token leases
    → Held deadline account token (new_lease now other cycle workspace target ∷ leases)
new_row-Held deadline account token now other cycle workspace target leases e h = record {
  row = h.row;
  found = let found = h.found in ground arith;
  live = h.live;
}

claim_row-Held :
    (deadline account token now other cycle workspace target : ℕ) (leases : List OperatorLease)
    (o : Option OperatorLease)
    → now ≤ deadline
    → find_first (is_lease_of target) leases ≡ o
    → Held deadline account token leases
    → Held deadline account token (claim_row now other cycle workspace target leases o).1
unfolding claim_row
claim_row-Held deadline account token now other cycle workspace target leases none le e h =
    new_row-Held deadline account token now other cycle workspace target leases e h
claim_row-Held deadline account token now other cycle workspace target leases (some l) le e h =
    on_test (is_free now l) refl
  where
    not_ours :
        (x : OperatorLease)
        → is_free now l ≡ true
        → is_lease_of account x ≡ true
        → is_lease_of target x ≡ true
        → ⊥
    not_ours x free ours theirs =
        let found = h.found in
        let same : target ≡ account = ground arith in
        let l_is_row : l ≡ h.row = cc in
        let busy = is_free-Live deadline token now h.row le h.live in cc

    on_test :
        (b : Bool)
        → is_free now l ≡ b
        → Held deadline account token (take_if b now other cycle target leases).1
    on_test true free =
        updated_Held deadline account token (is_lease_of target) (take now other cycle) leases
          (λ x. refl) (λ x ours live theirs. absurd (not_ours x free ours theirs)) h
    on_test false busy = h

call-Held :
    (since account token : ℕ) (c : LeaseCall) (leases : List OperatorLease)
    → Foreign since token c
    → Held (since + operator_lease_ms) account token leases
    → Held (since + operator_lease_ms) account token (call c leases)
unfolding call claim_account_lease claim_row heartbeat_account_lease release_account_lease
call-Held since account token (claims now other cycle workspace target) leases foreign h =
    claim_row-Held (since + operator_lease_ms) account token now other cycle workspace target leases
      (find_first (is_lease_of target) leases) foreign.0 refl h
call-Held since account token (beats now target other) leases foreign h =
    updated_Held (since + operator_lease_ms) account token (holds_token target other) (extend now)
      leases (λ l. refl)
      (λ l ours live e. record {
        until = now + operator_lease_ms;
        its_token = live.its_token;
        its_until = refl;
        enough = omega arith;
      })
      h
call-Held since account token (releases target other) leases foreign h =
    updated_Held (since + operator_lease_ms) account token (holds_token target other) clear leases
      (λ l. refl)
      (λ l ours live e.
        let no_match =
          holds_token-Live (since + operator_lease_ms) token target other l foreign live in
        cc)
      h

calls-Held :
    (since account token : ℕ) (cs : List LeaseCall) (leases : List OperatorLease)
    → All (Foreign since token) cs
    → Held (since + operator_lease_ms) account token leases
    → Held (since + operator_lease_ms) account token (calls cs leases)
unfolding calls
calls-Held since account token [] leases foreign h = h
calls-Held since account token (c ∷ cs) leases (f, fs) h =
    calls-Held since account token cs (call c leases) fs
      (call-Held since account token c leases f h)

lease_active-Held :
    (deadline account token at : ℕ) (leases : List OperatorLease)
    → at < deadline
    → Held deadline account token leases
    → lease_active at account token leases ≡ true
unfolding lease_active
lease_active-Held deadline account token at leases lt h =
    find_first-any (is_lease_of account)
      (λ l. holds_token account token l && after l.lease_until at) leases h.row h.found
      (row_active (found_passes (is_lease_of account) leases h.row h.found) h.live)
  where
    row_active :
        is_lease_of account h.row ≡ true
        → Live deadline token h.row
        → (holds_token account token h.row && after h.row.lease_until at) ≡ true
    row_active ours live =
        let t = live.its_token in let u = live.its_until in let d = live.enough in ground arith

claim_account_lease-Held :
    (deadline account token at other cycle workspace : ℕ) (leases : List OperatorLease)
    → at ≤ deadline
    → Held deadline account token leases
    → claim_account_lease at other cycle workspace account leases ≡ (none, leases)
unfolding claim_account_lease claim_row
claim_account_lease-Held deadline account token at other cycle workspace leases le h =
    let found = h.found in
    let busy = is_free-Live deadline token at h.row le h.live in ground (arith, found, busy)

-- The row that a claim took over.
pub take_found :
    (now token cycle account : ℕ) (leases : List OperatorLease) (l : OperatorLease)
    → find_first (is_lease_of account) leases ≡ some l
    → find_first
        (is_lease_of account)
        (update_all (is_lease_of account) (take now token cycle) leases)
      ≡ some (take now token cycle l)
take_found now token cycle account leases l e =
    find_first-update_all (is_lease_of account) (is_lease_of account) (take now token cycle) leases
      (λ x. refl)
    ∙ ap (Option.map (λ x. if is_lease_of account x then take now token cycle x else x)) e
    ∙ ap (λ b. some (if b then take now token cycle l else l))
        (found_passes (is_lease_of account) leases l e)

claim_row-first :
    (now token cycle workspace account : ℕ) (leases : List OperatorLease) (o : Option OperatorLease)
    (got : ClaimedLease)
    → find_first (is_lease_of account) leases ≡ o
    → (claim_row now token cycle workspace account leases o).0 ≡ some got
    → Held
        (now + operator_lease_ms)
        account
        token
        (claim_row now token cycle workspace account leases o).1
unfolding claim_row
claim_row-first now token cycle workspace account leases none got e h = record {
  row = new_lease now token cycle workspace account;
  found = ground arith;
  live = record { until = _; its_token = refl; its_until = refl; enough = omega arith };
}
claim_row-first now token cycle workspace account leases (some l) got e h =
    on_test (is_free now l) h
  where
    on_test :
        (b : Bool)
        → (take_if b now token cycle account leases).0 ≡ some got
        → Held (now + operator_lease_ms) account token (take_if b now token cycle account leases).1
    on_test true h = record {
      row = take now token cycle l;
      found = take_found now token cycle account leases l e;
      live = record { until = _; its_token = refl; its_until = refl; enough = omega arith };
    }
    on_test false h = let no : ⊥ = ground arith in absurd no

-- A claim that succeeds excludes every other operator for ten minutes: whatever claims, heartbeats
-- and releases with other tokens, and heartbeats of its own, come within that time, its lease passes
-- the test of the scheduling transaction until the ten minutes are over, and any claim of the
-- account, with any token, is refused and changes nothing.
pub claim_excludes :
    (now token cycle workspace account : ℕ) (leases : List OperatorLease) (got : ClaimedLease)
    (cs : List LeaseCall)
    → (claim_account_lease now token cycle workspace account leases).0 ≡ some got
    → All (Foreign now token) cs
    → let left = calls cs (claim_account_lease now token cycle workspace account leases).1 in
      ((at : ℕ) → at < now + operator_lease_ms → lease_active at account token left ≡ true)
      × ((at other cycle' workspace' : ℕ)
          → at ≤ now + operator_lease_ms
          → claim_account_lease at other cycle' workspace' account left ≡ (none, left))
unfolding claim_account_lease
claim_excludes now token cycle workspace account leases got cs h foreign =
    let first =
      claim_row-first now token cycle workspace account leases
        (find_first (is_lease_of account) leases) got refl h in
    let last = calls-Held now account token cs _ foreign first in
    (
      λ at lt. lease_active-Held (now + operator_lease_ms) account token at _ lt last,
      λ at other cycle' workspace' le.
          claim_account_lease-Held (now + operator_lease_ms) account token at other cycle'
            workspace' _ le last,
    )
