-- ===== src/Operator/Lease.antt =====
-- claimAccountLease, heartbeatAccountLease and releaseAccountLease, and the test of the lease in the
-- scheduling transaction. The clock is the argument `now`.
use thread_pilot.Common.{
  ℕ, ◌+◌, Bool, true, false, ◌&&◌, ◌||◌, not, Option, none, some, List, ◌∷◌, ◌==◌, find_first,
  update_all, any,
}
use thread_pilot.Publishing.Post.{is_set, before, after}
use thread_pilot.Operator.Record.{OperatorLease}

-- INTERVAL '10 minutes'.
abbrev pub operator_lease_ms : ℕ
operator_lease_ms = 600000

abbrev pub is_lease_of : ℕ → OperatorLease → Bool
is_lease_of account l = l.social_account_id == account

abbrev pub has_token : ℕ → Option ℕ → Bool
has_token token none = false
has_token token (some t) = t == token

-- The `WHERE` of the conflict's update.
abbrev pub is_free : ℕ → OperatorLease → Bool
is_free now l = not (is_set l.lease_until) || before l.lease_until now

abbrev pub take : ℕ → ℕ → ℕ → OperatorLease → OperatorLease
take now token cycle l = record l {
  lease_token = some token;
  lease_until = some (now + operator_lease_ms);
  cycle_id = some cycle;
  heartbeat_at = some now;
}

-- What is returned when the lease was claimed: `{ leaseToken, cycleId }`.
pub record ClaimedLease : Type 0 where
  pub lease_token : ℕ
  pub cycle_id : ℕ

abbrev pub new_lease : ℕ → ℕ → ℕ → ℕ → ℕ → OperatorLease
new_lease now token cycle workspace account = record {
  social_account_id = account;
  workspace_id = workspace;
  lease_token = some token;
  lease_until = some (now + operator_lease_ms);
  cycle_id = some cycle;
  heartbeat_at = some now;
}

-- The update on a conflict, if its `WHERE` holds.
abbrev pub take_if :
    Bool → ℕ → ℕ → ℕ → ℕ → List OperatorLease → Option ClaimedLease × List OperatorLease
take_if true now token cycle account leases = (
  some (record { lease_token = token; cycle_id = cycle }),
  update_all (is_lease_of account) (take now token cycle) leases,
)
take_if false now token cycle account leases = (none, leases)

-- With the row of the account, if there is one.
unfoldable pub claim_row :
    ℕ
    → ℕ
    → ℕ
    → ℕ
    → ℕ
    → List OperatorLease
    → Option OperatorLease
    → Option ClaimedLease × List OperatorLease
claim_row now token cycle workspace account leases none = (
  some (record { lease_token = token; cycle_id = cycle }),
  new_lease now token cycle workspace account ∷ leases,
)
claim_row now token cycle workspace account leases (some l) =
    take_if (is_free now l) now token cycle account leases

unfoldable pub claim_account_lease :
    ℕ → ℕ → ℕ → ℕ → ℕ → List OperatorLease → Option ClaimedLease × List OperatorLease
unfolding claim_row
claim_account_lease now token cycle workspace account leases =
    claim_row now token cycle workspace account leases (find_first (is_lease_of account) leases)

abbrev pub holds_token : ℕ → ℕ → OperatorLease → Bool
holds_token account token l = is_lease_of account l && has_token token l.lease_token

abbrev pub extend : ℕ → OperatorLease → OperatorLease
extend now l = record l { lease_until = some (now + operator_lease_ms); heartbeat_at = some now }

-- With whether a row was updated.
unfoldable pub heartbeat_account_lease : ℕ → ℕ → ℕ → List OperatorLease → Bool × List OperatorLease
heartbeat_account_lease now account token leases = (
  any (holds_token account token) leases,
  update_all (holds_token account token) (extend now) leases,
)

abbrev pub clear : OperatorLease → OperatorLease
clear l = record l { lease_token = none; lease_until = none }

unfoldable pub release_account_lease : ℕ → ℕ → List OperatorLease → List OperatorLease
release_account_lease account token leases = update_all (holds_token account token) clear leases

-- The `SELECT` of step 5c.
unfoldable pub lease_active : ℕ → ℕ → ℕ → List OperatorLease → Bool
lease_active now account token leases =
    any (λ l. holds_token account token l && after l.lease_until now) leases
