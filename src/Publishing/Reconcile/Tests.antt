-- ===== src/Publishing/Reconcile/Tests.antt =====
-- A post that waits for a retry, and one whose worker is gone, through the scans.
use thread_pilot.Common.{List, [], ◌∷◌, ◌*◌, ◌≡◌, refl, true, false, none, some, arith}
use thread_pilot.Publishing.Post.{ScheduledPost, failed_retryable, creating_container, is_ambiguous}
use thread_pilot.Publishing.Steps.{claimable}
use thread_pilot.Publishing.Reconcile.{is_retry_due, is_stale_lease, is_hopeless}
use thread_pilot.Publishing.Reconcile.Pages.{Row, first_rows, scan_pages}
use thread_pilot.Publishing.Reconcile.Pages.Visits.{scan_pages-first_rows}
use thread_pilot.Publishing.Reconcile.Recovers.{retry_due-claimable, stale_lease-claimable}

abbrev retrying : ScheduledPost
retrying = record {
  id = 1;
  workspace_id = 1;
  social_account_id = 2;
  draft_id = 3;
  content_version_id = 4;
  body = [];
  content_hash = [];
  scheduled_at = 100;
  status = failed_retryable;
  claimed_by = none;
  claimed_at = none;
  lease_until = none;
  attempt_id = none;
  attempt_count = 2;
  last_attempt_at = none;
  last_quota_checked_at = none;
  container_id = none;
  container_create_attempts = 0;
  publish_requested_at = none;
  publish_attempt_id = none;
  ambiguity_detected_at = none;
  published_at = none;
  published_observed_at = none;
  next_retry_at = some 500;
  last_error_code = none;
  updated_at = 100;
}

abbrev abandoned : ScheduledPost
abandoned = record retrying { status = creating_container; lease_until = some 700 }

retry_is_due : is_retry_due 600 retrying ≡ true
unfolding is_retry_due
retry_is_due = refl

retry_due-claimable_example : claimable 650 retrying ≡ true
retry_due-claimable_example = retry_due-claimable 600 650 retrying retry_is_due (omega arith)

lease_is_stale : is_stale_lease 700 abandoned ≡ true
unfolding is_stale_lease
lease_is_stale = refl

has_hope : is_hopeless abandoned ≡ false
unfolding is_hopeless is_ambiguous
has_hope = refl

stale_lease-claimable_example : claimable 701 abandoned ≡ true
stale_lease-claimable_example =
    stale_lease-claimable 700 701 abandoned lease_is_stale has_hope (λ e. cc) (omega arith)

abbrev three_rows : List Row
three_rows =
    record { time = 10000; id = 1 }
    ∷ record { time = 10000; id = 2 }
    ∷ record { time = 20000; id = 1 }
    ∷ []

scan_pages-first_rows_example :
    scan_pages 3 2 (2 * 2) 0 none three_rows ≡ first_rows (2 * 2) three_rows
scan_pages-first_rows_example =
    scan_pages-first_rows 1 2 three_rows ((refl, (refl, tt)), ((refl, tt), (tt, tt)))
      (refl, (refl, (refl, tt)))
