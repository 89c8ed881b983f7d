-- ===== src/Publishing/Tests.antt =====
-- Two runs over a post that is due: the worker of the first dies at its request to publish, and the
-- second finds the post in the feed.
use thread_pilot.Common.{
  ◌≤◌, ◌<◌, ◌≡◌, ◌↔◌, refl, true, false, none, some, List, [], ◌∷◌, ◌==◌, if◌then◌else◌, All,
}
use thread_pilot.Publishing.Post.{ScheduledPost, scheduled, is_set, holds_lease}
use thread_pilot.Publishing.Effect.{
  Exn, threads_api_error, Env, State, Tables, FeedItem, kills, ContainerStatus, run, try_catch, ask,
  request, gets, pure, ◌>>=◌, ◌>>◌, case_option, value,
}
use thread_pilot.Publishing.Sending.{Remembers}
use thread_pilot.Publishing.Text.{canonical_outbound_text, trim, trim_start, is_space}
use thread_pilot.Publishing.Recovery.{
  Candidate, recover_from_feed, feed_pages, feed_page, candidates, candidate?, is_near, more_pages,
  choose,
}
use thread_pilot.Publishing.Adoption.{Shown, recover_from_feed-Shown}
use thread_pilot.Publishing.Classify.{permanent, classify_publish_error}
use thread_pilot.Publishing.Kinds.{GivenUp, permanent_iff}
use thread_pilot.Publishing.Steps.{Claim}
use thread_pilot.Publishing.Publish.{recover_or_quarantine}
use thread_pilot.Publishing.Commit.{handle_error}
use thread_pilot.Publishing.Process.{rest, at_publication}
use thread_pilot.Publishing.Polling.{ready}
use thread_pilot.Publishing.Completes.{ran_out}
use thread_pilot.Publishing.Deadline.{recovery_ends}
use thread_pilot.Publishing.Fenced.{NeverReturned, holds_lease-later, lost_lease_is_inert}
use thread_pilot.Publishing.Once.{Attempt, after_runs, after_runs_publish_once}

abbrev due : ScheduledPost
due = record {
  id = 1;
  workspace_id = 2;
  social_account_id = 3;
  draft_id = 4;
  content_version_id = 5;
  body = 65 ∷ 66 ∷ [];
  content_hash = 65 ∷ 66 ∷ [];
  scheduled_at = 1000;
  status = scheduled;
  claimed_by = none;
  claimed_at = none;
  lease_until = none;
  attempt_id = none;
  attempt_count = 0;
  last_attempt_at = none;
  last_quota_checked_at = none;
  container_id = none;
  container_create_attempts = 0;
  publish_requested_at = none;
  publish_attempt_id = none;
  ambiguity_detected_at = none;
  published_at = none;
  published_observed_at = none;
  next_retry_at = none;
  last_error_code = none;
  updated_at = 0;
}

abbrev no_tables : Tables
no_tables = record {
  published_posts = [];
  thread_posts = [];
  observed_from = [];
  archived_drafts = [];
  accepted_exposures = [];
  linked_exposures = [];
  assignments = [];
  linked_assignments = [];
  outbox = [];
  audit_log = [];
  notifications = [];
}

abbrev start : State
start = record {
  row = due;
  tables = no_tables;
  now = 2000;
  step = 0;
  vars = record { post = due; has_publish_ambiguity = false; ambiguity_reference_time = none };
  publish_calls = 0;
  writes = 0;
}

-- What the feed shows of the post that the lost request created.
abbrev the_item : FeedItem
the_item = record { id = 700; text = 65 ∷ 66 ∷ []; is_text_post = true; timestamp = some 3100 }

-- Nobody interferes; the worker dies at step 11, its request to publish, and the time before step
-- 12 lets its lease run out.
abbrev env : Env
env = record {
  elapse = λ n. if n == 12 then 100000 else 100;
  meddle = λ n p. p;
  fault = λ n. if n == 11 then some kills else none;
  access_token = λ n. 7;
  publishing_limit = λ n. record { usage = 1; total = 250 };
  created_container = λ n. 70;
  container_status = λ n. ContainerStatus.finished;
  published_id = λ n. 700;
  user_posts = λ n. record { items = the_item ∷ []; next_cursor = none };
  post_timestamp = λ n. some (some 5000);
  fresh_id = λ n. n;
  sha256 = λ t. t;
  has_observation_scheduler = true;
}

abbrev two_runs : List Attempt
two_runs =
    record { env = env; worker = 1; attempt_id = 10 }
    ∷ record { env = env; worker = 2; attempt_id = 11 }
    ∷ []

two_runs-Remembers : All (λ r. Remembers r.env) two_runs
two_runs-Remembers = (λ n p h. h, (λ n p h. h, tt))

after_runs_publish_once_example :
    ((after_runs two_runs start).publish_calls ≤ 1)
    × (0 < (after_runs two_runs start).publish_calls
        → is_set (after_runs two_runs start).row.publish_requested_at ≡ true)
after_runs_publish_once_example = after_runs_publish_once two_runs start refl two_runs-Remembers

env-NeverReturned : NeverReturned env 10
env-NeverReturned n now later p = holds_lease-later 10 now later p

nothing_held : holds_lease 10 start.now start.row ≡ false
unfolding holds_lease
nothing_held = refl

-- The claim from which the run went on.
abbrev a_claim : Claim
a_claim = record { previous_status = scheduled; attempt_count = 0 }

-- The lease is lost just before the publication.
lost_lease_is_inert_example :
    let r =
      run (try_catch (rest env 1 10 a_claim (at_publication ready)) (handle_error env 10)) start in
    (r.1.writes ≡ start.writes) × (r.1.publish_calls ≡ start.publish_calls)
lost_lease_is_inert_example =
    lost_lease_is_inert env 1 10 a_claim (at_publication ready) start env-NeverReturned nothing_held

recovery_ends_example : ran_out (run (recover_or_quarantine env 10 3000) start).0 ≡ false
recovery_ends_example = recovery_ends env 10 3000 start

abbrev after_search : State
after_search = (run (recover_from_feed env due.content_hash 3000 48000) start).1

abbrev the_candidate : Candidate
the_candidate = record { id = 700; timestamp = 3100 }

search_finds :
    run (recover_from_feed env due.content_hash 3000 48000) start
    ≡ (value (some the_candidate), after_search)
unfolding recover_from_feed feed_pages feed_page ask request gets pure ◌>>=◌ ◌>>◌ try_catch
    case_option candidates candidate? is_near canonical_outbound_text trim trim_start is_space
    more_pages choose
search_finds = refl

recover_from_feed-Shown_example : Shown env due.content_hash 3000 the_candidate
recover_from_feed-Shown_example =
    recover_from_feed-Shown env due.content_hash 3000 48000 start after_search the_candidate
      search_finds

-- An answer 400 that the platform gives.
abbrev rejected : Exn
rejected = threads_api_error 400 "text too long" "Bad request"

permanent_iff_example : ((classify_publish_error rejected).kind ≡ permanent) ↔ GivenUp rejected
permanent_iff_example = permanent_iff rejected
