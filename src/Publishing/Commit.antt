-- ===== src/Publishing/Commit.antt =====
-- Step 7 of `process`: the transaction that records the publication, and the `catch` block.
use thread_pilot.Common.{
  ℕ, suc, ◌+◌, ◌*◌, Bool, not, ◌&&◌, ◌||◌, Option, none, some, List, [], ◌∷◌, leb, ◌==◌,
  if◌then◌else◌,
}
use thread_pilot.Publishing.Post.{
  failed_permanent, auth_required, recovery_required, ErrorCode, max_retries_exceeded,
  ambiguous_feed_match, ScheduledPost, is_ambiguous, max_execution_attempts, holds_lease, or_time,
  settle, retry_write, published_write,
}
use thread_pilot.Publishing.Effect.{
  act, run, Done, done, Env, State, M, Outcome, value, thrown, returned, killed, out_of_fuel, Exn,
  fencing_expired, ThreadPost, Tables, ◌>>=◌, ◌>>◌, pure, return, try_catch, gets, request,
  write_if, fenced_update, after_fault,
}
use thread_pilot.Publishing.Classify.{
  Kind, permanent, retryable, classify_publish_error, includes, message_of,
}
use thread_pilot.Publishing.Recovery.{demand}
use thread_pilot.Publishing.Steps.{backoff_seconds, settle_and_return}
use thread_pilot.Publishing.Publish.{Publication}

-- `threadPost.upsert` on the Threads post's id.
unfoldable pub upsert_thread_post : ThreadPost → List ThreadPost → List ThreadPost
upsert_thread_post p [] = p ∷ []
upsert_thread_post p (q ∷ qs) =
    if q.threads_post_id == p.threads_post_id then p ∷ qs else q ∷ upsert_thread_post p qs

-- The first row (id, draft) of that draft.
abbrev pub find_by_draft : ℕ → List (ℕ × ℕ) → Option ℕ
find_by_draft draft [] = none
find_by_draft draft ((i, d) ∷ rest) = if d == draft then some i else find_by_draft draft rest

-- The rows but the one with that id.
abbrev pub without_id : ℕ → List (ℕ × ℕ) → List (ℕ × ℕ)
without_id i [] = []
without_id i ((j, d) ∷ rest) = if j == i then rest else (j, d) ∷ without_id i rest

abbrev pub undo : ScheduledPost → Tables → State → State
undo p t s = record s { row = p; tables = t }

-- A transaction that does not end well leaves the row and the tables as they were.
abbrev pub rolled_back :
    {A : Type 0} → ScheduledPost → Tables → Outcome A × State → Outcome A × State
rolled_back p t (value a, s) = (value a, s)
rolled_back p t (thrown e, s) = (thrown e, undo p t s)
rolled_back p t (returned, s) = (returned, undo p t s)
rolled_back p t (killed, s) = (killed, undo p t s)
rolled_back p t (out_of_fuel, s) = (out_of_fuel, undo p t s)

unfoldable pub transaction : {A : Type 0} → M A → M A
transaction m = act (λ s. rolled_back s.row s.tables (run m s))

unfoldable pub edit_tables : (Tables → Tables) → M (Done)
edit_tables f = act (λ s. (value done, record s { tables = f s.tables }))

-- The draft's accepted exposure, if there is one, becomes PUBLISHED.
unfoldable pub link_exposure : ℕ → ℕ → Tables → Tables
link_exposure draft post t = elim (find_by_draft draft t.accepted_exposures) [
  | none ↦ t
  | some i ↦ record t {
    accepted_exposures = without_id i t.accepted_exposures;
    linked_exposures = (i, post) ∷ t.linked_exposures;
  }
]

unfoldable pub link_assignment : ℕ → ℕ → Tables → Tables
link_assignment draft post t = elim (find_by_draft draft t.assignments) [
  | none ↦ t
  | some i ↦ record t { linked_assignments = (i, post) ∷ t.linked_assignments }
]

module _ (env : Env) where
  -- A statement of the transaction: the row is locked, so no other worker writes it.
  unfoldable pub tx_request : M (Done)
  tx_request = act (λ s. (
    after_fault (env.fault s.step),
    record s { now = s.now + env.elapse s.step; step = suc s.step },
  ))

  unfoldable pub tx_edit : (Tables → Tables) → M (Done)
  tx_edit f = do tx_request; edit_tables f

  -- A statement whose failure is only logged.
  unfoldable pub tx_try_edit : (Tables → Tables) → M (Done)
  tx_try_edit f = try_catch (tx_edit f) (λ e. pure done)

  module _ (attempt_id : ℕ) where
    -- The fenced change of the row to PUBLISHED.
    unfoldable pub mark_published : Option ℕ → ℕ → M (Done)
    mark_published published_at observed_at = do
      now ← gets (λ s. s.now)
      held ← write_if (holds_lease attempt_id now) (published_write published_at observed_at now)
      demand held

    -- The rows that go with the publication.
    unfoldable pub record_publication : Publication → ℕ → M (Done)
    record_publication pub_ observed_at = do
      post ← gets (λ s. s.vars.post)
      id ← gets (λ s. env.fresh_id s.step)
      tx_edit (λ t. record t {
        published_posts =
            record {
              id = id;
              draft_id = post.draft_id;
              published_version_id = post.content_version_id;
              threads_post_id = pub_.threads_post_id;
              published_at = pub_.platform_timestamp;
              published_observed_at = observed_at;
            }
            ∷ t.published_posts;
      })
      tx_edit (λ t. record t {
        thread_posts =
            upsert_thread_post
              (record {
                threads_post_id = pub_.threads_post_id;
                text = post.body;
                posted_at = pub_.platform_timestamp;
                posted_observed_at = observed_at;
                published_post_id = id;
              })
              t.thread_posts;
      })
      if env.has_observation_scheduler
          then tx_edit (λ t. record t {
            observed_from = (id, or_time pub_.platform_timestamp observed_at) ∷ t.observed_from;
          })
          else pure done
      tx_edit (λ t. record t { archived_drafts = post.draft_id ∷ t.archived_drafts })
      tx_try_edit (link_exposure post.draft_id id)
      tx_try_edit (link_assignment post.draft_id id)
      tx_edit (λ t. record t { outbox = (post.id, pub_.threads_post_id) ∷ t.outbox })
      tx_edit (λ t. record t { audit_log = (post.id, pub_.threads_post_id) ∷ t.audit_log })
      tx_request

    -- The first request is that of the `UPDATE`, after which the row is locked.
    unfoldable pub commit : Publication → M (Done)
    commit pub_ = do
      observed_at ← gets (λ s. s.now)
      request env
      transaction (do
        mark_published pub_.platform_timestamp observed_at
        record_publication pub_ observed_at)

    -- `isAmbiguous` of the `catch` block.
    unfoldable pub ambiguous_now : M Bool
    ambiguous_now = gets (λ s. s.vars.has_publish_ambiguity || is_ambiguous s.vars.post)

    unfoldable pub notify_disconnected : M (Done)
    notify_disconnected = do
      account ← gets (λ s. s.vars.post.social_account_id)
      request env
      edit_tables (λ t. record t { notifications = account ∷ t.notifications })

    unfoldable pub handle_kind : Kind → ErrorCode → Bool → M (Done)
    handle_kind permanent code ambiguous =
        settle_and_return env attempt_id
          (settle (if ambiguous then recovery_required else failed_permanent) code)
    handle_kind Kind.auth_required code ambiguous = do
      updated ← fenced_update env attempt_id (settle auth_required code)
      if updated then notify_disconnected else return
    handle_kind retryable code ambiguous = do
      post ← gets (λ s. s.vars.post)
      retry_at ← gets (λ s. s.now + backoff_seconds s.vars.post.attempt_count * 1000)
      if leb max_execution_attempts post.attempt_count && not ambiguous
          then settle_and_return env attempt_id (settle failed_permanent max_retries_exceeded)
          else settle_and_return env attempt_id (retry_write code retry_at)

    -- The `catch` block of `process`.
    unfoldable pub handle_error : Exn → M (Done)
    handle_error fencing_expired = return
    handle_error e =
        if includes (message_of e) "AMBIGUOUS_FEED_MATCH"
        then settle_and_return env attempt_id (settle recovery_required ambiguous_feed_match)
        else do
          ambiguous ← ambiguous_now
          let c = classify_publish_error e
          handle_kind c.kind c.code ambiguous
