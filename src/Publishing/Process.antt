-- ===== src/Publishing/Process.antt =====
-- PublishingProcessor.process: the steps put together.
use thread_pilot.Common.{ℕ, ◌≡◌, refl}
use thread_pilot.Publishing.Effect.{Done, Env, M, ◌>>=◌, ◌>>◌, try_catch}
use thread_pilot.Publishing.Steps.{
  Claim, claim, read_post, lateness_guard, quota_gate, begin_attempt, ensure_container,
}
use thread_pilot.Publishing.Polling.{Readiness, await_container}
use thread_pilot.Publishing.Publish.{Publication, publish_or_recover}
use thread_pilot.Publishing.Commit.{commit, handle_error}

-- The steps of the `try` block, by what a step is given of the ones before it.
pub data Step : Type 0 where
  at_lateness at_quota at_attempt at_container at_polling : Step
  at_publication : Readiness → Step
  at_commit : Publication → Step

module _ (env : Env) (worker attempt_id : ℕ) where
  -- The `try` block.
  unfoldable pub execute : Claim → M (Done)
  execute c = do
    lateness_guard env attempt_id c
    _ ← quota_gate env attempt_id
    begin_attempt env attempt_id
    _ ← ensure_container env attempt_id
    readiness ← await_container env attempt_id
    publication ← publish_or_recover env attempt_id readiness
    commit env attempt_id publication

  -- The `try` block from a step on.
  abbrev pub from_commit : Publication → M (Done)
  from_commit publication = commit env attempt_id publication

  abbrev pub from_publication : Readiness → M (Done)
  from_publication readiness = do
    publication ← publish_or_recover env attempt_id readiness
    from_commit publication

  abbrev pub from_polling : M (Done)
  from_polling = do readiness ← await_container env attempt_id; from_publication readiness

  abbrev pub from_container : M (Done)
  from_container = do _ ← ensure_container env attempt_id; from_polling

  abbrev pub from_attempt : M (Done)
  from_attempt = do begin_attempt env attempt_id; from_container

  abbrev pub from_quota : M (Done)
  from_quota = do _ ← quota_gate env attempt_id; from_attempt

  unfoldable pub rest : Claim → Step → M (Done)
  rest c at_lateness = do lateness_guard env attempt_id c; from_quota
  rest c at_quota = from_quota
  rest c at_attempt = from_attempt
  rest c at_container = from_container
  rest c at_polling = from_polling
  rest c (at_publication readiness) = from_publication readiness
  rest c (at_commit publication) = from_commit publication

  -- The steps are those of the `try` block.
  rest_lem : (c : Claim) → rest c at_lateness ≡ execute c
  unfolding rest execute
  rest_lem c = refl

  unfoldable pub process : M (Done)
  process = do
    c ← claim env worker attempt_id
    read_post env
    try_catch (execute c) (handle_error env attempt_id)
