-- ===== src/Publishing/Polling.antt =====
-- Step 5 of `process`: at most five looks at the container's status.
use thread_pilot.Common.{
  ℕ, zero, suc, ◌+◌, ◌*◌, Bool, true, false, not, ◌&&◌, Option, none, some, leb, if◌then◌else◌,
}
use thread_pilot.Publishing.Post.{
  failed_permanent, container_error, container_expired, container_expired_max_retries,
  max_execution_attempts, or_time, settle, heartbeat_write, ambiguity_write, drop_container,
  retry_write,
}
use thread_pilot.Publishing.Effect.{
  Env, Vars, M, js_error, ContainerStatus, ◌>>=◌, ◌>>◌, pure, throw, case_option, try_catch, gets,
  set_vars, ask, fenced_update, sleep,
}
use thread_pilot.Publishing.Steps.{
  backoff_seconds, not_ready_error, settle_and_return, fenced_or_throw,
}

-- How the polling loop is left: `isReady`, `isAlreadyPublished`, or neither.
pub data Readiness : Type 0 where
  ready already_published unready : Readiness

-- Where no status settled it, an ambiguous post goes on to its recovery.
unfoldable pub unready_end : Bool → M Readiness
unready_end true = pure unready
unready_end false = throw (js_error not_ready_error)

-- `if (!isReady && !isAlreadyPublished)`.
unfoldable pub after_polling : Bool → Readiness → M Readiness
after_polling ambiguous ready = pure ready
after_polling ambiguous already_published = pure already_published
after_polling ambiguous unready = unready_end ambiguous

-- `a ?? b`.
abbrev or_else : Option ℕ → Option ℕ → Option ℕ
or_else none b = b
or_else (some a) b = some a

-- `let ambiguityReferenceTime = post.publishRequestedAt ?? post.ambiguityDetectedAt ?? null`.
unfoldable pub begin_polling : Vars → Vars
begin_polling v = record v {
  ambiguity_reference_time = or_else v.post.publish_requested_at v.post.ambiguity_detected_at;
}

-- `ambiguityReferenceTime = t`, and the flags that are set with it.
unfoldable pub ambiguous_since : ℕ → Vars → Vars
ambiguous_since t v = record {
  post = record v.post { ambiguity_detected_at = some t };
  has_publish_ambiguity = true;
  ambiguity_reference_time = some t;
}

-- `ambiguityReferenceTime ??= new Date()` and the flags that go with it.
unfoldable pub note_ambiguity : M ℕ
note_ambiguity = do
  t ← gets (λ s. or_time s.vars.ambiguity_reference_time s.now)
  set_vars (ambiguous_since t)
  pure t

module _ (env : Env) (attempt_id : ℕ) where
  unfoldable pub found_published : M Readiness
  found_published = do
    t ← note_ambiguity
    _ ← fenced_update env attempt_id (ambiguity_write t)
    pure already_published

  -- The container expired and nothing was published from it.
  unfoldable pub container_has_expired : M Readiness
  container_has_expired = do
    v ← gets (λ s. s.vars)
    retry_at ← gets (λ s. s.now + backoff_seconds s.vars.post.attempt_count * 1000)
    if not v.has_publish_ambiguity && leb max_execution_attempts v.post.attempt_count
        then settle_and_return env attempt_id
            (drop_container (settle failed_permanent container_expired_max_retries))
        else settle_and_return env attempt_id
            (drop_container (retry_write container_expired retry_at))

  -- What one status decides; `none` goes on polling.
  unfoldable pub decide : ContainerStatus → M (Option Readiness)
  decide ContainerStatus.published = do r ← found_published; pure (some r)
  decide ContainerStatus.finished = pure (some ready)
  decide ContainerStatus.errored = do
    ambiguous ← gets (λ s. s.vars.has_publish_ambiguity)
    if ambiguous
        then pure (some unready)
        else settle_and_return env attempt_id (settle failed_permanent container_error)
  decide ContainerStatus.expired = do
    ambiguous ← gets (λ s. s.vars.has_publish_ambiguity)
    if ambiguous then pure (some unready) else do r ← container_has_expired; pure (some r)
  decide ContainerStatus.in_progress = pure none

  -- The query; a failure ends the polling of an ambiguous post and is an error otherwise.
  unfoldable pub query_status : M (Option ContainerStatus)
  query_status =
      try_catch (do status ← ask env env.container_status; pure (some status))
        (λ e. do
          ambiguous ← gets (λ s. s.vars.has_publish_ambiguity)
          if ambiguous then pure none else throw e)

  unfoldable pub poll : ℕ → M Readiness
  poll zero = pure unready
  poll (suc rounds) = do
    fenced_or_throw env attempt_id heartbeat_write
    status? ← query_status
    case_option status? (pure unready) (λ status. do
      verdict ← decide status
      case_option verdict (do sleep env 3000; poll rounds) pure)

  unfoldable pub await_container : M Readiness
  await_container = do
    set_vars begin_polling
    r ← poll 5
    ambiguous ← gets (λ s. s.vars.has_publish_ambiguity)
    after_polling ambiguous r
