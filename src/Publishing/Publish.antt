-- ===== src/Publishing/Publish.antt =====
-- Step 6 of `process`: the recovery of an ambiguous post, or the first request to publish.
use thread_pilot.Common.{
  ℕ, zero, suc, ◌+◌, ◌-◌, ◌*◌, Bool, true, false, ◌||◌, Option, none, some, if◌then◌else◌,
}
use thread_pilot.Publishing.Post.{
  publishing, recovery_required, ambiguous_publish_unconfirmed, is_set, or_time, settle,
  ambiguity_write, announce_write,
}
use thread_pilot.Publishing.Effect.{
  act, Done, done, Env, Vars, M, value, ◌>>=◌, ◌>>◌, pure, case_option, try_catch, gets, set_vars,
  ask, fenced_update, sleep,
}
use thread_pilot.Publishing.Recovery.{Candidate, recovery_loop, recovery_ms, recovery_fuel}
use thread_pilot.Publishing.Steps.{settle_and_return, fenced_or_throw}
use thread_pilot.Publishing.Polling.{Readiness, already_published, note_ambiguity}

-- `finalThreadsPostId` and `platformTimestamp`.
pub record Publication : Type 0 where
  pub threads_post_id : ℕ
  pub platform_timestamp : Option ℕ

abbrev pub adopt : Candidate → Publication
adopt c = record { threads_post_id = c.id; platform_timestamp = some c.timestamp }

abbrev pub is_already_published : Readiness → Bool
is_already_published already_published = true
is_already_published _ = false

abbrev pub dated : Publication → Option ℕ → Publication
dated p none = p
dated p (some t) = record p { platform_timestamp = some t }

-- `publishContainer`: the request is counted when it is sent.
unfoldable pub count_publish_call : M (Done)
count_publish_call = act (λ s. (value done, record s { publish_calls = suc s.publish_calls }))

unfoldable pub announced : ℕ → Vars → Vars
announced publish_requested_at v = record v {
  has_publish_ambiguity = true;
  post = record v.post { publish_requested_at = some publish_requested_at; status = publishing };
}

module _ (env : Env) where
  -- The answer to `publishContainer`.
  unfoldable pub await_id : M Publication
  await_id = do
    id ← ask env env.published_id
    pure (record { threads_post_id = id; platform_timestamp = none })

  unfoldable pub send_publish : M Publication
  send_publish = do count_publish_call; await_id

  -- `setTimeout(r, pRetry * 500)` after a failed look that is not the last.
  unfoldable pub enrich_pause : ℕ → M (Done)
  enrich_pause zero = pure done
  enrich_pause (suc k) = sleep env ((2 - k) * 500)

  -- At most three looks at the post for its timestamp; the argument counts those left.
  unfoldable pub enrich : ℕ → ℕ → M (Option ℕ)
  enrich zero threads_post_id = pure none
  enrich (suc left) threads_post_id = do
    answer ← try_catch (do t ← ask env env.post_timestamp; pure (some t)) (λ e. pure none)
    case_option answer (do enrich_pause left; enrich left threads_post_id)
        (λ timestamp.
          case_option timestamp (enrich left threads_post_id)
            (λ date. case_option date (enrich left threads_post_id) (λ t. pure (some t))))

  -- The publication with its timestamp on the platform.
  unfoldable pub timestamped : Publication → M Publication
  timestamped sent = do timestamp ← enrich 3 sent.threads_post_id; pure (dated sent timestamp)

module _ (env : Env) (attempt_id : ℕ) where
  -- The recovery with 45 seconds from now, and RECOVERY_REQUIRED where it finds nothing.
  unfoldable pub recover_or_quarantine : ℕ → M Publication
  recover_or_quarantine reference_time = do
    deadline ← gets (λ s. s.now + recovery_ms)
    hash ← gets (λ s. s.vars.post.content_hash)
    found ← recovery_loop env attempt_id hash reference_time deadline recovery_fuel
    case_option found
        (settle_and_return env attempt_id (settle recovery_required ambiguous_publish_unconfirmed))
        (λ c. pure (adopt c))

  -- The branch of a post that may have been published before.
  unfoldable pub recover_earlier : M Publication
  recover_earlier = do
    reference_time ← gets (λ s. or_time s.vars.ambiguity_reference_time s.now)
    recover_or_quarantine reference_time

  -- `UPDATE … SET ambiguity_detected_at …` with `.catch(() => {})`.
  unfoldable pub try_mark_ambiguous : ℕ → M (Done)
  try_mark_ambiguous t =
      try_catch (do _ ← fenced_update env attempt_id (ambiguity_write t); pure done)
        (λ e. pure done)

  -- The `catch` around `publishContainer`.
  unfoldable pub publish_failed : ℕ → M Publication
  publish_failed publish_requested_at = do
    t ← note_ambiguity
    try_mark_ambiguous t
    recover_or_quarantine publish_requested_at

  -- The request is written to the row before it is sent.
  unfoldable pub announce : ℕ → ℕ → M (Done)
  announce publish_requested_at publish_attempt_id = do
    fenced_or_throw env attempt_id (announce_write publish_requested_at publish_attempt_id)
    set_vars (announced publish_requested_at)

  -- The request, its `catch`, and the timestamp.
  unfoldable pub send_and_date : ℕ → M Publication
  send_and_date publish_requested_at = do
    sent ← try_catch (send_publish env) (λ e. publish_failed publish_requested_at)
    timestamped env sent

  unfoldable pub first_publish : M Publication
  first_publish = do
    publish_requested_at ← gets (λ s. s.now)
    publish_attempt_id ← gets (λ s. env.fresh_id s.step)
    announce publish_requested_at publish_attempt_id
    send_and_date publish_requested_at

  unfoldable pub publish_or_recover : Readiness → M Publication
  publish_or_recover r = do
    v ← gets (λ s. s.vars)
    if is_set v.post.publish_requested_at || is_already_published r || v.has_publish_ambiguity
        then recover_earlier
        else first_publish
