-- ===== src/Publishing/Frame.antt =====
-- What an invariant must withstand to hold through a run, and each step of `process` from it.
use thread_pilot.Common.{ℕ, zero, ◌-◌, ◌*◌, suc, Bool, true, false, some, List, [], ◌∷◌}
use thread_pilot.Publishing.Post.{
  Status, ErrorCode, ScheduledPost, settle, quota_write, attempt_write, creating_write,
  created_write, heartbeat_write, ambiguity_write, drop_container, retry_write,
}
use thread_pilot.Publishing.Effect.{
  ◌>>=◌, ◌>>◌, Env, ask, State, Tables, ContainerStatus, Exn, fencing_expired, gets, set_vars,
  request, fenced_update, sleep,
}
use thread_pilot.Publishing.Classify.{Kind}
use thread_pilot.Publishing.Recovery.{
  Candidate, demand, choose, feed_page, feed_pages, recover_from_feed, status_probe, pause, beat,
  recovery_loop,
}
use thread_pilot.Publishing.Steps.{
  Claim, count_attempt, settle_and_return, fenced_or_throw, lateness_guard, quota_gate,
  begin_attempt, create_container, ensure_container,
}
use thread_pilot.Publishing.Polling.{
  Readiness, ready, already_published, unready, unready_end, after_polling, begin_polling,
  ambiguous_since, note_ambiguity, found_published, container_has_expired, decide, query_status,
  poll, await_container,
}
use thread_pilot.Publishing.Publish.{
  enrich_pause, enrich, recover_or_quarantine, recover_earlier, try_mark_ambiguous, publish_failed,
}
use thread_pilot.Publishing.Commit.{
  edit_tables, ambiguous_now, notify_disconnected, handle_kind, handle_error,
}
use thread_pilot.Publishing.Keeps.{
  Keeps, keeps_rules, Keeps-ask, Keeps-bind, Keeps-then, Keeps-case, Keeps-if, Keeps-gets,
  Keeps-pure,
}

-- `P` holds after everything that a run does but the request to publish and the commit.
pub record Frame (env : Env) (attempt_id : ℕ) (P : State → Type 0) : Type 0 where
  pub on_request : Keeps P (request env)
  pub on_sleep : (ms : ℕ) → Keeps P (sleep env ms)
  pub on_ambiguous_since : (t : ℕ) → Keeps P (set_vars (ambiguous_since t))
  pub on_begin_polling : Keeps P (set_vars begin_polling)
  pub on_count_attempt : Keeps P (set_vars count_attempt)
  pub on_tables : (f : Tables → Tables) → Keeps P (edit_tables f)
  pub on_settle :
      (st : Status) (code : ErrorCode) → Keeps P (fenced_update env attempt_id (settle st code))
  pub on_quota : (t : ℕ) → Keeps P (fenced_update env attempt_id (quota_write t))
  pub on_attempt : Keeps P (fenced_update env attempt_id attempt_write)
  pub on_creating : Keeps P (fenced_update env attempt_id creating_write)
  pub on_created : (c : ℕ) → Keeps P (fenced_update env attempt_id (created_write c))
  pub on_heartbeat : Keeps P (fenced_update env attempt_id heartbeat_write)
  pub on_ambiguity : (t : ℕ) → Keeps P (fenced_update env attempt_id (ambiguity_write t))
  pub on_retry :
      (code : ErrorCode) (t : ℕ) → Keeps P (fenced_update env attempt_id (retry_write code t))
  pub on_drop :
      (st : Status) (code : ErrorCode)
      → Keeps P (fenced_update env attempt_id (drop_container (settle st code)))
  pub on_drop_retry :
      (code : ErrorCode) (t : ℕ)
      → Keeps P (fenced_update env attempt_id (drop_container (retry_write code t)))

module _ {P : State → Type 0} where
  pub Keeps-demand : (b : Bool) → Keeps P (demand b)
  unfolding demand
  Keeps-demand true = search keeps_rules
  Keeps-demand false = search keeps_rules

  pub Keeps-choose : (cs : List Candidate) → Keeps P (choose cs)
  unfolding choose
  Keeps-choose [] = search keeps_rules
  Keeps-choose (c ∷ []) = search keeps_rules
  Keeps-choose (c ∷ d ∷ cs) = search keeps_rules

module _ {P : State → Type 0} where
  pub Keeps-unready_end : (b : Bool) → Keeps P (unready_end b)
  unfolding unready_end
  Keeps-unready_end true = search keeps_rules
  Keeps-unready_end false = search keeps_rules

  pub Keeps-after_polling : (b : Bool) (r : Readiness) → Keeps P (after_polling b r)
  unfolding after_polling
  Keeps-after_polling b ready = search keeps_rules
  Keeps-after_polling b already_published = search keeps_rules
  Keeps-after_polling b unready = search (keeps_rules, Keeps-unready_end)

-- A write on whose effect the run goes on.
pub Keeps-fenced_or_throw :
    {P : State → Type 0} (env : Env) (attempt_id : ℕ) (f : ℕ → ScheduledPost → ScheduledPost)
    → Keeps P (fenced_update env attempt_id f)
    → Keeps P (fenced_or_throw env attempt_id f)
unfolding fenced_or_throw
Keeps-fenced_or_throw env attempt_id f k = Keeps-bind _ _ k Keeps-demand

module _ {env : Env} {attempt_id : ℕ} {P : State → Type 0} (F : Frame env attempt_id P) where
  pub Frame-ask : {A : Type 0} (answer : ℕ → A) → Keeps P (ask env answer)
  Frame-ask answer = Keeps-ask env answer F.on_request

  keep_request : Keeps P (request env)
  keep_request = F.on_request

  keep_sleep : (ms : ℕ) → Keeps P (sleep env ms)
  keep_sleep ms = F.on_sleep ms

  keep_ambiguous_since : (t : ℕ) → Keeps P (set_vars (ambiguous_since t))
  keep_ambiguous_since t = F.on_ambiguous_since t

  keep_begin_polling : Keeps P (set_vars begin_polling)
  keep_begin_polling = F.on_begin_polling

  keep_count_attempt : Keeps P (set_vars count_attempt)
  keep_count_attempt = F.on_count_attempt

  keep_tables : (f : Tables → Tables) → Keeps P (edit_tables f)
  keep_tables f = F.on_tables f

  keep_settle :
      (st : Status) (code : ErrorCode) → Keeps P (fenced_update env attempt_id (settle st code))
  keep_settle st code = F.on_settle st code

  keep_quota : (t : ℕ) → Keeps P (fenced_update env attempt_id (quota_write t))
  keep_quota t = F.on_quota t

  keep_attempt : Keeps P (fenced_update env attempt_id attempt_write)
  keep_attempt = F.on_attempt

  keep_creating : Keeps P (fenced_update env attempt_id creating_write)
  keep_creating = F.on_creating

  keep_created : (c : ℕ) → Keeps P (fenced_update env attempt_id (created_write c))
  keep_created c = F.on_created c

  keep_heartbeat : Keeps P (fenced_update env attempt_id heartbeat_write)
  keep_heartbeat = F.on_heartbeat

  keep_ambiguity : (t : ℕ) → Keeps P (fenced_update env attempt_id (ambiguity_write t))
  keep_ambiguity t = F.on_ambiguity t

  keep_retry :
      (code : ErrorCode) (t : ℕ) → Keeps P (fenced_update env attempt_id (retry_write code t))
  keep_retry code t = F.on_retry code t

  keep_drop :
      (st : Status) (code : ErrorCode)
      → Keeps P (fenced_update env attempt_id (drop_container (settle st code)))
  keep_drop st code = F.on_drop st code

  keep_drop_retry :
      (code : ErrorCode) (t : ℕ)
      → Keeps P (fenced_update env attempt_id (drop_container (retry_write code t)))
  keep_drop_retry code t = F.on_drop_retry code t

  demand_attempt : Keeps P (fenced_or_throw env attempt_id attempt_write)
  demand_attempt = Keeps-fenced_or_throw env attempt_id _ F.on_attempt

  demand_creating : Keeps P (fenced_or_throw env attempt_id creating_write)
  demand_creating = Keeps-fenced_or_throw env attempt_id _ F.on_creating

  demand_heartbeat : Keeps P (fenced_or_throw env attempt_id heartbeat_write)
  demand_heartbeat = Keeps-fenced_or_throw env attempt_id _ F.on_heartbeat

  demand_created : (c : ℕ) → Keeps P (fenced_or_throw env attempt_id (created_write c))
  demand_created c = Keeps-fenced_or_throw env attempt_id _ (F.on_created c)

  pub Frame-lateness_guard : (c : Claim) → Keeps P (lateness_guard env attempt_id c)
  unfolding lateness_guard settle_and_return
  Frame-lateness_guard c = search (keeps_rules, keep_settle) depth 14

  pub Frame-quota_gate : Keeps P (quota_gate env attempt_id)
  unfolding quota_gate settle_and_return
  Frame-quota_gate = search (keeps_rules, Frame-ask, keep_quota) depth 14

  pub Frame-begin_attempt : Keeps P (begin_attempt env attempt_id)
  unfolding begin_attempt settle_and_return
  Frame-begin_attempt =
      search (keeps_rules, demand_attempt, keep_settle, keep_count_attempt) depth 14

  Frame-create_container : Keeps P (create_container env attempt_id)
  unfolding create_container settle_and_return ◌>>=◌ ◌>>◌ gets fenced_update request fenced_or_throw
  Frame-create_container =
      search (keeps_rules, Frame-ask, Keeps-demand, keep_settle, keep_creating, keep_created) depth
        14

  pub Frame-ensure_container : Keeps P (ensure_container env attempt_id)
  unfolding ensure_container
  Frame-ensure_container = search (keeps_rules, Frame-create_container) depth 14

  Frame-note_ambiguity : Keeps P note_ambiguity
  unfolding note_ambiguity
  Frame-note_ambiguity = search (keeps_rules, keep_ambiguous_since) depth 14

  Frame-found_published : Keeps P (found_published env attempt_id)
  unfolding found_published
  Frame-found_published = search (keeps_rules, Frame-note_ambiguity, keep_ambiguity) depth 14

  Frame-container_has_expired : Keeps P (container_has_expired env attempt_id)
  unfolding container_has_expired settle_and_return
  Frame-container_has_expired = search (keeps_rules, keep_drop, keep_drop_retry) depth 14

  Frame-decide : (c : ContainerStatus) → Keeps P (decide env attempt_id c)
  unfolding decide settle_and_return
  Frame-decide ContainerStatus.published = search (keeps_rules, Frame-found_published) depth 14
  Frame-decide ContainerStatus.finished = search keeps_rules
  Frame-decide ContainerStatus.errored = search (keeps_rules, keep_settle) depth 14
  Frame-decide ContainerStatus.expired = search (keeps_rules, Frame-container_has_expired) depth 14
  Frame-decide ContainerStatus.in_progress = search keeps_rules

  Frame-query_status : Keeps P (query_status env attempt_id)
  unfolding query_status
  Frame-query_status = search (keeps_rules, Frame-ask) depth 14

  poll_step :
      (rounds : ℕ)
      → Keeps P (poll env attempt_id rounds)
      → Keeps P (poll env attempt_id (suc rounds))
  unfolding poll
  poll_step rounds rest = Keeps-then _ _ demand_heartbeat (
      Keeps-bind _ _ Frame-query_status (λ status?. Keeps-case _ _ _ (Keeps-pure _) (λ status.
        Keeps-bind _ _ (Frame-decide status) (λ verdict.
          Keeps-case _ _ _ (Keeps-then _ _ (keep_sleep 3000) rest) (λ r. Keeps-pure r)))))

  Frame-poll : (rounds : ℕ) → Keeps P (poll env attempt_id rounds)
  unfolding poll
  Frame-poll zero = search keeps_rules
  Frame-poll (suc rounds) = poll_step rounds (Frame-poll rounds)

  pub Frame-await_container : Keeps P (await_container env attempt_id)
  unfolding await_container
  Frame-await_container =
      search (keeps_rules, keep_begin_polling, Frame-poll, Keeps-after_polling) depth 14

  module _ (hash : List ℕ) (reference_time deadline : ℕ) where
    Frame-feed_page : Keeps P (feed_page env hash reference_time deadline)
    unfolding feed_page
    Frame-feed_page = search (keeps_rules, Frame-ask) depth 14

    Frame-feed_pages :
        (n : ℕ) (found : List Candidate)
        → Keeps P (feed_pages env hash reference_time deadline n found)
    unfolding feed_pages
    Frame-feed_pages zero found = search keeps_rules
    Frame-feed_pages (suc n) found =
        search (keeps_rules, Frame-feed_page, Frame-feed_pages n) depth 14

    pub Frame-recover_from_feed : Keeps P (recover_from_feed env hash reference_time deadline)
    unfolding recover_from_feed
    Frame-recover_from_feed = search (keeps_rules, Frame-feed_pages, Keeps-choose) depth 14

    pub Frame-status_probe : Keeps P (status_probe env attempt_id hash reference_time deadline)
    unfolding status_probe
    Frame-status_probe = search (keeps_rules, keep_request) depth 14

    Frame-pause : Keeps P (pause env attempt_id hash reference_time deadline)
    unfolding pause
    Frame-pause = search (keeps_rules, keep_sleep) depth 14

    pub Frame-beat : Keeps P (beat env attempt_id hash reference_time deadline)
    unfolding beat
    Frame-beat = search (keeps_rules, keep_heartbeat, Keeps-demand) depth 14

    recovery_step :
        (fuel : ℕ)
        → Keeps P (recovery_loop env attempt_id hash reference_time deadline fuel)
        → Keeps P (recovery_loop env attempt_id hash reference_time deadline (suc fuel))
    unfolding recovery_loop
    recovery_step fuel rest = Keeps-bind _ _ (Keeps-gets _) (λ now. Keeps-if _ _ _ (Keeps-pure _) (
        Keeps-then _ _ Frame-beat (
          Keeps-bind _ _ Frame-recover_from_feed (λ recovered.
            Keeps-case _ _ _
              (Keeps-bind _ _ (Keeps-gets _) (λ now'.
                Keeps-if _ _ _ (Keeps-pure _)
                  (Keeps-then _ _ Frame-status_probe (Keeps-then _ _ Frame-pause rest))))
              (λ c. Keeps-pure (some c))))))

    Frame-recovery_loop :
        (fuel : ℕ) → Keeps P (recovery_loop env attempt_id hash reference_time deadline fuel)
    unfolding recovery_loop
    Frame-recovery_loop zero = search keeps_rules
    Frame-recovery_loop (suc fuel) = recovery_step fuel (Frame-recovery_loop fuel)

  Frame-recover_or_quarantine : (t : ℕ) → Keeps P (recover_or_quarantine env attempt_id t)
  unfolding recover_or_quarantine settle_and_return
  Frame-recover_or_quarantine t = search (keeps_rules, Frame-recovery_loop, keep_settle) depth 14

  pub Frame-recover_earlier : Keeps P (recover_earlier env attempt_id)
  unfolding recover_earlier
  Frame-recover_earlier = search (keeps_rules, Frame-recover_or_quarantine) depth 14

  Frame-try_mark_ambiguous : (t : ℕ) → Keeps P (try_mark_ambiguous env attempt_id t)
  unfolding try_mark_ambiguous
  Frame-try_mark_ambiguous t = search (keeps_rules, keep_ambiguity) depth 14

  pub Frame-publish_failed : (t : ℕ) → Keeps P (publish_failed env attempt_id t)
  unfolding publish_failed
  Frame-publish_failed t =
      search
        (keeps_rules, Frame-note_ambiguity, Frame-try_mark_ambiguous, Frame-recover_or_quarantine)
        depth 14

  Frame-enrich_pause : (k : ℕ) → Keeps P (enrich_pause env k)
  unfolding enrich_pause
  Frame-enrich_pause zero = search keeps_rules
  Frame-enrich_pause (suc k) = F.on_sleep ((2 - k) * 500)

  pub Frame-enrich : (n id : ℕ) → Keeps P (enrich env n id)
  unfolding enrich
  Frame-enrich zero id = search keeps_rules
  Frame-enrich (suc n) id =
      search (keeps_rules, Frame-ask, Frame-enrich_pause, Frame-enrich n) depth 20

  Frame-notify_disconnected : Keeps P (notify_disconnected env attempt_id)
  unfolding notify_disconnected
  Frame-notify_disconnected = search (keeps_rules, keep_request, keep_tables) depth 14

  Frame-handle_kind :
      (k : Kind) (code : ErrorCode) (b : Bool) → Keeps P (handle_kind env attempt_id k code b)
  unfolding handle_kind settle_and_return
  Frame-handle_kind Kind.permanent code b = search (keeps_rules, keep_settle) depth 14
  Frame-handle_kind Kind.auth_required code b =
      search (keeps_rules, keep_settle, Frame-notify_disconnected) depth 14
  Frame-handle_kind Kind.retryable code b = search (keeps_rules, keep_settle, keep_retry) depth 14

  pub Frame-handle_error : (e : Exn) → Keeps P (handle_error env attempt_id e)
  unfolding handle_error settle_and_return ambiguous_now
  Frame-handle_error fencing_expired = search keeps_rules
  Frame-handle_error _ = search (keeps_rules, keep_settle, Frame-handle_kind) depth 14
