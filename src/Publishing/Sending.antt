-- ===== src/Publishing/Sending.antt =====
-- Within a run the request to publish is sent at most once, and the row tells of it before.
use thread_pilot.Common.{
  if◌then◌else◌, ℕ, suc, ◌+◌, ◌≤◌, ◌<◌, ◌≡◌, refl, Bool, true, false, ◌||◌, arith,
}
use thread_pilot.Publishing.Post.{
  ScheduledPost, is_set, settle, quota_write, attempt_write, creating_write, created_write,
  heartbeat_write, ambiguity_write, drop_container, retry_write, announce_write,
}
use thread_pilot.Publishing.Effect.{
  Env, State, run, ◌>>=◌, ◌>>◌, gets, set_vars, request, write_if, fenced_update, sleep, throw,
  try_catch, pure,
}
use thread_pilot.Publishing.Steps.{count_attempt, fenced_or_throw}
use thread_pilot.Publishing.Recovery.{demand}
use thread_pilot.Publishing.Polling.{Readiness, begin_polling, ambiguous_since}
use thread_pilot.Publishing.Publish.{
  Publication, announced, announce, count_publish_call, send_publish, first_publish,
  publish_or_recover, publish_failed, await_id, timestamped, is_already_published, recover_earlier,
  send_and_date,
}
use thread_pilot.Publishing.Commit.{edit_tables}
use thread_pilot.Publishing.Keeps.{Keeps, keeps_rules, Keeps-bind, Keeps-try}
use thread_pilot.Publishing.Frame.{
  Frame, Frame-recover_earlier, Frame-publish_failed, Frame-enrich, Frame-ask,
}
use thread_pilot.Publishing.Ends.{Ends, ends-then}

-- The other workers never clear `publish_requested_at`.
abbrev pub Remembers : Env → Type 0
Remembers env =
    (n : ℕ) (p : ScheduledPost)
    → is_set p.publish_requested_at ≡ true
    → is_set (env.meddle n p).publish_requested_at ≡ true

-- At most one request was sent, and the row tells of it.
pub record Life (s : State) : Type 0 where
  pub once : s.publish_calls ≤ 1
  pub recorded : 0 < s.publish_calls → is_set s.row.publish_requested_at ≡ true

-- So does this run's copy of the row.
pub record Once (s : State) : Type 0 where
  pub once : s.publish_calls ≤ 1
  pub recorded : 0 < s.publish_calls → is_set s.row.publish_requested_at ≡ true
  pub seen : 0 < s.publish_calls → is_set s.vars.post.publish_requested_at ≡ true

module _ (env : Env) (mem : Remembers env) where
  pub request-Once : Keeps Once (request env)
  unfolding request
  request-Once = record { at = λ s h. ground (arith, mem s.step s.row) }

  fenced-Once :
      (a : ℕ) (f : ℕ → ScheduledPost → ScheduledPost)
      → ((now : ℕ) (p : ScheduledPost)
          → is_set p.publish_requested_at ≡ true
          → is_set (f now p).publish_requested_at ≡ true)
      → Keeps Once (fenced_update env a f)
  unfolding fenced_update ◌>>=◌ ◌>>◌ gets write_if request
  fenced-Once a f keep = record {
    at = λ s h.
        ground
          (arith, mem s.step s.row, keep (s.now + env.elapse s.step) (env.meddle s.step s.row));
  }

  pub Once-frame : (a : ℕ) → Frame env a Once
  unfolding sleep set_vars ambiguous_since begin_polling count_attempt edit_tables settle
      quota_write attempt_write creating_write created_write heartbeat_write ambiguity_write
      drop_container retry_write
  Once-frame a = record {
    on_request = request-Once;
    on_sleep = λ ms. record { at = λ s h. ground arith };
    on_ambiguous_since = λ t. record { at = λ s h. ground arith };
    on_begin_polling = record { at = λ s h. ground arith };
    on_count_attempt = record { at = λ s h. ground arith };
    on_tables = λ f. record { at = λ s h. ground arith };
    on_settle = λ st code. fenced-Once a (settle st code) (λ now p h. h);
    on_quota = λ t. fenced-Once a (quota_write t) (λ now p h. h);
    on_attempt = fenced-Once a attempt_write (λ now p h. h);
    on_creating = fenced-Once a creating_write (λ now p h. h);
    on_created = λ c. fenced-Once a (created_write c) (λ now p h. h);
    on_heartbeat = fenced-Once a heartbeat_write (λ now p h. h);
    on_ambiguity = λ t. fenced-Once a (ambiguity_write t) (λ now p h. h);
    on_retry = λ code t. fenced-Once a (retry_write code t) (λ now p h. h);
    on_drop = λ st code. fenced-Once a (drop_container (settle st code)) (λ now p h. h);
    on_drop_retry = λ code t. fenced-Once a (drop_container (retry_write code t)) (λ now p h. h);
  }

-- Before the request is announced, and after.
record Idle (s : State) : Type 0 where
  none_sent : s.publish_calls ≡ 0

record Armed (s : State) : Type 0 where
  none_sent : s.publish_calls ≡ 0
  row_tells : is_set s.row.publish_requested_at ≡ true
  post_tells : is_set s.vars.post.publish_requested_at ≡ true

Idle-Once : {s : State} → Idle s → Once s
Idle-Once h = record {
  once = omega arith;
  recorded = λ p. absurd (omega arith);
  seen = λ p. absurd (omega arith);
}

module _ (env : Env) (mem : Remembers env) (attempt_id : ℕ) where
  announce-Ends :
      (t i : ℕ) (s : State) → Idle s → Ends Armed Idle (run (announce env attempt_id t i) s)
  unfolding announce fenced_or_throw demand fenced_update ◌>>=◌ ◌>>◌ gets write_if request set_vars
      announced announce_write pure throw
  announce-Ends t i s h = ground arith

  await_id-Once : Keeps Once (await_id env)
  unfolding await_id
  await_id-Once = search (keeps_rules, Frame-ask (Once-frame env mem attempt_id))

  timestamped-Once : (p : Publication) → Keeps Once (timestamped env p)
  unfolding timestamped
  timestamped-Once p = search (keeps_rules, Frame-enrich (Once-frame env mem attempt_id))

  -- What follows the count of the request.
  counted-Once :
      (t : ℕ)
      → Keeps Once
          (try_catch (await_id env) (λ e. publish_failed env attempt_id t) >>= timestamped env)
  counted-Once t =
      Keeps-bind _ _
        (Keeps-try _ _ await_id-Once (λ e. Frame-publish_failed (Once-frame env mem attempt_id) t))
        timestamped-Once

  send_and_date-Once :
      (t : ℕ) (s : State) → Armed s → Once (run (send_and_date env attempt_id t) s).1
  unfolding send_and_date ◌>>=◌ ◌>>◌ try_catch send_publish count_publish_call
  send_and_date-Once t s h =
      (counted-Once t).at (record s { publish_calls = suc s.publish_calls })
        (record {
          once = omega (arith, h.none_sent);
          recorded = λ _. h.row_tells;
          seen = λ _. h.post_tells;
        })

  first_publish-Once : (s : State) → Idle s → Once (run (first_publish env attempt_id) s).1
  unfolding first_publish ◌>>=◌ ◌>>◌ gets
  first_publish-Once s h =
      ends-then (run (announce env attempt_id s.now (env.fresh_id s.step)) s)
        (λ _. send_and_date env attempt_id s.now) (announce-Ends s.now (env.fresh_id s.step) s h)
        (λ u. Idle-Once) (λ _ u. send_and_date-Once s.now u)

  recover_or_first-Once :
      (b : Bool) (s : State)
      → Once s
      → (b ≡ false → Idle s)
      → Once (run (if b then recover_earlier env attempt_id else first_publish env attempt_id) s).1
  recover_or_first-Once true s h idle =
      (Frame-recover_earlier (Once-frame env mem attempt_id)).at s h
  recover_or_first-Once false s h idle = first_publish-Once s (idle refl)

  pub publish_or_recover-Once : (r : Readiness) → Keeps Once (publish_or_recover env attempt_id r)
  unfolding publish_or_recover ◌>>=◌ gets
  publish_or_recover-Once r = record {
    at = λ s h. recover_or_first-Once _ s h (λ fresh. record { none_sent = unseen s h fresh });
  }
    where
      unseen :
          (s : State)
          → Once s
          → (is_set s.vars.post.publish_requested_at
              || is_already_published r
              || s.vars.has_publish_ambiguity)
            ≡ false
          → s.publish_calls ≡ 0
      unseen s h fresh = ground (arith, h.seen)
