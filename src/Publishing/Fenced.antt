-- ===== src/Publishing/Fenced.antt =====
-- A worker that lost its lease does nothing more to its post.
use thread_pilot.Common.{ℕ, ◌+◌, ◌≤◌, ◌≡◌, refl, false, Option, arith, ap, ◌∙◌}
use thread_pilot.Publishing.Post.{ScheduledPost, announce_write, published_write, holds_lease}
use thread_pilot.Publishing.Effect.{
  Env, State, Outcome, value, thrown, returned, killed, out_of_fuel, run, ◌>>=◌, ◌>>◌, gets,
  set_vars, request, write_if, fenced_update, sleep, throw, try_catch, pure,
}
use thread_pilot.Publishing.Steps.{count_attempt, fenced_or_throw, Claim}
use thread_pilot.Publishing.Recovery.{demand}
use thread_pilot.Publishing.Polling.{Readiness, begin_polling, ambiguous_since}
use thread_pilot.Publishing.Publish.{
  Publication, announced, announce, first_publish, publish_or_recover, send_and_date,
}
use thread_pilot.Publishing.Commit.{
  edit_tables, transaction, undo, rolled_back, mark_published, record_publication, commit,
  handle_error,
}
use thread_pilot.Publishing.Process.{
  from_polling, from_container, from_attempt, from_quota, Step, at_lateness, at_quota, at_attempt,
  at_container, at_polling, at_publication, at_commit, rest,
}
use thread_pilot.Publishing.Keeps.{Keeps, Keeps-bind, Keeps-try, Keeps-then, Keeps-gets, Keeps-if}
use thread_pilot.Publishing.Frame.{
  Frame, Frame-lateness_guard, Frame-quota_gate, Frame-begin_attempt, Frame-ensure_container,
  Frame-await_container, Frame-recover_earlier, Frame-handle_error,
}
use thread_pilot.Publishing.Ends.{Ends, ends-then}

-- Other workers, and the time that passes, never give the lease back to this attempt.
abbrev pub NeverReturned : Env → ℕ → Type 0
NeverReturned env a =
    (n now later : ℕ) (p : ScheduledPost)
    → now ≤ later
    → holds_lease a now p ≡ false
    → holds_lease a later (env.meddle n p) ≡ false

-- An expired lease stays expired.
pub holds_lease-later :
    (a now later : ℕ) (p : ScheduledPost)
    → now ≤ later
    → holds_lease a now p ≡ false
    → holds_lease a later p ≡ false
unfolding holds_lease
holds_lease-later a now later p h l = ground arith

-- The attempt holds no lease of the row, and has made so many writes and requests to publish.
pub record Lost (a writes calls : ℕ) (s : State) : Type 0 where
  pub no_lease : holds_lease a s.now s.row ≡ false
  pub same_writes : s.writes ≡ writes
  pub same_calls : s.publish_calls ≡ calls

undone_Lost :
    {a w c : ℕ} (s s' : State)
    → Lost a w c s
    → Lost a w c s'
    → s'.now ≡ s.now
    → Lost a w c (undo s.row s.tables s')
undone_Lost {a = a} s s' h l same = record {
  no_lease = ap (λ t. holds_lease a t s.row) same ∙ h.no_lease;
  same_writes = l.same_writes;
  same_calls = l.same_calls;
}

rolled_back-Lost :
    {A : Type 0} {a w c : ℕ} (s : State) (r : Outcome A × State)
    → Lost a w c s
    → Lost a w c r.1 × (r.1.now ≡ s.now)
    → Lost a w c (rolled_back s.row s.tables r).1
rolled_back-Lost s (value x, s') h (l, e) = l
rolled_back-Lost s (thrown e, s') h (l, same) = undone_Lost s s' h l same
rolled_back-Lost s (returned, s') h (l, same) = undone_Lost s s' h l same
rolled_back-Lost s (killed, s') h (l, same) = undone_Lost s s' h l same
rolled_back-Lost s (out_of_fuel, s') h (l, same) = undone_Lost s s' h l same

module _ (env : Env) (a : ℕ) (never : NeverReturned env a) (w c : ℕ) where
  request-Lost : Keeps (Lost a w c) (request env)
  unfolding request
  request-Lost = record {
    at = λ s h. ground (arith, never s.step s.now (s.now + env.elapse s.step) s.row (omega arith));
  }

  fenced-Lost : (f : ℕ → ScheduledPost → ScheduledPost) → Keeps (Lost a w c) (fenced_update env a f)
  unfolding fenced_update ◌>>=◌ ◌>>◌ gets write_if request
  fenced-Lost f = record {
    at = λ s h. ground (arith, never s.step s.now (s.now + env.elapse s.step) s.row (omega arith));
  }

  Lost-frame : Frame env a (Lost a w c)
  unfolding sleep set_vars ambiguous_since begin_polling count_attempt edit_tables
  Lost-frame = record {
    on_request = request-Lost;
    on_sleep = λ ms. record {
      at = λ s h.
          ground
            (arith, holds_lease-later a s.now (s.now + ms + env.elapse s.step) s.row (omega arith));
    };
    on_ambiguous_since = λ t. record { at = λ s h. ground arith };
    on_begin_polling = record { at = λ s h. ground arith };
    on_count_attempt = record { at = λ s h. ground arith };
    on_tables = λ f. record { at = λ s h. ground arith };
    on_settle = λ st code. fenced-Lost _;
    on_quota = λ t. fenced-Lost _;
    on_attempt = fenced-Lost _;
    on_creating = fenced-Lost _;
    on_created = λ t. fenced-Lost _;
    on_heartbeat = fenced-Lost _;
    on_ambiguity = λ t. fenced-Lost _;
    on_retry = λ code t. fenced-Lost _;
    on_drop = λ st code. fenced-Lost _;
    on_drop_retry = λ code t. fenced-Lost _;
  }

  announce-Ends-Lost :
      (t i : ℕ) (s : State) → Lost a w c s → Ends (λ _. ⊥) (Lost a w c) (run (announce env a t i) s)
  unfolding announce fenced_or_throw demand fenced_update ◌>>=◌ ◌>>◌ gets write_if request set_vars
      announced announce_write pure throw
  announce-Ends-Lost t i s h =
      ground (arith, never s.step s.now (s.now + env.elapse s.step) s.row (omega arith))

  first_publish-Lost : Keeps (Lost a w c) (first_publish env a)
  unfolding first_publish ◌>>=◌ ◌>>◌ gets
  first_publish-Lost = record {
    at = λ s h.
        ends-then (run (announce env a s.now (env.fresh_id s.step)) s)
          (λ _. send_and_date env a s.now) (announce-Ends-Lost s.now (env.fresh_id s.step) s h)
          (λ u l. l) (λ _ u no. absurd no);
  }

  publish_or_recover-Lost : (r : Readiness) → Keeps (Lost a w c) (publish_or_recover env a r)
  unfolding publish_or_recover
  publish_or_recover-Lost r =
      Keeps-bind _ _ (Keeps-gets _)
        (λ v. Keeps-if _ _ _ (Frame-recover_earlier Lost-frame) first_publish-Lost)

  mark_published-Lost :
      (t : Option ℕ) (o : ℕ) (s : State)
      → Lost a w c s
      → Ends (λ _. ⊥) (λ u. Lost a w c u × (u.now ≡ s.now)) (run (mark_published env a t o) s)
  unfolding mark_published ◌>>=◌ gets write_if demand pure throw published_write
  mark_published-Lost t o s h = ground arith

  transaction-Lost :
      (t : Option ℕ) (p : Publication) (o : ℕ)
      → Keeps (Lost a w c) (transaction (mark_published env a t o >> record_publication env a p o))
  unfolding transaction ◌>>◌
  transaction-Lost t p o = record {
    at = λ s h. rolled_back-Lost s _ h (
        ends-then (run (mark_published env a t o) s) (λ _. record_publication env a p o)
          (mark_published-Lost t o s h) (λ u l. l) (λ _ u no. absurd no));
  }

  commit-Lost : (p : Publication) → Keeps (Lost a w c) (commit env a p)
  unfolding commit
  commit-Lost p =
      Keeps-bind _ _ (Keeps-gets _)
        (λ o. Keeps-then _ _ request-Lost (transaction-Lost p.platform_timestamp p o))

  from_publication-Lost :
      (r : Readiness) → Keeps (Lost a w c) (publish_or_recover env a r >>= commit env a)
  from_publication-Lost r = Keeps-bind _ _ (publish_or_recover-Lost r) commit-Lost

  polling-Lost : (worker : ℕ) → Keeps (Lost a w c) (from_polling env worker a)
  polling-Lost worker = Keeps-bind _ _ (Frame-await_container Lost-frame) from_publication-Lost

  container-Lost : (worker : ℕ) → Keeps (Lost a w c) (from_container env worker a)
  container-Lost worker =
      Keeps-bind _ _ (Frame-ensure_container Lost-frame) (λ _. polling-Lost worker)

  attempt-Lost : (worker : ℕ) → Keeps (Lost a w c) (from_attempt env worker a)
  attempt-Lost worker = Keeps-then _ _ (Frame-begin_attempt Lost-frame) (container-Lost worker)

  quota-Lost : (worker : ℕ) → Keeps (Lost a w c) (from_quota env worker a)
  quota-Lost worker = Keeps-bind _ _ (Frame-quota_gate Lost-frame) (λ _. attempt-Lost worker)

  rest-Lost : (worker : ℕ) (k : Claim) (at : Step) → Keeps (Lost a w c) (rest env worker a k at)
  unfolding rest
  rest-Lost worker k at_lateness =
      Keeps-then _ _ (Frame-lateness_guard Lost-frame k) (quota-Lost worker)
  rest-Lost worker k at_quota = quota-Lost worker
  rest-Lost worker k at_attempt = attempt-Lost worker
  rest-Lost worker k at_container = container-Lost worker
  rest-Lost worker k at_polling = polling-Lost worker
  rest-Lost worker k (at_publication r) = from_publication-Lost r
  rest-Lost worker k (at_commit p) = commit-Lost p

  guarded-Lost :
      (worker : ℕ) (k : Claim) (at : Step)
      → Keeps (Lost a w c) (try_catch (rest env worker a k at) (handle_error env a))
  guarded-Lost worker k at = Keeps-try _ _ (rest-Lost worker k at) (Frame-handle_error Lost-frame)

-- Take a worker that is about to begin any step of the `try` block (the lateness guard, the quota
-- gate, the attempt, the container, its polling, the publication or the commit), with any values from
-- the steps before and in any state, and whose attempt holds no lease of the row, because it expired or
-- another worker claimed the row; other workers never give it back. Whatever the rest of the block
-- from that step on and the `catch` block meet, they change the row no more (no update takes effect)
-- and send no request to publish.
pub lost_lease_is_inert :
    (env : Env) (worker attempt_id : ℕ) (k : Claim) (at : Step) (s : State)
    → NeverReturned env attempt_id
    → holds_lease attempt_id s.now s.row ≡ false
    → ((run (try_catch (rest env worker attempt_id k at) (handle_error env attempt_id)) s).1.writes
        ≡ s.writes)
      × ((run
            (try_catch (rest env worker attempt_id k at) (handle_error env attempt_id))
            s).1.publish_calls
          ≡ s.publish_calls)
lost_lease_is_inert env worker a k at s never lost =
    let l =
      (guarded-Lost env a never s.writes s.publish_calls worker k at).at s
        (record { no_lease = lost; same_writes = refl; same_calls = refl }) in
    (l.same_writes, l.same_calls)
