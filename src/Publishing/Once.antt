-- ===== src/Publishing/Once.antt =====
-- However many runs of `process` a post has, and wherever they fail or are killed, its container is
-- published at most once.
use thread_pilot.Common.{ℕ, ◌≤◌, ◌<◌, ◌≡◌, refl, true, Option, List, [], ◌∷◌, All, arith}
use thread_pilot.Publishing.Post.{is_set, claim_write, published_write}
use thread_pilot.Publishing.Effect.{
  Env, State, M, Outcome, value, thrown, returned, killed, out_of_fuel, run, Tables, ◌>>=◌, ◌>>◌,
  gets, set_vars, request, write_if, throw, try_catch, pure,
}
use thread_pilot.Publishing.Steps.{Claim, claimable, claim, read_post, read_vars}
use thread_pilot.Publishing.Recovery.{demand}
use thread_pilot.Publishing.Publish.{Publication}
use thread_pilot.Publishing.Commit.{
  edit_tables, tx_request, tx_edit, tx_try_edit, transaction, rolled_back, mark_published,
  record_publication, commit, handle_error,
}
use thread_pilot.Publishing.Process.{execute, process}
use thread_pilot.Publishing.Keeps.{
  Keeps, keeps_rules, Keeps-bind, Keeps-try, Keeps-then, Keeps-gets,
}
use thread_pilot.Publishing.Frame.{
  Frame-lateness_guard, Frame-quota_gate, Frame-begin_attempt, Frame-ensure_container,
  Frame-await_container, Frame-handle_error,
}
use thread_pilot.Publishing.Ends.{Ends, ends-then}
use thread_pilot.Publishing.Sending.{
  Remembers, Life, Once, Once-frame, request-Once, publish_or_recover-Once,
}

-- In a transaction the row and the tables may be put back, and nothing is sent.
record Unsent (k : ℕ) (s : State) : Type 0 where
  life : Once s
  same : s.publish_calls ≡ k

module _ (env : Env) (k attempt_id : ℕ) where
  tx_request-Unsent : Keeps (Unsent k) (tx_request env)
  unfolding tx_request
  tx_request-Unsent = record { at = λ s h. ground arith }

  edit_tables-Unsent : (f : Tables → Tables) → Keeps (Unsent k) (edit_tables f)
  unfolding edit_tables
  edit_tables-Unsent f = record { at = λ s h. ground arith }

  tx_edit-Unsent : (f : Tables → Tables) → Keeps (Unsent k) (tx_edit env f)
  unfolding tx_edit
  tx_edit-Unsent f = search (keeps_rules, tx_request-Unsent, edit_tables-Unsent)

  tx_try_edit-Unsent : (f : Tables → Tables) → Keeps (Unsent k) (tx_try_edit env f)
  unfolding tx_try_edit
  tx_try_edit-Unsent f = search (keeps_rules, tx_edit-Unsent)

  mark_published-Unsent :
      (t : Option ℕ) (o : ℕ) → Keeps (Unsent k) (mark_published env attempt_id t o)
  unfolding mark_published ◌>>=◌ gets write_if demand pure throw published_write
  mark_published-Unsent t o = record { at = λ s h. ground arith }

  record_publication-Unsent :
      (p : Publication) (o : ℕ) → Keeps (Unsent k) (record_publication env attempt_id p o)
  unfolding record_publication
  record_publication-Unsent p o =
      search (keeps_rules, tx_edit-Unsent, tx_try_edit-Unsent, tx_request-Unsent) depth 24

-- A rolled back transaction restores a row that told of what was sent.
rolled_back-Once :
    {A : Type 0} (s : State) (r : Outcome A × State)
    → Once s
    → Unsent s.publish_calls r.1
    → Once (rolled_back s.row s.tables r).1
rolled_back-Once s (value a, s') h u = u.life
rolled_back-Once s (thrown e, s') h u = ground (arith, u.life.seen)
rolled_back-Once s (returned, s') h u = ground (arith, u.life.seen)
rolled_back-Once s (killed, s') h u = ground (arith, u.life.seen)
rolled_back-Once s (out_of_fuel, s') h u = ground (arith, u.life.seen)

module _ (env : Env) (mem : Remembers env) (attempt_id : ℕ) where
  transaction-Once :
      {A : Type 0} (m : M A) → ((k : ℕ) → Keeps (Unsent k) m) → Keeps Once (transaction m)
  unfolding transaction
  transaction-Once m km = record {
    at = λ s h.
        rolled_back-Once s (run m s) h
          ((km s.publish_calls).at s (record { life = h; same = refl }));
  }

  commit-Once : (p : Publication) → Keeps Once (commit env attempt_id p)
  unfolding commit
  commit-Once p = Keeps-bind _ _ (Keeps-gets _) (λ o. Keeps-then _ _ (request-Once env mem) (
      transaction-Once _ (λ k.
        Keeps-then _ _ (mark_published-Unsent env k attempt_id p.platform_timestamp o)
          (record_publication-Unsent env k attempt_id p o))))

  module _ (worker : ℕ) where
    execute-Once : (c : Claim) → Keeps Once (execute env worker attempt_id c)
    unfolding execute
    execute-Once c =
        let F = Once-frame env mem attempt_id in
        Keeps-then _ _ (Frame-lateness_guard F c) (
          Keeps-bind _ _ (Frame-quota_gate F) (λ _. Keeps-then _ _ (Frame-begin_attempt F) (
            Keeps-bind _ _ (Frame-ensure_container F) (λ _.
              Keeps-bind _ _ (Frame-await_container F)
                (λ r. Keeps-bind _ _ (publish_or_recover-Once env mem attempt_id r) commit-Once)))))

    -- The `try` block and its `catch` leave what the row tells true.
    guarded-Once :
        (c : Claim)
        → Keeps Once (try_catch (execute env worker attempt_id c) (handle_error env attempt_id))
    guarded-Once c =
        Keeps-try _ _ (execute-Once c) (Frame-handle_error (Once-frame env mem attempt_id))

Once-Life : {s : State} → Once s → Life s
Once-Life h = record { once = h.once; recorded = h.recorded }

module _ (env : Env) (mem : Remembers env) (worker attempt_id : ℕ) where
  request-Life : Keeps Life (request env)
  unfolding request
  request-Life = record { at = λ s h. ground (arith, mem s.step s.row) }

  claim_write-Life :
      (now : ℕ) → Keeps Life (write_if (claimable now) (claim_write worker attempt_id now))
  unfolding write_if claim_write
  claim_write-Life now = record { at = λ s h. ground arith }

  claim-Life : Keeps Life (claim env worker attempt_id)
  unfolding claim
  claim-Life = search (keeps_rules, request-Life, claim_write-Life) depth 12

  read_post-Ends : (s : State) → Life s → Ends Once Life (run (read_post env) s)
  unfolding read_post request ◌>>=◌ ◌>>◌ gets set_vars read_vars
  read_post-Ends s h = ground (arith, mem s.step s.row)

  after_claim-Life :
      (c : Claim)
      → Keeps Life (
          read_post env
          >> try_catch (execute env worker attempt_id c) (handle_error env attempt_id))
  unfolding ◌>>◌
  after_claim-Life c = record {
    at = λ s h.
        ends-then {R = Life} (run (read_post env) s)
          (λ _. try_catch (execute env worker attempt_id c) (handle_error env attempt_id))
          (read_post-Ends s h) (λ u l. l)
          (λ _ u o. Once-Life ((guarded-Once env mem attempt_id worker c).at u o));
  }

  process-Life : Keeps Life (process env worker attempt_id)
  unfolding process
  process-Life = Keeps-bind _ _ claim-Life after_claim-Life

-- One run of `process` by a worker.
pub record Attempt : Type 0 where
  pub env : Env
  pub worker : ℕ
  pub attempt_id : ℕ

-- The state after the runs, one after the other, each from the state that the last one left.
pub after_runs : List Attempt → State → State
after_runs [] s = s
after_runs (r ∷ rs) s = after_runs rs (run (process r.env r.worker r.attempt_id) s).1

after_runs-Life :
    (rs : List Attempt) (s : State)
    → All (λ r. Remembers r.env) rs
    → Life s
    → Life (after_runs rs s)
unfolding after_runs
after_runs-Life [] s m h = h
after_runs-Life (r ∷ rs) s m h =
    after_runs-Life rs _ m.1 ((process-Life r.env m.0 r.worker r.attempt_id).at s h)

-- Take a post for which no request to publish was sent. After any list of runs of `process`, with
-- any answers, failures, crashes and interference by other workers that do not clear
-- `publish_requested_at`, `publishContainer` was called at most once, and if it was called, the row
-- has its `publish_requested_at`.
pub after_runs_publish_once :
    (rs : List Attempt) (s : State)
    → s.publish_calls ≡ 0
    → All (λ r. Remembers r.env) rs
    → ((after_runs rs s).publish_calls ≤ 1)
      × (0 < (after_runs rs s).publish_calls
          → is_set (after_runs rs s).row.publish_requested_at ≡ true)
after_runs_publish_once rs s fresh m =
    let l =
      after_runs-Life rs s m
        (record { once = omega arith; recorded = λ p. absurd (omega arith) }) in
    (l.once, l.recorded)
