-- ===== src/Publishing/Deadline.antt =====
-- The recovery comes to an end by its deadline: its fuel is enough.
use thread_pilot.Common.{
  ℕ, zero, suc, ◌+◌, ◌*◌, ◌≤◌, ◌≡◌, refl, Bool, true, false, Option, none, some, List,
  if◌then◌else◌, arith, leb,
}
use thread_pilot.Publishing.Effect.{
  State, M, Env, ◌>>=◌, ◌>>◌, run, pure, case_option, gets, request, fenced_update, write_if, sleep,
  set_vars,
}
use thread_pilot.Publishing.Steps.{settle_and_return}
use thread_pilot.Publishing.Commit.{edit_tables}
use thread_pilot.Publishing.Recovery.{Candidate, pause, recovery_loop, recovery_ms, recovery_fuel}
use thread_pilot.Publishing.Publish.{Publication, recover_or_quarantine, adopt}
use thread_pilot.Publishing.Post.{
  ScheduledPost, settle, recovery_required, ambiguous_publish_unconfirmed,
}
use thread_pilot.Publishing.Keeps.{Keeps, Keeps-gets}
use thread_pilot.Publishing.Frame.{Frame, Frame-recover_from_feed, Frame-status_probe, Frame-beat}
use thread_pilot.Publishing.Completes.{
  ran_out, Completes, continued-Completes, Completes-gets, Completes-pure, Completes-case,
  Completes-bind, Completes-fenced, Completes-return, Completes-recover_from_feed,
  Completes-status_probe, Completes-pause, Completes-beat,
}

-- It is `t` or later.
record Since (t : ℕ) (s : State) : Type 0 where
  not_before : t ≤ s.now

module _ (env : Env) (a t : ℕ) where
  fenced-Since : (f : ℕ → ScheduledPost → ScheduledPost) → Keeps (Since t) (fenced_update env a f)
  unfolding fenced_update ◌>>=◌ ◌>>◌ gets write_if request
  fenced-Since f = record { at = λ s h. ground arith }

  Since-frame : Frame env a (Since t)
  unfolding request sleep set_vars edit_tables
  Since-frame = record {
    on_request = record { at = λ s h. ground arith };
    on_sleep = λ ms. record { at = λ s h. ground arith };
    on_ambiguous_since = λ t'. record { at = λ s h. record { not_before = h.not_before } };
    on_begin_polling = record { at = λ s h. record { not_before = h.not_before } };
    on_count_attempt = record { at = λ s h. record { not_before = h.not_before } };
    on_tables = λ f. record { at = λ s h. record { not_before = h.not_before } };
    on_settle = λ st code. fenced-Since _;
    on_quota = λ t'. fenced-Since _;
    on_attempt = fenced-Since _;
    on_creating = fenced-Since _;
    on_created = λ c. fenced-Since _;
    on_heartbeat = fenced-Since _;
    on_ambiguity = λ t'. fenced-Since _;
    on_retry = λ code t'. fenced-Since _;
    on_drop = λ st code. fenced-Since _;
    on_drop_retry = λ code t'. fenced-Since _;
  }

-- From the states of `P` the action ends before its fuel does.
record CompletesFrom (P : State → Type 0) {A : Type 0} (m : M A) : Type 0 where
  at : (s : State) → P s → ran_out (run m s).0 ≡ false

module _ {P : State → Type 0} {A B : Type 0} where
  from-bind :
      (m : M A) (f : A → M B)
      → Keeps P m
      → Completes m
      → ((x : A) → CompletesFrom P (f x))
      → CompletesFrom P (m >>= f)
  unfolding ◌>>=◌
  from-bind m f keeps completes next = record {
    at = λ s p.
        let (r, s') = run m s in
        continued-Completes f r s' (completes.at s) (λ x. (next x).at s' (keeps.at s p));
  }

  from-then :
      (m : M A) (k : M B) → Keeps P m → Completes m → CompletesFrom P k → CompletesFrom P (m >> k)
  unfolding ◌>>◌
  from-then m k keeps completes next = record {
    at = λ s p.
        let (r, s') = run m s in
        continued-Completes (λ _. k) r s' (completes.at s) (λ x. next.at s' (keeps.at s p));
  }

module _ (env : Env) (a : ℕ) (hash : List ℕ) (reference_time deadline : ℕ) where
  -- A round that starts with `k + 1` more rounds of 5 seconds to the deadline leaves `k` of them.
  pause_lem :
      (k t : ℕ) (s : State)
      → deadline ≤ t + 5000 * suc k
      → t ≤ s.now
      → deadline ≤ (run (pause env a hash reference_time deadline) s).1.now + 5000 * k
  unfolding pause ◌>>=◌ gets sleep pure
  pause_lem k t s h u = ground arith

  abbrev Enough : ℕ → Type 0
  Enough k =
      (s : State)
      → deadline ≤ s.now + 5000 * k
      → ran_out (run (recovery_loop env a hash reference_time deadline (suc k)) s).0 ≡ false

  pause_then_loop :
      (k t : ℕ)
      → Enough k
      → deadline ≤ t + 5000 * suc k
      → CompletesFrom (Since t) (
          pause env a hash reference_time deadline
          >> recovery_loop env a hash reference_time deadline (suc k))
  unfolding ◌>>◌
  pause_then_loop k t enough h = record {
    at = λ s p.
        let u = (run (pause env a hash reference_time deadline) s).1 in
        continued-Completes (λ x. recovery_loop env a hash reference_time deadline (suc k))
          (run (pause env a hash reference_time deadline) s).0 u
          ((Completes-pause env hash reference_time deadline a).at s)
          (λ x. enough u (pause_lem k t s h p.not_before));
  }

  from_any : {A : Type 0} {P : State → Type 0} {m : M A} → Completes m → CompletesFrom P m
  from_any c = record { at = λ s p. c.at s }

  from-if :
      {A : Type 0} {P : State → Type 0} (b : Bool) (m n : M A)
      → Completes m
      → CompletesFrom P n
      → CompletesFrom P (if b then m else n)
  from-if true m n km kn = from_any km
  from-if false m n km kn = kn

  from-case :
      {A B : Type 0} {P : State → Type 0} (o : Option A) (m : M B) (f : A → M B)
      → CompletesFrom P m
      → ((x : A) → Completes (f x))
      → CompletesFrom P (case_option o m f)
  unfolding case_option
  from-case none m f km kf = km
  from-case (some x) m f km kf = from_any (kf x)

  round_lem :
      (k t : ℕ)
      → Enough k
      → deadline ≤ t + 5000 * suc k
      → CompletesFrom (Since t) (recovery_loop env a hash reference_time deadline (suc (suc k)))
  unfolding recovery_loop
  round_lem k t enough h =
      let F = Since-frame env a t in
      from-bind _ _ (Keeps-gets _) (Completes-gets _) (λ now. from-if _ _ _ (Completes-pure _) (
        from-then _ _ (Frame-beat F hash reference_time deadline)
          (Completes-beat env hash reference_time deadline a)
          (from-bind _ _ (Frame-recover_from_feed F hash reference_time deadline)
            (Completes-recover_from_feed env hash reference_time deadline)
            (λ found.
              from-case _ _ _
                (from-bind _ _ (Keeps-gets _) (Completes-gets _) (λ now'.
                  from-if _ _ _ (Completes-pure _) (
                    from-then _ _ (Frame-status_probe F hash reference_time deadline)
                      (Completes-status_probe env hash reference_time deadline a)
                      (pause_then_loop k t enough h))))
                (λ c. Completes-pure _)))))

  fuel_suffices : (k : ℕ) → Enough k
  unfolding recovery_loop ◌>>=◌ gets pure
  fuel_suffices zero s h = let e : leb deadline s.now ≡ true = ground arith in rw e refl
  fuel_suffices (suc k) s h =
      (round_lem k s.now (fuel_suffices k) h).at s (record { not_before = omega arith })

-- What follows the search.
abbrev adopt_or_settle : Env → ℕ → Option Candidate → M Publication
adopt_or_settle env a found =
    case_option found
      (settle_and_return env a (settle recovery_required ambiguous_publish_unconfirmed))
      (λ c. pure (adopt c))

adopt_or_settle-Completes :
    (env : Env) (a : ℕ) (found : Option Candidate) → Completes (adopt_or_settle env a found)
unfolding settle_and_return
adopt_or_settle-Completes env a found =
    Completes-case _ _ _ (Completes-bind _ _ (Completes-fenced env a _) (λ x. Completes-return))
      (λ c. Completes-pure _)

-- From any state, and whatever the platform, the other workers and the failures do, the recovery of
-- 45 seconds ends before its fuel does: it finds the post, quarantines it, or fails.
pub recovery_ends :
    (env : Env) (attempt_id reference_time : ℕ) (s : State)
    → ran_out (run (recover_or_quarantine env attempt_id reference_time) s).0 ≡ false
unfolding recover_or_quarantine ◌>>=◌ gets
recovery_ends env a t s =
    let hash = s.vars.post.content_hash in
    let (r, u) = run (recovery_loop env a hash t (s.now + recovery_ms) recovery_fuel) s in
    continued-Completes (adopt_or_settle env a) r u
      (fuel_suffices env a hash t (s.now + recovery_ms) 9 s (omega arith))
      (λ found. (adopt_or_settle-Completes env a found).at u)
