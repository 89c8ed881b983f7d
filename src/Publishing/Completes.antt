-- ===== src/Publishing/Completes.antt =====
-- Actions that never run out of fuel: one rule for each way in which an action is built.
use thread_pilot.Common.{
  ℕ, zero, suc, ◌≡◌, refl, Bool, true, false, Option, none, some, List, [], ◌∷◌, if◌then◌else◌,
  arith,
}
use thread_pilot.Publishing.Post.{ScheduledPost, heartbeat_write}
use thread_pilot.Publishing.Effect.{
  State, M, Outcome, value, thrown, returned, killed, out_of_fuel, Exn, Env, ◌>>=◌, ◌>>◌, run, pure,
  throw, return, case_option, try_catch, gets, request, ask, fenced_update, write_if, sleep,
  handle_with, continue_with, after_fault, Fault, raises, kills,
}
use thread_pilot.Publishing.Recovery.{
  Candidate, demand, choose, feed_page, feed_pages, recover_from_feed, status_probe, pause, beat,
}

abbrev pub ran_out : {A : Type 0} → Outcome A → Bool
ran_out out_of_fuel = true
ran_out _ = false

-- From every state the action ends before its fuel does.
pub record Completes {A : Type 0} (m : M A) : Type 0 where
  pub at : (s : State) → ran_out (run m s).0 ≡ false

module _ {A : Type 0} where
  pub Completes-pure : (a : A) → Completes (pure a)
  unfolding pure
  Completes-pure a = record { at = λ s. refl }

  pub Completes-throw : (e : Exn) → Completes (throw {A = A} e)
  unfolding throw
  Completes-throw e = record { at = λ s. refl }

  pub Completes-return : Completes (return {A = A})
  unfolding return
  Completes-return = record { at = λ s. refl }

  pub Completes-gets : (f : State → A) → Completes (gets f)
  unfolding gets
  Completes-gets f = record { at = λ s. refl }

  pub Completes-if :
      (b : Bool) (m n : M A) → Completes m → Completes n → Completes (if b then m else n)
  Completes-if true m n km kn = km
  Completes-if false m n km kn = kn

  handled-Completes :
      (h : Exn → M A) (r : Outcome A) (s : State)
      → ran_out r ≡ false
      → ((e : Exn) → Completes (h e))
      → ran_out (handle_with h (r, s)).0 ≡ false
  handled-Completes h (value a) s p k = refl
  handled-Completes h (thrown e) s p k = (k e).at s
  handled-Completes h returned s p k = refl
  handled-Completes h killed s p k = refl
  handled-Completes h out_of_fuel s p k = p

  pub Completes-try :
      (m : M A) (h : Exn → M A)
      → Completes m
      → ((e : Exn) → Completes (h e))
      → Completes (try_catch m h)
  unfolding try_catch
  Completes-try m h km kh = record {
    at = λ s. let (r, s') = run m s in handled-Completes h r s' (km.at s) kh;
  }

module _ {A B : Type 0} where
  pub Completes-case :
      (o : Option A) (m : M B) (f : A → M B)
      → Completes m
      → ((a : A) → Completes (f a))
      → Completes (case_option o m f)
  unfolding case_option
  Completes-case none m f km kf = km
  Completes-case (some a) m f km kf = kf a

  pub continued-Completes :
      (f : A → M B) (r : Outcome A) (s : State)
      → ran_out r ≡ false
      → ((a : A) → ran_out (run (f a) s).0 ≡ false)
      → ran_out (continue_with f (r, s)).0 ≡ false
  continued-Completes f (value a) s p k = k a
  continued-Completes f (thrown e) s p k = refl
  continued-Completes f returned s p k = refl
  continued-Completes f killed s p k = refl
  continued-Completes f out_of_fuel s p k = p

  pub Completes-bind :
      (m : M A) (f : A → M B) → Completes m → ((a : A) → Completes (f a)) → Completes (m >>= f)
  unfolding ◌>>=◌
  Completes-bind m f km kf = record {
    at = λ s. let (r, s') = run m s in continued-Completes f r s' (km.at s) (λ a. (kf a).at s');
  }

  pub Completes-then : (m : M A) (k : M B) → Completes m → Completes k → Completes (m >> k)
  unfolding ◌>>◌
  Completes-then m k km kk = record {
    at = λ s. let (r, s') = run m s in continued-Completes (λ _. k) r s' (km.at s) (λ a. kk.at s');
  }

pub ruleset completes_rules = (
  Completes-pure, Completes-throw, Completes-return, Completes-gets, Completes-if, Completes-try,
  Completes-case, Completes-bind, Completes-then,
)

ran_out-after_fault : (f : Option Fault) → ran_out (after_fault f) ≡ false
ran_out-after_fault none = refl
ran_out-after_fault (some (raises e)) = refl
ran_out-after_fault (some kills) = refl

pub Completes-demand : (b : Bool) → Completes (demand b)
unfolding demand
Completes-demand true = search completes_rules
Completes-demand false = search completes_rules

Completes-choose : (cs : List Candidate) → Completes (choose cs)
unfolding choose
Completes-choose [] = search completes_rules
Completes-choose (c ∷ []) = search completes_rules
Completes-choose (c ∷ d ∷ cs) = search completes_rules

module _ (env : Env) where
  pub Completes-request : Completes (request env)
  unfolding request
  Completes-request = record { at = λ s. ran_out-after_fault (env.fault s.step) }

  pub Completes-sleep : (ms : ℕ) → Completes (sleep env ms)
  unfolding sleep
  Completes-sleep ms = record { at = λ s. refl }

  Completes-ask : {A : Type 0} (answer : ℕ → A) → Completes (ask env answer)
  unfolding ask
  Completes-ask answer =
      Completes-bind _ _ (Completes-gets _)
        (λ n. Completes-then _ _ Completes-request (Completes-pure _))

  Completes-write_if :
      (t : ScheduledPost → Bool) (f : ScheduledPost → ScheduledPost) → Completes (write_if t f)
  unfolding write_if
  Completes-write_if t f = record { at = λ s. ground arith }

  pub Completes-fenced :
      (a : ℕ) (f : ℕ → ScheduledPost → ScheduledPost) → Completes (fenced_update env a f)
  unfolding fenced_update
  Completes-fenced a f =
      Completes-then _ _ Completes-request
        (Completes-bind _ _ (Completes-gets _) (λ now. Completes-write_if _ _))

  module _ (hash : List ℕ) (reference_time deadline : ℕ) where
    Completes-feed_page : Completes (feed_page env hash reference_time deadline)
    unfolding feed_page
    Completes-feed_page = search (completes_rules, Completes-ask) depth 14

    Completes-feed_pages :
        (n : ℕ) (found : List Candidate)
        → Completes (feed_pages env hash reference_time deadline n found)
    unfolding feed_pages
    Completes-feed_pages zero found = search completes_rules
    Completes-feed_pages (suc n) found =
        search (completes_rules, Completes-feed_page, Completes-feed_pages n) depth 14

    pub Completes-recover_from_feed : Completes (recover_from_feed env hash reference_time deadline)
    unfolding recover_from_feed
    Completes-recover_from_feed =
        search (completes_rules, Completes-feed_pages, Completes-choose) depth 14

    pub Completes-status_probe :
        (a : ℕ) → Completes (status_probe env a hash reference_time deadline)
    unfolding status_probe
    Completes-status_probe a = search (completes_rules, Completes-request) depth 14

    pub Completes-pause : (a : ℕ) → Completes (pause env a hash reference_time deadline)
    unfolding pause
    Completes-pause a = search (completes_rules, Completes-sleep) depth 14

    pub Completes-beat : (a : ℕ) → Completes (beat env a hash reference_time deadline)
    unfolding beat
    Completes-beat a = Completes-bind _ _ (Completes-fenced a heartbeat_write) Completes-demand
