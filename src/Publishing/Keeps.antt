-- ===== src/Publishing/Keeps.antt =====
-- Invariants of the worker's actions: one rule for each way in which an action is built.
use thread_pilot.Common.{ℕ, Bool, true, false, Option, none, some, if◌then◌else◌}
use thread_pilot.Publishing.Effect.{
  State, M, Outcome, value, thrown, returned, killed, out_of_fuel, Exn, Env, ◌>>=◌, ◌>>◌, run, pure,
  throw, return, case_option, try_catch, gets, request, ask, handle_with, continue_with,
}
use thread_pilot.Publishing.Recovery.{stop}

-- However `m` ends, it keeps `P`.
pub record Keeps (P : State → Type 0) {A : Type 0} (m : M A) : Type 0 where
  pub at : (s : State) → P s → P (run m s).1

module _ {P : State → Type 0} {A : Type 0} where
  pub Keeps-pure : (a : A) → Keeps P (pure a)
  unfolding pure
  Keeps-pure a = record { at = λ s h. h }

  pub Keeps-throw : (e : Exn) → Keeps P (throw {A = A} e)
  unfolding throw
  Keeps-throw e = record { at = λ s h. h }

  pub Keeps-return : Keeps P (return {A = A})
  unfolding return
  Keeps-return = record { at = λ s h. h }

  pub Keeps-stop : Keeps P (stop {A = A})
  unfolding stop
  Keeps-stop = record { at = λ s h. h }

  pub Keeps-gets : (f : State → A) → Keeps P (gets f)
  unfolding gets
  Keeps-gets f = record { at = λ s h. h }

  pub Keeps-if : (b : Bool) (m n : M A) → Keeps P m → Keeps P n → Keeps P (if b then m else n)
  Keeps-if true m n km kn = km
  Keeps-if false m n km kn = kn

  handled-Keeps :
      (h : Exn → M A) (r : Outcome A) (s : State)
      → P s
      → ((e : Exn) → Keeps P (h e))
      → P (handle_with h (r, s)).1
  handled-Keeps h (value a) s p k = p
  handled-Keeps h (thrown e) s p k = (k e).at s p
  handled-Keeps h returned s p k = p
  handled-Keeps h killed s p k = p
  handled-Keeps h out_of_fuel s p k = p

  pub Keeps-try :
      (m : M A) (h : Exn → M A) → Keeps P m → ((e : Exn) → Keeps P (h e)) → Keeps P (try_catch m h)
  unfolding try_catch
  Keeps-try m h km kh = record {
    at = λ s p. let (r, s') = run m s in handled-Keeps h r s' (km.at s p) kh;
  }

module _ {P : State → Type 0} {A B : Type 0} where
  pub Keeps-case :
      (o : Option A) (m : M B) (f : A → M B)
      → Keeps P m
      → ((a : A) → Keeps P (f a))
      → Keeps P (case_option o m f)
  unfolding case_option
  Keeps-case none m f km kf = km
  Keeps-case (some a) m f km kf = kf a

  continued-Keeps :
      (f : A → M B) (r : Outcome A) (s : State)
      → P s
      → ((a : A) → Keeps P (f a))
      → P (continue_with f (r, s)).1
  continued-Keeps f (value a) s p k = (k a).at s p
  continued-Keeps f (thrown e) s p k = p
  continued-Keeps f returned s p k = p
  continued-Keeps f killed s p k = p
  continued-Keeps f out_of_fuel s p k = p

  pub Keeps-bind :
      (m : M A) (f : A → M B) → Keeps P m → ((a : A) → Keeps P (f a)) → Keeps P (m >>= f)
  unfolding ◌>>=◌
  Keeps-bind m f km kf = record {
    at = λ s p. let (r, s') = run m s in continued-Keeps f r s' (km.at s p) kf;
  }

module _ {P : State → Type 0} {A B : Type 0} where
  pub Keeps-then : (m : M A) (k : M B) → Keeps P m → Keeps P k → Keeps P (m >> k)
  unfolding ◌>>◌
  Keeps-then m k km kk = record {
    at = λ s p. let (r, s') = run m s in continued-Keeps (λ _. k) r s' (km.at s p) (λ _. kk);
  }

pub ruleset keeps_rules = (
  Keeps-pure, Keeps-throw, Keeps-return, Keeps-stop, Keeps-gets, Keeps-if, Keeps-try, Keeps-case,
  Keeps-bind, Keeps-then,
)

module _ {P : State → Type 0} (env : Env) where
  pub Keeps-ask : {A : Type 0} (answer : ℕ → A) → Keeps P (request env) → Keeps P (ask env answer)
  unfolding ask
  Keeps-ask answer kr = Keeps-bind _ _ (Keeps-gets _) (λ n. Keeps-then _ _ kr (Keeps-pure _))
