-- ===== src/Publishing/Ends.antt =====
-- What holds after an action, by how it ends.
use thread_pilot.Publishing.Effect.{
  State, M, Outcome, value, thrown, returned, killed, out_of_fuel, run, continue_with,
}

-- What holds after `m`: `Q` if it has a value, `P` otherwise.
abbrev pub Ends : {A : Type 0} → (State → Type 0) → (State → Type 0) → Outcome A × State → Type 0
Ends Q P (value a, s) = Q s
Ends Q P (thrown e, s) = P s
Ends Q P (returned, s) = P s
Ends Q P (killed, s) = P s
Ends Q P (out_of_fuel, s) = P s

pub ends-then :
    {A B : Type 0} {Q P R : State → Type 0} (r : Outcome A × State) (k : A → M B)
    → Ends Q P r
    → ((s : State) → P s → R s)
    → ((a : A) (s : State) → Q s → R (run (k a) s).1)
    → R (continue_with k r).1
ends-then (value a, s) k h weaken step = step a s h
ends-then (thrown e, s) k h weaken step = weaken s h
ends-then (returned, s) k h weaken step = weaken s h
ends-then (killed, s) k h weaken step = weaken s h
ends-then (out_of_fuel, s) k h weaken step = weaken s h
