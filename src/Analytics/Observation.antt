-- ===== src/Analytics/Observation.antt =====
-- apps/worker/src/services/observation-fsm.service.ts: the table of transitions of an observation
-- and the check that rejects every other one.
pub mod Diagram
mod Tests
use thread_pilot.Common.{
  ℕ, suc, zero, ◌≤◌, ◌<◌, ◌≡◌, refl, ◌⊎◌, inl, inr, ◌↔◌, Bool, true, false, ◌||◌, List, [], ◌∷◌,
  arith, ite, length,
}

pub data ObservationStatus : Type 0 where
  scheduled processing captured failed rate_limited missed deleted unavailable : ObservationStatus

pub ObservationStatus-discrete : Discrete ObservationStatus
ObservationStatus-discrete = hlevel

unfoldable pub valid_observation_transitions : ObservationStatus → List ObservationStatus
valid_observation_transitions scheduled = processing ∷ missed ∷ []
valid_observation_transitions processing =
    captured ∷ failed ∷ rate_limited ∷ missed ∷ deleted ∷ unavailable ∷ []
valid_observation_transitions failed = processing ∷ missed ∷ []
valid_observation_transitions rate_limited = processing ∷ missed ∷ []
valid_observation_transitions captured = []
valid_observation_transitions missed = []
valid_observation_transitions deleted = []
valid_observation_transitions unavailable = []

-- `allowed.includes(to)`.
unfoldable pub includes : List ObservationStatus → ObservationStatus → Bool
includes [] to = false
includes (x ∷ xs) to = ite (ObservationStatus-discrete x to) true (includes xs to)

pub data Validation : Type 0 where
  accepted : Validation
  invalid_transition : (from to : ObservationStatus) → Validation

unfoldable pub validate_observation_transition : ObservationStatus → ObservationStatus → Validation
validate_observation_transition from to = elim (includes (valid_observation_transitions from) to) [
  | true ↦ accepted
  | false ↦ invalid_transition from to
]

-- A history of statuses, each step of which the check accepts.
pub data History : ObservationStatus → List ObservationStatus → Type 0 where
  done : {s : ObservationStatus} → History s []
  next :
      {s t : ObservationStatus} {ts : List ObservationStatus}
      → validate_observation_transition s t ≡ accepted
      → History t ts
      → History s (t ∷ ts)

abbrev pub last : ObservationStatus → List ObservationStatus → ObservationStatus
last s [] = s
last s (t ∷ ts) = last t ts

-- The statuses that the comments call TERMINAL.
abbrev pub is_terminal : ObservationStatus → Bool
is_terminal captured = true
is_terminal missed = true
is_terminal deleted = true
is_terminal unavailable = true
is_terminal _ = false

abbrev pub is_processing : ObservationStatus → Bool
is_processing processing = true
is_processing _ = false

-- How often a worker claims the observation.
abbrev pub claims : List ObservationStatus → ℕ
claims [] = 0
claims (t ∷ ts) = elim (is_processing t) [ true ↦ suc (claims ts) | false ↦ claims ts ]
