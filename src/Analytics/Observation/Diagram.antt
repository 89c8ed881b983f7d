-- ===== src/Analytics/Observation/Diagram.antt =====
-- The transitions of an observation as a diagram, and what holds of every history.
use thread_pilot.Common.{
  ℕ, ◌+◌, ◌*◌, ◌≤◌, ◌<◌, ◌≡◌, refl, ◌↔◌, true, List, [], ◌∷◌, arith, length, ap,
}
use thread_pilot.Analytics.Observation.{
  ObservationStatus, scheduled, processing, captured, failed, rate_limited, missed, deleted,
  unavailable, ObservationStatus-discrete, valid_observation_transitions, includes, accepted,
  validate_observation_transition, History, done, next, last, is_terminal, claims,
}

-- What the comments on the table describe.
pub data Arrow : ObservationStatus → ObservationStatus → Type 0 where
  claim : Arrow scheduled processing
  never_picked_up : Arrow scheduled missed
  capture : Arrow processing captured
  transient_failure : Arrow processing failed
  rate_limit : Arrow processing rate_limited
  window_closed : Arrow processing missed
  removed : Arrow processing deleted
  auth_revoked : Arrow processing unavailable
  retry : Arrow failed processing
  retry_expired : Arrow failed missed
  delayed_retry : Arrow rate_limited processing
  cool_off_expired : Arrow rate_limited missed

ruleset arrows = (
  claim, never_picked_up, capture, transient_failure, rate_limit, window_closed, removed,
  auth_revoked, retry, retry_expired, delayed_retry, cool_off_expired,
)

accepted-Arrow :
    (s t : ObservationStatus) → validate_observation_transition s t ≡ accepted → Arrow s t
unfolding validate_observation_transition valid_observation_transitions includes
    ObservationStatus-discrete
accepted-Arrow s t h = grind (arith, arrows)

pub Arrow-accepted :
    {s t : ObservationStatus} → Arrow s t → validate_observation_transition s t ≡ accepted
unfolding validate_observation_transition valid_observation_transitions includes
    ObservationStatus-discrete
Arrow-accepted claim = refl
Arrow-accepted never_picked_up = refl
Arrow-accepted capture = refl
Arrow-accepted transient_failure = refl
Arrow-accepted rate_limit = refl
Arrow-accepted window_closed = refl
Arrow-accepted removed = refl
Arrow-accepted auth_revoked = refl
Arrow-accepted retry = refl
Arrow-accepted retry_expired = refl
Arrow-accepted delayed_retry = refl
Arrow-accepted cool_off_expired = refl

-- The check accepts a transition exactly if the diagram has it.
pub validate_iff_arrow :
    (s t : ObservationStatus) → (validate_observation_transition s t ≡ accepted) ↔ Arrow s t
validate_iff_arrow s t = (accepted-Arrow s t, Arrow-accepted)

-- Whether the status is one that a worker holds; two steps lead from a claim to the next.
abbrev slack : ObservationStatus → ℕ
slack processing = 2
slack captured = 0
slack missed = 0
slack deleted = 0
slack unavailable = 0
slack _ = 1

step_bound :
    {s t : ObservationStatus} (ts : List ObservationStatus)
    → Arrow s t
    → length ts ≤ 2 * claims ts + slack t
    → length (t ∷ ts) ≤ 2 * claims (t ∷ ts) + slack s
step_bound ts claim h = omega arith
step_bound ts never_picked_up h = omega arith
step_bound ts capture h = omega arith
step_bound ts transient_failure h = omega arith
step_bound ts rate_limit h = omega arith
step_bound ts window_closed h = omega arith
step_bound ts removed h = omega arith
step_bound ts auth_revoked h = omega arith
step_bound ts retry h = omega arith
step_bound ts retry_expired h = omega arith
step_bound ts delayed_retry h = omega arith
step_bound ts cool_off_expired h = omega arith

steps_bound :
    {s : ObservationStatus} {ts : List ObservationStatus}
    → History s ts
    → length ts ≤ 2 * claims ts + slack s
steps_bound done = omega arith
steps_bound (next {s = s} {t = t} {ts = ts} a h) =
    step_bound ts (accepted-Arrow s t a) (steps_bound h)

-- From a status other than `scheduled` and `processing`: capture needs one more claim.
needs_claim : ObservationStatus → ℕ
needs_claim scheduled = 1
needs_claim failed = 1
needs_claim rate_limited = 1
needs_claim missed = 1
needs_claim _ = 0

claim_step :
    {s t : ObservationStatus} (ts : List ObservationStatus)
    → Arrow s t
    → needs_claim t ≤ claims ts + needs_claim (last t ts)
    → needs_claim s ≤ claims (t ∷ ts) + needs_claim (last t ts)
unfolding needs_claim
claim_step ts claim h = omega arith
claim_step ts never_picked_up h = omega arith
claim_step ts capture h = omega arith
claim_step ts transient_failure h = omega arith
claim_step ts rate_limit h = omega arith
claim_step ts window_closed h = omega arith
claim_step ts removed h = omega arith
claim_step ts auth_revoked h = omega arith
claim_step ts retry h = omega arith
claim_step ts retry_expired h = omega arith
claim_step ts delayed_retry h = omega arith
claim_step ts cool_off_expired h = omega arith

claims_needed :
    {s : ObservationStatus} {ts : List ObservationStatus}
    → History s ts
    → needs_claim s ≤ claims ts + needs_claim (last s ts)
claims_needed (done {s = s}) = omega arith
claims_needed (next {s = s} {t = t} {ts = ts} a h) =
    claim_step ts (accepted-Arrow s t a) (claims_needed h)

-- A history from SCHEDULED that the check accepts throughout has at most one step more than twice
-- its claims by a worker, and if it ends in CAPTURED it has a claim.
pub History-claims :
    (ts : List ObservationStatus)
    → History scheduled ts
    → (length ts ≤ 2 * claims ts + 1) × (last scheduled ts ≡ captured → 0 < claims ts)
unfolding needs_claim
History-claims ts h = (steps_bound h, λ e. ground (arith, claims_needed h, ap needs_claim e))

-- Nothing follows a terminal status in a history that the check accepts.
pub terminal_absorbs :
    (s : ObservationStatus) (ts : List ObservationStatus)
    → is_terminal s ≡ true
    → History s ts
    → ts ≡ []
terminal_absorbs s ts e done = refl
terminal_absorbs s ts e (next {s = u} {t = t} a h) = absurd (no_arrow e (accepted-Arrow u t a))
  where
    no_arrow : {u t : ObservationStatus} → is_terminal u ≡ true → Arrow u t → ⊥
    no_arrow e claim = cc
    no_arrow e never_picked_up = cc
    no_arrow e capture = cc
    no_arrow e transient_failure = cc
    no_arrow e rate_limit = cc
    no_arrow e window_closed = cc
    no_arrow e removed = cc
    no_arrow e auth_revoked = cc
    no_arrow e retry = cc
    no_arrow e retry_expired = cc
    no_arrow e delayed_retry = cc
    no_arrow e cool_off_expired = cc
