-- ===== src/Analytics/Observation/Tests.antt =====
-- A concrete history of an observation.
use thread_pilot.Common.{◌+◌, ◌*◌, ◌≤◌, ◌<◌, ◌≡◌, refl, ◌↔◌, List, [], ◌∷◌, length}
use thread_pilot.Analytics.Observation.{
  ObservationStatus, ObservationStatus-discrete, scheduled, processing, captured, failed,
  valid_observation_transitions, includes, accepted, validate_observation_transition, History, done,
  next, last, claims,
}
use thread_pilot.Analytics.Observation.Diagram.{
  Arrow, validate_iff_arrow, History-claims, terminal_absorbs,
}

validate_iff_arrow_example :
    (validate_observation_transition failed processing ≡ accepted) ↔ Arrow failed processing
validate_iff_arrow_example = validate_iff_arrow failed processing

abbrev retried : List ObservationStatus
retried = processing ∷ failed ∷ processing ∷ captured ∷ []

retried-History : History scheduled retried
unfolding validate_observation_transition valid_observation_transitions includes
    ObservationStatus-discrete
retried-History = next refl (next refl (next refl (next refl done)))

History-claims_example :
    (length retried ≤ 2 * claims retried + 1)
    × (last scheduled retried ≡ captured → 0 < claims retried)
History-claims_example = History-claims retried retried-History

terminal_absorbs_example : ◌≡◌ {A = List ObservationStatus} [] []
terminal_absorbs_example = terminal_absorbs captured [] refl done
