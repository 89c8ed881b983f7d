-- ===== src/Analytics/Schedule/Windows.antt =====
-- The windows of a post's observations do not overlap.
use thread_pilot.Common.{◌<◌, ◌≢◌, ◌⊎◌, arith}
use thread_pilot.Analytics.Row.{ObservationSlot}
use thread_pilot.Analytics.Schedule.{ScheduleParams, delay_ms, window_ms, new_observation}

-- Of two of the five windows of a post, one is over before the other opens.
pub windows_apart :
    (p : ScheduleParams) (s t : ObservationSlot)
    → s ≢ t
    → ((new_observation p s).window_closes_at < (new_observation p t).scheduled_for)
      ⊎ ((new_observation p t).window_closes_at < (new_observation p s).scheduled_for)
unfolding new_observation delay_ms window_ms
windows_apart p s t ne = ground arith
