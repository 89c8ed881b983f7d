-- ===== src/Operator/Slot.antt =====
-- findNextAvailableSlot. Days are those of UTC.
use thread_pilot.Common.{
  ℕ, zero, suc, ◌+◌, ◌-◌, ◌*◌, ◌/◌, Bool, true, false, ◌&&◌, not, Option, none, some, List, [], ◌∷◌,
  leb, ◌==◌, if◌then◌else◌, any,
}
use thread_pilot.Publishing.Post.{Status, cancelled, expired, ScheduledPost}

abbrev pub day_ms : ℕ
day_ms = 86400000

abbrev pub hour_ms : ℕ
hour_ms = 3600000

-- The day of `now + dayOffset`, at `setUTCHours(hour, 0, 0, 0)`.
unfoldable pub slot_at : ℕ → ℕ → ℕ → ℕ
slot_at now day_offset hour = (now + day_offset * day_ms) / day_ms * day_ms + hour * hour_ms

abbrev pub is_closed : Status → Bool
is_closed cancelled = true
is_closed expired = true
is_closed _ = false

-- A post at the very slot, whatever its status.
abbrev pub is_at : ℕ → ℕ → ScheduledPost → Bool
is_at account slot p = p.social_account_id == account && p.scheduled_at == slot

-- A post that is too close; no time is negative.
abbrev pub is_close : ℕ → ℕ → ℕ → ScheduledPost → Bool
is_close account min_hours slot p =
    p.social_account_id == account
    && leb (slot - min_hours * hour_ms) p.scheduled_at
    && leb p.scheduled_at (slot + min_hours * hour_ms)
    && not (is_closed p.status)

abbrev pub first_of : Option ℕ → Option ℕ → Option ℕ
first_of (some slot) rest = some slot
first_of none rest = rest

abbrev pub or_else : Option ℕ → ℕ → ℕ
or_else (some slot) fallback = slot
or_else none fallback = fallback

module _ (now account min_hours : ℕ) (posts : List ScheduledPost) where
  -- The body of the loop, without its `continue`s.
  unfoldable pub is_available : ℕ → Bool
  is_available slot =
      not (leb slot now)
      && not (any (is_at account slot) posts)
      && not (any (is_close account min_hours slot) posts)

  -- The inner loop.
  unfoldable pub search_hours : ℕ → List ℕ → Option ℕ
  search_hours day_offset [] = none
  search_hours day_offset (hour ∷ hours) =
      let slot = slot_at now day_offset hour in
      let rest = search_hours day_offset hours in if is_available slot then some slot else rest

  -- The outer loop, with the days that are left.
  unfoldable pub search_days : ℕ → ℕ → List ℕ → Option ℕ
  unfolding search_hours
  search_days zero day_offset hours = none
  search_days (suc left) day_offset hours =
      let rest = search_days left (suc day_offset) hours in
      first_of (search_hours day_offset hours) rest

  unfoldable pub find_next_available_slot : List ℕ → ℕ
  unfolding search_days
  find_next_available_slot hours = or_else (search_days 7 0 hours) (now + 24 * hour_ms)
