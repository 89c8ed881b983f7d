-- ===== src/Operator/SlotSearch.antt =====
-- The slot that the search finds: the first that is free, and within a week.
use thread_pilot.Common.{
  ℕ, zero, suc, ◌+◌, ◌-◌, ◌*◌, ◌≤◌, ◌<◌, ◌≡◌, ◌≢◌, refl, ◌++◌, ap, inl, inr, true, false, Option,
  none, some, List, [], ◌∷◌, arith, All, any, leb, ◌==◌, Bool-cases,
}
use mathlib.Core.Path.{subst}
use thread_pilot.Publishing.Post.{ScheduledPost}
use thread_pilot.Operator.Slot.{
  day_ms, hour_ms, slot_at, is_closed, is_at, is_close, is_available, first_of, or_else,
  search_hours, search_days, find_next_available_slot,
}

-- A post leaves the slot alone: it is another account's, or it stands at another time and is over or
-- further than the least distance away.
pub data Clear (account min_hours slot : ℕ) (p : ScheduledPost) : Type 0 where
  of_another : p.social_account_id ≢ account → Clear account min_hours slot p
  is_over : p.scheduled_at ≢ slot → is_closed p.status ≡ true → Clear account min_hours slot p
  earlier : p.scheduled_at + min_hours * hour_ms < slot → Clear account min_hours slot p
  later : slot + min_hours * hour_ms < p.scheduled_at → Clear account min_hours slot p

-- The slot is in the future, and every post leaves it alone.
pub record Open (now account min_hours : ℕ) (posts : List ScheduledPost) (slot : ℕ) : Type 0 where
  pub in_future : now < slot
  pub apart : All (Clear account min_hours slot) posts

post-Clear :
    (account min_hours slot : ℕ) (p : ScheduledPost)
    → is_at account slot p ≡ false
    → is_close account min_hours slot p ≡ false
    → Clear account min_hours slot p
post-Clear account min_hours slot p far apart = elim (Bool-cases (p.social_account_id == account)) [
  | inr theirs ↦ of_another (ground arith)
  | inl ours ↦ elim (Bool-cases (is_closed p.status)) [
    | inl over ↦ is_over (ground arith) over
    | inr live ↦ elim (Bool-cases (leb (slot - min_hours * hour_ms) p.scheduled_at)) [
      | inr before ↦ earlier (ground arith)
      | inl within ↦ later (ground arith)
    ]
  ]
]

Clear-post :
    (account min_hours slot : ℕ) (p : ScheduledPost)
    → Clear account min_hours slot p
    → (is_at account slot p ≡ false) × (is_close account min_hours slot p ≡ false)
Clear-post account min_hours slot p (of_another ne) = (ground arith, ground arith)
Clear-post account min_hours slot p (is_over ne over) = (ground arith, ground arith)
Clear-post account min_hours slot p (earlier lt) = (ground arith, ground arith)
Clear-post account min_hours slot p (later lt) = (ground arith, ground arith)

posts-Clear :
    (account min_hours slot : ℕ) (posts : List ScheduledPost)
    → any (is_at account slot) posts ≡ false
    → any (is_close account min_hours slot) posts ≡ false
    → All (Clear account min_hours slot) posts
posts-Clear account min_hours slot [] far apart = tt
posts-Clear account min_hours slot (p ∷ ps) far apart = (
  post-Clear account min_hours slot p (ground arith) (ground arith),
  posts-Clear account min_hours slot ps (ground arith) (ground arith),
)

Clear-posts :
    (account min_hours slot : ℕ) (posts : List ScheduledPost)
    → All (Clear account min_hours slot) posts
    → (any (is_at account slot) posts ≡ false)
      × (any (is_close account min_hours slot) posts ≡ false)
Clear-posts account min_hours slot [] all = (refl, refl)
Clear-posts account min_hours slot (p ∷ ps) (c, cs) =
    let (far, apart) = Clear-post account min_hours slot p c in
    let (far', apart') = Clear-posts account min_hours slot ps cs in (ground arith, ground arith)

available-Open :
    (now account min_hours : ℕ) (posts : List ScheduledPost) (slot : ℕ)
    → is_available now account min_hours posts slot ≡ true
    → Open now account min_hours posts slot
unfolding is_available
available-Open now account min_hours posts slot h = record {
  in_future = ground arith;
  apart = posts-Clear account min_hours slot posts (ground arith) (ground arith);
}

Open-available :
    (now account min_hours : ℕ) (posts : List ScheduledPost) (slot : ℕ)
    → Open now account min_hours posts slot
    → is_available now account min_hours posts slot ≡ true
unfolding is_available
Open-available now account min_hours posts slot h =
    let lt = h.in_future in
    let (far, apart) = Clear-posts account min_hours slot posts h.apart in ground arith

All_middle :
    (P : ℕ → Type 0) (before : List ℕ) (x : ℕ) (rest : List ℕ) → All P (before ++ x ∷ rest) → P x
All_middle P [] x rest (p, _) = p
All_middle P (_ ∷ before) x rest (_, ps) = All_middle P before x rest ps

module _ (now account min_hours : ℕ) (posts : List ScheduledPost) where
  slot_at-lt :
      (day hour slot : ℕ)
      → day < 7
      → hour < 24
      → slot ≡ slot_at now day hour
      → slot < now + 7 * day_ms
  unfolding slot_at
  slot_at-lt day hour slot less legal e = omega arith

  -- The slot of the hour is not open on the day.
  abbrev pub Shut : ℕ → ℕ → Type 0
  Shut day hour = ¬ (Open now account min_hours posts (slot_at now day hour))

  unavailable-Shut :
      (day hour : ℕ)
      → is_available now account min_hours posts (slot_at now day hour) ≡ false
      → Shut day hour
  unavailable-Shut day hour e is_open =
      let yes_open = Open-available now account min_hours posts (slot_at now day hour) is_open in
      let no_way : ⊥ = ground arith in no_way

  -- The first open slot of one day.
  record FirstOf (day : ℕ) (hours : List ℕ) (slot : ℕ) : Type 0 where
    hour : ℕ
    before : List ℕ
    rest : List ℕ
    split : hours ≡ before ++ hour ∷ rest
    its_slot : slot ≡ slot_at now day hour
    is_open : Open now account min_hours posts slot
    all_shut : All (Shut day) before

  search_hours-found :
      (day : ℕ) (hours : List ℕ) (slot : ℕ)
      → search_hours now account min_hours posts day hours ≡ some slot
      → FirstOf day hours slot
  unfolding search_hours
  search_hours-found day [] slot h = absurd (let no_slot : ⊥ = ground arith in no_slot)
  search_hours-found day (hour ∷ hours) slot h =
      elim (Bool-cases (is_available now account min_hours posts (slot_at now day hour))) [
        | inl e ↦
            let same : slot ≡ slot_at now day hour = ground arith in
            record {
              hour = hour;
              before = [];
              rest = hours;
              split = refl;
              its_slot = same;
              is_open = available-Open now account min_hours posts slot (cc);
              all_shut = tt;
            }
        | inr e ↦
            let later_one = search_hours-found day hours slot (ground arith) in
            record {
              hour = later_one.hour;
              before = hour ∷ later_one.before;
              rest = later_one.rest;
              split = ap (λ hs. hour ∷ hs) later_one.split;
              its_slot = later_one.its_slot;
              is_open = later_one.is_open;
              all_shut = (unavailable-Shut day hour e, later_one.all_shut);
            }
      ]

  search_hours-none :
      (day : ℕ) (hours : List ℕ)
      → search_hours now account min_hours posts day hours ≡ none
      → All (Shut day) hours
  unfolding search_hours
  search_hours-none day [] h = tt
  search_hours-none day (hour ∷ hours) h =
      (unavailable-Shut day hour (ground arith), search_hours-none day hours (ground arith))

  -- The first open slot of the days from `offset` on, or there is none.
  data Search (hours : List ℕ) (offset left : ℕ) : Option ℕ → Type 0 where
    hit :
        {slot : ℕ} (day : ℕ)
        → offset ≤ day
        → day < offset + left
        → FirstOf day hours slot
        → ((d : ℕ) → offset ≤ d → d < day → All (Shut d) hours)
        → Search hours offset left (some slot)
    miss :
        ((d : ℕ) → offset ≤ d → d < offset + left → All (Shut d) hours)
        → Search hours offset left none

  -- One day more in front, none of whose slots is open.
  earlier_day :
      (hours : List ℕ) (offset left : ℕ) (o : Option ℕ)
      → All (Shut offset) hours
      → Search hours (suc offset) left o
      → Search hours offset (suc left) o
  earlier_day hours offset left (some slot) shut (hit day from below first before) =
      hit day (omega arith) (omega arith) first (λ d at_least less.
        elim (Bool-cases (d == offset)) [
          | inl e ↦
              let same : offset ≡ d = ground arith in subst (λ x. All (Shut x) hours) same shut
          | inr ne ↦ before d (ground arith) less
        ])
  earlier_day hours offset left none shut (miss before) = miss (λ d at_least less.
      elim (Bool-cases (d == offset)) [
        | inl e ↦ let same : offset ≡ d = ground arith in subst (λ x. All (Shut x) hours) same shut
        | inr ne ↦ before d (ground arith) (omega arith)
      ])

  search_days-Search :
      (left offset : ℕ) (hours : List ℕ)
      → Search hours offset left (search_days now account min_hours posts left offset hours)
  unfolding search_days
  search_days-Search zero offset hours = miss (λ d at_least less. absurd (ground arith))
  search_days-Search (suc left) offset hours =
      on_day (search_hours now account min_hours posts offset hours) refl
        (search_days-Search left (suc offset) hours)
    where
      rest : Option ℕ
      rest = search_days now account min_hours posts left (suc offset) hours

      on_day :
          (o : Option ℕ)
          → search_hours now account min_hours posts offset hours ≡ o
          → Search hours (suc offset) left rest
          → Search hours offset (suc left) (first_of o rest)
      on_day (some slot) e _ =
          hit offset (omega arith) (omega arith) (search_hours-found offset hours slot e)
            (λ d at_least less. absurd (let no_day : ⊥ = omega arith in no_day))
      on_day none e found_later =
          earlier_day hours offset left rest (search_hours-none offset hours e) found_later

  -- The slot that is chosen: the first open one, or a day from now if the week has none.
  pub data Chosen (hours : List ℕ) (slot : ℕ) : Type 0 where
    first_open :
        (day hour : ℕ) (before rest : List ℕ)
        → day < 7
        → hours ≡ before ++ hour ∷ rest
        → slot ≡ slot_at now day hour
        → Open now account min_hours posts slot
        → All (Shut day) before
        → ((d : ℕ) → d < day → All (Shut d) hours)
        → Chosen hours slot
    in_a_day :
        slot ≡ now + 24 * hour_ms → ((d : ℕ) → d < 7 → All (Shut d) hours) → Chosen hours slot

  Search-Chosen :
      (hours : List ℕ) (o : Option ℕ)
      → Search hours 0 7 o
      → Chosen hours (or_else o (now + 24 * hour_ms))
  Search-Chosen hours (some slot) (hit day _ less f before) =
      first_open day f.hour f.before f.rest less f.split f.its_slot f.is_open f.all_shut
        (λ d l. before d (omega arith) l)
  Search-Chosen hours none (miss before) = in_a_day refl (λ d l. before d (omega arith) l)

  -- The slot that the operator chooses is the first, by day and then in the order of the target
  -- hours, of those within seven days that lie in the future and that every post of the account
  -- leaves alone: none stands at the slot, and none that is neither CANCELLED nor EXPIRED stands
  -- within the least distance. Only where there is no such slot it is 24 hours from now.
  pub find_next_available_slot-Chosen :
      (hours : List ℕ) → Chosen hours (find_next_available_slot now account min_hours posts hours)
  unfolding find_next_available_slot
  find_next_available_slot-Chosen hours =
      Search-Chosen hours (search_days now account min_hours posts 7 0 hours)
        (search_days-Search 7 0 hours)

  slot_bounds :
      (hours : List ℕ) (slot : ℕ)
      → All (λ h. h < 24) hours
      → Chosen hours slot
      → (now < slot) × (slot < now + 7 * day_ms)
  slot_bounds hours slot legal (first_open day hour before rest less split its o _ _) = (
    o.in_future,
    let legal_hour =
          All_middle (λ h. h < 24) before hour rest (subst (All (λ h. h < 24)) split legal) in
        slot_at-lt day hour slot less legal_hour its,
  )
  slot_bounds hours slot legal (in_a_day e _) = (omega arith, omega arith)

  -- Where every target hour is an hour of a day, the slot lies in the future and less than seven days
  -- away, the slot of the fallback too.
  pub find_next_available_slot-lt :
      (hours : List ℕ)
      → All (λ h. h < 24) hours
      → (now < find_next_available_slot now account min_hours posts hours)
        × (find_next_available_slot now account min_hours posts hours < now + 7 * day_ms)
  find_next_available_slot-lt hours legal =
      slot_bounds hours (find_next_available_slot now account min_hours posts hours) legal
        (find_next_available_slot-Chosen hours)
