-- ===== src/Analytics/Schedule/Idempotent.antt =====
-- Scheduling the observations of a post twice is scheduling them once.
use thread_pilot.Common.{
  Bool, ℕ, ◌≡◌, refl, ap, ◌∙◌, true, Option, none, some, List, [], ◌∷◌, ◌==◌, arith, find_first,
  find_first-append_none, find_first-append_some, ==_iff,
}
use thread_pilot.Analytics.Row.{
  ObservationSlot, same_slot_refl, AnalyticsObservation, obs, same_key, has_key, OutboxEvent, Store,
  row_or_new, add_unless, upsert_event, SyncState,
}
use thread_pilot.Analytics.Schedule.{
  ScheduleParams, is_slot_of, new_observation, observation_event, slot_observation,
  upsert_observation, schedule_slot, schedule_slots, ensure_sync_state, schedule_observations,
  ordered_observation_slots,
}

-- The same post at another time, with other fresh identifiers.
abbrev pub again :
    ScheduleParams → ℕ → (ObservationSlot → ℕ) → (ObservationSlot → ℕ) → ScheduleParams
again q at ids events = record q { published_at = at; fresh_id = ids; fresh_event = events }

-- An upsert leaves a row that has the key: the one there was, or the new one.
upsert_found {ℓ} :
    {A : Type ℓ} (p : A → Bool) (new : A) (o : Option A) (xs : List A)
    → find_first p xs ≡ o
    → p new ≡ true
    → find_first p (add_unless o new xs) ≡ some (row_or_new o new)
upsert_found p new none xs e t = find_first-append_none p xs new e t
upsert_found p new (some x) xs e t = e

upsert_keeps {ℓ} :
    {A : Type ℓ} (p : A → Bool) (new : A) (o : Option A) (xs : List A) (x : A)
    → find_first p xs ≡ some x
    → find_first p (add_unless o new xs) ≡ some x
upsert_keeps p new none xs x e = find_first-append_some p xs new x e
upsert_keeps p new (some y) xs x e = e

is_slot_of_new :
    (p : ScheduleParams) (slot : ObservationSlot)
    → is_slot_of p.published_post_id slot (new_observation p slot) ≡ true
unfolding new_observation
is_slot_of_new p slot = let same = same_slot_refl slot in ground (arith, same)

has_key_obs : (id : ℕ) → same_key (obs id) (obs id) ≡ true
has_key_obs id = (==_iff id id).1 refl

-- The slot has this observation, and the observation has its event.
record Settled (post : ℕ) (slot : ObservationSlot) (o : AnalyticsObservation) (s : Store)
    : Type 0 where
  found : find_first (is_slot_of post slot) s.observations ≡ some o
  event : OutboxEvent
  event_found : find_first (has_key (obs o.id)) s.events ≡ some event

schedule_slot-Settled :
    (p : ScheduleParams) (slot : ObservationSlot) (s : Store)
    → Settled p.published_post_id slot
        (slot_observation p slot s.observations)
        (schedule_slot p slot s)
unfolding schedule_slot slot_observation upsert_observation upsert_event observation_event
schedule_slot-Settled p slot s = record {
  found =
      upsert_found (is_slot_of p.published_post_id slot) (new_observation p slot) _ s.observations
        refl (is_slot_of_new p slot);
  event = _;
  event_found =
      upsert_found (has_key (obs (slot_observation p slot s.observations).id))
        (observation_event p slot (slot_observation p slot s.observations)) _ s.events refl
        (has_key_obs (slot_observation p slot s.observations).id);
}

Settled-schedule_slot :
    (p : ScheduleParams) (other : ObservationSlot) (post : ℕ) (slot : ObservationSlot)
    (o : AnalyticsObservation) (s : Store)
    → Settled post slot o s
    → Settled post slot o (schedule_slot p other s)
unfolding schedule_slot upsert_observation upsert_event
Settled-schedule_slot p other post slot o s h = record {
  found = upsert_keeps (is_slot_of post slot) _ _ s.observations o h.found;
  event = h.event;
  event_found = upsert_keeps (has_key (obs o.id)) _ _ s.events h.event h.event_found;
}

-- Each slot with its observation.
AllSettled : ℕ → List ObservationSlot → List AnalyticsObservation → Store → Type 0
AllSettled post [] [] s = Unit
AllSettled post (slot ∷ slots) (o ∷ os) s = Settled post slot o s × AllSettled post slots os s
AllSettled post _ _ s = ⊥

Settled-schedule_slots :
    (p : ScheduleParams) (slots : List ObservationSlot) (post : ℕ) (slot : ObservationSlot)
    (o : AnalyticsObservation) (s : Store)
    → Settled post slot o s
    → Settled post slot o (schedule_slots p slots s).1
unfolding schedule_slots
Settled-schedule_slots p [] post slot o s h = h
Settled-schedule_slots p (t ∷ ts) post slot o s h =
    Settled-schedule_slots p ts post slot o (schedule_slot p t s)
      (Settled-schedule_slot p t post slot o s h)

schedule_slots-AllSettled :
    (p : ScheduleParams) (slots : List ObservationSlot) (s : Store)
    → AllSettled p.published_post_id slots (schedule_slots p slots s).0 (schedule_slots p slots s).1
unfolding schedule_slots AllSettled
schedule_slots-AllSettled p [] s = tt
schedule_slots-AllSettled p (slot ∷ slots) s = (
  Settled-schedule_slots p slots p.published_post_id slot _ (schedule_slot p slot s)
      (schedule_slot-Settled p slot s),
  schedule_slots-AllSettled p slots (schedule_slot p slot s),
)

-- A slot that is settled is left as it is.
slot_observation-Settled :
    (p : ScheduleParams) (slot : ObservationSlot) (o : AnalyticsObservation) (s : Store)
    → Settled p.published_post_id slot o s
    → slot_observation p slot s.observations ≡ o
unfolding slot_observation
slot_observation-Settled p slot o s h = ap (λ x. row_or_new x (new_observation p slot)) h.found

schedule_slot-same :
    (p : ScheduleParams) (slot : ObservationSlot) (o : AnalyticsObservation) (s : Store)
    → Settled p.published_post_id slot o s
    → schedule_slot p slot s ≡ s
unfolding schedule_slot upsert_observation upsert_event observation_event
schedule_slot-same p slot o s h =
    let same_rows : add_unless (find_first (is_slot_of p.published_post_id slot) s.observations)
          (new_observation p slot) s.observations
        ≡ s.observations =
      ap (λ x. add_unless x (new_observation p slot) s.observations) h.found in
    let new = observation_event p slot (slot_observation p slot s.observations) in
    let event_there : find_first (has_key new.dedupe_key) s.events ≡ some h.event =
      ap (λ x. find_first (has_key (obs x.id)) s.events) (slot_observation-Settled p slot o s h)
      ∙ h.event_found in
    let same_events : add_unless (find_first (has_key new.dedupe_key) s.events) new s.events
        ≡ s.events =
      ap (λ x. add_unless x new s.events) event_there in
    ap
      (λ x. record s {
        observations = x;
        events = add_unless (find_first (has_key new.dedupe_key) s.events) new s.events;
      })
      same_rows
    ∙ ap (λ x. record s { events = x }) same_events

schedule_slots-again :
    (p : ScheduleParams) (slots : List ObservationSlot) (os : List AnalyticsObservation) (s : Store)
    → AllSettled p.published_post_id slots os s
    → schedule_slots p slots s ≡ (os, s)
unfolding schedule_slots AllSettled
schedule_slots-again p [] [] s all = refl
schedule_slots-again p [] (o ∷ os) s all = absurd all
schedule_slots-again p (slot ∷ slots) [] s all = absurd all
schedule_slots-again p (slot ∷ slots) (o ∷ os) s (h, all) =
    ap
      (λ x. (
        slot_observation p slot s.observations ∷ (schedule_slots p slots x).0,
        (schedule_slots p slots x).1,
      ))
      (schedule_slot-same p slot o s h)
    ∙ ap (λ x. (slot_observation p slot s.observations ∷ x.0, x.1))
        (schedule_slots-again p slots os s all)
    ∙ ap (λ x. (x ∷ os, s)) (slot_observation-Settled p slot o s h)

schedule_slots_sync :
    (p : ScheduleParams) (slots : List ObservationSlot) (s : Store)
    → (schedule_slots p slots s).1.sync_states ≡ s.sync_states
unfolding schedule_slots schedule_slot
schedule_slots_sync p [] s = refl
schedule_slots_sync p (slot ∷ slots) s = schedule_slots_sync p slots (schedule_slot p slot s)

ensure_twice :
    (q : ScheduleParams) (at : ℕ) (ids events : ObservationSlot → ℕ) (ss ss' : List SyncState)
    → ss' ≡ ensure_sync_state q ss
    → ensure_sync_state (again q at ids events) ss' ≡ ss'
unfolding ensure_sync_state
ensure_twice q at ids events ss ss' e =
    let is_it = λ (x : SyncState). x.social_account_id == q.social_account_id in
    let new : SyncState = record {
      workspace_id = q.workspace_id;
      social_account_id = q.social_account_id;
      analytics_revision = 0;
      ingestion_generation = 0;
    } in
    let there : find_first is_it ss' ≡ some (row_or_new (find_first is_it ss) new) =
      ap (find_first is_it) e
      ∙ upsert_found is_it new (find_first is_it ss) ss refl
          ((==_iff q.social_account_id q.social_account_id).1 refl) in
    ap (λ x. add_unless x new ss') there

-- Scheduling the observations of a post again, at whatever time of publication and with whatever
-- fresh identifiers, answers the same five observations and leaves the tables as they are, whatever
-- rows there were before.
pub schedule_observations_twice :
    (q : ScheduleParams) (at : ℕ) (ids events : ObservationSlot → ℕ) (s : Store)
    → schedule_observations (again q at ids events) (schedule_observations q s).1
      ≡ schedule_observations q s
unfolding schedule_observations
schedule_observations_twice q at ids events s =
    let begun : Store = record s { sync_states = ensure_sync_state q s.sync_states } in
    let once = schedule_slots q ordered_observation_slots begun in
    let sync = schedule_slots_sync q ordered_observation_slots begun in
    ap
      (λ x.
        schedule_slots (again q at ids events) ordered_observation_slots
          (record once.1 { sync_states = x }))
      (ensure_twice q at ids events s.sync_states once.1.sync_states sync)
    ∙ schedule_slots-again (again q at ids events) ordered_observation_slots once.0 once.1
        (schedule_slots-AllSettled q ordered_observation_slots begun)
