-- ===== src/Analytics/Outbox/Exhaustion.antt =====
-- An event whose queue always throws is tried five times.
use thread_pilot.Common.{
  Bool-cases, ◌⊎◌, inl, inr, ℕ, suc, ◌+◌, ◌≤◌, ◌<◌, ◌≡◌, refl, ap, ◌∙◌, true, false, List, [], ◌∷◌,
  leb, arith, ==_iff, length, if◌then◌else◌,
}
use mathlib.Core.Path.{subst, subst⁻¹}
use thread_pilot.Analytics.Row.{OutboxEvent, pending, failed}
use thread_pilot.Analytics.Outbox.{
  is_claimable, insert_by_time, claimable, take, claim_events, threw, Outside, is_held, give_back,
  Progress, settle, settle_all, dispatch_outbox_events,
}

claim_one :
    (now token : ℕ) (v : OutboxEvent)
    → is_claimable now v ≡ true
    → claim_events now token (v ∷ []) ≡ (take now token v ∷ [], take now token v ∷ [])
unfolding claim_events claimable insert_by_time
claim_one now token v h = let same = (==_iff v.id v.id).1 refl in ground (arith, h, same)

-- The event after a dispatch in which its queue threw.
abbrev tried : Outside → OutboxEvent → OutboxEvent
tried w v = give_back (w.settled_at v.id) (take w.claimed_at w.lease_token v)

settle_one :
    (w : Outside) (v : OutboxEvent) (p : Progress)
    → p.events ≡ take w.claimed_at w.lease_token v ∷ []
    → (settle w threw (take w.claimed_at w.lease_token v) p).events ≡ tried w v ∷ []
unfolding settle is_held
settle_one w v p e =
    let same = (==_iff v.id v.id).1 refl in
    let ours = (==_iff w.lease_token w.lease_token).1 refl in ground (arith, same, ours, e)

-- A dispatch that the event's queue refuses and nobody interferes with.
pub record Refuses (w : Outside) : Type 0 where
  pub throws : (v : OutboxEvent) → w.deliver v ≡ threw
  pub alone : (v : OutboxEvent) (vs : List OutboxEvent) → w.meanwhile v vs ≡ vs

dispatch_one :
    (w : Outside) (v : OutboxEvent)
    → is_claimable w.claimed_at v ≡ true
    → Refuses w
    → (dispatch_outbox_events w (v ∷ [])).events ≡ tried w v ∷ []
unfolding dispatch_outbox_events settle_all
dispatch_one w v h r =
    let tv = take w.claimed_at w.lease_token v in
    let start : List OutboxEvent → Progress =
      λ vs. record { jobs = []; dispatched_count = 0; events = vs } in
    ap (λ x. (settle_all w x.0 (start x.1)).events) (claim_one w.claimed_at w.lease_token v h)
    ∙ ap (λ x. (settle w x tv (start (w.meanwhile tv (tv ∷ [])))).events) (r.throws tv)
    ∙ settle_one w v (start (w.meanwhile tv (tv ∷ []))) (r.alone tv (tv ∷ []))

dispatch_none :
    (w : Outside) (v : OutboxEvent)
    → is_claimable w.claimed_at v ≡ false
    → (dispatch_outbox_events w (v ∷ [])).events ≡ v ∷ []
unfolding dispatch_outbox_events settle_all claim_events claimable
dispatch_none w v h = ground (arith, h)

-- Dispatches one after the other.
abbrev pub dispatches : List Outside → List OutboxEvent → List OutboxEvent
dispatches [] vs = vs
dispatches (w ∷ ws) vs = dispatches ws (dispatch_outbox_events w vs).events

-- Each refuses, and comes when the event is due again.
abbrev pub Refusing : ℕ → ℕ → List Outside → Type 0
Refusing id at [] = Unit
Refusing id at (w ∷ ws) = Refuses w × (at ≤ w.claimed_at) × Refusing id (w.settled_at id + 5000) ws

-- How the event stands after so many attempts.
pub record Tried (id attempts : ℕ) (vs : List OutboxEvent) : Type 0 where
  pub event : OutboxEvent
  pub alone : vs ≡ event ∷ []
  pub same_id : event.id ≡ id
  pub its_attempts : event.attempt_count ≡ (if leb 5 attempts then 5 else attempts)
  pub its_status : event.status ≡ (if leb 5 attempts then failed else pending)

failed-dispatches :
    (ws : List Outside) (v : OutboxEvent) → v.status ≡ failed → dispatches ws (v ∷ []) ≡ v ∷ []
unfolding is_claimable
failed-dispatches [] v f = refl
failed-dispatches (w ∷ ws) v f =
    ap (dispatches ws) (dispatch_none w v (ground (arith, f))) ∙ failed-dispatches ws v f

pending-dispatches :
    (ws : List Outside) (v : OutboxEvent)
    → v.status ≡ pending
    → v.attempt_count < 5
    → Refusing v.id v.execute_at ws
    → Tried v.id (v.attempt_count + length ws) (dispatches ws (v ∷ []))
unfolding is_claimable give_back
pending-dispatches [] v p lt r = record {
  event = v;
  alone = refl;
  same_id = refl;
  its_attempts = ground arith;
  its_status = ground (arith, p);
}
pending-dispatches (w ∷ ws) v p lt (refuses, due, rest) =
    let once = dispatch_one w v (ground (arith, p)) refuses in
    subst⁻¹ (Tried v.id (v.attempt_count + suc (length ws))) (ap (dispatches ws) once)
      (after_try (pending-dispatches ws (tried w v)) (Bool-cases (leb 5 (suc v.attempt_count))))
  where
    after_try :
        ((tried w v).status ≡ pending
          → suc v.attempt_count < 5
          → Refusing v.id (w.settled_at v.id + 5000) ws
          → Tried v.id (suc v.attempt_count + length ws) (dispatches ws (tried w v ∷ [])))
        → (leb 5 (suc v.attempt_count) ≡ true) ⊎ (leb 5 (suc v.attempt_count) ≡ false)
        → Tried v.id (v.attempt_count + suc (length ws)) (dispatches ws (tried w v ∷ []))
    after_try later (inl last) = record {
      event = tried w v;
      alone = failed-dispatches ws (tried w v) (ground (arith, last));
      same_id = refl;
      its_attempts = ground (arith, last);
      its_status = ground (arith, last);
    }
    after_try later (inr more) =
        let sum : suc v.attempt_count + length ws ≡ v.attempt_count + suc (length ws) =
          omega arith in
        subst (λ n. Tried v.id n (dispatches ws (tried w v ∷ []))) sum
          (later (ground (arith, more)) (ground (arith, more)) rest)

-- A new event whose queue throws at every dispatch, alone in the table and always due again: after
-- fewer than five dispatches it is PENDING and has been tried as often, and after five or more it is
-- FAILED, tried five times and never again.
pub dispatches-Tried :
    (ws : List Outside) (v : OutboxEvent)
    → v.status ≡ pending
    → v.attempt_count ≡ 0
    → Refusing v.id v.execute_at ws
    → Tried v.id (length ws) (dispatches ws (v ∷ []))
dispatches-Tried ws v p zero_tries r =
    let sum : v.attempt_count + length ws ≡ length ws = omega arith in
    subst (λ n. Tried v.id n (dispatches ws (v ∷ []))) sum
      (pending-dispatches ws v p (omega arith) r)
