-- ===== src/Publishing/Recovery.antt =====
-- The search for a post that may already be on the platform: recoverFromFeed, and the loop of at
-- most 45 seconds around it.
use thread_pilot.Common.{
  list_eq, ℕ, zero, suc, ◌+◌, ◌-◌, min, Bool, true, false, not, ◌&&◌, Option, none, some, List, [],
  ◌∷◌, ◌++◌, leb, ltb, if◌then◌else◌,
}
use thread_pilot.Publishing.Post.{is_set, heartbeat_write}
use thread_pilot.Publishing.Effect.{
  act, Done, done, Env, M, Exn, fencing_expired, js_error, out_of_fuel, FeedItem, FeedPage, ◌>>=◌,
  ◌>>◌, pure, throw, case_option, try_catch, gets, ask, request, fenced_update, sleep,
}
use thread_pilot.Publishing.Text.{canonical_outbound_text}

pub record Candidate : Type 0 where
  pub id : ℕ
  pub timestamp : ℕ

-- `Math.abs(postDate - referenceTime) <= 180_000`.
unfoldable pub is_near : ℕ → ℕ → Bool
is_near t reference_time = leb ((t - reference_time) + (reference_time - t)) 180000

abbrev pub is_empty : List ℕ → Bool
is_empty [] = true
is_empty (_ ∷ _) = false

-- The feed item as a candidate, if it is one.
unfoldable pub candidate? : (List ℕ → List ℕ) → List ℕ → ℕ → FeedItem → Option Candidate
unfolding is_near
candidate? sha256 expected_hash reference_time p =
    if not (is_empty p.text)
      && p.is_text_post
      && list_eq (sha256 (canonical_outbound_text p.text)) expected_hash
    then elim p.timestamp [
      | none ↦ none
      | some t ↦
          if is_near t reference_time then some (record { id = p.id; timestamp = t }) else none
    ]
    else none

abbrev cons? : Option Candidate → List Candidate → List Candidate
cons? none cs = cs
cons? (some c) cs = c ∷ cs

unfoldable pub candidates : (List ℕ → List ℕ) → List ℕ → ℕ → List FeedItem → List Candidate
candidates sha256 expected_hash reference_time [] = []
candidates sha256 expected_hash reference_time (p ∷ ps) =
    cons? (candidate? sha256 expected_hash reference_time p)
      (candidates sha256 expected_hash reference_time ps)

abbrev pub last_timestamp : List FeedItem → Option ℕ
last_timestamp [] = none
last_timestamp (p ∷ []) = p.timestamp
last_timestamp (_ ∷ q ∷ ps) = last_timestamp (q ∷ ps)

-- `oldestInPage < searchSince`, where a date that does not parse is below nothing.
abbrev pub older_than_window : Option ℕ → ℕ → Bool
older_than_window none reference_time = false
older_than_window (some t) reference_time = ltb (t + 240000) reference_time

-- Whether the page says that another one follows within the window.
unfoldable pub more_pages : FeedPage → ℕ → Bool
more_pages page reference_time = is_set page.next_cursor && elim page.items [
  | [] ↦ false
  | p ∷ ps ↦ not (older_than_window (last_timestamp (p ∷ ps)) reference_time)
]

abbrev pub ambiguous_match : Exn
ambiguous_match = js_error (record {
  name = "Error";
  code = "";
  model_name = "";
  message = "AMBIGUOUS_FEED_MATCH: Multiple identical posts detected within recovery window.";
})

-- What the candidates found decide: none, one to adopt, or an error.
unfoldable pub choose : List Candidate → M (Option Candidate)
choose [] = pure none
choose (c ∷ []) = pure (some c)
choose (_ ∷ _ ∷ _) = throw ambiguous_match

-- `if (rows === 0) throw new FencingTokenExpiredException(…)`.
unfoldable pub demand : Bool → M (Done)
demand true = pure done
demand false = throw fencing_expired

-- The loop was cut off by its fuel.
unfoldable pub stop : {A : Type 0} → M A
stop = act (λ s. (out_of_fuel, s))

module _ (env : Env) (expected_hash : List ℕ) (reference_time deadline : ℕ) where
  -- One page of the feed; `none` if the query failed.
  unfoldable pub feed_page : M (Option FeedPage)
  feed_page = try_catch (do page ← ask env env.user_posts; pure (some page)) (λ e. pure none)

  -- The pages of the feed, at most as many as the first argument says.
  unfoldable pub feed_pages : ℕ → List Candidate → M (List Candidate)
  feed_pages zero found = pure found
  feed_pages (suc n) found = do
    now ← gets (λ s. s.now)
    if leb deadline now then pure found else do
      page? ← feed_page
      case_option page? (pure found) (λ page.
          let found' = found ++ candidates env.sha256 expected_hash reference_time page.items in
          let rest = feed_pages n found' in
          if more_pages page reference_time then rest else pure found')

  unfoldable pub recover_from_feed : M (Option Candidate)
  recover_from_feed = do found ← feed_pages 3 []; choose found

module _ (env : Env) (attempt_id : ℕ) (expected_hash : List ℕ) (reference_time deadline : ℕ) where
  -- The status query between two searches: its failure is ignored, and nothing reads its answer.
  unfoldable pub status_probe : M (Done)
  status_probe = try_catch (request env) (λ e. pure done)

  -- `if (sleepMs > 0)` with `sleepMs = Math.min(5000, Math.max(0, recoveryDeadline - Date.now()))`.
  unfoldable pub pause : M (Done)
  pause = do
    now ← gets (λ s. s.now)
    if leb deadline now then pure done else sleep env (min 5000 (deadline - now))

  unfoldable pub beat : M (Done)
  beat = do held ← fenced_update env attempt_id heartbeat_write; demand held

  -- `while (Date.now() < recoveryDeadline)`, on fuel.
  unfoldable pub recovery_loop : ℕ → M (Option Candidate)
  recovery_loop zero = stop
  recovery_loop (suc fuel) = do
    now ← gets (λ s. s.now)
    if leb deadline now then pure none else do
      beat
      recovered ← recover_from_feed env expected_hash reference_time deadline
      case_option recovered
          (do
            now' ← gets (λ s. s.now)
            if leb deadline now' then pure none else do status_probe; pause; recovery_loop fuel)
          (λ c. pure (some c))

-- The 45 seconds of `recoveryDeadline`, and fuel for its rounds of 5 seconds.
abbrev pub recovery_ms : ℕ
recovery_ms = 45000

abbrev pub recovery_fuel : ℕ
recovery_fuel = 10
