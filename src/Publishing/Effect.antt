-- ===== src/Publishing/Effect.antt =====
-- How the worker's asynchronous code runs: a state with exceptions, early returns and crashes.
-- Whatever stands outside the worker (the clock, the other workers, the Threads API, failures of
-- the database and of the network) is the parameter `Env`, which answers by the number of the step.
use thread_pilot.Common.{ℕ, suc, ◌+◌, Bool, true, false, Option, none, some, List, if◌then◌else◌}
use thread_pilot.Publishing.Post.{ScheduledPost, holds_lease}
use Prim.Native.String.{String}

-- `ThreadsApiError` of packages/threads-client, and any other `Error` with the properties that the
-- worker looks at (`err.name`, `err.code`, `err.meta.modelName`).
pub record JsError : Type 0 where
  pub name : String
  pub code : String
  pub model_name : String
  pub message : String

pub data Exn : Type 0 where
  fencing_expired : Exn
  threads_api_error : (status_code : ℕ) (body : String) (message : String) → Exn
  js_error : JsError → Exn

-- The value of an action that has none.
pub data Done : Type 0 where
  done : Done

pub data Outcome {ℓ} (A : Type ℓ) : Type ℓ where
  value : A → Outcome A
  thrown : Exn → Outcome A
  returned : Outcome A  -- `return` from the whole of `process`
  killed : Outcome A  -- the worker died
  out_of_fuel : Outcome A

pub data Fault : Type 0 where
  raises : Exn → Fault
  kills : Fault

pub data ContainerStatus : Type 0 where
  in_progress finished errored expired published : ContainerStatus

pub record FeedItem : Type 0 where
  pub id : ℕ
  pub text : List ℕ
  pub is_text_post : Bool
  pub timestamp : Option ℕ  -- `none` for a date that does not parse

pub record FeedPage : Type 0 where
  pub items : List FeedItem
  pub next_cursor : Option ℕ

pub record Quota : Type 0 where
  pub usage : ℕ
  pub total : ℕ

-- The world outside, at the n-th step of the run.
pub record Env : Type 0 where
  pub elapse : ℕ → ℕ  -- time that passes before the step
  pub meddle : ℕ → ScheduledPost → ScheduledPost  -- what other workers write before the step
  pub fault : ℕ → Option Fault
  pub access_token : ℕ → ℕ
  pub publishing_limit : ℕ → Quota
  pub created_container : ℕ → ℕ
  pub container_status : ℕ → ContainerStatus
  pub published_id : ℕ → ℕ
  pub user_posts : ℕ → FeedPage
  pub post_timestamp : ℕ → Option (Option ℕ)  -- no timestamp, or one that may not parse
  pub fresh_id : ℕ → ℕ
  pub sha256 : List ℕ → List ℕ
  pub has_observation_scheduler : Bool  -- whether it is injected

-- The local variables that the `catch` block of `process` reads.
pub record Vars : Type 0 where
  pub post : ScheduledPost
  pub has_publish_ambiguity : Bool
  pub ambiguity_reference_time : Option ℕ

pub record PublishedPost : Type 0 where
  pub id : ℕ
  pub draft_id : ℕ
  pub published_version_id : ℕ
  pub threads_post_id : ℕ
  pub published_at : Option ℕ
  pub published_observed_at : ℕ

pub record ThreadPost : Type 0 where
  pub threads_post_id : ℕ
  pub text : List ℕ
  pub posted_at : Option ℕ
  pub posted_observed_at : ℕ
  pub published_post_id : ℕ

-- What the commit writes besides the row: the tables of this post's workspace.
pub record Tables : Type 0 where
  pub published_posts : List PublishedPost
  pub thread_posts : List ThreadPost
  pub observed_from : List (ℕ × ℕ)  -- calls of scheduleObservations: published post and time
  pub archived_drafts : List ℕ
  pub accepted_exposures : List (ℕ × ℕ)  -- ACCEPTED recommendationExposure rows: id and draft
  pub linked_exposures : List (ℕ × ℕ)  -- exposure and published post
  pub assignments : List (ℕ × ℕ)  -- experimentPostAssignment rows: id and draft
  pub linked_assignments : List (ℕ × ℕ)  -- assignment and published post
  pub outbox : List (ℕ × ℕ)  -- POST_PUBLISHED events: scheduled post and Threads post
  pub audit_log : List (ℕ × ℕ)
  pub notifications : List ℕ

pub record State : Type 0 where
  pub row : ScheduledPost
  pub tables : Tables
  pub now : ℕ
  pub step : ℕ
  pub vars : Vars
  pub publish_calls : ℕ  -- calls of `publishContainer` so far
  pub writes : ℕ  -- updates of the row by this worker that took effect

-- An action takes the state to an outcome and the state after it.
pub data M (A : Type 0) : Type 0 where
  act : (State → Outcome A × State) → M A

abbrev pub run : {A : Type 0} → M A → State → Outcome A × State
run (act f) s = f s

unfoldable pub pure : {A : Type 0} → A → M A
pure a = act (λ s. (value a, s))

unfoldable pub throw : {A : Type 0} → Exn → M A
throw e = act (λ s. (thrown e, s))

unfoldable pub return : {A : Type 0} → M A
return = act (λ s. (returned, s))

abbrev pub continue_with : {A B : Type 0} → (A → M B) → Outcome A × State → Outcome B × State
continue_with f (value a, s) = run (f a) s
continue_with f (thrown e, s) = (thrown e, s)
continue_with f (returned, s) = (returned, s)
continue_with f (killed, s) = (killed, s)
continue_with f (out_of_fuel, s) = (out_of_fuel, s)

abbrev pub handle_with : {A : Type 0} → (Exn → M A) → Outcome A × State → Outcome A × State
handle_with h (value a, s) = (value a, s)
handle_with h (thrown e, s) = run (h e) s
handle_with h (returned, s) = (returned, s)
handle_with h (killed, s) = (killed, s)
handle_with h (out_of_fuel, s) = (out_of_fuel, s)

infixl 5 ◌>>=◌ ◌>>◌
unfoldable pub ◌>>=◌ : {A B : Type 0} → M A → (A → M B) → M B
m >>= f = act (λ s. continue_with f (run m s))

unfoldable pub ◌>>◌ : {A B : Type 0} → M A → M B → M B
m >> k = act (λ s. continue_with (λ _. k) (run m s))

unfoldable pub try_catch : {A : Type 0} → M A → (Exn → M A) → M A
try_catch m h = act (λ s. handle_with h (run m s))

-- A value that may be absent.
unfoldable pub case_option : {A B : Type 0} → Option A → M B → (A → M B) → M B
case_option none m f = m
case_option (some a) m f = f a

unfoldable pub gets : {A : Type 0} → (State → A) → M A
gets f = act (λ s. (value (f s), s))

unfoldable pub set_vars : (Vars → Vars) → M Done
set_vars f = act (λ s. (value done, record s { vars = f s.vars }))

abbrev pub after_fault : Option Fault → Outcome (Done)
after_fault none = value done
after_fault (some (raises e)) = thrown e
after_fault (some kills) = killed

unfoldable pub write_if : (ScheduledPost → Bool) → (ScheduledPost → ScheduledPost) → M Bool
write_if test f = act (λ s.
    if test s.row
    then (value true, record s { row = f s.row; writes = suc s.writes })
    else (value false, s))

module _ (env : Env) where
  -- One request to the database or to the platform: time passes and the others act first.
  unfoldable pub request : M Done
  request = act (λ s. (
    after_fault (env.fault s.step),
    record s { row = env.meddle s.step s.row; now = s.now + env.elapse s.step; step = suc s.step },
  ))

  -- A request whose answer the environment gives.
  unfoldable pub ask : {A : Type 0} → (ℕ → A) → M A
  ask answer = do n ← gets (λ s. s.step); request; pure (answer n)

  -- `UPDATE scheduled_posts SET … WHERE id = … AND attempt_id = … AND lease_until > NOW()`;
  -- the result says whether a row was updated.
  unfoldable pub fenced_update : ℕ → (ℕ → ScheduledPost → ScheduledPost) → M Bool
  fenced_update attempt_id f = do
    request
    now ← gets (λ s. s.now)
    write_if (holds_lease attempt_id now) (f now)

  unfoldable pub sleep : ℕ → M Done
  sleep ms =
      act (λ s. (value done, record s { now = s.now + ms + env.elapse s.step; step = suc s.step }))
