-- ===== src/Publishing/Kinds.antt =====
-- Which failures are given up at once.
use thread_pilot.Common.{ℕ, ◌≡◌, ◌⊎◌, ap, ◌↔◌, Bool, true, false, arith}
use Prim.Native.String.{String}
use thread_pilot.Publishing.Effect.{JsError, Exn, fencing_expired, threads_api_error, js_error}
use thread_pilot.Publishing.Classify.{
  Kind, permanent, api_as_error, classify_error, is_auth_failure, classify_publish_error,
}

-- An answer 400 or 404 of the platform that is no authorization failure.
pub data GivenUp : Exn → Type 0 where
  by_answer :
      (status : ℕ) (body message : String)
      → (status ≡ 400) ⊎ (status ≡ 404)
      → is_auth_failure status body ≡ false
      → GivenUp (threads_api_error status body message)

abbrev is_permanent : Kind → Bool
is_permanent permanent = true
is_permanent _ = false

classify_error-kind : (e : JsError) → is_permanent (classify_error e).kind ≡ false
unfolding classify_error
classify_error-kind e = ground arith

answer_permanent :
    (status : ℕ) (body message : String)
    → is_permanent (classify_publish_error (threads_api_error status body message)).kind ≡ true
    → ((status ≡ 400) ⊎ (status ≡ 404)) × (is_auth_failure status body ≡ false)
unfolding classify_publish_error
answer_permanent status body message h = ground (arith, classify_error-kind (api_as_error message))

permanent-GivenUp : (e : Exn) → is_permanent (classify_publish_error e).kind ≡ true → GivenUp e
unfolding classify_publish_error
permanent-GivenUp (threads_api_error status body message) h =
    let (codes, not_auth) = answer_permanent status body message h in
    by_answer status body message codes not_auth
permanent-GivenUp (js_error e) h = cc (h, classify_error-kind e)
permanent-GivenUp fencing_expired h = cc (h, classify_error-kind _)

GivenUp-permanent : (e : Exn) → GivenUp e → (classify_publish_error e).kind ≡ permanent
unfolding classify_publish_error
GivenUp-permanent e (by_answer status body message codes not_auth) = ground arith

-- `classifyPublishError` calls a failure PERMANENT exactly if it is an answer 400 or 404 of the
-- platform that does not look like an authorization failure.
pub permanent_iff : (e : Exn) → ((classify_publish_error e).kind ≡ permanent) ↔ GivenUp e
permanent_iff e = (λ h. permanent-GivenUp e (ap is_permanent h), GivenUp-permanent e)
