-- ===== src/Publishing/Classify.antt =====
-- classifyPublishError: what kind of failure an exception of the publishing run is.
use Prim.Native.String.{String}
use text.Mathlib.Text.{find?, ◌==◌ as str_eq}
use thread_pilot.Common.{ℕ, Bool, ◌&&◌, ◌||◌, leb, ◌==◌, if◌then◌else◌}
use thread_pilot.Publishing.Post.{
  ErrorCode, needs_auth, threads_bad_request, container_not_found, threads_server_error,
  transaction_timeout, network_timeout, internal_error, is_set,
}
use thread_pilot.Publishing.Effect.{JsError, Exn, fencing_expired, threads_api_error, js_error}

pub data Kind : Type 0 where
  permanent auth_required retryable : Kind

pub record Classification : Type 0 where
  pub kind : Kind
  pub code : ErrorCode
  pub message : String

-- `s.includes(t)`.
unfoldable pub includes : String → String → Bool
includes s t = is_set (find? s t)

-- `s || d`.
or_default : String → String → String
or_default s d = if str_eq s "" then d else s

-- The `ErrorClassification` of an error by its properties; an absent property is "".
unfoldable pub classify_error : JsError → Classification
unfolding or_default
classify_error e =
    if transaction_timed_out
    then record {
      kind = retryable;
      code = transaction_timeout;
      message = or_default msg "Database transaction timed out during publishing execution";
    }
    else if missing_or_invalid_token
    then record {
      kind = auth_required;
      code = needs_auth;
      message = or_default msg "OAuth token missing or invalid";
    }
    else if str_eq e.name "TimeoutError" || str_eq e.name "AbortError"
    then record { kind = retryable; code = network_timeout; message = "Request timed out" }
    else record {
      kind = retryable;
      code = internal_error;
      message = or_default msg "Unknown execution failure";
    }
  where
    msg : String
    msg = e.message

    transaction_timed_out : Bool
    transaction_timed_out =
        includes msg "Transaction already closed"
        || includes msg "expired transaction"
        || includes msg "Transaction API error"

    prisma_missing_oauth_token : Bool
    prisma_missing_oauth_token =
        str_eq e.code "P2025"
        && (str_eq e.model_name "OAuthToken"
            || includes msg "OAuthToken"
            || includes msg "oAuthToken")

    token_expired : Bool
    token_expired =
        includes msg "token expired"
        || includes msg "token has expired"
        || includes msg "access token expired"
        || includes msg "OAuthException"
        || (includes msg "token" && includes msg "expired")

    missing_or_invalid_token : Bool
    missing_or_invalid_token =
        prisma_missing_oauth_token
        || includes msg "No OAuth token"
        || includes msg "OAuth token not found"
        || includes msg "Social account or OAuth token not found"
        || includes msg "revoked"
        || token_expired
        || includes msg "Token refresh failed"
        || includes msg "No access token"

-- A `ThreadsApiError` has the name `ThreadsApiError` and no code.
abbrev pub api_as_error : String → JsError
api_as_error message = record {
  name = "ThreadsApiError";
  code = "";
  model_name = "";
  message = message;
}

unfoldable pub is_auth_failure : ℕ → String → Bool
is_auth_failure status_code body =
    status_code == 401
    || status_code == 403
    || includes body "OAuthException"
    || includes body "access token"
    || includes body "permissions"

unfoldable pub classify_publish_error : Exn → Classification
classify_publish_error (threads_api_error status_code body message) =
    if is_auth_failure status_code body
    then record { kind = auth_required; code = needs_auth; message = message }
    else if status_code == 400
    then record { kind = permanent; code = threads_bad_request; message = message }
    else if status_code == 404
    then record {
      kind = permanent;
      code = container_not_found;
      message = "Media container not found on Threads platform";
    }
    else if status_code == 429 || leb 500 status_code
    then record { kind = retryable; code = threads_server_error; message = message }
    else classify_error (api_as_error message)
classify_publish_error (js_error e) = classify_error e
classify_publish_error fencing_expired = classify_error (record {
  name = "FencingTokenExpiredException";
  code = "";
  model_name = "";
  message = "Fencing token expired or lost lease";
})

-- `err.message`.
unfoldable pub message_of : Exn → String
message_of (threads_api_error _ _ message) = message
message_of (js_error e) = e.message
message_of fencing_expired = "Fencing token expired or lost lease"
