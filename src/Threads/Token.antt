-- ===== src/Threads/Token.antt =====
-- packages/threads-client/src/token.service.ts, for an adapter of Redis that has `get`. The clock,
-- what others do, the encryption and the answer of the platform are the record `World`, by the
-- number of the step; what one step reads, it reads at one moment.
pub mod Waiting
mod Tests
pub mod Shared
use thread_pilot.Common.{
  ℕ, zero, suc, ◌+◌, ◌*◌, Bool, true, false, not, ◌&&◌, ◌||◌, Option, none, some, List, [], ◌∷◌,
  ltb, ◌==◌, if◌then◌else◌, find_first, update_all,
}
use thread_pilot.Publishing.Post.{is_set, after}

pub record OauthToken : Type 0 where
  pub social_account_id : ℕ
  pub access_token_encrypted : ℕ
  pub expires_at : ℕ
  pub revoked_at : Option ℕ
  pub last_refreshed_at : Option ℕ

pub data TokenError : Type 0 where
  no_token revoked no_access_token refresh_failed timed_out recorded : TokenError

-- The rows, and the two keys of the account in Redis: until when the lock and the error last.
pub record Store : Type 0 where
  pub tokens : List OauthToken
  pub lock : Option ℕ
  pub error : Option ℕ

-- What the platform answers to a refresh: a token, and in how many seconds it expires.
pub record RefreshResponse : Type 0 where
  pub access_token : ℕ
  pub expires_in : Option ℕ

-- The empty access token is 0.
pub record World : Type 0 where
  pub clock : ℕ → ℕ
  pub meanwhile : ℕ → Store → Store
  pub encrypt : ℕ → ℕ
  pub decrypt : ℕ → ℕ
  pub respond : ℕ → Option RefreshResponse
  pub outrun : ℕ → Bool  -- another caller takes the released lock just before the step

pub data Answer : Type 0 where
  valid : (access_token : ℕ) → Answer
  threw : TokenError → Answer
  out_of_fuel : Answer

-- More than seven days are left.
abbrev pub is_fresh : ℕ → OauthToken → Bool
is_fresh now t = ltb (now + 604800000) t.expires_at

abbrev pub is_of : ℕ → OauthToken → Bool
is_of account t = t.social_account_id == account

abbrev pub token_of : ℕ → Store → Option OauthToken
token_of account s = find_first (is_of account) s.tokens

-- 60 days where the platform does not say.
abbrev pub lifetime_seconds : Option ℕ → ℕ
lifetime_seconds none = 5184000
lifetime_seconds (some n) = n

module _ (w : World) (account : ℕ) where
  abbrev pub renew : ℕ → RefreshResponse → OauthToken → OauthToken
  renew now r t = record t {
    access_token_encrypted = w.encrypt r.access_token;
    expires_at = now + lifetime_seconds r.expires_in * 1000;
    last_refreshed_at = some now;
  }

  abbrev pub store_response : ℕ → Option RefreshResponse → Store → Option TokenError × Store
  store_response now none s = (some refresh_failed, s)
  store_response now (some r) s =
      (none, record s { tokens = update_all (is_of account) (renew now r) s.tokens })

  abbrev pub refresh_row : ℕ → Option OauthToken → Store → Option TokenError × Store
  refresh_row now none s = (some no_token, s)
  refresh_row now (some t) s =
      let current = w.decrypt t.access_token_encrypted in
      if current == 0 then (some no_access_token, s) else store_response now (w.respond current) s

  unfoldable pub refresh : ℕ → Store → Option TokenError × Store
  refresh now s = refresh_row now (token_of account s) s

  abbrev pub read_refreshed : Option OauthToken → Answer
  read_refreshed none = threw no_token
  read_refreshed (some t) = valid (w.decrypt t.access_token_encrypted)

  -- The refresh under the lock, which is deleted in the end; an error is kept for 5 seconds.
  abbrev pub after_refresh : ℕ → Option TokenError → Store → Answer × Store
  after_refresh now none s = (read_refreshed (token_of account s), record s { lock = none })
  after_refresh now (some e) s = (threw e, record s { lock = none; error = some (now + 5000) })

  unfoldable pub hold : ℕ → Store → Answer × Store
  unfolding refresh
  hold n s =
      let (e, s') = refresh (w.clock n) (record s { error = none }) in
      after_refresh (w.clock n) e s'

  -- After the loop: the lock counts as ours if anyone holds it.
  abbrev pub own_or_time_out : ℕ → Store → Answer × Store
  own_or_time_out n s = if after s.lock (w.clock n) then hold n s else (threw timed_out, s)

  abbrev pub check_again : ℕ → Option OauthToken → Store → Answer × Store
  check_again n none s = own_or_time_out n s
  check_again n (some t) s =
      if is_fresh (w.clock n) t
      then (valid (w.decrypt t.access_token_encrypted), s)
      else own_or_time_out n s

  unfoldable pub after_wait : ℕ → Store → Answer × Store
  unfolding hold
  after_wait n s = check_again n (token_of account s) s

  -- The lock was released: the token, or the lock for ourselves.
  unfoldable pub released : ℕ → Option OauthToken → Store → Answer × Store
  unfolding after_wait
  released n none s = (threw no_token, s)
  released n (some t) s =
      if is_set t.revoked_at
      then (threw revoked, s)
      else if is_fresh (w.clock n) t
      then (valid (w.decrypt t.access_token_encrypted), s)
      else after_wait n (record s { lock = some (w.clock n + 30000) })

  -- The lock was released and the token was not refreshed, but another caller was faster with the lock:
  -- the loop goes on.
  abbrev pub loses_race : ℕ → Option OauthToken → Bool
  loses_race n none = false
  loses_race n (some t) = not (is_set t.revoked_at) && not (is_fresh (w.clock n) t) && w.outrun n

  -- The loop, from the n-th moment; the next one comes after the pause of 50 ms.
  unfoldable pub await_release : ℕ → ℕ → ℕ → Store → Answer × Store
  unfolding released after_wait
  await_release zero start n s = (out_of_fuel, s)
  await_release (suc fuel) start n s =
      let s' = w.meanwhile (suc n) s in
      let again = await_release fuel start (suc n) s' in
      if ltb (w.clock n) (start + 10000)
      then (if after s'.error (w.clock (suc n))
          then (threw recorded, s')
          else if after s'.lock (w.clock (suc n)) || loses_race (suc n) (token_of account s')
          then again
          else released (suc n) (token_of account s') s')
      else after_wait n s

  -- 10 seconds hold 200 pauses.
  unfoldable pub with_token : Option OauthToken → Store → Answer × Store
  unfolding hold await_release
  with_token none s = (threw no_token, s)
  with_token (some t) s =
      if is_set t.revoked_at
      then (threw revoked, s)
      else if is_fresh (w.clock 0) t
      then (valid (w.decrypt t.access_token_encrypted), s)
      else if after s.lock (w.clock 0)
      then await_release 201 (w.clock 0) 0 s
      else hold 0 (record s { lock = some (w.clock 0 + 30000) })

  unfoldable pub get_valid_token : Store → Answer × Store
  unfolding with_token
  get_valid_token s = with_token (token_of account s) s

  abbrev pub revoke_row : ℕ → Option OauthToken → Store → Option TokenError × Store
  revoke_row now none s = (some no_token, s)
  revoke_row now (some t) s = (
    none,
    record s {
      tokens = update_all (is_of account) (λ t. record t { revoked_at = some now }) s.tokens;
    },
  )

  unfoldable pub revoke : ℕ → Store → Option TokenError × Store
  revoke now s = revoke_row now (token_of account s) s
