-- ===== src/Threads/Token/Shared.antt =====
-- A refreshed token is what every later caller gets.
use thread_pilot.Common.{
  ℕ, ◌+◌, ◌*◌, ◌<◌, ◌≡◌, refl, ap, ◌∙◌, false, Option, none, some, lt→ltb, ◌==◌, arith,
  if◌then◌else◌, update_all, find_first-update_all, found_passes,
}
use mathlib.Core.Option
use thread_pilot.Publishing.Post.{after}
use thread_pilot.Threads.Token.{
  OauthToken, Store, RefreshResponse, World, valid, is_fresh, is_of, token_of, lifetime_seconds,
  renew, refresh, hold, with_token, get_valid_token,
}

-- A caller that finds the lock free and the platform answering.
pub record Refreshes (w : World) (account : ℕ) (s : Store) (t : OauthToken) (r : RefreshResponse)
    : Type 0 where
  pub found : token_of account s ≡ some t
  pub unrevoked : t.revoked_at ≡ none
  pub expiring : is_fresh (w.clock 0) t ≡ false
  pub unlocked : after s.lock (w.clock 0) ≡ false
  pub not_empty : (w.decrypt t.access_token_encrypted == 0) ≡ false
  pub answered : w.respond (w.decrypt t.access_token_encrypted) ≡ some r
  pub decrypts : (x : ℕ) → w.decrypt (w.encrypt x) ≡ x

module _ (w : World) (account : ℕ) (s : Store) (t : OauthToken) (r : RefreshResponse)
    (h : Refreshes w account s t r) where
  -- The store that the call leaves.
  abbrev pub left : Store
  left = record s {
    tokens = update_all (is_of account) (renew w account (w.clock 0) r) s.tokens;
    lock = none;
    error = none;
  }

  left_token : token_of account left ≡ some (renew w account (w.clock 0) r t)
  left_token =
      find_first-update_all (is_of account) (is_of account) (renew w account (w.clock 0) r) s.tokens
        (λ x. refl)
      ∙ ap (Option.map (λ x. if is_of account x then renew w account (w.clock 0) r x else x))
          h.found
      ∙ ap (λ b. some (if b then renew w account (w.clock 0) r t else t))
          (found_passes (is_of account) s.tokens t h.found)

  refreshed_once : get_valid_token w account s ≡ (valid r.access_token, left)
  unfolding get_valid_token with_token hold refresh
  refreshed_once =
      let found = h.found in
      let unrevoked = h.unrevoked in
      let expiring = h.expiring in
      let unlocked = h.unlocked in
      let not_empty = h.not_empty in
      let answered = h.answered in
      let decrypts = h.decrypts r.access_token in
      let there = left_token in
      ground (arith, found, unrevoked, expiring, unlocked, not_empty, answered, decrypts, there)

  -- The call refreshes the token, releases the lock and clears the error; and until seven days before
  -- the new token expires, every later call, whatever the platform would answer then, returns the
  -- same token and changes nothing.
  pub get_valid_token_shared :
      (clock : ℕ → ℕ) (meanwhile : ℕ → Store → Store) (respond : ℕ → Option RefreshResponse)
      → clock 0 + 604800000 < w.clock 0 + lifetime_seconds r.expires_in * 1000
      → (get_valid_token w account s ≡ (valid r.access_token, left))
        × (get_valid_token
              (record w { clock = clock; meanwhile = meanwhile; respond = respond })
              account
              left
            ≡ (valid r.access_token, left))
  unfolding get_valid_token with_token
  get_valid_token_shared clock meanwhile respond early = (
    refreshed_once,
    let there = left_token in
        let unrevoked = h.unrevoked in
        let decrypts = h.decrypts r.access_token in
        let fresh =
          lt→ltb (clock 0 + 604800000) (w.clock 0 + lifetime_seconds r.expires_in * 1000) early in
        ground (arith, there, unrevoked, decrypts, fresh),
  )
