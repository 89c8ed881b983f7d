-- ===== src/Threads/Token/Waiting.antt =====
-- A caller that waits for another one's refresh does not wait for ever, and revoked tokens are refused.
use thread_pilot.Common.{
  ℕ, zero, suc, ◌+◌, ◌*◌, ◌≤◌, ◌≡◌, ◌≢◌, refl, ap, Bool, true, false, ◌||◌, Option, none, some, ltb,
  ltb→lt, arith, if◌then◌else◌,
}
use thread_pilot.Publishing.Post.{is_set, after}
use thread_pilot.Threads.Token.{
  OauthToken, TokenError, revoked, timed_out, recorded, Store, World, Answer, valid, threw,
  out_of_fuel, is_fresh, token_of, refresh, read_refreshed, after_refresh, hold, own_or_time_out,
  check_again, after_wait, loses_race, released, await_release, with_token, get_valid_token,
}

abbrev ended : Answer → Bool
ended out_of_fuel = false
ended _ = true

if_ended :
    (b : Bool) (x y : Answer × Store)
    → ended x.0 ≡ true
    → ended y.0 ≡ true
    → ended (if b then x else y).0 ≡ true
if_ended true x y h k = h
if_ended false x y h k = k

module _ (w : World) (account : ℕ) where
  after_refresh-ended :
      (now : ℕ) (e : Option TokenError) (s : Store)
      → ended (after_refresh w account now e s).0 ≡ true
  after_refresh-ended now none s = read_ended (token_of account s)
    where
      read_ended : (o : Option OauthToken) → ended (read_refreshed w account o) ≡ true
      read_ended none = refl
      read_ended (some t) = refl
  after_refresh-ended now (some e) s = refl

  hold-ended : (n : ℕ) (s : Store) → ended (hold w account n s).0 ≡ true
  unfolding hold
  hold-ended n s =
      let r = refresh w account (w.clock n) (record s { error = none }) in
      after_refresh-ended (w.clock n) r.0 r.1

  own_or_time_out-ended : (n : ℕ) (s : Store) → ended (own_or_time_out w account n s).0 ≡ true
  own_or_time_out-ended n s =
      if_ended (after s.lock (w.clock n)) (hold w account n s) (threw timed_out, s) (hold-ended n s)
        refl

  check_again-ended :
      (n : ℕ) (o : Option OauthToken) (s : Store) → ended (check_again w account n o s).0 ≡ true
  check_again-ended n none s = own_or_time_out-ended n s
  check_again-ended n (some t) s =
      if_ended (is_fresh (w.clock n) t) (valid (w.decrypt t.access_token_encrypted), s) _ refl
        (own_or_time_out-ended n s)

  after_wait-ended : (n : ℕ) (s : Store) → ended (after_wait w account n s).0 ≡ true
  unfolding after_wait
  after_wait-ended n s = check_again-ended n (token_of account s) s

  released-ended :
      (n : ℕ) (o : Option OauthToken) (s : Store) → ended (released w account n o s).0 ≡ true
  unfolding released
  released-ended n none s = refl
  released-ended n (some t) s =
      if_ended (is_set t.revoked_at) (threw revoked, s) _ refl
        (if_ended (is_fresh (w.clock n) t) (valid (w.decrypt t.access_token_encrypted), s) _ refl
          (after_wait-ended n (record s { lock = some (w.clock n + 30000) })))

  await_release-ended :
      (fuel start n : ℕ) (s : Store)
      → ((k : ℕ) → w.clock k + 50 ≤ w.clock (suc k))
      → start + 10050 ≤ w.clock n + 50 * fuel
      → 1 ≤ fuel
      → ended (await_release w account fuel start n s).0 ≡ true
  unfolding await_release
  await_release-ended zero start n s pause enough some_fuel =
      absurd (let no_fuel : ⊥ = omega arith in no_fuel)
  await_release-ended (suc fuel) start n s pause enough some_fuel =
      on_test (ltb (w.clock n) (start + 10000)) refl (λ e.
        let less = ltb→lt (w.clock n) (start + 10000) e in
        let tick = pause n in
        await_release-ended fuel start (suc n) (w.meanwhile (suc n) s) pause (omega arith)
          (omega arith))
    where
      next : Store
      next = w.meanwhile (suc n) s

      again : Answer × Store
      again = await_release w account fuel start (suc n) next

      on_test :
          (b : Bool)
          → ltb (w.clock n) (start + 10000) ≡ b
          → (ltb (w.clock n) (start + 10000) ≡ true → ended again.0 ≡ true)
          → ended
              (if b
                then (if after next.error (w.clock (suc n))
                    then (threw recorded, next)
                    else if after next.lock (w.clock (suc n))
                        || loses_race w account (suc n) (token_of account next)
                    then again
                    else released w account (suc n) (token_of account next) next)
                else after_wait w account n s).0
            ≡ true
      on_test true e later =
          if_ended (after next.error (w.clock (suc n))) (threw recorded, next) _ refl
            (if_ended
              (after next.lock (w.clock (suc n))
                || loses_race w account (suc n) (token_of account next))
              again _ (later e) (released-ended (suc n) (token_of account next) next))
      on_test false e later = after_wait-ended n s

  with_token-ended :
      (o : Option OauthToken) (s : Store)
      → ((k : ℕ) → w.clock k + 50 ≤ w.clock (suc k))
      → ended (with_token w account o s).0 ≡ true
  unfolding with_token
  with_token-ended none s pause = refl
  with_token-ended (some t) s pause =
      if_ended (is_set t.revoked_at) (threw revoked, s) _ refl
        (if_ended (is_fresh (w.clock 0) t) (valid (w.decrypt t.access_token_encrypted), s) _ refl
          (if_ended (after s.lock (w.clock 0)) (await_release w account 201 (w.clock 0) 0 s)
            (hold w account 0 (record s { lock = some (w.clock 0 + 30000) }))
            (await_release-ended 201 (w.clock 0) 0 s pause (omega arith) (omega arith))
            (hold-ended 0 (record s { lock = some (w.clock 0 + 30000) }))))

  -- If no pause is shorter than its 50 milliseconds, a call answers with a token or an exception
  -- within its 201 rounds of waiting, whatever the others do with the lock.
  pub get_valid_token_ends :
      (s : Store)
      → ((k : ℕ) → w.clock k + 50 ≤ w.clock (suc k))
      → (get_valid_token w account s).0 ≢ out_of_fuel
  unfolding get_valid_token
  get_valid_token_ends s pause e =
      let answered = with_token-ended (token_of account s) s pause in
      let not_ended = ap ended e in let both : ⊥ = ground arith in both
