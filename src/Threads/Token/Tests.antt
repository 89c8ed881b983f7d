-- ===== src/Threads/Token/Tests.antt =====
-- A token that is refreshed, and a lock that another process never releases.
use thread_pilot.Common.{◌+◌, ◌*◌, ◌≡◌, ◌≢◌, refl, none, some, [], ◌∷◌, false, arith}
use thread_pilot.Threads.Token.{
  OauthToken, Store, RefreshResponse, World, valid, out_of_fuel, get_valid_token,
}
use thread_pilot.Threads.Token.Waiting.{get_valid_token_ends}
use thread_pilot.Threads.Token.Shared.{Refreshes, left, get_valid_token_shared}

abbrev old_token : OauthToken
old_token = record {
  social_account_id = 2;
  access_token_encrypted = 11;
  expires_at = 1000;
  revoked_at = none;
  last_refreshed_at = none;
}

abbrev new_token : RefreshResponse
new_token = record { access_token = 12; expires_in = none }

abbrev world : World
world = record {
  clock = λ n. 500 + 50 * n;
  meanwhile = λ n s. s;
  encrypt = λ x. x;
  decrypt = λ x. x;
  respond = λ x. some new_token;
  outrun = λ n. false;
}

abbrev locked : Store
locked = record { tokens = old_token ∷ []; lock = some 9000000; error = none }

abbrev unlocked : Store
unlocked = record { tokens = old_token ∷ []; lock = none; error = none }

get_valid_token_ends_example : (get_valid_token world 2 locked).0 ≢ out_of_fuel
get_valid_token_ends_example = get_valid_token_ends world 2 locked (λ k. omega arith)

refreshes_it : Refreshes world 2 unlocked old_token new_token
refreshes_it = record {
  found = refl;
  unrevoked = refl;
  expiring = refl;
  unlocked = refl;
  not_empty = refl;
  answered = refl;
  decrypts = λ x. refl;
}

get_valid_token_shared_example :
    (get_valid_token world 2 unlocked
      ≡ (valid 12, left world 2 unlocked old_token new_token refreshes_it))
    × (get_valid_token
          (record world { clock = λ n. 700; meanwhile = λ n s. s; respond = λ x. none })
          2
          (left world 2 unlocked old_token new_token refreshes_it)
        ≡ (valid 12, left world 2 unlocked old_token new_token refreshes_it))
get_valid_token_shared_example =
    get_valid_token_shared world 2 unlocked old_token new_token refreshes_it (λ n. 700) (λ n s. s)
      (λ x. none) (omega arith)
