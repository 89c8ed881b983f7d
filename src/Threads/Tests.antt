-- ===== src/Threads/Tests.antt =====
-- Calls of the rate limit with two places left, and one without a row.
use thread_pilot.Common.{ℕ, ◌+◌, ◌≤◌, ◌≡◌, refl, none, [], ◌∷◌, arith, min, length}
use thread_pilot.Threads.RateLimit.{
  pos, post, PlatformRateLimit, Call, record_not_found, check_and_consume,
}
use thread_pilot.Threads.RateLimit.Window.{
  missing_row_raises, allowed_calls, allowed_calls-min, Within,
}

abbrev a_row : PlatformRateLimit
a_row = record {
  social_account_id = 2;
  category = post;
  limit_value = 250;
  used = 248;
  remaining = pos 2;
  reset_at = 90000;
  last_synced_at = 1000;
}

abbrev call_at : ℕ → Call
call_at now = record {
  now = now;
  social_account_id = 2;
  category = post;
  answer = none;
  default_limit = 250;
  meanwhile = λ rs. rs;
}

call_at-Within : (now : ℕ) → now ≤ 1000 + 300000 → Within 2 post 1000 (call_at now)
call_at-Within now le = record {
  its_account = refl;
  its_category = refl;
  soon = le;
  alone = λ rs. refl;
}

missing_row_raises_example : (check_and_consume (call_at 2000) []).0 ≡ record_not_found
missing_row_raises_example = missing_row_raises (call_at 2000) [] refl refl refl (omega arith)

allowed_calls-min_example :
    allowed_calls (call_at 2000 ∷ call_at 3000 ∷ call_at 4000 ∷ []) (a_row ∷ [])
    ≡ min (length (call_at 2000 ∷ call_at 3000 ∷ call_at 4000 ∷ [])) 2
allowed_calls-min_example =
    allowed_calls-min 2 post 1000 2 (call_at 2000 ∷ call_at 3000 ∷ call_at 4000 ∷ []) (a_row ∷ [])
      (
        call_at-Within 2000 (omega arith),
        (call_at-Within 3000 (omega arith), (call_at-Within 4000 (omega arith), tt)),
      )
      (record { row = a_row; found = refl; its_time = refl; its_left = refl })
