-- ===== src/Threads/RateLimit/Window.antt =====
-- How many calls are allowed between two synchronisations, and what a missing row leads to.
use thread_pilot.Common.{
  ℕ, zero, suc, ◌+◌, ◌≤◌, ◌<◌, ◌≡◌, refl, sym, ap, ◌∙◌, min, Bool, true, false, none, some, List,
  [], ◌∷◌, arith, All, length, find_first, update_all, found_passes, find_first-update_all,
  if◌then◌else◌,
}
use mathlib.Core.Option
use mathlib.Core.Path.{subst}
use thread_pilot.Threads.RateLimit.{
  pos, decrement, Category, PlatformRateLimit, is_limit_of, Call, Verdict, allowed, denied,
  record_not_found, sync_interval_ms, consume, find_limit, refreshed, check_and_consume,
  sync_live_quota,
}

-- An account without a row whose platform does not answer gets an exception, and never the default
-- limit, unless that limit is zero.
pub missing_row_raises :
    (c : Call) (rs : List PlatformRateLimit)
    → find_limit c rs ≡ none
    → find_limit c (c.meanwhile rs) ≡ none
    → c.answer ≡ none
    → 0 < c.default_limit
    → (check_and_consume c rs).0 ≡ record_not_found
unfolding check_and_consume refreshed sync_live_quota
missing_row_raises c rs e e' a lt = ground (arith, e, e', a)

-- Calls one after the other, and how many of them are allowed.
abbrev is_allowed : Verdict → Bool
is_allowed (allowed _) = true
is_allowed _ = false

abbrev pub allowed_calls : List Call → List PlatformRateLimit → ℕ
allowed_calls [] rs = 0
allowed_calls (c ∷ cs) rs =
    let (v, rs') = check_and_consume c rs in
    let rest = allowed_calls cs rs' in if is_allowed v then suc rest else rest

-- A call of the account and category within five minutes of the time, undisturbed.
pub record Within (account : ℕ) (category : Category) (synced_at : ℕ) (c : Call) : Type 0 where
  pub its_account : c.social_account_id ≡ account
  pub its_category : c.category ≡ category
  pub soon : c.now ≤ synced_at + sync_interval_ms
  pub alone : (rs : List PlatformRateLimit) → c.meanwhile rs ≡ rs

-- The row of the account and category, with this much left.
pub record Left (account : ℕ) (category : Category) (synced_at left : ℕ)
    (rs : List PlatformRateLimit) : Type 0 where
  pub row : PlatformRateLimit
  pub found : find_first (is_limit_of account category) rs ≡ some row
  pub its_time : row.last_synced_at ≡ synced_at
  pub its_left : row.remaining ≡ pos left

consume-Left :
    (account : ℕ) (category : Category) (synced_at left : ℕ) (rs : List PlatformRateLimit)
    → Left account category synced_at (suc left) rs
    → Left account category synced_at left (update_all (is_limit_of account category) consume rs)
consume-Left account category synced_at left rs l =
    let ours = found_passes (is_limit_of account category) rs l.row l.found in
    record {
      row = consume l.row;
      found =
          find_first-update_all (is_limit_of account category) (is_limit_of account category)
            consume rs (λ r. refl)
          ∙ ap (Option.map (λ r. if is_limit_of account category r then consume r else r)) l.found
          ∙ ap (λ b. some (if b then consume l.row else l.row)) ours;
      its_time = l.its_time;
      its_left = ap decrement l.its_left;
    }

check_and_consume-Left :
    (c : Call) (synced_at left : ℕ) (rs : List PlatformRateLimit)
    → Within c.social_account_id c.category synced_at c
    → Left c.social_account_id c.category synced_at (suc left) rs
    → check_and_consume c rs
      ≡ (allowed (pos left), update_all (is_limit_of c.social_account_id c.category) consume rs)
unfolding check_and_consume refreshed
check_and_consume-Left c synced_at left rs w l =
    let found = l.found in
    let time = l.its_time in
    let some_left = l.its_left in
    let soon = w.soon in
    let alone = w.alone rs in ground (arith, found, time, some_left, soon, alone)

check_and_consume-denied :
    (c : Call) (synced_at : ℕ) (rs : List PlatformRateLimit)
    → Within c.social_account_id c.category synced_at c
    → Left c.social_account_id c.category synced_at 0 rs
    → check_and_consume c rs ≡ (denied, rs)
unfolding check_and_consume refreshed
check_and_consume-denied c synced_at rs w l =
    let found = l.found in
    let time = l.its_time in
    let none_left = l.its_left in let soon = w.soon in ground (arith, found, time, none_left, soon)

moved_Left :
    (c : Call) (account : ℕ) (category : Category) (synced_at left : ℕ)
    (rs : List PlatformRateLimit)
    → Within account category synced_at c
    → Left account category synced_at left rs
    → Left c.social_account_id c.category synced_at left rs
moved_Left c account category synced_at left rs w l =
    subst (λ k. Left c.social_account_id k synced_at left rs) (sym w.its_category)
      (subst (λ a. Left a category synced_at left rs) (sym w.its_account) l)

moved_back_Left :
    (c : Call) (account : ℕ) (category : Category) (synced_at left : ℕ)
    (rs : List PlatformRateLimit)
    → Within account category synced_at c
    → Left c.social_account_id c.category synced_at left rs
    → Left account category synced_at left rs
moved_back_Left c account category synced_at left rs w l =
    subst (λ k. Left account k synced_at left rs) w.its_category
      (subst (λ a. Left a c.category synced_at left rs) w.its_account l)

own_Within :
    (c : Call) (account : ℕ) (category : Category) (synced_at : ℕ)
    → Within account category synced_at c
    → Within c.social_account_id c.category synced_at c
own_Within c account category synced_at w = record {
  its_account = refl;
  its_category = refl;
  soon = w.soon;
  alone = w.alone;
}

-- Of undisturbed calls for one account and category, all within five minutes of the last
-- synchronisation of its row, which leaves so many, exactly the first so many are allowed.
pub allowed_calls-min :
    (account : ℕ) (category : Category) (synced_at left : ℕ) (cs : List Call)
    (rs : List PlatformRateLimit)
    → All (Within account category synced_at) cs
    → Left account category synced_at left rs
    → allowed_calls cs rs ≡ min (length cs) left
allowed_calls-min account category synced_at left [] rs all l = omega arith
allowed_calls-min account category synced_at zero (c ∷ cs) rs (w, all) l =
    let call =
      check_and_consume-denied c synced_at rs (own_Within c account category synced_at w)
        (moved_Left c account category synced_at zero rs w l) in
    let rest = allowed_calls-min account category synced_at zero cs rs all l in
    ap (λ x. if is_allowed x.0 then suc (allowed_calls cs x.1) else allowed_calls cs x.1) call
    ∙ rest
    ∙ omega arith
allowed_calls-min account category synced_at (suc left) (c ∷ cs) rs (w, all) l =
    let here = moved_Left c account category synced_at (suc left) rs w l in
    let call =
      check_and_consume-Left c synced_at left rs (own_Within c account category synced_at w) here in
    let rs' = update_all (is_limit_of c.social_account_id c.category) consume rs in
    let rest = allowed_calls-min account category synced_at left cs rs' all (
      moved_back_Left c account category synced_at left rs' w
        (consume-Left c.social_account_id c.category synced_at left rs here)) in
    ap (λ x. if is_allowed x.0 then suc (allowed_calls cs x.1) else allowed_calls cs x.1) call
    ∙ ap suc rest
    ∙ omega arith
