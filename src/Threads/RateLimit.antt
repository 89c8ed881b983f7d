-- ===== src/Threads/RateLimit.antt =====
-- packages/threads-client/src/rate-limit.service.ts. The rows of platform_rate_limits are known by
-- account and category; the answer of the platform is an argument.
pub mod Window
use thread_pilot.Common.{
  ℕ, zero, suc, ◌+◌, ◌-◌, ◌*◌, Bool, true, false, ◌&&◌, ◌||◌, not, Option, none, some, List, [],
  ◌∷◌, ltb, leb, ◌==◌, if◌then◌else◌, find_first, update_all,
}

-- Integers: `pos n` is n, `negsuc n` is -(n + 1).
pub data ℤ : Type 0 where
  pos negsuc : ℕ → ℤ

abbrev pub difference : ℕ → ℕ → ℤ
difference m n = if ltb m n then negsuc (n - m - 1) else pos (m - n)

abbrev pub decrement : ℤ → ℤ
decrement (pos zero) = negsuc 0
decrement (pos (suc n)) = pos n
decrement (negsuc n) = negsuc (suc n)

abbrev pub is_positive : ℤ → Bool
is_positive (pos n) = ltb 0 n
is_positive (negsuc n) = false

pub data Category : Type 0 where
  post reply : Category

abbrev pub same_category : Category → Category → Bool
same_category post post = true
same_category reply reply = true
same_category _ _ = false

pub record PlatformRateLimit : Type 0 where
  pub social_account_id : ℕ
  pub category : Category
  pub limit_value : ℕ
  pub used : ℕ
  pub remaining : ℤ
  pub reset_at : ℕ
  pub last_synced_at : ℕ

-- The answer of the publishing limit endpoint; the reply's part may be missing.
pub record Allowance : Type 0 where
  pub quota_total : ℕ
  pub quota_usage : ℕ

pub record LiveQuota : Type 0 where
  pub quota_duration : ℕ
  pub posts : Allowance
  pub replies : Option Allowance

abbrev pub is_limit_of : ℕ → Category → PlatformRateLimit → Bool
is_limit_of account category r = r.social_account_id == account && same_category r.category category

-- The row that a synchronisation writes.
abbrev pub synced : ℕ → ℕ → ℕ → Category → Allowance → PlatformRateLimit
synced now duration account category a = record {
  social_account_id = account;
  category = category;
  limit_value = a.quota_total;
  used = a.quota_usage;
  remaining = difference a.quota_total a.quota_usage;
  reset_at = now + duration * 1000;
  last_synced_at = now;
}

unfoldable pub upsert_limit : PlatformRateLimit → List PlatformRateLimit → List PlatformRateLimit
upsert_limit r [] = r ∷ []
upsert_limit r (q ∷ qs) =
    let rest = upsert_limit r qs in
    if is_limit_of r.social_account_id r.category q then r ∷ qs else q ∷ rest

abbrev pub upsert_reply :
    ℕ → ℕ → ℕ → Option Allowance → List PlatformRateLimit → List PlatformRateLimit
upsert_reply now duration account none rs = rs
upsert_reply now duration account (some a) rs =
    upsert_limit (synced now duration account reply a) rs

-- A failure is only logged.
unfoldable pub sync_live_quota :
    ℕ → ℕ → Option LiveQuota → List PlatformRateLimit → List PlatformRateLimit
unfolding upsert_limit
sync_live_quota now account none rs = rs
sync_live_quota now account (some q) rs =
    upsert_reply now q.quota_duration account q.replies
      (upsert_limit (synced now q.quota_duration account post q.posts) rs)

abbrev pub sync_interval_ms : ℕ
sync_interval_ms = 300000

-- A call, with the time, the answer of the platform should it be asked, the default limit of the
-- category, and what others write between the last read and the update.
pub record Call : Type 0 where
  pub now : ℕ
  pub social_account_id : ℕ
  pub category : Category
  pub answer : Option LiveQuota
  pub default_limit : ℕ
  pub meanwhile : List PlatformRateLimit → List PlatformRateLimit

pub data Verdict : Type 0 where
  allowed : (remaining : ℤ) → Verdict
  denied : Verdict
  record_not_found : Verdict  -- the exception of an update of no row

abbrev pub is_stale : ℕ → Option PlatformRateLimit → Bool
is_stale now none = true
is_stale now (some r) = ltb (r.last_synced_at + sync_interval_ms) now

abbrev pub remaining_or : ℕ → Option PlatformRateLimit → ℤ
remaining_or default none = pos default
remaining_or default (some r) = r.remaining

abbrev pub consume : PlatformRateLimit → PlatformRateLimit
consume r = record r { used = suc r.used; remaining = decrement r.remaining }

abbrev pub find_limit : Call → List PlatformRateLimit → Option PlatformRateLimit
find_limit c rs = find_first (is_limit_of c.social_account_id c.category) rs

-- The update, of a row that is there.
abbrev pub update_limit :
    Call → ℤ → Option PlatformRateLimit → List PlatformRateLimit → Verdict × List PlatformRateLimit
update_limit c remaining none rs = (record_not_found, rs)
update_limit c remaining (some r) rs = (
  allowed (decrement remaining),
  update_all (is_limit_of c.social_account_id c.category) consume rs,
)

abbrev pub consume_if : Bool → Call → ℤ → List PlatformRateLimit → Verdict × List PlatformRateLimit
consume_if false c remaining rs = (denied, rs)
consume_if true c remaining rs =
    let rs' = c.meanwhile rs in update_limit c remaining (find_limit c rs') rs'

-- The rows after the synchronisation, if one is due.
unfoldable pub refreshed : Call → List PlatformRateLimit → List PlatformRateLimit
unfolding sync_live_quota
refreshed c rs =
    if is_stale c.now (find_limit c rs)
    then sync_live_quota c.now c.social_account_id c.answer rs
    else rs

unfoldable pub check_and_consume : Call → List PlatformRateLimit → Verdict × List PlatformRateLimit
unfolding refreshed
check_and_consume c rs =
    let rs' = refreshed c rs in
    let remaining = remaining_or c.default_limit (find_limit c rs') in
    consume_if (is_positive remaining) c remaining rs'
