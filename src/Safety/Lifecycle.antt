-- ===== src/Safety/Lifecycle.antt =====
-- The life of an override token: granted, presented, consumed.
use thread_pilot.Common.{
  ℕ, ◌<◌, ◌≡◌, refl, sym, ◌≢◌, inl, inr, Bool, true, false, none, some, List, [], ◌∷◌, ◌==◌,
  if◌then◌else◌, arith, ap, ◌∙◌, Bool-cases,
}
use thread_pilot.Safety.Record.{
  flagged_approval_required, Audit, OverrideLog, Store, ok, find_first, update_all, count_if,
}
use thread_pilot.Safety.Override.{
  Request, is_for, upsert_override, request_override, permitted, check_audit, check_latest,
  audit_in, audit_for, is_publish_permitted, is_consumable, consume, consume_override_token,
}
use thread_pilot.Safety.Verdict.{by_override, Allowed-check_audit}
use thread_pilot.Safety.Grant.{Granted, request_override-Granted}

find-upsert_override :
    (l : OverrideLog) (logs : List OverrideLog)
    → find_first (is_for l.audit_id) (upsert_override l logs) ≡ some l
unfolding upsert_override
find-upsert_override l [] = ground arith
find-upsert_override l (k ∷ ks) = ground (arith, find-upsert_override l ks)

find_first-holds :
    (p : Audit → Bool) (rows : List Audit) {a : Audit} → find_first p rows ≡ some a → p a ≡ true
find_first-holds p [] h = cc
find_first-holds p (b ∷ bs) h = elim (Bool-cases (p b)) [
  | inl hit ↦ ground (arith, hit)
  | inr miss ↦ find_first-holds p bs (rw miss at h)
]

count_if-positive :
    (p q : OverrideLog → Bool) (logs : List OverrideLog) {l : OverrideLog}
    → find_first p logs ≡ some l
    → q l ≡ true
    → (count_if q logs == 0) ≡ false
count_if-positive p q [] h u = cc
count_if-positive p q (k ∷ ks) h u = elim (Bool-cases (p k)) [
  | inl hit ↦ ground (arith, hit)
  | inr miss ↦ positive_tail (count_if-positive p q ks (rw miss at h) u)
]
  where
    positive_tail : (count_if q ks == 0) ≡ false → (count_if q (k ∷ ks) == 0) ≡ false
    positive_tail e = ground arith

-- The row with the audit's override after the rows with the token were consumed.
is_for-consumed :
    (audit now workspace account token post : ℕ) (k : OverrideLog)
    → is_for audit (if is_consumable now workspace account token k then consume now post k else k)
      ≡ is_for audit k
is_for-consumed audit now w c token post k = ground arith

find-consumed :
    (now workspace account token post audit : ℕ) (l : OverrideLog) (logs : List OverrideLog)
    → find_first (is_for audit) logs ≡ some l
    → is_consumable now workspace account token l ≡ true
    → find_first
        (is_for audit)
        (update_all (is_consumable now workspace account token) (consume now post) logs)
      ≡ some (consume now post l)
find-consumed now w c token post audit l [] h u = cc
find-consumed now w c token post audit l (k ∷ ks) h u = elim (Bool-cases (is_for audit k)) [
  | inl same ↦ rw (is_for-consumed audit now w c token post k, same) (ground arith)
  | inr other ↦
      rw (is_for-consumed audit now w c token post k, other)
        (find-consumed now w c token post audit l ks (rw other at h) u)
]

spent_lem :
    (now token later post : ℕ) (logs : List OverrideLog) (l : OverrideLog) (a : Audit)
    → a.status ≡ flagged_approval_required
    → find_first (is_for a.id) logs ≡ some (consume now post l)
    → check_audit later (some token) logs a ≢ permitted
unfolding check_audit
spent_lem now token later post logs l a st found h = ground (arith, found)

granted_lem :
    (now token : ℕ) (r : Request) (s s' : Store) (l : OverrideLog) (g : Granted now token r s s' l)
    → (find_first (is_for g.audit.id) s'.override_logs ≡ some l)
      × (l.expires_at ≡ g.audit.expires_at)
      × (l.consumed_at ≡ none)
granted_lem now token r s s' l g =
    let hit = find_first-holds (λ b. b.id == r.audit_id) s.audits g.audit_found in
    let e : g.audit.id ≡ l.audit_id = ground (arith, hit, g.log) in
    (
      ap (λ i. find_first (is_for i) s'.override_logs) e
          ∙ ap (find_first (is_for l.audit_id)) g.upserted
          ∙ find-upsert_override l s.override_logs,
      ap (λ k. k.expires_at) g.log,
      ap (λ k. k.consumed_at) g.log,
    )

Granted-is_consumable :
    (now token t : ℕ) (r : Request) (s s' : Store) (l : OverrideLog)
    → Granted now token r s s' l
    → t < l.expires_at
    → is_consumable t r.workspace_id r.social_account_id token l ≡ true
Granted-is_consumable now token t r s s' l g u = ground (arith, g.log)

-- Take an override that `requestOverride` granted for the latest audit of a version. Until the
-- override expires, its token permits to publish the version and `consumeOverrideToken` accepts it;
-- after that consumption the token never permits it again.
pub override_permits_once :
    (now token t later version post : ℕ) (r : Request) (s s' : Store) (l : OverrideLog)
    → request_override now token r s ≡ (ok l, s')
    → audit_for r.workspace_id r.social_account_id version s
      ≡ find_first (λ a. a.id == r.audit_id) s.audits
    → t < l.expires_at
    → (is_publish_permitted t r.workspace_id r.social_account_id version (some token) s'
        ≡ permitted)
      × ((consume_override_token t r.workspace_id r.social_account_id token post s'.override_logs).0
          ≡ ok true)
      × (is_publish_permitted later r.workspace_id r.social_account_id version
            (some token)
            (record s' {
              override_logs =
                  (consume_override_token t r.workspace_id r.social_account_id token post
                    s'.override_logs).1;
            })
          ≢ permitted)
unfolding is_publish_permitted consume_override_token
override_permits_once now token t later version post r s s' l h latest_is u =
    let g = request_override-Granted now token r s s' l h in
    let (found, expiry, fresh) = granted_lem now token r s s' l g in
    let usable = Granted-is_consumable now token t r s s' l g u in
    let positive =
      count_if-positive (is_for g.audit.id)
        (is_consumable t r.workspace_id r.social_account_id token) s'.override_logs found usable in
    let current : audit_for r.workspace_id r.social_account_id version s' ≡ some g.audit =
      ap (audit_in r.workspace_id r.social_account_id version) g.same_audits
      ∙ latest_is
      ∙ g.audit_found in
    (
      ap (check_latest t (some token) s'.override_logs) current
          ∙ Allowed-check_audit t (some token) s'.override_logs g.audit (
              by_override l (ground (arith, expiry)) g.flagged found
                (ap (λ k. some k.one_time_token) (sym g.log)) (ap (λ k. k.status) g.log) fresh u),
      rw positive refl,
      λ p.
          spent_lem t token later post _ l g.audit g.flagged
            (find-consumed t r.workspace_id r.social_account_id token post g.audit.id l
              s'.override_logs found usable)
            (sym (ap (check_latest later (some token) _) current) ∙ rw positive at p),
    )
