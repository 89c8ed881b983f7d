-- ===== src/Safety/SingleUse.antt =====
-- An override is granted under conditions, permits to publish, and is spent by one consumption.
use thread_pilot.Common.{
  ℕ, ◌≤◌, ◌≡◌, refl, inl, inr, false, List, [], ◌∷◌, ◌==◌, if◌then◌else◌, arith, Bool-cases,
}
use thread_pilot.Safety.Record.{OverrideLog, refused, token_invalid, update_all, count_if}
use thread_pilot.Safety.Override.{is_consumable, consume, consume_override_token}

module _ (now later workspace account token post post' : ℕ) (in_order : now ≤ later) where
  abbrev consumed_row : OverrideLog → OverrideLog
  consumed_row l = if is_consumable now workspace account token l then consume now post l else l

  row_spent :
      (l : OverrideLog) → is_consumable later workspace account token (consumed_row l) ≡ false
  row_spent l = ground arith

  none_left :
      (logs : List OverrideLog)
      → count_if
          (is_consumable later workspace account token)
          (update_all (is_consumable now workspace account token) (consume now post) logs)
        ≡ 0
  none_left [] = refl
  none_left (l ∷ logs) = rw (row_spent l) (none_left logs)

  none_before :
      (logs : List OverrideLog)
      → count_if (is_consumable now workspace account token) logs ≡ 0
      → count_if (is_consumable later workspace account token) logs ≡ 0
  none_before [] h = refl
  none_before (l ∷ logs) h = ground (arith, none_before logs)

-- Whatever the first consumption of a token answers, no later one of the same token succeeds: it is
-- refused and changes no row.
pub consume_once :
    (now later workspace account token post post' : ℕ) (logs : List OverrideLog)
    → now ≤ later
    → consume_override_token later workspace account token post'
        (consume_override_token now workspace account token post logs).1
      ≡ (refused token_invalid, (consume_override_token now workspace account token post logs).1)
unfolding consume_override_token
consume_once now later w a token post post' logs h =
    elim (Bool-cases (count_if (is_consumable now w a token) logs == 0)) [
      | inl nothing ↦
          rw nothing (rw (none_before now later w a token post post' h logs (ground arith)) refl)
      | inr some_row ↦ rw some_row (rw (none_left now later w a token post post' h logs) refl)
    ]
