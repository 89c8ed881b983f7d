-- ===== src/Auth/RefreshToken.antt =====
-- apps/api/src/auth/refresh-token.service.ts over the table of refresh tokens: the issue of a token,
-- its rotation with reuse detection, and the revocation of a family or of a user's tokens.
pub mod Reuse
pub mod Theft
mod Tests
use thread_pilot.Common.{
  ℕ, ◌+◌, ◌*◌, ◌≡◌, Bool, true, false, Option, none, some, List, [], ◌∷◌, ◌++◌, list_eq, ltb, ◌==◌,
  if◌then◌else◌,
}

-- A row of `refresh_tokens`.
pub record Token : Type 0 where
  pub id : List ℕ
  pub user_id : ℕ
  pub family_id : ℕ
  pub token_hash : List ℕ
  pub expires_at : ℕ
  pub used_at : Option ℕ
  pub replaced_by_id : Option (List ℕ)
  pub revoked_at : Option ℕ

abbrev pub Store : Type 0
Store = List Token

-- PasswordService: argon2 hashes of the secrets.
pub record Passwords : Type 0 where
  pub hash : List ℕ → List ℕ
  pub verify : List ℕ → List ℕ → Bool

-- The reasons of the UnauthorizedException.
pub data Unauthorized : Type 0 where
  invalid_format not_recognized invalid_signature revoked reuse_detected expired : Unauthorized

pub data Result {ℓ} (A : Type ℓ) : Type ℓ where
  ok : A → Result A
  err : Unauthorized → Result A

-- What the random generator yields for a new token.
pub record Fresh : Type 0 where
  pub id : List ℕ
  pub secret : List ℕ

pub record Rotation : Type 0 where
  pub user_id : ℕ
  pub new_composite_token : List ℕ

-- 30 days in milliseconds.
abbrev pub refresh_ttl : ℕ
refresh_ttl = 2592000000

-- `${tokenId}.${rawSecret}`.
unfoldable pub composite : List ℕ → List ℕ → List ℕ
composite id secret = id ++ b'.' ∷ secret

abbrev pub cons_id : ℕ → Option (List ℕ × List ℕ) → Option (List ℕ × List ℕ)
cons_id c none = none
cons_id c (some (id, secret)) = some (c ∷ id, secret)

-- The parts before and after the first dot.
unfoldable pub split_composite : List ℕ → Option (List ℕ × List ℕ)
split_composite [] = none
split_composite (c ∷ cs) = if c == b'.' then some ([], cs) else cons_id c (split_composite cs)

unfoldable pub find_unique : List ℕ → Store → Option Token
find_unique id [] = none
find_unique id (t ∷ ts) = if list_eq t.id id then some t else find_unique id ts

abbrev pub revoke : ℕ → Token → Token
revoke now t = record t { revoked_at = some now }

-- `updateMany({ where: { familyId }, data: { revokedAt } })`.
unfoldable pub revoke_family : ℕ → ℕ → Store → Store
revoke_family now family [] = []
revoke_family now family (t ∷ ts) =
    (if t.family_id == family then revoke now t else t) ∷ revoke_family now family ts

unfoldable pub revoke_all_user_tokens : ℕ → ℕ → Store → Store
revoke_all_user_tokens now user [] = []
revoke_all_user_tokens now user (t ∷ ts) =
    (if t.user_id == user then revoke now t else t) ∷ revoke_all_user_tokens now user ts

abbrev pub use_up : ℕ → List ℕ → Token → Token
use_up now successor t = record t { used_at = some now; replaced_by_id = some successor }

-- `update({ where: { id }, data: { usedAt, replacedById } })`.
unfoldable pub mark_used : ℕ → List ℕ → List ℕ → Store → Store
mark_used now id successor [] = []
mark_used now id successor (t ∷ ts) =
    (if list_eq t.id id then use_up now successor t else t) ∷ mark_used now id successor ts

module _ (p : Passwords) where
  abbrev pub issued : ℕ → ℕ → ℕ → Fresh → Token
  issued now user family f = record {
    id = f.id;
    user_id = user;
    family_id = family;
    token_hash = p.hash f.secret;
    expires_at = now + refresh_ttl;
    used_at = none;
    replaced_by_id = none;
    revoked_at = none;
  }

  unfoldable pub issue_token_in_family : ℕ → ℕ → ℕ → Fresh → Store → List ℕ × Store
  issue_token_in_family now user family f ts =
      (composite f.id f.secret, issued now user family f ∷ ts)

  -- `familyId` is the random family of the login.
  unfoldable pub create_initial_token : ℕ → ℕ → ℕ → Fresh → Store → List ℕ × Store
  unfolding issue_token_in_family
  create_initial_token now user family f ts = issue_token_in_family now user family f ts

  -- The successor and the mark on the token, which are one transaction.
  unfoldable pub replace_token : ℕ → Fresh → Token → Store → Result Rotation × Store
  replace_token now f t ts = (
    ok (record { user_id = t.user_id; new_composite_token = composite f.id f.secret }),
    mark_used now t.id f.id (issued now t.user_id t.family_id f ∷ ts),
  )

  -- The checks on the row of the token.
  unfoldable pub rotate_row : ℕ → Fresh → List ℕ → Token → Store → Result Rotation × Store
  unfolding replace_token
  rotate_row now f secret t ts = elim (p.verify t.token_hash secret) [
    | false ↦ (err invalid_signature, ts)
    | true ↦ elim t.revoked_at [
      | some _ ↦ (err revoked, ts)
      | none ↦ elim t.used_at [
        | some _ ↦ (err reuse_detected, revoke_family now t.family_id ts)
        | none ↦ if ltb t.expires_at now then (err expired, ts) else replace_token now f t ts
      ]
    ]
  ]

  abbrev pub rotate_found : ℕ → Fresh → List ℕ → Option Token → Store → Result Rotation × Store
  rotate_found now f secret none ts = (err not_recognized, ts)
  rotate_found now f secret (some t) ts = rotate_row now f secret t ts

  abbrev pub rotate_parts : ℕ → Fresh → Option (List ℕ × List ℕ) → Store → Result Rotation × Store
  rotate_parts now f none ts = (err invalid_format, ts)
  rotate_parts now f (some (id, secret)) ts = rotate_found now f secret (find_unique id ts) ts

  unfoldable pub rotate_token : ℕ → Fresh → List ℕ → Store → Result Rotation × Store
  rotate_token now f raw ts = rotate_parts now f (split_composite raw) ts
