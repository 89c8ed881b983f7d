-- ===== src/Auth/RefreshToken/Reuse.antt =====
-- Rotation and reuse detection of refresh tokens.
use thread_pilot.Common.{
  ℕ, ◌≡◌, refl, inl, inr, Bool, true, false, none, some, List, [], ◌∷◌, list_eq, list_eq→eq,
  list_eq_refl, ltb, ◌==◌, if◌then◌else◌, All, arith, Bool-cases, ap,
}
use thread_pilot.Auth.RefreshToken.{
  Token, Store, Passwords, revoked, reuse_detected, ok, err, Fresh, Rotation, composite, cons_id,
  split_composite, find_unique, revoke, revoke_family, use_up, mark_used, replace_token, rotate_row,
  rotate_token,
}

-- Verification accepts the secret that was hashed.
abbrev pub Verifies : Passwords → Type 0
Verifies p = (s : List ℕ) → p.verify (p.hash s) s ≡ true

-- No character of the identifier is a dot (a UUID has none).
abbrev pub NoDot : List ℕ → Type 0
NoDot id = All (λ c. (c == b'.') ≡ false) id

split-composite :
    (id secret : List ℕ) → NoDot id → split_composite (composite id secret) ≡ some (id, secret)
unfolding split_composite composite
split-composite [] secret h = refl
split-composite (c ∷ cs) secret h = rw h.0 (ap (cons_id c) (split-composite cs secret h.1))

pub find_unique-id : (id : List ℕ) (ts : Store) {t : Token} → find_unique id ts ≡ some t → t.id ≡ id
unfolding find_unique
find_unique-id id [] h = cc
find_unique-id id (u ∷ us) h = elim (Bool-cases (list_eq u.id id)) [
  | inl same ↦ ground (arith, list_eq→eq u.id id same)
  | inr other ↦ find_unique-id id us (rw other at h)
]

find-mark_used :
    (now : ℕ) (id successor : List ℕ) (ts : Store) (t : Token)
    → find_unique id ts ≡ some t
    → find_unique id (mark_used now id successor ts) ≡ some (use_up now successor t)
unfolding find_unique mark_used
find-mark_used now id successor [] t h = cc
find-mark_used now id successor (u ∷ us) t h = ground (arith, find-mark_used now id successor us t)

abbrev pub revoked_if : ℕ → ℕ → Token → Token
revoked_if now family t = if t.family_id == family then revoke now t else t

revoked_if-id : (now family : ℕ) (t : Token) → (revoked_if now family t).id ≡ t.id
revoked_if-id now family t = ground arith

pub revoked_if_self :
    (now family : ℕ) (t : Token) → t.family_id ≡ family → revoked_if now family t ≡ revoke now t
revoked_if_self now family t e = ground arith

pub find-revoke_family :
    (now family : ℕ) (id : List ℕ) (ts : Store) (t : Token)
    → find_unique id ts ≡ some t
    → find_unique id (revoke_family now family ts) ≡ some (revoked_if now family t)
unfolding find_unique revoke_family
find-revoke_family now family id [] t h = cc
find-revoke_family now family id (u ∷ us) t h = elim (Bool-cases (list_eq u.id id)) [
  | inl same ↦ rw (revoked_if-id now family u, same) (ground arith)
  | inr other ↦
      rw (revoked_if-id now family u, other) (find-revoke_family now family id us t (rw other at h))
]

-- Whether a token of the family could still be used.
abbrev pub is_live_in : ℕ → Token → Bool
is_live_in family t = elim t.revoked_at [ some _ ↦ false | none ↦ t.family_id == family ]

pub revoke_family-All :
    (now family : ℕ) (ts : Store)
    → All (λ t. is_live_in family t ≡ false) (revoke_family now family ts)
unfolding revoke_family
revoke_family-All now family [] = tt
revoke_family-All now family (t ∷ ts) = (ground arith, revoke_family-All now family ts)

-- The state of the row that a rotation accepts.
pub record Accepts (p : Passwords) (now : ℕ) (secret : List ℕ) (t : Token) : Type 0 where
  pub verified : p.verify t.token_hash secret ≡ true
  pub not_revoked : t.revoked_at ≡ none
  pub not_used : t.used_at ≡ none
  pub not_expired : ltb t.expires_at now ≡ false

module _ (p : Passwords) where
  pub rotate_row-eq-ok :
      (now : ℕ) (f : Fresh) (secret : List ℕ) (t : Token) (ts ts' : Store) (r : Rotation)
      → rotate_row p now f secret t ts ≡ (ok r, ts')
      → Accepts p now secret t × (replace_token p now f t ts ≡ (ok r, ts'))
  unfolding rotate_row replace_token
  rotate_row-eq-ok now f secret t ts ts' r h = ground arith

  pub rotate_token-parts :
      (now : ℕ) (f : Fresh) (id secret : List ℕ) (ts : Store) (t : Token)
      → NoDot id
      → find_unique id ts ≡ some t
      → rotate_token p now f (composite id secret) ts ≡ rotate_row p now f secret t ts
  unfolding rotate_token
  rotate_token-parts now f id secret ts t nd found = rw (split-composite id secret nd) (rw found)

  pub used_is_reuse :
      (now : ℕ) (f : Fresh) (secret : List ℕ) (t : Token) (ts : Store) {u : ℕ}
      → p.verify t.token_hash secret ≡ true
      → t.revoked_at ≡ none
      → t.used_at ≡ some u
      → rotate_row p now f secret t ts ≡ (err reuse_detected, revoke_family now t.family_id ts)
  unfolding rotate_row
  used_is_reuse now f secret t ts v r u = ground arith

  pub revoked_is_rejected :
      (now : ℕ) (f : Fresh) (secret : List ℕ) (t : Token) (ts : Store) {u : ℕ}
      → p.verify t.token_hash secret ≡ true
      → t.revoked_at ≡ some u
      → rotate_row p now f secret t ts ≡ (err revoked, ts)
  unfolding rotate_row
  revoked_is_rejected now f secret t ts v r = ground arith

-- Two stores hold the rows that a rotation of `t` leaves: the used token and its successor.
pub find-replaced :
    (now : ℕ) (id : List ℕ) (new : Token) (ts : Store) (t : Token)
    → find_unique id ts ≡ some t
    → list_eq new.id id ≡ false
    → find_unique id (mark_used now id new.id (new ∷ ts)) ≡ some (use_up now new.id t)
unfolding find_unique mark_used
find-replaced now id new ts t found other =
    rw (other, other) (find-mark_used now id new.id ts t found)

pub find-successor :
    (now : ℕ) (id : List ℕ) (new : Token) (ts : Store)
    → list_eq new.id id ≡ false
    → find_unique new.id (mark_used now id new.id (new ∷ ts)) ≡ some new
unfolding find_unique mark_used
find-successor now id new ts other = rw (other, list_eq_refl new.id)

list_eq_sym_false : (xs ys : List ℕ) → list_eq xs ys ≡ false → list_eq ys xs ≡ false
list_eq_sym_false xs ys h = elim (Bool-cases (list_eq ys xs)) [
  | inl same ↦ absurd (clash (list_eq→eq ys xs same))
  | inr other ↦ other
]
  where
    clash : ys ≡ xs → ⊥
    clash e = cc (ap (λ zs. list_eq xs zs) e, list_eq_refl xs)
