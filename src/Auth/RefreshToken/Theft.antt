-- ===== src/Auth/RefreshToken/Theft.antt =====
-- The headline properties of refresh tokens.
use thread_pilot.Common.{
  ℕ, ◌+◌, ◌≤◌, ◌≡◌, refl, sym, ap, ◌∙◌, false, some, List, ◌∷◌, list_eq, list_eq_refl, All, arith,
}
use thread_pilot.Auth.RefreshToken.{
  Token, Store, Passwords, revoked, reuse_detected, ok, err, Fresh, Rotation, refresh_ttl,
  composite, find_unique, revoke, revoke_family, use_up, mark_used, issued, create_initial_token,
  replace_token, rotate_row, rotate_token,
}
use thread_pilot.Auth.RefreshToken.Reuse.{
  Verifies, NoDot, find_unique-id, find-revoke_family, revoked_if_self, is_live_in,
  revoke_family-All, Accepts, rotate_row-eq-ok, rotate_token-parts, used_is_reuse,
  revoked_is_rejected, find-replaced, find-successor,
}

find-issued :
    (p : Passwords) (now user family : ℕ) (f : Fresh) (ts : Store)
    → find_unique f.id (issued p now user family f ∷ ts) ≡ some (issued p now user family f)
unfolding find_unique
find-issued p now user family f ts = rw (list_eq_refl f.id)

module _ (p : Passwords) (verifies : Verifies p) where
  issued_is_accepted :
      (now now' user family : ℕ) (f f' : Fresh) (ts : Store)
      → now' ≤ now + refresh_ttl
      → (rotate_row p now' f' f.secret (issued p now user family f) ts).0
        ≡ ok (record { user_id = user; new_composite_token = composite f'.id f'.secret })
  unfolding rotate_row replace_token
  issued_is_accepted now now' user family f f' ts in_time = ground (arith, verifies f.secret)

  -- A token from `createInitialToken`, whose identifier holds no dot, is accepted by `rotateToken` at
  -- any time up to 30 days later; the result names the user and the token of the fresh secret.
  pub rotate_token-create_initial_token :
      (now now' user family : ℕ) (f f' : Fresh) (ts : Store)
      → NoDot f.id
      → now' ≤ now + refresh_ttl
      → (rotate_token p now' f'
          (create_initial_token p now user family f ts).0
          (create_initial_token p now user family f ts).1).0
        ≡ ok (record { user_id = user; new_composite_token = composite f'.id f'.secret })
  unfolding create_initial_token
  rotate_token-create_initial_token now now' user family f f' ts nd in_time =
      rw
        (rotate_token-parts p now' f' f.id f.secret (issued p now user family f ∷ ts)
          (issued p now user family f) nd (find-issued p now user family f ts))
        (issued_is_accepted now now' user family f f' (issued p now user family f ∷ ts) in_time)

-- The store that a successful rotation of `t` leaves.
abbrev rotated : Passwords → ℕ → Fresh → Token → Store → Store
rotated p now f t ts = mark_used now t.id f.id (issued p now t.user_id t.family_id f ∷ ts)

record Rotated (p : Passwords) (now : ℕ) (f : Fresh) (secret : List ℕ) (t : Token) (ts ts' : Store)
    (r : Rotation) : Type 0 where
  accepts : Accepts p now secret t
  left : ts' ≡ rotated p now f t ts
  handed_out : r.new_composite_token ≡ composite f.id f.secret

module _ (p : Passwords) (verifies : Verifies p) (now : ℕ) (f : Fresh) (id secret : List ℕ)
    (ts ts' : Store) (t : Token) (r : Rotation) (nd : NoDot id)
    (found : find_unique id ts ≡ some t) where
  rotation_lem :
      rotate_token p now f (composite id secret) ts ≡ (ok r, ts')
      → Rotated p now f secret t ts ts' r
  unfolding replace_token
  rotation_lem h =
      let (a, e) =
        rotate_row-eq-ok p now f secret t ts ts' r
          (sym (rotate_token-parts p now f id secret ts t nd found) ∙ h) in
      record { accepts = a; left = ground arith; handed_out = ground arith }

-- The store after the rotated token was presented again: the family is revoked.
abbrev replayed : Passwords → ℕ → ℕ → Fresh → Token → Store → Store
replayed p now later f t ts = revoke_family later t.family_id (rotated p now f t ts)

module _ (p : Passwords) (verifies : Verifies p) (now : ℕ) (f : Fresh) (id secret : List ℕ)
    (ts : Store) (t : Token) (nd : NoDot id) (ndf : NoDot f.id) (other : list_eq f.id id ≡ false)
    (found : find_unique id ts ≡ some t) where
  used_row : find_unique id (rotated p now f t ts) ≡ some (use_up now f.id t)
  used_row =
      let new = issued p now t.user_id t.family_id f in
      ap (λ i. find_unique id (mark_used now i f.id (new ∷ ts))) (find_unique-id id ts found)
      ∙ find-replaced now id new ts t found other

  successor_row :
      find_unique f.id (rotated p now f t ts) ≡ some (issued p now t.user_id t.family_id f)
  successor_row =
      let new = issued p now t.user_id t.family_id f in
      ap (λ i. find_unique f.id (mark_used now i f.id (new ∷ ts))) (find_unique-id id ts found)
      ∙ find-successor now id new ts other

  replay :
      (later : ℕ) (f2 : Fresh)
      → Accepts p now secret t
      → rotate_token p later f2 (composite id secret) (rotated p now f t ts)
        ≡ (err reuse_detected, replayed p now later f t ts)
  replay later f2 a =
      rotate_token-parts p later f2 id secret (rotated p now f t ts) (use_up now f.id t) nd used_row
      ∙ used_is_reuse p later f2 secret (use_up now f.id t) (rotated p now f t ts) a.verified
          a.not_revoked refl

  successor_revoked :
      (later later' : ℕ) (f3 : Fresh)
      → rotate_token p later' f3 (composite f.id f.secret) (replayed p now later f t ts)
        ≡ (err revoked, replayed p now later f t ts)
  successor_revoked later later' f3 =
      let new = issued p now t.user_id t.family_id f in
      rotate_token-parts p later' f3 f.id f.secret (replayed p now later f t ts) (revoke later new)
        ndf
        (find-revoke_family later t.family_id f.id (rotated p now f t ts) new successor_row
          ∙ ap some (revoked_if_self later t.family_id new refl))
      ∙ revoked_is_rejected p later' f3 f.secret (revoke later new) (replayed p now later f t ts)
          (verifies f.secret) refl

-- Where `rotateToken` accepted a token and handed out its successor, and the random identifier of
-- the successor is another one without dots: whenever the old token is presented again, the answer
-- is reuse_detected and no row of its family is left unrevoked, and from then on the successor is
-- rejected as revoked.
pub reuse_revokes_family :
    (p : Passwords) (now later later' : ℕ) (f f2 f3 : Fresh) (id secret : List ℕ) (ts ts' : Store)
    (t : Token) (r : Rotation)
    → Verifies p
    → NoDot id
    → NoDot f.id
    → list_eq f.id id ≡ false
    → find_unique id ts ≡ some t
    → rotate_token p now f (composite id secret) ts ≡ (ok r, ts')
    → ((rotate_token p later f2 (composite id secret) ts').0 ≡ err reuse_detected)
      × All
          (λ u. is_live_in t.family_id u ≡ false)
          (rotate_token p later f2 (composite id secret) ts').1
      × ((rotate_token p later' f3 r.new_composite_token
            (rotate_token p later f2 (composite id secret) ts').1).0
          ≡ err revoked)
reuse_revokes_family p now later later' f f2 f3 id secret ts ts' t r verifies nd ndf other found h =
    let l = rotation_lem p verifies now f id secret ts ts' t r nd found h in
    let again =
      ap (rotate_token p later f2 (composite id secret)) l.left
      ∙ replay p verifies now f id secret ts t nd ndf other found later f2 l.accepts in
    let rejected =
      successor_revoked p verifies now f id secret ts t nd ndf other found later later' f3 in
    rw (again, l.handed_out)
      (refl, revoke_family-All later t.family_id (rotated p now f t ts), ap (λ q. q.0) rejected)
