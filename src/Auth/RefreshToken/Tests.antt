-- ===== src/Auth/RefreshToken/Tests.antt =====
-- Concrete runs of the rotation: a login at time 0, its rotation at 10, and a replay at 20.
use thread_pilot.Common.{◌≡◌, refl, false, none, some, [], ◌∷◌, list_eq, list_eq_refl, All, arith}
use thread_pilot.Auth.RefreshToken.{
  Token, Store, Passwords, revoked, reuse_detected, ok, err, Fresh, Rotation, composite,
  split_composite, find_unique, mark_used, replace_token, rotate_row, rotate_token,
  create_initial_token, issued,
}
use thread_pilot.Auth.RefreshToken.Reuse.{is_live_in}
use thread_pilot.Auth.RefreshToken.Theft.{rotate_token-create_initial_token, reuse_revokes_family}

-- Secrets that are stored as they are.
abbrev plain : Passwords
plain = record { hash = λ s. s; verify = list_eq }

abbrev first : Fresh
first = record { id = 1 ∷ 2 ∷ []; secret = 3 ∷ 4 ∷ [] }

abbrev second : Fresh
second = record { id = 5 ∷ 6 ∷ []; secret = 7 ∷ [] }

abbrev third : Fresh
third = record { id = 8 ∷ []; secret = 9 ∷ [] }

rotate_token-create_initial_token_example :
    (rotate_token plain 10 second
      (create_initial_token plain 0 7 8 first []).0
      (create_initial_token plain 0 7 8 first []).1).0
    ≡ ok (record { user_id = 7; new_composite_token = composite second.id second.secret })
rotate_token-create_initial_token_example =
    rotate_token-create_initial_token plain list_eq_refl 0 10 7 8 first second [] (refl, (refl, tt))
      (omega arith)

-- The row of the login, and the rows after its rotation.
abbrev login : Token
login = issued plain 0 7 8 first

abbrev one_login : Store
one_login = login ∷ []

abbrev used_login : Token
used_login = record {
  id = first.id;
  user_id = 7;
  family_id = 8;
  token_hash = first.secret;
  expires_at = 2592000000;
  used_at = some 10;
  replaced_by_id = some second.id;
  revoked_at = none;
}

abbrev after_rotation : Store
after_rotation = issued plain 10 7 8 second ∷ used_login ∷ []

abbrev handed_out : Rotation
handed_out = record { user_id = 7; new_composite_token = 5 ∷ 6 ∷ b'.' ∷ 7 ∷ [] }

login_rotates :
    rotate_token plain 10 second (composite first.id first.secret) one_login
    ≡ (ok handed_out, after_rotation)
unfolding rotate_token split_composite composite find_unique rotate_row replace_token mark_used
login_rotates = refl

login_is_found : find_unique first.id one_login ≡ some login
unfolding find_unique
login_is_found = refl

reuse_revokes_family_example :
    ((rotate_token plain 20 third (composite first.id first.secret) after_rotation).0
      ≡ err reuse_detected)
    × All
        (λ u. is_live_in login.family_id u ≡ false)
        (rotate_token plain 20 third (composite first.id first.secret) after_rotation).1
    × ((rotate_token plain 30 third handed_out.new_composite_token
          (rotate_token plain 20 third (composite first.id first.secret) after_rotation).1).0
        ≡ err revoked)
reuse_revokes_family_example =
    reuse_revokes_family plain 10 20 30 second third third first.id first.secret one_login
      after_rotation login handed_out list_eq_refl (refl, (refl, tt)) (refl, (refl, tt)) refl
      login_is_found login_rotates
