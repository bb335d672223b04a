-- ===== src/Auth/Reset.antt =====
-- app/services/auth.py: what a new password does to the sessions and to later logins.
use plynth.Models.Tenant.{User}
use plynth.Models.Session.{RefreshToken, PasswordResetToken}
use plynth.Auth.{
  logout, confirm_password_reset, is_live_of, unauthorized, revoke, is_reset_token, hash_token,
  not_found, set_new_password,
}
use plynth.World.{World}
use plynth.Security.{Crypto, hash_password}
use plynth.Prelude.{
  [], ◌∷◌, some, true, false, inl, inr, refl, ℕ, List, String, All, ◌≡◌, Option, find?, Bool, ◌&&◌,
  is_some, Bool-cases, ◌==◌, leb, not, ◌||◌, subst, ap, sym, ◌∙◌, find?-save, find?-holds,
}
use plynth.Exec.{ok, err, or_raise-ok, raise_if-ok, ok-injective}

-- No session of the user is left.
abbrev pub LoggedOut : ℕ → World → Type 0
LoggedOut user_id w = All (λ r. is_live_of user_id r ≡ false) w.refresh_tokens

revoke-live :
    (user_id time : ℕ) (rows : List RefreshToken)
    → All (λ r. is_live_of user_id r ≡ false) (revoke (is_live_of user_id) time rows)
revoke-live i time [] = tt
revoke-live i time (r ∷ rows) = elim (Bool-cases (is_live_of i r)) [
  | inl live ↦ rw live (ended (r.user_id == i), revoke-live i time rows)
  | inr dead ↦ rw dead (dead, revoke-live i time rows)
]
  where
    ended : (b : Bool) → (b && false) ≡ false
    ended true = refl
    ended false = refl

module _ (crypto : Crypto) where
  -- After a logout from all sessions the user has no live session left.
  pub logout-LoggedOut :
      (user : User) (token : Option String) (w : World)
      → LoggedOut user.id (logout crypto user token true w).1
  unfolding logout
  logout-LoggedOut user token w = revoke-live user.id w.env.now w.refresh_tokens

  -- The reset token is used up: a second try with it is refused, with any password.
  abbrev UsedUp : String → World → Type 0
  UsedUp token w = (new : String) → (confirm_password_reset crypto token new w).0 ≡ err unauthorized

  used-UsedUp :
      (token : String) (row : PasswordResetToken) (time : ℕ) (w : World)
      → find? (is_reset_token crypto (hash_token crypto token)) w.reset_tokens ≡ some row
      → is_some row.used_at ≡ true
      → UsedUp token w
  unfolding confirm_password_reset
  used-UsedUp token row time w found used new = rw (found, confirm_password_reset) (rw used refl)

  set_new_password-LoggedOut :
      (token new : String) (row : PasswordResetToken) (owner user : User) (time : ℕ) (w : World)
      → find? (is_reset_token crypto (hash_token crypto token)) w.reset_tokens ≡ some row
      → (set_new_password crypto row owner new time w).0 ≡ ok user
      → LoggedOut user.id (set_new_password crypto row owner new time w).1
        × UsedUp token (set_new_password crypto row owner new time w).1
  unfolding set_new_password hash_password
  set_new_password-LoggedOut token new row owner user time w found done = (
    subst (λ i. LoggedOut i (set_new_password crypto row owner new time w).1)
        (ap (λ u. u.id) (ok-injective done)) (revoke-live owner.id time w.refresh_tokens),
    used-UsedUp token (record row { used_at = some time }) time _
        (find?-save (is_reset_token crypto (hash_token crypto token)) (λ r. r.id) w.reset_tokens row
          _ found refl
          (find?-holds (is_reset_token crypto (hash_token crypto token)) w.reset_tokens row found))
        refl,
  )

  -- A password reset that succeeds consumes its token and ends every session of the user: a second
  -- reset with the token raises Unauthorized, and no refresh token of the user is live.
  pub confirm_password_reset-LoggedOut :
      (token new : String) (w : World) (user : User)
      → (confirm_password_reset crypto token new w).0 ≡ ok user
      → LoggedOut user.id (confirm_password_reset crypto token new w).1
        × ((other : String)
            → (confirm_password_reset crypto token other
                (confirm_password_reset crypto token new w).1).0
              ≡ err unauthorized)
  unfolding confirm_password_reset
  confirm_password_reset-LoggedOut token new w user done =
      let (row, found, d1, e1) =
        or_raise-ok (find? (is_reset_token crypto (hash_token crypto token)) w.reset_tokens)
          not_found _ w done in
      let (unused, d2, e2) = raise_if-ok (is_some row.used_at) unauthorized _ w d1 in
      let (live, d3, e3) = raise_if-ok (leb row.expires_at w.env.now) unauthorized _ w d2 in
      let (owner, known, d4, e4) =
        or_raise-ok (find? (λ u. u.id == row.user_id) w.users) unauthorized _ w d3 in
      let (free, d5, e5) =
        raise_if-ok (not owner.is_active || is_some owner.deleted_at) unauthorized _ w d4 in
      subst (λ v. LoggedOut user.id v × UsedUp token v)
        (ap (λ x. x.1) (sym (e1 ∙ (e2 ∙ (e3 ∙ (e4 ∙ e5))))))
        (set_new_password-LoggedOut token new row owner user w.env.now w found d5)
