-- ===== src/Auth/Relogin.antt =====
-- app/services/auth.py: after `change_password` the new password logs in, and no other.
use plynth.Context.{set_current_product, set_current_tenant}
use plynth.World.{World, next_id}
use plynth.Models.Tenant.{User}
use plynth.Auth.{
  let_in, login, change_password, rehashed, issue_tokens, login_user, Session, unauthorized,
  conflict, is_login, is_tenant_of,
}
use plynth.Security.{Crypto, hash_password, issue_token, verify_password, needs_rehash}
use plynth.Prelude.{
  some, true, false, inl, inr, refl, Bool, ℕ, ◌≡◌, String, str_eq, ◌&&◌, arith, Option, Bool-cases,
  not, ◌∙◌, true_ne_false, eq_refl, sym, any, subst, ap, find?-save, find?-holds,
}
use plynth.Exec.{ok, err, raise_if-ok, resume}

-- argon2: a password matches the hash of itself, and of no other password.
abbrev pub HashesMatch : Crypto → Type 0
HashesMatch crypto = (salt : ℕ) (a b : String) → crypto.verify (crypto.hash salt b) a ≡ str_eq a b

and_true : (a b : Bool) → a ≡ true → (a && b) ≡ b
and_true a b h = ground arith

verify_password-hash :
    (crypto : Crypto) (salt : ℕ) (password new : String)
    → HashesMatch crypto
    → verify_password crypto password (crypto.hash salt new) ≡ str_eq password new
unfolding verify_password
verify_password-hash crypto salt password new hashes = hashes salt password new

module _ (crypto : Crypto) (lower : String → String) where
  let_in-ok :
      (user : User) (password : String) (agent ip : Option String) (w : World)
      → (s : Session) × ((let_in crypto lower user password agent ip w).0 ≡ ok s)
  unfolding let_in rehashed hash_password issue_tokens issue_token set_current_product
      set_current_tenant
  let_in-ok user password agent ip w = elim (Bool-cases (needs_rehash crypto user.password_hash)) [
    | inl old ↦ rw (old, let_in, rehashed) (_, refl)
    | inr current ↦ rw (current, let_in, rehashed) (_, refl)
  ]

  -- What a login answers, by the user found and the test of the password
  login-verified :
      (p : ℕ) (email password : String) (slug agent ip : Option String) (w : World) (user : User)
      (b : Bool)
      → login_user crypto lower p email slug w ≡ some user
      → (user.is_active && verify_password crypto password user.password_hash) ≡ b
      → (b ≡ true
          → (s : Session) × ((login crypto lower p email password slug agent ip w).0 ≡ ok s))
        × (b ≡ false → (login crypto lower p email password slug agent ip w).0 ≡ err unauthorized)
  unfolding login
  login-verified p email password slug agent ip w user true found e = (
    λ _. rw (found, login, resume) (rw e (let_in-ok user password agent ip w)),
    λ h. absurd (true_ne_false h),
  )
  login-verified p email password slug agent ip w user false found e =
      (λ h. absurd (true_ne_false (sym h)), λ _. rw (found, login, resume) (rw e refl))

  -- The state and the user after a change
  change_password-user :
      (user : User) (current new : String) (p : ℕ) (email : String) (slug : Option String)
      (w : World)
      → login_user crypto lower p email slug w ≡ some user
      → (change_password crypto user current new w).0 ≡ ok tt
      → login_user crypto lower p email slug (change_password crypto user current new w).1
        ≡ some (record user { password_hash = crypto.hash (next_id w) new })
  unfolding change_password hash_password
  change_password-user user current new p email slug w found done =
      let (right, d1, e1) =
        raise_if-ok (not (verify_password crypto current user.password_hash)) unauthorized _ w
          done in
      let (differ, d2, e2) = raise_if-ok (str_eq current new) conflict _ w d1 in
      let q : User → Bool = (λ u.
        is_login crypto lower p email u && any (is_tenant_of crypto lower u slug) w.tenants) in
      subst
        (λ v.
          login_user crypto lower p email slug v
          ≡ some (record user { password_hash = crypto.hash (next_id w) new }))
        (ap (λ x. x.1) (sym (e1 ∙ e2)))
        (find?-save q (λ u. u.id) w.users user _ found refl (find?-holds q w.users user found))

  -- When a user that a login finds has changed the password, a login with the new password returns
  -- a session, and a login with any other password raises Unauthorized, if argon2 matches a
  -- password with its own hashes and with no other.
  pub change_password-login :
      (user : User) (current new : String) (p : ℕ) (email : String) (slug agent ip : Option String)
      (other : String) (w : World)
      → HashesMatch crypto
      → login_user crypto lower p email slug w ≡ some user
      → user.is_active ≡ true
      → str_eq other new ≡ false
      → (change_password crypto user current new w).0 ≡ ok tt
      → ((s : Session) × ((login crypto lower p email new slug agent ip
              (change_password crypto user current new w).1).0
            ≡ ok s))
        × ((login crypto lower p email other slug agent ip
              (change_password crypto user current new w).1).0
            ≡ err unauthorized)
  change_password-login user current new p email slug agent ip other w hashes found active differ
        done =
      let after = (change_password crypto user current new w).1 in
      let row = record user { password_hash = crypto.hash (next_id w) new } in
      let found' = change_password-user user current new p email slug w found done in
      (
        (login-verified p email new slug agent ip after row true found'
              (tested new true (eq_refl new))).0
            refl,
        (login-verified p email other slug agent ip after row false found'
              (tested other false differ)).1
            refl,
      )
    where
      tested :
          (password : String) (b : Bool)
          → str_eq password new ≡ b
          → (user.is_active && verify_password crypto password (crypto.hash (next_id w) new)) ≡ b
      tested password b e =
          and_true _ _ active ∙ (verify_password-hash crypto (next_id w) password new hashes ∙ e)
