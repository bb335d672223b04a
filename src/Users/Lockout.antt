-- ===== src/Users/Lockout.antt =====
-- app/services/user.py with app/services/auth.py and app/core/dependencies.py: a user who is
-- deactivated is locked out at once.
use plynth.Auth.Once.{of_type-some}
use plynth.Models.Tenant.{User}
use plynth.Access.Current.{enter_as_user, get_current_user, Request, is_admin_token}
use plynth.Auth.{refresh, is_jti}
use plynth.World.{World}
use plynth.Security.{Crypto, decode_token, Payload}
use plynth.Users.{set_active}
use plynth.Prelude.{
  some, true, false, inl, inr, refl, ℕ, String, ◌≡◌, Option, find?, ◌==◌, ◌≢◌, not, subst, get_or,
  sym, ap, Option-cases, ◌∙◌, Bool-cases, is_given, is_some, ◌||◌, ◌&&◌, leb, holds, true_ne_false,
  find_by_id-save_self,
}
use plynth.Exec.{ok, err, unauthorized, raise_if-ok, or_raise-ok, forbidden, err_ne_ok}

-- All that a token decodes to, at any time, names one user.
abbrev pub Names : Crypto → String → ℕ → Type 0
Names crypto token i =
    (time : ℕ) (payload : Payload) → crypto.jwt_decode time token ≡ some payload → payload.sub ≡ i

abbrev Inactive : ℕ → World → Type 0
Inactive i w = (u : User) × (find? (λ u. u.id == i) w.users ≡ some u) × (not u.is_active ≡ true)

set_active-Inactive :
    (i : ℕ) (actor : Option ℕ) (user : User) (w : World)
    → (set_active i false actor w).0 ≡ ok user
    → Inactive i (set_active i false actor w).1
unfolding set_active
set_active-Inactive i actor user w = elim (Option-cases (find? (λ u. u.id == i) w.users)) [
  | inl gone ↦ rw (gone, set_active) (λ done. absurd (err_ne_ok done))
  | inr (u, found) ↦
      rw (found, set_active)
        (λ done. (
          record u { is_active = false },
          find_by_id-save_self (λ u. u.id) _ u i w.users found refl,
          refl,
        ))
]

module _ (crypto : Crypto) where
  decode_token-Names :
      (token typ : String) (i : ℕ) (w : World) (payload : Payload)
      → Names crypto token i
      → decode_token crypto token typ w ≡ some payload
      → payload.sub ≡ i
  unfolding decode_token
  decode_token-Names token typ i w payload names e =
      names w.env.now payload
        (of_type-some crypto typ (crypto.jwt_decode w.env.now token) payload e)

  refresh-Inactive :
      (token : String) (i : ℕ) (w : World)
      → Names crypto token i
      → Inactive i w
      → (refresh crypto token w).0 ≡ err unauthorized
  unfolding refresh
  refresh-Inactive token i w names (u, idle, off) =
      elim (Option-cases (decode_token crypto token "refresh" w)) [
        | inl invalid ↦ rw (invalid, refresh) refl
        | inr (payload, valid) ↦
            rw (valid, refresh)
              (elim (Option-cases (find? (is_jti payload.jti) w.refresh_tokens)) [
                | inl gone ↦ rw gone refl
                | inr (row, found) ↦
                    rw found
                      (elim (Bool-cases (is_some row.revoked_at || leb row.expires_at w.env.now)) [
                        | inl dead ↦ rw dead refl
                        | inr live ↦ rw live (
                            rw
                              (owner payload
                                (decode_token-Names token "refresh" i w payload names valid))
                              (rw off refl))
                      ])
              ])
      ]
    where
      owner :
          (payload : Payload) → payload.sub ≡ i → find? (λ u. u.id == payload.sub) w.users ≡ some u
      owner payload same = subst (λ j. find? (λ u. u.id == j) w.users ≡ some u) (sym same) idle

  enter_as_user-Inactive :
      (setting token : String) (header_pid : Option ℕ) (req : Request) (i : ℕ) (w : World)
      (user : User)
      → req.token ≡ some token
      → Names crypto token i
      → Inactive i w
      → (enter_as_user crypto setting header_pid req w).0 ≢ ok user
  unfolding enter_as_user
  enter_as_user-Inactive setting token header_pid req i w user given names (u, idle, off) done =
      let (_, d1, e1) = raise_if-ok (not (is_given req.token)) unauthorized _ w done in
      let (payload, decoded, d2, e2) =
        or_raise-ok (decode_token crypto (get_or req.token "") "access" w) unauthorized _ w d1 in
      let (token_pid, claimed, d3, e3) = or_raise-ok payload.pid unauthorized _ w d2 in
      let (_, d4, e4) =
        raise_if-ok (is_some header_pid && not (holds header_pid token_pid)) forbidden _ w d3 in
      let (v, known, d5, e5) =
        or_raise-ok (find? (λ u. u.id == payload.sub) w.users) unauthorized _ w d4 in
      let (live, d6, e6) = raise_if-ok (not v.is_active) unauthorized _ w d5 in
      true_ne_false (sym off ∙ (ap (λ x. not x.is_active) (same payload v decoded known) ∙ live))
    where
      same :
          (payload : Payload) (v : User)
          → decode_token crypto (get_or req.token "") "access" w ≡ some payload
          → find? (λ u. u.id == payload.sub) w.users ≡ some v
          → u ≡ v
      same payload v decoded known =
          let sub =
            decode_token-Names token "access" i w payload names
              (ap (λ o. decode_token crypto (get_or o "") "access" w) (sym given) ∙ decoded) in
          some_inj (sym idle ∙ (ap (λ j. find? (λ u. u.id == j) w.users) (sym sub) ∙ known))
        where
          some_inj : {a b : User} → some a ≡ some b → a ≡ b
          some_inj h = cc

  -- As soon as a user is deactivated, a refresh with a token of the user raises Unauthorized, and no
  -- request with a token of the user is let in, whatever product and tenant it names, unless it
  -- carries the platform administrator's token.
  pub set_active-lockout :
      (i : ℕ) (actor : Option ℕ) (user : User) (w : World)
      (refresh_token access_token setting : String) (header_pid : Option ℕ) (req : Request)
      (out : User)
      → (set_active i false actor w).0 ≡ ok user
      → Names crypto refresh_token i
      → Names crypto access_token i
      → req.token ≡ some access_token
      → is_admin_token setting req.x_platform_admin_token ≡ false
      → ((refresh crypto refresh_token (set_active i false actor w).1).0 ≡ err unauthorized)
        × ((get_current_user crypto setting header_pid req (set_active i false actor w).1).0
            ≢ ok out)
  unfolding get_current_user
  set_active-lockout i actor user w refresh_token access_token setting header_pid req out done names
        names' given plain =
      let after = (set_active i false actor w).1 in
      let idle = set_active-Inactive i actor user w done in
      (
        refresh-Inactive refresh_token i after names idle,
        rw (plain, get_current_user)
            (enter_as_user-Inactive setting access_token header_pid req i after out given names'
              idle),
      )
