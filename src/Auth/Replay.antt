-- ===== src/Auth/Replay.antt =====
-- app/services/auth.py: a refresh token works once.
use plynth.Models.Tenant.{User}
use plynth.Context.{set_current_product, set_current_tenant}
use plynth.Auth.{
  issue_tokens, change_password, is_jti, revoke, is_live_of, logout, confirm_password_reset,
  refresh, request_password_reset, rehashed, let_in, login, login_user, is_reset_token,
  is_resettable, hash_token, set_new_password,
}
use plynth.Models.Session.{RefreshToken}
use plynth.World.{World}
use plynth.Security.{
  Crypto, issue_token, hash_password, verify_password, decode_token, needs_rehash,
}
use plynth.Prelude.{
  [], ◌∷◌, none, true, false, inl, inr, refl, String, ℕ, ◌≤◌, All, Bool, List, str_eq, ◌≡◌, is_some,
  Bool-cases, true_ne_false, Option, sym, ◌∙◌, ◌+◌, arith, is_given, Option-cases, get_or, find?,
  ◌||◌, ◌&&◌, leb, ◌==◌, not,
}
use plynth.Exec.{Keeps, resume, Keeps-bind}

-- Every row of a token's identifier is revoked, and no identifier still to be drawn is the token's.
abbrev pub Unused : String → World → Type 0
Unused jti w = (n : ℕ) → w.drawn ≤ n → str_eq (w.env.uuid_str (w.env.uuid n)) jti ≡ false

abbrev pub RowSpent : String → RefreshToken → Type 0
RowSpent jti r = is_jti jti r ≡ true → is_some r.revoked_at ≡ true

abbrev pub Spent : String → World → Type 0
Spent jti w = All (RowSpent jti) w.refresh_tokens × Unused jti w

revoke-RowSpent :
    (jti : String) (p : RefreshToken → Bool) (time : ℕ) (rows : List RefreshToken)
    → All (RowSpent jti) rows
    → All (RowSpent jti) (revoke p time rows)
revoke-RowSpent jti p time [] h = tt
revoke-RowSpent jti p time (r ∷ rows) h = elim (Bool-cases (p r)) [
  | inl hit ↦ rw hit ((λ _. refl), revoke-RowSpent jti p time rows h.1)
  | inr miss ↦ rw miss (h.0, revoke-RowSpent jti p time rows h.1)
]

pub revoke-spends :
    (jti : String) (time : ℕ) (rows : List RefreshToken)
    → All (RowSpent jti) (revoke (is_jti jti) time rows)
revoke-spends jti time [] = tt
revoke-spends jti time (r ∷ rows) = elim (Bool-cases (is_jti jti r)) [
  | inl hit ↦ rw hit ((λ _. refl), revoke-spends jti time rows)
  | inr miss ↦ rw miss ((λ e. absurd (true_ne_false (sym e ∙ miss))), revoke-spends jti time rows)
]

module _ (crypto : Crypto) (jti : String) where
  pub issue_tokens-Spent :
      (user : User) (agent ip : Option String)
      → Keeps (Spent jti) (issue_tokens crypto user agent ip)
  unfolding issue_tokens issue_token set_current_product set_current_tenant
  issue_tokens-Spent user agent ip w (rows, unused) = (
    ((λ e. absurd (true_ne_false (sym e ∙ unused (w.drawn + 1) (omega arith)))), rows),
    λ n le. unused n (omega (arith, le)),
  )

  pub change_password-Spent :
      (user : User) (current new : String)
      → Keeps (Spent jti) (change_password crypto user current new)
  unfolding change_password hash_password
  change_password-Spent user current new w (rows, unused) =
      elim (Bool-cases (verify_password crypto current user.password_hash)) [
        | inr wrong ↦ rw (wrong, change_password) (rows, unused)
        | inl right ↦
            rw (right, change_password)
              (elim (Bool-cases (str_eq current new)) [
                | inl same ↦ rw same (rows, unused)
                | inr differ ↦
                    rw (differ, hash_password)
                      (
                        revoke-RowSpent jti (is_live_of user.id) w.env.now w.refresh_tokens rows,
                        λ n le. unused n (omega (arith, le)),
                      )
              ])
      ]

  pub logout-Spent :
      (user : User) (token : Option String) (all_sessions : Bool)
      → Keeps (Spent jti) (logout crypto user token all_sessions)
  unfolding logout
  logout-Spent user token true w (rows, unused) =
      (revoke-RowSpent jti (is_live_of user.id) w.env.now w.refresh_tokens rows, unused)
  logout-Spent user token false w (rows, unused) = elim (Bool-cases (is_given token)) [
    | inr missing ↦ rw (missing, logout) (rows, unused)
    | inl given ↦
        rw (given, logout)
          (elim (Option-cases (decode_token crypto (get_or token "") "refresh" w)) [
            | inl invalid ↦ rw (invalid, resume) (rows, unused)
            | inr (payload, valid) ↦
                rw (valid, resume) (revoke-RowSpent jti _ w.env.now w.refresh_tokens rows, unused)
          ])
  ]

  pub confirm_password_reset-Spent :
      (token new : String) → Keeps (Spent jti) (confirm_password_reset crypto token new)
  unfolding confirm_password_reset set_new_password hash_password
  confirm_password_reset-Spent token new w (rows, unused) =
      elim (Option-cases (find? (is_reset_token crypto (hash_token crypto token)) w.reset_tokens)) [
        | inl gone ↦ rw (gone, confirm_password_reset) (rows, unused)
        | inr (row, found) ↦
            rw (found, confirm_password_reset)
              (elim (Bool-cases (is_some row.used_at)) [
                | inl used ↦ rw used (rows, unused)
                | inr usable ↦ rw usable (elim (Bool-cases (leb row.expires_at w.env.now)) [
                  | inl late ↦ rw late (rows, unused)
                  | inr live ↦
                      rw live (elim (Option-cases (find? (λ u. u.id == row.user_id) w.users)) [
                        | inl missing ↦ rw missing (rows, unused)
                        | inr (user, owner) ↦
                            rw owner
                              (elim (Bool-cases (not user.is_active || is_some user.deleted_at)) [
                                | inl barred ↦ rw barred (rows, unused)
                                | inr free ↦
                                    rw (free, set_new_password, hash_password)
                                      (
                                        revoke-RowSpent jti (is_live_of user.id) w.env.now
                                            w.refresh_tokens rows,
                                        λ n le. unused n (omega (arith, le)),
                                      )
                              ])
                      ])
                ])
              ])
      ]

  pub refresh-Spent : (token : String) → Keeps (Spent jti) (refresh crypto token)
  unfolding refresh
  refresh-Spent token w (rows, unused) =
      elim (Option-cases (decode_token crypto token "refresh" w)) [
        | inl invalid ↦ rw (invalid, refresh) (rows, unused)
        | inr (payload, valid) ↦
            rw (valid, refresh)
              (elim (Option-cases (find? (is_jti payload.jti) w.refresh_tokens)) [
                | inl gone ↦ rw gone (rows, unused)
                | inr (row, found) ↦
                    rw found
                      (elim (Bool-cases (is_some row.revoked_at || leb row.expires_at w.env.now)) [
                        | inl dead ↦ rw dead (rows, unused)
                        | inr live ↦
                            rw live
                              (elim (Option-cases (find? (λ u. u.id == payload.sub) w.users)) [
                                | inl missing ↦ rw missing (rows, unused)
                                | inr (user, owner) ↦
                                    rw owner (elim (Bool-cases (not user.is_active)) [
                                      | inl idle ↦ rw idle (rows, unused)
                                      | inr active ↦ rw active (
                                          issue_tokens-Spent user none none
                                            (record w {
                                              refresh_tokens =
                                                  revoke (is_jti row.jti) w.env.now
                                                    w.refresh_tokens;
                                            })
                                            (
                                              revoke-RowSpent jti (is_jti row.jti) w.env.now
                                                  w.refresh_tokens rows,
                                              unused,
                                            ))
                                    ])
                              ])
                      ])
              ])
      ]

  module _ (lower : String → String) where
    pub request_password_reset-Spent :
        (p : ℕ) (email : String) (ip : Option String)
        → Keeps (Spent jti) (request_password_reset crypto lower p email ip)
    unfolding request_password_reset
    request_password_reset-Spent p email ip w (rows, unused) =
        elim (Option-cases (find? (is_resettable crypto lower p email) w.users)) [
          | inl unknown ↦ rw (unknown, request_password_reset, resume) (rows, unused)
          | inr (user, known) ↦
              rw (known, request_password_reset, resume)
                (rows, λ n le. unused n (omega (arith, le)))
        ]

    pub rehashed-Spent :
        (user : User) (password : String) → Keeps (Spent jti) (rehashed crypto lower user password)
    unfolding rehashed hash_password
    rehashed-Spent user password w (rows, unused) =
        elim (Bool-cases (needs_rehash crypto user.password_hash)) [
          | inl old ↦ rw (old, rehashed, hash_password) (rows, λ n le. unused n (omega (arith, le)))
          | inr current ↦ rw (current, rehashed) (rows, unused)
        ]

    pub let_in-Spent :
        (user : User) (password : String) (agent ip : Option String)
        → Keeps (Spent jti) (let_in crypto lower user password agent ip)
    unfolding let_in
    let_in-Spent user password agent ip =
        Keeps-bind (Spent jti) (rehashed crypto lower user password) _
          (rehashed-Spent user password)
          (λ current.
            Keeps-bind (Spent jti) (issue_tokens crypto current agent ip) _
              (issue_tokens-Spent current agent ip) (λ session w h. h))

    pub login-Spent :
        (p : ℕ) (email password : String) (slug agent ip : Option String)
        → Keeps (Spent jti) (login crypto lower p email password slug agent ip)
    unfolding login
    login-Spent p email password slug agent ip w h =
        elim (Option-cases (login_user crypto lower p email slug w)) [
          | inl unknown ↦ rw (unknown, login, resume) h
          | inr (user, known) ↦
              rw (known, login, resume)
                (elim (Bool-cases
                  (user.is_active && verify_password crypto password user.password_hash)) [
                    | inl right ↦ rw right (let_in-Spent user password agent ip w h)
                    | inr wrong ↦ rw wrong h
                  ])
        ]
