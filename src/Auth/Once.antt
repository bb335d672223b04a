-- ===== src/Auth/Once.antt =====
-- app/services/auth.py, `refresh`: a refresh token works once, whatever calls come after.
use plynth.Models.Session.{RefreshToken}
use plynth.Auth.Replay.{
  Spent, Unused, login-Spent, refresh-Spent, logout-Spent, change_password-Spent,
  request_password_reset-Spent, confirm_password_reset-Spent, issue_tokens-Spent, RowSpent,
  revoke-spends,
}
use plynth.Models.Tenant.{User}
use plynth.Auth.{
  refresh, Session, login, unauthorized, logout, change_password, request_password_reset, is_jti,
  confirm_password_reset, revoke,
}
use plynth.World.{World}
use plynth.Security.{Crypto, Payload, decode_token, of_type}
use plynth.Prelude.{
  [], ◌∷◌, some, none, true, inl, inr, refl, ℕ, String, Option, List, ◌+◌, ◌≡◌, Bool, Option-cases,
  sym, find?, ◌∙◌, is_some, ◌||◌, leb, ◌==◌, not, subst, ap, All, arith, eq_iff, find?-All,
  find?-holds,
}
use plynth.Exec.{ok, err, or_raise-ok, raise_if-ok}

-- The calls on sessions and passwords, and the passing of time
pub data Call : Type 0 where
  login_call : ℕ → String → String → Option String → Option String → Option String → Call
  refresh_call : String → Call
  logout_call : User → Option String → Bool → Call
  change_call : User → String → String → Call
  request_call : ℕ → String → Option String → Call
  confirm_call : String → String → Call
  wait : ℕ → Call

abbrev pub advance : ℕ → World → World
advance seconds w = record w { env = record (w.env) { now = w.env.now + seconds } }

-- All that a token decodes to, at any time, carries one identifier.
abbrev pub Carries : Crypto → String → String → Type 0
Carries crypto token jti =
    (time : ℕ) (payload : Payload) → crypto.jwt_decode time token ≡ some payload → payload.jti ≡ jti

pub of_type-some :
    (crypto : Crypto) (typ : String) (o : Option Payload) (p : Payload)
    → of_type crypto typ o ≡ some p
    → o ≡ some p
of_type-some crypto typ none p e = cc
of_type-some crypto typ (some q) p e = ground arith

row_jti :
    (jti : String) (rows : List RefreshToken) (row : RefreshToken)
    → find? (is_jti jti) rows ≡ some row
    → row.jti ≡ jti
row_jti jti rows row found = (eq_iff row.jti jti).0 (find?-holds (is_jti jti) rows row found)

module _ (crypto : Crypto) where
  decode_token-Carries :
      (token typ jti : String) (w : World) (payload : Payload)
      → Carries crypto token jti
      → decode_token crypto token typ w ≡ some payload
      → payload.jti ≡ jti
  unfolding decode_token
  decode_token-Carries token typ jti w payload carries e =
      carries w.env.now payload
        (of_type-some crypto typ (crypto.jwt_decode w.env.now token) payload e)

  refresh-spends :
      (token jti : String) (w : World) (s : Session)
      → Carries crypto token jti
      → Unused jti w
      → (refresh crypto token w).0 ≡ ok s
      → Spent jti (refresh crypto token w).1
  unfolding refresh
  refresh-spends token jti w s carries unused done =
      let (payload, valid, d1, e1) =
        or_raise-ok (decode_token crypto token "refresh" w) unauthorized _ w done in
      let (row, found, d2, e2) =
        or_raise-ok (find? (is_jti payload.jti) w.refresh_tokens) unauthorized _ w d1 in
      let (live, d3, e3) =
        raise_if-ok (is_some row.revoked_at || leb row.expires_at w.env.now) unauthorized _ w d2 in
      let (user, owner, d4, e4) =
        or_raise-ok (find? (λ u. u.id == payload.sub) w.users) unauthorized _ w d3 in
      let (active, d5, e5) = raise_if-ok (not user.is_active) unauthorized _ w d4 in
      subst (Spent jti) (ap (λ x. x.1) (sym (e1 ∙ (e2 ∙ (e3 ∙ (e4 ∙ e5)))))) (
        issue_tokens-Spent crypto jti user none none _ (
          subst (λ j. All (RowSpent jti) (revoke (is_jti j) w.env.now w.refresh_tokens))
              (sym (
                row_jti payload.jti w.refresh_tokens row found
                ∙ decode_token-Carries token "refresh" jti w payload carries valid))
              (revoke-spends jti w.env.now w.refresh_tokens),
          unused,
        ))

  refresh-refused :
      (token jti : String) (w : World)
      → Carries crypto token jti
      → Spent jti w
      → (refresh crypto token w).0 ≡ err unauthorized
  unfolding refresh
  refresh-refused token jti w carries (rows, _) =
      elim (Option-cases (decode_token crypto token "refresh" w)) [
        | inl invalid ↦ rw (invalid, refresh) refl
        | inr (payload, valid) ↦
            rw (valid, refresh)
              (elim (Option-cases (find? (is_jti payload.jti) w.refresh_tokens)) [
                | inl gone ↦ rw gone refl
                | inr (row, found) ↦ rw found (
                    rw
                      (dead payload row
                        (decode_token-Carries token "refresh" jti w payload carries valid) found)
                      refl)
              ])
      ]
    where
      dead :
          (payload : Payload) (row : RefreshToken)
          → payload.jti ≡ jti
          → find? (is_jti payload.jti) w.refresh_tokens ≡ some row
          → is_some row.revoked_at ≡ true
      dead payload row same found =
          find?-All (is_jti payload.jti) (RowSpent jti) w.refresh_tokens row rows found (
            subst (λ j. is_jti j row ≡ true) same
              (find?-holds (is_jti payload.jti) w.refresh_tokens row found))

  module _ (lower : String → String) where
    abbrev perform : Call → World → World
    perform (login_call p email password slug agent ip) w =
        (login crypto lower p email password slug agent ip w).1
    perform (refresh_call token) w = (refresh crypto token w).1
    perform (logout_call user token all_sessions) w = (logout crypto user token all_sessions w).1
    perform (change_call user current new) w = (change_password crypto user current new w).1
    perform (request_call p email ip) w = (request_password_reset crypto lower p email ip w).1
    perform (confirm_call token new) w = (confirm_password_reset crypto token new w).1
    perform (wait seconds) w = advance seconds w

    abbrev pub perform_calls : List Call → World → World
    perform_calls [] w = w
    perform_calls (c ∷ cs) w = perform_calls cs (perform c w)

    perform-Spent : (jti : String) (c : Call) (w : World) → Spent jti w → Spent jti (perform c w)
    perform-Spent jti (login_call p email password slug agent ip) =
        login-Spent crypto jti lower p email password slug agent ip
    perform-Spent jti (refresh_call token) = refresh-Spent crypto jti token
    perform-Spent jti (logout_call user token all_sessions) =
        logout-Spent crypto jti user token all_sessions
    perform-Spent jti (change_call user current new) =
        change_password-Spent crypto jti user current new
    perform-Spent jti (request_call p email ip) =
        request_password_reset-Spent crypto jti lower p email ip
    perform-Spent jti (confirm_call token new) = confirm_password_reset-Spent crypto jti token new
    perform-Spent jti (wait seconds) = λ w h. h

    perform_calls-Spent :
        (jti : String) (cs : List Call) (w : World) → Spent jti w → Spent jti (perform_calls cs w)
    perform_calls-Spent jti [] w h = h
    perform_calls-Spent jti (c ∷ cs) w h =
        perform_calls-Spent jti cs (perform c w) (perform-Spent jti c w h)

    -- A refresh token that was accepted once is refused ever after: whatever logins, refreshes,
    -- logouts and password calls follow, and however much time passes, a refresh with it raises
    -- Unauthorized, if all that the token decodes to carries one identifier and no identifier still
    -- to be drawn is equal to it.
    pub refresh_once :
        (cs : List Call) (token jti : String) (w : World) (s : Session)
        → Carries crypto token jti
        → Unused jti w
        → (refresh crypto token w).0 ≡ ok s
        → (refresh crypto token (perform_calls cs (refresh crypto token w).1)).0 ≡ err unauthorized
    refresh_once cs token jti w s carries unused done =
        refresh-refused token jti _ carries
          (perform_calls-Spent jti cs _ (refresh-spends token jti w s carries unused done))
