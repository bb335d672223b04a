-- ===== src/Tests/Sessions.antt =====
-- Runs of the calls on sessions and passwords.
use plynth.ServiceTokens.Liveness.{Works, at_time, use_all, issue-authenticate}
use plynth.ServiceTokens.{issue, validate_scopes}
use plynth.Models.ServiceToken.{ProductServiceToken}
use plynth.Auth.Relogin.{change_password-login}
use plynth.Context.{set_current_product, set_current_tenant}
use plynth.Samples.People.{toy, office}
use plynth.Security.{decode_token, hash_password, verify_password, issue_token}
use plynth.Auth.Reset.{LoggedOut, confirm_password_reset-LoggedOut}
use plynth.Auth.Once.{Carries, perform_calls, login_call, wait, refresh_once}
use plynth.Auth.{
  Session, refresh, confirm_password_reset, change_password, set_new_password, login, issue_tokens,
}
use plynth.Samples.{user}
use plynth.Prelude.{[], ◌∷◌, none, refl, ◌≡◌, String}
use plynth.Exec.{ok, err, unauthorized}

abbrev renewed : Session
renewed = record { user = user; access_token = "u"; refresh_token = "u"; access_exp = 1900 }

refresh_works : (refresh toy "refresh" office).0 ≡ ok renewed
unfolding refresh decode_token issue_tokens issue_token set_current_product set_current_tenant
refresh_works = refl

refresh_token-Carries : Carries toy "refresh" "j1"
refresh_token-Carries time payload e = cc

refresh_once_example :
    (refresh toy "refresh" (
      perform_calls toy
        (λ email. email)
        (login_call 9 "u@example.com" "h" none none none ∷ wait 60 ∷ [])
        (refresh toy "refresh" office).1)).0
    ≡ err unauthorized
refresh_once_example =
    refresh_once toy (λ email. email)
      (login_call 9 "u@example.com" "h" none none none ∷ wait 60 ∷ []) "refresh" "j1" office renewed
      refresh_token-Carries (λ n le. refl) refresh_works

reset_works :
    (confirm_password_reset toy "raw" "new" office).0 ≡ ok (record user { password_hash = "new" })
unfolding confirm_password_reset set_new_password hash_password
reset_works = refl

confirm_password_reset-LoggedOut_example :
    LoggedOut 3 (confirm_password_reset toy "raw" "new" office).1
    × ((other : String)
        → (confirm_password_reset toy "raw" other
            (confirm_password_reset toy "raw" "new" office).1).0
          ≡ err unauthorized)
confirm_password_reset-LoggedOut_example =
    confirm_password_reset-LoggedOut toy "raw" "new" office (record user { password_hash = "new" })
      reset_works

change_works : (change_password toy user "h" "new" office).0 ≡ ok tt
unfolding change_password hash_password verify_password
change_works = refl

change_password-login_example :
    ((s : Session) × ((login toy
          (λ email. email)
          9
          "u@example.com"
          "new"
          none
          none
          none
          (change_password toy user "h" "new" office).1).0
        ≡ ok s))
    × ((login toy
          (λ email. email)
          9
          "u@example.com"
          "h"
          none
          none
          none
          (change_password toy user "h" "new" office).1).0
        ≡ err unauthorized)
change_password-login_example =
    change_password-login toy (λ email. email) user "h" "new" 9 "u@example.com" none none none "h"
      office (λ salt a b. refl) refl refl refl change_works

abbrev minted_row : ProductServiceToken
minted_row = record {
  id = 22;
  product_id = 9;
  name = "back end";
  token_hash = "pst_0f";
  scopes = "env:read" ∷ [];
  expires_at = none;
  revoked_at = none;
  last_used_at = none;
  last_used_ip = none;
}

issue_works :
    (issue toy 9 "back end" ("env:read" ∷ []) none none office).0 ≡ ok (minted_row, "pst_0f")
unfolding issue validate_scopes
issue_works = refl

issue-authenticate_example :
    Works toy 9
      ("env:read" ∷ [])
      none
      (minted_row, "pst_0f")
      (at_time 2000 (
        use_all toy "pst_0f"
          (record { time = 1500; scope = "env:read"; ip = none } ∷ [])
          (issue toy 9 "back end" ("env:read" ∷ []) none none office).1))
issue-authenticate_example =
    issue-authenticate toy 9 "back end" ("env:read" ∷ []) none none
      (record { time = 1500; scope = "env:read"; ip = none } ∷ []) 2000 office
      (minted_row, "pst_0f") issue_works
