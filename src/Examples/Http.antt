-- ===== src/Examples/Http.antt =====
-- One account, signed in from a browser without cookies.
use crm_system_backend.Prelude.{
  ℕ, ◌+◌, ◌*◌, ◌≡◌, refl, ◌==◌, ==_refl, none, some, [], ◌∷◌, true, false, find, arith,
}
use crm_system_backend.Prelude.Results.{ok, err, unauthorized}
use crm_system_backend.Shared.Access.{user}
use crm_system_backend.Auth.{
  User, Library, Env, LoginDto, Tokens, user_id, tokens_for, login, admit, issue_tokens,
}
use crm_system_backend.Http.{
  Jwt, JwtPayload, Request, Reply, Jar, handle_logout, handle_refresh, browser_request,
  keep_cookies, denied,
}
use crm_system_backend.Http.Sessions.{after_login, jar_of, refresh_age, cookies_renew}
use crm_system_backend.Http.Logout.{logout_ends_session, late_logout_keeps_session}

abbrev library : Library
library = record {
  verify = λ h p. h == p;
  hash = λ s p. p;
  sign_access = λ now id email role. now + id;
  sign_refresh = λ now id email role. 2 * now + id;
  captcha_ok = λ t. true;
}

abbrev env : Env
env = record {
  demo_mode = false;
  demo_emails = [];
  normalized = λ m. m;
  is_test = false;
  skip_email_verification = true;
  login_max_attempts = 2;
  login_lock_minutes = 0;
}

abbrev account : User
account = record {
  id = 1;
  email = 5;
  password_hash = 77;
  refresh_token_hash = none;
  role = user;
  is_email_verified = true;
  email_verification_token = none;
  email_verification_token_expires = none;
  failed_login_attempts = 0;
  locked_until = none;
  updated_at = 0;
}

abbrev claims : JwtPayload
claims = record { sub = 1; email = 5; role = user }

abbrev jwt : Jwt
jwt = record { verify_access = λ now t. some claims; verify_refresh = λ now t. some claims }

abbrev dto : LoginDto
dto = record { email = 5; password = 77 }

abbrev empty_jar : Jar
empty_jar = record { access_value = none; refresh_value = none }

abbrev issued : Tokens
issued = tokens_for library env 100 account

login_succeeds : (login library env 100 0 dto (account ∷ [])).result ≡ ok issued
unfolding login admit issue_tokens
login_succeeds = refl

cookies_renew_example :
    (v : User) × (find user_id 1 (after_login library env jwt true 100 0 dto (account ∷ []))
      ≡ some v)
    × ((handle_refresh library env jwt true 2000000 3
          (browser_request 2000000 (jar_of library env jwt true 100 0 dto (account ∷ []) empty_jar))
          (after_login library env jwt true 100 0 dto (account ∷ []))).result
        ≡ ok (some (tokens_for library env 2000000 v).access_token))
    × ((keep_cookies 2000000
          (handle_refresh library env jwt true 2000000 3
            (browser_request 2000000
              (jar_of library env jwt true 100 0 dto (account ∷ []) empty_jar))
            (after_login library env jwt true 100 0 dto (account ∷ []))).cookies
          (jar_of library env jwt true 100 0 dto (account ∷ []) empty_jar)).refresh_value
        ≡ some ((tokens_for library env 2000000 v).refresh_token, 2000000 + refresh_age))
cookies_renew_example =
    cookies_renew library env jwt true 100 0 2000000 3 dto (account ∷ []) account issued claims
      empty_jar (λ s p. ==_refl p) (refl, tt) refl login_succeeds (omega arith) refl refl

logout_ends_session_example :
    (out : Reply) × (handle_logout jwt true 500
        (browser_request 500 (jar_of library env jwt true 100 0 dto (account ∷ []) empty_jar))
        (after_login library env jwt true 100 0 dto (account ∷ []))
      ≡ out)
    × (out.result ≡ ok none)
    × ((x : ℕ)
        → browser_request x (
            keep_cookies 500 out.cookies
              (jar_of library env jwt true 100 0 dto (account ∷ []) empty_jar))
          ≡ record { access_value = none; refresh_value = none; bearer = none })
    × ((x seed3 token : ℕ) (r : Request) (q : JwtPayload)
        → r.refresh_value ≡ some token
        → jwt.verify_refresh x token ≡ some q
        → q.sub ≡ account.id
        → (handle_refresh library env jwt true x seed3 r out.users).result ≡ err unauthorized)
logout_ends_session_example =
    logout_ends_session library env jwt true 100 0 500 dto (account ∷ []) account issued claims
      empty_jar (λ s p. ==_refl p) (refl, tt) refl login_succeeds (omega arith) refl refl

late_logout_keeps_session_example :
    (out : Reply) × (handle_logout jwt true 1000000
        (browser_request 1000000 (jar_of library env jwt true 100 0 dto (account ∷ []) empty_jar))
        (after_login library env jwt true 100 0 dto (account ∷ []))
      ≡ out)
    × (out ≡ denied (after_login library env jwt true 100 0 dto (account ∷ [])))
    × (v : User) × (find user_id 1 out.users ≡ some v)
    × ((handle_refresh library env jwt true 2000000 3
          (browser_request 2000000 (
            keep_cookies 1000000 out.cookies
              (jar_of library env jwt true 100 0 dto (account ∷ []) empty_jar)))
          out.users).result
        ≡ ok (some (tokens_for library env 2000000 v).access_token))
late_logout_keeps_session_example =
    late_logout_keeps_session library env jwt true 100 0 1000000 2000000 3 dto (account ∷ [])
      account issued claims empty_jar (λ s p. ==_refl p) (refl, tt) refl login_succeeds
      (omega arith) (omega arith) refl refl
