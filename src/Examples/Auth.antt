-- ===== src/Examples/Auth.antt =====
-- One account, whose password is 77.
use crm_system_backend.Prelude.{
  List, some, find, ℕ, ◌+◌, ◌*◌, ◌≡◌, refl, true, false, ◌||◌, none, [], ◌∷◌, ◌++◌, ◌==◌, ==_refl,
  arith,
}
use crm_system_backend.Prelude.Results.{bad_request, err, unauthorized, ok, too_many_requests}
use crm_system_backend.Shared.Access.{user}
use crm_system_backend.Auth.{
  refresh, user_email, user_id, stamp, confirm_email, verify_email, User, Library, Env, LoginDto,
  Tokens, login, refuse, is_locked, tokens_for,
}
use crm_system_backend.Auth.Confirmation.{verify_email_single_use}
use crm_system_backend.Auth.Lockout.{Attempt, logins, credentials, failures_lock_account}
use crm_system_backend.Auth.Races.{end_logins, overlapping_failures_count_one}
use crm_system_backend.Auth.Renewals.{end_refresh, overlapping_renewals_strand_one}
use crm_system_backend.Auth.Sessions.{HasSession, login_opens_session}

-- A hash that is the text itself, whatever the salt.
abbrev library : Library
library = record {
  verify = λ h p. h == p;
  hash = λ s p. p;
  sign_access = λ now id email role. now + id;
  sign_refresh = λ now id email role. 2 * now + id;
  captcha_ok = λ t. true;
}

abbrev env : Env
env = record {
  demo_mode = false;
  demo_emails = [];
  normalized = λ m. m;
  is_test = false;
  skip_email_verification = false;
  login_max_attempts = 2;
  login_lock_minutes = 0;
}

abbrev account : User
account = record {
  id = 1;
  email = 5;
  password_hash = 77;
  refresh_token_hash = none;
  role = user;
  is_email_verified = true;
  email_verification_token = none;
  email_verification_token_expires = none;
  failed_login_attempts = 0;
  locked_until = none;
  updated_at = 0;
}

abbrev guess : ℕ → Attempt
guess t = record { at = t; seed = 0; password = 1 }

-- Two wrong passwords, and the right one a minute later.
failures_lock_account_example :
    login library env 80000 0
      (credentials library env 5 77)
      (logins library env 5 ((guess 10000 ∷ []) ++ guess 20000 ∷ []) (account ∷ []))
    ≡ refuse
        (logins library env 5 ((guess 10000 ∷ []) ++ guess 20000 ∷ []) (account ∷ []))
        []
        too_many_requests
failures_lock_account_example =
    failures_lock_account library env 5 (account ∷ []) account (guess 10000 ∷ []) (guess 20000)
      80000 0 77 refl (refl, tt) refl refl (refl, tt) refl refl (omega arith)

abbrev right_dto : LoginDto
right_dto = record { email = 5; password = 77 }

abbrev issued : Tokens
issued = tokens_for library env 100 account

login_succeeds : (login library env 100 0 right_dto (account ∷ [])).result ≡ ok issued
unfolding login
login_succeeds = refl

login_opens_session_example :
    (is_locked 100 account ≡ false)
    × (library.verify account.password_hash 77 ≡ true)
    × ((account.is_email_verified || env.skip_email_verification) ≡ true)
    × HasSession library env account issued (login library env 100 0 right_dto (account ∷ [])).users
login_opens_session_example =
    login_opens_session library env 100 0 right_dto (account ∷ []) account issued (λ s p. ==_refl p)
      (refl, tt) refl login_succeeds

abbrev guest : User
guest = record account {
  is_email_verified = false;
  email_verification_token = some 44;
  email_verification_token_expires = some 500;
}

verify_email_single_use_example :
    let after = (verify_email 100 (some 44) (guest ∷ [])).users in
    ((verify_email 100 (some 44) (guest ∷ [])).result ≡ ok tt)
    × (find user_id 1 after ≡ some (stamp 100 confirm_email guest))
    × (verify_email 200 (some 44) after ≡ refuse after [] bad_request)
verify_email_single_use_example =
    verify_email_single_use 100 200 44 (guest ∷ []) guest (refl, tt) (refl, tt) refl refl refl

-- Three logins with wrong passwords, of which two would lock the account.
abbrev guesses : List Attempt
guesses = guess 20000 ∷ guess 20000 ∷ []

overlapping_failures_count_one_example :
    (v : User) × (find user_email 5
        (end_logins library env 5 (guess 20000 ∷ guesses) (account ∷ []) (account ∷ []))
      ≡ some v)
    × (v.locked_until ≡ none)
    × (v.failed_login_attempts ≡ account.failed_login_attempts + 1)
overlapping_failures_count_one_example =
    overlapping_failures_count_one library env 5 (account ∷ []) account (guess 20000) guesses refl
      refl refl (omega arith) (refl, tt) (refl, (refl, (refl, tt)))

-- An account with a session, whose token 9 is renewed twice.
abbrev member : User
member = record account { refresh_token_hash = some 9 }

overlapping_renewals_strand_one_example :
    ((refresh library env 100 0 1 9 (member ∷ [])).result ≡ ok (tokens_for library env 100 member))
    × ((refresh library env 5000 0 1 (tokens_for library env 100 member).refresh_token (
          end_refresh library env 1 9 200 0
            (member ∷ [])
            (end_refresh library env 1 9 100 0 (member ∷ []) (member ∷ [])))).result
        ≡ err unauthorized)
overlapping_renewals_strand_one_example =
    overlapping_renewals_strand_one library env 1 9 100 0 200 0 5000 0 (member ∷ []) member 9 refl
      refl refl refl refl
