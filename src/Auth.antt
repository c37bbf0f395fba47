-- ===== src/Auth.antt =====
-- AuthService (apps/api-gateway/src/modules/auth/auth.service.ts). Addresses, passwords, hashes
-- and tokens are numbers, times are milliseconds. A method returns the users that it leaves, what
-- it sends out, and its value or exception: a refused login changes the users, too. argon2, the
-- JWT service and the captcha are parameters, and so are the random bytes that a call draws.
-- Database calls succeed.
pub mod Lockout
pub mod Races
pub mod Renewals
pub mod Visits
pub mod Captcha
pub mod Sessions
pub mod Confirmation
use crm_system_backend.Prelude.{
  ℕ, ◌+◌, ◌-◌, ◌*◌, max, Bool, true, false, not, ◌&&◌, ◌||◌, Option, none, some, List, [], ◌∷◌,
  ◌++◌, ltb, leb, ◌==◌, if◌then◌else◌, find, update, same_id?, any, is_some,
}
use crm_system_backend.Prelude.Results.{
  Result, ok, err, Failure, bad_request, unauthorized, forbidden, conflict, too_many_requests,
  failed_write,
}
use crm_system_backend.Shared.Access.{Role, user}

pub record User : Type 0 where
  pub id : ℕ
  pub email : ℕ
  pub password_hash : ℕ
  pub refresh_token_hash : Option ℕ
  pub role : Role
  pub is_email_verified : Bool
  pub email_verification_token : Option ℕ
  pub email_verification_token_expires : Option ℕ
  pub failed_login_attempts : ℕ
  pub locked_until : Option ℕ
  pub updated_at : ℕ

-- argon2, the JWT service and the captcha.
pub record Library : Type 0 where
  pub verify : ℕ → ℕ → Bool
  pub hash : ℕ → ℕ → ℕ
  pub sign_access : ℕ → ℕ → ℕ → Role → ℕ
  pub sign_refresh : ℕ → ℕ → ℕ → Role → ℕ
  pub captcha_ok : Option ℕ → Bool

-- The environment. The limits are `Number(...)` of their variables, with 0 for NaN.
-- `normalized` is `trim().toLowerCase()` on addresses.
pub record Env : Type 0 where
  pub demo_mode : Bool
  pub demo_emails : List ℕ
  pub normalized : ℕ → ℕ
  pub is_test : Bool
  pub skip_email_verification : Bool
  pub login_max_attempts : ℕ
  pub login_lock_minutes : ℕ

pub record Tokens : Type 0 where
  pub access_token : ℕ
  pub refresh_token : ℕ

pub data Effect : Type 0 where
  verification_email : ℕ → ℕ → Effect
  visit : ℕ → Effect

-- The answers of `register`.
pub data Registered : Type 0 where
  signed_in : Tokens → Registered
  check_mail : Registered

pub record RegisterDto : Type 0 where
  pub email : ℕ
  pub password : ℕ
  pub captcha_token : Option ℕ

pub record LoginDto : Type 0 where
  pub email : ℕ
  pub password : ℕ

-- What a call leaves, sends and answers.
pub record Outcome (A : Type 0) : Type 0 where
  pub users : List User
  pub sent : List Effect
  pub result : Result A

abbrev pub user_id : User → ℕ
user_id u = u.id

abbrev pub user_email : User → ℕ
user_email u = u.email

abbrev pub refuse : {A : Type 0} → List User → List Effect → Failure → Outcome A
refuse users sent e = record { users = users; sent = sent; result = err e }

abbrev pub answer : {A : Type 0} → List User → List Effect → A → Outcome A
answer users sent a = record { users = users; sent = sent; result = ok a }

-- `getLoginPolicy`: `|| 5` and `|| 15`.
abbrev pub max_attempts : Env → ℕ
max_attempts e = if e.login_max_attempts == 0 then 5 else e.login_max_attempts

abbrev pub lock_minutes : Env → ℕ
lock_minutes e = if e.login_lock_minutes == 0 then 15 else e.login_lock_minutes

-- The lock test of `login`: `lockedUntil` lies ahead.
abbrev pub is_locked : ℕ → User → Bool
is_locked now u = elim u.locked_until [ none ↦ false | some t ↦ ltb now t ]

-- `canResendVerification`. The result does not depend on what is cut off below 0.
abbrev pub day : ℕ
day = 24 * 60 * 60 * 1000

unfoldable pub can_resend_verification : ℕ → User → Bool
can_resend_verification now u = elim u.email_verification_token_expires [
  | none ↦ true
  | some expires ↦ leb (5 * 60 * 1000) (now - max (expires - day) u.updated_at)
]

-- `prisma.user.update`, which also sets `updatedAt`.
abbrev pub stamp : ℕ → (User → User) → User → User
stamp now change u = record (change u) { updated_at = now }

abbrev pub save : ℕ → ℕ → (User → User) → List User → List User
save now id change = update user_id id (stamp now change)

-- The new token of a verification mail.
abbrev set_token : ℕ → ℕ → User → User
set_token now token u = record u {
  email_verification_token = some token;
  email_verification_token_expires = some (now + day);
}

abbrev pub find_token : ℕ → List User → Option User
find_token t [] = none
find_token t (u ∷ us) = if same_id? u.email_verification_token t then some u else find_token t us

abbrev clear_attempts : User → User
clear_attempts u = record u { failed_login_attempts = 0; locked_until = none }

abbrev pub confirm_email : User → User
confirm_email u = record u {
  is_email_verified = true;
  email_verification_token = none;
  email_verification_token_expires = none;
}

abbrev login_denied : Env → ℕ → Bool
login_denied env email = env.demo_mode && not (any (λ e. e == env.normalized email) env.demo_emails)

module _ (lib : Library) (env : Env) where
  -- `registerFailedAttempt`: the count that `login` has read, plus 1.
  abbrev pub count_failure : ℕ → ℕ → User → User
  count_failure now prev u =
      if leb (max_attempts env) (prev + 1)
      then record u {
        failed_login_attempts = prev + 1;
        locked_until = some (now + lock_minutes env * 60000);
      }
      else record u { failed_login_attempts = prev + 1 }

  unfoldable pub register_failed_attempt : ℕ → ℕ → ℕ → List User → List User
  register_failed_attempt now id prev users = save now id (count_failure now prev) users

  -- `issueTokens`.
  abbrev pub keep_refresh : ℕ → Tokens → User → User
  keep_refresh seed t u = record u { refresh_token_hash = some (lib.hash seed t.refresh_token) }

  abbrev pub tokens_for : ℕ → User → Tokens
  tokens_for now u = record {
    access_token = lib.sign_access now u.id u.email u.role;
    refresh_token = lib.sign_refresh now u.id u.email u.role;
  }

  unfoldable pub issue_tokens : ℕ → ℕ → User → List User → List User × Tokens
  issue_tokens now seed u users =
      (save now u.id (keep_refresh seed (tokens_for now u)) users, tokens_for now u)

  -- The last steps of `login`, after the password is found right.
  abbrev reset_attempts : ℕ → User → List User → List User
  reset_attempts now u users =
      if ltb 0 u.failed_login_attempts || is_some u.locked_until
      then save now u.id clear_attempts users
      else users

  unfoldable pub admit : ℕ → ℕ → User → List User → Outcome Tokens
  unfolding issue_tokens can_resend_verification
  admit now seed u users =
      if not u.is_email_verified && not env.skip_email_verification
      then (if can_resend_verification now u
          then refuse (save now u.id (set_token now seed) users)
              (verification_email u.email seed ∷ []) unauthorized
          else refuse users [] unauthorized)
      else answer (issue_tokens now seed u users).0 (visit u.id ∷ [])
          (issue_tokens now seed u users).1

  -- `login`.
  unfoldable pub login : ℕ → ℕ → LoginDto → List User → Outcome Tokens
  unfolding admit register_failed_attempt
  login now seed dto users =
      if login_denied env dto.email
      then refuse users [] forbidden
      else elim (find user_email dto.email users) [
        | none ↦ refuse users [] unauthorized
        | some u ↦
            if is_locked now u
            then refuse users [] too_many_requests
            else if not (lib.verify u.password_hash dto.password)
            then refuse (register_failed_attempt now u.id u.failed_login_attempts users) []
                unauthorized
            else admit now seed u (reset_attempts now u users)
      ]

  abbrev new_user : ℕ → ℕ → ℕ → RegisterDto → User
  new_user now seed uuid dto = record {
    id = uuid;
    email = dto.email;
    password_hash = lib.hash seed dto.password;
    refresh_token_hash = none;
    role = user;
    is_email_verified = false;
    email_verification_token = none;
    email_verification_token_expires = none;
    failed_login_attempts = 0;
    locked_until = none;
    updated_at = now;
  }

  -- The part of `register` on a new address.
  unfoldable pub sign_up : ℕ → ℕ → ℕ → RegisterDto → List User → Outcome Registered
  unfolding issue_tokens
  sign_up now seed uuid dto users =
      let fresh = new_user now seed uuid dto in
      let verified : User = record fresh { is_email_verified = true } in
      if env.is_test || env.skip_email_verification
      then answer (issue_tokens now seed verified (users ++ verified ∷ [])).0 []
          (signed_in (tokens_for now verified))
      else answer (users ++ set_token now seed fresh ∷ []) (verification_email dto.email seed ∷ [])
          check_mail

  -- `register`.
  unfoldable pub register : ℕ → ℕ → ℕ → RegisterDto → List User → Outcome Registered
  unfolding sign_up can_resend_verification
  register now seed uuid dto users =
      if env.demo_mode
      then refuse users [] forbidden
      else if not (lib.captcha_ok dto.captcha_token)
      then refuse users [] bad_request
      else elim (find user_email dto.email users) [
        | none ↦ sign_up now seed uuid dto users
        | some u ↦
            if not u.is_email_verified && can_resend_verification now u
            then refuse (save now u.id (set_token now seed) users)
                (verification_email u.email seed ∷ []) conflict
            else refuse users [] conflict
      ]

  -- `resendVerification`; `none` is a value that is no text, or blank.
  unfoldable pub resend_verification : ℕ → ℕ → Option ℕ → List User → Outcome (Unit {0})
  unfolding can_resend_verification
  resend_verification now seed none users =
      if env.demo_mode then refuse users [] forbidden else refuse users [] bad_request
  resend_verification now seed (some email) users =
      if env.demo_mode
      then refuse users [] forbidden
      else elim (find user_email (env.normalized email) users) [
        | none ↦ refuse users [] bad_request
        | some u ↦
            if u.is_email_verified
            then refuse users [] bad_request
            else if not (can_resend_verification now u)
            then refuse users [] bad_request
            else answer (save now u.id (set_token now seed) users)
                (verification_email u.email seed ∷ []) tt
      ]

  -- `refresh`.
  unfoldable pub refresh : ℕ → ℕ → ℕ → ℕ → List User → Outcome Tokens
  unfolding issue_tokens
  refresh now seed id token users = elim (find user_id id users) [
    | none ↦ refuse users [] unauthorized
    | some u ↦ elim u.refresh_token_hash [
      | none ↦ refuse users [] unauthorized
      | some h ↦
          if login_denied env u.email
          then refuse users [] forbidden
          else if not (lib.verify h token)
          then refuse users [] unauthorized
          else answer (issue_tokens now seed u users).0 [] (issue_tokens now seed u users).1
    ]
  ]

-- `verifyEmail`; `none` is an empty token.
abbrev pub is_expired : ℕ → User → Bool
is_expired now u = elim u.email_verification_token_expires [ none ↦ true | some t ↦ ltb t now ]

unfoldable pub verify_email : ℕ → Option ℕ → List User → Outcome (Unit {0})
verify_email now none users = refuse users [] bad_request
verify_email now (some token) users = elim (find_token token users) [
  | none ↦ refuse users [] bad_request
  | some u ↦
      if is_expired now u
      then refuse users [] bad_request
      else if u.is_email_verified
      then answer users [] tt
      else answer (save now u.id confirm_email users) [] tt
]

abbrev pub forget_refresh : User → User
forget_refresh u = record u { refresh_token_hash = none }

-- `logout`.
unfoldable pub logout : ℕ → ℕ → List User → Outcome (Unit {0})
logout now id users = elim (find user_id id users) [
  | none ↦ refuse users [] failed_write
  | some u ↦ answer (save now id forget_refresh users) [] tt
]
