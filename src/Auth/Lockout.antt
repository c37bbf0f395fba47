-- ===== src/Auth/Lockout.antt =====
-- The lock after failed logins: `login`, `registerFailedAttempt` and `getLoginPolicy` of
-- apps/api-gateway/src/modules/auth/auth.service.ts.
use crm_system_backend.Prelude.{
  ℕ, ◌+◌, ◌*◌, ◌<◌, ◌≡◌, refl, sym, subst, ◌∙◌, true, false, none, some, List, [], ◌∷◌, ◌++◌, arith,
  find, length, All, Unique, update-Unique, find-update_other,
}
use crm_system_backend.Prelude.Results.{too_many_requests, unauthorized}
use crm_system_backend.Auth.{
  User, Library, Env, LoginDto, user_id, user_email, max_attempts, lock_minutes, is_locked, stamp,
  save, count_failure, register_failed_attempt, login, login_denied, refuse,
}

-- A login with some password, at some time.
pub record Attempt : Type 0 where
  pub at : ℕ
  pub seed : ℕ
  pub password : ℕ

module _ (lib : Library) (env : Env) (email : ℕ) where
  abbrev pub credentials : ℕ → LoginDto
  credentials password = record { email = email; password = password }

  -- The attempts on one address, in order: the users that they leave.
  abbrev pub logins : List Attempt → List User → List User
  logins [] users = users
  logins (a ∷ rest) users =
      logins rest (login lib env a.at a.seed (credentials a.password) users).users

  abbrev pub Wrong : ℕ → Attempt → Type 0
  Wrong hash a = lib.verify hash a.password ≡ false

  -- What is known of the account between two attempts.
  abbrev Counted : ℕ → ℕ → List User → Type 0
  Counted hash k users =
      (Unique user_id users)
      × (u : User) × (find user_email email users ≡ some u)
      × (u.password_hash ≡ hash)
      × (u.failed_login_attempts ≡ k)
      × (u.locked_until ≡ none)

  failed_login :
      (now seed password : ℕ) (users : List User) (u : User)
      → login_denied env email ≡ false
      → find user_email email users ≡ some u
      → is_locked now u ≡ false
      → lib.verify u.password_hash password ≡ false
      → login lib env now seed (credentials password) users
        ≡ refuse
            (save now u.id (count_failure lib env now u.failed_login_attempts) users)
            []
            unauthorized
  unfolding login register_failed_attempt
  failed_login now seed password users u free e unlocked wrong = ground arith

  blocked_login :
      (now seed password : ℕ) (users : List User) (u : User)
      → login_denied env email ≡ false
      → find user_email email users ≡ some u
      → is_locked now u ≡ true
      → login lib env now seed (credentials password) users ≡ refuse users [] too_many_requests
  unfolding login
  blocked_login now seed password users u free e locked = ground arith

  -- One more wrong password, below the limit and at the limit.
  counted :
      (a : Attempt) (k : ℕ) (u : User)
      → u.failed_login_attempts ≡ k
      → u.locked_until ≡ none
      → k + 1 < max_attempts env
      → ((count_failure lib env a.at u.failed_login_attempts u).failed_login_attempts ≡ k + 1)
        × ((count_failure lib env a.at u.failed_login_attempts u).locked_until ≡ none)
        × ((count_failure lib env a.at u.failed_login_attempts u).password_hash ≡ u.password_hash)
  counted a k u e l h = ground arith

  locked :
      (a : Attempt) (k : ℕ) (u : User)
      → u.failed_login_attempts ≡ k
      → k + 1 ≡ max_attempts env
      → (count_failure lib env a.at u.failed_login_attempts u).locked_until
        ≡ some (a.at + lock_minutes env * 60000)
  locked a k u e h = ground arith

  stored :
      (a : Attempt) (u : User) (users : List User)
      → Unique user_id users
      → find user_email email users ≡ some u
      → find user_email email
          (save a.at u.id (count_failure lib env a.at u.failed_login_attempts) users)
        ≡ some (stamp a.at (count_failure lib env a.at u.failed_login_attempts) u)
  stored a u users unique e =
      find-update_other user_id user_email email _ users u same_email unique e
    where
      same_email :
          (y : User)
          → (stamp a.at (count_failure lib env a.at u.failed_login_attempts) y).email ≡ y.email
      same_email y = ground arith

  same_id : (now k : ℕ) (y : User) → (stamp now (count_failure lib env now k) y).id ≡ y.id
  same_id now k y = ground arith

  one_more :
      (hash k : ℕ) (a : Attempt) (users : List User)
      → login_denied env email ≡ false
      → Counted hash k users
      → Wrong hash a
      → k + 1 < max_attempts env
      → Counted hash (k + 1) (login lib env a.at a.seed (credentials a.password) users).users
  one_more hash k a users free (unique, u, e, h, n, l) wrong below =
      subst (λ o. Counted hash (k + 1) o.users)
        (sym
          (failed_login a.at a.seed a.password users u free e (unlocked u a.at l) (wrong_for u h)))
        (
          update-Unique user_id u.id _ users (same_id a.at u.failed_login_attempts) unique,
          stamp a.at (count_failure lib env a.at u.failed_login_attempts) u,
          stored a u users unique e,
          (counted a k u n l below).2 ∙ h,
          (counted a k u n l below).0,
          (counted a k u n l below).1,
        )
    where
      unlocked : (u : User) (now : ℕ) → u.locked_until ≡ none → is_locked now u ≡ false
      unlocked u now l = ground arith

      wrong_for :
          (u : User) → u.password_hash ≡ hash → lib.verify u.password_hash a.password ≡ false
      wrong_for u h = cc

  many_more :
      (hash k : ℕ) (as_made : List Attempt) (users : List User)
      → login_denied env email ≡ false
      → Counted hash k users
      → All (Wrong hash) as_made
      → k + length as_made < max_attempts env
      → Counted hash (k + length as_made) (logins as_made users)
  many_more hash k [] users free c wrong below = subst (λ n. Counted hash n users) (omega arith) c
  many_more hash k (a ∷ rest) users free c wrong below =
      subst (λ n. Counted hash n (logins (a ∷ rest) users)) (omega arith)
        (many_more hash (k + 1) rest _ free (one_more hash k a users free c wrong.0 (omega arith))
          wrong.1 (omega arith))

  logins-append :
      (made : List Attempt) (a : Attempt) (users : List User)
      → logins (made ++ a ∷ []) users
        ≡ (login lib env a.at a.seed (credentials a.password) (logins made users)).users
  logins-append [] a users = refl
  logins-append (b ∷ made) a users = logins-append made a _

  -- The wrong password that reaches the limit.
  last_one :
      (hash k now seed password : ℕ) (a : Attempt) (users : List User)
      → login_denied env email ≡ false
      → Counted hash k users
      → Wrong hash a
      → k + 1 ≡ max_attempts env
      → now < a.at + lock_minutes env * 60000
      → let after = (login lib env a.at a.seed (credentials a.password) users).users in
        login lib env now seed (credentials password) after ≡ refuse after [] too_many_requests
  last_one hash k now seed password a users free (unique, u, e, h, n, l) wrong limit early =
      subst
        (λ o.
          login lib env now seed (credentials password) o.users
          ≡ refuse o.users [] too_many_requests)
        (sym (failed_login a.at a.seed a.password users u free e (unlocked l) (wrong_for h)))
        (blocked_login now seed password _ (failed_user u) free (stored a u users unique e)
          (still_locked (failed_user u) (locked a k u n limit)))
    where
      failed_user : User → User
      failed_user v = stamp a.at (count_failure lib env a.at v.failed_login_attempts) v

      unlocked : u.locked_until ≡ none → is_locked a.at u ≡ false
      unlocked q = ground arith

      wrong_for : u.password_hash ≡ hash → lib.verify u.password_hash a.password ≡ false
      wrong_for q = cc

      still_locked :
          (v : User)
          → v.locked_until ≡ some (a.at + lock_minutes env * 60000)
          → is_locked now v ≡ true
      still_locked v q = ground arith

  -- Take an account that is not locked, with unique identifiers, and logins with wrong passwords
  -- that bring its count of failures exactly to the limit. Until the lock time after the last of
  -- them has passed, every login on its address, whatever the password, is refused with
  -- "too many requests" and changes no user.
  pub failures_lock_account :
      (users : List User) (u : User) (made : List Attempt) (a : Attempt) (now seed password : ℕ)
      → login_denied env email ≡ false
      → Unique user_id users
      → find user_email email users ≡ some u
      → u.locked_until ≡ none
      → All (Wrong u.password_hash) made
      → Wrong u.password_hash a
      → u.failed_login_attempts + length made + 1 ≡ max_attempts env
      → now < a.at + lock_minutes env * 60000
      → login lib env now seed (credentials password) (logins (made ++ a ∷ []) users)
        ≡ refuse (logins (made ++ a ∷ []) users) [] too_many_requests
  failures_lock_account users u made a now seed password free unique e l wrong last limit early =
      subst
        (λ us. login lib env now seed (credentials password) us ≡ refuse us [] too_many_requests)
        (sym (logins-append made a users))
        (last_one u.password_hash (u.failed_login_attempts + length made) now seed password a
          (logins made users) free
          (many_more u.password_hash u.failed_login_attempts made users free
            (unique, u, e, refl, refl, l) wrong (omega arith))
          last limit early)
