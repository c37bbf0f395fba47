-- ===== src/Auth/Races.antt =====
-- Logins that overlap: `login` reads the account before it writes the count of failures
-- (`login` and `registerFailedAttempt` of apps/api-gateway/src/modules/auth/auth.service.ts).
use crm_system_backend.Prelude.{
  ℕ, ◌+◌, ◌<◌, ◌≡◌, refl, subst, ◌∙◌, false, not, Option, none, some, List, [], ◌∷◌, arith,
  if◌then◌else◌, find, update, Unique, update-Unique, find-update_other, All,
}
use crm_system_backend.Auth.{
  User, Library, Env, user_id, user_email, max_attempts, is_locked, stamp, count_failure,
  register_failed_attempt, login, login_denied,
}
use crm_system_backend.Auth.Lockout.{Attempt, credentials, Wrong}

-- What a login has in hand when the password proves wrong: the account, and its count.
pub record Failed : Type 0 where
  pub id : ℕ
  pub prev : ℕ

module _ (lib : Library) (env : Env) (email : ℕ) where
  -- The reads and tests of `login`, up to the write of the count.
  unfoldable pub begin_login : Attempt → List User → Option Failed
  begin_login a users =
      if login_denied env email then none else elim (find user_email email users) [
        | none ↦ none
        | some u ↦
            if is_locked a.at u
            then none
            else if not (lib.verify u.password_hash a.password)
            then some (record { id = u.id; prev = u.failed_login_attempts })
            else none
      ]

  -- The write of a login that read `read`.
  unfoldable pub end_login : Attempt → List User → List User → List User
  unfolding begin_login register_failed_attempt
  end_login a read users = elim (begin_login a read) [
    | none ↦ users
    | some f ↦ register_failed_attempt lib env a.at f.id f.prev users
  ]

  -- Logins that have all read `read` before the first of them writes.
  unfoldable pub end_logins : List Attempt → List User → List User → List User
  unfolding end_login
  end_logins [] read users = users
  end_logins (a ∷ rest) read users = end_logins rest read (end_login a read users)

  -- A login that fails on its own is one that writes to what it read.
  pub end_login-login :
      (a : Attempt) (users : List User) (u : User)
      → login_denied env email ≡ false
      → find user_email email users ≡ some u
      → is_locked a.at u ≡ false
      → Wrong lib env email u.password_hash a
      → (login lib env a.at a.seed (credentials lib env email a.password) users).users
        ≡ end_login a users users
  unfolding login end_login
  end_login-login a users u free e unlocked wrong = ground arith

  module _ (read : List User) (u : User) where
    -- The account between two writes: as it was read, but for the count.
    abbrev Account : List User → Type 0
    Account users =
        Unique user_id users
        × (v : User) × (find user_email email users ≡ some v)
        × (v.id ≡ u.id)
        × (v.locked_until ≡ none)

    abbrev Counted : List User → Type 0
    Counted users =
        Unique user_id users
        × (v : User) × (find user_email email users ≡ some v)
        × (v.id ≡ u.id)
        × (v.locked_until ≡ none)
        × (v.failed_login_attempts ≡ u.failed_login_attempts + 1)

    begun :
        (a : Attempt)
        → login_denied env email ≡ false
        → find user_email email read ≡ some u
        → u.locked_until ≡ none
        → Wrong lib env email u.password_hash a
        → begin_login a read ≡ some (record { id = u.id; prev = u.failed_login_attempts })
    unfolding begin_login
    begun a free e unlocked wrong = ground arith

    same_keys :
        (now k : ℕ) (y : User)
        → ((stamp now (count_failure lib env now k) y).email ≡ y.email)
          × ((stamp now (count_failure lib env now k) y).id ≡ y.id)
    same_keys now k y = (ground arith, ground arith)

    end_login-Counted :
        (a : Attempt) (users : List User)
        → begin_login a read ≡ some (record { id = u.id; prev = u.failed_login_attempts })
        → u.failed_login_attempts + 1 < max_attempts env
        → Account users
        → Counted (end_login a read users)
    unfolding end_login
    end_login-Counted a users begins below (unique, v, found, same, unlocked) =
        rw (begins, end_login)
          (
            update-Unique user_id u.id _ users (λ y. (same_keys a.at prev y).1) unique,
            stamp a.at (count_failure lib env a.at prev) v,
            subst
                (λ k.
                  find user_email email
                    (update user_id k (stamp a.at (count_failure lib env a.at prev)) users)
                  ≡ some (stamp a.at (count_failure lib env a.at prev) v))
                same
                (find-update_other user_id user_email email _ users v
                  (λ y. (same_keys a.at prev y).0) unique found),
            (same_keys a.at prev v).1 ∙ same,
            ground (arith, below),
            ground (arith, below),
          )
      where
        prev : ℕ
        prev = u.failed_login_attempts

    forget : (users : List User) → Counted users → Account users
    forget users (unique, v, found, same, unlocked, counted) = (unique, v, found, same, unlocked)

    -- Let an account be unlocked and two failures below the limit. However many logins with wrong
    -- passwords read it before the first of them writes, they count as one failure: the account is
    -- left with one more failure and without a lock.
    pub overlapping_failures_count_one :
        (first : Attempt) (rest : List Attempt)
        → login_denied env email ≡ false
        → find user_email email read ≡ some u
        → u.locked_until ≡ none
        → u.failed_login_attempts + 1 < max_attempts env
        → Unique user_id read
        → All (Wrong lib env email u.password_hash) (first ∷ rest)
        → (v : User) × (find user_email email (end_logins (first ∷ rest) read read) ≡ some v)
          × (v.locked_until ≡ none)
          × (v.failed_login_attempts ≡ u.failed_login_attempts + 1)
    unfolding end_logins
    overlapping_failures_count_one first rest free e unlocked below unique wrong =
        let (unique2, v, found, same, open_account, counted) =
          all_written rest (end_login first read read) (wrong.1) (
            end_login-Counted first read (begun first free e unlocked wrong.0) below
              (unique, u, e, refl, unlocked)) in
        (v, found, open_account, counted)
      where
        all_written :
            (as_made : List Attempt) (users : List User)
            → All (Wrong lib env email u.password_hash) as_made
            → Counted users
            → Counted (end_logins as_made read users)
        all_written [] users w c = c
        all_written (a ∷ more) users w c =
            all_written more (end_login a read users) w.1
              (end_login-Counted a users (begun a free e unlocked w.0) below (forget users c))
