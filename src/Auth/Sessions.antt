-- ===== src/Auth/Sessions.antt =====
-- Logging in, renewing the tokens and logging out (`login`, `issueTokens`, `refresh` and `logout`
-- of apps/api-gateway/src/modules/auth/auth.service.ts).
use crm_system_backend.Prelude.{
  ℕ, ◌≡◌, refl, sym, subst, true, false, ◌||◌, none, some, List, [], ◌∷◌, arith, ltb, if◌then◌else◌,
  find, find-key, Unique, find-find_key, find-update_self, is_some, Bool-cases, inl, inr,
}
use crm_system_backend.Prelude.Results.{ok, err, unauthorized}
use crm_system_backend.Auth.{
  User, Library, Env, LoginDto, Tokens, visit, user_id, user_email, is_locked, stamp, save, login,
  admit, issue_tokens, login_denied, answer, keep_refresh, tokens_for, reset_attempts,
  clear_attempts, refresh, logout, forget_refresh,
}

module _ (lib : Library) (env : Env) where
  -- What `login` has checked when it succeeds, and what it leaves.
  abbrev Admitted : ℕ → ℕ → LoginDto → List User → User → Type 0
  Admitted now seed dto users u =
      (login_denied env dto.email ≡ false)
      × (is_locked now u ≡ false)
      × (lib.verify u.password_hash dto.password ≡ true)
      × ((u.is_email_verified || env.skip_email_verification) ≡ true)
      × (login lib env now seed dto users
          ≡ answer
              (save now u.id (keep_refresh lib env seed (tokens_for lib env now u))
                (reset_attempts lib env now u users))
              (visit u.id ∷ []) (tokens_for lib env now u))

  admit-Admitted :
      (now seed : ℕ) (u : User) (users : List User) (t : Tokens)
      → (admit lib env now seed u users).result ≡ ok t
      → ((u.is_email_verified || env.skip_email_verification) ≡ true)
        × (admit lib env now seed u users
            ≡ answer
                (save now u.id (keep_refresh lib env seed (tokens_for lib env now u)) users)
                (visit u.id ∷ [])
                (tokens_for lib env now u))
  unfolding admit issue_tokens
  admit-Admitted now seed u users t h = ground arith

  login-Admitted :
      (now seed : ℕ) (dto : LoginDto) (users : List User) (u : User) (t : Tokens)
      → find user_email dto.email users ≡ some u
      → (login lib env now seed dto users).result ≡ ok t
      → Admitted now seed dto users u
  unfolding login
  login-Admitted now seed dto users u t e h =
      ground (arith, admit-Admitted now seed u (reset_attempts lib env now u users) t)

  -- The user's row after a successful login.
  abbrev signed : ℕ → ℕ → User → User → User
  signed now seed u v = stamp now (keep_refresh lib env seed (tokens_for lib env now u)) v

  reset_row :
      (now : ℕ) (u : User) (users : List User)
      → find user_id u.id users ≡ some u
      → (v : User) × (find user_id u.id (reset_attempts lib env now u users) ≡ some v)
        × (v.email ≡ u.email)
        × (v.id ≡ u.id)
        × (v.failed_login_attempts ≡ 0)
        × (v.locked_until ≡ none)
  reset_row now u users e =
      elim (Bool-cases (ltb 0 u.failed_login_attempts || is_some u.locked_until)) [
        | inl some_left ↦ (
          stamp now clear_attempts u,
          subst
              (λ b.
                find user_id u.id (if b then save now u.id clear_attempts users else users)
                ≡ some (stamp now clear_attempts u))
              (sym some_left)
              (find-update_self user_id u.id (stamp now clear_attempts) users u (λ y. refl) e),
          refl,
          refl,
          refl,
          refl,
        )
        | inr clean ↦ (
          u,
          subst
              (λ b.
                find user_id u.id (if b then save now u.id clear_attempts users else users)
                ≡ some u)
              (sym clean) e,
          refl,
          refl,
          no_failures clean,
          no_lock clean,
        )
      ]
    where
      no_failures :
          (ltb 0 u.failed_login_attempts || is_some u.locked_until) ≡ false
          → u.failed_login_attempts ≡ 0
      no_failures q = ground arith

      no_lock :
          (ltb 0 u.failed_login_attempts || is_some u.locked_until) ≡ false → u.locked_until ≡ none
      no_lock q = ground arith

  refresh_with :
      (now seed id token h : ℕ) (users : List User) (v : User)
      → find user_id id users ≡ some v
      → v.refresh_token_hash ≡ some h
      → login_denied env v.email ≡ false
      → lib.verify h token ≡ true
      → (refresh lib env now seed id token users).result ≡ ok (tokens_for lib env now v)
  unfolding refresh issue_tokens
  refresh_with now seed id token h users v e k free valid = ground arith

  refresh_without :
      (now seed id token : ℕ) (users : List User) (v : User)
      → find user_id id users ≡ some v
      → v.refresh_token_hash ≡ none
      → (refresh lib env now seed id token users).result ≡ err unauthorized
  unfolding refresh
  refresh_without now seed id token users v e k = ground arith

  logout-users :
      (now id : ℕ) (users : List User) (v : User)
      → find user_id id users ≡ some v
      → (logout now id users).users ≡ save now id forget_refresh users
  unfolding logout
  logout-users now id users v e = ground arith

  -- The session of a user with tokens `t` among the users `after`: no failures are counted, the
  -- tokens can be renewed, and not any more at any time after a logout.
  abbrev pub HasSession : User → Tokens → List User → Type 0
  HasSession u t after =
      (v : User) × (find user_id u.id after ≡ some v)
      × (v.failed_login_attempts ≡ 0)
      × (v.locked_until ≡ none)
      × ((later seed : ℕ)
          → (refresh lib env later seed u.id t.refresh_token after).result
            ≡ ok (tokens_for lib env later v))
      × ((at later seed token : ℕ)
          → (refresh lib env later seed u.id token (logout at u.id after).users).result
            ≡ err unauthorized)

  opened :
      (now seed : ℕ) (u : User) (users : List User)
      → ((s p : ℕ) → lib.verify (lib.hash s p) p ≡ true)
      → login_denied env u.email ≡ false
      → find user_id u.id users ≡ some u
      → HasSession u (tokens_for lib env now u) (
          save now u.id
            (keep_refresh lib env seed (tokens_for lib env now u))
            (reset_attempts lib env now u users))
  opened now seed u users verifies free e = (
    signed now seed u row.0,
    found,
    row.4,
    row.5,
    λ later seed2.
        refresh_with later seed2 u.id _ _ after (signed now seed u row.0) found refl
          (subst (λ m. login_denied env m ≡ false) (sym row.2) free)
          (verifies seed (tokens_for lib env now u).refresh_token),
    λ at later seed2 token.
        subst (λ us. (refresh lib env later seed2 u.id token us).result ≡ err unauthorized)
          (sym (logout-users at u.id after (signed now seed u row.0) found))
          (refresh_without later seed2 u.id token _
            (stamp at forget_refresh (signed now seed u row.0))
            (find-update_self user_id u.id (stamp at forget_refresh) after _ (λ y. refl) found)
            refl),
  )
    where
      row :
          (v : User) × (find user_id u.id (reset_attempts lib env now u users) ≡ some v)
          × (v.email ≡ u.email)
          × (v.id ≡ u.id)
          × (v.failed_login_attempts ≡ 0)
          × (v.locked_until ≡ none)
      row = reset_row now u users e

      after : List User
      after =
          save now u.id (keep_refresh lib env seed (tokens_for lib env now u))
            (reset_attempts lib env now u users)

      found : find user_id u.id after ≡ some (signed now seed u row.0)
      found = find-update_self user_id u.id (signed now seed u) _ row.0 (λ y. refl) row.1

  -- Let the hash of a token be verified by that token. If `login` returns tokens, the account was
  -- not locked, the password was verified, and the address was confirmed or its confirmation is
  -- switched off. It leaves the account without counted failures and without a lock; from then on
  -- `refresh` renews with the refresh token of this login at any time, and after `logout` it
  -- refuses every token.
  pub login_opens_session :
      (now seed : ℕ) (dto : LoginDto) (users : List User) (u : User) (t : Tokens)
      → ((s p : ℕ) → lib.verify (lib.hash s p) p ≡ true)
      → Unique user_id users
      → find user_email dto.email users ≡ some u
      → (login lib env now seed dto users).result ≡ ok t
      → (is_locked now u ≡ false)
        × (lib.verify u.password_hash dto.password ≡ true)
        × ((u.is_email_verified || env.skip_email_verification) ≡ true)
        × HasSession u t (login lib env now seed dto users).users
  login_opens_session now seed dto users u t verifies unique e h = (
    checked.1,
    checked.2,
    checked.3,
    subst (λ o. HasSession u t o.users) (sym checked.4)
        (subst
          (λ s. HasSession u s (
            save now u.id (keep_refresh lib env seed (tokens_for lib env now u))
              (reset_attempts lib env now u users)))
          same_tokens
          (opened now seed u users verifies free
            (find-find_key user_id user_email dto.email users u unique e))),
  )
    where
      checked : Admitted now seed dto users u
      checked = login-Admitted now seed dto users u t e h

      free : login_denied env u.email ≡ false
      free =
          subst (λ m. login_denied env m ≡ false) (sym (find-key user_email dto.email users u e))
            checked.0

      same_tokens : tokens_for lib env now u ≡ t
      same_tokens = cc (checked.4, h)
