-- ===== src/Auth/Renewals.antt =====
-- Renewals of one session that overlap: `refresh` verifies the token against the hash that it read
-- before it writes the hash of the new one
-- (apps/api-gateway/src/modules/auth/auth.service.ts).
use crm_system_backend.Prelude.{
  ℕ, ◌≡◌, refl, sym, subst, true, false, not, Option, none, some, List, if◌then◌else◌, find,
  find-key, find-update_self, arith,
}
use crm_system_backend.Prelude.Results.{ok, err, unauthorized}
use crm_system_backend.Auth.{
  User, Library, Env, user_id, stamp, save, login_denied, issue_tokens, keep_refresh, tokens_for,
  refresh,
}

module _ (lib : Library) (env : Env) (id token : ℕ) where
  -- The reads and tests of `refresh`: the account whose tokens are renewed.
  unfoldable pub begin_refresh : List User → Option User
  begin_refresh users = elim (find user_id id users) [
    | none ↦ none
    | some u ↦ elim u.refresh_token_hash [
      | none ↦ none
      | some h ↦
          if login_denied env u.email
          then none
          else if not (lib.verify h token)
          then none
          else some u
    ]
  ]

  -- The write of a call that read `read`.
  unfoldable pub end_refresh : ℕ → ℕ → List User → List User → List User
  end_refresh now seed read users = elim (begin_refresh read) [
    | none ↦ users
    | some u ↦ (issue_tokens lib env now seed u users).0
  ]

  -- A call on its own writes to what it read.
  pub end_refresh-refresh :
      (now seed : ℕ) (users : List User)
      → (refresh lib env now seed id token users).users ≡ end_refresh now seed users users
  unfolding refresh end_refresh begin_refresh
  end_refresh-refresh now seed users = ground arith

  renewed_row :
      (now seed : ℕ) (read users : List User) (u v : User)
      → begin_refresh read ≡ some u
      → u.id ≡ id
      → find user_id id users ≡ some v
      → find user_id id (end_refresh now seed read users)
        ≡ some (stamp now (keep_refresh lib env seed (tokens_for lib env now u)) v)
  unfolding end_refresh issue_tokens
  renewed_row now seed read users u v begins same found =
      rw (begins, end_refresh)
        (subst
          (λ k.
            find user_id id
              (save now k (keep_refresh lib env seed (tokens_for lib env now u)) users)
            ≡ some (stamp now (keep_refresh lib env seed (tokens_for lib env now u)) v))
          (sym same)
          (find-update_self user_id id
            (stamp now (keep_refresh lib env seed (tokens_for lib env now u))) users v (λ y. refl)
            found))

  begun :
      (read : List User) (u : User) (h : ℕ)
      → find user_id id read ≡ some u
      → u.refresh_token_hash ≡ some h
      → login_denied env u.email ≡ false
      → lib.verify h token ≡ true
      → begin_refresh read ≡ some u
  unfolding begin_refresh
  begun read u h found stored free valid = ground arith

  refused :
      (later seed other h : ℕ) (users : List User) (v : User)
      → find user_id id users ≡ some v
      → v.refresh_token_hash ≡ some h
      → login_denied env v.email ≡ false
      → lib.verify h other ≡ false
      → (refresh lib env later seed id other users).result ≡ err unauthorized
  unfolding refresh
  refused later seed other h users v found stored free wrong = ground arith

  -- Two calls renew with the same valid token, and both read the account before either writes. The
  -- first is answered with new tokens; but once both have written, its refresh token is refused, if
  -- the hash of the other call's token does not verify it.
  pub overlapping_renewals_strand_one :
      (now1 seed1 now2 seed2 later seed3 : ℕ) (read : List User) (u : User) (h : ℕ)
      → find user_id id read ≡ some u
      → u.refresh_token_hash ≡ some h
      → login_denied env u.email ≡ false
      → lib.verify h token ≡ true
      → lib.verify
          (lib.hash seed2 (tokens_for lib env now2 u).refresh_token)
          (tokens_for lib env now1 u).refresh_token
        ≡ false
      → ((refresh lib env now1 seed1 id token read).result ≡ ok (tokens_for lib env now1 u))
        × ((refresh lib env later seed3 id
              (tokens_for lib env now1 u).refresh_token
              (end_refresh now2 seed2 read (end_refresh now1 seed1 read read))).result
            ≡ err unauthorized)
  unfolding refresh issue_tokens
  overlapping_renewals_strand_one now1 seed1 now2 seed2 later seed3 read u h found stored free valid
        other =
      let same : u.id ≡ id = find-key user_id id read u found in
      let begins = begun read u h found stored free valid in
      let first = renewed_row now1 seed1 read read u u begins same found in
      let second =
        renewed_row now2 seed2 read (end_refresh now1 seed1 read read) u
          (stamp now1 (keep_refresh lib env seed1 (tokens_for lib env now1 u)) u) begins same
          first in
      (
        ground arith,
        refused later seed3 (tokens_for lib env now1 u).refresh_token
            (lib.hash seed2 (tokens_for lib env now2 u).refresh_token)
            (end_refresh now2 seed2 read (end_refresh now1 seed1 read read)) _ second refl free
            other,
      )
