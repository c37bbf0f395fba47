-- ===== src/Http/Sessions.antt =====
-- A browser's session: signing in and renewing the tokens with its cookies
-- (apps/api-gateway/src/modules/auth/auth.controller.ts).
use crm_system_backend.Prelude.{
  ℕ, ◌+◌, ◌*◌, ◌<◌, ◌≤◌, ◌≡◌, refl, sym, ap, subst, ◌∙◌, Bool, true, none, some, List, arith, find,
  Unique,
}
use crm_system_backend.Prelude.Results.{ok}
use crm_system_backend.Auth.{
  User, Library, Env, LoginDto, Tokens, Outcome, user_id, user_email, login, refresh, tokens_for,
}
use crm_system_backend.Auth.Sessions.{login_opens_session, HasSession}
use crm_system_backend.Http.{
  Jwt, JwtPayload, Request, Reply, set_auth_cookies, Jar, live, keep_cookies, browser_request,
  handle_login, handle_refresh, refresh_user, reply_tokens,
}

abbrev pub access_age : ℕ
access_age = 15 * 60 * 1000

abbrev pub refresh_age : ℕ
refresh_age = 7 * 24 * 60 * 60 * 1000

live_before : (later expires v : ℕ) → later < expires → live later (some (v, expires)) ≡ some v
live_before later expires v h = ground arith

pub live_after : (later expires v : ℕ) → expires ≤ later → live later (some (v, expires)) ≡ none
live_after later expires v h = ground arith

module _ (lib : Library) (env : Env) (jwt : Jwt) (is_prod : Bool) where
  -- The cookies that are kept of an answer with tokens.
  kept :
      (now : ℕ) (o : Outcome Tokens) (t : Tokens) (j : Jar)
      → o.result ≡ ok t
      → keep_cookies now (reply_tokens is_prod o).cookies j ≡ record {
        access_value = some (t.access_token, now + access_age);
        refresh_value = some (t.refresh_token, now + refresh_age);
      }
  unfolding keep_cookies set_auth_cookies
  kept now o t j e = rw e refl

  replied :
      (o : Outcome Tokens) (t : Tokens)
      → o.result ≡ ok t
      → (reply_tokens is_prod o).result ≡ ok (some t.access_token)
  replied o t e = rw e refl

  left : (o : Outcome Tokens) → (reply_tokens is_prod o).users ≡ o.users
  left o = ground arith

  abbrev pub after_login : ℕ → ℕ → LoginDto → List User → List User
  after_login now seed dto users = (handle_login lib env jwt is_prod now seed dto users).users

  abbrev pub jar_of : ℕ → ℕ → LoginDto → List User → Jar → Jar
  jar_of now seed dto users j =
      keep_cookies now (handle_login lib env jwt is_prod now seed dto users).cookies j

  -- The cookies that the browser has after a login.
  pub jar-live :
      (now seed : ℕ) (dto : LoginDto) (users : List User) (t : Tokens) (j : Jar)
      → (login lib env now seed dto users).result ≡ ok t
      → jar_of now seed dto users j ≡ record {
        access_value = some (t.access_token, now + access_age);
        refresh_value = some (t.refresh_token, now + refresh_age);
      }
  unfolding handle_login
  jar-live now seed dto users t j e = kept now (login lib env now seed dto users) t j e

  refresh_cookie_sent :
      (now seed later : ℕ) (dto : LoginDto) (users : List User) (t : Tokens) (j : Jar)
      → (login lib env now seed dto users).result ≡ ok t
      → later < now + refresh_age
      → (browser_request later (jar_of now seed dto users j)).refresh_value ≡ some t.refresh_token
  unfolding browser_request
  refresh_cookie_sent now seed later dto users t j e h =
      ap (λ (k : Jar). live later k.refresh_value) (jar-live now seed dto users t j e)
      ∙ live_before later (now + refresh_age) t.refresh_token h

  pub access_cookie_sent :
      (now seed at : ℕ) (dto : LoginDto) (users : List User) (t : Tokens) (j : Jar)
      → (login lib env now seed dto users).result ≡ ok t
      → at < now + access_age
      → (browser_request at (jar_of now seed dto users j)).access_value ≡ some t.access_token
  unfolding browser_request
  access_cookie_sent now seed at dto users t j e h =
      ap (λ (k : Jar). live at k.access_value) (jar-live now seed dto users t j e)
      ∙ live_before at (now + access_age) t.access_token h

  pub session_of :
      (now seed : ℕ) (dto : LoginDto) (users : List User) (u : User) (t : Tokens)
      → ((s p : ℕ) → lib.verify (lib.hash s p) p ≡ true)
      → Unique user_id users
      → find user_email dto.email users ≡ some u
      → (login lib env now seed dto users).result ≡ ok t
      → HasSession lib env u t (after_login now seed dto users)
  unfolding handle_login
  session_of now seed dto users u t verifies unique found e =
      subst (HasSession lib env u t) (sym (left (login lib env now seed dto users)))
        (login_opens_session lib env now seed dto users u t verifies unique found e).3

  pub handled_refresh :
      (now seed token : ℕ) (r : Request) (p : JwtPayload) (users : List User)
      → r.refresh_value ≡ some token
      → jwt.verify_refresh now token ≡ some p
      → handle_refresh lib env jwt is_prod now seed r users
        ≡ reply_tokens is_prod (refresh lib env now seed p.sub token users)
  unfolding handle_refresh refresh_user
  handled_refresh now seed token r p users e v = rw (e, v, refresh_user, handle_refresh) refl

  -- After a login that succeeds the browser's cookies renew the tokens at any time before the
  -- refresh cookie's seven days are over and while its token is valid: `refresh` answers with a new
  -- access token of the account as it is stored then, and the browser keeps the new refresh token.
  pub cookies_renew :
      (now seed later seed2 : ℕ) (dto : LoginDto) (users : List User) (u : User) (t : Tokens)
      (p : JwtPayload) (j : Jar)
      → ((s q : ℕ) → lib.verify (lib.hash s q) q ≡ true)
      → Unique user_id users
      → find user_email dto.email users ≡ some u
      → (login lib env now seed dto users).result ≡ ok t
      → later < now + refresh_age
      → jwt.verify_refresh later t.refresh_token ≡ some p
      → p.sub ≡ u.id
      → (v : User) × (find user_id u.id (after_login now seed dto users) ≡ some v)
        × ((handle_refresh lib env jwt is_prod later seed2
              (browser_request later (jar_of now seed dto users j))
              (after_login now seed dto users)).result
            ≡ ok (some (tokens_for lib env later v).access_token))
        × ((keep_cookies later
              (handle_refresh lib env jwt is_prod later seed2
                (browser_request later (jar_of now seed dto users j))
                (after_login now seed dto users)).cookies
              (jar_of now seed dto users j)).refresh_value
            ≡ some ((tokens_for lib env later v).refresh_token, later + refresh_age))
  cookies_renew now seed later seed2 dto users u t p j verifies unique found e soon valid same =
      let (v, stored, count, lock, renews, ends) =
        session_of now seed dto users u t verifies unique found e in
      let handled =
        handled_refresh later seed2 t.refresh_token
          (browser_request later (jar_of now seed dto users j)) p (after_login now seed dto users)
          (refresh_cookie_sent now seed later dto users t j e soon) valid in
      let o : Outcome Tokens =
        refresh lib env later seed2 p.sub t.refresh_token (after_login now seed dto users) in
      let renewed =
        subst
          (λ id.
            (refresh lib env later seed2 id t.refresh_token (after_login now seed dto users)).result
            ≡ ok (tokens_for lib env later v))
          (sym same) (renews later seed2) in
      (
        v,
        stored,
        ap (λ (r : Reply). r.result) handled ∙ replied o (tokens_for lib env later v) renewed,
        ap
              (λ (r : Reply).
                (keep_cookies later r.cookies (jar_of now seed dto users j)).refresh_value)
              handled
            ∙ ap (λ (k : Jar). k.refresh_value)
                (kept later o (tokens_for lib env later v) (jar_of now seed dto users j) renewed),
      )
