-- ===== src/Http/Logout.antt =====
-- Signing out with the cookies of a browser (`logout` of
-- apps/api-gateway/src/modules/auth/auth.controller.ts).
use crm_system_backend.Prelude.{
  ℕ, ◌+◌, ◌<◌, ◌≤◌, ◌≡◌, refl, sym, ap, subst, ◌∙◌, Bool, true, none, some, List, arith, find,
  Unique,
}
use crm_system_backend.Prelude.Results.{ok, err, unauthorized}
use crm_system_backend.Auth.{
  User, Library, Env, LoginDto, Tokens, Outcome, user_id, user_email, login, refresh, logout,
  tokens_for,
}
use crm_system_backend.Http.{
  Jwt, JwtPayload, Request, Reply, clear_auth_cookies, Jar, live, keep_cookies, browser_request,
  handle_refresh, handle_logout, access_user, reply_tokens, denied,
}
use crm_system_backend.Http.Sessions.{
  access_age, refresh_age, after_login, jar_of, jar-live, live_after, session_of,
  access_cookie_sent, handled_refresh, cookies_renew,
}

module _ (lib : Library) (env : Env) (jwt : Jwt) (is_prod : Bool) where
  logout_done :
      (now id : ℕ) (users : List User) (v : User)
      → find user_id id users ≡ some v
      → (logout now id users).result ≡ ok tt
  unfolding logout
  logout_done now id users v e = ground arith

  handled_logout :
      (now token : ℕ) (r : Request) (p : JwtPayload) (users : List User) (v : User)
      → r.access_value ≡ some token
      → jwt.verify_access now token ≡ some p
      → find user_id p.sub users ≡ some v
      → handle_logout jwt is_prod now r users ≡ record {
        users = (logout now p.sub users).users;
        cookies = clear_auth_cookies is_prod;
        result = ok none;
      }
  unfolding handle_logout access_user
  handled_logout now token r p users v e valid found =
      rw (e, valid, logout_done now p.sub users v found, access_user, handle_logout) refl

  refused_refresh :
      (x seed3 token : ℕ) (r : Request) (q : JwtPayload) (users : List User)
      → r.refresh_value ≡ some token
      → jwt.verify_refresh x token ≡ some q
      → (refresh lib env x seed3 q.sub token users).result ≡ err unauthorized
      → (handle_refresh lib env jwt is_prod x seed3 r users).result ≡ err unauthorized
  refused_refresh x seed3 token r q users e valid refused =
      ap (λ (y : Reply). y.result)
        (handled_refresh lib env jwt is_prod x seed3 token r q users e valid)
      ∙ refusal (refresh lib env x seed3 q.sub token users) refused
    where
      refusal :
          (o : Outcome Tokens)
          → o.result ≡ err unauthorized
          → (reply_tokens is_prod o).result ≡ err unauthorized
      refusal o h = rw h refl

  -- A logout within the access cookie's fifteen minutes, while its token is valid, succeeds. The
  -- browser then sends no cookies any more, and a request with any refresh token of that account,
  -- though the token itself be valid, is refused.
  pub logout_ends_session :
      (now seed at : ℕ) (dto : LoginDto) (users : List User) (u : User) (t : Tokens)
      (p : JwtPayload) (j : Jar)
      → ((s q : ℕ) → lib.verify (lib.hash s q) q ≡ true)
      → Unique user_id users
      → find user_email dto.email users ≡ some u
      → (login lib env now seed dto users).result ≡ ok t
      → at < now + access_age
      → jwt.verify_access at t.access_token ≡ some p
      → p.sub ≡ u.id
      → (out : Reply) × (handle_logout jwt is_prod at
            (browser_request at (jar_of lib env jwt is_prod now seed dto users j))
            (after_login lib env jwt is_prod now seed dto users)
          ≡ out)
        × (out.result ≡ ok none)
        × ((x : ℕ)
            → browser_request x
                (keep_cookies at out.cookies (jar_of lib env jwt is_prod now seed dto users j))
              ≡ record { access_value = none; refresh_value = none; bearer = none })
        × ((x seed3 token : ℕ) (r : Request) (q : JwtPayload)
            → r.refresh_value ≡ some token
            → jwt.verify_refresh x token ≡ some q
            → q.sub ≡ u.id
            → (handle_refresh lib env jwt is_prod x seed3 r out.users).result ≡ err unauthorized)
  unfolding browser_request keep_cookies clear_auth_cookies
  logout_ends_session now seed at dto users u t p j verifies unique found e soon valid same =
      let (v, stored, count, lock, renews, ends) =
        session_of lib env jwt is_prod now seed dto users u t verifies unique found e in
      (
        _,
        handled_logout at t.access_token
            (browser_request at (jar_of lib env jwt is_prod now seed dto users j)) p
            (after_login lib env jwt is_prod now seed dto users) v
            (access_cookie_sent lib env jwt is_prod now seed at dto users t j e soon) valid
            (subst
              (λ id. find user_id id (after_login lib env jwt is_prod now seed dto users) ≡ some v)
              (sym same) stored),
        refl,
        λ x. refl,
        λ x seed3 token r q given checked owner. refused_refresh x seed3 token r q _ given checked (
            subst
              (λ id.
                (refresh lib env x seed3 id token
                  (logout at p.sub
                    (after_login lib env jwt is_prod now seed dto users)).users).result
                ≡ err unauthorized)
              (sym owner)
              (subst
                (λ id.
                  (refresh lib env x seed3 u.id token
                    (logout at id
                      (after_login lib env jwt is_prod now seed dto users)).users).result
                  ≡ err unauthorized)
                (sym same) (ends at x seed3 token))),
      )

  -- A logout after the access cookie's fifteen minutes is refused and changes nothing: the account
  -- and the browser's cookies are as before, and the refresh token still renews.
  pub late_logout_keeps_session :
      (now seed at later seed2 : ℕ) (dto : LoginDto) (users : List User) (u : User) (t : Tokens)
      (p : JwtPayload) (j : Jar)
      → ((s q : ℕ) → lib.verify (lib.hash s q) q ≡ true)
      → Unique user_id users
      → find user_email dto.email users ≡ some u
      → (login lib env now seed dto users).result ≡ ok t
      → now + access_age ≤ at
      → later < now + refresh_age
      → jwt.verify_refresh later t.refresh_token ≡ some p
      → p.sub ≡ u.id
      → (out : Reply) × (handle_logout jwt is_prod at
            (browser_request at (jar_of lib env jwt is_prod now seed dto users j))
            (after_login lib env jwt is_prod now seed dto users)
          ≡ out)
        × (out ≡ denied (after_login lib env jwt is_prod now seed dto users))
        × (v : User) × (find user_id u.id out.users ≡ some v)
        × ((handle_refresh lib env jwt is_prod later seed2
              (browser_request later
                (keep_cookies at out.cookies (jar_of lib env jwt is_prod now seed dto users j)))
              out.users).result
            ≡ ok (some (tokens_for lib env later v).access_token))
  unfolding handle_logout access_user browser_request keep_cookies
  late_logout_keeps_session now seed at later seed2 dto users u t p j verifies unique found e late
        soon valid same =
      let (v, stored, renewed, kept_cookie) =
        cookies_renew lib env jwt is_prod now seed later seed2 dto users u t p j verifies unique
          found e soon valid same in
      (
        denied (after_login lib env jwt is_prod now seed dto users),
        rw (no_cookie, access_user, handle_logout) refl,
        refl,
        v,
        stored,
        renewed,
      )
    where
      no_cookie : live at (jar_of lib env jwt is_prod now seed dto users j).access_value ≡ none
      no_cookie =
          ap (λ (k : Jar). live at k.access_value)
            (jar-live lib env jwt is_prod now seed dto users t j e)
          ∙ live_after at (now + access_age) t.access_token late
