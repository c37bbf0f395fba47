-- ===== src/Http.antt =====
-- The HTTP side of a session: AuthController (apps/api-gateway/src/modules/auth/auth.controller.ts)
-- with its cookies, and the two strategies (strategies/jwt.strategy.ts,
-- strategies/jwt-refresh.strategy.ts). The verification of a JWT is a parameter; an invalid or
-- expired token gives `none`. Passport takes the first token that the extractors find, and refuses
-- a request without a valid one.
pub mod Sessions
pub mod Logout
use crm_system_backend.Prelude.{
  ℕ, ◌+◌, ◌*◌, Bool, true, false, Option, none, some, List, [], ◌∷◌, if◌then◌else◌, ltb, or_else?,
}
use crm_system_backend.Prelude.Text.{Text, trim, is_empty}
use crm_system_backend.Prelude.Results.{Result, ok, err, unauthorized}
use crm_system_backend.Shared.Access.{Role}
use crm_system_backend.Auth.{
  User, Library, Env, LoginDto, RegisterDto, Tokens, Registered, signed_in, check_mail, Outcome,
  login, register, refresh, logout,
}
use crm_system_backend.Realtime.Cookies.{split}

pub data SameSite : Type 0 where
  same_site_none same_site_lax : SameSite

pub record CookieOpts : Type 0 where
  pub http_only : Bool
  pub secure : Bool
  pub same_site : SameSite
  pub max_age : ℕ

-- `getCookieOpts`; the path is always `/`.
abbrev pub get_cookie_opts : Bool → Bool → CookieOpts
get_cookie_opts is_prod is_access = record {
  http_only = true;
  secure = is_prod;
  same_site = if is_prod then same_site_none else same_site_lax;
  max_age = if is_access then 15 * 60 * 1000 else 7 * 24 * 60 * 60 * 1000;
}

pub data CookieName : Type 0 where
  access_cookie refresh_cookie : CookieName

-- `res.cookie` and `res.clearCookie`.
pub data CookieHeader : Type 0 where
  set_cookie : CookieName → ℕ → CookieOpts → CookieHeader
  clear_cookie : CookieName → CookieOpts → CookieHeader

-- `setAuthCookies` and `clearAuthCookies`.
unfoldable pub set_auth_cookies : Bool → Tokens → List CookieHeader
set_auth_cookies is_prod t =
    set_cookie access_cookie t.access_token (get_cookie_opts is_prod true)
    ∷ (set_cookie refresh_cookie t.refresh_token (get_cookie_opts is_prod false) ∷ [])

unfoldable pub clear_auth_cookies : Bool → List CookieHeader
clear_auth_cookies is_prod =
    clear_cookie access_cookie (get_cookie_opts is_prod true)
    ∷ (clear_cookie refresh_cookie (get_cookie_opts is_prod false) ∷ [])

-- `getClientIp`: of `x-forwarded-for`, `req.ip` and the socket's address; `none` is 'unknown'.
abbrev first_text : List Text → Option Text
first_text [] = none
first_text (t ∷ ts) = some t

abbrev unless_empty : Option Text → Option Text
unless_empty none = none
unless_empty (some t) = if is_empty t then none else some t

unfoldable pub get_client_ip : Option Text → Option Text → Option Text → Option Text
get_client_ip forwarded ip remote =
    or_else?
      (unless_empty (elim forwarded [
        | none ↦ none
        | some t ↦ elim (first_text (split 44 t)) [ none ↦ none | some first ↦ some (trim first) ]
      ]))
      (or_else? (unless_empty ip) (unless_empty remote))

-- The claims of a token, and the verification with the secret of access and of refresh tokens.
pub record JwtPayload : Type 0 where
  pub sub : ℕ
  pub email : ℕ
  pub role : Role

pub record Jwt : Type 0 where
  pub verify_access : ℕ → ℕ → Option JwtPayload
  pub verify_refresh : ℕ → ℕ → Option JwtPayload

-- The parts of a request that decide who is asking.
pub record Request : Type 0 where
  pub access_value : Option ℕ
  pub refresh_value : Option ℕ
  pub bearer : Option ℕ

-- JwtStrategy: the cookie, or else the header.
unfoldable pub access_user : Jwt → ℕ → Request → Option JwtPayload
access_user jwt now r = elim (or_else? r.access_value r.bearer) [
  | none ↦ none
  | some token ↦ jwt.verify_access now token
]

-- JwtRefreshStrategy: the user and the token of the cookie.
unfoldable pub refresh_user : Jwt → ℕ → Request → Option (JwtPayload × ℕ)
refresh_user jwt now r = elim r.refresh_value [
  | none ↦ none
  | some token ↦ elim (jwt.verify_refresh now token) [ none ↦ none | some p ↦ some (p, token) ]
]

-- What a handler leaves, sets and answers: an access token, or nothing.
pub record Reply : Type 0 where
  pub users : List User
  pub cookies : List CookieHeader
  pub result : Result (Option ℕ)

abbrev pub denied : List User → Reply
denied users = record { users = users; cookies = []; result = err unauthorized }

-- What `login` and `refresh` do with the tokens.
abbrev pub reply_tokens : Bool → Outcome Tokens → Reply
reply_tokens is_prod o = elim o.result [
  | ok t ↦ record {
    users = o.users;
    cookies = set_auth_cookies is_prod t;
    result = ok (some t.access_token);
  }
  | err e ↦ record { users = o.users; cookies = []; result = err e }
]

module _ (lib : Library) (env : Env) (jwt : Jwt) (is_prod : Bool) where
  -- `login`, `register`, `refresh` and `logout` of the controller.
  unfoldable pub handle_login : ℕ → ℕ → LoginDto → List User → Reply
  handle_login now seed dto users = reply_tokens is_prod (login lib env now seed dto users)

  abbrev reply_registered : Outcome Registered → Reply
  reply_registered o = elim o.result [
    | ok r ↦ elim r [
      | signed_in t ↦ record {
        users = o.users;
        cookies = set_auth_cookies is_prod t;
        result = ok (some t.access_token);
      }
      | check_mail ↦ record { users = o.users; cookies = []; result = ok none }
    ]
    | err e ↦ record { users = o.users; cookies = []; result = err e }
  ]

  unfoldable pub handle_register : ℕ → ℕ → ℕ → RegisterDto → List User → Reply
  handle_register now seed uuid dto users =
      reply_registered (register lib env now seed uuid dto users)

  unfoldable pub handle_refresh : ℕ → ℕ → Request → List User → Reply
  handle_refresh now seed r users = elim (refresh_user jwt now r) [
    | none ↦ denied users
    | some (p, token) ↦ reply_tokens is_prod (refresh lib env now seed p.sub token users)
  ]

-- The route of `logout` is not public.
abbrev reply_logout : Bool → Outcome (Unit {0}) → Reply
reply_logout is_prod o = elim o.result [
  | ok done ↦ record { users = o.users; cookies = clear_auth_cookies is_prod; result = ok none }
  | err e ↦ record { users = o.users; cookies = clear_auth_cookies is_prod; result = err e }
]

unfoldable pub handle_logout : Jwt → Bool → ℕ → Request → List User → Reply
handle_logout jwt is_prod now r users = elim (access_user jwt now r) [
  | none ↦ denied users
  | some p ↦ reply_logout is_prod (logout now p.sub users)
]

-- A browser's cookies, each with the time at which it expires, and what it sends.
pub record Jar : Type 0 where
  pub access_value : Option (ℕ × ℕ)
  pub refresh_value : Option (ℕ × ℕ)

abbrev pub keep_cookie : ℕ → CookieHeader → Jar → Jar
keep_cookie now (set_cookie access_cookie v o) j = record j {
  access_value = some (v, now + o.max_age);
}
keep_cookie now (set_cookie refresh_cookie v o) j = record j {
  refresh_value = some (v, now + o.max_age);
}
keep_cookie now (clear_cookie access_cookie o) j = record j { access_value = none }
keep_cookie now (clear_cookie refresh_cookie o) j = record j { refresh_value = none }

unfoldable pub keep_cookies : ℕ → List CookieHeader → Jar → Jar
keep_cookies now [] j = j
keep_cookies now (h ∷ hs) j = keep_cookies now hs (keep_cookie now h j)

abbrev pub live : ℕ → Option (ℕ × ℕ) → Option ℕ
live now none = none
live now (some (v, expires)) = if ltb now expires then some v else none

unfoldable pub browser_request : ℕ → Jar → Request
browser_request now j = record {
  access_value = live now j.access_value;
  refresh_value = live now j.refresh_value;
  bearer = none;
}
