-- ===== src/Auth/Captcha.antt =====
-- CaptchaService (apps/api-gateway/src/modules/auth/captcha.service.ts). What the request to
-- Cloudflare comes to is an argument. Texts are numbers, with `none` for one that is absent or
-- empty.
use crm_system_backend.Prelude.{
  ℕ, ◌≡◌, ◌↔◌, refl, Bool, true, false, not, ◌||◌, Option, none, some, List, [], arith,
  if◌then◌else◌, is_some,
}
use crm_system_backend.Prelude.Results.{bad_request}
use crm_system_backend.Auth.{User, Library, Env, RegisterDto, register, refuse}

-- `fetch`: it throws (no connection, no answer in time), it has a status that is not 2xx, or its
-- body is read: no JSON, or JSON with or without a Boolean `success`.
pub data SiteverifyAnswer : Type 0 where
  no_answer bad_status no_json : SiteverifyAnswer
  body : Option Bool → SiteverifyAnswer

-- NODE_ENV is 'test', and TURNSTILE_SECRET_KEY.
pub record CaptchaConfig : Type 0 where
  pub is_test : Bool
  pub secret : Option ℕ

-- `isEnabled`.
abbrev pub is_enabled : CaptchaConfig → Bool
is_enabled c = if c.is_test then false else is_some c.secret

abbrev pub is_success : SiteverifyAnswer → Bool
is_success no_answer = false
is_success bad_status = false
is_success no_json = false
is_success (body none) = false
is_success (body (some b)) = b

-- `verify`.
unfoldable pub verify : CaptchaConfig → (ℕ → SiteverifyAnswer) → Option ℕ → Bool
verify c ask token =
    if not (is_some c.secret) || c.is_test
    then true
    else elim token [ none ↦ false | some t ↦ is_success (ask t) ]

-- Where the captcha is enabled, `verify` is true only of a token for which Cloudflare answers with
-- `success: true`; every error is a refusal.
pub verify-fails_closed :
    (c : CaptchaConfig) (ask : ℕ → SiteverifyAnswer) (token : Option ℕ)
    → is_enabled c ≡ true
    → (verify c ask token ≡ true) ↔ ((t : ℕ) × (token ≡ some t) × (ask t ≡ body (some true)))
unfolding verify
verify-fails_closed c ask token on = (there token, back token)
  where
    asked : (a : SiteverifyAnswer) → is_success a ≡ true → a ≡ body (some true)
    asked no_answer h = cc
    asked bad_status h = cc
    asked no_json h = cc
    asked (body none) h = cc
    asked (body (some b)) h = cc

    there :
        (token : Option ℕ)
        → verify c ask token ≡ true
        → (t : ℕ) × (token ≡ some t) × (ask t ≡ body (some true))
    there none h = absurd (ground (arith, on, h))
    there (some t) h = (t, refl, asked (ask t) (ground (arith, on, h)))

    back :
        (token : Option ℕ)
        → (t : ℕ) × (token ≡ some t) × (ask t ≡ body (some true))
        → verify c ask token ≡ true
    back token (t, given, success) = rw (given, success) (ground (arith, on))

-- Let demo mode be off. `register` refuses a request whose token `verify` does not confirm: it
-- changes no account and sends nothing.
pub register-refuses_robot :
    (lib : Library) (env : Env) (c : CaptchaConfig) (ask : ℕ → SiteverifyAnswer) (now seed uuid : ℕ)
    (dto : RegisterDto) (users : List User)
    → ((t : Option ℕ) → lib.captcha_ok t ≡ verify c ask t)
    → env.demo_mode ≡ false
    → verify c ask dto.captcha_token ≡ false
    → register lib env now seed uuid dto users ≡ refuse users [] bad_request
unfolding register
register-refuses_robot lib env c ask now seed uuid dto users same open_env refused =
    ground (arith, same dto.captcha_token, open_env, refused)
