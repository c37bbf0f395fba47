-- ===== src/Auth/Confirmation.antt =====
-- The confirmation of an address by the token of a mail (`verifyEmail` of
-- apps/api-gateway/src/modules/auth/auth.service.ts).
use crm_system_backend.Prelude.{
  ℕ, ◌≡◌, refl, sym, subst, true, false, none, some, List, [], ◌∷◌, arith, find, Unique, is_some,
  find-update_self,
}
use crm_system_backend.Prelude.Results.{ok, bad_request}
use crm_system_backend.Auth.{
  User, user_id, find_token, is_expired, stamp, save, confirm_email, verify_email, refuse, answer,
}

-- No two users have the same token, `@unique`.
abbrev pub TokensUnique : List User → Type 0
TokensUnique [] = Unit
TokensUnique (u ∷ us) =
    (elim u.email_verification_token [ none ↦ none | some t ↦ find_token t us ] ≡ none)
    × TokensUnique us

find_token-find :
    (t : ℕ) (us : List User) (u : User)
    → find_token t us ≡ some u
    → is_some (find user_id u.id us) ≡ true
find_token-find t [] u h = cc
find_token-find t (v ∷ us) u h = ground (arith, find_token-find t us u)

find_token-found :
    (t : ℕ) (us : List User) (u : User)
    → Unique user_id us
    → find_token t us ≡ some u
    → find user_id u.id us ≡ some u
find_token-found t [] u q h = cc
find_token-found t (v ∷ us) u q h =
    ground (arith, q.0, find_token-find t us u, find_token-found t us u q.1)

find_token-save :
    (now t : ℕ) (us : List User) (u : User)
    → Unique user_id us
    → TokensUnique us
    → find_token t us ≡ some u
    → find_token t (save now u.id confirm_email us) ≡ none
find_token-save now t [] u q k h = cc
find_token-save now t (v ∷ us) u q k h =
    ground (arith, q.0, k.0, find_token-find t us u, find_token-save now t us u q.1 k.1)

-- Let identifiers and tokens be unique. A token that is not expired, of a user whose address is
-- not confirmed, confirms it, and only once: `verifyEmail` succeeds and leaves the user confirmed
-- and without a token, and at any later time it refuses the same token and changes nothing.
pub verify_email_single_use :
    (now later token : ℕ) (users : List User) (u : User)
    → Unique user_id users
    → TokensUnique users
    → find_token token users ≡ some u
    → is_expired now u ≡ false
    → u.is_email_verified ≡ false
    → let after = (verify_email now (some token) users).users in
      ((verify_email now (some token) users).result ≡ ok tt)
      × (find user_id u.id after ≡ some (stamp now confirm_email u))
      × (verify_email later (some token) after ≡ refuse after [] bad_request)
unfolding verify_email
verify_email_single_use now later token users u ids tokens found fresh pending =
    subst
      (λ o.
        (o.result ≡ ok tt)
        × (find user_id u.id o.users ≡ some (stamp now confirm_email u))
        × (verify_email later (some token) o.users ≡ refuse o.users [] bad_request))
      (sym first_time)
      (
        refl,
        find-update_self user_id u.id (stamp now confirm_email) users u (λ y. refl)
            (find_token-found token users u ids found),
        again _ (find_token-save now token users u ids tokens found),
      )
  where
    first_time :
        verify_email now (some token) users ≡ answer (save now u.id confirm_email users) [] tt
    first_time = ground arith

    again :
        (us : List User)
        → find_token token us ≡ none
        → verify_email later (some token) us ≡ refuse us [] bad_request
    again us e = ground arith
