-- ===== src/Users/Validation.antt =====
-- The validation of the body of `PATCH /users/profile` (UpdateProfileDto,
-- apps/api-gateway/src/modules/users/dto/update-profile.dto.ts) by the ValidationPipe of main.ts,
-- and what trimming does to the values that pass it.
use crm_system_backend.Prelude.{
  ℕ, ◌≤◌, ◌≡◌, refl, ap, ◌∙◌, Bool, true, false, not, ◌&&◌, ◌||◌, List, [], ◌∷◌, leb, ltb, ◌==◌,
  if◌then◌else◌, any, length, arith,
}
use crm_system_backend.Prelude.Text.{Text, is_space, trim_end, trim, trim-tight}
use crm_system_backend.Prelude.Text.Trimming.{any-trim, any-trim_end, length-trim-le, trim-head}
use crm_system_backend.Prelude.Sent.{Sent, undefined, null, sent}
use crm_system_backend.Prelude.Results.{Result, ◌>>◌, bad_request, throw_if}
use crm_system_backend.Users.{Profile, UpdateProfileDto, at_sign, with_at, handle_update}

abbrev pub is_digit : ℕ → Bool
is_digit c = leb 48 c && leb c 57

-- `/^[^\x00-\x1F\x7F]*$/` forbids these.
abbrev pub is_control : ℕ → Bool
is_control c = leb c 31 || c == 127

-- The characters that `[0-9\s\-()]` and `[a-zA-Z0-9_]` leave out. `\s` is what `trim` removes.
abbrev pub not_in_phone : ℕ → Bool
not_in_phone c = not (is_digit c || is_space c || c == 45 || c == 40 || c == 41)

abbrev pub not_in_handle : ℕ → Bool
not_in_handle c = not ((leb 97 c && leb c 122) || (leb 65 c && leb c 90) || is_digit c || c == 95)

-- What follows an optional first character.
abbrev pub after_optional : ℕ → Text → Text
after_optional x [] = []
after_optional x (c ∷ cs) = if c == x then cs else c ∷ cs

-- '+'.
abbrev pub plus_sign : ℕ
plus_sign = 43

-- `@MaxLength(100)` and the pattern of `name` and `position`.
abbrev pub is_plain : Text → Bool
is_plain t = leb (length t) 100 && not (any is_control t)

-- `@MaxLength(20)` and `/^\+?[0-9\s\-()]{7,20}$/`.
abbrev pub is_phone : Text → Bool
is_phone t =
    let rest = after_optional plus_sign t in
    leb (length t) 20 && leb 7 (length rest) && leb (length rest) 20 && not (any not_in_phone rest)

-- `@MaxLength(50)` and `/^@?[a-zA-Z0-9_]{3,32}$/`.
abbrev pub is_handle : Text → Bool
is_handle t =
    let rest = after_optional at_sign t in
    leb (length t) 50 && leb 3 (length rest) && leb (length rest) 32 && not (any not_in_handle rest)

-- `@IsOptional` lets undefined and null through.
abbrev pub if_sent : (Text → Bool) → Sent Text → Bool
if_sent test undefined = true
if_sent test null = true
if_sent test (sent t) = test t

abbrev pub is_valid : UpdateProfileDto → Bool
is_valid dto =
    if_sent is_plain dto.name
    && if_sent is_plain dto.position
    && if_sent is_phone dto.phone
    && if_sent is_handle dto.telegram

-- The route: the pipe, then the method.
unfoldable pub update_profile : ℕ → UpdateProfileDto → List Profile → Result (List Profile)
update_profile id dto ps = do throw_if (not (is_valid dto)) bad_request; handle_update id dto ps

pub trim-is_plain : (t : Text) → is_plain t ≡ true → is_plain (trim t) ≡ true
trim-is_plain t h = ground (arith, length-trim-le t, any-trim is_control t)

any-after_optional :
    (bad : ℕ → Bool) (x : ℕ) (t : Text) → any bad t ≡ false → any bad (after_optional x t) ≡ false
any-after_optional bad x [] h = refl
any-after_optional bad x (c ∷ cs) h = ground arith

length-after_optional-le : (x : ℕ) (t : Text) → length (after_optional x t) ≤ length t
length-after_optional-le x [] = omega arith
length-after_optional-le x (c ∷ cs) = ground arith

after_optional-trim :
    (bad : ℕ → Bool) (x : ℕ) (t : Text)
    → is_space x ≡ false
    → any bad (after_optional x t) ≡ false
    → any bad (after_optional x (trim t)) ≡ false
after_optional-trim bad x [] s h = any-after_optional bad x (trim []) (any-trim bad [] h)
after_optional-trim bad x (c ∷ cs) s h = by_head (c == x) refl
  where
    by_head : (b : Bool) → (c == x) ≡ b → any bad (after_optional x (trim (c ∷ cs))) ≡ false
    by_head true e =
        let same : c ≡ x = ground (arith, e) in
        let rest : any bad (trim_end cs) ≡ false = any-trim_end bad cs (ground (arith, h, e)) in
        rw (trim-head c cs (ap is_space same ∙ s)) (ground (arith, rest, e))
    by_head false e =
        any-after_optional bad x (trim (c ∷ cs)) (any-trim bad (c ∷ cs) (ground (arith, h, e)))

-- A phone number that passes and is trimmed fails only if it got too short.
abbrev pub is_too_short : Text → Bool
is_too_short t = ltb (length (after_optional plus_sign t)) 7

is_phone-parts :
    (t : Text)
    → is_phone t ≡ true
    → (length t ≤ 20) × (any not_in_phone (after_optional plus_sign t) ≡ false)
is_phone-parts t h =
    by_tests (length t) (length (after_optional plus_sign t))
      (any not_in_phone (after_optional plus_sign t)) h
  where
    by_tests :
        (n m : ℕ) (b : Bool)
        → (leb n 20 && leb 7 m && leb m 20 && not b) ≡ true
        → (n ≤ 20) × (b ≡ false)
    by_tests n m b h = ground arith

pub is_phone-trim : (t : Text) → is_phone t ≡ true → is_phone (trim t) ≡ not (is_too_short (trim t))
is_phone-trim t h =
    checked (length (trim t)) (length rest) (any not_in_phone rest)
      (omega (arith, length-trim-le t, (is_phone-parts t h).0))
      (length-after_optional-le plus_sign (trim t))
      (after_optional-trim not_in_phone plus_sign t refl (is_phone-parts t h).1)
  where
    rest : Text
    rest = after_optional plus_sign (trim t)

    checked :
        (n m : ℕ) (b : Bool)
        → n ≤ 20
        → m ≤ n
        → b ≡ false
        → (leb n 20 && leb 7 m && leb m 20 && not b) ≡ not (ltb m 7)
    checked n m b h k e = ground arith

any-space : (t : Text) → any not_in_handle t ≡ false → any is_space t ≡ false
any-space [] h = refl
any-space (c ∷ cs) h = ground (arith, any-space cs)

any-space_handle :
    (t : Text) → any not_in_handle (after_optional at_sign t) ≡ false → any is_space t ≡ false
any-space_handle [] h = refl
any-space_handle (c ∷ cs) h = ground (arith, any-space cs)

-- A telegram name that passes is stored with an '@', and passes again.
pub is_handle-with_at : (t : Text) → is_handle t ≡ true → is_handle (with_at (trim t)) ≡ true
is_handle-with_at t h = rw (trim-tight t (any-space_handle t (ground (arith, h)))) (again t h)
  where
    again : (t : Text) → is_handle t ≡ true → is_handle (with_at t) ≡ true
    again [] h = cc
    again (c ∷ cs) h = ground arith

pub is_phone-long : (t : Text) → is_phone t ≡ true → is_too_short t ≡ false
is_phone-long t h =
    by_tests (length t) (length (after_optional plus_sign t))
      (any not_in_phone (after_optional plus_sign t)) h
  where
    by_tests :
        (n m : ℕ) (b : Bool) → (leb n 20 && leb 7 m && leb m 20 && not b) ≡ true → ltb m 7 ≡ false
    by_tests n m b h = ground arith

pub is_valid-parts :
    (dto : UpdateProfileDto)
    → is_valid dto ≡ true
    → (if_sent is_plain dto.name ≡ true)
      × (if_sent is_plain dto.position ≡ true)
      × (if_sent is_phone dto.phone ≡ true)
      × (if_sent is_handle dto.telegram ≡ true)
is_valid-parts dto h =
    by_tests (if_sent is_plain dto.name) (if_sent is_plain dto.position)
      (if_sent is_phone dto.phone) (if_sent is_handle dto.telegram) h
  where
    by_tests :
        (a b c d : Bool)
        → (a && b && c && d) ≡ true
        → (a ≡ true) × (b ≡ true) × (c ≡ true) × (d ≡ true)
    by_tests a b c d h = ground arith
