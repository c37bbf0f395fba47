-- ===== src/Users/Resend.antt =====
-- A profile update, and the same update again with the values that the first one left (`PATCH
-- /users/profile` of apps/api-gateway/src/modules/users/users.controller.ts).
use crm_system_backend.Prelude.{
  ℕ, ◌≡◌, refl, sym, ap, ◌∙◌, Bool, true, false, not, Option, none, some, List, [], ◌∷◌, arith,
  if◌then◌else◌, find, update, find-update_self,
}
use crm_system_backend.Prelude.Text.{Text, trim, is_empty}
use crm_system_backend.Prelude.Sent.{Sent, undefined, null, sent}
use crm_system_backend.Prelude.Results.{Result, ok, err, ◌>>◌, throw_if, bad_request}
use crm_system_backend.Users.Validation.{
  is_plain, is_phone, is_handle, if_sent, is_valid, is_too_short, update_profile, trim-is_plain,
  is_phone-trim, is_phone-long, is_handle-with_at, is_valid-parts,
}
use crm_system_backend.Users.{
  Profile, user_key, UpdateProfileDto, text_or_null, at_sign, with_at, new_name, new_text,
  new_telegram, is_null, edit, handle_update,
}
use crm_system_backend.Users.Profiles.{Tidy, IsNormal, IsHandle, starts_with_at, edit-Tidy}

-- The body with the values of a profile that was answered.
abbrev pub sent_or_null : Option Text → Sent Text
sent_or_null none = null
sent_or_null (some t) = sent t

abbrev pub resend : Profile → UpdateProfileDto
resend p = record {
  name = sent p.name;
  position = sent_or_null p.position;
  phone = sent_or_null p.phone;
  telegram = sent_or_null p.telegram;
}

text_or_null-some : (t : Text) → is_empty t ≡ false → text_or_null t ≡ some t
text_or_null-some [] h = cc
text_or_null-some (c ∷ cs) h = refl

with_at-some : (t : Text) → starts_with_at t ≡ true → text_or_null (with_at t) ≡ some t
with_at-some [] h = cc
with_at-some (c ∷ cs) h = ap (λ b. text_or_null (if b then c ∷ cs else at_sign ∷ c ∷ cs)) h

new_text-sent_or_null : (o : Option Text) → IsNormal o → new_text (sent_or_null o) o ≡ o
new_text-sent_or_null none h = refl
new_text-sent_or_null (some t) h = ap text_or_null h.0 ∙ text_or_null-some t h.1

new_telegram-sent_or_null : (o : Option Text) → IsHandle o → new_telegram (sent_or_null o) o ≡ o
new_telegram-sent_or_null none h = refl
new_telegram-sent_or_null (some t) h = ap (λ x. text_or_null (with_at x)) h.0 ∙ with_at-some t h.1

edit-resend : (p : Profile) → Tidy p → edit (resend p) p ≡ p
edit-resend p (name, position, phone, telegram) =
    rw
      (
        name,
        new_text-sent_or_null p.position position,
        new_text-sent_or_null p.phone phone,
        new_telegram-sent_or_null p.telegram telegram,
      )
      refl

update_same :
    (k : ℕ) (f : Profile → Profile) (ps : List Profile) (p : Profile)
    → find user_key k ps ≡ some p
    → f p ≡ p
    → update user_key k f ps ≡ ps
update_same k f [] p h e = refl
update_same k f (q ∷ ps) p h e = ground (arith, update_same k f ps p)

handle_update-ok :
    (id : ℕ) (dto : UpdateProfileDto) (ps : List Profile) (p : Profile)
    → find user_key id ps ≡ some p
    → is_null dto.name ≡ false
    → handle_update id dto ps ≡ ok (update user_key id (edit dto) ps)
unfolding handle_update
handle_update-ok id dto ps p h e = rw (e, h) refl

-- The values of the edited profile pass the tests of the pipe again, but perhaps for the phone.
name-is_plain :
    (s : Sent Text) (old : Text)
    → is_plain old ≡ true
    → if_sent is_plain s ≡ true
    → is_plain (new_name s old) ≡ true
name-is_plain undefined old h k = h
name-is_plain null old h k = h
name-is_plain (sent t) old h k = trim-is_plain t k

if_some :
    (test : Text → Bool) (t : Text)
    → test t ≡ true
    → if_sent test (sent_or_null (text_or_null t)) ≡ true
if_some test [] h = refl
if_some test (c ∷ cs) h = h

text-is_plain :
    (s : Sent Text) (old : Option Text)
    → if_sent is_plain (sent_or_null old) ≡ true
    → if_sent is_plain s ≡ true
    → if_sent is_plain (sent_or_null (new_text s old)) ≡ true
text-is_plain undefined old h k = h
text-is_plain null old h k = refl
text-is_plain (sent t) old h k = if_some is_plain (trim t) (trim-is_plain t k)

telegram-is_handle :
    (s : Sent Text) (old : Option Text)
    → if_sent is_handle (sent_or_null old) ≡ true
    → if_sent is_handle s ≡ true
    → if_sent is_handle (sent_or_null (new_telegram s old)) ≡ true
telegram-is_handle undefined old h k = h
telegram-is_handle null old h k = refl
telegram-is_handle (sent t) old h k = if_some is_handle (with_at (trim t)) (is_handle-with_at t k)

-- A stored phone number with fewer than seven characters, a plus sign in front not counted.
abbrev pub has_short_phone : Profile → Bool
has_short_phone p = elim p.phone [ none ↦ false | some t ↦ is_too_short t ]

phone-is_phone :
    (s : Sent Text) (old : Option Text)
    → if_sent is_phone (sent_or_null old) ≡ true
    → if_sent is_phone s ≡ true
    → if_sent is_phone (sent_or_null (new_text s old))
      ≡ not (elim (new_text s old) [ none ↦ false | some t ↦ is_too_short t ])
phone-is_phone undefined none h k = refl
phone-is_phone undefined (some t) h k = h ∙ sym (ap not (is_phone-long t h))
phone-is_phone null old h k = refl
phone-is_phone (sent t) old h k = stored (trim t) (is_phone-trim t k)
  where
    stored :
        (t : Text)
        → is_phone t ≡ not (is_too_short t)
        → if_sent is_phone (sent_or_null (text_or_null t))
          ≡ not (elim (text_or_null t) [ none ↦ false | some t ↦ is_too_short t ])
    stored [] e = refl
    stored (c ∷ cs) e = e

resend-is_valid :
    (dto : UpdateProfileDto) (p : Profile)
    → is_valid (resend p) ≡ true
    → is_valid dto ≡ true
    → is_valid (resend (edit dto p)) ≡ not (has_short_phone (edit dto p))
resend-is_valid dto p h k =
    let (a, b, c, d) = is_valid-parts (resend p) h in
    let (a', b', c', d') = is_valid-parts dto k in
    rw
      (
        name-is_plain dto.name p.name a a',
        text-is_plain dto.position p.position b b',
        phone-is_phone dto.phone p.phone c c',
        telegram-is_handle dto.telegram p.telegram d d',
      )
      (ground arith)

-- Let a user's profile be tidy, let its values and a body pass the ValidationPipe, and let the
-- body come without a null name. The update succeeds and leaves the user a tidy profile: trimmed
-- texts, null for empty ones, and a telegram name that starts with '@'. The same request with the
-- values of that profile succeeds and changes nothing, unless trimming left a phone number of fewer
-- than seven characters (a plus sign in front not counted): then it is answered with 400.
pub update_profile-resend :
    (id : ℕ) (dto : UpdateProfileDto) (ps : List Profile) (p : Profile)
    → find user_key id ps ≡ some p
    → Tidy p
    → is_valid (resend p) ≡ true
    → is_valid dto ≡ true
    → is_null dto.name ≡ false
    → (after : List Profile) × (update_profile id dto ps ≡ ok after)
      × (find user_key id after ≡ some (edit dto p))
      × Tidy (edit dto p)
      × (update_profile id (resend (edit dto p)) after
          ≡ (if has_short_phone (edit dto p) then err bad_request else ok after))
unfolding update_profile
update_profile-resend id dto ps p h tidy before valid named = (
  update user_key id (edit dto) ps,
  rw valid (handle_update-ok id dto ps p h named),
  stored,
  edit-Tidy dto p tidy,
  rw (resend-is_valid dto p before valid) (answer (has_short_phone (edit dto p)) _ unchanged),
)
  where
    stored : find user_key id (update user_key id (edit dto) ps) ≡ some (edit dto p)
    stored = find-update_self user_key id (edit dto) ps p (λ q. refl) h

    unchanged :
        handle_update id (resend (edit dto p)) (update user_key id (edit dto) ps)
        ≡ ok (update user_key id (edit dto) ps)
    unchanged =
        handle_update-ok id (resend (edit dto p)) _ (edit dto p) stored refl
        ∙ ap ok (
            update_same id (edit (resend (edit dto p))) _ (edit dto p) stored
              (edit-resend (edit dto p) (edit-Tidy dto p tidy)))

    answer :
        (short : Bool) (r : Result (List Profile))
        → r ≡ ok (update user_key id (edit dto) ps)
        → (throw_if (not (not short)) bad_request >> r)
          ≡ (if short then err bad_request else ok (update user_key id (edit dto) ps))
    answer true r e = refl
    answer false r e = e
