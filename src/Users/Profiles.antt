-- ===== src/Users/Profiles.antt =====
-- What a profile looks like after an update (`handleUpdate` of
-- apps/api-gateway/src/modules/users/users.controller.ts).
use crm_system_backend.Prelude.{
  ◌≡◌, refl, Bool, true, false, Option, none, some, [], ◌∷◌, ◌==◌, if◌then◌else◌,
}
use crm_system_backend.Prelude.Text.{Text, trim, is_empty, trim-trim, trim-cons}
use crm_system_backend.Prelude.Sent.{Sent, undefined, null, sent}
use crm_system_backend.Users.{
  Profile, UpdateProfileDto, text_or_null, at_sign, with_at, new_name, new_text, new_telegram, edit,
}

abbrev pub starts_with_at : Text → Bool
starts_with_at [] = false
starts_with_at (c ∷ cs) = c == at_sign

abbrev pub IsNormal : Option Text → Type 0
IsNormal none = Unit
IsNormal (some t) = (trim t ≡ t) × (is_empty t ≡ false)

abbrev pub IsHandle : Option Text → Type 0
IsHandle none = Unit
IsHandle (some t) = (trim t ≡ t) × (starts_with_at t ≡ true)

-- Trimmed texts, none of them empty but perhaps the name, and a telegram name with its '@'.
abbrev pub Tidy : Profile → Type 0
Tidy p = (trim p.name ≡ p.name) × IsNormal p.position × IsNormal p.phone × IsHandle p.telegram

text_or_null-IsNormal : (t : Text) → trim t ≡ t → IsNormal (text_or_null t)
text_or_null-IsNormal [] h = tt
text_or_null-IsNormal (c ∷ cs) h = (h, refl)

with_at-IsHandle : (t : Text) → trim t ≡ t → IsHandle (text_or_null (with_at t))
with_at-IsHandle [] h = tt
with_at-IsHandle (c ∷ cs) h = branch (c == at_sign) refl
  where
    branch :
        (b : Bool)
        → (c == at_sign) ≡ b
        → IsHandle (text_or_null (if b then c ∷ cs else at_sign ∷ c ∷ cs))
    branch true e = (h, e)
    branch false e = (trim-cons at_sign (c ∷ cs) refl h, refl)

new_text-IsNormal : (s : Sent Text) (o : Option Text) → IsNormal o → IsNormal (new_text s o)
new_text-IsNormal undefined o h = h
new_text-IsNormal null o h = tt
new_text-IsNormal (sent t) o h = text_or_null-IsNormal (trim t) (trim-trim t)

new_telegram-IsHandle : (s : Sent Text) (o : Option Text) → IsHandle o → IsHandle (new_telegram s o)
new_telegram-IsHandle undefined o h = h
new_telegram-IsHandle null o h = tt
new_telegram-IsHandle (sent t) o h = with_at-IsHandle (trim t) (trim-trim t)

new_name-trimmed :
    (s : Sent Text) (old : Text) → trim old ≡ old → trim (new_name s old) ≡ new_name s old
new_name-trimmed undefined old h = h
new_name-trimmed null old h = h
new_name-trimmed (sent t) old h = trim-trim t

pub edit-Tidy : (dto : UpdateProfileDto) (p : Profile) → Tidy p → Tidy (edit dto p)
edit-Tidy dto p (name, position, phone, telegram) = (
  new_name-trimmed dto.name p.name name,
  new_text-IsNormal dto.position p.position position,
  new_text-IsNormal dto.phone p.phone phone,
  new_telegram-IsHandle dto.telegram p.telegram telegram,
)
