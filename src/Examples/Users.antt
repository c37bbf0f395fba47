-- ===== src/Examples/Users.antt =====
-- A user's profile.
use crm_system_backend.Prelude.{◌≡◌, refl, none, some, List, [], ◌∷◌, find}
use crm_system_backend.Prelude.Text.{trim}
use crm_system_backend.Prelude.Sent.{undefined, null, sent}
use crm_system_backend.Prelude.Results.{ok, err, bad_request}
use crm_system_backend.Users.{Profile, user_key, UpdateProfileDto, edit}
use crm_system_backend.Users.Validation.{update_profile}
use crm_system_backend.Users.Profiles.{Tidy}
use crm_system_backend.Users.Resend.{resend, update_profile-resend}

abbrev alice : Profile
alice = record {
  id = 5;
  email = b'a' ∷ [];
  name = b'A' ∷ [];
  position = none;
  phone = none;
  telegram = none;
  avatar_url = none;
}

abbrev change : UpdateProfileDto
change = record {
  name = undefined;
  position = null;
  phone = sent (b'1' ∷ 32 ∷ 32 ∷ 32 ∷ 32 ∷ 32 ∷ 32 ∷ []);
  telegram = sent (b'b' ∷ b'o' ∷ b'b' ∷ []);
}

-- A phone of one digit and six spaces passes the pattern, and is stored as one digit.
update_profile-resend_example :
    (after : List Profile) × (update_profile 5 change (alice ∷ []) ≡ ok after)
    × (find user_key 5 after ≡ some (edit change alice))
    × Tidy (edit change alice)
    × (update_profile 5 (resend (edit change alice)) after ≡ err bad_request)
unfolding trim
update_profile-resend_example =
    update_profile-resend 5 change (alice ∷ []) alice refl (refl, tt, tt, tt) refl refl refl
