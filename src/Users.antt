-- ===== src/Users.antt =====
-- UsersController (apps/api-gateway/src/modules/users/users.controller.ts), which works on the
-- database itself, and the search for users of ChatService (modules/chat/chat.service.ts). The
-- columns of a user that authentication needs are in Auth. A body has passed class-validator;
-- for an update of a profile, Validation has what it tests.
pub mod Profiles
pub mod Listing
pub mod Validation
pub mod Resend
use crm_system_backend.Prelude.{
  ℕ, ◌+◌, ◌-◌, ◌*◌, min, max, Bool, true, false, not, ◌&&◌, ◌||◌, Option, none, some, List, [], ◌∷◌,
  ◌==◌, if◌then◌else◌, find, update, keep_if, length, is_some,
}
use crm_system_backend.Prelude.Int.{ℤ, pos, negsuc}
use crm_system_backend.Prelude.Text.{Text, trim, is_empty}
use crm_system_backend.Prelude.Sent.{Sent, undefined, null, sent}
use crm_system_backend.Prelude.Sort.{newest_first}
use crm_system_backend.Prelude.Paging.{take, drop, page_count}
use crm_system_backend.Prelude.Results.{
  Result, ok, err, ◌>>=◌, ◌>>◌, internal_error, failed_write, throw_if,
}

pub record Profile : Type 0 where
  pub id : ℕ
  pub email : Text
  pub name : Text
  pub position : Option Text
  pub phone : Option Text
  pub telegram : Option Text
  pub avatar_url : Option Text

abbrev pub user_key : Profile → ℕ
user_key p = p.id

pub record UpdateProfileDto : Type 0 where
  pub name : Sent Text
  pub position : Sent Text
  pub phone : Sent Text
  pub telegram : Sent Text

-- `|| null`.
abbrev pub text_or_null : Text → Option Text
text_or_null [] = none
text_or_null (c ∷ cs) = some (c ∷ cs)

-- '@'.
abbrev pub at_sign : ℕ
at_sign = 64

abbrev pub with_at : Text → Text
with_at [] = []
with_at (c ∷ cs) = if c == at_sign then c ∷ cs else at_sign ∷ c ∷ cs

abbrev pub new_name : Sent Text → Text → Text
new_name (sent t) old = trim t
new_name _ old = old

abbrev pub new_text : Sent Text → Option Text → Option Text
new_text undefined old = old
new_text null old = none
new_text (sent t) old = text_or_null (trim t)

abbrev pub new_telegram : Sent Text → Option Text → Option Text
new_telegram undefined old = old
new_telegram null old = none
new_telegram (sent t) old = text_or_null (with_at (trim t))

abbrev pub is_null : Sent Text → Bool
is_null null = true
is_null _ = false

abbrev pub edit : UpdateProfileDto → Profile → Profile
edit dto p = record p {
  name = new_name dto.name p.name;
  position = new_text dto.position p.position;
  phone = new_text dto.phone p.phone;
  telegram = new_telegram dto.telegram p.telegram;
}

-- An update of one row: it rejects if the row is gone.
abbrev pub write_user : ℕ → (Profile → Profile) → List Profile → Result (List Profile)
write_user id change ps = do
  throw_if (not (is_some (find user_key id ps))) failed_write
  ok (update user_key id change ps)

-- `handleUpdate`: `null.trim()` is a TypeError.
unfoldable pub handle_update : ℕ → UpdateProfileDto → List Profile → Result (List Profile)
handle_update id dto ps = do throw_if (is_null dto.name) internal_error; write_user id (edit dto) ps

abbrev pub set_avatar : Option Text → Profile → Profile
set_avatar url p = record p { avatar_url = url }

-- `uploadAvatar`: a plain Error is answered with 500.
unfoldable pub upload_avatar : ℕ → Sent Text → List Profile → Result (List Profile)
upload_avatar id (sent url) ps = do
  throw_if (is_empty (trim url)) internal_error
  write_user id (set_avatar (some (trim url))) ps
upload_avatar id _ ps = err internal_error

-- `deleteAvatar` and `removeAvatarLegacy`.
unfoldable pub delete_avatar : ℕ → List Profile → Result (List Profile)
delete_avatar id ps = write_user id (set_avatar none) ps

unfoldable pub update_avatar : ℕ → Sent Text → List Profile → Result (List Profile)
update_avatar id (sent url) ps = write_user id (set_avatar (text_or_null (trim url))) ps
update_avatar id _ ps = write_user id (set_avatar none) ps

-- What `parseInt` gives, or NaN; `parseInt(...) || d`.
abbrev pub number_or : ℕ → Option ℤ → ℤ
number_or d none = pos d
number_or d (some (pos n)) = if n == 0 then pos d else pos n
number_or d (some (negsuc n)) = negsuc n

-- `Math.max(1, n)`.
abbrev pub at_least_1 : ℤ → ℕ
at_least_1 (pos n) = max 1 n
at_least_1 (negsuc n) = 1

abbrev pub visit_limit : ℤ → ℕ
visit_limit (negsuc n) = 10
visit_limit (pos n) = if n == 10 || n == 25 || n == 50 then n else 10

pub record Visit : Type 0 where
  pub id : ℕ
  pub user_id : ℕ
  pub created_at : ℕ

abbrev pub visited_at : Visit → ℕ
visited_at v = v.created_at

pub record Visits : Type 0 where
  pub rows : List Visit
  pub total : ℕ
  pub page : ℕ
  pub limit : ℕ
  pub total_pages : ℕ

abbrev pub visits_of : ℕ → List Visit → List Visit
visits_of u vs = newest_first visited_at (keep_if (λ v. v.user_id == u) vs)

-- `visits`, with the two parsed parameters.
unfoldable pub visits : ℕ → Option ℤ → Option ℤ → List Visit → Visits
visits u page_raw limit_raw vs =
    let page = at_least_1 (number_or 1 page_raw) in
    let limit = visit_limit (number_or 10 limit_raw) in
    let total = length (keep_if (λ (v : Visit). v.user_id == u) vs) in
    record {
      rows = take limit (drop ((page - 1) * limit) (visits_of u vs));
      total = total;
      page = page;
      limit = limit;
      total_pages = page_count total limit;
    }

-- What PostgreSQL does in a search: `contains` without regard to case, and the order of names.
pub record Matching : Type 0 where
  pub contains : Text → Text → Bool
  pub by_name : List Profile → List Profile

abbrev pub is_found : Matching → Text → Profile → Bool
is_found m query p = m.contains p.name query || m.contains p.email query

-- `search`; an absent `q` is an empty one.
unfoldable pub search :
    Matching → ℕ → Text → Option ℤ → Option ℤ → Bool → List Profile → List Profile
search m u q page_raw limit_raw include_self ps =
    let page = at_least_1 (number_or 1 page_raw) in
    let limit = min (at_least_1 (number_or 20 limit_raw)) 50 in
    let found =
      keep_if
        (λ (p : Profile).
          (include_self || not (p.id == u)) && (is_empty (trim q) || is_found m (trim q) p))
        ps in
    take limit (drop ((page - 1) * limit) (m.by_name found))

-- `searchUsers` of the chat.
unfoldable pub search_users : Matching → ℕ → Text → ℕ → List Profile → List Profile
search_users m u q limit ps =
    if is_empty (trim q)
    then []
    else take (min limit 50)
        (m.by_name (keep_if (λ (p : Profile). not (p.id == u) && is_found m (trim q) p) ps))
