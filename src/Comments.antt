-- ===== src/Comments.antt =====
-- CommentsService (apps/api-gateway/src/modules/comments/comments.service.ts). Comments are rows in
-- the order of `createdAt`, the order in which they are inserted.
pub mod Authors
use crm_system_backend.Prelude.{
  ℕ, Bool, true, false, not, ◌&&◌, Option, none, some, List, [], ◌∷◌, ◌++◌, String, ◌==◌, find,
  erase, keep_if, includes, same_id?,
}
use crm_system_backend.Prelude.Results.{
  Result, ok, err, ◌>>=◌, ◌>>◌, not_found, forbidden, or_throw, throw_if,
}
use crm_system_backend.Shared.Access.{AuthUser, admin, same_role}

pub record Comment : Type 0 where
  pub id : ℕ
  pub text : String
  pub deal_id : ℕ
  pub user_id : Option ℕ
  pub user_name : String
  pub user_email : String

abbrev pub comment_key : Comment → ℕ
comment_key c = c.id

-- The columns of a user that are copied into a comment.
pub record Author : Type 0 where
  pub id : ℕ
  pub name : String
  pub email : String

abbrev pub author_key : Author → ℕ
author_key a = a.id

pub record CreateCommentDto : Type 0 where
  pub text : String
  pub deal_id : ℕ

-- `author?.name ?? ''` and `author?.email ?? user.email`.
abbrev pub name_of : Option Author → String
name_of none = ""
name_of (some a) = a.name

abbrev pub email_of : Option Author → AuthUser → String
email_of none user = user.email
email_of (some a) user = a.email

abbrev pub new_comment : ℕ → CreateCommentDto → AuthUser → Option Author → Comment
new_comment uuid dto user author = record {
  id = uuid;
  text = dto.text;
  deal_id = dto.deal_id;
  user_id = some user.id;
  user_name = name_of author;
  user_email = email_of author user;
}

-- `findAll`.
unfoldable pub find_all : ℕ → List Comment → List Comment
find_all deal cs = keep_if (λ (c : Comment). c.deal_id == deal) cs

-- `create`, given the ids of the deals and the users.
unfoldable pub create :
    ℕ
    → CreateCommentDto
    → AuthUser
    → List ℕ
    → List Author
    → List Comment
    → Result (Comment × List Comment)
create uuid dto user deals users cs = do
  throw_if (not (includes deals dto.deal_id)) not_found
  let c = new_comment uuid dto user (find author_key user.id users)
  ok (c, cs ++ c ∷ [])

-- The test of `remove`.
abbrev pub may_remove : AuthUser → Comment → Bool
may_remove user c = not (not (same_id? c.user_id user.id) && not (same_role user.role admin))

unfoldable pub remove : ℕ → AuthUser → List Comment → Result (List Comment)
remove id user cs = do
  c ← or_throw (find comment_key id cs) not_found
  throw_if (not (may_remove user c)) forbidden
  ok (erase comment_key id cs)
