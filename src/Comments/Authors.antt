-- ===== src/Comments/Authors.antt =====
-- Who may take comments away (`create` and `remove` of
-- apps/api-gateway/src/modules/comments/comments.service.ts).
use crm_system_backend.Prelude.{
  ℕ, ◌≡◌, refl, ap, ◌∙◌, Bool, true, false, not, ◌&&◌, ◌||◌, if◌then◌else◌, none, some, List, [],
  ◌∷◌, ◌++◌, arith, ◌==◌, find, erase, includes,
}
use crm_system_backend.Prelude.Results.{
  Result, ok, err, ◌>>=◌, ◌>>◌, not_found, forbidden, or_throw, throw_if,
}
use crm_system_backend.Shared.Access.{AuthUser, admin, same_role}
use crm_system_backend.Comments.{
  Comment, comment_key, Author, author_key, CreateCommentDto, new_comment, create, may_remove,
  remove,
}

-- Posts and removals in one go: the second acts on what the first leaves.
abbrev pub post_and_remove :
    ℕ
    → CreateCommentDto
    → AuthUser
    → AuthUser
    → List ℕ
    → List Author
    → List Comment
    → Result (List Comment)
unfolding create remove
post_and_remove uuid dto user other deals users cs =
    create uuid dto user deals users cs >>= λ q. remove uuid other q.1

erase-append_new :
    (c : Comment) (cs : List Comment)
    → find comment_key c.id cs ≡ none
    → erase comment_key c.id (cs ++ c ∷ []) ≡ cs
erase-append_new c [] h = ground arith
erase-append_new c (d ∷ cs) h = ground (arith, erase-append_new c cs)

find-append_new :
    (c : Comment) (cs : List Comment)
    → find comment_key c.id cs ≡ none
    → find comment_key c.id (cs ++ c ∷ []) ≡ some c
find-append_new c [] h = ground arith
find-append_new c (d ∷ cs) h = ground (arith, find-append_new c cs)

-- Let a new comment's id be unused and its deal exist. A comment that is posted can be removed by
-- its author and by every ADMIN, which leaves the table as it was before the post; for anybody else
-- the removal is forbidden.
pub create-remove :
    (uuid : ℕ) (dto : CreateCommentDto) (user other : AuthUser) (deals : List ℕ)
    → (users : List Author) (cs : List Comment) → find comment_key uuid cs ≡ none
    → includes deals dto.deal_id ≡ true
    → post_and_remove uuid dto user other deals users cs
      ≡ (if user.id == other.id || same_role other.role admin then ok cs else err forbidden)
unfolding post_and_remove create remove
create-remove uuid dto user other deals users cs fresh known =
    ap (λ b. (throw_if (not b) not_found >> posted) >>= next) known
    ∙ ap
        (λ o. or_throw o not_found >>= λ d.
          throw_if (not (may_remove other d)) forbidden
          >> ok (erase comment_key uuid (cs ++ c ∷ [])))
        (find-append_new c cs fresh)
    ∙ ap (λ ds. throw_if (not (may_remove other c)) forbidden >> ok ds)
        (erase-append_new c cs fresh)
    ∙ verdict (user.id == other.id) (same_role other.role admin)
  where
    c : Comment
    c = new_comment uuid dto user (find author_key user.id users)

    posted : Result (Comment × List Comment)
    posted = ok (c, cs ++ c ∷ [])

    next : Comment × List Comment → Result (List Comment)
    next q = remove uuid other q.1

    verdict :
        (a b : Bool)
        → (throw_if (not (not (not a && not b))) forbidden >> ok cs)
          ≡ (if a || b then ok cs else err forbidden)
    verdict true true = refl
    verdict true false = refl
    verdict false true = refl
    verdict false false = refl
