-- ===== src/Users/Listing.antt =====
-- How much a user gets to see at once (`visits` and `search` of
-- apps/api-gateway/src/modules/users/users.controller.ts, `searchUsers` of
-- apps/api-gateway/src/modules/chat/chat.service.ts).
use crm_system_backend.Prelude.{
  ℕ, zero, suc, ◌+◌, ◌-◌, ◌*◌, ◌≤◌, ◌<◌, ◌≡◌, refl, ap, min, Bool, true, false, not, ◌&&◌, ◌||◌,
  Option, some, List, [], ◌∷◌, arith, ◌==◌, if◌then◌else◌, keep_if, length, All,
}
use crm_system_backend.Prelude.Int.{ℤ, pos, negsuc}
use crm_system_backend.Prelude.Text.{Text, trim, is_empty}
use crm_system_backend.Prelude.Sort.{length-newest_first}
use crm_system_backend.Prelude.Paging.{take, drop, collect, collect_all, length-take-le}
use crm_system_backend.Users.{
  Profile, Visit, visits, visits_of, visited_at, visit_limit, number_or, at_least_1, Matching,
  is_found, search, search_users,
}

visit_limit_lem : (z : ℤ) → (0 < visit_limit z) × (visit_limit z ≤ 50)
visit_limit_lem (pos n) = (ground arith, ground arith)
visit_limit_lem (negsuc n) = (omega arith, omega arith)

-- The rows of page `p`.
abbrev pub visits_page : ℕ → Option ℤ → List Visit → ℕ → List Visit
unfolding visits
visits_page u limit_raw vs p = (visits u (some (pos p)) limit_raw vs).rows

-- Whatever the page and the limit in the address are, at most 50 visits are answered; and the pages
-- that are announced, read one after another, hold all of the user's visits and nobody else's, the
-- newest first.
pub visits-pages :
    (u : ℕ) (page_raw limit_raw : Option ℤ) (vs : List Visit)
    → (length (visits u page_raw limit_raw vs).rows ≤ 50)
      × (collect (visits u page_raw limit_raw vs).total_pages 0 (visits_page u limit_raw vs)
          ≡ visits_of u vs)
unfolding visits visits_page
visits-pages u page_raw limit_raw vs = (
  omega (
    arith,
    length-take-le limit (drop ((at_least_1 (number_or 1 page_raw) - 1) * limit) (visits_of u vs)),
    bounds.1,
  ),
  collect_all (length (keep_if (λ (v : Visit). v.user_id == u) vs)) limit
      (visits_page u limit_raw vs) (visits_of u vs) bounds.0
      (length-newest_first visited_at (keep_if (λ (v : Visit). v.user_id == u) vs))
      (λ k. ap (λ j. take limit (drop (j * limit) (visits_of u vs))) (back k)),
)
  where
    limit : ℕ
    limit = visit_limit (number_or 10 limit_raw)

    bounds : (0 < limit) × (limit ≤ 50)
    bounds = visit_limit_lem (number_or 10 limit_raw)

    back : (k : ℕ) → at_least_1 (number_or 1 (some (pos (k + 1)))) - 1 ≡ k
    back k = ground arith

take-All : (P : Profile → Type 0) (n : ℕ) (ps : List Profile) → All P ps → All P (take n ps)
take-All P zero ps h = tt
take-All P (suc n) [] h = tt
take-All P (suc n) (p ∷ ps) h = (h.0, take-All P n ps h.1)

drop-All : (P : Profile → Type 0) (n : ℕ) (ps : List Profile) → All P ps → All P (drop n ps)
drop-All P zero ps h = h
drop-All P (suc n) [] h = tt
drop-All P (suc n) (p ∷ ps) h = drop-All P n ps h.1

kept_satisfy : (f : Profile → Bool) (ps : List Profile) → All (λ p. f p ≡ true) (keep_if f ps)
kept_satisfy f [] = tt
kept_satisfy f (p ∷ ps) = ground (arith, kept_satisfy f ps)

module _ (m : Matching) where
  -- Who may be answered: not the caller, unless that is asked for, and only who is found.
  abbrev pub is_wanted : ℕ → Text → Bool → Profile → Bool
  is_wanted u q include_self p =
      (include_self || not (p.id == u)) && (is_empty (trim q) || is_found m (trim q) p)

  -- Let the database only rearrange users when it sorts them. Both searches answer at most 50 users
  -- and only those who match the trimmed text. The chat's never answers the caller, the other one
  -- only if `includeSelf` is set.
  pub search-bounds :
      ((P : Profile → Type 0) (ps : List Profile) → All P ps → All P (m.by_name ps))
      → (u : ℕ) (q : Text) (page_raw limit_raw : Option ℤ) (include_self : Bool) (limit : ℕ)
      → (ps : List Profile)
      → (length (search m u q page_raw limit_raw include_self ps) ≤ 50)
        × All
            (λ p. is_wanted u q include_self p ≡ true)
            (search m u q page_raw limit_raw include_self ps)
        × (length (search_users m u q limit ps) ≤ 50)
        × All (λ p. is_wanted u q false p ≡ true) (search_users m u q limit ps)
  unfolding search search_users
  search-bounds sorts u q page_raw limit_raw include_self limit ps = (
    omega (arith, length-take-le most (drop skip (m.by_name found))),
    take-All _ most (drop skip (m.by_name found)) (
        drop-All _ skip (m.by_name found)
          (sorts _ found (kept_satisfy (is_wanted u q include_self) ps))),
    chat_found.0,
    chat_found.1,
  )
    where
      most : ℕ
      most = min (at_least_1 (number_or 20 limit_raw)) 50

      skip : ℕ
      skip = (at_least_1 (number_or 1 page_raw) - 1) * most

      found : List Profile
      found = keep_if (is_wanted u q include_self) ps

      mates : List Profile
      mates = keep_if (λ (p : Profile). not (p.id == u) && is_found m (trim q) p) ps

      wanted :
          (p : Profile)
          → (not (p.id == u) && is_found m (trim q) p) ≡ true
          → is_wanted u q false p ≡ true
      wanted p e = ground (arith, e)

      all_wanted :
          (qs : List Profile)
          → All (λ p. (not (p.id == u) && is_found m (trim q) p) ≡ true) qs
          → All (λ p. is_wanted u q false p ≡ true) qs
      all_wanted [] h = tt
      all_wanted (p ∷ qs) h = (wanted p h.0, all_wanted qs h.1)

      by_empty :
          (b : Bool)
          → is_empty (trim q) ≡ b
          → (length (if b then [] else take (min limit 50) (m.by_name mates)) ≤ 50)
            × All
                (λ p. is_wanted u q false p ≡ true)
                (if b then [] else take (min limit 50) (m.by_name mates))
      by_empty true e = (omega arith, tt)
      by_empty false e = (
        omega (arith, length-take-le (min limit 50) (m.by_name mates)),
        all_wanted _ (
            take-All _ (min limit 50) (m.by_name mates) (
              sorts _ mates
                (kept_satisfy (λ (p : Profile). not (p.id == u) && is_found m (trim q) p) ps))),
      )

      chat_found :
          (length (search_users m u q limit ps) ≤ 50)
          × All (λ p. is_wanted u q false p ≡ true) (search_users m u q limit ps)
      chat_found = by_empty (is_empty (trim q)) refl
